-- ===== src/Runtime/F64Allocator/Keeps.antt =====
-- What a run of allocations puts where.
use jankscripten.Prelude.{
  ℕ, ◌+◌, ◌<◌, ◌≡◌, refl, ◌∙◌, true, false, some, List, [], ◌∷◌, arith, ltb, leb, ◌==◌, length,
  get_elem?, set, Result, ok, ◌>>=◌, unwrap,
}
use jankscripten.Prelude.{length-set, get_elem?-set_self, get_elem?-set_ne, lt→ltb}
use jankscripten.Runtime.F64Allocator.{len, F64Allocator, Undefined, alloc, write}

-- Allocations in a row, each of which must succeed.
unfoldable pub alloc_all : F64Allocator → List ℕ → Result Undefined (List ℕ × F64Allocator)
alloc_all a [] = ok ([], a)
alloc_all a (v ∷ vs) = alloc a v >>= λ (address, a').
    unwrap address >>= λ p. alloc_all a' vs >>= λ (ps, a''). ok (p ∷ ps, a'')

abbrev pub slots : ℕ → List ℕ → List ℕ
slots i [] = []
slots i (v ∷ vs) = i ∷ slots (i + 1) vs

-- The values of `vs` stand in the space from `i` on.
abbrev pub Holds : List ℕ → ℕ → List ℕ → Type 0
Holds space i [] = Unit {0}
Holds space i (v ∷ vs) = (get_elem? space i ≡ some v) × Holds space (i + 1) vs

pub record Kept (a : F64Allocator) (vs : List ℕ) : Type 0 where
  pub after : F64Allocator
  pub returned : alloc_all a vs ≡ ok (slots a.next_slot vs, after)
  pub holds : Holds after.current_space a.next_slot vs
  pub earlier :
      (j : ℕ) → j < a.next_slot → get_elem? after.current_space j ≡ get_elem? a.current_space j
  pub other : after.other_space ≡ a.other_space
  pub next : after.next_slot ≡ a.next_slot + length vs

pub alloc-eq :
    (a : F64Allocator) (v : ℕ)
    → length a.current_space ≡ len
    → a.next_slot + 1 < len
    → alloc a v
      ≡ ok (
        some a.next_slot,
        record a { current_space = set a.current_space a.next_slot v; next_slot = a.next_slot + 1 },
      )
unfolding alloc write
alloc-eq a v size fits =
    let inside : ltb a.next_slot (length a.current_space) ≡ true = lt→ltb _ _ (omega arith) in
    let allowed : leb a.next_slot len ≡ true = ground arith in
    let last : (a.next_slot + 1 == len) ≡ false = ground arith in rw (allowed, last, inside)

-- From an allocator whose space has its full size, as many allocations as leave one slot free all succeed
-- and return the next slots in order; then each of the slots holds its value, and the numbers of earlier slots and of the other space are
-- as they were.
pub alloc_all-Kept :
    (vs : List ℕ) (a : F64Allocator)
    → length a.current_space ≡ len
    → a.next_slot + length vs < len
    → Kept a vs
unfolding alloc_all
alloc_all-Kept [] a size fits = record {
  after = a;
  returned = refl;
  holds = tt;
  earlier = λ j l. refl;
  other = refl;
  next = omega arith;
}
alloc_all-Kept (v ∷ vs) a size fits =
    let a' = record a {
      current_space = set a.current_space a.next_slot v;
      next_slot = a.next_slot + 1;
    } in
    let one : alloc a v ≡ ok (some a.next_slot, a') = alloc-eq a v size (omega arith) in
    let rest =
      alloc_all-Kept vs a' (length-set a.current_space a.next_slot v ∙ size) (omega arith) in
    record {
      after = rest.after;
      returned = rw (one, rest.returned);
      holds = (
        rest.earlier a.next_slot (omega arith)
            ∙ get_elem?-set_self a.current_space a.next_slot v (omega arith),
        rest.holds,
      );
      earlier = λ j l.
          rest.earlier j (omega arith)
          ∙ get_elem?-set_ne a.current_space v (λ e. absurd (omega arith));
      other = rest.other;
      next = (let e = rest.next in omega arith);
    }
