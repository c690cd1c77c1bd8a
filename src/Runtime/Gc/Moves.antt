-- ===== src/Runtime/Gc/Moves.antt =====
-- A collection moves the numbers of a block to the other space and keeps everything else of the block.
use jankscripten.Prelude.{
  ℕ, suc, ◌+◌, ◌<◌, ◌≡◌, refl, sym, ap, ap₂, ◌∙◌, Option, none, some, List, [], ◌∷◌, ◌++◌, arith,
  length, set, ok, ◌>>=◌,
}
use jankscripten.Runtime.Object.{AnyEnum}
use jankscripten.Runtime.F64Allocator.{F64Allocator, len}
use jankscripten.Runtime.F64Allocator.Keeps.{alloc-eq}
use jankscripten.Prelude.{length-set}
use jankscripten.Runtime.ClassList.Transition.{get_elem?-inside}
use jankscripten.Runtime.Gc.{
  Run, insert_ptr, insert_entry, insert_field, iter_to_ptrs, alloc_f64, move_any, move_entry,
  move_field, move_each,
}

pub record IsSized (a : F64Allocator) : Type 0 where
  pub current : length a.current_space ≡ len
  pub other : length a.other_space ≡ len

-- `look` is what a move keeps, `count` the numbers that it moves.
module _ {X Y : Type 0} (move : F64Allocator → X → Run (X × F64Allocator)) (look : X → Y)
    (count : X → ℕ) (Good : X → Type 0) where
  pub record Moved (a : F64Allocator) (x : X) : Type 0 where
    pub moved : X
    pub after : F64Allocator
    pub returned : move a x ≡ ok (moved, after)
    pub kept : look moved ≡ look x
    pub good : Good moved
    pub sized : IsSized after
    pub next : after.next_slot ≡ a.next_slot + count x

  abbrev pub Moves : Type 0
  Moves = (a : F64Allocator) (x : X) → IsSized a → a.next_slot + count x < len → Good x → Moved a x

abbrev pub numbers_of : AnyEnum → ℕ
numbers_of (AnyEnum.f64 i) = 1
numbers_of _ = 0

-- a number's address lies in its space
abbrev pub InSpace : AnyEnum → Type 0
InSpace (AnyEnum.f64 i) = i < len
InSpace _ = Unit {0}

stays :
    (a : F64Allocator) (v : AnyEnum)
    → IsSized a
    → move_any a v ≡ ok (v, a)
    → InSpace v
    → numbers_of v ≡ 0
    → Moved move_any insert_ptr numbers_of InSpace a v
stays a v size e good zero_count = record {
  moved = v;
  after = a;
  returned = e;
  kept = refl;
  good = good;
  sized = size;
  next = omega arith;
}

pub move_any-Moves : Moves move_any insert_ptr numbers_of InSpace
unfolding move_any insert_ptr alloc_f64
move_any-Moves a (AnyEnum.f64 i) size room good =
    let (x, at) = get_elem?-inside a.other_space i (let e = size.other in omega arith) in
    let put = alloc-eq a x size.current (omega arith) in
    record {
      moved = AnyEnum.f64 a.next_slot;
      after = record a {
        current_space = set a.current_space a.next_slot x;
        next_slot = a.next_slot + 1;
      };
      returned = rw (at, put);
      kept = refl;
      good = omega arith;
      sized = record {
        current = length-set a.current_space a.next_slot x ∙ size.current;
        other = size.other;
      };
      next = refl;
    }
move_any-Moves a (AnyEnum.i32 n) size room good = stays a (AnyEnum.i32 n) size refl tt refl
move_any-Moves a (AnyEnum.closure n) size room good = stays a (AnyEnum.closure n) size refl tt refl
move_any-Moves a (AnyEnum.ptr n) size room good = stays a (AnyEnum.ptr n) size refl tt refl
move_any-Moves a (AnyEnum.bool n) size room good = stays a (AnyEnum.bool n) size refl tt refl
move_any-Moves a AnyEnum.undefined size room good = stays a AnyEnum.undefined size refl tt refl
move_any-Moves a AnyEnum.null size room good = stays a AnyEnum.null size refl tt refl

-- A wrapper around a value that a move reaches into is moved as the value is.
module _ {X X' Y Y' : Type 0} {move : F64Allocator → X → Run (X × F64Allocator)} {look : X → Y}
    {count : X → ℕ} {Good : X → Type 0} (move' : F64Allocator → X' → Run (X' × F64Allocator))
    (look' : X' → Y') (count' : X' → ℕ) (Good' : X' → Type 0) where
  pub through :
      (wrap : X → X') (see : Y → Y') (a : F64Allocator) (x : X)
      → (move' a (wrap x) ≡ (move a x >>= λ (y, a'). ok (wrap y, a')))
      → ((y : X) → look' (wrap y) ≡ see (look y))
      → count' (wrap x) ≡ count x
      → ((y : X) → Good y → Good' (wrap y))
      → Moved move look count Good a x
      → Moved move' look' count' Good' a (wrap x)
  through wrap see a x e looks counts goods m = record {
    moved = wrap m.moved;
    after = m.after;
    returned = e ∙ rw m.returned;
    kept = looks m.moved ∙ (ap see m.kept ∙ sym (looks x));
    good = goods m.moved m.good;
    sized = m.sized;
    next = rw counts m.next;
  }

abbrev pub numbers_of_entry : ℕ × AnyEnum → ℕ
numbers_of_entry (key, value) = numbers_of value

abbrev pub EntryInSpace : ℕ × AnyEnum → Type 0
EntryInSpace (key, value) = InSpace value

abbrev pub numbers_of_field : Option AnyEnum → ℕ
numbers_of_field none = 0
numbers_of_field (some value) = numbers_of value

abbrev pub FieldInSpace : Option AnyEnum → Type 0
FieldInSpace none = Unit {0}
FieldInSpace (some value) = InSpace value

pub move_entry-Moves : Moves move_entry insert_entry numbers_of_entry EntryInSpace
unfolding move_entry insert_entry
move_entry-Moves a (key, value) size room good =
    through move_entry insert_entry numbers_of_entry EntryInSpace (λ v. (key, v)) (λ ps. ps) a value
      refl (λ v. refl) refl (λ v g. g) (move_any-Moves a value size room good)

pub move_field-Moves : Moves move_field insert_field numbers_of_field FieldInSpace
unfolding move_field insert_field
move_field-Moves a none size room good = record {
  moved = none;
  after = a;
  returned = refl;
  kept = refl;
  good = tt;
  sized = size;
  next = omega arith;
}
move_field-Moves a (some value) size room good =
    through move_field insert_field numbers_of_field FieldInSpace some (λ ps. ps) a value refl
      (λ v. refl) refl (λ v g. g) (move_any-Moves a value size room good)

abbrev pub total {ℓ} : {X : Type ℓ} → (X → ℕ) → List X → ℕ
total count [] = 0
total count (x ∷ xs) = count x + total count xs

abbrev pub Every {ℓ κ} : {X : Type ℓ} → (X → Type κ) → List X → Type κ
Every Good [] = Unit
Every Good (x ∷ xs) = Good x × Every Good xs

-- the addresses that a list's values hold, and its length
abbrev pub look_each : {X : Type 0} → (X → List ℕ) → List X → List ℕ × ℕ
look_each look xs = (iter_to_ptrs look xs, length xs)

pub move_each-Moves :
    {X : Type 0} (move : F64Allocator → X → Run (X × F64Allocator)) (look : X → List ℕ)
    (count : X → ℕ) (Good : X → Type 0)
    → Moves move look count Good
    → Moves (move_each move) (look_each look) (total count) (Every Good)
unfolding move_each iter_to_ptrs
move_each-Moves move look count Good one a [] size room good = record {
  moved = [];
  after = a;
  returned = refl;
  kept = refl;
  good = tt;
  sized = size;
  next = omega arith;
}
move_each-Moves move look count Good one a (x ∷ xs) size room (good, goods) =
    let first = one a x size (omega arith) good in
    let reached = first.next in
    let rest =
      move_each-Moves move look count Good one first.after xs first.sized (omega arith) goods in
    record {
      moved = first.moved ∷ rest.moved;
      after = rest.after;
      returned = rw (first.returned, rest.returned);
      kept = ap₂ (λ p r. (let (ps, n) = r in (p ++ ps, suc n))) first.kept rest.kept;
      good = (first.good, rest.good);
      sized = rest.sized;
      next = (let e = rest.next in omega arith);
    }
