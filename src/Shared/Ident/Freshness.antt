-- ===== src/Shared/Ident/Freshness.antt =====
-- No identifier comes out of a name generator twice.
use jankscripten.Prelude.{
  ℕ, ◌<◌, String, ◌≡◌, refl, subst, ◌≢◌, if_pos, if_neg, List, [], ◌∷◌, arith,
}
use jankscripten.Shared.Ident.{
  Ident, generated, String-discrete, NameGen, next_index, fresh, fresh_all,
}

abbrev pub Absent : Ident → List Ident → Type 0
Absent x [] = Unit {0}
Absent x (y ∷ ys) = (x ≢ y) × Absent x ys

abbrev pub Distinct : List Ident → Type 0
Distinct [] = Unit {0}
Distinct (x ∷ xs) = Absent x xs × Distinct xs

-- the generator has already given out the index `i` for `base`
abbrev Issued : NameGen → String → ℕ → Type 0
Issued ng base i = i < next_index (ng.next_name base)

pub generated-ne_index : (a b : String) (i j : ℕ) → i < j → generated a i ≢ generated b j
generated-ne_index a b i j h e = ground arith

generated-ne_base : (a b : String) (i j : ℕ) → a ≢ b → generated a i ≢ generated b j
generated-ne_base a b i j h e = ground arith

fresh-Issued_self :
    (ng : NameGen) (name : String) → Issued (fresh ng name).1 name (next_index (ng.next_name name))
unfolding fresh
fresh-Issued_self ng name = rw (if_pos (String-discrete name name) refl) (omega arith)

fresh-Issued :
    (ng : NameGen) (name base : String) (i : ℕ) → Issued ng base i → Issued (fresh ng name).1 base i
unfolding fresh
fresh-Issued ng name base i h = elim (String-discrete base name) [
  | yes p ↦ rw (if_pos (String-discrete base name) p) (
      let q : i < next_index (ng.next_name name) =
        subst (λ b. i < next_index (ng.next_name b)) p h in
      omega arith)
  | no p ↦ rw (if_neg (String-discrete base name) p) h
]

Issued-ne-fresh :
    (ng : NameGen) (name base : String) (i : ℕ)
    → Issued ng base i
    → generated base i ≢ (fresh ng name).0
unfolding fresh
Issued-ne-fresh ng name base i h = elim (String-discrete base name) [
  | yes p ↦ generated-ne_index base name i _ (subst (λ b. i < next_index (ng.next_name b)) p h)
  | no p ↦ generated-ne_base base name i _ p
]

Issued-Absent :
    (names : List String) (ng : NameGen) (base : String) (i : ℕ)
    → Issued ng base i
    → Absent (generated base i) (fresh_all ng names)
unfolding fresh_all
Issued-Absent [] ng base i h = tt
Issued-Absent (name ∷ names) ng base i h = (
  Issued-ne-fresh ng name base i h,
  Issued-Absent names (fresh ng name).1 base i (fresh-Issued ng name base i h),
)

fresh-generated :
    (ng : NameGen) (name : String)
    → (fresh ng name).0 ≡ generated name (next_index (ng.next_name name))
unfolding fresh
fresh-generated ng name = refl

-- The identifiers that a pass gets from one generator are pairwise distinct, whatever the
-- generator has given out before and whichever base names the pass asks for.
pub fresh_all-Distinct : (names : List String) (ng : NameGen) → Distinct (fresh_all ng names)
unfolding fresh_all
fresh_all-Distinct [] ng = tt
fresh_all-Distinct (name ∷ names) ng = (
  rw (fresh-generated ng name)
      (Issued-Absent names (fresh ng name).1 name _ (fresh-Issued_self ng name)),
  fresh_all-Distinct names (fresh ng name).1,
)
