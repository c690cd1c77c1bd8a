-- ===== src/Runtime/Gc/Pointers.antt =====
-- The addresses that a block holds, read off its contents, against those that `get_gc_ptrs` returns. The addresses of the
-- keys of a hash table are left out: they are not among what the collector asks for.
use jankscripten.Prelude.{
  ℕ, ◌≡◌, refl, sym, ap, subst, ◌∙◌, ◌↔◌, inl, inr, Option, none, some, List, [], ◌∷◌, ◌++◌, arith,
  get_elem?,
}
use jankscripten.Prelude.{some-inj}
use mathlib.Core.List.{Memᴰ}
use mathlib.Core.List.Memᴰ
use jankscripten.Runtime.Object.{AnyEnum}
use jankscripten.Runtime.Gc.{
  Content, ClassKeys, get_gc_ptrs, insert_ptr, insert_entry, insert_field, iter_to_ptrs,
  object_data_ptrs,
}

-- the address in a value: of a heap value, or of the environment of a closure
pub data Holds : AnyEnum → ℕ → Type 0 where
  ptr : {q : ℕ} → Holds (AnyEnum.ptr q) q
  closure : {q : ℕ} → Holds (AnyEnum.closure q) q

pub data PointsTo (cs : List ClassKeys) : Content → ℕ → Type 0 where
  table_value :
      {entries : List (ℕ × AnyEnum)} {key q : ℕ} {value : AnyEnum}
      → Memᴰ (key, value) entries
      → Holds value q
      → PointsTo cs (Content.ht entries) q
  element :
      {values : List AnyEnum} {q : ℕ} {value : AnyEnum}
      → Memᴰ value values
      → Holds value q
      → PointsTo cs (Content.array values) q
  boxed : {q : ℕ} {value : AnyEnum} → Holds value q → PointsTo cs (Content.any value) q
  field :
      {tag q : ℕ} {fields : List (Option AnyEnum)} {value : AnyEnum}
      → Memᴰ (some value) fields
      → Holds value q
      → PointsTo cs (Content.dyn_object tag fields) q
  property_name :
      {tag q : ℕ} {fields : List (Option AnyEnum)} {c : ClassKeys}
      → get_elem? cs tag ≡ some c
      → Memᴰ q c.keys
      → PointsTo cs (Content.dyn_object tag fields) q
  object_data : {q : ℕ} → PointsTo cs (Content.object_ptr_ptr q) q
  captured :
      {values : List AnyEnum} {fn_obj q : ℕ} {value : AnyEnum}
      → Memᴰ value values
      → Holds value q
      → PointsTo cs (Content.env values fn_obj) q
  function_object :
      {values : List AnyEnum} {fn_obj : ℕ} → PointsTo cs (Content.env values fn_obj) fn_obj
  ptr : {q : ℕ} → PointsTo cs (Content.ptr q) q

-- the class of an object's data exists
abbrev pub IsKnown : List ClassKeys → Content → Type 0
IsKnown cs (Content.dyn_object tag fields) = (c : ClassKeys) × (get_elem? cs tag ≡ some c)
IsKnown cs _ = Unit {0}

insert_ptr-Holds : (value : AnyEnum) (q : ℕ) → Memᴰ q (insert_ptr value) → Holds value q
unfolding insert_ptr
insert_ptr-Holds (AnyEnum.ptr p) q x =
    subst (Holds (AnyEnum.ptr p)) (sym (Memᴰ.eq_of_singleton x)) Holds.ptr
insert_ptr-Holds (AnyEnum.closure p) q x =
    subst (Holds (AnyEnum.closure p)) (sym (Memᴰ.eq_of_singleton x)) Holds.closure
insert_ptr-Holds (AnyEnum.i32 n) q x = absurd (Memᴰ.not-nil x)
insert_ptr-Holds (AnyEnum.f64 n) q x = absurd (Memᴰ.not-nil x)
insert_ptr-Holds (AnyEnum.bool b) q x = absurd (Memᴰ.not-nil x)
insert_ptr-Holds AnyEnum.undefined q x = absurd (Memᴰ.not-nil x)
insert_ptr-Holds AnyEnum.null q x = absurd (Memᴰ.not-nil x)

Holds-insert_ptr : (value : AnyEnum) (q : ℕ) → Holds value q → Memᴰ q (insert_ptr value)
unfolding insert_ptr
Holds-insert_ptr _ q Holds.ptr = Memᴰ.head refl
Holds-insert_ptr _ q Holds.closure = Memᴰ.head refl

module _ {X : Type 0} (pick : X → List ℕ) where
  iter_to_ptrs-from :
      (xs : List X) (q : ℕ) → Memᴰ q (iter_to_ptrs pick xs) → (x : X) × Memᴰ x xs × Memᴰ q (pick x)
  unfolding iter_to_ptrs
  iter_to_ptrs-from [] q m = absurd (Memᴰ.not-nil m)
  iter_to_ptrs-from (x ∷ xs) q m = elim (Memᴰ.append_cases (pick x) m) [
    | inl y ↦ (x, Memᴰ.head refl, y)
    | inr y ↦ let (x', at, here) = iter_to_ptrs-from xs q y in (x', Memᴰ.tail at, here)
  ]

  iter_to_ptrs-all :
      (xs : List X) (x : X) (q : ℕ) → Memᴰ x xs → Memᴰ q (pick x) → Memᴰ q (iter_to_ptrs pick xs)
  unfolding iter_to_ptrs
  iter_to_ptrs-all [] x q at m = absurd (Memᴰ.not-nil at)
  iter_to_ptrs-all (y ∷ xs) x q at m = elim (Memᴰ.cases_cons at) [
    | inl e ↦ Memᴰ.append_left (iter_to_ptrs pick xs) (subst (λ x. Memᴰ q (pick x)) e m)
    | inr at' ↦ Memᴰ.append_right (pick y) (iter_to_ptrs-all xs x q at' m)
  ]

insert_field-Holds :
    (slot : Option AnyEnum) (q : ℕ)
    → Memᴰ q (insert_field slot)
    → (value : AnyEnum) × (slot ≡ some value) × Holds value q
unfolding insert_field
insert_field-Holds none q x = absurd (Memᴰ.not-nil x)
insert_field-Holds (some value) q x = (value, refl, insert_ptr-Holds value q x)

module _ (cs : List ClassKeys) where
  object_data_ptrs-PointsTo :
      (tag q : ℕ) (fields : List (Option AnyEnum)) (found : Option ClassKeys) (ts : List ℕ)
      → get_elem? cs tag ≡ found
      → object_data_ptrs (elim found [ none ↦ none | some c ↦ some c.keys ]) fields ≡ some ts
      → IsKnown cs (Content.dyn_object tag fields)
        × (Memᴰ q ts ↔ PointsTo cs (Content.dyn_object tag fields) q)
  unfolding insert_field
  object_data_ptrs-PointsTo tag q fields none ts at e = absurd (ground arith)
  object_data_ptrs-PointsTo tag q fields (some c) ts at e = (
    (c, at),
    (
      λ m.
          elim (Memᴰ.append_cases (iter_to_ptrs insert_field fields)
            (subst (Memᴰ q) (sym (some-inj e)) m)) [
              | inl x ↦
                  let (slot, inside, y) = iter_to_ptrs-from insert_field fields q x in
                  let (value, same, holds) = insert_field-Holds slot q y in
                  PointsTo.field (subst (λ f. Memᴰ f fields) same inside) holds
              | inr x ↦ PointsTo.property_name at x
            ],
      λ p. subst (Memᴰ q) (some-inj e) (listed p),
    ),
  )
    where
      listed :
          PointsTo cs (Content.dyn_object tag fields) q
          → Memᴰ q (iter_to_ptrs insert_field fields ++ c.keys)
      listed (PointsTo.field {value = value} inside holds) = Memᴰ.append_left c.keys (
          iter_to_ptrs-all insert_field fields (some value) q inside
            (Holds-insert_ptr value q holds))
      listed (PointsTo.property_name {c = c'} at' x) =
          Memᴰ.append_right (iter_to_ptrs insert_field fields)
            (subst (λ (c : ClassKeys). Memᴰ q c.keys) (some-inj (sym at' ∙ at)) x)

  points :
      (c : Content) (q : ℕ) (ts : List ℕ) → get_gc_ptrs cs c ≡ some ts → PointsTo cs c q → Memᴰ q ts
  unfolding get_gc_ptrs insert_entry
  points (Content.ht entries) q ts e
        (PointsTo.table_value {key = key} {value = value} inside holds) =
      subst (Memᴰ q) (some-inj e) (
        iter_to_ptrs-all insert_entry entries (key, value) q inside
          (Holds-insert_ptr value q holds))
  points (Content.array values) q ts e (PointsTo.element {value = value} inside holds) =
      subst (Memᴰ q) (some-inj e)
        (iter_to_ptrs-all insert_ptr values value q inside (Holds-insert_ptr value q holds))
  points (Content.any value) q ts e (PointsTo.boxed holds) = subst (Memᴰ q) (some-inj e) (
      iter_to_ptrs-all insert_ptr (value ∷ []) value q (Memᴰ.head refl)
        (Holds-insert_ptr value q holds))
  points (Content.dyn_object tag fields) q ts e p =
      (object_data_ptrs-PointsTo tag q fields (get_elem? cs tag) ts refl e).1.1 p
  points (Content.object_ptr_ptr p) q ts e PointsTo.object_data =
      subst (Memᴰ q) (some-inj e) (Memᴰ.head refl)
  points (Content.env values fn_obj) q ts e (PointsTo.captured {value = value} inside holds) =
      subst (Memᴰ q) (some-inj e) (
        Memᴰ.append_left (fn_obj ∷ [])
          (iter_to_ptrs-all insert_ptr values value q inside (Holds-insert_ptr value q holds)))
  points (Content.env values fn_obj) q ts e PointsTo.function_object =
      subst (Memᴰ q) (some-inj e)
        (Memᴰ.append_right (iter_to_ptrs insert_ptr values) (Memᴰ.head refl))
  points (Content.string bytes) q ts e p = elim p [ ]
  points (Content.non_ptr_32 n) q ts e p = elim p [ ]
  points (Content.mut_f64 n) q ts e p = elim p [ ]
  points (Content.ptr p) q ts e PointsTo.ptr = subst (Memᴰ q) (some-inj e) (Memᴰ.head refl)

  traced :
      (c : Content) (q : ℕ) (ts : List ℕ) → get_gc_ptrs cs c ≡ some ts → Memᴰ q ts → PointsTo cs c q
  unfolding get_gc_ptrs insert_entry
  traced (Content.string bytes) q ts e m =
      absurd (Memᴰ.not-nil (subst (Memᴰ q) (sym (some-inj e)) m))
  traced (Content.ht entries) q ts e m =
      let ((key, value), inside, x) =
        iter_to_ptrs-from insert_entry entries q (subst (Memᴰ q) (sym (some-inj e)) m) in
      PointsTo.table_value inside (insert_ptr-Holds value q x)
  traced (Content.array values) q ts e m =
      let (value, inside, x) =
        iter_to_ptrs-from insert_ptr values q (subst (Memᴰ q) (sym (some-inj e)) m) in
      PointsTo.element inside (insert_ptr-Holds value q x)
  traced (Content.any value) q ts e m =
      let (value', inside, x) =
        iter_to_ptrs-from insert_ptr (value ∷ []) q (subst (Memᴰ q) (sym (some-inj e)) m) in
      PointsTo.boxed
        (subst (λ v. Holds v q) (Memᴰ.eq_of_singleton inside) (insert_ptr-Holds value' q x))
  traced (Content.dyn_object tag fields) q ts e m =
      (object_data_ptrs-PointsTo tag q fields (get_elem? cs tag) ts refl e).1.0 m
  traced (Content.object_ptr_ptr p) q ts e m =
      subst (PointsTo cs (Content.object_ptr_ptr p))
        (sym (Memᴰ.eq_of_singleton (subst (Memᴰ q) (sym (some-inj e)) m))) PointsTo.object_data
  traced (Content.env values fn_obj) q ts e m =
      elim (Memᴰ.append_cases (iter_to_ptrs insert_ptr values)
        (subst (Memᴰ q) (sym (some-inj e)) m)) [
          | inl x ↦
              let (value, inside, y) = iter_to_ptrs-from insert_ptr values q x in
              PointsTo.captured inside (insert_ptr-Holds value q y)
          | inr x ↦
              subst (PointsTo cs (Content.env values fn_obj)) (sym (Memᴰ.eq_of_singleton x))
                PointsTo.function_object
        ]
  traced (Content.non_ptr_32 n) q ts e m =
      absurd (Memᴰ.not-nil (subst (Memᴰ q) (sym (some-inj e)) m))
  traced (Content.mut_f64 n) q ts e m = absurd (Memᴰ.not-nil (subst (Memᴰ q) (sym (some-inj e)) m))
  traced (Content.ptr p) q ts e m =
      subst (PointsTo cs (Content.ptr p))
        (sym (Memᴰ.eq_of_singleton (subst (Memᴰ q) (sym (some-inj e)) m))) PointsTo.ptr

  -- What `get_gc_ptrs` returns are the addresses that the block holds.
  pub get_gc_ptrs-PointsTo :
      (c : Content) (q : ℕ) (ts : List ℕ) → get_gc_ptrs cs c ≡ some ts → Memᴰ q ts ↔ PointsTo cs c q
  get_gc_ptrs-PointsTo c q ts e = (traced c q ts e, points c q ts e)

  pub get_gc_ptrs-IsKnown : (c : Content) (ts : List ℕ) → get_gc_ptrs cs c ≡ some ts → IsKnown cs c
  unfolding get_gc_ptrs
  get_gc_ptrs-IsKnown (Content.dyn_object tag fields) ts e =
      (object_data_ptrs-PointsTo tag 0 fields (get_elem? cs tag) ts refl e).0
  get_gc_ptrs-IsKnown (Content.string bytes) ts e = tt
  get_gc_ptrs-IsKnown (Content.ht entries) ts e = tt
  get_gc_ptrs-IsKnown (Content.array values) ts e = tt
  get_gc_ptrs-IsKnown (Content.any value) ts e = tt
  get_gc_ptrs-IsKnown (Content.object_ptr_ptr p) ts e = tt
  get_gc_ptrs-IsKnown (Content.env values fn_obj) ts e = tt
  get_gc_ptrs-IsKnown (Content.non_ptr_32 n) ts e = tt
  get_gc_ptrs-IsKnown (Content.mut_f64 n) ts e = tt
  get_gc_ptrs-IsKnown (Content.ptr p) ts e = tt

  pub IsKnown-get_gc_ptrs :
      (c : Content) → IsKnown cs c → (ts : List ℕ) × (get_gc_ptrs cs c ≡ some ts)
  unfolding get_gc_ptrs
  IsKnown-get_gc_ptrs (Content.dyn_object tag fields) (c, at) = (
    iter_to_ptrs insert_field fields ++ c.keys,
    ap (λ found. object_data_ptrs (elim found [ none ↦ none | some c ↦ some c.keys ]) fields) at,
  )
  IsKnown-get_gc_ptrs (Content.string bytes) k = (_, refl)
  IsKnown-get_gc_ptrs (Content.ht entries) k = (_, refl)
  IsKnown-get_gc_ptrs (Content.array values) k = (_, refl)
  IsKnown-get_gc_ptrs (Content.any value) k = (_, refl)
  IsKnown-get_gc_ptrs (Content.object_ptr_ptr p) k = (_, refl)
  IsKnown-get_gc_ptrs (Content.env values fn_obj) k = (_, refl)
  IsKnown-get_gc_ptrs (Content.non_ptr_32 n) k = (_, refl)
  IsKnown-get_gc_ptrs (Content.mut_f64 n) k = (_, refl)
  IsKnown-get_gc_ptrs (Content.ptr p) k = (_, refl)
