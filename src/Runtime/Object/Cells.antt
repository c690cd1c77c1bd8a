-- ===== src/Runtime/Object/Cells.antt =====
-- Reading, writing and copying the fields of data cells.
use jankscripten.Prelude.{
  ℕ, zero, suc, ◌+◌, ◌≤◌, ◌<◌, ◌≡◌, refl, sym, ap, subst, ◌∙◌, ◌≢◌, inl, inr, true, Option, none,
  some, List, arith, ℕ_discrete, ltb, Option-cases, length, get_elem?, set, ok,
}
use jankscripten.Prelude.{length-set, get_elem?-set_self, get_elem?-set_ne, lt→ltb}
use jankscripten.Runtime.ClassList.Tree.{get_elem?-lt}
use jankscripten.Runtime.ClassList.Transition.{get_elem?-inside}
use jankscripten.Runtime.Object.{
  AnyEnum, Cell, Heap, as_data, data_at, read_at, write_at, write_some, copy_fields,
}

-- the cell at that address is object data with these fields
abbrev pub IsData : Heap → ℕ → ℕ → List (Option AnyEnum) → Type 0
IsData h p tag fields = get_elem? h.cells p ≡ some (Cell.data_cell tag fields)

pub data_at-eq :
    (h : Heap) (p tag : ℕ) (fields : List (Option AnyEnum))
    → IsData h p tag fields
    → data_at h p ≡ ok (tag, fields)
unfolding data_at as_data
data_at-eq h p tag fields e = rw e

pub read_at-eq :
    (h : Heap) (p tag i : ℕ) (fields : List (Option AnyEnum)) (field : Option AnyEnum)
    → IsData h p tag fields
    → get_elem? fields i ≡ some field
    → read_at h p i ≡ ok field
unfolding read_at
read_at-eq h p tag i fields field e f = rw (data_at-eq h p tag fields e, f)

abbrev pub written : Heap → ℕ → ℕ → List (Option AnyEnum) → Heap
written h p tag fields = record h { cells = set h.cells p (Cell.data_cell tag fields) }

pub write_at-eq :
    (h : Heap) (p tag i : ℕ) (fields : List (Option AnyEnum)) (value : AnyEnum)
    → IsData h p tag fields
    → i < length fields
    → write_at h p i value ≡ ok (written h p tag (set fields i (some value)))
unfolding write_at
write_at-eq h p tag i fields value e l =
    let inside : ltb i (length fields) ≡ true = lt→ltb _ _ l in
    rw (data_at-eq h p tag fields e, inside)

pub written-IsData :
    (h : Heap) (p tag tag' : ℕ) (fields fields' : List (Option AnyEnum))
    → IsData h p tag fields
    → IsData (written h p tag' fields') p tag' fields'
written-IsData h p tag tag' fields fields' e =
    get_elem?-set_self h.cells p (Cell.data_cell tag' fields') (get_elem?-lt h.cells p _ e)

pub written-IsData_ne :
    (h : Heap) (p q tag tag' : ℕ) (fields fields' : List (Option AnyEnum))
    → q ≢ p
    → IsData h p tag fields
    → IsData (written h q tag' fields') p tag fields
written-IsData_ne h p q tag tag' fields fields' n e =
    get_elem?-set_ne h.cells (Cell.data_cell tag' fields') n ∙ e

-- The target's fields after the fields from `i` on, `n` of them, are copied.
pub record Copied (h : Heap) (from to i n tag' : ℕ) (fields gs : List (Option AnyEnum))
    : Type 0 where
  pub after : Heap
  pub result : List (Option AnyEnum)
  pub returned : copy_fields h from to i n ≡ ok after
  pub same_classes : after.classes ≡ h.classes
  pub target : IsData after to tag' result
  pub same_length : length result ≡ length gs
  pub copied : (j : ℕ) → i ≤ j → j < i + n → get_elem? result j ≡ get_elem? fields j
  pub kept : (j : ℕ) → j < i → get_elem? result j ≡ get_elem? gs j

pub copy_fields-Copied :
    (n : ℕ) (h : Heap) (from to i tag tag' : ℕ) (fields gs : List (Option AnyEnum))
    → to ≢ from
    → IsData h from tag fields
    → IsData h to tag' gs
    → i + n ≤ length fields
    → i + n ≤ length gs
    → ((j : ℕ) → i ≤ j → j < i + n → get_elem? gs j ≡ some none)
    → Copied h from to i n tag' fields gs
unfolding copy_fields write_some
copy_fields-Copied zero h from to i tag tag' fields gs n e e' l l' empty = record {
  after = h;
  result = gs;
  returned = refl;
  same_classes = refl;
  target = e';
  same_length = refl;
  copied = λ j a b. absurd (omega arith);
  kept = λ j a. refl;
}
copy_fields-Copied (suc n) h from to i tag tag' fields gs ne e e' l l' empty =
    let (field, at) = get_elem?-inside fields i (omega arith) in
    elim (Option-cases field) [
      | inl nothing ↦
          let rest =
            copy_fields-Copied n h from to (i + 1) tag tag' fields gs ne e e' (omega arith)
              (omega arith) (λ j a b. empty j (omega arith) (omega arith)) in
          record {
            after = rest.after;
            result = rest.result;
            returned = rw (read_at-eq h from tag i fields field e at, nothing, rest.returned);
            same_classes = rest.same_classes;
            target = rest.target;
            same_length = rest.same_length;
            copied = λ j a b. elim (ℕ_discrete i j) [
              | yes p ↦
                  subst (λ j. get_elem? rest.result j ≡ get_elem? fields j) p
                    (rest.kept i (omega arith)
                      ∙ (empty i (omega arith) (omega arith) ∙ (ap some (sym nothing) ∙ sym at)))
              | no p ↦ rest.copied j (omega arith) (omega arith)
            ];
            kept = λ j a. rest.kept j (omega arith);
          }
      | inr (value, something) ↦
          let gs1 = set gs i (some value) in
          let h1 = written h to tag' gs1 in
          let size : length gs1 ≡ length gs = length-set gs i (some value) in
          let rest =
            copy_fields-Copied n h1 from to (i + 1) tag tag' fields gs1 ne
              (written-IsData_ne h from to tag tag' fields gs1 ne e)
              (written-IsData h to tag' tag' gs gs1 e') (omega arith) (omega arith)
              (λ j a b.
                get_elem?-set_ne gs (some value) (λ p. absurd (omega arith))
                ∙ empty j (omega arith) (omega arith)) in
          record {
            after = rest.after;
            result = rest.result;
            returned = rw (
              read_at-eq h from tag i fields field e at,
              something,
              write_at-eq h to tag' i gs value e' (omega arith),
              rest.returned,
            );
            same_classes = rest.same_classes;
            target = rest.target;
            same_length = rest.same_length ∙ size;
            copied = λ j a b. elim (ℕ_discrete i j) [
              | yes p ↦
                  subst (λ j. get_elem? rest.result j ≡ get_elem? fields j) p
                    (rest.kept i (omega arith)
                      ∙ (get_elem?-set_self gs i (some value) (omega arith)
                          ∙ (ap some (sym something) ∙ sym at)))
              | no p ↦ rest.copied j (omega arith) (omega arith)
            ];
            kept = λ j a.
                rest.kept j (omega arith)
                ∙ get_elem?-set_ne gs (some value) (λ p. absurd (omega arith));
          }
    ]
