-- ===== src/Runtime/Object/Insert.antt =====
-- Insertion of a property into an object.
use jankscripten.Prelude.{
  ℕ, zero, suc, ◌+◌, ◌-◌, ◌^◌, ◌≤◌, ◌<◌, ltb, true, false, err, String, ◌≡◌, refl, sym, ap, ap₂,
  subst, ◌∙◌, ◌≢◌, ◌↔◌, inl, inr, Option, none, some, List, [], ◌∷◌, ◌++◌, arith, Bool-cases,
  Option-cases, length, get_elem?, set, length-append, replicate, ok,
}
use jankscripten.Runtime.Object.Room.{
  data_size, grown, alloc_object_data-eq, alloc_object_data-full,
}
use jankscripten.Runtime.Object.Places.{find-numbered, find-append_left}
use jankscripten.Prelude.{
  some-inj, length-set, length-replicate, get_elem?-set_self, get_elem?-set_ne,
}
use jankscripten.Runtime.ClassList.{Class, find, lookup, get_class}
use jankscripten.Runtime.ClassList.Tree.{
  numbered-append, ClassAt, IsNode, IsTree, get_elem?-lt, get_elem?-append, get_elem?-last,
}
use jankscripten.Runtime.ClassList.Transition.{transition-Grows, find-added, names_at}
use jankscripten.Runtime.Object.{AnyEnum, Cell, Heap, Run, Stop, insert_found, insert_data}
use jankscripten.Runtime.Object.Cells.{
  IsData, data_at-eq, write_at-eq, written, written-IsData, copy_fields-Copied,
}

-- An object's data: a cell with that tag and those fields, whose class has a place for each field, in a tree of classes.
pub record IsObject (h : Heap) (p : ℕ) (c : Class) (fields : List (Option AnyEnum)) : Type 0 where
  pub tag : ℕ
  pub cell : IsData h p tag fields
  pub class : get_elem? h.classes tag ≡ some c
  pub sized : length fields ≡ c.size
  pub tree : IsTree h.classes

-- The data after an insertion holds the value under its name, and every other property under its old place.
pub record Inserted (h : Heap) (p : ℕ) (c : Class) (fields : List (Option AnyEnum)) (name : String)
    (value : AnyEnum) : Type 0 where
  pub address : ℕ
  pub after : Heap
  pub cache : Option ℕ
  pub later : Class
  pub result : List (Option AnyEnum)
  pub returned : insert_data h p name value none ≡ ok (address, after, cache)
  pub object : IsObject after address later result
  pub place : ℕ
  pub found : find later.offsets name ≡ some place
  pub holds : get_elem? result place ≡ some (some value)
  pub others :
      (m : String) (k : ℕ)
      → m ≢ name
      → find c.offsets m ≡ some k
      → (find later.offsets m ≡ some k) × (get_elem? result k ≡ get_elem? fields k)

get_elem?-replicate {ℓ} :
    {A : Type ℓ} (n i : ℕ) (a : A) → i < n → get_elem? (replicate n a) i ≡ some a
get_elem?-replicate zero i a l = absurd (omega arith)
get_elem?-replicate (suc n) zero a l = refl
get_elem?-replicate (suc n) (suc i) a l = get_elem?-replicate n i a (omega arith)

module _ (h : Heap) (p : ℕ) (c : Class) (fields : List (Option AnyEnum)) (name : String)
    (value : AnyEnum) (object : IsObject h p c fields) where
  node : IsNode h.classes c
  node = object.tree object.tag c object.class

  find-names :
      (m : String) (k : ℕ)
      → find c.offsets m ≡ some k
      → (k < length fields) × (get_elem? node.ns k ≡ some m)
  find-names m k e =
      let size = object.sized in
      let count = node.sized in
      let (a, b, at) = find-numbered node.ns 0 m k (subst (λ o. find o m ≡ some k) node.holds e) in
      let same : k - 0 ≡ k = omega arith in
      (omega arith, subst (λ d. get_elem? node.ns d ≡ some m) same at)

  insert_data-known :
      (place : ℕ) → find c.offsets name ≡ some place → Inserted h p c fields name value
  unfolding insert_data insert_found lookup get_class
  insert_data-known place e =
      let (inside, at) = find-names name place e in
      record {
        address = p;
        after = written h p object.tag (set fields place (some value));
        cache = some place;
        later = c;
        result = set fields place (some value);
        returned = rw (
          data_at-eq h p object.tag fields object.cell,
          object.class,
          e,
          write_at-eq h p object.tag place fields value object.cell inside,
        );
        object = record {
          tag = object.tag;
          cell =
              written-IsData h p object.tag object.tag fields (set fields place (some value))
                object.cell;
          class = object.class;
          sized = length-set fields place (some value) ∙ object.sized;
          tree = object.tree;
        };
        place = place;
        found = e;
        holds = get_elem?-set_self fields place (some value) inside;
        others = λ m k n e'.
            let (inside', at') = find-names m k e' in
            (
              e',
              get_elem?-set_ne fields (some value) (λ same.
                  n (some-inj (sym at' ∙ (ap (λ k. get_elem? node.ns k) (sym same) ∙ at)))),
            );
      }

  insert_data-fresh :
      length h.classes < 2 ^ 16
      → find c.offsets name ≡ none
      → ltb (h.size - h.used_mem) (data_size h (c.size + 1)) ≡ false
      → Inserted h p c fields name value
  unfolding insert_data insert_found lookup get_class
  insert_data-fresh small missing room =
      let (classes', tag', moved, grows) =
        transition-Grows h.classes object.tag name object.tree small
          (get_elem?-lt h.classes object.tag c object.class) in
      let old : ClassAt h.classes object.tag node.ns = record {
        class = c;
        found = object.class;
        holds = node.holds;
      } in
      let new_at = grows.adds node.ns old in
      let c' = new_at.class in
      let node' = grows.tree tag' c' new_at.found in
      let same_names =
        names_at classes' tag' c' (node.ns ++ (name ∷ [])) node' new_at.found new_at in
      let count : c'.size ≡ length node.ns + 1 =
        node'.sized ∙ (ap (λ l. length l) same_names ∙ length-append node.ns (name ∷ [])) in
      let size = object.sized in
      let old_count = node.sized in
      let q = length h.cells in
      let blank = replicate {A = Option AnyEnum} c'.size none in
      let blank_length : length blank ≡ c'.size = length-replicate c'.size none in
      let h1 : Heap = grown h classes' tag' c'.size in
      let fits : ltb (h.size - h.used_mem) (data_size h c'.size) ≡ false =
        ap (λ n. ltb (h.size - h.used_mem) (data_size h n)) (omega arith) ∙ room in
      let here = get_elem?-lt h.cells p _ object.cell in
      let copy =
        copy_fields-Copied c.size h1 p q 0 object.tag tag' fields blank (λ e. absurd (omega arith))
          (get_elem?-append h.cells (Cell.data_cell tag' blank ∷ []) p here ∙ object.cell)
          (get_elem?-last h.cells (Cell.data_cell tag' blank)) (omega arith) (omega arith)
          (λ j a b. get_elem?-replicate c'.size j none (omega arith)) in
      let h2 = copy.after in
      let longer = copy.same_length in
      let places : c'.offsets ≡ c.offsets ++ ((name, c.size) ∷ []) =
        new_at.holds
        ∙ (numbered-append 0 node.ns name
            ∙ ap₂ (λ o k. o ++ ((name, k) ∷ [])) (sym node.holds) (omega arith)) in
      record {
        address = q;
        after = written h2 q tag' (set copy.result c.size (some value));
        cache = none;
        later = c';
        result = set copy.result c.size (some value);
        returned = rw (
          data_at-eq h p object.tag fields object.cell,
          object.class,
          missing,
          moved,
          alloc_object_data-eq h classes' tag' c' new_at.found fits,
          copy.returned,
          write_at-eq h2 q tag' c.size copy.result value copy.target (omega arith),
        );
        object = record {
          tag = tag';
          cell =
              written-IsData h2 q tag' tag' copy.result (set copy.result c.size (some value))
                copy.target;
          class = ap (λ cs. get_elem? cs tag') copy.same_classes ∙ new_at.found;
          sized = length-set copy.result c.size (some value) ∙ (omega arith);
          tree = subst (λ cs. IsTree cs) (sym copy.same_classes) grows.tree;
        };
        place = c.size;
        found = ap (λ o. find o name) places ∙ find-added c.offsets name c.size missing;
        holds = get_elem?-set_self copy.result c.size (some value) (omega arith);
        others = λ m k n e.
            let (inside, at) = find-names m k e in
            (
              ap (λ o. find o m) places ∙ find-append_left c.offsets name m c.size k e,
              get_elem?-set_ne copy.result (some value) (λ same. absurd (omega arith))
                  ∙ copy.copied k (omega arith) (omega arith),
            );
      }

  -- Without room for the new data a collection begins.
  insert_data-full :
      length h.classes < 2 ^ 16
      → find c.offsets name ≡ none
      → ltb (h.size - h.used_mem) (data_size h (c.size + 1)) ≡ true
      → insert_data h p name value none ≡ err Stop.collects
  unfolding insert_data insert_found lookup get_class
  insert_data-full small missing full =
      let (classes', tag', moved, grows) =
        transition-Grows h.classes object.tag name object.tree small
          (get_elem?-lt h.classes object.tag c object.class) in
      let new_at =
        grows.adds node.ns (record { class = c; found = object.class; holds = node.holds }) in
      let c' = new_at.class in
      let node' = grows.tree tag' c' new_at.found in
      let same_names =
        names_at classes' tag' c' (node.ns ++ (name ∷ [])) node' new_at.found new_at in
      let count : c'.size ≡ length node.ns + 1 =
        node'.sized ∙ (ap (λ l. length l) same_names ∙ length-append node.ns (name ∷ [])) in
      let old_count = node.sized in
      let over : ltb (h.size - h.used_mem) (data_size h c'.size) ≡ true =
        ap (λ n. ltb (h.size - h.used_mem) (data_size h n)) (omega arith) ∙ full in
      rw
        (
          data_at-eq h p object.tag fields object.cell,
          object.class,
          missing,
          moved,
          alloc_object_data-full h classes' tag' c' new_at.found over,
        )
        refl

-- In a tree of fewer than 2^16 classes an insertion without a cache returns if the object has the property, or if the heap
-- has room for data with one field more: afterwards the value stands under its name, every other property of the
-- object has the field that it had, and the data is again laid out by a class of a tree.
pub insert_data-Inserted :
    (h : Heap) (p : ℕ) (c : Class) (fields : List (Option AnyEnum)) (name : String)
    (value : AnyEnum)
    → IsObject h p c fields
    → length h.classes < 2 ^ 16
    → (find c.offsets name ≡ none → h.used_mem + data_size h (c.size + 1) ≤ h.size)
    → Inserted h p c fields name value
insert_data-Inserted h p c fields name value object small room =
    elim (Option-cases (find c.offsets name)) [
      | inl missing ↦
          let fits = room missing in
          insert_data-fresh h p c fields name value object small missing (ground arith)
      | inr (place, found) ↦ insert_data-known h p c fields name value object place found
    ]

ok-ne-collects : {A : Type 0} (a : A) (m : Run A) → m ≡ ok a → m ≢ err Stop.collects
ok-ne-collects a m e e' = let clash = sym e ∙ e' in ground arith

-- In a tree of fewer than 2^16 classes, and within the heap's size, an insertion without a cache comes to a collection
-- exactly when the object lacks the property and the heap has no room for data with one field more.
pub insert_data-collects :
    (h : Heap) (p : ℕ) (c : Class) (fields : List (Option AnyEnum)) (name : String)
    (value : AnyEnum)
    → IsObject h p c fields
    → length h.classes < 2 ^ 16
    → h.used_mem ≤ h.size
    → (insert_data h p name value none ≡ err Stop.collects)
      ↔ ((find c.offsets name ≡ none) × (h.size < h.used_mem + data_size h (c.size + 1)))
insert_data-collects h p c fields name value object small within = (
  λ e. elim (Option-cases (find c.offsets name)) [
    | inl missing ↦ elim (Bool-cases (ltb (h.size - h.used_mem) (data_size h (c.size + 1)))) [
      | inl full ↦ (missing, ground arith)
      | inr room ↦
          let done = insert_data-fresh h p c fields name value object small missing room in
          absurd (ok-ne-collects _ _ done.returned e)
    ]
    | inr (place, found) ↦
        let done = insert_data-known h p c fields name value object place found in
        absurd (ok-ne-collects _ _ done.returned e)
  ],
  λ (missing, full). insert_data-full h p c fields name value object small missing (ground arith),
)
