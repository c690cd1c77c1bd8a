-- ===== src/Runtime/Object/Lookup.antt =====
-- Lookup after insertion.
use jankscripten.Prelude.{
  ℕ, suc, ◌+◌, ◌^◌, ◌≤◌, ◌<◌, String, ◌≡◌, ◌∙◌, ◌≢◌, Option, none, some, List, length, get_elem?,
  ok,
}
use jankscripten.Runtime.ClassList.{Class, find, lookup, get_class}
use jankscripten.Runtime.Object.{AnyEnum, Heap, get_found, get, insert_data}
use jankscripten.Runtime.Object.Cells.{data_at-eq, read_at-eq}
use jankscripten.Runtime.Object.Room.{data_size}
use jankscripten.Runtime.Object.Insert.{IsObject, insert_data-Inserted}

get-own :
    (h : Heap) (p : ℕ) (c : Class) (fields : List (Option AnyEnum)) (name : String) (k : ℕ)
    (value : AnyEnum) (n : ℕ)
    → IsObject h p c fields
    → find c.offsets name ≡ some k
    → get_elem? fields k ≡ some (some value)
    → get (suc n) h p name none ≡ ok (value, some k)
unfolding get get_found lookup get_class
get-own h p c fields name k value n object place field = rw (
  data_at-eq h p object.tag fields object.cell,
  object.class,
  place,
  read_at-eq h p object.tag k fields (some value) object.cell field,
)

-- What lookups give after an insertion.
pub record Reads (h : Heap) (p : ℕ) (c : Class) (fields : List (Option AnyEnum)) (name : String)
    (value : AnyEnum) : Type 0 where
  pub address : ℕ
  pub after : Heap
  pub cache : Option ℕ
  pub place : ℕ
  pub returned : insert_data h p name value none ≡ ok (address, after, cache)
  pub inserted : (n : ℕ) → get (suc n) after address name none ≡ ok (value, some place)
  pub others :
      (m : String) (k : ℕ) (w : AnyEnum) (n : ℕ)
      → m ≢ name
      → find c.offsets m ≡ some k
      → get_elem? fields k ≡ some (some w)
      → (get (suc n) h p m none ≡ ok (w, some k))
        × (get (suc n) after address m none ≡ ok (w, some k))

-- In a tree of fewer than 2^16 classes, and where the heap has room for data with one field more if the object lacks the
-- property, an insertion without a cache returns, a lookup of the property then
-- finds the value on the object itself, and a lookup of any other property that the object had finds what it
-- found before.
pub insert_data-get :
    (h : Heap) (p : ℕ) (c : Class) (fields : List (Option AnyEnum)) (name : String)
    (value : AnyEnum)
    → IsObject h p c fields
    → length h.classes < 2 ^ 16
    → (find c.offsets name ≡ none → h.used_mem + data_size h (c.size + 1) ≤ h.size)
    → Reads h p c fields name value
insert_data-get h p c fields name value object small room =
    let done = insert_data-Inserted h p c fields name value object small room in
    record {
      address = done.address;
      after = done.after;
      cache = done.cache;
      place = done.place;
      returned = done.returned;
      inserted = λ n.
          get-own done.after done.address done.later done.result name done.place value n done.object
            done.found done.holds;
      others = λ m k w n ne found field.
          let (found', same) = done.others m k ne found in
          (
            get-own h p c fields m k w n object found field,
            get-own done.after done.address done.later done.result m k w n done.object found'
                (same ∙ field),
          );
    }
