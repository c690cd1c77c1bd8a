-- ===== src/Runtime/Object.antt =====
-- Dynamic objects (runtime/src/allocator/object_ptr.rs): data cells laid out by hidden classes, and objects that
-- point to a data cell. An address is an index into the list of cells. Where the heap has no room for new data, the
-- source collects and tries again; that is modelled in Runtime.Gc, and here the run stops at that point.
pub mod Cells
pub mod Places
pub mod Room
pub mod Insert
pub mod Lookup
pub mod Cycle
pub mod Examples
use jankscripten.Prelude.{
  ℕ, zero, suc, ◌+◌, ◌-◌, ◌*◌, ◌/◌, ◌%◌, ◌^◌, ◌≤◌, ◌<◌, max, min, String, ◌≡◌, refl, sym, ap, ap₂,
  subst, ◌∙◌, ◌≢◌, ◌↔◌, ◌⊎◌, inl, inr, ite, if_pos, if_neg, Bool, true, false, not, ◌&&◌, ◌||◌,
  Option, none, some, List, [], ◌∷◌, ◌++◌, map, arith, str_eq, dec_lt, ℕ_discrete, ltb, leb, ◌==◌,
  if◌then◌else◌, Bool-cases, Option-cases, length, get_elem?, set, length-append, take, drop,
  replicate, Result, ok, err, panic, ◌>>=◌, ◌>>◌, ok_or, unwrap, >>=-ok,
}
use jankscripten.Runtime.ClassList.{Class, ClassList, lookup, transition, get_class, get_class_size}

pub data AnyEnum : Type 0 where
  i32 f64 closure ptr : ℕ → AnyEnum
  bool : Bool → AnyEnum
  undefined null : AnyEnum

pub data Cell : Type 0 where
  data_cell : ℕ → List (Option AnyEnum) → Cell
  object_cell : ℕ → Cell
  other_cell : Cell

pub record Heap : Type 0 where
  pub classes : ClassList
  pub cells : List Cell
  pub size : ℕ
  pub used_mem : ℕ
  pub tag_size : ℕ
  -- `std::mem::size_of::<Option<AnyEnum>>()`
  pub field_size : ℕ

-- `collects`: no space is left, and a collection begins
pub data Stop : Type 0 where
  out_of_fuel collects : Stop

abbrev pub Run : Type 0 → Type 0
Run A = Result Stop A

-- A cell of another kind where the source expects object data is a failed assertion.
unfoldable pub as_data : Option Cell → Run (ℕ × List (Option AnyEnum))
as_data (some (Cell.data_cell tag fields)) = ok (tag, fields)
as_data _ = panic

unfoldable pub data_at : Heap → ℕ → Run (ℕ × List (Option AnyEnum))
unfolding as_data
data_at h p = as_data (get_elem? h.cells p)

unfoldable pub read_at : Heap → ℕ → ℕ → Run (Option AnyEnum)
unfolding data_at
read_at h p index = data_at h p >>= λ (tag, fields). unwrap (get_elem? fields index)

unfoldable pub write_at : Heap → ℕ → ℕ → AnyEnum → Run Heap
unfolding data_at
write_at h p index value = data_at h p >>= λ (tag, fields).
    if ltb index (length fields)
    then ok
        (record h { cells = set h.cells p (Cell.data_cell tag (set fields index (some value))) })
    else panic

-- `Heap::alloc_slice`, for the data of an object with `n` fields
unfoldable pub alloc_slice : Heap → ℕ → Cell → Option (ℕ × Heap)
alloc_slice h n cell =
    if ltb (h.size - h.used_mem) (h.tag_size + h.field_size * n)
    then none
    else some (
      length h.cells,
      record h {
        used_mem = h.used_mem + (h.tag_size + h.field_size * n);
        cells = h.cells ++ (cell ∷ []);
      },
    )

-- `Heap::alloc_object_data`: every field is empty at first.
unfoldable pub alloc_object_data : Heap → ℕ → Run (Option (ℕ × Heap))
unfolding get_class_size alloc_slice
alloc_object_data h class_tag = unwrap (get_class_size h.classes class_tag) >>= λ size.
    ok (alloc_slice h size (Cell.data_cell class_tag (replicate size none)))

abbrev pub or_collects : Option (ℕ × Heap) → Run (ℕ × Heap)
or_collects none = err Stop.collects
or_collects (some r) = ok r

-- `Heap::alloc_object_data_or_gc`, up to the collection
unfoldable pub alloc_object_data_or_gc : Heap → ℕ → Run (ℕ × Heap)
unfolding alloc_object_data
alloc_object_data_or_gc h class_tag = alloc_object_data h class_tag >>= λ r. or_collects r

unfoldable pub write_some : Heap → ℕ → ℕ → Option AnyEnum → Run Heap
unfolding write_at
write_some h p index none = ok h
write_some h p index (some value) = write_at h p index value

-- `for i in 0..size`, from the index `i` on, for the `n` indices that are left
unfoldable pub copy_fields : Heap → ℕ → ℕ → ℕ → ℕ → Run Heap
unfolding read_at write_some
copy_fields h from to i zero = ok h
copy_fields h from to i (suc n) =
    read_at h from i >>= λ field. write_some h to i field >>= λ h'. copy_fields h' from to (i + 1) n

-- the `match` on the offset that the class has for the name
unfoldable pub insert_found : Heap → ℕ → ℕ → ℕ → String → AnyEnum → Option ℕ → Run (ℕ × Heap)
unfolding write_at alloc_object_data_or_gc copy_fields
insert_found h p tag size name value (some offset) = write_at h p offset value >>= λ h'. ok (p, h')
insert_found h p tag size name value none =
    unwrap (transition h.classes tag name) >>= λ (classes', new_tag).
    alloc_object_data_or_gc (record h { classes = classes' }) new_tag >>= λ (q, h1).
    copy_fields h1 p q 0 size >>= λ h2. write_at h2 q size value >>= λ h3. ok (q, h3)

-- `ObjectDataPtr::insert`: the data cell that now holds the object, the heap and the cache.
unfoldable pub insert_data : Heap → ℕ → String → AnyEnum → Option ℕ → Run (ℕ × Heap × Option ℕ)
unfolding data_at get_class lookup insert_found
insert_data h p name value cache = data_at h p >>= λ (tag, fields).
    unwrap (get_class h.classes tag) >>= λ c.
    let (found, cache') = lookup c name cache in
    insert_found h p tag c.size name value found >>= λ (q, h'). ok (q, h', cache')

-- `Deref` of an object
unfoldable pub as_object : Option Cell → Run ℕ
as_object (some (Cell.object_cell p)) = ok p
as_object _ = panic

-- `ObjectPtr::insert`: the object then points to the data cell that holds it.
unfoldable pub insert : Heap → ℕ → String → AnyEnum → Option ℕ → Run (Heap × Option ℕ)
unfolding as_object insert_data
insert h object name value cache = as_object (get_elem? h.cells object) >>= λ p.
    insert_data h p name value cache >>= λ (q, h', cache').
    ok (record h' { cells = set h'.cells object (Cell.object_cell q) }, cache')

unfoldable pub data_of_object : Option Cell → Option ℕ
data_of_object (some (Cell.object_cell p)) = some p
data_of_object _ = none

-- `match_object`, with the dereference that its caller makes
unfoldable pub match_object : Heap → AnyEnum → Option ℕ
unfolding data_of_object
match_object h (AnyEnum.ptr object) = data_of_object (get_elem? h.cells object)
match_object h _ = none

-- The search in the prototype, with the call of `get` on its data cell as an argument.
unfoldable pub get_from : (ℕ → Run (AnyEnum × Option ℕ)) → Option ℕ → Run AnyEnum
get_from get_at none = ok AnyEnum.undefined
get_from get_at (some p) = get_at p >>= λ (value, _). ok value

unfoldable pub get_proto : (ℕ → Run (AnyEnum × Option ℕ)) → Heap → ℕ → Option ℕ → Run AnyEnum
unfolding read_at match_object get_from
get_proto get_at h p none = ok AnyEnum.undefined
get_proto get_at h p (some offset) =
    read_at h p offset >>= λ field. unwrap field >>= λ proto. get_from get_at (match_object h proto)

unfoldable pub get_found :
    (ℕ → Run (AnyEnum × Option ℕ)) → Heap → ℕ → Class → Option ℕ → Run AnyEnum
unfolding read_at lookup get_proto
get_found get_at h p c (some offset) = read_at h p offset >>= λ field. unwrap field
get_found get_at h p c none =
    let (proto, _) = lookup c "__proto__" none in get_proto get_at h p proto

-- `ObjectDataPtr::get` on fuel, as a chain of prototypes can be a cycle; the value and the cache.
unfoldable pub get : ℕ → Heap → ℕ → String → Option ℕ → Run (AnyEnum × Option ℕ)
unfolding data_at get_class lookup get_found
get zero h p name cache = err out_of_fuel
get (suc n) h p name cache = data_at h p >>= λ (tag, fields).
    unwrap (get_class h.classes tag) >>= λ c.
    let (found, cache') = lookup c name cache in
    get_found (λ q. get n h q name none) h p c found >>= λ value. ok (value, cache')
