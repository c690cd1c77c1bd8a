-- ===== src/Runtime/Object/Room.antt =====
-- Allocation of an object's data, with and without room for it.
use jankscripten.Prelude.{
  ℕ, ◌+◌, ◌-◌, ◌*◌, ltb, true, false, err, ◌≡◌, refl, none, some, [], ◌∷◌, ◌++◌, length, get_elem?,
  replicate, ok,
}
use jankscripten.Runtime.ClassList.{Class, ClassList, get_class, get_class_size}
use jankscripten.Runtime.Object.{
  Cell, Heap, Stop, alloc_slice, alloc_object_data, alloc_object_data_or_gc,
}

-- the bytes of an object's data with `n` fields
abbrev pub data_size : Heap → ℕ → ℕ
data_size h n = h.tag_size + h.field_size * n

-- the heap with the data of an object with `n` empty fields, and the classes `cs`
abbrev pub grown : Heap → ClassList → ℕ → ℕ → Heap
grown h cs tag n = record h {
  classes = cs;
  used_mem = h.used_mem + data_size h n;
  cells = h.cells ++ (Cell.data_cell tag (replicate n none) ∷ []);
}

alloc_slice-room :
    (h : Heap) (n : ℕ) (cell : Cell)
    → ltb (h.size - h.used_mem) (data_size h n) ≡ false
    → alloc_slice h n cell
      ≡ some (
        length h.cells,
        record h { used_mem = h.used_mem + data_size h n; cells = h.cells ++ (cell ∷ []) },
      )
unfolding alloc_slice
alloc_slice-room h n cell e = rw e refl

alloc_slice-full :
    (h : Heap) (n : ℕ) (cell : Cell)
    → ltb (h.size - h.used_mem) (data_size h n) ≡ true
    → alloc_slice h n cell ≡ none
unfolding alloc_slice
alloc_slice-full h n cell e = rw e refl

pub alloc_object_data-eq :
    (h : Heap) (cs : ClassList) (tag : ℕ) (c : Class)
    → get_elem? cs tag ≡ some c
    → ltb (h.size - h.used_mem) (data_size h c.size) ≡ false
    → alloc_object_data_or_gc (record h { classes = cs }) tag
      ≡ ok (length h.cells, grown h cs tag c.size)
unfolding alloc_object_data_or_gc alloc_object_data get_class_size get_class
alloc_object_data-eq h cs tag c e room =
    rw (e, alloc_slice-room (record h { classes = cs }) c.size _ room) refl

pub alloc_object_data-full :
    (h : Heap) (cs : ClassList) (tag : ℕ) (c : Class)
    → get_elem? cs tag ≡ some c
    → ltb (h.size - h.used_mem) (data_size h c.size) ≡ true
    → alloc_object_data_or_gc (record h { classes = cs }) tag ≡ err Stop.collects
unfolding alloc_object_data_or_gc alloc_object_data get_class_size get_class
alloc_object_data-full h cs tag c e full =
    rw (e, alloc_slice-full (record h { classes = cs }) c.size _ full) refl
