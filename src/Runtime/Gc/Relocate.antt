-- ===== src/Runtime/Gc/Relocate.antt =====
-- `relocate` on each kind of block.
use jankscripten.Prelude.{
  ℕ, ◌+◌, ◌*◌, ◌≡◌, refl, ap, Option, none, some, List, [], ◌∷◌, ◌++◌, arith, ok,
}
use jankscripten.Runtime.F64Allocator.{F64Allocator}
use jankscripten.Runtime.Object.{AnyEnum}
use jankscripten.Runtime.Gc.{
  Content, ClassKeys, Sizes, layout_aligned, get_data_size, get_gc_ptrs, insert_ptr, insert_entry,
  insert_field, iter_to_ptrs, move_any, move_entry, move_field, relocate, class_keys,
  object_data_size, object_data_ptrs, class_size,
}
use jankscripten.Runtime.Gc.Moves.{
  IsSized, Moved, Moves, numbers_of, InSpace, numbers_of_entry, EntryInSpace, numbers_of_field,
  FieldInSpace, total, Every, through, move_any-Moves, move_entry-Moves, move_field-Moves,
  move_each-Moves,
}

abbrev pub numbers_in : Content → ℕ
numbers_in (Content.ht entries) = total numbers_of_entry entries
numbers_in (Content.array values) = total numbers_of values
numbers_in (Content.any value) = numbers_of value
numbers_in (Content.dyn_object tag fields) = total numbers_of_field fields
numbers_in (Content.env values fn_obj) = total numbers_of values
numbers_in _ = 0

-- the numbers that a block holds lie in their space
abbrev pub ContentInSpace : Content → Type 0
ContentInSpace (Content.ht entries) = Every EntryInSpace entries
ContentInSpace (Content.array values) = Every InSpace values
ContentInSpace (Content.any value) = InSpace value
ContentInSpace (Content.dyn_object tag fields) = Every FieldInSpace fields
ContentInSpace (Content.env values fn_obj) = Every InSpace values
ContentInSpace _ = Unit {0}

abbrev pub look_content : Sizes → List ClassKeys → Content → Option (List ℕ) × Option ℕ
look_content z cs c = (get_gc_ptrs cs c, get_data_size z cs c)

abbrev names_after : List ℕ → Option (List ℕ) → Option (List ℕ)
names_after ps none = none
names_after ps (some keys) = some (ps ++ keys)

object_data_ptrs-names :
    (keys : Option (List ℕ)) (fields : List (Option AnyEnum))
    → object_data_ptrs keys fields ≡ names_after (iter_to_ptrs insert_field fields) keys
object_data_ptrs-names none fields = refl
object_data_ptrs-names (some keys) fields = refl

module _ (z : Sizes) (cs : List ClassKeys) where
  unmoved :
      (a : F64Allocator) (c : Content)
      → IsSized a
      → relocate a c ≡ ok (c, a)
      → ContentInSpace c
      → numbers_in c ≡ 0
      → Moved relocate (look_content z cs) numbers_in ContentInSpace a c
  unmoved a c size e good none_in = record {
    moved = c;
    after = a;
    returned = e;
    kept = refl;
    good = good;
    sized = size;
    next = omega arith;
  }

  pub relocate-Moves : Moves relocate (look_content z cs) numbers_in ContentInSpace
  unfolding relocate get_gc_ptrs get_data_size iter_to_ptrs
  relocate-Moves a (Content.ht entries) size room good =
      through relocate (look_content z cs) numbers_in ContentInSpace Content.ht
        (λ (ps, n). (some ps, some (layout_aligned z.hash_map z.alignment))) a entries refl
        (λ es. refl) refl (λ es g. g)
        (move_each-Moves move_entry insert_entry numbers_of_entry EntryInSpace move_entry-Moves a
          entries size room good)
  relocate-Moves a (Content.array values) size room good =
      through relocate (look_content z cs) numbers_in ContentInSpace Content.array
        (λ (ps, n). (some ps, some (layout_aligned z.vec z.alignment))) a values refl (λ vs. refl)
        refl (λ vs g. g)
        (move_each-Moves move_any insert_ptr numbers_of InSpace move_any-Moves a values size room
          good)
  relocate-Moves a (Content.any value) size room good =
      through relocate (look_content z cs) numbers_in ContentInSpace Content.any
        (λ ps. (some (ps ++ []), some (layout_aligned z.any_value z.alignment))) a value refl
        (λ v. refl) refl (λ v g. g) (move_any-Moves a value size room good)
  relocate-Moves a (Content.dyn_object tag fields) size room good =
      through relocate (look_content z cs) numbers_in ContentInSpace (Content.dyn_object tag)
        (λ (ps, n). (names_after ps (class_keys cs tag), object_data_size z (class_size cs tag))) a
        fields refl
        (λ fs.
          ap (λ ps. (ps, object_data_size z (class_size cs tag)))
            (object_data_ptrs-names (class_keys cs tag) fs))
        refl (λ fs g. g)
        (move_each-Moves move_field insert_field numbers_of_field FieldInSpace move_field-Moves a
          fields size room good)
  relocate-Moves a (Content.env values fn_obj) size room good =
      through relocate (look_content z cs) numbers_in ContentInSpace (λ vs. Content.env vs fn_obj)
        (λ (ps, n). (some (ps ++ (fn_obj ∷ [])), some (z.any_enum * n + 4 + z.object_ptr))) a values
        refl (λ vs. refl) refl (λ vs g. g)
        (move_each-Moves move_any insert_ptr numbers_of InSpace move_any-Moves a values size room
          good)
  relocate-Moves a (Content.string bytes) size room good =
      unmoved a (Content.string bytes) size refl tt refl
  relocate-Moves a (Content.object_ptr_ptr p) size room good =
      unmoved a (Content.object_ptr_ptr p) size refl tt refl
  relocate-Moves a (Content.non_ptr_32 n) size room good =
      unmoved a (Content.non_ptr_32 n) size refl tt refl
  relocate-Moves a (Content.mut_f64 n) size room good =
      unmoved a (Content.mut_f64 n) size refl tt refl
  relocate-Moves a (Content.ptr p) size room good = unmoved a (Content.ptr p) size refl tt refl
