-- ===== src/Runtime/Gc.antt =====
-- The heap and its mark-and-sweep collector (runtime/src/allocator/mod.rs, heap_values.rs, heap_types.rs, env.rs and
-- string.rs). The memory is the list of the blocks that were ever allocated, and a block's address is its index;
-- a freed block leaves `none`, and following a pointer to it is undefined behaviour, an error value here. The blocks
-- that are not in `alloc_list` are those of the static strings. The sizes of Rust's types are parameters.
pub mod Collect
pub mod Allocate
pub mod Moves
pub mod Relocate
pub mod Pointers
pub mod Reach
pub mod Marks
pub mod Visit
pub mod Turns
pub mod Phase
pub mod Sweep
pub mod Whole
pub mod Safety
pub mod Correct
pub mod Accounts
pub mod Examples
use jankscripten.Prelude.{
  ℕ, zero, suc, ◌+◌, ◌-◌, ◌*◌, ◌/◌, ◌%◌, ◌^◌, ◌≤◌, ◌<◌, max, min, String, ◌≡◌, refl, sym, ap, ap₂,
  subst, ◌∙◌, ◌≢◌, ◌↔◌, ◌⊎◌, inl, inr, ite, if_pos, if_neg, Bool, true, false, not, ◌&&◌, ◌||◌,
  Option, none, some, List, [], ◌∷◌, ◌++◌, map, arith, str_eq, dec_lt, ℕ_discrete, ltb, leb, ◌==◌,
  if◌then◌else◌, Bool-cases, Option-cases, length, get_elem?, set, length-append, take, drop,
  replicate, Result, ok, err, panic, ◌>>=◌, ◌>>◌, ok_or, unwrap, >>=-ok,
}
use jankscripten.Runtime.Object.{AnyEnum}
use jankscripten.Runtime.F64Allocator.{F64Allocator, Undefined, alloc}

-- What follows a tag, by the type of the tag; a number stands for an address or for bits.
pub data Content : Type 0 where
  string : List ℕ → Content
  ht : List (ℕ × AnyEnum) → Content
  array : List AnyEnum → Content
  any : AnyEnum → Content
  dyn_object : ℕ → List (Option AnyEnum) → Content
  object_ptr_ptr : ℕ → Content
  env : List AnyEnum → ℕ → Content
  non_ptr_32 mut_f64 ptr : ℕ → Content

pub record Block : Type 0 where
  pub marked : Bool
  pub content : Content

-- a hidden class, with the addresses of the names of its properties
pub record ClassKeys : Type 0 where
  pub size : ℕ
  pub keys : List ℕ

pub record Heap : Type 0 where
  pub f64_allocator : F64Allocator
  pub size : ℕ
  pub used_mem : ℕ
  pub alloc_list : List ℕ
  pub classes : List ClassKeys
  pub shadow_stack : List (List (Option ℕ))
  pub memory : List (Option Block)

pub data Fault : Type 0 where
  dangling out_of_bounds out_of_fuel : Fault

abbrev pub Run : Type 0 → Type 0
Run A = Result Fault A

-- `std::mem::size_of` for the types that a block can hold
pub record Sizes : Type 0 where
  pub alignment : ℕ
  pub tag : ℕ
  pub any_enum : ℕ
  pub option_any_enum : ℕ
  pub object_ptr : ℕ
  pub hash_map : ℕ
  pub vec : ℕ
  pub any_value : ℕ
  pub i32 : ℕ
  pub f64 : ℕ
  pub any_ptr : ℕ

abbrev pub layout_aligned : ℕ → ℕ → ℕ
layout_aligned size alignment = (size + alignment - 1) / alignment * alignment

abbrev pub class_size : List ClassKeys → ℕ → Option ℕ
class_size cs tag = elim (get_elem? cs tag) [ none ↦ none | some c ↦ some c.size ]

abbrev pub class_keys : List ClassKeys → ℕ → Option (List ℕ)
class_keys cs tag = elim (get_elem? cs tag) [ none ↦ none | some c ↦ some c.keys ]

-- `HeapPtr for TypePtr<T>`, of the size of T
abbrev pub typed_size : Sizes → ℕ → ℕ
typed_size z size = layout_aligned size z.alignment

abbrev pub string_size : List ℕ → ℕ
string_size bytes = length bytes + 4

-- `size` is the number of elements, if the class exists
abbrev pub object_data_size : Sizes → Option ℕ → Option ℕ
object_data_size z none = none
object_data_size z (some size) = some (z.option_any_enum * size)

abbrev pub env_size : Sizes → List AnyEnum → ℕ
env_size z values = z.any_enum * length values + 4 + z.object_ptr

-- `none` is the panic on a class tag that no class has
unfoldable pub get_data_size : Sizes → List ClassKeys → Content → Option ℕ
get_data_size z cs (Content.string bytes) = some (string_size bytes)
get_data_size z cs (Content.ht entries) = some (typed_size z z.hash_map)
get_data_size z cs (Content.array values) = some (typed_size z z.vec)
get_data_size z cs (Content.any value) = some (typed_size z z.any_value)
get_data_size z cs (Content.dyn_object tag fields) = object_data_size z (class_size cs tag)
get_data_size z cs (Content.object_ptr_ptr p) = some z.alignment
get_data_size z cs (Content.env values fn_obj) = some (env_size z values)
get_data_size z cs (Content.non_ptr_32 n) = some (typed_size z z.i32)
get_data_size z cs (Content.mut_f64 n) = some (typed_size z z.f64)
get_data_size z cs (Content.ptr p) = some (typed_size z z.any_ptr)

-- the addresses that `AnyEnum::insert_ptr` adds
unfoldable pub insert_ptr : AnyEnum → List ℕ
insert_ptr (AnyEnum.ptr p) = p ∷ []
insert_ptr (AnyEnum.closure p) = p ∷ []
insert_ptr _ = []

unfoldable pub iter_to_ptrs {ℓ} : {X : Type ℓ} → (X → List ℕ) → List X → List ℕ
iter_to_ptrs pick [] = []
iter_to_ptrs pick (x ∷ xs) = pick x ++ iter_to_ptrs pick xs

unfoldable pub insert_entry : ℕ × AnyEnum → List ℕ
unfolding insert_ptr
insert_entry (key, value) = insert_ptr value

unfoldable pub insert_field : Option AnyEnum → List ℕ
unfolding insert_ptr
insert_field none = []
insert_field (some value) = insert_ptr value

-- object data holds its fields' addresses, and those of the names that its class has
abbrev pub object_data_ptrs : Option (List ℕ) → List (Option AnyEnum) → Option (List ℕ)
object_data_ptrs none fields = none
object_data_ptrs (some keys) fields = some (iter_to_ptrs insert_field fields ++ keys)

abbrev pub env_ptrs : List AnyEnum → ℕ → List ℕ
env_ptrs values fn_obj = iter_to_ptrs insert_ptr values ++ (fn_obj ∷ [])

-- The addresses that `get_gc_ptrs` returns; what it says of the numbers is in `relocate`.
unfoldable pub get_gc_ptrs : List ClassKeys → Content → Option (List ℕ)
unfolding insert_ptr iter_to_ptrs insert_entry insert_field
get_gc_ptrs cs (Content.string bytes) = some []
get_gc_ptrs cs (Content.ht entries) = some (iter_to_ptrs insert_entry entries)
get_gc_ptrs cs (Content.array values) = some (iter_to_ptrs insert_ptr values)
get_gc_ptrs cs (Content.any value) = some (iter_to_ptrs insert_ptr (value ∷ []))
get_gc_ptrs cs (Content.dyn_object tag fields) = object_data_ptrs (class_keys cs tag) fields
get_gc_ptrs cs (Content.object_ptr_ptr p) = some (p ∷ [])
get_gc_ptrs cs (Content.env values fn_obj) = some (env_ptrs values fn_obj)
get_gc_ptrs cs (Content.non_ptr_32 n) = some []
get_gc_ptrs cs (Content.mut_f64 n) = some []
get_gc_ptrs cs (Content.ptr p) = some (p ∷ [])

abbrev pub as_run {ℓ} : {X : Type ℓ} → Result Undefined X → Result Fault X
as_run (ok r) = ok r
as_run (err e) = err out_of_bounds
as_run panic = panic

unfoldable pub alloc_f64 : F64Allocator → ℕ → Run (Option ℕ × F64Allocator)
alloc_f64 a x = as_run (alloc a x)

-- `*ptr = f64_allocator.alloc(**ptr).unwrap()`, where the number is in the space that was swapped out
unfoldable pub move_any : F64Allocator → AnyEnum → Run (AnyEnum × F64Allocator)
unfolding alloc_f64
move_any a (AnyEnum.f64 i) = ok_or (get_elem? a.other_space i) dangling >>= λ x.
    alloc_f64 a x >>= λ (address, a'). unwrap address >>= λ p. ok (AnyEnum.f64 p, a')
move_any a value = ok (value, a)

unfoldable pub move_entry : F64Allocator → ℕ × AnyEnum → Run ((ℕ × AnyEnum) × F64Allocator)
unfolding move_any
move_entry a (key, value) = move_any a value >>= λ (value', a'). ok ((key, value'), a')

unfoldable pub move_field : F64Allocator → Option AnyEnum → Run (Option AnyEnum × F64Allocator)
unfolding move_any
move_field a none = ok (none, a)
move_field a (some value) = move_any a value >>= λ (value', a'). ok (some value', a')

unfoldable pub move_each :
    {X : Type 0}
    → (F64Allocator → X → Run (X × F64Allocator))
    → F64Allocator
    → List X
    → Run (List X × F64Allocator)
move_each move a [] = ok ([], a)
move_each move a (x ∷ xs) =
    move a x >>= λ (x', a'). move_each move a' xs >>= λ (xs', a''). ok (x' ∷ xs', a'')

-- `for ptr in f64s`: the numbers of a block move to the current space, in order
unfoldable pub relocate : F64Allocator → Content → Run (Content × F64Allocator)
unfolding move_any move_entry move_field move_each
relocate a (Content.ht entries) =
    move_each move_entry a entries >>= λ (entries', a'). ok (Content.ht entries', a')
relocate a (Content.array values) =
    move_each move_any a values >>= λ (values', a'). ok (Content.array values', a')
relocate a (Content.any value) = move_any a value >>= λ (value', a'). ok (Content.any value', a')
relocate a (Content.dyn_object tag fields) =
    move_each move_field a fields >>= λ (fields', a'). ok (Content.dyn_object tag fields', a')
relocate a (Content.env values fn_obj) =
    move_each move_any a values >>= λ (values', a'). ok (Content.env values' fn_obj, a')
relocate a (Content.string bytes) = ok (Content.string bytes, a)
relocate a (Content.object_ptr_ptr p) = ok (Content.object_ptr_ptr p, a)
relocate a (Content.non_ptr_32 n) = ok (Content.non_ptr_32 n, a)
relocate a (Content.mut_f64 n) = ok (Content.mut_f64 n, a)
relocate a (Content.ptr p) = ok (Content.ptr p, a)
