-- ===== src/Runtime/Gc/Allocate.antt =====
-- Allocation with collection on demand, and the shadow stack (runtime/src/allocator/mod.rs). Rust's allocator always
-- gives an address that was not in use before.
use jankscripten.Prelude.{
  ℕ, ◌+◌, ◌-◌, false, Option, none, some, List, [], ◌∷◌, ◌++◌, ltb, if◌then◌else◌, length,
  get_elem?, set, replicate, ok, panic, ◌>>=◌, unwrap,
}
use jankscripten.Runtime.F64Allocator.{F64Allocator}
use jankscripten.Runtime.Object.{AnyEnum}
use jankscripten.Runtime.Gc.{
  Content, ClassKeys, Heap, Run, Sizes, class_size, string_size, env_size, object_data_size,
  typed_size, alloc_f64,
}
use jankscripten.Runtime.Gc.Collect.{tag_size, gc}

-- what is allocated: a string, an environment, the data of an object, or by `alloc` a value of a type with a tag
pub data Request : Type 0 where
  str : List ℕ → Request
  env : List AnyEnum → ℕ → Request
  object_data : ℕ → Request
  hash_map : List (ℕ × AnyEnum) → Request
  vec : List AnyEnum → Request
  any_value : AnyEnum → Request
  object_data_ptr any_ptr i32 f64 : ℕ → Request

-- The size that is asked for: that of the type for `alloc`, and for the others what they compute; `none` is a panic.
unfoldable pub requested_size : Sizes → List ClassKeys → Request → Option ℕ
requested_size z cs (Request.str bytes) = some (string_size bytes)
requested_size z cs (Request.env values fn_obj) = some (env_size z values)
requested_size z cs (Request.object_data tag) = object_data_size z (class_size cs tag)
requested_size z cs (Request.hash_map entries) = some (typed_size z z.hash_map)
requested_size z cs (Request.vec values) = some (typed_size z z.vec)
requested_size z cs (Request.any_value value) = some (typed_size z z.any_value)
requested_size z cs (Request.object_data_ptr p) = some (typed_size z z.object_ptr)
requested_size z cs (Request.any_ptr p) = some (typed_size z z.any_ptr)
requested_size z cs (Request.i32 n) = some (typed_size z z.i32)
requested_size z cs (Request.f64 x) = some (typed_size z z.f64)

abbrev pub empty_fields : ℕ → Option ℕ → Option Content
empty_fields tag none = none
empty_fields tag (some n) = some (Content.dyn_object tag (replicate n none))

-- What is written, as the collector views it by its tag; the tag of an f64 is Ptr.
unfoldable pub written : List ClassKeys → Request → Option Content
written cs (Request.str bytes) = some (Content.string bytes)
written cs (Request.env values fn_obj) = some (Content.env values fn_obj)
written cs (Request.object_data tag) = empty_fields tag (class_size cs tag)
written cs (Request.hash_map entries) = some (Content.ht entries)
written cs (Request.vec values) = some (Content.array values)
written cs (Request.any_value value) = some (Content.any value)
written cs (Request.object_data_ptr p) = some (Content.object_ptr_ptr p)
written cs (Request.any_ptr p) = some (Content.ptr p)
written cs (Request.i32 n) = some (Content.non_ptr_32 n)
written cs (Request.f64 x) = some (Content.ptr x)

-- `Heap::alloc_raw`, and the write of the tag and of the contents that follows it; `none` when there is no space
unfoldable pub alloc_raw : Heap → ℕ → Content → Option (ℕ × Heap)
alloc_raw h bytes content =
    if ltb (h.size - h.used_mem) bytes
    then none
    else some (
      length h.memory,
      record h {
        used_mem = h.used_mem + bytes;
        alloc_list = length h.memory ∷ h.alloc_list;
        memory = h.memory ++ (some (record { marked = false; content = content }) ∷ []);
      },
    )

unfoldable pub alloc_block : Sizes → Heap → Request → Run (Option (ℕ × Heap))
unfolding requested_size written alloc_raw
alloc_block z h request = unwrap (requested_size z h.classes request) >>= λ n.
    unwrap (written h.classes request) >>= λ content. ok (alloc_raw h (tag_size z + n) content)

unfoldable pub retry_alloc : Sizes → Heap → Request → Option (ℕ × Heap) → Run (ℕ × Heap)
unfolding gc alloc_block
retry_alloc z h request (some r) = ok r
retry_alloc z h request none = gc z h >>= λ h'. alloc_block z h' request >>= λ again. unwrap again

-- `alloc_or_gc`, `alloc_str_or_gc`, `alloc_env_or_gc` and `alloc_object_data_or_gc`
unfoldable pub alloc_or_gc : Sizes → Heap → Request → Run (ℕ × Heap)
unfolding alloc_block retry_alloc
alloc_or_gc z h request = alloc_block z h request >>= λ first. retry_alloc z h request first

unfoldable pub retry_f64 : Sizes → Heap → ℕ → Option ℕ × F64Allocator → Run (ℕ × Heap)
unfolding gc alloc_f64
retry_f64 z h x (some p, a) = ok (p, record h { f64_allocator = a })
retry_f64 z h x (none, a) = gc z (record h { f64_allocator = a }) >>= λ h'.
    alloc_f64 h'.f64_allocator x >>= λ (address, a').
    unwrap address >>= λ p. ok (p, record h' { f64_allocator = a' })

unfoldable pub alloc_f64_or_gc : Sizes → Heap → ℕ → Run (ℕ × Heap)
unfolding alloc_f64 retry_f64
alloc_f64_or_gc z h x = alloc_f64 h.f64_allocator x >>= λ first. retry_f64 z h x first

unfoldable pub push_shadow_frame : Heap → ℕ → Heap
push_shadow_frame h slots = record h {
  shadow_stack = h.shadow_stack ++ (replicate slots none ∷ []);
}

abbrev pub pop {ℓ} : {X : Type ℓ} → List X → List X
pop [] = []
pop (x ∷ []) = []
pop (x ∷ y ∷ xs) = x ∷ pop (y ∷ xs)

unfoldable pub pop_shadow_frame : Heap → Heap
pop_shadow_frame h = record h { shadow_stack = pop h.shadow_stack }

-- An index out of bounds panics.
unfoldable pub set_in_shadow_frame_slot : Heap → ℕ → ℕ → Option ℕ → Run Heap
set_in_shadow_frame_slot h frame slot p = unwrap (get_elem? h.shadow_stack frame) >>= λ slots.
    if ltb slot (length slots)
    then ok (record h { shadow_stack = set h.shadow_stack frame (set slots slot p) })
    else panic

unfoldable pub set_in_current_shadow_frame_slot : Heap → ℕ → Option ℕ → Run Heap
unfolding set_in_shadow_frame_slot
set_in_current_shadow_frame_slot h slot p =
    set_in_shadow_frame_slot h (length h.shadow_stack - 1) slot p
