-- ===== src/Runtime/F64Allocator/Examples.antt =====
-- Allocations at concrete inputs.
use jankscripten.Prelude.{◌+◌, ◌<◌, ◌≡◌, refl, none, [], ◌∷◌, arith, length, replicate, ok, err}
use jankscripten.Prelude.{ℕ, length-replicate}
use jankscripten.Runtime.F64Allocator.{len, F64Allocator, new_allocator, alloc, out_of_bounds}
use jankscripten.Runtime.F64Allocator.Keeps.{Kept, alloc_all-Kept}
use jankscripten.Runtime.F64Allocator.Full.{alloc-out_of_bounds}

space-len : length new_allocator.current_space ≡ len
unfolding new_allocator
space-len = length-replicate {A = ℕ} len 0

room : new_allocator.next_slot + 2 < len
unfolding new_allocator
room = omega arith

alloc_all-Kept_example : Kept new_allocator (5 ∷ 6 ∷ [])
alloc_all-Kept_example = alloc_all-Kept (5 ∷ 6 ∷ []) new_allocator space-len room

abbrev nearly_full : F64Allocator
nearly_full = record { current_space = replicate len 0; other_space = []; next_slot = 999 }

alloc-out_of_bounds_example :
    (a' : F64Allocator) × (alloc nearly_full 5 ≡ ok (none, a'))
    × (a'.current_space ≡ nearly_full.current_space)
    × (alloc a' 6 ≡ err out_of_bounds)
alloc-out_of_bounds_example =
    alloc-out_of_bounds nearly_full 5 6 (length-replicate {A = ℕ} len 0) refl
