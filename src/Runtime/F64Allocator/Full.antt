-- ===== src/Runtime/F64Allocator/Full.antt =====
-- What the allocator does when one slot is left.
use jankscripten.Prelude.{
  ℕ, ◌+◌, ◌≡◌, refl, true, false, none, arith, ltb, leb, ◌==◌, length, ok, err,
}
use jankscripten.Runtime.F64Allocator.{len, F64Allocator, out_of_bounds, alloc, write}

-- When one slot is left, an allocation returns nothing, leaves that slot unused, and the
-- allocation after it writes past the end of the space.
pub alloc-out_of_bounds :
    (a : F64Allocator) (v w : ℕ)
    → length a.current_space ≡ len
    → a.next_slot + 1 ≡ len
    → (a' : F64Allocator) × (alloc a v ≡ ok (none, a'))
      × (a'.current_space ≡ a.current_space)
      × (alloc a' w ≡ err out_of_bounds)
unfolding alloc write
alloc-out_of_bounds a v w size last =
    let allowed : leb a.next_slot len ≡ true = ground arith in
    let full : (a.next_slot + 1 == len) ≡ true = ground arith in
    let allowed' : leb (a.next_slot + 1) len ≡ true = ground arith in
    let past : (a.next_slot + 1 + 1 == len) ≡ false = ground arith in
    let outside : ltb (a.next_slot + 1) (length a.current_space) ≡ false = ground arith in
    (
      record a { next_slot = a.next_slot + 1 },
      rw (allowed, full),
      refl,
      rw (allowed', past, outside),
    )
