-- ===== src/Runtime/F64Allocator.antt =====
-- The allocator of floating-point numbers (runtime/src/allocator/f64_allocator.rs). A number is its bit pattern, and
-- a pointer is the index in the space where the number was put.
pub mod Keeps
pub mod Full
pub mod Examples
use jankscripten.Prelude.{
  ℕ, zero, suc, ◌+◌, ◌-◌, ◌*◌, ◌/◌, ◌%◌, ◌^◌, ◌≤◌, ◌<◌, max, min, String, ◌≡◌, refl, sym, ap, ap₂,
  subst, ◌∙◌, ◌≢◌, ◌↔◌, ◌⊎◌, inl, inr, ite, if_pos, if_neg, Bool, true, false, not, ◌&&◌, ◌||◌,
  Option, none, some, List, [], ◌∷◌, ◌++◌, map, arith, str_eq, dec_lt, ℕ_discrete, ltb, leb, ◌==◌,
  if◌then◌else◌, Bool-cases, Option-cases, length, get_elem?, set, length-append, take, drop,
  replicate, Result, ok, err, panic, ◌>>=◌, ◌>>◌, ok_or, unwrap, >>=-ok,
}

abbrev pub len : ℕ
len = 1000

pub record F64Allocator : Type 0 where
  pub current_space : List ℕ
  pub other_space : List ℕ
  pub next_slot : ℕ

unfoldable pub new_allocator : F64Allocator
new_allocator = record {
  current_space = replicate len 0;
  other_space = replicate len 0;
  next_slot = 0;
}

-- The source writes with `get_unchecked_mut`; a write past the end is undefined behaviour there.
pub data Undefined : Type 0 where
  out_of_bounds : Undefined

unfoldable pub write : F64Allocator → ℕ → ℕ → Result Undefined (Option ℕ × F64Allocator)
write a index value =
    if ltb index (length a.current_space)
    then ok (some index, record a { current_space = set a.current_space index value })
    else err out_of_bounds

-- `panic` is the failed assertion.
unfoldable pub alloc : F64Allocator → ℕ → Result Undefined (Option ℕ × F64Allocator)
unfolding write
alloc a value =
    let index = a.next_slot in
    let a' = record a { next_slot = index + 1 } in
    if leb index len
    then (if index + 1 == len then ok (none, a') else write a' index value)
    else panic

unfoldable pub semispace_swap : F64Allocator → F64Allocator
semispace_swap a = record {
  current_space = a.other_space;
  other_space = a.current_space;
  next_slot = 0;
}
