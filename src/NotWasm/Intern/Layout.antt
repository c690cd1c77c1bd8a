-- ===== src/NotWasm/Intern/Layout.antt =====
-- Where an interned string lies in the data, and that the runtime reads it there.
use jankscripten.Prelude.{
  ℕ, zero, suc, ◌+◌, ◌-◌, ◌/◌, ◌%◌, ◌^◌, ◌≤◌, ◌<◌, ◌≡◌, refl, ap, ◌∙◌, true, some, List, [], ◌∷◌,
  ◌++◌, arith, leb, length, length-append, take, drop,
}
use mathlib.Core.List.{append_assoc}
use jankscripten.Prelude.{length-replicate}
use jankscripten.Runtime.StringPtr.{from_le, word_at, len_of, slice_from, deref}
use jankscripten.NotWasm.Intern.{string_tag, u32, to_le, padding, layout}

-- the data can be addressed by 32 bits
abbrev pub Fits : List ℕ → Type 0
Fits segment = length segment < 2 ^ 32

-- At the offset, which is a multiple of four, stand the tag of strings, the length and the bytes.
pub record Stored (segment bytes : List ℕ) (offset : ℕ) : Type 0 where
  pub rest : List ℕ
  pub below : offset ≤ length segment
  pub stands : drop offset segment ≡ string_tag ++ (to_le (length bytes) ++ (bytes ++ rest))
  pub aligned : offset % 4 ≡ 0
  pub small : length bytes < 2 ^ 32

drop-append : (n : ℕ) (xs ys : List ℕ) → n ≤ length xs → drop n (xs ++ ys) ≡ drop n xs ++ ys
drop-append zero xs ys l = refl
drop-append (suc n) [] ys l = absurd (omega arith)
drop-append (suc n) (x ∷ xs) ys l = drop-append n xs ys (omega arith)

drop-length : (xs ys : List ℕ) → drop (length xs) (xs ++ ys) ≡ ys
drop-length [] ys = refl
drop-length (x ∷ xs) ys = drop-length xs ys

take-append : (xs ys : List ℕ) → take (length xs) (xs ++ ys) ≡ xs
take-append [] ys = refl
take-append (x ∷ xs) ys = ap (λ r. x ∷ r) (take-append xs ys)

-- More data after a string leaves it where it is.
pub Stored-append :
    (segment more bytes : List ℕ) (offset : ℕ)
    → Stored segment bytes offset
    → Stored (segment ++ more) bytes offset
Stored-append segment more bytes offset s = record {
  rest = s.rest ++ more;
  below = (let e = length-append segment more in let b = s.below in omega arith);
  stands =
      drop-append offset segment more s.below
      ∙ (ap (λ r. r ++ more) s.stands
          ∙ ap (λ r. string_tag ++ (to_le (length bytes) ++ r)) (append_assoc bytes s.rest more));
  aligned = s.aligned;
  small = s.small;
}

length-layout :
    (bytes : List ℕ)
    → length (layout bytes) ≡ 8 + length bytes + length (padding (u32 (length bytes)))
length-layout bytes = let e = length-append bytes (padding (u32 (length bytes))) in omega arith

-- The padding makes the length a multiple of four.
pub layout-aligned : (bytes : List ℕ) → length (layout bytes) % 4 ≡ 0
layout-aligned bytes =
    let whole = length-layout bytes in
    let zeros = length-replicate {A = ℕ} (3 - u32 (u32 (u32 (length bytes) + 8) + 3) % 4) 0 in
    omega arith

pub Stored-new :
    (segment bytes : List ℕ)
    → length segment % 4 ≡ 0
    → Fits (segment ++ layout bytes)
    → Stored (segment ++ layout bytes) bytes (u32 (length segment))
Stored-new segment bytes aligned fits =
    let whole = length-layout bytes in
    let all = length-append segment (layout bytes) in
    let start : u32 (length segment) ≡ length segment = omega arith in
    let size : u32 (length bytes) ≡ length bytes = omega arith in
    record {
      rest = padding (u32 (length bytes));
      below = omega arith;
      stands =
          ap (λ n. drop n (segment ++ layout bytes)) start
          ∙ (drop-length segment (layout bytes)
              ∙ ap (λ n. string_tag ++ (to_le n ++ (bytes ++ padding (u32 (length bytes))))) size);
      aligned = omega arith;
      small = omega arith;
    }

from_le-to_le :
    (n : ℕ)
    → n < 2 ^ 32
    → from_le (n % 256) (n / 256 % 256) (n / 65536 % 256) (n / 16777216 % 256) ≡ n
from_le-to_le n small = omega arith

-- The runtime finds the bytes of the string at its offset.
pub deref-Stored :
    (segment bytes : List ℕ) (offset : ℕ)
    → Stored segment bytes offset
    → deref (drop offset segment) ≡ some bytes
unfolding deref len_of word_at slice_from
deref-Stored segment bytes offset s =
    let room = length-append bytes s.rest in
    let inside : leb (length bytes) (length (bytes ++ s.rest)) ≡ true = ground arith in
    ap deref s.stands ∙ rw (from_le-to_le (length bytes) s.small, inside, take-append bytes s.rest)
