-- ===== src/Runtime/StringPtr.antt =====
-- Strings of the runtime (`StringPtr` of runtime/src/allocator/string.rs), read from the bytes that start at their tag. A read
-- past the end of the memory is none.
use jankscripten.Prelude.{
  ℕ, ◌+◌, ◌*◌, Option, none, some, List, ◌∷◌, leb, if◌then◌else◌, length, take, drop,
}

-- `u32::from_le`
abbrev pub from_le : ℕ → ℕ → ℕ → ℕ → ℕ
from_le a b c d = a + b * 256 + c * 65536 + d * 16777216

unfoldable pub word_at : List ℕ → Option ℕ
word_at (a ∷ b ∷ c ∷ d ∷ rest) = some (from_le a b c d)
word_at _ = none

-- `StringPtr::len`, four bytes after the tag's start
unfoldable pub len_of : List ℕ → Option ℕ
unfolding word_at
len_of memory = word_at (drop 4 memory)

unfoldable pub slice_from : List ℕ → Option ℕ → Option (List ℕ)
slice_from bytes none = none
slice_from bytes (some n) = if leb n (length bytes) then some (take n bytes) else none

-- `Deref for StringPtr`: the bytes of the string
unfoldable pub deref : List ℕ → Option (List ℕ)
unfolding len_of slice_from
deref memory = slice_from (drop 8 memory) (len_of memory)
