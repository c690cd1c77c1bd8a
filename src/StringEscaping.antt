-- ===== src/StringEscaping.antt =====
-- libjankscripten/src/string_escaping.rs: from a string literal with its quotes to the string that it stands for.
-- A character is its code point. Of an error the offset is kept. `from_str_radix` of Rust's standard
-- library takes an optional plus sign and at least one digit; two and four hexadecimal digits fit into
-- a u8 and a u16.
pub mod RoundTrip
pub mod Fuel
pub mod Examples
use jankscripten.Prelude.{
  ℕ, zero, suc, ◌+◌, ◌-◌, ◌*◌, Bool, true, false, ◌&&◌, ◌||◌, not, ltb, leb, ◌==◌, if◌then◌else◌,
  Option, none, some, List, [], ◌∷◌, ◌++◌, length, Result, ok, err, ◌>>=◌,
}

pub data UnescapingError : Type 0 where
  at_offset : ℕ → UnescapingError
  out_of_fuel : UnescapingError

-- one turn of the loop: the string ends, or there is an error, or a character is pushed and the loop goes on
pub data Turn : Type 0 where
  returned : Turn
  failed : ℕ → Turn
  pushed : ℕ → (offset : ℕ) → (rest : List ℕ) → Turn

abbrev pub in_range : ℕ → ℕ → ℕ → Bool
in_range first last c = leb first c && leb c last

unfoldable pub digit_value : ℕ → Option ℕ
digit_value c =
    if in_range 48 57 c
    then some (c - 48)
    else if in_range 97 122 c
    then some (c - 87)
    else if in_range 65 90 c
    then some (c - 55)
    else none

abbrev pub digit_below : ℕ → Option ℕ → Option ℕ
digit_below radix none = none
digit_below radix (some d) = if ltb d radix then some d else none

abbrev pub add_digit : (ℕ → Option ℕ) → Option ℕ → Option ℕ
add_digit more none = none
add_digit more (some d) = more d

unfoldable pub digits : ℕ → ℕ → List ℕ → Option ℕ
unfolding digit_value
digits radix acc [] = some acc
digits radix acc (c ∷ cs) =
    add_digit (λ d. digits radix (acc * radix + d) cs) (digit_below radix (digit_value c))

abbrev pub unsigned : ℕ → List ℕ → Option ℕ
unsigned radix [] = none
unsigned radix (c ∷ cs) = digits radix 0 (c ∷ cs)

unfoldable pub from_str_radix : ℕ → List ℕ → Option ℕ
unfolding digits
from_str_radix radix [] = none
from_str_radix radix (c ∷ cs) = if c == 43 then unsigned radix cs else unsigned radix (c ∷ cs)

-- `char::from_u32` of a u16
abbrev pub from_u16 : Option ℕ → Option ℕ
from_u16 none = none
from_u16 (some n) = if in_range 55296 57343 n then none else some n

abbrev pub push_if : Option ℕ → ℕ → List ℕ → Turn
push_if none offset rest = Turn.failed offset
push_if (some c) offset rest = Turn.pushed c offset rest

abbrev pub is_quote : ℕ → Bool
is_quote c = (c == 34) || (c == 39)

unfoldable pub hex2 : ℕ → List ℕ → Turn
unfolding from_str_radix
hex2 offset (a ∷ b ∷ rest) = push_if (from_str_radix 16 (a ∷ b ∷ [])) offset rest
hex2 offset _ = Turn.failed offset

unfoldable pub hex4 : ℕ → List ℕ → Turn
unfolding from_str_radix
hex4 offset (a ∷ b ∷ c ∷ d ∷ rest) =
    push_if (from_u16 (from_str_radix 16 (a ∷ b ∷ c ∷ d ∷ []))) offset rest
hex4 offset _ = Turn.failed offset

-- the first digit, and the second if there is one
unfoldable pub octal : ℕ → ℕ → List ℕ → Turn
unfolding from_str_radix
octal ch offset [] = push_if (from_str_radix 8 (ch ∷ [])) offset []
octal ch offset (next ∷ rest) =
    if in_range 48 55 next
    then push_if (from_str_radix 8 (ch ∷ next ∷ [])) offset rest
    else push_if (from_str_radix 8 (ch ∷ [])) offset (next ∷ rest)

-- the letters that stand for a control character
unfoldable pub control : ℕ → Option ℕ
control c =
    if c == 110
    then some 10
    else if c == 114
    then some 13
    else if c == 116
    then some 9
    else if c == 102
    then some 12
    else if c == 98
    then some 8
    else if c == 118
    then some 11
    else none

unfoldable pub other_escape : Option ℕ → ℕ → ℕ → List ℕ → Turn
unfolding hex2 hex4 octal
other_escape (some c) ch offset rest = Turn.pushed c offset rest
other_escape none ch offset rest =
    if ch == 120
    then hex2 offset rest
    else if ch == 117
    then hex4 offset rest
    else if in_range 48 57 ch
    then octal ch offset rest
    else Turn.pushed ch offset rest

unfoldable pub after_backslash : ℕ → List ℕ → Turn
unfolding other_escape control
after_backslash offset [] = Turn.failed offset
after_backslash offset (ch ∷ rest) =
    if is_quote ch || (ch == 92)
    then Turn.pushed ch (offset + 1) rest
    else other_escape (control ch) ch (offset + 1) rest

abbrev pub after_quote : ℕ → List ℕ → Turn
after_quote offset [] = Turn.returned
after_quote offset (c ∷ rest) = Turn.failed offset

unfoldable pub turn : ℕ → ℕ → List ℕ → Turn
unfolding after_backslash
turn offset ch rest =
    if is_quote ch
    then after_quote offset rest
    else if not (ch == 92)
    then Turn.pushed ch offset rest
    else after_backslash offset rest

-- what the loop does after a turn
abbrev pub go_on :
    List ℕ
    → (ℕ → List ℕ → List ℕ → Result UnescapingError (List ℕ))
    → Turn
    → Result UnescapingError (List ℕ)
go_on buf more Turn.returned = ok buf
go_on buf more (Turn.failed offset) = err (UnescapingError.at_offset offset)
go_on buf more (Turn.pushed c offset rest) = more offset (buf ++ (c ∷ [])) rest

unfoldable pub run : ℕ → ℕ → List ℕ → List ℕ → Result UnescapingError (List ℕ)
unfolding turn
run fuel offset buf [] = err (UnescapingError.at_offset offset)
run zero offset buf (ch ∷ rest) = err UnescapingError.out_of_fuel
run (suc fuel) offset buf (ch ∷ rest) =
    go_on buf (λ offset' buf' rest'. run fuel offset' buf' rest') (turn (offset + 1) ch rest)

unfoldable pub unescape_string : List ℕ → Result UnescapingError (List ℕ)
unfolding run
unescape_string [] = err (UnescapingError.at_offset 0)
unescape_string (quote ∷ rest) =
    if is_quote quote then run (length rest) 0 [] rest else err (UnescapingError.at_offset 0)
