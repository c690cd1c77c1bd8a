-- ===== src/StringEscaping/Examples.antt =====
-- Literals, with the code points of their characters.
use jankscripten.Prelude.{◌≡◌, refl, [], ◌∷◌, ◌++◌, ok, err}
use jankscripten.StringEscaping.{
  UnescapingError, unescape_string, run, turn, after_backslash, other_escape, control, hex2,
  from_str_radix, digits, digit_value,
}
use jankscripten.StringEscaping.RoundTrip.{escape, unescape_string-escape}

-- a quote, a backslash and the letter n
unescape_string-escape_example :
    unescape_string (34 ∷ (escape (39 ∷ 92 ∷ 110 ∷ []) ++ (34 ∷ []))) ≡ ok (39 ∷ 92 ∷ 110 ∷ [])
unescape_string-escape_example = unescape_string-escape 34 34 (39 ∷ 92 ∷ 110 ∷ []) refl refl

-- "\x4f"
unescape_string-hex : unescape_string (34 ∷ 92 ∷ 120 ∷ 52 ∷ 102 ∷ 34 ∷ []) ≡ ok (79 ∷ [])
unfolding unescape_string run turn after_backslash other_escape control hex2 from_str_radix digits
    digit_value
unescape_string-hex = refl

-- "\x+f" is taken as well
unescape_string-plus : unescape_string (34 ∷ 92 ∷ 120 ∷ 43 ∷ 102 ∷ 34 ∷ []) ≡ ok (15 ∷ [])
unfolding unescape_string run turn after_backslash other_escape control hex2 from_str_radix digits
    digit_value
unescape_string-plus = refl

-- 'a without a second quote
unescape_string-open : unescape_string (39 ∷ 97 ∷ []) ≡ err (UnescapingError.at_offset 1)
unfolding unescape_string run turn
unescape_string-open = refl
