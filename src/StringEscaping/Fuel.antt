-- ===== src/StringEscaping/Fuel.antt =====
-- The loop has fuel for every literal.
use jankscripten.Prelude.{
  ℕ, zero, suc, ◌+◌, ◌≤◌, ◌≢◌, Bool, true, false, ◌||◌, not, ◌==◌, if◌then◌else◌, Option, none,
  some, List, [], ◌∷◌, ◌++◌, length, Result, err, arith,
}
use jankscripten.StringEscaping.{
  UnescapingError, Turn, go_on, in_range, is_quote, push_if, hex2, hex4, octal, control,
  other_escape, after_backslash, after_quote, turn, run, unescape_string,
}

-- a turn leaves at most `n` characters
abbrev Leaves : ℕ → Turn → Type 0
Leaves n Turn.returned = Unit {0}
Leaves n (Turn.failed offset) = Unit {0}
Leaves n (Turn.pushed c offset rest) = length rest ≤ n

if-Leaves :
    (b : Bool) (n : ℕ) (s t : Turn) → Leaves n s → Leaves n t → Leaves n (if b then s else t)
if-Leaves true n s t h k = h
if-Leaves false n s t h k = k

push_if-Leaves :
    (c : Option ℕ) (n offset : ℕ) (rest : List ℕ)
    → length rest ≤ n
    → Leaves n (push_if c offset rest)
push_if-Leaves none n offset rest h = tt
push_if-Leaves (some c) n offset rest h = h

hex2-Leaves : (offset : ℕ) (rest : List ℕ) → Leaves (length rest) (hex2 offset rest)
unfolding hex2
hex2-Leaves offset [] = tt
hex2-Leaves offset (a ∷ []) = tt
hex2-Leaves offset (a ∷ b ∷ rest) = push_if-Leaves _ _ offset rest (omega arith)

hex4-Leaves : (offset : ℕ) (rest : List ℕ) → Leaves (length rest) (hex4 offset rest)
unfolding hex4
hex4-Leaves offset [] = tt
hex4-Leaves offset (a ∷ []) = tt
hex4-Leaves offset (a ∷ b ∷ []) = tt
hex4-Leaves offset (a ∷ b ∷ c ∷ []) = tt
hex4-Leaves offset (a ∷ b ∷ c ∷ d ∷ rest) = push_if-Leaves _ _ offset rest (omega arith)

octal-Leaves : (ch offset : ℕ) (rest : List ℕ) → Leaves (length rest) (octal ch offset rest)
unfolding octal
octal-Leaves ch offset [] = push_if-Leaves _ _ offset [] (omega arith)
octal-Leaves ch offset (next ∷ rest) =
    if-Leaves (in_range 48 55 next) _ _ _ (push_if-Leaves _ _ offset rest (omega arith))
      (push_if-Leaves _ _ offset (next ∷ rest) (omega arith))

other_escape-Leaves :
    (c : Option ℕ) (ch offset : ℕ) (rest : List ℕ)
    → Leaves (length rest) (other_escape c ch offset rest)
unfolding other_escape
other_escape-Leaves (some c) ch offset rest = omega arith
other_escape-Leaves none ch offset rest = if-Leaves (ch == 120) _ _ _ (hex2-Leaves offset rest) (
    if-Leaves (ch == 117) _ _ _ (hex4-Leaves offset rest)
      (if-Leaves (in_range 48 57 ch) _ _ _ (octal-Leaves ch offset rest) (omega arith)))

Leaves-more : (n m : ℕ) (t : Turn) → n ≤ m → Leaves n t → Leaves m t
Leaves-more n m Turn.returned l h = tt
Leaves-more n m (Turn.failed offset) l h = tt
Leaves-more n m (Turn.pushed c offset rest) l h = omega arith

after_backslash-Leaves :
    (offset : ℕ) (rest : List ℕ) → Leaves (length rest) (after_backslash offset rest)
unfolding after_backslash
after_backslash-Leaves offset [] = tt
after_backslash-Leaves offset (ch ∷ rest) =
    if-Leaves (is_quote ch || (ch == 92)) _ _ _ (omega arith) (
      Leaves-more (length rest) _ (other_escape (control ch) ch (offset + 1) rest) (omega arith)
        (other_escape-Leaves (control ch) ch (offset + 1) rest))

after_quote-Leaves : (offset n : ℕ) (rest : List ℕ) → Leaves n (after_quote offset rest)
after_quote-Leaves offset n [] = tt
after_quote-Leaves offset n (c ∷ rest) = tt

turn-Leaves : (offset ch : ℕ) (rest : List ℕ) → Leaves (length rest) (turn offset ch rest)
unfolding turn
turn-Leaves offset ch rest =
    if-Leaves (is_quote ch) _ _ _ (after_quote-Leaves offset _ rest)
      (if-Leaves (not (ch == 92)) _ _ _ (omega arith) (after_backslash-Leaves offset rest))

abbrev Ends : Result UnescapingError (List ℕ) → Type 0
Ends m = m ≢ err UnescapingError.out_of_fuel

-- after a turn, where the loop ends on what is left
go_on-Ends :
    (t : Turn) (n : ℕ) (buf : List ℕ) (more : ℕ → List ℕ → List ℕ → Result UnescapingError (List ℕ))
    → Leaves n t
    → ((offset : ℕ) (buf' rest : List ℕ) → length rest ≤ n → Ends (more offset buf' rest))
    → Ends (go_on buf more t)
go_on-Ends Turn.returned n buf more h k = λ e. ground arith
go_on-Ends (Turn.failed offset) n buf more h k = λ e. ground arith
go_on-Ends (Turn.pushed c offset rest) n buf more h k = k offset (buf ++ (c ∷ [])) rest h

run-Ends :
    (fuel offset : ℕ) (buf rest : List ℕ) → length rest ≤ fuel → Ends (run fuel offset buf rest)
unfolding run
run-Ends fuel offset buf [] l = λ e. ground arith
run-Ends zero offset buf (ch ∷ rest) l = absurd (omega arith)
run-Ends (suc fuel) offset buf (ch ∷ rest) l =
    go_on-Ends (turn (offset + 1) ch rest) (length rest) buf _ (turn-Leaves (offset + 1) ch rest)
      (λ offset' buf' rest' h. run-Ends fuel offset' buf' rest' (omega arith))

-- The literal of any text is read or refused: the loop never runs out of fuel.
pub unescape_string-ne-out_of_fuel :
    (text : List ℕ) → unescape_string text ≢ err UnescapingError.out_of_fuel
unfolding unescape_string
unescape_string-ne-out_of_fuel [] = λ e. ground arith
unescape_string-ne-out_of_fuel (q ∷ rest) = of_quote (is_quote q)
  where
    of_quote :
        (b : Bool)
        → Ends (if b then run (length rest) 0 [] rest else err (UnescapingError.at_offset 0))
    of_quote true = run-Ends (length rest) 0 [] rest (omega arith)
    of_quote false = λ e. ground arith
