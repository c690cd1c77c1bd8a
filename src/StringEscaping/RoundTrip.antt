-- ===== src/StringEscaping/RoundTrip.antt =====
-- A string between quotes, its quotes and backslashes escaped, is read back.
use jankscripten.Prelude.{
  ℕ, zero, suc, ◌+◌, ◌≤◌, ◌≡◌, refl, sym, ap, ◌∙◌, Bool, true, false, ◌||◌, ◌==◌, List, [], ◌∷◌,
  ◌++◌, length, ok, arith,
}
use mathlib.Core.List.{append_assoc, append-nil}
use jankscripten.StringEscaping.{Turn, go_on, is_quote, after_backslash, turn, run, unescape_string}

abbrev pub is_special : ℕ → Bool
is_special c = is_quote c || (c == 92)

abbrev pub escape_if : Bool → ℕ → List ℕ → List ℕ
escape_if true c cs = 92 ∷ c ∷ cs
escape_if false c cs = c ∷ cs

-- a backslash before each quote and each backslash
abbrev pub escape : List ℕ → List ℕ
escape [] = []
escape (c ∷ cs) = escape_if (is_special c) c (escape cs)

turn-quote : (offset c : ℕ) → is_quote c ≡ true → turn offset c [] ≡ Turn.returned
unfolding turn
turn-quote offset c h = rw h refl

or-false : (a b : Bool) → (a || b) ≡ false → (a ≡ false) × (b ≡ false)
or-false a b h = ground arith

turn-plain :
    (offset c : ℕ) (rest : List ℕ)
    → is_special c ≡ false
    → turn offset c rest ≡ Turn.pushed c offset rest
unfolding turn
turn-plain offset c rest h =
    let (quote, backslash) = or-false (is_quote c) (c == 92) h in rw (quote, backslash) refl

turn-escaped :
    (offset c : ℕ) (rest : List ℕ)
    → is_special c ≡ true
    → turn offset 92 (c ∷ rest) ≡ Turn.pushed c (offset + 1) rest
unfolding turn after_backslash
turn-escaped offset c rest h = rw h refl

run-pushed :
    (fuel offset ch c offset' : ℕ) (buf rest rest' : List ℕ)
    → turn (offset + 1) ch rest ≡ Turn.pushed c offset' rest'
    → run (suc fuel) offset buf (ch ∷ rest) ≡ run fuel offset' (buf ++ (c ∷ [])) rest'
unfolding run
run-pushed fuel offset ch c offset' buf rest rest' e =
    ap (λ t. go_on buf (λ o b r. run fuel o b r) t) e

-- what is read with one unit of fuel for each character
abbrev ReadsBack : ℕ → List ℕ → List ℕ → Type 0
ReadsBack q cs text =
    (fuel offset : ℕ) (buf : List ℕ)
    → length (text ++ (q ∷ [])) ≤ fuel
    → run fuel offset buf (text ++ (q ∷ [])) ≡ ok (buf ++ cs)

read_next :
    (fuel offset q c : ℕ) (buf cs text : List ℕ)
    → ReadsBack q cs text
    → length (text ++ (q ∷ [])) ≤ fuel
    → run fuel offset (buf ++ (c ∷ [])) (text ++ (q ∷ [])) ≡ ok (buf ++ (c ∷ cs))
read_next fuel offset q c buf cs text reads l =
    reads fuel offset (buf ++ (c ∷ [])) l ∙ ap (λ x. ok x) (append_assoc buf (c ∷ []) cs)

escape_if-ReadsBack :
    (b : Bool) (q c : ℕ) (cs text : List ℕ)
    → is_special c ≡ b
    → ReadsBack q cs text
    → ReadsBack q (c ∷ cs) (escape_if b c text)
escape_if-ReadsBack true q c cs text e reads zero offset buf l = absurd (omega arith)
escape_if-ReadsBack false q c cs text e reads zero offset buf l = absurd (omega arith)
escape_if-ReadsBack true q c cs text e reads (suc fuel) offset buf l =
    run-pushed fuel offset 92 c (offset + 1 + 1) buf (c ∷ (text ++ (q ∷ []))) _
      (turn-escaped (offset + 1) c _ e)
    ∙ read_next fuel (offset + 1 + 1) q c buf cs text reads (omega arith)
escape_if-ReadsBack false q c cs text e reads (suc fuel) offset buf l =
    run-pushed fuel offset c c (offset + 1) buf (text ++ (q ∷ [])) _ (turn-plain (offset + 1) c _ e)
    ∙ read_next fuel (offset + 1) q c buf cs text reads (omega arith)

escape-ReadsBack : (q : ℕ) (cs : List ℕ) → is_quote q ≡ true → ReadsBack q cs (escape cs)
unfolding run
escape-ReadsBack q [] h zero offset buf l = absurd (omega arith)
escape-ReadsBack q [] h (suc fuel) offset buf l =
    rw (turn-quote (offset + 1) q h) (ap (λ x. ok x) (sym (append-nil buf)))
escape-ReadsBack q (c ∷ cs) h fuel offset buf l =
    escape_if-ReadsBack (is_special c) q c cs (escape cs) refl (escape-ReadsBack q cs h) fuel offset
      buf l

-- Every string is read back from its literal: the string with a backslash before each quote and each
-- backslash, and nothing else escaped, between two quotes of either kind, which need not be the same.
pub unescape_string-escape :
    (q r : ℕ) (cs : List ℕ)
    → is_quote q ≡ true
    → is_quote r ≡ true
    → unescape_string (q ∷ (escape cs ++ (r ∷ []))) ≡ ok cs
unfolding unescape_string
unescape_string-escape q r cs h k =
    rw h (escape-ReadsBack r cs k (length (escape cs ++ (r ∷ []))) 0 [] (omega arith))
