-- ===== src/Runtime/Object/Places.antt =====
-- The places that a class has for its names.
use jankscripten.Prelude.{
  ℕ, suc, ◌+◌, ◌-◌, ◌≤◌, ◌<◌, String, ◌≡◌, sym, ap, subst, ◌∙◌, some, List, [], ◌∷◌, ◌++◌, arith,
  length, get_elem?,
}
use jankscripten.Prelude.{some-inj}
use jankscripten.Shared.Ident.{String-discrete}
use jankscripten.Runtime.ClassList.{find}
use jankscripten.Runtime.ClassList.Tree.{numbered, find-hit, find-miss}

find-none : (m : String) (k : ℕ) → find [] m ≡ some k → ⊥
unfolding find
find-none m k h = absurd (ground arith)

-- the place that the numbered names have for a name
pub find-numbered :
    (ns : List String) (i : ℕ) (m : String) (k : ℕ)
    → find (numbered i ns) m ≡ some k
    → (i ≤ k) × (k < i + length ns) × (get_elem? ns (k - i) ≡ some m)
find-numbered [] i m k h = absurd (find-none m k h)
find-numbered (n ∷ ns) i m k h = elim (String-discrete n m) [
  | yes p ↦
      let e : i ≡ k = some-inj (sym (find-hit n m i (numbered (suc i) ns) p) ∙ h) in
      let first : 0 ≡ k - i = omega arith in
      (omega arith, omega arith, subst (λ d. get_elem? (n ∷ ns) d ≡ some m) first (ap some p))
  | no p ↦
      let (a, b, c) =
        find-numbered ns (suc i) m k (sym (find-miss n m i (numbered (suc i) ns) p) ∙ h) in
      let next : suc (k - suc i) ≡ k - i = omega arith in
      (omega arith, omega arith, subst (λ d. get_elem? (n ∷ ns) d ≡ some m) next c)
]

pub find-append_left :
    (xs : List (String × ℕ)) (n m : String) (i k : ℕ)
    → find xs m ≡ some k
    → find (xs ++ ((n, i) ∷ [])) m ≡ some k
find-append_left [] n m i k h = absurd (find-none m k h)
find-append_left ((a, v) ∷ xs) n m i k h = elim (String-discrete a m) [
  | yes p ↦ find-hit a m v (xs ++ ((n, i) ∷ [])) p ∙ (sym (find-hit a m v xs p) ∙ h)
  | no p ↦
      find-miss a m v (xs ++ ((n, i) ∷ [])) p
      ∙ find-append_left xs n m i k (sym (find-miss a m v xs p) ∙ h)
]
