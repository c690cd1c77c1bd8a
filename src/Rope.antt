-- ===== src/Rope.antt =====
-- Ropes (libjankscripten/src/rope.rs): lists with a constant-time append, and the iterator over them.
pub mod Iterate
pub mod Examples
use jankscripten.Prelude.{
  ℕ, zero, suc, ◌+◌, ◌-◌, ◌*◌, ◌/◌, ◌%◌, ◌^◌, ◌≤◌, ◌<◌, max, min, String, ◌≡◌, refl, sym, ap, ap₂,
  subst, ◌∙◌, ◌≢◌, ◌↔◌, ◌⊎◌, inl, inr, ite, if_pos, if_neg, Bool, true, false, not, ◌&&◌, ◌||◌,
  Option, none, some, List, [], ◌∷◌, ◌++◌, map, arith, str_eq, dec_lt, ℕ_discrete, ltb, leb, ◌==◌,
  if◌then◌else◌, Bool-cases, Option-cases, length, get_elem?, set, length-append, take, drop,
  replicate, Result, ok, err, panic, ◌>>=◌, ◌>>◌, ok_or, unwrap, >>=-ok,
}

-- `R<T>`; the struct `Rope<T>` wraps one.
pub data Rope {ℓ} (T : Type ℓ) : Type ℓ where
  nil : Rope T
  singleton : T → Rope T
  append : Rope T → Rope T → Rope T

-- the smart constructor `Rope::append`
unfoldable pub join {ℓ} : {T : Type ℓ} → Rope T → Rope T → Rope T
join Rope.nil other = other
join self Rope.nil = self
join self other = Rope.append self other

pub data OutOfFuel : Type 0 where
  out_of_fuel : OutOfFuel

-- The loop of `next`, on fuel: the next value, if there is one, and the stack after it. The stack has its top
-- first.
unfoldable pub next {ℓ} :
    {T : Type ℓ} → ℕ → List (Rope T) → Result OutOfFuel (Option (T × List (Rope T)))
next zero stack = err out_of_fuel
next (suc n) [] = ok none
next (suc n) (Rope.nil ∷ stack) = panic
next (suc n) (Rope.singleton x ∷ stack) = ok (some (x, stack))
next (suc n) (Rope.append lhs rhs ∷ stack) = next n (lhs ∷ rhs ∷ stack)

unfoldable pub into_iter {ℓ} : {T : Type ℓ} → Rope T → List (Rope T)
into_iter Rope.nil = []
into_iter r = r ∷ []

-- A `for` loop over the iterator: `calls` bounds the calls of `next`, `fuel` the loop within each.
unfoldable pub collect {ℓ} : {T : Type ℓ} → ℕ → ℕ → List (Rope T) → Result OutOfFuel (List T)
collect zero fuel stack = err out_of_fuel
collect (suc calls) fuel stack = next fuel stack >>= λ r. elim r [
  | none ↦ ok []
  | some (x, stack') ↦ collect calls fuel stack' >>= λ xs. ok (x ∷ xs)
]
