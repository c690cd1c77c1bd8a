-- ===== src/Shared/Coercions/Grounded.antt =====
-- Coercions between ground types always exist.
use jankscripten.Prelude.{
  ℕ, suc, ◌≡◌, refl, sym, ap, ◌∙◌, ◌≢◌, if_pos, if_neg, Bool, true, arith, ◌==◌, Result, ok,
}
use jankscripten.Shared.Types.{
  JankyType, JankyTypes, any, int, float, function, JankyType-discrete, arity, is_ground,
  ground_function,
}
use jankscripten.Shared.Types.Ground.{is_ground-function}
use jankscripten.Shared.Coercions.{Coercion, OutOfFuel, through, smart_seq, new_step, new}

-- No two function types of different arities.
unfoldable pub same_arity : JankyType → JankyType → Bool
same_arity (function args1 ret1) (function args2 ret2) = arity args1 == arity args2
same_arity _ _ = true

abbrev Returns : Result OutOfFuel Coercion → Type 0
Returns r = (c : Coercion) × (r ≡ ok c)

new-Returns_step :
    (fuel : ℕ) (t1 t2 : JankyType)
    → (t1 ≢ t2 → Returns (new_step (new fuel) t1 t2))
    → Returns (new (suc fuel) t1 t2)
unfolding new
new-Returns_step fuel t1 t2 h = elim (JankyType-discrete t1 t2) [
  | yes p ↦ rw (if_pos (JankyType-discrete t1 t2) p) (Coercion.id t1, refl)
  | no p ↦ rw (if_neg (JankyType-discrete t1 t2) p) (h p)
]

new_step-to_any :
    (fuel : ℕ) (t : JankyType) → is_ground t ≡ true → Returns (new_step (new fuel) t any)
unfolding new_step
new_step-to_any fuel any g = (Coercion.untag any, rw g)
new_step-to_any fuel t g = (Coercion.tag t, rw g)

new_step-from_any :
    (fuel : ℕ) (t : JankyType) → is_ground t ≡ true → Returns (new_step (new fuel) any t)
unfolding new_step
new_step-from_any fuel t g = (Coercion.untag t, rw g)

through-any :
    (fuel : ℕ) (t1 t2 : JankyType)
    → is_ground t1 ≡ true
    → is_ground t2 ≡ true
    → Returns (through any (new (suc fuel)) t1 t2)
unfolding through
through-any fuel t1 t2 g1 g2 =
    let (c1, e1) = new-Returns_step fuel t1 any (λ _. new_step-to_any fuel t1 g1) in
    let (c2, e2) = new-Returns_step fuel any t2 (λ _. new_step-from_any fuel t2 g2) in
    (smart_seq c1 c2, rw (e1, e2))

ground_functions-eq :
    (args1 args2 : JankyTypes) (ret1 ret2 : JankyType)
    → is_ground (function args1 ret1) ≡ true
    → is_ground (function args2 ret2) ≡ true
    → arity args1 == arity args2 ≡ true
    → function args1 ret1 ≡ function args2 ret2
ground_functions-eq args1 args2 ret1 ret2 g1 g2 h =
    let same : arity args1 ≡ arity args2 = ground arith in
    (is_ground-function args1 ret1).0 g1
    ∙ ap ground_function same
    ∙ sym ((is_ground-function args2 ret2).0 g2)

new_step-ground :
    (fuel : ℕ) (t1 t2 : JankyType)
    → is_ground t1 ≡ true
    → is_ground t2 ≡ true
    → same_arity t1 t2 ≡ true
    → t1 ≢ t2
    → Returns (new_step (new (suc fuel)) t1 t2)
unfolding new_step same_arity
new_step-ground fuel any t2 g1 g2 h d = new_step-from_any (suc fuel) t2 g2
new_step-ground fuel t1 any g1 g2 h d = new_step-to_any (suc fuel) t1 g1
new_step-ground fuel (function args1 ret1) (function args2 ret2) g1 g2 h d =
    absurd (d (ground_functions-eq args1 args2 ret1 ret2 g1 g2 h))
new_step-ground fuel int float g1 g2 h d = (Coercion.int_to_float, refl)
new_step-ground fuel float int g1 g2 h d = (Coercion.float_to_int, refl)
new_step-ground fuel t1 t2 g1 g2 h d = through-any fuel t1 t2 g1 g2

-- Between two ground types that are not functions of different arities `new` returns a coercion, with two
-- units of fuel or more; it does not panic.
pub new-ground :
    (t1 t2 : JankyType) (fuel : ℕ)
    → is_ground t1 ≡ true
    → is_ground t2 ≡ true
    → same_arity t1 t2 ≡ true
    → (c : Coercion) × (new (suc (suc fuel)) t1 t2 ≡ ok c)
new-ground t1 t2 fuel g1 g2 h =
    new-Returns_step (suc fuel) t1 t2 (new_step-ground fuel t1 t2 g1 g2 h)
