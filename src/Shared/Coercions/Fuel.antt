-- ===== src/Shared/Coercions/Fuel.antt =====
-- How much fuel `new` needs, and that it then ends with a coercion or a panic.
use jankscripten.Prelude.{
  ℕ, zero, suc, ◌+◌, ◌*◌, ◌≤◌, max, ◌≡◌, refl, ◌≢◌, inl, inr, if_pos, if_neg, Bool, true, false,
  arith, ◌==◌, if◌then◌else◌, Bool-cases, Result, ok, err, panic, ◌>>=◌,
}
use jankscripten.Shared.Types.{
  JankyType, JankyTypes, any, function, repeat, JankyType-discrete, arity, is_ground,
  ground_function,
}
use jankscripten.Shared.Types.{int, float}
use jankscripten.Shared.Types.Ground.{ground_function-is_ground}
use jankscripten.Shared.Coercions.{
  Coercion, OutOfFuel, out_of_fuel, Rec, through, new_args, new_functions, new_step, new,
}

-- How deep function types nest.
unfoldable mutual
  pub depth : JankyType → ℕ
  depth (function args ret) = suc (max (depth_args args) (depth ret))
  depth _ = 0

  pub depth_args : JankyTypes → ℕ
  depth_args JankyTypes.nil = 0
  depth_args (JankyTypes.cons t ts) = max (depth t) (depth_args ts)

abbrev pub fuel_for : JankyType → JankyType → ℕ
fuel_for t1 t2 = 3 * max (depth t1) (depth t2) + 3

abbrev Ends {ℓ} : {A : Type ℓ} → Result OutOfFuel A → Type ℓ
Ends r = r ≢ err out_of_fuel

>>=-Ends {ℓ κ} :
    {A : Type ℓ} {B : Type κ} (m : Result OutOfFuel A) (f : A → Result OutOfFuel B)
    → Ends m
    → ((a : A) → Ends (f a))
    → Ends (m >>= f)
>>=-Ends (ok a) f p q = q a
>>=-Ends (err out_of_fuel) f p q = absurd (p refl)
>>=-Ends panic f p q = λ e. ground arith

ok-Ends {ℓ} : {A : Type ℓ} (a : A) → Ends (ok a)
ok-Ends a e = ground arith

through-Ends :
    (mid : JankyType) (rec : Rec) (t1 t2 : JankyType)
    → Ends (rec t1 mid)
    → Ends (rec mid t2)
    → Ends (through mid rec t1 t2)
unfolding through
through-Ends mid rec t1 t2 p q =
    >>=-Ends (rec t1 mid) _ p (λ c1. >>=-Ends (rec mid t2) _ q (λ c2. ok-Ends _))

new-Ends_step :
    (fuel : ℕ) (t1 t2 : JankyType) → Ends (new_step (new fuel) t1 t2) → Ends (new (suc fuel) t1 t2)
unfolding new
new-Ends_step fuel t1 t2 h = elim (JankyType-discrete t1 t2) [
  | yes p ↦ rw (if_pos (JankyType-discrete t1 t2) p) (ok-Ends _)
  | no p ↦ rw (if_neg (JankyType-discrete t1 t2) p) h
]

if_ground-Ends : (b : Bool) (c : Coercion) → Ends {A = Coercion} (if b then ok c else panic)
if_ground-Ends true c = ok-Ends c
if_ground-Ends false c = λ e. ground arith

new_step-to_any : (rec : Rec) (t : JankyType) → Ends (new_step rec t any)
unfolding new_step is_ground
new_step-to_any rec any = ok-Ends _
new_step-to_any rec t = if_ground-Ends (is_ground t) _

new_step-from_ground : (rec : Rec) (t : JankyType) → is_ground t ≡ true → Ends (new_step rec any t)
unfolding new_step
new_step-from_ground rec t g = rw g (ok-Ends _)

module _ (k : ℕ) (rec : Rec)
    (ends : (t1 t2 : JankyType) → depth t1 ≤ k → depth t2 ≤ k → Ends (rec t1 t2)) where
  new_args-Ends :
      (args1 args2 : JankyTypes)
      → depth_args args1 ≤ k
      → depth_args args2 ≤ k
      → Ends (new_args rec args1 args2)
  unfolding new_args depth
  new_args-Ends (JankyTypes.cons a1 as1) (JankyTypes.cons a2 as2) p q =
      >>=-Ends (rec a2 a1) _ (ends a2 a1 (omega arith) (omega arith)) (λ c.
        >>=-Ends (new_args rec as1 as2) _ (new_args-Ends as1 as2 (omega arith) (omega arith))
          (λ cs. ok-Ends _))
  new_args-Ends JankyTypes.nil JankyTypes.nil p q = ok-Ends _
  new_args-Ends JankyTypes.nil (JankyTypes.cons _ _) p q = ok-Ends _
  new_args-Ends (JankyTypes.cons _ _) JankyTypes.nil p q = ok-Ends _

  new_functions-Ends :
      (args1 args2 : JankyTypes) (ret1 ret2 : JankyType)
      → depth (function args1 ret1) ≤ suc k
      → depth (function args2 ret2) ≤ suc k
      → Ends (new_functions rec args1 ret1 args2 ret2)
  unfolding new_functions depth
  new_functions-Ends args1 args2 ret1 ret2 p q = elim (Bool-cases (arity args1 == arity args2)) [
    | inl same ↦ rw same (
        >>=-Ends (new_args rec args1 args2) _
          (new_args-Ends args1 args2 (omega arith) (omega arith))
          (λ cs.
            >>=-Ends (rec ret1 ret2) _ (ends ret1 ret2 (omega arith) (omega arith))
              (λ c. ok-Ends _)))
    | inr other ↦ rw other (λ e. ground arith)
  ]

depth_args-repeat : (n : ℕ) → depth_args (repeat n any) ≤ 0
unfolding depth
depth_args-repeat zero = omega arith
depth_args-repeat (suc n) = omega (arith, depth_args-repeat n)

depth-ground_function : (n k : ℕ) → depth (ground_function n) ≤ suc k
unfolding ground_function depth
depth-ground_function n k = omega (arith, depth_args-repeat n)

abbrev EndsBelow : ℕ → Type 0
EndsBelow k =
    (t1 t2 : JankyType) (fuel : ℕ)
    → depth t1 ≤ k
    → depth t2 ≤ k
    → 3 * k + 3 ≤ fuel
    → Ends (new fuel t1 t2)

abbrev Below : ℕ → Type 0
Below zero = Unit {0}
Below (suc j) = EndsBelow j

functions_step-Ends :
    (k : ℕ)
    → Below k
    → (fuel : ℕ) (args1 args2 : JankyTypes) (ret1 ret2 : JankyType)
    → depth (function args1 ret1) ≤ k
    → depth (function args2 ret2) ≤ k
    → 3 * k ≤ fuel
    → Ends (new_functions (new fuel) args1 ret1 args2 ret2)
unfolding depth
functions_step-Ends zero below fuel args1 args2 ret1 ret2 p q h = absurd (omega arith)
functions_step-Ends (suc j) below fuel args1 args2 ret1 ret2 p q h =
    new_functions-Ends j (new fuel) (λ t1 t2 p' q'. below t1 t2 fuel p' q' (omega arith)) args1
      args2 ret1 ret2 p q

to_any-Ends : (fuel : ℕ) (t : JankyType) → 1 ≤ fuel → Ends (new fuel t any)
to_any-Ends zero t h = absurd (omega arith)
to_any-Ends (suc fuel) t h = new-Ends_step fuel t any (new_step-to_any (new fuel) t)

from_ground-Ends :
    (fuel : ℕ) (t : JankyType) → is_ground t ≡ true → 1 ≤ fuel → Ends (new fuel any t)
from_ground-Ends zero t g h = absurd (omega arith)
from_ground-Ends (suc fuel) t g h = new-Ends_step fuel any t (new_step-from_ground (new fuel) t g)

ground_function-Ends :
    (k : ℕ)
    → Below k
    → (fuel : ℕ) (args : JankyTypes) (ret : JankyType) → depth (function args ret) ≤ k
    → 3 * k + 1 ≤ fuel
    → Ends (new fuel (ground_function (arity args)) (function args ret))
ground_function-Ends zero below fuel args ret p h = absurd (unfold depth in omega arith)
ground_function-Ends (suc j) below zero args ret p h = absurd (omega arith)
ground_function-Ends (suc j) below (suc fuel) args ret p h =
    new-Ends_step fuel (ground_function (arity args)) (function args ret) (
      unfold new_step ground_function in
      functions_step-Ends (suc j) below fuel (repeat (arity args) any) args any ret
        (depth-ground_function (arity args) j) p (omega arith))

from_any_step-Ends :
    (k : ℕ)
    → Below k
    → (fuel : ℕ) (t : JankyType) → depth t ≤ k
    → 3 * k + 1 ≤ fuel
    → Ends (new_step (new fuel) any t)
unfolding new_step is_ground
from_any_step-Ends k below fuel (function args ret) p h =
    elim (Bool-cases (is_ground (function args ret))) [
      | inl g ↦ rw g (ok-Ends _)
      | inr n ↦ rw n (
          through-Ends (ground_function (arity args)) (new fuel) any (function args ret)
            (from_ground-Ends fuel (ground_function (arity args))
              (ground_function-is_ground (arity args)) (omega arith))
            (ground_function-Ends k below fuel args ret p h))
    ]
from_any_step-Ends k below fuel t p h = ok-Ends _

from_any-Ends :
    (k : ℕ)
    → Below k
    → (fuel : ℕ) (t : JankyType) → depth t ≤ k
    → 3 * k + 2 ≤ fuel
    → Ends (new fuel any t)
from_any-Ends k below zero t p h = absurd (omega arith)
from_any-Ends k below (suc fuel) t p h =
    new-Ends_step fuel any t (from_any_step-Ends k below fuel t p (omega arith))

new_step-Ends :
    (k : ℕ)
    → Below k
    → (fuel : ℕ) (t1 t2 : JankyType) → depth t1 ≤ k
    → depth t2 ≤ k
    → 3 * k + 2 ≤ fuel
    → Ends (new_step (new fuel) t1 t2)
unfolding new_step
new_step-Ends k below fuel any t2 p q h = from_any_step-Ends k below fuel t2 q (omega arith)
new_step-Ends k below fuel t1 any p q h = new_step-to_any (new fuel) t1
new_step-Ends k below fuel (function args1 ret1) (function args2 ret2) p q h =
    functions_step-Ends k below fuel args1 args2 ret1 ret2 p q (omega arith)
new_step-Ends k below fuel int float p q h = ok-Ends _
new_step-Ends k below fuel float int p q h = ok-Ends _
new_step-Ends k below fuel t1 t2 p q h =
    through-Ends any (new fuel) t1 t2 (to_any-Ends fuel t1 (omega arith))
      (from_any-Ends k below fuel t2 q h)

new-EndsBelow : (k : ℕ) → Below k → EndsBelow k
new-EndsBelow k below t1 t2 zero p q h = absurd (omega arith)
new-EndsBelow k below t1 t2 (suc fuel) p q h =
    new-Ends_step fuel t1 t2 (new_step-Ends k below fuel t1 t2 p q (omega arith))

all-Below : (k : ℕ) → Below k
all-Below zero = tt
all-Below (suc j) = new-EndsBelow j (all-Below j)

-- With at least `3 * d + 3` units of fuel, `d` the greater nesting depth of function types in the two
-- types, `new` does not run out: the recursion of the source ends on every pair of types.
pub new-ne-out_of_fuel :
    (t1 t2 : JankyType) (fuel : ℕ) → fuel_for t1 t2 ≤ fuel → new fuel t1 t2 ≢ err out_of_fuel
new-ne-out_of_fuel t1 t2 fuel h =
    new-EndsBelow (max (depth t1) (depth t2)) (all-Below _) t1 t2 fuel (omega arith) (omega arith) h
