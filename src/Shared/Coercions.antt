-- ===== src/Shared/Coercions.antt =====
-- Coercions between JankyScript types and their smart constructors
-- (libjankscripten/src/shared/coercions.rs).
--
-- `new` recurs on fuel, one unit for each nested call of the source; `err out_of_fuel` is no outcome of the
-- source. `panic` is.
pub mod Typing
pub mod Seq
pub mod Sound
pub mod Fuel
pub mod Grounded
pub mod Examples
use jankscripten.Prelude.{
  ℕ, zero, suc, ◌+◌, ◌-◌, ◌*◌, ◌/◌, ◌%◌, ◌^◌, ◌≤◌, ◌<◌, max, min, String, ◌≡◌, refl, sym, ap, ap₂,
  subst, ◌∙◌, ◌≢◌, ◌↔◌, ◌⊎◌, inl, inr, ite, if_pos, if_neg, Bool, true, false, not, ◌&&◌, ◌||◌,
  Option, none, some, List, [], ◌∷◌, ◌++◌, map, arith, str_eq, dec_lt, ℕ_discrete, ltb, leb, ◌==◌,
  if◌then◌else◌, Bool-cases, Option-cases, length, get_elem?, set, length-append, take, drop,
  replicate, Result, ok, err, panic, ◌>>=◌, ◌>>◌, ok_or, unwrap, >>=-ok,
}
use jankscripten.Shared.Types.{
  JankyType, JankyTypes, any, int, float, function, JankyType-discrete, arity, is_ground,
  ground_function,
}

mutual
  pub data Coercion : Type 0 where
    tag : JankyType → Coercion
    untag : JankyType → Coercion
    int_to_float : Coercion
    float_to_int : Coercion
    fun : Coercions → Coercion → Coercion
    id : JankyType → Coercion
    seq : Coercion → Coercion → Coercion
    meta : JankyType → JankyType → Coercion

  pub data Coercions : Type 0 where
    nil : Coercions
    cons : Coercion → Coercions → Coercions

-- `Coercion::meta`
unfoldable pub new_meta : JankyType → JankyType → Coercion
unfolding JankyType-discrete
new_meta t1 t2 = ite (JankyType-discrete t1 t2) (id t1) (meta t1 t2)

-- `Coercion::seq c1 c2`. The source calls itself on `(a1, a2)`, the first from `c2` and the second from
-- `c1`; `smart_seq_flip c2 c1` is the same function, recursive on its other argument.
unfoldable mutual
  pub smart_seq : Coercion → Coercion → Coercion
  smart_seq c1 (id t) = c1
  smart_seq (id t) c2 = c2
  smart_seq (fun args2 ret2) (fun args1 ret1) =
      fun (seq_args_flip args2 args1) (smart_seq ret2 ret1)
  smart_seq c1 c2 = seq c1 c2

  pub smart_seq_flip : Coercion → Coercion → Coercion
  smart_seq_flip (id t) c1 = c1
  smart_seq_flip c2 (id t) = c2
  smart_seq_flip (fun args1 ret1) (fun args2 ret2) =
      fun (seq_args args1 args2) (smart_seq_flip ret1 ret2)
  smart_seq_flip c2 c1 = seq c1 c2

  -- `args1.zip(args2).map(|(a1, a2)| seq(a1, a2))`
  pub seq_args : Coercions → Coercions → Coercions
  seq_args (Coercions.cons a1 args1) (Coercions.cons a2 args2) =
      Coercions.cons (smart_seq a1 a2) (seq_args args1 args2)
  seq_args _ _ = Coercions.nil

  pub seq_args_flip : Coercions → Coercions → Coercions
  seq_args_flip (Coercions.cons a2 args2) (Coercions.cons a1 args1) =
      Coercions.cons (smart_seq_flip a2 a1) (seq_args_flip args2 args1)
  seq_args_flip _ _ = Coercions.nil

-- The types of a list of identity coercions.
unfoldable pub id_types : Coercions → Option JankyTypes
id_types Coercions.nil = some JankyTypes.nil
id_types (Coercions.cons (id t) cs) = elim (id_types cs) [
  | none ↦ none
  | some ts ↦ some (JankyTypes.cons t ts)
]
id_types (Coercions.cons c cs) = none

-- `Coercion::fun`
unfoldable pub smart_fun : Coercions → Coercion → Coercion
unfolding id_types
smart_fun cargs (id ret) = elim (id_types cargs) [
  | none ↦ fun cargs (id ret)
  | some args ↦ id (function args ret)
]
smart_fun cargs cret = fun cargs cret

pub data OutOfFuel : Type 0 where
  out_of_fuel : OutOfFuel

abbrev pub Rec : Type 0
Rec = JankyType → JankyType → Result OutOfFuel Coercion

unfoldable pub through : JankyType → Rec → JankyType → JankyType → Result OutOfFuel Coercion
through mid rec t1 t2 = do c1 ← rec t1 mid; c2 ← rec mid t2; ok (smart_seq c1 c2)

-- `(arg1, arg2) ↦ new(arg2, arg1)`
unfoldable pub new_args : Rec → JankyTypes → JankyTypes → Result OutOfFuel Coercions
new_args rec (JankyTypes.cons arg1 args1) (JankyTypes.cons arg2 args2) = do
  c ← rec arg2 arg1
  cs ← new_args rec args1 args2
  ok (Coercions.cons c cs)
new_args rec _ _ = ok Coercions.nil

unfoldable pub new_functions :
    Rec → JankyTypes → JankyType → JankyTypes → JankyType → Result OutOfFuel Coercion
unfolding new_args
new_functions rec args1 ret1 args2 ret2 =
    if arity args1 == arity args2
    then (do cargs ← new_args rec args1 args2; cret ← rec ret1 ret2; ok (smart_fun cargs cret))
    else panic

-- The arms `(Any, Function(..))` and, for what is no function, the last one.
unfoldable pub new_from_any : Rec → JankyType → Result OutOfFuel Coercion
unfolding through
new_from_any rec (function args ret) =
    through (ground_function (arity args)) rec any (function args ret)
new_from_any rec t2 = through any rec any t2

-- The arms of the `match` for two different types, in the source's order.
unfoldable pub new_step : Rec → JankyType → JankyType → Result OutOfFuel Coercion
unfolding new_from_any new_functions through
new_step rec any t2 = if is_ground t2 then ok (untag t2) else new_from_any rec t2
new_step rec t1 any = if is_ground t1 then ok (tag t1) else panic
new_step rec (function args1 ret1) (function args2 ret2) = new_functions rec args1 ret1 args2 ret2
new_step rec int float = ok int_to_float
new_step rec float int = ok float_to_int
new_step rec t1 t2 = through any rec t1 t2

-- `Coercion::new`
unfoldable pub new : ℕ → JankyType → JankyType → Result OutOfFuel Coercion
unfolding JankyType-discrete new_step
new zero t1 t2 = err out_of_fuel
new (suc fuel) t1 t2 = ite (JankyType-discrete t1 t2) (ok (id t1)) (new_step (new fuel) t1 t2)
