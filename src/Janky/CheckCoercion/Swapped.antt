-- ===== src/Janky/CheckCoercion/Swapped.antt =====
-- On coercions of functions the checker swaps the argument types.
use jankscripten.Prelude.{◌≡◌, ◌≢◌, true, arith, ok}
use jankscripten.Shared.Types.{JankyType, JankyTypes, function}
use jankscripten.Shared.Coercions.{Coercion, Coercions}
use jankscripten.Shared.Coercions.Typing.{Coerces}
use jankscripten.Janky.CheckCoercion.{type_check_coercion}
use jankscripten.Janky.CheckCoercion.FirstOrder.{
  is_first_order, all_first_order, type_check-Coerces, type_check_args-CoercesArgs,
}

-- A coercion of functions with first-order parts that goes from `function ss s` to `function ts t` in the
-- documented typing is given the types `function ts s` and `function ss t` by the checker, so
-- it is refused at its own types wherever `ss` and `ts` differ.
pub type_check-fun_swapped :
    (cs : Coercions) (c : Coercion) (ss ts : JankyTypes) (s t : JankyType)
    → all_first_order cs ≡ true
    → is_first_order c ≡ true
    → Coerces (Coercion.fun cs c) (function ss s) (function ts t)
    → (type_check_coercion (Coercion.fun cs c) ≡ ok (function ts s, function ss t))
      × (ss ≢ ts → type_check_coercion (Coercion.fun cs c) ≢ ok (function ss s, function ts t))
unfolding type_check_coercion
type_check-fun_swapped cs c ss ts s t fs f (Coerces.fun ds d) =
    let e : type_check_coercion (Coercion.fun cs c) ≡ ok (function ts s, function ss t) =
      rw (type_check_args-CoercesArgs fs ds, type_check-Coerces f d) in
    (e, λ ne h. ne (ground arith))
