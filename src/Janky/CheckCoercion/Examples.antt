-- ===== src/Janky/CheckCoercion/Examples.antt =====
-- The theorems on the checker of coercions at concrete inputs.
use jankscripten.Prelude.{◌≡◌, refl, ◌≢◌, ◌↔◌, true, ok}
use jankscripten.Shared.Types.{JankyTypes, any, int, bool, string, function}
use jankscripten.Shared.Coercions.{Coercion, Coercions}
use jankscripten.Shared.Coercions.Typing.{Coerces, CoercesArgs}
use jankscripten.Janky.CheckCoercion.{type_check_coercion}
use jankscripten.Janky.CheckCoercion.FirstOrder.{
  is_first_order, all_first_order, type_check-first_order,
}
use jankscripten.Janky.CheckCoercion.Swapped.{type_check-fun_swapped}

abbrev int_as_string : Coercion
int_as_string = Coercion.seq (Coercion.tag int) (Coercion.untag string)

int_as_string-first_order : is_first_order int_as_string ≡ true
unfolding is_first_order
int_as_string-first_order = refl

type_check-first_order_example :
    (type_check_coercion int_as_string ≡ ok (int, string)) ↔ Coerces int_as_string int string
type_check-first_order_example =
    type_check-first_order int_as_string int string int_as_string-first_order

abbrev arg : Coercions
arg = Coercions.cons (Coercion.tag int) Coercions.nil

arg-first_order : all_first_order arg ≡ true
unfolding all_first_order is_first_order
arg-first_order = refl

id-first_order : is_first_order (Coercion.id bool) ≡ true
unfolding is_first_order
id-first_order = refl

abbrev of_any : JankyTypes
of_any = JankyTypes.cons any JankyTypes.nil

abbrev of_int : JankyTypes
of_int = JankyTypes.cons int JankyTypes.nil

type_check-fun_swapped_example :
    (type_check_coercion (Coercion.fun arg (Coercion.id bool))
      ≡ ok (function of_int bool, function of_any bool))
    × (of_any ≢ of_int
        → type_check_coercion (Coercion.fun arg (Coercion.id bool))
          ≢ ok (function of_any bool, function of_int bool))
type_check-fun_swapped_example =
    type_check-fun_swapped arg (Coercion.id bool) of_any of_int bool bool arg-first_order
      id-first_order (Coerces.fun (CoercesArgs.cons Coerces.tag CoercesArgs.nil) Coerces.id)
