-- ===== src/Shared/Coercions/Examples.antt =====
-- The theorems on coercions at concrete inputs.
use jankscripten.Prelude.{◌≡◌, refl, ◌≢◌, true, arith, ℕ_discrete, ok, err}
use jankscripten.Shared.Types.{ground_function}
use jankscripten.Shared.Types.{
  JankyType, JankyTypes, any, int, bool, string, function, JankyType-discrete, is_ground,
  ground_function,
}
use jankscripten.Shared.Coercions.{Coercion, Coercions, new, smart_seq, smart_fun, out_of_fuel}
use jankscripten.Shared.Coercions.Typing.{Coerces, CoercesArgs}
use jankscripten.Shared.Coercions.Seq.{smart_seq-Coerces, smart_fun-Coerces}
use jankscripten.Shared.Coercions.Sound.{new-Coerces}
use jankscripten.Shared.Coercions.Fuel.{new-ne-out_of_fuel, depth}
use jankscripten.Shared.Coercions.Grounded.{new-ground, same_arity}

-- int → bool
abbrev predicate : JankyType
predicate = function (JankyTypes.cons int JankyTypes.nil) bool

abbrev to_predicate : Coercion
to_predicate =
    Coercion.seq (Coercion.untag (function (JankyTypes.cons any JankyTypes.nil) any))
      (Coercion.fun (Coercions.cons (Coercion.tag int) Coercions.nil) (Coercion.untag bool))

new-predicate : new 6 any predicate ≡ ok to_predicate
unfolding new JankyType-discrete ℕ_discrete is_ground smart_seq smart_fun ground_function
new-predicate = refl

new-int_string : new 2 int string ≡ ok (Coercion.seq (Coercion.tag int) (Coercion.untag string))
unfolding new JankyType-discrete ℕ_discrete is_ground smart_seq
new-int_string = refl

new-Coerces_example : Coerces to_predicate any predicate
new-Coerces_example = new-Coerces 6 any predicate to_predicate new-predicate

new-ne-out_of_fuel_example : new 6 any predicate ≢ err out_of_fuel
new-ne-out_of_fuel_example = new-ne-out_of_fuel any predicate 6 (unfold depth in omega arith)

ground_int : is_ground int ≡ true
unfolding is_ground
ground_int = refl

ground_string : is_ground string ≡ true
unfolding is_ground
ground_string = refl

same_arity_int_string : same_arity int string ≡ true
unfolding same_arity
same_arity_int_string = refl

new-ground_example : (c : Coercion) × (new 2 int string ≡ ok c)
new-ground_example = new-ground int string 0 ground_int ground_string same_arity_int_string

smart_seq-Coerces_example :
    Coerces (smart_seq (Coercion.tag int) (Coercion.untag string)) int string
smart_seq-Coerces_example =
    smart_seq-Coerces (Coercion.tag int) (Coercion.untag string) Coerces.tag Coerces.untag

smart_fun-Coerces_example :
    Coerces
      (smart_fun (Coercions.cons (Coercion.tag int) Coercions.nil) (Coercion.id any))
      (function (JankyTypes.cons any JankyTypes.nil) any)
      (function (JankyTypes.cons int JankyTypes.nil) any)
smart_fun-Coerces_example =
    smart_fun-Coerces (Coercions.cons (Coercion.tag int) Coercions.nil) (Coercion.id any)
      (CoercesArgs.cons Coerces.tag CoercesArgs.nil) Coerces.id
