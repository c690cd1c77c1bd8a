-- ===== src/Shared/Types/Examples.antt =====
-- The theorems on types at concrete inputs.
use jankscripten.Prelude.{◌≡◌, refl, ◌↔◌, true, false, none, some}
use jankscripten.NotWasm.Types.{NotWasmType, NotWasmTypes, OptType, fn_type}
use jankscripten.Shared.Types.{
  JankyType, nil, cons, any, int, ref, metavar, function, arity, is_ground, ground_function,
  notwasm_typ,
}
use jankscripten.Shared.Types.Ground.{is_ground-function}
use jankscripten.Shared.Types.Translation.{is_resolved, notwasm_typ-injective, notwasm_typ-defined}

abbrev callback : JankyType
callback = function (cons (ref int) nil) any

abbrev callback_closure : NotWasmType
callback_closure = NotWasmType.closure (
    fn_type
      (NotWasmTypes.cons NotWasmType.env
        (NotWasmTypes.cons (NotWasmType.ref NotWasmType.i32) NotWasmTypes.nil))
      (OptType.some_type NotWasmType.any))

notwasm_typ-callback : notwasm_typ callback true ≡ some callback_closure
unfolding notwasm_typ
notwasm_typ-callback = refl

notwasm_typ-metavar : notwasm_typ (ref (metavar 3)) true ≡ none
unfolding notwasm_typ
notwasm_typ-metavar = refl

notwasm_typ-injective_example : callback ≡ callback
notwasm_typ-injective_example =
    notwasm_typ-injective callback callback true callback_closure notwasm_typ-callback
      notwasm_typ-callback

notwasm_typ-defined_example :
    ((t' : NotWasmType) × (notwasm_typ callback false ≡ some t')) ↔ (is_resolved callback ≡ true)
notwasm_typ-defined_example = notwasm_typ-defined callback false

is_ground-function_example :
    (is_ground callback ≡ true) ↔ (callback ≡ ground_function (arity (cons (ref int) nil)))
is_ground-function_example = is_ground-function (cons (ref int) nil) any
