-- ===== src/NotWasm/Operators/Defined.antt =====
-- The types of the operators are defined for every operator.
use jankscripten.Prelude.{◌≡◌, refl, Bool, some}
use jankscripten.NotWasm.Types.{NotWasmType}
use jankscripten.NotWasm.Operators.{
  BinaryOp, UnaryOp, ptr_eq, sqrt, binary_notwasm_typ, unary_notwasm_typ,
}

pub binary_notwasm_typ-defined :
    (op : BinaryOp) (c : Bool)
    → (p : NotWasmType × NotWasmType) × (binary_notwasm_typ op c ≡ some p)
unfolding binary_notwasm_typ
binary_notwasm_typ-defined ptr_eq c = (_, refl)
binary_notwasm_typ-defined _ c = (_, refl)

pub unary_notwasm_typ-defined :
    (op : UnaryOp) (c : Bool) → (p : NotWasmType × NotWasmType) × (unary_notwasm_typ op c ≡ some p)
unfolding unary_notwasm_typ
unary_notwasm_typ-defined sqrt c = (_, refl)
unary_notwasm_typ-defined _ c = (_, refl)
