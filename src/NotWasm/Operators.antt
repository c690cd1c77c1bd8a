-- ===== src/NotWasm/Operators.antt =====
-- Operators, literals and runtime functions with their types: libjankscripten/src/notwasm/syntax.rs,
-- jankyscript/syntax.rs and rts_function.rs of libjankscripten/src. A floating-point literal is its bit pattern,
-- and so is an integer literal.
pub mod Defined
use jankscripten.Prelude.{
  ℕ, zero, suc, ◌+◌, ◌-◌, ◌*◌, ◌/◌, ◌%◌, ◌^◌, ◌≤◌, ◌<◌, max, min, String, ◌≡◌, refl, sym, ap, ap₂,
  subst, ◌∙◌, ◌≢◌, ◌↔◌, ◌⊎◌, inl, inr, ite, if_pos, if_neg, Bool, true, false, not, ◌&&◌, ◌||◌,
  Option, none, some, List, [], ◌∷◌, ◌++◌, map, arith, str_eq, dec_lt, ℕ_discrete, ltb, leb, ◌==◌,
  if◌then◌else◌, Bool-cases, Option-cases, length, get_elem?, set, length-append, take, drop,
  replicate, Result, ok, err, panic, ◌>>=◌, ◌>>◌, ok_or, unwrap, >>=-ok,
}
use jankscripten.NotWasm.Types.{NotWasmType}
use jankscripten.Shared.Types.{JankyType, JankyTypes, ◌>?◌, notwasm_typ}

pub data BinaryOp : Type 0 where
  ptr_eq i32_eq i32_ne i32_add i32_sub i32_mul i32_div i32_rem i32_gt i32_lt i32_ge i32_le :
      BinaryOp
  i32_and i32_or i32_xor i32_shl i32_shr i32_shr_u : BinaryOp
  f64_add f64_sub f64_mul f64_div f64_eq f64_ne f64_lt f64_le f64_gt f64_ge : BinaryOp

pub data UnaryOp : Type 0 where
  sqrt f64_neg i32_neg i32_not eqz nop : UnaryOp

abbrev pub comparison : JankyType → JankyType × JankyType
comparison t = (t, JankyType.bool)

abbrev pub operation : JankyType → JankyType × JankyType
operation t = (t, t)

unfoldable pub binary_janky_typ : BinaryOp → JankyType × JankyType
binary_janky_typ ptr_eq = comparison JankyType.any
binary_janky_typ i32_eq = comparison JankyType.int
binary_janky_typ i32_ne = comparison JankyType.int
binary_janky_typ i32_gt = comparison JankyType.int
binary_janky_typ i32_lt = comparison JankyType.int
binary_janky_typ i32_ge = comparison JankyType.int
binary_janky_typ i32_le = comparison JankyType.int
binary_janky_typ f64_eq = comparison JankyType.float
binary_janky_typ f64_ne = comparison JankyType.float
binary_janky_typ f64_lt = comparison JankyType.float
binary_janky_typ f64_gt = comparison JankyType.float
binary_janky_typ f64_ge = comparison JankyType.float
binary_janky_typ f64_le = comparison JankyType.float
binary_janky_typ i32_add = operation JankyType.int
binary_janky_typ i32_sub = operation JankyType.int
binary_janky_typ i32_mul = operation JankyType.int
binary_janky_typ i32_div = operation JankyType.int
binary_janky_typ i32_rem = operation JankyType.int
binary_janky_typ i32_and = operation JankyType.int
binary_janky_typ i32_or = operation JankyType.int
binary_janky_typ i32_xor = operation JankyType.int
binary_janky_typ i32_shl = operation JankyType.int
binary_janky_typ i32_shr = operation JankyType.int
binary_janky_typ i32_shr_u = operation JankyType.int
binary_janky_typ f64_add = operation JankyType.float
binary_janky_typ f64_sub = operation JankyType.float
binary_janky_typ f64_mul = operation JankyType.float
binary_janky_typ f64_div = operation JankyType.float

unfoldable pub unary_janky_typ : UnaryOp → JankyType × JankyType
unary_janky_typ sqrt = operation JankyType.float
unary_janky_typ f64_neg = operation JankyType.float
unary_janky_typ i32_neg = operation JankyType.int
unary_janky_typ i32_not = operation JankyType.int
unary_janky_typ eqz = operation JankyType.bool
unary_janky_typ nop = operation JankyType.int

abbrev pub both_notwasm : JankyType × JankyType → Bool → Option (NotWasmType × NotWasmType)
both_notwasm (in_type, out_type) allow_closure =
    notwasm_typ in_type allow_closure >? λ i. notwasm_typ out_type allow_closure >? λ o. some (i, o)

-- the `notwasm_typ` of the operators
unfoldable pub binary_notwasm_typ : BinaryOp → Bool → Option (NotWasmType × NotWasmType)
unfolding binary_janky_typ notwasm_typ
binary_notwasm_typ op allow_closure = both_notwasm (binary_janky_typ op) allow_closure

unfoldable pub unary_notwasm_typ : UnaryOp → Bool → Option (NotWasmType × NotWasmType)
unfolding unary_janky_typ notwasm_typ
unary_notwasm_typ op allow_closure = both_notwasm (unary_janky_typ op) allow_closure

pub data Lit : Type 0 where
  bool : Bool → Lit
  i32 : ℕ → Lit
  f64 : ℕ → Lit
  string : String → Lit
  interned : String → ℕ → Lit
  undefined : Lit
  null : Lit

unfoldable pub lit_typ : Lit → NotWasmType
lit_typ (bool _) = NotWasmType.bool
lit_typ (i32 _) = NotWasmType.i32
lit_typ (f64 _) = NotWasmType.f64
lit_typ (string _) = NotWasmType.string
lit_typ (interned _ _) = NotWasmType.string
lit_typ undefined = NotWasmType.any
lit_typ null = NotWasmType.any

pub data RtsFunction : Type 0 where
  todo : String → RtsFunction
  method : String → JankyType → RtsFunction
  typeof delete void neg plus minus times over mod_ mod_f64 : RtsFunction
  strict_equal equal strict_not_equal not_equal instance_of in_ bitwise_not : RtsFunction
  import : String → RtsFunction

abbrev pub function_of : List JankyType → JankyType → JankyType
function_of args ret = JankyType.function (vec args) ret
  where
    vec : List JankyType → JankyTypes
    vec [] = JankyTypes.nil
    vec (t ∷ ts) = JankyTypes.cons t (vec ts)

-- `none` is a panic.
unfoldable pub rts_janky_typ : RtsFunction → Option JankyType
rts_janky_typ (todo name) = none
rts_janky_typ (method _ ty) = some ty
rts_janky_typ typeof = some (function_of (JankyType.any ∷ []) JankyType.string)
rts_janky_typ delete = some (function_of (JankyType.any ∷ JankyType.any ∷ []) JankyType.bool)
rts_janky_typ instance_of = some (function_of (JankyType.any ∷ JankyType.any ∷ []) JankyType.bool)
rts_janky_typ void = some (function_of (JankyType.any ∷ []) JankyType.any)
rts_janky_typ neg = some (function_of (JankyType.any ∷ []) JankyType.any)
rts_janky_typ plus = some (function_of (JankyType.any ∷ JankyType.any ∷ []) JankyType.any)
rts_janky_typ minus = some (function_of (JankyType.any ∷ JankyType.any ∷ []) JankyType.any)
rts_janky_typ times = some (function_of (JankyType.any ∷ JankyType.any ∷ []) JankyType.any)
rts_janky_typ mod_ = some (function_of (JankyType.any ∷ JankyType.any ∷ []) JankyType.any)
rts_janky_typ over = some (function_of (JankyType.any ∷ JankyType.any ∷ []) JankyType.float)
rts_janky_typ mod_f64 = some (function_of (JankyType.float ∷ JankyType.float ∷ []) JankyType.float)
rts_janky_typ strict_equal = some (function_of (JankyType.any ∷ JankyType.any ∷ []) JankyType.bool)
rts_janky_typ equal = some (function_of (JankyType.any ∷ JankyType.any ∷ []) JankyType.bool)
rts_janky_typ strict_not_equal =
    some (function_of (JankyType.any ∷ JankyType.any ∷ []) JankyType.bool)
rts_janky_typ not_equal = some (function_of (JankyType.any ∷ JankyType.any ∷ []) JankyType.bool)
rts_janky_typ in_ = some (function_of (JankyType.any ∷ JankyType.any ∷ []) JankyType.bool)
rts_janky_typ bitwise_not = some (function_of (JankyType.int ∷ []) JankyType.int)
rts_janky_typ (import _) = none
