-- ===== src/Shared/Types.antt =====
-- The types of JankyScript (libjankscripten/src/shared/types.rs) and their translation to NotWasm types.
-- An optional result stands for a panic of the source where it is `none`.
pub mod Ground
pub mod Translation
pub mod Examples
use jankscripten.Prelude.{
  ℕ, zero, suc, ◌+◌, ◌-◌, ◌*◌, ◌/◌, ◌%◌, ◌^◌, ◌≤◌, ◌<◌, max, min, String, ◌≡◌, refl, sym, ap, ap₂,
  subst, ◌∙◌, ◌≢◌, ◌↔◌, ◌⊎◌, inl, inr, ite, if_pos, if_neg, Bool, true, false, not, ◌&&◌, ◌||◌,
  Option, none, some, List, [], ◌∷◌, ◌++◌, map, arith, str_eq, dec_lt, ℕ_discrete, ltb, leb, ◌==◌,
  if◌then◌else◌, Bool-cases, Option-cases, length, get_elem?, set, length-append, take, drop,
  replicate, Result, ok, err, panic, ◌>>=◌, ◌>>◌, ok_or, unwrap, >>=-ok,
}
use jankscripten.NotWasm.Types.{NotWasmType, FnType, NotWasmTypes, OptType, fn_type}

mutual
  pub data JankyType : Type 0 where
    missing : JankyType
    any : JankyType
    float : JankyType
    int : JankyType
    bool : JankyType
    function : JankyTypes → JankyType → JankyType
    string : JankyType
    array : JankyType
    dyn_object : JankyType
    ref : JankyType → JankyType
    metavar : ℕ → JankyType

  pub data JankyTypes : Type 0 where
    nil : JankyTypes
    cons : JankyType → JankyTypes → JankyTypes

unfoldable pub JankyType-discrete : Discrete JankyType
unfolding ℕ_discrete
JankyType-discrete = hlevel ℕ_discrete

abbrev pub arity : JankyTypes → ℕ
arity nil = 0
arity (cons t ts) = suc (arity ts)

-- `vec![t; n]`
abbrev pub repeat : ℕ → JankyType → JankyTypes
repeat zero t = nil
repeat (suc n) t = cons t (repeat n t)

-- the test `if let Type::Any = t`
unfoldable pub is_any : JankyType → Bool
is_any any = true
is_any _ = false

-- the loop over the arguments in `is_ground`
unfoldable pub all_any : JankyTypes → Bool
all_any nil = true
all_any (cons t ts) = let rest = all_any ts in if is_any t then rest else false

unfoldable pub is_ground : JankyType → Bool
unfolding is_any all_any
is_ground (function args ret) = if is_any ret then all_any args else false
is_ground _ = true

unfoldable pub ground_function : ℕ → JankyType
ground_function n = function (repeat n any) any

-- Closures take their environment as the first argument.
abbrev pub closure_type : Bool → NotWasmTypes → NotWasmType → NotWasmType
closure_type true ts r =
    NotWasmType.closure (fn_type (NotWasmTypes.cons NotWasmType.env ts) (OptType.some_type r))
closure_type false ts r = NotWasmType.fn (fn_type ts (OptType.some_type r))

infixl 5 ◌>?◌
abbrev pub ◌>?◌ {ℓ κ} : {A : Type ℓ} {B : Type κ} → Option A → (A → Option B) → Option B
none >? f = none
some a >? f = f a

unfoldable mutual
  pub notwasm_typ : JankyType → Bool → Option NotWasmType
  notwasm_typ missing allow_closure = none
  notwasm_typ any allow_closure = some NotWasmType.any
  notwasm_typ float allow_closure = some NotWasmType.f64
  notwasm_typ int allow_closure = some NotWasmType.i32
  notwasm_typ bool allow_closure = some NotWasmType.bool
  notwasm_typ (function args ret) allow_closure = notwasm_typ ret allow_closure >? λ r.
      notwasm_typs args allow_closure >? λ ts. some (closure_type allow_closure ts r)
  notwasm_typ string allow_closure = some NotWasmType.string
  notwasm_typ array allow_closure = some NotWasmType.array
  notwasm_typ dyn_object allow_closure = some NotWasmType.dyn_object
  notwasm_typ (ref of) allow_closure = notwasm_typ of allow_closure >? λ t. some (NotWasmType.ref t)
  notwasm_typ (metavar i) allow_closure = none

  pub notwasm_typs : JankyTypes → Bool → Option NotWasmTypes
  notwasm_typs nil allow_closure = some NotWasmTypes.nil
  notwasm_typs (cons t ts) allow_closure = notwasm_typ t allow_closure >? λ t'.
      notwasm_typs ts allow_closure >? λ ts'. some (NotWasmTypes.cons t' ts')
