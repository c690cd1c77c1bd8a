-- ===== src/NotWasm/Check.antt =====
-- The type checker of NotWasm (libjankscripten/src/notwasm/type_checking.rs): environments, errors and the
-- tests. Messages and positions are left out of the errors; `panic` is a panic of the source.
pub mod Atoms
pub mod Exprs
pub mod Stmts
pub mod Programs
pub mod Typing
pub mod AtomTests
pub mod AtomTyping
pub mod AtomComplete
pub mod Scope
pub mod Declared
pub mod Names
pub mod ArraySet
pub mod Annotated
pub mod Examples
use jankscripten.Prelude.{
  ℕ, zero, suc, ◌+◌, ◌-◌, ◌*◌, ◌/◌, ◌%◌, ◌^◌, ◌≤◌, ◌<◌, max, min, String, ◌≡◌, refl, sym, ap, ap₂,
  subst, ◌∙◌, ◌≢◌, ◌↔◌, ◌⊎◌, inl, inr, ite, if_pos, if_neg, Bool, true, false, not, ◌&&◌, ◌||◌,
  Option, none, some, List, [], ◌∷◌, ◌++◌, map, arith, str_eq, dec_lt, ℕ_discrete, ltb, leb, ◌==◌,
  if◌then◌else◌, Bool-cases, Option-cases, length, get_elem?, set, length-append, take, drop,
  replicate, Result, ok, err, panic, ◌>>=◌, ◌>>◌, ok_or, unwrap, >>=-ok,
}
use jankscripten.Shared.Ident.{Ident, Ident-discrete}
use jankscripten.NotWasm.Types.{NotWasmType, NotWasmType-discrete, FnType, NotWasmTypes, fn_type}

-- Both maps are functions from identifiers; `none` is a missing key.
pub record Env : Type 0 where
  pub env : Ident → Option NotWasmType
  pub imports : Ident → Option NotWasmType

abbrev pub TypeMap : Type 0
TypeMap = Ident → Option NotWasmType

unfoldable pub insert_in : TypeMap → Ident → NotWasmType → TypeMap
insert_in m x ty y = ite (Ident-discrete y x) (some ty) (m y)

-- `Env::update`; `Env::insert` is this with the old entry as its result.
unfoldable pub update : Env → Ident → NotWasmType → Env
unfolding insert_in
update Γ x ty = record Γ { env = insert_in Γ.env x ty }

unfoldable pub insert : Env → Ident → NotWasmType → Env × Option NotWasmType
unfolding update
insert Γ x ty = (update Γ x ty, Γ.env x)

pub data TypeCheckingError : Type 0 where
  no_such_variable : Ident → TypeCheckingError
  type_mismatch : NotWasmType → NotWasmType → TypeCheckingError
  expected_function : Ident → NotWasmType → TypeCheckingError
  expected_ref : NotWasmType → TypeCheckingError
  unexpected_return : NotWasmType → TypeCheckingError
  arity_mismatch : Ident → ℕ → ℕ → TypeCheckingError
  multiply_defined : Ident → TypeCheckingError
  invalid_in_context : NotWasmType → TypeCheckingError
  other : TypeCheckingError

abbrev pub Checked {ℓ} : Type ℓ → Type ℓ
Checked A = Result TypeCheckingError A

unfoldable pub lookup : Env → Ident → Checked NotWasmType
lookup Γ x = elim (Γ.env x) [ some ty ↦ ok ty | none ↦ err (no_such_variable x) ]

unfoldable pub ensure : NotWasmType → NotWasmType → Checked NotWasmType
ensure expected got =
    ite (NotWasmType-discrete expected got) (ok got) (err (type_mismatch expected got))

unfoldable pub ensure_ref : NotWasmType → Checked NotWasmType
ensure_ref (NotWasmType.ref ty) = ok ty
ensure_ref got = err (expected_ref got)

abbrev pub starts_with_env : FnType → Bool
starts_with_env (fn_type (NotWasmTypes.cons NotWasmType.env ts) r) = true
starts_with_env (fn_type _ r) = false

unfoldable pub assert_variant_of_any : NotWasmType → Checked (Unit {0})
assert_variant_of_any NotWasmType.any = err (invalid_in_context NotWasmType.any)
assert_variant_of_any NotWasmType.i32 = ok tt
assert_variant_of_any NotWasmType.f64 = ok tt
assert_variant_of_any NotWasmType.bool = ok tt
assert_variant_of_any NotWasmType.string = ok tt
assert_variant_of_any (NotWasmType.fn ty) = if starts_with_env ty then ok tt else err other
assert_variant_of_any (NotWasmType.closure _) = ok tt
assert_variant_of_any NotWasmType.ht = ok tt
assert_variant_of_any NotWasmType.array = ok tt
assert_variant_of_any NotWasmType.dyn_object = ok tt
assert_variant_of_any (NotWasmType.ref t) = err (invalid_in_context (NotWasmType.ref t))
assert_variant_of_any NotWasmType.env = err (invalid_in_context NotWasmType.env)
assert_variant_of_any NotWasmType.ptr = ok tt

-- `ts.zip(us).any(|(t, u)| t != u)`
unfoldable pub any_differ : List NotWasmType → List NotWasmType → Bool
any_differ (t ∷ ts) (u ∷ us) =
    let rest = any_differ ts us in ite (NotWasmType-discrete t u) rest true
any_differ _ _ = false
