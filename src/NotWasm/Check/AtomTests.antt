-- ===== src/NotWasm/Check/AtomTests.antt =====
-- What the tests of the checker of atoms show when they succeed.
use jankscripten.Prelude.{
  ◌≡◌, refl, ap, ap₂, inl, inr, if_pos, true, false, some, List, [], ◌∷◌, arith, ◌==◌, Bool-cases,
  length, ok,
}
use jankscripten.Prelude.{ok-inj}
use jankscripten.Shared.Ident.{Ident}
use jankscripten.NotWasm.Types.{
  NotWasmType, NotWasmTypes, OptType, fn_type, NotWasmType-discrete, to_list, unwrap_fun,
}
use jankscripten.NotWasm.Check.{
  Env, lookup, ensure, ensure_ref, assert_variant_of_any, starts_with_env, any_differ,
}
use jankscripten.NotWasm.Check.Atoms.{prim_app_result}
use jankscripten.NotWasm.Check.Typing.{CanBeAny}

pub lookup→env : (Γ : Env) (x : Ident) (t : NotWasmType) → lookup Γ x ≡ ok t → Γ.env x ≡ some t
unfolding lookup
lookup→env Γ x t h = ground arith

pub env→lookup : (Γ : Env) (x : Ident) (t : NotWasmType) → Γ.env x ≡ some t → lookup Γ x ≡ ok t
unfolding lookup
env→lookup Γ x t h = ground arith

pub ensure→eq : (t u r : NotWasmType) → ensure t u ≡ ok r → t ≡ u
unfolding ensure
ensure→eq t u r h = elim (NotWasmType-discrete t u) [ yes p ↦ p | no p ↦ absurd (ground arith) ]

pub ensure-result : (t u r : NotWasmType) → ensure t u ≡ ok r → r ≡ u
unfolding ensure
ensure-result t u r h = elim (NotWasmType-discrete t u) [
  | yes p ↦ ground arith
  | no p ↦ absurd (ground arith)
]

pub ensure_self : (t : NotWasmType) → ensure t t ≡ ok t
unfolding ensure
ensure_self t = rw (if_pos (NotWasmType-discrete t t) refl)

pub ensure_ref→eq : (t u : NotWasmType) → ensure_ref t ≡ ok u → t ≡ NotWasmType.ref u
unfolding ensure_ref
ensure_ref→eq (NotWasmType.ref t) u h = ap NotWasmType.ref (ok-inj h)
ensure_ref→eq _ u h = absurd (ground arith)

pub assert→CanBeAny : (t : NotWasmType) (r : Unit {0}) → assert_variant_of_any t ≡ ok r → CanBeAny t
unfolding assert_variant_of_any
assert→CanBeAny NotWasmType.any r h = absurd (ground arith)
assert→CanBeAny (NotWasmType.fn f) r h = elim (Bool-cases (starts_with_env f)) [
  | inl e ↦ e
  | inr e ↦ absurd (ground arith)
]
assert→CanBeAny (NotWasmType.ref t) r h = absurd (ground arith)
assert→CanBeAny NotWasmType.env r h = absurd (ground arith)
assert→CanBeAny _ r h = tt

pub CanBeAny→assert : (t : NotWasmType) → CanBeAny t → assert_variant_of_any t ≡ ok tt
unfolding assert_variant_of_any
CanBeAny→assert NotWasmType.any h = absurd h
CanBeAny→assert (NotWasmType.fn f) h = rw h
CanBeAny→assert (NotWasmType.ref t) h = absurd h
CanBeAny→assert NotWasmType.env h = absurd h
CanBeAny→assert _ h = refl

pub any_differ→eq :
    (ts us : List NotWasmType) → length ts ≡ length us → any_differ ts us ≡ false → ts ≡ us
unfolding any_differ
any_differ→eq [] [] l h = refl
any_differ→eq [] (u ∷ us) l h = absurd (omega arith)
any_differ→eq (t ∷ ts) [] l h = absurd (omega arith)
any_differ→eq (t ∷ ts) (u ∷ us) l h = elim (NotWasmType-discrete t u) [
  | yes p ↦
      ap₂ ◌∷◌ p (any_differ→eq ts us (omega arith) (rw (if_pos (NotWasmType-discrete t u) p) at h))
  | no p ↦ absurd (ground arith)
]

pub any_differ_self : (ts : List NotWasmType) → any_differ ts ts ≡ false
unfolding any_differ
any_differ_self [] = refl
any_differ_self (t ∷ ts) = rw (if_pos (NotWasmType-discrete t t) refl) (any_differ_self ts)

-- what a successful call of a primitive shows
pub record Applies (ty : NotWasmType) (arg_ts : List NotWasmType) (ret : NotWasmType) : Type 0 where
  pub formals : NotWasmTypes
  pub callee : ty ≡ NotWasmType.fn (fn_type formals (OptType.some_type ret))
  pub actuals : arg_ts ≡ to_list formals

pub prim_app_result→Applies :
    (ty : NotWasmType) (arg_ts : List NotWasmType) (ret : NotWasmType)
    → prim_app_result ty arg_ts ≡ ok ret
    → Applies ty arg_ts ret
unfolding prim_app_result unwrap_fun
prim_app_result→Applies (NotWasmType.fn (fn_type formals (OptType.some_type t))) arg_ts ret h =
    elim (Bool-cases (length arg_ts == length (to_list formals))) [
      | inl same ↦ elim (Bool-cases (any_differ arg_ts (to_list formals))) [
        | inl differ ↦ absurd (ground arith)
        | inr equal ↦ record {
          formals = formals;
          callee = ap (λ r. NotWasmType.fn (fn_type formals (OptType.some_type r))) (ground arith);
          actuals = any_differ→eq arg_ts (to_list formals) (ground arith) equal;
        }
      ]
      | inr other ↦ absurd (ground arith)
    ]
prim_app_result→Applies (NotWasmType.fn (fn_type formals OptType.no_type)) arg_ts ret h =
    absurd (ground arith)
prim_app_result→Applies _ arg_ts ret h = absurd (ground arith)

length_refl : (ts : List NotWasmType) → length ts == length ts ≡ true
length_refl ts = ground arith

pub prim_app_result_self :
    (formals : NotWasmTypes) (t : NotWasmType)
    → prim_app_result (NotWasmType.fn (fn_type formals (OptType.some_type t))) (to_list formals)
      ≡ ok t
unfolding prim_app_result unwrap_fun
prim_app_result_self formals t =
    rw (length_refl (to_list formals), any_differ_self (to_list formals))
