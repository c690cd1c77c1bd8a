-- ===== src/Shared/Types/Translation.antt =====
-- The translation of types: where it is defined, and that it forgets nothing.
use jankscripten.Prelude.{
  ◌≡◌, refl, sym, ◌∙◌, ◌↔◌, Bool, true, false, ◌&&◌, Option, none, some, arith, if◌then◌else◌,
}
use jankscripten.Prelude.{&&-eq-true, subst, some-inj}
use jankscripten.NotWasm.Types.{
  NotWasmType, FnType, NotWasmTypes, OptType, fn_type, no_type, some_type,
}
use jankscripten.Shared.Types.{JankyType, JankyTypes, closure_type, ◌>?◌, notwasm_typ, notwasm_typs}

-- No metavariable and no missing annotation stands in the type.
unfoldable mutual
  pub is_resolved : JankyType → Bool
  is_resolved JankyType.missing = false
  is_resolved (JankyType.metavar i) = false
  is_resolved (JankyType.function args ret) = is_resolved ret && all_resolved args
  is_resolved (JankyType.ref t) = is_resolved t
  is_resolved _ = true

  pub all_resolved : JankyTypes → Bool
  all_resolved JankyTypes.nil = true
  all_resolved (JankyTypes.cons t ts) = is_resolved t && all_resolved ts

abbrev drop_env : JankyTypes → JankyTypes
drop_env JankyTypes.nil = JankyTypes.nil
drop_env (JankyTypes.cons t ts) = ts

-- The way back, which the source does not have; the environment's type is read as `missing`.
mutual
  source : NotWasmType → Option JankyType
  source NotWasmType.any = some JankyType.any
  source NotWasmType.f64 = some JankyType.float
  source NotWasmType.i32 = some JankyType.int
  source NotWasmType.bool = some JankyType.bool
  source (NotWasmType.fn f) = source_fn false f
  source (NotWasmType.closure f) = source_fn true f
  source NotWasmType.string = some JankyType.string
  source NotWasmType.array = some JankyType.array
  source NotWasmType.dyn_object = some JankyType.dyn_object
  source (NotWasmType.ref t) = source t >? λ s. some (JankyType.ref s)
  source NotWasmType.env = some JankyType.missing
  source _ = none

  source_fn : Bool → FnType → Option JankyType
  source_fn c (fn_type ts r) = source_list ts >? λ args.
      source_result r >? λ ret. some (JankyType.function (if c then drop_env args else args) ret)

  source_list : NotWasmTypes → Option JankyTypes
  source_list NotWasmTypes.nil = some JankyTypes.nil
  source_list (NotWasmTypes.cons t ts) =
      source t >? λ s. source_list ts >? λ ss. some (JankyTypes.cons s ss)

  source_result : OptType → Option JankyType
  source_result no_type = none
  source_result (some_type t) = source t

>?-eq-some {ℓ κ} :
    {A : Type ℓ} {B : Type κ} (m : Option A) (f : A → Option B) {b : B}
    → (m >? f) ≡ some b
    → (a : A) × (m ≡ some a) × (f a ≡ some b)
>?-eq-some (some a) f h = (a, refl, h)
>?-eq-some none f h = absurd (ground arith)

source-closure_type :
    (c : Bool) (ts : NotWasmTypes) (r : NotWasmType) (args : JankyTypes) (ret : JankyType)
    → source_list ts ≡ some args
    → source r ≡ some ret
    → source (closure_type c ts r) ≡ some (JankyType.function args ret)
unfolding source
source-closure_type true ts r args ret p q = rw (p, q)
source-closure_type false ts r args ret p q = rw (p, q)

mutual
  unfolding notwasm_typ source

  source-notwasm_typ :
      (t : JankyType) (c : Bool) (t' : NotWasmType) → notwasm_typ t c ≡ some t' → source t' ≡ some t
  source-notwasm_typ JankyType.missing c t' h = absurd (ground arith)
  source-notwasm_typ (JankyType.function args ret) c t' h =
      let (r, e, h₁) = >?-eq-some (notwasm_typ ret c) _ h in
      let (ts, e', h₂) = >?-eq-some (notwasm_typs args c) _ h₁ in
      rw (← some-inj h₂) (
        source-closure_type c ts r args ret (source-notwasm_typs args c ts e')
          (source-notwasm_typ ret c r e))
  source-notwasm_typ (JankyType.ref of) c t' h =
      let (r, e, h₁) = >?-eq-some (notwasm_typ of c) _ h in
      rw (← some-inj h₁, source-notwasm_typ of c r e)
  source-notwasm_typ (JankyType.metavar i) c t' h = absurd (ground arith)
  source-notwasm_typ t c t' h = subst (λ x. source x ≡ some t) (some-inj h) refl

  source-notwasm_typs :
      (ts : JankyTypes) (c : Bool) (ts' : NotWasmTypes)
      → notwasm_typs ts c ≡ some ts'
      → source_list ts' ≡ some ts
  source-notwasm_typs JankyTypes.nil c ts' h =
      subst (λ x. source_list x ≡ some JankyTypes.nil) (some-inj h) refl
  source-notwasm_typs (JankyTypes.cons t ts) c ts' h =
      let (t', e, h₁) = >?-eq-some (notwasm_typ t c) _ h in
      let (us, e', h₂) = >?-eq-some (notwasm_typs ts c) _ h₁ in
      rw (← some-inj h₂, source-notwasm_typ t c t' e, source-notwasm_typs ts c us e')

-- Two JankyScript types that translate to the same NotWasm type are the same type, so the
-- translation conflates no types. This holds for closures and for first-order functions.
pub notwasm_typ-injective :
    (s t : JankyType) (allow_closure : Bool) (t' : NotWasmType)
    → notwasm_typ s allow_closure ≡ some t'
    → notwasm_typ t allow_closure ≡ some t'
    → s ≡ t
notwasm_typ-injective s t c t' p q =
    some-inj (sym (source-notwasm_typ s c t' p) ∙ source-notwasm_typ t c t' q)

mutual
  unfolding notwasm_typ is_resolved

  notwasm_typ-total :
      (t : JankyType) (c : Bool)
      → is_resolved t ≡ true
      → (t' : NotWasmType) × (notwasm_typ t c ≡ some t')
  notwasm_typ-total JankyType.missing c h = absurd (ground arith)
  notwasm_typ-total JankyType.any c h = (NotWasmType.any, refl)
  notwasm_typ-total JankyType.float c h = (NotWasmType.f64, refl)
  notwasm_typ-total JankyType.int c h = (NotWasmType.i32, refl)
  notwasm_typ-total JankyType.bool c h = (NotWasmType.bool, refl)
  notwasm_typ-total (JankyType.function args ret) c h =
      let (hr, hs) = &&-eq-true (is_resolved ret) (all_resolved args) h in
      let (r, p) = notwasm_typ-total ret c hr in
      let (ts, q) = notwasm_typs-total args c hs in (closure_type c ts r, rw (p, q))
  notwasm_typ-total JankyType.string c h = (NotWasmType.string, refl)
  notwasm_typ-total JankyType.array c h = (NotWasmType.array, refl)
  notwasm_typ-total JankyType.dyn_object c h = (NotWasmType.dyn_object, refl)
  notwasm_typ-total (JankyType.ref of) c h =
      let (r, p) = notwasm_typ-total of c h in (NotWasmType.ref r, rw p)
  notwasm_typ-total (JankyType.metavar i) c h = absurd (ground arith)

  notwasm_typs-total :
      (ts : JankyTypes) (c : Bool)
      → all_resolved ts ≡ true
      → (ts' : NotWasmTypes) × (notwasm_typs ts c ≡ some ts')
  notwasm_typs-total JankyTypes.nil c h = (NotWasmTypes.nil, refl)
  notwasm_typs-total (JankyTypes.cons t ts) c h =
      let (ht, hs) = &&-eq-true (is_resolved t) (all_resolved ts) h in
      let (t', p) = notwasm_typ-total t c ht in
      let (ts', q) = notwasm_typs-total ts c hs in (NotWasmTypes.cons t' ts', rw (p, q))

mutual
  unfolding notwasm_typ is_resolved

  notwasm_typ-resolved :
      (t : JankyType) (c : Bool) (t' : NotWasmType)
      → notwasm_typ t c ≡ some t'
      → is_resolved t ≡ true
  notwasm_typ-resolved JankyType.missing c t' h = absurd (ground arith)
  notwasm_typ-resolved (JankyType.function args ret) c t' h =
      let (r, e, h₁) = >?-eq-some (notwasm_typ ret c) _ h in
      let (ts, e', h₂) = >?-eq-some (notwasm_typs args c) _ h₁ in
      rw (notwasm_typ-resolved ret c r e, notwasm_typs-resolved args c ts e')
  notwasm_typ-resolved (JankyType.ref of) c t' h =
      let (r, e, h₁) = >?-eq-some (notwasm_typ of c) _ h in notwasm_typ-resolved of c r e
  notwasm_typ-resolved (JankyType.metavar i) c t' h = absurd (ground arith)
  notwasm_typ-resolved _ c t' h = refl

  notwasm_typs-resolved :
      (ts : JankyTypes) (c : Bool) (ts' : NotWasmTypes)
      → notwasm_typs ts c ≡ some ts'
      → all_resolved ts ≡ true
  notwasm_typs-resolved JankyTypes.nil c ts' h = refl
  notwasm_typs-resolved (JankyTypes.cons t ts) c ts' h =
      let (t', e, h₁) = >?-eq-some (notwasm_typ t c) _ h in
      let (us, e', h₂) = >?-eq-some (notwasm_typs ts c) _ h₁ in
      rw (notwasm_typ-resolved t c t' e, notwasm_typs-resolved ts c us e')

-- The translation succeeds on exactly the types in which no metavariable and no missing annotation
-- is left; on any other type it panics.
pub notwasm_typ-defined :
    (t : JankyType) (allow_closure : Bool)
    → ((t' : NotWasmType) × (notwasm_typ t allow_closure ≡ some t')) ↔ (is_resolved t ≡ true)
notwasm_typ-defined t c = ((λ (t', e). notwasm_typ-resolved t c t' e), notwasm_typ-total t c)
