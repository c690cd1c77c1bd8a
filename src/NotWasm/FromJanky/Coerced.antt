-- ===== src/NotWasm/FromJanky/Coerced.antt =====
-- A coercion becomes an atom of the type that it coerces to.
use jankscripten.Prelude.{◌≡◌, refl, sym, subst, ◌∙◌, true, none, some, ok}
use jankscripten.Prelude.{some-inj}
use jankscripten.Shared.Types.{JankyType, notwasm_typ}
use jankscripten.Shared.Coercions.{Coercion}
use jankscripten.Shared.Coercions.Typing.{
  Coerces, tag, untag, int_to_float, float_to_int, fun, id, seq, meta,
}
use jankscripten.NotWasm.Types.{NotWasmType}
use jankscripten.NotWasm.Syntax.{Atom}
use jankscripten.NotWasm.Check.{Env}
use jankscripten.NotWasm.Check.Typing.{AtomHas, CanBeAny}
use jankscripten.NotWasm.FromJanky.{typ_of, coercion_to_expr}

-- No function is coerced and nothing is left to inference; a tag has a type that an Any can hold, and the type of an
-- untag can be translated.
abbrev pub CanCompile : Coercion → Type 0
CanCompile (Coercion.tag t) = (t' : NotWasmType) × (notwasm_typ t true ≡ some t') × CanBeAny t'
CanCompile (Coercion.untag t) = (t' : NotWasmType) × (notwasm_typ t true ≡ some t')
CanCompile (Coercion.fun args ret) = ⊥
CanCompile (Coercion.meta s t) = ⊥
CanCompile (Coercion.seq c1 c2) = CanCompile c1 × CanCompile c2
CanCompile Coercion.int_to_float = Unit {0}
CanCompile Coercion.float_to_int = Unit {0}
CanCompile (Coercion.id t) = Unit {0}

-- A coercion from one type to another, in the documented typing, that coerces no function, leaves nothing
-- to inference, tags only what an Any can hold and untags to types that can be translated, is compiled
-- without a panic where it is applied to an atom that has, by the typing rules of NotWasm, the
-- translation of the first type; and the result has the translation of the second, which is defined.
pub coercion_to_expr-AtomHas :
    (Γ : Env) {c : Coercion} {s t : JankyType} (a : Atom) (s' : NotWasmType)
    → Coerces c s t
    → CanCompile c
    → notwasm_typ s true ≡ some s'
    → AtomHas Γ a s'
    → (b : Atom) × (t' : NotWasmType) × (coercion_to_expr c a ≡ ok b)
      × (notwasm_typ t true ≡ some t')
      × AtomHas Γ b t'
unfolding coercion_to_expr typ_of notwasm_typ
coercion_to_expr-AtomHas Γ a s' tag (t', e, can) es has = (
  Atom.to_any a none,
  NotWasmType.any,
  refl,
  refl,
  AtomHas.to_any (subst (AtomHas Γ a) (some-inj (sym es ∙ e)) has) can,
)
coercion_to_expr-AtomHas Γ a s' (untag {t}) (t', e) es has = (
  Atom.from_any a t',
  t',
  rw e refl,
  e,
  AtomHas.from_any (subst (AtomHas Γ a) (sym (some-inj es)) has),
)
coercion_to_expr-AtomHas Γ a s' int_to_float can es has = (
  Atom.int_to_float a,
  NotWasmType.f64,
  refl,
  refl,
  AtomHas.int_to_float (subst (AtomHas Γ a) (sym (some-inj es)) has),
)
coercion_to_expr-AtomHas Γ a s' float_to_int can es has = (
  Atom.float_to_int a,
  NotWasmType.i32,
  refl,
  refl,
  AtomHas.float_to_int (subst (AtomHas Γ a) (sym (some-inj es)) has),
)
coercion_to_expr-AtomHas Γ a s' (fun args ret) can es has = absurd can
coercion_to_expr-AtomHas Γ a s' id can es has = (a, s', refl, es, has)
coercion_to_expr-AtomHas Γ a s' (seq c1 c2) (can1, can2) es has =
    let (b, u', e1, eu, has1) = coercion_to_expr-AtomHas Γ a s' c1 can1 es has in
    let (d, t', e2, et, has2) = coercion_to_expr-AtomHas Γ b u' c2 can2 eu has1 in
    (d, t', rw e1 e2, et, has2)
coercion_to_expr-AtomHas Γ a s' meta can es has = absurd can
