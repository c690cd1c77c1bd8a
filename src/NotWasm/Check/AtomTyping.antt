-- ===== src/NotWasm/Check/AtomTyping.antt =====
-- The typing rules hold for every atom that the checker accepts.
use jankscripten.Prelude.{◌≡◌, ap, true, some, List, arith, ok}
use jankscripten.Prelude.{◌∙◌, ok-inj, none, Option, unwrap, >>=-ok, subst, sym}
use jankscripten.NotWasm.Operators.{BinaryOp, binary_notwasm_typ, unary_notwasm_typ}
use jankscripten.NotWasm.Syntax.{Atom, Atoms}
use jankscripten.NotWasm.Check.Atoms.{type_check_atom, type_check_atoms, set_ty, prim_app_callable}
use jankscripten.NotWasm.Check.Typing.{AtomHas, AtomsHave}
use jankscripten.NotWasm.Types.{NotWasmType}
use jankscripten.NotWasm.Check.{
  Env, TypeCheckingError, Checked, lookup, ensure, ensure_ref, assert_variant_of_any,
}
use jankscripten.NotWasm.Check.Atoms.{prim_app_result}
use jankscripten.NotWasm.Check.AtomTests.{
  lookup→env, ensure→eq, ensure-result, ensure_ref→eq, assert→CanBeAny, prim_app_result→Applies,
}

unwrap-eq :
    {A : Type 0} (o : Option A) (a : A) → unwrap {E = TypeCheckingError} o ≡ ok a → o ≡ some a
unwrap-eq none a h = absurd (ground arith)
unwrap-eq (some x) a h = ap some (ok-inj h)

at_type : {Γ : Env} {a : Atom} {t u : NotWasmType} → AtomHas Γ a u → u ≡ t → AtomHas Γ a t
at_type {Γ = Γ} {a = a} d e = subst (λ t. AtomHas Γ a t) e d

pub ensured :
    {Γ : Env} {a : Atom} {t u r : NotWasmType} → AtomHas Γ a u → ensure t u ≡ ok r → AtomHas Γ a t
ensured {t = t} {u = u} {r = r} d e = at_type d (sym (ensure→eq t u r e))

type_of :
    {t u : NotWasmType} {a b : Atom}
    → ◌≡◌ {A = Checked (NotWasmType × Atom)} (ok (t, a)) (ok (u, b))
    → t ≡ u
type_of h = ap (λ (t, a). t) (ok-inj h)

mutual
  unfolding type_check_atom set_ty prim_app_callable

  pub type_check_atom_sound :
      (Γ : Env) (a : Atom) (t : NotWasmType) (a' : Atom)
      → type_check_atom Γ a ≡ ok (t, a')
      → AtomHas Γ a t
  type_check_atom_sound Γ (Atom.deref a ty) t a' h =
      let ((got, b), e, h) = >>=-ok (type_check_atom Γ a) _ h in
      let (content, e1, h) = >>=-ok (ensure_ref got) _ h in
      let (r, e2, h) = >>=-ok (ensure ty content) _ h in
      let d = at_type (type_check_atom_sound Γ a got b e) (ensure_ref→eq got content e1) in
      let same = ensure→eq ty content r e2 in
      at_type (AtomHas.deref (at_type d (ap NotWasmType.ref (sym same))))
        (same ∙ (sym (ensure-result ty content r e2) ∙ type_of h))
  type_check_atom_sound Γ (Atom.lit l) t a' h = at_type AtomHas.lit (type_of h)
  type_check_atom_sound Γ (Atom.prim_app f as_) t a' h =
      let (ty, e, h) = >>=-ok (lookup Γ f) _ h in
      let (r, e1, h) = >>=-ok (prim_app_callable ty) _ h in
      let ((ts, bs), e2, h) = >>=-ok (type_check_atoms Γ as_) _ h in
      let (ret, e3, h) = >>=-ok (prim_app_result ty ts) _ h in
      let applies = prim_app_result→Applies ty ts ret e3 in
      let ds =
        subst (λ ts. AtomsHave Γ as_ ts) applies.actuals (type_check_atoms_sound Γ as_ ts bs e2) in
      at_type (AtomHas.prim_app (lookup→env Γ f ty e ∙ ap some applies.callee) ds) (type_of h)
  type_check_atom_sound Γ (Atom.to_any a none) t a' h =
      let ((got, b), e, h) = >>=-ok (type_check_atom Γ a) _ h in
      let (u, e1, h) = >>=-ok (assert_variant_of_any got) _ h in
      at_type (AtomHas.to_any (type_check_atom_sound Γ a got b e) (assert→CanBeAny got u e1))
        (type_of h)
  type_check_atom_sound Γ (Atom.to_any a (some old)) t a' h =
      let ((got, b), e, h) = >>=-ok (type_check_atom Γ a) _ h in
      let (u, e1, h) = >>=-ok (assert_variant_of_any got) _ h in absurd (ground arith)
  type_check_atom_sound Γ (Atom.from_any a ty) t a' h =
      let ((got, b), e, h) = >>=-ok (type_check_atom Γ a) _ h in
      let (u, e1, h) = >>=-ok (ensure NotWasmType.any got) _ h in
      at_type (AtomHas.from_any (ensured (type_check_atom_sound Γ a got b e) e1)) (type_of h)
  type_check_atom_sound Γ (Atom.float_to_int a) t a' h =
      let ((got, b), e, h) = >>=-ok (type_check_atom Γ a) _ h in
      let (u, e1, h) = >>=-ok (ensure NotWasmType.f64 got) _ h in
      at_type (AtomHas.float_to_int (ensured (type_check_atom_sound Γ a got b e) e1)) (type_of h)
  type_check_atom_sound Γ (Atom.int_to_float a) t a' h =
      let ((got, b), e, h) = >>=-ok (type_check_atom Γ a) _ h in
      let (u, e1, h) = >>=-ok (ensure NotWasmType.i32 got) _ h in
      at_type (AtomHas.int_to_float (ensured (type_check_atom_sound Γ a got b e) e1)) (type_of h)
  type_check_atom_sound Γ (Atom.object_get a b) t a' h =
      let ((got_a, a1), ea, h) = >>=-ok (type_check_atom Γ a) _ h in
      let ((got_b, b1), eb, h) = >>=-ok (type_check_atom Γ b) _ h in
      let (u, e1, h) = >>=-ok (ensure NotWasmType.string got_b) _ h in
      let (v, e2, h) = >>=-ok (ensure NotWasmType.dyn_object got_a) _ h in
      at_type
        (AtomHas.object_get (ensured (type_check_atom_sound Γ a got_a a1 ea) e2)
          (ensured (type_check_atom_sound Γ b got_b b1 eb) e1))
        (type_of h)
  type_check_atom_sound Γ (Atom.any_length x l) t a' h =
      let (ty, e, h) = >>=-ok (lookup Γ x) _ h in
      let (u, e1, h) = >>=-ok (ensure NotWasmType.any ty) _ h in
      at_type
        (AtomHas.any_length
          (lookup→env Γ x ty e ∙ ap some (sym (ensure→eq NotWasmType.any ty u e1))))
        (type_of h)
  type_check_atom_sound Γ (Atom.id x) t a' h =
      let (ty, e, h) = >>=-ok (lookup Γ x) _ h in
      at_type (AtomHas.id (lookup→env Γ x ty e)) (type_of h)
  type_check_atom_sound Γ (Atom.get_prim_func x) t a' h =
      let (ty, e, h) = >>=-ok (lookup Γ x) _ h in
      at_type (AtomHas.get_prim_func (lookup→env Γ x ty e)) (type_of h)
  type_check_atom_sound Γ (Atom.unary op a) t a' h =
      let ((ti, to), eo, h) = >>=-ok (unwrap (unary_notwasm_typ op true)) _ h in
      let ((got, b), e, h) = >>=-ok (type_check_atom Γ a) _ h in
      let (u, e1, h) = >>=-ok (ensure ti got) _ h in
      at_type
        (AtomHas.unary (unwrap-eq _ (ti, to) eo) (ensured (type_check_atom_sound Γ a got b e) e1))
        (type_of h)
  type_check_atom_sound Γ (Atom.binary BinaryOp.ptr_eq a b) t a' h =
      let ((got_a, a1), ea, h) = >>=-ok (type_check_atom Γ a) _ h in
      let ((got_b, b1), eb, h) = >>=-ok (type_check_atom Γ b) _ h in
      let (u, e1, h) = >>=-ok (ensure got_a got_b) _ h in
      at_type
        (AtomHas.ptr_eq (type_check_atom_sound Γ a got_a a1 ea)
          (ensured (type_check_atom_sound Γ b got_b b1 eb) e1))
        (type_of h)
  type_check_atom_sound Γ (Atom.binary op a b) t a' h =
      let ((ti, to), eo, h) = >>=-ok (unwrap (binary_notwasm_typ op true)) _ h in
      let ((got_a, a1), ea, h) = >>=-ok (type_check_atom Γ a) _ h in
      let ((got_b, b1), eb, h) = >>=-ok (type_check_atom Γ b) _ h in
      let (u, e1, h) = >>=-ok (ensure ti got_a) _ h in
      let (v, e2, h) = >>=-ok (ensure ti got_b) _ h in
      at_type
        (AtomHas.binary (λ e. absurd (ground arith)) (unwrap-eq _ (ti, to) eo)
          (ensured (type_check_atom_sound Γ a got_a a1 ea) e1)
          (ensured (type_check_atom_sound Γ b got_b b1 eb) e2))
        (type_of h)
  type_check_atom_sound Γ (Atom.env_get i ty) t a' h = at_type AtomHas.env_get (type_of h)

  type_check_atoms_sound :
      (Γ : Env) (as_ : Atoms) (ts : List NotWasmType) (bs : Atoms)
      → type_check_atoms Γ as_ ≡ ok (ts, bs)
      → AtomsHave Γ as_ ts
  type_check_atoms_sound Γ Atoms.nil ts bs h =
      subst (λ ts. AtomsHave Γ Atoms.nil ts) (ap (λ (ts, bs). ts) (ok-inj h)) AtomsHave.nil
  type_check_atoms_sound Γ (Atoms.cons a as_) ts bs h =
      let ((t, b), e, h) = >>=-ok (type_check_atom Γ a) _ h in
      let ((us, cs), e1, h) = >>=-ok (type_check_atoms Γ as_) _ h in
      subst (λ ts. AtomsHave Γ (Atoms.cons a as_) ts) (ap (λ (ts, bs). ts) (ok-inj h))
        (AtomsHave.cons (type_check_atom_sound Γ a t b e) (type_check_atoms_sound Γ as_ us cs e1))
