-- ===== src/NotWasm/Check/AtomComplete.antt =====
-- The checker of atoms accepts every atom that the typing rules type.
use jankscripten.Prelude.{◌≡◌, refl, ◌≢◌, ◌↔◌, true, some, List, ok}
use jankscripten.NotWasm.Types.{NotWasmType, to_list, unwrap_fun}
use jankscripten.NotWasm.Operators.{BinaryOp, binary_notwasm_typ}
use jankscripten.NotWasm.Syntax.{Atom, Atoms}
use jankscripten.NotWasm.Check.{Env, ensure_ref}
use jankscripten.NotWasm.Check.Atoms.{type_check_atom, type_check_atoms, prim_app_callable, set_ty}
use jankscripten.NotWasm.Check.Typing.{AtomHas, AtomsHave}
use jankscripten.NotWasm.Check.AtomTests.{
  env→lookup, ensure_self, CanBeAny→assert, prim_app_result_self,
}
use jankscripten.NotWasm.Check.AtomTyping.{type_check_atom_sound}

Accepted : Env → Atom → NotWasmType → Type 0
Accepted Γ a t = (a' : Atom) × (type_check_atom Γ a ≡ ok (t, a'))

type_check_atom-binary :
    (Γ : Env) (op : BinaryOp) (a b a' b' : Atom) (ti to : NotWasmType)
    → op ≢ BinaryOp.ptr_eq
    → binary_notwasm_typ op true ≡ some (ti, to)
    → type_check_atom Γ a ≡ ok (ti, a')
    → type_check_atom Γ b ≡ ok (ti, b')
    → type_check_atom Γ (Atom.binary op a b) ≡ ok (to, Atom.binary op a' b')
unfolding type_check_atom
type_check_atom-binary Γ BinaryOp.ptr_eq a b a' b' ti to n o ea eb = absurd (n refl)
type_check_atom-binary Γ op a b a' b' ti to n o ea eb = rw (o, ea, eb, ensure_self ti)

mutual
  unfolding type_check_atom set_ty prim_app_callable unwrap_fun ensure_ref

  pub type_check_atom_complete :
      (Γ : Env) (a : Atom) (t : NotWasmType)
      → AtomHas Γ a t
      → (a' : Atom) × (type_check_atom Γ a ≡ ok (t, a'))
  type_check_atom_complete Γ _ _ (AtomHas.lit {l = l}) = (Atom.lit l, refl)
  type_check_atom_complete Γ _ _
        (AtomHas.prim_app {f = f} {as_ = as_} {formals = formals} {t = t} d ds) =
      let (bs, e) = type_check_atoms_complete Γ as_ (to_list formals) ds in
      (Atom.prim_app f bs, rw (env→lookup Γ f _ d, e, prim_app_result_self formals t))
  type_check_atom_complete Γ _ _ (AtomHas.to_any {a = a} {t = t} d c) =
      let (b, e) = type_check_atom_complete Γ a t d in
      (Atom.to_any b (some t), rw (e, CanBeAny→assert t c))
  type_check_atom_complete Γ _ _ (AtomHas.from_any {a = a} {t = t} d) =
      let (b, e) = type_check_atom_complete Γ a NotWasmType.any d in
      (Atom.from_any b t, rw (e, ensure_self NotWasmType.any))
  type_check_atom_complete Γ _ _ (AtomHas.float_to_int {a = a} d) =
      let (b, e) = type_check_atom_complete Γ a NotWasmType.f64 d in
      (Atom.float_to_int b, rw (e, ensure_self NotWasmType.f64))
  type_check_atom_complete Γ _ _ (AtomHas.int_to_float {a = a} d) =
      let (b, e) = type_check_atom_complete Γ a NotWasmType.i32 d in
      (Atom.int_to_float b, rw (e, ensure_self NotWasmType.i32))
  type_check_atom_complete Γ _ _ (AtomHas.object_get {a = a} {b = b} d d1) =
      let (a', e) = type_check_atom_complete Γ a NotWasmType.dyn_object d in
      let (b', e1) = type_check_atom_complete Γ b NotWasmType.string d1 in
      (
        Atom.object_get a' b',
        rw (e, e1, ensure_self NotWasmType.string, ensure_self NotWasmType.dyn_object),
      )
  type_check_atom_complete Γ _ _ (AtomHas.any_length {x = x} {l = l} d) =
      (Atom.any_length x l, rw (env→lookup Γ x _ d, ensure_self NotWasmType.any))
  type_check_atom_complete Γ _ _ (AtomHas.id {x = x} d) = (Atom.id x, rw (env→lookup Γ x _ d))
  type_check_atom_complete Γ _ _ (AtomHas.get_prim_func {x = x} d) =
      (Atom.get_prim_func x, rw (env→lookup Γ x _ d))
  type_check_atom_complete Γ _ _ (AtomHas.unary {op = op} {a = a} {ti = ti} {to = to} o d) =
      let (b, e) = type_check_atom_complete Γ a ti d in (Atom.unary op b, rw (o, e, ensure_self ti))
  type_check_atom_complete Γ _ _ (AtomHas.ptr_eq {a = a} {b = b} {t = t} d d1) =
      let (a', e) = type_check_atom_complete Γ a t d in
      let (b', e1) = type_check_atom_complete Γ b t d1 in
      (Atom.binary BinaryOp.ptr_eq a' b', rw (e, e1, ensure_self t))
  type_check_atom_complete Γ _ _
        (AtomHas.binary {op = op} {a = a} {b = b} {ti = ti} {to = to} n o d d1) =
      let (a', e) = type_check_atom_complete Γ a ti d in
      let (b', e1) = type_check_atom_complete Γ b ti d1 in
      (Atom.binary op a' b', type_check_atom-binary Γ op a b a' b' ti to n o e e1)
  type_check_atom_complete Γ _ _ (AtomHas.deref {a = a} {t = t} d) =
      let (a', e) = type_check_atom_complete Γ a (NotWasmType.ref t) d in
      (Atom.deref a' t, rw (e, ensure_self t))
  type_check_atom_complete Γ _ _ (AtomHas.env_get {i = i} {t = t}) = (Atom.env_get i t, refl)

  type_check_atoms_complete :
      (Γ : Env) (as_ : Atoms) (ts : List NotWasmType)
      → AtomsHave Γ as_ ts
      → (bs : Atoms) × (type_check_atoms Γ as_ ≡ ok (ts, bs))
  type_check_atoms_complete Γ _ _ AtomsHave.nil = (Atoms.nil, refl)
  type_check_atoms_complete Γ _ _ (AtomsHave.cons {a = a} {as_ = as_} {t = t} {ts = ts} d ds) =
      let (b, e) = type_check_atom_complete Γ a t d in
      let (bs, e1) = type_check_atoms_complete Γ as_ ts ds in (Atoms.cons b bs, rw (e, e1))

-- An atom is accepted at a type exactly when the typing rules give it that type.
pub type_check_atom-AtomHas :
    (Γ : Env) (a : Atom) (t : NotWasmType)
    → ((a' : Atom) × (type_check_atom Γ a ≡ ok (t, a'))) ↔ AtomHas Γ a t
type_check_atom-AtomHas Γ a t =
    (λ (a', e). type_check_atom_sound Γ a t a' e, type_check_atom_complete Γ a t)
