-- ===== src/NotWasm/Check/Annotated.antt =====
-- The annotations that the checker writes into atoms.
use jankscripten.Prelude.{
  ◌≡◌, refl, sym, ap, ap₂, subst, true, none, some, List, arith, ok, unwrap, >>=-ok,
}
use jankscripten.NotWasm.Types.{NotWasmType}
use jankscripten.NotWasm.Operators.{BinaryOp, binary_notwasm_typ, unary_notwasm_typ}
use jankscripten.NotWasm.Syntax.{Atom, Atoms}
use jankscripten.NotWasm.Check.{Env, Checked, lookup, ensure, ensure_ref, assert_variant_of_any}
use jankscripten.NotWasm.Check.Atoms.{
  type_check_atom, type_check_atoms, prim_app_result, prim_app_callable, set_ty,
}
use jankscripten.NotWasm.Check.Scope.{snd-eq}
use jankscripten.NotWasm.Check.Typing.{AtomHas}
use jankscripten.NotWasm.Check.AtomComplete.{type_check_atom-AtomHas}

abbrev mutual
  pub forget : Atom → Atom
  forget (Atom.lit l) = Atom.lit l
  forget (Atom.prim_app f as_) = Atom.prim_app f (forget_all as_)
  forget (Atom.to_any a t) = Atom.to_any (forget a) none
  forget (Atom.from_any a t) = Atom.from_any (forget a) t
  forget (Atom.float_to_int a) = Atom.float_to_int (forget a)
  forget (Atom.int_to_float a) = Atom.int_to_float (forget a)
  forget (Atom.object_get a b) = Atom.object_get (forget a) (forget b)
  forget (Atom.any_length x l) = Atom.any_length x l
  forget (Atom.id x) = Atom.id x
  forget (Atom.get_prim_func x) = Atom.get_prim_func x
  forget (Atom.unary op a) = Atom.unary op (forget a)
  forget (Atom.binary op a b) = Atom.binary op (forget a) (forget b)
  forget (Atom.deref a t) = Atom.deref (forget a) t
  forget (Atom.env_get i t) = Atom.env_get i t

  pub forget_all : Atoms → Atoms
  forget_all Atoms.nil = Atoms.nil
  forget_all (Atoms.cons a as_) = Atoms.cons (forget a) (forget_all as_)

-- Every `to_any` carries the type that its operand, without annotations, has by the typing rules.
abbrev mutual
  pub IsAnnotated : Env → Atom → Type 0
  IsAnnotated Γ (Atom.lit l) = Unit {0}
  IsAnnotated Γ (Atom.prim_app f as_) = AreAnnotated Γ as_
  IsAnnotated Γ (Atom.to_any a none) = ⊥
  IsAnnotated Γ (Atom.to_any a (some t)) = IsAnnotated Γ a × AtomHas Γ (forget a) t
  IsAnnotated Γ (Atom.from_any a t) = IsAnnotated Γ a
  IsAnnotated Γ (Atom.float_to_int a) = IsAnnotated Γ a
  IsAnnotated Γ (Atom.int_to_float a) = IsAnnotated Γ a
  IsAnnotated Γ (Atom.object_get a b) = IsAnnotated Γ a × IsAnnotated Γ b
  IsAnnotated Γ (Atom.any_length x l) = Unit {0}
  IsAnnotated Γ (Atom.id x) = Unit {0}
  IsAnnotated Γ (Atom.get_prim_func x) = Unit {0}
  IsAnnotated Γ (Atom.unary op a) = IsAnnotated Γ a
  IsAnnotated Γ (Atom.binary op a b) = IsAnnotated Γ a × IsAnnotated Γ b
  IsAnnotated Γ (Atom.deref a t) = IsAnnotated Γ a
  IsAnnotated Γ (Atom.env_get i t) = Unit {0}

  pub AreAnnotated : Env → Atoms → Type 0
  AreAnnotated Γ Atoms.nil = Unit {0}
  AreAnnotated Γ (Atoms.cons a as_) = IsAnnotated Γ a × AreAnnotated Γ as_

abbrev pub Annotates : Env → Atom → Atom → Type 0
Annotates Γ a a' = IsAnnotated Γ a' × (forget a' ≡ a)

becomes :
    (Γ : Env) {a b a' : Atom} {t u : NotWasmType}
    → Annotates Γ a b
    → ◌≡◌ {A = Checked (NotWasmType × Atom)} (ok (t, b)) (ok (u, a'))
    → Annotates Γ a a'
becomes Γ {a = a} d h = subst (λ b. Annotates Γ a b) (snd-eq h) d

mutual
  unfolding type_check_atom set_ty

  checked_atom-Annotates :
      (Γ : Env) (a : Atom) (t : NotWasmType) (a' : Atom)
      → type_check_atom Γ a ≡ ok (t, a')
      → Annotates Γ a a'
  checked_atom-Annotates Γ (Atom.deref a ty) t a' h =
      let ((got, b), e, h) = >>=-ok (type_check_atom Γ a) _ h in
      let (content, e1, h) = >>=-ok (ensure_ref got) _ h in
      let (r, e2, h) = >>=-ok (ensure ty content) _ h in
      let (d, f) = checked_atom-Annotates Γ a got b e in
      becomes Γ (d, ap (λ a. Atom.deref a ty) f) h
  checked_atom-Annotates Γ (Atom.lit l) t a' h = becomes Γ (tt, refl) h
  checked_atom-Annotates Γ (Atom.prim_app g as_) t a' h =
      let (ty, e, h) = >>=-ok (lookup Γ g) _ h in
      let (r, e1, h) = >>=-ok (prim_app_callable ty) _ h in
      let ((ts, bs), e2, h) = >>=-ok (type_check_atoms Γ as_) _ h in
      let (ret, e3, h) = >>=-ok (prim_app_result ty ts) _ h in
      let (d, f) = checked_atoms-Annotates Γ as_ ts bs e2 in
      becomes Γ (d, ap (λ a. Atom.prim_app g a) f) h
  checked_atom-Annotates Γ (Atom.to_any a none) t a' h =
      let ((got, b), e, h) = >>=-ok (type_check_atom Γ a) _ h in
      let (u, e1, h) = >>=-ok (assert_variant_of_any got) _ h in
      let (d, f) = checked_atom-Annotates Γ a got b e in
      let has = (type_check_atom-AtomHas Γ a got).0 (b, e) in
      becomes Γ ((d, subst (λ a. AtomHas Γ a got) (sym f) has), ap (λ a. Atom.to_any a none) f) h
  checked_atom-Annotates Γ (Atom.to_any a (some old)) t a' h =
      let ((got, b), e, h) = >>=-ok (type_check_atom Γ a) _ h in
      let (u, e1, h) = >>=-ok (assert_variant_of_any got) _ h in absurd (ground arith)
  checked_atom-Annotates Γ (Atom.from_any a ty) t a' h =
      let ((got, b), e, h) = >>=-ok (type_check_atom Γ a) _ h in
      let (u, e1, h) = >>=-ok (ensure NotWasmType.any got) _ h in
      let (d, f) = checked_atom-Annotates Γ a got b e in
      becomes Γ (d, ap (λ a. Atom.from_any a ty) f) h
  checked_atom-Annotates Γ (Atom.float_to_int a) t a' h =
      let ((got, b), e, h) = >>=-ok (type_check_atom Γ a) _ h in
      let (u, e1, h) = >>=-ok (ensure NotWasmType.f64 got) _ h in
      let (d, f) = checked_atom-Annotates Γ a got b e in becomes Γ (d, ap Atom.float_to_int f) h
  checked_atom-Annotates Γ (Atom.int_to_float a) t a' h =
      let ((got, b), e, h) = >>=-ok (type_check_atom Γ a) _ h in
      let (u, e1, h) = >>=-ok (ensure NotWasmType.i32 got) _ h in
      let (d, f) = checked_atom-Annotates Γ a got b e in becomes Γ (d, ap Atom.int_to_float f) h
  checked_atom-Annotates Γ (Atom.object_get a b) t a' h =
      let ((got_a, a1), ea, h) = >>=-ok (type_check_atom Γ a) _ h in
      let ((got_b, b1), eb, h) = >>=-ok (type_check_atom Γ b) _ h in
      let (u, e1, h) = >>=-ok (ensure NotWasmType.string got_b) _ h in
      let (v, e2, h) = >>=-ok (ensure NotWasmType.dyn_object got_a) _ h in
      let (da, fa) = checked_atom-Annotates Γ a got_a a1 ea in
      let (db, fb) = checked_atom-Annotates Γ b got_b b1 eb in
      becomes Γ ((da, db), ap₂ Atom.object_get fa fb) h
  checked_atom-Annotates Γ (Atom.any_length x l) t a' h =
      let (ty, e, h) = >>=-ok (lookup Γ x) _ h in
      let (u, e1, h) = >>=-ok (ensure NotWasmType.any ty) _ h in becomes Γ (tt, refl) h
  checked_atom-Annotates Γ (Atom.id x) t a' h =
      let (ty, e, h) = >>=-ok (lookup Γ x) _ h in becomes Γ (tt, refl) h
  checked_atom-Annotates Γ (Atom.get_prim_func x) t a' h =
      let (ty, e, h) = >>=-ok (lookup Γ x) _ h in becomes Γ (tt, refl) h
  checked_atom-Annotates Γ (Atom.unary op a) t a' h =
      let ((ti, to), eo, h) = >>=-ok (unwrap (unary_notwasm_typ op true)) _ h in
      let ((got, b), e, h) = >>=-ok (type_check_atom Γ a) _ h in
      let (u, e1, h) = >>=-ok (ensure ti got) _ h in
      let (d, f) = checked_atom-Annotates Γ a got b e in
      becomes Γ (d, ap (λ a. Atom.unary op a) f) h
  checked_atom-Annotates Γ (Atom.binary BinaryOp.ptr_eq a b) t a' h =
      let ((got_a, a1), ea, h) = >>=-ok (type_check_atom Γ a) _ h in
      let ((got_b, b1), eb, h) = >>=-ok (type_check_atom Γ b) _ h in
      let (u, e1, h) = >>=-ok (ensure got_a got_b) _ h in
      let (da, fa) = checked_atom-Annotates Γ a got_a a1 ea in
      let (db, fb) = checked_atom-Annotates Γ b got_b b1 eb in
      becomes Γ ((da, db), ap₂ (λ a b. Atom.binary BinaryOp.ptr_eq a b) fa fb) h
  checked_atom-Annotates Γ (Atom.binary op a b) t a' h =
      let ((ti, to), eo, h) = >>=-ok (unwrap (binary_notwasm_typ op true)) _ h in
      let ((got_a, a1), ea, h) = >>=-ok (type_check_atom Γ a) _ h in
      let ((got_b, b1), eb, h) = >>=-ok (type_check_atom Γ b) _ h in
      let (u, e1, h) = >>=-ok (ensure ti got_a) _ h in
      let (v, e2, h) = >>=-ok (ensure ti got_b) _ h in
      let (da, fa) = checked_atom-Annotates Γ a got_a a1 ea in
      let (db, fb) = checked_atom-Annotates Γ b got_b b1 eb in
      becomes Γ ((da, db), ap₂ (λ a b. Atom.binary op a b) fa fb) h
  checked_atom-Annotates Γ (Atom.env_get i ty) t a' h = becomes Γ (tt, refl) h

  checked_atoms-Annotates :
      (Γ : Env) (as_ : Atoms) (ts : List NotWasmType) (bs : Atoms)
      → type_check_atoms Γ as_ ≡ ok (ts, bs)
      → AreAnnotated Γ bs × (forget_all bs ≡ as_)
  checked_atoms-Annotates Γ Atoms.nil ts bs h =
      subst (λ bs. AreAnnotated Γ bs × (forget_all bs ≡ Atoms.nil)) (snd-eq h) (tt, refl)
  checked_atoms-Annotates Γ (Atoms.cons a as_) ts bs h =
      let ((t, b), e, h) = >>=-ok (type_check_atom Γ a) _ h in
      let ((us, cs), e1, h) = >>=-ok (type_check_atoms Γ as_) _ h in
      let (d, f) = checked_atom-Annotates Γ a t b e in
      let (ds, fs) = checked_atoms-Annotates Γ as_ us cs e1 in
      subst (λ bs. AreAnnotated Γ bs × (forget_all bs ≡ Atoms.cons a as_)) (snd-eq h)
        ((d, ds), ap₂ Atoms.cons f fs)

-- An atom that passes the check is the given atom with an annotation on every `to_any` and nothing else changed; and
-- each annotation is a type of the operand by the typing rules of NotWasm.
pub type_check_atom-Annotates :
    (Γ : Env) (a : Atom) (t : NotWasmType) (a' : Atom)
    → type_check_atom Γ a ≡ ok (t, a')
    → Annotates Γ a a'
type_check_atom-Annotates = checked_atom-Annotates
