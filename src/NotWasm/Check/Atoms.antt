-- ===== src/NotWasm/Check/Atoms.antt =====
-- `type_check_atom`: the type of an atom, with the atom as the checker leaves it.
use jankscripten.Prelude.{
  true, Option, none, some, List, [], ◌∷◌, ◌==◌, if◌then◌else◌, length, set, ok, err, panic, ◌>>=◌,
  unwrap,
}
use jankscripten.NotWasm.Types.{NotWasmType, unwrap_fun}
use jankscripten.NotWasm.Operators.{ptr_eq, lit_typ, binary_notwasm_typ, unary_notwasm_typ}
use jankscripten.NotWasm.Syntax.{Atom, Atoms}
use jankscripten.NotWasm.Check.{
  Env, Checked, other, lookup, ensure, ensure_ref, assert_variant_of_any, any_differ,
}

-- `set_ty` asserts that no type is set yet.
unfoldable pub set_ty : Atom → Option NotWasmType → NotWasmType → Checked Atom
set_ty a none ty = ok (Atom.to_any a (some ty))
set_ty a (some old) ty = panic

-- The call of a primitive on arguments of these types.
unfoldable pub prim_app_result : NotWasmType → List NotWasmType → Checked NotWasmType
prim_app_result ty arg_ts = unwrap (unwrap_fun ty) >>= λ (expected_arg_ts, opt_ret_t).
    unwrap opt_ret_t >>= λ ret_t.
    if length arg_ts == length expected_arg_ts
    then (if any_differ arg_ts expected_arg_ts then err other else ok ret_t)
    else err other

-- `ty.unwrap_fun()` and `expect`, which come before the arguments
unfoldable pub prim_app_callable : NotWasmType → Checked NotWasmType
prim_app_callable ty = unwrap (unwrap_fun ty) >>= λ (_, opt_ret_t). unwrap opt_ret_t

unfoldable mutual
  pub type_check_atom : Env → Atom → Checked (NotWasmType × Atom)
  type_check_atom Γ (Atom.deref a ty) = type_check_atom Γ a >>= λ (got, a').
      ensure_ref got >>= λ content. ensure ty content >>= λ r. ok (r, Atom.deref a' ty)
  type_check_atom Γ (Atom.lit l) = ok (lit_typ l, Atom.lit l)
  type_check_atom Γ (Atom.prim_app prim args) = lookup Γ prim >>= λ ty.
      prim_app_callable ty >>= λ _. type_check_atoms Γ args >>= λ (arg_ts, args').
      prim_app_result ty arg_ts >>= λ ret_t. ok (ret_t, Atom.prim_app prim args')
  type_check_atom Γ (Atom.to_any a set) = type_check_atom Γ a >>= λ (ty, a').
      assert_variant_of_any ty >>= λ _. set_ty a' set ty >>= λ b. ok (NotWasmType.any, b)
  type_check_atom Γ (Atom.from_any a ty) = type_check_atom Γ a >>= λ (got, a').
      ensure NotWasmType.any got >>= λ _. ok (ty, Atom.from_any a' ty)
  type_check_atom Γ (Atom.float_to_int a) = type_check_atom Γ a >>= λ (got, a').
      ensure NotWasmType.f64 got >>= λ _. ok (NotWasmType.i32, Atom.float_to_int a')
  type_check_atom Γ (Atom.int_to_float a) = type_check_atom Γ a >>= λ (got, a').
      ensure NotWasmType.i32 got >>= λ _. ok (NotWasmType.f64, Atom.int_to_float a')
  type_check_atom Γ (Atom.id x) = lookup Γ x >>= λ ty. ok (ty, Atom.id x)
  type_check_atom Γ (Atom.get_prim_func x) = lookup Γ x >>= λ ty. ok (ty, Atom.get_prim_func x)
  type_check_atom Γ (Atom.object_get a_obj a_field) = type_check_atom Γ a_obj >>= λ (got_obj, obj').
      type_check_atom Γ a_field >>= λ (got_field, field').
      ensure NotWasmType.string got_field >>= λ _. ensure NotWasmType.dyn_object got_obj >>= λ _.
      ok (NotWasmType.any, Atom.object_get obj' field')
  type_check_atom Γ (Atom.any_length x l) = lookup Γ x >>= λ got.
      ensure NotWasmType.any got >>= λ _. ok (NotWasmType.any, Atom.any_length x l)
  type_check_atom Γ (Atom.unary op a) = unwrap (unary_notwasm_typ op true) >>= λ (ty_in, ty_out).
      type_check_atom Γ a >>= λ (got, a'). ensure ty_in got >>= λ _. ok (ty_out, Atom.unary op a')
  type_check_atom Γ (Atom.binary ptr_eq a_l a_r) = type_check_atom Γ a_l >>= λ (got_l, l').
      type_check_atom Γ a_r >>= λ (got_r, r').
      ensure got_l got_r >>= λ _. ok (NotWasmType.bool, Atom.binary ptr_eq l' r')
  type_check_atom Γ (Atom.binary op a_l a_r) =
      unwrap (binary_notwasm_typ op true) >>= λ (ty_in, ty_out).
      type_check_atom Γ a_l >>= λ (got_l, l'). type_check_atom Γ a_r >>= λ (got_r, r').
      ensure ty_in got_l >>= λ _. ensure ty_in got_r >>= λ _. ok (ty_out, Atom.binary op l' r')
  type_check_atom Γ (Atom.env_get i ty) = ok (ty, Atom.env_get i ty)

  pub type_check_atoms : Env → Atoms → Checked (List NotWasmType × Atoms)
  type_check_atoms Γ Atoms.nil = ok ([], Atoms.nil)
  type_check_atoms Γ (Atoms.cons a as_) = type_check_atom Γ a >>= λ (ty, a').
      type_check_atoms Γ as_ >>= λ (tys, as'). ok (ty ∷ tys, Atoms.cons a' as')
