-- ===== src/NotWasm/Check/Exprs.antt =====
-- `type_check_expr` and `type_check_call`.
use jankscripten.Prelude.{
  ◌+◌, String, ite, Bool, true, false, Option, none, some, List, [], ◌∷◌, ◌==◌, if◌then◌else◌,
  length, ok, err, panic, ◌>>=◌, ◌>>◌, ok_or, unwrap,
}
use jankscripten.Shared.Ident.{Ident, named}
use jankscripten.Shared.Types.{notwasm_typ}
use jankscripten.NotWasm.Types.{
  NotWasmType-discrete, NotWasmType, FnType, fn_type, to_list, to_option, unwrap_fun,
}
use jankscripten.NotWasm.Operators.{RtsFunction, import, rts_janky_typ}
use jankscripten.NotWasm.Syntax.{Expr}
use jankscripten.NotWasm.Check.{
  Env, Checked, other, arity_mismatch, type_mismatch, expected_function, lookup, ensure, any_differ,
}
use jankscripten.NotWasm.Check.Atoms.{type_check_atom}

unfoldable pub lookup_all : Env → List Ident → Checked (List NotWasmType)
lookup_all Γ [] = ok []
lookup_all Γ (x ∷ xs) = do ty ← lookup Γ x; tys ← lookup_all Γ xs; ok (ty ∷ tys)

-- the loop over the zipped formals and actuals
unfoldable pub check_actuals : Env → List Ident → List NotWasmType → Checked (Unit {0})
check_actuals Γ (actual ∷ actuals) (formal ∷ formals) = do
  got ← lookup Γ actual
  ensure formal got
  check_actuals Γ actuals formals
check_actuals Γ _ _ = ok tt

-- With an implicit argument the first formal must be the environment.
unfoldable pub explicit_formals : List NotWasmType → Bool → Checked (List NotWasmType)
explicit_formals formals false = ok formals
explicit_formals (NotWasmType.env ∷ formals) true = ok formals
explicit_formals (got ∷ formals) true = err (type_mismatch NotWasmType.env got)
explicit_formals [] true = panic

abbrev pub result_or_any : Option NotWasmType → NotWasmType
result_or_any none = NotWasmType.any
result_or_any (some t) = t

unfoldable pub type_check_call : Env → Ident → List Ident → FnType → Bool → Checked NotWasmType
type_check_call Γ id_f actuals (fn_type formals res) implicit_arg =
    let actuals_len = length actuals + (if implicit_arg then 1 else 0) in
    let expected_len = length (to_list formals) in
    if actuals_len == expected_len
    then (do
      rest ← explicit_formals (to_list formals) implicit_arg
      check_actuals Γ actuals rest
      ok (result_or_any (to_option res)))
    else err (arity_mismatch id_f actuals_len expected_len)

unfoldable pub check_import_args : Env → List NotWasmType → List Ident → Checked (Unit {0})
check_import_args Γ (expected_ty ∷ tys) (arg ∷ args) =
    let rest = check_import_args Γ tys args in
    lookup Γ arg >>= λ got_ty. ite (NotWasmType-discrete expected_ty got_ty) rest (err other)
check_import_args Γ _ _ = ok tt

unfoldable pub type_check_import : Env → String → List Ident → Checked NotWasmType
unfolding check_import_args
type_check_import Γ name args = ok_or (Γ.imports (named name)) other >>= λ ty.
    unwrap (unwrap_fun ty) >>= λ (arg_tys, opt_ret_ty). ok_or opt_ret_ty other >>= λ ret_ty.
    if length arg_tys == length args
    then (check_import_args Γ arg_tys args >>= λ _. ok ret_ty)
    else err other

-- the `match` on the NotWasm type of a primitive that is no import
unfoldable pub type_check_prim : Env → NotWasmType → List Ident → Checked NotWasmType
unfolding lookup_all
type_check_prim Γ (NotWasmType.fn (fn_type formals res)) args = lookup_all Γ args >>= λ arg_tys.
    if length arg_tys == length (to_list formals)
    then (if any_differ arg_tys (to_list formals)
        then err other
        else ok (result_or_any (to_option res)))
    else err other
type_check_prim Γ _ args = err other

unfoldable pub type_check_prim_call : Env → RtsFunction → List Ident → Checked NotWasmType
unfolding type_check_import type_check_prim
type_check_prim_call Γ (import name) args = type_check_import Γ name args
type_check_prim_call Γ prim args = do
  janky ← unwrap (rts_janky_typ prim)
  ty ← unwrap (notwasm_typ janky false)
  type_check_prim Γ ty args

unfoldable pub check_any_args : Env → List Ident → Checked (Unit {0})
check_any_args Γ [] = ok tt
check_any_args Γ (x ∷ xs) = do got ← lookup Γ x; ensure NotWasmType.any got; check_any_args Γ xs

unfoldable pub call_named : Env → Ident → List Ident → NotWasmType → Checked NotWasmType
unfolding type_check_call
call_named Γ id_f actuals (NotWasmType.fn fn_ty) = type_check_call Γ id_f actuals fn_ty false
call_named Γ id_f actuals got_f = err (expected_function id_f got_f)

unfoldable pub call_closure : Env → Ident → List Ident → NotWasmType → Checked NotWasmType
unfolding type_check_call
call_closure Γ id_f actuals (NotWasmType.closure fn_ty) = type_check_call Γ id_f actuals fn_ty true
call_closure Γ id_f actuals got_f = err (expected_function id_f got_f)

unfoldable pub closure_of : Ident → NotWasmType → Checked NotWasmType
closure_of x (NotWasmType.fn fn_ty) = ok (NotWasmType.closure fn_ty)
closure_of x got = err (expected_function x got)

-- In `array_set` the source drops the results of the last two tests; here they are not made.
unfoldable pub type_check_expr : Env → Expr → Checked (NotWasmType × Expr)
type_check_expr Γ Expr.object_empty = ok (NotWasmType.dyn_object, Expr.object_empty)
type_check_expr Γ (Expr.array_set a_arr a_idx a_val) =
    type_check_atom Γ a_arr >>= λ (got_arr, arr'). type_check_atom Γ a_idx >>= λ (got_idx, idx').
    type_check_atom Γ a_val >>= λ (got_val, val').
    ensure NotWasmType.i32 got_idx >>= λ _. ok (NotWasmType.any, Expr.array_set arr' idx' val')
type_check_expr Γ (Expr.object_set a_obj a_field a_val) =
    type_check_atom Γ a_obj >>= λ (got_obj, obj').
    type_check_atom Γ a_field >>= λ (got_field, field').
    type_check_atom Γ a_val >>= λ (got_val, val'). ensure NotWasmType.dyn_object got_obj >>= λ _.
    ensure NotWasmType.string got_field >>= λ _.
    ensure NotWasmType.any got_val >>= λ _. ok (NotWasmType.any, Expr.object_set obj' field' val')
type_check_expr Γ (Expr.prim_call prim args) =
    type_check_prim_call Γ prim args >>= λ ty. ok (ty, Expr.prim_call prim args)
type_check_expr Γ (Expr.call id_f actuals) = lookup Γ id_f >>= λ got_f.
    call_named Γ id_f actuals got_f >>= λ ty. ok (ty, Expr.call id_f actuals)
type_check_expr Γ (Expr.any_method_call obj method actuals tys) = lookup Γ obj >>= λ got.
    ensure NotWasmType.any got >>= λ _. check_any_args Γ actuals >>= λ _.
    ok (NotWasmType.any, Expr.any_method_call obj method actuals tys)
type_check_expr Γ (Expr.closure_call id_f actuals) = lookup Γ id_f >>= λ got_f.
    call_closure Γ id_f actuals got_f >>= λ ty. ok (ty, Expr.closure_call id_f actuals)
type_check_expr Γ (Expr.new_ref a ty) = type_check_atom Γ a >>= λ (actual, a').
    ensure ty actual >>= λ _. ok (NotWasmType.ref ty, Expr.new_ref a' ty)
type_check_expr Γ (Expr.atom a) = type_check_atom Γ a >>= λ (ty, a'). ok (ty, Expr.atom a')
type_check_expr Γ (Expr.closure x captured) =
    lookup Γ x >>= λ got. closure_of x got >>= λ ty. ok (ty, Expr.closure x captured)
