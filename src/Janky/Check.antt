-- ===== src/Janky/Check.antt =====
-- The type checker of JankyScript (libjankscripten/src/jankyscript/type_checking.rs). The tables that it reads, of
-- methods and of global names, are arguments. Its results carry no messages and no positions.
pub mod Scope
pub mod Inserted
pub mod Calls
pub mod Examples
use jankscripten.Prelude.{
  ℕ, zero, suc, ◌+◌, ◌-◌, ◌*◌, ◌/◌, ◌%◌, ◌^◌, ◌≤◌, ◌<◌, max, min, String, ◌≡◌, refl, sym, ap, ap₂,
  subst, ◌∙◌, ◌≢◌, ◌↔◌, ◌⊎◌, inl, inr, ite, if_pos, if_neg, Bool, true, false, not, ◌&&◌, ◌||◌,
  Option, none, some, List, [], ◌∷◌, ◌++◌, map, arith, str_eq, dec_lt, ℕ_discrete, ltb, leb, ◌==◌,
  if◌then◌else◌, Bool-cases, Option-cases, length, get_elem?, set, length-append, take, drop,
  replicate, Result, ok, err, panic, ◌>>=◌, ◌>>◌, ok_or, unwrap, >>=-ok,
}
use jankscripten.Shared.Ident.{Ident, Ident-discrete}
use jankscripten.Shared.Types.{JankyType, JankyTypes, JankyType-discrete, repeat}
use jankscripten.NotWasm.Operators.{RtsFunction, binary_janky_typ, unary_janky_typ, rts_janky_typ}
use jankscripten.Janky.Syntax.{Num, Lit, LValue, Func, Expr, Exprs, Props, Captured, Stmt, Stmts}
use jankscripten.Janky.CheckCoercion.{
  TypeCheckingError, type_mismatch, expected_indexable, expected_function, unexpected_return,
  no_such_variable, expected_box, ensure, type_check_coercion,
}

abbrev pub Checked : Type 0 → Type 0
Checked A = Result TypeCheckingError A

-- A map from identifiers; `none` is a missing key.
abbrev pub Env : Type 0
Env = Ident → Option JankyType

unfoldable pub update : Env → Ident → JankyType → Env
update Γ x t y = ite (Ident-discrete y x) (some t) (Γ y)

unfoldable pub extend : Env → List (Ident × JankyType) → Env
extend Γ [] = Γ
extend Γ ((x, t) ∷ rest) = extend (update Γ x t) rest

unfoldable pub lookup : Env → Ident → Checked JankyType
lookup Γ x = ok_or (Γ x) (no_such_variable x)

-- the type of the table of methods, from a name and a number of arguments
abbrev pub Methods : Type 0
Methods = String → ℕ → Option (List JankyType)

unfoldable pub is_one_of : List JankyType → JankyType → Bool
is_one_of [] got = false
is_one_of (t ∷ ts) got = let rest = is_one_of ts got in ite (JankyType-discrete t got) true rest

unfoldable pub ensure_indexable : JankyType → Checked JankyType
unfolding is_one_of
ensure_indexable got =
    if is_one_of (JankyType.dyn_object ∷ JankyType.array ∷ JankyType.string ∷ JankyType.any ∷ [])
      got
    then ok got
    else err (expected_indexable got)

-- The error is the one that the source returns.
unfoldable pub ensure_indexer : JankyType → Checked JankyType
unfolding is_one_of
ensure_indexer got =
    if is_one_of (JankyType.string ∷ JankyType.int ∷ JankyType.any ∷ []) got
    then ok got
    else err (expected_indexable got)

abbrev pub to_list : JankyTypes → List JankyType
to_list JankyTypes.nil = []
to_list (JankyTypes.cons t ts) = t ∷ to_list ts

abbrev pub from_list : List JankyType → JankyTypes
from_list [] = JankyTypes.nil
from_list (t ∷ ts) = JankyTypes.cons t (from_list ts)

unfoldable pub ensure_function : JankyType → Checked (List JankyType × JankyType)
ensure_function (JankyType.function formals ret) = ok (to_list formals, ret)
ensure_function got = err (expected_function got)

-- The content of a box.
unfoldable pub ensure_box : JankyType → Checked JankyType
ensure_box (JankyType.ref t) = ok t
ensure_box got = err (expected_box got)

unfoldable pub type_check_lit : Lit → JankyType
type_check_lit (Lit.string _) = JankyType.string
type_check_lit (Lit.bool _) = JankyType.bool
type_check_lit Lit.null = JankyType.any
type_check_lit (Lit.num (Num.float _)) = JankyType.float
type_check_lit (Lit.num (Num.int _)) = JankyType.int
type_check_lit Lit.undefined = JankyType.any
type_check_lit (Lit.regex _ _) = JankyType.any

-- `t.unwrap_fun().0[0]`
unfoldable pub first_formal : JankyType → Checked JankyType
first_formal (JankyType.function (JankyTypes.cons t ts) ret) = ok t
first_formal _ = panic

-- `filter(..).next().unwrap()`
unfoldable pub find_method : JankyType → List JankyType → Checked JankyType
unfolding first_formal
find_method prefix [] = panic
find_method prefix (t ∷ ts) =
    let rest = find_method prefix ts in
    first_formal t >>= λ self. ite (JankyType-discrete self prefix) (ok t) rest

-- `get_type_by_prefix` of shared/methods.rs
unfoldable pub get_type_by_prefix : Methods → String → ℕ → JankyType → Checked JankyType
unfolding find_method
get_type_by_prefix methods method arity JankyType.dyn_object =
    ok (JankyType.function (repeat arity JankyType.any) JankyType.any)
get_type_by_prefix methods method arity JankyType.any =
    ok (JankyType.function (repeat arity JankyType.any) JankyType.any)
get_type_by_prefix methods method arity prefix =
    unwrap (methods method arity) >>= λ ts. find_method prefix ts

unfoldable pub length_type : JankyType → JankyType
length_type JankyType.dyn_object = JankyType.int
length_type JankyType.array = JankyType.int
length_type _ = JankyType.any

abbrev pub exprs_len : Exprs → ℕ
exprs_len Exprs.nil = 0
exprs_len (Exprs.cons e es) = suc (exprs_len es)

-- A result that is put into a vector of results; a panic is not.
unfoldable pub keep : Checked JankyType → Checked (Checked JankyType)
keep (ok t) = ok (ok t)
keep (err e) = ok (err e)
keep panic = panic

-- the loop over the zipped actual and expected types
unfoldable pub check_zipped : List (Checked JankyType) → List JankyType → Checked (Unit {0})
check_zipped (actual ∷ actuals) (expected ∷ rest) =
    actual >>= λ got. ensure expected got >>= λ _. check_zipped actuals rest
check_zipped _ _ = ok tt

unfoldable pub check_return : Option JankyType → JankyType → Checked JankyType
check_return none got = err (unexpected_return got)
check_return (some ret) got = ensure ret got

-- The test of the initial value of a variable, with the check of it; a literal `undefined` passes unseen.
unfoldable pub check_initial : JankyType → Expr → Checked JankyType → Checked JankyType
check_initial t (Expr.lit Lit.undefined) got = ok t
check_initial t e got = got >>= λ ty. ensure t ty

-- The call of a function of that type, with the vector of the results of its arguments.
unfoldable pub type_check_fun_call :
    JankyType → Checked (List (Checked JankyType)) → Checked JankyType
unfolding ensure_function check_zipped
type_check_fun_call fun_type each = ensure_function fun_type >>= λ (expected, ret).
    each >>= λ actuals. check_zipped actuals expected >>= λ _. ok ret

module _ (methods : Methods) where
  unfoldable mutual
    pub type_check_expr : Env → Expr → Checked JankyType
    type_check_expr Γ (Expr.js_op op es) = panic
    type_check_expr Γ (Expr.func f) = type_check_func Γ f
    type_check_expr Γ (Expr.assign lval rval) =
        type_check_expr Γ rval >>= λ rval_ty. type_check_lvalue Γ lval rval_ty
    type_check_expr Γ (Expr.call fun args) =
        type_check_expr Γ fun >>= λ fun_type. type_check_fun_call fun_type (type_check_each Γ args)
    type_check_expr Γ (Expr.method_call obj method args typ) = type_check_expr Γ obj >>= λ got.
        ensure typ got >>= λ _. get_type_by_prefix methods method (exprs_len args) typ >>= λ ty.
        type_check_fun_call ty (type_check_each Γ args)
    type_check_expr Γ (Expr.length_of obj typ) =
        type_check_expr Γ obj >>= λ got. ensure typ got >>= λ _. ok (length_type typ)
    type_check_expr Γ (Expr.coercion c e) = type_check_expr Γ e >>= λ actual.
        type_check_coercion c >>= λ (from, to). ensure from actual >>= λ _. ok to
    type_check_expr Γ (Expr.lit l) = ok (type_check_lit l)
    type_check_expr Γ (Expr.id x ty) = lookup Γ x >>= λ got. ensure ty got
    type_check_expr Γ (Expr.object props) =
        type_check_props Γ props >>= λ _. ok JankyType.dyn_object
    type_check_expr Γ (Expr.array vals) = type_check_exprs Γ vals >>= λ _. ok JankyType.array
    type_check_expr Γ (Expr.dot obj prop) = type_check_expr Γ obj >>= λ _. ok JankyType.any
    type_check_expr Γ (Expr.bracket obj dyn_prop t) = type_check_expr Γ obj >>= λ got.
        ensure t got >>= λ obj_type. ensure_indexable obj_type >>= λ _.
        type_check_expr Γ dyn_prop >>= λ prop_type.
        ensure_indexer prop_type >>= λ _. ok JankyType.any
    type_check_expr Γ (Expr.prim_call prim args) =
        unwrap (rts_janky_typ prim) >>= λ ty. type_check_fun_call ty (type_check_each Γ args)
    type_check_expr Γ (Expr.unary op e) =
        let (ty_in, ty_out) = unary_janky_typ op in
        type_check_expr Γ e >>= λ got. ensure ty_in got >>= λ _. ok ty_out
    type_check_expr Γ (Expr.binary op e_l e_r) =
        let (ty_in, ty_out) = binary_janky_typ op in
        type_check_expr Γ e_l >>= λ got_l. type_check_expr Γ e_r >>= λ got_r.
        ensure ty_in got_l >>= λ _. ensure ty_in got_r >>= λ _. ok ty_out
    type_check_expr Γ (Expr.new_ref e t) =
        type_check_expr Γ e >>= λ got. ensure t got >>= λ _. ok (JankyType.ref t)
    type_check_expr Γ (Expr.deref e annot) =
        type_check_expr Γ e >>= λ got. ensure_box got >>= λ t. ensure t annot >>= λ _. ok t
    type_check_expr Γ (Expr.store e1 e2 annot) = type_check_expr Γ e1 >>= λ got.
        ensure_box got >>= λ t.
        ensure t annot >>= λ _. type_check_expr Γ e2 >>= λ got2. ensure t got2 >>= λ _. ok t
    type_check_expr Γ (Expr.env_get i t) = ok t
    type_check_expr Γ (Expr.closure f captured) =
        type_check_captured Γ captured >>= λ _. type_check_func Γ f

    pub type_check_lvalue : Env → LValue → JankyType → Checked JankyType
    type_check_lvalue Γ (LValue.to_id x ty) rval_ty =
        lookup Γ x >>= λ id_ty. ensure ty rval_ty >>= λ _. ensure ty id_ty >>= λ _. ok rval_ty
    type_check_lvalue Γ (LValue.to_dot e x) rval_ty = type_check_expr Γ e >>= λ _. ok rval_ty
    type_check_lvalue Γ (LValue.to_bracket e computed_prop t) rval_ty =
        type_check_expr Γ e >>= λ got.
        ensure t got >>= λ _. type_check_expr Γ computed_prop >>= λ _. ok rval_ty

    -- the vector of the results of the arguments
    pub type_check_each : Env → Exprs → Checked (List (Checked JankyType))
    type_check_each Γ Exprs.nil = ok []
    type_check_each Γ (Exprs.cons e es) = keep (type_check_expr Γ e) >>= λ actual.
        type_check_each Γ es >>= λ actuals. ok (actual ∷ actuals)

    -- the loop over the elements of an array
    pub type_check_exprs : Env → Exprs → Checked (Unit {0})
    type_check_exprs Γ Exprs.nil = ok tt
    type_check_exprs Γ (Exprs.cons e es) = type_check_expr Γ e >>= λ _. type_check_exprs Γ es

    pub type_check_props : Env → Props → Checked (Unit {0})
    type_check_props Γ Props.no_props = ok tt
    type_check_props Γ (Props.prop k e rest) = type_check_expr Γ e >>= λ _. type_check_props Γ rest

    pub type_check_captured : Env → Captured → Checked (Unit {0})
    type_check_captured Γ Captured.no_captured = ok tt
    type_check_captured Γ (Captured.capture e t rest) =
        type_check_expr Γ e >>= λ got. ensure t got >>= λ _. type_check_captured Γ rest

    pub type_check_func : Env → Func → Checked JankyType
    type_check_func Γ (Func.make result_typ args body free_vars assigned) =
        type_check_stmt (extend Γ args) body (some result_typ) >>= λ _.
        ok (JankyType.function (from_list (map (λ (x, t). t) args)) result_typ)

    pub type_check_stmt : Env → Stmt → Option JankyType → Checked Env
    type_check_stmt Γ Stmt.empty ret = ok Γ
    type_check_stmt Γ (Stmt.expr e) ret = type_check_expr Γ e >>= λ _. ok Γ
    type_check_stmt Γ (Stmt.finally try_body finally_body) ret =
        type_check_stmt Γ try_body ret >>= λ _. type_check_stmt Γ finally_body ret >>= λ _. ok Γ
    type_check_stmt Γ (Stmt.catch try_body x catch_body) ret =
        type_check_stmt Γ try_body ret >>= λ _.
        type_check_stmt (update Γ x JankyType.any) catch_body ret >>= λ _. ok Γ
    type_check_stmt Γ (Stmt.loop body) ret = type_check_stmt Γ body ret >>= λ _. ok Γ
    type_check_stmt Γ (Stmt.for_in bind container body) ret = type_check_expr Γ container >>= λ got.
        ensure_indexable got >>= λ _.
        type_check_stmt (update Γ bind JankyType.any) body ret >>= λ _. ok Γ
    type_check_stmt Γ (Stmt.throw e) ret = type_check_expr Γ e >>= λ _. ok Γ
    type_check_stmt Γ (Stmt.break x) ret = ok Γ
    type_check_stmt Γ (Stmt.label x s) ret = type_check_stmt Γ s ret >>= λ _. ok Γ
    type_check_stmt Γ (Stmt.var x t e) ret =
        check_initial t e (type_check_expr Γ e) >>= λ _. ok (update Γ x t)
    type_check_stmt Γ (Stmt.if_ c t e) ret = type_check_expr Γ c >>= λ got.
        ensure JankyType.bool got >>= λ _.
        type_check_stmt Γ t ret >>= λ _. type_check_stmt Γ e ret >>= λ _. ok Γ
    type_check_stmt Γ (Stmt.block stmts) ret = type_check_stmts Γ stmts ret >>= λ _. ok Γ
    type_check_stmt Γ (Stmt.return e) ret =
        type_check_expr Γ e >>= λ got. check_return ret got >>= λ _. ok Γ

    pub type_check_stmts : Env → Stmts → Option JankyType → Checked Env
    type_check_stmts Γ Stmts.no_stmts ret = ok Γ
    type_check_stmts Γ (Stmts.stmt s ss) ret =
        type_check_stmt Γ s ret >>= λ Γ'. type_check_stmts Γ' ss ret

  -- `type_check`, from the table of global names
  unfoldable pub type_check : Env → Stmt → Checked (Unit {0})
  unfolding type_check_stmt
  type_check globals s = type_check_stmt globals s none >>= λ _. ok tt
