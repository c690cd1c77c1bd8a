-- ===== src/Janky/Check/Examples.antt =====
-- The theorems on the checker of JankyScript at concrete inputs.
use jankscripten.Prelude.{◌≡◌, refl, none, [], ◌∷◌, ℕ_discrete, ok, err}
use jankscripten.Shared.Ident.{named}
use jankscripten.Shared.Types.{JankyType, JankyTypes, JankyType-discrete, is_ground}
use jankscripten.Shared.Coercions.{Coercion, new, smart_seq}
use jankscripten.Janky.CheckCoercion.{no_such_variable}
use jankscripten.Janky.Syntax.{Num, Lit, Expr, Exprs, Stmt, Stmts}
use jankscripten.Janky.Check.{
  Methods, Env, lookup, keep, update, check_initial, type_check_lit, type_check_expr,
  type_check_each, type_check_fun_call, type_check_stmt, type_check_stmts,
}
use jankscripten.Janky.Check.Scope.{after_all, type_check_stmts-after}
use jankscripten.Janky.Check.Inserted.{type_check_expr-new}
use jankscripten.Janky.Check.Calls.{followed_by, type_check_fun_call-extra}

abbrev no_methods : Methods
no_methods = λ m n. none

abbrev no_names : Env
no_names = λ x. none

abbrev seven : Expr
seven = Expr.lit (Lit.num (Num.int 7))

seven-int : type_check_expr no_methods no_names seven ≡ ok JankyType.int
unfolding type_check_expr type_check_lit
seven-int = refl

int_string :
    new 2 JankyType.int JankyType.string
    ≡ ok (Coercion.seq (Coercion.tag JankyType.int) (Coercion.untag JankyType.string))
unfolding new JankyType-discrete ℕ_discrete is_ground smart_seq
int_string = refl

type_check_expr-new_example :
    type_check_expr no_methods no_names (
      Expr.coercion
        (Coercion.seq (Coercion.tag JankyType.int) (Coercion.untag JankyType.string))
        seven)
    ≡ ok JankyType.string
type_check_expr-new_example =
    type_check_expr-new no_methods no_names seven JankyType.int JankyType.string 2
      (Coercion.seq (Coercion.tag JankyType.int) (Coercion.untag JankyType.string)) refl refl
      int_string seven-int

abbrev unknown : Exprs
unknown = Exprs.cons (Expr.id (named "x") JankyType.int) Exprs.nil

abbrev just_seven : Exprs
just_seven = Exprs.cons seven Exprs.nil

unknown-each :
    type_check_each no_methods no_names unknown ≡ ok (err (no_such_variable (named "x")) ∷ [])
unfolding type_check_each type_check_expr lookup keep
unknown-each = refl

seven-each : type_check_each no_methods no_names just_seven ≡ ok (ok JankyType.int ∷ [])
unfolding type_check_each type_check_expr type_check_lit keep
seven-each = refl

abbrev of_int : JankyTypes
of_int = JankyTypes.cons JankyType.int JankyTypes.nil

type_check_fun_call-extra_example :
    type_check_fun_call
      (JankyType.function of_int JankyType.bool)
      (type_check_each no_methods no_names (followed_by just_seven unknown))
    ≡ type_check_fun_call
        (JankyType.function of_int JankyType.bool)
        (type_check_each no_methods no_names just_seven)
type_check_fun_call-extra_example =
    type_check_fun_call-extra no_methods no_names of_int JankyType.bool just_seven unknown
      (ok JankyType.int ∷ []) (err (no_such_variable (named "x")) ∷ []) seven-each unknown-each refl

abbrev body : Stmts
body =
    Stmts.stmt (Stmt.var (named "x") JankyType.any (Expr.lit Lit.undefined))
      (Stmts.stmt (Stmt.expr seven) Stmts.no_stmts)

body-checked :
    type_check_stmts no_methods no_names body none ≡ ok (update no_names (named "x") JankyType.any)
unfolding type_check_stmts type_check_stmt type_check_expr type_check_lit check_initial
body-checked = refl

type_check_stmts-after_example : update no_names (named "x") JankyType.any ≡ after_all no_names body
type_check_stmts-after_example =
    type_check_stmts-after no_methods no_names body none (update no_names (named "x") JankyType.any)
      body-checked
