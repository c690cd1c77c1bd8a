-- ===== src/NotWasm/Check/Examples.antt =====
-- The theorems on the type checker at concrete inputs.
use jankscripten.Prelude.{◌≡◌, refl, ◌↔◌, true, Option, none, some, [], ◌∷◌, ◌++◌, ok}
use jankscripten.Shared.Ident.Freshness.{Distinct}
use jankscripten.NotWasm.Types.{NotWasmType-discrete}
use jankscripten.Shared.Ident.{Ident-discrete}
use jankscripten.NotWasm.Types.{FnType, OptType}
use jankscripten.NotWasm.Types.{NotWasmTypes}
use jankscripten.NotWasm.Syntax.{Function, Global, Program}
use jankscripten.NotWasm.Check.{lookup, insert, update, insert_in, ensure}
use jankscripten.NotWasm.Check.Stmts.{check_return}
use jankscripten.NotWasm.Check.Programs.{
  type_check, bind_imports, bind_functions, bind_globals, bind_new, if_new, check_initial,
  type_check_functions, type_check_function, bind_params,
}
use jankscripten.NotWasm.Check.Names.{names, functions_of, globals_of, type_check-Distinct}
use jankscripten.Shared.Ident.{named}
use jankscripten.NotWasm.Types.{NotWasmType}
use jankscripten.NotWasm.Operators.{Lit, lit_typ}
use jankscripten.NotWasm.Syntax.{Atom, Expr, Stmt, Stmts}
use jankscripten.NotWasm.Check.{Env, assert_variant_of_any}
use jankscripten.NotWasm.Check.Atoms.{type_check_atom, set_ty}
use jankscripten.NotWasm.Check.Exprs.{type_check_expr}
use jankscripten.NotWasm.Check.Stmts.{
  type_check_stmt, type_check_stmts, type_check_var, declared_type, bind_var,
}
use jankscripten.NotWasm.Check.Typing.{AtomHas}
use jankscripten.NotWasm.Check.AtomComplete.{type_check_atom-AtomHas}
use jankscripten.NotWasm.Check.ArraySet.{HasSomeType, type_check_expr-array_set}
use jankscripten.NotWasm.Check.Declared.{last_declared, type_check_stmts-last_declared}
use jankscripten.NotWasm.Check.Annotated.{Annotates, type_check_atom-Annotates}

abbrev no_names : Env
no_names = record { env = λ x. none; imports = λ x. none }

abbrev seven : Atom
seven = Atom.lit (Lit.i32 7)

type_check_atom-AtomHas_example :
    ((a' : Atom) × (type_check_atom no_names (Atom.to_any seven none) ≡ ok (NotWasmType.any, a')))
    ↔ AtomHas no_names (Atom.to_any seven none) NotWasmType.any
type_check_atom-AtomHas_example =
    type_check_atom-AtomHas no_names (Atom.to_any seven none) NotWasmType.any

seven-to_any :
    type_check_atom no_names (Atom.to_any seven none)
    ≡ ok (NotWasmType.any, Atom.to_any seven (some NotWasmType.i32))
unfolding type_check_atom set_ty assert_variant_of_any lit_typ
seven-to_any = refl

type_check_atom-Annotates_example :
    Annotates no_names (Atom.to_any seven none) (Atom.to_any seven (some NotWasmType.i32))
type_check_atom-Annotates_example =
    type_check_atom-Annotates no_names (Atom.to_any seven none) NotWasmType.any
      (Atom.to_any seven (some NotWasmType.i32)) seven-to_any

type_check_expr-array_set_example :
    ((e' : Expr) × (type_check_expr no_names (Expr.array_set seven seven seven)
        ≡ ok (NotWasmType.any, e')))
    ↔ (HasSomeType no_names seven
        × AtomHas no_names seven NotWasmType.i32
        × HasSomeType no_names seven)
type_check_expr-array_set_example = type_check_expr-array_set no_names seven seven seven

abbrev var_x : Option NotWasmType → Stmt
var_x t = Stmt.var (record { id = named "x"; named = Expr.atom seven; ty = t })

abbrev with_x : Env
with_x = bind_var no_names (named "x") NotWasmType.i32

abbrev body : Option NotWasmType → Stmts
body t = Stmts.cons (var_x t) (Stmts.cons Stmt.trap Stmts.nil)

body-checked : type_check_stmts no_names (body none) none ≡ ok (with_x, body (some NotWasmType.i32))
unfolding type_check_stmts type_check_stmt type_check_var type_check_expr type_check_atom lit_typ
    declared_type
body-checked = refl

type_check_stmts-last_declared_example :
    (with_x.env (named "x") ≡ last_declared (named "x") (body (some NotWasmType.i32)) none)
    × (with_x.imports ≡ no_names.imports)
type_check_stmts-last_declared_example =
    type_check_stmts-last_declared no_names (body none) none with_x (body (some NotWasmType.i32))
      (named "x") body-checked

abbrev a_global : Global
a_global = record { is_mut = true; ty = NotWasmType.i32; atom = some seven }

abbrev a_function : Function
a_function = record {
  body = Stmt.return (Atom.id (named "g"));
  fn_type = FnType.fn_type NotWasmTypes.nil (OptType.some_type NotWasmType.i32);
  params = [];
}

abbrev a_program : Program
a_program = record {
  rts_fn_imports = [];
  segment = [];
  functions = (named "f", a_function) ∷ [];
  globals = (named "g", a_global) ∷ [];
}

a_program-checked : type_check (λ x. none) a_program ≡ ok a_program
unfolding type_check bind_imports bind_functions bind_globals bind_new if_new insert update
    insert_in check_initial type_check_functions type_check_function bind_params type_check_stmt
    type_check_atom lit_typ lookup check_return ensure NotWasmType-discrete Ident-discrete
a_program-checked = refl

type_check-Distinct_example :
    Distinct (names (functions_of a_program.functions ++ globals_of a_program.globals))
type_check-Distinct_example = type_check-Distinct (λ x. none) a_program a_program a_program-checked
