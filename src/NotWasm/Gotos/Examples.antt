-- ===== src/NotWasm/Gotos/Examples.antt =====
-- A conditional with a call in each branch.
use jankscripten.Prelude.{◌≡◌, refl, true, some, []}
use jankscripten.Shared.Ident.{Ident}
use jankscripten.NotWasm.Operators.{Lit}
use jankscripten.NotWasm.Syntax.{Atom, Expr, Stmt, Stmts}
use jankscripten.NotWasm.Walk.{walk_stmt}
use jankscripten.NotWasm.Gotos.{
  label_visitor, goto_visitor, bounds, band_, not_, in_goto, widen, label_exit, is_call,
  bounds_exit,
}
use jankscripten.NotWasm.Gotos.Labels.{range, bounds-walk_stmt}
use jankscripten.NotWasm.Gotos.Conditions.{walk_stmt-if_}

abbrev call_f : Stmt
call_f = Stmt.assign (Ident.named "x") (Expr.call (Ident.named "f") [])

abbrev yes_literal : Atom
yes_literal = Atom.lit (Lit.bool true)

-- f is called twice, the second time under a condition
abbrev two_calls : Stmt
two_calls =
    Stmt.block (Stmts.cons call_f (Stmts.cons (Stmt.if_ yes_literal call_f Stmt.empty) Stmts.nil))

bounds-walk_stmt_example :
    (bounds (walk_stmt label_visitor 3 two_calls).0 ≡ range 3 2)
    × ((walk_stmt label_visitor 3 two_calls).1 ≡ 5)
bounds-walk_stmt_example = bounds-walk_stmt two_calls 3 (tt, ((tt, tt), tt))

two_calls-bounds : bounds (walk_stmt label_visitor 3 two_calls).0 ≡ some (3, 4)
unfolding bounds walk_stmt label_exit is_call bounds_exit widen
two_calls-bounds = refl

walk_stmt-if_example :
    (walk_stmt goto_visitor tt (
      Stmt.if_ yes_literal
        (walk_stmt label_visitor 0 two_calls).0
        (walk_stmt label_visitor 2 call_f).0)).0
    ≡ Stmt.if_
        (band_ yes_literal (not_ in_goto))
        (walk_stmt goto_visitor tt (walk_stmt label_visitor 0 two_calls).0).0
        (Stmt.if_
          (not_ in_goto)
          (walk_stmt goto_visitor tt (walk_stmt label_visitor 2 call_f).0).0
          Stmt.empty)
walk_stmt-if_example = walk_stmt-if_ yes_literal two_calls call_f 0 2 (tt, ((tt, tt), tt)) tt
