-- ===== src/NotWasm/Gotos.antt =====
-- The two passes that resume a function in its middle (libjankscripten/src/notwasm/label_apps.rs, elim_gotos.rs and the
-- operators of constructors.rs): calls are labelled with numbers, and a goto to such a label becomes a flag that the
-- other statements test. A label is an i32 of the source; here it is not
-- negative, and the counter of labels does not wrap.
pub mod Unchanged
pub mod Labels
pub mod Conditions
pub mod Examples
use jankscripten.Prelude.{
  ℕ, ◌+◌, Bool, true, false, ltb, if◌then◌else◌, Option, none, some, List, [], ◌∷◌,
}
use jankscripten.Shared.Ident.{Ident}
use jankscripten.NotWasm.Operators.{Lit, BinaryOp}
use jankscripten.NotWasm.Syntax.{Atom, Expr, Label, Stmt, Stmts, Function, Program}
use jankscripten.NotWasm.Walk.{Visitor, walk_stmt, walk}

-- A visitor that has `exit_stmt` only; the other methods do nothing.
abbrev pub stmt_visitor : {S : Type 0} → (S → Stmt → Stmt × S) → Visitor S
stmt_visitor f = record { exit_stmt = f; exit_expr = λ s e. (e, s); exit_atom = λ s a. (a, s) }

abbrev pub is_call_expr : Expr → Bool
is_call_expr (Expr.call f xs) = true
is_call_expr _ = false

unfoldable pub is_call : Stmt → Bool
is_call (Stmt.assign x e) = is_call_expr e
is_call (Stmt.var x) = is_call_expr x.named
is_call _ = false

-- `exit_stmt` of LabelAppsVisitor, whose state is the next label
abbrev pub label_if : Bool → ℕ → Stmt → Stmt × ℕ
label_if true n s = (Stmt.label (Label.app n) s, n + 1)
label_if false n s = (s, n)

unfoldable pub label_exit : ℕ → Stmt → Stmt × ℕ
unfolding is_call
label_exit n s = label_if (is_call s) n s

abbrev pub label_visitor : Visitor ℕ
label_visitor = stmt_visitor label_exit

unfoldable pub label_apps : Program → Program
unfolding walk label_exit
label_apps p = (walk label_visitor 0 p).0

-- `exit_stmt` of LabelBoundsVisitor
unfoldable pub widen : Option (ℕ × ℕ) → ℕ → Option (ℕ × ℕ)
unfolding ltb
widen none n = some (n, n)
widen (some (lo, hi)) n = some (if ltb n lo then n else lo, if ltb hi n then n else hi)

unfoldable pub bounds_exit : Option (ℕ × ℕ) → Stmt → Stmt × Option (ℕ × ℕ)
unfolding widen
bounds_exit b (Stmt.label (Label.app n) s) = (Stmt.label (Label.app n) s, widen b n)
bounds_exit b s = (s, b)

abbrev pub bounds_visitor : Visitor (Option (ℕ × ℕ))
bounds_visitor = stmt_visitor bounds_exit

-- The visitor replaces no statement, so only its state is kept.
unfoldable pub bounds : Stmt → Option (ℕ × ℕ)
unfolding walk_stmt bounds_exit
bounds s = (walk_stmt bounds_visitor none s).1

abbrev pub number : ℕ → Atom
number n = Atom.lit (Lit.i32 n)

abbrev pub not_ : Atom → Atom
not_ a = Atom.binary BinaryOp.i32_sub (number 1) a

abbrev pub band_ : Atom → Atom → Atom
band_ a b = Atom.binary BinaryOp.i32_and a b

abbrev pub bor_ : Atom → Atom → Atom
bor_ a b = Atom.binary BinaryOp.i32_or a b

abbrev pub in_goto : Atom
in_goto = Atom.id (Ident.named "inGoto")

abbrev pub goto_target : Atom
goto_target = Atom.id (Ident.named "gotoTarget")

abbrev pub set_in_goto : Bool → Stmt
set_in_goto b = Stmt.assign (Ident.named "inGoto") (Expr.atom (Atom.lit (Lit.bool b)))

-- `bounds_check_maybe_if`, with the bounds of the body
unfoldable pub check_bounds : Option (ℕ × ℕ) → Atom → Atom
check_bounds none alt_check = alt_check
check_bounds (some (lo, hi)) alt_check = bor_ alt_check (
    band_ in_goto (
      band_ (Atom.binary BinaryOp.i32_ge goto_target (number lo))
        (Atom.binary BinaryOp.i32_le goto_target (number hi))))

unfoldable pub bounds_check_if : Stmt → Atom → Atom
unfolding check_bounds bounds
bounds_check_if body not_goto_check =
    check_bounds (bounds body) (band_ not_goto_check (not_ in_goto))

unfoldable pub bounds_check : Stmt → Atom
unfolding check_bounds bounds
bounds_check body = check_bounds (bounds body) (not_ in_goto)

abbrev pub pair : Stmt → Stmt → Stmt
pair s t = Stmt.block (Stmts.cons s (Stmts.cons t Stmts.nil))

-- a labelled call: not skipped when it is the target
abbrev pub resume_if : Bool → ℕ → Stmt → Stmt
resume_if true n call =
    Stmt.if_ (bor_ (not_ in_goto) (Atom.binary BinaryOp.i32_eq goto_target (number n)))
      (pair (set_in_goto false) call) Stmt.empty
resume_if false n s = Stmt.label (Label.app n) s

-- a declaration or an assignment: skipped in a goto, unless it is a call
abbrev pub skip_unless : Bool → Stmt → Stmt
skip_unless true s = s
skip_unless false s = Stmt.if_ in_goto Stmt.empty s

-- `exit_stmt` of GotoVisitor
unfoldable pub goto_stmt : Stmt → Stmt
unfolding is_call bounds_check_if bounds_check
goto_stmt (Stmt.goto (Label.app l)) =
    Stmt.if_ in_goto Stmt.empty
      (pair (set_in_goto true) (Stmt.assign (Ident.named "gotoTarget") (Expr.atom (number l))))
goto_stmt (Stmt.label (Label.app n) s) = resume_if (is_call s) n s
goto_stmt (Stmt.var x) = skip_unless (is_call (Stmt.var x)) (Stmt.var x)
goto_stmt (Stmt.assign x e) = skip_unless (is_call (Stmt.assign x e)) (Stmt.assign x e)
goto_stmt (Stmt.if_ cond cons alt) =
    Stmt.if_ (bounds_check_if cons cond) cons (Stmt.if_ (bounds_check alt) alt Stmt.empty)
goto_stmt (Stmt.loop body) = Stmt.if_ (bounds_check body) (Stmt.loop body) Stmt.empty
goto_stmt s = s

abbrev pub goto_visitor : Visitor (Unit {0})
goto_visitor = stmt_visitor (λ u s. (goto_stmt s, u))

-- the walk of one function's body, and what is put around it
unfoldable pub elim_body : Stmt → Stmt
unfolding walk_stmt goto_stmt
elim_body body = Stmt.block (
    Stmts.cons
      (Stmt.var (record {
        id = Ident.named "inGoto";
        named = Expr.atom (Atom.lit (Lit.bool false));
        ty = none;
      }))
      (Stmts.cons
        (Stmt.var
          (record { id = Ident.named "gotoTarget"; named = Expr.atom (number 0); ty = none }))
        (Stmts.cons (walk_stmt goto_visitor tt body).0
          (Stmts.cons (Stmt.if_ in_goto Stmt.trap Stmt.empty) Stmts.nil))))

unfoldable pub elim_functions : List (Ident × Function) → List (Ident × Function)
unfolding elim_body
elim_functions [] = []
elim_functions ((name, f) ∷ rest) =
    (name, record f { body = elim_body f.body }) ∷ elim_functions rest

unfoldable pub elim_gotos : Program → Program
unfolding elim_functions
elim_gotos p = record p { functions = elim_functions p.functions }
