-- ===== src/NotWasm/Gotos/Conditions.antt =====
-- After GotoVisitor no numbered label is left, so `bounds` finds none.
use jankscripten.Prelude.{◌≡◌, refl, ap, Bool, true, false, Option, none, ℕ}
use jankscripten.Shared.Ident.{Ident}
use jankscripten.NotWasm.Syntax.{Atom, Expr, VarStmt, Label, Stmt, Stmts}
use jankscripten.NotWasm.Walk.{walk_stmt, walk_stmts}
use jankscripten.NotWasm.Gotos.{
  is_call_expr, is_call, label_if, label_exit, label_visitor, bounds_exit, bounds_visitor, bounds,
  goto_stmt, goto_visitor, skip_unless, band_, not_, in_goto, bounds_check_if, bounds_check,
  check_bounds,
}
use jankscripten.NotWasm.Gotos.Unchanged.{walk_atom-unchanged, walk_expr-unchanged}
use jankscripten.NotWasm.Gotos.Labels.{Unlabelled, AllUnlabelled}

pub data IsCall : Stmt → Type 0 where
  assign : {x : Ident} {e : Expr} → is_call_expr e ≡ true → IsCall (Stmt.assign x e)
  var : {x : VarStmt} → is_call_expr x.named ≡ true → IsCall (Stmt.var x)

-- a number labels calls only
abbrev mutual
  pub OnCalls : Stmt → Type 0
  OnCalls (Stmt.label (Label.app n) s) = IsCall s
  OnCalls (Stmt.label (Label.named x) s) = OnCalls s
  OnCalls (Stmt.if_ a s t) = OnCalls s × OnCalls t
  OnCalls (Stmt.loop s) = OnCalls s
  OnCalls (Stmt.block ss) = AllOnCalls ss
  OnCalls _ = Unit {0}

  pub AllOnCalls : Stmts → Type 0
  AllOnCalls Stmts.nil = Unit {0}
  AllOnCalls (Stmts.cons s ss) = OnCalls s × AllOnCalls ss

mutual
  unfolding walk_stmt bounds_exit

  walk_stmt-bounds :
      (s : Stmt) (b : Option (ℕ × ℕ)) → Unlabelled s → (walk_stmt bounds_visitor b s).1 ≡ b
  walk_stmt-bounds (Stmt.assign x e) b u = ap (λ p. p.1) (walk_expr-unchanged bounds_exit b e)
  walk_stmt-bounds (Stmt.var x) b u = ap (λ p. p.1) (walk_expr-unchanged bounds_exit b x.named)
  walk_stmt-bounds (Stmt.label (Label.named x) s) b u = walk_stmt-bounds s b u
  walk_stmt-bounds (Stmt.label (Label.app n) s) b u = absurd u
  walk_stmt-bounds (Stmt.loop s) b u = walk_stmt-bounds s b u
  walk_stmt-bounds (Stmt.block ss) b u = walk_stmts-bounds ss b u
  walk_stmt-bounds (Stmt.if_ a s t) b (u, v) =
      rw (walk_atom-unchanged bounds_exit b a, walk_stmt-bounds s b u) (walk_stmt-bounds t b v)
  walk_stmt-bounds (Stmt.expression e) b u = ap (λ p. p.1) (walk_expr-unchanged bounds_exit b e)
  walk_stmt-bounds (Stmt.store x e) b u = ap (λ p. p.1) (walk_expr-unchanged bounds_exit b e)
  walk_stmt-bounds (Stmt.return a) b u = ap (λ p. p.1) (walk_atom-unchanged bounds_exit b a)
  walk_stmt-bounds Stmt.empty b u = refl
  walk_stmt-bounds (Stmt.break l) b u = refl
  walk_stmt-bounds (Stmt.goto l) b u = refl
  walk_stmt-bounds Stmt.trap b u = refl

  walk_stmts-bounds :
      (ss : Stmts) (b : Option (ℕ × ℕ)) → AllUnlabelled ss → (walk_stmts bounds_visitor b ss).1 ≡ b
  walk_stmts-bounds Stmts.nil b u = refl
  walk_stmts-bounds (Stmts.cons s ss) b (u, v) =
      rw (walk_stmt-bounds s b u) (walk_stmts-bounds ss b v)

pub bounds-none : (s : Stmt) → Unlabelled s → bounds s ≡ none
unfolding bounds
bounds-none s u = walk_stmt-bounds s none u

skip_unless-Unlabelled : (b : Bool) (s : Stmt) → Unlabelled s → Unlabelled (skip_unless b s)
skip_unless-Unlabelled true s u = u
skip_unless-Unlabelled false s u = (tt, u)

abbrev on_goto : Unit {0} → Stmt → Stmt × Unit {0}
on_goto u s = (goto_stmt s, u)

-- GotoVisitor replaces a labelled call.
labelled_call-Unlabelled :
    (n : ℕ) (s : Stmt)
    → IsCall s
    → Unlabelled (walk_stmt goto_visitor tt (Stmt.label (Label.app n) s)).0
unfolding walk_stmt goto_stmt is_call
labelled_call-Unlabelled n _ (IsCall.assign {x} {e} h) =
    rw (walk_expr-unchanged on_goto tt e, h, h) ((tt, (tt, tt)), tt)
labelled_call-Unlabelled n _ (IsCall.var {x} h) =
    rw (walk_expr-unchanged on_goto tt x.named, h, h) ((tt, (tt, tt)), tt)

mutual
  unfolding walk_stmt goto_stmt is_call

  goto-Unlabelled : (s : Stmt) → OnCalls s → Unlabelled (walk_stmt goto_visitor tt s).0
  goto-Unlabelled (Stmt.assign x e) h =
      rw (walk_expr-unchanged on_goto tt e)
        (skip_unless-Unlabelled (is_call_expr e) (Stmt.assign x e) tt)
  goto-Unlabelled (Stmt.var x) h =
      rw (walk_expr-unchanged on_goto tt x.named)
        (skip_unless-Unlabelled (is_call_expr x.named) (Stmt.var x) tt)
  goto-Unlabelled (Stmt.label (Label.named x) s) h = goto-Unlabelled s h
  goto-Unlabelled (Stmt.label (Label.app n) s) h = labelled_call-Unlabelled n s h
  goto-Unlabelled (Stmt.loop s) h = (goto-Unlabelled s h, tt)
  goto-Unlabelled (Stmt.block ss) h = gotos-Unlabelled ss h
  goto-Unlabelled (Stmt.if_ a s t) (h, k) = (goto-Unlabelled s h, (goto-Unlabelled t k, tt))
  goto-Unlabelled (Stmt.expression e) h = tt
  goto-Unlabelled (Stmt.store x e) h = tt
  goto-Unlabelled (Stmt.return a) h = tt
  goto-Unlabelled Stmt.empty h = tt
  goto-Unlabelled (Stmt.break l) h = tt
  goto-Unlabelled (Stmt.goto (Label.app l)) h = (tt, (tt, (tt, tt)))
  goto-Unlabelled (Stmt.goto (Label.named l)) h = tt
  goto-Unlabelled Stmt.trap h = tt

  gotos-Unlabelled : (ss : Stmts) → AllOnCalls ss → AllUnlabelled (walk_stmts goto_visitor tt ss).0
  gotos-Unlabelled Stmts.nil h = tt
  gotos-Unlabelled (Stmts.cons s ss) (h, k) = (goto-Unlabelled s h, gotos-Unlabelled ss k)

label_if-OnCalls :
    (b : Bool) (n : ℕ) (s : Stmt) → (b ≡ true → IsCall s) → OnCalls s → OnCalls (label_if b n s).0
label_if-OnCalls true n s h k = h refl
label_if-OnCalls false n s h k = k

mutual
  unfolding walk_stmt label_exit is_call

  label-OnCalls : (s : Stmt) (n : ℕ) → Unlabelled s → OnCalls (walk_stmt label_visitor n s).0
  label-OnCalls (Stmt.assign x e) n u =
      rw (walk_expr-unchanged label_exit n e)
        (label_if-OnCalls (is_call_expr e) n (Stmt.assign x e) (λ h. IsCall.assign h) tt)
  label-OnCalls (Stmt.var x) n u =
      rw (walk_expr-unchanged label_exit n x.named)
        (label_if-OnCalls (is_call_expr x.named) n (Stmt.var x) (λ h. IsCall.var h) tt)
  label-OnCalls (Stmt.label (Label.named x) s) n u = label-OnCalls s n u
  label-OnCalls (Stmt.label (Label.app m) s) n u = absurd u
  label-OnCalls (Stmt.loop s) n u = label-OnCalls s n u
  label-OnCalls (Stmt.block ss) n u = labels-OnCalls ss n u
  label-OnCalls (Stmt.if_ a s t) n (u, v) = (label-OnCalls s _ u, label-OnCalls t _ v)
  label-OnCalls (Stmt.expression e) n u = tt
  label-OnCalls (Stmt.store x e) n u = tt
  label-OnCalls (Stmt.return a) n u = tt
  label-OnCalls Stmt.empty n u = tt
  label-OnCalls (Stmt.break l) n u = tt
  label-OnCalls (Stmt.goto l) n u = tt
  label-OnCalls Stmt.trap n u = tt

  labels-OnCalls :
      (ss : Stmts) (n : ℕ) → AllUnlabelled ss → AllOnCalls (walk_stmts label_visitor n ss).0
  labels-OnCalls Stmts.nil n u = tt
  labels-OnCalls (Stmts.cons s ss) n (u, v) = (label-OnCalls s n u, labels-OnCalls ss _ v)

-- Where LabelAppsVisitor has labelled the branches of an `if`, from any numbers on, and these had no
-- numbered labels before, GotoVisitor lets no goto enter them: the conditions are the old one and its
-- alternative, outside of a goto, with no test of the target against the labels of the branches,
-- however many calls these hold.
pub walk_stmt-if_ :
    (cond : Atom) (cons alt : Stmt) (n m : ℕ)
    → Unlabelled cons
    → Unlabelled alt
    → (walk_stmt goto_visitor tt
        (Stmt.if_ cond (walk_stmt label_visitor n cons).0 (walk_stmt label_visitor m alt).0)).0
      ≡ Stmt.if_
          (band_ cond (not_ in_goto))
          (walk_stmt goto_visitor tt (walk_stmt label_visitor n cons).0).0
          (Stmt.if_
            (not_ in_goto)
            (walk_stmt goto_visitor tt (walk_stmt label_visitor m alt).0).0
            Stmt.empty)
unfolding walk_stmt goto_stmt bounds_check_if bounds_check check_bounds
walk_stmt-if_ cond cons alt n m u v =
    rw
      (
        walk_atom-unchanged on_goto tt cond,
        bounds-none _ (goto-Unlabelled (walk_stmt label_visitor n cons).0 (label-OnCalls cons n u)),
        bounds-none _ (goto-Unlabelled (walk_stmt label_visitor m alt).0 (label-OnCalls alt m v)),
      )
      refl
