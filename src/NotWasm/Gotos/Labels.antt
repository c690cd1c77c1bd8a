-- ===== src/NotWasm/Gotos/Labels.antt =====
-- The labels of calls are consecutive, and `bounds` finds the first and the last.
use jankscripten.Prelude.{
  ℕ, zero, suc, ◌+◌, ◌≡◌, ap, subst, ◌∙◌, Bool, true, false, Option, none, some, arith,
}
use jankscripten.NotWasm.Syntax.{Label, Stmt, Stmts}
use jankscripten.NotWasm.Walk.{walk_stmt, walk_stmts}
use jankscripten.NotWasm.Gotos.{
  is_call_expr, is_call, label_if, label_exit, label_visitor, widen, bounds_exit, bounds_visitor,
  bounds,
}
use jankscripten.NotWasm.Gotos.Unchanged.{walk_atom-unchanged, walk_expr-unchanged}

abbrev mutual
  -- no call is labelled with a number yet
  pub Unlabelled : Stmt → Type 0
  Unlabelled (Stmt.label (Label.app n) s) = ⊥
  Unlabelled (Stmt.label (Label.named x) s) = Unlabelled s
  Unlabelled (Stmt.if_ a s t) = Unlabelled s × Unlabelled t
  Unlabelled (Stmt.loop s) = Unlabelled s
  Unlabelled (Stmt.block ss) = AllUnlabelled ss
  Unlabelled _ = Unit {0}

  pub AllUnlabelled : Stmts → Type 0
  AllUnlabelled Stmts.nil = Unit {0}
  AllUnlabelled (Stmts.cons s ss) = Unlabelled s × AllUnlabelled ss

abbrev pub one_if : Bool → ℕ
one_if true = 1
one_if false = 0

abbrev mutual
  -- the assignments and declarations of a call
  pub calls : Stmt → ℕ
  calls (Stmt.assign x e) = one_if (is_call_expr e)
  calls (Stmt.var x) = one_if (is_call_expr x.named)
  calls (Stmt.label l s) = calls s
  calls (Stmt.if_ a s t) = calls s + calls t
  calls (Stmt.loop s) = calls s
  calls (Stmt.block ss) = all_calls ss
  calls _ = 0

  pub all_calls : Stmts → ℕ
  all_calls Stmts.nil = 0
  all_calls (Stmts.cons s ss) = calls s + all_calls ss

-- the first and the last of the `k` numbers from `lo` on
unfoldable pub range : ℕ → ℕ → Option (ℕ × ℕ)
range lo zero = none
range lo (suc k) = some (lo, lo + k)

range-suc : (lo k : ℕ) → widen (range lo k) (lo + k) ≡ range lo (k + 1)
unfolding range widen
range-suc lo zero = ground arith
range-suc lo (suc k) = ground arith

-- A labelled statement and the next label: from `k` labels in use to `k'`.
abbrev pub Labelled : ℕ → ℕ → ℕ → Stmt × ℕ → Type 0
Labelled lo k k' (s, n) =
    (n ≡ lo + k') × ((walk_stmt bounds_visitor (range lo k) s).1 ≡ range lo k')

abbrev pub AllLabelled : ℕ → ℕ → ℕ → Stmts × ℕ → Type 0
AllLabelled lo k k' (ss, n) =
    (n ≡ lo + k') × ((walk_stmts bounds_visitor (range lo k) ss).1 ≡ range lo k')

-- `exit_stmt` at a call or another statement whose bounds are not touched
exit-Labelled :
    (s : Stmt) (lo k : ℕ)
    → ((walk_stmt bounds_visitor (range lo k) s).1 ≡ range lo k)
    → (b : Bool) → Labelled lo k (k + one_if b) (label_if b (lo + k) s)
unfolding walk_stmt bounds_exit
exit-Labelled s lo k e true = (omega arith, ap (λ b. widen b (lo + k)) e ∙ range-suc lo k)
exit-Labelled s lo k e false = (omega arith, e ∙ ap (range lo) (omega arith))

mutual
  unfolding walk_stmt bounds_exit label_exit is_call

  walk_stmt-Labelled :
      (s : Stmt) (lo k : ℕ)
      → Unlabelled s
      → Labelled lo k (k + calls s) (walk_stmt label_visitor (lo + k) s)
  walk_stmt-Labelled (Stmt.assign x e) lo k u = rw (walk_expr-unchanged label_exit (lo + k) e) (
      exit-Labelled (Stmt.assign x e) lo k
        (ap (λ p. p.1) (walk_expr-unchanged bounds_exit (range lo k) e)) (is_call_expr e))
  walk_stmt-Labelled (Stmt.var x) lo k u = rw (walk_expr-unchanged label_exit (lo + k) x.named) (
      exit-Labelled (Stmt.var x) lo k
        (ap (λ p. p.1) (walk_expr-unchanged bounds_exit (range lo k) x.named))
        (is_call_expr x.named))
  walk_stmt-Labelled (Stmt.label (Label.named x) s) lo k u = walk_stmt-Labelled s lo k u
  walk_stmt-Labelled (Stmt.label (Label.app n) s) lo k u = absurd u
  walk_stmt-Labelled (Stmt.loop s) lo k u = walk_stmt-Labelled s lo k u
  walk_stmt-Labelled (Stmt.block ss) lo k u = walk_stmts-Labelled ss lo k u
  walk_stmt-Labelled (Stmt.if_ a s t) lo k (u, v) =
      let (e1, w1) = walk_stmt-Labelled s lo k u in
      let (e2, w2) = walk_stmt-Labelled t lo (k + calls s) v in
      let e : k + calls s + calls t ≡ k + (calls s + calls t) = omega arith in
      (
        rw (walk_atom-unchanged label_exit (lo + k) a, e1) (e2 ∙ ap (λ i. lo + i) e),
        rw
            (
              walk_atom-unchanged label_exit (lo + k) a,
              walk_atom-unchanged bounds_exit (range lo k) a,
              e1,
              w1,
            )
            (w2 ∙ ap (range lo) e),
      )
  walk_stmt-Labelled (Stmt.expression x) lo k u =
      rw (walk_expr-unchanged label_exit (lo + k) x, walk_expr-unchanged bounds_exit (range lo k) x)
        (omega arith, ap (range lo) (omega arith))
  walk_stmt-Labelled (Stmt.store x e) lo k u =
      rw (walk_expr-unchanged label_exit (lo + k) e, walk_expr-unchanged bounds_exit (range lo k) e)
        (omega arith, ap (range lo) (omega arith))
  walk_stmt-Labelled (Stmt.return a) lo k u =
      rw (walk_atom-unchanged label_exit (lo + k) a, walk_atom-unchanged bounds_exit (range lo k) a)
        (omega arith, ap (range lo) (omega arith))
  walk_stmt-Labelled Stmt.empty lo k u = (omega arith, ap (range lo) (omega arith))
  walk_stmt-Labelled (Stmt.break l) lo k u = (omega arith, ap (range lo) (omega arith))
  walk_stmt-Labelled (Stmt.goto l) lo k u = (omega arith, ap (range lo) (omega arith))
  walk_stmt-Labelled Stmt.trap lo k u = (omega arith, ap (range lo) (omega arith))

  walk_stmts-Labelled :
      (ss : Stmts) (lo k : ℕ)
      → AllUnlabelled ss
      → AllLabelled lo k (k + all_calls ss) (walk_stmts label_visitor (lo + k) ss)
  walk_stmts-Labelled Stmts.nil lo k u = (omega arith, ap (range lo) (omega arith))
  walk_stmts-Labelled (Stmts.cons s ss) lo k (u, v) =
      let (e1, w1) = walk_stmt-Labelled s lo k u in
      let (e2, w2) = walk_stmts-Labelled ss lo (k + calls s) v in
      let e : k + calls s + all_calls ss ≡ k + (calls s + all_calls ss) = omega arith in
      (rw e1 (e2 ∙ ap (λ i. lo + i) e), rw (e1, w1) (w2 ∙ ap (range lo) e))

-- When LabelAppsVisitor walks, from the number `n` on, a statement without numbered labels in which a
-- call is assigned or declared `k` times, it ends at the number `n + k`, and `bounds` of what it leaves
-- is the pair of `n` and `n + k - 1`, or nothing where `k` is 0.
pub bounds-walk_stmt :
    (s : Stmt) (n : ℕ)
    → Unlabelled s
    → (bounds (walk_stmt label_visitor n s).0 ≡ range n (calls s))
      × ((walk_stmt label_visitor n s).1 ≡ n + calls s)
unfolding bounds range
bounds-walk_stmt s n u =
    let from_zero : Labelled n 0 (calls s) (walk_stmt label_visitor n s) =
      subst (λ i. Labelled n 0 (calls s) (walk_stmt label_visitor i s)) (omega arith)
        (subst (λ k. Labelled n 0 k (walk_stmt label_visitor (n + 0) s)) (omega arith)
          (walk_stmt-Labelled s n 0 u)) in
    (from_zero.1, from_zero.0)
