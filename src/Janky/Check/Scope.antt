-- ===== src/Janky/Check/Scope.antt =====
-- The scopes of JankyScript as its checker keeps them.
use jankscripten.Prelude.{◌≡◌, sym, ap, ◌∙◌, Option, ok, >>=-ok}
use jankscripten.Prelude.{ok-inj}
use jankscripten.Shared.Types.{JankyType}
use jankscripten.Janky.CheckCoercion.{ensure}
use jankscripten.Janky.Syntax.{Stmt, Stmts}
use jankscripten.Janky.Check.{
  Methods, Env, update, ensure_indexable, check_return, check_initial, type_check_expr,
  type_check_stmt, type_check_stmts,
}

-- the environment after a statement
abbrev pub after : Env → Stmt → Env
after Γ (Stmt.var x t e) = update Γ x t
after Γ _ = Γ

abbrev pub after_all : Env → Stmts → Env
after_all Γ Stmts.no_stmts = Γ
after_all Γ (Stmts.stmt s ss) = after_all (after Γ s) ss

module _ (methods : Methods) where
  type_check_stmt_lem :
      (Γ : Env) (s : Stmt) (ret : Option JankyType) (Γ' : Env)
      → type_check_stmt methods Γ s ret ≡ ok Γ'
      → Γ' ≡ after Γ s
  unfolding type_check_stmt
  type_check_stmt_lem Γ Stmt.empty ret Γ' h = sym (ok-inj h)
  type_check_stmt_lem Γ (Stmt.expr e) ret Γ' h =
      let (t, e1, h) = >>=-ok (type_check_expr methods Γ e) _ h in sym (ok-inj h)
  type_check_stmt_lem Γ (Stmt.finally s1 s2) ret Γ' h =
      let (r1, e1, h) = >>=-ok (type_check_stmt methods Γ s1 ret) _ h in
      let (r2, e2, h) = >>=-ok (type_check_stmt methods Γ s2 ret) _ h in sym (ok-inj h)
  type_check_stmt_lem Γ (Stmt.catch s1 x s2) ret Γ' h =
      let (r1, e1, h) = >>=-ok (type_check_stmt methods Γ s1 ret) _ h in
      let (r2, e2, h) = >>=-ok (type_check_stmt methods (update Γ x JankyType.any) s2 ret) _ h in
      sym (ok-inj h)
  type_check_stmt_lem Γ (Stmt.loop s) ret Γ' h =
      let (r, e1, h) = >>=-ok (type_check_stmt methods Γ s ret) _ h in sym (ok-inj h)
  type_check_stmt_lem Γ (Stmt.for_in x e s) ret Γ' h =
      let (t, e1, h) = >>=-ok (type_check_expr methods Γ e) _ h in
      let (u, e2, h) = >>=-ok (ensure_indexable t) _ h in
      let (r, e3, h) = >>=-ok (type_check_stmt methods (update Γ x JankyType.any) s ret) _ h in
      sym (ok-inj h)
  type_check_stmt_lem Γ (Stmt.throw e) ret Γ' h =
      let (t, e1, h) = >>=-ok (type_check_expr methods Γ e) _ h in sym (ok-inj h)
  type_check_stmt_lem Γ (Stmt.break x) ret Γ' h = sym (ok-inj h)
  type_check_stmt_lem Γ (Stmt.label x s) ret Γ' h =
      let (r, e1, h) = >>=-ok (type_check_stmt methods Γ s ret) _ h in sym (ok-inj h)
  type_check_stmt_lem Γ (Stmt.var x t e) ret Γ' h =
      let (r, e1, h) = >>=-ok (check_initial t e (type_check_expr methods Γ e)) _ h in
      sym (ok-inj h)
  type_check_stmt_lem Γ (Stmt.if_ c s1 s2) ret Γ' h =
      let (t, e1, h) = >>=-ok (type_check_expr methods Γ c) _ h in
      let (u, e2, h) = >>=-ok (ensure JankyType.bool t) _ h in
      let (r1, e3, h) = >>=-ok (type_check_stmt methods Γ s1 ret) _ h in
      let (r2, e4, h) = >>=-ok (type_check_stmt methods Γ s2 ret) _ h in sym (ok-inj h)
  type_check_stmt_lem Γ (Stmt.block ss) ret Γ' h =
      let (r, e1, h) = >>=-ok (type_check_stmts methods Γ ss ret) _ h in sym (ok-inj h)
  type_check_stmt_lem Γ (Stmt.return e) ret Γ' h =
      let (t, e1, h) = >>=-ok (type_check_expr methods Γ e) _ h in
      let (u, e2, h) = >>=-ok (check_return ret t) _ h in sym (ok-inj h)

  -- The check of the statements of a block, when it succeeds, ends in the environment of its start with the
  -- block's own variables bound in order at their declared types; nothing that is bound inside a statement
  -- is left.
  pub type_check_stmts-after :
      (Γ : Env) (ss : Stmts) (ret : Option JankyType) (Γ' : Env)
      → type_check_stmts methods Γ ss ret ≡ ok Γ'
      → Γ' ≡ after_all Γ ss
  unfolding type_check_stmts
  type_check_stmts-after Γ Stmts.no_stmts ret Γ' h = sym (ok-inj h)
  type_check_stmts-after Γ (Stmts.stmt s ss) ret Γ' h =
      let (Γ1, e1, h) = >>=-ok (type_check_stmt methods Γ s ret) _ h in
      type_check_stmts-after Γ1 ss ret Γ' h
      ∙ ap (λ Γ. after_all Γ ss) (type_check_stmt_lem Γ s ret Γ1 e1)
