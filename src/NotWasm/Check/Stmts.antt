-- ===== src/NotWasm/Check/Stmts.antt =====
-- `type_check_stmt`: the environment after a statement, with the statement as the checker leaves it.
use jankscripten.Prelude.{ite, Option, none, some, ok, err, panic, ◌>>=◌}
use jankscripten.Shared.Ident.{Ident, Ident-discrete, named}
use jankscripten.NotWasm.Types.{NotWasmType, NotWasmType-discrete}
use jankscripten.NotWasm.Operators.{Lit}
use jankscripten.NotWasm.Syntax.{Atom, Expr, VarStmt, Stmt, Stmts}
use jankscripten.NotWasm.Check.{Env, update, Checked, unexpected_return, lookup, ensure, ensure_ref}
use jankscripten.NotWasm.Check.Atoms.{type_check_atom}
use jankscripten.NotWasm.Check.Exprs.{type_check_expr}

-- The type that the variable ends up with: `assert!(ty is none or equal)` and `set_ty`.
unfoldable pub declared_type : Expr → Option NotWasmType → NotWasmType → Checked NotWasmType
declared_type (Expr.atom (Atom.lit Lit.undefined)) (some declared) ty = ok declared
declared_type e none ty = ok ty
declared_type e (some declared) ty = ite (NotWasmType-discrete declared ty) (ok ty) panic

-- `_` is never bound.
unfoldable pub bind_var : Env → Ident → NotWasmType → Env
bind_var Γ x ty = ite (Ident-discrete x (named "_")) Γ (update Γ x ty)

unfoldable pub type_check_var : Env → VarStmt → Checked (Env × Stmt)
unfolding declared_type bind_var
type_check_var Γ v = type_check_expr Γ v.named >>= λ (ty, e').
    declared_type e' v.ty ty >>= λ var_ty.
    ok (bind_var Γ v.id var_ty, Stmt.var (record { id = v.id; named = e'; ty = some var_ty }))

unfoldable pub check_return : Option NotWasmType → NotWasmType → Checked NotWasmType
check_return none got = err (unexpected_return got)
check_return (some ret_ty) got = ensure ret_ty got

unfoldable mutual
  pub type_check_stmt : Env → Stmt → Option NotWasmType → Checked (Env × Stmt)
  type_check_stmt Γ Stmt.empty ret = ok (Γ, Stmt.empty)
  type_check_stmt Γ (Stmt.var v) ret = type_check_var Γ v
  type_check_stmt Γ (Stmt.expression e) ret =
      type_check_expr Γ e >>= λ (_, e'). ok (Γ, Stmt.expression e')
  type_check_stmt Γ (Stmt.store x e) ret = lookup Γ x >>= λ got_id.
      type_check_expr Γ e >>= λ (got_expr, e'). ensure_ref got_id >>= λ type_pointed_to.
      ensure type_pointed_to got_expr >>= λ _. ok (Γ, Stmt.store x e')
  type_check_stmt Γ (Stmt.assign x e) ret = lookup Γ x >>= λ got_id.
      type_check_expr Γ e >>= λ (got_expr, e').
      ensure got_id got_expr >>= λ _. ok (Γ, Stmt.assign x e')
  type_check_stmt Γ (Stmt.if_ a_cond s_then s_else) ret =
      type_check_atom Γ a_cond >>= λ (got, cond'). ensure NotWasmType.bool got >>= λ _.
      type_check_stmt Γ s_then ret >>= λ (_, then').
      type_check_stmt Γ s_else ret >>= λ (_, else'). ok (Γ, Stmt.if_ cond' then' else')
  type_check_stmt Γ (Stmt.loop s_body) ret =
      type_check_stmt Γ s_body ret >>= λ (_, body'). ok (Γ, Stmt.loop body')
  type_check_stmt Γ (Stmt.label lbl s_body) ret =
      type_check_stmt Γ s_body ret >>= λ (_, body'). ok (Γ, Stmt.label lbl body')
  type_check_stmt Γ (Stmt.break lbl) ret = ok (Γ, Stmt.break lbl)
  type_check_stmt Γ (Stmt.return a) ret =
      type_check_atom Γ a >>= λ (got, a'). check_return ret got >>= λ _. ok (Γ, Stmt.return a')
  type_check_stmt Γ (Stmt.block ss) ret =
      type_check_stmts Γ ss ret >>= λ (_, ss'). ok (Γ, Stmt.block ss')
  type_check_stmt Γ Stmt.trap ret = ok (Γ, Stmt.trap)
  type_check_stmt Γ (Stmt.goto lbl) ret = panic

  -- the loop over a block, whose environment the block then drops
  pub type_check_stmts : Env → Stmts → Option NotWasmType → Checked (Env × Stmts)
  type_check_stmts Γ Stmts.nil ret = ok (Γ, Stmts.nil)
  type_check_stmts Γ (Stmts.cons s ss) ret = type_check_stmt Γ s ret >>= λ (Γ', s').
      type_check_stmts Γ' ss ret >>= λ (Γ'', ss'). ok (Γ'', Stmts.cons s' ss')
