-- ===== src/NotWasm/Check/Scope.antt =====
-- The scopes of NotWasm as its checker keeps them: only `var` binds, and a block drops what it bound.
use jankscripten.Prelude.{◌≡◌, refl, sym, ap, ◌∙◌, Option, none, some, arith, ok, >>=-ok}
use jankscripten.Prelude.{ok-inj}
use jankscripten.Shared.Ident.{Ident}
use jankscripten.NotWasm.Types.{NotWasmType}
use jankscripten.NotWasm.Syntax.{Stmt, Stmts}
use jankscripten.NotWasm.Check.{Env, lookup, ensure, ensure_ref, Checked}
use jankscripten.NotWasm.Check.Atoms.{type_check_atom}
use jankscripten.NotWasm.Check.Exprs.{type_check_expr}
use jankscripten.NotWasm.Check.Stmts.{
  declared_type, bind_var, type_check_var, check_return, type_check_stmt, type_check_stmts,
}

abbrev pub bind_declared : Env → Ident → Option NotWasmType → Env
bind_declared Γ x none = Γ
bind_declared Γ x (some t) = bind_var Γ x t

-- The environment after a statement that carries its annotations.
abbrev pub after : Env → Stmt → Env
after Γ (Stmt.var v) = bind_declared Γ v.id v.ty
after Γ _ = Γ

abbrev pub after_all : Env → Stmts → Env
after_all Γ Stmts.nil = Γ
after_all Γ (Stmts.cons s ss) = after_all (after Γ s) ss

pub fst-eq :
    {A B : Type 0} {a b : A} {x y : B} → ◌≡◌ {A = Checked (A × B)} (ok (a, x)) (ok (b, y)) → a ≡ b
fst-eq h = ap (λ (a, x). a) (ok-inj h)

pub snd-eq :
    {A B : Type 0} {a b : A} {x y : B} → ◌≡◌ {A = Checked (A × B)} (ok (a, x)) (ok (b, y)) → x ≡ y
snd-eq h = ap (λ (a, x). x) (ok-inj h)

same_scope :
    {Γ Γ' : Env} {s s' : Stmt}
    → after Γ s ≡ Γ
    → ◌≡◌ {A = Checked (Env × Stmt)} (ok (Γ, s)) (ok (Γ', s'))
    → Γ' ≡ after Γ s'
same_scope {Γ = Γ} {s = s} {s' = s'} e h = sym (fst-eq h) ∙ (sym e ∙ ap (λ s. after Γ s) (snd-eq h))

-- After a statement is checked, the environment is the old one, and for a `var` the old one with the
-- variable bound at the type that the checker wrote into the statement.
type_check_stmt-after :
    (Γ : Env) (s : Stmt) (ret : Option NotWasmType) (Γ' : Env) (s' : Stmt)
    → type_check_stmt Γ s ret ≡ ok (Γ', s')
    → Γ' ≡ after Γ s'
unfolding type_check_stmt type_check_var
type_check_stmt-after Γ Stmt.empty ret Γ' s' h = same_scope refl h
type_check_stmt-after Γ (Stmt.var v) ret Γ' s' h =
    let ((ty, e'), e, h) = >>=-ok (type_check_expr Γ v.named) _ h in
    let (var_ty, e1, h) = >>=-ok (declared_type e' v.ty ty) _ h in
    sym (fst-eq h) ∙ ap (λ s. after Γ s) (snd-eq h)
type_check_stmt-after Γ (Stmt.expression e) ret Γ' s' h =
    let (r, e1, h) = >>=-ok (type_check_expr Γ e) _ h in same_scope refl h
type_check_stmt-after Γ (Stmt.store x e) ret Γ' s' h =
    let (got, e1, h) = >>=-ok (lookup Γ x) _ h in
    let ((t, e'), e2, h) = >>=-ok (type_check_expr Γ e) _ h in
    let (u, e3, h) = >>=-ok (ensure_ref got) _ h in
    let (r, e4, h) = >>=-ok (ensure u t) _ h in same_scope refl h
type_check_stmt-after Γ (Stmt.assign x e) ret Γ' s' h =
    let (got, e1, h) = >>=-ok (lookup Γ x) _ h in
    let ((t, e'), e2, h) = >>=-ok (type_check_expr Γ e) _ h in
    let (r, e4, h) = >>=-ok (ensure got t) _ h in same_scope refl h
type_check_stmt-after Γ (Stmt.if_ c s1 s2) ret Γ' s' h =
    let ((t, c'), e1, h) = >>=-ok (type_check_atom Γ c) _ h in
    let (r, e2, h) = >>=-ok (ensure NotWasmType.bool t) _ h in
    let (r1, e3, h) = >>=-ok (type_check_stmt Γ s1 ret) _ h in
    let (r2, e4, h) = >>=-ok (type_check_stmt Γ s2 ret) _ h in same_scope refl h
type_check_stmt-after Γ (Stmt.loop s) ret Γ' s' h =
    let (r, e1, h) = >>=-ok (type_check_stmt Γ s ret) _ h in same_scope refl h
type_check_stmt-after Γ (Stmt.label l s) ret Γ' s' h =
    let (r, e1, h) = >>=-ok (type_check_stmt Γ s ret) _ h in same_scope refl h
type_check_stmt-after Γ (Stmt.break l) ret Γ' s' h = same_scope refl h
type_check_stmt-after Γ (Stmt.return a) ret Γ' s' h =
    let ((t, a'), e1, h) = >>=-ok (type_check_atom Γ a) _ h in
    let (r, e2, h) = >>=-ok (check_return ret t) _ h in same_scope refl h
type_check_stmt-after Γ (Stmt.block ss) ret Γ' s' h =
    let (r, e1, h) = >>=-ok (type_check_stmts Γ ss ret) _ h in same_scope refl h
type_check_stmt-after Γ Stmt.trap ret Γ' s' h = same_scope refl h
type_check_stmt-after Γ (Stmt.goto l) ret Γ' s' h = absurd (ground arith)

pub after_all-env :
    (Γ : Env) (ss : Stmts) (ret : Option NotWasmType) (Γ' : Env) (ss' : Stmts)
    → type_check_stmts Γ ss ret ≡ ok (Γ', ss')
    → Γ' ≡ after_all Γ ss'
unfolding type_check_stmts
after_all-env Γ Stmts.nil ret Γ' ss' h = sym (fst-eq h) ∙ ap (λ ss. after_all Γ ss) (snd-eq h)
after_all-env Γ (Stmts.cons s ss) ret Γ' ss' h =
    let ((Γ1, s1), e1, h) = >>=-ok (type_check_stmt Γ s ret) _ h in
    let ((Γ2, ss2), e2, h) = >>=-ok (type_check_stmts Γ1 ss ret) _ h in
    let rest = after_all-env Γ1 ss ret Γ2 ss2 e2 in
    let head = type_check_stmt-after Γ s ret Γ1 s1 e1 in
    sym (fst-eq h)
    ∙ (rest ∙ (ap (λ Γ. after_all Γ ss2) head ∙ ap (λ ss. after_all Γ ss) (snd-eq h)))
