-- ===== src/NotWasm/Check/Declared.antt =====
-- The names that the checker of NotWasm has bound after a block, by what the block declares.
use jankscripten.Prelude.{◌≡◌, refl, sym, ap, ◌∙◌, ◌≢◌, ite, if_pos, if_neg, Option, none, some, ok}
use jankscripten.Shared.Ident.{Ident, Ident-discrete, named}
use jankscripten.NotWasm.Types.{NotWasmType}
use jankscripten.NotWasm.Syntax.{Stmt, Stmts}
use jankscripten.NotWasm.Check.{Env, update, insert_in}
use jankscripten.NotWasm.Check.Stmts.{bind_var, type_check_stmts}
use jankscripten.NotWasm.Check.Scope.{bind_declared, after, after_all, after_all-env}

-- the type at which a statement declares the name `y`, if it does; `_` is never declared
abbrev pub declares : Ident → Stmt → Option NotWasmType
declares y (Stmt.var v) =
    ite (Ident-discrete y v.id) (ite (Ident-discrete y (named "_")) none v.ty) none
declares y _ = none

abbrev pub or_else : Option NotWasmType → Option NotWasmType → Option NotWasmType
or_else (some t) u = some t
or_else none u = u

-- the type of the last statement that declares `y` or else the old type
abbrev pub last_declared : Ident → Stmts → Option NotWasmType → Option NotWasmType
last_declared y Stmts.nil old = old
last_declared y (Stmts.cons s ss) old = last_declared y ss (or_else (declares y s) old)

declares_at : Ident → Ident → Option NotWasmType → Option NotWasmType
declares_at y x ty = ite (Ident-discrete y x) (ite (Ident-discrete y (named "_")) none ty) none

declares_at-other : (y x : Ident) (ty : Option NotWasmType) → y ≢ x → declares_at y x ty ≡ none
unfolding declares_at
declares_at-other y x ty n = if_neg (Ident-discrete y x) n _ _

declares_at-hidden :
    (y x : Ident) (ty : Option NotWasmType) → y ≡ named "_" → declares_at y x ty ≡ none
unfolding declares_at
declares_at-hidden y x ty h = elim (Ident-discrete y x) [
  | yes q ↦ if_pos (Ident-discrete y x) q _ _ ∙ if_pos (Ident-discrete y (named "_")) h none ty
  | no q ↦ if_neg (Ident-discrete y x) q _ _
]

declares_at-same :
    (y x : Ident) (ty : Option NotWasmType) → y ≡ x → y ≢ named "_" → declares_at y x ty ≡ ty
unfolding declares_at
declares_at-same y x ty q n =
    if_pos (Ident-discrete y x) q _ _ ∙ if_neg (Ident-discrete y (named "_")) n none ty

declares_at-none : (y x : Ident) → declares_at y x none ≡ none
declares_at-none y x = elim (Ident-discrete y (named "_")) [
  | yes h ↦ declares_at-hidden y x none h
  | no n ↦ elim (Ident-discrete y x) [
    | yes q ↦ declares_at-same y x none q n
    | no q ↦ declares_at-other y x none q
  ]
]

-- `bind_var` binds every name but `_`.
bind_var-declares :
    (Γ : Env) (x y : Ident) (t : NotWasmType)
    → (bind_var Γ x t).env y ≡ or_else (declares_at y x (some t)) (Γ.env y)
unfolding bind_var update insert_in
bind_var-declares Γ x y t = elim (Ident-discrete x (named "_")) [
  | yes p ↦
      ap (λ (Γ : Env). Γ.env y) (if_pos (Ident-discrete x (named "_")) p Γ (update Γ x t))
      ∙ ap (λ o. or_else o (Γ.env y)) (sym (hidden p))
  | no p ↦
      ap (λ (Γ : Env). Γ.env y) (if_neg (Ident-discrete x (named "_")) p Γ (update Γ x t)) ∙ bound p
]
  where
    hidden : x ≡ named "_" → declares_at y x (some t) ≡ none
    hidden p = elim (Ident-discrete y x) [
      | yes q ↦ declares_at-hidden y x (some t) (q ∙ p)
      | no q ↦ declares_at-other y x (some t) q
    ]

    bound : x ≢ named "_" → (update Γ x t).env y ≡ or_else (declares_at y x (some t)) (Γ.env y)
    bound p = elim (Ident-discrete y x) [
      | yes q ↦
          if_pos (Ident-discrete y x) q (some t) (Γ.env y)
          ∙ ap (λ o. or_else o (Γ.env y))
              (sym (declares_at-same y x (some t) q (λ h. p (sym q ∙ h))))
      | no q ↦
          if_neg (Ident-discrete y x) q (some t) (Γ.env y)
          ∙ ap (λ o. or_else o (Γ.env y)) (sym (declares_at-other y x (some t) q))
    ]

bind_var-imports : (Γ : Env) (x : Ident) (t : NotWasmType) → (bind_var Γ x t).imports ≡ Γ.imports
unfolding bind_var update
bind_var-imports Γ x t = elim (Ident-discrete x (named "_")) [
  | yes p ↦ ap (λ (Γ : Env). Γ.imports) (if_pos (Ident-discrete x (named "_")) p Γ (update Γ x t))
  | no p ↦ ap (λ (Γ : Env). Γ.imports) (if_neg (Ident-discrete x (named "_")) p Γ (update Γ x t))
]

after_var :
    (Γ : Env) (y x : Ident) (ty : Option NotWasmType)
    → ((bind_declared Γ x ty).env y ≡ or_else (declares_at y x ty) (Γ.env y))
      × ((bind_declared Γ x ty).imports ≡ Γ.imports)
after_var Γ y x none = (ap (λ o. or_else o (Γ.env y)) (sym (declares_at-none y x)), refl)
after_var Γ y x (some t) = (bind_var-declares Γ x y t, bind_var-imports Γ x t)

after-declares :
    (Γ : Env) (s : Stmt) (y : Ident)
    → ((after Γ s).env y ≡ or_else (declares y s) (Γ.env y)) × ((after Γ s).imports ≡ Γ.imports)
unfolding declares_at
after-declares Γ (Stmt.var v) y = after_var Γ y v.id v.ty
after-declares Γ _ y = (refl, refl)

after_all-last_declared :
    (Γ : Env) (ss : Stmts) (y : Ident)
    → ((after_all Γ ss).env y ≡ last_declared y ss (Γ.env y))
      × ((after_all Γ ss).imports ≡ Γ.imports)
after_all-last_declared Γ Stmts.nil y = (refl, refl)
after_all-last_declared Γ (Stmts.cons s ss) y =
    let (e, i) = after_all-last_declared (after Γ s) ss y in
    let (e', i') = after-declares Γ s y in (e ∙ ap (last_declared y ss) e', i ∙ i')

-- After the statements of a block are checked, each name has the type at which the last `var` of the block that declares
-- it is annotated by the checker, or the type that it had before if there is none or the name is `_`, which is never
-- bound; what nested blocks declare does not count, and the imports stay as they were.
pub type_check_stmts-last_declared :
    (Γ : Env) (ss : Stmts) (ret : Option NotWasmType) (Γ' : Env) (ss' : Stmts) (y : Ident)
    → type_check_stmts Γ ss ret ≡ ok (Γ', ss')
    → (Γ'.env y ≡ last_declared y ss' (Γ.env y)) × (Γ'.imports ≡ Γ.imports)
type_check_stmts-last_declared Γ ss ret Γ' ss' y h =
    let e = after_all-env Γ ss ret Γ' ss' h in
    let (last, imports) = after_all-last_declared Γ ss' y in
    (ap (λ (Γ : Env). Γ.env y) e ∙ last, ap (λ (Γ : Env). Γ.imports) e ∙ imports)
