-- ===== src/NotWasm/Check/Names.antt =====
-- The names that a checked program defines.
use jankscripten.Prelude.{
  ◌≡◌, refl, sym, ap, subst, ◌∙◌, ◌≢◌, if_pos, if_neg, Option, none, some, List, [], ◌∷◌, ◌++◌,
  arith, ok, ◌>>=◌, >>=-ok,
}
use mathlib.Core.Path.{fun_ext}
use jankscripten.Prelude.{ok-inj}
use jankscripten.Shared.Ident.{Ident, Ident-discrete}
use jankscripten.Shared.Ident.Freshness.{Absent, Distinct}
use jankscripten.NotWasm.Types.{NotWasmType}
use jankscripten.NotWasm.Syntax.{Function, Global, Program}
use jankscripten.NotWasm.Check.{Env, TypeMap, insert_in, update, insert, Checked}
use jankscripten.NotWasm.Check.Programs.{
  new_env, bind_imports, if_new, bind_new, bind_functions, check_initial, bind_globals, type_check,
}

-- the bindings of a list, each of a new name
abbrev pub bind_all : Env → List (Ident × NotWasmType) → Checked Env
bind_all Γ [] = ok Γ
bind_all Γ ((x, t) ∷ rest) = bind_new Γ x t >>= λ Γ'. bind_all Γ' rest

abbrev pub functions_of : List (Ident × Function) → List (Ident × NotWasmType)
functions_of [] = []
functions_of ((x, f) ∷ rest) = (x, NotWasmType.fn f.fn_type) ∷ functions_of rest

abbrev pub globals_of : List (Ident × Global) → List (Ident × NotWasmType)
globals_of [] = []
globals_of ((x, g) ∷ rest) = (x, g.ty) ∷ globals_of rest

abbrev pub names : List (Ident × NotWasmType) → List Ident
names [] = []
names ((x, t) ∷ rest) = x ∷ names rest

bind_functions-bind_all :
    (Γ : Env) (fs : List (Ident × Function)) → bind_functions Γ fs ≡ bind_all Γ (functions_of fs)
unfolding bind_functions
bind_functions-bind_all Γ [] = refl
bind_functions-bind_all Γ ((x, f) ∷ rest) =
    ap (λ k. bind_new Γ x (NotWasmType.fn f.fn_type) >>= k)
      (fun_ext (λ Γ'. bind_functions-bind_all Γ' rest))

bind_globals-bind_all :
    (Γ : Env) (gs : List (Ident × Global)) (Γ' : Env) (gs' : List (Ident × Global))
    → bind_globals Γ gs ≡ ok (Γ', gs')
    → bind_all Γ (globals_of gs) ≡ ok Γ'
unfolding bind_globals
bind_globals-bind_all Γ [] Γ' gs' h = ap ok (ap (λ (Γ, gs). Γ) (ok-inj h))
bind_globals-bind_all Γ ((x, g) ∷ rest) Γ' gs' h =
    let (g', e1, h) = >>=-ok (check_initial Γ g) _ h in
    let (Γ1, e2, h) = >>=-ok (bind_new Γ x g.ty) _ h in
    let ((Γ2, rest'), e3, h) = >>=-ok (bind_globals Γ1 rest) _ h in
    rw e2 (bind_globals-bind_all Γ1 rest Γ2 rest' e3 ∙ ap ok (ap (λ (Γ, gs). Γ) (ok-inj h)))

bind_all-append :
    (xs ys : List (Ident × NotWasmType)) (Γ Γ1 : Env)
    → bind_all Γ xs ≡ ok Γ1
    → bind_all Γ (xs ++ ys) ≡ bind_all Γ1 ys
bind_all-append [] ys Γ Γ1 h = ap (λ Γ. bind_all Γ ys) (ok-inj h)
bind_all-append ((x, t) ∷ xs) ys Γ Γ1 h =
    let (Γ', e, h) = >>=-ok (bind_new Γ x t) _ h in rw e (bind_all-append xs ys Γ' Γ1 h)

none-some : {A : Type 0} {a : A} → ◌≡◌ {A = Option A} none (some a) → ⊥
none-some h = absurd (ground arith)

-- a name that was new, and the environment that binds it
if_new-eq :
    (x : Ident) (Γ Γ' : Env) (old : Option NotWasmType)
    → if_new x Γ old ≡ ok Γ'
    → (old ≡ none) × (Γ ≡ Γ')
unfolding if_new
if_new-eq x Γ Γ' none h = (refl, ok-inj h)
if_new-eq x Γ Γ' (some old) h = absurd (ground arith)

bind_new-eq :
    (Γ : Env) (x : Ident) (t : NotWasmType) (Γ' : Env)
    → bind_new Γ x t ≡ ok Γ'
    → (Γ.env x ≡ none) × (update Γ x t ≡ Γ')
unfolding bind_new insert
bind_new-eq Γ x t Γ' h = if_new-eq x (update Γ x t) Γ' (Γ.env x) h

update_self : (Γ : Env) (x : Ident) (t : NotWasmType) → (update Γ x t).env x ≡ some t
unfolding update insert_in
update_self Γ x t = rw (if_pos (Ident-discrete x x) refl)

update_ne : (Γ : Env) (x y : Ident) (t : NotWasmType) → y ≢ x → (update Γ x t).env y ≡ Γ.env y
unfolding update insert_in
update_ne Γ x y t n = rw (if_neg (Ident-discrete y x) n)

-- a bound name is not bound anew
bound-Absent :
    (xs : List (Ident × NotWasmType)) (Γ Γ' : Env) (y : Ident) (u : NotWasmType)
    → Γ.env y ≡ some u
    → bind_all Γ xs ≡ ok Γ'
    → Absent y (names xs)
bound-Absent [] Γ Γ' y u b h = tt
bound-Absent ((x, t) ∷ xs) Γ Γ' y u b h =
    let (Γ1, e, h) = >>=-ok (bind_new Γ x t) _ h in
    let (fresh, grown) = bind_new-eq Γ x t Γ1 e in
    let other : y ≢ x = λ p. none-some (sym fresh ∙ (ap Γ.env (sym p) ∙ b)) in
    (
      other,
      bound-Absent xs Γ1 Γ' y u
          (subst (λ Γ1. Γ1.env y ≡ some u) grown (update_ne Γ x y t other ∙ b)) h,
    )

bind_all-Distinct :
    (xs : List (Ident × NotWasmType)) (Γ Γ' : Env) → bind_all Γ xs ≡ ok Γ' → Distinct (names xs)
bind_all-Distinct [] Γ Γ' h = tt
bind_all-Distinct ((x, t) ∷ xs) Γ Γ' h =
    let (Γ1, e, h) = >>=-ok (bind_new Γ x t) _ h in
    let (fresh, grown) = bind_new-eq Γ x t Γ1 e in
    (
      bound-Absent xs Γ1 Γ' x t (subst (λ Γ1. Γ1.env x ≡ some t) grown (update_self Γ x t)) h,
      bind_all-Distinct xs Γ1 Γ' h,
    )

-- In a program that the checker accepts, the names of the functions and of the globals are pairwise distinct.
pub type_check-Distinct :
    (bindings : TypeMap) (p p' : Program)
    → type_check bindings p ≡ ok p'
    → Distinct (names (functions_of p.functions ++ globals_of p.globals))
unfolding type_check
type_check-Distinct bindings p p' h =
    let start = bind_imports (new_env bindings) p.rts_fn_imports in
    let (Γ1, e1, h) = >>=-ok (bind_functions start p.functions) _ h in
    let ((Γ2, gs'), e2, h) = >>=-ok (bind_globals Γ1 p.globals) _ h in
    let first = sym (bind_functions-bind_all start p.functions) ∙ e1 in
    let both =
      bind_all-append (functions_of p.functions) (globals_of p.globals) start Γ1 first
      ∙ bind_globals-bind_all Γ1 p.globals Γ2 gs' e2 in
    bind_all-Distinct (functions_of p.functions ++ globals_of p.globals) start Γ2 both
