-- ===== src/Janky/Check/Inserted.antt =====
-- Coercions that are inserted between types that are no functions pass the type checker.
use jankscripten.Prelude.{
  ℕ, zero, suc, ◌≡◌, refl, subst, if_pos, if_neg, Bool, true, false, ◌&&◌, arith, ok, >>=-ok,
}
use jankscripten.Prelude.{ok-inj}
use jankscripten.Shared.Types.{JankyType, any, int, float, function, JankyType-discrete, is_ground}
use jankscripten.Shared.Coercions.{Coercion, smart_seq, through, new_step, new, Rec}
use jankscripten.Shared.Coercions.Sound.{new-Coerces}
use jankscripten.Janky.CheckCoercion.FirstOrder.{is_first_order, type_check-Coerces, ensure_self}
use jankscripten.Janky.Syntax.{Expr}
use jankscripten.Janky.Check.{Methods, Env, type_check_expr}

-- every type but those of functions
abbrev pub is_data : JankyType → Bool
is_data (function ts t) = false
is_data _ = true

&&-true : (a b : Bool) → a ≡ true → b ≡ true → a && b ≡ true
&&-true a b e1 e2 = rw (e1, e2)

smart_seq-first_order :
    (c1 c2 : Coercion)
    → is_first_order c1 ≡ true
    → is_first_order c2 ≡ true
    → is_first_order (smart_seq c1 c2) ≡ true
unfolding smart_seq is_first_order
smart_seq-first_order c1 (Coercion.id t) e1 e2 = e1
smart_seq-first_order (Coercion.id t) c2 e1 e2 = e2
smart_seq-first_order (Coercion.fun cs2 c2) (Coercion.fun cs1 c1) e1 e2 = absurd (ground arith)
smart_seq-first_order c1 c2 e1 e2 = &&-true _ _ e1 e2

abbrev StaysFirstOrder : Rec → Type 0
StaysFirstOrder rec =
    (t1 t2 : JankyType) (c : Coercion)
    → is_data t1 ≡ true
    → is_data t2 ≡ true
    → rec t1 t2 ≡ ok c
    → is_first_order c ≡ true

through-first_order :
    (rec : Rec) (t1 t2 : JankyType) (c : Coercion)
    → StaysFirstOrder rec
    → is_data t1 ≡ true
    → is_data t2 ≡ true
    → through any rec t1 t2 ≡ ok c
    → is_first_order c ≡ true
unfolding through
through-first_order rec t1 t2 c stays d1 d2 h =
    let (c1, e1, h) = >>=-ok (rec t1 any) _ h in
    let (c2, e2, h) = >>=-ok (rec any t2) _ h in
    subst (λ c. is_first_order c ≡ true) (ok-inj h)
      (smart_seq-first_order c1 c2 (stays t1 any c1 d1 refl e1) (stays any t2 c2 refl d2 e2))

new_step-first_order : (rec : Rec) → StaysFirstOrder rec → StaysFirstOrder (new_step rec)
unfolding new_step is_ground is_first_order
new_step-first_order rec stays any (function ts t) c d1 d2 h = absurd (ground arith)
new_step-first_order rec stays any t2 c d1 d2 h =
    subst (λ c. is_first_order c ≡ true) (ok-inj h) refl
new_step-first_order rec stays (function ts t) t2 c d1 d2 h = absurd (ground arith)
new_step-first_order rec stays t1 any c d1 d2 h =
    subst (λ c. is_first_order c ≡ true) (ok-inj h) refl
new_step-first_order rec stays int float c d1 d2 h =
    subst (λ c. is_first_order c ≡ true) (ok-inj h) refl
new_step-first_order rec stays float int c d1 d2 h =
    subst (λ c. is_first_order c ≡ true) (ok-inj h) refl
new_step-first_order rec stays t1 (function ts t) c d1 d2 h = absurd (ground arith)
new_step-first_order rec stays t1 t2 c d1 d2 h = through-first_order rec t1 t2 c stays d1 d2 h

new-first_order : (n : ℕ) → StaysFirstOrder (new n)
unfolding new is_first_order
new-first_order zero t1 t2 c d1 d2 h = absurd (ground arith)
new-first_order (suc n) t1 t2 c d1 d2 h = elim (JankyType-discrete t1 t2) [
  | yes p ↦
      subst (λ c. is_first_order c ≡ true) (ok-inj (rw (if_pos (JankyType-discrete t1 t2) p) at h))
        refl
  | no p ↦
      new_step-first_order (new n) (new-first_order n) t1 t2 c d1 d2
        (rw (if_neg (JankyType-discrete t1 t2) p) at h)
]

-- Where an expression has a type that is no function type, the coercion that `new` returns from it to another
-- type that is no function type can be put around it: the checker accepts the result at the other type.
pub type_check_expr-new :
    (methods : Methods) (Γ : Env) (e : Expr) (t1 t2 : JankyType) (n : ℕ) (c : Coercion)
    → is_data t1 ≡ true
    → is_data t2 ≡ true
    → new n t1 t2 ≡ ok c
    → type_check_expr methods Γ e ≡ ok t1
    → type_check_expr methods Γ (Expr.coercion c e) ≡ ok t2
unfolding type_check_expr
type_check_expr-new methods Γ e t1 t2 n c d1 d2 made has =
    let checked =
      type_check-Coerces (new-first_order n t1 t2 c d1 d2 made) (new-Coerces n t1 t2 c made) in
    rw (has, checked, ensure_self t1)
