-- ===== src/Janky/CheckCoercion/FirstOrder.antt =====
-- On coercions without functions the checker agrees with the documented typing.
use jankscripten.Prelude.{◌≡◌, refl, subst, ◌↔◌, if_pos, Bool, true, false, ◌&&◌, arith, ok, >>=-ok}
use jankscripten.Prelude.{ok-inj, &&-eq-true}
use jankscripten.Shared.Types.{JankyType, JankyTypes, JankyType-discrete}
use jankscripten.Shared.Coercions.{Coercion, Coercions}
use jankscripten.Shared.Coercions.Typing.{Coerces, CoercesArgs}
use jankscripten.Janky.CheckCoercion.{ensure, type_check_coercion, type_check_args}

-- No coercion of functions stands in the coercion.
unfoldable pub is_first_order : Coercion → Bool
is_first_order (Coercion.fun cs c) = false
is_first_order (Coercion.seq c1 c2) = is_first_order c1 && is_first_order c2
is_first_order _ = true

unfoldable pub all_first_order : Coercions → Bool
all_first_order Coercions.nil = true
all_first_order (Coercions.cons c cs) = is_first_order c && all_first_order cs

pub ensure_self : (t : JankyType) → ensure t t ≡ ok t
unfolding ensure
ensure_self t = rw (if_pos (JankyType-discrete t t) refl)

ensure→eq : (expected got r : JankyType) → ensure expected got ≡ ok r → expected ≡ got
unfolding ensure
ensure→eq expected got r h = elim (JankyType-discrete expected got) [
  | yes p ↦ p
  | no p ↦ absurd (ground arith)
]

pub type_check-Coerces :
    {c : Coercion} {s t : JankyType}
    → is_first_order c ≡ true
    → Coerces c s t
    → type_check_coercion c ≡ ok (s, t)
unfolding type_check_coercion is_first_order
type_check-Coerces f Coerces.tag = refl
type_check-Coerces f Coerces.untag = refl
type_check-Coerces f Coerces.int_to_float = refl
type_check-Coerces f Coerces.float_to_int = refl
type_check-Coerces f (Coerces.fun ds d) = absurd (ground arith)
type_check-Coerces f Coerces.id = refl
type_check-Coerces f (Coerces.seq {c1} {c2} {u} d1 d2) =
    let (f1, f2) = &&-eq-true (is_first_order c1) (is_first_order c2) f in
    rw (type_check-Coerces f2 d2, type_check-Coerces f1 d1, ensure_self u)
type_check-Coerces f Coerces.meta = refl

pub type_check_args-CoercesArgs :
    {cs : Coercions} {ss ts : JankyTypes}
    → all_first_order cs ≡ true
    → CoercesArgs cs ss ts
    → type_check_args cs ≡ ok (ss, ts)
unfolding type_check_coercion all_first_order
type_check_args-CoercesArgs f CoercesArgs.nil = refl
type_check_args-CoercesArgs f (CoercesArgs.cons {c} {cs} d ds) =
    let (f1, f2) = &&-eq-true (is_first_order c) (all_first_order cs) f in
    rw (type_check-Coerces f1 d, type_check_args-CoercesArgs f2 ds)

Coerces-type_check :
    (c : Coercion) (p : JankyType × JankyType)
    → is_first_order c ≡ true
    → type_check_coercion c ≡ ok p
    → Coerces c p.0 p.1
unfolding type_check_coercion is_first_order
Coerces-type_check (Coercion.fun cs c) p f h = absurd (ground arith)
Coerces-type_check (Coercion.tag t) p f h =
    subst (λ q. Coerces (Coercion.tag t) q.0 q.1) (ok-inj h) Coerces.tag
Coerces-type_check (Coercion.untag t) p f h =
    subst (λ q. Coerces (Coercion.untag t) q.0 q.1) (ok-inj h) Coerces.untag
Coerces-type_check Coercion.int_to_float p f h =
    subst (λ q. Coerces Coercion.int_to_float q.0 q.1) (ok-inj h) Coerces.int_to_float
Coerces-type_check Coercion.float_to_int p f h =
    subst (λ q. Coerces Coercion.float_to_int q.0 q.1) (ok-inj h) Coerces.float_to_int
Coerces-type_check (Coercion.id t) p f h =
    subst (λ q. Coerces (Coercion.id t) q.0 q.1) (ok-inj h) Coerces.id
Coerces-type_check (Coercion.meta s t) p f h =
    subst (λ q. Coerces (Coercion.meta s t) q.0 q.1) (ok-inj h) Coerces.meta
Coerces-type_check (Coercion.seq c1 c2) p f h =
    let (f1, f2) = &&-eq-true (is_first_order c1) (is_first_order c2) f in
    let (q2, e2, h1) = >>=-ok (type_check_coercion c2) _ h in
    let (q1, e1, h2) = >>=-ok (type_check_coercion c1) _ h1 in
    let (u, e, h3) = >>=-ok (ensure q1.1 q2.0) _ h2 in
    let d1 = Coerces-type_check c1 q1 f1 e1 in
    let d2 = Coerces-type_check c2 q2 f2 e2 in
    subst (λ q. Coerces (Coercion.seq c1 c2) q.0 q.1) (ok-inj h3)
      (Coerces.seq (subst (λ x. Coerces c1 q1.0 x) (ensure→eq q1.1 q2.0 u e) d1) d2)

-- For a coercion in which no coercion of functions stands, the checker returns the types `s` and `t`
-- exactly when the coercion goes from `s` to `t` in the documented typing.
pub type_check-first_order :
    (c : Coercion) (s t : JankyType)
    → is_first_order c ≡ true
    → (type_check_coercion c ≡ ok (s, t)) ↔ Coerces c s t
type_check-first_order c s t f = (Coerces-type_check c (s, t) f, type_check-Coerces f)
