-- ===== src/Shared/Coercions/Sound.antt =====
-- A coercion that `new` returns is a coercion between the types it was asked for.
use jankscripten.Prelude.{
  ℕ, zero, suc, ◌≡◌, subst, inl, inr, if_pos, if_neg, arith, ◌==◌, Bool-cases, ok, >>=-ok,
}
use jankscripten.Prelude.{ok-inj}
use jankscripten.Shared.Types.{
  JankyType, JankyTypes, any, int, float, function, JankyType-discrete, arity, is_ground,
  ground_function,
}
use jankscripten.Shared.Coercions.{
  Coercion, Coercions, Rec, through, new_args, new_functions, new_from_any, new_step, new,
}
use jankscripten.Shared.Coercions.Typing.{Coerces, CoercesArgs}
use jankscripten.Shared.Coercions.Seq.{smart_seq-Coerces, smart_fun-Coerces}

abbrev IsSound : Rec → Type 0
IsSound rec = (t1 t2 : JankyType) (c : Coercion) → rec t1 t2 ≡ ok c → Coerces c t1 t2

module _ (rec : Rec) (sound : IsSound rec) where
  through-Coerces :
      (mid t1 t2 : JankyType) (c : Coercion) → through mid rec t1 t2 ≡ ok c → Coerces c t1 t2
  unfolding through
  through-Coerces mid t1 t2 c h =
      let (c1, e1, h1) = >>=-ok (rec t1 mid) _ h in
      let (c2, e2, h2) = >>=-ok (rec mid t2) _ h1 in
      subst (λ x. Coerces x t1 t2) (ok-inj h2)
        (smart_seq-Coerces c1 c2 (sound t1 mid c1 e1) (sound mid t2 c2 e2))

  new_args-CoercesArgs :
      (args1 args2 : JankyTypes) (cs : Coercions)
      → arity args1 ≡ arity args2
      → new_args rec args1 args2 ≡ ok cs
      → CoercesArgs cs args2 args1
  unfolding new_args
  new_args-CoercesArgs JankyTypes.nil JankyTypes.nil cs l h =
      subst (λ x. CoercesArgs x JankyTypes.nil JankyTypes.nil) (ok-inj h) CoercesArgs.nil
  new_args-CoercesArgs JankyTypes.nil (JankyTypes.cons _ _) cs l h = absurd (omega arith)
  new_args-CoercesArgs (JankyTypes.cons _ _) JankyTypes.nil cs l h = absurd (omega arith)
  new_args-CoercesArgs (JankyTypes.cons arg1 args1) (JankyTypes.cons arg2 args2) cs l h =
      let (c, e, h1) = >>=-ok (rec arg2 arg1) _ h in
      let (cs', e', h2) = >>=-ok (new_args rec args1 args2) _ h1 in
      subst (λ x. CoercesArgs x (JankyTypes.cons arg2 args2) (JankyTypes.cons arg1 args1))
        (ok-inj h2)
        (CoercesArgs.cons (sound arg2 arg1 c e)
          (new_args-CoercesArgs args1 args2 cs' (omega arith) e'))

  new_functions-Coerces :
      (args1 args2 : JankyTypes) (ret1 ret2 : JankyType) (c : Coercion)
      → new_functions rec args1 ret1 args2 ret2 ≡ ok c
      → Coerces c (function args1 ret1) (function args2 ret2)
  unfolding new_functions
  new_functions-Coerces args1 args2 ret1 ret2 c h = elim (Bool-cases (arity args1 == arity args2)) [
    | inl same ↦
        let h0 = rw same at h in
        let (cs, e, h1) = >>=-ok (new_args rec args1 args2) _ h0 in
        let (r, e', h2) = >>=-ok (rec ret1 ret2) _ h1 in
        subst (λ x. Coerces x (function args1 ret1) (function args2 ret2)) (ok-inj h2)
          (smart_fun-Coerces cs r (new_args-CoercesArgs args1 args2 cs (ground arith) e)
            (sound ret1 ret2 r e'))
    | inr other ↦ absurd (ground arith)
  ]

  new_from_any-Coerces :
      (t : JankyType) (c : Coercion) → new_from_any rec t ≡ ok c → Coerces c any t
  unfolding new_from_any
  new_from_any-Coerces (function args ret) c h =
      through-Coerces (ground_function (arity args)) any (function args ret) c h
  new_from_any-Coerces t c h = through-Coerces any any t c h

  new_step-Coerces :
      (t1 t2 : JankyType) (c : Coercion) → new_step rec t1 t2 ≡ ok c → Coerces c t1 t2
  unfolding new_step
  new_step-Coerces any t2 c h = elim (Bool-cases (is_ground t2)) [
    | inl g ↦ subst (λ x. Coerces x any t2) (ok-inj (rw g at h)) Coerces.untag
    | inr n ↦ new_from_any-Coerces t2 c (rw n at h)
  ]
  new_step-Coerces t1 any c h = elim (Bool-cases (is_ground t1)) [
    | inl g ↦ subst (λ x. Coerces x t1 any) (ok-inj (rw g at h)) Coerces.tag
    | inr n ↦ absurd (ground arith)
  ]
  new_step-Coerces (function args1 ret1) (function args2 ret2) c h =
      new_functions-Coerces args1 args2 ret1 ret2 c h
  new_step-Coerces int float c h = subst (λ x. Coerces x int float) (ok-inj h) Coerces.int_to_float
  new_step-Coerces float int c h = subst (λ x. Coerces x float int) (ok-inj h) Coerces.float_to_int
  new_step-Coerces t1 t2 c h = through-Coerces any t1 t2 c h

-- Whatever coercion `new` returns for two types, it coerces from the first to the second in the
-- documented typing, in which coercions of functions are contravariant in the arguments.
pub new-Coerces :
    (fuel : ℕ) (t1 t2 : JankyType) (c : Coercion) → new fuel t1 t2 ≡ ok c → Coerces c t1 t2
unfolding new
new-Coerces zero t1 t2 c h = absurd (ground arith)
new-Coerces (suc fuel) t1 t2 c h = elim (JankyType-discrete t1 t2) [
  | yes p ↦
      subst (λ x. Coerces x t1 t2) (ok-inj (rw (if_pos (JankyType-discrete t1 t2) p) at h))
        (subst (λ x. Coerces (Coercion.id t1) t1 x) p Coerces.id)
  | no p ↦
      new_step-Coerces (new fuel) (new-Coerces fuel) t1 t2 c
        (rw (if_neg (JankyType-discrete t1 t2) p) at h)
]
