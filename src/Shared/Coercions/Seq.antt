-- ===== src/Shared/Coercions/Seq.antt =====
-- The smart constructors keep the typing of coercions.
use jankscripten.Prelude.{◌≡◌, refl, sym, ap₂, subst, inl, inr, some, arith, Option-cases}
use jankscripten.Prelude.{some-inj}
use jankscripten.Shared.Types.{JankyType, JankyTypes, function}
use jankscripten.Shared.Coercions.{
  Coercion, Coercions, smart_seq, smart_seq_flip, seq_args, seq_args_flip, id_types, smart_fun,
}
use jankscripten.Shared.Coercions.Typing.{Coerces, CoercesArgs}

-- The two recursions of `smart_seq` are one function.
mutual
  unfolding smart_seq

  smart_seq_flip-eq : (c2 c1 : Coercion) → smart_seq_flip c2 c1 ≡ smart_seq c1 c2
  smart_seq_flip-eq (Coercion.id t) c1 = refl
  smart_seq_flip-eq c2 (Coercion.id t) = refl
  smart_seq_flip-eq (Coercion.fun args1 ret1) (Coercion.fun args2 ret2) =
      ap₂ Coercion.fun (seq_args-eq args1 args2) (smart_seq_flip-eq ret1 ret2)
  smart_seq_flip-eq c2 c1 = refl

  smart_seq-eq : (c1 c2 : Coercion) → smart_seq c1 c2 ≡ smart_seq_flip c2 c1
  smart_seq-eq c1 (Coercion.id t) = refl
  smart_seq-eq (Coercion.id t) c2 = refl
  smart_seq-eq (Coercion.fun args2 ret2) (Coercion.fun args1 ret1) =
      ap₂ Coercion.fun (seq_args_flip-eq args2 args1) (smart_seq-eq ret2 ret1)
  smart_seq-eq c1 c2 = refl

  seq_args-eq : (args1 args2 : Coercions) → seq_args args1 args2 ≡ seq_args_flip args2 args1
  seq_args-eq (Coercions.cons a1 args1) (Coercions.cons a2 args2) =
      ap₂ Coercions.cons (smart_seq-eq a1 a2) (seq_args-eq args1 args2)
  seq_args-eq Coercions.nil Coercions.nil = refl
  seq_args-eq Coercions.nil (Coercions.cons _ _) = refl
  seq_args-eq (Coercions.cons _ _) Coercions.nil = refl

  seq_args_flip-eq : (args2 args1 : Coercions) → seq_args_flip args2 args1 ≡ seq_args args1 args2
  seq_args_flip-eq (Coercions.cons a2 args2) (Coercions.cons a1 args1) =
      ap₂ Coercions.cons (smart_seq_flip-eq a2 a1) (seq_args_flip-eq args2 args1)
  seq_args_flip-eq Coercions.nil Coercions.nil = refl
  seq_args_flip-eq Coercions.nil (Coercions.cons _ _) = refl
  seq_args_flip-eq (Coercions.cons _ _) Coercions.nil = refl

mutual
  unfolding smart_seq

  smart_seq-Coerces_rec :
      (c1 c2 : Coercion) {s u t : JankyType}
      → Coerces c1 s u
      → Coerces c2 u t
      → Coerces (smart_seq c1 c2) s t
  smart_seq-Coerces_rec c1 (Coercion.id _) d1 Coerces.id = d1
  smart_seq-Coerces_rec (Coercion.id _) c2 Coerces.id d2 = d2
  smart_seq-Coerces_rec (Coercion.fun args2 ret2) (Coercion.fun args1 ret1) (Coerces.fun as2 r2)
        (Coerces.fun as1 r1) =
      Coerces.fun (seq_args_flip-Coerces args2 args1 as1 as2)
        (smart_seq-Coerces_rec ret2 ret1 r2 r1)
  smart_seq-Coerces_rec c1 c2 d1 d2 = Coerces.seq d1 d2

  smart_seq_flip-Coerces :
      (c2 c1 : Coercion) {s u t : JankyType}
      → Coerces c1 s u
      → Coerces c2 u t
      → Coerces (smart_seq_flip c2 c1) s t
  smart_seq_flip-Coerces (Coercion.id _) c1 d1 Coerces.id = d1
  smart_seq_flip-Coerces c2 (Coercion.id _) Coerces.id d2 = d2
  smart_seq_flip-Coerces (Coercion.fun args1 ret1) (Coercion.fun args2 ret2) (Coerces.fun as2 r2)
        (Coerces.fun as1 r1) =
      Coerces.fun (seq_args-Coerces args1 args2 as1 as2) (smart_seq_flip-Coerces ret1 ret2 r2 r1)
  smart_seq_flip-Coerces c2 c1 d1 d2 = Coerces.seq d1 d2

  seq_args-Coerces :
      (args1 args2 : Coercions) {ts us ss : JankyTypes}
      → CoercesArgs args1 ts us
      → CoercesArgs args2 us ss
      → CoercesArgs (seq_args args1 args2) ts ss
  seq_args-Coerces Coercions.nil Coercions.nil CoercesArgs.nil CoercesArgs.nil = CoercesArgs.nil
  seq_args-Coerces Coercions.nil (Coercions.cons _ _) CoercesArgs.nil d = elim d [ ]
  seq_args-Coerces (Coercions.cons _ _) Coercions.nil d CoercesArgs.nil = elim d [ ]
  seq_args-Coerces (Coercions.cons a1 args1) (Coercions.cons a2 args2) (CoercesArgs.cons d1 ds1)
        (CoercesArgs.cons d2 ds2) =
      CoercesArgs.cons (smart_seq-Coerces_rec a1 a2 d1 d2) (seq_args-Coerces args1 args2 ds1 ds2)

  seq_args_flip-Coerces :
      (args2 args1 : Coercions) {ts us ss : JankyTypes}
      → CoercesArgs args1 ts us
      → CoercesArgs args2 us ss
      → CoercesArgs (seq_args_flip args2 args1) ts ss
  seq_args_flip-Coerces Coercions.nil Coercions.nil CoercesArgs.nil CoercesArgs.nil =
      CoercesArgs.nil
  seq_args_flip-Coerces Coercions.nil (Coercions.cons _ _) d CoercesArgs.nil = elim d [ ]
  seq_args_flip-Coerces (Coercions.cons _ _) Coercions.nil CoercesArgs.nil d = elim d [ ]
  seq_args_flip-Coerces (Coercions.cons a2 args2) (Coercions.cons a1 args1)
        (CoercesArgs.cons d1 ds1) (CoercesArgs.cons d2 ds2) =
      CoercesArgs.cons (smart_seq_flip-Coerces a2 a1 d1 d2)
        (seq_args_flip-Coerces args2 args1 ds1 ds2)

-- If `c1` coerces from `s` to `u` and `c2` from `u` to `t`, then the simplified sequence coerces from
-- `s` to `t`: dropping identities and fusing two function coercions keeps the documented typing.
pub smart_seq-Coerces :
    (c1 c2 : Coercion) {s u t : JankyType}
    → Coerces c1 s u
    → Coerces c2 u t
    → Coerces (smart_seq c1 c2) s t
smart_seq-Coerces c1 c2 d1 d2 = smart_seq-Coerces_rec c1 c2 d1 d2

id_types-CoercesArgs :
    (cs : Coercions) {ss ts : JankyTypes} (us : JankyTypes)
    → id_types cs ≡ some us
    → CoercesArgs cs ts ss
    → (ts ≡ us) × (ss ≡ us)
unfolding id_types
id_types-CoercesArgs Coercions.nil us h CoercesArgs.nil = (some-inj h, some-inj h)
id_types-CoercesArgs (Coercions.cons (Coercion.id t) cs) us h (CoercesArgs.cons Coerces.id ds) =
    elim (Option-cases (id_types cs)) [
      | inl e ↦ absurd (ground arith)
      | inr (vs, e) ↦ ground (arith, id_types-CoercesArgs cs vs e ds)
    ]
id_types-CoercesArgs (Coercions.cons _ cs) us h (CoercesArgs.cons d ds) = absurd (ground arith)

-- From coercions of the arguments, in the opposite direction, and of the result, `smart_fun` makes a
-- coercion of the function types, also where it simplifies to an identity.
pub smart_fun-Coerces :
    (cs : Coercions) (c : Coercion) {ss ts : JankyTypes} {s t : JankyType}
    → CoercesArgs cs ts ss
    → Coerces c s t
    → Coerces (smart_fun cs c) (function ss s) (function ts t)
unfolding smart_fun
smart_fun-Coerces cs (Coercion.id ret) {ss} {ts} ds (Coerces.id {t = r}) =
    elim (Option-cases (id_types cs)) [
      | inl e ↦ rw (e, smart_fun) (Coerces.fun ds Coerces.id)
      | inr (us, e) ↦
          let (p, q) = id_types-CoercesArgs cs us e ds in
          rw (e, smart_fun)
            (subst (λ x. Coerces (Coercion.id (function us r)) (function x r) (function ts r))
              (sym q)
              (subst (λ x. Coerces (Coercion.id (function us r)) (function us r) (function x r))
                (sym p) Coerces.id))
    ]
smart_fun-Coerces cs c ds d = Coerces.fun ds d
