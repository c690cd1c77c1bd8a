-- ===== src/Janky/Check/Calls.antt =====
-- Calls in JankyScript, as the checker treats them.
use jankscripten.Prelude.{
  ◌≡◌, refl, ap, subst, ◌∙◌, List, [], ◌∷◌, ◌++◌, arith, length, ok, err, panic, >>=-ok,
}
use jankscripten.Prelude.{ok-inj}
use jankscripten.Shared.Types.{JankyType, JankyTypes}
use jankscripten.Janky.Syntax.{Exprs}
use jankscripten.Janky.Check.{
  Checked, Methods, Env, to_list, ensure_function, check_zipped, keep, type_check_fun_call,
  type_check_each, type_check_expr,
}

-- the arguments of the one list and then those of the other
abbrev pub followed_by : Exprs → Exprs → Exprs
followed_by Exprs.nil es = es
followed_by (Exprs.cons d ds) es = Exprs.cons d (followed_by ds es)

type_check_each-followed_by :
    (methods : Methods) (Γ : Env) (ds es : Exprs) (rs qs : List (Checked JankyType))
    → type_check_each methods Γ ds ≡ ok rs
    → type_check_each methods Γ es ≡ ok qs
    → type_check_each methods Γ (followed_by ds es) ≡ ok (rs ++ qs)
unfolding type_check_each
type_check_each-followed_by methods Γ Exprs.nil es rs qs hd he =
    he ∙ ap (λ rs. ok (rs ++ qs)) (ok-inj hd)
type_check_each-followed_by methods Γ (Exprs.cons d ds) es rs qs hd he =
    let (r, e1, h) = >>=-ok (keep (type_check_expr methods Γ d)) _ hd in
    let (rest, e2, h) = >>=-ok (type_check_each methods Γ ds) _ h in
    let more = type_check_each-followed_by methods Γ ds es rest qs e2 he in
    subst (λ rs. type_check_each methods Γ (followed_by (Exprs.cons d ds) es) ≡ ok (rs ++ qs))
      (ok-inj h) (rw (e1, more))

check_zipped-append :
    (rs qs : List (Checked JankyType)) (ts : List JankyType)
    → length rs ≡ length ts
    → check_zipped (rs ++ qs) ts ≡ check_zipped rs ts
unfolding check_zipped
check_zipped-append [] [] [] l = refl
check_zipped-append [] (q ∷ qs) [] l = refl
check_zipped-append [] qs (t ∷ ts) l = absurd (omega arith)
check_zipped-append (r ∷ rs) qs [] l = absurd (omega arith)
check_zipped-append (err e ∷ rs) qs (t ∷ ts) l = refl
check_zipped-append (panic ∷ rs) qs (t ∷ ts) l = refl
check_zipped-append (ok got ∷ rs) qs (t ∷ ts) l =
    let same = check_zipped-append rs qs ts (omega arith) in rw same

-- A function may be called with more arguments than it takes: as long as no check panics, the checker answers
-- as it does without the arguments beyond the last formal, even if their own check fails.
pub type_check_fun_call-extra :
    (methods : Methods) (Γ : Env) (formals : JankyTypes) (ret : JankyType) (ds es : Exprs)
    (rs qs : List (Checked JankyType))
    → type_check_each methods Γ ds ≡ ok rs
    → type_check_each methods Γ es ≡ ok qs
    → length rs ≡ length (to_list formals)
    → type_check_fun_call
        (JankyType.function formals ret)
        (type_check_each methods Γ (followed_by ds es))
      ≡ type_check_fun_call (JankyType.function formals ret) (type_check_each methods Γ ds)
unfolding type_check_fun_call ensure_function
type_check_fun_call-extra methods Γ formals ret ds es rs qs hd he l = rw (
  type_check_each-followed_by methods Γ ds es rs qs hd he,
  hd,
  check_zipped-append rs qs (to_list formals) l,
)
