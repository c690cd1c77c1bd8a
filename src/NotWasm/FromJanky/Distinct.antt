-- ===== src/NotWasm/FromJanky/Distinct.antt =====
-- The temporaries of a compiled function, and of a program's `main`, are pairwise distinct.
use jankscripten.Prelude.{
  ℕ, suc, ◌<◌, String, ◌≡◌, refl, ap, ite, if_pos, if_neg, none, some, sym, subst, ◌∙◌, Option,
  List, [], ◌∷◌, arith, Result, ok,
}
use jankscripten.Shared.Ident.{Ident, Ident-discrete, new_name_gen}
use jankscripten.Shared.Ident.Freshness.{Absent, Distinct, generated-ne_index}
use jankscripten.Shared.Types.{JankyType}
use jankscripten.Rope.{OutOfFuel}
use jankscripten.Janky.Syntax
use jankscripten.NotWasm.Syntax.{Function, Program}
use jankscripten.NotWasm.FromJanky.{State, new_function, insert_function}
use jankscripten.NotWasm.FromJanky.Compile.{compile_stmt, compile_function, from_jankyscript}
use jankscripten.NotWasm.FromJanky.Temporaries.{temporaries, index_of, Rising, Never}
use jankscripten.NotWasm.FromJanky.Names.{FunctionSince, as_block, stmt_names, function_names}

Rising-Absent :
    (i lo hi : ℕ) (xs : List Ident) → i < lo → Rising lo xs hi → Absent (Ident.generated "anf" i) xs
Rising-Absent i lo hi [] l h = tt
Rising-Absent i lo hi (x ∷ xs) l (j, e, le, h) = (
  λ p. generated-ne_index "anf" "anf" i j (omega arith) (p ∙ e),
  Rising-Absent i (suc j) hi xs (omega arith) h,
)

Rising-Distinct : (lo hi : ℕ) (xs : List Ident) → Rising lo xs hi → Distinct xs
Rising-Distinct lo hi [] h = tt
Rising-Distinct lo hi (x ∷ xs) (i, e, le, h) = (
  subst (λ y. Absent y xs) (sym e) (Rising-Absent i (suc i) hi xs (omega arith) h),
  Rising-Distinct (suc i) hi xs h,
)

Never-ok :
    {A : Type 0} (P : A → Type 0) (m : Result OutOfFuel A) (a : A) → Never P m → m ≡ ok a → P a
Never-ok P m a h e = subst (Never P) e h

-- Where a function is compiled, in any state and under any printer and table of methods, no two of the declarations
-- without a type annotation in the body of the result, nested blocks included, declare the same name.
pub compile_function-Distinct :
    (to_pretty : Ident → String) (methods : String → ℕ → Option (List JankyType)) (s s' : State)
    (f : Syntax.Func) (f' : Function)
    → compile_function to_pretty methods s f ≡ ok (f', s')
    → Distinct (temporaries f'.body)
compile_function-Distinct to_pretty methods s s' f f' e =
    Rising-Distinct (index_of s) (index_of s') (temporaries f'.body)
      (Never-ok (FunctionSince (index_of s)) _ (f', s') (function_names to_pretty methods s f) e)

-- the function that a program has under a name
abbrev pub entry : Ident → List (Ident × Function) → Option Function
entry x [] = none
entry x ((y, f) ∷ rest) = ite (Ident-discrete y x) (some f) (entry x rest)

entry-insert_function :
    (fs : List (Ident × Function)) (x : Ident) (f : Function)
    → entry x (insert_function fs x f) ≡ some f
unfolding insert_function
entry-insert_function [] x f = if_pos (Ident-discrete x x) refl (some f) none
entry-insert_function ((y, g) ∷ rest) x f = elim (Ident-discrete y x) [
  | yes p ↦
      ap (entry x) (if_pos (Ident-discrete y x) p ((x, f) ∷ rest) _)
      ∙ if_pos (Ident-discrete x x) refl (some f) (entry x rest)
  | no n ↦
      ap (entry x) (if_neg (Ident-discrete y x) n _ ((y, g) ∷ insert_function rest x f))
      ∙ (if_neg (Ident-discrete y x) n (some g) (entry x (insert_function rest x f))
          ∙ entry-insert_function rest x f)
]

abbrev HasMain : Program → Type 0
HasMain prog =
    (f : Function) × (entry (Ident.named "main") prog.functions ≡ some f)
    × Distinct (temporaries f.body)

-- Where a program is translated, under any printer and table of methods, the result has a function `main`, whatever
-- other functions the translation adds, and no two declarations without a type annotation in its body declare
-- the same name.
pub from_jankyscript-Distinct :
    (to_pretty : Ident → String) (methods : String → ℕ → Option (List JankyType)) (p : Syntax.Stmt)
    (prog : Program)
    → from_jankyscript to_pretty methods p ≡ ok prog
    → (f : Function) × (entry (Ident.named "main") prog.functions ≡ some f)
      × Distinct (temporaries f.body)
unfolding from_jankyscript new_function
from_jankyscript-Distinct to_pretty methods p prog e =
    let start : State = record { namegen = new_name_gen; functions = [] } in
    Never-ok HasMain _ prog
      (as_block HasMain (index_of start) (compile_stmt to_pretty methods start p) _
        (stmt_names to_pretty methods start p)
        (λ b s h. (
          _,
          entry-insert_function s.functions (Ident.named "main") _,
          Rising-Distinct (index_of start) (index_of s) (temporaries b) h,
        )))
      e
