-- ===== src/Shared/Ident.antt =====
-- Identifiers and the fresh name generator of libjankscripten/src/shared/id.rs. The table of
-- `NameGen` is a function from base names to the last index given out.
pub mod Freshness
pub mod Examples
use jankscripten.Prelude.{
  ℕ, zero, suc, ◌+◌, ◌-◌, ◌*◌, ◌/◌, ◌%◌, ◌^◌, ◌≤◌, ◌<◌, max, min, String, ◌≡◌, refl, sym, ap, ap₂,
  subst, ◌∙◌, ◌≢◌, ◌↔◌, ◌⊎◌, inl, inr, ite, if_pos, if_neg, Bool, true, false, not, ◌&&◌, ◌||◌,
  Option, none, some, List, [], ◌∷◌, ◌++◌, map, arith, str_eq, dec_lt, ℕ_discrete, ltb, leb, ◌==◌,
  if◌then◌else◌, Bool-cases, Option-cases, length, get_elem?, set, length-append, take, drop,
  replicate, Result, ok, err, panic, ◌>>=◌, ◌>>◌, ok_or, unwrap, >>=-ok,
}
use text.Mathlib.TextEquality.{eq_iff}

pub data Ident : Type 0 where
  named : String → Ident
  generated : String → ℕ → Ident
  bogus : String → Ident

unfoldable pub String-discrete : Discrete String
unfolding Bool-cases
String-discrete a b = elim (Bool-cases (str_eq a b)) [
  | inl e ↦ yes ((eq_iff a b).0 e)
  | inr e ↦ no (λ p. ground (arith, (eq_iff a b).1 p))
]

unfoldable pub Ident-discrete : Discrete Ident
unfolding String-discrete ℕ_discrete
Ident-discrete = hlevel (ℕ_discrete, String-discrete)

pub record NameGen : Type 0 where
  pub next_name : String → Option ℕ

-- `into_name` and `name`: only a named identifier has a name.
unfoldable pub into_name : Ident → Result ⊥ String
into_name (named s) = ok s
into_name _ = panic

abbrev pub new_name_gen : NameGen
new_name_gen = record { next_name = λ _. none }

-- `entry(name).and_modify(|i| *i += 1).or_insert(0)`
abbrev pub next_index : Option ℕ → ℕ
next_index none = 0
next_index (some i) = i + 1

unfoldable pub fresh : NameGen → String → Ident × NameGen
unfolding String-discrete
fresh ng name =
    let index = next_index (ng.next_name name) in
    (
      generated name index,
      record { next_name = λ k. ite (String-discrete k name) (some index) (ng.next_name k) },
    )

-- A pass that asks for one name after another.
unfoldable pub fresh_all : NameGen → List String → List Ident
fresh_all ng [] = []
fresh_all ng (name ∷ names) = let (x, ng') = fresh ng name in x ∷ fresh_all ng' names
