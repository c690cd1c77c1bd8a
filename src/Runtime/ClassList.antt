-- ===== src/Runtime/ClassList.antt =====
-- Hidden classes (runtime/src/allocator/class_list.rs). A property name stands for its string, as the source compares
-- the contents, and a tag is a `u16`. A cache is `none` where the source has -1.
pub mod Tree
pub mod Transition
pub mod Examples
use jankscripten.Prelude.{
  ℕ, zero, suc, ◌+◌, ◌-◌, ◌*◌, ◌/◌, ◌%◌, ◌^◌, ◌≤◌, ◌<◌, max, min, String, ◌≡◌, refl, sym, ap, ap₂,
  subst, ◌∙◌, ◌≢◌, ◌↔◌, ◌⊎◌, inl, inr, ite, if_pos, if_neg, Bool, true, false, not, ◌&&◌, ◌||◌,
  Option, none, some, List, [], ◌∷◌, ◌++◌, map, arith, str_eq, dec_lt, ℕ_discrete, ltb, leb, ◌==◌,
  if◌then◌else◌, Bool-cases, Option-cases, length, get_elem?, set, length-append, take, drop,
  replicate, Result, ok, err, panic, ◌>>=◌, ◌>>◌, ok_or, unwrap, >>=-ok,
}
use jankscripten.Shared.Ident.{String-discrete}

pub record Class : Type 0 where
  pub size : ℕ
  pub offsets : List (String × ℕ)
  pub transitions : List (String × ℕ)

-- `iter().find(|(n, _)| n == &name).map(|(_, i)| i)`
unfoldable pub find : List (String × ℕ) → String → Option ℕ
find [] name = none
find ((n, i) ∷ rest) name =
    let later = find rest name in ite (String-discrete n name) (some i) later

-- `Class::new`
abbrev pub empty_class : Class
empty_class = record { size = 0; offsets = []; transitions = [] }

-- the offset and the cache after the lookup
unfoldable pub lookup : Class → String → Option ℕ → Option ℕ × Option ℕ
unfolding find
lookup c name (some index) = (some index, some index)
lookup c name none = let found = find c.offsets name in (found, found)

unfoldable pub keys : Class → List String
keys c = map (λ (name, i). name) c.offsets

unfoldable pub lookup_transition : Class → String → Option ℕ
unfolding find
lookup_transition c name = find c.transitions name

-- The class with its new transition, and the class that it leads to.
unfoldable pub branch : Class → String → ℕ → Class × Class
branch c name new_tag = (
  record c { transitions = c.transitions ++ ((name, new_tag) ∷ []) },
  record { size = c.size + 1; offsets = c.offsets ++ ((name, c.size) ∷ []); transitions = [] },
)

-- `ClassList`; `as u16` wraps.
abbrev pub ClassList : Type 0
ClassList = List Class

unfoldable pub new_list : ClassList
new_list = empty_class ∷ []

unfoldable pub new_class_type : ClassList → Class → ClassList × ℕ
new_class_type classes c = (classes ++ (c ∷ []), length classes % 2 ^ 16)

unfoldable pub get_class : ClassList → ℕ → Option Class
get_class classes class_tag = get_elem? classes class_tag

abbrev pub size_of : Option Class → Option ℕ
size_of none = none
size_of (some c) = some c.size

unfoldable pub get_class_size : ClassList → ℕ → Option ℕ
unfolding get_class
get_class_size classes class_tag = size_of (get_class classes class_tag)

-- the `match` on the transition that was found
unfoldable pub follow : ClassList → ℕ → String → Class → Option ℕ → ClassList × ℕ
unfolding branch new_class_type
follow classes class_tag name c (some tag) = (classes, tag)
follow classes class_tag name c none =
    let (c', new_class) = branch c name (length classes % 2 ^ 16) in
    new_class_type (set classes class_tag c') new_class

unfoldable pub transition_from : ClassList → ℕ → String → Option Class → Option (ClassList × ℕ)
unfolding lookup_transition follow
transition_from classes class_tag name none = none
transition_from classes class_tag name (some c) =
    some (follow classes class_tag name c (lookup_transition c name))

-- `none` is the panic of an index out of bounds.
unfoldable pub transition : ClassList → ℕ → String → Option (ClassList × ℕ)
unfolding transition_from
transition classes class_tag name =
    transition_from classes class_tag name (get_elem? classes class_tag)
