-- ===== src/Runtime/ClassList/Examples.antt =====
-- Transitions from the first class list.
use jankscripten.Prelude.{ℕ, ◌^◌, ◌<◌, ◌≡◌, refl, some, [], ◌∷◌, arith, length}
use jankscripten.Runtime.ClassList.{
  ClassList, find, follow, transition_from, lookup_transition, branch, new_class_type, transition,
  new_list,
}
use jankscripten.Runtime.ClassList.Transition.{
  Grows, transition-Grows, transition-again, new_list-IsTree,
}

abbrev with_x : ClassList
with_x =
    (record { size = 0; offsets = []; transitions = ("x", 1) ∷ [] })
    ∷ (record { size = 1; offsets = ("x", 0) ∷ []; transitions = [] })
    ∷ []

few : length new_list < 2 ^ 16
unfolding new_list
few = omega arith

inside : 0 < length new_list
unfolding new_list
inside = omega arith

new_list-x : transition new_list 0 "x" ≡ some (with_x, 1)
unfolding transition new_list transition_from lookup_transition follow branch new_class_type find
new_list-x = refl

transition-Grows_example :
    (later : ClassList) × (later_tag : ℕ) × (transition new_list 0 "x" ≡ some (later, later_tag))
    × Grows new_list later 0 later_tag "x"
transition-Grows_example = transition-Grows new_list 0 "x" new_list-IsTree few inside

transition-again_example : transition with_x 0 "x" ≡ some (with_x, 1)
transition-again_example =
    transition-again new_list 0 "x" with_x 1 new_list-IsTree few inside new_list-x
