-- ===== src/Rope/Examples.antt =====
-- Ropes built, appended and iterated at concrete inputs.
use jankscripten.Prelude.{ℕ, ◌≡◌, [], ◌∷◌, ◌++◌, arith, ok}
use jankscripten.Rope.{Rope, join, collect, into_iter}
use jankscripten.Rope.Iterate.{to_list, IsPacked, join-to_list, collect-into_iter}

abbrev one_two : Rope ℕ
one_two = Rope.append (Rope.singleton 1) (Rope.singleton 2)

abbrev three : Rope ℕ
three = Rope.singleton 3

join-to_list_example :
    (to_list (join one_two three) ≡ to_list one_two ++ to_list three)
    × IsPacked (join one_two three)
join-to_list_example = join-to_list one_two three (tt, tt) tt

collect-into_iter_example : collect 9 9 (into_iter one_two) ≡ ok (1 ∷ 2 ∷ [])
collect-into_iter_example = collect-into_iter one_two 9 (tt, tt) (omega arith)
