-- ===== src/Shared/Ident/Examples.antt =====
-- Runs of the name generator.
use jankscripten.Prelude.{String, ◌≡◌, refl, List, [], ◌∷◌}
use jankscripten.Shared.Ident.{generated, new_name_gen, fresh, fresh_all}
use jankscripten.Shared.Ident.Freshness.{Distinct, fresh_all-Distinct}

abbrev bases : List String
bases = "break" ∷ "cont" ∷ "break" ∷ []

fresh_all-bases :
    fresh_all new_name_gen bases
    ≡ generated "break" 0 ∷ generated "cont" 0 ∷ generated "break" 1 ∷ []
unfolding fresh_all fresh
fresh_all-bases = refl

fresh_all-Distinct_example : Distinct (fresh_all new_name_gen bases)
fresh_all-Distinct_example = fresh_all-Distinct bases new_name_gen
