-- ===== src/Fixture/Tests.antt =====
-- fixture/fixture.go: the theorems at concrete variants of a number, which count their runs.
use testigo.Base.{ℕ, suc, ◌+◌, ◌*◌, List, [], ◌∷◌, Option, none, some, ◌≡◌, refl}
use testigo.Fixture.{Variation, with_variations, new_builder, with_base, bare}
use testigo.Fixture.Building.{bare-new_builder}

abbrev same_value : ℕ → ℕ
same_value v = v

abbrev variations : List (Option (Variation ℕ ℕ))
variations = some (λ v s. (v + s, suc s)) ∷ none ∷ some (λ v s. (2 * v, suc s)) ∷ []

bare-new_builder_example :
    bare same_value 0 (with_variations variations (new_builder same_value 7)) 3
    ≡ with_base same_value 7 variations 3
bare-new_builder_example = bare-new_builder same_value 0 (λ v. refl) 7 variations 3
