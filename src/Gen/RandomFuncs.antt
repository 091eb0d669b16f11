-- ===== src/Gen/RandomFuncs.antt =====
-- internal/testigogen/generate.go: the functions that make random values of the fixtures' types, in
-- `prepare` and in the loop of `render`. The type of a fixture has a name by then, which Gen/Loading
-- shows.
use testigo.Base.{
  Bool, false, not, ◌&&◌, List, [], ◌∷◌, ◌++◌, Option, none, some, has, if◌then◌else◌,
}
use testigo.Base.Text.{Text, codes, same, text_dec}
use testigo.Base.Dict.{store}
use testigo.Gen.Types.{GoTypes, Named}
use testigo.Gen.Methods.{Generated, made, refused}
use testigo.Gen.Tags.{Artifact}
use mathlib.Core.List.{lookup}
use mathlib.Core.Option

-- Whether a function is there for another type.
abbrev pub collides : Option Text → Text → Bool
collides none key = false
collides (some previous) key = not (same previous key)

module _ {T : Type 0} (g : GoTypes T) where
  abbrev pub random_name : T → Text
  random_name t =
      codes "Random" ++ Option.get_or (Option.map (λ (n : Named). n.name) (g.named t)) []

  -- The loop of `prepare`: `names` leads from a function to its type, `funcs` (randomFuncs) back.
  unfoldable pub prepare_from :
      List (Text × Text) → List (Text × Text) → List (Artifact T) → Generated (List (Text × Text))
  unfolding same store
  prepare_from names funcs [] = made funcs
  prepare_from names funcs (e ∷ es) =
      let function = random_name e.type_of in
      let key = g.canonical e.type_of in
      let passed_over = prepare_from names funcs es in
      let rest =
        prepare_from (store text_dec function key names) (store text_dec key function funcs) es in
      if not e.fixture
      then passed_over
      else if collides (lookup text_dec function names) key
      then refused (codes "testigo-gen: random function name " ++ function ++ codes " collides")
      else rest

  unfoldable pub prepare : List (Artifact T) → Generated (List (Text × Text))
  unfolding prepare_from
  prepare es = prepare_from [] [] es

  -- The names that `render` gives to `renderRandom`, with the types that are rendered.
  unfoldable pub random_functions : List (Text × Text) → List Text → List (Artifact T) → List Text
  unfolding has
  random_functions funcs rendered [] = []
  random_functions funcs rendered (e ∷ es) =
      let key = g.canonical e.type_of in
      let passed_over = random_functions funcs rendered es in
      let rest = random_functions funcs (key ∷ rendered) es in
      if e.fixture && not (has text_dec key rendered)
      then Option.get_or (lookup text_dec key funcs) [] ∷ rest
      else passed_over
