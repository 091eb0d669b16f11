-- ===== src/Gen/StubTests.antt =====
-- internal/testigogen: the theorems on functions of random values and on stubs at the values of Gen/Tests.
use testigo.Base.{ℕ, true, false, List, [], ◌∷◌, ◌++◌, some, All, Unique, ◌≡◌, refl}
use testigo.Base.Text.{Text, codes, text_dec, same}
use testigo.Base.Dict.{store}
use testigo.Gen.Methods.{made, build_method}
use testigo.Gen.Tags.{Artifact, new_artifact}
use testigo.Gen.RandomFuncs.{prepare, random_functions}
use testigo.Gen.Declared.{Known, key_of, prepare-Unique}
use testigo.Gen.Stubs.{StubModel, base_value, zero_value, render_stub}
use testigo.Gen.Model.{validate_stub_fixture}
use testigo.Gen.Imports.{lower_first}
use testigo.Gen.Expressions.{random_expression}
use testigo.Gen.Serving.{Serves, serves_as, stub-Serves}
use testigo.Gen.Tests.{go_types, tally, users_stub}
use mathlib.Core.List.{lookup}

-- Two fixtures of one type.
abbrev two_fixtures : List (Artifact ℕ)
two_fixtures =
    record (new_artifact (codes "Users") 1) { fixture = true }
    ∷ record (new_artifact (codes "Finder") 3) { error_stub = true; stub_fixture = codes "Users" }
    ∷ record (new_artifact (codes "Admins") 1) { fixture = true }
    ∷ []

abbrev user_funcs : List (Text × Text)
user_funcs = (codes "app.User", codes "RandomUser") ∷ []

two_fixtures_prepared : prepare go_types two_fixtures ≡ made user_funcs
unfolding prepare new_artifact text_dec store lookup same
two_fixtures_prepared = refl

prepare-Unique_example :
    Unique text_dec (random_functions go_types user_funcs [] two_fixtures)
    × All (λ e. e.fixture ≡ true → Known go_types user_funcs (key_of go_types e)) two_fixtures
prepare-Unique_example = prepare-Unique go_types two_fixtures user_funcs two_fixtures_prepared

abbrev users : Artifact ℕ
users = record (new_artifact (codes "Users") 1) { fixture = true }

-- Save returns a user and an error.
abbrev saving_stub : StubModel ℕ
saving_stub = record {
  name = codes "UsersStubStub";
  base = some (codes "usersBuilder");
  methods =
      record {
        method = record {
          name = codes "Save";
          params =
              record { name = codes "value"; type_of = 4; variadic = false }
              ∷ record { name = codes "user"; type_of = 2; variadic = false }
              ∷ record { name = codes "arg" ++ tally 2; type_of = 4; variadic = false }
              ∷ [];
          results = 1 ∷ 0 ∷ [];
        };
        sources = base_value ∷ zero_value ∷ [];
      }
      ∷ [];
}

saving_stub_rendered : render_stub go_types tally users_stub (some users) false ≡ made saving_stub
unfolding render_stub build_method text_dec new_artifact lower_first
saving_stub_rendered = refl

users_stub_accepted : validate_stub_fixture go_types users_stub 1 ≡ made tt
unfolding validate_stub_fixture new_artifact
users_stub_accepted = refl

stub-Serves_example : Serves (serves_as false) saving_stub
unfolding new_artifact
stub-Serves_example =
    stub-Serves go_types tally users_stub (some users) saving_stub refl users_stub_accepted
      saving_stub_rendered

email_expression :
    random_expression go_types
      (codes "random")
      (λ t. codes "string")
      (λ t. [])
      []
      (codes "e_Mail")
      4
    ≡ some (codes "random.Email()")
unfolding random_expression
email_expression = refl
