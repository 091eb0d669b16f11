-- ===== src/Gen/Tests.antt =====
-- internal/testigogen: the theorems at concrete values. Types are numbers: an error, a struct User, a
-- pointer to it, an interface of a repository, and a string.
use testigo.Base.{
  ℕ, zero, suc, true, false, ◌&&◌, ◌||◌, not, List, [], ◌∷◌, ◌++◌, map, Option, none, some, All,
  length, is_some, some_of, Unique, has, if◌then◌else◌, ◌==◌, ◌≡◌, ◌≢◌, refl, ap,
}
use testigo.Base.Int.{ℤ, pos}
use testigo.Base.Text.{Text, codes, text_dec, tails_eq, join, split, same}
use testigo.Base.Trim.{trim_space}
use testigo.Base.Dict.{store}
use mathlib.Core.List.{lookup}
use testigo.Gen.Types.{BasicKind, Method, GoTypes}
use testigo.Gen.Imports.{ImportSet, new_import_set, add_all, sanitize_identifier, lower_first}
use testigo.Gen.Aliases.{IsDecimal, IsPaired, HasAlias, add_all-IsPaired}
use testigo.Gen.Methods.{MethodModel, made, build_method}
use testigo.Gen.Naming.{names, types, build_method-Unique}
use testigo.Gen.Seeder.{SeederModel, return_err, render_seeder}
use testigo.Gen.Seeding.{IsCallable, render_seeder-IsCallable}
use testigo.Gen.Tags.{
  Artifact, new_artifact, parse_artifact, check_artifact, apply_tokens, apply_token, apply_trimmed,
}
use testigo.Gen.Printing.{tokens, IsPrintable, parse-tokens}
use testigo.Gen.Model.{
  SpecField, load_model, fixture_artifact, read_fields, read_field, read_tag, checked_model,
  validate_stubs, validate_stub, fixtures_from, validate_stub_fixture, validate_artifact,
  validate_fixture,
}
use testigo.Gen.Loading.{fits, needs_fixture, load_model-fits}

-- A number printed as strokes behind a first one.
unfoldable pub tally : ℕ → Text
tally zero = b'1' ∷ []
tally (suc n) = b'1' ∷ tally n

tally-injective : (i j : ℕ) → tally i ≡ tally j → i ≡ j
unfolding tally
tally-injective zero zero e = refl
tally-injective zero (suc zero) e = cc
tally-injective zero (suc (suc j)) e = cc
tally-injective (suc zero) zero e = cc
tally-injective (suc (suc i)) zero e = cc
tally-injective (suc i) (suc j) e = ap suc (tally-injective i j (tails_eq e))

tally_not_empty : (i : ℕ) → tally i ≢ []
unfolding tally
tally_not_empty zero e = cc
tally_not_empty (suc i) e = cc

tally-IsDecimal : IsDecimal tally
tally-IsDecimal = record { injective = tally-injective; not_empty = tally_not_empty }

abbrev app : Text
app = codes "example.com/app"

abbrev packages : List (Text × Text)
packages =
    (codes "example.com/user", codes "user")
    ∷ (codes "example.com/other/user", codes "user")
    ∷ (codes "testing", codes "testing")
    ∷ []

add_all-IsPaired_example :
    (t : ImportSet) × (add_all tally packages (new_import_set app) ≡ some t)
    × IsPaired t
    × All (HasAlias tally tally-IsDecimal t) packages
add_all-IsPaired_example = add_all-IsPaired tally tally-IsDecimal app packages

sanitize_example : sanitize_identifier (codes "go-cmp2") ≡ codes "go_cmp2"
unfolding sanitize_identifier
sanitize_example = refl

lower_first_example : lower_first (codes "User") ≡ codes "user"
unfolding lower_first
lower_first_example = refl

abbrev pub save : Method ℕ
save = record {
  name = codes "Save";
  foreign = false;
  signature = record {
    type_params = 0;
    params = (codes "value", 4) ∷ (codes "_", 2) ∷ (codes "s", 4) ∷ [];
    results = 1 ∷ 0 ∷ [];
    variadic = false;
  };
}

abbrev pub go_types : GoTypes ℕ
go_types = record {
  canonical = λ t. if t == 4 then codes "string" else codes "app.User";
  named = λ t.
      if t == 1 || t == 3
      then some (record { name = codes "User"; pkg_path = some app; type_args = 0 })
      else none;
  pointer_elem = λ t. if t == 2 then some 1 else none;
  exact_basic = λ t. if t == 4 then some BasicKind.string else none;
  struct_fields = λ t. if t == 1 then some [] else none;
  methods = λ t. if t == 3 then some (save ∷ []) else none;
  slice_elem = λ t. none;
  basic = λ t. if t == 4 then some BasicKind.string else none;
  method_set = λ t. if t == 3 then save ∷ [] else [];
  package_func = λ n. none;
  error_type = 0;
  assignable = λ t u. t == u;
  identical = λ t u. t == u;
  comparable = λ t. true;
  is_identifier = λ s. true;
  is_keyword = λ s. false;
}

build_method-Unique_example :
    (m : MethodModel ℕ) × (build_method go_types tally (codes "Save") save.signature ≡ made m)
    × (types m.params ≡ map (λ p. p.1) save.signature.params)
    × (m.results ≡ save.signature.results)
    × Unique text_dec (codes "s" ∷ names m.params)
build_method-Unique_example = build_method-Unique go_types tally (codes "Save") save.signature refl

-- The entity is the pointer in the middle; the parameter `value` is renamed.
abbrev save_seeder : SeederModel ℕ
save_seeder = record {
  entity = record { index = 1; type_of = 1; pointer = true };
  constructor_params =
      record { name = codes "valueArg"; type_of = 4; variadic = false }
      ∷ record { name = codes "arg" ++ tally 2; type_of = 4; variadic = false }
      ∷ [];
  call_args = codes "valueArg" ∷ codes "&value" ∷ (codes "arg" ++ tally 2) ∷ [];
  body = return_err (codes "_" ∷ codes "err" ∷ []);
}

save_is_seeder : render_seeder go_types tally save ≡ made save_seeder
unfolding render_seeder build_method text_dec
save_is_seeder = refl

render_seeder-IsCallable_example :
    IsCallable go_types tally (map (λ p. p.1) save.signature.params) save_seeder
render_seeder-IsCallable_example =
    render_seeder-IsCallable go_types tally save save_seeder save_is_seeder

-- The count of the strokes behind the first one.
strokes : Text → Option ℤ
strokes [] = none
strokes (c ∷ s) = some (pos (length s))

abbrev pub users_stub : Artifact ℕ
users_stub = record (new_artifact (codes "UsersStub") 3) {
  stub = true;
  stub_fixture = codes "Users";
  collections = 2;
}

users_stub-IsPrintable : IsPrintable strokes tally users_stub
unfolding check_artifact new_artifact strokes tally same
users_stub-IsPrintable = record {
  checked = refl;
  stubs = refl;
  base_clean = refl;
  memdb_clean = refl;
  seeder_clean = refl;
  fixture_clean = refl;
  count_printed = record { read_back = refl; clean = refl; some_digit = refl; no_word = refl };
}

parse-tokens_example :
    parse_artifact strokes users_stub.name users_stub.type_of (join (tokens tally users_stub) b',')
    ≡ made users_stub
parse-tokens_example = parse-tokens strokes tally users_stub users_stub-IsPrintable

-- A fixture, and a stub that names it.
abbrev spec : List (SpecField ℕ)
spec =
    record { name = codes "Users"; type_of = 1; embedded = false; raw = some (codes "fixture") }
    ∷ record {
      name = codes "Finder";
      type_of = 3;
      embedded = false;
      raw = some (codes "errorstub=Users");
    }
    ∷ record { name = codes "note"; type_of = 4; embedded = false; raw = none }
    ∷ []

abbrev spec_artifacts : List (Artifact ℕ)
spec_artifacts =
    record (new_artifact (codes "Users") 1) { fixture = true }
    ∷ record (new_artifact (codes "Finder") 3) { error_stub = true; stub_fixture = codes "Users" }
    ∷ []

spec_loads : load_model go_types strokes (λ es. es) spec ≡ made spec_artifacts
unfolding load_model read_fields read_field read_tag checked_model validate_stubs validate_stub
    fixtures_from validate_stub_fixture validate_artifact validate_fixture parse_artifact
    apply_tokens apply_token apply_trimmed check_artifact new_artifact split trim_space same
    text_dec has store lookup
spec_loads = refl

load_model-fits_example :
    (some_of (λ e. not (fits go_types e)) spec_artifacts ≡ false)
    × (some_of
          (λ e.
            needs_fixture go_types e
            && not (is_some (fixture_artifact go_types spec_artifacts e.stub_fixture)))
          spec_artifacts
        ≡ false)
load_model-fits_example =
    load_model-fits go_types strokes (λ es. es) spec spec_artifacts (λ p es. refl) spec_loads
