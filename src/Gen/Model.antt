-- ===== src/Gen/Model.antt =====
-- internal/testigogen/model.go: what of a specification is accepted. A package is what GoTypes tells of
-- it; loading it is left to go/packages.
use testigo.Base.{
  Bool, true, false, not, ◌&&◌, ◌||◌, List, [], ◌∷◌, ◌++◌, Option, none, some, has, if◌then◌else◌,
  ltb, is_some, some_of,
}
use testigo.Base.Int.{ℤ}
use testigo.Base.Text.{Text, codes, same, is_empty, text_dec}
use testigo.Base.Dict.{store}
use testigo.Base.Trim.{trim_space}
use testigo.Gen.Types.{BasicKind, GoTypes, Method, Named, Field}
use testigo.Gen.Methods.{Generated, made, refused, ◌>>=◌}
use testigo.Gen.Seeder.{lookup_method}
use testigo.Gen.Tags.{Artifact, parse_artifact}
use mathlib.Core.List.{lookup}

-- A field of the specification: `raw` is its tag, if it has one of this name.
pub record SpecField (T : Type 0) : Type 0 where
  pub name : Text
  pub type_of : T
  pub embedded : Bool
  pub raw : Option Text

-- A check that says nothing, or why it fails.
abbrev pub Checked : Type 0
Checked = Generated (Unit {0})

abbrev pub good : Checked
good = made tt

abbrev pub complains : Text → Text → Checked
complains name message = refused (codes "testigo-gen: " ++ name ++ codes ": " ++ message)

abbrev pub require : Bool → Text → Text → Checked
require true name message = good
require false name message = complains name message

module _ {T : Type 0} (g : GoTypes T) where
  unfoldable pub find_field : List (Field T) → Text → Option (Field T)
  unfolding same
  find_field [] name = none
  find_field (f ∷ fs) name =
      let rest = find_field fs name in if same f.name name then some f else rest

  unfoldable pub slice_accepts : T → T → Bool
  slice_accepts result element = elim (g.slice_elem result) [
    | none ↦ false
    | some e ↦ g.assignable element e
  ]

  abbrev pub is_bool_kind : Option BasicKind → Bool
  is_bool_kind (some BasicKind.bool) = true
  is_bool_kind _ = false

  abbrev pub is_bool : T → Bool
  is_bool t = is_bool_kind (g.basic t)

  abbrev pub returns_only : List T → T → Bool
  returns_only (t ∷ []) want = g.identical t want
  returns_only _ want = false

  abbrev pub no_params : List (Text × T) → Bool
  no_params [] = true
  no_params (p ∷ ps) = false

  unfoldable pub validate_base_func : Text → Text → T → Checked
  validate_base_func artifact name want = elim (g.package_func name) [
    | none ↦ complains artifact (codes "default " ++ name ++ codes " must name a package function")
    | some f ↦
        require (no_params f.params && returns_only f.results want) artifact
          (codes "default " ++ name ++ codes " must have signature func()")
  ]

  abbrev pub validate_key : Text → Text → Option (Field T) → Checked
  validate_key artifact key none =
      complains artifact (codes "memdb key field " ++ key ++ codes " not found")
  validate_key artifact key (some f) =
      require (g.comparable f.type_of) artifact
        (codes "memdb key field " ++ key ++ codes " is not comparable")

  -- The part for a fixture, of a type that is named or not and has fields if it is a struct.
  unfoldable pub validate_fixture : Artifact T → Option Named → Option (List (Field T)) → Checked
  unfolding validate_base_func find_field
  validate_fixture e (some n) (some fields) =
      if ltb 0 n.type_args
      then complains e.name (codes "generic fixture types are not supported yet")
      else (if is_empty e.base_func then good else validate_base_func e.name e.base_func e.type_of)
        >>= λ u.
            if is_empty e.memdb_key
            then good
            else validate_key e.name e.memdb_key (find_field fields e.memdb_key)
  validate_fixture e _ _ = complains e.name (codes "fixture requires a named struct")

  unfoldable pub validate_artifact : Artifact T → Checked
  validate_artifact e =
      (if e.fixture
        then validate_fixture e (g.named e.type_of) (g.struct_fields e.type_of)
        else good)
      >>= λ u.
          require (not e.spy || is_some (g.methods e.type_of)) e.name
            (codes "spy requires an interface; concrete types cannot be substituted")
          >>= λ v.
              require (not (e.stub || e.error_stub) || is_some (g.methods e.type_of)) e.name
                (codes "stub requires an interface")
              >>= λ w.
                  require
                    (is_empty e.seeder_method
                      || is_some (lookup_method (g.method_set e.type_of) e.seeder_method))
                    e.name (codes "repository method not found")

  -- Whether some result of a method of an interface passes a test.
  abbrev pub some_result : (T → Bool) → Option (List (Method T)) → Bool
  some_result p none = false
  some_result p (some ms) = some_of (λ m. some_of p m.signature.results) ms

  abbrev pub is_error : T → Bool
  is_error t = g.identical t g.error_type

  unfoldable pub validate_stub_fixture : Artifact T → T → Checked
  unfolding slice_accepts
  validate_stub_fixture e fixture =
      let ms = g.methods e.type_of in
      let takes =
        λ (t : T). g.assignable fixture t || (ltb 0 e.collections && slice_accepts t fixture) in
      require (is_some (g.named fixture) && is_some (g.struct_fields fixture)) e.name
        (codes "stub fixture must be a named struct")
      >>= λ u.
          require (not e.stub || some_result takes ms) e.name
            (codes "stub fixture is not returned by any interface method")
          >>= λ v.
              require (not e.error_stub || some_result is_error ms) e.name
                (codes "errorstub interface must return error")
              >>= λ w.
                  require (not e.found || some_result is_bool ms) e.name
                    (codes "found=true requires a bool result")

  unfoldable pub validate_error_stub : Artifact T → Checked
  validate_error_stub e =
      let ms = g.methods e.type_of in
      require (not e.stub) e.name (codes "stub requires a fixture") >>= λ u.
      require (not e.found || some_result is_bool ms) e.name
        (codes "found=true requires a bool result")
      >>= λ v.
          require (some_result is_error ms) e.name (codes "errorstub interface must return error")

  -- `fixtures`: the types of the fixtures by name.
  unfoldable pub fixtures_from : List (Text × T) → List (Artifact T) → List (Text × T)
  fixtures_from m [] = m
  fixtures_from m (e ∷ es) =
      fixtures_from (if e.fixture then store text_dec e.name e.type_of m else m) es

  -- A round of the loop over the artifacts with their fixtures.
  unfoldable pub validate_stub : List (Text × T) → Artifact T → Checked
  validate_stub fixtures e =
      if not e.stub && not e.error_stub
      then good
      else if is_empty e.stub_fixture
      then validate_error_stub e
      else elim (lookup text_dec e.stub_fixture fixtures) [
        | none ↦ complains e.name (codes "fixture " ++ e.stub_fixture ++ codes " not found")
        | some t ↦ validate_stub_fixture e t
      ]

  unfoldable pub validate_stubs : List (Text × T) → List (Artifact T) → Checked
  validate_stubs fixtures [] = good
  validate_stubs fixtures (e ∷ es) = validate_stub fixtures e >>= λ u. validate_stubs fixtures es

  -- A field without a tag, or with an empty one or "-", is passed over.
  abbrev pub tag_of : Option Text → Option Text
  tag_of none = none
  tag_of (some raw) = if is_empty (trim_space raw) || same raw (codes "-") then none else some raw

  -- The artifact of a tag.
  unfoldable pub read_tag : (Text → Option ℤ) → SpecField T → Text → Generated (Artifact T)
  read_tag atoi f raw =
      parse_artifact atoi f.name f.type_of raw >>= λ e. validate_artifact e >>= λ w. made e

  -- A field with a tag, whose name may have been seen.
  unfoldable pub read_field :
      (Text → Option ℤ) → List Text → SpecField T → Text → Generated (Artifact T)
  unfolding has
  read_field atoi seen f raw = require (not f.embedded) f.name (codes "must be named") >>= λ u.
      require (not (has text_dec f.name seen)) f.name (codes "duplicate artifact name") >>= λ v.
      read_tag atoi f raw

  -- The loop over the fields of the specification, with the names seen.
  unfoldable pub read_fields :
      (Text → Option ℤ) → List Text → List (SpecField T) → Generated (List (Artifact T))
  read_fields atoi seen [] = made []
  read_fields atoi seen (f ∷ fs) = elim (tag_of f.raw) [
    | none ↦ read_fields atoi seen fs
    | some raw ↦ read_field atoi seen f raw >>= λ e.
        read_fields atoi (f.name ∷ seen) fs >>= λ es. made (e ∷ es)
  ]

  abbrev pub some_artifact : List (Artifact T) → Bool
  some_artifact [] = false
  some_artifact (e ∷ es) = true

  -- The checks on the artifacts together, and their order; `sort` stands for sort.Slice by name.
  unfoldable pub checked_model :
      (List (Artifact T) → List (Artifact T)) → List (Artifact T) → Generated (List (Artifact T))
  checked_model sort es =
      require (some_artifact es) (codes "specification") (codes "has no tags") >>= λ u.
      validate_stubs (fixtures_from [] es) es >>= λ v. made (sort es)

  -- `loadModel` behind the loading.
  unfoldable pub load_model :
      (Text → Option ℤ)
      → (List (Artifact T) → List (Artifact T))
      → List (SpecField T)
      → Generated (List (Artifact T))
  load_model atoi sort fields = read_fields atoi [] fields >>= λ es. checked_model sort es

  -- `fixtureArtifact`
  unfoldable pub fixture_artifact : List (Artifact T) → Text → Option (Artifact T)
  unfolding same
  fixture_artifact [] name = none
  fixture_artifact (e ∷ es) name =
      let rest = fixture_artifact es name in if same e.name name && e.fixture then some e else rest
