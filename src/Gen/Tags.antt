-- ===== src/Gen/Tags.antt =====
-- internal/testigogen/model.go: what a tag of a field of the specification asks for. `atoi` stands for
-- strconv.Atoi, none for its error. White space is that of ASCII.
use testigo.Base.{
  ℕ, Bool, true, false, not, ◌&&◌, ◌||◌, List, [], ◌∷◌, ◌++◌, Option, some, if◌then◌else◌, ltb,
}
use testigo.Base.Int.{ℤ, pos}
use testigo.Base.Text.{Text, codes, same, is_empty, split}
use testigo.Base.Trim.{trim_space, cut}
use testigo.Gen.Methods.{Generated, made, refused, ◌>>=◌}

pub record Artifact (T : Type 0) : Type 0 where
  pub name : Text
  pub type_of : T
  pub fixture : Bool
  pub base_func : Text
  pub memdb_key : Text
  pub spy : Bool
  pub seeder_method : Text
  pub stub : Bool
  pub error_stub : Bool
  pub stub_fixture : Text
  pub collections : ℕ
  pub found : Bool

-- The message of an error.
abbrev pub says : {T : Type 0} → Text → Generated (Artifact T)
says message = refused (codes "testigo-gen: " ++ message)

unfoldable pub new_artifact : {T : Type 0} → Text → T → Artifact T
new_artifact name t = record {
  name = name;
  type_of = t;
  fixture = false;
  base_func = [];
  memdb_key = [];
  spy = false;
  seeder_method = [];
  stub = false;
  error_stub = false;
  stub_fixture = [];
  collections = 0;
  found = false;
}

module _ {T : Type 0} (atoi : Text → Option ℤ) where
  abbrev pub with_count : Artifact T → Text → Option ℤ → Generated (Artifact T)
  with_count entry value (some (pos n)) = made (record entry { collections = n })
  with_count entry value _ =
      says (codes "collections must be one or a non-negative count, got " ++ value)

  -- A case of the switch: the option `key` with its value, if it has one.
  unfoldable pub apply_option : Artifact T → Text → Text → Bool → Generated (Artifact T)
  unfolding same
  apply_option entry key value has_value =
      if same key (codes "fixture")
      then made (record entry { fixture = true })
      else if same key (codes "spy")
      then made (record entry { spy = true })
      else if same key (codes "stub")
      then if not has_value || is_empty value
        then says (key ++ codes " requires a fixture name")
        else made (record entry { stub_fixture = value; stub = true })
      else if same key (codes "errorstub")
      then if has_value && is_empty value
        then says (codes "errorstub fixture name cannot be empty")
        else made (record entry { stub_fixture = value; error_stub = true })
      else if same key (codes "collections")
      then if not has_value || is_empty value
        then says (codes "collections requires one or a non-negative count")
        else if same value (codes "one")
        then made (record entry { collections = 1 })
        else with_count entry value (atoi value)
      else if same key (codes "found")
      then if not has_value || not (same value (codes "true"))
        then says (codes "found only accepts true")
        else made (record entry { found = true })
      else if same key (codes "base") || same key (codes "default")
      then if not has_value || is_empty value
        then says (key ++ codes " requires a function name")
        else made (record entry { base_func = value })
      else if same key (codes "memdb")
      then if not has_value || is_empty value
        then says (codes "memdb requires a key field")
        else made (record entry { memdb_key = value })
      else if same key (codes "seeder")
      then if not has_value || is_empty value
        then says (codes "seeder requires a repository method")
        else made (record entry { seeder_method = value })
      else says (entry.name ++ codes ": unknown tag option " ++ key)

  -- A token without the white space around it.
  unfoldable pub apply_trimmed : Artifact T → Text → Generated (Artifact T)
  unfolding cut apply_option
  apply_trimmed entry token =
      let (key, value, has_value) = cut token b'=' in
      if is_empty token then made entry else apply_option entry key value has_value

  unfoldable pub apply_token : Artifact T → Text → Generated (Artifact T)
  apply_token entry raw = apply_trimmed entry (trim_space raw)

  -- The loop of `parseArtifact`.
  unfoldable pub apply_tokens : List Text → Artifact T → Generated (Artifact T)
  apply_tokens [] entry = made entry
  apply_tokens (t ∷ ts) entry = apply_token entry t >>= λ entry'. apply_tokens ts entry'

  -- The checks behind the loop.
  unfoldable pub check_artifact : Artifact T → Generated (Artifact T)
  check_artifact e =
      if not e.fixture && not e.spy && not e.stub && not e.error_stub && is_empty e.seeder_method
      then says (e.name ++ codes ": tag must request fixture, spy, errorstub, or seeder")
      else if e.stub && e.error_stub
      then says (e.name ++ codes ": stub and errorstub are mutually exclusive")
      else if (ltb 0 e.collections || e.found) && not e.stub && not e.error_stub
      then says (e.name ++ codes ": collections and found require stub or errorstub")
      else if ltb 0 e.collections && is_empty e.stub_fixture
      then says (e.name ++ codes ": collections requires a fixture")
      else if (not (is_empty e.base_func) || not (is_empty e.memdb_key)) && not e.fixture
      then says (e.name ++ codes ": base/default and memdb require fixture")
      else made e

  unfoldable pub parse_artifact : Text → T → Text → Generated (Artifact T)
  parse_artifact name t raw =
      apply_tokens (split raw b',') (new_artifact name t) >>= λ entry. check_artifact entry
