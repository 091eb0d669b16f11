-- ===== src/Gen/Stubs.antt =====
-- internal/testigogen/stub.go, spy.go: the stubs and the spies that are generated. The text of a method
-- is left out: a stub is what each of its results is made from, a spy what each of its calls passes on.
use testigo.Base.{
  ℕ, Bool, true, false, ◌&&◌, List, [], ◌∷◌, ◌++◌, map, Option, none, some, if◌then◌else◌, ltb,
}
use testigo.Base.Text.{Text, codes}
use testigo.Gen.Types.{GoTypes, Method}
use testigo.Gen.Imports.{lower_first}
use testigo.Gen.Methods.{Parameter, MethodModel, Generated, made, ◌>>=◌, build_methods}
use testigo.Gen.Tags.{Artifact}
use testigo.Gen.Model.{slice_accepts, is_bool}
use mathlib.Core.Option

-- What `renderStubMethod` makes a result from: the error of the stub, a value of its builder, a slice
-- of some of these, true, or the zero value.
pub data ResultSource : Type 0 where
  configured_error : ResultSource
  base_value : ResultSource
  base_values : ℕ → ResultSource
  found_true : ResultSource
  zero_value : ResultSource

-- A method of a stub with the sources of its results.
pub record StubMethod (T : Type 0) : Type 0 where
  pub method : MethodModel T
  pub sources : List ResultSource

-- `base` is the type of its builder, if it has one.
pub record StubModel (T : Type 0) : Type 0 where
  pub name : Text
  pub base : Option Text
  pub methods : List (StubMethod T)

-- What a method of a spy passes to Call, and to the method that it wraps.
pub record SpyMethod (T : Type 0) : Type 0 where
  pub method : MethodModel T
  pub recorded : Text
  pub forwarded : Text

pub record SpyModel (T : Type 0) : Type 0 where
  pub field_name : Text
  pub type_name : Text
  pub interface_type : T
  pub methods : List (SpyMethod T)

-- `joinComma`, and `strings.Join` with the same separator.
unfoldable pub join_comma : List Text → Text
join_comma [] = []
join_comma (p ∷ []) = p
join_comma (p ∷ q ∷ ps) = p ++ codes ", " ++ join_comma (q ∷ ps)

unfoldable pub parameter_names : {T : Type 0} → List (Parameter T) → Bool → Text
unfolding join_comma
parameter_names params expand_variadic =
    join_comma
      (map (λ p. if expand_variadic && p.variadic then p.name ++ codes "..." else p.name) params)

abbrev pub spy_method : {T : Type 0} → MethodModel T → SpyMethod T
spy_method m = record {
  method = m;
  recorded = parameter_names m.params false;
  forwarded = parameter_names m.params true;
}

abbrev pub stub_name : {T : Type 0} → Artifact T → Bool → Text
stub_name e error_mode = e.name ++ (if error_mode then codes "ErrorStub" else codes "Stub")

abbrev pub builder_name : {T : Type 0} → Artifact T → Text
builder_name fixture = lower_first fixture.name ++ codes "Builder"

-- Whether a fixture's type passes a test; without a fixture it does not.
abbrev pub of_fixture : {T : Type 0} → Option T → (T → Bool) → Bool
of_fixture none p = false
of_fixture (some t) p = p t

abbrev pub fixture_type : {T : Type 0} → Option (Artifact T) → Option T
fixture_type none = none
fixture_type (some f) = some f.type_of

module _ {T : Type 0} (g : GoTypes T) where
  -- The methods of an interface; a type that is none has been refused before.
  abbrev pub interface_methods : T → List (Method T)
  interface_methods t = Option.get_or (g.methods t) []

  -- The branch that the loop of `renderStubMethod` takes for a result.
  unfoldable pub stub_result : Option T → ℕ → Bool → Bool → T → ResultSource
  unfolding slice_accepts
  stub_result fixture collections found error_mode result =
      if error_mode && g.identical result g.error_type
      then configured_error
      else if of_fixture fixture (λ t. g.assignable t result)
      then base_value
      else if ltb 0 collections && of_fixture fixture (λ t. slice_accepts g result t)
      then base_values collections
      else if found && is_bool g result
      then found_true
      else zero_value

  abbrev pub stub_method : Option T → ℕ → Bool → Bool → MethodModel T → StubMethod T
  stub_method fixture collections found error_mode m = record {
    method = m;
    sources = map (stub_result fixture collections found error_mode) m.results;
  }

module _ {T : Type 0} (g : GoTypes T) (decimal : ℕ → Text) where
  unfoldable pub render_spy : Artifact T → Generated (SpyModel T)
  unfolding build_methods parameter_names
  render_spy e = build_methods g decimal (interface_methods g e.type_of) >>= λ methods.
      made (record {
        field_name = e.name;
        type_name = e.name ++ codes "Spy";
        interface_type = e.type_of;
        methods = map spy_method methods;
      })

  unfoldable pub render_stub : Artifact T → Option (Artifact T) → Bool → Generated (StubModel T)
  unfolding build_methods stub_result lower_first
  render_stub e fixture error_mode =
      build_methods g decimal (interface_methods g e.type_of) >>= λ methods. made (record {
        name = stub_name e error_mode;
        base = Option.map builder_name fixture;
        methods =
            map (stub_method g (fixture_type fixture) e.collections e.found error_mode) methods;
      })
