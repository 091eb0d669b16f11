-- ===== src/Gen/Loading.antt =====
-- internal/testigogen/model.go, generate.go: what the renderers rely on holds of every accepted
-- specification.
use testigo.Base.{
  Bool, true, false, not, ◌&&◌, ◌||◌, List, [], ◌∷◌, Option, none, some, is_some, some_of, ◌≡◌,
  refl, subst, ◌∙◌, arith, inl, inr, Bool-cases, Option-cases,
}
use testigo.Base.Int.{ℤ}
use testigo.Base.Text.{Text, same, same_refl, is_empty, text_dec}
use testigo.Base.Dict.{store, lookup-store}
use testigo.Gen.Types.{GoTypes, Named, Field}
use testigo.Gen.Methods.{made, ◌>>=◌, >>=-made}
use testigo.Gen.Seeder.{lookup_method}
use testigo.Gen.Tags.{Artifact, parse_artifact}
use testigo.Gen.Model.{
  SpecField, require, validate_fixture, validate_artifact, fixtures_from, validate_stub,
  validate_stubs, tag_of, read_tag, read_field, checked_model, read_fields, load_model,
  fixture_artifact,
}
use mathlib.Core.List.{lookup}

made-injective : {A : Type 0} {a b : A} → made a ≡ made b → a ≡ b
made-injective e = cc

require-true : (b : Bool) (n m : Text) {u : Unit {0}} → require b n m ≡ made u → b ≡ true
require-true true n m h = refl
require-true false n m h = cc

-- A test that fails wherever another one does.
some_of-false :
    {A : Type 0} (p q : A → Bool) (xs : List A)
    → ((x : A) → p x ≡ false → q x ≡ false)
    → some_of p xs ≡ false
    → some_of q xs ≡ false
some_of-false p q [] f h = refl
some_of-false p q (x ∷ xs) f h = ground (arith, f x, some_of-false p q xs f)

module _ {T : Type 0} (g : GoTypes T) where
  -- A fixture is a struct with a name, a double an interface, and a seeder has its method.
  abbrev pub fits : Artifact T → Bool
  fits e =
      (not e.fixture || (is_some (g.named e.type_of) && is_some (g.struct_fields e.type_of)))
      && (not (e.spy || e.stub || e.error_stub) || is_some (g.methods e.type_of))
      && (is_empty e.seeder_method
          || is_some (lookup_method (g.method_set e.type_of) e.seeder_method))

  -- A double that asks for a fixture.
  abbrev pub needs_fixture : Artifact T → Bool
  needs_fixture e = (e.stub || e.error_stub) && not (is_empty e.stub_fixture)

  abbrev is_fixture : Text → Artifact T → Bool
  is_fixture name e = same e.name name && e.fixture

  fixture_fits :
      (e : Artifact T) (n : Option Named) (fields : Option (List (Field T))) {u : Unit {0}}
      → validate_fixture g e n fields ≡ made u
      → (is_some n && is_some fields) ≡ true
  unfolding validate_fixture
  fixture_fits e none fields h = cc
  fixture_fits e (some n) none h = cc
  fixture_fits e (some n) (some fields) h = refl

  validate_artifact-fits :
      (e : Artifact T) {u : Unit {0}} → validate_artifact g e ≡ made u → fits e ≡ true
  unfolding validate_artifact
  validate_artifact-fits e h =
      ground (arith, h, fixture_fits e (g.named e.type_of) (g.struct_fields e.type_of))

  some-fixture_artifact :
      (es : List (Artifact T)) (name : Text)
      → is_some (fixture_artifact g es name) ≡ some_of (is_fixture name) es
  unfolding fixture_artifact
  some-fixture_artifact [] name = refl
  some-fixture_artifact (e ∷ es) name = ground (arith, some-fixture_artifact es name)

  lookup-fixtures_from :
      (m : List (Text × T)) (es : List (Artifact T)) (name : Text)
      → is_some (lookup text_dec name (fixtures_from g m es)) ≡ true
      → (is_some (lookup text_dec name m) || some_of (is_fixture name) es) ≡ true
  unfolding fixtures_from
  lookup-fixtures_from m [] name h = ground (arith, h)
  lookup-fixtures_from m (e ∷ es) name h = elim (Bool-cases (e.fixture)) [
    | inl is ↦
        let rest =
          lookup-fixtures_from (store text_dec e.name e.type_of m) es name
            (ground (arith, is, h)) in
        ground (arith, is, rest, lookup-store text_dec e.name name e.type_of m, same_refl name)
    | inr other ↦ ground (arith, other, lookup-fixtures_from m es name, h)
  ]

  abbrev lacks : List (Text × T) → Artifact T → Bool
  lacks fixtures e = needs_fixture e && not (is_some (lookup text_dec e.stub_fixture fixtures))

  stub_found :
      (fixtures : List (Text × T)) (e : Artifact T) {u : Unit {0}}
      → validate_stub g fixtures e ≡ made u
      → lacks fixtures e ≡ false
  unfolding validate_stub
  stub_found fixtures e h = ground (arith, h)

  stubs_found :
      (fixtures : List (Text × T)) (es : List (Artifact T)) {u : Unit {0}}
      → validate_stubs g fixtures es ≡ made u
      → some_of (lacks fixtures) es ≡ false
  unfolding validate_stubs
  stubs_found fixtures [] h = refl
  stubs_found fixtures (e ∷ es) h =
      ground (arith, h, stub_found fixtures e, stubs_found fixtures es)

  read_tag-fits :
      (atoi : Text → Option ℤ) (f : SpecField T) (raw : Text) (e : Artifact T)
      → read_tag g atoi f raw ≡ made e
      → fits e ≡ true
  unfolding read_tag
  read_tag-fits atoi f raw e h =
      let (e', parsed, h1) =
        >>=-made (parse_artifact atoi f.name f.type_of raw)
          (λ k. validate_artifact g k >>= λ w. made k) h in
      let (w, valid, h2) = >>=-made (validate_artifact g e') (λ u. made e') h1 in
      subst (λ k. fits k ≡ true) (made-injective h2) (validate_artifact-fits e' valid)

  read_field-fits :
      (atoi : Text → Option ℤ) (seen : List Text) (f : SpecField T) (raw : Text) (e : Artifact T)
      → read_field g atoi seen f raw ≡ made e
      → fits e ≡ true
  unfolding read_field
  read_field-fits atoi seen f raw e h = read_tag-fits atoi f raw e (ground (arith, h))

  read_fields-fits :
      (atoi : Text → Option ℤ) (seen : List Text) (fs : List (SpecField T)) (es : List (Artifact T))
      → read_fields g atoi seen fs ≡ made es
      → some_of (λ e. not (fits e)) es ≡ false
  unfolding read_fields
  read_fields-fits atoi seen [] es h = ground (arith, h)
  read_fields-fits atoi seen (f ∷ fs) es h = elim (Option-cases (tag_of g f.raw)) [
    | inl none_ ↦ read_fields-fits atoi seen fs es (ground (arith, none_, h))
    | inr (raw, tag) ↦
        let (e, read, h1) =
          >>=-made (read_field g atoi seen f raw)
            (λ k. read_fields g atoi (f.name ∷ seen) fs >>= λ l. made (k ∷ l)) {b = es}
            (ground (arith, tag, h)) in
        let (rest, reads, h2) =
          >>=-made (read_fields g atoi (f.name ∷ seen) fs) (λ l. made (e ∷ l)) h1 in
        subst (λ l. some_of (λ e. not (fits e)) l ≡ false) (made-injective h2)
          (ground (
            arith,
            read_field-fits atoi seen f raw e read,
            read_fields-fits atoi (f.name ∷ seen) fs rest reads,
          ))
  ]

  -- Sorting keeps the elements.
  abbrev pub KeepsElements : (List (Artifact T) → List (Artifact T)) → Type 0
  KeepsElements sort =
      (p : Artifact T → Bool) (es : List (Artifact T)) → some_of p (sort es) ≡ some_of p es

  abbrev unresolved : List (Artifact T) → Artifact T → Bool
  unresolved es e = needs_fixture e && not (is_some (fixture_artifact g es e.stub_fixture))

  stubs_resolved :
      (sort : List (Artifact T) → List (Artifact T)) (l : List (Artifact T)) {u : Unit {0}}
      → KeepsElements sort
      → validate_stubs g (fixtures_from g [] l) l ≡ made u
      → some_of (unresolved (sort l)) l ≡ false
  unfolding lookup
  stubs_resolved sort l keeps valid =
      some_of-false (lacks (fixtures_from g [] l)) (unresolved (sort l)) l
        (λ e k. ground (
          arith,
          k,
          some-fixture_artifact (sort l) e.stub_fixture,
          keeps (is_fixture e.stub_fixture) l,
          lookup-fixtures_from [] l e.stub_fixture,
        ))
        (stubs_found (fixtures_from g [] l) l valid)

  checked_made :
      (sort : List (Artifact T) → List (Artifact T)) (l es : List (Artifact T))
      → checked_model g sort l ≡ made es
      → (validate_stubs g (fixtures_from g [] l) l ≡ made tt) × (sort l ≡ es)
  unfolding checked_model
  checked_made sort l es h = (ground (arith, h), ground (arith, h))

  -- Where a specification is accepted, the renderers do not fail on what they take for granted: each
  -- fixture has a struct type with a name, each spy and each stub an interface, each seeder the method
  -- that it names, and each stub that names a fixture finds it, if the sort keeps the elements.
  pub load_model-fits :
      (atoi : Text → Option ℤ) (sort : List (Artifact T) → List (Artifact T))
      (fields : List (SpecField T)) (es : List (Artifact T))
      → KeepsElements sort
      → load_model g atoi sort fields ≡ made es
      → (some_of (λ e. not (fits e)) es ≡ false)
        × (some_of (λ e. needs_fixture e && not (is_some (fixture_artifact g es e.stub_fixture))) es
            ≡ false)
  unfolding load_model
  load_model-fits atoi sort fields es keeps h =
      let (l, read, h1) = >>=-made (read_fields g atoi [] fields) (checked_model g sort) h in
      let (valid, sorted) = checked_made sort l es h1 in
      let resolved = stubs_resolved sort l keeps valid in
      subst (λ k. (some_of (λ e. not (fits e)) k ≡ false) × (some_of (unresolved k) k ≡ false))
        sorted
        (
          keeps (λ e. not (fits e)) l ∙ read_fields-fits atoi [] fields l read,
          keeps (unresolved (sort l)) l ∙ resolved,
        )
