-- ===== src/Gen/Serving.antt =====
-- internal/testigogen/stub.go, model.go: what the checks of a specification are for. A stub that they
-- accept gives a value of its fixture somewhere, and an error stub its error.
use testigo.Base.{
  ◌||◌, ℕ, Bool, true, false, not, ◌&&◌, ◌||◌, List, [], ◌∷◌, map, Option, none, some, some_of, ltb,
  ◌≡◌, refl, sym, ap, ◌∙◌, subst, inl, inr, arith, Bool-cases, Option-cases,
}
use testigo.Base.Text.{Text}
use testigo.Gen.Types.{GoTypes, Method}
use testigo.Gen.Methods.{MethodModel, Generated, made, ◌>>=◌, >>=-made, build_method, build_methods}
use testigo.Gen.Naming.{build_method-Unique}
use testigo.Gen.Tags.{Artifact}
use testigo.Gen.Model.{
  good, slice_accepts, some_result, is_error, validate_stub_fixture, validate_error_stub,
}
use testigo.Gen.Stubs.{
  ResultSource, StubMethod, StubModel, stub_result, stub_method, render_stub, fixture_type,
  interface_methods, stub_name, builder_name,
}
use mathlib.Core.Option

some_of-map :
    {A B : Type 0} (p : A → Bool) (q : B → Bool) (f : A → B) (xs : List A)
    → ((x : A) → p x ≡ true → q (f x) ≡ true)
    → some_of p xs ≡ true
    → some_of q (map f xs) ≡ true
some_of-map p q f [] h s = s
some_of-map p q f (x ∷ xs) h s = elim (Bool-cases (p x)) [
  | inl e ↦ ground (arith, h x e)
  | inr e ↦ ground (arith, some_of-map p q f xs h (ground (arith, e, s)))
]

or_absurd : (b : Bool) → (b ≡ false → ⊥) → b ≡ true
or_absurd true h = refl
or_absurd false h = absurd (h refl)

-- Some result of some method of a stub has a source that passes a test.
abbrev pub Serves : {T : Type 0} → (ResultSource → Bool) → StubModel T → Type 0
Serves {T = T} q s = some_of (λ (k : StubMethod T). some_of q k.sources) s.methods ≡ true

-- What a stub is for, and an error stub.
abbrev pub serves_as : Bool → ResultSource → Bool
serves_as true ResultSource.configured_error = true
serves_as false ResultSource.base_value = true
serves_as false (ResultSource.base_values n) = ltb 0 n
serves_as _ _ = false

module _ {T : Type 0} (g : GoTypes T) (decimal : ℕ → Text) where
  built_results :
      (m : Method T) (k : MethodModel T)
      → build_method g decimal m.name m.signature ≡ made k
      → k.results ≡ m.signature.results
  unfolding build_method
  built_results m k h = elim (Bool-cases (ltb 0 m.signature.type_params)) [
    | inl generic ↦ absurd (ground (arith, generic, h))
    | inr plain ↦
        let (made_method, built, same_types, same_results, distinct) =
          build_method-Unique g decimal m.name m.signature plain in
        let same_ : made made_method ≡ made k = sym built ∙ h in
        let equal : made_method ≡ k = cc in sym (ap (λ q. q.results) equal) ∙ same_results
  ]

  -- What passes for some result of the interface does so for some result of what is built.
  built-some_of :
      (p : T → Bool) (ms : List (Method T)) (ks : List (MethodModel T))
      → build_methods g decimal ms ≡ made ks
      → some_of (λ m. some_of p m.signature.results) ms ≡ true
      → some_of (λ k. some_of p k.results) ks ≡ true
  unfolding build_methods
  built-some_of p [] ks h s = absurd (ground (arith, s))
  built-some_of p (m ∷ ms) ks h s = elim (Bool-cases (m.foreign)) [
    | inl foreign ↦ absurd (ground (arith, foreign, h))
    | inr own ↦
        let step : (build_method g decimal m.name m.signature >>= λ built.
        build_methods g decimal ms >>= λ rest. made (built ∷ rest))
            ≡ made ks =
          ground (arith, own, h) in
        let (k, built, more) =
          >>=-made (build_method g decimal m.name m.signature)
            (λ built. build_methods g decimal ms >>= λ rest. made (built ∷ rest)) step in
        let (rest, rest_built, end_) =
          >>=-made (build_methods g decimal ms) (λ rest. made (k ∷ rest)) more in
        let all_ : k ∷ rest ≡ ks = cc in
        let here : some_of p k.results ≡ some_of p m.signature.results =
          ap (some_of p) (built_results m k built) in
        subst (λ l. some_of (λ j. some_of p j.results) l ≡ true) all_
          (elim (Bool-cases (some_of p m.signature.results)) [
            | inl e ↦ ground (arith, here, e)
            | inr e ↦
                ground (arith, here, e, built-some_of p ms rest rest_built (ground (arith, e, s)))
          ])
  ]

  render_stub-Serves :
      (p : T → Bool) (q : ResultSource → Bool) (e : Artifact T) (fixture : Option (Artifact T))
      (error_mode : Bool) (s : StubModel T)
      → ((t : T)
          → p t ≡ true
          → q (stub_result g (fixture_type fixture) e.collections e.found error_mode t) ≡ true)
      → some_result g p (g.methods e.type_of) ≡ true
      → render_stub g decimal e fixture error_mode ≡ made s
      → Serves q s
  unfolding render_stub
  render_stub-Serves p q e fixture error_mode s passes some_ h =
      let made_stub : List (MethodModel T) → StubModel T = λ ks. record {
        name = stub_name e error_mode;
        base = Option.map builder_name fixture;
        methods = map (stub_method g (fixture_type fixture) e.collections e.found error_mode) ks;
      } in
      let (ks, built, end_) =
        >>=-made (build_methods g decimal (interface_methods g e.type_of))
          (λ ks. made (made_stub ks)) h in
      let equal : made_stub ks ≡ s = cc in
      subst (Serves q) equal (
        some_of-map (λ k. some_of p k.results) (λ k. some_of q k.sources)
          (stub_method g (fixture_type fixture) e.collections e.found error_mode) ks
          (λ k.
            some_of-map p q (stub_result g (fixture_type fixture) e.collections e.found error_mode)
              k.results passes)
          (built-some_of p (interface_methods g e.type_of) ks built
            (elim (Option-cases (g.methods e.type_of)) [
              | inl none_ ↦ absurd (ground (arith, none_, some_))
              | inr (ms, e_ms) ↦ ground (arith, e_ms, some_)
            ])))

  -- The check on a stub, with the fixture that it names if it names one.
  abbrev pub validated : Artifact T → Option (Artifact T) → Generated (Unit {0})
  validated e none = validate_error_stub g e
  validated e (some f) = validate_stub_fixture g e f.type_of

  takes : Artifact T → T → T → Bool
  takes e fixture t = g.assignable fixture t || (ltb 0 e.collections && slice_accepts g t fixture)

  takes-serves_as :
      (e f : Artifact T) (t : T)
      → takes e f.type_of t ≡ true
      → serves_as false (stub_result g (some f.type_of) e.collections e.found false t) ≡ true
  unfolding stub_result takes
  takes-serves_as e f t h = ground arith

  error-serves_as :
      (fixture : Option T) (e : Artifact T) (t : T)
      → is_error g t ≡ true
      → serves_as true (stub_result g fixture e.collections e.found true t) ≡ true
  unfolding stub_result
  error-serves_as fixture e t h = ground arith

  -- The checks ask for some result that can be served.
  validated-stub :
      (e f : Artifact T)
      → validate_stub_fixture g e f.type_of ≡ good
      → ((not e.stub || some_result g (takes e f.type_of) (g.methods e.type_of)) ≡ true)
        × ((not e.error_stub || some_result g (is_error g) (g.methods e.type_of)) ≡ true)
  unfolding validate_stub_fixture takes
  validated-stub e f h = (
    or_absurd (not e.stub || some_result g (takes e f.type_of) (g.methods e.type_of))
        (λ fails. ground (arith, h, fails)),
    or_absurd (not e.error_stub || some_result g (is_error g) (g.methods e.type_of))
        (λ fails. ground (arith, h, fails)),
  )

  validated-error_stub :
      (e : Artifact T)
      → validate_error_stub g e ≡ good
      → (e.stub ≡ false) × (some_result g (is_error g) (g.methods e.type_of) ≡ true)
  unfolding validate_error_stub
  validated-error_stub e h = (
    ground (arith, h),
    or_absurd (some_result g (is_error g) (g.methods e.type_of))
        (λ fails. ground (arith, h, fails)),
  )

  -- A stub that the checks accept and that is generated returns a value of its fixture, or a slice of at
  -- least one of these, as some result of some method; an error stub returns its error as some result of
  -- some method, with a fixture and without.
  pub stub-Serves :
      (e : Artifact T) (fixture : Option (Artifact T)) (s : StubModel T)
      → (e.stub || e.error_stub) ≡ true
      → validated e fixture ≡ good
      → render_stub g decimal e fixture e.error_stub ≡ made s
      → Serves (serves_as e.error_stub) s
  stub-Serves e none s some_stub valid h =
      let (no_stub, errs) = validated-error_stub e valid in
      let mode : e.error_stub ≡ true = ground (arith, some_stub, no_stub) in
      subst (λ b. Serves (serves_as b) s) (sym mode)
        (render_stub-Serves (is_error g) (serves_as true) e none true s (error-serves_as none e)
          errs (subst (λ b. render_stub g decimal e none b ≡ made s) mode h))
  stub-Serves e (some f) s some_stub valid h =
      let (taken, errs) = validated-stub e f valid in
      elim (Bool-cases (e.error_stub)) [
        | inl mode ↦
            subst (λ b. Serves (serves_as b) s) (sym mode)
              (render_stub-Serves (is_error g) (serves_as true) e (some f) true s
                (error-serves_as (some f.type_of) e) (ground (arith, errs, mode))
                (subst (λ b. render_stub g decimal e (some f) b ≡ made s) mode h))
        | inr mode ↦
            subst (λ b. Serves (serves_as b) s) (sym mode)
              (render_stub-Serves (takes e f.type_of) (serves_as false) e (some f) false s
                (takes-serves_as e f) (ground (arith, taken, some_stub, mode))
                (subst (λ b. render_stub g decimal e (some f) b ≡ made s) mode h))
      ]
