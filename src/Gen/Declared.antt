-- ===== src/Gen/Declared.antt =====
-- internal/testigogen/generate.go: no function of the generated file is declared twice for a type.
use testigo.Base.{
  true, false, not, ◌&&◌, List, [], ◌∷◌, some, has, Unique, All, ◌≡◌, ◌≢◌, sym, ap, ◌∙◌, subst, inl,
  inr, arith, Bool-cases,
}
use testigo.Base.Text.{Text, same, same→eq, text_dec}
use testigo.Base.Dict.{store, lookup-store}
use testigo.Gen.Types.{GoTypes}
use testigo.Gen.Methods.{made}
use testigo.Gen.Tags.{Artifact}
use testigo.Gen.RandomFuncs.{random_name, collides, prepare_from, prepare, random_functions}
use mathlib.Core.List.{lookup}

-- Each type's function leads back to the type.
LeadsBack : List (Text × Text) → List (Text × Text) → Type 0
LeadsBack names funcs =
    (k f : Text) → lookup text_dec k funcs ≡ some f → lookup text_dec f names ≡ some k

stored_here :
    (k v : Text) (m : List (Text × Text)) → lookup text_dec k (store text_dec k v m) ≡ some v
stored_here k v m = ground (arith, lookup-store text_dec k k v m)

stored_other :
    (k j v : Text) (m : List (Text × Text))
    → j ≢ k
    → lookup text_dec j (store text_dec k v m) ≡ lookup text_dec j m
stored_other k j v m other = ground (arith, lookup-store text_dec k j v m, other)

agrees :
    (function key k : Text) (names : List (Text × Text))
    → collides (lookup text_dec function names) key ≡ false
    → lookup text_dec function names ≡ some k
    → k ≡ key
agrees function key k names free at = same→eq k key (ground (arith, free, at))

store-LeadsBack :
    (names funcs : List (Text × Text)) (function key : Text)
    → LeadsBack names funcs
    → collides (lookup text_dec function names) key ≡ false
    → LeadsBack (store text_dec function key names) (store text_dec key function funcs)
unfolding LeadsBack same
store-LeadsBack names funcs function key back free k f h = elim (text_dec k key) [
  | yes here ↦
      let found : lookup text_dec k (store text_dec key function funcs) ≡ some function =
        ap (λ j. lookup text_dec j (store text_dec key function funcs)) here
        ∙ stored_here key function funcs in
      let same_function : some f ≡ some function = sym h ∙ found in
      let same_ : f ≡ function = cc in
      ap (λ j. lookup text_dec j (store text_dec function key names)) same_
      ∙ stored_here function key names
      ∙ ap some (sym here)
  | no other ↦
      let old : lookup text_dec k funcs ≡ some f =
        sym (stored_other key k function funcs other) ∙ h in
      let led : lookup text_dec f names ≡ some k = back k f old in
      elim (text_dec f function) [
        | yes again ↦ absurd (
            other (
              agrees function key k names free
                (ap (λ j. lookup text_dec j names) (sym again) ∙ led)))
        | no f_other ↦ stored_other function f key names f_other ∙ led
      ]
]

-- Two types have two functions.
abbrev pub IsInjective : List (Text × Text) → Type 0
IsInjective funcs =
    (j k f : Text) → lookup text_dec j funcs ≡ some f → lookup text_dec k funcs ≡ some f → j ≡ k

LeadsBack-IsInjective :
    (names funcs : List (Text × Text)) → LeadsBack names funcs → IsInjective funcs
unfolding LeadsBack
LeadsBack-IsInjective names funcs back j k f at_j at_k =
    let led : some j ≡ some k = sym (back j f at_j) ∙ back k f at_k in cc

module _ {T : Type 0} (g : GoTypes T) where
  abbrev pub key_of : Artifact T → Text
  key_of e = g.canonical e.type_of

  -- A type that has a function keeps one.
  abbrev pub Known : List (Text × Text) → Text → Type 0
  Known funcs key = (f : Text) × (lookup text_dec key funcs ≡ some f)

  store-Known :
      (key function k : Text) (funcs : List (Text × Text))
      → Known funcs k
      → Known (store text_dec key function funcs) k
  store-Known key function k funcs (f, at) = elim (text_dec k key) [
    | yes here ↦ (
      function,
      ap (λ j. lookup text_dec j (store text_dec key function funcs)) here
          ∙ stored_here key function funcs,
    )
    | no other ↦ (f, stored_other key k function funcs other ∙ at)
  ]

  -- What `prepare` leaves: no two types have the same function, those that had one have one, and the
  -- fixtures have.
  record Prepared (funcs after : List (Text × Text)) (es : List (Artifact T)) : Type 0 where
    injective : IsInjective after
    keeps : (k : Text) → Known funcs k → Known after k
    fixtures : All (λ e. e.fixture ≡ true → Known after (key_of e)) es

  prepare_from-Prepared :
      (names funcs after : List (Text × Text)) (es : List (Artifact T))
      → LeadsBack names funcs
      → prepare_from g names funcs es ≡ made after
      → Prepared funcs after es
  unfolding prepare_from
  prepare_from-Prepared names funcs after [] back h =
      let same_ : funcs ≡ after = cc in
      subst (λ a. Prepared funcs a []) same_
        (record {
          injective = LeadsBack-IsInjective names funcs back;
          keeps = λ k known. known;
          fixtures = tt;
        })
  prepare_from-Prepared names funcs after (e ∷ es) back h =
      let function = random_name g e.type_of in
      elim (Bool-cases (e.fixture)) [
        | inr plain ↦
            let rest = prepare_from-Prepared names funcs after es back (ground (arith, plain, h)) in
            record {
              injective = rest.injective;
              keeps = rest.keeps;
              fixtures = ((λ is. absurd (ground (arith, plain, is))), rest.fixtures);
            }
        | inl fixture ↦ elim (Bool-cases (collides (lookup text_dec function names) (key_of e))) [
          | inl collision ↦ absurd (ground (arith, fixture, collision, h))
          | inr free ↦
              let rest =
                prepare_from-Prepared (store text_dec function (key_of e) names)
                  (store text_dec (key_of e) function funcs) after es
                  (store-LeadsBack names funcs function (key_of e) back free)
                  (ground (arith, fixture, free, h)) in
              record {
                injective = rest.injective;
                keeps = λ k known. rest.keeps k (store-Known (key_of e) function k funcs known);
                fixtures = (
                  (λ is. rest.keeps (key_of e) (function, stored_here (key_of e) function funcs)),
                  rest.fixtures,
                );
              }
        ]
      ]

  -- A function of the list is that of a type that was not rendered before.
  OfUnrendered : List (Text × Text) → List Text → List Text → Type 0
  OfUnrendered funcs rendered fs =
      (f : Text)
      → has text_dec f fs ≡ true
      → (k : Text) × (has text_dec k rendered ≡ false) × (lookup text_dec k funcs ≡ some f)

  render_next :
      (funcs : List (Text × Text)) (rendered fs : List Text) (key f : Text)
      → IsInjective funcs
      → lookup text_dec key funcs ≡ some f
      → has text_dec key rendered ≡ false
      → OfUnrendered funcs (key ∷ rendered) fs
      → Unique text_dec fs
      → OfUnrendered funcs rendered (f ∷ fs) × Unique text_dec (f ∷ fs)
  unfolding OfUnrendered has
  render_next funcs rendered fs key f injective at fresh rest distinct = (
    (λ h is_in. elim (text_dec h f) [
      | yes first ↦ (key, fresh, at ∙ ap some (sym first))
      | no later ↦
          let (k, out, k_at) = rest h (ground (arith, is_in, later)) in
          (k, ground (arith, out), k_at)
    ]),
    (
      elim (Bool-cases (has text_dec f fs)) [
        | inr absent ↦ absent
        | inl present ↦
            let (k, out, k_at) = rest f present in
            let same_ : k ≡ key = injective k key f k_at at in absurd (ground (arith, out, same_))
      ],
      distinct,
    ),
  )

  random_functions-Unique :
      (funcs : List (Text × Text)) (rendered : List Text) (es : List (Artifact T))
      → IsInjective funcs
      → All (λ e. e.fixture ≡ true → Known funcs (key_of e)) es
      → OfUnrendered funcs rendered (random_functions g funcs rendered es)
        × Unique text_dec (random_functions g funcs rendered es)
  unfolding random_functions OfUnrendered has
  random_functions-Unique funcs rendered [] injective known =
      ((λ f h. absurd (ground (arith, h))), tt)
  random_functions-Unique funcs rendered (e ∷ es) injective known =
      elim (Bool-cases (e.fixture && not (has text_dec (key_of e) rendered))) [
        | inr out ↦
            rw (random_functions, out) (random_functions-Unique funcs rendered es injective known.1)
        | inl fresh ↦
            let (f, at) = known.0 (ground (arith, fresh)) in
            let (rest, distinct) =
              random_functions-Unique funcs (key_of e ∷ rendered) es injective known.1 in
            rw (random_functions, fresh, at)
              (render_next funcs rendered (random_functions g funcs (key_of e ∷ rendered) es)
                (key_of e) f injective at (ground (arith, fresh)) rest distinct)
      ]

  -- Where `prepare` does not refuse a specification, the functions of random values that are generated
  -- have distinct names, and the type of each fixture has a function.
  pub prepare-Unique :
      (es : List (Artifact T)) (funcs : List (Text × Text))
      → prepare g es ≡ made funcs
      → Unique text_dec (random_functions g funcs [] es)
        × All (λ e. e.fixture ≡ true → Known funcs (key_of e)) es
  unfolding prepare LeadsBack
  prepare-Unique es funcs h =
      let prepared =
        prepare_from-Prepared [] [] funcs es (λ k f at. absurd (ground (arith, at))) h in
      (
        (random_functions-Unique funcs [] es prepared.injective prepared.fixtures).1,
        prepared.fixtures,
      )
