-- ===== src/Gen/Methods.antt =====
-- internal/testigogen/spy.go, seeder.go, stub.go: the methods that are generated and the names of their
-- parameters. `decimal` stands for the digits that fmt prints of a number.
use testigo.Base.{
  ℕ, suc, ◌+◌, Bool, true, false, not, ◌&&◌, ◌||◌, List, [], ◌∷◌, ◌++◌, Option, none, some, length,
  has, if◌then◌else◌, ltb, ◌≡◌, refl,
}
use testigo.Base.Text.{Text, codes, same, is_empty, text_dec}
use testigo.Base.Fresh.{settle}
use testigo.Gen.Types.{GoTypes, Signature, Method}
use testigo.Gen.Imports.{lower_first}

pub record Parameter (T : Type 0) : Type 0 where
  pub name : Text
  pub type_of : T
  pub variadic : Bool

pub record MethodModel (T : Type 0) : Type 0 where
  pub name : Text
  pub params : List (Parameter T)
  pub results : List T

-- What generation can end with: a result, a refusal with its message, or rounds that are out.
pub data Generated (A : Type 0) : Type 0 where
  made : A → Generated A
  refused : Text → Generated A
  unsettled : Generated A

infixl 5 ◌>>=◌
abbrev pub ◌>>=◌ : {A B : Type 0} → Generated A → (A → Generated B) → Generated B
made a >>= f = f a
refused message >>= f = refused message
unsettled >>= f = unsettled

-- Inversion of a bind that gives a result.
pub >>=-made :
    {A B : Type 0} (m : Generated A) (f : A → Generated B) {b : B}
    → (m >>= f) ≡ made b
    → (a : A) × (m ≡ made a) × (f a ≡ made b)
>>=-made (made a) f h = (a, refl, h)
>>=-made (refused message) f h = cc
>>=-made unsettled f h = cc

abbrev pub settled : {A : Type 0} → Option A → Generated A
settled none = unsettled
settled (some a) = made a

-- A name that is changed until it is unused, by a suffix.
abbrev pub unused_name : Text → List Text → Text → Generated Text
unused_name suffix used name =
    settled (settle (λ n. has text_dec n used) (λ i n. n ++ suffix) (suc (length used)) 0 name)

abbrev pub is_last : {A : Type 0} → List A → Bool
is_last [] = true
is_last (x ∷ xs) = false

module _ {T : Type 0} (g : GoTypes T) (decimal : ℕ → Text) where
  unfoldable pub valid_identifier : Text → Bool
  valid_identifier s = g.is_identifier s && not (g.is_keyword s)

  -- A pointer is named for what it points to.
  abbrev pub pointed : T → T
  pointed t = elim (g.pointer_elem t) [ none ↦ t | some u ↦ u ]

  abbrev pub numbered_name : ℕ → Text
  numbered_name index = codes "arg" ++ decimal index

  unfoldable pub inferred_parameter_name : T → ℕ → Text
  unfolding same lower_first valid_identifier
  inferred_parameter_name value index =
      if same (g.canonical value) (codes "context.Context")
      then codes "ctx"
      else elim (g.named (pointed value)) [
        | none ↦ numbered_name index
        | some n ↦
            let name = lower_first n.name in
            if valid_identifier name then name else numbered_name index
      ]

  -- The name that the loop of `buildMethod` starts from.
  unfoldable pub proposed_name : List Text → ℕ → Text × T → Text
  unfolding inferred_parameter_name valid_identifier has same
  proposed_name used index (name, t) =
      if is_empty name
        || same name (codes "_")
        || not (valid_identifier name)
        || has text_dec name used
      then inferred_parameter_name t index
      else name

  -- The loop of `buildMethod` over the parameters.
  unfoldable pub build_params :
      Bool → ℕ → List Text → List (Text × T) → Generated (List (Parameter T))
  unfolding proposed_name settle has
  build_params variadic index used [] = made []
  build_params variadic index used ((given, t) ∷ ps) =
      unused_name (codes "Value") used (proposed_name used index (given, t)) >>= λ name.
      build_params variadic (index + 1) (name ∷ used) ps >>= λ rest.
      made (record { name = name; type_of = t; variadic = variadic && is_last ps } ∷ rest)

  unfoldable pub build_method : Text → Signature T → Generated (MethodModel T)
  unfolding build_params
  build_method name signature =
      if ltb 0 signature.type_params
      then refused (codes "generic methods are not supported")
      else build_params signature.variadic 0 (codes "s" ∷ []) signature.params >>= λ params.
          made (record { name = name; params = params; results = signature.results })

  -- The loop of `renderSpy` and `renderStub` over the methods of an interface.
  unfoldable pub build_methods : List (Method T) → Generated (List (MethodModel T))
  unfolding build_method
  build_methods [] = made []
  build_methods (m ∷ ms) =
      if m.foreign
      then refused (codes "cannot implement unexported method " ++ m.name)
      else build_method m.name m.signature >>= λ built.
          build_methods ms >>= λ rest. made (built ∷ rest)
