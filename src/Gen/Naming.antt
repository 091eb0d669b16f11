-- ===== src/Gen/Naming.antt =====
-- internal/testigogen/spy.go: the names of the parameters of a generated method.
use testigo.Base.{
  ℕ, suc, ◌+◌, ◌<◌, Bool, true, false, ◌&&◌, List, [], ◌∷◌, ◌++◌, map, length, length-append, has,
  Unique, All, All-map, ltb, ◌≡◌, refl, ap, arith,
}
use testigo.Base.Text.{Text, codes, text_dec}
use testigo.Base.Fresh.{settle-unused, settle-some, tried-Unique}
use testigo.Gen.Types.{GoTypes, Signature}
use testigo.Gen.Methods.{
  Parameter, MethodModel, made, unused_name, proposed_name, is_last, build_params, build_method,
}

-- The rounds are enough, and the name is unused.
pub unused_name_lem :
    (suffix : Text) (used : List Text) (name : Text)
    → 0 < length suffix
    → (n : Text) × (unused_name suffix used name ≡ made n) × (has text_dec n used ≡ false)
unused_name_lem suffix used name long =
    let is_used : Text → Bool = λ n. has text_dec n used in
    let next : ℕ → Text → Text = λ i n. n ++ suffix in
    let (n, found) =
      settle-some text_dec is_used next used (suc (length used)) 0 name
        (tried-Unique text_dec is_used next (λ n. length n)
          (λ i n. omega (arith, length-append n suffix)) (suc (length used)) 0 name)
        (λ x h. h) (omega arith) in
    (n, rw found refl, settle-unused is_used next (suc (length used)) 0 name found)

abbrev pub names : {T : Type 0} → List (Parameter T) → List Text
names ps = map (λ p. p.name) ps

abbrev pub types : {T : Type 0} → List (Parameter T) → List T
types ps = map (λ p. p.type_of) ps

pub tail_unused :
    (a b : Text) (used : List Text)
    → has text_dec b (a ∷ used) ≡ false
    → has text_dec b used ≡ false
unfolding has
tail_unused a b used h = ground (arith, h)

pub not_among :
    (a : Text) (used ns : List Text)
    → All (λ n. has text_dec n (a ∷ used) ≡ false) ns
    → has text_dec a ns ≡ false
unfolding has
not_among a used [] h = refl
not_among a used (n ∷ ns) h = ground (arith, h.0, not_among a used ns h.1)

module _ {T : Type 0} (g : GoTypes T) (decimal : ℕ → Text) where
  build_params_lem :
      (variadic : Bool) (index : ℕ) (used : List Text) (ps : List (Text × T))
      → (qs : List (Parameter T)) × (build_params g decimal variadic index used ps ≡ made qs)
        × (types qs ≡ map (λ p. p.1) ps)
        × Unique text_dec (names qs)
        × All (λ n. has text_dec n used ≡ false) (names qs)
  unfolding build_params
  build_params_lem variadic index used [] = ([], refl, refl, tt, tt)
  build_params_lem variadic index used ((given, t) ∷ ps) =
      let (name, settled_, free) =
        unused_name_lem (codes "Value") used (proposed_name g decimal used index (given, t))
          (omega arith) in
      let (qs, built, same_types, distinct, away) =
        build_params_lem variadic (index + 1) (name ∷ used) ps in
      (
        record { name = name; type_of = t; variadic = variadic && is_last ps } ∷ qs,
        rw (settled_, built) refl,
        ap (λ ts. t ∷ ts) same_types,
        (not_among name used (names qs) away, distinct),
        (free, All-map _ _ (names qs) (λ n. tail_unused name n used) away),
      )

  -- A method without type parameters is always built, its parameters in their order and with their
  -- types, under names that are distinct and none of which is that of the receiver, s.
  pub build_method-Unique :
      (name : Text) (signature : Signature T)
      → ltb 0 signature.type_params ≡ false
      → (m : MethodModel T) × (build_method g decimal name signature ≡ made m)
        × (types m.params ≡ map (λ p. p.1) signature.params)
        × (m.results ≡ signature.results)
        × Unique text_dec (codes "s" ∷ names m.params)
  unfolding build_method
  build_method-Unique name signature plain =
      let (qs, built, same_types, distinct, away) =
        build_params_lem signature.variadic 0 (codes "s" ∷ []) signature.params in
      (
        record { name = name; params = qs; results = signature.results },
        rw (plain, built) refl,
        same_types,
        refl,
        (not_among (codes "s") [] (names qs) away, distinct),
      )

  pub generic_refused :
      (name : Text) (signature : Signature T) {m : MethodModel T}
      → ltb 0 signature.type_params ≡ true
      → build_method g decimal name signature ≡ made m
      → ⊥
  unfolding build_method
  generic_refused name signature generic h = ground (arith, generic, h)
