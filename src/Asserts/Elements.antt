-- ===== src/Asserts/Elements.antt =====
-- internal/core/behavior_asserts.go, extra_asserts.go: what ElementsMatch and Subset compare. DeepEqual
-- is assumed to decide equality: that fails of values that hold a NaN or a function.
use testigo.Base.{
  ℕ, ◌+◌, ◌-◌, Bool, true, false, List, [], ◌∷◌, map, none, some, has, All, is_yes, ite, ◌≡◌, ◌↔◌,
  refl, ◌∙◌, arith, inl, inr, Option-cases,
}
use testigo.Asserts.{
  use_equal, difference_from, difference, elements_match, subset_missing, contains_elem, is_nil,
}

module _ {V : Type 0} (dec : Discrete V) where
  -- How often an element stands in a list.
  abbrev pub count : V → List V → ℕ
  count u [] = 0
  count u (v ∷ vs) = ite (dec u v) (count u vs + 1) (count u vs)

  -- How often it stands there unused.
  abbrev unused : V → List (V × Bool) → ℕ
  unused u [] = 0
  unused u ((v, true) ∷ rs) = unused u rs
  unused u ((v, false) ∷ rs) = ite (dec u v) (unused u rs + 1) (unused u rs)

module _ {V : Type 0} (dec : Discrete V) (deep_equal : V → V → Bool)
    (exact : (u v : V) → deep_equal u v ≡ is_yes (dec u v)) where
  unused-fresh : (u : V) (vs : List V) → unused dec u (map (λ v. (v, false)) vs) ≡ count dec u vs
  unused-fresh u [] = refl
  unused-fresh u (v ∷ vs) = ground (arith, unused-fresh u vs)

  use_equal-none :
      (v : V) (rs : List (V × Bool)) → use_equal deep_equal v rs ≡ none → unused dec v rs ≡ 0
  unfolding use_equal
  use_equal-none v [] h = refl
  use_equal-none v ((r, true) ∷ rs) h = elim (Option-cases (use_equal deep_equal v rs)) [
    | inl e ↦ use_equal-none v rs e
    | inr (ts, e) ↦ absurd (ground (arith, e, h))
  ]
  use_equal-none v ((r, false) ∷ rs) h = elim (Option-cases (use_equal deep_equal v rs)) [
    | inl e ↦ ground (arith, exact v r, use_equal-none v rs e, h)
    | inr (ts, e) ↦ absurd (ground (arith, e, h))
  ]

  use_equal-some :
      (u v : V) (rs ss : List (V × Bool))
      → use_equal deep_equal v rs ≡ some ss
      → unused dec u rs ≡ ite (dec u v) (unused dec u ss + 1) (unused dec u ss)
  unfolding use_equal
  use_equal-some u v [] ss h = cc
  use_equal-some u v ((r, true) ∷ rs) ss h = elim (Option-cases (use_equal deep_equal v rs)) [
    | inl e ↦ absurd (ground (arith, e, h))
    | inr (ts, e) ↦ ground (arith, use_equal-some u v rs ts e, e, h)
  ]
  use_equal-some u v ((r, false) ∷ rs) ss h = elim (Option-cases (use_equal deep_equal v rs)) [
    | inl e ↦ ground (arith, exact v r, e, h)
    | inr (ts, e) ↦ ground (arith, exact v r, use_equal-some u v rs ts e, e, h)
  ]

  -- What is left of an element is what the other list lacks.
  count-difference_from :
      (u : V) (from : List V) (rs : List (V × Bool))
      → count dec u (difference_from deep_equal from rs) ≡ count dec u from - unused dec u rs
  unfolding difference_from
  count-difference_from u [] rs = ground arith
  count-difference_from u (v ∷ vs) rs = elim (Option-cases (use_equal deep_equal v rs)) [
    | inl e ↦
        rw (e, difference_from)
          (ground (arith, count-difference_from u vs rs, use_equal-none v rs e))
    | inr (ss, e) ↦
        rw (e, difference_from)
          (ground (arith, count-difference_from u vs ss, use_equal-some u v rs ss e))
  ]

  -- A difference holds each element as often as the first list has it more than the second.
  pub count-difference :
      (u : V) (from remove : List V)
      → count dec u (difference deep_equal from remove) ≡ count dec u from - count dec u remove
  unfolding difference
  count-difference u from remove =
      rw (← unused-fresh u remove) (count-difference_from u from (map (λ v. (v, false)) remove))

  nil_of_count : (l : List V) → ((u : V) → count dec u l ≡ 0) → is_nil l ≡ true
  nil_of_count [] h = refl
  nil_of_count (v ∷ vs) h = absurd (ground (arith, h v))

  -- Two lists match, if DeepEqual decides equality on their elements, exactly when each value stands in
  -- both equally often.
  pub elements_match-count :
      (a b : List V)
      → (elements_match deep_equal a b ≡ true) ↔ ((u : V) → count dec u a ≡ count dec u b)
  unfolding elements_match
  elements_match-count a b = (
    λ h u. ground (
      arith,
      count-difference u a b,
      count-difference u b a,
      nil-count u (difference deep_equal a b),
      nil-count u (difference deep_equal b a),
      h,
    ),
    λ h. ground (
      arith,
      nil_of_count (difference deep_equal a b) (λ u. count-difference u a b ∙ omega (arith, h u)),
      nil_of_count (difference deep_equal b a) (λ u. count-difference u b a ∙ omega (arith, h u)),
    ),
  )
    where
      nil-count : (u : V) (l : List V) → is_nil l ≡ true → count dec u l ≡ 0
      nil-count u [] h = refl
      nil-count u (v ∷ vs) h = cc

  contains_elem-has : (elems : List V) (v : V) → contains_elem deep_equal elems v ≡ has dec v elems
  unfolding contains_elem has
  contains_elem-has [] v = refl
  contains_elem-has (w ∷ elems) v = ground (arith, contains_elem-has elems v, exact w v)

  -- Nothing of a subset is missing, if DeepEqual decides equality on the elements, exactly when each of
  -- its elements stands in the list.
  pub subset_missing-has :
      (elems want : List V)
      → (subset_missing deep_equal elems want ≡ []) ↔ All (λ v. has dec v elems ≡ true) want
  unfolding subset_missing
  subset_missing-has elems [] = ground arith
  subset_missing-has elems (v ∷ want) =
      ground (arith, subset_missing-has elems want, contains_elem-has elems v)
