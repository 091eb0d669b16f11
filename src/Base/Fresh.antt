-- ===== src/Base/Fresh.antt =====
-- The loop that changes a name until it is unused, and the number of rounds that is enough for it: no
-- more distinct names are taken than there are.
use testigo.Base.Tests.{if◌then◌else◌, Bool-cases, Option-cases}
use testigo.Base.Lists.{length, All, All-map, has, Unique}
use Prim.Native.Nat.{ℕ, zero, suc, ◌+◌, ◌≤◌, ◌<◌}
use mathlib.Core.Path.{◌≡◌, refl, ap}
use mathlib.Core.Logic.{◌≢◌, ite, inl, inr}
use mathlib.Core.Bool.{Bool, true, false}
use mathlib.Core.List.{List, [], ◌∷◌}
use mathlib.Core.Option.{Option, none, some}
use native.Mathlib.Omega.{arith}

module _ {A : Type 0} (dec : Discrete A) where
  -- A list without the first occurrence of an element.
  erase : A → List A → List A
  erase a [] = []
  erase a (x ∷ xs) = ite (dec a x) xs (x ∷ erase a xs)

  length-erase : (a : A) (xs : List A) → has dec a xs ≡ true → length (erase a xs) + 1 ≡ length xs
  unfolding erase has
  length-erase a [] h = cc
  length-erase a (x ∷ xs) h = ground (arith, length-erase a xs)

  has-erase :
      (a b : A) (xs : List A)
      → has dec b xs ≡ true
      → has dec b (a ∷ []) ≡ false
      → has dec b (erase a xs) ≡ true
  unfolding erase has
  has-erase a b [] h ne = h
  has-erase a b (x ∷ xs) h ne = ground (arith, has-erase a b xs)

  apart : (x : A) (xs : List A) (y : A) → has dec x (y ∷ xs) ≡ false → has dec y (x ∷ []) ≡ false
  unfolding has
  apart x xs y h = ground arith

  in_erased :
      (x : A) (xs ys : List A)
      → has dec x xs ≡ false
      → All (λ y. has dec y ys ≡ true) xs
      → All (λ y. has dec y (erase x ys) ≡ true) xs
  unfolding has
  in_erased x [] ys new h = tt
  in_erased x (y ∷ xs) ys new h =
      (has-erase x y ys h.0 (apart x xs y new), in_erased x xs ys (ground (arith, new)) h.1)

  -- Distinct elements of a list are no more than the list has.
  pub Unique-length-le :
      (xs ys : List A) → Unique dec xs → All (λ x. has dec x ys ≡ true) xs → length xs ≤ length ys
  Unique-length-le [] ys u h = omega arith
  Unique-length-le (x ∷ xs) ys u h = omega (
    arith,
    Unique-length-le xs (erase x ys) u.1 (in_erased x xs ys u.0 h.1),
    length-erase x ys h.0,
  )

module _ {A : Type 0} (used : A → Bool) (next : ℕ → A → A) where
  -- `for used(a) { a = next(i, a) }` from the round i on; none where the fuel is out.
  unfoldable pub settle : ℕ → ℕ → A → Option A
  settle zero i a = none
  settle (suc n) i a = let rest = settle n (i + 1) (next i a) in if used a then rest else some a

  -- The names that n rounds try.
  abbrev pub tried : ℕ → ℕ → A → List A
  tried zero i a = []
  tried (suc n) i a = a ∷ tried n (i + 1) (next i a)

  length-tried : (n i : ℕ) (a : A) → length (tried n i a) ≡ n
  length-tried zero i a = refl
  length-tried (suc n) i a = omega (arith, length-tried n (i + 1) (next i a))

  -- The name that the loop ends with is unused.
  pub settle-unused : (n i : ℕ) (a : A) {b : A} → settle n i a ≡ some b → used b ≡ false
  unfolding settle
  settle-unused zero i a h = cc
  settle-unused (suc n) i a {b} h = elim (Bool-cases (used a)) [
    | inl e ↦ settle-unused n (i + 1) (next i a) (ground (arith, e, h))
    | inr e ↦ ground (arith, e, h)
  ]

  settle-none : (n i : ℕ) (a : A) → settle n i a ≡ none → All (λ x. used x ≡ true) (tried n i a)
  unfolding settle
  settle-none zero i a h = tt
  settle-none (suc n) i a h = elim (Bool-cases (used a)) [
    | inl e ↦ (e, settle-none n (i + 1) (next i a) (ground (arith, e, h)))
    | inr e ↦ absurd (ground (arith, e, h))
  ]

module _ {A : Type 0} (dec : Discrete A) (used : A → Bool) (next : ℕ → A → A) where
  -- More rounds than there are used names are enough, if no name is tried twice.
  pub settle-some :
      (keys : List A) (n i : ℕ) (a : A)
      → Unique dec (tried used next n i a)
      → ((x : A) → used x ≡ true → has dec x keys ≡ true)
      → length keys < n
      → (b : A) × (settle used next n i a ≡ some b)
  settle-some keys n i a distinct known enough = elim (Option-cases (settle used next n i a)) [
    | inr found ↦ found
    | inl out ↦ absurd (
        omega (
          arith,
          length-tried used next n i a,
          Unique-length-le dec (tried used next n i a) keys distinct
              (All-map _ _ (tried used next n i a) known (settle-none used next n i a out)),
        ))
  ]

  -- Names that grow are distinct.
  module _ (size : A → ℕ) (grows : (i : ℕ) (a : A) → size a < size (next i a)) where
    not_has : (a : A) (xs : List A) → All (λ x. size a < size x) xs → has dec a xs ≡ false
    unfolding has
    not_has a [] h = refl
    not_has a (x ∷ xs) h = elim (dec a x) as (λ d. ite d true (has dec a xs) ≡ false) [
      | yes e ↦ absurd (omega (arith, h.0, ap size e))
      | no ne ↦ not_has a xs h.1
    ]

    tried-above :
        (k : ℕ) (n i : ℕ) (a : A) → k ≤ size a → All (λ x. k ≤ size x) (tried used next n i a)
    tried-above k zero i a h = tt
    tried-above k (suc n) i a h = (h, tried-above k n (i + 1) (next i a) (omega (arith, grows i a)))

    pub tried-Unique : (n i : ℕ) (a : A) → Unique dec (tried used next n i a)
    tried-Unique zero i a = tt
    tried-Unique (suc n) i a = (
      not_has a (tried used next n (i + 1) (next i a))
          (tried-above (suc (size a)) n (i + 1) (next i a) (omega (arith, grows i a))),
      tried-Unique n (i + 1) (next i a),
    )

module _ {A : Type 0} (dec : Discrete A) (used : A → Bool) (name : ℕ → A)
    (injective : (i j : ℕ) → name i ≡ name j → i ≡ j) where
  -- Names of different numbers are distinct.
  not_tried :
      (x : A) (n i : ℕ) (a : A)
      → x ≢ a
      → ((j : ℕ) → i ≤ j → x ≢ name j)
      → has dec x (tried used (λ k b. name k) n i a) ≡ false
  unfolding has
  not_tried x zero i a ne away = refl
  not_tried x (suc n) i a ne away =
      elim (dec x a)
        as (λ d. ite d true (has dec x (tried used (λ k b. name k) n (i + 1) (name i))) ≡ false) [
          | yes e ↦ absurd (ne e)
          | no _ ↦
              not_tried x n (i + 1) (name i) (away i (omega arith)) (λ j h. away j (omega arith))
        ]

  pub numbered-Unique :
      (n i : ℕ) (a : A)
      → ((j : ℕ) → i ≤ j → a ≢ name j)
      → Unique dec (tried used (λ k b. name k) n i a)
  numbered-Unique zero i a away = tt
  numbered-Unique (suc n) i a away =
      let later : (j : ℕ) → i + 1 ≤ j → name i ≢ name j =
        λ j h e. absurd (omega (arith, injective i j e)) in
      (
        not_tried a n (i + 1) (name i) (away i (omega arith)) (λ j h. away j (omega arith)),
        numbered-Unique n (i + 1) (name i) later,
      )
