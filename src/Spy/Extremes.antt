-- ===== src/Spy/Extremes.antt =====
-- internal/core/spy.go: what the loops of assertOrder find.
use testigo.Base.{
  ℕ, ◌≤◌, ◌<◌, Bool, true, false, List, [], ◌∷◌, Option, none, some, All, Any, is_some, ◌≡◌, ◌↔◌,
  ◌⊎◌, refl, arith,
}
use testigo.Base.Int.{ℤ, pos, negsuc}
use testigo.Spy.{CallRecord}
use testigo.Spy.Order.{
  OrderKind, before, after, within, max_seq_call, min_seq_call, gap, closer, closest_to,
  closest_pair, in_window, order_holds,
}

-- The window reaches the best gap so far.
abbrev reaches : ℤ → Option ℕ → Bool
reaches window none = false
reaches window (some g) = in_window (some g) window

-- A gap is at most the window, which no gap is of a negative one.
abbrev pub IsWithin : ℕ → ℤ → Type 0
IsWithin g (pos w) = g ≤ w
IsWithin g (negsuc w) = ⊥

closer-reaches :
    (window : ℤ) (best : Option ℕ) (g : ℕ)
    → (reaches window (closer best g) ≡ true) ↔ (reaches window best ≡ true) ⊎ IsWithin g window
closer-reaches (pos w) none g = ground arith
closer-reaches (pos w) (some b) g = ground arith
closer-reaches (negsuc w) none g = ground arith
closer-reaches (negsuc w) (some b) g = ground arith

is_some-closer : (best : Option ℕ) (g : ℕ) → is_some (closer best g) ≡ true
is_some-closer none g = refl
is_some-closer (some b) g = ground arith

reaches-in_window :
    (window : ℤ) (best : Option ℕ)
    → is_some best ≡ true
    → in_window best window ≡ reaches window best
reaches-in_window (pos w) none h = ground arith
reaches-in_window (negsuc w) none h = ground arith
reaches-in_window window (some g) h = refl

module _ {V : Type 0} where
  -- A bound above the latest call is a bound above all.
  pub max_seq_call-All :
      (n : ℕ) (c : CallRecord V) (cs : List (CallRecord V))
      → ((max_seq_call c cs).seq < n) ↔ All (λ k. k.seq < n) (c ∷ cs)
  unfolding max_seq_call
  max_seq_call-All n c [] = ground arith
  max_seq_call-All n c (d ∷ cs) = ground (arith, max_seq_call-All n c cs, max_seq_call-All n d cs)

  pub min_seq_call-All :
      (n : ℕ) (c : CallRecord V) (cs : List (CallRecord V))
      → (n < (min_seq_call c cs).seq) ↔ All (λ k. n < k.seq) (c ∷ cs)
  unfolding min_seq_call
  min_seq_call-All n c [] = ground arith
  min_seq_call-All n c (d ∷ cs) = ground (arith, min_seq_call-All n c cs, min_seq_call-All n d cs)

  closest_to-reaches :
      (window : ℤ) (best : Option ℕ) (x : CallRecord V) (ys : List (CallRecord V))
      → (reaches window (closest_to best x ys) ≡ true)
        ↔ (reaches window best ≡ true) ⊎ Any (λ y. IsWithin (gap x y) window) ys
  unfolding closest_to
  closest_to-reaches window best x [] = ground arith
  closest_to-reaches window best x (y ∷ ys) = ground (
    arith,
    closest_to-reaches window (closer best (gap x y)) x ys,
    closer-reaches window best (gap x y),
  )

  closest_pair-reaches :
      (window : ℤ) (best : Option ℕ) (xs ys : List (CallRecord V))
      → (reaches window (closest_pair best xs ys) ≡ true)
        ↔ (reaches window best ≡ true) ⊎ Any (λ x. Any (λ y. IsWithin (gap x y) window) ys) xs
  unfolding closest_pair
  closest_pair-reaches window best [] ys = ground arith
  closest_pair-reaches window best (x ∷ xs) ys = ground (
    arith,
    closest_pair-reaches window (closest_to best x ys) xs ys,
    closest_to-reaches window best x ys,
  )

  is_some-closest_to :
      (best : Option ℕ) (x : CallRecord V) (ys : List (CallRecord V))
      → is_some best ≡ true
      → is_some (closest_to best x ys) ≡ true
  unfolding closest_to
  is_some-closest_to best x [] h = h
  is_some-closest_to best x (y ∷ ys) h =
      is_some-closest_to (closer best (gap x y)) x ys (is_some-closer best (gap x y))

  is_some-closest_pair :
      (best : Option ℕ) (xs ys : List (CallRecord V))
      → is_some best ≡ true
      → is_some (closest_pair best xs ys) ≡ true
  unfolding closest_pair
  is_some-closest_pair best [] ys h = h
  is_some-closest_pair best (x ∷ xs) ys h =
      is_some-closest_pair (closest_to best x ys) xs ys (is_some-closest_to best x ys h)

  -- What each kind of order asks of the calls.
  abbrev pub Ordered : OrderKind → ℤ → List (CallRecord V) → List (CallRecord V) → Type 0
  Ordered before window xs ys = All (λ x. All (λ y. x.seq < y.seq) ys) xs
  Ordered after window xs ys = All (λ x. All (λ y. y.seq < x.seq) ys) xs
  Ordered within window xs ys = Any (λ x. Any (λ y. IsWithin (gap x y) window) ys) xs

  All-max_seq_call :
      (b : CallRecord V) (bs xs : List (CallRecord V))
      → All (λ x. (max_seq_call b bs).seq < x.seq) xs
        ↔ All (λ x. All (λ y. y.seq < x.seq) (b ∷ bs)) xs
  All-max_seq_call b bs [] = ground arith
  All-max_seq_call b bs (x ∷ xs) =
      ground (arith, All-max_seq_call b bs xs, max_seq_call-All x.seq b bs)

  All-min_seq_call :
      (b : CallRecord V) (bs xs : List (CallRecord V))
      → All (λ x. x.seq < (min_seq_call b bs).seq) xs
        ↔ All (λ x. All (λ y. x.seq < y.seq) (b ∷ bs)) xs
  All-min_seq_call b bs [] = ground arith
  All-min_seq_call b bs (x ∷ xs) =
      ground (arith, All-min_seq_call b bs xs, min_seq_call-All x.seq b bs)

  -- The switch decides what the kind asks.
  pub order_holds-Ordered :
      (kind : OrderKind) (window : ℤ) (a : CallRecord V) (as_ : List (CallRecord V))
      (b : CallRecord V) (bs : List (CallRecord V))
      → (order_holds kind window a as_ b bs ≡ true) ↔ Ordered kind window (a ∷ as_) (b ∷ bs)
  unfolding order_holds
  order_holds-Ordered before window a as_ b bs =
      ground
        (arith, max_seq_call-All (min_seq_call b bs).seq a as_, All-min_seq_call b bs (a ∷ as_))
  order_holds-Ordered after window a as_ b bs =
      ground
        (arith, min_seq_call-All (max_seq_call b bs).seq a as_, All-max_seq_call b bs (a ∷ as_))
  order_holds-Ordered within window a as_ b bs =
      let best = closest_to (some (gap a b)) a bs in
      ground (
        arith,
        reaches-in_window window (closest_pair best as_ (b ∷ bs)) (
            is_some-closest_pair best as_ (b ∷ bs) (is_some-closest_to (some (gap a b)) a bs refl)),
        closest_pair-reaches window best as_ (b ∷ bs),
        closest_to-reaches window (some (gap a b)) a bs,
      )
