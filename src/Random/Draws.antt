-- ===== src/Random/Draws.antt =====
-- random/random.go: what the draws promise, for a generator that draws below its bound.
use testigo.Base.{
  ℕ, zero, suc, ◌+◌, ◌^◌, ◌<◌, true, false, List, [], ◌∷◌, some, length, get_elem?, leb, Any, ok,
  ◌≡◌, refl, ap, ◌∙◌, arith, inl, inr, Bool-cases,
}
use testigo.Base.Int.{ℤ, pos, negsuc, ltb_ℤ}
use testigo.Random.{phrase_words, word_at}
use testigo.Random.Source.{
  Source, add_ℕ, span, set_seed, replay, draw, int_between, pick, draw_words, sub_from, date_margin,
  date_span, date_before, date_after, date_between,
}

-- A generator draws below its bound.
abbrev pub DrawsBelow : {G : Type 0} → (G → ℕ → ℕ × G) → Type 0
DrawsBelow {G} int_n = (g : G) (n : ℕ) → 0 < n → (int_n g n).0 < n

add_ℕ-between :
    (a b : ℤ) (k : ℕ)
    → ltb_ℤ b a ≡ false
    → k < span a b + 1
    → (ltb_ℤ (add_ℕ a k) a ≡ false) × (ltb_ℤ b (add_ℕ a k) ≡ false)
add_ℕ-between (pos m) (pos n) k h lt = ground arith
add_ℕ-between (pos m) (negsuc n) k h lt = ground arith
add_ℕ-between (negsuc m) (pos n) k h lt = ground arith
add_ℕ-between (negsuc m) (negsuc n) k h lt = ground arith

get_elem?-in :
    {A : Type 0} (l : List A) (k : ℕ)
    → k < length l
    → (a : A) × ((get_elem? l k ≡ some a) × Any (λ b. b ≡ a) l)
get_elem?-in [] k lt = absurd (omega arith)
get_elem?-in (x ∷ l) zero lt = (x, (refl, inl refl))
get_elem?-in (x ∷ l) (suc k) lt =
    let (a, (e, at)) = get_elem?-in l k (omega arith) in (a, (e, inr at))

module _ {G : Type 0} (new_gen : ℕ → G) (int_n : G → ℕ → ℕ × G) (below : DrawsBelow int_n) where
  -- A draw between two bounds, whose number of values fits an int, does not panic and lies between them.
  pub int_between-bounds :
      (min max : ℤ) (w : Source G)
      → ltb_ℤ max min ≡ false
      → span min max + 1 < 2 ^ 63
      → (n : ℤ) × ((z : Source G) × ((int_between new_gen int_n min max w ≡ ok (n, z))
            × ((ltb_ℤ n min ≡ false) × (ltb_ℤ max n ≡ false))))
  unfolding int_between draw
  int_between-bounds min max w h fits =
      let k = (int_n w.gen (span min max + 1)).0 in
      let lt : k < span min max + 1 = below w.gen (span min max + 1) (omega arith) in
      let small : leb (2 ^ 63) (span min max + 1) ≡ false = ground arith in
      (
        add_ℕ min k,
        (
          (draw new_gen int_n (span min max + 1) w).1,
          (rw (h, small) refl, add_ℕ-between min max k h lt),
        ),
      )

  -- A pick from some options does not panic and gives one of them.
  pub pick-Any :
      {A : Type 0} (a : A) (options : List A) (w : Source G)
      → (b : A) × ((z : Source G) × ((pick new_gen int_n (a ∷ options) w ≡ ok (b, z))
            × Any (λ c. c ≡ b) (a ∷ options)))
  unfolding pick draw
  pick-Any a options w =
      let n = length (a ∷ options) in
      let k = (int_n w.gen n).0 in
      let (b, (e, at)) = get_elem?-in (a ∷ options) k (below w.gen n (omega arith)) in
      (b, ((draw new_gen int_n n w).1, (rw (e, pick) refl, at)))

sub_from-before : (a : ℤ) (n : ℕ) → 0 < n → ltb_ℤ (sub_from a n) a ≡ true
sub_from-before (pos m) n lt = ground arith
sub_from-before (negsuc m) n lt = ground arith

add_ℕ-after : (a : ℤ) (n : ℕ) → 0 < n → ltb_ℤ a (add_ℕ a n) ≡ true
add_ℕ-after (pos m) n lt = ground arith
add_ℕ-after (negsuc m) n lt = ground arith

module _ {G : Type 0} (new_gen : ℕ → G) (int_n : G → ℕ → ℕ × G) where
  -- Whatever is drawn, a date before a reference is strictly before it, and one after it strictly after.
  pub date_before-date_after :
      (ref : ℤ) (w : Source G)
      → (ltb_ℤ (date_before new_gen int_n ref w).0 ref ≡ true)
        × (ltb_ℤ ref (date_after new_gen int_n ref w).0 ≡ true)
  unfolding date_before date_after draw
  date_before-date_after ref w =
      let k = (int_n w.gen date_span).0 in
      (
        sub_from-before ref (date_margin + k) (omega arith),
        add_ℕ-after ref (date_margin + k) (omega arith),
      )

module _ {G : Type 0} (new_gen : ℕ → G) (int_n : G → ℕ → ℕ × G) (below : DrawsBelow int_n) where
  -- A date between two times that are in order, and less than 2^63 - 1 nanoseconds apart, is drawn
  -- without a panic and lies between them.
  pub date_between-bounds :
      (start end_ : ℤ) (w : Source G)
      → ltb_ℤ end_ start ≡ false
      → span start end_ + 1 < 2 ^ 63
      → (d : ℤ) × ((z : Source G) × ((date_between new_gen int_n start end_ w ≡ ok (d, z))
            × ((ltb_ℤ d start ≡ false) × (ltb_ℤ end_ d ≡ false))))
  unfolding date_between draw
  date_between-bounds start end_ w h fits = elim (Bool-cases (leb (span start end_) 0)) [
    | inl same_time ↦ (start, (w, (rw (h, same_time) refl, (not_before start, h))))
    | inr apart ↦
        (let k = (int_n w.gen (span start end_ + 1)).0 in
          let small : leb (2 ^ 63) (span start end_ + 1) ≡ false = ground arith in
          let lt : k < span start end_ + 1 = below w.gen (span start end_ + 1) (omega arith) in
          (
            add_ℕ start k,
            (
              (draw new_gen int_n (span start end_ + 1) w).1,
              (rw (h, apart, small) refl, add_ℕ-between start end_ k h lt),
            ),
          ))
  ]
    where
      not_before : (a : ℤ) → ltb_ℤ a a ≡ false
      not_before (pos m) = ground arith
      not_before (negsuc m) = ground arith

module _ {G : Type 0} (new_gen : ℕ → G) (int_n : G → ℕ → ℕ × G) where
  -- Words drawn from states with one generator are the same.
  same_words :
      (n : ℕ) (w v : Source G)
      → w.gen ≡ v.gen
      → (draw_words new_gen int_n n w).0 ≡ (draw_words new_gen int_n n v).0
  unfolding draw_words draw
  same_words zero w v e = refl
  same_words (suc n) w v e =
      let k = length phrase_words in
      let next =
        same_words n (draw new_gen int_n k w).1 (draw new_gen int_n k v).1
          (ap (λ g. (int_n g k).1) e) in
      ap (λ g. word_at (int_n g k).0 ∷ (draw_words new_gen int_n n (draw new_gen int_n k w).1).0) e
      ∙ ap (◌∷◌ (word_at (int_n v.gen k).0)) next

  -- Before any draw, and where the environment gives no seed, setting a seed succeeds, and the words
  -- then drawn are those that a replay of the seed draws in any state; the replay puts the generator
  -- of that state back.
  pub set_seed-replay :
      (s n : ℕ) (w v : Source G)
      → w.seed_from_env ≡ false
      → w.drawn ≡ false
      → (z : Source G) × ((set_seed new_gen int_n s w ≡ ok z)
          × (((draw_words new_gen int_n n z).0
                ≡ (replay new_gen int_n s (draw_words new_gen int_n n) v).0)
              × ((replay new_gen int_n s (draw_words new_gen int_n n) v).1.gen ≡ v.gen)))
  unfolding set_seed replay
  set_seed-replay s n w v e d =
      let z = record w { seed = s; gen = new_gen s } in
      (z, (rw (e, d) refl, (same_words n z (record v { gen = new_gen s }) refl, refl)))
