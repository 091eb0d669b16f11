-- ===== src/Seeder/Tests.antt =====
-- seeder/seeder.go: the theorems at a repository that keeps the numbers below ten, and a generator that
-- counts up by four.
use testigo.Base.{
  ℕ, ◌+◌, List, [], ◌∷◌, ◌++◌, Option, none, some, if◌then◌else◌, ltb, ◌≡◌, refl, ◌⊎◌,
}
use testigo.Base.Int.{pos}
use testigo.Seeder.{Refusal, Seeder, seeded, fatal, many, generate}
use testigo.Seeder.Persisting.{
  Persists, StopsAt, many-Persists, beside, drawing, alone, draws, many_as_generated, generate-many,
}

abbrev keep_below_ten : ℕ → List ℕ → Option ℕ × List ℕ
keep_below_ten n kept = if ltb n 10 then (none, kept ++ n ∷ []) else (some n, kept)

abbrev by_four : ℕ → ℕ × ℕ
by_four g = (g, g + 4)

abbrev small_numbers : Seeder (List ℕ) ℕ ℕ
small_numbers = record { persist = keep_below_ten }

many-Persists_example :
    (((many small_numbers (3 ∷ 12 ∷ 5 ∷ []) []).0 ≡ seeded (3 ∷ 12 ∷ 5 ∷ []))
      × Persists small_numbers (3 ∷ 12 ∷ 5 ∷ []) [] (many small_numbers (3 ∷ 12 ∷ 5 ∷ []) []).1)
    ⊎ ((n : ℕ) × (e : ℕ) × ((many small_numbers (3 ∷ 12 ∷ 5 ∷ []) []).0
          ≡ fatal (Refusal.item_not_persisted n e))
        × StopsAt small_numbers
            (3 ∷ 12 ∷ 5 ∷ [])
            []
            n
            e
            (many small_numbers (3 ∷ 12 ∷ 5 ∷ []) []).1)
many-Persists_example = many-Persists small_numbers (3 ∷ 12 ∷ 5 ∷ []) []

-- The second number is refused, so the third is not tried.
stops_at_twelve :
    many small_numbers (3 ∷ 12 ∷ 5 ∷ []) [] ≡ (fatal (Refusal.item_not_persisted 1 12), 3 ∷ [])
unfolding many
stops_at_twelve = refl

generate-many_example :
    ((generate
        (beside keep_below_ten by_four)
        (pos 4)
        (some (drawing keep_below_ten by_four))
        (1, [])).0
      ≡ many_as_generated keep_below_ten by_four
          (many (alone keep_below_ten by_four) (draws keep_below_ten by_four 4 1) []).0)
    × ((generate
          (beside keep_below_ten by_four)
          (pos 4)
          (some (drawing keep_below_ten by_four))
          (1, [])).1.1
        ≡ (many (alone keep_below_ten by_four) (draws keep_below_ten by_four 4 1) []).1)
generate-many_example = generate-many keep_below_ten by_four 4 1 []
