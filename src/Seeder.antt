-- ===== src/Seeder.antt =====
-- seeder/seeder.go: the seeding of a test's initial values. The state S is all that persisting and
-- generating read and write: the repository behind `persist`, and the random draws. An error of
-- `persist` is a value of type E. A Fatal ends the test's goroutine, so nothing runs after it.
pub mod Persisting
mod Tests
use testigo.Base.{ℕ, zero, suc, ◌+◌, List, [], ◌∷◌, Option, none, some}
use testigo.Base.Int.{ℤ, pos, negsuc}

-- Why a Fatal ended the test: nil arguments, a negative count, and an error at the item of an index.
pub data Refusal (E : Type 0) : Type 0 where
  nil_persist nil_builder nil_generator : Refusal E
  negative_count : ℤ → Refusal E
  not_persisted : E → Refusal E
  item_not_persisted : ℕ → E → Refusal E
  generated_not_persisted : ℕ → E → Refusal E

-- What a call gives, and the Fatal in its place.
pub data Seeded (E A : Type 0) : Type 0 where
  seeded : A → Seeded E A
  fatal : Refusal E → Seeded E A

abbrev pub seeded_with : {E A B : Type 0} → (A → B) → Seeded E A → Seeded E B
seeded_with f (seeded a) = seeded (f a)
seeded_with f (fatal r) = fatal r

-- `Seeder`: its persist function, which gives an error or none.
pub record Seeder (S E T : Type 0) : Type 0 where
  pub persist : T → S → Option E × S

module _ {S E T : Type 0} where
  unfoldable pub new : Option (T → S → Option E × S) → Seeded E (Seeder S E T)
  new none = fatal Refusal.nil_persist
  new (some persist) = seeded (record { persist = persist })

  unfoldable pub one : Seeder S E T → T → S → Seeded E T × S
  one s value z =
      let (error, y) = s.persist value z in
      elim error [ some e ↦ (fatal (Refusal.not_persisted e), y) | none ↦ (seeded value, y) ]

  -- The loop of `Many` from an index on: the error that ends it, if one does.
  unfoldable pub persist_from : Seeder S E T → ℕ → List T → S → Option (Refusal E) × S
  persist_from s index [] z = (none, z)
  persist_from s index (value ∷ values) z =
      let (error, y) = s.persist value z in
      let rest = persist_from s (suc index) values y in
      elim error [ some e ↦ (some (Refusal.item_not_persisted index e), y) | none ↦ rest ]

  unfoldable pub many : Seeder S E T → List T → S → Seeded E (List T) × S
  unfolding persist_from
  many s values z =
      let (refusal, y) = persist_from s 0 values z in
      elim refusal [ some r ↦ (fatal r, y) | none ↦ (seeded values, y) ]

  -- The loop of `Generate`, n more values from an index on.
  unfoldable pub generate_from : Seeder S E T → (S → T × S) → ℕ → ℕ → S → Seeded E (List T) × S
  generate_from s draw zero index z = (seeded [], z)
  generate_from s draw (suc n) index z =
      let (value, y) = draw z in
      let (error, x) = s.persist value y in
      let (rest, w) = generate_from s draw n (suc index) x in
      elim error [
        | some e ↦ (fatal (Refusal.generated_not_persisted index e), x)
        | none ↦ (seeded_with (λ values. value ∷ values) rest, w)
      ]

  unfoldable pub generate : Seeder S E T → ℤ → Option (S → T × S) → S → Seeded E (List T) × S
  unfolding generate_from
  generate s (negsuc n) draw z = (fatal (Refusal.negative_count (negsuc n)), z)
  generate s (pos n) none z = (fatal Refusal.nil_generator, z)
  generate s (pos n) (some draw) z = generate_from s draw n 0 z

  unfoldable pub generate_one : Seeder S E T → Option (S → T × S) → S → Seeded E T × S
  unfolding one
  generate_one s none z = (fatal Refusal.nil_generator, z)
  generate_one s (some draw) z = let (value, y) = draw z in one s value y

  -- `Persist`, of a builder by its Bare.
  unfoldable pub persist_builder : Seeder S E T → Option (S → T × S) → S → Seeded E T × S
  unfolding one
  persist_builder s none z = (fatal Refusal.nil_builder, z)
  persist_builder s (some bare) z = let (value, y) = bare z in one s value y
