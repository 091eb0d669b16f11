-- ===== src/Fixture.antt =====
-- fixture/fixture.go: variants of a base value. The state of the random draws is a type S with its draw
-- below a bound; a variation or a generator may draw. `copy` is testigo.Copy, `blank` the zero value of
-- T. A Configuration, which writes through a pointer to its own copy, gives the value that it leaves.
pub mod Building
mod Tests
use testigo.Base.{
  ℕ, zero, suc, ◌+◌, Bool, true, false, List, [], ◌∷◌, ◌++◌, Option, none, some, length, get_elem?,
  if◌then◌else◌, ◌==◌, Outcome, ok, panic,
}
use mathlib.Core.Option

-- A function on values that may draw.
abbrev pub Variation : Type 0 → Type 0 → Type 0
Variation S T = T → S → T × S

-- `Builder`: its source, and its steps.
pub record Builder (S T : Type 0) : Type 0 where
  pub generate : Option (S → T × S)
  pub steps : List (Variation S T)

module _ {S T : Type 0} where
  -- The loop over the variations, nil (none) left out.
  unfoldable pub vary_all : List (Option (Variation S T)) → Variation S T
  vary_all [] v s = (v, s)
  vary_all (none ∷ vs) v s = vary_all vs v s
  vary_all (some vary ∷ vs) v s = let (u, z) = vary v s in vary_all vs u z

  -- The loop of `Set` and `With` over what is appended.
  unfoldable pub append_steps :
      List (Option (Variation S T)) → List (Variation S T) → List (Variation S T)
  append_steps [] steps = steps
  append_steps (none ∷ vs) steps = append_steps vs steps
  append_steps (some vary ∷ vs) steps = append_steps vs (steps ++ vary ∷ [])

  unfoldable pub with_variations : List (Option (Variation S T)) → Builder S T → Builder S T
  unfolding append_steps
  with_variations vs b = record b { steps = append_steps vs b.steps }

  -- A configuration as the step that `Set` appends.
  abbrev pub configured : Option (T → T) → Option (Variation S T)
  configured none = none
  configured (some configure) = some (λ v s. (configure v, s))

  abbrev pub configured_all : List (Option (T → T)) → List (Option (Variation S T))
  configured_all [] = []
  configured_all (c ∷ cs) = configured c ∷ configured_all cs

  unfoldable pub set_configurations : List (Option (T → T)) → Builder S T → Builder S T
  unfolding append_steps
  set_configurations cs b = record b { steps = append_steps (configured_all cs) b.steps }

  unfoldable pub new_generated_builder : Option (S → T × S) → Outcome (Builder S T)
  new_generated_builder none = panic
  new_generated_builder (some generate) = ok (record { generate = some generate; steps = [] })

  -- The loop of `Bare` over the steps.
  unfoldable pub run_steps : List (Variation S T) → Variation S T
  run_steps [] v s = (v, s)
  run_steps (step ∷ steps) v s = let (u, z) = step v s in run_steps steps u z

module _ {S T : Type 0} (draw : ℕ → S → ℕ × S) where
  unfoldable pub one_of : List (Option (Variation S T)) → Variation S T
  one_of [] v s = (v, s)
  one_of (o ∷ vs) v s =
      let (k, z) = draw (length (o ∷ vs)) s in
      elim (Option.get_or (get_elem? (o ∷ vs) k) none) [ none ↦ (v, z) | some m ↦ m v z ]

  unfoldable pub maybe : Option (Variation S T) → Variation S T
  maybe none v s = (v, s)
  maybe (some m) v s = let (k, z) = draw 2 s in if k == 1 then m v z else (v, z)

module _ {S T : Type 0} (copy : T → T) where
  -- `With`
  unfoldable pub with_base : T → List (Option (Variation S T)) → S → T × S
  unfolding vary_all
  with_base base vs s = vary_all vs (copy base) s

  unfoldable pub new_builder : T → Builder S T
  new_builder base =
      let canonical = copy base in record { generate = some (λ s. (copy canonical, s)); steps = [] }

  -- `Base.Times`, and `Base.Slice` with the variations of each index, from the index i.
  unfoldable pub times : ℕ → T → List (Option (Variation S T)) → S → List T × S
  unfolding with_base
  times zero base vs s = ([], s)
  times (suc n) base vs s =
      let (v, z) = with_base base vs s in let (rest, y) = times n base vs z in (v ∷ rest, y)

  unfoldable pub slice_from : ℕ → ℕ → T → (ℕ → List (Option (Variation S T))) → S → List T × S
  unfolding with_base
  slice_from i zero base each s = ([], s)
  slice_from i (suc n) base each s =
      let (v, z) = with_base base (each i) s in
      let (rest, y) = slice_from (i + 1) n base each z in (v ∷ rest, y)

module _ {S T : Type 0} (copy : T → T) (blank : T) where
  -- The value that `Bare` starts from.
  abbrev pub generated : Option (S → T × S) → S → T × S
  generated none s = (blank, s)
  generated (some generate) s = let (v, z) = generate s in (copy v, z)

  unfoldable pub bare : Builder S T → S → T × S
  unfolding run_steps
  bare b s =
      let (v, z) = generated b.generate s in let (u, y) = run_steps b.steps v z in (copy u, y)

  unfoldable pub builder_times : ℕ → Builder S T → S → List T × S
  unfolding bare
  builder_times zero b s = ([], s)
  builder_times (suc n) b s =
      let (v, z) = bare b s in let (rest, y) = builder_times n b z in (v ∷ rest, y)
