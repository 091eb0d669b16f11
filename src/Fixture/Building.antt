-- ===== src/Fixture/Building.antt =====
-- fixture/fixture.go: a builder against the direct variants.
use testigo.Base.{ℕ, zero, suc, List, [], ◌∷◌, ◌++◌, Option, none, some, ◌≡◌, refl, ap, ◌∙◌}
use testigo.Fixture.{
  Variation, vary_all, append_steps, with_variations, run_steps, with_base, new_builder, times,
  bare, builder_times,
}

module _ {S T : Type 0} where
  run_steps-append :
      (xs ys : List (Variation S T)) (v : T) (s : S)
      → run_steps (xs ++ ys) v s ≡ run_steps ys (run_steps xs v s).0 (run_steps xs v s).1
  unfolding run_steps
  run_steps-append [] ys v s = refl
  run_steps-append (x ∷ xs) ys v s = run_steps-append xs ys (x v s).0 (x v s).1

  -- The appended steps run as the variations do.
  run-append_steps :
      (vs : List (Option (Variation S T))) (steps : List (Variation S T)) (v : T) (s : S)
      → run_steps (append_steps vs steps) v s
        ≡ vary_all vs (run_steps steps v s).0 (run_steps steps v s).1
  unfolding append_steps vary_all
  run-append_steps [] steps v s = refl
  run-append_steps (none ∷ vs) steps v s = run-append_steps vs steps v s
  run-append_steps (some vary ∷ vs) steps v s =
      run-append_steps vs (steps ++ vary ∷ []) v s
      ∙ ap (λ (p : T × S). vary_all vs p.0 p.1)
          (unfold run_steps in run_steps-append steps (vary ∷ []) v s)

module _ {S T : Type 0} (copy : T → T) (blank : T) (same : (v : T) → copy v ≡ v) where
  -- A builder on a base, with variations chained, builds what the direct variant of the base is and
  -- draws the same, if a copy equals its source.
  pub bare-new_builder :
      (base : T) (vs : List (Option (Variation S T))) (s : S)
      → bare copy blank (with_variations vs (new_builder copy base)) s ≡ with_base copy base vs s
  unfolding bare with_variations new_builder with_base run_steps
  bare-new_builder base vs s =
      ap (λ (p : T × S). (copy p.0, p.1)) (run-append_steps vs [] (copy (copy (copy base))) s)
      ∙ ap (λ (u : T). (u, (vary_all vs (copy (copy (copy base))) s).1)) (same _)
      ∙ ap (λ (u : T). vary_all vs u s) (same _ ∙ same _)

  -- Building n values from such a builder is building n direct variants, one after the other.
  pub builder_times-times :
      (n : ℕ) (base : T) (vs : List (Option (Variation S T))) (s : S)
      → builder_times copy blank n (with_variations vs (new_builder copy base)) s
        ≡ times copy n base vs s
  unfolding builder_times times
  builder_times-times zero base vs s = refl
  builder_times-times (suc n) base vs s =
      let b = with_variations vs (new_builder copy base) in
      ap
        (λ (p : T × S).
          (p.0 ∷ (builder_times copy blank n b p.1).0, (builder_times copy blank n b p.1).1))
        (bare-new_builder base vs s)
      ∙ ap (λ (q : List T × S). ((with_base copy base vs s).0 ∷ q.0, q.1))
          (builder_times-times n base vs (with_base copy base vs s).1)
