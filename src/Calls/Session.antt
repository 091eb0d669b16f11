-- ===== src/Calls/Session.antt =====
-- internal/core: a test from its calls to its final check.
use testigo.Base.{
  ℕ, ◌+◌, ◌^◌, ◌<◌, ◌≤◌, Bool, true, ◌||◌, List, [], map, All, some_of, length, ok, ◌≡◌, ◌↔◌, ◌⊎◌,
}
use testigo.Spy.Verify.{is_test_call, collect_calls}
use testigo.Spy.Uncovered.{covers}
use testigo.Runtime.{Runtime, collect_test_calls}
use testigo.Runtime.Steps.{IsFresh}
use testigo.Runtime.History.{Event, run, run-IsFresh}
use testigo.Runtime.Collected.{collect_test_calls-Unique}
use testigo.Calls.{TestVerifier, final_check}
use testigo.Calls.Sources.{Passed}
use testigo.Base.Text.{Text}
use testigo.Calls.Final.{Ended, outcomes_of, final_check-nil}

module _ {V : Type 0} (copy : V → V) (deep_equal : V → V → Bool) where
  -- After any history of calls and clears from a state whose records are apart, with fewer calls than
  -- the 64-bit counter can number, the final check of a goroutine ends without a panic and reports no
  -- failure exactly when every chain was ended or is met, the limit on assertions is kept, and, if the
  -- test has not failed before, each call gathered for the goroutine is the test's own or matched by a
  -- valid expectation, the place of every valid expectation can be read, and there are as many value
  -- assertions as the expectations require.
  pub final_check-run :
      (source : Text → List Text) (w : Runtime V) (es : List (Event V)) (fuel goroutine limit : ℕ)
      (failed : Bool) (tv : TestVerifier V)
      → w.call_seq + length es < 2 ^ 64
      → IsFresh w
      → let exps = map (λ p. p.exp) tv.pendings in
        (z : Runtime V) × (run copy w es ≡ ok z)
        × (let spies = collect_test_calls fuel z goroutine in
            (final_check deep_equal spies source limit failed tv ≡ ok []) ↔ (
              All (Ended deep_equal spies) tv.pendings
              × ((limit ≡ 0) ⊎ (tv.assertions ≤ limit))
              × ((failed ≡ true)
                  ⊎ (All
                        (λ c. (is_test_call c || some_of (λ a. covers deep_equal a c) exps) ≡ true)
                        (collect_calls spies)
                      × (All (Passed source) exps
                          × (((exps ≡ []) ⊎ (1 ≤ tv.value_asserts))
                              × All (λ a. outcomes_of a ≤ tv.value_asserts) exps))))))
  final_check-run source w es fuel goroutine limit failed tv fits h =
      let (z, ran, fresh, le) = run-IsFresh copy w es fits h in
      (
        z,
        ran,
        final_check-nil deep_equal (collect_test_calls fuel z goroutine) source limit failed tv
            (collect_test_calls-Unique z fresh fuel goroutine),
      )
