-- ===== src/Calls/Tests.antt =====
-- internal/core/calls.go: the theorems on chains and on the final check at a concrete run.
use testigo.Base.{
  List, ℕ, ◌<◌, ◌≤◌, ◌==◌, true, false, ◌||◌, [], ◌∷◌, map, none, All, has, some_of, ℕ_discrete, ok,
  panic, ◌≡◌, ◌↔◌, ◌⊎◌, refl, arith,
}
use testigo.Base.Int.{pos}
use testigo.Spy.{exactly}
use testigo.Spy.Verify.{is_test_call, collect_calls}
use testigo.Spy.Uncovered.{covers}
use testigo.Spy.Tests.{both_spies, charged, charged_70, notified}
use testigo.Runtime.{Runtime, collect_test_calls}
use testigo.Runtime.History.{run}
use testigo.Runtime.Tests.{copy, started, events, started-IsFresh}
use testigo.Calls.{
  called, with_params, times, before_call, link, chain, TestVerifier, max_assertions_per_test,
  final_check,
}
use testigo.Calls.Chains.{call_count, Asked, with_params_times, link-Asked}
use testigo.Calls.Final.{Ended, outcomes_of, final_check-nil}
use testigo.Calls.Counted.{starts, asserts, ends, notice_all, alone, notice_all-alone}
use testigo.Base.Text.{Text, codes, is_empty}
use testigo.Calls.Ignored.{scan_site}
use testigo.Calls.Sources.{scan_site-panic, Passed}
use testigo.Calls.Session.{final_check-run}
use mathlib.Core.List.{lookup}

-- The lines of each file.
abbrev lines_of : Text → List Text
lines_of file = codes "func TestPay() {" ∷ codes "_ = g.Pay(50)" ∷ []

-- Two chains, the first ended by a method, and one value assertion.
abbrev verifier : TestVerifier ℕ
verifier = record {
  pendings = record { exp = charged_70; done = true } ∷ called notified ∷ [];
  value_asserts = 1;
  assertions = 3;
}

link-Asked_example :
    ((link ◌==◌ both_spies (before_call notified) (called charged)).1 ≡ none)
    ↔ ((charged.err ≡ none) × Asked ◌==◌ both_spies (before_call notified) charged)
link-Asked_example = link-Asked ◌==◌ both_spies (before_call notified) (called charged)

with_params_times_example :
    ((chain ◌==◌ both_spies (with_params (exactly 50 ∷ []) ∷ times (pos 2) ∷ []) (called charged)).1
      ≡ none)
    ↔ ((charged.err ≡ none)
        × (call_count ◌==◌ both_spies (record charged { expected_args = exactly 50 ∷ [] }) ≡ 1)
        × (pos 2 ≡ pos 1))
with_params_times_example = with_params_times ◌==◌ both_spies charged (exactly 50 ∷ []) (pos 2)

final_check-nil_example :
    let exps = map (λ p. p.exp) verifier.pendings in
    (final_check ◌==◌ both_spies lines_of max_assertions_per_test false verifier ≡ ok []) ↔ (
      All (Ended ◌==◌ both_spies) verifier.pendings
      × ((max_assertions_per_test ≡ 0) ⊎ (3 ≤ 3))
      × ((false ≡ true)
          ⊎ (All
                (λ c. (is_test_call c || some_of (λ a. covers ◌==◌ a c) exps) ≡ true)
                (collect_calls both_spies)
              × (All (Passed lines_of) exps
                  × (((exps ≡ []) ⊎ (1 ≤ 1)) × All (λ a. outcomes_of a ≤ 1) exps)))))
unfolding collect_calls has ℕ_discrete
final_check-nil_example =
    final_check-nil ◌==◌ both_spies lines_of max_assertions_per_test false verifier
      (refl, (refl, (refl, tt)))

final_check-run_example :
    let exps = map (λ p. p.exp) verifier.pendings in
    (z : Runtime ℕ) × (run copy started events ≡ ok z)
    × (let spies = collect_test_calls 6 z 1 in
        (final_check ◌==◌ spies lines_of max_assertions_per_test false verifier ≡ ok []) ↔ (
          All (Ended ◌==◌ spies) verifier.pendings
          × ((max_assertions_per_test ≡ 0) ⊎ (3 ≤ 3))
          × ((false ≡ true)
              ⊎ (All
                    (λ c. (is_test_call c || some_of (λ a. covers ◌==◌ a c) exps) ≡ true)
                    (collect_calls spies)
                  × (All (Passed lines_of) exps
                      × (((exps ≡ []) ⊎ (1 ≤ 1)) × All (λ a. outcomes_of a ≤ 1) exps))))))
final_check-run_example =
    final_check-run copy ◌==◌ lines_of started events 6 1 max_assertions_per_test false verifier
      (omega arith) started-IsFresh

notice_all-alone_example :
    let ns =
      asserts 1
      ∷ starts 1 (called charged)
      ∷ starts 2 (called notified)
      ∷ asserts 1
      ∷ ends 2
      ∷ [] in
    lookup ℕ_discrete 1 (notice_all [] ns) ≡ alone 1 none ns
unfolding lookup
notice_all-alone_example =
    notice_all-alone 1 []
      (asserts 1 ∷ starts 1 (called charged) ∷ starts 2 (called notified) ∷ asserts 1 ∷ ends 2 ∷ [])
      tt

-- A chain that asks for two calls with the arguments ends in a Fatal.
two_with_params :
    (chain ◌==◌ both_spies (with_params (exactly 50 ∷ []) ∷ times (pos 2) ∷ []) (called charged)).1
      ≡ none
    → ⊥
two_with_params h =
    ground (arith, with_params_times ◌==◌ both_spies charged (exactly 50 ∷ []) (pos 2))

-- A file that cannot be read, and an expectation on its line 3.
scan_site-panic_example :
    (scan_site (λ f. []) charged ([], []) ≡ panic)
    ↔ ((is_empty charged.site_file ≡ false) × (1 < 3))
scan_site-panic_example = scan_site-panic (λ f. []) charged ([], [])
