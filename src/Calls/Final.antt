-- ===== src/Calls/Final.antt =====
-- internal/core/calls.go: when finalCheck reports no failure.
use testigo.Base.{
  ap, Outcome, ok, panic, ℕ, ◌≤◌, Bool, true, false, ◌&&◌, ◌||◌, List, [], ◌∷◌, ◌++◌, map, none,
  some, All, Unique, some_of, ◌==◌, ltb, ℕ_discrete, ◌≡◌, ◌↔◌, ◌⊎◌, refl, arith, inl, inr,
  Option-cases, Bool-cases,
}
use testigo.Base.Text.{Text}
use testigo.Spy.{CallRecord, CalledFunc}
use testigo.Spy.Verify.{
  Reason, satisfied, collect_calls, assert_calls, is_test_call, check_uncovered_calls,
}
use testigo.Spy.Selecting.{seqs}
use testigo.Spy.Counting.{assert_calls-satisfied}
use testigo.Spy.Uncovered.{covers, check_uncovered_calls-nil}
use testigo.Calls.Ignored.{ignored_returned_values}
use testigo.Calls.{
  judge_uncovered, judge_outcomes, display_name, too_many_assertions, PendingCall, TestVerifier,
  require_from, required_value_assertions, Report, finish_pending, finish_pendings, has_failed,
  check_outcomes, final_check,
}
use testigo.Calls.Sources.{Passed, ignored_returned_values-cases}
use testigo.Calls.Chains.{call_count}

-- How many outcomes an expectation asks for.
abbrev pub outcomes_of : {V : Type 0} → CalledFunc V → ℕ
outcomes_of a = elim (a.err) [ none ↦ a.return_count | some message ↦ 0 ]

append_eq_nil : {A : Type 0} (xs ys : List A) → (xs ++ ys ≡ []) ↔ ((xs ≡ []) × (ys ≡ []))
append_eq_nil [] ys = ground arith
append_eq_nil (x ∷ xs) ys = ground arith

module _ {V : Type 0} where
  require_from-le :
      (v required : ℕ) (sources : List Text) (as_ : List (CalledFunc V))
      → ((require_from (required, sources) as_).0 ≤ v)
        ↔ ((required ≤ v) × All (λ a. outcomes_of a ≤ v) as_)
  unfolding require_from
  require_from-le v required sources [] = ground arith
  require_from-le v required sources (a ∷ as_) = elim (Option-cases (a.err)) [
    | inr (message, bad) ↦ rw bad (ground (arith, require_from-le v required sources as_))
    | inl valid ↦ rw valid (elim (Bool-cases (ltb required a.return_count)) [
      | inl more ↦
          rw more (ground (arith, require_from-le v a.return_count (display_name a ∷ []) as_))
      | inr fewer ↦
          rw fewer (elim (Bool-cases ((a.return_count == required) && ltb 0 a.return_count)) [
            | inl same_count ↦
                rw same_count
                  (ground (arith, require_from-le v required (sources ++ display_name a ∷ []) as_))
            | inr other ↦ rw other (ground (arith, require_from-le v required sources as_))
          ])
    ])
  ]

  -- The number of value assertions is enough exactly when there is one if anything is expected, and
  -- as many as each function has results.
  pub required_value_assertions-le :
      (v : ℕ) (as_ : List (CalledFunc V))
      → ((required_value_assertions as_).0 ≤ v)
        ↔ (((as_ ≡ []) ⊎ (1 ≤ v)) × All (λ a. outcomes_of a ≤ v) as_)
  unfolding required_value_assertions
  required_value_assertions-le v [] = ground arith
  required_value_assertions-le v (a ∷ as_) = ground (arith, require_from-le v 1 [] (a ∷ as_))

module _ {V : Type 0} (deep_equal : V → V → Bool) (spies : List (List (CallRecord V))) where
  -- The chain was ended by a method, or its expectation is met.
  abbrev pub Ended : PendingCall V → Type 0
  Ended p =
      (p.done ≡ true)
      ⊎ ((p.exp.err ≡ none)
          × (satisfied (call_count deep_equal spies p.exp) p.exp.times p.exp.at_least ≡ true))

  finish_pending-nil : (p : PendingCall V) → (finish_pending deep_equal spies p ≡ []) ↔ Ended p
  unfolding finish_pending
  finish_pending-nil p = go (assert_calls deep_equal false (p.exp ∷ []) spies) refl
    where
      go :
          (es : List (Reason V))
          → assert_calls deep_equal false (p.exp ∷ []) spies ≡ es
          → (finish_pending deep_equal spies p ≡ []) ↔ Ended p
      go [] e = ground (arith, assert_calls-satisfied deep_equal p.exp spies, e)
      go (r ∷ rs) e = ground (arith, assert_calls-satisfied deep_equal p.exp spies, e)

  finish_pendings-nil :
      (ps : List (PendingCall V)) → (finish_pendings deep_equal spies ps ≡ []) ↔ All Ended ps
  unfolding finish_pendings
  finish_pendings-nil [] = ground arith
  finish_pendings-nil (p ∷ ps) = ground (
    arith,
    append_eq_nil (finish_pending deep_equal spies p) (finish_pendings deep_equal spies ps),
    finish_pending-nil p,
    finish_pendings-nil ps,
  )

  has_failed-cases :
      (failed : Bool) (l : List (Report V))
      → ((has_failed failed l ≡ true) × (failed ≡ true))
        ⊎ ((has_failed failed l ≡ failed) × (l ≡ []))
        ⊎ ((has_failed failed l ≡ true) × ¬ (l ≡ []))
  has_failed-cases failed [] = ground arith
  has_failed-cases failed (r ∷ rs) = ground arith

  judge_uncovered-nil :
      (es : List (Reason V)) (rest : Outcome (List (Report V)))
      → (judge_uncovered es rest ≡ ok []) ↔ ((es ≡ []) × (rest ≡ ok []))
  judge_uncovered-nil [] rest = ground arith
  judge_uncovered-nil (r ∷ rs) rest = ground arith

  check_outcomes-nil :
      (source : Text → List Text) (v : ℕ) (exps : List (CalledFunc V))
      → (check_outcomes deep_equal spies source v exps ≡ ok []) ↔ (
          (check_uncovered_calls deep_equal exps spies ≡ [])
          × (All (Passed source) exps × ((required_value_assertions exps).0 ≤ v)))
  unfolding check_outcomes
  check_outcomes-nil source v exps =
      let required = required_value_assertions exps in
      elim (ignored_returned_values-cases source exps) [
        | inl (all, (l, ran)) ↦
            (let judged : (judge_outcomes {V = V} v required (ignored_returned_values source exps))
                  ≡ judge_outcomes v required (ok l) =
                ap (judge_outcomes v required) ran in
              ground (
                arith,
                all,
                judged,
                judge_uncovered-nil (check_uncovered_calls deep_equal exps spies)
                    (judge_outcomes v required (ignored_returned_values source exps)),
              ))
        | inr (bad, ran) ↦
            (let judged : (judge_outcomes {V = V} v required (ignored_returned_values source exps))
                  ≡ judge_outcomes v required panic =
                ap (judge_outcomes v required) ran in
              ground (
                arith,
                bad,
                judged,
                judge_uncovered-nil (check_uncovered_calls deep_equal exps spies)
                    (judge_outcomes v required (ignored_returned_values source exps)),
              ))
      ]

  -- The check at a test's end ends without a panic and reports no failure exactly when every chain was
  -- ended by a method or is met, the test makes at most as many assertions as the limit (0 for no limit),
  -- and, if the test has not failed before, every recorded call is the test's own or is matched by a
  -- valid expectation, the place of every valid expectation can be read, there is a value assertion if
  -- anything is expected, and there are as many as each valid expectation's function has results. No two
  -- records share a sequence number.
  pub final_check-nil :
      (source : Text → List Text) (limit : ℕ) (failed : Bool) (tv : TestVerifier V)
      → Unique ℕ_discrete (seqs (collect_calls spies))
      → let exps = map (λ p. p.exp) tv.pendings in
        (final_check deep_equal spies source limit failed tv ≡ ok []) ↔ (
          All Ended tv.pendings
          × ((limit ≡ 0) ⊎ (tv.assertions ≤ limit))
          × ((failed ≡ true)
              ⊎ (All
                    (λ c. (is_test_call c || some_of (λ a. covers deep_equal a c) exps) ≡ true)
                    (collect_calls spies)
                  × (All (Passed source) exps
                      × (((exps ≡ []) ⊎ (1 ≤ tv.value_asserts))
                          × All (λ a. outcomes_of a ≤ tv.value_asserts) exps)))))
  unfolding final_check
  final_check-nil source limit failed tv u =
      let exps = map (λ p. p.exp) tv.pendings in
      let reports = finish_pendings deep_equal spies tv.pendings in
      ground (
        arith,
        append_eq_nil reports (too_many_assertions tv.assertions ∷ []),
        has_failed-cases failed reports,
        finish_pendings-nil tv.pendings,
        check_outcomes-nil source tv.value_asserts exps,
        check_uncovered_calls-nil deep_equal exps spies u,
        required_value_assertions-le tv.value_asserts exps,
      )
