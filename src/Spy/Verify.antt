-- ===== src/Spy/Verify.antt =====
-- internal/core/spy.go: verifying expectations against the recorded calls. A message is the reason
-- with what it names, the text of the message left out.
use testigo.Base.{
  ℕ, zero, Bool, false, not, ◌&&◌, List, [], ◌∷◌, ◌++◌, none, some, length, if◌then◌else◌, ◌==◌,
  has, ltb, leb, select,
}
use testigo.Base.Int.{ℤ, pos, negsuc}
use testigo.Base.Text.{Text, codes, is_empty, has_prefix, text_dec}
use testigo.Base.Dict.{discard}
use testigo.Spy.{CallRecord, recorded, Expected, CalledFunc}
use testigo.Spy.Match.{
  CallMap, calls_of, expected_params_match, filter_matching_calls, consume_matching_calls,
  calls_by_func,
}

-- The branches of `buildMismatchedCallError`, and the other errors of a check.
pub data Reason (V : Type 0) : Type 0 where
  invalid : Text → Reason V
  other_caller : List Text → Reason V
  other_arguments : ℕ → Reason V
  not_called : Reason V
  wrong_count : ℕ → Reason V
  unexpected : List (CallRecord V) → Reason V

-- The call of `closestCall`, which the report of a failure draws, is left out.
pub record FailureRecord (V : Type 0) : Type 0 where
  pub failed_assertion : CalledFunc V
  pub reason : Reason V
  pub actual_count : ℕ
  pub related_calls : List (CallRecord V)

-- What `verifyExpectations` writes: its errors, the failures of the Spy, and the map of calls.
pub record Checked (V : Type 0) : Type 0 where
  pub errs : List (Reason V)
  pub failures : List (FailureRecord V)
  pub calls : CallMap V

-- `actualCount == times`, or `>=` for at least; a negative count is never met exactly.
unfoldable pub satisfied : ℕ → ℤ → Bool → Bool
satisfied count (pos n) at_least = if at_least then leb n count else count == n
satisfied count (negsuc n) at_least = at_least

module _ {V : Type 0} (deep_equal : V → V → Bool) where
  -- Who made the calls whose arguments fit: each name once.
  unfoldable pub callers_found : List (Expected V) → List (CallRecord V) → List Text
  unfolding expected_params_match recorded
  callers_found args [] = []
  callers_found args (c ∷ cs) =
      let rest = callers_found args cs in
      if expected_params_match deep_equal args (recorded c)
        && not (has text_dec c.caller_component rest)
      then c.caller_component ∷ rest
      else rest

  abbrev pub by_callers : List Text → ℕ → Reason V
  by_callers [] n = other_arguments n
  by_callers (t ∷ ts) n = other_caller (t ∷ ts)

  unfoldable pub build_mismatched_call_error : CalledFunc V → ℕ → List (CallRecord V) → Reason V
  unfolding callers_found
  build_mismatched_call_error a zero [] = not_called
  build_mismatched_call_error a zero (c ∷ cs) =
      if not (is_empty a.caller_component)
      then by_callers (callers_found a.expected_args (c ∷ cs)) (length (c ∷ cs))
      else other_arguments (length (c ∷ cs))
  build_mismatched_call_error a n cs = wrong_count n

  -- The `delete` of a method's calls once an expectation on it has failed.
  abbrev pub drop_failed : ℕ → List (CallRecord V) → Text → CallMap V → CallMap V
  drop_failed count calls name m =
      if count == 0 && ltb 0 (length calls)
      then discard text_dec name m
      else if ltb 0 count
      then discard text_dec name m
      else m

  -- One round of the loop of `verifyExpectations`.
  unfoldable pub verify_one : Checked V → CalledFunc V → Checked V
  unfolding satisfied build_mismatched_call_error filter_matching_calls consume_matching_calls
  verify_one s a = elim (a.err) [
    | some message ↦ record s { errs = s.errs ++ invalid message ∷ [] }
    | none ↦
        (let all_calls = calls_of s.calls a.func_name in
          let matching = filter_matching_calls deep_equal all_calls a in
          let count = length matching in
          if not (satisfied count a.times a.at_least)
          then (let why = build_mismatched_call_error a count all_calls in
              record {
                errs = s.errs ++ why ∷ [];
                failures =
                    s.failures
                    ++ record {
                      failed_assertion = a;
                      reason = why;
                      actual_count = count;
                      related_calls = all_calls;
                    }
                      ∷ [];
                calls = drop_failed count all_calls a.func_name s.calls;
              })
          else record s { calls = consume_matching_calls s.calls a.func_name matching })
  ]

  unfoldable pub verify_from : Checked V → List (CalledFunc V) → Checked V
  unfolding verify_one
  verify_from s [] = s
  verify_from s (a ∷ as_) = verify_from (verify_one s a) as_

  unfoldable pub verify_expectations : CallMap V → List (CalledFunc V) → Checked V
  unfolding verify_from
  verify_expectations calls as_ =
      verify_from (record { errs = []; failures = []; calls = calls }) as_

-- A call that the test itself makes.
abbrev pub is_test_call : {V : Type 0} → CallRecord V → Bool
is_test_call c = has_prefix c.caller_method (codes "Test")

-- The calls left in the map that the test did not make itself.
unfoldable pub unexpected_calls : {V : Type 0} → CallMap V → List (CallRecord V)
unfolding has_prefix
unexpected_calls [] = []
unexpected_calls ((name, cs) ∷ m) = select (λ c. not (is_test_call c)) cs ++ unexpected_calls m

abbrev pub unexpected_error : {V : Type 0} → List (CallRecord V) → List (Reason V)
unexpected_error [] = []
unexpected_error (c ∷ cs) = unexpected (c ∷ cs) ∷ []

unfoldable pub check_unexpected_calls : {V : Type 0} → CallMap V → List (Reason V)
unfolding unexpected_calls
check_unexpected_calls m = unexpected_error (unexpected_calls m)

-- `collectTestCalls`: the calls of every Spy of the set, one Spy after the other.
unfoldable pub collect_calls : {V : Type 0} → List (List (CallRecord V)) → List (CallRecord V)
collect_calls [] = []
collect_calls (cs ∷ spies) = cs ++ collect_calls spies

module _ {V : Type 0} (deep_equal : V → V → Bool) where
  -- The errors of `assertCalls`; none is success. The spies are those of the test, in the order in
  -- which the set is ranged over.
  unfoldable pub assert_calls :
      Bool → List (CalledFunc V) → List (List (CallRecord V)) → List (Reason V)
  unfolding verify_expectations collect_calls calls_by_func check_unexpected_calls
  assert_calls false [] spies = []
  assert_calls check_unexpected that spies =
      let checked = verify_expectations deep_equal (calls_by_func (collect_calls spies)) that in
      if check_unexpected
      then checked.errs ++ check_unexpected_calls checked.calls
      else checked.errs

  -- The loop of `checkUncoveredCalls`.
  unfoldable pub consume_all : CallMap V → List (CalledFunc V) → CallMap V
  unfolding filter_matching_calls consume_matching_calls calls_of
  consume_all m [] = m
  consume_all m (a ∷ as_) =
      let m' = elim (a.err) as (λ x. CallMap V) [
        | some message ↦ m
        | none ↦
            consume_matching_calls m a.func_name
              (filter_matching_calls deep_equal (calls_of m a.func_name) a)
      ] in
      consume_all m' as_

  unfoldable pub check_uncovered_calls :
      List (CalledFunc V) → List (List (CallRecord V)) → List (Reason V)
  unfolding consume_all collect_calls calls_by_func check_unexpected_calls
  check_uncovered_calls that spies =
      check_unexpected_calls (consume_all (calls_by_func (collect_calls spies)) that)
