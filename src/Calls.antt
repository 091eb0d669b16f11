-- ===== src/Calls.antt =====
-- internal/core/calls.go: the chains that a test writes, and the check at its end. A Fatal ends the
-- test's goroutine, so a chain stops there. A report is what a check states, the text left out.
pub mod Chains
pub mod Final
pub mod Counted
pub mod Ignored
pub mod Sources
pub mod Session
mod Tests
use testigo.Base.{
  Outcome, ok, panic, ◌>>=◌, ℕ, zero, suc, ◌+◌, Bool, true, false, not, ◌&&◌, ◌||◌, List, [], ◌∷◌,
  ◌++◌, map, Option, none, some, if◌then◌else◌, ◌==◌, ltb, ℕ_discrete,
}
use testigo.Base.Int.{ℤ, pos}
use testigo.Base.Text.{Text, is_empty}
use testigo.Base.Dict.{store, discard}
use testigo.Spy.{CallRecord, Expected, CalledFunc}
use testigo.Spy.Names.{dot}
use testigo.Spy.Verify.{Reason, assert_calls, check_uncovered_calls}
use testigo.Calls.Ignored.{ignored_returned_values, IgnoredReturn}
use testigo.Spy.Order.{OrderKind, OrderResult, in_order, assert_order}
use mathlib.Core.List.{lookup}
use mathlib.Core.Option

pub record PendingCall (V : Type 0) : Type 0 where
  pub exp : CalledFunc V
  pub done : Bool

-- `Called`: a chain on a new expectation.
abbrev pub called : {V : Type 0} → CalledFunc V → PendingCall V
called exp = record { exp = exp; done = false }

-- The methods that end or continue a chain.
pub data Link (V : Type 0) : Type 0 where
  with_params : List (Expected V) → Link V
  once twice three_times never at_least_once : Link V
  times : ℤ → Link V
  before_call after_call : CalledFunc V → Link V
  within_call : ℤ → CalledFunc V → Link V

-- What a Fatal says.
pub data Failure (V : Type 0) : Type 0 where
  unmet : List (Reason V) → Failure V
  misordered : OrderResult → Failure V

-- A chain after a method, and the Fatal if there was one.
abbrev pub Linked : Type 0 → Type 0
Linked V = PendingCall V × Option (Failure V)

abbrev pub judge_calls : {V : Type 0} → List (Reason V) → Option (Failure V)
judge_calls [] = none
judge_calls (e ∷ es) = some (unmet (e ∷ es))

abbrev pub judge_order : {V : Type 0} → OrderResult → Option (Failure V)
judge_order in_order = none
judge_order result = some (misordered result)

module _ {V : Type 0} (deep_equal : V → V → Bool) (spies : List (List (CallRecord V))) where
  unfoldable pub finish : ℤ → Bool → PendingCall V → Linked V
  unfolding assert_calls
  finish n at_least p =
      let exp = record p.exp { times = n; at_least = at_least } in
      (
        record { exp = exp; done = true },
        judge_calls (assert_calls deep_equal false (exp ∷ []) spies),
      )

  -- `Before`, `After` and `Within`
  unfoldable pub finish_order : OrderKind → ℤ → CalledFunc V → PendingCall V → Linked V
  unfolding assert_order
  finish_order kind window other p = (
    record p { done = true },
    judge_order (assert_order deep_equal p.exp other kind window spies),
  )

  unfoldable pub link : Link V → PendingCall V → Linked V
  unfolding finish finish_order
  link (with_params args) p =
      finish (pos 1) false (record p { exp = record p.exp { expected_args = args } })
  link once p = finish (pos 1) false p
  link twice p = finish (pos 2) false p
  link three_times p = finish (pos 3) false p
  link (times n) p = finish n false p
  link never p = finish (pos 0) false p
  link at_least_once p = finish (pos 1) true p
  link (before_call other) p = finish_order OrderKind.before (pos 0) other p
  link (after_call other) p = finish_order OrderKind.after (pos 0) other p
  link (within_call window other) p = finish_order OrderKind.within window other p

  -- A chain of methods, up to the first Fatal.
  unfoldable pub chain : List (Link V) → PendingCall V → Linked V
  unfolding link
  chain [] p = (p, none)
  chain (l ∷ ls) p =
      let (q, failure) = link l p in elim failure [ none ↦ chain ls q | some f ↦ (q, some f) ]

pub record TestVerifier (V : Type 0) : Type 0 where
  pub pendings : List (PendingCall V)
  pub value_asserts : ℕ
  pub assertions : ℕ

abbrev pub new_verifier : {V : Type 0} → TestVerifier V
new_verifier = record { pendings = []; value_asserts = 0; assertions = 0 }

-- `testVerifiers`: the verifier of each goroutine.
abbrev pub Verifiers : Type 0 → Type 0
Verifiers V = List (ℕ × TestVerifier V)

module _ {V : Type 0} where
  -- `armFinalCheck`: LoadOrStore. Run calls it for a subtest, and Called for a chain.
  unfoldable pub arm_final_check : ℕ → Verifiers V → TestVerifier V × Verifiers V
  arm_final_check goroutine vs = elim (lookup ℕ_discrete goroutine vs) [
    | some tv ↦ (tv, vs)
    | none ↦ (new_verifier, store ℕ_discrete goroutine new_verifier vs)
  ]

  unfoldable pub register_for_final_check : ℕ → PendingCall V → Verifiers V → Verifiers V
  unfolding arm_final_check
  register_for_final_check goroutine p vs =
      let (tv, armed) = arm_final_check goroutine vs in
      store ℕ_discrete goroutine
        (record tv { pendings = tv.pendings ++ p ∷ []; assertions = tv.assertions + 1 }) armed

  -- An assertion counts only where a verifier is armed.
  unfoldable pub note_value_assertion : ℕ → Verifiers V → Verifiers V
  note_value_assertion goroutine vs = elim (lookup ℕ_discrete goroutine vs) [
    | some tv ↦
        store ℕ_discrete goroutine
          (record tv { value_asserts = tv.value_asserts + 1; assertions = tv.assertions + 1 }) vs
    | none ↦ vs
  ]

  unfoldable pub display_name : CalledFunc V → Text
  display_name a =
      if is_empty a.callee_component then a.func_name else a.callee_component ++ dot ∷ a.func_name

  -- The loop of `requiredValueAssertions`.
  unfoldable pub require_from : ℕ × List Text → List (CalledFunc V) → ℕ × List Text
  unfolding display_name
  require_from s [] = s
  require_from (required, sources) (a ∷ as_) =
      require_from
        (elim (a.err) as (λ x. ℕ × List Text) [
          | some message ↦ (required, sources)
          | none ↦
              if ltb required a.return_count
              then (a.return_count, display_name a ∷ [])
              else if (a.return_count == required) && ltb 0 a.return_count
              then (required, sources ++ display_name a ∷ [])
              else (required, sources)
        ])
        as_

  unfoldable pub required_value_assertions : List (CalledFunc V) → ℕ × List Text
  unfolding require_from
  required_value_assertions [] = (0, [])
  required_value_assertions (a ∷ as_) = require_from (1, []) (a ∷ as_)

-- `maxAssertionsPerTest`, and what the build tag testigo_allow_many_assertions makes of it.
abbrev pub max_assertions_per_test : ℕ
max_assertions_per_test = 3

abbrev pub max_assertions_relaxed : ℕ
max_assertions_relaxed = 0

-- What the check at the end reports as a failure.
pub data Report (V : Type 0) : Type 0 where
  unmet_chain : List (Reason V) → Report V
  too_many_assertions : ℕ → Report V
  uncovered_calls : List (Reason V) → Report V
  missing_outcomes : ℕ → ℕ → List Text → Report V

-- A call that no expectation covers ends the check.
abbrev pub judge_uncovered :
    {V : Type 0} → List (Reason V) → Outcome (List (Report V)) → Outcome (List (Report V))
judge_uncovered [] rest = rest
judge_uncovered (e ∷ es) rest = ok (uncovered_calls (e ∷ es) ∷ [])

-- The warning on ignored results is only printed, but its search can panic.
abbrev pub judge_outcomes :
    {V : Type 0} → ℕ → ℕ × List Text → Outcome (List IgnoredReturn) → Outcome (List (Report V))
judge_outcomes value_asserts (required, sources) panic = panic
judge_outcomes value_asserts (required, sources) (ok ignored) = ok (
    if ltb value_asserts required then missing_outcomes value_asserts required sources ∷ [] else [])

-- `t.Failed()`, once these reports are made.
abbrev pub has_failed : {V : Type 0} → Bool → List (Report V) → Bool
has_failed failed [] = failed
has_failed failed (r ∷ rs) = true

module _ {V : Type 0} (deep_equal : V → V → Bool) (spies : List (List (CallRecord V))) where
  -- The chains that no method ended are checked as they are.
  unfoldable pub finish_pending : PendingCall V → List (Report V)
  unfolding assert_calls
  finish_pending p =
      if p.done then [] else elim (assert_calls deep_equal false (p.exp ∷ []) spies) [
        | [] ↦ []
        | e ∷ es ↦ unmet_chain (e ∷ es) ∷ []
      ]

  unfoldable pub finish_pendings : List (PendingCall V) → List (Report V)
  unfolding finish_pending
  finish_pendings [] = []
  finish_pendings (p ∷ ps) = finish_pending p ++ finish_pendings ps

  -- The end of `finalCheck`.
  unfoldable pub check_outcomes :
      (Text → List Text) → ℕ → List (CalledFunc V) → Outcome (List (Report V))
  unfolding check_uncovered_calls required_value_assertions ignored_returned_values
  check_outcomes source value_asserts exps =
      judge_uncovered (check_uncovered_calls deep_equal exps spies) (
        judge_outcomes value_asserts (required_value_assertions exps)
          (ignored_returned_values source exps))

  -- `limit` is maxAssertionsPerTest, `failed` whether the test has failed before, `source` sourceLines.
  unfoldable pub final_check :
      (Text → List Text) → ℕ → Bool → TestVerifier V → Outcome (List (Report V))
  unfolding finish_pendings check_outcomes
  final_check source limit failed tv =
      let reports = finish_pendings tv.pendings in
      let exps = map (λ p. p.exp) tv.pendings in
      if ltb 0 limit && ltb limit tv.assertions
      then ok (reports ++ too_many_assertions tv.assertions ∷ [])
      else if has_failed failed reports
      then ok reports
      else check_outcomes source tv.value_asserts exps
