-- ===== src/Calls/Chains.antt =====
-- internal/core/calls.go: when a chain of methods ends without a Fatal.
use testigo.Base.{
  ℕ, Bool, true, false, List, [], ◌∷◌, Option, none, some, length, select, ◌≤◌, ◌≡◌, ◌≢◌, ◌↔◌, refl,
  arith,
}
use testigo.Base.Int.{ℤ, pos, negsuc}
use testigo.Spy.{CallRecord, Expected, CalledFunc}
use testigo.Spy.Verify.{Reason, satisfied, collect_calls, assert_calls}
use testigo.Spy.Selecting.{matches, named}
use testigo.Spy.Counting.{assert_calls-satisfied}
use testigo.Spy.Order.{OrderKind, OrderResult, in_order, assert_order}
use testigo.Spy.Extremes.{Ordered}
use testigo.Spy.Ordering.{assert_order-Ordered}
use testigo.Calls.{
  PendingCall, called, Link, with_params, once, twice, three_times, never, at_least_once, times,
  before_call, after_call, within_call, Failure, judge_calls, judge_order, finish, finish_order,
  link, chain,
}

module _ {V : Type 0} (deep_equal : V → V → Bool) (spies : List (List (CallRecord V))) where
  -- The number of recorded calls that match.
  abbrev pub call_count : CalledFunc V → ℕ
  call_count a = length (select (matches deep_equal a) (collect_calls spies))

  -- Some call matches, some call is of a method with the name of the other function's, whatever its
  -- component, and the kind's order holds between these.
  abbrev pub Arranged : OrderKind → ℤ → CalledFunc V → CalledFunc V → Type 0
  Arranged kind window a other =
      (other.err ≡ none)
      × (select (matches deep_equal a) (collect_calls spies) ≢ [])
      × (select (named other.func_name) (collect_calls spies) ≢ [])
      × Ordered kind window (select (matches deep_equal a) (collect_calls spies))
          (select (named other.func_name) (collect_calls spies))

  judge_calls-none : (l : List (Reason V)) → (judge_calls l ≡ none) ↔ (l ≡ [])
  judge_calls-none [] = ground arith
  judge_calls-none (e ∷ es) = ground arith

  finish-none :
      (n : ℤ) (at_least : Bool) (p : PendingCall V)
      → ((finish deep_equal spies n at_least p).1 ≡ none)
        ↔ ((p.exp.err ≡ none) × (satisfied (call_count p.exp) n at_least ≡ true))
  unfolding finish
  finish-none n at_least p =
      let exp = record p.exp { times = n; at_least = at_least } in
      ground (
        arith,
        judge_calls-none (assert_calls deep_equal false (exp ∷ []) spies),
        assert_calls-satisfied deep_equal exp spies,
      )

  -- A chain goes on where a method ended without a Fatal.
  chain-cons :
      (l : Link V) (ls : List (Link V)) (p : PendingCall V)
      → ((chain deep_equal spies (l ∷ ls) p).1 ≡ none) ↔ (
          ((link deep_equal spies l p).1 ≡ none)
          × ((chain deep_equal spies ls (link deep_equal spies l p).0).1 ≡ none))
  unfolding chain
  chain-cons l ls p = go (link deep_equal spies l p).1 refl
    where
      go :
          (o : Option (Failure V))
          → (link deep_equal spies l p).1 ≡ o
          → ((chain deep_equal spies (l ∷ ls) p).1 ≡ none) ↔ (
              ((link deep_equal spies l p).1 ≡ none)
              × ((chain deep_equal spies ls (link deep_equal spies l p).0).1 ≡ none))
      go none e = rw e (ground arith, ground arith)
      go (some f) e = rw e (ground arith, ground arith)

  satisfied_exactly : (count : ℕ) (n : ℤ) → (satisfied count n false ≡ true) ↔ (n ≡ pos count)
  unfolding satisfied
  satisfied_exactly count (pos n) = ground arith
  satisfied_exactly count (negsuc n) = ground arith

  -- A chain that gives arguments and then a count ends without a Fatal exactly when the function is
  -- valid, exactly one recorded call matches it with these arguments, and the count is one: the
  -- method that gives the arguments has already asked for exactly one call.
  pub with_params_times :
      (a : CalledFunc V) (args : List (Expected V)) (n : ℤ)
      → ((chain deep_equal spies (with_params args ∷ times n ∷ []) (called a)).1 ≡ none)
        ↔ ((a.err ≡ none) × (call_count (record a { expected_args = args }) ≡ 1) × (n ≡ pos 1))
  unfolding chain link
  with_params_times a args n =
      let p = called a in
      let q = (link deep_equal spies (with_params args) p).0 in
      ground (
        arith,
        chain-cons (with_params args) (times n ∷ []) p,
        chain-cons (times n) [] q,
        finish-none (pos 1) false (record p { exp = record a { expected_args = args } }),
        finish-none n false q,
        satisfied_exactly (call_count (record a { expected_args = args })) n,
        satisfied_exactly (call_count (record a { expected_args = args })) (pos 1),
      )

  judge_order-none : (r : OrderResult) → (judge_order {V = V} r ≡ none) ↔ (r ≡ in_order)
  judge_order-none r = ground arith

  -- What a method asks of the recorded calls.
  abbrev pub Asked : Link V → CalledFunc V → Type 0
  Asked (with_params args) a = call_count (record a { expected_args = args }) ≡ 1
  Asked once a = call_count a ≡ 1
  Asked twice a = call_count a ≡ 2
  Asked three_times a = call_count a ≡ 3
  Asked never a = call_count a ≡ 0
  Asked at_least_once a = 1 ≤ call_count a
  Asked (times n) a = n ≡ pos (call_count a)
  Asked (before_call other) a = Arranged OrderKind.before (pos 0) a other
  Asked (after_call other) a = Arranged OrderKind.after (pos 0) a other
  Asked (within_call window other) a = Arranged OrderKind.within window a other

  satisfied_at_least : (count : ℕ) → (satisfied count (pos 1) true ≡ true) ↔ (1 ≤ count)
  unfolding satisfied
  satisfied_at_least count = ground arith

  finish_order-none :
      (kind : OrderKind) (window : ℤ) (other : CalledFunc V) (p : PendingCall V)
      → ((finish_order deep_equal spies kind window other p).1 ≡ none)
        ↔ ((p.exp.err ≡ none) × Arranged kind window p.exp other)
  unfolding finish_order
  finish_order-none kind window other p = ground (
    arith,
    judge_order-none (assert_order deep_equal p.exp other kind window spies),
    assert_order-Ordered deep_equal p.exp other kind window spies,
  )

  -- A method of a chain ends without a Fatal exactly when the function is valid and the recorded calls
  -- are as it asks: the count of matching calls for Once, Twice, ThreeTimes, Times, Never, AtLeastOnce
  -- and (with its arguments) WithParams; for Before, After and Within the order of the matching calls
  -- and the calls of every method with the other function's name. The component of the other function
  -- plays no part, against the comments on Before and After.
  pub link-Asked :
      (l : Link V) (p : PendingCall V)
      → ((link deep_equal spies l p).1 ≡ none) ↔ ((p.exp.err ≡ none) × Asked l p.exp)
  unfolding link
  link-Asked (with_params args) p =
      let q = record p { exp = record p.exp { expected_args = args } } in
      ground (arith, finish-none (pos 1) false q, satisfied_exactly (call_count q.exp) (pos 1))
  link-Asked once p =
      ground (arith, finish-none (pos 1) false p, satisfied_exactly (call_count p.exp) (pos 1))
  link-Asked twice p =
      ground (arith, finish-none (pos 2) false p, satisfied_exactly (call_count p.exp) (pos 2))
  link-Asked three_times p =
      ground (arith, finish-none (pos 3) false p, satisfied_exactly (call_count p.exp) (pos 3))
  link-Asked never p =
      ground (arith, finish-none (pos 0) false p, satisfied_exactly (call_count p.exp) (pos 0))
  link-Asked at_least_once p =
      ground (arith, finish-none (pos 1) true p, satisfied_at_least (call_count p.exp))
  link-Asked (times n) p =
      ground (arith, finish-none n false p, satisfied_exactly (call_count p.exp) n)
  link-Asked (before_call other) p = finish_order-none OrderKind.before (pos 0) other p
  link-Asked (after_call other) p = finish_order-none OrderKind.after (pos 0) other p
  link-Asked (within_call window other) p = finish_order-none OrderKind.within window other p
