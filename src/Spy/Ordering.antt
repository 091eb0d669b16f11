-- ===== src/Spy/Ordering.antt =====
-- internal/core/spy.go: when assertOrder succeeds.
use testigo.Base.{Bool, List, [], ◌∷◌, none, select, ◌≡◌, ◌≢◌, ◌↔◌, arith}
use testigo.Base.Int.{ℤ}
use testigo.Spy.{CallRecord, CalledFunc}
use testigo.Spy.Match.{calls_of, calls_by_func, filter_matching_calls}
use testigo.Spy.Verify.{collect_calls}
use testigo.Spy.Selecting.{matches, named, calls_of-calls_by_func}
use testigo.Spy.Counting.{filter-calls_of-matches}
use testigo.Spy.Order.{OrderKind, in_order, judge_order, assert_order}
use testigo.Spy.Extremes.{Ordered, order_holds-Ordered}

module _ {V : Type 0} where
  judge_order-Ordered :
      (kind : OrderKind) (window : ℤ) (xs ys : List (CallRecord V))
      → (judge_order kind window xs ys ≡ in_order)
        ↔ ((xs ≢ []) × (ys ≢ []) × Ordered kind window xs ys)
  judge_order-Ordered kind window [] ys = ground arith
  judge_order-Ordered kind window (a ∷ as_) [] = ground arith
  judge_order-Ordered kind window (a ∷ as_) (b ∷ bs) =
      ground (arith, order_holds-Ordered kind window a as_ b bs)

module _ {V : Type 0} (deep_equal : V → V → Bool) where
  -- An order chain succeeds exactly when both functions are valid, some recorded call matches the
  -- expectation, some recorded call is of a method with the name of the other function's, and the calls
  -- are ordered as the kind asks: before, every matching call has a smaller sequence number than every
  -- call of a method with this name, of whatever component; after, a larger one; within, some two of
  -- these calls are at most the window apart, which no two are for a negative window. The component of
  -- the other function plays no part, against the comments on Before and After.
  pub assert_order-Ordered :
      (a other : CalledFunc V) (kind : OrderKind) (window : ℤ) (spies : List (List (CallRecord V)))
      → (assert_order deep_equal a other kind window spies ≡ in_order) ↔ (
          (a.err ≡ none)
          × (other.err ≡ none)
          × (select (matches deep_equal a) (collect_calls spies) ≢ [])
          × (select (named other.func_name) (collect_calls spies) ≢ [])
          × Ordered kind window
              (select (matches deep_equal a) (collect_calls spies))
              (select (named other.func_name) (collect_calls spies)))
  unfolding assert_order
  assert_order-Ordered a other kind window spies =
      rw
        (
          ← filter-calls_of-matches deep_equal a (collect_calls spies),
          ← calls_of-calls_by_func (collect_calls spies) other.func_name,
        )
        (ground (
          arith,
          judge_order-Ordered kind window
              (filter_matching_calls deep_equal
                (calls_of (calls_by_func (collect_calls spies)) a.func_name) a)
              (calls_of (calls_by_func (collect_calls spies)) other.func_name),
        ))
