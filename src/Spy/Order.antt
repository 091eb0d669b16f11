-- ===== src/Spy/Order.antt =====
-- internal/core/spy.go: assertOrder, and the loops that find the extreme calls. Times are numbers of
-- nanoseconds, and a message is the reason that it states.
use testigo.Base.{
  ℕ, ◌+◌, ◌-◌, ◌==◌, Bool, true, false, List, [], ◌∷◌, Option, none, some, ltb, leb, if◌then◌else◌,
}
use testigo.Base.Int.{ℤ, pos, negsuc}
use testigo.Base.Text.{Text}
use testigo.Spy.{CallRecord, CalledFunc}
use testigo.Spy.Match.{calls_of, calls_by_func, filter_matching_calls}
use testigo.Spy.Verify.{collect_calls}

pub data OrderKind : Type 0 where
  before after within : OrderKind

pub data OrderResult : Type 0 where
  in_order : OrderResult
  invalid : Text → OrderResult
  never_called : OrderResult
  other_never_called : OrderResult
  out_of_order : OrderResult

-- `best < 0 || gap < best`: none stands for -1, the gap of no pair.
abbrev pub closer : Option ℕ → ℕ → Option ℕ
closer none g = some g
closer (some best) g = if ltb g best then some g else some best

-- `gap <= window`, where a Duration can be negative.
abbrev pub in_window : Option ℕ → ℤ → Bool
in_window none (pos w) = true
in_window none (negsuc w) = w == 0
in_window (some g) (pos w) = leb g w
in_window (some g) (negsuc w) = false

module _ {V : Type 0} where
  -- The loops start from the first call and look at the others.
  unfoldable pub max_seq_call : CallRecord V → List (CallRecord V) → CallRecord V
  max_seq_call latest [] = latest
  max_seq_call latest (c ∷ cs) = max_seq_call (if ltb latest.seq c.seq then c else latest) cs

  unfoldable pub min_seq_call : CallRecord V → List (CallRecord V) → CallRecord V
  min_seq_call earliest [] = earliest
  min_seq_call earliest (c ∷ cs) = min_seq_call (if ltb c.seq earliest.seq then c else earliest) cs

  -- The distance of two times.
  abbrev pub gap : CallRecord V → CallRecord V → ℕ
  gap x y = (x.time - y.time) + (y.time - x.time)

  unfoldable pub closest_to : Option ℕ → CallRecord V → List (CallRecord V) → Option ℕ
  closest_to best x [] = best
  closest_to best x (y ∷ ys) = closest_to (closer best (gap x y)) x ys

  unfoldable pub closest_pair : Option ℕ → List (CallRecord V) → List (CallRecord V) → Option ℕ
  unfolding closest_to
  closest_pair best [] ys = best
  closest_pair best (x ∷ xs) ys = closest_pair (closest_to best x ys) xs ys

  -- The switch over the kinds, on calls that are there.
  unfoldable pub order_holds :
      OrderKind → ℤ → CallRecord V → List (CallRecord V) → CallRecord V → List (CallRecord V) → Bool
  unfolding max_seq_call min_seq_call closest_pair
  order_holds before window a as_ b bs = ltb (max_seq_call a as_).seq (min_seq_call b bs).seq
  order_holds after window a as_ b bs = ltb (max_seq_call b bs).seq (min_seq_call a as_).seq
  order_holds within window a as_ b bs = in_window (closest_pair none (a ∷ as_) (b ∷ bs)) window

  abbrev pub judge_order : OrderKind → ℤ → List (CallRecord V) → List (CallRecord V) → OrderResult
  judge_order kind window [] bs = never_called
  judge_order kind window (a ∷ as_) [] = other_never_called
  judge_order kind window (a ∷ as_) (b ∷ bs) =
      if order_holds kind window a as_ b bs then in_order else out_of_order

module _ {V : Type 0} (deep_equal : V → V → Bool) where
  -- `other` is what `newExpectation` makes of the other function. Its calls are looked up by the name of
  -- its method alone, so those of every component that has a method of this name are among them.
  unfoldable pub assert_order :
      CalledFunc V → CalledFunc V → OrderKind → ℤ → List (List (CallRecord V)) → OrderResult
  unfolding order_holds
  assert_order a other kind window spies = elim (a.err) [
    | some message ↦ invalid message
    | none ↦ elim (other.err) [
      | some message ↦ invalid message
      | none ↦
          (let calls = calls_by_func (collect_calls spies) in
            judge_order kind window
              (filter_matching_calls deep_equal (calls_of calls a.func_name) a)
              (calls_of calls other.func_name))
    ]
  ]
