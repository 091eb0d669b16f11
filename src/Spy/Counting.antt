-- ===== src/Spy/Counting.antt =====
-- internal/core/spy.go: what a check of one expectation says.
use testigo.Base.{
  ℕ, ◌≤◌, refl, ap, Bool, true, false, List, [], ◌∷◌, none, length, select, select-select, ◌≡◌, ◌↔◌,
  arith,
}
use testigo.Base.Int.{ℤ, pos, negsuc}
use testigo.Spy.{CallRecord, CalledFunc}
use testigo.Spy.Match.{calls_of, calls_by_func, filter_matching_calls}
use testigo.Spy.Verify.{satisfied, verify_one, verify_expectations, collect_calls, assert_calls}
use testigo.Spy.Selecting.{
  matches, fits, named, filter_matching_calls-select, calls_of-calls_by_func,
}

-- A number of calls is the one that is asked for, or at least that.
abbrev pub IsMet : ℕ → ℤ → Bool → Type 0
IsMet count times false = times ≡ pos count
IsMet count (pos n) true = n ≤ count
IsMet count (negsuc n) true = Unit {0}

satisfied-IsMet :
    (count : ℕ) (times : ℤ) (at_least : Bool)
    → (satisfied count times at_least ≡ true) ↔ IsMet count times at_least
unfolding satisfied
satisfied-IsMet count (pos n) false = ((λ h. ap pos (ground (arith, h))), (λ h. ground (arith, h)))
satisfied-IsMet count (pos n) true = ((λ h. ground (arith, h)), (λ h. ground (arith, h)))
satisfied-IsMet count (negsuc n) false =
    ((λ h. absurd (ground (arith, h))), (λ h. absurd (ground (arith, h))))
satisfied-IsMet count (negsuc n) true = ((λ h. tt), (λ h. refl))

module _ {V : Type 0} (deep_equal : V → V → Bool) where
  -- The calls of the method that fit, looked up in the grouped map, are the calls that match.
  pub filter-calls_of-matches :
      (a : CalledFunc V) (cs : List (CallRecord V))
      → filter_matching_calls deep_equal (calls_of (calls_by_func cs) a.func_name) a
        ≡ select (matches deep_equal a) cs
  filter-calls_of-matches a cs =
      rw (filter_matching_calls-select, calls_of-calls_by_func)
        (select-select (fits deep_equal a) (named a.func_name) cs)

  pub assert_calls-satisfied :
      (a : CalledFunc V) (spies : List (List (CallRecord V)))
      → (assert_calls deep_equal false (a ∷ []) spies ≡ []) ↔ (
          (a.err ≡ none)
          × (satisfied
                (length (select (matches deep_equal a) (collect_calls spies)))
                a.times
                a.at_least
              ≡ true))
  unfolding assert_calls verify_expectations verify_one
  assert_calls-satisfied a spies =
      rw (← filter-calls_of-matches a (collect_calls spies)) (ground arith, ground arith)

  -- A chain succeeds exactly when its expectation is valid and the number of recorded calls that
  -- match it (the method, the caller if one is named, the arguments if some are given) is the count
  -- that it asks for, or at least that count.
  pub assert_calls-one :
      (a : CalledFunc V) (spies : List (List (CallRecord V)))
      → (assert_calls deep_equal false (a ∷ []) spies ≡ []) ↔ (
          (a.err ≡ none)
          × IsMet (length (select (matches deep_equal a) (collect_calls spies))) a.times a.at_least)
  assert_calls-one a spies =
      let (to_, from_) = assert_calls-satisfied a spies in
      let (met, back) =
        satisfied-IsMet (length (select (matches deep_equal a) (collect_calls spies))) a.times
          a.at_least in
      ((λ h. ((to_ h).0, met (to_ h).1)), (λ h. from_ (h.0, back h.1)))
