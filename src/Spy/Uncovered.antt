-- ===== src/Spy/Uncovered.antt =====
-- internal/core/spy.go: the check at the end of a test that every recorded call was asserted.
use testigo.Base.{
  Bool, true, false, not, ◌&&◌, ◌||◌, List, [], ◌∷◌, ◌++◌, Option, none, some, select,
  select-select, some_of, All, Unique, if_pos, if_neg, ℕ_discrete, ◌≡◌, ◌↔◌, refl, sym, ap, ◌∙◌,
  arith, inl, inr, Option-cases,
}
use testigo.Base.Text.{Text, text_dec}
use testigo.Base.Dict.{store, Distinct, Distinct-store}
use testigo.Spy.{CallRecord, CalledFunc}
use testigo.Spy.Match.{
  CallMap, calls_of, calls_by_func, group_from, filter_matching_calls, consume_matching_calls,
}
use testigo.Spy.Verify.{
  collect_calls, consume_all, unexpected_calls, unexpected_error, check_unexpected_calls,
  check_uncovered_calls, is_test_call,
}
use testigo.Spy.Selecting.{
  matches, fits, named, select_congr, filter_matching_calls-select, calls_of-calls_by_func,
  calls_of-consume, Unique-select, seqs,
}
use mathlib.Core.List.{lookup}

abbrev is_none : {A : Type 0} → Option A → Bool
is_none none = true
is_none (some a) = false

nil_of_append : {A : Type 0} (xs ys : List A) → xs ++ ys ≡ [] → (xs ≡ []) × (ys ≡ [])
nil_of_append [] ys h = (refl, h)
nil_of_append (x ∷ xs) ys h = cc

module _ {V : Type 0} where
  Distinct-consume :
      (m : CallMap V) (f : Text) (cs : List (CallRecord V))
      → Distinct text_dec m
      → Distinct text_dec (consume_matching_calls m f cs)
  unfolding consume_matching_calls
  Distinct-consume m f [] d = d
  Distinct-consume m f (c ∷ cs) d = Distinct-store text_dec f _ m d

  Distinct-group_from :
      (m : CallMap V) (cs : List (CallRecord V))
      → Distinct text_dec m
      → Distinct text_dec (group_from m cs)
  unfolding group_from
  Distinct-group_from m [] d = d
  Distinct-group_from m (c ∷ cs) d =
      let g = c.callee_method in
      Distinct-group_from (store text_dec g (calls_of m g ++ c ∷ []) m) cs
        (Distinct-store text_dec g (calls_of m g ++ c ∷ []) m d)

  abbrev strange : CallRecord V → Bool
  strange c = not (is_test_call c)

  -- Nothing is unexpected exactly when no method has a call left that the test did not make.
  nothing_left :
      (m : CallMap V) → unexpected_calls m ≡ [] → (f : Text) → select strange (calls_of m f) ≡ []
  unfolding unexpected_calls calls_of lookup
  nothing_left [] h f = refl
  nothing_left ((k, cs) ∷ m) h f =
      let (here, rest) = nil_of_append (select strange cs) (unexpected_calls m) h in
      ground (arith, nothing_left m rest f)

  nothing_unexpected :
      (m : CallMap V)
      → Distinct text_dec m
      → ((f : Text) → select strange (calls_of m f) ≡ [])
      → unexpected_calls m ≡ []
  unfolding unexpected_calls calls_of lookup
  nothing_unexpected [] d h = refl
  nothing_unexpected ((k, cs) ∷ m) d h =
      let rest = nothing_unexpected m d.1 (λ f. ground (arith, h f)) in ground (arith, h k, rest)

  -- A list of calls where every call of every method is the test's own, or else passes the test q.
  every_method :
      (q : CallRecord V → Bool) (cs : List (CallRecord V))
      → ((f : Text) → select strange (select (λ c. named f c && not (q c)) cs) ≡ [])
      → All (λ c. (is_test_call c || q c) ≡ true) cs
  every_method q [] h = tt
  every_method q (c ∷ cs) h =
      (ground (arith, h c.callee_method), every_method q cs (λ f. ground (arith, h f)))

  methods_of_each :
      (q : CallRecord V → Bool) (cs : List (CallRecord V)) (f : Text)
      → All (λ c. (is_test_call c || q c) ≡ true) cs
      → select strange (select (λ c. named f c && not (q c)) cs) ≡ []
  methods_of_each q [] f h = refl
  methods_of_each q (c ∷ cs) f h = ground (arith, methods_of_each q cs f h.1)

module _ {V : Type 0} (deep_equal : V → V → Bool) where
  -- A valid expectation matches the call.
  abbrev pub covers : CalledFunc V → CallRecord V → Bool
  covers a c = is_none a.err && matches deep_equal a c

  -- The map holds of each method the calls that pass the test q.
  abbrev Holds : (CallRecord V → Bool) → List (CallRecord V) → CallMap V → Type 0
  Holds q all_calls m = (f : Text) → calls_of m f ≡ select (λ c. named f c && q c) all_calls

  abbrev consume_one : CallMap V → CalledFunc V → CallMap V
  consume_one m a = elim (a.err) as (λ x. CallMap V) [
    | some message ↦ m
    | none ↦
        consume_matching_calls m a.func_name
          (filter_matching_calls deep_equal (calls_of m a.func_name) a)
  ]

  covers_here :
      (q : CallRecord V → Bool) (a : CalledFunc V) (c : CallRecord V)
      → a.err ≡ none
      → ((named a.func_name c && q c) && not (fits deep_equal a c))
        ≡ (named a.func_name c && (q c && not (covers a c)))
  covers_here q a c valid = simp valid (ground arith)

  covers_elsewhere :
      (q : CallRecord V → Bool) (a : CalledFunc V) (f : Text) (c : CallRecord V)
      → ¬ (f ≡ a.func_name)
      → (named f c && q c) ≡ (named f c && (q c && not (covers a c)))
  covers_elsewhere q a f c other = ground arith

  Holds-consume_valid :
      (q : CallRecord V → Bool) (all_calls : List (CallRecord V)) (m : CallMap V) (a : CalledFunc V)
      → Unique ℕ_discrete (seqs all_calls)
      → a.err ≡ none
      → Holds q all_calls m
      → Holds
          (λ c. q c && not (covers a c))
          all_calls
          (consume_matching_calls m a.func_name
            (filter_matching_calls deep_equal (calls_of m a.func_name) a))
  Holds-consume_valid q all_calls m a u valid h f =
      let name = a.func_name in
      let kept : Unique ℕ_discrete (seqs (calls_of m name)) =
        rw (h name) (Unique-select (λ c. named name c && q c) all_calls u) in
      rw (filter_matching_calls-select, calls_of-consume m name f (fits deep_equal a) kept)
        (elim (text_dec f name) [
          | yes e ↦
              if_pos (text_dec f name) e _ (calls_of m f)
              ∙ ap (select (λ c. not (fits deep_equal a c))) (h name)
              ∙ select-select (λ c. not (fits deep_equal a c)) (λ c. named name c && q c) all_calls
              ∙ select_congr _ _ all_calls (λ c. covers_here q a c valid)
              ∙ ap (λ g. select (λ c. named g c && (q c && not (covers a c))) all_calls) (sym e)
          | no e ↦
              if_neg (text_dec f name) e (select (λ c. not (fits deep_equal a c)) (calls_of m name))
                _
              ∙ h f
              ∙ select_congr _ _ all_calls (λ c. covers_elsewhere q a f c e)
        ])

  consume_one_valid :
      (m : CallMap V) (a : CalledFunc V)
      → a.err ≡ none
      → consume_one m a
        ≡ consume_matching_calls m a.func_name
            (filter_matching_calls deep_equal (calls_of m a.func_name) a)
  consume_one_valid m a valid = ground arith

  consume_one_invalid :
      (m : CallMap V) (a : CalledFunc V) {message : Text}
      → a.err ≡ some message
      → consume_one m a ≡ m
  consume_one_invalid m a bad = ground arith

  Holds-consume_one :
      (q : CallRecord V → Bool) (all_calls : List (CallRecord V)) (m : CallMap V) (a : CalledFunc V)
      → Unique ℕ_discrete (seqs all_calls)
      → Holds q all_calls m
      → Holds (λ c. q c && not (covers a c)) all_calls (consume_one m a)
  Holds-consume_one q all_calls m a u h = elim (Option-cases (a.err)) [
    | inl valid ↦ λ f.
        ap (λ x. calls_of x f) (consume_one_valid m a valid)
        ∙ Holds-consume_valid q all_calls m a u valid h f
    | inr (message, bad) ↦ λ f.
        ap (λ x. calls_of x f) (consume_one_invalid m a bad)
        ∙ h f
        ∙ select_congr _ _ all_calls (λ c. ground arith)
  ]

  -- Consuming expectation after expectation leaves the calls that none of them covers.
  Holds-consume_all :
      (q : CallRecord V → Bool) (all_calls : List (CallRecord V)) (m : CallMap V)
      (as_ : List (CalledFunc V))
      → Unique ℕ_discrete (seqs all_calls)
      → Holds q all_calls m
      → Holds
          (λ c. q c && not (some_of (λ a. covers a c) as_))
          all_calls
          (consume_all deep_equal m as_)
  unfolding consume_all
  Holds-consume_all q all_calls m [] u h f = h f ∙ select_congr _ _ all_calls (λ c. ground arith)
  Holds-consume_all q all_calls m (a ∷ as_) u h f =
      Holds-consume_all (λ c. q c && not (covers a c)) all_calls (consume_one m a) as_ u
        (Holds-consume_one q all_calls m a u h) f
      ∙ select_congr _ _ all_calls (λ c. ground arith)

  Distinct-consume_all :
      (m : CallMap V) (as_ : List (CalledFunc V))
      → Distinct text_dec m
      → Distinct text_dec (consume_all deep_equal m as_)
  unfolding consume_all
  Distinct-consume_all m [] d = d
  Distinct-consume_all m (a ∷ as_) d = elim (Option-cases (a.err)) [
    | inl valid ↦ rw valid (
        Distinct-consume_all
          (consume_matching_calls m a.func_name
            (filter_matching_calls deep_equal (calls_of m a.func_name) a))
          as_
          (Distinct-consume m a.func_name
            (filter_matching_calls deep_equal (calls_of m a.func_name) a) d))
    | inr (message, bad) ↦ rw bad (Distinct-consume_all m as_ d)
  ]

  -- The final check finds no unexpected call exactly when every recorded call is the test's own or
  -- is matched by a valid expectation, if no two records share a sequence number. How often an
  -- expectation was to be met plays no part.
  pub check_uncovered_calls-nil :
      (that : List (CalledFunc V)) (spies : List (List (CallRecord V)))
      → Unique ℕ_discrete (seqs (collect_calls spies))
      → (check_uncovered_calls deep_equal that spies ≡ [])
        ↔ All (λ c. (is_test_call c || some_of (λ a. covers a c) that) ≡ true) (collect_calls spies)
  unfolding check_uncovered_calls check_unexpected_calls calls_by_func
  check_uncovered_calls-nil that spies u =
      let all_calls = collect_calls spies in
      let m = consume_all deep_equal (calls_by_func all_calls) that in
      let q = λ (c : CallRecord V). some_of (λ a. covers a c) that in
      let holds = λ (f : Text).
        Holds-consume_all (λ c. true) all_calls (calls_by_func all_calls) that u
          (λ g.
            calls_of-calls_by_func all_calls g
            ∙ select_congr (named g) (λ c. named g c && true) all_calls (λ c. ground arith))
          f in
      (
        λ h.
            every_method q all_calls (λ f.
              rw (← holds f) (nothing_left m (unexpected_error-nil (unexpected_calls m) h) f)),
        λ h. ap unexpected_error (
            nothing_unexpected m
              (Distinct-consume_all (calls_by_func all_calls) that
                (Distinct-group_from [] all_calls tt))
              (λ f. rw (holds f) (methods_of_each q all_calls f h))),
      )
    where
      unexpected_error-nil : (cs : List (CallRecord V)) → unexpected_error cs ≡ [] → cs ≡ []
      unexpected_error-nil [] h = refl
      unexpected_error-nil (c ∷ cs) h = cc
