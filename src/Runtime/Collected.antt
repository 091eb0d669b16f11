-- ===== src/Runtime/Collected.antt =====
-- internal/core/spy.go: the calls that `collectTestCalls` gathers after a history of calls.
use testigo.Base.{
  ℕ, zero, suc, ◌<◌, Bool, true, false, ◌||◌, List, [], ◌∷◌, ◌++◌, map, some, has, has-append,
  Unique, All, if_pos, if◌then◌else◌, ℕ_discrete, ◌≡◌, ◌≢◌, refl, ap, ◌∙◌, arith,
}
use testigo.Spy.{CallRecord, Frame, Spy}
use testigo.Spy.Selecting.{seqs}
use testigo.Spy.Verify.{collect_calls}
use testigo.Runtime.{
  Runtime, value_or, spy_at, add_all_to_set, note_observed, note_test_spy, make_record, next_seq,
  append_call, current_t, parent_test, add_owned_spies, spy_set, calls_seen, collect_test_calls,
}
use testigo.Runtime.Steps.{IsFresh, seqs-append}
use testigo.Runtime.History.{after_call, after_call-calls}
use testigo.Runtime.Visible.{
  Unique-add_all_to_set, Unique-add_owned_spies, has-add_owned_spies, has-collect_calls, Above,
}
use mathlib.Core.List.{lookup}

module _ {V : Type 0} where
  Unique-append :
      (cs ds : List (CallRecord V))
      → Unique ℕ_discrete (seqs cs)
      → Unique ℕ_discrete (seqs ds)
      → All (λ c. has ℕ_discrete c.seq (seqs ds) ≡ false) cs
      → Unique ℕ_discrete (seqs (cs ++ ds))
  Unique-append [] ds uc ud apart = ud
  Unique-append (c ∷ cs) ds uc ud apart =
      (seqs-append' c.seq cs ds ∙ ground arith, Unique-append cs ds uc.1 ud apart.1)
    where
      seqs-append' :
          (n : ℕ) (cs ds : List (CallRecord V))
          → has ℕ_discrete n (seqs (cs ++ ds))
            ≡ (has ℕ_discrete n (seqs cs) || has ℕ_discrete n (seqs ds))
      seqs-append' n cs ds = rw seqs-append (has-append ℕ_discrete n (seqs cs) (seqs ds))

  -- Lists of records, one for each number: none has two records with one sequence number, and
  -- neither have two of the lists.
  module _ (g : ℕ → List (CallRecord V)) (distinct : (m : ℕ) → Unique ℕ_discrete (seqs (g m)))
      (apart : (m n : ℕ) → m ≢ n → All (λ c. has ℕ_discrete c.seq (seqs (g n)) ≡ false) (g m)) where
    none_of_nil :
        (cs : List (CallRecord V)) → All (λ c. has ℕ_discrete c.seq (seqs {V = V} []) ≡ false) cs
    unfolding has
    none_of_nil [] = tt
    none_of_nil (c ∷ cs) = (refl, none_of_nil cs)

    none_of_both :
        (cs ds es : List (CallRecord V))
        → All (λ c. has ℕ_discrete c.seq (seqs ds) ≡ false) cs
        → All (λ c. has ℕ_discrete c.seq (seqs es) ≡ false) cs
        → All (λ c. has ℕ_discrete c.seq (seqs (ds ++ es)) ≡ false) cs
    none_of_both [] ds es hd he = tt
    none_of_both (c ∷ cs) ds es hd he = (
      ground (arith, seqs-append ds es, has-append ℕ_discrete c.seq (seqs ds) (seqs es)),
      none_of_both cs ds es hd.1 he.1,
    )

    none_of :
        (m : ℕ) (ms : List ℕ)
        → has ℕ_discrete m ms ≡ false
        → All (λ c. has ℕ_discrete c.seq (seqs (collect_calls (map g ms))) ≡ false) (g m)
    unfolding collect_calls has
    none_of m [] out = none_of_nil (g m)
    none_of m (k ∷ ms) out =
        none_of_both (g m) (g k) (collect_calls (map g ms)) (apart m k (λ e. ground arith))
          (none_of m ms (ground arith))

    collect_calls-Unique :
        (ms : List ℕ) → Unique ℕ_discrete ms → Unique ℕ_discrete (seqs (collect_calls (map g ms)))
    unfolding collect_calls
    collect_calls-Unique [] u = tt
    collect_calls-Unique (m ∷ ms) u =
        Unique-append (g m) (collect_calls (map g ms)) (distinct m) (collect_calls-Unique ms u.1)
          (none_of m ms u.0)

  module _ (w : Runtime V) (h : IsFresh w) where
    seen : ℕ → List (CallRecord V)
    seen m = calls_seen (spy_at w m)

    if_distinct :
        (b : Bool) (cs : List (CallRecord V))
        → Unique ℕ_discrete (seqs cs)
        → Unique ℕ_discrete (seqs (if b then cs else []))
    if_distinct true cs u = u
    if_distinct false cs u = tt

    if_apart :
        (b d : Bool) (cs ds : List (CallRecord V))
        → All (λ c. has ℕ_discrete c.seq (seqs ds) ≡ false) cs
        → All
            (λ c. has ℕ_discrete c.seq (seqs (if d then ds else [])) ≡ false)
            (if b then cs else [])
    unfolding has
    if_apart true true cs ds a = a
    if_apart true false [] ds a = tt
    if_apart true false (c ∷ cs) ds a = (refl, if_apart true false cs ds a.1)
    if_apart false d cs ds a = tt

    -- The records that a check gathers after any such history have distinct sequence numbers.
    pub collect_test_calls-Unique :
        (fuel goroutine : ℕ)
        → Unique ℕ_discrete (seqs (collect_calls (collect_test_calls fuel w goroutine)))
    unfolding collect_test_calls spy_set
    collect_test_calls-Unique fuel goroutine =
        collect_calls-Unique (λ m. calls_seen (spy_at w m))
          (λ m. if_distinct (spy_at w m).locked (spy_at w m).calls (h.distinct m))
          (λ m n e.
            if_apart (spy_at w m).locked (spy_at w n).locked (spy_at w m).calls (spy_at w n).calls
              (h.apart m n e))
          (spy_set fuel w goroutine)
          (Unique-add_owned_spies fuel w (current_t w goroutine)
            (add_all_to_set (value_or goroutine [] w.test_spies) [])
            (Unique-add_all_to_set (value_or goroutine [] w.test_spies) [] tt))

  Above-same :
      (w z : Runtime V) (n t u : ℕ)
      → z.subtest_parent ≡ w.subtest_parent
      → Above w n t u
      → Above z n t u
  unfolding parent_test
  Above-same w z zero t u e up = up
  Above-same w z (suc n) t u e (p, above, up) =
      (p, ap (λ (l : List (ℕ × ℕ)). lookup ℕ_discrete t l) e ∙ above, Above-same w z n p u e up)

  -- A call binds no goroutine and registers no double.
  after_call-owners :
      (copy : V → V) (worker m : ℕ) (callee : Frame) (callers : List Frame) (now : ℕ)
      (params : List V) (w : Runtime V)
      → let z = after_call copy worker m callee callers now params w in
        (z.goroutine_tests ≡ w.goroutine_tests)
        × (z.test_double_spies ≡ w.test_double_spies)
        × (z.subtest_parent ≡ w.subtest_parent)
  unfolding after_call append_call note_observed note_test_spy
  after_call-owners copy worker m callee callers now params w =
      (ground arith, ground arith, ground arith)

  has-snoc :
      (cs : List (CallRecord V)) (r : CallRecord V)
      → has ℕ_discrete r.seq (seqs (cs ++ r ∷ [])) ≡ true
  unfolding has
  has-snoc [] r = ground arith
  has-snoc (c ∷ cs) r = ground (arith, has-snoc cs r)

  -- A call that the Spy m records, on whatever goroutine, is among the calls that a check sees on a
  -- goroutine bound to a test if m belongs to a double of that test or of a test above it, and the
  -- fuel exceeds the number of steps up to it.
  pub owned_call_visible :
      (copy : V → V) (worker m : ℕ) (callee : Frame) (callers : List Frame) (now : ℕ)
      (params : List V) (w : Runtime V) (fuel goroutine t n u : ℕ)
      → current_t w goroutine ≡ some t
      → Above w n t u
      → n < fuel
      → has ℕ_discrete m (value_or u [] w.test_double_spies) ≡ true
      → let z = after_call copy worker m callee callers now params w in
        has ℕ_discrete (next_seq w) (seqs (collect_calls (collect_test_calls fuel z goroutine)))
        ≡ true
  unfolding collect_test_calls spy_set current_t make_record has
  owned_call_visible copy worker m callee callers now params w fuel goroutine t n u bound up lt
        owns =
      let z = after_call copy worker m callee callers now params w in
      let r = make_record callee callers params (map copy params) (next_seq w) now in
      let (tests, doubles, parents) = after_call-owners copy worker m callee callers now params w in
      let at = (after_call-calls copy worker m callee callers now params w).1 m in
      let old = add_all_to_set (value_or goroutine [] z.test_spies) [] in
      let owned : has ℕ_discrete m (add_owned_spies fuel z (some t) old) ≡ true =
        has-add_owned_spies m fuel n t u z old lt (Above-same w z n t u parents up)
          (ap (λ (l : List (ℕ × List ℕ)). has ℕ_discrete m (value_or u [] l)) doubles ∙ owns) in
      let here : current_t z goroutine ≡ some t =
        ap (λ (l : List (ℕ × ℕ)). lookup ℕ_discrete goroutine l) tests ∙ bound in
      has-collect_calls (next_seq w) m (λ k. calls_seen (spy_at z k))
        (add_owned_spies fuel z (current_t z goroutine) old) (rw here owned)
        (ap (λ (s : Spy V). has ℕ_discrete (next_seq w) (seqs (calls_seen s)))
            (at ∙ if_pos (ℕ_discrete m m) refl _ (spy_at w m))
          ∙ has-snoc (spy_at w m).calls r)
