-- ===== src/Runtime/Steps.antt =====
-- internal/core/spy.go, doubles.go: what holds of the records after any history of calls and
-- clears, and which calls a check sees.
use testigo.Base.{
  ℕ, ◌+◌, ◌<◌, ◌≤◌, false, List, [], ◌∷◌, ◌++◌, has, has-append, Unique, Unique-snoc, All,
  All-append, All-map, ite, ℕ_discrete, ◌≡◌, ◌≢◌, refl, sym, ap, ◌∙◌, arith,
}
use testigo.Base.Dict.{store, lookup-store}
use testigo.Spy.{CallRecord, Spy}
use testigo.Spy.Selecting.{seqs}
use testigo.Runtime.{Runtime, value_or, zero_spy, spy_at}

module _ {V : Type 0} where
  -- The sequence numbers handed out so far bound those of the records, a Spy has no two records with
  -- one number, and neither have two Spies.
  pub record IsFresh (w : Runtime V) : Type 0 where
    pub bounded : (m : ℕ) → All (λ c. c.seq ≤ w.call_seq) (spy_at w m).calls
    pub distinct : (m : ℕ) → Unique ℕ_discrete (seqs (spy_at w m).calls)
    pub apart :
        (m n : ℕ)
        → m ≢ n
        → All (λ c. has ℕ_discrete c.seq (seqs (spy_at w n).calls) ≡ false) (spy_at w m).calls

  pub spy_at-store :
      (m n : ℕ) (s : Spy V) (spies : List (ℕ × Spy V))
      → value_or n zero_spy (store ℕ_discrete m s spies)
        ≡ ite (ℕ_discrete n m) s (value_or n zero_spy spies)
  spy_at-store m n s spies = ground (arith, lookup-store ℕ_discrete m n s spies)

  pub seqs-append : (cs ds : List (CallRecord V)) → seqs (cs ++ ds) ≡ seqs cs ++ seqs ds
  seqs-append [] ds = refl
  seqs-append (c ∷ cs) ds = ap (◌∷◌ c.seq) (seqs-append cs ds)

  -- A number above a bound of the records is none of theirs.
  has-seqs_above :
      (n b : ℕ) (cs : List (CallRecord V))
      → b < n
      → All (λ c. c.seq ≤ b) cs
      → has ℕ_discrete n (seqs cs) ≡ false
  unfolding has
  has-seqs_above n b [] h all_le = refl
  has-seqs_above n b (c ∷ cs) h all_le = ground (arith, has-seqs_above n b cs h all_le.1)

  -- One more record, above all others, in the calls of the Spy m.
  module _ (w z : Runtime V) (m : ℕ) (r : CallRecord V) (seq_next : r.seq ≡ w.call_seq + 1)
      (seq_last : z.call_seq ≡ w.call_seq + 1)
      (calls_at : (k : ℕ)
        → (spy_at z k).calls
          ≡ ite (ℕ_discrete k m) ((spy_at w m).calls ++ r ∷ []) (spy_at w k).calls)
      (h : IsFresh w) where
    in_m : (spy_at z m).calls ≡ (spy_at w m).calls ++ r ∷ []
    in_m = ground (arith, calls_at m)

    not_m : (k : ℕ) → k ≢ m → (spy_at z k).calls ≡ (spy_at w k).calls
    not_m k e = ground (arith, calls_at k)

    weaker : (k : ℕ) → All (λ c. c.seq ≤ z.call_seq) (spy_at w k).calls
    weaker k =
        All-map (λ c. c.seq ≤ w.call_seq) (λ c. c.seq ≤ z.call_seq) _ (λ c le. omega arith)
          (h.bounded k)

    new_to : (k : ℕ) → has ℕ_discrete r.seq (seqs (spy_at w k).calls) ≡ false
    new_to k = has-seqs_above r.seq w.call_seq (spy_at w k).calls (omega arith) (h.bounded k)

    snoc-bounded : (k : ℕ) → All (λ c. c.seq ≤ z.call_seq) (spy_at z k).calls
    snoc-bounded k = elim (ℕ_discrete k m) [
      | yes e ↦
          rw (e, in_m)
            (All-append (λ c. c.seq ≤ z.call_seq) _ (r ∷ []) (weaker m) (omega arith, tt))
      | no e ↦ rw (not_m k e) (weaker k)
    ]

    snoc-distinct : (k : ℕ) → Unique ℕ_discrete (seqs (spy_at z k).calls)
    snoc-distinct k = elim (ℕ_discrete k m) [
      | yes e ↦
          rw (e, in_m, seqs-append)
            (Unique-snoc ℕ_discrete r.seq (seqs (spy_at w m).calls) (new_to m) (h.distinct m))
      | no e ↦ rw (not_m k e) (h.distinct k)
    ]

    -- The new number is none of a list that has only old ones.
    apart_snoc :
        (cs : List (CallRecord V)) (ns : List ℕ)
        → All (λ c. c.seq ≤ w.call_seq) cs
        → All (λ c. has ℕ_discrete c.seq ns ≡ false) cs
        → All (λ c. has ℕ_discrete c.seq (ns ++ r.seq ∷ []) ≡ false) cs
    unfolding has
    apart_snoc [] ns le all_new = tt
    apart_snoc (c ∷ cs) ns le all_new = (
      ground (arith, has-append ℕ_discrete c.seq ns (r.seq ∷ [])),
      apart_snoc cs ns le.1 all_new.1,
    )

    snoc-apart :
        (k n : ℕ)
        → k ≢ n
        → All (λ c. has ℕ_discrete c.seq (seqs (spy_at z n).calls) ≡ false) (spy_at z k).calls
    snoc-apart k n other = elim (ℕ_discrete k m) [
      | yes e ↦
          rw (not_m n (λ f. other (e ∙ sym f)), e, in_m)
            (All-append (λ c. has ℕ_discrete c.seq (seqs (spy_at w n).calls) ≡ false) _ (r ∷ [])
              (h.apart m n (λ f. other (e ∙ f))) (new_to n, tt))
      | no e ↦ rw (not_m k e) (elim (ℕ_discrete n m) [
        | yes f ↦
            rw (f, in_m, seqs-append)
              (apart_snoc (spy_at w k).calls (seqs (spy_at w m).calls) (h.bounded k)
                (h.apart k m e))
        | no f ↦ rw (not_m n f) (h.apart k n other)
      ])
    ]

    pub snoc-IsFresh : IsFresh z
    snoc-IsFresh = record { bounded = snoc-bounded; distinct = snoc-distinct; apart = snoc-apart }
