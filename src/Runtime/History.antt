-- ===== src/Runtime/History.antt =====
-- internal/core/spy.go: histories of calls and clears.
use testigo.Base.{
  ℕ, ◌+◌, ◌%◌, ◌^◌, ◌<◌, ◌≤◌, true, false, List, [], ◌∷◌, ◌++◌, map, some, length, has, All, ite,
  if_neg, ℕ_discrete, Outcome, ok, ◌>>=◌, ◌≡◌, ◌≢◌, refl, ap, ◌∙◌, arith,
}
use testigo.Base.Text.{Text}
use testigo.Spy.{CallRecord, Frame, Spy}
use testigo.Spy.Selecting.{seqs}
use testigo.Spy.Names.{split_full_func_name}
use testigo.Runtime.{
  Runtime, value_or, zero_spy, spy_at, note_observed, note_test_spy, make_record, next_seq,
  append_call, call, clear,
}
use testigo.Runtime.Steps.{IsFresh, snoc-IsFresh, spy_at-store}

-- What happens to the spies of a run: a method calls `Call`, or a Spy is cleared.
pub data Event (V : Type 0) : Type 0 where
  calls : ℕ → ℕ → Frame → List Frame → ℕ → List V → Event V
  clears : ℕ → Event V

module _ {V : Type 0} (copy : V → V) where
  unfoldable pub step : Runtime V → Event V → Outcome (Runtime V)
  step w (calls goroutine m callee callers now params) =
      call copy goroutine (some m) (callee ∷ callers) now params w
  step w (clears m) = ok (clear m w)

  unfoldable pub run : Runtime V → List (Event V) → Outcome (Runtime V)
  unfolding step
  run w [] = ok w
  run w (e ∷ es) = step w e >>= λ z. run z es

  -- The state after a call on a Spy.
  unfoldable pub after_call : ℕ → ℕ → Frame → List Frame → ℕ → List V → Runtime V → Runtime V
  after_call goroutine m callee callers now params w =
      let names = split_full_func_name callee.function in
      append_call m callee callers params (map copy params) now
        (note_observed names.0 names.1 (note_test_spy goroutine m w))

  pub call-after_call :
      (goroutine m : ℕ) (callee : Frame) (callers : List Frame) (now : ℕ) (params : List V)
      (w : Runtime V)
      → call copy goroutine (some m) (callee ∷ callers) now params w
        ≡ ok (after_call goroutine m callee callers now params w)
  unfolding call after_call
  call-after_call goroutine m callee callers now params w = refl

  -- What is noted before the append touches neither the counter nor the spies.
  noted :
      (goroutine m : ℕ) (c n : Text) (w : Runtime V)
      → let z = note_observed c n (note_test_spy goroutine m w) in
        (z.call_seq ≡ w.call_seq) × (z.spies ≡ w.spies)
  unfolding note_observed note_test_spy
  noted goroutine m c n w = (ground arith, ground arith)

  append_call-at :
      (m : ℕ) (callee : Frame) (callers : List Frame) (now : ℕ) (params snapshots : List V)
      (u w : Runtime V)
      → u.call_seq ≡ w.call_seq
      → u.spies ≡ w.spies
      → let r = make_record callee callers params snapshots (next_seq w) now in
        let z = append_call m callee callers params snapshots now u in
        (z.call_seq ≡ next_seq w)
        × ((k : ℕ)
            → spy_at z k
              ≡ ite
                  (ℕ_discrete k m)
                  (record { calls = (spy_at w m).calls ++ r ∷ []; locked = true })
                  (spy_at w k))
  unfolding append_call
  append_call-at m callee callers now params snapshots u w e f = (
    ap (λ (n : ℕ). (n + 1) % 2 ^ 64) e,
    λ k.
        spy_at-store m k _ u.spies
        ∙ ap
            (λ (n : ℕ).
              ite (ℕ_discrete k m)
                (record {
                  calls =
                      (spy_at u m).calls
                      ++ make_record callee callers params snapshots ((n + 1) % 2 ^ 64) now ∷ [];
                  locked = true;
                })
                (spy_at u k))
            e
        ∙ ap
            (λ (l : List (ℕ × Spy V)).
              ite (ℕ_discrete k m)
                (record {
                  calls =
                      (value_or m zero_spy l).calls
                      ++ make_record callee callers params snapshots (next_seq w) now ∷ [];
                  locked = true;
                })
                (value_or k zero_spy l))
            f,
  )

  -- A call on a Spy appends one record to it, with its own copy of the arguments and the next
  -- sequence number, and leaves every other Spy alone.
  pub after_call-calls :
      (goroutine m : ℕ) (callee : Frame) (callers : List Frame) (now : ℕ) (params : List V)
      (w : Runtime V)
      → let r = make_record callee callers params (map copy params) (next_seq w) now in
        let z = after_call goroutine m callee callers now params w in
        (z.call_seq ≡ next_seq w)
        × ((k : ℕ)
            → spy_at z k
              ≡ ite
                  (ℕ_discrete k m)
                  (record { calls = (spy_at w m).calls ++ r ∷ []; locked = true })
                  (spy_at w k))
  unfolding after_call
  after_call-calls goroutine m callee callers now params w =
      let names = split_full_func_name callee.function in
      let same_parts = noted goroutine m names.0 names.1 w in
      append_call-at m callee callers now params (map copy params) _ w same_parts.0 same_parts.1

  -- A call keeps the records apart, as long as the counter does not wrap around.
  pub after_call-IsFresh :
      (goroutine m : ℕ) (callee : Frame) (callers : List Frame) (now : ℕ) (params : List V)
      (w : Runtime V)
      → w.call_seq + 1 < 2 ^ 64
      → IsFresh w
      → IsFresh (after_call goroutine m callee callers now params w)
  unfolding make_record
  after_call-IsFresh goroutine m callee callers now params w fits h =
      let r = make_record callee callers params (map copy params) (next_seq w) now in
      let (counted, at) = after_call-calls goroutine m callee callers now params w in
      let next : next_seq w ≡ w.call_seq + 1 = omega arith in
      snoc-IsFresh w (after_call goroutine m callee callers now params w) m r next (counted ∙ next)
        (λ k. ground (arith, at k)) h

  module _ (m : ℕ) (w : Runtime V) (h : IsFresh w) where
    cleared : (spy_at (clear m w) m).calls ≡ []
    unfolding clear
    cleared = ap (λ (s : Spy V). s.calls) (spy_at-store m m _ w.spies) ∙ ground arith

    others : (k : ℕ) → k ≢ m → (spy_at (clear m w) k).calls ≡ (spy_at w k).calls
    unfolding clear
    others k e =
        ap (λ (s : Spy V). s.calls)
          (spy_at-store m k _ w.spies ∙ if_neg (ℕ_discrete k m) e _ (spy_at w k))

    none_in_nil :
        (cs : List (CallRecord V)) → All (λ c. has ℕ_discrete c.seq (seqs {V = V} []) ≡ false) cs
    unfolding has
    none_in_nil [] = tt
    none_in_nil (c ∷ cs) = (refl, none_in_nil cs)

    -- Clearing a Spy keeps the records apart.
    pub clear-IsFresh : IsFresh (clear m w)
    clear-IsFresh = record {
      bounded = λ k. elim (ℕ_discrete k m) [
        | yes e ↦ rw (e, cleared) tt
        | no e ↦ rw (others k e) (unfold clear in h.bounded k)
      ];
      distinct = λ k. elim (ℕ_discrete k m) [
        | yes e ↦ rw (e, cleared) tt
        | no e ↦ rw (others k e) (h.distinct k)
      ];
      apart = λ k n other. elim (ℕ_discrete k m) [
        | yes e ↦ rw (e, cleared) tt
        | no e ↦ rw (others k e) (elim (ℕ_discrete n m) [
          | yes f ↦ rw (f, cleared) (none_in_nil (spy_at w k).calls)
          | no f ↦ rw (others n f) (h.apart k n other)
        ])
      ];
    }

  clear-call_seq : (m : ℕ) (w : Runtime V) → (clear m w).call_seq ≡ w.call_seq
  unfolding clear
  clear-call_seq m w = refl

  -- Any history of calls and clears runs without a panic and keeps the records apart, as long as
  -- there are not so many calls that the 64-bit counter wraps around.
  pub run-IsFresh :
      (w : Runtime V) (es : List (Event V))
      → w.call_seq + length es < 2 ^ 64
      → IsFresh w
      → (z : Runtime V) × (run w es ≡ ok z) × IsFresh z × (z.call_seq ≤ w.call_seq + length es)
  unfolding run step
  run-IsFresh w [] fits h = (w, refl, h, omega arith)
  run-IsFresh w (calls goroutine m callee callers now params ∷ es) fits h =
      let u = after_call goroutine m callee callers now params w in
      let counted : u.call_seq ≡ w.call_seq + 1 =
        (after_call-calls goroutine m callee callers now params w).0 ∙ omega arith in
      let (z, ran, fresh, le) =
        run-IsFresh u es (omega arith)
          (after_call-IsFresh goroutine m callee callers now params w (omega arith) h) in
      (z, rw (call-after_call goroutine m callee callers now params w) ran, fresh, omega arith)
  run-IsFresh w (clears m ∷ es) fits h =
      let same_seq = clear-call_seq m w in
      let (z, ran, fresh, le) = run-IsFresh (clear m w) es (omega arith) (clear-IsFresh m w h) in
      (z, ran, fresh, omega arith)
