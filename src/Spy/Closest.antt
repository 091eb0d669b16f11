-- ===== src/Spy/Closest.antt =====
-- internal/core/spy.go: the call that a failure is drawn at. `add_diffs` stands for diffValues: the
-- number of differences found so far becomes that with those of a received and an expected value.
use testigo.Base.{
  ℕ, ◌^◌, ◌≤◌, ◌==◌, false, not, List, [], ◌∷◌, All, length, ltb, if◌then◌else◌, ◌≡◌, refl, subst,
  sym, arith, inl, inr, Bool-cases,
}
use testigo.Spy.{CallRecord, recorded, Expected, anything, matcher, exactly, CalledFunc}
use testigo.Spy.Match.{no_args}

module _ {V : Type 0} (add_diffs : V → V → ℕ → ℕ) where
  -- The loop of `argDiffCount`; the lengths are the same there.
  unfoldable pub count_diffs : List (Expected V) → List V → ℕ → ℕ
  count_diffs [] actual n = n
  count_diffs (e ∷ es) [] n = n
  count_diffs (anything ∷ es) (v ∷ vs) n = count_diffs es vs n
  count_diffs (matcher matches ∷ es) (v ∷ vs) n = count_diffs es vs n
  count_diffs (exactly w ∷ es) (v ∷ vs) n = count_diffs es vs (add_diffs v w n)

  unfoldable pub arg_diff_count : List (Expected V) → List V → ℕ
  unfolding count_diffs
  arg_diff_count expected actual =
      if not (length expected == length actual) then 2 ^ 30 else count_diffs expected actual 0

  abbrev pub score : CalledFunc V → CallRecord V → ℕ
  score a c = arg_diff_count a.expected_args (recorded c)

  -- The loop: `best` has the score `least`. It ends at a score of 0.
  unfoldable pub closest_from : CalledFunc V → CallRecord V → ℕ → List (CallRecord V) → CallRecord V
  closest_from a best least [] = best
  closest_from a best least (c ∷ cs) =
      let rest = closest_from a c (score a c) cs in
      if ltb (score a c) least
      then if score a c == 0 then c else rest
      else closest_from a best least cs

  -- The first round always takes the first call.
  unfoldable pub closest_call : CalledFunc V → CallRecord V → List (CallRecord V) → CallRecord V
  closest_call a c cs =
      if no_args a.expected_args
      then c
      else if score a c == 0
      then c
      else closest_from a c (score a c) cs

  -- What the loop gives is no worse than the best call so far, nor than any call that is left.
  abbrev IsLeast : CalledFunc V → CallRecord V → CallRecord V → List (CallRecord V) → Type 0
  IsLeast a c best cs = (score a c ≤ score a best) × All (λ k. score a c ≤ score a k) cs

  zero_least :
      (a : CalledFunc V) (c : CallRecord V) (cs : List (CallRecord V))
      → score a c ≡ 0
      → All (λ k. score a c ≤ score a k) cs
  zero_least a c [] h = tt
  zero_least a c (k ∷ cs) h = (omega (arith, h), zero_least a c cs h)

  moved :
      (a : CalledFunc V) (best c : CallRecord V) (cs : List (CallRecord V)) {d : CallRecord V}
      → d ≡ c
      → IsLeast a c best cs
      → IsLeast a d best cs
  moved a best c cs e h = subst (λ k. IsLeast a k best cs) (sym e) h

  closest_from-IsLeast :
      (a : CalledFunc V) (best : CallRecord V) (cs : List (CallRecord V))
      → IsLeast a (closest_from a best (score a best) cs) best cs
  unfolding closest_from
  closest_from-IsLeast a best [] = (omega arith, tt)
  closest_from-IsLeast a best (c ∷ cs) = elim (Bool-cases (ltb (score a c) (score a best))) [
    | inl less ↦ elim (Bool-cases (score a c == 0)) [
      | inl done ↦
          moved a best c (c ∷ cs) (rw (less, done) refl)
            (ground (arith, less), (omega arith, zero_least a c cs (ground (arith, done))))
      | inr more ↦
          let (below, rest) = closest_from-IsLeast a c cs in
          moved a best (closest_from a c (score a c) cs) (c ∷ cs) (rw (less, more) refl)
            (ground (arith, less, below), (below, rest))
    ]
    | inr notless ↦
        let (below, rest) = closest_from-IsLeast a best cs in
        moved a best (closest_from a best (score a best) cs) (c ∷ cs) (rw notless refl)
          (below, (ground (arith, notless, below), rest))
  ]

  -- Where arguments are expected, no call differs from them less than the closest call does.
  pub closest_call-least :
      (a : CalledFunc V) (c : CallRecord V) (cs : List (CallRecord V))
      → no_args a.expected_args ≡ false
      → All (λ k. score a (closest_call a c cs) ≤ score a k) (c ∷ cs)
  unfolding closest_call
  closest_call-least a c cs some_ = elim (Bool-cases (score a c == 0)) [
    | inl done ↦
        subst (λ d. All (λ k. score a d ≤ score a k) (c ∷ cs)) (sym (rw (some_, done) refl))
          (omega arith, zero_least a c cs (ground (arith, done)))
    | inr more ↦
        subst (λ d. All (λ k. score a d ≤ score a k) (c ∷ cs)) (sym (rw (some_, more) refl))
          (closest_from-IsLeast a c cs)
  ]
