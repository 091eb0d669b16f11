-- ===== src/Calls/Counted.antt =====
-- internal/core/calls.go: what the verifier of a goroutine counts over a run of its tests.
use testigo.Base.{
  ℕ, ◌+◌, List, [], ◌∷◌, ◌++◌, Option, none, some, ite, ℕ_discrete, ◌≡◌, refl, ap, ◌∙◌, arith, inl,
  inr, Option-cases,
}
use testigo.Base.Dict.{
  store, discard, lookup-store, lookup-discard, Distinct, Distinct-store, Distinct-discard,
}
use testigo.Calls.{
  PendingCall, TestVerifier, new_verifier, Verifiers, arm_final_check, register_for_final_check,
  note_value_assertion,
}
use mathlib.Core.List.{lookup}

-- What the verifiers see on a goroutine: Run starts a subtest (`arms`), Called starts a chain (`starts`), a
-- value is asserted, a test ends. NewDouble arms nothing.
pub data Notice (V : Type 0) : Type 0 where
  arms : ℕ → Notice V
  starts : ℕ → PendingCall V → Notice V
  asserts : ℕ → Notice V
  ends : ℕ → Notice V

module _ {V : Type 0} where
  unfoldable pub notice : Verifiers V → Notice V → Verifiers V
  unfolding arm_final_check register_for_final_check note_value_assertion
  notice vs (arms g) = (arm_final_check g vs).1
  notice vs (starts g p) = register_for_final_check g p vs
  notice vs (asserts g) = note_value_assertion g vs
  notice vs (ends g) = discard ℕ_discrete g vs

  unfoldable pub notice_all : Verifiers V → List (Notice V) → Verifiers V
  unfolding notice
  notice_all vs [] = vs
  notice_all vs (n ∷ ns) = notice_all (notice vs n) ns

  -- The specification: the verifier of one goroutine by itself.
  abbrev pub armed : Option (TestVerifier V) → TestVerifier V
  armed none = new_verifier
  armed (some tv) = tv

  abbrev pub with_chain : PendingCall V → TestVerifier V → TestVerifier V
  with_chain p tv = record {
    pendings = tv.pendings ++ p ∷ [];
    value_asserts = tv.value_asserts;
    assertions = tv.assertions + 1;
  }

  abbrev pub with_value : Option (TestVerifier V) → Option (TestVerifier V)
  with_value none = none
  with_value (some tv) = some (record {
    pendings = tv.pendings;
    value_asserts = tv.value_asserts + 1;
    assertions = tv.assertions + 1;
  })

  abbrev pub alone : ℕ → Option (TestVerifier V) → List (Notice V) → Option (TestVerifier V)
  alone g o [] = o
  alone g o (arms h ∷ ns) = alone g (ite (ℕ_discrete g h) (some (armed o)) o) ns
  alone g o (starts h p ∷ ns) = alone g (ite (ℕ_discrete g h) (some (with_chain p (armed o))) o) ns
  alone g o (asserts h ∷ ns) = alone g (ite (ℕ_discrete g h) (with_value o) o) ns
  alone g o (ends h ∷ ns) = alone g (ite (ℕ_discrete g h) none o) ns

  lookup-arms :
      (g h : ℕ) (vs : Verifiers V)
      → lookup ℕ_discrete g (arm_final_check h vs).1
        ≡ ite (ℕ_discrete g h) (some (armed (lookup ℕ_discrete g vs))) (lookup ℕ_discrete g vs)
  unfolding arm_final_check
  lookup-arms g h vs = elim (Option-cases (lookup ℕ_discrete h vs)) [
    | inl e ↦ rw (e, arm_final_check) (ground (arith, lookup-store ℕ_discrete h g new_verifier vs))
    | inr (tv, e) ↦ rw (e, arm_final_check) (ground arith)
  ]

  lookup-starts :
      (g h : ℕ) (p : PendingCall V) (vs : Verifiers V)
      → lookup ℕ_discrete g (register_for_final_check h p vs)
        ≡ ite
            (ℕ_discrete g h)
            (some (with_chain p (armed (lookup ℕ_discrete g vs))))
            (lookup ℕ_discrete g vs)
  unfolding register_for_final_check
  lookup-starts g h p vs = elim (Option-cases (lookup ℕ_discrete h vs)) [
    | inl e ↦
        rw (e, register_for_final_check, arm_final_check)
          (ground (
            arith,
            lookup-store ℕ_discrete h g new_verifier vs,
            lookup-store ℕ_discrete h g (with_chain p new_verifier)
                (store ℕ_discrete h new_verifier vs),
          ))
    | inr (tv, e) ↦
        rw (e, register_for_final_check, arm_final_check)
          (ground (arith, lookup-store ℕ_discrete h g (with_chain p tv) vs))
  ]

  lookup-asserts :
      (g h : ℕ) (vs : Verifiers V)
      → lookup ℕ_discrete g (note_value_assertion h vs)
        ≡ ite (ℕ_discrete g h) (with_value (lookup ℕ_discrete g vs)) (lookup ℕ_discrete g vs)
  unfolding note_value_assertion
  lookup-asserts g h vs = elim (Option-cases (lookup ℕ_discrete h vs)) [
    | inl e ↦ rw (e, note_value_assertion) (ground arith)
    | inr (tv, e) ↦
        rw (e, note_value_assertion)
          (ground (
            arith,
            lookup-store ℕ_discrete h g
                (record tv { value_asserts = tv.value_asserts + 1; assertions = tv.assertions + 1 })
                vs,
          ))
  ]

  Distinct-arms :
      (g : ℕ) (vs : Verifiers V)
      → Distinct ℕ_discrete vs
      → Distinct ℕ_discrete (arm_final_check g vs).1
  unfolding arm_final_check
  Distinct-arms g vs d = elim (Option-cases (lookup ℕ_discrete g vs)) [
    | inl e ↦ rw (e, arm_final_check) (Distinct-store ℕ_discrete g new_verifier vs d)
    | inr (tv, e) ↦ rw (e, arm_final_check) d
  ]

  Distinct-notice :
      (vs : Verifiers V) (n : Notice V) → Distinct ℕ_discrete vs → Distinct ℕ_discrete (notice vs n)
  unfolding notice register_for_final_check note_value_assertion
  Distinct-notice vs (arms g) d = Distinct-arms g vs d
  Distinct-notice vs (starts g p) d = Distinct-store ℕ_discrete g _ _ (Distinct-arms g vs d)
  Distinct-notice vs (asserts g) d = elim (Option-cases (lookup ℕ_discrete g vs)) [
    | inl e ↦ rw (e, notice, note_value_assertion) d
    | inr (tv, e) ↦ rw (e, notice, note_value_assertion) (Distinct-store ℕ_discrete g _ vs d)
  ]
  Distinct-notice vs (ends g) d = Distinct-discard ℕ_discrete g vs d

  -- Whatever the goroutines do, and in whatever order, each has the verifier that its own notices alone
  -- make, if the map holds each goroutine once: an armed one counts each chain and each value assertion
  -- as one assertion, a value assertion counts nothing before Run or a chain arms it, and the end of the
  -- test drops it.
  pub notice_all-alone :
      (g : ℕ) (vs : Verifiers V) (ns : List (Notice V))
      → Distinct ℕ_discrete vs
      → lookup ℕ_discrete g (notice_all vs ns) ≡ alone g (lookup ℕ_discrete g vs) ns
  unfolding notice_all notice
  notice_all-alone g vs [] d = refl
  notice_all-alone g vs (n ∷ ns) d =
      notice_all-alone g (notice vs n) ns (Distinct-notice vs n d) ∙ at n
    where
      at :
          (n : Notice V)
          → alone g (lookup ℕ_discrete g (notice vs n)) ns
            ≡ alone g (lookup ℕ_discrete g vs) (n ∷ ns)
      at (arms h) = ap (λ o. alone g o ns) (lookup-arms g h vs)
      at (starts h p) = ap (λ o. alone g o ns) (lookup-starts g h p vs)
      at (asserts h) = ap (λ o. alone g o ns) (lookup-asserts g h vs)
      at (ends h) = ap (λ o. alone g o ns) (lookup-discard ℕ_discrete h g vs d)
