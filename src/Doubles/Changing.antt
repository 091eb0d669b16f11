-- ===== src/Doubles/Changing.antt =====
-- internal/core/mutations.go, calls.go: what the asserts on changes say of a double.
use testigo.Base.{
  ℕ, suc, Bool, true, false, not, List, [], ◌∷◌, Option, none, some, Outcome, ok, panic, ◌≡◌, refl,
  ap, ◌∙◌, sym, ◌↔◌, ◌⊎◌, inl, inr, arith, Bool-cases, Option-cases,
}
use testigo.Calls.{Verifiers}
use testigo.Asserts.Messages.{Verdict, passes}
use testigo.Doubles.Changes.{
  FieldType, DoubleRecord, DoubleRecords, Memory, double_at, fields_differ, changed, did_change,
  did_not_change, registered_double,
}

-- The assert passes.
abbrev pub judged : Outcome Verdict → Bool
judged panic = false
judged (ok verdict) = passes verdict

module _ {M D V : Type 0} (g : Memory M D V) (m : M) where
  -- Some field from the index i on, of another type than Spy and *Spy, has another value.
  pub FieldsDiffer : ℕ → List FieldType → D → D → Type 0
  FieldsDiffer i [] initial current = ⊥
  FieldsDiffer i (f ∷ fs) initial current =
      ((f.is_spy ≡ false) × (g.deep_equal m (g.field initial i) (g.field current i) ≡ false))
      ⊎ FieldsDiffer (suc i) fs initial current

  -- A double has another value than at its registration.
  pub Differs : Option (List FieldType) → D → D → Type 0
  Differs none initial current = g.deep_equal m (g.whole initial) (g.whole current) ≡ false
  Differs (some fs) initial current = FieldsDiffer 0 fs initial current

  fields_differ-FieldsDiffer :
      (i : ℕ) (fs : List FieldType) (initial current : D)
      → (fields_differ g m i fs initial current ≡ true) ↔ FieldsDiffer i fs initial current
  unfolding fields_differ FieldsDiffer
  fields_differ-FieldsDiffer i [] initial current =
      ((λ h. absurd (ground (arith, h))), (λ h. absurd h))
  fields_differ-FieldsDiffer i (f ∷ fs) initial current =
      let (to_, from_) = fields_differ-FieldsDiffer (suc i) fs initial current in
      elim (Bool-cases (f.is_spy)) [
        | inl spy ↦ (
          (λ h. inr (to_ (ground (arith, spy, h)))),
          (λ h. elim h [
            | inl here ↦ absurd (ground (arith, spy, here.0))
            | inr later ↦ rw (spy, from_ later) refl
          ]),
        )
        | inr field_ ↦ elim (Bool-cases (g.deep_equal m (g.field initial i) (g.field current i))) [
          | inl same_ ↦ (
            (λ h. inr (to_ (ground (arith, field_, same_, h)))),
            (λ h. elim h [
              | inl here ↦ absurd (ground (arith, same_, here.1))
              | inr later ↦ rw (field_, same_, from_ later) refl
            ]),
          )
          | inr other ↦ ((λ h. inl (field_, other)), (λ h. rw (field_, other) refl))
        ]
      ]

  changed-Differs :
      (r : DoubleRecord D)
      → (changed g m r ≡ true) ↔ Differs r.typ.fields r.initial (g.read m r.ptr)
  unfolding changed Differs
  changed-Differs r = elim (Option-cases (r.typ.fields)) [
    | inl e ↦ rw e ((λ h. ground arith), (λ h. rw h refl))
    | inr (fs, e) ↦ rw e (fields_differ-FieldsDiffer 0 fs r.initial (g.read m r.ptr))
  ]

  did_change-changed :
      {P : Type 0} (goroutine base : ℕ) (r : DoubleRecord D) (records : DoubleRecords D)
      (vs : Verifiers P)
      → double_at base records ≡ some r
      → (judged (did_change g m goroutine (some base) records vs).1 ≡ changed g m r)
        × (judged (did_not_change g m goroutine (some base) records vs).1 ≡ not (changed g m r))
  unfolding did_change did_not_change registered_double
  did_change-changed goroutine base r records vs at = elim (Bool-cases (changed g m r)) [
    | inl e ↦ (rw (judged, at, e) refl, rw (judged, at, e) refl)
    | inr e ↦ (rw (judged, at, e) refl, rw (judged, at, e) refl)
  ]

  -- For a double that is registered, DidChange passes exactly when a field other than its spies, or the
  -- value as a whole if it is no struct, is not DeepEqual to that of the shallow copy kept by the
  -- registration, and DidNotChange exactly when there is no such field. Both sides are read in the memory
  -- of the assert, so a map or a slice that was changed in place is compared with itself, against the
  -- README and the comment on DidChange.
  pub did_change-Differs :
      {P : Type 0} (goroutine base : ℕ) (r : DoubleRecord D) (records : DoubleRecords D)
      (vs : Verifiers P)
      → double_at base records ≡ some r
      → ((judged (did_change g m goroutine (some base) records vs).1 ≡ true)
          ↔ Differs r.typ.fields r.initial (g.read m r.ptr))
        × ((judged (did_not_change g m goroutine (some base) records vs).1 ≡ true)
            ↔ (¬ Differs r.typ.fields r.initial (g.read m r.ptr)))
  did_change-Differs goroutine base r records vs at =
      let (did, did_not) = did_change-changed goroutine base r records vs at in
      let (to_, from_) = changed-Differs r in
      (
        ((λ h. to_ (sym did ∙ h)), (λ h. did ∙ from_ h)),
        (
          (λ h d. ground (arith, did_not, h, from_ d)),
          (λ h. elim (Bool-cases (changed g m r)) [
            | inl e ↦ absurd (h (to_ e))
            | inr e ↦ did_not ∙ ap not e
          ]),
        ),
      )
