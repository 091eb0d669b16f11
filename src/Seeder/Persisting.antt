-- ===== src/Seeder/Persisting.antt =====
-- seeder/seeder.go: which values Many and Generate persist, and where they stop.
use testigo.Base.{
  ℕ, zero, suc, ◌+◌, List, [], ◌∷◌, ◌++◌, Option, none, some, length, ◌≡◌, refl, sym, ap, subst,
  ◌∙◌, ◌⊎◌, inl, inr, arith, Option-cases,
}
use testigo.Base.Int.{pos}
use testigo.Seeder.{
  Refusal, Seeded, Seeder, seeded, fatal, seeded_with, persist_from, many, generate, generate_from,
}

module _ {S E T : Type 0} (s : Seeder S E T) where
  -- Each value of a list is persisted without an error, in order, from one state to another.
  pub data Persists : List T → S → S → Type 0 where
    done : {z : S} → Persists [] z z
    next :
        {value : T} {values : List T} {z y x : S}
        → s.persist value z ≡ (none, y)
        → Persists values y x
        → Persists (value ∷ values) z x

  -- The item of an index is not persisted; those before it are, and none behind it is tried.
  pub record StopsAt (values : List T) (z : S) (index : ℕ) (e : E) (y : S) : Type 0 where
    pub before : List T
    pub value : T
    pub after : List T
    pub all_items : values ≡ before ++ value ∷ after
    pub place : length before ≡ index
    pub state : S
    pub persisted : Persists before z state
    pub refused : s.persist value state ≡ (some e, y)

  stops_later :
      (value : T) (values : List T) (z y x : S) (index : ℕ) (e : E)
      → s.persist value z ≡ (none, y)
      → StopsAt values y index e x
      → StopsAt (value ∷ values) z (suc index) e x
  stops_later value values z y x index e step stop = record {
    before = value ∷ stop.before;
    value = stop.value;
    after = stop.after;
    all_items = ap (λ vs. value ∷ vs) stop.all_items;
    place = ap suc stop.place;
    state = stop.state;
    persisted = Persists.next step stop.persisted;
    refused = stop.refused;
  }

  -- How the loop of Many ends, from an index on.
  abbrev pub Ended : ℕ → List T → S → Option (Refusal E) × S → Type 0
  Ended index values z (refusal, y) =
      ((refusal ≡ none) × Persists values z y)
      ⊎ ((n : ℕ) × (e : E) × (refusal ≡ some (Refusal.item_not_persisted (index + n) e))
          × StopsAt values z n e y)

  persist_from-refused :
      (index : ℕ) (value : T) (values : List T) (z : S) (e : E)
      → (s.persist value z).0 ≡ some e
      → persist_from s index (value ∷ values) z
        ≡ (some (Refusal.item_not_persisted index e), (s.persist value z).1)
  unfolding persist_from
  persist_from-refused index value values z e h = rw (persist_from, h) refl

  persist_from-next :
      (index : ℕ) (value : T) (values : List T) (z : S)
      → (s.persist value z).0 ≡ none
      → persist_from s index (value ∷ values) z
        ≡ persist_from s (suc index) values (s.persist value z).1
  unfolding persist_from
  persist_from-next index value values z h = rw (persist_from, h) refl

  Ended-later :
      (index : ℕ) (value : T) (values : List T) (z y : S) (r : Option (Refusal E) × S)
      → s.persist value z ≡ (none, y)
      → Ended (suc index) values y r
      → Ended index (value ∷ values) z r
  Ended-later index value values z y r step (inl (ends, persisted)) =
      inl (ends, Persists.next step persisted)
  Ended-later index value values z y r step (inr (n, e, ends, stop)) = inr (
    suc n,
    e,
    ends ∙ ap (λ k. some (Refusal.item_not_persisted k e)) (omega arith),
    stops_later value values z y r.1 n e step stop,
  )

  persist_from-Ended :
      (index : ℕ) (values : List T) (z : S) → Ended index values z (persist_from s index values z)
  unfolding persist_from
  persist_from-Ended index [] z = inl (refl, Persists.done)
  persist_from-Ended index (value ∷ values) z = elim (Option-cases ((s.persist value z).0)) [
    | inl free ↦
        let y = (s.persist value z).1 in
        let step : s.persist value z ≡ (none, y) = ap (λ o. (o, y)) free in
        subst (Ended index (value ∷ values) z) (sym (persist_from-next index value values z free)) (
          Ended-later index value values z y (persist_from s (suc index) values y) step
            (persist_from-Ended (suc index) values y))
    | inr (e, error) ↦
        let y = (s.persist value z).1 in
        let step : s.persist value z ≡ (some e, y) = ap (λ o. (o, y)) error in
        subst (Ended index (value ∷ values) z)
          (sym (persist_from-refused index value values z e error))
          (inr (
            0,
            e,
            ap (λ k. some (Refusal.item_not_persisted k e)) (omega arith),
            record {
              before = [];
              value = value;
              after = values;
              all_items = refl;
              place = refl;
              state = z;
              persisted = Persists.done;
              refused = step;
            },
          ))
  ]

  -- Many either gives its values, after it has persisted each of them in order without an error, or
  -- ends the test at the first that is not persisted, whose index it tells, after it has persisted those
  -- before it in order and none of those behind it.
  pub many-Persists :
      (values : List T) (z : S)
      → (((many s values z).0 ≡ seeded values) × Persists values z (many s values z).1)
        ⊎ ((n : ℕ) × (e : E) × ((many s values z).0 ≡ fatal (Refusal.item_not_persisted n e))
            × StopsAt values z n e (many s values z).1)
  unfolding many
  many-Persists values z = elim (persist_from-Ended 0 values z) [
    | inl (ends, persisted) ↦ inl (rw (many, ends) refl, rw (many, ends) persisted)
    | inr (n, e, ends, stop) ↦ inr (
      n,
      e,
      rw (many, ends) (ap (λ k. fatal (Refusal.item_not_persisted k e)) (omega arith)),
      rw (many, ends) stop,
    )
  ]

module _ {G R E T : Type 0} (persist : T → R → Option E × R) (draw : G → T × G) where
  -- A seeder and a generator that share no state.
  abbrev pub beside : Seeder (G × R) E T
  beside = record { persist = λ v (g, r). let (error, q) = persist v r in (error, (g, q)) }

  abbrev pub drawing : G × R → T × (G × R)
  drawing (g, r) = let (v, h) = draw g in (v, (h, r))

  abbrev pub alone : Seeder R E T
  alone = record { persist = persist }

  -- The next n values of the generator.
  abbrev pub draws : ℕ → G → List T
  draws zero g = []
  draws (suc n) g = let (v, h) = draw g in v ∷ draws n h

  -- Where Many names an item, Generate names a generated item.
  abbrev pub as_generated : Refusal E → Refusal E
  as_generated (Refusal.item_not_persisted index e) = Refusal.generated_not_persisted index e
  as_generated r = r

  abbrev pub many_as_generated : Seeded E (List T) → Seeded E (List T)
  many_as_generated (seeded values) = seeded values
  many_as_generated (fatal r) = fatal (as_generated r)

  -- What the loop of Many leads to for the values given.
  abbrev pub outcome : List T → Option (Refusal E) → Seeded E (List T)
  outcome values none = seeded values
  outcome values (some r) = fatal (as_generated r)

  outcome_of_more :
      (v : T) (vs : List T) (o : Option (Refusal E))
      → seeded_with (λ values. v ∷ values) (outcome vs o) ≡ outcome (v ∷ vs) o
  outcome_of_more v vs none = refl
  outcome_of_more v vs (some r) = refl

  generate_from-persist_from :
      (n index : ℕ) (g : G) (r : R)
      → ((generate_from beside drawing n index (g, r)).0
          ≡ outcome (draws n g) (persist_from alone index (draws n g) r).0)
        × ((generate_from beside drawing n index (g, r)).1.1
            ≡ (persist_from alone index (draws n g) r).1)
  unfolding generate_from persist_from
  generate_from-persist_from zero index g r = (refl, refl)
  generate_from-persist_from (suc n) index g r =
      let v = (draw g).0 in
      let (same_values, same_state) =
        generate_from-persist_from n (suc index) (draw g).1 (persist v r).1 in
      elim (Option-cases ((persist v r).0)) [
        | inl free ↦ (
          rw free (
              ap (seeded_with (λ values. v ∷ values)) same_values
              ∙ outcome_of_more v (draws n (draw g).1)
                  (persist_from alone (suc index) (draws n (draw g).1) (persist v r).1).0),
          rw free same_state,
        )
        | inr (e, error) ↦ (rw error refl, rw error refl)
      ]

  outcome-many :
      (values : List T) (r : R)
      → (many_as_generated (many alone values r).0
          ≡ outcome values (persist_from alone 0 values r).0)
        × ((many alone values r).1 ≡ (persist_from alone 0 values r).1)
  unfolding many
  outcome-many values r = elim (Option-cases ((persist_from alone 0 values r).0)) [
    | inl e ↦ (rw (many, e) refl, rw (many, e) refl)
    | inr (f, e) ↦ (rw (many, e) refl, rw (many, e) refl)
  ]

  -- Where the generator and the repository share no state, Generate of n values leaves the repository as
  -- Many does for the next n values of the generator, and ends as it does: with these values, or with a
  -- Fatal for the item of the same index and the same error.
  pub generate-many :
      (n : ℕ) (g : G) (r : R)
      → ((generate beside (pos n) (some drawing) (g, r)).0
          ≡ many_as_generated (many alone (draws n g) r).0)
        × ((generate beside (pos n) (some drawing) (g, r)).1.1 ≡ (many alone (draws n g) r).1)
  unfolding generate
  generate-many n g r =
      let (values, state) = generate_from-persist_from n 0 g r in
      let (values', state') = outcome-many (draws n g) r in
      (values ∙ sym values', state ∙ sym state')
