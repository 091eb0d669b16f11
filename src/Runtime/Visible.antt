-- ===== src/Runtime/Visible.antt =====
-- internal/core/spy.go, doubles.go: the calls that a check on a goroutine sees.
use testigo.Base.{
  ℕ, zero, suc, ◌<◌, ◌↔◌, ◌⊎◌, subst, ap, Bool, true, ◌||◌, List, [], ◌∷◌, map, Option, none, some,
  has, has-append, Unique, Unique-snoc, ite, ℕ_discrete, ◌≡◌, refl, sym, ◌∙◌, arith, inl, inr,
  Bool-cases, Option-cases,
}
use testigo.Spy.{CallRecord}
use testigo.Spy.Selecting.{seqs}
use testigo.Spy.Verify.{collect_calls}
use testigo.Runtime.{
  Runtime, value_or, add_to_set, add_all_to_set, parent_test, visited, add_spies_of,
  add_owned_spies,
}
use testigo.Runtime.Steps.{seqs-append}

pub Unique-add_all_to_set :
    (as_ s : List ℕ) → Unique ℕ_discrete s → Unique ℕ_discrete (add_all_to_set as_ s)
Unique-add_all_to_set [] s u = u
Unique-add_all_to_set (a ∷ as_) s u = Unique-add_all_to_set as_ (add_to_set a s) (added a s u)
  where
    added : (a : ℕ) (s : List ℕ) → Unique ℕ_discrete s → Unique ℕ_discrete (add_to_set a s)
    added a s u = elim (Bool-cases (has ℕ_discrete a s)) [
      | inl old ↦ rw old u
      | inr new ↦ rw new (Unique-snoc ℕ_discrete a s new u)
    ]

has-add_to_set :
    (b a : ℕ) (s : List ℕ)
    → has ℕ_discrete b (add_to_set a s) ≡ ite (ℕ_discrete b a) true (has ℕ_discrete b s)
unfolding has
has-add_to_set b a s = ground (arith, has-append ℕ_discrete b s (a ∷ []))

has-add_all_to_set :
    (b : ℕ) (as_ s : List ℕ)
    → has ℕ_discrete b (add_all_to_set as_ s) ≡ (has ℕ_discrete b as_ || has ℕ_discrete b s)
unfolding has
has-add_all_to_set b [] s = refl
has-add_all_to_set b (a ∷ as_) s =
    ground (arith, has-add_all_to_set b as_ (add_to_set a s), has-add_to_set b a s)

module _ {V : Type 0} where
  pub Unique-add_owned_spies :
      (fuel : ℕ) (w : Runtime V) (cur : Option ℕ) (s : List ℕ)
      → Unique ℕ_discrete s
      → Unique ℕ_discrete (add_owned_spies fuel w cur s)
  unfolding add_owned_spies visited add_spies_of
  Unique-add_owned_spies zero w none s u = u
  Unique-add_owned_spies zero w (some t) s u = u
  Unique-add_owned_spies (suc fuel) w none s u = u
  Unique-add_owned_spies (suc fuel) w (some t) s u =
      Unique-add_owned_spies fuel w (parent_test w t)
        (add_all_to_set (value_or t [] w.test_double_spies) s)
        (Unique-add_all_to_set (value_or t [] w.test_double_spies) s u)

  has-add_owned_spies_old :
      (m fuel : ℕ) (w : Runtime V) (cur : Option ℕ) (s : List ℕ)
      → has ℕ_discrete m s ≡ true
      → has ℕ_discrete m (add_owned_spies fuel w cur s) ≡ true
  unfolding add_owned_spies visited add_spies_of
  has-add_owned_spies_old m zero w none s h = h
  has-add_owned_spies_old m zero w (some t) s h = h
  has-add_owned_spies_old m (suc fuel) w none s h = h
  has-add_owned_spies_old m (suc fuel) w (some t) s h =
      has-add_owned_spies_old m fuel w (parent_test w t)
        (add_all_to_set (value_or t [] w.test_double_spies) s)
        (ground (arith, has-add_all_to_set m (value_or t [] w.test_double_spies) s))

  -- The test u is n steps above t.
  abbrev pub Above : Runtime V → ℕ → ℕ → ℕ → Type 0
  Above w zero t u = t ≡ u
  Above w (suc n) t u = (p : ℕ) × (parent_test w t ≡ some p) × Above w n p u

  pub has-add_owned_spies :
      (m fuel n t u : ℕ) (w : Runtime V) (s : List ℕ)
      → n < fuel
      → Above w n t u
      → has ℕ_discrete m (value_or u [] w.test_double_spies) ≡ true
      → has ℕ_discrete m (add_owned_spies fuel w (some t) s) ≡ true
  unfolding add_owned_spies visited add_spies_of
  has-add_owned_spies m zero n t u w s lt up owns = absurd (omega arith)
  has-add_owned_spies m (suc fuel) zero t u w s lt up owns =
      has-add_owned_spies_old m fuel w (parent_test w t)
        (add_all_to_set (value_or t [] w.test_double_spies) s)
        (has-add_all_to_set m (value_or t [] w.test_double_spies) s ∙ here)
    where
      here : (has ℕ_discrete m (value_or t [] w.test_double_spies) || has ℕ_discrete m s) ≡ true
      here = rw up (rw owns)
  has-add_owned_spies m (suc fuel) (suc n) t u w s lt (p, e, up) owns = rw e (
      has-add_owned_spies m fuel n p u w (add_all_to_set (value_or t [] w.test_double_spies) s)
        (omega arith) up owns)

  -- A test has a lower number than its subtests.
  abbrev pub IsForest : Runtime V → Type 0
  IsForest w = (c p : ℕ) → parent_test w c ≡ some p → p < c

  -- The Spy m belongs to a double of the test t, or of a test above it.
  abbrev pub IsOwned : Runtime V → ℕ → ℕ → Type 0
  IsOwned w t m =
      (n u : ℕ) × Above w n t u × (has ℕ_discrete m (value_or u [] w.test_double_spies) ≡ true)

  -- What the walk adds for the tests from t up, of which p is the next.
  owned_next :
      (w : Runtime V) (m t : ℕ) (s : List ℕ)
      → (has ℕ_discrete m (add_all_to_set (value_or t [] w.test_double_spies) s) ≡ true) ↔ (
          (has ℕ_discrete m s ≡ true)
          ⊎ (has ℕ_discrete m (value_or t [] w.test_double_spies) ≡ true))
  owned_next w m t s = ground (arith, has-add_all_to_set m (value_or t [] w.test_double_spies) s)

  owned_top :
      (w : Runtime V) (m t : ℕ)
      → parent_test w t ≡ none
      → IsOwned w t m
      → has ℕ_discrete m (value_or t [] w.test_double_spies) ≡ true
  owned_top w m t top (zero, u, up, owns) =
      subst (λ k. has ℕ_discrete m (value_or k [] w.test_double_spies) ≡ true) (sym up) owns
  owned_top w m t top (suc n, u, (p, above, up), owns) = cc

  IsOwned-step :
      (w : Runtime V) (m t p : ℕ)
      → parent_test w t ≡ some p
      → IsOwned w t m
      → (has ℕ_discrete m (value_or t [] w.test_double_spies) ≡ true) ⊎ IsOwned w p m
  IsOwned-step w m t p e (zero, u, up, owns) =
      inl (subst (λ k. has ℕ_discrete m (value_or k [] w.test_double_spies) ≡ true) (sym up) owns)
  IsOwned-step w m t p e (suc n, u, (q, above, up), owns) =
      let same_ : q ≡ p = cc in inr (n, u, subst (λ k. Above w n k u) same_ up, owns)

  visited-none : (fuel : ℕ) (w : Runtime V) → visited fuel w none ≡ ([], true)
  unfolding visited
  visited-none zero w = refl
  visited-none (suc fuel) w = refl

  IsOwned-at_top :
      (w : Runtime V) (m t : ℕ) (s : List ℕ)
      → parent_test w t ≡ none
      → (has ℕ_discrete m (add_all_to_set (value_or t [] w.test_double_spies) s) ≡ true)
        ↔ ((has ℕ_discrete m s ≡ true) ⊎ IsOwned w t m)
  IsOwned-at_top w m t s top =
      let (to_, from_) = owned_next w m t s in
      (
        (λ h. elim (to_ h) [ inl old ↦ inl old | inr owns ↦ inr (0, t, refl, owns) ]),
        (λ h. elim h [
          | inl old ↦ from_ (inl old)
          | inr owned ↦ from_ (inr (owned_top w m t top owned))
        ]),
      )

  IsOwned-below :
      (w : Runtime V) (m t p : ℕ) (s all_ : List ℕ)
      → parent_test w t ≡ some p
      → (has ℕ_discrete m all_ ≡ true) ↔ (
          (has ℕ_discrete m (add_all_to_set (value_or t [] w.test_double_spies) s) ≡ true)
          ⊎ IsOwned w p m)
      → (has ℕ_discrete m all_ ≡ true) ↔ ((has ℕ_discrete m s ≡ true) ⊎ IsOwned w t m)
  IsOwned-below w m t p s all_ e (down, back) =
      let (to_, from_) = owned_next w m t s in
      (
        (λ h. elim (down h) [
          | inl mine ↦ elim (to_ mine) [ inl old ↦ inl old | inr owns ↦ inr (0, t, refl, owns) ]
          | inr (n, u, up, owns) ↦ inr (suc n, u, (p, e, up), owns)
        ]),
        (λ h. elim h [
          | inl old ↦ back (inl (from_ (inl old)))
          | inr owned ↦ elim (IsOwned-step w m t p e owned) [
            | inl mine ↦ back (inl (from_ (inr mine)))
            | inr above ↦ back (inr above)
          ]
        ]),
      )

  -- Where a test has a lower number than its subtests, fuel above the number of the test is enough for
  -- the walk up its parents: it comes to the end, and then the set holds what it held before and the
  -- spies of the doubles of the test and of each test above it, and nothing else.
  pub add_owned_spies-IsOwned :
      (fuel t : ℕ) (w : Runtime V) (s : List ℕ)
      → IsForest w
      → t < fuel
      → ((visited fuel w (some t)).1 ≡ true)
        × ((m : ℕ)
            → (has ℕ_discrete m (add_owned_spies fuel w (some t) s) ≡ true)
              ↔ ((has ℕ_discrete m s ≡ true) ⊎ IsOwned w t m))
  unfolding add_owned_spies visited add_spies_of
  add_owned_spies-IsOwned zero t w s forest lt = absurd (omega arith)
  add_owned_spies-IsOwned (suc fuel) t w s forest lt =
      let next = add_all_to_set (value_or t [] w.test_double_spies) s in
      elim (Option-cases (parent_test w t)) [
        | inl top ↦
            let end_ = ap (visited fuel w) top ∙ visited-none fuel w in
            (
              ap (λ (v : List ℕ × Bool). v.1) end_,
              (λ m.
                  subst
                    (λ (v : List ℕ × Bool).
                      (has ℕ_discrete m (add_spies_of w v.0 next) ≡ true)
                      ↔ ((has ℕ_discrete m s ≡ true) ⊎ IsOwned w t m))
                    (sym end_) (IsOwned-at_top w m t s top)),
            )
        | inr (p, e) ↦
            let (ended, owned) =
              add_owned_spies-IsOwned fuel p w next forest (omega (arith, forest t p e, lt)) in
            let way : visited fuel w (parent_test w t) ≡ visited fuel w (some p) =
              ap (visited fuel w) e in
            (
              ap (λ (v : List ℕ × Bool). v.1) way ∙ ended,
              (λ m.
                  subst
                    (λ (v : List ℕ × Bool).
                      (has ℕ_discrete m (add_spies_of w v.0 next) ≡ true)
                      ↔ ((has ℕ_discrete m s ≡ true) ⊎ IsOwned w t m))
                    (sym way)
                    (IsOwned-below w m t p s (add_owned_spies fuel w (some p) next) e (owned m))),
            )
      ]

  pub has-collect_calls :
      (n m : ℕ) (g : ℕ → List (CallRecord V)) (ms : List ℕ)
      → has ℕ_discrete m ms ≡ true
      → has ℕ_discrete n (seqs (g m)) ≡ true
      → has ℕ_discrete n (seqs (collect_calls (map g ms))) ≡ true
  unfolding collect_calls has
  has-collect_calls n m g [] h e = cc
  has-collect_calls n m g (k ∷ ms) h e =
      let rest = collect_calls (map g ms) in
      ground (
        arith,
        has-collect_calls n m g ms,
        seqs-append (g k) rest,
        has-append ℕ_discrete n (seqs (g k)) (seqs rest),
      )
