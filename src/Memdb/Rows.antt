-- ===== src/Memdb/Rows.antt =====
-- memdb/db.go: what a query returns.
use testigo.Base.{
  ℕ, Bool, true, false, not, List, [], ◌∷◌, map, Option, none, some, ◌≡◌, refl, ap, ◌∙◌, arith,
  zero, suc, take, drop, take_of_length-le, drop_of_length-le, All, select, ◌&&◌, inl, inr,
  Bool-cases,
}
use testigo.Base.Int.{ℤ, pos}
use testigo.Memdb.{Db, all}
use testigo.Memdb.Query.{
  Query, before, put_sorted, sort_stable, add_where, set_limit, cut_limit, cut_offset, keep, kept,
  run, first, query, where_rows, first_row,
}
use testigo.Memdb.Invariant.{IsValid}
use testigo.Memdb.Table.{view}
use testigo.Memdb.Refinement.{all-view}
use mathlib.Core.List.{Perm, head?}
use mathlib.Core.List.Perm

module _ {T : Type 0} where
  kept-select : (ws : List (T → Bool)) (vs : List T) → kept ws vs ≡ select (keep ws) vs
  unfolding kept
  kept-select ws [] = refl
  kept-select ws (v ∷ vs) = ground (arith, kept-select ws vs)

  -- What a comparison must satisfy to sort by it: "sorts first" is asymmetric, and "does not sort
  -- after" is transitive.
  pub record IsOrder (cmp : T → T → ℤ) : Type 0 where
    pub asym : (a b : T) → before cmp a b ≡ true → before cmp b a ≡ false
    pub trans :
        (a b c : T) → before cmp b a ≡ false → before cmp c b ≡ false → before cmp c a ≡ false

  -- Nothing stands behind an element that sorts after it.
  abbrev pub IsSorted : (T → T → ℤ) → List T → Type 0
  IsSorted cmp [] = Unit
  IsSorted cmp (a ∷ l) = All (λ b. before cmp b a ≡ false) l × IsSorted cmp l

  -- The elements that compare equal to one, in order.
  abbrev pub ties : (T → T → ℤ) → T → List T → List T
  ties cmp a = select (λ b. not (before cmp a b) && not (before cmp b a))

module _ {T : Type 0} (cmp : T → T → ℤ) where
  put_sorted-perm : (a : T) (l : List T) → Perm (put_sorted cmp a l) (a ∷ l)
  unfolding put_sorted
  put_sorted-perm a [] = Perm.refl (a ∷ [])
  put_sorted-perm a (b ∷ l) = elim (Bool-cases (before cmp b a)) [
    | inl after ↦ rw after (Perm.trans (Perm.cons b (put_sorted-perm a l)) (Perm.swap a b l))
    | inr here ↦ rw here (Perm.refl (a ∷ b ∷ l))
  ]

  pub sort_stable-perm : (l : List T) → Perm (sort_stable cmp l) l
  unfolding sort_stable
  sort_stable-perm [] = Perm.refl []
  sort_stable-perm (a ∷ l) =
      Perm.trans (put_sorted-perm a (sort_stable cmp l)) (Perm.cons a (sort_stable-perm l))

  module _ (order : IsOrder cmp) where
    put_sorted-All :
        (a c : T) (l : List T)
        → before cmp a c ≡ false
        → All (λ b. before cmp b c ≡ false) l
        → All (λ b. before cmp b c ≡ false) (put_sorted cmp a l)
    unfolding put_sorted
    put_sorted-All a c [] h all_l = (h, tt)
    put_sorted-All a c (b ∷ l) h (hb, hl) = elim (Bool-cases (before cmp b a)) [
      | inl after ↦ rw after (hb, put_sorted-All a c l h hl)
      | inr here ↦ rw here (h, (hb, hl))
    ]

    weaken :
        (a b : T) (l : List T)
        → before cmp b a ≡ false
        → All (λ c. before cmp c b ≡ false) l
        → All (λ c. before cmp c a ≡ false) l
    weaken a b [] h all_l = tt
    weaken a b (c ∷ l) h (hc, hl) = (order.trans a b c h hc, weaken a b l h hl)

    put_sorted-IsSorted : (a : T) (l : List T) → IsSorted cmp l → IsSorted cmp (put_sorted cmp a l)
    unfolding put_sorted
    put_sorted-IsSorted a [] s = (tt, tt)
    put_sorted-IsSorted a (b ∷ l) (hb, hl) = elim (Bool-cases (before cmp b a)) [
      | inl after ↦
          rw after (put_sorted-All a b l (order.asym b a after) hb, put_sorted-IsSorted a l hl)
      | inr here ↦ rw here ((here, weaken a b l here hb), (hb, hl))
    ]

    pub sort_stable-IsSorted : (l : List T) → IsSorted cmp (sort_stable cmp l)
    unfolding sort_stable
    sort_stable-IsSorted [] = tt
    sort_stable-IsSorted (a ∷ l) = put_sorted-IsSorted a _ (sort_stable-IsSorted l)

    ties-put_sorted : (c a : T) (l : List T) → ties cmp c (put_sorted cmp a l) ≡ ties cmp c (a ∷ l)
    unfolding put_sorted
    ties-put_sorted c a [] = refl
    ties-put_sorted c a (b ∷ l) = ground (arith, ties-put_sorted c a l, order.trans a c b)

    -- Sorting keeps the order of elements that compare equal.
    pub ties-sort_stable : (c : T) (l : List T) → ties cmp c (sort_stable cmp l) ≡ ties cmp c l
    unfolding sort_stable
    ties-sort_stable c [] = refl
    ties-sort_stable c (a ∷ l) =
        ground (arith, ties-put_sorted c a (sort_stable cmp l), ties-sort_stable c l)

module _ {T : Type 0} where
  length-cut_limit : (n : ℕ) (l : List T) → cut_limit (pos n) l ≡ take n l
  length-cut_limit n l = ground (arith, take_of_length-le n l)

  cut_offset-drop : (n : ℕ) (l : List T) → cut_offset (pos n) l ≡ drop n l
  cut_offset-drop zero l = refl
  cut_offset-drop (suc n) l = ground (arith, drop_of_length-le (suc n) l)

  -- Without an order a query with a limit n and an offset o gives the rows that pass every filter,
  -- in insertion order, from the o-th on and n at most.
  pub run-window :
      (q : Query T) (n o : ℕ)
      → q.order ≡ none
      → q.limit ≡ pos n
      → q.offset ≡ pos o
      → run q ≡ take n (drop o (select (keep q.wheres) q.rows))
  unfolding run
  run-window q n o none_ lim off =
      rw (none_, lim, off, kept-select q.wheres q.rows, cut_offset-drop, length-cut_limit)

  -- With an order that is an order, the rows that pass every filter are first sorted: the sorted
  -- list holds the same rows, nothing stands behind a row that sorts after it, and rows that compare
  -- equal keep their insertion order.
  pub run-IsSorted :
      (q : Query T) (cmp : T → T → ℤ) (n o : ℕ)
      → q.order ≡ some cmp
      → q.limit ≡ pos n
      → q.offset ≡ pos o
      → IsOrder cmp
      → (s : List T) × (run q ≡ take n (drop o s))
        × Perm s (select (keep q.wheres) q.rows)
        × IsSorted cmp s
        × ((c : T) → ties cmp c s ≡ ties cmp c (select (keep q.wheres) q.rows))
  unfolding run
  run-IsSorted q cmp n o ord lim off order =
      let rows = select (keep q.wheres) q.rows in
      (
        sort_stable cmp rows,
        rw (ord, lim, off, kept-select q.wheres q.rows, cut_offset-drop, length-cut_limit),
        sort_stable-perm cmp rows,
        sort_stable-IsSorted cmp order rows,
        λ c. ties-sort_stable cmp order c rows,
      )

module _ {K T : Type 0} (dec : Discrete K) (zero : T) where
  select-one : (p : T → Bool) (l : List T) → select (keep (p ∷ [])) l ≡ select p l
  unfolding keep
  select-one p [] = refl
  select-one p (v ∷ l) = ground (arith, select-one p l)

  where_rows-select :
      (d : Db K T) (p : T → Bool) → where_rows dec zero d p ≡ select p (all dec zero d)
  unfolding where_rows query add_where run
  where_rows-select d p = kept-select (p ∷ []) (all dec zero d) ∙ select-one p (all dec zero d)

  first-head? :
      (q : Query T) → q.order ≡ none → q.offset ≡ pos 0 → first q ≡ head? (kept q.wheres q.rows)
  unfolding first run set_limit
  first-head? q ord off = rw (ord, off) (cut (kept q.wheres q.rows))
    where
      cut :
          (l : List T)
          → elim (cut_limit (pos 1) l) as (λ x. Option T) [ [] ↦ none | v ∷ vs ↦ some v ] ≡ head? l
      cut [] = refl
      cut (v ∷ []) = ground arith
      cut (v ∷ w ∷ l) = ground arith

  -- On a valid DB `Where` gives the rows of the table that match, in insertion order, and `First`
  -- the first of those, if there is one.
  pub where_rows-view :
      (d : Db K T) (p : T → Bool)
      → IsValid dec d
      → let matching = select p (map (λ e. e.1) (view dec d)) in
        (where_rows dec zero d p ≡ matching) × (first_row dec zero d p ≡ head? matching)
  unfolding first_row query add_where
  where_rows-view d p h =
      let e = where_rows-select d p ∙ ap (select p) (all-view dec zero d h) in
      (
        e,
        first-head? (add_where (query dec zero d) p) refl refl
            ∙ ap head? (
                kept-select (p ∷ []) (all dec zero d)
                ∙ select-one p (all dec zero d)
                ∙ ap (select p) (all-view dec zero d h)),
      )
