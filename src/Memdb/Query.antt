-- ===== src/Memdb/Query.antt =====
-- memdb/db.go: `Query` and the reads of a DB that go through it. The comparison of `OrderBy` gives
-- a signed number. `slices.SortStableFunc` is taken by what it documents: it sorts, and keeps the
-- order of elements that compare equal.
use testigo.Base.{
  ℕ, Bool, true, false, List, [], ◌∷◌, ◌++◌, Option, none, some, length, take, drop, ltb, leb,
  if◌then◌else◌,
}
use testigo.Base.Int.{ℤ, pos, negsuc, ltb_ℤ}
use testigo.Memdb.{Db, all}

pub record Query (T : Type 0) : Type 0 where
  pub rows : List T
  pub wheres : List (T → Bool)
  pub order : Option (T → T → ℤ)
  pub limit : ℤ
  pub offset : ℤ

module _ {T : Type 0} where
  unfoldable pub before : (T → T → ℤ) → T → T → Bool
  before cmp a b = ltb_ℤ (cmp a b) (pos 0)

  -- An insertion behind everything that does not come after the new element.
  unfoldable pub put_sorted : (T → T → ℤ) → T → List T → List T
  put_sorted cmp a [] = a ∷ []
  put_sorted cmp a (b ∷ l) = if before cmp b a then b ∷ put_sorted cmp a l else a ∷ b ∷ l

  unfoldable pub sort_stable : (T → T → ℤ) → List T → List T
  unfolding put_sorted before
  sort_stable cmp [] = []
  sort_stable cmp (a ∷ l) = put_sorted cmp a (sort_stable cmp l)

  unfoldable pub add_where : Query T → (T → Bool) → Query T
  add_where q keep = record q { wheres = q.wheres ++ keep ∷ [] }

  unfoldable pub order_by : Query T → (T → T → ℤ) → Query T
  order_by q cmp = record q { order = some cmp }

  unfoldable pub set_limit : Query T → ℤ → Query T
  set_limit q n = record q { limit = n }

  unfoldable pub set_offset : Query T → ℤ → Query T
  set_offset q n = record q { offset = n }

  -- A negative limit cuts nothing.
  abbrev pub cut_limit : ℤ → List T → List T
  cut_limit (pos n) out = if ltb n (length out) then take n out else out
  cut_limit (negsuc n) out = out

  -- An offset at or past the end leaves nothing.
  abbrev pub cut_offset : ℤ → List T → List T
  cut_offset (pos n) out = if ltb 0 n then (if leb (length out) n then [] else drop n out) else out
  cut_offset (negsuc n) out = out

  abbrev pub sorted_by : Option (T → T → ℤ) → List T → List T
  sorted_by none out = out
  sorted_by (some cmp) out = sort_stable cmp out

  -- The loop over the filters.
  unfoldable pub keep : List (T → Bool) → T → Bool
  keep [] v = true
  keep (where_ ∷ ws) v = if where_ v then keep ws v else false

  -- The loop that collects the rows to keep.
  unfoldable pub kept : List (T → Bool) → List T → List T
  unfolding keep
  kept ws [] = []
  kept ws (v ∷ vs) = if keep ws v then v ∷ kept ws vs else kept ws vs

  -- `Rows`: an offset past the end returns at once, with no limit to cut.
  unfoldable pub run : Query T → List T
  unfolding sort_stable kept
  run q =
      let out = sorted_by q.order (kept q.wheres q.rows) in
      cut_limit q.limit (cut_offset q.offset out)

  unfoldable pub first : Query T → Option T
  first q = elim (run (set_limit q (pos 1))) [ [] ↦ none | v ∷ vs ↦ some v ]

  unfoldable pub count : Query T → ℕ
  count q = length (run q)

module _ {K T : Type 0} (dec : Discrete K) (zero : T) where
  unfoldable pub query : Db K T → Query T
  query d = record {
    rows = all dec zero d;
    wheres = [];
    order = none;
    limit = negsuc 0;
    offset = pos 0;
  }

  unfoldable pub where_rows : Db K T → (T → Bool) → List T
  where_rows d p = run (add_where (query d) p)

  unfoldable pub first_row : Db K T → (T → Bool) → Option T
  first_row d p = first (add_where (query d) p)
