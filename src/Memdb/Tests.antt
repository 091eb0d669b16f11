-- ===== src/Memdb/Tests.antt =====
-- A table of numbered rows: the theorems of memdb at concrete inputs.
use testigo.Base.{
  ok, ℕ, ◌+◌, List, [], ◌∷◌, map, some, ◌≡◌, refl, ltb, length, arith, take, drop, select, has,
}
use testigo.Base.Int.{ℤ, pos, sub_ℕ}
use testigo.Base.Dict.{store}
use testigo.Memdb.{Db, new, all, len, get, set, insert}
use testigo.Memdb.Invariant.{IsValid}
use testigo.Memdb.Table.{Write, inserts, sets, updates, deletes, apply_all, view, write_all}
use testigo.Memdb.Refinement.{write_all-apply_all, reads-view}
use testigo.Memdb.Query.{Query, run, where_rows, first_row, before, keep}
use testigo.Memdb.Rows.{IsOrder, IsSorted, ties, run-IsSorted, where_rows-view}
use native.Mathlib.Decide.{ℕ_discrete as dec}
use mathlib.Core.List.{Perm, head?, lookup}

abbrev Row : Type 0
Row = ℕ × ℕ

abbrev row_key : Row → ℕ
row_key r = r.0

abbrev seed : List Row
seed = (7, 30) ∷ (3, 10) ∷ (9, 20) ∷ []

abbrev writes : List (Write ℕ Row)
writes =
    inserts (7, 31) ∷ sets 4 (4, 5) ∷ updates 3 (λ r. (r.0, r.1 + 1)) ∷ deletes 9 ∷ deletes 8 ∷ []

abbrev by_value : Row → Row → ℤ
by_value a b = sub_ℕ a.1 b.1

-- The DB that `New` makes of the seed.
abbrev three : Db ℕ Row
three = record {
  key = some row_key;
  rows = some ((9, (9, 20)) ∷ (3, (3, 10)) ∷ (7, (7, 30)) ∷ []);
  order = 7 ∷ 3 ∷ 9 ∷ [];
}

new-three : new dec row_key seed ≡ ok three
unfolding new insert set store dec
new-three = refl

three-IsValid : IsValid dec three
unfolding has dec lookup
three-IsValid = record {
  unique = (refl, (refl, (refl, tt)));
  distinct = (refl, (refl, (refl, tt)));
  listed = λ k. ground arith;
  sized = refl;
}

by_value-IsOrder : IsOrder by_value
unfolding before
by_value-IsOrder = record { asym = λ a b h. ground arith; trans = λ a b c h k. ground arith }

abbrev two_cheapest : Query Row
two_cheapest = record {
  rows = seed;
  wheres = (λ r. ltb r.1 40) ∷ [];
  order = some by_value;
  limit = pos 2;
  offset = pos 0;
}

two_cheapest_rows : run two_cheapest ≡ (3, 10) ∷ (9, 20) ∷ []
unfolding run before
two_cheapest_rows = refl

write_all-apply_all_example :
    (e : Db ℕ Row) × (write_all dec three writes ≡ ok e)
    × IsValid dec e
    × (view dec e ≡ apply_all dec row_key (view dec three) writes)
write_all-apply_all_example = write_all-apply_all dec three row_key writes refl three-IsValid

reads-view_example :
    (all dec (0, 0) three ≡ map (λ e. e.1) (view dec three))
    × (len dec three ≡ length (view dec three))
    × (get dec three 3 ≡ lookup dec 3 (view dec three))
reads-view_example = reads-view dec (0, 0) three 3 three-IsValid

run-IsSorted_example :
    (s : List Row) × (run two_cheapest ≡ take 2 (drop 0 s))
    × Perm s (select (keep two_cheapest.wheres) seed)
    × IsSorted by_value s
    × ((c : Row) → ties by_value c s ≡ ties by_value c (select (keep two_cheapest.wheres) seed))
run-IsSorted_example = run-IsSorted two_cheapest by_value 2 0 refl refl refl by_value-IsOrder

where_rows-view_example :
    let matching = select (λ r. ltb r.1 25) (map (λ e. e.1) (view dec three)) in
    (where_rows dec (0, 0) three (λ r. ltb r.1 25) ≡ matching)
    × (first_row dec (0, 0) three (λ r. ltb r.1 25) ≡ head? matching)
where_rows-view_example = where_rows-view dec (0, 0) three (λ r. ltb r.1 25) three-IsValid
