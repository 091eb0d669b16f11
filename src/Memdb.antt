-- ===== src/Memdb.antt =====
-- memdb/db.go: the table itself. A method that changes the table returns the new table; a method
-- that can panic returns an `Outcome`. A `(T, bool)` result is an `Option`, the zero value that
-- stands beside `false` left out. Keys are of one type K with a decidable equality (the source
-- boxes them to `any`; a key that cannot be hashed, at which it panics, is left out). What copies of a DB share through their map and slice is not modelled.
pub mod Query
pub mod Table
pub mod Invariant
pub mod Refinement
pub mod Rows
mod Tests
use testigo.Base.{
  ℕ, Bool, true, false, List, [], ◌∷◌, ◌++◌, map, Option, none, some, ite, if◌then◌else◌, is_some,
  length, has, Outcome, ok, panic, ◌>>=◌,
}
use testigo.Base.Dict.{store, discard}
use mathlib.Core.List.{lookup}
use mathlib.Core.Option

-- `key` is none for a nil function, `rows` is none for a nil map.
pub record Db (K T : Type 0) : Type 0 where
  pub key : Option (T → K)
  pub rows : Option (List (K × T))
  pub order : List K

-- Reading a nil map finds no entry.
abbrev pub entries {ℓ} : {A : Type ℓ} → Option (List A) → List A
entries none = []
entries (some m) = m

-- `slices.Delete` at the first place that holds the key; the list alone if none does.
unfoldable pub drop_key : {K : Type 0} → Discrete K → K → List K → List K
drop_key dec k [] = []
drop_key dec k (j ∷ ks) = ite (dec j k) ks (j ∷ drop_key dec k ks)

module _ {K T : Type 0} where
  unfoldable pub ensure : Db K T → Db K T
  ensure d = record d { rows = some (entries d.rows) }

module _ {K T : Type 0} (dec : Discrete K) where
  -- Assigning to an entry of a nil map panics.
  abbrev pub assign : K → T → Option (List (K × T)) → Outcome (Option (List (K × T)))
  assign k v none = panic
  assign k v (some m) = ok (some (store dec k v m))

  unfoldable pub set : Db K T → K → T → Db K T
  unfolding ensure
  set d k v =
      let e = ensure d in
      record e {
        rows = some (store dec k v (entries e.rows));
        order = if is_some (lookup dec k (entries e.rows)) then e.order else e.order ++ k ∷ [];
      }

  unfoldable pub insert : Db K T → T → Outcome (Db K T × K)
  insert d v = elim (d.key) [ none ↦ panic | some key ↦ ok (set d (key v) v, key v) ]

  unfoldable pub get : Db K T → K → Option T
  get d k = lookup dec k (entries d.rows)

  unfoldable pub update : Db K T → K → (T → T) → Outcome (Db K T × Option T)
  unfolding get
  update d k f = elim (get d k) [
    | none ↦ ok (d, none)
    | some v ↦ do rows ← assign k (f v) d.rows; ok (record d { rows = rows }, some (f v))
  ]

  unfoldable pub delete : Db K T → K → Db K T × Bool
  delete d k = elim (lookup dec k (entries d.rows)) [
    | none ↦ (d, false)
    | some _ ↦ (
      record d { rows = Option.map (discard dec k) d.rows; order = drop_key dec k d.order },
      true,
    )
  ]

  unfoldable pub len : Db K T → ℕ
  len d = length (entries d.rows)

  -- `zero` is the zero value of T: what a map gives for a key that it lacks.
  unfoldable pub all : T → Db K T → List T
  all zero d = map (λ k. Option.get_or (lookup dec k (entries d.rows)) zero) d.order

  -- The loop of `New`.
  unfoldable pub insert_all : Db K T → List T → Outcome (Db K T)
  insert_all d [] = ok d
  insert_all d (v ∷ vs) = insert d v >>= λ r. insert_all r.0 vs

  unfoldable pub new : (T → K) → List T → Outcome (Db K T)
  unfolding insert_all
  new key seed = insert_all (record { key = some key; rows = none; order = [] }) seed
