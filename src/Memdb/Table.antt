-- ===== src/Memdb/Table.antt =====
-- What memdb promises: a table of keys and rows in insertion order, with none of the map or the
-- slice. Storing under a key that is there keeps its place; a new key goes to the end.
use testigo.Base.{Outcome, ok, ◌>>=◌, List, [], ◌∷◌, ite, none, some}
use testigo.Memdb.{Db, entries, set, insert, update, delete}
use mathlib.Core.List.{lookup}

module _ {K T : Type 0} (dec : Discrete K) where
  unfoldable pub upsert : K → T → List (K × T) → List (K × T)
  upsert k v [] = (k, v) ∷ []
  upsert k v ((j, w) ∷ t) = ite (dec k j) ((j, v) ∷ t) ((j, w) ∷ upsert k v t)

  unfoldable pub remove : K → List (K × T) → List (K × T)
  remove k [] = []
  remove k ((j, w) ∷ t) = ite (dec k j) t ((j, w) ∷ remove k t)

  unfoldable pub alter : K → (T → T) → List (K × T) → List (K × T)
  alter k f [] = []
  alter k f ((j, w) ∷ t) = ite (dec k j) ((j, f w) ∷ t) ((j, w) ∷ alter k f t)

-- A write to a DB.
pub data Write (K T : Type 0) : Type 0 where
  inserts : T → Write K T
  sets : K → T → Write K T
  updates : K → (T → T) → Write K T
  deletes : K → Write K T

module _ {K T : Type 0} (dec : Discrete K) where
  -- A write as the program makes it.
  unfoldable pub write : Db K T → Write K T → Outcome (Db K T)
  write d (inserts v) = insert dec d v >>= λ r. ok r.0
  write d (sets k v) = ok (set dec d k v)
  write d (updates k f) = update dec d k f >>= λ r. ok r.0
  write d (deletes k) = ok (delete dec d k).0

  unfoldable pub write_all : Db K T → List (Write K T) → Outcome (Db K T)
  write_all d [] = ok d
  write_all d (w ∷ ws) = write d w >>= λ e. write_all e ws

  -- The same writes on the table.
  abbrev pub apply : (T → K) → List (K × T) → Write K T → List (K × T)
  apply key t (inserts v) = upsert dec (key v) v t
  apply key t (sets k v) = upsert dec k v t
  apply key t (updates k f) = alter dec k f t
  apply key t (deletes k) = remove dec k t

  abbrev pub apply_all : (T → K) → List (K × T) → List (Write K T) → List (K × T)
  apply_all key t [] = t
  apply_all key t (w ∷ ws) = apply_all key (apply key t w) ws

  -- The table that a DB stands for: its keys in order, each with its row.
  unfoldable pub rows_in : List (K × T) → List K → List (K × T)
  rows_in m [] = []
  rows_in m (k ∷ ks) = elim (lookup dec k m) [
    | none ↦ rows_in m ks
    | some v ↦ (k, v) ∷ rows_in m ks
  ]

  unfoldable pub view : Db K T → List (K × T)
  unfolding rows_in
  view d = rows_in (entries d.rows) d.order
