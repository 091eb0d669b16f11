-- ===== src/Memdb/Invariant.antt =====
-- memdb/db.go: the map and the slice of a DB stay in step.
use testigo.Base.{
  ok, true, false, List, [], ◌∷◌, ite, Option, none, some, ◌≡◌, refl, arith, length, has, Unique,
  is_some, has-append, Unique-snoc, Option-cases, inl, inr, length-append, ◌+◌,
}
use testigo.Base.Dict.{
  discard, Distinct, lookup-store, lookup-discard, length-store, length-discard, Distinct-store,
  Distinct-discard,
}
use testigo.Memdb.{Db, entries, drop_key, ensure, set, get, update, delete}
use mathlib.Core.Option
use mathlib.Core.List.{lookup}

module _ {K : Type 0} (dec : Discrete K) where
  has-drop_key_ne :
      (k j : K) (ks : List K)
      → Unique dec ks
      → has dec j (drop_key dec k ks) ≡ ite (dec j k) false (has dec j ks)
  unfolding has drop_key
  has-drop_key_ne k j [] u = ground arith
  has-drop_key_ne k j (i ∷ ks) u = ground (arith, has-drop_key_ne k j ks)

  Unique-drop_key : (k : K) (ks : List K) → Unique dec ks → Unique dec (drop_key dec k ks)
  unfolding has drop_key
  Unique-drop_key k [] u = tt
  Unique-drop_key k (i ∷ ks) u = ground (arith, Unique-drop_key k ks, has-drop_key_ne k i ks)

  length-drop_key :
      (k : K) (ks : List K) → has dec k ks ≡ true → length (drop_key dec k ks) + 1 ≡ length ks
  unfolding has drop_key
  length-drop_key k [] h = cc
  length-drop_key k (i ∷ ks) h = ground (arith, length-drop_key k ks)

module _ {K T : Type 0} (dec : Discrete K) where
  pub record IsValid (d : Db K T) : Type 0 where
    pub unique : Unique dec d.order
    pub distinct : Distinct dec (entries d.rows)
    pub listed : (k : K) → has dec k d.order ≡ is_some (lookup dec k (entries d.rows))
    pub sized : length d.order ≡ length (entries d.rows)

  -- Storing a row keeps the slice and the map in step.
  pub set-IsValid : (d : Db K T) (k : K) (v : T) → IsValid d → IsValid (set dec d k v)
  unfolding set ensure has
  set-IsValid d k v h = record {
    unique = ground (arith, h.listed k, Unique-snoc dec k d.order);
    distinct = Distinct-store dec k v _ h.distinct;
    listed = λ j. ground (
      arith,
      h.listed k,
      h.listed j,
      lookup-store dec k j v (entries d.rows),
      has-append dec j d.order (k ∷ []),
    );
    sized =
        ground
          (arith, length-store dec k v (entries d.rows), h.sized, length-append d.order (k ∷ []));
  }

  pub entries-discard :
      (k : K) (m : Option (List (K × T)))
      → entries (Option.map (discard dec k) m) ≡ discard dec k (entries m)
  unfolding discard
  entries-discard k none = refl
  entries-discard k (some m) = refl

  -- So does removing one.
  pub delete-IsValid : (d : Db K T) (k : K) → IsValid d → IsValid (delete dec d k).0
  unfolding delete
  delete-IsValid d k h = elim (Option-cases (lookup dec k (entries d.rows))) [
    | inl absent ↦ rw (absent, delete) h
    | inr (v, found) ↦
        rw (found, delete)
          (record {
            unique = Unique-drop_key dec k d.order h.unique;
            distinct = rw (entries-discard k d.rows) (Distinct-discard dec k _ h.distinct);
            listed = λ j. rw (entries-discard k d.rows) (
                ground (
                  arith,
                  h.listed j,
                  has-drop_key_ne dec k j d.order h.unique,
                  lookup-discard dec k j (entries d.rows) h.distinct,
                ));
            sized = rw (entries-discard k d.rows) (
                ground (
                  arith,
                  h.listed k,
                  h.sized,
                  length-drop_key dec k d.order,
                  length-discard dec k (entries d.rows) v found,
                ));
          })
  ]

  -- What `update` computes: the map is never nil where the row was found.
  pub update-set :
      (d : Db K T) (k : K) (f : T → T) {v : T}
      → get dec d k ≡ some v
      → update dec d k f ≡ ok (set dec d k (f v), some (f v))
  unfolding update get set ensure lookup
  update-set d k f {v} found = elim (Option-cases (d.rows)) [
    | inl nil ↦ ground arith
    | inr (m, made) ↦ ground arith
  ]

  pub update-absent :
      (d : Db K T) (k : K) (f : T → T) → get dec d k ≡ none → update dec d k f ≡ ok (d, none)
  unfolding update
  update-absent d k f absent = rw (absent, update)

  -- The empty table that `New` starts from.
  pub empty-IsValid :
      (key : Option (T → K)) → IsValid (record { key = key; rows = none; order = [] })
  unfolding has lookup
  empty-IsValid key = record { unique = tt; distinct = tt; listed = λ k. refl; sized = refl }
