-- ===== src/Memdb/Refinement.antt =====
-- Every method of a valid DB does to its table what the method is meant to do.
use testigo.Base.{
  Outcome, ok, panic, ◌>>=◌, true, false, List, [], ◌∷◌, ◌++◌, map, Option, none, some, ◌≡◌, refl,
  sym, ap, ◌∙◌, arith, length, length-map, has, Unique, is_some, Option-cases, inl, inr,
  if◌then◌else◌,
}
use testigo.Base.Dict.{store, discard, Distinct, lookup-store, lookup-discard}
use testigo.Memdb.{
  Db, entries, drop_key, ensure, set, insert, get, update, delete, len, all, insert_all, new,
}
use testigo.Memdb.Table.{
  upsert, remove, alter, Write, inserts, sets, updates, deletes, write, write_all, apply, apply_all,
  rows_in, view,
}
use testigo.Memdb.Invariant.{
  IsValid, set-IsValid, delete-IsValid, update-set, update-absent, entries-discard, empty-IsValid,
}
use mathlib.Core.Option
use mathlib.Core.List.{lookup}

module _ {K T : Type 0} (dec : Discrete K) where
  lookup-rows_in :
      (k : K) (m : List (K × T)) (ks : List K)
      → lookup dec k (rows_in dec m ks) ≡ (if has dec k ks then lookup dec k m else none)
  unfolding lookup rows_in has
  lookup-rows_in k m [] = refl
  lookup-rows_in k m (j ∷ ks) = ground (arith, lookup-rows_in k m ks)

  rows_in-append :
      (m : List (K × T)) (ks js : List K)
      → rows_in dec m (ks ++ js) ≡ rows_in dec m ks ++ rows_in dec m js
  unfolding rows_in
  rows_in-append m [] js = refl
  rows_in-append m (k ∷ ks) js = ground (arith, rows_in-append m ks js)

  -- Storing under a key that the list lacks does not show in it.
  rows_in-store_ne :
      (k : K) (v : T) (m : List (K × T)) (ks : List K)
      → has dec k ks ≡ false
      → rows_in dec (store dec k v m) ks ≡ rows_in dec m ks
  unfolding rows_in has
  rows_in-store_ne k v m [] h = refl
  rows_in-store_ne k v m (j ∷ ks) h =
      ground (arith, rows_in-store_ne k v m ks, lookup-store dec k j v m)

  upsert-rows_in_new :
      (k : K) (v : T) (m : List (K × T)) (ks : List K)
      → has dec k ks ≡ false
      → upsert dec k v (rows_in dec m ks) ≡ rows_in dec m ks ++ (k, v) ∷ []
  unfolding rows_in has upsert
  upsert-rows_in_new k v m [] h = refl
  upsert-rows_in_new k v m (j ∷ ks) h = ground (arith, upsert-rows_in_new k v m ks)

  upsert-rows_in_old :
      (k : K) (v w : T) (m : List (K × T)) (ks : List K)
      → lookup dec k m ≡ some w
      → Unique dec ks
      → has dec k ks ≡ true
      → rows_in dec (store dec k v m) ks ≡ upsert dec k v (rows_in dec m ks)
  unfolding rows_in has upsert
  upsert-rows_in_old k v w m [] e u h = cc
  upsert-rows_in_old k v w m (j ∷ ks) e u h =
      ground
        (arith, upsert-rows_in_old k v w m ks, rows_in-store_ne k v m ks, lookup-store dec k j v m)

  rows_in-discard_ne :
      (k : K) (m : List (K × T)) (ks : List K)
      → Distinct dec m
      → has dec k ks ≡ false
      → rows_in dec (discard dec k m) ks ≡ rows_in dec m ks
  unfolding rows_in has
  rows_in-discard_ne k m [] d h = refl
  rows_in-discard_ne k m (j ∷ ks) d h =
      ground (arith, rows_in-discard_ne k m ks, lookup-discard dec k j m d)

  remove-rows_in :
      (k : K) (v : T) (m : List (K × T)) (ks : List K)
      → lookup dec k m ≡ some v
      → Distinct dec m
      → Unique dec ks
      → has dec k ks ≡ true
      → rows_in dec (discard dec k m) (drop_key dec k ks) ≡ remove dec k (rows_in dec m ks)
  unfolding rows_in has remove drop_key
  remove-rows_in k v m [] e d u h = cc
  remove-rows_in k v m (j ∷ ks) e d u h =
      ground
        (arith, remove-rows_in k v m ks, rows_in-discard_ne k m ks d, lookup-discard dec k j m d)

  remove-absent : (k : K) (t : List (K × T)) → lookup dec k t ≡ none → remove dec k t ≡ t
  unfolding lookup remove
  remove-absent k [] h = refl
  remove-absent k ((j, w) ∷ t) h = ground (arith, remove-absent k t)

  alter-absent :
      (k : K) (f : T → T) (t : List (K × T)) → lookup dec k t ≡ none → alter dec k f t ≡ t
  unfolding lookup alter
  alter-absent k f [] h = refl
  alter-absent k f ((j, w) ∷ t) h = ground (arith, alter-absent k f t)

  upsert-alter :
      (k : K) (f : T → T) (v : T) (t : List (K × T))
      → lookup dec k t ≡ some v
      → upsert dec k (f v) t ≡ alter dec k f t
  unfolding lookup alter upsert
  upsert-alter k f v [] h = cc
  upsert-alter k f v ((j, w) ∷ t) h = ground (arith, upsert-alter k f v t)

  -- `Get` reads the table.
  pub get-view : (d : Db K T) (k : K) → IsValid dec d → get dec d k ≡ lookup dec k (view dec d)
  unfolding get view
  get-view d k h = ground (
    arith,
    h.listed k,
    lookup-rows_in k (entries d.rows) d.order,
    Option-cases (lookup dec k (entries d.rows)),
  )

  pub view-set :
      (d : Db K T) (k : K) (v : T)
      → IsValid dec d
      → view dec (set dec d k v) ≡ upsert dec k v (view dec d)
  unfolding view set ensure
  view-set d k v h = elim (Option-cases (lookup dec k (entries d.rows))) [
    | inl new ↦
        let fresh : has dec k d.order ≡ false = ground (arith, h.listed k) in
        ground (
          arith,
          rows_in-append (store dec k v (entries d.rows)) d.order (k ∷ []),
          rows_in-store_ne k v (entries d.rows) d.order fresh,
          upsert-rows_in_new k v (entries d.rows) d.order fresh,
          lone k v (entries d.rows),
        )
    | inr (w, old) ↦
        let there : has dec k d.order ≡ true = ground (arith, h.listed k) in
        ground (arith, upsert-rows_in_old k v w (entries d.rows) d.order old h.unique there)
  ]
    where
      lone :
          (k : K) (v : T) (m : List (K × T)) → rows_in dec (store dec k v m) (k ∷ []) ≡ (k, v) ∷ []
      lone k v m = unfold rows_in in ground (arith, lookup-store dec k k v m)

  pub view-delete :
      (d : Db K T) (k : K)
      → IsValid dec d
      → (view dec (delete dec d k).0 ≡ remove dec k (view dec d))
        × ((delete dec d k).1 ≡ is_some (lookup dec k (view dec d)))
  unfolding view delete
  view-delete d k h = elim (Option-cases (lookup dec k (entries d.rows))) [
    | inl absent ↦
        let gone = sym (get-view d k h) ∙ absent' absent in
        rw (absent, delete) (sym (remove-absent k (view dec d) gone), rw gone)
    | inr (v, found) ↦
        let there : has dec k d.order ≡ true = ground (arith, h.listed k) in
        let seen = sym (get-view d k h) ∙ absent' found in
        rw (found, delete, entries-discard)
          (remove-rows_in k v (entries d.rows) d.order found h.distinct h.unique there, rw seen)
  ]
    where
      absent' : {o : Option T} → lookup dec k (entries d.rows) ≡ o → get dec d k ≡ o
      absent' e = unfold get in e

  pub view-update :
      (d : Db K T) (k : K) (f : T → T)
      → IsValid dec d
      → (e : Db K T) × (update dec d k f ≡ ok (e, Option.map f (lookup dec k (view dec d))))
        × IsValid dec e
        × (e.key ≡ d.key)
        × (view dec e ≡ alter dec k f (view dec d))
  view-update d k f h = elim (Option-cases (get dec d k)) [
    | inl absent ↦
        let gone = sym (get-view d k h) ∙ absent in
        (
          d,
          rw gone (update-absent dec d k f absent),
          h,
          refl,
          sym (alter-absent k f (view dec d) gone),
        )
    | inr (v, found) ↦
        let seen = sym (get-view d k h) ∙ found in
        (
          set dec d k (f v),
          rw seen (update-set dec d k f found),
          set-IsValid dec d k (f v) h,
          unfold set ensure in refl,
          view-set d k (f v) h ∙ upsert-alter k f v (view dec d) seen,
        )
  ]

  insert-set :
      (d : Db K T) (key : T → K) (v : T)
      → d.key ≡ some key
      → insert dec d v ≡ ok (set dec d (key v) v, key v)
  unfolding insert
  insert-set d key v q = ground arith

  -- One write on a valid DB that has a key function: it does not panic, and it does to the
  -- table what the same write on a table does.
  write-apply :
      (d : Db K T) (key : T → K) (w : Write K T)
      → d.key ≡ some key
      → IsValid dec d
      → (e : Db K T) × (write dec d w ≡ ok e)
        × IsValid dec e
        × (e.key ≡ some key)
        × (view dec e ≡ apply dec key (view dec d) w)
  unfolding write insert
  write-apply d key (inserts v) q h = (
    set dec d (key v) v,
    rw (insert-set d key v q),
    set-IsValid dec d (key v) v h,
    unfold set ensure in q,
    view-set d (key v) v h,
  )
  write-apply d key (sets k v) q h =
      (set dec d k v, refl, set-IsValid dec d k v h, unfold set ensure in q, view-set d k v h)
  write-apply d key (updates k f) q h =
      let (e, ran, valid, same, seen) = view-update d k f h in (e, rw ran, valid, same ∙ q, seen)
  write-apply d key (deletes k) q h = (
    (delete dec d k).0,
    refl,
    delete-IsValid dec d k h,
    key-delete d k ∙ q,
    (view-delete d k h).0,
  )
    where
      key-delete : (d : Db K T) (k : K) → (delete dec d k).0.key ≡ d.key
      key-delete d k = unfold delete in ground arith

  -- Any sequence of Insert, Set, Update and Delete on a valid DB that has a key function ends
  -- without a panic in a valid DB, whose table is the one that the same writes make of the old
  -- table.
  pub write_all-apply_all :
      (d : Db K T) (key : T → K) (ws : List (Write K T))
      → d.key ≡ some key
      → IsValid dec d
      → (e : Db K T) × (write_all dec d ws ≡ ok e)
        × IsValid dec e
        × (view dec e ≡ apply_all dec key (view dec d) ws)
  unfolding write_all
  write_all-apply_all d key [] q h = (d, refl, h, refl)
  write_all-apply_all d key (w ∷ ws) q h =
      let (e, ran, valid, same, seen) = write-apply d key w q h in
      let (z, rest, last, table) = write_all-apply_all e key ws same valid in
      (z, rw ran rest, last, rw (← seen) table)

  insert_all-write_all :
      (d : Db K T) (vs : List T) → insert_all dec d vs ≡ write_all dec d (map inserts vs)
  unfolding insert_all write_all write
  insert_all-write_all d [] = refl
  insert_all-write_all d (v ∷ vs) = bind (insert dec d v) (λ e. insert_all-write_all e vs)
    where
      bind :
          (o : Outcome (Db K T × K))
          → ((e : Db K T) → insert_all dec e vs ≡ write_all dec e (map inserts vs))
          → (o >>= λ r. insert_all dec r.0 vs)
            ≡ ((o >>= λ r. ok r.0) >>= λ e. write_all dec e (map inserts vs))
      bind (ok r) h = h r.0
      bind panic h = refl

  -- `New` does not panic, and inserts its seed into the empty table in order.
  pub new-apply_all :
      (key : T → K) (seed : List T)
      → (d : Db K T) × (new dec key seed ≡ ok d)
        × IsValid dec d
        × (view dec d ≡ apply_all dec key [] (map inserts seed))
  unfolding new view rows_in
  new-apply_all key seed =
      let d : Db K T = record { key = some key; rows = none; order = [] } in
      let (e, ran, valid, seen) =
        write_all-apply_all d key (map inserts seed) refl (empty-IsValid dec (some key)) in
      (e, insert_all-write_all d seed ∙ ran, valid, seen)

  all-rows_in :
      (zero : T) (m : List (K × T)) (ks : List K)
      → ((k : K) → has dec k ks ≡ true → is_some (lookup dec k m) ≡ true)
      → map (λ k. Option.get_or (lookup dec k m) zero) ks ≡ map (λ e. e.1) (rows_in dec m ks)
  unfolding rows_in has
  all-rows_in zero m [] h = refl
  all-rows_in zero m (k ∷ ks) h =
      let rest = all-rows_in zero m ks (λ j p. h j (ground arith)) in ground (arith, h k, rest)

  pub all-view :
      (zero : T) (d : Db K T) → IsValid dec d → all dec zero d ≡ map (λ e. e.1) (view dec d)
  unfolding all view
  all-view zero d h = all-rows_in zero (entries d.rows) d.order (λ j p. ground (arith, h.listed j))

  -- On a valid DB `All` gives the rows of the table in order, never a zero value for a missing one,
  -- `Len` counts them, and `Get` finds the row of a key.
  pub reads-view :
      (zero : T) (d : Db K T) (k : K)
      → IsValid dec d
      → (all dec zero d ≡ map (λ e. e.1) (view dec d))
        × (len dec d ≡ length (view dec d))
        × (get dec d k ≡ lookup dec k (view dec d))
  unfolding len all
  reads-view zero d k h =
      let rows = all-view zero d h in
      (
        rows,
        omega (
          arith,
          h.sized,
          ap length rows,
          length-map {0, 0} (λ (e : K × T). e.1) (view dec d),
          length-map {0, 0} (λ k. Option.get_or (lookup dec k (entries d.rows)) zero) d.order,
        ),
        get-view d k h,
      )
