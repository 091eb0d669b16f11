-- ===== src/Gen/Seeding.antt =====
-- internal/testigogen/seeder.go: the constructor of a seeder and the call that it makes.
use testigo.Base.{
  ℕ, ◌+◌, ◌<◌, ◌≤◌, true, false, List, [], ◌∷◌, map, Option, none, some, length, has, Unique, All,
  All-map, if◌then◌else◌, ◌==◌, ltb, ◌≡◌, refl, ap, subst, sym, ◌∙◌, arith, inl, inr, Bool-cases,
}
use testigo.Base.Text.{Text, codes, text_dec}
use testigo.Gen.Types.{GoTypes, Signature, Method}
use testigo.Gen.Methods.{Parameter, MethodModel, made, ◌>>=◌, >>=-made, build_method}
use testigo.Gen.Naming.{
  names, types, tail_unused, not_among, unused_name_lem, build_method-Unique, generic_refused,
}
use testigo.Gen.Seeder.{
  Entity, SeederModel, reserved_names, is_named_struct, candidate, find_entity, rename_params,
  error_indexes, call_args, finish_seeder, render_fixed, render_seeder,
}

-- The elements of a list but the one at a place, where the list starts at the place i.
abbrev pub others : {A : Type 0} → ℕ → ℕ → List A → List A
others place i [] = []
others place i (x ∷ xs) =
    if i == place then others place (i + 1) xs else x ∷ others place (i + 1) xs

module _ {T : Type 0} (g : GoTypes T) (entity : Entity T) where
  -- What the renaming gives of parameters.
  pub record Renames (i : ℕ) (reserved : List Text) (ps qs cs : List (Parameter T)) : Type 0 where
    pub distinct : Unique text_dec (names cs)
    pub unreserved : All (λ n. has text_dec n reserved ≡ false) (names cs)
    pub same_types : types cs ≡ others entity.index i (types ps)
    pub all_types : types qs ≡ types ps
    pub called : others entity.index i (call_args g entity i qs) ≡ names cs

  rename_params_lem :
      (i : ℕ) (reserved : List Text) (ps : List (Parameter T))
      → (qs cs : List (Parameter T)) × (rename_params g entity.index i reserved ps ≡ made (qs, cs))
        × Renames i reserved ps qs cs
  unfolding rename_params call_args
  rename_params_lem i reserved [] = (
    [],
    [],
    refl,
    record { distinct = tt; unreserved = tt; same_types = refl; all_types = refl; called = refl },
  )
  rename_params_lem i reserved (p ∷ ps) = elim (Bool-cases (i == entity.index)) [
    | inl here ↦
        let (qs, cs, e, r) = rename_params_lem (i + 1) reserved ps in
        (
          p ∷ qs,
          cs,
          rw (here, e) refl,
          record {
            distinct = r.distinct;
            unreserved = r.unreserved;
            same_types = rw here r.same_types;
            all_types = ap (λ ts. p.type_of ∷ ts) r.all_types;
            called = rw here r.called;
          },
        )
    | inr other ↦
        let (name, settled_, free) = unused_name_lem (codes "Arg") reserved p.name (omega arith) in
        let (qs, cs, e, r) = rename_params_lem (i + 1) (name ∷ reserved) ps in
        (
          record p { name = name } ∷ qs,
          record p { name = name } ∷ cs,
          rw (other, settled_, e) refl,
          record {
            distinct = (not_among name reserved (names cs) r.unreserved, r.distinct);
            unreserved =
                (free, All-map _ _ (names cs) (λ n. tail_unused name n reserved) r.unreserved);
            same_types = rw other (ap (λ ts. p.type_of ∷ ts) r.same_types);
            all_types = ap (λ ts. p.type_of ∷ ts) r.all_types;
            called = rw other (ap (λ ns. name ∷ ns) r.called);
          },
        )
  ]

made-injective : {A : Type 0} {a b : A} → made a ≡ made b → a ≡ b
made-injective e = cc

others-above : {A : Type 0} (place i : ℕ) (xs : List A) → place < i → others place i xs ≡ xs
others-above place i [] h = refl
others-above place i (x ∷ xs) h = ground (arith, others-above place (i + 1) xs)

module _ {T : Type 0} (g : GoTypes T) where
  -- A type that is no named struct, nor a pointer to one; a struct type without a name is none.
  abbrev pub NoEntity : T → Type 0
  NoEntity t = is_named_struct g (candidate g t).0 ≡ false

  find_entity-some :
      (i : ℕ) (e : Entity T) (ps : List (Parameter T)) {o : Option (Entity T)}
      → find_entity g i (some e) ps ≡ made o
      → (o ≡ some e) × All NoEntity (types ps)
  unfolding find_entity
  find_entity-some i e [] h = (ground (arith, h), tt)
  find_entity-some i e (p ∷ ps) h =
      elim (Bool-cases (is_named_struct g (candidate g p.type_of).0)) [
        | inl struct ↦ absurd (ground (arith, struct, h))
        | inr other ↦
            let (same_, rest) = find_entity-some (i + 1) e ps (rw other at h) in
            (same_, (other, rest))
      ]

  find_entity-none :
      (i : ℕ) (ps : List (Parameter T)) {e : Entity T}
      → find_entity g i none ps ≡ made (some e)
      → (i ≤ e.index) × All NoEntity (others e.index i (types ps))
  unfolding find_entity
  find_entity-none i [] h = cc
  find_entity-none i (p ∷ ps) {e} h =
      elim (Bool-cases (is_named_struct g (candidate g p.type_of).0)) [
        | inl struct ↦
            let (same_, rest) = find_entity-some (i + 1) _ ps (rw struct at h) in
            let place : e.index ≡ i = ground (arith, same_) in
            let here : (i == e.index) ≡ true = ground (arith, place) in
            (
              omega (arith, place),
              rw here (
                  subst (All NoEntity)
                    (sym (others-above e.index (i + 1) (types ps) (omega (arith, place)))) rest),
            )
        | inr other ↦
            let (above, rest) = find_entity-none (i + 1) ps (rw other at h) in
            let ne : (i == e.index) ≡ false = ground (arith, above) in
            (omega (arith, above), rw ne (other, rest))
      ]

module _ {T : Type 0} (g : GoTypes T) (decimal : ℕ → Text) where
  -- The parameters of the constructor, for the types of the method's parameters.
  pub record IsCallable (ts : List T) (s : SeederModel T) : Type 0 where
    pub distinct : Unique text_dec (names s.constructor_params)
    pub unreserved : All (λ n. has text_dec n reserved_names ≡ false) (names s.constructor_params)
    pub passed : others s.entity.index 0 s.call_args ≡ names s.constructor_params
    pub same_types : types s.constructor_params ≡ others s.entity.index 0 ts
    pub one_entity : All (NoEntity g) (others s.entity.index 0 ts)

  types_of_built :
      (name : Text) (signature : Signature T) (m : MethodModel T)
      → build_method g decimal name signature ≡ made m
      → types m.params ≡ map (λ p. p.1) signature.params
  types_of_built name signature m h = elim (Bool-cases (ltb 0 signature.type_params)) [
    | inl generic ↦ absurd (generic_refused g decimal name signature generic h)
    | inr plain ↦
        let (m', built, same_types, results, distinct) =
          build_method-Unique g decimal name signature plain in
        ap (λ k. types k.params) (made-injective (sym h ∙ built)) ∙ same_types
  ]

  finish_seeder-IsCallable :
      (method : MethodModel T) (entity : Option (Entity T)) (s : SeederModel T)
      → find_entity g 0 none method.params ≡ made entity
      → finish_seeder g method entity ≡ made s
      → IsCallable (types method.params) s
  unfolding finish_seeder
  finish_seeder-IsCallable method none s found h = cc
  finish_seeder-IsCallable method (some entity) s found h =
      let (qs, cs, e, r) = rename_params_lem g entity 0 reserved_names method.params in
      let h' = rw e at h in
      elim (Bool-cases (ltb 1 (length (error_indexes g 0 method.results)))) [
        | inl many ↦ absurd (ground (arith, many, h'))
        | inr few ↦
            subst (IsCallable (types method.params)) (made-injective (rw few at h')) (record {
              distinct = r.distinct;
              unreserved = r.unreserved;
              passed = r.called;
              same_types = r.same_types;
              one_entity = (find_entity-none g 0 method.params found).1;
            })
      ]

  render_fixed-IsCallable :
      (m : Method T) (s : SeederModel T)
      → render_fixed g decimal m ≡ made s
      → IsCallable (map (λ p. p.1) m.signature.params) s
  unfolding render_fixed
  render_fixed-IsCallable m s h =
      let (method, built, rest) =
        >>=-made (build_method g decimal m.name m.signature)
          (λ k. find_entity g 0 none k.params >>= λ entity. finish_seeder g k entity) h in
      let (entity, found, end_) =
        >>=-made (find_entity g 0 none method.params) (λ o. finish_seeder g method o) rest in
      subst (λ ts. IsCallable ts s) (types_of_built m.name m.signature method built)
        (finish_seeder-IsCallable method entity s found end_)

  -- A constructor of a seeder that is generated has parameters whose names are distinct and none of t,
  -- repository and value; they have the types of the method's parameters but the entity's, in order,
  -- and the call passes them at these places, in order. None of these types is a named struct or a
  -- pointer to one.
  pub render_seeder-IsCallable :
      (m : Method T) (s : SeederModel T)
      → render_seeder g decimal m ≡ made s
      → IsCallable (map (λ p. p.1) m.signature.params) s
  unfolding render_seeder
  render_seeder-IsCallable m s h = elim (Bool-cases (m.signature.variadic)) [
    | inl variadic ↦ absurd (ground (arith, variadic, h))
    | inr fixed ↦ render_fixed-IsCallable m s (ground (arith, fixed, h))
  ]
