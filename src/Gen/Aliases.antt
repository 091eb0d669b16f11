-- ===== src/Gen/Aliases.antt =====
-- internal/testigogen/imports.go: the aliases of imported packages are apart.
use testigo.Base.{
  ℕ, suc, true, false, List, [], ◌∷◌, ◌++◌, map, none, some, length, has, if◌then◌else◌, ◌≡◌, refl,
  ap, sym, ◌∙◌, arith, inl, inr, Bool-cases, Option-cases, ◌≢◌, ◌||◌, All, is_some,
}
use testigo.Base.Text.{path_base, Text, same, same→eq, tails_eq, text_dec, is_empty}
use testigo.Base.Dict.{store, lookup-store}
use testigo.Base.Fresh.{settle-unused, settle-some, numbered-Unique}
use testigo.Gen.Imports.{
  ImportSet, new_import_set, sanitize_identifier, taken, with_suffix, known_or_new, assign_alias,
  add, add_all,
}
use mathlib.Core.List.{lookup}

-- The two maps are inverse to one another.
pub record IsPaired (s : ImportSet) : Type 0 where
  pub to_alias :
      (p a : Text) → lookup text_dec p s.by_path ≡ some a → lookup text_dec a s.by_alias ≡ some p
  pub to_path :
      (p a : Text) → lookup text_dec a s.by_alias ≡ some p → lookup text_dec p s.by_path ≡ some a

new_import_set-IsPaired : (current : Text) → IsPaired (new_import_set current)
unfolding new_import_set lookup
new_import_set-IsPaired current = record { to_alias = λ p a h. cc; to_path = λ p a h. cc }

-- An alias that is not taken is new, where the package has none.
untaken :
    (s : ImportSet) (p a : Text)
    → IsPaired s
    → lookup text_dec p s.by_path ≡ none
    → taken s.by_alias p a ≡ false
    → lookup text_dec a s.by_alias ≡ none
untaken s p a paired new free = elim (Option-cases (lookup text_dec a s.by_alias)) [
  | inl e ↦ e
  | inr (q, e) ↦ absurd (ground (arith, e, free, new, same→eq q p, paired.to_path q a e))
]

abbrev preferred_name : Text → Text → Text
preferred_name p name = sanitize_identifier (if is_empty name then path_base p else name)

-- The set with a new pair.
abbrev paired_with : ImportSet → Text → Text → Text → ImportSet
paired_with s p a preferred = record s {
  by_path = store text_dec p a s.by_path;
  by_alias = store text_dec a p s.by_alias;
  defaults = store text_dec p preferred s.defaults;
}

paired_with-IsPaired :
    (s : ImportSet) (p a preferred : Text)
    → IsPaired s
    → lookup text_dec p s.by_path ≡ none
    → lookup text_dec a s.by_alias ≡ none
    → IsPaired (paired_with s p a preferred)
paired_with-IsPaired s p a preferred paired new free = record {
  to_alias = λ q b h. ground (
    arith,
    h,
    free,
    lookup-store text_dec p q a s.by_path,
    lookup-store text_dec a b p s.by_alias,
    paired.to_alias q b,
  );
  to_path = λ q b h. ground (
    arith,
    h,
    new,
    lookup-store text_dec p q a s.by_path,
    lookup-store text_dec a b p s.by_alias,
    paired.to_path q b,
  );
}

suffix_nil : (s t : Text) → s ≡ s ++ t → t ≡ []
suffix_nil [] t e = sym e
suffix_nil (a ∷ s) t e = suffix_nil s t (tails_eq e)

cancel : (s t u : Text) → (s ++ t) ≡ (s ++ u) → t ≡ u
cancel [] t u e = e
cancel (a ∷ s) t u e = cancel s t u (tails_eq e)

-- What fmt prints of numbers: digits, and other ones for another number.
pub record IsDecimal (decimal : ℕ → Text) : Type 0 where
  pub injective : (i j : ℕ) → decimal i ≡ decimal j → i ≡ j
  pub not_empty : (i : ℕ) → decimal i ≢ []

used→has :
    (p : Text) (m : List (Text × Text)) (a : Text)
    → taken m p a ≡ true
    → has text_dec a (map (λ e. e.0) m) ≡ true
unfolding has lookup
used→has p [] a h = cc
used→has p ((b, q) ∷ m) a h = ground (arith, used→has p m a)

length-keys : (m : List (Text × Text)) → length (map (λ e. e.0) m) ≡ length m
length-keys [] = refl
length-keys (e ∷ m) = ap suc (length-keys m)

module _ (decimal : ℕ → Text) (digits : IsDecimal decimal) where
  -- The loop ends, and with an alias that no other package has.
  assign_alias_lem :
      (p preferred : Text) (s : ImportSet)
      → (a : Text) × (assign_alias decimal p preferred s ≡ some (a, paired_with s p a preferred))
        × (taken s.by_alias p a ≡ false)
  unfolding assign_alias
  assign_alias_lem p preferred s =
      let used = taken s.by_alias p in
      let names =
        numbered-Unique text_dec used (λ i. preferred ++ decimal i)
          (λ i j e. digits.injective i j (cancel preferred (decimal i) (decimal j) e))
          (suc (length s.by_alias)) 2 preferred
          (λ j h e. digits.not_empty j (suffix_nil preferred (decimal j) e)) in
      let (a, found) =
        settle-some text_dec used (with_suffix decimal preferred) (map (λ e. e.0) s.by_alias)
          (suc (length s.by_alias)) 2 preferred names (used→has p s.by_alias)
          (omega (arith, length-keys s.by_alias)) in
      (
        a,
        rw found refl,
        settle-unused used (with_suffix decimal preferred) (suc (length s.by_alias)) 2 preferred
            found,
      )

  -- What `add` leaves: a paired set that keeps the aliases it had, and has one for the package.
  pub record Adds (p : Text) (s t : ImportSet) : Type 0 where
    pub paired : IsPaired t
    pub same_current : t.current ≡ s.current
    pub keeps :
        (q a : Text) → lookup text_dec q s.by_path ≡ some a → lookup text_dec q t.by_path ≡ some a
    pub known : (is_empty p || same p t.current || is_some (lookup text_dec p t.by_path)) ≡ true

  added-new :
      (p name : Text) (s : ImportSet)
      → (is_empty p || same p s.current) ≡ false
      → lookup text_dec p s.by_path ≡ none
      → add decimal p name s ≡ assign_alias decimal p (preferred_name p name) s
  unfolding add
  added-new p name s inside new =
      rw inside (ap (λ o. known_or_new o s (assign_alias decimal p (preferred_name p name) s)) new)

  add_lem :
      (p name : Text) (s : ImportSet)
      → IsPaired s
      → (a : Text) × (t : ImportSet) × (add decimal p name s ≡ some (a, t)) × Adds p s t
  unfolding add
  add_lem p name s paired = elim (Bool-cases (is_empty p || same p s.current)) [
    | inl out ↦ (
      [],
      s,
      rw out refl,
      record {
        paired = paired;
        same_current = refl;
        keeps = λ q a h. h;
        known = ground (arith, out);
      },
    )
    | inr inside ↦ elim (Option-cases (lookup text_dec p s.by_path)) [
      | inr (a, old) ↦ (
        a,
        s,
        rw (inside, old) refl,
        record {
          paired = paired;
          same_current = refl;
          keeps = λ q b h. h;
          known = ground (arith, old);
        },
      )
      | inl new ↦
          let preferred = preferred_name p name in
          let (a, made, free) = assign_alias_lem p preferred s in
          let unused = untaken s p a paired new free in
          (
            a,
            paired_with s p a preferred,
            added-new p name s inside new ∙ made,
            record {
              paired = paired_with-IsPaired s p a preferred paired new unused;
              same_current = refl;
              keeps = λ q b h. ground (arith, h, new, lookup-store text_dec p q a s.by_path);
              known = ground (arith, lookup-store text_dec p p a s.by_path);
            },
          )
    ]
  ]

  -- A package that needs an import has one.
  abbrev pub HasAlias : ImportSet → Text × Text → Type 0
  HasAlias s (p, name) =
      (is_empty p || same p s.current || is_some (lookup text_dec p s.by_path)) ≡ true

  still_known :
      (s t : ImportSet) (p : Text × Text)
      → t.current ≡ s.current
      → ((q a : Text) → lookup text_dec q s.by_path ≡ some a → lookup text_dec q t.by_path ≡ some a)
      → HasAlias s p
      → HasAlias t p
  still_known s t (p, name) same_ keeps known = elim (Option-cases (lookup text_dec p s.by_path)) [
    | inl e ↦ ground (arith, e, known, same_)
    | inr (a, e) ↦ rw (keeps p a e) (ground arith)
  ]

  add_all_lem :
      (ps : List (Text × Text)) (s : ImportSet)
      → IsPaired s
      → (t : ImportSet) × (add_all decimal ps s ≡ some t)
        × IsPaired t
        × (t.current ≡ s.current)
        × ((q a : Text)
            → lookup text_dec q s.by_path ≡ some a
            → lookup text_dec q t.by_path ≡ some a)
        × All (HasAlias t) ps
  unfolding add_all
  add_all_lem [] s paired = (s, refl, paired, refl, (λ q a h. h), tt)
  add_all_lem ((p, name) ∷ ps) s paired =
      let (a, s', added, adds) = add_lem p name s paired in
      let (t, rest, paired', current, keeps, all_known) = add_all_lem ps s' adds.paired in
      (
        t,
        rw (added, add_all) rest,
        paired',
        current ∙ adds.same_current,
        (λ q b h. keeps q b (adds.keeps q b h)),
        (still_known s' t (p, name) current keeps adds.known, all_known),
      )

  -- Whatever packages a generator asks for, one after the other, the loop for each alias ends; then
  -- each package with a path other than the generated one's has an alias, and it is the alias of no
  -- other package: the maps from paths to aliases and back are inverse to one another.
  pub add_all-IsPaired :
      (current : Text) (ps : List (Text × Text))
      → (t : ImportSet) × (add_all decimal ps (new_import_set current) ≡ some t)
        × IsPaired t
        × All (HasAlias t) ps
  add_all-IsPaired current ps =
      let (t, made, paired, same_, keeps, known) =
        add_all_lem ps (new_import_set current) (new_import_set-IsPaired current) in
      (t, made, paired, known)
