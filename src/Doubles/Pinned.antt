-- ===== src/Doubles/Pinned.antt =====
-- internal/core/calls.go: a chain Changed(&double.field) with its From and To.
use testigo.Base.{
  ℕ, zero, suc, ◌+◌, ◌-◌, ◌<◌, true, false, List, [], ◌∷◌, Option, some, get_elem?, All, all_of,
  ◌==◌, ltb, ◌≡◌, ◌≢◌, refl, ap, ◌∙◌, sym, subst, ◌↔◌, inl, inr, arith, Bool-cases, Option-cases,
}
use testigo.Base.Text.{Text}
use testigo.Asserts.Messages.{passes}
use testigo.Doubles.Changes.{
  no_field, FieldType, DoubleRecord, Memory, FieldChange, ChangeLink, field_at, field_verdicts,
  change_link, change_links, judge_field, double_name, field_state_by_ptr,
}

-- The k-th field of a struct, the first one at its offset.
pub record IsFirstField (fs : List FieldType) (k : ℕ) (f : FieldType) : Type 0 where
  pub here : get_elem? fs k ≡ some f
  pub first : (j : ℕ) (e : FieldType) → j < k → get_elem? fs j ≡ some e → e.offset ≢ f.offset

before_it :
    (e : FieldType) (es : List FieldType) (n : ℕ) (f : FieldType)
    → e.offset ≢ f.offset
    → IsFirstField es n f
    → (j : ℕ) (c : FieldType) → j < suc n
    → get_elem? (e ∷ es) j ≡ some c
    → c.offset ≢ f.offset
before_it e es n f other rest zero c less at =
    let same_ : e ≡ c = cc in λ equal. other (ap (λ d. d.offset) same_ ∙ equal)
before_it e es n f other rest (suc j) c less at = rest.first j c (omega (arith, less)) at

field_at-IsFirstField :
    (i offset : ℕ) (fs : List FieldType) (k : ℕ) (f : FieldType)
    → field_at i offset fs ≡ some (k, f)
    → (n : ℕ) × (k ≡ i + n) × (f.offset ≡ offset) × IsFirstField fs n f
unfolding field_at
field_at-IsFirstField i offset [] k f h = cc
field_at-IsFirstField i offset (e ∷ es) k f h = elim (Bool-cases (e.offset == offset)) [
  | inl found ↦
      let same_ : ◌≡◌ {A = Option (ℕ × FieldType)} (some (i, e)) (some (k, f)) =
        ground (arith, found, h) in
      let same_place : k ≡ i = cc in
      (
        0,
        omega (arith, same_place),
        ground (arith, found, same_),
        record { here = cc; first = λ j c less. absurd (omega (arith, less)) },
      )
  | inr other ↦
      let (n, place, there, rest) =
        field_at-IsFirstField (suc i) offset es k f (ground (arith, other, h)) in
      (
        suc n,
        omega (arith, place),
        there,
        record { here = rest.here; first = before_it e es n f (ground (arith, other, there)) rest },
      )
]

field_at-first :
    (i : ℕ) (fs : List FieldType) (n : ℕ) (f : FieldType)
    → IsFirstField fs n f
    → field_at i f.offset fs ≡ some (i + n, f)
unfolding field_at
field_at-first i [] n f h = absurd (ground (arith, h.here))
field_at-first i (e ∷ es) zero f h = ground (arith, h.here)
field_at-first i (e ∷ es) (suc n) f h =
    let rest = field_at-first (suc i) es n f (record {
      here = h.here;
      first = λ j c less at. h.first (suc j) c (omega (arith, less)) at;
    }) in
    let other : e.offset ≢ f.offset = h.first 0 e (omega arith) refl in ground (arith, rest, other)

module _ {M D V : Type 0} (g : Memory M D V) (m : M) where
  -- What From and To ask of the value before and after.
  pub HoldsOf : V → V → ChangeLink V → Type 0
  HoldsOf initial current (ChangeLink.from_value old) = g.deep_equal m initial old ≡ true
  HoldsOf initial current (ChangeLink.to_value want) = g.deep_equal m current want ≡ true

  change_link-HoldsOf :
      (fc : FieldChange V) (l : ChangeLink V)
      → (passes (change_link g m fc l) ≡ true) ↔ HoldsOf fc.initial fc.current l
  unfolding change_link HoldsOf
  change_link-HoldsOf fc (ChangeLink.from_value old) =
      elim (Bool-cases (g.deep_equal m fc.initial old)) [
        | inl e ↦ rw e ((λ h. refl), (λ h. refl))
        | inr e ↦ rw e ((λ h. h), (λ h. h))
      ]
  change_link-HoldsOf fc (ChangeLink.to_value want) =
      elim (Bool-cases (g.deep_equal m fc.current want)) [
        | inl e ↦ rw e ((λ h. refl), (λ h. refl))
        | inr e ↦ rw e ((λ h. h), (λ h. h))
      ]

  change_links-HoldsOf :
      (fc : FieldChange V) (ls : List (ChangeLink V))
      → (all_of passes (change_links g m fc ls) ≡ true) ↔ All (HoldsOf fc.initial fc.current) ls
  change_links-HoldsOf fc [] = ((λ h. tt), (λ h. refl))
  change_links-HoldsOf fc (l ∷ ls) =
      let (to_, from_) = change_link-HoldsOf fc l in
      let (all_to, all_from) = change_links-HoldsOf fc ls in
      (
        (λ h. (to_ (ground (arith, h)), all_to (ground (arith, h)))),
        (λ h. ground (arith, from_ h.0, all_from h.1)),
      )

  -- What a chain on the k-th field of a double asks.
  pub IsPinned : DoubleRecord D → ℕ → List (ChangeLink V) → Type 0
  IsPinned r k ls =
      let initial = g.field r.initial k in
      let current = g.field (g.read m r.ptr) k in
      (g.deep_equal m initial current ≡ false) × All (HoldsOf initial current) ls

  field_state_by_ptr-found :
      (r : DoubleRecord D) (fs : List FieldType) (addr : ℕ) (s : Text × V × V)
      → r.typ.fields ≡ some fs
      → field_state_by_ptr g m r (some addr) ≡ some s
      → (k : ℕ) × (f : FieldType) × IsFirstField fs k f
        × (addr ≡ r.ptr + f.offset)
        × (s ≡ (f.name, g.field r.initial k, g.field (g.read m r.ptr) k))
  unfolding field_state_by_ptr
  field_state_by_ptr-found r fs addr s e h = elim (Option-cases (field_at 0 (addr - r.ptr) fs)) [
    | inl out ↦ absurd (ground (arith, e, out, h))
    | inr ((k, f), at) ↦ elim (Bool-cases (ltb addr r.ptr)) [
      | inl below ↦ absurd (ground (arith, e, at, below, h))
      | inr notbelow ↦
          let (n, place, there, first) = field_at-IsFirstField 0 (addr - r.ptr) fs k f at in
          (
            k,
            f,
            subst (λ j. IsFirstField fs j f) (omega (arith, place)) first,
            ground (arith, there, notbelow),
            ground (arith, e, at, notbelow, h),
          )
    ]
  ]

  field_state_by_ptr-first :
      (r : DoubleRecord D) (fs : List FieldType) (k : ℕ) (f : FieldType)
      → r.typ.fields ≡ some fs
      → IsFirstField fs k f
      → field_state_by_ptr g m r (some (r.ptr + f.offset))
        ≡ some (f.name, g.field r.initial k, g.field (g.read m r.ptr) k)
  unfolding field_state_by_ptr
  field_state_by_ptr-first r fs k f e first =
      let back : r.ptr + f.offset - r.ptr ≡ f.offset = omega arith in
      let inside : ltb (r.ptr + f.offset) r.ptr ≡ false = ground arith in
      ground (arith, e, back, field_at-first 0 fs k f first, inside)

  judge_field-differs :
      (fc : FieldChange V)
      → (passes (judge_field g m fc) ≡ true) ↔ (g.deep_equal m fc.initial fc.current ≡ false)
  judge_field-differs fc = elim (Bool-cases (g.deep_equal m fc.initial fc.current)) [
    | inl e ↦ rw e ((λ h. sym h), (λ h. sym h))
    | inr e ↦ rw e ((λ h. refl), (λ h. refl))
  ]

  verdicts_of_found :
      (r : DoubleRecord D) (p : Option ℕ) (ls : List (ChangeLink V)) (name : Text) (v w : V)
      → field_state_by_ptr g m r p ≡ some (name, v, w)
      → (all_of passes (field_verdicts g m r p ls) ≡ true)
        ↔ ((g.deep_equal m v w ≡ false) × All (HoldsOf v w) ls)
  unfolding field_verdicts
  verdicts_of_found r p ls name v w e =
      let fc : FieldChange V = record {
        double = double_name r;
        field = name;
        initial = v;
        current = w;
      } in
      let (differ_to, differ_from) = judge_field-differs fc in
      let (all_to, all_from) = change_links-HoldsOf fc ls in
      let shape : field_verdicts g m r p ls ≡ judge_field g m fc ∷ change_links g m fc ls =
        rw (field_verdicts, e) refl in
      (
        (λ h. (differ_to (ground (arith, shape, h)), all_to (ground (arith, shape, h)))),
        (λ h. ground (arith, shape, differ_from h.0, all_from h.1)),
      )

  -- A chain Changed with its From and To on a registered struct passes at each step exactly when it was
  -- given the address of a field, that field is not DeepEqual to that of the shallow copy kept by the
  -- registration, the field of this copy is equal to what each From names, and the field itself to what
  -- each To names; the field is the first of those at this address. The copy is read in the memory of the
  -- assert: of a map or a slice changed in place it does not show the value at the registration, which
  -- the comments on Changed and From speak of.
  pub field_verdicts-IsPinned :
      (r : DoubleRecord D) (fs : List FieldType) (addr : ℕ) (ls : List (ChangeLink V))
      → r.typ.fields ≡ some fs
      → (all_of passes (field_verdicts g m r (some addr) ls) ≡ true) ↔ (
          (k : ℕ) × (f : FieldType) × IsFirstField fs k f
          × (addr ≡ r.ptr + f.offset)
          × IsPinned r k ls)
  unfolding IsPinned field_verdicts
  field_verdicts-IsPinned r fs addr ls e = (
    (λ h. elim (Option-cases (field_state_by_ptr g m r (some addr))) [
      | inl out ↦
          let shape : field_verdicts g m r (some addr) ls ≡ no_field (double_name r) ∷ [] =
            rw (field_verdicts, out) refl in
          absurd (ground (arith, shape, h))
      | inr ((name, v, w), found) ↦
          let (k, f, first, place, same_) =
            field_state_by_ptr-found r fs addr (name, v, w) e found in
          (
            k,
            f,
            first,
            place,
            (verdicts_of_found r (some addr) ls f.name (g.field r.initial k)
                  (g.field (g.read m r.ptr) k) (found ∙ ap some same_)).0
                h,
          )
    ]),
    (λ (k, f, first, place, pinned).
        (verdicts_of_found r (some addr) ls f.name (g.field r.initial k)
            (g.field (g.read m r.ptr) k)
            (ap (λ a. field_state_by_ptr g m r (some a)) place
              ∙ field_state_by_ptr-first r fs k f e first)).1
          pinned),
  )
