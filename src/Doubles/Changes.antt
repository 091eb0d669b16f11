-- ===== src/Doubles/Changes.antt =====
-- internal/core/mutations.go, calls.go: the doubles as they were at their registration, and the asserts
-- on their changes. Reflection tells what a value of type D holds, and memory of type M what stands at an
-- address; a value that is recorded is a shallow copy, so what its maps, slices and pointers refer to
-- is read in the memory of the comparison. The state of the verifiers is that of Calls.
use testigo.Base.{
  ℕ, suc, ◌-◌, Bool, false, not, ◌||◌, List, [], ◌∷◌, ◌++◌, Option, none, some, if◌then◌else◌, ◌==◌,
  ltb, ℕ_discrete, Outcome, ok, panic,
}
use testigo.Base.Text.{Text, codes, is_empty}
use testigo.Base.Dict.{store, discard}
use testigo.Calls.{Verifiers, note_value_assertion}
use testigo.Asserts.Messages.{Verdict, passed, failed, fatal, bold, reset}
use mathlib.Core.List.{lookup}

-- A field of a struct: `is_spy` tells of the types Spy and *Spy.
pub record FieldType : Type 0 where
  pub name : Text
  pub offset : ℕ
  pub is_spy : Bool

-- A reflect.Type: `fields` is none for a type that is no struct.
pub record DoubleType : Type 0 where
  pub name : Text
  pub shown : Text
  pub size : ℕ
  pub fields : Option (List FieldType)

pub record DoubleRecord (D : Type 0) : Type 0 where
  pub test : ℕ
  pub ptr : ℕ
  pub typ : DoubleType
  pub initial : D

-- `doubleRecords`
abbrev pub DoubleRecords : Type 0 → Type 0
DoubleRecords D = List (ℕ × DoubleRecord D)

-- `recordDouble` of a double at an address that holds a value.
unfoldable pub record_double :
    {D : Type 0} → ℕ → ℕ → DoubleType → D → DoubleRecords D → DoubleRecords D
record_double t base typ v records =
    if typ.size == 0
    then records
    else store ℕ_discrete base (record { test = t; ptr = base; typ = typ; initial = v }) records

-- The Cleanup that `recordDouble` leaves behind.
unfoldable pub forget_double : {D : Type 0} → ℕ → DoubleType → DoubleRecords D → DoubleRecords D
unfolding discard
forget_double base typ records = if typ.size == 0 then records else discard ℕ_discrete base records

abbrev pub double_at : {D : Type 0} → ℕ → DoubleRecords D → Option (DoubleRecord D)
double_at base records = lookup ℕ_discrete base records

unfoldable pub double_name : {D : Type 0} → DoubleRecord D → Text
double_name r = if is_empty r.typ.name then r.typ.shown else r.typ.name

-- `registeredDouble`, by the pointer that That was given: none without That, and for what is no pointer
-- or nil.
unfoldable pub registered_double :
    {D : Type 0} → Option ℕ → DoubleRecords D → Outcome (DoubleRecord D)
registered_double none records = panic
registered_double (some base) records = elim (double_at base records) [
  | none ↦ panic
  | some r ↦ ok r
]

-- What stands at an address, the value of a field by its index and of the whole, DeepEqual, and `%v`.
pub record Memory (M D V : Type 0) : Type 0 where
  pub read : M → ℕ → D
  pub field : D → ℕ → V
  pub whole : D → V
  pub deep_equal : M → V → V → Bool
  pub format : V → Text

-- `FieldChange`
pub record FieldChange (V : Type 0) : Type 0 where
  pub double : Text
  pub field : Text
  pub initial : V
  pub current : V

-- The methods of a FieldChange.
pub data ChangeLink (V : Type 0) : Type 0 where
  from_value to_value : V → ChangeLink V

-- The loop of `fieldStateByPtr`, from the index i: the first field at the offset.
unfoldable pub field_at : ℕ → ℕ → List FieldType → Option (ℕ × FieldType)
field_at i offset [] = none
field_at i offset (f ∷ fs) =
    let rest = field_at (suc i) offset fs in if f.offset == offset then some (i, f) else rest

abbrev pub expected_name : Text → Text
expected_name name = codes "expected " ++ bold ++ codes "'" ++ name ++ codes "'" ++ reset

abbrev pub changed_name : {V : Type 0} → FieldChange V → Text
changed_name fc = expected_name (fc.double ++ codes "." ++ fc.field)

abbrev pub no_field : Text → Verdict
no_field name = fatal (
    codes "testigo: Changed(...) needs a pointer to a field of the "
    ++ bold
    ++ name
    ++ reset
    ++ codes " registered with That — e.g. Changed(&double.field)")

module _ {M D V : Type 0} (g : Memory M D V) where
  -- The loop of `changed` over the fields, from the index i.
  unfoldable pub fields_differ : M → ℕ → List FieldType → D → D → Bool
  fields_differ m i [] initial current = false
  fields_differ m i (f ∷ fs) initial current =
      let rest = fields_differ m (suc i) fs initial current in
      if f.is_spy
      then rest
      else not (g.deep_equal m (g.field initial i) (g.field current i)) || rest

  unfoldable pub changed : M → DoubleRecord D → Bool
  unfolding fields_differ
  changed m r = elim (r.typ.fields) [
    | none ↦ not (g.deep_equal m (g.whole r.initial) (g.whole (g.read m r.ptr)))
    | some fs ↦ fields_differ m 0 fs r.initial (g.read m r.ptr)
  ]

  -- `fieldStateByPtr` of a pointer: none for what is no pointer or nil.
  unfoldable pub field_state_by_ptr : M → DoubleRecord D → Option ℕ → Option (Text × V × V)
  unfolding field_at
  field_state_by_ptr m r none = none
  field_state_by_ptr m r (some addr) = elim (r.typ.fields) [
    | none ↦ none
    | some fs ↦ elim (field_at 0 (addr - r.ptr) fs) [
      | none ↦ none
      | some (i, f) ↦
          if ltb addr r.ptr
          then none
          else some (f.name, g.field r.initial i, g.field (g.read m r.ptr) i)
    ]
  ]

  -- The assertion is noted before the double is looked up.
  abbrev pub judge_double :
      {P : Type 0}
      → ℕ
      → Option ℕ
      → (DoubleRecord D → Verdict)
      → DoubleRecords D
      → Verifiers P
      → Verifiers P × Outcome Verdict
  judge_double goroutine caller judge records vs = (
    note_value_assertion goroutine vs,
    elim (registered_double caller records) [ panic ↦ panic | ok r ↦ ok (judge r) ],
  )

  unfoldable pub did_change :
      {P : Type 0}
      → M
      → ℕ
      → Option ℕ
      → DoubleRecords D
      → Verifiers P
      → Verifiers P × Outcome Verdict
  unfolding changed registered_double double_name note_value_assertion
  did_change m goroutine caller records vs =
      judge_double goroutine caller
        (λ r.
          if changed m r
          then passed
          else failed (expected_name (double_name r) ++ codes " to change, but it is unchanged"))
        records vs

  unfoldable pub did_not_change :
      {P : Type 0}
      → M
      → ℕ
      → Option ℕ
      → DoubleRecords D
      → Verifiers P
      → Verifiers P × Outcome Verdict
  unfolding changed registered_double double_name note_value_assertion
  did_not_change m goroutine caller records vs =
      judge_double goroutine caller
        (λ r.
          if changed m r
          then failed (expected_name (double_name r) ++ codes " to stay unchanged, but it changed")
          else passed)
        records vs

  -- `From` and `To` where the field was found; a Fatal has ended the test where it was not.
  unfoldable pub change_link : M → FieldChange V → ChangeLink V → Verdict
  change_link m fc (ChangeLink.from_value old) =
      if g.deep_equal m fc.initial old
      then passed
      else failed (
          changed_name fc
          ++ codes " to change from "
          ++ g.format old
          ++ codes ", but it started at "
          ++ g.format fc.initial)
  change_link m fc (ChangeLink.to_value want) =
      if g.deep_equal m fc.current want
      then passed
      else failed (
          changed_name fc
          ++ codes " to change to "
          ++ g.format want
          ++ codes ", but it is "
          ++ g.format fc.current)

  abbrev pub change_links : M → FieldChange V → List (ChangeLink V) → List Verdict
  change_links m fc [] = []
  change_links m fc (l ∷ ls) = change_link m fc l ∷ change_links m fc ls

  -- What `Changed` itself judges of a field that it found.
  abbrev pub judge_field : M → FieldChange V → Verdict
  judge_field m fc =
      if g.deep_equal m fc.initial fc.current
      then failed (changed_name fc ++ codes " to change, but it stayed " ++ g.format fc.current)
      else passed

  -- `Changed` with the methods chained to it: the verdict of each, up to a Fatal.
  unfoldable pub field_verdicts : M → DoubleRecord D → Option ℕ → List (ChangeLink V) → List Verdict
  unfolding field_state_by_ptr double_name change_link
  field_verdicts m r field_ptr links = elim (field_state_by_ptr m r field_ptr) [
    | none ↦ no_field (double_name r) ∷ []
    | some (name, initial, current) ↦
        let fc : FieldChange V = record {
          double = double_name r;
          field = name;
          initial = initial;
          current = current;
        } in
        judge_field m fc ∷ change_links m fc links
  ]

  unfoldable pub changed_chain :
      {P : Type 0}
      → M
      → ℕ
      → Option ℕ
      → Option ℕ
      → List (ChangeLink V)
      → DoubleRecords D
      → Verifiers P
      → Verifiers P × Outcome (List Verdict)
  unfolding field_verdicts registered_double note_value_assertion
  changed_chain m goroutine caller field_ptr links records vs = (
    note_value_assertion goroutine vs,
    elim (registered_double caller records) [
      | panic ↦ panic
      | ok r ↦ ok (field_verdicts m r field_ptr links)
    ],
  )
