-- ===== src/Doubles/Tests.antt =====
-- internal/core/doubles.go, mutations.go: the theorems at a test with a clock and a gateway, at an account with a spy, a balance and a limit, whose balance went from 100 to 150.
use testigo.Doubles.{Fields, Doubles, new_double, reset}
use testigo.Doubles.Cell.{spy_value, plain}
use testigo.Runtime.{Runtime, spy_at}
use testigo.Runtime.History.{after_call}
use testigo.Runtime.Tests.{copy, gateway, cashier, started}
use testigo.Base.{
  [], ◌∷◌, none, some, ℕ_discrete, ◌≡◌, refl, length, ◌++◌, ℕ, Bool, true, false, suc, List, Option,
  ◌==◌, ◌+◌, get_elem?, all_of, ◌↔◌, ◌<◌, arith, get_elem?, zero, ◌≢◌,
}
use testigo.Base.Text.{codes}
use testigo.Calls.{Verifiers}
use testigo.Asserts.Messages.{passes}
use testigo.Doubles.Changes.{
  FieldType, DoubleRecord, DoubleRecords, Memory, ChangeLink, did_change, did_not_change,
  field_verdicts, record_double,
}
use testigo.Doubles.Changing.{Differs, judged, did_change-Differs}
use testigo.Doubles.Pinned.{IsFirstField, IsPinned, field_verdicts-IsPinned}
use mathlib.Core.Option
use mathlib.Core.List.{lookup}

-- A gateway with a Spy and a balance of 100, registered behind a clock that has a Reset method.
abbrev gateway_fields : Fields ℕ
gateway_fields = spy_value 8 ∷ plain 100 ∷ []

abbrev clock : Doubles ℕ
clock =
    new_double copy 2 4 (plain 3 ∷ []) (some (λ fs. plain 0 ∷ []))
      (record { values = []; sets = [] })

-- Its values once the test has changed them.
abbrev changed_doubles : Doubles ℕ
changed_doubles = record (new_double copy 2 6 gateway_fields none clock) {
  values = (6, spy_value 8 ∷ plain 40 ∷ []) ∷ (4, plain 9 ∷ []) ∷ [];
}

-- The state with a call of the gateway, and one of a Spy that no double holds.
abbrev called_twice : Runtime ℕ
called_twice =
    after_call copy 3 9 gateway (cashier ∷ []) 101 []
      (after_call copy 3 8 gateway (cashier ∷ []) 100 (50 ∷ []) started)

-- The clock, which holds no Spy, keeps what its own Reset makes of it, and the other Spy its record.
reset_rest :
    (lookup ℕ_discrete 4 (reset copy 2 changed_doubles called_twice).0.values ≡ some (plain 0 ∷ []))
    × (length (spy_at (reset copy 2 changed_doubles called_twice).1 9).calls ≡ 1)
    × (length (spy_at (reset copy 2 changed_doubles called_twice).1 8).calls ≡ 0)
unfolding reset new_double lookup ℕ_discrete testigo.Base.Dict.store after_call
    testigo.Runtime.append_call testigo.Runtime.note_observed testigo.Runtime.note_test_spy
reset_rest = (refl, refl, refl)

-- Memory as a table of structs, a struct as the list of its fields, whose values are numbers.
abbrev table_memory : Memory (List (ℕ × List ℕ)) (List ℕ) ℕ
table_memory = record {
  read = λ m a. Option.get_or (lookup ℕ_discrete a m) [];
  field = λ d k. Option.get_or (get_elem? d k) 0;
  whole = λ d. Option.get_or (get_elem? d 0) 0;
  deep_equal = λ m v w. v == w;
  format = λ v. codes "a number";
}

abbrev balance_field : FieldType
balance_field = record { name = codes "balance"; offset = 8; is_spy = false }

abbrev account_fields : List FieldType
account_fields =
    record { name = codes "Spy"; offset = 0; is_spy = true }
    ∷ balance_field
    ∷ record { name = codes "limit"; offset = 16; is_spy = false }
    ∷ []

abbrev account : DoubleRecord (List ℕ)
account = record {
  test = 1;
  ptr = 4096;
  typ = record {
    name = codes "account";
    shown = codes "core.account";
    size = 24;
    fields = some account_fields;
  };
  initial = 0 ∷ 100 ∷ 7 ∷ [];
}

abbrev no_verifiers : Verifiers ℕ
no_verifiers = []

abbrev paid_in : List (ℕ × List ℕ)
paid_in = (4096, 3 ∷ 150 ∷ 7 ∷ []) ∷ []

abbrev accounts : DoubleRecords (List ℕ)
accounts = record_double 1 4096 account.typ account.initial []

did_change-Differs_example :
    ((judged (did_change table_memory paid_in 5 (some 4096) accounts no_verifiers).1 ≡ true)
      ↔ Differs table_memory paid_in (some account_fields) (0 ∷ 100 ∷ 7 ∷ []) (3 ∷ 150 ∷ 7 ∷ []))
    × ((judged (did_not_change table_memory paid_in 5 (some 4096) accounts no_verifiers).1 ≡ true)
        ↔ (¬ Differs table_memory paid_in
            (some account_fields)
            (0 ∷ 100 ∷ 7 ∷ [])
            (3 ∷ 150 ∷ 7 ∷ [])))
unfolding lookup record_double testigo.Base.Dict.store ℕ_discrete
did_change-Differs_example =
    did_change-Differs table_memory paid_in 5 4096 account accounts no_verifiers refl

field_verdicts-IsPinned_example :
    (all_of passes (
        field_verdicts table_memory paid_in account
          (some 4104)
          (ChangeLink.from_value 100 ∷ ChangeLink.to_value 150 ∷ []))
      ≡ true)
    ↔ ((k : ℕ) × (f : FieldType) × IsFirstField account_fields k f
        × (4104 ≡ 4096 + f.offset)
        × IsPinned table_memory paid_in account k
            (ChangeLink.from_value 100 ∷ ChangeLink.to_value 150 ∷ []))
field_verdicts-IsPinned_example =
    field_verdicts-IsPinned table_memory paid_in account account_fields 4104
      (ChangeLink.from_value 100 ∷ ChangeLink.to_value 150 ∷ []) refl

-- The chain passes.
paid_in_chain :
    all_of passes (
      field_verdicts table_memory paid_in account
        (some 4104)
        (ChangeLink.from_value 100 ∷ ChangeLink.to_value 150 ∷ []))
    ≡ true
unfolding field_verdicts lookup ℕ_discrete
paid_in_chain = refl

-- An account whose one field refers to the entry 7 of a ledger, and memory as its entries: DeepEqual
-- compares what two references lead to.
abbrev ledger_memory : Memory (List (ℕ × ℕ)) ℕ ℕ
ledger_memory = record {
  read = λ m a. 7;
  field = λ d k. d;
  whole = λ d. d;
  deep_equal =
      λ m v w. Option.get_or (lookup ℕ_discrete v m) 0 == Option.get_or (lookup ℕ_discrete w m) 0;
  format = λ v. codes "an entry";
}

abbrev ledger_double : DoubleRecord ℕ
ledger_double = record {
  test = 1;
  ptr = 4096;
  typ = record {
    name = codes "ledger";
    shown = codes "core.ledger";
    size = 8;
    fields = some (record { name = codes "rows"; offset = 0; is_spy = false } ∷ []);
  };
  initial = 7;
}

-- The entry was empty at the registration and holds 150 now.
abbrev filled : List (ℕ × ℕ)
filled = (7, 150) ∷ []

abbrev ledgers : DoubleRecords ℕ
ledgers = record_double 1 4096 ledger_double.typ 7 []

-- The field still refers to the entry, which DidChange therefore takes as unchanged.
filled_unseen :
    (judged (did_change ledger_memory filled 5 (some 4096) ledgers no_verifiers).1 ≡ false)
    × (judged (did_not_change ledger_memory filled 5 (some 4096) ledgers no_verifiers).1 ≡ true)
unfolding did_change did_not_change lookup record_double testigo.Base.Dict.store ℕ_discrete
filled_unseen = (refl, refl)
