-- ===== src/Spy.antt =====
-- internal/core/spy.go: the records that a Spy keeps, an expectation on them, and the operations of
-- a Spy. An argument is a value of a type V. A pointer to a record is the record with its sequence
-- number, which `call` gives to one record only; the lock of a Spy makes its methods atomic, so each
-- is one function.
pub mod Names
pub mod Match
pub mod Verify
pub mod Selecting
pub mod Counting
pub mod Uncovered
pub mod Order
pub mod Extremes
pub mod Ordering
pub mod Closest
pub mod Tests
use testigo.Base.{ℕ, ◌+◌, Bool, true, false, List, [], ◌∷◌, ◌++◌, Option, none, some, length}
use testigo.Base.Int.{ℤ, pos}
use testigo.Base.Text.{Text, codes}

pub record CallRecord (V : Type 0) : Type 0 where
  pub caller_component : Text
  pub caller_method : Text
  pub callee_component : Text
  pub callee_method : Text
  pub call_site_file : Text
  pub call_site_line : ℕ
  pub params : List V
  pub snapshots : Option (List V)
  pub seq : ℕ
  pub time : ℕ

-- The arguments as they were at the call, if they were copied.
unfoldable pub recorded : {V : Type 0} → CallRecord V → List V
recorded c = elim (c.snapshots) [ none ↦ c.params | some s ↦ s ]

-- What a test can write for an expected argument: `Anything`, a Matcher, or a plain value.
pub data Expected (V : Type 0) : Type 0 where
  anything : Expected V
  matcher : (V → Bool) → Expected V
  exactly : V → Expected V

-- `err` holds a message, `times` the count of the chain (it can be negative: `Times(n)`).
pub record CalledFunc (V : Type 0) : Type 0 where
  pub expected_args : List (Expected V)
  pub caller_component : Text
  pub callee_component : Text
  pub func_name : Text
  pub err : Option Text
  pub return_count : ℕ
  pub times : ℤ
  pub at_least : Bool
  pub site_file : Text
  pub site_line : ℕ

-- A frame of the stack: the function as the runtime names it, and the call site.
pub record Frame : Type 0 where
  pub function : Text
  pub file : Text
  pub line : ℕ

-- What a Spy keeps: its calls, and whether its lock is made (`mu` is not nil).
pub record Spy (V : Type 0) : Type 0 where
  pub calls : List (CallRecord V)
  pub locked : Bool
