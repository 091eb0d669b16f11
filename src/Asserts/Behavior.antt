-- ===== src/Asserts/Behavior.antt =====
-- internal/core/behavior_asserts.go, ordered_asserts.go, extra_asserts.go: the asserts on behaviour,
-- order, lists and patterns. What a function under test does is its Panicked. A comparison of ordered
-- values is the Boolean that Go computes; patterns are compiled and matched by package regexp, of which
-- `pattern` is what the compilation gives.
use testigo.Base.{
  Outcome, ok, panic, ℕ, Bool, true, false, not, ◌&&◌, List, [], ◌∷◌, ◌++◌, Option, none, some,
  if◌then◌else◌, is_some,
}
use testigo.Base.Text.{Text, codes, same}
use testigo.Calls.{Verifiers, note_value_assertion}
use testigo.Asserts.{is_nil, difference}
use testigo.Asserts.Reflect.{type_name}
use testigo.Asserts.Source.{arg_expr}
use testigo.Asserts.Judging.{same_pointer, to_slice, missing_of}
use testigo.Asserts.Messages.{
  Verdict, passed, failed, panics, bold, reset, labeled, in_red, in_green, got_want,
}
use testigo.Asserts.Values.{Asserting, judged, complaint, type_of?, same_type?}

-- How a function ends: it returns, or it panics, with the value that recover gives (for a panic with
-- nil an error of its own).
pub data Panicked (V : Type 0) : Type 0 where
  returned : Panicked V
  panicked : V → Panicked V

unfoldable pub recovered : {V : Type 0} → Panicked V → Option V
recovered returned = none
recovered (panicked v) = some v

-- What the compilation of a pattern gives: its source and its test, or an error.
pub data Pattern : Type 0 where
  compiled : Text → (Text → Bool) → Pattern
  invalid : Text → Pattern

module _ {V T : Type 0} (a : Asserting V T) where
  -- `t.Error(labeled(label, msg))`, without a caret.
  abbrev pub plain_complaint : Text → ℕ → Text → Verdict
  plain_complaint fn_name i msg = failed (labeled (arg_expr a.site fn_name i) msg)

  abbrev pub judge_pattern : Bool → Text → Text → Option V → Text → Pattern → Verdict
  judge_pattern want fn_name matched pattern subject (invalid message) =
      complaint a fn_name 1
        (codes "invalid pattern " ++ in_red (a.reflect.sprint pattern) ++ codes ": " ++ message)
  judge_pattern want fn_name matched pattern subject (compiled source matches) =
      if (if matches subject then want else not want) then passed else complaint a fn_name 1 matched

  abbrev pub judge_missing :
      Text → (List (Option V) → Bool) → Text → Outcome (Option (List (Option V))) → Verdict
  judge_missing fn_name good msg panic = panics
  judge_missing fn_name good msg (ok none) =
      complaint a fn_name 1 (codes "got incompatible kinds, want two slices/arrays or two maps")
  judge_missing fn_name good msg (ok (some missing)) =
      if good missing then passed else complaint a fn_name 1 msg

  abbrev pub judge_elements :
      (List (Option V) → Text) → Option (List (Option V)) → Option (List (Option V)) → Verdict
  judge_elements show (some l) (some m) =
      let missing = difference a.reflect.deep_equal m l in
      let extra = difference a.reflect.deep_equal l m in
      if is_nil missing && is_nil extra
      then passed
      else plain_complaint (codes "ElementsMatch") 1
          (codes "missing " ++ in_green (show missing) ++ codes ", extra " ++ in_red (show extra))
  judge_elements show _ _ =
      plain_complaint (codes "ElementsMatch") 1
        (codes "got a non-list value, want a slice or array")

  abbrev pub judge_panic_error : Text → Option V → Verdict
  judge_panic_error want none =
      plain_complaint (codes "PanicsWithError") 2
        (codes "did not panic, want panic with error " ++ in_green (a.reflect.quoted want))
  judge_panic_error want (some v) = elim (a.reflect.error_text v) [
    | none ↦ plain_complaint (codes "PanicsWithError") 2 (
        codes "panicked with "
        ++ in_red (a.reflect.sprint (some v))
        ++ codes " ("
        ++ type_name a.reflect (type_of? a (some v))
        ++ codes "), want an error")
    | some text ↦
        if same text want
        then passed
        else plain_complaint (codes "PanicsWithError") 2 (got_want text want)
  ]

module _ {V T P : Type 0} (a : Asserting V T) where
  unfoldable pub ordered_at :
      Text → Bool → Option V → Text → Option V → Verifiers P → Verifiers P × Verdict
  unfolding note_value_assertion arg_expr
  ordered_at fn_name good got op want = judged a (
      if good
      then passed
      else plain_complaint a fn_name 1 (
          codes "got "
          ++ in_red (a.reflect.sprint got)
          ++ codes ", want "
          ++ in_green (op ++ codes " " ++ a.reflect.sprint want)))

  unfoldable pub panics_at : Panicked V → Verifiers P → Verifiers P × Verdict
  unfolding note_value_assertion arg_expr recovered
  panics_at fn = judged a (
      if is_some (recovered fn)
      then passed
      else plain_complaint a (codes "Panics") 1 (codes "did not panic"))

  unfoldable pub not_panics_at : Panicked V → Verifiers P → Verifiers P × Verdict
  unfolding note_value_assertion arg_expr recovered
  not_panics_at fn = judged a (
      if not (is_some (recovered fn))
      then passed
      else plain_complaint a (codes "NotPanics") 1
          (codes "panicked with " ++ in_red (a.reflect.sprint (recovered fn))))

  unfoldable pub panics_with_at : Option V → Panicked V → Verifiers P → Verifiers P × Verdict
  unfolding note_value_assertion arg_expr recovered
  panics_with_at want fn = judged a (
      if not (is_some (recovered fn))
      then plain_complaint a (codes "PanicsWith") 2
          (codes "did not panic, want panic " ++ in_green (a.reflect.sprint want))
      else if a.reflect.deep_equal (recovered fn) want
      then passed
      else plain_complaint a (codes "PanicsWith") 2
          (got_want (a.reflect.sprint (recovered fn)) (a.reflect.sprint want)))

  unfoldable pub panics_with_error_at : Text → Panicked V → Verifiers P → Verifiers P × Verdict
  unfolding note_value_assertion arg_expr recovered same
  panics_with_error_at want fn = judged a (judge_panic_error a want (recovered fn))

  unfoldable pub same_at : Option V → Option V → Verifiers P → Verifiers P × Verdict
  unfolding note_value_assertion arg_expr same_pointer
  same_at expected actual = judged a (
      if same_pointer a.reflect expected actual
      then passed
      else plain_complaint a (codes "Same") 2 (codes "points to a different object than expected"))

  unfoldable pub not_same_at : Option V → Option V → Verifiers P → Verifiers P × Verdict
  unfolding note_value_assertion arg_expr same_pointer
  not_same_at expected actual = judged a (
      if not (same_pointer a.reflect expected actual)
      then passed
      else plain_complaint a (codes "NotSame") 2
          (codes "points to the same object, want a different one"))

  -- `show` is what `%v` makes of the elements.
  unfoldable pub elements_match_at :
      (List (Option V) → Text) → Option V → Option V → Verifiers P → Verifiers P × Verdict
  unfolding note_value_assertion arg_expr to_slice difference
  elements_match_at show list_a list_b =
      judged a (judge_elements a show (to_slice a.reflect list_a) (to_slice a.reflect list_b))

  unfoldable pub subset_at :
      (List (Option V) → Text) → Option V → Option V → Verifiers P → Verifiers P × Verdict
  unfolding note_value_assertion missing_of
  subset_at show list subset =
      let missing = missing_of a.reflect list subset in
      let shown : Text = elim missing [
        | panic ↦ []
        | ok none ↦ []
        | ok (some m) ↦ codes "missing " ++ in_green (show m)
      ] in
      judged a (judge_missing a (codes "Subset") is_nil shown missing)

  unfoldable pub not_subset_at : Option V → Option V → Verifiers P → Verifiers P × Verdict
  unfolding note_value_assertion missing_of
  not_subset_at list subset = judged a (
      judge_missing a (codes "NotSubset") (λ m. not (is_nil m))
        (codes "contains the whole subset, want at least one element absent")
        (missing_of a.reflect list subset))

  -- `subject` is what `regexpSubject` makes of the value.
  unfoldable pub regexp_at : Option V → Pattern → Text → Verifiers P → Verifiers P × Verdict
  unfolding note_value_assertion
  regexp_at pattern re subject = judged a (
      judge_pattern a true (codes "Regexp")
        (in_red (a.reflect.quoted subject)
          ++ codes " does not match "
          ++ in_green (elim re [ compiled source matches ↦ source | invalid message ↦ [] ]))
        pattern subject re)

  unfoldable pub not_regexp_at : Option V → Pattern → Text → Verifiers P → Verifiers P × Verdict
  unfolding note_value_assertion
  not_regexp_at pattern re subject = judged a (
      judge_pattern a false (codes "NotRegexp")
        (in_red (a.reflect.quoted subject)
          ++ codes " matches "
          ++ in_green (elim re [ compiled source matches ↦ source | invalid message ↦ [] ])
          ++ codes ", want no match")
        pattern subject re)

  unfoldable pub is_type_at : Option V → Option V → Verifiers P → Verifiers P × Verdict
  unfolding note_value_assertion
  is_type_at expected object = judged a (
      if same_type? a (type_of? a object) (type_of? a expected)
      then passed
      else complaint a (codes "IsType") 2 (
          codes "got type "
          ++ in_red (type_name a.reflect (type_of? a object))
          ++ codes ", want "
          ++ in_green (type_name a.reflect (type_of? a expected))))

-- `pollUntil` with the target true: the condition is asked at once, and again at each tick until the
-- deadline; the answers are those that it gives.
unfoldable pub poll_until : Bool → List Bool → Bool
poll_until now [] = now
poll_until now (next ∷ ticks) = if now then true else poll_until next ticks

-- `wait` is the time as it is printed.
unfoldable pub eventually :
    {P : Type 0} → ℕ → Text → Bool → List Bool → Verifiers P → Verifiers P × Verdict
unfolding poll_until note_value_assertion
eventually goroutine wait now ticks vs = (
  note_value_assertion goroutine vs,
  (if poll_until now ticks
      then passed
      else failed
          (bold ++ codes "condition" ++ reset ++ codes " never became true within " ++ wait)),
)

unfoldable pub never_true :
    {P : Type 0} → ℕ → Text → Bool → List Bool → Verifiers P → Verifiers P × Verdict
unfolding poll_until note_value_assertion
never_true goroutine wait now ticks vs = (
  note_value_assertion goroutine vs,
  (if not (poll_until now ticks)
      then passed
      else failed (
          bold
          ++ codes "condition"
          ++ reset
          ++ codes " became true within "
          ++ wait
          ++ codes ", want it to stay false")),
)
