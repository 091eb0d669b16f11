-- ===== src/Asserts/More.antt =====
-- internal/core/extra_asserts.go, ordered_asserts.go, behavior_asserts.go and the asserts on errors of
-- asserts.go and value_asserts.go. What a function under test does is its Panicked; the polls of a
-- condition are the answers that it gives until the time is up.
use testigo.Base.{ℕ, Bool, not, ◌&&◌, ◌++◌, Option, if◌then◌else◌, is_some}
use testigo.Base.Text.{Text, codes, is_empty, contains, same}
use testigo.Calls.{Verifiers, note_value_assertion}
use testigo.Asserts.Reflect.{err_text, is_ptr}
use testigo.Asserts.Source.{error_origin}
use testigo.Asserts.Judging.{equal_values, is_zero}
use testigo.Asserts.Messages.{
  Verdict, passed, failed, fatal, bold, reset, in_red, in_green, got_want,
}
use testigo.Asserts.Values.{Asserting, judged, complaint, error_complaint, caret}

-- `True` and `False` print a format.
unfoldable pub true_of : {P : Type 0} → ℕ → Bool → Text → Verifiers P → Verifiers P × Verdict
unfolding note_value_assertion
true_of goroutine condition message vs =
    (note_value_assertion goroutine vs, (if condition then passed else failed message))

unfoldable pub false_of : {P : Type 0} → ℕ → Bool → Text → Verifiers P → Verifiers P × Verdict
unfolding note_value_assertion
false_of goroutine condition message vs =
    (note_value_assertion goroutine vs, (if condition then failed message else passed))

module _ {V T : Type 0} (a : Asserting V T) where
  -- The type that a target points to. `errors.As` panics on any other target.
  abbrev pub target_type : V → Text
  target_type target =
      let t = a.reflect.type_of target in
      a.reflect.type_string (if is_ptr (a.reflect.kind_of t) then a.reflect.elem t else t)

module _ {V T P : Type 0} (a : Asserting V T) where
  unfoldable pub no_error_at : Option V → Verifiers P → Verifiers P × Verdict
  unfolding error_origin note_value_assertion
  no_error_at err = judged a (
      if not (is_some err)
      then passed
      else (let origin = error_origin a.site (codes "NoError") in
          if not (is_empty origin)
          then fatal (
              bold
              ++ origin
              ++ reset
              ++ codes ": expected no error, got "
              ++ in_red (a.reflect.sprint err)
              ++ caret a (codes "NoError") 1)
          else fatal (
              codes "expected no error, got "
              ++ a.reflect.sprint err
              ++ caret a (codes "NoError") 1)))

  unfoldable pub error_at : Option V → Verifiers P → Verifiers P × Verdict
  unfolding error_origin note_value_assertion
  error_at err = judged a (
      if is_some err
      then passed
      else (let origin = error_origin a.site (codes "Error") in
          if not (is_empty origin)
          then fatal (
              bold
              ++ origin
              ++ reset
              ++ codes ": expected an error, got nil"
              ++ caret a (codes "Error") 1)
          else fatal (codes "expected an error, got nil" ++ caret a (codes "Error") 1)))

  unfoldable pub error_is_at : Option V → Option V → Verifiers P → Verifiers P × Verdict
  unfolding error_origin note_value_assertion
  error_is_at err target = judged a (
      if a.reflect.errors_is err target
      then passed
      else error_complaint a (codes "ErrorIs") (
          codes "got "
          ++ in_red (err_text a.reflect err)
          ++ codes ", want it to match "
          ++ in_green (err_text a.reflect target)))

  unfoldable pub not_error_is_at : Option V → Option V → Verifiers P → Verifiers P × Verdict
  unfolding error_origin note_value_assertion
  not_error_is_at err target = judged a (
      if not (a.reflect.errors_is err target)
      then passed
      else error_complaint a (codes "NotErrorIs") (
          codes "got "
          ++ in_red (err_text a.reflect err)
          ++ codes ", want it not to match "
          ++ in_green (err_text a.reflect target)))

  unfoldable pub error_as_at : Option V → V → Verifiers P → Verifiers P × Verdict
  unfolding error_origin note_value_assertion
  error_as_at err target = judged a (
      if a.reflect.errors_as err target
      then passed
      else error_complaint a (codes "ErrorAs") (
          codes "got "
          ++ in_red (err_text a.reflect err)
          ++ codes ", want an error of type "
          ++ in_green (target_type a target)))

  unfoldable pub not_error_as_at : Option V → V → Verifiers P → Verifiers P × Verdict
  unfolding error_origin note_value_assertion
  not_error_as_at err target = judged a (
      if not (a.reflect.errors_as err target)
      then passed
      else error_complaint a (codes "NotErrorAs") (
          codes "got "
          ++ in_red (err_text a.reflect err)
          ++ codes ", want no error of type "
          ++ in_green (target_type a target)))

  unfoldable pub error_contains_at : Option V → Text → Verifiers P → Verifiers P × Verdict
  unfolding error_origin contains note_value_assertion
  error_contains_at err substr = judged a (
      if is_some err && contains (err_text a.reflect err) substr
      then passed
      else error_complaint a (codes "ErrorContains") (
          codes "got "
          ++ in_red (err_text a.reflect err)
          ++ codes ", want it to contain "
          ++ in_green (a.reflect.quoted substr)))

  unfoldable pub equal_error_at : Option V → Text → Verifiers P → Verifiers P × Verdict
  unfolding error_origin same note_value_assertion
  equal_error_at err want = judged a (
      if is_some err && same (err_text a.reflect err) want
      then passed
      else error_complaint a (codes "EqualError") (
          codes "got "
          ++ in_red (err_text a.reflect err)
          ++ codes ", want "
          ++ in_green (a.reflect.quoted want)))

  unfoldable pub soft_equal_at : Option V → Option V → Verifiers P → Verifiers P × Verdict
  unfolding equal_values note_value_assertion
  soft_equal_at got want = judged a (
      if equal_values a.reflect got want
      then passed
      else complaint a (codes "SoftEqual") 1 (got_want (a.format got) (a.format want)))

  unfoldable pub zero_at : Option V → Verifiers P → Verifiers P × Verdict
  unfolding is_zero note_value_assertion
  zero_at value = judged a (
      if is_zero a.reflect value
      then passed
      else complaint a (codes "Zero") 1 (got_want (a.format value) (codes "the zero value")))

  unfoldable pub not_zero_at : Option V → Verifiers P → Verifiers P × Verdict
  unfolding is_zero note_value_assertion
  not_zero_at value = judged a (
      if not (is_zero a.reflect value)
      then passed
      else complaint a (codes "NotZero") 1
          (got_want (codes "the zero value") (codes "a non-zero value")))
