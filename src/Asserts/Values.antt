-- ===== src/Asserts/Values.antt =====
-- internal/core/value_asserts.go, asserts.go: the asserts on values. Each notes a value assertion on its
-- goroutine and judges. `format` stands for formatValue, and `diff_values` for the differences that
-- diffValues finds; both print by reflection.
use testigo.Base.{
  ℕ, Bool, true, false, not, List, [], ◌∷◌, ◌++◌, Option, none, some, if◌then◌else◌, ◌==◌, ok,
  panic,
}
use testigo.Base.Int.{ℤ, pos, negsuc}
use testigo.Base.Text.{Text, codes, is_empty}
use testigo.Calls.{Verifiers, note_value_assertion}
use testigo.Asserts.Reflect.{Reflect, type_name}
use testigo.Asserts.Source.{Site, arg_expr, got_expression, error_origin}
use testigo.Asserts.Judging.{is_nil, is_empty_value, length_of, contains_value}
use testigo.Asserts.Messages.{
  Verdict, passed, failed, panics, passes, bold, reset, labeled, in_red, in_green, got_want,
  caret_block,
}
use mathlib.Core.Option

-- `path` is where two values differ; a `block` shows texts of several lines.
pub record ValueDiff : Type 0 where
  pub path : Text
  pub got : Text
  pub want : Text
  pub block : Text

-- `strings.ReplaceAll(s, "\n", "\n"+pad)`
unfoldable pub pad_lines : Text → Text → Text
pad_lines pad [] = []
pad_lines pad (a ∷ s) = a ∷ ((if a == 10 then pad else []) ++ pad_lines pad s)

unfoldable pub indent : Text → Text → Text
unfolding pad_lines
indent s pad = pad ++ pad_lines pad s

-- A difference in `diffMessage`: whether a block, and its text.
abbrev pub diff_line : ValueDiff → Bool × Text
diff_line d =
    if is_empty d.block then (false, got_want d.got d.want) else (true, indent d.block (codes "  "))

-- The block starts on a line of its own, but where nothing stands before it.
abbrev pub own_line : Bool × Text → Text
own_line (block, s) = if block then 10 ∷ s else s

abbrev pub diff_entries : List ValueDiff → Text
diff_entries [] = []
diff_entries (d ∷ ds) =
    codes "\n  " ++ d.path ++ codes ": " ++ own_line (diff_line d) ++ diff_entries ds

unfoldable pub diff_message : Text → List ValueDiff → Text
unfolding indent
diff_message label (d ∷ []) =
    let prefix = label ++ d.path in
    if is_empty prefix
    then (diff_line d).1
    else bold ++ prefix ++ reset ++ codes ": " ++ own_line (diff_line d)
diff_message label diffs =
    bold
    ++ (if is_empty label then codes "values" else label)
    ++ reset
    ++ codes " differs:"
    ++ diff_entries diffs

-- What an assert is called with beside its values.
pub record Asserting (V T : Type 0) : Type 0 where
  pub reflect : Reflect V T
  pub format : Option V → Text
  pub diff_values : Option V → Option V → List ValueDiff
  pub show_source : Bool
  pub site : Site
  pub goroutine : ℕ

-- The test goes on.
abbrev pub passes_on : {P : Type 0} → (Verifiers P → Verifiers P × Verdict) → Verifiers P → Bool
passes_on f vs = passes (f vs).1

abbrev pub is_nat : ℕ → ℤ → Bool
is_nat n (pos m) = n == m
is_nat n (negsuc m) = false

module _ {V T : Type 0} (a : Asserting V T) where
  abbrev pub caret : Text → ℕ → Text
  caret fn_name arg_index = caret_block a.show_source a.site fn_name arg_index

  -- `t.Error(labeled(label, msg) + caretBlock(…))`
  abbrev pub complaint : Text → ℕ → Text → Verdict
  complaint fn_name i msg = failed (labeled (arg_expr a.site fn_name i) msg ++ caret fn_name i)

  abbrev pub error_complaint : Text → Text → Verdict
  error_complaint fn_name msg =
      failed (labeled (error_origin a.site fn_name) msg ++ caret fn_name 1)

  abbrev pub type_of? : Option V → Option T
  type_of? v = Option.map (a.reflect.type_of) v

  abbrev pub same_type? : Option T → Option T → Bool
  same_type? none none = true
  same_type? (some s) (some t) = a.reflect.same_type s t
  same_type? _ _ = false

  -- Where no difference is found, the values are shown whole.
  abbrev pub or_whole : Option V → Option V → List ValueDiff → List ValueDiff
  or_whole got want [] =
      record { path = []; got = a.format got; want = a.format want; block = [] } ∷ []
  or_whole got want (d ∷ ds) = d ∷ ds

  abbrev pub unsearchable : Text → Option V → Verdict
  unsearchable fn_name container = complaint fn_name 1 (
      codes "got "
      ++ in_red (type_name a.reflect (type_of? container))
      ++ codes ", want a container (string, slice, array or map)")

module _ {V T P : Type 0} (a : Asserting V T) where
  -- Every assert starts with noteValueAssertion.
  abbrev pub judged : Verdict → Verifiers P → Verifiers P × Verdict
  judged verdict vs = (note_value_assertion a.goroutine vs, verdict)

  unfoldable pub equal_at : Option V → Option V → Verifiers P → Verifiers P × Verdict
  unfolding got_expression diff_message caret_block note_value_assertion
  equal_at got want = judged (
      if a.reflect.deep_equal got want
      then passed
      else if not (same_type? a (type_of? a got) (type_of? a want))
      then failed (
          labeled (got_expression a.site) (
            codes "got type "
            ++ in_red (type_name a.reflect (type_of? a got))
            ++ codes ", want "
            ++ in_green (type_name a.reflect (type_of? a want)))
          ++ caret a (codes "Equal") 1)
      else failed (
          diff_message (got_expression a.site) (or_whole a got want (a.diff_values got want))
          ++ caret a (codes "Equal") 1))

  unfoldable pub not_equal_at : Option V → Option V → Verifiers P → Verifiers P × Verdict
  unfolding note_value_assertion
  not_equal_at got want = judged (
      if not (a.reflect.deep_equal got want)
      then passed
      else complaint a (codes "NotEqual") 1
          (codes "got " ++ in_red (a.format got) ++ codes ", want a different value"))

  unfoldable pub nil_at : Option V → Verifiers P → Verifiers P × Verdict
  unfolding is_nil note_value_assertion
  nil_at value = judged (
      if is_nil a.reflect value
      then passed
      else complaint a (codes "Nil") 1 (got_want (a.format value) (codes "nil")))

  unfoldable pub not_nil_at : Option V → Verifiers P → Verifiers P × Verdict
  unfolding is_nil note_value_assertion
  not_nil_at value = judged (
      if not (is_nil a.reflect value)
      then passed
      else complaint a (codes "NotNil") 1 (got_want (codes "nil") (codes "non-nil")))

  unfoldable pub empty_at : Option V → Verifiers P → Verifiers P × Verdict
  unfolding is_empty_value note_value_assertion
  empty_at value = judged (
      if is_empty_value a.reflect value
      then passed
      else complaint a (codes "Empty") 1 (got_want (a.format value) (codes "empty")))

  unfoldable pub not_empty_at : Option V → Verifiers P → Verifiers P × Verdict
  unfolding is_empty_value note_value_assertion
  not_empty_at value = judged (
      if not (is_empty_value a.reflect value)
      then passed
      else complaint a (codes "NotEmpty") 1 (got_want (codes "empty") (codes "non-empty")))

  unfoldable pub len_at : Option V → ℤ → Verifiers P → Verifiers P × Verdict
  unfolding length_of note_value_assertion
  len_at object want = judged (elim (length_of a.reflect object) [
    | none ↦ complaint a (codes "Len") 1 (
        codes "got "
        ++ in_red (type_name a.reflect (type_of? a object))
        ++ codes ", want a value with a length")
    | some got ↦
        if is_nat got want
        then passed
        else complaint a (codes "Len") 1 (
            codes "got len "
            ++ in_red (a.reflect.sprint_int (pos got))
            ++ codes ", want "
            ++ in_green (a.reflect.sprint_int want))
  ])

  unfoldable pub contains_at : Option V → Option V → Verifiers P → Verifiers P × Verdict
  unfolding contains_value note_value_assertion
  contains_at container element = judged (elim (contains_value a.reflect container element) [
    | panic ↦ panics
    | ok none ↦ unsearchable a (codes "Contains") container
    | ok (some found) ↦
        if found
        then passed
        else complaint a (codes "Contains") 1
            (codes "does not contain " ++ in_green (a.format element))
  ])

  unfoldable pub not_contains_at : Option V → Option V → Verifiers P → Verifiers P × Verdict
  unfolding contains_value note_value_assertion
  not_contains_at container element = judged (elim (contains_value a.reflect container element) [
    | panic ↦ panics
    | ok none ↦ unsearchable a (codes "NotContains") container
    | ok (some found) ↦
        if not found
        then passed
        else complaint a (codes "NotContains") 1
            (codes "contains " ++ in_red (a.format element) ++ codes ", want it absent")
  ])
