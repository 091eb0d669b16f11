-- ===== src/Asserts/Messages.antt =====
-- internal/core/value_asserts.go, asserts.go: the verdict of an assert and the parts of its message.
-- White space is that of ASCII, and a line with a caret is ASCII.
use testigo.Base.{
  ℕ, zero, suc, ◌+◌, ◌-◌, Bool, true, false, not, ◌||◌, [], ◌∷◌, ◌++◌, Option, none, some, length,
  get_elem?, drop, if◌then◌else◌, ◌==◌, ltb,
}
use testigo.Base.Text.{Text, codes, is_empty}
use testigo.Base.Trim.{index}
use testigo.Asserts.Source.{Site, in_lines, call_arg_expression}
use mathlib.Core.Option

-- What an assert does to its test: nothing, `t.Error`, `t.Fatal`, or a panic.
pub data Verdict : Type 0 where
  passed : Verdict
  failed : Text → Verdict
  fatal : Text → Verdict
  panics : Verdict

abbrev pub passes : Verdict → Bool
passes passed = true
passes (failed message) = false
passes (fatal message) = false
passes panics = false

-- The escape codes of graph.go.
abbrev pub escape : Text → Text
escape s = 27 ∷ 91 ∷ s

abbrev pub bold : Text
bold = escape (codes "1m")

abbrev pub red : Text
red = escape (codes "31m")

abbrev pub green : Text
green = escape (codes "32m")

abbrev pub yellow : Text
yellow = escape (codes "33m")

abbrev pub reset : Text
reset = escape (codes "0m")

-- `labeled`
abbrev pub labeled : Text → Text → Text
labeled label msg = if is_empty label then msg else bold ++ label ++ reset ++ codes ": " ++ msg

abbrev pub in_red : Text → Text
in_red s = red ++ s ++ reset

abbrev pub in_green : Text → Text
in_green s = green ++ s ++ reset

-- `gotWant`
abbrev pub got_want : Text → Text → Text
got_want got want = codes "got " ++ in_red got ++ codes ", want " ++ in_green want

-- `strings.TrimLeft(s, " \t")`
unfoldable pub trim_left_blank : Text → Text
trim_left_blank [] = []
trim_left_blank (a ∷ s) = let rest = trim_left_blank s in if a == 32 || a == 9 then rest else a ∷ s

-- `strings.Repeat` of one byte.
abbrev pub repeat : ℕ → ℕ → Text
repeat b zero = []
repeat b (suc n) = b ∷ repeat b n

-- The lines of `caretBlock`, where the expression starts at a column of the source line.
unfoldable pub caret_at : Text → Text → ℕ → Text
unfolding trim_left_blank
caret_at src expr col =
    let trimmed = trim_left_blank src in
    let cut = length src - length trimmed in
    if ltb col cut || ltb (length trimmed) (col - cut)
    then []
    else codes "\n    "
      ++ trimmed
      ++ codes "\n    "
      ++ repeat 32 (col - cut)
      ++ yellow
      ++ repeat 94 (length expr)
      ++ reset

-- The source line of the call, and where in it the expression starts behind the call's name.
abbrev pub caret_column : Text → Text → Text → Option ℕ
caret_column src fn_name expr = elim (index src (fn_name ++ codes "(")) [
  | none ↦ none
  | some call ↦ Option.map (λ (rel : ℕ). call + rel) (index (drop call src) expr)
]

unfoldable pub caret_block : Bool → Site → Text → ℕ → Text
unfolding call_arg_expression caret_at index
caret_block show_source site fn_name arg_index =
    let expr = call_arg_expression site fn_name arg_index in
    let src = Option.get_or (get_elem? site.lines (site.line - 1)) [] in
    if not show_source || is_empty expr || not (in_lines site)
    then []
    else elim (caret_column src fn_name expr) [ none ↦ [] | some col ↦ caret_at src expr col ]
