-- ===== src/Asserts/Source.antt =====
-- internal/core/asserts.go, value_asserts.go: how a failure names what was compared, from the source
-- around the call. A Site stands for what runtime.Caller tells of the call: its line in the lines
-- that sourceLines reads. A text is a list of bytes; a byte of a rune beyond ASCII is none of the
-- signs that the code looks for. White space is that of ASCII.
use testigo.Base.{
  ℕ, ◌+◌, ◌-◌, Bool, false, not, ◌&&◌, ◌||◌, List, [], ◌∷◌, ◌++◌, Option, none, some, length,
  get_elem?, take, drop, if◌then◌else◌, ◌==◌, leb, ltb, some_of,
}
use testigo.Base.Int.{ℤ, pos, succ_ℤ, pred_ℤ, is_zero_ℤ}
use testigo.Base.Text.{Text, codes, same, is_empty, has_prefix, contains, split, join}
use testigo.Base.Trim.{trim_space, index}
use mathlib.Core.Option

abbrev pub is_quote : ℕ → Bool
is_quote r = r == 34 || r == 39 || r == 96

abbrev pub is_open : ℕ → Bool
is_open r = r == b'(' || r == b'[' || r == 123

abbrev pub is_close : ℕ → Bool
is_close r = r == b')' || r == b']' || r == 125

-- Between literals, or in a literal: its quote, and the byte before.
pub data Mode : Type 0 where
  code : Mode
  in_quote : ℕ → ℕ → Mode

-- Whether a byte ends the literal: its quote, not behind a backslash but in a raw one.
abbrev pub ends_quote : ℕ → ℕ → ℕ → Bool
ends_quote quote previous r = r == quote && (quote == 96 || not (previous == 92))

-- The loop of `splitArgs`, with what it has read of the argument; none where the text ends first.
unfoldable pub split_args_from : Mode → ℤ → Text → Text → Option (List Text)
split_args_from _ depth arg [] = none
split_args_from (in_quote quote previous) depth arg (r ∷ s) =
    split_args_from (if ends_quote quote previous r then code else in_quote quote r) depth
      (arg ++ r ∷ []) s
split_args_from code depth arg (r ∷ s) =
    let ended = some (arg ∷ []) in
    let next = Option.map (λ (args : List Text). arg ∷ args) (split_args_from code depth [] s) in
    let quoted = split_args_from (in_quote r r) depth (arg ++ r ∷ []) s in
    let deeper = split_args_from code (succ_ℤ depth) (arg ++ r ∷ []) s in
    let higher = split_args_from code (pred_ℤ depth) (arg ++ r ∷ []) s in
    let further = split_args_from code depth (arg ++ r ∷ []) s in
    if is_quote r
    then quoted
    else if is_open r
    then deeper
    else if is_close r
    then if r == b')' && is_zero_ℤ depth then ended else higher
    else if r == b',' && is_zero_ℤ depth
    then next
    else further

unfoldable pub split_args : Text → List Text
unfolding split_args_from
split_args s = Option.get_or (split_args_from code (pos 0) [] s) []

-- The call site: whether it is known, the lines of its file, and its line, from 1 on.
pub record Site : Type 0 where
  pub known : Bool
  pub lines : List Text
  pub line : ℕ

-- `line-1 < 0 || line-1 >= len(lines)` does not hold.
abbrev pub in_lines : Site → Bool
in_lines site = ltb 0 site.line && leb site.line (length site.lines)

-- The line of the call and the four behind it.
abbrev pub snippet : Site → Text
snippet site = join (take 5 (drop (site.line - 1) site.lines)) 10

-- `args[argIndex]`, trimmed; empty where there is none.
abbrev pub trimmed_arg : Option Text → Text
trimmed_arg none = []
trimmed_arg (some arg) = trim_space arg

-- The expression of `callArgExpression`.
unfoldable pub call_arg_expression : Site → Text → ℕ → Text
unfolding index split_args join trim_space
call_arg_expression site fn_name arg_index =
    if not (site.known && in_lines site)
    then []
    else elim (index (snippet site) (fn_name ++ codes "(")) [
      | none ↦ []
      | some idx ↦
          trimmed_arg
            (get_elem? (split_args (drop (idx + length fn_name + 1) (snippet site))) arg_index)
    ]

abbrev pub is_digit : ℕ → Bool
is_digit r = leb 48 r && leb r 57

-- `isLiteral`; it is called on texts that are not empty.
unfoldable pub is_literal : Text → Bool
unfolding same contains
is_literal [] = false
is_literal (r ∷ s) =
    is_digit r
    || r == 34
    || r == 39
    || r == 96
    || r == b'-'
    || same (r ∷ s) (codes "true")
    || same (r ∷ s) (codes "false")
    || same (r ∷ s) (codes "nil")
    || contains (r ∷ s) (codes "{")

unfoldable pub arg_expr : Site → Text → ℕ → Text
unfolding call_arg_expression is_literal
arg_expr site fn_name arg_index =
    let expr = call_arg_expression site fn_name arg_index in
    if is_empty expr || is_literal expr then [] else expr

unfoldable pub got_expression : Site → Text
unfolding call_arg_expression is_literal
got_expression site =
    let expr = call_arg_expression site (codes "Equal") 1 in
    if is_empty expr || is_literal expr then [] else expr

-- The first operator of an assignment: where it starts, and its length.
abbrev pub assign_op : Text → Option (ℕ × ℕ)
assign_op line = elim (index line (codes ":=")) [
  | some i ↦ some (i, 2)
  | none ↦ Option.map (λ (i : ℕ). (i, 3)) (index line (codes " = "))
]

unfoldable pub assignment_rhs : Text → Text → Text
unfolding index split same trim_space
assignment_rhs line name = elim (assign_op line) [
  | none ↦ []
  | some (i, n) ↦
      if some_of (λ lhs. same (trim_space lhs) name) (split (take i line) b',')
      then trim_space (drop (i + n) line)
      else []
]

-- The loop of `errorOrigin` over the lines above, the nearest first.
unfoldable pub origin_from : Text → List Text → Text
unfolding assignment_rhs trim_space has_prefix
origin_from expr [] = []
origin_from expr (line ∷ lines) =
    let trimmed = trim_space line in
    let rhs = assignment_rhs trimmed expr in
    let rest = origin_from expr lines in
    if has_prefix trimmed (codes "func ") then [] else if not (is_empty rhs) then rhs else rest

-- The lines above the call, the nearest first.
abbrev pub reversed : List Text → List Text → List Text
reversed [] above = above
reversed (l ∷ ls) above = reversed ls (l ∷ above)

unfoldable pub error_origin : Site → Text → Text
unfolding call_arg_expression contains origin_from
error_origin site fn_name =
    let expr = call_arg_expression site fn_name 1 in
    if is_empty expr
    then []
    else if contains expr (codes "(")
    then expr
    else origin_from expr (take 30 (reversed (take (site.line - 1) site.lines) []))
