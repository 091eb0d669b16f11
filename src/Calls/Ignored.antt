-- ===== src/Calls/Ignored.antt =====
-- internal/core/calls.go, asserts.go: the warning on results that a test throws away. `source` stands for
-- sourceLines: the lines of a file as os.ReadFile gives them, none for a file that cannot be read.
use testigo.Base.{
  ℕ, zero, suc, ◌+◌, Bool, true, false, not, ◌&&◌, ◌||◌, List, [], ◌∷◌, ◌++◌, Option, none, some,
  get_elem?, take, drop, if◌then◌else◌, ◌==◌, some_of, Outcome, ok, panic, ◌>>=◌,
}
use testigo.Base.Text.{Text, codes, same, is_empty, has_prefix, contains, split, path_base}
use testigo.Base.Trim.{trim_space, index}
use testigo.Spy.{CalledFunc}
use mathlib.Core.Option

-- The operator of an assignment: where it starts, and its length.
abbrev pub assignment_op : Text → Option (ℕ × ℕ)
assignment_op line = elim (index line (codes ":=")) [
  | some i ↦ some (i, 2)
  | none ↦ Option.map (λ (i : ℕ). (i, 3)) (index line (codes " = "))
]

-- One of the names on the left is the blank one.
abbrev pub has_blank : List Text → Bool
has_blank names = some_of (λ n. same (trim_space n) (codes "_")) names

unfoldable pub assignment_ignores_returned_call : Text → Bool
unfolding index contains split same trim_space
assignment_ignores_returned_call line = elim (assignment_op line) [
  | none ↦ false
  | some (i, n) ↦
      if not (contains (drop (i + n) line) (codes "("))
      then false
      else has_blank (split (take i line) b',')
]

-- A line on which a test starts.
abbrev pub starts_test : Text → Bool
starts_test line =
    has_prefix line (codes "testigo.Run(")
    || has_prefix line (codes "t.Run(")
    || has_prefix line (codes "func Test")

pub record IgnoredReturn : Type 0 where
  pub file : Text
  pub line : ℕ
  pub src : Text

-- What is found, and the lines of files that it comes from.
abbrev pub Found : Type 0
Found = List (Text × ℕ) × List IgnoredReturn

abbrev pub skipped_line : Text → Bool
skipped_line trimmed = is_empty trimmed || has_prefix trimmed (codes "//")

-- A line of a call that ignores a result, unless it is seen already.
unfoldable pub add_ignored : Text → ℕ → Text → Found → Found
unfolding assignment_ignores_returned_call same path_base
add_ignored file line trimmed (seen, ignored) =
    if assignment_ignores_returned_call trimmed
    then if some_of (λ (k : Text × ℕ). same k.0 file && (k.1 == line)) seen
      then (seen, ignored)
      else (
        seen ++ (file, line) ∷ [],
        ignored ++ record { file = path_base file; line = line; src = trimmed } ∷ [],
      )
    else (seen, ignored)

-- The inner loop: from the index i down, `left` lines at most. `lines[i]` panics out of range.
unfoldable pub scan_lines : Text → List Text → ℕ → ℕ → Found → Outcome Found
unfolding trim_space has_prefix add_ignored
scan_lines file lines zero i found = ok found
scan_lines file lines (suc left) i found = elim (get_elem? lines i) [
  | none ↦ panic
  | some line ↦
      (let trimmed = trim_space line in
        let next = if skipped_line trimmed then found else add_ignored file (i + 1) trimmed found in
        elim (not (skipped_line trimmed) && starts_test trimmed) [
          | true ↦ ok found
          | false ↦ elim i [ zero ↦ ok next | suc j ↦ scan_lines file lines left j next ]
        ])
]

module _ {V : Type 0} (source : Text → List Text) where
  -- The loop starts on the line before the one that the expectation is written on.
  unfoldable pub scan_site : CalledFunc V → Found → Outcome Found
  unfolding scan_lines
  scan_site a found = if is_empty a.site_file then ok found else elim (a.site_line) [
    | zero ↦ ok found
    | suc n ↦ elim n [
      | zero ↦ ok found
      | suc i ↦ scan_lines a.site_file (source a.site_file) 40 i found
    ]
  ]

  -- An expectation that is an error is passed over.
  unfoldable pub scan_valid : CalledFunc V → Found → Outcome Found
  unfolding scan_site
  scan_valid a found = elim (a.err) [ some message ↦ ok found | none ↦ scan_site a found ]

  unfoldable pub scan_sites : List (CalledFunc V) → Found → Outcome Found
  unfolding scan_valid
  scan_sites [] found = ok found
  scan_sites (a ∷ exps) found = scan_valid a found >>= λ z. scan_sites exps z

  unfoldable pub ignored_returned_values : List (CalledFunc V) → Outcome (List IgnoredReturn)
  unfolding scan_sites
  ignored_returned_values exps = scan_sites exps ([], []) >>= λ z. ok z.1
