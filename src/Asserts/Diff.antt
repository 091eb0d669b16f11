-- ===== src/Asserts/Diff.antt =====
-- internal/core/asserts.go: the lines of a diff. Its two sides are the two texts, and it keeps as many
-- lines as can be kept.
use testigo.Base.{
  ℕ, zero, suc, ◌+◌, ◌≤◌, List, [], ◌∷◌, map, length, drop, get_elem?, ◌≡◌, refl, sym, subst, ap,
  ◌∙◌, arith,
}
use testigo.Base.Text.{Text, same→eq}
use testigo.Asserts.{
  LineOp, kept, removed, added, head_or_zero, zero_row, next_row, head_row, lcs_table, cell, walk,
  diff_lines,
}
use testigo.Asserts.Lcs.{lcs_len, lcs_len-nil, IsSubseq, ends, skips, takes, IsSubseq-lcs_len}
use mathlib.Core.Option

-- The lines of the first text that a diff shows, those of the second, and those it keeps.
abbrev pub got_side : List LineOp → List Text
got_side [] = []
got_side (kept x ∷ ops) = x ∷ got_side ops
got_side (removed x ∷ ops) = x ∷ got_side ops
got_side (added y ∷ ops) = got_side ops

abbrev pub want_side : List LineOp → List Text
want_side [] = []
want_side (kept x ∷ ops) = x ∷ want_side ops
want_side (removed x ∷ ops) = want_side ops
want_side (added y ∷ ops) = y ∷ want_side ops

abbrev pub kept_lines : List LineOp → List Text
kept_lines [] = []
kept_lines (kept x ∷ ops) = x ∷ kept_lines ops
kept_lines (removed x ∷ ops) = kept_lines ops
kept_lines (added y ∷ ops) = kept_lines ops

sides_added :
    (b : List Text)
    → (got_side (map added b) ≡ [])
      × ((want_side (map added b) ≡ b) × (kept_lines (map added b) ≡ []))
sides_added [] = (refl, (refl, refl))
sides_added (y ∷ b) = ground (arith, sides_added b)

sides_removed :
    (a : List Text)
    → (got_side (map removed a) ≡ a)
      × ((want_side (map removed a) ≡ []) × (kept_lines (map removed a) ≡ []))
sides_removed [] = (refl, (refl, refl))
sides_removed (x ∷ a) = ground (arith, sides_removed a)

-- The two sides do not depend on the table.
walk-sides :
    (t : List (List ℕ)) (i j : ℕ) (a b : List Text)
    → (got_side (walk t i j a b) ≡ a) × (want_side (walk t i j a b) ≡ b)
unfolding walk
walk-sides t i j [] b = ((sides_added b).0, (sides_added b).1.0)
walk-sides t i j (x ∷ a) [] = ((sides_removed (x ∷ a)).0, (sides_removed (x ∷ a)).1.0)
walk-sides t i j (x ∷ a) (y ∷ b) = ground (
  arith,
  walk-sides t (i + 1) (j + 1) a b,
  walk-sides t (i + 1) j a (y ∷ b),
  walk-sides t i (j + 1) (x ∷ a) b,
  same→eq x y,
)

-- The row of a suffix of the first text: the lengths against each suffix of the second.
abbrev row_of : List Text → List Text → List ℕ
row_of xs [] = lcs_len xs [] ∷ []
row_of xs (y ∷ ys) = lcs_len xs (y ∷ ys) ∷ row_of xs ys

head-row_of : (xs ys : List Text) → head_or_zero (row_of xs ys) ≡ lcs_len xs ys
head-row_of xs [] = refl
head-row_of xs (y ∷ ys) = refl

zero_row-row_of : (ys : List Text) → zero_row ys ≡ row_of [] ys
unfolding lcs_len
zero_row-row_of [] = refl
zero_row-row_of (y ∷ ys) = ap (◌∷◌ 0) (zero_row-row_of ys)

next_row-row_of : (x : Text) (xs ys : List Text) → next_row x ys (row_of xs ys) ≡ row_of (x ∷ xs) ys
unfolding next_row lcs_len
next_row-row_of x xs [] = refl
next_row-row_of x xs (y ∷ ys) =
    ground (arith, next_row-row_of x xs ys, head-row_of xs ys, head-row_of (x ∷ xs) ys)

-- The rows of a table are those of the suffixes.
head-lcs_table : (a b : List Text) → head_row (lcs_table a b) ≡ row_of a b
unfolding lcs_table
head-lcs_table [] b = zero_row-row_of b
head-lcs_table (x ∷ a) b = ap (next_row x b) (head-lcs_table a b) ∙ next_row-row_of x a b

abbrev entry : List ℕ → ℕ → ℕ
entry row j = Option.get_or (get_elem? row j) 0

entry-row_of : (xs ys : List Text) (j : ℕ) → entry (row_of xs ys) j ≡ lcs_len xs (drop j ys)
entry-row_of xs [] zero = refl
entry-row_of xs [] (suc j) = sym (lcs_len-nil xs)
entry-row_of xs (y ∷ ys) zero = refl
entry-row_of xs (y ∷ ys) (suc j) = entry-row_of xs ys j

cell-lcs_table :
    (a b : List Text) (i j : ℕ) → cell (lcs_table a b) i j ≡ lcs_len (drop i a) (drop j b)
unfolding lcs_table lcs_len
cell-lcs_table [] b zero j = ap (λ r. entry r j) (zero_row-row_of b) ∙ entry-row_of [] b j
cell-lcs_table [] b (suc i) j = refl
cell-lcs_table (x ∷ a) b zero j =
    ap (λ r. entry r j) (head-lcs_table (x ∷ a) b) ∙ entry-row_of (x ∷ a) b j
cell-lcs_table (x ∷ a) b (suc i) j = cell-lcs_table a b i j

-- The table holds the lengths of the suffixes from i and j on.
abbrev Holds : List (List ℕ) → ℕ → ℕ → List Text → List Text → Type 0
Holds t i j a b = (k l : ℕ) → cell t (i + k) (j + l) ≡ lcs_len (drop k a) (drop l b)

module _ (t : List (List ℕ)) (i j : ℕ) where
  Holds-down : (x : Text) (a b : List Text) → Holds t i j (x ∷ a) b → Holds t (i + 1) j a b
  Holds-down x a b h k l =
      let same_place : (i + 1) + k ≡ i + suc k = omega arith in rw same_place (h (suc k) l)

  Holds-right : (y : Text) (a b : List Text) → Holds t i j a (y ∷ b) → Holds t i (j + 1) a b
  Holds-right y a b h k l =
      let same_place : (j + 1) + l ≡ j + suc l = omega arith in rw same_place (h k (suc l))

kept-walk :
    (t : List (List ℕ)) (i j : ℕ) (a b : List Text)
    → Holds t i j a b
    → length (kept_lines (walk t i j a b)) ≡ lcs_len a b
unfolding walk lcs_len
kept-walk t i j [] b h = ap length (sides_added b).1.1
kept-walk t i j (x ∷ a) [] h = ap length (sides_removed (x ∷ a)).1.1
kept-walk t i j (x ∷ a) (y ∷ b) h =
    let down : cell t (i + 1) j ≡ lcs_len a (y ∷ b) = ap (cell t (i + 1)) (omega arith) ∙ h 1 0 in
    let right : cell t i (j + 1) ≡ lcs_len (x ∷ a) b =
      ap (λ k. cell t k (j + 1)) (omega arith) ∙ h 0 1 in
    ground (
      arith,
      kept-walk t (i + 1) (j + 1) a b
          (Holds-right t (i + 1) j y a b (Holds-down t i j x a (y ∷ b) h)),
      kept-walk t (i + 1) j a (y ∷ b) (Holds-down t i j x a (y ∷ b) h),
      kept-walk t i (j + 1) (x ∷ a) b (Holds-right t i j y (x ∷ a) b h),
    )

-- The lines that a diff keeps and removes are those of the first text in order, and the lines that it
-- keeps and adds those of the second.
pub diff_lines-sides :
    (a b : List Text) → (got_side (diff_lines a b) ≡ a) × (want_side (diff_lines a b) ≡ b)
unfolding diff_lines
diff_lines-sides a b = walk-sides (lcs_table a b) 0 0 a b

kept-got_side : (ops : List LineOp) → IsSubseq (kept_lines ops) (got_side ops)
kept-got_side [] = ends
kept-got_side (kept x ∷ ops) = takes x (kept-got_side ops)
kept-got_side (removed x ∷ ops) = skips x (kept-got_side ops)
kept-got_side (added y ∷ ops) = kept-got_side ops

kept-want_side : (ops : List LineOp) → IsSubseq (kept_lines ops) (want_side ops)
kept-want_side [] = ends
kept-want_side (kept x ∷ ops) = takes x (kept-want_side ops)
kept-want_side (removed x ∷ ops) = kept-want_side ops
kept-want_side (added y ∷ ops) = skips y (kept-want_side ops)

-- The kept lines of a diff are a common subsequence of the two texts, and no common subsequence has
-- more lines.
pub diff_lines-longest :
    (a b c : List Text)
    → IsSubseq c a
    → IsSubseq c b
    → IsSubseq (kept_lines (diff_lines a b)) a
      × (IsSubseq (kept_lines (diff_lines a b)) b
          × (length c ≤ length (kept_lines (diff_lines a b))))
unfolding diff_lines
diff_lines-longest a b c s t =
    let (got, want) = diff_lines-sides a b in
    let start : Holds (lcs_table a b) 0 0 a b = λ k l.
      ap (λ m. cell (lcs_table a b) m (0 + l)) (omega arith)
      ∙ ap (cell (lcs_table a b) k) (omega arith)
      ∙ cell-lcs_table a b k l in
    (
      subst (IsSubseq (kept_lines (diff_lines a b))) got (kept-got_side (diff_lines a b)),
      (
        subst (IsSubseq (kept_lines (diff_lines a b))) want (kept-want_side (diff_lines a b)),
        rw (kept-walk (lcs_table a b) 0 0 a b start) (IsSubseq-lcs_len s t),
      ),
    )
