-- ===== src/Asserts.antt =====
-- internal/core/asserts.go, behavior_asserts.go, extra_asserts.go: the comparisons behind the value
-- asserts. A line is a Text; an element is a value of a type with the comparison that DeepEqual makes.
pub mod Lcs
pub mod Diff
pub mod Elements
pub mod Render
pub mod Folding
pub mod Source
pub mod Args
pub mod Reflect
pub mod Judging
pub mod Messages
pub mod Values
pub mod More
pub mod Behavior
pub mod Includes
pub mod Contains
mod Tests
use testigo.Base.{
  ℕ, zero, suc, ◌+◌, Bool, true, false, not, ◌&&◌, ◌||◌, List, [], ◌∷◌, ◌++◌, map, Option, none,
  some, length, leb, get_elem?, if◌then◌else◌, ◌==◌,
}
use testigo.Base.Text.{Text, same}
use mathlib.Core.Option

-- The kinds ' ', '-' and '+' of a line of a diff.
pub data LineOp : Type 0 where
  kept : Text → LineOp
  removed : Text → LineOp
  added : Text → LineOp

abbrev pub head_or_zero : List ℕ → ℕ
head_or_zero [] = 0
head_or_zero (n ∷ ns) = n

-- The rows are made of zeros; the row behind the last line of a stays so.
abbrev pub zero_row : List Text → List ℕ
zero_row [] = 0 ∷ []
zero_row (y ∷ ys) = 0 ∷ zero_row ys

-- The inner loop: the row of a line x, from the end, on the row below it.
unfoldable pub next_row : Text → List Text → List ℕ → List ℕ
unfolding same
next_row x (y ∷ ys) (down ∷ below) =
    let row = next_row x ys below in
    let right = head_or_zero row in
    (if same x y then head_or_zero below + 1 else if leb right down then down else right) ∷ row
next_row x ys below = 0 ∷ []

abbrev pub head_row : List (List ℕ) → List ℕ
head_row [] = []
head_row (row ∷ rows) = row

-- The outer loop: `lcs`.
unfoldable pub lcs_table : List Text → List Text → List (List ℕ)
unfolding next_row
lcs_table [] b = zero_row b ∷ []
lcs_table (x ∷ a) b = let rows = lcs_table a b in next_row x b (head_row rows) ∷ rows

-- `lcs[i][j]`
abbrev pub cell : List (List ℕ) → ℕ → ℕ → ℕ
cell table i j = Option.get_or (get_elem? (Option.get_or (get_elem? table i) []) j) 0

-- The loop over a from i and b from j, and the loops over what is left of one of them.
unfoldable pub walk : List (List ℕ) → ℕ → ℕ → List Text → List Text → List LineOp
unfolding same
walk lcs i j [] b = map added b
walk lcs i j (x ∷ a) [] = map removed (x ∷ a)
walk lcs i j (x ∷ a) (y ∷ b) = elim (same x y) [
  | true ↦ kept x ∷ walk lcs (i + 1) (j + 1) a b
  | false ↦ elim (leb (cell lcs i (j + 1)) (cell lcs (i + 1) j)) [
    | true ↦ removed x ∷ walk lcs (i + 1) j a (y ∷ b)
    | false ↦ added y ∷ walk lcs i (j + 1) (x ∷ a) b
  ]
]

unfoldable pub diff_lines : List Text → List Text → List LineOp
unfolding lcs_table walk
diff_lines a b = walk (lcs_table a b) 0 0 a b

-- `firstByteDiff`, with none for -1: the loop from i.
unfoldable pub first_diff_from : ℕ → Text → Text → Option ℕ
first_diff_from i [] [] = none
first_diff_from i (a ∷ as_) (b ∷ bs) =
    let rest = first_diff_from (i + 1) as_ bs in if not (a == b) then some i else rest
first_diff_from i as_ bs = some i

unfoldable pub first_byte_diff : Text → Text → Option ℕ
unfolding first_diff_from
first_byte_diff a b = first_diff_from 0 a b

-- `len(l) == 0`
abbrev pub is_nil : {V : Type 0} → List V → Bool
is_nil [] = true
is_nil (v ∷ vs) = false

module _ {V : Type 0} (deep_equal : V → V → Bool) where
  -- The inner loop of `difference`: the first unused element that is equal is used, if there is one.
  unfoldable pub use_equal : V → List (V × Bool) → Option (List (V × Bool))
  use_equal v [] = none
  use_equal v ((r, used) ∷ rs) =
      let rest = use_equal v rs in
      if not used && deep_equal v r
      then some ((r, true) ∷ rs)
      else Option.map (λ (l : List (V × Bool)). (r, used) ∷ l) rest

  unfoldable pub difference_from : List V → List (V × Bool) → List V
  unfolding use_equal
  difference_from [] remove = []
  difference_from (v ∷ vs) remove = elim (use_equal v remove) [
    | some remove' ↦ difference_from vs remove'
    | none ↦ v ∷ difference_from vs remove
  ]

  unfoldable pub difference : List V → List V → List V
  unfolding difference_from
  difference from remove = difference_from from (map (λ v. (v, false)) remove)

  -- `containsElem`
  unfoldable pub contains_elem : List V → V → Bool
  contains_elem [] element = false
  contains_elem (v ∷ vs) element = deep_equal v element || contains_elem vs element

  -- `ElementsMatchAt` on lists: nothing is missing and nothing is extra.
  unfoldable pub elements_match : List V → List V → Bool
  unfolding difference
  elements_match a b = is_nil (difference b a) && is_nil (difference a b)

  -- The loop of `subsetMissing` on lists.
  unfoldable pub subset_missing : List V → List V → List V
  unfolding contains_elem
  subset_missing elems [] = []
  subset_missing elems (v ∷ want) =
      let rest = subset_missing elems want in if not (contains_elem elems v) then v ∷ rest else rest
