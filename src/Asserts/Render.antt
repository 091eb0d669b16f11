-- ===== src/Asserts/Render.antt =====
-- internal/core/asserts.go: what of a value or of a diff a failure shows. The pieces of a text stand for
-- it, colours and layout left out; a rune is one element.
use testigo.Base.{
  ℕ, zero, suc, ◌+◌, ◌-◌, ◌*◌, ◌/◌, ◌≤◌, ◌<◌, Bool, true, false, List, [], ◌∷◌, ◌++◌, length, leb,
  ltb, take, drop, if◌then◌else◌, ◌==◌, ◌≡◌, refl, ap, ◌∙◌, arith, inl, inr, Bool-cases,
}
use testigo.Base.Text.{Text}
use testigo.Asserts.{LineOp, kept, removed, added}

-- What `truncateMiddle` shows: all of a text, or its ends and how much lies between.
pub data Shown : Type 0 where
  whole : Text → Shown
  cut : Text → ℕ → Text → Shown

unfoldable pub truncate_middle : Text → ℕ → Shown
truncate_middle r max =
    if leb (length r) max
    then whole r
    else (let keep = max / 2 in cut (take keep r) (length r - 2 * keep) (drop (length r - keep) r))

-- The bytes that `hexWindow` shows: an ellipsis, a byte, the byte at the offset, and the missing one.
pub data HexCell : Type 0 where
  ellipsis : HexCell
  plain : ℕ → HexCell
  marked : ℕ → HexCell
  missing : HexCell

-- The loop from i on, over the bytes from i to the end of the window.
abbrev pub hex_cells : ℕ → ℕ → Text → List HexCell
hex_cells off i [] = []
hex_cells off i (b ∷ bs) = (if i == off then marked b else plain b) ∷ hex_cells off (i + 1) bs

unfoldable pub hex_window : Text → ℕ → List HexCell
hex_window b off =
    let start = off - 4 in
    let end_ = if ltb (length b) (off + 5) then length b else off + 5 in
    (if ltb 0 start then ellipsis ∷ [] else [])
    ++ hex_cells off start (take (end_ - start) (drop start b))
    ++ (if leb (length b) off then missing ∷ [] else [])
    ++ (if ltb end_ (length b) then ellipsis ∷ [] else [])

abbrev pub is_changed : LineOp → Bool
is_changed (kept x) = false
is_changed (removed x) = true
is_changed (added y) = true

-- `keep[k] = true`, out of range left out.
abbrev pub set_true : ℕ → List Bool → List Bool
set_true k [] = []
set_true zero (b ∷ bs) = true ∷ bs
set_true (suc k) (b ∷ bs) = b ∷ set_true k bs

-- The inner loop for the index i: from i - 2 to i + 2, as d runs from 0; it ends with d = 4.
unfoldable pub keep_around : ℕ → ℕ → ℕ → List Bool → List Bool
keep_around zero d i keep = keep
keep_around (suc n) d i keep =
    keep_around n (d + 1) i (if leb 2 (i + d) then set_true (i + d - 2) keep else keep)

unfoldable pub keep_from : ℕ → List LineOp → List Bool → List Bool
unfolding keep_around
keep_from i [] keep = keep
keep_from i (op ∷ ops) keep =
    keep_from (i + 1) ops (if is_changed op then keep_around 5 0 i keep else keep)

-- A line of a rendered diff: one of the lines, or the sign for lines left out.
pub data Rendered : Type 0 where
  folded : Rendered
  line : LineOp → Rendered

unfoldable pub render_from : Bool → List LineOp → List Bool → List Rendered
render_from collapsed [] keep = []
render_from collapsed (op ∷ ops) [] = []
render_from collapsed (op ∷ ops) (true ∷ keep) = line op ∷ render_from false ops keep
render_from collapsed (op ∷ ops) (false ∷ keep) =
    let rest = render_from true ops keep in if collapsed then rest else folded ∷ rest

abbrev pub none_kept : List LineOp → List Bool
none_kept [] = []
none_kept (op ∷ ops) = false ∷ none_kept ops

unfoldable pub render_line_ops : List LineOp → List Rendered
unfolding keep_from render_from
render_line_ops ops = render_from false ops (keep_from 0 ops (none_kept ops))

length-take : {A : Type 0} (n : ℕ) (l : List A) → n ≤ length l → length (take n l) ≡ n
length-take zero l le = refl
length-take (suc n) [] le = absurd (omega arith)
length-take (suc n) (x ∷ l) le = ap suc (length-take n l (omega arith))

length-drop : {A : Type 0} (n : ℕ) (l : List A) → length (drop n l) ≡ length l - n
length-drop zero l = omega arith
length-drop (suc n) [] = omega arith
length-drop (suc n) (x ∷ l) = length-drop n l ∙ omega arith

-- How many elements are shown, and how many are said to be left out.
abbrev pub shown_count : Shown → ℕ
shown_count (whole r) = length r
shown_count (cut a n b) = length a + length b

abbrev pub omitted_count : Shown → ℕ
omitted_count (whole r) = 0
omitted_count (cut a n b) = n

-- A truncated text shows at most the maximum, and what it shows and what it counts as left out add up
-- to the text.
pub truncate_middle-counts :
    (r : Text) (max : ℕ)
    → (shown_count (truncate_middle r max) ≤ max)
      × (shown_count (truncate_middle r max) + omitted_count (truncate_middle r max) ≡ length r)
unfolding truncate_middle
truncate_middle-counts r max = elim (Bool-cases (leb (length r) max)) [
  | inl short ↦ rw (short, truncate_middle) (ground (arith, short), omega arith)
  | inr long ↦
      (let more : max < length r = ground (arith, long) in
        let front = length-take (max / 2) r (omega arith) in
        let back = length-drop (length r - max / 2) r in
        rw (long, truncate_middle) (omega (arith, front, back), omega (arith, front, back)))
]
