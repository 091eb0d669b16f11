-- ===== src/Asserts/Lcs.antt =====
-- internal/core/asserts.go: the length of a longest common subsequence, by its recursion, and what it
-- bounds. It is the specification of the table of diffLines.
use testigo.Base.{ℕ, ◌+◌, ◌≤◌, List, [], ◌∷◌, length, leb, if◌then◌else◌, ◌≡◌, refl, arith}
use testigo.Base.Text.{Text, same, same_refl}

unfoldable pub lcs_len : List Text → List Text → ℕ
unfolding same
lcs_len [] ys = 0
lcs_len (x ∷ xs) [] = 0
lcs_len (x ∷ xs) (y ∷ ys) =
    let both = lcs_len xs ys in
    let down = lcs_len xs (y ∷ ys) in
    let right = lcs_len (x ∷ xs) ys in
    if same x y then both + 1 else if leb right down then down else right

-- A list is got from another by leaving lines out.
pub data IsSubseq : List Text → List Text → Type 0 where
  ends : IsSubseq [] []
  skips : {c a : List Text} (x : Text) → IsSubseq c a → IsSubseq c (x ∷ a)
  takes : {c a : List Text} (x : Text) → IsSubseq c a → IsSubseq (x ∷ c) (x ∷ a)

pub lcs_len-nil : (xs : List Text) → lcs_len xs [] ≡ 0
unfolding lcs_len
lcs_len-nil [] = refl
lcs_len-nil (x ∷ xs) = refl

-- One more line on the right is no loss, one more on the left a gain of at most one.
more_right :
    (x y : Text) (xs ys : List Text)
    → (lcs_len xs ys ≤ lcs_len xs (y ∷ ys)) × (lcs_len (x ∷ xs) ys ≤ lcs_len xs ys + 1)
unfolding lcs_len
more_right x y [] [] = ground arith
more_right x y [] (z ∷ ys) = ground (arith, more_right x z [] ys)
more_right x y (w ∷ xs) [] = ground arith
more_right x y (w ∷ xs) (z ∷ ys) =
    ground (arith, more_right w y xs (z ∷ ys), more_right x z (w ∷ xs) ys)

more_left :
    (x y : Text) (xs ys : List Text)
    → (lcs_len xs ys ≤ lcs_len (x ∷ xs) ys) × (lcs_len xs (y ∷ ys) ≤ lcs_len xs ys + 1)
unfolding lcs_len
more_left x y [] [] = ground arith
more_left x y [] (z ∷ ys) = ground arith
more_left x y (w ∷ xs) [] = ground (arith, more_left w y xs [])
more_left x y (w ∷ xs) (z ∷ ys) =
    ground (arith, more_left x z (w ∷ xs) ys, more_left w y xs (z ∷ ys))

-- No common subsequence is longer.
pub IsSubseq-lcs_len : {c a b : List Text} → IsSubseq c a → IsSubseq c b → length c ≤ lcs_len a b
unfolding lcs_len
IsSubseq-lcs_len ends t = omega arith
IsSubseq-lcs_len {c} {a} {b} (skips {a = a'} x s) t =
    omega (arith, IsSubseq-lcs_len s t, more_left x x a' b)
IsSubseq-lcs_len {c} {a} (takes {a = a'} x s) (skips {a = b'} y t) =
    omega (arith, IsSubseq-lcs_len (takes x s) t, more_right x y a b')
IsSubseq-lcs_len (takes x s) (takes {a = b'} y t) =
    rw (same_refl y) (omega (arith, IsSubseq-lcs_len s t))
