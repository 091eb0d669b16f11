-- ===== src/Base/Splitting.antt =====
-- Texts that are split and joined, and texts without white space.
use testigo.Base.Tests.{◌==◌}
use testigo.Base.Lists.{All, all_of}
use testigo.Base.Text.{Text, split, join, Lacks}
use testigo.Base.Trim.{is_space, trim_left_space, trim_right_space, trim_space}
use Prim.Native.Nat.{ℕ}
use mathlib.Core.Path.{◌≡◌, refl, ap, ◌∙◌}
use mathlib.Core.Bool.{Bool, true, not, ◌&&◌}
use mathlib.Core.List.{List, [], ◌∷◌, ◌++◌}
use native.Mathlib.Omega.{arith}

-- A split at a byte undoes a join by it.
split-Lacks : (b : ℕ) (s : Text) → Lacks b s → split s b ≡ s ∷ []
unfolding split
split-Lacks b [] h = refl
split-Lacks b (a ∷ s) h = ground (arith, split-Lacks b s)

split-cons : (b : ℕ) (s t : Text) → Lacks b s → split (s ++ b ∷ t) b ≡ s ∷ split t b
unfolding split
split-cons b [] t h = ground arith
split-cons b (a ∷ s) t h = ground (arith, split-cons b s t)

pub split-join :
    (b : ℕ) (p : Text) (ps : List Text)
    → All (Lacks b) (p ∷ ps)
    → split (join (p ∷ ps) b) b ≡ p ∷ ps
unfolding join
split-join b p [] h = split-Lacks b p h.0
split-join b p (q ∷ ps) h =
    split-cons b p (join (q ∷ ps) b) h.0 ∙ ap (◌∷◌ p) (split-join b q ps h.1)

-- No white space and no comma.
abbrev pub is_clean : Text → Bool
is_clean s = all_of (λ c. not (is_space c) && not (c == b',')) s

trim_right-clean : (s : Text) → is_clean s ≡ true → trim_right_space s ≡ s
unfolding trim_right_space
trim_right-clean [] h = refl
trim_right-clean (a ∷ []) h = ground arith
trim_right-clean (a ∷ b ∷ s) h = ground (arith, trim_right-clean (b ∷ s))

trim_left-clean : (s : Text) → is_clean s ≡ true → trim_left_space s ≡ s
unfolding trim_left_space
trim_left-clean [] h = refl
trim_left-clean (a ∷ s) h = ground arith

pub trim_space-clean : (s : Text) → is_clean s ≡ true → trim_space s ≡ s
unfolding trim_space
trim_space-clean s h = ap trim_right_space (trim_left-clean s h) ∙ trim_right-clean s h

pub clean-Lacks : (s : Text) → is_clean s ≡ true → Lacks b',' s
clean-Lacks [] h = tt
clean-Lacks (a ∷ s) h = ground (arith, clean-Lacks s)
