-- ===== src/Base/Trim.antt =====
-- Functions of package strings that search and trim, by what that package documents.
use testigo.Base.Tests.{◌==◌, if◌then◌else◌, ltb}
use testigo.Base.Text.{Text, is_empty, has_prefix}
use mathlib.Core.Bool.{Bool, true, false, ◌&&◌, ◌||◌}
use mathlib.Core.List.{[], ◌∷◌}
use mathlib.Core.Option
use mathlib.Core.Option.{Option, none, some}
use Prim.Native.Nat.{ℕ, suc}

-- `unicode.IsSpace` on ASCII.
abbrev pub is_space : ℕ → Bool
is_space b = b == 32 || (ltb 8 b && ltb b 14)

unfoldable pub trim_left_space : Text → Text
trim_left_space [] = []
trim_left_space (a ∷ s) = let rest = trim_left_space s in if is_space a then rest else a ∷ s

unfoldable pub trim_right_space : Text → Text
trim_right_space [] = []
trim_right_space (a ∷ s) = elim (trim_right_space s) [
  | [] ↦ if is_space a then [] else a ∷ []
  | c ∷ t ↦ a ∷ c ∷ t
]

-- `strings.TrimSpace` on ASCII.
unfoldable pub trim_space : Text → Text
unfolding trim_left_space trim_right_space
trim_space s = trim_right_space (trim_left_space s)

-- `strings.Index`; none for -1.
unfoldable pub index : Text → Text → Option ℕ
unfolding has_prefix
index [] pattern = if is_empty pattern then some 0 else none
index (a ∷ s) pattern =
    let rest = index s pattern in
    if has_prefix (a ∷ s) pattern then some 0 else Option.map (λ i. suc i) rest

-- `strings.Cut(s, sep)` for one byte: what stands before and behind the first one, and whether it is
-- there.
unfoldable pub cut : Text → ℕ → Text × Text × Bool
cut [] sep = ([], [], false)
cut (a ∷ s) sep =
    let (before, after, found) = cut s sep in
    if a == sep then ([], s, true) else (a ∷ before, after, found)
