-- ===== src/Base/Text.antt =====
-- Go strings as lists of bytes, and the functions of package strings that the source calls, by what
-- that package documents.
use Prim.Native.Char.{code}
use Prim.Native.String.{String}
use Prim.Native.Nat.{ℕ, zero, suc, ◌+◌, ◌-◌}
use mathlib.Core.Path.{◌≡◌, refl}
use mathlib.Core.Bool.{Bool, true, false, ◌&&◌, ◌||◌}
use mathlib.Core.List.{List, [], ◌∷◌, ◌++◌}
use mathlib.Core.Option.{Option, none, some}
use native.Mathlib.Omega.{arith}
unfoldable use native.Mathlib.Decide.{ℕ_discrete}
use testigo.Base.Tests.{◌==◌, if◌then◌else◌, leb}
use testigo.Base.Lists.{length, take, drop}

abbrev pub Text : Type 0
Text = List ℕ

-- The bytes of an ASCII literal.
abbrev pub codes : String → Text
codes String.[] = []
codes (String.◌∷◌ c s) = code c ∷ codes s

pub heads_eq : {a b : ℕ} {s t : Text} → (a ∷ s) ≡ (b ∷ t) → a ≡ b
heads_eq e = cc

pub tails_eq : {a b : ℕ} {s t : Text} → (a ∷ s) ≡ (b ∷ t) → s ≡ t
tails_eq e = cc

unfoldable pub text_dec : Discrete Text
unfolding ℕ_discrete
text_dec [] [] = yes refl
text_dec [] (b ∷ t) = no (λ e. cc)
text_dec (a ∷ s) [] = no (λ e. cc)
text_dec (a ∷ s) (b ∷ t) =
    let rest = text_dec s t in
    elim (ℕ_discrete a b) [
      | yes e ↦ elim rest [ yes f ↦ yes cc | no f ↦ no (λ h. f (tails_eq h)) ]
      | no e ↦ no (λ h. e (heads_eq h))
    ]

-- `s == t` on strings.
unfoldable pub same : Text → Text → Bool
same [] [] = true
same (a ∷ s) (b ∷ t) = (a == b) && same s t
same _ _ = false

pub same→eq : (s t : Text) → same s t ≡ true → s ≡ t
unfolding same
same→eq [] [] h = refl
same→eq (a ∷ s) (b ∷ t) h = ground (arith, same→eq s t)
same→eq [] (b ∷ t) h = cc
same→eq (a ∷ s) [] h = cc

pub same_refl : (s : Text) → same s s ≡ true
unfolding same
same_refl [] = refl
same_refl (a ∷ s) = ground (arith, same_refl s)

abbrev pub is_empty : Text → Bool
is_empty [] = true
is_empty (a ∷ s) = false

-- `strings.HasPrefix(s, p)`
unfoldable pub has_prefix : Text → Text → Bool
has_prefix s [] = true
has_prefix [] (b ∷ p) = false
has_prefix (a ∷ s) (b ∷ p) = (a == b) && has_prefix s p

-- `strings.Contains(s, sub)`
unfoldable pub contains : Text → Text → Bool
unfolding has_prefix
contains [] sub = is_empty sub
contains (a ∷ s) sub = has_prefix (a ∷ s) sub || contains s sub

-- `strings.TrimSuffix(s, suffix)`
unfoldable pub trim_suffix : Text → Text → Text
unfolding same
trim_suffix s suffix =
    let n = length s - length suffix in
    if leb (length suffix) (length s) && same (drop n s) suffix then take n s else s

-- `strings.LastIndex(s, b)` for one byte; none for -1.
unfoldable pub last_index : Text → ℕ → Option ℕ
last_index [] b = none
last_index (a ∷ s) b = elim (last_index s b) [
  | none ↦ if a == b then some 0 else none
  | some i ↦ some (suc i)
]

-- `strings.ReplaceAll(s, old, "")` for an `old` that is not empty; the number counts the bytes of a
-- match that are still to skip.
unfoldable pub erase_from : ℕ → Text → Text → Text
unfolding has_prefix
erase_from k [] old = []
erase_from (suc k) (a ∷ s) old = erase_from k s old
erase_from zero (a ∷ s) old = elim (has_prefix (a ∷ s) old) [
  | true ↦ erase_from (length old - 1) s old
  | false ↦ a ∷ erase_from zero s old
]

abbrev pub erase_all : Text → Text → Text
erase_all s old = erase_from 0 s old

-- What stands behind the last such byte; all of it where there is none.
abbrev pub after_last : Text → ℕ → Text
after_last s b = elim (last_index s b) [ none ↦ s | some i ↦ drop (i + 1) s ]

unfoldable pub trim_right : Text → ℕ → Text
trim_right [] b = []
trim_right (a ∷ s) b = elim (trim_right s b) [
  | [] ↦ if a == b then [] else a ∷ []
  | c ∷ t ↦ a ∷ c ∷ t
]

-- `path.Base(s)`
unfoldable pub path_base : Text → Text
unfolding trim_right last_index
path_base [] = codes "."
path_base (a ∷ s) = elim (after_last (trim_right (a ∷ s) b'/') b'/') [
  | [] ↦ codes "/"
  | c ∷ t ↦ c ∷ t
]

abbrev pub cons_head : ℕ → List Text → List Text
cons_head a [] = (a ∷ []) ∷ []
cons_head a (p ∷ ps) = (a ∷ p) ∷ ps

-- `strings.Split(s, sep)` for one byte.
unfoldable pub split : Text → ℕ → List Text
split [] sep = [] ∷ []
split (a ∷ s) sep = let rest = split s sep in if a == sep then [] ∷ rest else cons_head a rest

-- `strings.Join(parts, sep)` for one byte.
unfoldable pub join : List Text → ℕ → Text
join [] sep = []
join (p ∷ []) sep = p
join (p ∷ q ∷ ps) sep = p ++ sep ∷ join (q ∷ ps) sep

-- A text without a byte.
abbrev pub Lacks : ℕ → Text → Type 0
Lacks b [] = Unit
Lacks b (a ∷ s) = ((a == b) ≡ false) × Lacks b s
