-- ===== src/Doubles/Clearing.antt =====
-- internal/core/doubles.go: what `Reset` does to the fields of the doubles and the records of their spies.
use testigo.Base.{
  ℕ, Bool, true, false, List, [], ◌∷◌, ◌||◌, map, Option, none, some, has, ℕ_discrete,
}
use testigo.Spy.{Spy}
use testigo.Runtime.{Runtime}
use testigo.Doubles.{Fields, Reset, Doubles, spies_of, clone_baseline}

-- The spies in the baseline of a double.
abbrev pub baseline_spies : {V : Type 0} → Option (Fields V) → List ℕ
baseline_spies none = []
baseline_spies (some b) = spies_of b

-- The Spy m is in the baseline of one of the doubles of a set.
unfoldable pub is_restored : {V : Type 0} → ℕ → List (Reset V) → Bool
is_restored m [] = false
is_restored m (r ∷ rs) = has ℕ_discrete m (baseline_spies r.baseline) || is_restored m rs

-- A Spy without a record.
abbrev pub cleared_spy : {A : Type 0} → Spy A
cleared_spy = record { calls = []; locked = true }

-- The doubles of a set.
abbrev targets : {V : Type 0} → List (Reset V) → List ℕ
targets rs = map (λ r. r.target) rs

-- What its own Reset, if it has one, makes of the fields of a double.
abbrev pub own_reset : {V : Type 0} → Option (Fields V → Fields V) → Fields V → Fields V
own_reset none v = v
own_reset (some f) v = f v

-- What NewDouble adds to the set for a double that it restores.
abbrev registered : {V : Type 0} → (V → V) → ℕ → Fields V → Option (Fields V → Fields V) → Reset V
registered clone a fields resetter = record {
  target = a;
  baseline = some (clone_baseline clone fields);
  resetter = resetter;
}
