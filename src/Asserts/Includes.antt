-- ===== src/Asserts/Includes.antt =====
-- internal/core/extra_asserts.go, behavior_asserts.go: what `Subset` finds in lists and in maps.
use testigo.Base.{
  Bool, true, false, List, Option, none, some, Any, All, Outcome, ok, panic, ◌≡◌, ◌⊎◌,
}
use testigo.Base.Text.{Text}
use testigo.Asserts.{is_nil}
use testigo.Asserts.Reflect.{Reflect, kind, is_map, is_list}
use testigo.Asserts.Judging.{keys_fit}

module _ {V T : Type 0} (r : Reflect V T) where
  -- A key of the subset, with an equal value in the other map.
  abbrev pub HoldsPair : V → V → Option V → Type 0
  HoldsPair list subset key =
      (got : Option V) × (want : Option V) × (r.map_index list key ≡ some got)
      × (r.map_index subset key ≡ some want)
      × (r.deep_equal got want ≡ true)

  -- What a value includes of a subset: two maps, the keys of the one of a type that can be looked up in
  -- the other, or two slices or arrays.
  abbrev pub Includes : V → V → Type 0
  Includes list subset =
      ((is_map (kind r list) ≡ true)
        × (is_map (kind r subset) ≡ true)
        × All (λ k. (keys_fit r list subset ≡ true) × HoldsPair list subset k) (r.map_keys subset))
      ⊎ ((is_list (kind r list) ≡ true)
          × (is_list (kind r subset) ≡ true)
          × All (λ x. Any (λ v. r.deep_equal v x ≡ true) (r.elems list)) (r.elems subset))

  -- The nil interface includes nothing, and nothing includes it.
  abbrev pub IncludesAll : Option V → Option V → Type 0
  IncludesAll (some list) (some subset) = Includes list subset
  IncludesAll _ _ = ⊥

  -- Nothing is missing of the subset.
  abbrev pub none_missing : Outcome (Option (List (Option V))) → Bool
  none_missing panic = false
  none_missing (ok none) = false
  none_missing (ok (some ms)) = is_nil ms
