-- ===== src/Asserts/Judging.antt =====
-- internal/core/value_asserts.go, extra_asserts.go, behavior_asserts.go: the questions that the value
-- asserts ask. MapIndex panics at a key that it cannot look up; the other questions ask of a kind only
-- what package reflect allows.
use testigo.Base.{
  ℕ, Bool, true, false, not, ◌&&◌, ◌||◌, List, [], ◌∷◌, Option, none, some, some_of, is_some,
  if◌then◌else◌, ◌==◌, leb, Outcome, ok, panic, ◌>>=◌,
}
use testigo.Base.Text.{Text, contains}
use testigo.Asserts.Reflect.{
  Kind, Reflect, kind, has_len, nillable, is_ptr, is_map, is_list, is_numeric,
}
use testigo.Asserts.{subset_missing}

module _ {V T : Type 0} (r : Reflect V T) where
  unfoldable pub is_nil : Option V → Bool
  is_nil none = true
  is_nil (some v) = if nillable (kind r v) then r.is_nil v else false

  unfoldable pub is_empty_value : Option V → Bool
  is_empty_value none = true
  is_empty_value (some v) =
      if has_len (kind r v)
      then r.len v == 0
      else if is_ptr (kind r v)
      then r.is_nil v
      else r.is_zero v

  -- `length`; none for a value without one.
  unfoldable pub length_of : Option V → Option ℕ
  length_of none = none
  length_of (some v) = if has_len (kind r v) then some (r.len v) else none

  unfoldable pub is_zero : Option V → Bool
  is_zero none = true
  is_zero (some v) = r.is_zero v

  -- `element.(string)`: the type string itself, not a type of that kind.
  unfoldable pub contains_text : Text → Option V → Option Bool
  unfolding contains
  contains_text s none = none
  contains_text s (some e) = if r.is_string e then some (contains s (r.text e)) else none

  unfoldable pub contains_key : V → Option V → Outcome Bool
  contains_key m none = ok false
  contains_key m (some e) =
      if not (r.assignable (r.type_of e) (r.key_type (r.type_of m)))
      then ok false
      else if not (r.hashable e)
      then panic
      else ok (is_some (r.map_index m (some e)))

  -- `contains`; none where the container cannot be searched.
  unfoldable pub contains_value : Option V → Option V → Outcome (Option Bool)
  unfolding contains_text contains_key
  contains_value none element = ok none
  contains_value (some c) element = elim (kind r c) [
    | Kind.string ↦ ok (contains_text (r.text c) element)
    | Kind.slice ↦ ok (some (some_of (λ e. r.deep_equal e element) (r.elems c)))
    | Kind.array ↦ ok (some (some_of (λ e. r.deep_equal e element) (r.elems c)))
    | Kind.map ↦ contains_key c element >>= λ found. ok (some found)
    | _ ↦ ok none
  ]

  unfoldable pub equal_numbers : V → V → Bool
  equal_numbers got want =
      if leb (r.size (r.type_of want)) (r.size (r.type_of got))
      then r.same_value (r.convert want (r.type_of got)) got
      else r.same_value (r.convert got (r.type_of want)) want

  -- `equalValues` behind its first test, on valid values.
  unfoldable pub equal_converted : V → V → Bool
  unfolding equal_numbers
  equal_converted got want =
      if not (r.convertible (r.type_of got) (r.type_of want))
      then false
      else if is_numeric (kind r got) && is_numeric (kind r want)
      then equal_numbers got want
      else if is_numeric (kind r got) || is_numeric (kind r want)
      then false
      else r.deep_equal (some (r.convert got (r.type_of want))) (some want)

  unfoldable pub equal_valid : Option V → Option V → Bool
  unfolding equal_converted
  equal_valid (some got) (some want) = equal_converted got want
  equal_valid _ _ = false

  unfoldable pub equal_values : Option V → Option V → Bool
  unfolding equal_valid
  equal_values got want = if r.deep_equal got want then true else equal_valid got want

  unfoldable pub same_pointer : Option V → Option V → Bool
  same_pointer (some a) (some b) =
      if is_ptr (kind r a) && is_ptr (kind r b)
      then if r.is_nil a || r.is_nil b then false else r.pointer a == r.pointer b
      else false
  same_pointer _ _ = false

  -- `toSlice`
  unfoldable pub to_slice : Option V → Option (List (Option V))
  to_slice none = none
  to_slice (some v) = if is_list (kind r v) then some (r.elems v) else none

  -- A key whose value is there and equal.
  abbrev pub holds_pair : V → V → Option V → Bool
  holds_pair list subset key = elim (r.map_index list key) [
    | none ↦ false
    | some got ↦ elim (r.map_index subset key) [ none ↦ false | some want ↦ r.deep_equal got want ]
  ]

  -- Whether a key of the one map can be looked up in the other.
  abbrev pub keys_fit : V → V → Bool
  keys_fit list subset = r.assignable (r.key_type (r.type_of subset)) (r.key_type (r.type_of list))

  -- The loop of `subsetMissing` on maps, over the keys of the subset.
  unfoldable pub keys_missing : V → V → List (Option V) → Outcome (List (Option V))
  keys_missing list subset [] = ok []
  keys_missing list subset (k ∷ ks) =
      let rest = keys_missing list subset ks in
      if not (keys_fit list subset)
      then panic
      else rest >>= λ ms. ok (if not (holds_pair list subset k) then k ∷ ms else ms)

  abbrev pub elements_missing :
      Option (List (Option V)) → Option (List (Option V)) → Option (List (Option V))
  elements_missing (some elems) (some want) = some (subset_missing r.deep_equal elems want)
  elements_missing _ _ = none

  -- `subsetMissing`; none for incompatible kinds.
  unfoldable pub missing_of : Option V → Option V → Outcome (Option (List (Option V)))
  unfolding keys_missing to_slice
  missing_of (some list) (some subset) =
      if is_map (kind r list) || is_map (kind r subset)
      then if is_map (kind r list) && is_map (kind r subset)
        then (keys_missing list subset (r.map_keys subset) >>= λ ms. ok (some ms))
        else ok none
      else ok (elements_missing (to_slice (some list)) (to_slice (some subset)))
  missing_of _ _ = ok none
