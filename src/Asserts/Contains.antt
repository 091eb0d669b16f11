-- ===== src/Asserts/Contains.antt =====
-- internal/core/value_asserts.go: what `Contains` finds in a text, a list or a map.
use testigo.Base.{Bool, true, false, ◌++◌, Option, none, some, Any, ◌≡◌, Outcome, ok, panic}
use testigo.Base.Text.{Text}
use testigo.Asserts.Reflect.{Kind, Reflect, kind}

-- A text with another one inside.
abbrev pub Occurs : Text → Text → Type 0
Occurs sub s = (pre : Text) × (post : Text) × (s ≡ pre ++ (sub ++ post))

abbrev found : Outcome (Option Bool) → Bool
found panic = false
found (ok none) = false
found (ok (some b)) = b

module _ {V T : Type 0} (r : Reflect V T) where
  -- The element is a string that stands in the text.
  abbrev pub InText : V → Option V → Type 0
  InText c none = ⊥
  InText c (some e) = (r.is_string e ≡ true) × Occurs (r.text e) (r.text c)

  -- The element can be a key of the map and looked up, and is one.
  abbrev pub IsKey : V → Option V → Type 0
  IsKey c none = ⊥
  IsKey c (some e) =
      (r.assignable (r.type_of e) (r.key_type (r.type_of c)) ≡ true)
      × (r.hashable e ≡ true)
      × (v : Option V) × (r.map_index c (some e) ≡ some v)

  -- What a container of a kind holds.
  abbrev pub HoldsAt : Kind → V → Option V → Type 0
  HoldsAt Kind.string c element = InText c element
  HoldsAt Kind.slice c element = Any (λ e. r.deep_equal e element ≡ true) (r.elems c)
  HoldsAt Kind.array c element = Any (λ e. r.deep_equal e element ≡ true) (r.elems c)
  HoldsAt Kind.map c element = IsKey c element
  HoldsAt _ c element = ⊥

  -- What a container holds; the nil interface holds nothing.
  abbrev pub Holds : Option V → Option V → Type 0
  Holds none element = ⊥
  Holds (some c) element = HoldsAt (kind r c) c element
