-- ===== src/Asserts/Reflect.antt =====
-- What the asserts of internal/core learn of a value through the packages reflect, fmt and errors. A
-- value of type `any` is an Option: none is the nil interface.
use testigo.Base.{ℕ, Bool, true, false, List, [], Option, none, some}
use testigo.Base.Int.{ℤ}
use testigo.Base.Text.{Text, codes}

-- `reflect.Kind`
pub data Kind : Type 0 where
  bool int int8 int16 int32 int64 uint uint8 uint16 uint32 uint64 uintptr : Kind
  float32 float64 complex64 complex128 : Kind
  array chan func interface map ptr slice string struct unsafe_pointer : Kind

-- V are the values, T the types. `elems` are the elements of a slice or an array, `elem` the type of
-- those of a slice or of what a pointer points to; `map_index` is none for a key that is not there.
pub record Reflect (V T : Type 0) : Type 0 where
  pub type_of : V → T
  pub kind_of : T → Kind
  pub same_type : T → T → Bool
  pub type_string : T → Text
  pub size : T → ℕ
  pub elem : T → T
  pub key_type : T → T
  pub convertible : T → T → Bool
  pub assignable : T → T → Bool
  pub convert : V → T → V
  pub deep_equal : Option V → Option V → Bool
  -- `==` on values
  pub same_value : V → V → Bool
  pub is_nil : V → Bool
  pub is_zero : V → Bool
  pub len : V → ℕ
  -- whether the type is `string` itself, and the text of a value of kind string
  pub is_string : V → Bool
  pub text : V → Text
  pub pointer : V → ℕ
  pub elems : V → List (Option V)
  pub map_keys : V → List (Option V)
  -- whether a map whose keys are of an interface type can be looked up at a value: MapIndex panics at one
  -- that cannot be hashed
  pub hashable : V → Bool
  pub map_index : V → Option V → Option (Option V)
  -- `fmt.Sprint`, and `%q` of a text
  pub sprint : Option V → Text
  pub quoted : Text → Text
  pub sprint_int : ℤ → Text
  -- `Error()` of a value that is an error
  pub error_text : V → Option Text
  pub errors_is : Option V → Option V → Bool
  pub errors_as : Option V → V → Bool

-- `len` is what Len() gives, for the kinds that have one.
abbrev pub has_len : Kind → Bool
has_len Kind.array = true
has_len Kind.chan = true
has_len Kind.map = true
has_len Kind.slice = true
has_len Kind.string = true
has_len _ = false

-- The kinds for which IsNil() does not panic.
abbrev pub nillable : Kind → Bool
nillable Kind.chan = true
nillable Kind.func = true
nillable Kind.interface = true
nillable Kind.map = true
nillable Kind.ptr = true
nillable Kind.slice = true
nillable _ = false

abbrev pub is_ptr : Kind → Bool
is_ptr Kind.ptr = true
is_ptr _ = false

abbrev pub is_map : Kind → Bool
is_map Kind.map = true
is_map _ = false

abbrev pub is_list : Kind → Bool
is_list Kind.slice = true
is_list Kind.array = true
is_list _ = false

-- `isNumericType`
abbrev pub is_numeric : Kind → Bool
is_numeric Kind.bool = false
is_numeric Kind.array = false
is_numeric Kind.chan = false
is_numeric Kind.func = false
is_numeric Kind.interface = false
is_numeric Kind.map = false
is_numeric Kind.ptr = false
is_numeric Kind.slice = false
is_numeric Kind.string = false
is_numeric Kind.struct = false
is_numeric Kind.unsafe_pointer = false
is_numeric _ = true

-- The kind of a value.
abbrev pub kind : {V T : Type 0} → Reflect V T → V → Kind
kind r v = r.kind_of (r.type_of v)

-- `typeName`
abbrev pub type_name : {V T : Type 0} → Reflect V T → Option T → Text
type_name r none = codes "<nil>"
type_name r (some t) = r.type_string t

-- `errText`
abbrev pub err_text : {V T : Type 0} → Reflect V T → Option V → Text
err_text r none = codes "nil"
err_text r (some e) = elim (r.error_text e) [ none ↦ [] | some text ↦ text ]
