-- ===== src/Gen/Expressions.antt =====
-- internal/testigogen/generate.go: the expression that makes a random value of a field, by its type and
-- its name. `alias` is that of the package random, whose import is left to Gen/Imports; `type_string` and
-- `constants` stand for typeString and enumConstants. A name is ASCII.
use testigo.Base.{
  ℕ, ◌+◌, Bool, true, false, not, ◌&&◌, ◌||◌, List, [], ◌∷◌, ◌++◌, map, Option, none, some, select,
  is_some, if◌then◌else◌, ◌==◌, leb,
}
use testigo.Base.Text.{Text, codes, same, contains, text_dec}
use testigo.Gen.Types.{BasicKind, GoTypes, Named}
use testigo.Gen.Stubs.{join_comma}
use mathlib.Core.List.{lookup}

abbrev pub lower_byte : ℕ → ℕ
lower_byte c = if leb b'A' c && leb c b'Z' then c + 32 else c

-- `normalized`
unfoldable pub normalize : Text → Text
normalize s = map lower_byte (select (λ c. not (c == 95)) s)

-- `strings.HasSuffix`
unfoldable pub ends_with : Text → Text → Bool
unfolding same
ends_with [] suffix = same [] suffix
ends_with (c ∷ s) suffix = let rest = ends_with s suffix in same (c ∷ s) suffix || rest

-- The function for a string field.
unfoldable pub string_function : Text → Text
unfolding contains same ends_with
string_function name =
    if contains name (codes "email")
    then codes ".Email()"
    else if same name (codes "firstname")
    then codes ".FirstName()"
    else if same name (codes "lastname")
    then codes ".LastName()"
    else if same name (codes "name") || ends_with name (codes "name")
    then codes ".Name()"
    else if contains name (codes "path")
    then codes ".Path()"
    else codes ".String(12)"

unfoldable pub int_function : Text → Text
unfolding same ends_with
int_function name =
    if same name (codes "id") || ends_with name (codes "id") then codes ".ID()" else codes ".Int()"

-- The function for a basic type, and the kind of what it gives; none where it is not supported.
unfoldable pub basic_function : Text → BasicKind → Option (Text × BasicKind)
unfolding string_function int_function
basic_function name BasicKind.string = some (string_function name, BasicKind.string)
basic_function name BasicKind.bool = some (codes ".Bool()", BasicKind.bool)
basic_function name BasicKind.int = some (int_function name, BasicKind.int)
basic_function name BasicKind.other_int = some (int_function name, BasicKind.int)
basic_function name BasicKind.uint = some (codes ".ID()", BasicKind.int)
basic_function name BasicKind.float64 = some (codes ".Float()", BasicKind.float64)
basic_function name BasicKind.other_float = some (codes ".Float()", BasicKind.float64)
basic_function name BasicKind.other = none

-- Whether a kind is the one that a function gives.
abbrev pub same_kind : BasicKind → BasicKind → Bool
same_kind BasicKind.string BasicKind.string = true
same_kind BasicKind.bool BasicKind.bool = true
same_kind BasicKind.int BasicKind.int = true
same_kind BasicKind.float64 BasicKind.float64 = true
same_kind _ _ = false

abbrev pub is_kind : Option BasicKind → BasicKind → Bool
is_kind none kind = false
is_kind (some k) kind = same_kind k kind

abbrev pub is_time : Named → Bool
is_time n = elim (n.pkg_path) [
  | none ↦ false
  | some p ↦ same p (codes "time") && same n.name (codes "Time")
]

module _ {T : Type 0} (g : GoTypes T) (alias : Text) (type_string : T → Text)
    (constants : T → List Text) (funcs : List (Text × Text)) where
  -- A conversion stands around an expression of another type.
  unfoldable pub basic_expression : Text → T → Option Text
  unfolding basic_function normalize
  basic_expression field_name t = elim (g.basic t) [
    | none ↦ none
    | some k ↦ elim (basic_function (normalize field_name) k) [
      | none ↦ none
      | some (function, kind) ↦
          let expression = alias ++ function in
          if is_kind (g.exact_basic t) kind
          then some expression
          else some (type_string t ++ codes "(" ++ expression ++ codes ")")
    ]
  ]

  abbrev pub struct_expression : Named → T → Option Text
  struct_expression n t =
      if is_time n
      then some (alias ++ codes ".Date()")
      else elim (lookup text_dec (g.canonical t) funcs) [
        | none ↦ none
        | some function ↦ some (function ++ codes "()")
      ]

  abbrev pub typed_expression : Text → T → Option Text
  typed_expression field_name t = elim (g.named t) [
    | none ↦ basic_expression field_name t
    | some n ↦
        if is_some (g.struct_fields t) then struct_expression n t else basic_expression field_name t
  ]

  unfoldable pub random_expression : Text → T → Option Text
  unfolding basic_expression same join_comma
  random_expression field_name t = elim (constants t) [
    | [] ↦ typed_expression field_name t
    | c ∷ cs ↦ some (alias ++ codes ".Pick(" ++ join_comma (c ∷ cs) ++ codes ")")
  ]
