-- ===== src/Gen/Imports.antt =====
-- internal/testigogen/imports.go: the aliases of the packages that the generated file imports, and how
-- names become identifiers. A text is ASCII. `decimal` stands for the digits that fmt prints of a number.
use testigo.Base.{
  ℕ, suc, ◌+◌, Bool, false, not, ◌&&◌, ◌||◌, List, [], ◌∷◌, ◌++◌, map, Option, none, some, length,
  select, if◌then◌else◌, ◌==◌, leb,
}
use testigo.Base.Text.{Text, codes, same, is_empty, contains, split, path_base, text_dec}
use testigo.Base.Dict.{store}
use testigo.Base.Fresh.{settle}
use mathlib.Core.List.{lookup}
use mathlib.Core.Option

-- `currentPath` is `current`; the maps are dictionaries.
pub record ImportSet : Type 0 where
  pub current : Text
  pub by_path : List (Text × Text)
  pub by_alias : List (Text × Text)
  pub defaults : List (Text × Text)

unfoldable pub new_import_set : Text → ImportSet
new_import_set current = record { current = current; by_path = []; by_alias = []; defaults = [] }

abbrev pub is_letter : ℕ → Bool
is_letter c = c == 95 || (leb b'a' c && leb c b'z') || (leb b'A' c && leb c b'Z')

abbrev pub is_digit : ℕ → Bool
is_digit c = leb b'0' c && leb c b'9'

-- The loop of `sanitizeIdentifier` behind the first byte.
unfoldable pub sanitize_rest : Text → Text
sanitize_rest [] = []
sanitize_rest (c ∷ s) = (if is_letter c || is_digit c then c else 95) ∷ sanitize_rest s

unfoldable pub sanitize_identifier : Text → Text
unfolding sanitize_rest
sanitize_identifier [] = codes "value"
sanitize_identifier (c ∷ s) = (if is_letter c then c else 95) ∷ sanitize_rest s

-- `lowerFirst`
unfoldable pub lower_first : Text → Text
lower_first [] = []
lower_first (c ∷ s) = (if leb b'A' c && leb c b'Z' then c + 32 else c) ∷ s

-- An alias that another package has.
abbrev pub taken : List (Text × Text) → Text → Text → Bool
taken by_alias import_path alias = elim (lookup text_dec alias by_alias) [
  | none ↦ false
  | some used_by ↦ not (same used_by import_path)
]

-- The alias that a package has, or a new one.
abbrev pub known_or_new :
    Option Text → ImportSet → Option (Text × ImportSet) → Option (Text × ImportSet)
known_or_new (some alias) s assigned = some (alias, s)
known_or_new none s assigned = assigned

module _ (decimal : ℕ → Text) where
  -- What the loop tries behind a name: the preferred one with the suffix.
  abbrev pub with_suffix : Text → ℕ → Text → Text
  with_suffix preferred suffix alias = preferred ++ decimal suffix

  -- The end of `add`; the rounds are one more than there are aliases.
  unfoldable pub assign_alias : Text → Text → ImportSet → Option (Text × ImportSet)
  unfolding settle store same
  assign_alias import_path preferred s =
      let rounds = suc (length s.by_alias) in
      Option.map
        (λ (alias : Text). (
          alias,
          record s {
            by_path = store text_dec import_path alias s.by_path;
            by_alias = store text_dec alias import_path s.by_alias;
            defaults = store text_dec import_path preferred s.defaults;
          },
        ))
        (settle (taken s.by_alias import_path) (with_suffix preferred) rounds 2 preferred)

  -- none where the rounds are out.
  unfoldable pub add : Text → Text → ImportSet → Option (Text × ImportSet)
  unfolding assign_alias sanitize_identifier path_base
  add import_path preferred s =
      if is_empty import_path || same import_path s.current
      then some ([], s)
      else known_or_new (lookup text_dec import_path s.by_path) s (
          assign_alias import_path
            (sanitize_identifier (if is_empty preferred then path_base import_path else preferred))
            s)

  -- A package is its path and its name; none is the package of the predeclared types.
  unfoldable pub qualifier : Option (Text × Text) → ImportSet → Option (Text × ImportSet)
  unfolding add
  qualifier none s = some ([], s)
  qualifier (some (import_path, name)) s =
      if same import_path s.current then some ([], s) else add import_path name s

  -- The packages that a generator asks for, one after the other.
  unfoldable pub add_all : List (Text × Text) → ImportSet → Option ImportSet
  unfolding add
  add_all [] s = some s
  add_all ((import_path, name) ∷ ps) s = elim (add import_path name s) [
    | none ↦ none
    | some (alias, s') ↦ add_all ps s'
  ]

-- A path of the standard library: no dot before the first slash.
abbrev pub first_part : List Text → Text
first_part [] = []
first_part (p ∷ ps) = p

abbrev pub is_external : Text → Bool
is_external import_path = contains (first_part (split import_path b'/')) (codes ".")

abbrev pub paths_of : List (Text × Text) → List Text
paths_of m = map (λ e. e.0) m

-- The paths in the order of the import block, where `sort` stands for sort.Strings.
unfoldable pub ordered_paths : (List Text → List Text) → ImportSet → List Text
unfolding contains split
ordered_paths sort s =
    sort (select (λ p. not (is_external p)) (paths_of s.by_path))
    ++ sort (select (λ p. is_external p) (paths_of s.by_path))

-- A line of the import block: the alias is left out where it is the default one.
unfoldable pub import_line : ImportSet → Text → Option Text × Text
unfolding same
import_line s import_path =
    let alias = Option.get_or (lookup text_dec import_path s.by_path) [] in
    let default = Option.get_or (lookup text_dec import_path s.defaults) [] in
    ((if same alias default then none else some alias), import_path)
