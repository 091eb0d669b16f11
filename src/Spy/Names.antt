-- ===== src/Spy/Names.antt =====
-- internal/core/spy.go: the names of components and methods, as the runtime spells them.
use testigo.Base.{
  ℕ, ◌+◌, Bool, true, false, not, ◌&&◌, List, [], ◌∷◌, Option, none, some, take, drop,
  if◌then◌else◌, ◌≡◌, refl, all_of,
}
use testigo.Base.Text.{
  Text, codes, same, contains, trim_suffix, last_index, erase_all, erase_from, split, join,
  after_last,
}
use testigo.Spy.{CallRecord}

abbrev pub dot : ℕ
dot = b'.'

abbrev pub slash : ℕ
slash = b'/'

abbrev pub unknown : Text
unknown = codes "Unknown"

unfoldable pub split_package_and_type : Text → Text × Text
unfolding last_index
split_package_and_type component = elim (last_index component dot) [
  | none ↦ ([], component)
  | some i ↦ (take i component, drop (i + 1) component)
]

unfoldable pub is_caller_match : Text → Text → Bool
unfolding split_package_and_type contains same
is_caller_match expected actual =
    if same expected actual
    then true
    else (let (expected_pkg, expected_type) = split_package_and_type expected in
        let (actual_pkg, actual_type) = split_package_and_type actual in
        if not (same expected_pkg actual_pkg) then false else contains expected_type actual_type)

-- `lastSlashIndex+1` is 0 where there is no slash, as in `after_last`.
unfoldable pub split_full_func_name : Text → Text × Text
unfolding last_index trim_suffix erase_from
split_full_func_name [] = (unknown, unknown)
split_full_func_name (c ∷ s) =
    let full = trim_suffix (c ∷ s) (codes "-fm") in
    elim (last_index full dot) [
      | none ↦ (unknown, full)
      | some i ↦ (
        erase_all (erase_all (after_last (take i full) slash) (codes "(*")) (codes ")"),
        drop (i + 1) full,
      )
    ]

-- The parts behind the first dot, joined again.
unfoldable pub drop_first : Text → List Text → Text
unfolding join
drop_first name [] = name
drop_first name (p ∷ []) = name
drop_first name (p ∷ q ∷ ps) = join (q ∷ ps) dot

unfoldable pub clean_func_name : Text → Bool → Text
unfolding trim_suffix split drop_first
clean_func_name full strip =
    let name = trim_suffix full (codes "-fm") in
    if strip then drop_first name (split name dot) else name

unfoldable pub short_component : Text → Text
unfolding last_index
short_component component = elim (last_index component dot) [
  | none ↦ component
  | some i ↦ elim (drop (i + 1) component) [ [] ↦ component | c ∷ s ↦ c ∷ s ]
]

-- `getPackage`: what stands before the first dot, nothing if there is none.
abbrev pub first_of_many : List Text → Text
first_of_many [] = []
first_of_many (p ∷ []) = []
first_of_many (p ∷ q ∷ ps) = p

unfoldable pub get_package : Text → Text
unfolding split
get_package component = first_of_many (split component dot)

-- The package that every caller and callee of the calls shares.
unfoldable pub common_package : {V : Type 0} → List (CallRecord V) → Option Text
unfolding get_package same
common_package [] = some []
common_package (c ∷ cs) =
    let pkg = get_package c.callee_component in
    if all_of
      (λ k. same (get_package k.callee_component) pkg && same (get_package k.caller_component) pkg)
      (c ∷ cs)
    then some pkg
    else none

-- A method value of a pointer receiver, as the runtime names it.
mailer_name :
    split_full_func_name (codes "example.com/shop/mail.(*Mailer).Send-fm")
    ≡ (codes "mail.Mailer", codes "Send")
unfolding split_full_func_name
mailer_name = refl

same_type_name : is_caller_match (codes "shop.UserService") (codes "shop.User") ≡ true
unfolding is_caller_match
same_type_name = refl
