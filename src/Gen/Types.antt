-- ===== src/Gen/Types.antt =====
-- What internal/testigogen learns of a type through go/types and go/token. T are the types.
use testigo.Base.{ℕ, Bool, List, Option}
use testigo.Base.Text.{Text}

-- The kinds of basic types that the generator tells apart.
pub data BasicKind : Type 0 where
  bool string int other_int uint float64 other_float other : BasicKind

pub record Signature (T : Type 0) : Type 0 where
  pub type_params : ℕ
  pub params : List (Text × T)
  pub results : List T
  pub variadic : Bool

-- `foreign` tells of a method that is not exported and of another package.
pub record Method (T : Type 0) : Type 0 where
  pub name : Text
  pub foreign : Bool
  pub signature : Signature T

-- A named type: its name, the path of its package (none for a predeclared type), and how many type
-- arguments it has.
pub record Named : Type 0 where
  pub name : Text
  pub pkg_path : Option Text
  pub type_args : ℕ

-- A field of a struct; `hidden` tells of one that is not exported and of another package, `skipped` of
-- the tag "-".
pub record Field (T : Type 0) : Type 0 where
  pub name : Text
  pub type_of : T
  pub hidden : Bool
  pub skipped : Bool

-- `named`, `pointer_elem` and `exact_basic` look at the type itself behind its aliases, `struct_fields`,
-- `methods`, `slice_elem` and `basic` at what it is based on. `package_func` is a function of the package
-- for which code is generated, `method_set` the methods of a type with their names.
pub record GoTypes (T : Type 0) : Type 0 where
  pub canonical : T → Text
  pub named : T → Option Named
  pub pointer_elem : T → Option T
  pub exact_basic : T → Option BasicKind
  pub struct_fields : T → Option (List (Field T))
  pub methods : T → Option (List (Method T))
  pub slice_elem : T → Option T
  pub basic : T → Option BasicKind
  pub method_set : T → List (Method T)
  pub package_func : Text → Option (Signature T)
  pub error_type : T
  pub assignable : T → T → Bool
  pub identical : T → T → Bool
  pub comparable : T → Bool
  pub is_identifier : Text → Bool
  pub is_keyword : Text → Bool
