-- ===== src/Gen/Seeder.antt =====
-- internal/testigogen/seeder.go: what is generated for a repository method that seeds.
use testigo.Base.{
  ℕ, ◌+◌, Bool, true, false, not, ◌&&◌, List, [], ◌∷◌, Option, none, some, length, has,
  if◌then◌else◌, ◌==◌, ltb, is_some,
}
use testigo.Base.Text.{Text, codes, same}
use testigo.Base.Fresh.{settle}
use testigo.Gen.Types.{GoTypes, Method}
use testigo.Gen.Methods.{
  Parameter, MethodModel, Generated, made, refused, ◌>>=◌, unused_name, build_method,
}

-- The parameter that is the entity: its place, its type, and whether the method takes a pointer to it.
pub record Entity (T : Type 0) : Type 0 where
  pub index : ℕ
  pub type_of : T
  pub pointer : Bool

-- What the generated closure does with the repository's results.
pub data Body : Type 0 where
  return_call : Body
  return_err : List Text → Body
  return_nil : Body

pub record SeederModel (T : Type 0) : Type 0 where
  pub entity : Entity T
  pub constructor_params : List (Parameter T)
  pub call_args : List Text
  pub body : Body

-- `lookupMethod`
unfoldable pub lookup_method : {T : Type 0} → List (Method T) → Text → Option (Method T)
unfolding same
lookup_method [] name = none
lookup_method (m ∷ ms) name =
    let rest = lookup_method ms name in if same m.name name then some m else rest

abbrev pub reserved_names : List Text
reserved_names = codes "t" ∷ codes "repository" ∷ codes "value" ∷ []

module _ {T : Type 0} (g : GoTypes T) where
  -- `namedStruct` finds one.
  abbrev pub is_named_struct : T → Bool
  is_named_struct t = is_some (g.named t) && is_some (g.struct_fields t)

  -- The type of a parameter, seen through a pointer.
  abbrev pub candidate : T → T × Bool
  candidate t = elim (g.pointer_elem t) [ none ↦ (t, false) | some u ↦ (u, true) ]

  -- The loop over the parameters for the entity.
  unfoldable pub find_entity :
      ℕ → Option (Entity T) → List (Parameter T) → Generated (Option (Entity T))
  find_entity i entity [] = made entity
  find_entity i entity (p ∷ ps) =
      let (t, pointer) = candidate p.type_of in
      let skipped = find_entity (i + 1) entity ps in
      let found =
        find_entity (i + 1) (some (record { index = i; type_of = t; pointer = pointer })) ps in
      if not (is_named_struct t)
      then skipped
      else if is_some entity
      then refused (codes "cannot infer entity from more than one struct parameter")
      else found

  -- The loop that names the other parameters: all of them, and those of the constructor.
  unfoldable pub rename_params :
      ℕ → ℕ → List Text → List (Parameter T) → Generated (List (Parameter T) × List (Parameter T))
  unfolding settle has
  rename_params entity i reserved [] = made ([], [])
  rename_params entity i reserved (p ∷ ps) =
      let kept = rename_params entity (i + 1) reserved ps >>= λ r. made (p ∷ r.0, r.1) in
      let renamed = unused_name (codes "Arg") reserved p.name >>= λ name.
      rename_params entity (i + 1) (name ∷ reserved) ps >>= λ r.
      made (record p { name = name } ∷ r.0, record p { name = name } ∷ r.1) in
      if i == entity then kept else renamed

  -- The places of the results that are errors.
  unfoldable pub error_indexes : ℕ → List T → List ℕ
  error_indexes i [] = []
  error_indexes i (t ∷ ts) =
      let rest = error_indexes (i + 1) ts in if g.assignable t g.error_type then i ∷ rest else rest

  unfoldable pub call_args : Entity T → ℕ → List (Parameter T) → List Text
  call_args entity i [] = []
  call_args entity i (p ∷ ps) =
      (if i == entity.index
        then (if entity.pointer then codes "&value" else codes "value")
        else p.name)
      ∷ call_args entity (i + 1) ps

  -- `_` for every result but the error.
  abbrev pub assignments : ℕ → ℕ → List T → List Text
  assignments err i [] = []
  assignments err i (t ∷ ts) =
      (if i == err then codes "err" else codes "_") ∷ assignments err (i + 1) ts

  unfoldable pub seeder_body : List T → List ℕ → Body
  seeder_body results [] = return_nil
  seeder_body (t ∷ []) (err ∷ []) = return_call
  seeder_body results (err ∷ []) = return_err (assignments err 0 results)
  seeder_body results (err ∷ e ∷ es) = return_nil

  -- `renderSeeder` behind the choice of the entity.
  unfoldable pub finish_seeder : MethodModel T → Option (Entity T) → Generated (SeederModel T)
  unfolding rename_params error_indexes call_args seeder_body
  finish_seeder method none = refused (codes "cannot infer an entity struct parameter")
  finish_seeder method (some entity) =
      rename_params entity.index 0 reserved_names method.params >>= λ r.
      if ltb 1 (length (error_indexes 0 method.results))
      then refused (codes "multiple error results are not supported")
      else made (record {
        entity = entity;
        constructor_params = r.1;
        call_args = call_args entity 0 r.0;
        body = seeder_body method.results (error_indexes 0 method.results);
      })

  -- `renderSeeder` for a method that is not variadic.
  unfoldable pub render_fixed : (ℕ → Text) → Method T → Generated (SeederModel T)
  unfolding build_method find_entity finish_seeder
  render_fixed decimal m = build_method g decimal m.name m.signature >>= λ method.
      find_entity 0 none method.params >>= λ entity. finish_seeder method entity

  unfoldable pub render_seeder : (ℕ → Text) → Method T → Generated (SeederModel T)
  unfolding render_fixed
  render_seeder decimal m =
      if m.signature.variadic
      then refused (codes "variadic repository methods are not supported")
      else render_fixed decimal m
