-- ===== src/Doubles.antt =====
-- internal/core/doubles.go: the doubles of a test and how they are restored. A double is a struct at its
-- address, a number, and its fields; the records of its spies are in the state of the run, at the addresses
-- of the spies. `clone` is the deep copy of a field that holds no spy, in which nothing is shared; it goes by
-- reflection in internal/core/snapshots.go and is not modelled. A Resetter's method is a function on the
-- fields of its double; that of an embedded Spy clears its records, which the baseline clears as well.
pub mod Changes
pub mod Changing
pub mod Clearing
pub mod Pinned
mod Tests
use testigo.Base.{
  ℕ, Bool, true, false, not, ◌&&◌, ◌||◌, List, [], ◌∷◌, ◌++◌, map, Option, none, some, has, is_some,
  some_of, if◌then◌else◌, ite, ℕ_discrete, Bool-cases, Option-cases, ◌≡◌, refl, sym, ap, ◌∙◌, inl,
  inr, arith,
}
use testigo.Base.Dict.{store, lookup-store}
use testigo.Spy.{Spy}
use testigo.Runtime.{
  Runtime, value_or, spy_at, clear, bind_goroutine, unbind_goroutine, register_subtest,
}
use testigo.Calls.{Verifiers, arm_final_check}
use mathlib.Core.List.{lookup}

-- A field of a double: a Spy by value at its address, a *Spy that may be nil, or anything else.
pub data Cell (V : Type 0) : Type 0 where
  spy_value : ℕ → Cell V
  spy_pointer : Option ℕ → Cell V
  plain : V → Cell V

abbrev pub Fields : Type 0 → Type 0
Fields V = List (Cell V)

-- What the function that NewDouble adds to the set holds: the double, its baseline (none where it owns
-- external state), and its Reset method if it has one.
pub record Reset (V : Type 0) : Type 0 where
  pub target : ℕ
  pub baseline : Option (Fields V)
  pub resetter : Option (Fields V → Fields V)

-- The values of the doubles, and `doubleRegistry`: the set of each test.
pub record Doubles (V : Type 0) : Type 0 where
  pub values : List (ℕ × Fields V)
  pub sets : List (ℕ × List (Reset V))

abbrev pub set_for : {V : Type 0} → ℕ → Doubles V → List (Reset V)
set_for t d = value_or t [] d.sets

unfoldable pub add_reset : {V : Type 0} → ℕ → Reset V → Doubles V → Doubles V
add_reset t r d = record d { sets = store ℕ_discrete t (set_for t d ++ r ∷ []) d.sets }

-- The call of a Reset method on the double at an address.
abbrev pub call_reset :
    {V : Type 0} → Option (Fields V → Fields V) → ℕ → List (ℕ × Fields V) → List (ℕ × Fields V)
call_reset none m values = values
call_reset (some f) m values = elim (lookup ℕ_discrete m values) [
  | none ↦ values
  | some v ↦ store ℕ_discrete m (f v) values
]

abbrev pub is_empty_set : List ℕ → Bool
is_empty_set [] = true
is_empty_set (m ∷ ms) = false

-- `spiesOf`
unfoldable pub spies_of : {V : Type 0} → Fields V → List ℕ
spies_of [] = []
spies_of (spy_value m ∷ fs) = m ∷ spies_of fs
spies_of (spy_pointer none ∷ fs) = spies_of fs
spies_of (spy_pointer (some m) ∷ fs) = m ∷ spies_of fs
spies_of (plain v ∷ fs) = spies_of fs

-- `clearSpies`, in the state of the run. A is the type of the arguments of calls.
unfoldable pub clear_spies : {V A : Type 0} → Fields V → Runtime A → Runtime A
unfolding clear
clear_spies [] w = w
clear_spies (spy_value m ∷ fs) w = clear_spies fs (clear m w)
clear_spies (spy_pointer none ∷ fs) w = clear_spies fs w
clear_spies (spy_pointer (some m) ∷ fs) w = clear_spies fs (clear m w)
clear_spies (plain v ∷ fs) w = clear_spies fs w

module _ {V : Type 0} (clone : V → V) where
  -- A field in `cloneBaseline`: a *Spy is kept by its identity, and a Spy has the address of its field.
  abbrev pub clone_cell : Cell V → Cell V
  clone_cell (spy_value m) = spy_value m
  clone_cell (spy_pointer p) = spy_pointer p
  clone_cell (plain v) = plain (clone v)

  unfoldable pub clone_baseline : Fields V → Fields V
  clone_baseline fs = map clone_cell fs

  -- `NewDouble`: what it registers for the restoring of a double that holds the fields.
  unfoldable pub new_double :
      ℕ → ℕ → Fields V → Option (Fields V → Fields V) → Doubles V → Doubles V
  unfolding add_reset clone_baseline spies_of
  new_double t m fields resetter d =
      let external = is_some resetter && is_empty_set (spies_of fields) in
      add_reset t
        (record {
          target = m;
          baseline = if external then none else some (clone_baseline fields);
          resetter = resetter;
        })
        (record d { values = store ℕ_discrete m fields d.values })

  -- What a reset gives a double, and the state with its spies cleared.
  abbrev pub restore :
      {A : Type 0}
      → Option (Fields V)
      → ℕ
      → List (ℕ × Fields V)
      → Runtime A
      → List (ℕ × Fields V) × Runtime A
  restore none m values w = (values, w)
  restore (some b) m values w =
      (store ℕ_discrete m (clone_baseline b) values, clear_spies (clone_baseline b) w)

  unfoldable pub reset_one :
      {A : Type 0} → Reset V → List (ℕ × Fields V) → Runtime A → List (ℕ × Fields V) × Runtime A
  unfolding clone_baseline clear_spies
  reset_one r values w =
      let (restored, z) = restore r.baseline r.target values w in
      (call_reset r.resetter r.target restored, z)

  -- The loop of `doubleSet.reset`.
  unfoldable pub reset_all :
      {A : Type 0}
      → List (Reset V)
      → List (ℕ × Fields V)
      → Runtime A
      → List (ℕ × Fields V) × Runtime A
  unfolding reset_one
  reset_all [] values w = (values, w)
  reset_all (r ∷ rs) values w = let (restored, z) = reset_one r values w in reset_all rs restored z

  -- `Reset`
  unfoldable pub reset : {A : Type 0} → ℕ → Doubles V → Runtime A → Doubles V × Runtime A
  unfolding reset_all
  reset t d w =
      let (values, z) = reset_all (set_for t d) d.values w in (record d { values = values }, z)

  -- `Run`: the subtest child of t on a goroutine. The body is given the doubles, the run and the
  -- verifiers; the binding is undone behind it.
  unfoldable pub run_subtest :
      {A : Type 0}
      → ℕ
      → ℕ
      → ℕ
      → (Doubles V → Runtime A → Verifiers A → Doubles V × Runtime A × Verifiers A)
      → Doubles V
      → Runtime A
      → Verifiers A
      → Doubles V × Runtime A × Verifiers A
  unfolding reset bind_goroutine unbind_goroutine register_subtest arm_final_check
  run_subtest t child goroutine body d w vs =
      let (e, y) = reset t d (register_subtest child t w) in
      let (bound, previous) = bind_goroutine goroutine child y in
      let (f, z, us) = body e bound (arm_final_check goroutine vs).1 in
      (f, unbind_goroutine goroutine previous z, us)
