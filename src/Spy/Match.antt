-- ===== src/Spy/Match.antt =====
-- internal/core/spy.go: which recorded calls an expectation matches, and how they are consumed.
-- `deep_equal` stands for reflect.DeepEqual on arguments.
use testigo.Base.{
  ℕ, Bool, true, false, not, ◌||◌, List, [], ◌∷◌, ◌++◌, map, length, if◌then◌else◌, ◌==◌, has,
  ℕ_discrete,
}
use testigo.Base.Text.{Text, is_empty, text_dec}
use testigo.Base.Dict.{store}
use testigo.Spy.{CallRecord, recorded, Expected, anything, matcher, exactly, CalledFunc}
use testigo.Spy.Names.{is_caller_match}
use mathlib.Core.List.{lookup}
use mathlib.Core.Option

-- `map[string][]*CallRecord`: the calls of each method.
abbrev pub CallMap : Type 0 → Type 0
CallMap V = List (Text × List (CallRecord V))

-- Reading a map gives nil for a method that it lacks.
unfoldable pub calls_of : {V : Type 0} → CallMap V → Text → List (CallRecord V)
calls_of calls name = Option.get_or (lookup text_dec name calls) []

abbrev pub no_args : {V : Type 0} → List (Expected V) → Bool
no_args [] = true
no_args (e ∷ es) = false

unfoldable pub filter_by_caller : {V : Type 0} → List (CallRecord V) → Text → List (CallRecord V)
unfolding is_caller_match
filter_by_caller [] component = []
filter_by_caller (c ∷ cs) component =
    let rest = filter_by_caller cs component in
    if is_caller_match component c.caller_component then c ∷ rest else rest

module _ {V : Type 0} (deep_equal : V → V → Bool) where
  unfoldable pub arg_matches : Expected V → V → Bool
  arg_matches anything actual = true
  arg_matches (matcher matches) actual = matches actual
  arg_matches (exactly v) actual = deep_equal v actual

  -- The lengths are compared first; the loop then never runs out of actual arguments.
  unfoldable pub args_match : List (Expected V) → List V → Bool
  unfolding arg_matches
  args_match [] actual = true
  args_match (e ∷ es) [] = false
  args_match (e ∷ es) (v ∷ vs) = if not (arg_matches e v) then false else args_match es vs

  unfoldable pub params_match : List (Expected V) → List V → Bool
  unfolding args_match
  params_match expected actual =
      if not (length expected == length actual) then false else args_match expected actual

  unfoldable pub expected_params_match : List (Expected V) → List V → Bool
  unfolding params_match
  expected_params_match expected actual = no_args expected || params_match expected actual

  unfoldable pub filter_by_params : List (CallRecord V) → List (Expected V) → List (CallRecord V)
  unfolding params_match recorded
  filter_by_params [] args = []
  filter_by_params (c ∷ cs) args =
      let rest = filter_by_params cs args in
      if params_match args (recorded c) then c ∷ rest else rest

  unfoldable pub filter_matching_calls : List (CallRecord V) → CalledFunc V → List (CallRecord V)
  unfolding filter_by_caller filter_by_params
  filter_matching_calls [] a = []
  filter_matching_calls (c ∷ cs) a =
      let by_caller =
        if not (is_empty a.caller_component)
        then filter_by_caller (c ∷ cs) a.caller_component
        else c ∷ cs in
      if not (no_args a.expected_args)
      then filter_by_params by_caller a.expected_args
      else by_caller

-- The loop of `consumeMatchingCalls`: the calls that are not in the set.
unfoldable pub remaining_calls : {V : Type 0} → List ℕ → List (CallRecord V) → List (CallRecord V)
unfolding has
remaining_calls consumed [] = []
remaining_calls consumed (c ∷ cs) =
    let rest = remaining_calls consumed cs in
    if not (has ℕ_discrete c.seq consumed) then c ∷ rest else rest

unfoldable pub consume_matching_calls :
    {V : Type 0} → CallMap V → Text → List (CallRecord V) → CallMap V
unfolding remaining_calls calls_of store
consume_matching_calls calls name [] = calls
consume_matching_calls calls name (c ∷ cs) =
    store text_dec name (remaining_calls (map (λ k. k.seq) (c ∷ cs)) (calls_of calls name)) calls

-- The calls by their method, in the order of the list.
unfoldable pub group_from : {V : Type 0} → CallMap V → List (CallRecord V) → CallMap V
unfolding calls_of store
group_from m [] = m
group_from m (c ∷ cs) =
    group_from (store text_dec c.callee_method (calls_of m c.callee_method ++ c ∷ []) m) cs

unfoldable pub calls_by_func : {V : Type 0} → List (CallRecord V) → CallMap V
unfolding group_from
calls_by_func calls = group_from [] calls
