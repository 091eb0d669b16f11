-- ===== src/Spy/Selecting.antt =====
-- internal/core/spy.go: the loops over calls as filters by one test.
use testigo.Base.{
  ℕ, Bool, true, false, not, ◌&&◌, ◌||◌, List, [], ◌∷◌, ◌++◌, map, if◌then◌else◌, has, Unique,
  select, select-select, is_yes, ite, ℕ_discrete, ◌≡◌, refl, sym, ap, ◌∙◌, arith, inl, inr,
  Bool-cases, append-nil, append_assoc,
}
use testigo.Base.Text.{Text, is_empty, text_dec}
use testigo.Base.Dict.{store, lookup-store}
use testigo.Spy.{CallRecord, recorded, Expected, CalledFunc}
use testigo.Spy.Names.{is_caller_match}
use testigo.Spy.Match.{
  CallMap, calls_of, no_args, params_match, filter_by_caller, filter_by_params,
  filter_matching_calls, remaining_calls, consume_matching_calls, group_from, calls_by_func,
}
use mathlib.Core.List.{lookup}

module _ {A : Type 0} where
  -- Equal tests select the same elements.
  pub select_congr : (p q : A → Bool) (l : List A) → ((a : A) → p a ≡ q a) → select p l ≡ select q l
  select_congr p q [] h = refl
  select_congr p q (a ∷ l) h = ground (arith, h a, select_congr p q l h)

  pub select-not_of_nil :
      (p : A → Bool) (l : List A) → select p l ≡ [] → select (λ a. not (p a)) l ≡ l
  select-not_of_nil p [] h = refl
  select-not_of_nil p (a ∷ l) h = ground (arith, select-not_of_nil p l)

-- A filter that is left out where there is nothing to filter by.
when-select :
    {A : Type 0} (b : Bool) (p : A → Bool) (l : List A)
    → (if not b then select p l else l) ≡ select (λ a. b || p a) l
when-select false p l = refl
when-select true p [] = refl
when-select true p (a ∷ l) = ap (◌∷◌ a) (when-select true p l)

-- The record is one of the method's.
abbrev pub named : {V : Type 0} → Text → CallRecord V → Bool
named name c = is_yes (text_dec name c.callee_method)

module _ {V : Type 0} (deep_equal : V → V → Bool) where
  -- The caller and the arguments of a call fit an expectation.
  abbrev pub fits : CalledFunc V → CallRecord V → Bool
  fits a c =
      (is_empty a.caller_component || is_caller_match a.caller_component c.caller_component)
      && (no_args a.expected_args || params_match deep_equal a.expected_args (recorded c))

  -- The call is one that the expectation names.
  abbrev pub matches : CalledFunc V → CallRecord V → Bool
  matches a c = named a.func_name c && fits a c

filter_by_caller-select :
    {V : Type 0} (cs : List (CallRecord V)) (t : Text)
    → filter_by_caller cs t ≡ select (λ c. is_caller_match t c.caller_component) cs
unfolding filter_by_caller
filter_by_caller-select [] t = refl
filter_by_caller-select (c ∷ cs) t = ground (arith, filter_by_caller-select cs t)

module _ {V : Type 0} (deep_equal : V → V → Bool) where
  filter_by_params-select :
      (cs : List (CallRecord V)) (args : List (Expected V))
      → filter_by_params deep_equal cs args
        ≡ select (λ c. params_match deep_equal args (recorded c)) cs
  unfolding filter_by_params
  filter_by_params-select [] args = refl
  filter_by_params-select (c ∷ cs) args = ground (arith, filter_by_params-select cs args)

  -- The calls that an expectation matches are those that fit, in order.
  pub filter_matching_calls-select :
      (cs : List (CallRecord V)) (a : CalledFunc V)
      → filter_matching_calls deep_equal cs a ≡ select (fits deep_equal a) cs
  unfolding filter_matching_calls
  filter_matching_calls-select [] a = refl
  filter_matching_calls-select (c ∷ cs) a =
      rw (filter_by_caller-select, filter_by_params-select, when-select, when-select)
        (select-select
          (λ k. no_args a.expected_args || params_match deep_equal a.expected_args (recorded k))
          (λ k.
            is_empty a.caller_component || is_caller_match a.caller_component k.caller_component)
          (c ∷ cs))

calls_of-store :
    {V : Type 0} (f g : Text) (cs : List (CallRecord V)) (m : CallMap V)
    → calls_of (store text_dec f cs m) g ≡ ite (text_dec g f) cs (calls_of m g)
unfolding calls_of
calls_of-store f g cs m = ground (arith, lookup-store text_dec f g cs m)

calls_of-group_from :
    {V : Type 0} (m : CallMap V) (cs : List (CallRecord V)) (f : Text)
    → calls_of (group_from m cs) f ≡ calls_of m f ++ select (named f) cs
unfolding group_from
calls_of-group_from m [] f = sym (append-nil _)
calls_of-group_from m (c ∷ cs) f =
    let g = c.callee_method in
    ground (
      arith,
      calls_of-group_from (store text_dec g (calls_of m g ++ c ∷ []) m) cs f,
      calls_of-store g f (calls_of m g ++ c ∷ []) m,
      append_assoc (calls_of m g) (c ∷ []) (select (named f) cs),
    )

-- Grouping keeps the calls of a method, in order.
pub calls_of-calls_by_func :
    {V : Type 0} (cs : List (CallRecord V)) (f : Text)
    → calls_of (calls_by_func cs) f ≡ select (named f) cs
unfolding calls_by_func calls_of lookup
calls_of-calls_by_func cs f = calls_of-group_from [] cs f

module _ {V : Type 0} where
  abbrev pub seqs : List (CallRecord V) → List ℕ
  seqs = map (λ c. c.seq)

  has-seqs-select :
      (p : CallRecord V → Bool) (n : ℕ) (l : List (CallRecord V))
      → has ℕ_discrete n (seqs l) ≡ false
      → has ℕ_discrete n (seqs (select p l)) ≡ false
  unfolding has
  has-seqs-select p n [] h = refl
  has-seqs-select p n (c ∷ l) h = ground (arith, has-seqs-select p n l)

  pub Unique-select :
      (p : CallRecord V → Bool) (l : List (CallRecord V))
      → Unique ℕ_discrete (seqs l)
      → Unique ℕ_discrete (seqs (select p l))
  unfolding has
  Unique-select p [] u = tt
  Unique-select p (c ∷ l) u = ground (arith, Unique-select p l, has-seqs-select p c.seq l)

  remaining_calls-fresh :
      (n : ℕ) (s : List ℕ) (l : List (CallRecord V))
      → has ℕ_discrete n (seqs l) ≡ false
      → remaining_calls (n ∷ s) l ≡ remaining_calls s l
  unfolding has remaining_calls
  remaining_calls-fresh n s [] h = refl
  remaining_calls-fresh n s (c ∷ l) h = ground (arith, remaining_calls-fresh n s l)

  -- Consuming the calls that pass a test leaves the others, if no two records are one.
  pub remaining_calls-select :
      (p : CallRecord V → Bool) (l : List (CallRecord V))
      → Unique ℕ_discrete (seqs l)
      → remaining_calls (seqs (select p l)) l ≡ select (λ c. not (p c)) l
  unfolding has remaining_calls
  remaining_calls-select p [] u = refl
  remaining_calls-select p (c ∷ l) u = elim (Bool-cases (p c)) [
    | inl hit ↦ simp hit (
        ground
          (arith, remaining_calls-fresh c.seq (seqs (select p l)) l, remaining_calls-select p l))
    | inr miss ↦ simp miss (ground (arith, has-seqs-select p c.seq l, remaining_calls-select p l))
  ]

  -- What a consumption leaves of each method.
  pub calls_of-consume :
      (m : CallMap V) (f g : Text) (p : CallRecord V → Bool)
      → Unique ℕ_discrete (seqs (calls_of m f))
      → calls_of (consume_matching_calls m f (select p (calls_of m f))) g
        ≡ ite (text_dec g f) (select (λ c. not (p c)) (calls_of m f)) (calls_of m g)
  unfolding consume_matching_calls
  calls_of-consume m f g p u = go (select p (calls_of m f)) refl
    where
      go :
          (cs : List (CallRecord V))
          → select p (calls_of m f) ≡ cs
          → calls_of (consume_matching_calls m f cs) g
            ≡ ite (text_dec g f) (select (λ c. not (p c)) (calls_of m f)) (calls_of m g)
      go [] e = ground (arith, select-not_of_nil p (calls_of m f) e)
      go (c ∷ cs) e =
          calls_of-store f g _ m
          ∙ ap (λ s. ite (text_dec g f) (remaining_calls (seqs s) (calls_of m f)) (calls_of m g))
              (sym e)
          ∙ ap (λ s. ite (text_dec g f) s (calls_of m g))
              (remaining_calls-select p (calls_of m f) u)
