-- ===== src/Runtime/Coverage.antt =====
-- internal/core/coverage.go: the coverage of the methods seen. Range gives the entries of a map in some
-- order, here that of the dictionary; the sort by name leaves one order, since a name stands once.
use testigo.Base.{
  ℕ, ◌+◌, Bool, true, false, ◌&&◌, ◌||◌, List, [], ◌∷◌, length, if◌then◌else◌, ◌==◌, ltb, is_some,
  ◌≡◌, refl, arith, ◌∙◌,
}
use testigo.Base.Text.{Text, text_dec}
use testigo.Runtime.{Runtime}
use mathlib.Core.List.{lookup}

pub record MethodCoverage : Type 0 where
  pub method : Text
  pub calls : ℕ
  pub asserted : Bool

-- `s < t` on strings.
unfoldable pub text_lt : Text → Text → Bool
text_lt s [] = false
text_lt [] (b ∷ t) = true
text_lt (a ∷ s) (b ∷ t) = ltb a b || ((a == b) && text_lt s t)

-- An insertion before the first method with a greater name.
unfoldable pub put_method : MethodCoverage → List MethodCoverage → List MethodCoverage
unfolding text_lt
put_method m [] = m ∷ []
put_method m (n ∷ ns) = if text_lt m.method n.method then m ∷ n ∷ ns else n ∷ put_method m ns

-- The loop of Range, with the sort.
unfoldable pub coverage_from : List (Text × Unit {0}) → List (Text × ℕ) → List MethodCoverage
unfolding put_method
coverage_from asserted [] = []
coverage_from asserted ((key, count) ∷ observed) =
    put_method
      (record { method = key; calls = count; asserted = is_some (lookup text_dec key asserted) })
      (coverage_from asserted observed)

module _ {V : Type 0} where
  unfoldable pub coverage : Runtime V → List MethodCoverage
  unfolding coverage_from
  coverage w = coverage_from w.asserted_methods w.observed_methods

  unfoldable pub reset_coverage : Runtime V → Runtime V
  reset_coverage w = record w { observed_methods = []; asserted_methods = [] }

-- The methods verified, of a report.
unfoldable pub verified_count : List MethodCoverage → ℕ
verified_count [] = 0
verified_count (m ∷ ms) = if m.asserted then verified_count ms + 1 else verified_count ms

-- How often the calls of a report add up, and those of the map.
abbrev pub reported_calls : List MethodCoverage → ℕ
reported_calls [] = 0
reported_calls (m ∷ ms) = m.calls + reported_calls ms

abbrev pub observed_calls : List (Text × ℕ) → ℕ
observed_calls [] = 0
observed_calls ((key, count) ∷ observed) = count + observed_calls observed

put_method-counts :
    (m : MethodCoverage) (ns : List MethodCoverage)
    → (length (put_method m ns) ≡ length ns + 1)
      × (reported_calls (put_method m ns) ≡ m.calls + reported_calls ns)
unfolding put_method
put_method-counts m [] = (omega arith, omega arith)
put_method-counts m (n ∷ ns) = ground (arith, put_method-counts m ns)

coverage_from-counts :
    (asserted : List (Text × Unit {0})) (observed : List (Text × ℕ))
    → (length (coverage_from asserted observed) ≡ length observed)
      × (reported_calls (coverage_from asserted observed) ≡ observed_calls observed)
unfolding coverage_from
coverage_from-counts asserted [] = (refl, refl)
coverage_from-counts asserted ((key, count) ∷ observed) =
    let m : MethodCoverage = record {
      method = key;
      calls = count;
      asserted = is_some (lookup text_dec key asserted);
    } in
    let (n, calls) = put_method-counts m (coverage_from asserted observed) in
    let (n', calls') = coverage_from-counts asserted observed in
    (n ∙ omega (arith, n'), calls ∙ omega (arith, calls'))

-- The coverage has one entry for each method observed, and its calls add up to those observed.
pub coverage-counts :
    {V : Type 0} (w : Runtime V)
    → (length (coverage w) ≡ length w.observed_methods)
      × (reported_calls (coverage w) ≡ observed_calls w.observed_methods)
unfolding coverage
coverage-counts w = coverage_from-counts w.asserted_methods w.observed_methods
