-- ===== src/Asserts/Tests.antt =====
-- internal/core: the theorems on comparisons at concrete values.
use testigo.Base.{
  ℕ, ◌≤◌, Bool, true, false, List, none, some, [], ◌∷◌, map, length, is_yes, ℕ_discrete, ◌≡◌, ◌↔◌,
  refl,
}
use testigo.Base.Text.{Text, codes, same, is_empty, join}
use testigo.Base.Trim.{trim_space, index}
use testigo.Calls.{Verifiers}
use testigo.Asserts.Reflect.{Kind, Reflect}
use testigo.Asserts.Source.{Site, call_arg_expression, split_args, assignment_rhs}
use testigo.Asserts.Args.{
  Closes, done, plain, comma, opening, closing, literal, call_arg_expression-written,
}
use testigo.Asserts.Messages.{Verdict}
use testigo.Asserts.Values.{Asserting, passes_on}
use testigo.Asserts.Behavior.{subset_at}
use testigo.Asserts.{diff_lines, elements_match}
use testigo.Asserts.Lcs.{IsSubseq, ends, skips, takes}
use testigo.Asserts.Diff.{got_side, want_side, kept_lines, diff_lines-sides, diff_lines-longest}
use testigo.Asserts.Elements.{count, elements_match-count}

abbrev got_lines : List Text
got_lines = codes "a" ∷ codes "b" ∷ codes "c" ∷ []

abbrev want_lines : List Text
want_lines = codes "b" ∷ codes "x" ∷ codes "c" ∷ []

diff_lines-sides_example :
    (got_side (diff_lines got_lines want_lines) ≡ got_lines)
    × (want_side (diff_lines got_lines want_lines) ≡ want_lines)
diff_lines-sides_example = diff_lines-sides got_lines want_lines

diff_lines-longest_example :
    IsSubseq (kept_lines (diff_lines got_lines want_lines)) got_lines
    × (IsSubseq (kept_lines (diff_lines got_lines want_lines)) want_lines
        × (2 ≤ length (kept_lines (diff_lines got_lines want_lines))))
diff_lines-longest_example =
    diff_lines-longest got_lines want_lines (codes "b" ∷ codes "c" ∷ [])
      (skips (codes "a") (takes (codes "b") (takes (codes "c") ends)))
      (takes (codes "b") (skips (codes "x") (takes (codes "c") ends)))

-- The equality of numbers.
abbrev same_number : ℕ → ℕ → Bool
same_number u v = is_yes (ℕ_discrete u v)

elements_match-count_example :
    (elements_match same_number (1 ∷ 2 ∷ 1 ∷ []) (2 ∷ 1 ∷ 1 ∷ []) ≡ true)
    ↔ ((u : ℕ) → count ℕ_discrete u (1 ∷ 2 ∷ 1 ∷ []) ≡ count ℕ_discrete u (2 ∷ 1 ∷ 1 ∷ []))
elements_match-count_example =
    elements_match-count ℕ_discrete same_number (λ u v. refl) (1 ∷ 2 ∷ 1 ∷ []) (2 ∷ 1 ∷ 1 ∷ [])

-- The diff drops the first line and adds the line x between the two that stay.
kept_here : kept_lines (diff_lines got_lines want_lines) ≡ codes "b" ∷ codes "c" ∷ []
unfolding diff_lines
kept_here = refl

-- A world of texts only.
abbrev texts : Reflect Text ℕ
texts = record {
  type_of = λ v. 0;
  kind_of = λ t. Kind.string;
  same_type = λ t u. true;
  type_string = λ t. codes "string";
  size = λ t. 16;
  elem = λ t. 0;
  key_type = λ t. 0;
  convertible = λ t u. true;
  assignable = λ t u. true;
  convert = λ v t. v;
  deep_equal = λ a b. elim a [
    | none ↦ elim b [ none ↦ true | some w ↦ false ]
    | some v ↦ elim b [ none ↦ false | some w ↦ same v w ]
  ];
  same_value = λ v w. same v w;
  is_nil = λ v. false;
  is_zero = λ v. is_empty v;
  len = λ v. length v;
  is_string = λ v. true;
  text = λ v. v;
  pointer = λ v. 0;
  elems = λ v. [];
  map_keys = λ v. [];
  hashable = λ v. true;
  map_index = λ m k. none;
  sprint = λ v. [];
  quoted = λ s. s;
  sprint_int = λ n. [];
  error_text = λ v. none;
  errors_is = λ a b. false;
  errors_as = λ a b. false;
}

-- A call on the second line of a file.
abbrev call_site : Site
call_site = record {
  known = true;
  lines = codes "x := 1" ∷ codes "\tassert.Equal(t, f(a, b), \"x,y\")" ∷ codes "}" ∷ [];
  line = 2;
}

abbrev asserting : Asserting Text ℕ
asserting = record {
  reflect = texts;
  format = λ v. [];
  diff_values = λ a b. [];
  show_source = false;
  site = call_site;
  goroutine = 0;
}

abbrev no_verifiers : Verifiers ℕ
no_verifiers = []

-- A world of lists: a text stands for the slice of its bytes, each a text.
abbrev lists : Reflect Text ℕ
lists = record texts { kind_of = λ t. Kind.slice; elems = λ v. map (λ c. some (c ∷ [])) v }

abbrev on_lists : Asserting Text ℕ
on_lists = record asserting { reflect = lists }

-- Both bytes are found.
ca_in_abc :
    passes_on (subset_at on_lists (λ l. []) (some (codes "abc")) (some (codes "ca"))) no_verifiers
    ≡ true
unfolding subset_at same testigo.Asserts.subset_missing
ca_in_abc = refl

-- Two maps with keys of types that do not fit: Subset panics.
abbrev maps : Reflect Text ℕ
maps = record texts {
  kind_of = λ t. Kind.map;
  assignable = λ t u. false;
  map_keys = λ v. some v ∷ [];
}

maps_panic :
    (subset_at
      (record asserting { reflect = maps })
      (λ l. [])
      (some (codes "a"))
      (some (codes "b"))
      no_verifiers).1
    ≡ Verdict.panics
unfolding subset_at
maps_panic = refl

call-Closes : Closes 0 (codes " f(a, b)")
call-Closes = plain refl refl (
    plain refl refl (
      opening refl
        (plain refl refl (comma (plain refl refl (plain refl refl (closing refl done)))))))

literal-Closes : Closes 0 (codes " \"x,y\"")
literal-Closes =
    plain refl refl
      (literal (codes "x,y") [] refl ((refl, refl), ((refl, refl), ((refl, refl), tt))) refl done)

call_arg_expression-written_example :
    call_arg_expression call_site (codes "Equal") 1 ≡ trim_space (codes " f(a, b)")
unfolding index join
call_arg_expression-written_example =
    call_arg_expression-written call_site (codes "Equal") (codes "t")
      (codes " f(a, b)" ∷ codes " \"x,y\"" ∷ []) (codes "\n}") 8 1 (codes " f(a, b)") refl refl refl
      (plain refl refl done, (call-Closes, (literal-Closes, tt))) refl

-- A literal that ends in an escaped backslash is not closed for the code: no expression is found.
escaped_backslash_example : split_args (codes "t, \"a\\\\\", 2)") ≡ []
unfolding split_args
escaped_backslash_example = refl

rhs_example : assignment_rhs (codes "v, err := load(1)") (codes "err") ≡ codes "load(1)"
unfolding assignment_rhs
rhs_example = refl
