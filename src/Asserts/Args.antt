-- ===== src/Asserts/Args.antt =====
-- internal/core/asserts.go: which expression callArgExpression finds. The arguments of a call are
-- described by the shape of their texts: brackets that close, literals, and commas in brackets only.
use testigo.Base.{
  ℕ, suc, ◌+◌, Bool, true, false, not, ◌&&◌, ◌||◌, List, [], ◌∷◌, ◌++◌, some, length, get_elem?,
  drop, All, ◌==◌, ◌≡◌, refl, ap, ◌∙◌, sym, arith, append_assoc, append-nil,
}
use testigo.Base.Int.{ℤ, pos}
use testigo.Base.Text.{Text, codes}
use testigo.Base.Trim.{trim_space, index}
use testigo.Asserts.Source.{
  code, in_quote, ends_quote, is_quote, is_open, is_close, split_args_from, split_args, Site,
  in_lines, snippet, call_arg_expression,
}
use mathlib.Core.Option

-- A byte that stands for nothing but itself, outside of brackets and literals.
abbrev pub is_plain : ℕ → Bool
is_plain r = not (is_quote r || is_open r || is_close r)

-- A byte that neither ends a literal in this quote nor hides its end.
abbrev pub IsInside : ℕ → ℕ → Type 0
IsInside quote r = ((r == quote) ≡ false) × ((r == 92) ≡ false)

-- A text inside `depth` brackets that closes all of them; a comma stands in brackets only, and a
-- literal holds no backslash.
pub data Closes : ℕ → Text → Type 0 where
  done : Closes 0 []
  plain :
      {d r : ℕ} {s : Text} → is_plain r ≡ true → (r == b',') ≡ false → Closes d s → Closes d (r ∷ s)
  comma : {d : ℕ} {s : Text} → Closes (suc d) s → Closes (suc d) (b',' ∷ s)
  opening : {d r : ℕ} {s : Text} → is_open r ≡ true → Closes (suc d) s → Closes d (r ∷ s)
  closing : {d r : ℕ} {s : Text} → is_close r ≡ true → Closes d s → Closes (suc d) (r ∷ s)
  literal :
      {d q : ℕ} {t : Text} (body s : Text)
      → is_quote q ≡ true
      → All (IsInside q) body
      → t ≡ q ∷ (body ++ q ∷ s)
      → Closes d s
      → Closes d t

-- The source of the arguments of a call, from behind its opening parenthesis.
abbrev pub written : Text → List Text → Text → Text
written a [] rest = a ++ b')' ∷ rest
written a (b ∷ as_) rest = a ++ b',' ∷ written b as_ rest

ends_at : (q previous : ℕ) → (previous == 92) ≡ false → ends_quote q previous q ≡ true
ends_at q previous h = ground arith

goes_on : (q previous r : ℕ) → (r == q) ≡ false → ends_quote q previous r ≡ false
goes_on q previous r h = ground arith

snoc_append : (arg : Text) (r : ℕ) (s : Text) → (arg ++ r ∷ []) ++ s ≡ arg ++ r ∷ s
snoc_append arg r s = append_assoc arg (r ∷ []) s

-- A literal is read as a part of the argument.
literal-split_args_from :
    (q previous : ℕ) (d : ℤ) (arg body s : Text)
    → All (IsInside q) body
    → (previous == 92) ≡ false
    → split_args_from (in_quote q previous) d arg (body ++ q ∷ s)
      ≡ split_args_from code d (arg ++ (body ++ q ∷ [])) s
unfolding split_args_from
literal-split_args_from q previous d arg [] s inside prev =
    rw (ends_at q previous prev, split_args_from) refl
literal-split_args_from q previous d arg (r ∷ body) s inside prev =
    rw (goes_on q previous r inside.0.0, split_args_from)
      (literal-split_args_from q r d (arg ++ r ∷ []) body s inside.1 inside.0.1
        ∙ ap (λ t. split_args_from code d t s) (snoc_append arg r (body ++ q ∷ [])))

opens :
    (q : ℕ) (d : ℤ) (arg s : Text)
    → is_quote q ≡ true
    → split_args_from code d arg (q ∷ s) ≡ split_args_from (in_quote q q) d (arg ++ q ∷ []) s
unfolding split_args_from
opens q d arg s l = rw (l, split_args_from) refl

not_backslash : (q : ℕ) → is_quote q ≡ true → (q == 92) ≡ false
not_backslash q l = ground arith

regroup :
    (arg : Text) (q : ℕ) (body s : Text)
    → ((arg ++ q ∷ []) ++ (body ++ q ∷ [])) ++ s ≡ arg ++ (q ∷ (body ++ q ∷ s))
regroup arg q body s = simp append_assoc

-- A text that closes its brackets is read as a part of the argument.
Closes-split_args_from :
    {d : ℕ} {t : Text}
    → Closes d t
    → (arg rest : Text)
    → split_args_from code (pos d) arg (t ++ rest) ≡ split_args_from code (pos 0) (arg ++ t) rest
unfolding split_args_from
Closes-split_args_from done arg rest =
    ap (λ t. split_args_from code (pos 0) t rest) (sym (append-nil arg))
Closes-split_args_from (plain {d} {r} {s} p c k) arg rest =
    ground (arith, Closes-split_args_from k (arg ++ r ∷ []) rest, snoc_append arg r s)
Closes-split_args_from (comma {d} {s} k) arg rest =
    ground (arith, Closes-split_args_from k (arg ++ b',' ∷ []) rest, snoc_append arg b',' s)
Closes-split_args_from (opening {d} {r} {s} o k) arg rest =
    ground (arith, Closes-split_args_from k (arg ++ r ∷ []) rest, snoc_append arg r s)
Closes-split_args_from (closing {d} {r} {s} c k) arg rest =
    ground (arith, Closes-split_args_from k (arg ++ r ∷ []) rest, snoc_append arg r s)
Closes-split_args_from (literal {d} {q} {t} body s l i e k) arg rest = rw e (
    opens q (pos d) arg ((body ++ q ∷ s) ++ rest) l
    ∙ ap (λ t. split_args_from (in_quote q q) (pos d) (arg ++ q ∷ []) t)
        (append_assoc body (q ∷ s) rest)
    ∙ literal-split_args_from q q (pos d) (arg ++ q ∷ []) body (s ++ rest) i (not_backslash q l)
    ∙ Closes-split_args_from k ((arg ++ q ∷ []) ++ (body ++ q ∷ [])) rest
    ∙ ap (λ t. split_args_from code (pos 0) t rest) (regroup arg q body s))

-- The arguments of a call are split into what was written.
split_args_from-written :
    (a : Text) (as_ : List Text) (rest : Text)
    → Closes 0 a
    → All (Closes 0) as_
    → split_args_from code (pos 0) [] (written a as_ rest) ≡ some (a ∷ as_)
unfolding split_args_from
split_args_from-written a [] rest k ks = Closes-split_args_from k [] (b')' ∷ rest)
split_args_from-written a (b ∷ as_) rest k ks =
    Closes-split_args_from k [] (b',' ∷ written b as_ rest)
    ∙ ap (Option.map (λ args. a ∷ args)) (split_args_from-written b as_ rest ks.0 ks.1)

-- The expression found for an argument of a call is the text of that argument, trimmed, wherever the
-- call's name first stands in the five lines from the call site on, if the site is known and its
-- line is read, and every argument closes its brackets, has its other commas in brackets or literals
-- and holds no backslash in a literal.
pub call_arg_expression-written :
    (site : Site) (fn_name a : Text) (as_ : List Text) (rest : Text) (place k : ℕ) (arg : Text)
    → (site.known && in_lines site) ≡ true
    → index (snippet site) (fn_name ++ codes "(") ≡ some place
    → drop (place + length fn_name + 1) (snippet site) ≡ written a as_ rest
    → All (Closes 0) (a ∷ as_)
    → get_elem? (a ∷ as_) k ≡ some arg
    → call_arg_expression site fn_name k ≡ trim_space arg
unfolding call_arg_expression split_args
call_arg_expression-written site fn_name a as_ rest place k arg known found text closes there =
    rw (known, found, text, split_args_from-written a as_ rest closes.0 closes.1, there) refl
