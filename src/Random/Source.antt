-- ===== src/Random/Source.antt =====
-- random/random.go: the state of the package and its draws. The generator of math/rand/v2 is a
-- parameter: a type of states, the state of a seed, and the draw below a bound.
use testigo.Base.{
  ℕ, zero, suc, ◌+◌, ◌-◌, ◌*◌, ◌^◌, Bool, true, List, [], ◌∷◌, ◌++◌, Option, none, some, length,
  get_elem?, if◌then◌else◌, ◌==◌, leb, Outcome, ok, panic,
}
use testigo.Base.Int.{ℤ, pos, negsuc, sub_ℕ, ltb_ℤ, pos_part, neg_part}
use testigo.Base.Text.{Text, codes, join}
use mathlib.Core.Option
use testigo.Random.{phrase_words, word_at, encode_phrase, parse_phrase}

-- a + n
abbrev pub add_ℕ : ℤ → ℕ → ℤ
add_ℕ (pos m) n = pos (m + n)
add_ℕ (negsuc m) n = sub_ℕ n (m + 1)

-- b - a where a is at most b.
abbrev pub span : ℤ → ℤ → ℕ
span a b = (pos_part b + neg_part a) - (pos_part a + neg_part b)

unfoldable pub first_names : List Text
first_names =
    codes "Ada"
    ∷ codes "Alan"
    ∷ codes "Grace"
    ∷ codes "Linus"
    ∷ codes "Dennis"
    ∷ codes "Ken"
    ∷ codes "Barbara"
    ∷ codes "Margaret"
    ∷ codes "Edsger"
    ∷ codes "Tony"
    ∷ codes "Donald"
    ∷ codes "Niklaus"
    ∷ []

unfoldable pub last_names : List Text
last_names =
    codes "Lovelace"
    ∷ codes "Turing"
    ∷ codes "Hopper"
    ∷ codes "Torvalds"
    ∷ codes "Ritchie"
    ∷ codes "Thompson"
    ∷ codes "Liskov"
    ∷ codes "Hamilton"
    ∷ codes "Dijkstra"
    ∷ codes "Hoare"
    ∷ codes "Knuth"
    ∷ codes "Wirth"
    ∷ []

unfoldable pub words : List Text
words =
    codes "alpha"
    ∷ codes "bravo"
    ∷ codes "charlie"
    ∷ codes "delta"
    ∷ codes "echo"
    ∷ codes "foxtrot"
    ∷ codes "golf"
    ∷ codes "hotel"
    ∷ codes "india"
    ∷ codes "juliet"
    ∷ codes "kilo"
    ∷ codes "lima"
    ∷ codes "mike"
    ∷ codes "november"
    ∷ []

-- An hour, and a year of 365 days.
abbrev pub date_margin : ℕ
date_margin = 3600 * 10 ^ 9

abbrev pub date_span : ℕ
date_span = 365 * 24 * 3600 * 10 ^ 9

-- a - n
abbrev pub sub_from : ℤ → ℕ → ℤ
sub_from (pos m) n = sub_ℕ m n
sub_from (negsuc m) n = negsuc (m + n)

-- The state of the package: `seed`, `seedFromEnv`, `gen` and `drawn`.
pub record Source (G : Type 0) : Type 0 where
  pub seed : ℕ
  pub seed_from_env : Bool
  pub gen : G
  pub drawn : Bool

-- A program that draws: from a state to a value and a state.
abbrev pub Drawing : Type 0 → Type 0 → Type 0
Drawing G A = Source G → A × Source G

module _ {G : Type 0} (new_gen : ℕ → G) (int_n : G → ℕ → ℕ × G) where
  unfoldable pub set_seed : ℕ → Source G → Outcome (Source G)
  set_seed s w =
      if w.seed_from_env
      then ok w
      else if w.drawn
      then panic
      else ok (record w { seed = s; gen = new_gen s })

  -- None is the error.
  unfoldable pub set_seed_phrase : Text → Source G → Option (Outcome (Source G))
  unfolding parse_phrase set_seed
  set_seed_phrase phrase w = Option.map (λ s. set_seed s w) (parse_phrase phrase)

  unfoldable pub phrase_of_run : Source G → Text
  unfolding encode_phrase
  phrase_of_run w = encode_phrase w.seed

  unfoldable pub replay : {A : Type 0} → ℕ → Drawing G A → Drawing G A
  replay s fn w = let (a, z) = fn (record w { gen = new_gen s }) in (a, record z { gen = w.gen })

  unfoldable pub draw : ℕ → Drawing G ℕ
  draw n w = let (k, g) = int_n w.gen n in (k, record w { gen = g; drawn = true })

  -- `IntBetween`; IntN panics where the number of values does not fit an int.
  unfoldable pub int_between : ℤ → ℤ → Source G → Outcome (ℤ × Source G)
  unfolding draw
  int_between min max w =
      if ltb_ℤ max min
      then panic
      else if leb (2 ^ 63) (span min max + 1)
      then panic
      else (let (k, z) = draw (span min max + 1) w in ok (add_ℕ min k, z))

  -- `ID`
  unfoldable pub id : Drawing G ℕ
  unfolding draw
  id w = let (k, z) = draw 1000000 w in (1 + k, z)

  unfoldable pub pick : {A : Type 0} → List A → Source G → Outcome (A × Source G)
  unfolding draw
  pick [] w = panic
  pick (a ∷ options) w =
      let (k, z) = draw (length (a ∷ options)) w in
      elim (get_elem? (a ∷ options) k) [ some b ↦ ok (b, z) | none ↦ panic ]

  -- `Text`: n words of the vocabulary, drawn one after the other.
  unfoldable pub draw_words : ℕ → Drawing G (List Text)
  unfolding draw word_at
  draw_words zero w = ([], w)
  draw_words (suc n) w =
      let (k, z) = draw (length phrase_words) w in
      let (ws, y) = draw_words n z in (word_at k ∷ ws, y)

  -- `Int`, and `Bool`
  unfoldable pub int : Drawing G ℕ
  unfolding draw
  int w = draw 1000000 w

  unfoldable pub bool : Drawing G Bool
  unfolding draw
  bool w = let (k, z) = draw 2 w in (k == 1, z)

  -- An element of a table of words.
  unfoldable pub draw_from : List Text → Drawing G Text
  unfolding draw
  draw_from table w =
      let (k, z) = draw (length table) w in (Option.get_or (get_elem? table k) [], z)

  -- n words of a table, drawn one after the other.
  unfoldable pub draw_parts : ℕ → List Text → Drawing G (List Text)
  unfolding draw_from
  draw_parts zero table w = ([], w)
  draw_parts (suc n) table w =
      let (t, z) = draw_from table w in let (ts, y) = draw_parts n table z in (t ∷ ts, y)

  unfoldable pub word : Drawing G Text
  unfolding draw_from words
  word w = draw_from words w

  unfoldable pub words_of : ℕ → Drawing G Text
  unfolding draw_parts words join
  words_of n w = let (ts, z) = draw_parts n words w in (join ts b' ', z)

  unfoldable pub first_name : Drawing G Text
  unfolding draw_from first_names
  first_name w = draw_from first_names w

  unfoldable pub last_name : Drawing G Text
  unfolding draw_from last_names
  last_name w = draw_from last_names w

  unfoldable pub name : Drawing G Text
  unfolding first_name last_name
  name w = let (first, z) = first_name w in let (last, y) = last_name z in (first ++ b' ' ∷ last, y)

  -- `Path`: two or three words behind slashes.
  unfoldable pub path : Drawing G Text
  unfolding draw draw_parts words join
  path w =
      let (k, z) = draw 2 w in
      let (parts, y) = draw_parts (2 + k) words z in (b'/' ∷ join parts b'/', y)

  -- `String`: n letters.
  unfoldable pub string : ℕ → Drawing G Text
  unfolding draw
  string zero w = ([], w)
  string (suc n) w = let (k, z) = draw 26 w in let (t, y) = string n z in ((b'a' + k) ∷ t, y)

  -- Times are integers of nanoseconds. `int64_n` draws below a bound in the way of `draw`.
  -- Where the span does not fit a Duration, Sub gives the largest one, and the next number wraps around.
  unfoldable pub date_between : ℤ → ℤ → Source G → Outcome (ℤ × Source G)
  unfolding draw
  date_between start end_ w =
      if ltb_ℤ end_ start
      then panic
      else if leb (span start end_) 0
      then ok (start, w)
      else if leb (2 ^ 63) (span start end_ + 1)
      then panic
      else (let (k, z) = draw (span start end_ + 1) w in ok (add_ℕ start k, z))

  unfoldable pub date_before : ℤ → Drawing G ℤ
  unfolding draw
  date_before ref w = let (k, z) = draw date_span w in (sub_from ref (date_margin + k), z)

  unfoldable pub date_after : ℤ → Drawing G ℤ
  unfolding draw
  date_after ref w = let (k, z) = draw date_span w in (add_ℕ ref (date_margin + k), z)
