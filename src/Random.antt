-- ===== src/Random.antt =====
-- random/phrase.go: seeds as phrases.
pub mod Phrases
pub mod Draws
pub mod Source
mod Tests
use testigo.Base.{
  ℕ, zero, suc, ◌+◌, ◌-◌, ◌*◌, ◌/◌, ◌%◌, ◌^◌, Bool, true, false, not, ◌&&◌, List, [], ◌∷◌, ◌++◌,
  map, Option, none, some, length, get_elem?, if◌then◌else◌, ◌==◌, ltb, leb, Outcome, ok, panic,
  ◌>>=◌,
}
use testigo.Base.Int.{ℤ, pos, negsuc, sub_ℕ, ltb_ℤ, pos_part, neg_part}
use testigo.Base.Text.{Text, codes, text_dec, split, join}
use testigo.Base.Dict.{store}
use mathlib.Core.List.{lookup}
use mathlib.Core.Option

unfoldable pub phrase_words : List Text
phrase_words =
    codes "amber"
    ∷ codes "anchor"
    ∷ codes "apple"
    ∷ codes "arrow"
    ∷ codes "aspen"
    ∷ codes "basil"
    ∷ codes "beacon"
    ∷ codes "birch"
    ∷ codes "bison"
    ∷ codes "bloom"
    ∷ codes "brook"
    ∷ codes "cedar"
    ∷ codes "clay"
    ∷ codes "cliff"
    ∷ codes "cloud"
    ∷ codes "clover"
    ∷ codes "comet"
    ∷ codes "coral"
    ∷ codes "cove"
    ∷ codes "crane"
    ∷ codes "crest"
    ∷ codes "dawn"
    ∷ codes "delta"
    ∷ codes "dune"
    ∷ codes "ember"
    ∷ codes "fern"
    ∷ codes "flint"
    ∷ codes "fox"
    ∷ codes "frost"
    ∷ codes "glade"
    ∷ codes "grove"
    ∷ codes "harbor"
    ∷ codes "hazel"
    ∷ codes "heron"
    ∷ codes "ivy"
    ∷ codes "jade"
    ∷ codes "lark"
    ∷ codes "leaf"
    ∷ codes "lily"
    ∷ codes "lotus"
    ∷ codes "maple"
    ∷ codes "marsh"
    ∷ codes "meadow"
    ∷ codes "mist"
    ∷ codes "moss"
    ∷ codes "oak"
    ∷ codes "opal"
    ∷ codes "otter"
    ∷ codes "pebble"
    ∷ codes "pine"
    ∷ codes "quartz"
    ∷ codes "raven"
    ∷ codes "reed"
    ∷ codes "ridge"
    ∷ codes "river"
    ∷ codes "robin"
    ∷ codes "sage"
    ∷ codes "shell"
    ∷ codes "slate"
    ∷ codes "spruce"
    ∷ codes "stone"
    ∷ codes "storm"
    ∷ codes "tide"
    ∷ codes "willow"
    ∷ []

-- The loop that fills `phraseIndex`, from the word i.
unfoldable pub index_words : ℕ → List Text → List (Text × ℕ) → List (Text × ℕ)
unfolding store
index_words i [] m = m
index_words i (w ∷ ws) m = index_words (i + 1) ws (store text_dec w i m)

unfoldable pub phrase_index : List (Text × ℕ)
unfolding index_words phrase_words
phrase_index = index_words 0 phrase_words []

abbrev pub dash : ℕ
dash = b'-'

-- `phraseWords[i]`; the index is below 64 wherever it is used.
unfoldable pub word_at : ℕ → Text
unfolding phrase_words
word_at i = Option.get_or (get_elem? phrase_words i) []

-- The loop of `encodePhrase`: n words of six bits, the lowest first.
unfoldable pub encode_words : ℕ → ℕ → List Text
unfolding word_at
encode_words zero s = []
encode_words (suc n) s = word_at (s % 2 ^ 6) ∷ encode_words n (s / 2 ^ 6)

unfoldable pub encode_phrase : ℕ → Text
unfolding encode_words join
encode_phrase s = join (encode_words 4 (s % 2 ^ 24)) dash

-- One round of the loop of `parsePhrase`: `s<<6 | idx` on 64 bits.
abbrev pub shift_in : Option ℕ → Text → Option ℕ
shift_in none part = none
shift_in (some s) part = elim (lookup text_dec part phrase_index) [
  | none ↦ none
  | some idx ↦ some (s * 2 ^ 6 % 2 ^ 64 + idx)
]

-- The loop runs from the last part to the first.
unfoldable pub parse_words : List Text → Option ℕ
unfolding phrase_index
parse_words [] = some 0
parse_words (part ∷ parts) = shift_in (parse_words parts) part

unfoldable pub parse_phrase : Text → Option ℕ
unfolding split parse_words
parse_phrase p =
    let parts = split p dash in if not (length parts == 4) then none else parse_words parts
