-- ===== src/Random/Phrases.antt =====
-- random/phrase.go: a phrase and its seed determine each other.
use testigo.Base.{
  ℕ, zero, suc, ◌+◌, ◌*◌, ◌/◌, ◌%◌, ◌^◌, ◌<◌, ◌≤◌, Bool, true, false, ◌&&◌, List, [], ◌∷◌, Option,
  none, some, All, length, get_elem?, all_of, if◌then◌else◌, ◌==◌, not, ltb, ◌≡◌, refl, sym, ap,
  ◌∙◌, arith, inl, inr, subst, Bool-cases, Option-cases,
}
use testigo.Base.Text.{Text, text_dec, same, same→eq, split, join, cons_head, Lacks}
use testigo.Base.Splitting.{split-join}
use testigo.Random.{
  phrase_words, phrase_index, word_at, dash, encode_words, encode_phrase, shift_in, parse_words,
  parse_phrase,
}
use mathlib.Core.List.{lookup}
use mathlib.Core.Option

-- The index of each word is its place, from i on.
abbrev indexed : ℕ → List Text → Bool
indexed i [] = true
indexed i (w ∷ ws) =
    elim (lookup text_dec w phrase_index) [ none ↦ false | some k ↦ k == i ] && indexed (i + 1) ws

abbrev lacks_dash : Text → Bool
lacks_dash [] = true
lacks_dash (a ∷ s) = if a == dash then false else lacks_dash s

words_indexed : indexed 0 phrase_words ≡ true
unfolding phrase_index lookup text_dec
words_indexed = refl

words_lack_dash : all_of lacks_dash phrase_words ≡ true
unfolding phrase_words
words_lack_dash = refl

some_inj : {a b : ℕ} → some a ≡ some b → a ≡ b
some_inj e = cc

and_right : (a b : Bool) → (a && b) ≡ true → b ≡ true
and_right true b h = h
and_right false b h = cc

indexed-lookup :
    (i k : ℕ) (ws : List Text)
    → indexed i ws ≡ true
    → k < length ws
    → lookup text_dec (Option.get_or (get_elem? ws k) []) phrase_index ≡ some (i + k)
indexed-lookup i k [] h lt = absurd (omega arith)
indexed-lookup i zero (w ∷ ws) h lt = elim (Option-cases (lookup text_dec w phrase_index)) [
  | inl e ↦ absurd (ground (arith, e, h))
  | inr (k, e) ↦ ground (arith, e, h)
]
indexed-lookup i (suc k) (w ∷ ws) h lt =
    let same_place : (i + 1) + k ≡ i + suc k = omega arith in
    indexed-lookup (i + 1) k ws (and_right _ _ h) (omega arith) ∙ ap some same_place

lacks_dash-Lacks : (s : Text) → lacks_dash s ≡ true → Lacks dash s
lacks_dash-Lacks [] h = tt
lacks_dash-Lacks (a ∷ s) h = ground (arith, lacks_dash-Lacks s)

nth-lacks_dash :
    (ws : List Text) (k : ℕ)
    → all_of lacks_dash ws ≡ true
    → lacks_dash (Option.get_or (get_elem? ws k) []) ≡ true
nth-lacks_dash [] k h = refl
nth-lacks_dash (w ∷ ws) zero h = ground arith
nth-lacks_dash (w ∷ ws) (suc k) h = nth-lacks_dash ws k (ground arith)

lookup-word_at : (k : ℕ) → k < 64 → lookup text_dec (word_at k) phrase_index ≡ some k
unfolding word_at
lookup-word_at k lt = indexed-lookup 0 k phrase_words words_indexed lt ∙ ap some (omega arith)

word_at-Lacks : (k : ℕ) → Lacks dash (word_at k)
unfolding word_at
word_at-Lacks k = lacks_dash-Lacks (word_at k) (nth-lacks_dash phrase_words k words_lack_dash)

-- The numbers of n words.
abbrev pub capacity : ℕ → ℕ
capacity zero = 1
capacity (suc n) = capacity n * 64

shift_in-word_at :
    (r k : ℕ) → k < 64 → shift_in (some r) (word_at k) ≡ some (r * 2 ^ 6 % 2 ^ 64 + k)
shift_in-word_at r k lt =
    ap
      (λ (o : Option ℕ). elim o as (λ x. Option ℕ) [
        | none ↦ none
        | some idx ↦ some (r * 2 ^ 6 % 2 ^ 64 + idx)
      ])
      (lookup-word_at k lt)

parse-encode_words :
    (n s : ℕ) → s < capacity n → s < 2 ^ 64 → parse_words (encode_words n s) ≡ some s
unfolding parse_words encode_words
parse-encode_words zero s lt fits = ap some (omega arith)
parse-encode_words (suc n) s lt fits =
    ap (λ o. shift_in o (word_at (s % 2 ^ 6)))
      (parse-encode_words n (s / 2 ^ 6) (omega arith) (omega arith))
    ∙ shift_in-word_at (s / 2 ^ 6) (s % 2 ^ 6) (omega arith)
    ∙ ap some (omega arith)

encode_words-Lacks : (n s : ℕ) → All (Lacks dash) (encode_words n s)
unfolding encode_words
encode_words-Lacks zero s = tt
encode_words-Lacks (suc n) s = (word_at-Lacks (s % 2 ^ 6), encode_words-Lacks n (s / 2 ^ 6))

length-encode_words : (n s : ℕ) → length (encode_words n s) ≡ n
unfolding encode_words
length-encode_words zero s = refl
length-encode_words (suc n) s = ap suc (length-encode_words n (s / 2 ^ 6))

-- The phrase of a seed parses to its low 24 bits.
pub parse-encode_phrase : (s : ℕ) → parse_phrase (encode_phrase s) ≡ some (s % 2 ^ 24)
unfolding parse_phrase encode_phrase
parse-encode_phrase s =
    let n = s % 2 ^ 24 in
    ap (λ parts. if not (length parts == 4) then none else parse_words parts)
      (split-join dash (word_at (n % 2 ^ 6)) (encode_words 3 (n / 2 ^ 6)) (encode_words-Lacks 4 n))
    ∙ parse-encode_words 4 n (omega arith) (omega arith)

-- Every entry of the index is the word at its place.
abbrev entry_right : Text × ℕ → Bool
entry_right (w, k) = ltb k 64 && same (word_at k) w

abbrev all_right : List (Text × ℕ) → Bool
all_right [] = true
all_right (e ∷ es) = entry_right e && all_right es

index_right : all_right phrase_index ≡ true
unfolding phrase_index word_at same text_dec
index_right = refl

lookup-right :
    (m : List (Text × ℕ)) (w : Text) (k : ℕ)
    → all_right m ≡ true
    → lookup text_dec w m ≡ some k
    → (k < 64) × (word_at k ≡ w)
unfolding lookup
lookup-right [] w k h e = cc
lookup-right ((v, j) ∷ m) w k h e = ground (arith, same→eq (word_at j) v, lookup-right m w k)

encode-parse_words :
    (parts : List Text) (s : ℕ)
    → capacity (length parts) ≤ 2 ^ 64
    → parse_words parts ≡ some s
    → (s < capacity (length parts)) × (encode_words (length parts) s ≡ parts)
unfolding parse_words encode_words
encode-parse_words [] s fits e = (ground (arith, e), refl)
encode-parse_words (part ∷ parts) s fits e = elim (Option-cases (parse_words parts)) [
  | inl f ↦ absurd (ground (arith, e, f))
  | inr (r, f) ↦ elim (Option-cases (lookup text_dec part phrase_index)) [
    | inl g ↦ absurd (ground (arith, e, ap (λ o. shift_in o part) f, g))
    | inr (k, g) ↦
        let (lt, word) = lookup-right phrase_index part k index_right g in
        let (below, words) = encode-parse_words parts r (omega arith) f in
        let s_is : some s ≡ some (r * 2 ^ 6 % 2 ^ 64 + k) =
          sym e
          ∙ ap (λ o. shift_in o part) f
          ∙ ap
              (λ (o : Option ℕ). elim o as (λ x. Option ℕ) [
                | none ↦ none
                | some idx ↦ some (r * 2 ^ 6 % 2 ^ 64 + idx)
              ])
              g in
        let value : s ≡ r * 64 + k = some_inj s_is ∙ omega arith in
        let low : s % 2 ^ 6 ≡ k = omega arith in
        let high : s / 2 ^ 6 ≡ r = omega arith in
        (
          omega arith,
          ap (λ i. word_at i ∷ encode_words (length parts) (s / 2 ^ 6)) low
              ∙ ap (λ w. w ∷ encode_words (length parts) (s / 2 ^ 6)) word
              ∙ ap (λ q. part ∷ encode_words (length parts) q) high
              ∙ ap (◌∷◌ part) words,
        )
  ]
]

join-cons_nil : (b : ℕ) (p : Text) (ps : List Text) → join ([] ∷ p ∷ ps) b ≡ b ∷ join (p ∷ ps) b
unfolding join
join-cons_nil b p ps = refl

join-cons_head :
    (a b : ℕ) (p : Text) (ps : List Text) → join (cons_head a (p ∷ ps)) b ≡ a ∷ join (p ∷ ps) b
unfolding join
join-cons_head a b p [] = refl
join-cons_head a b p (q ∷ ps) = refl

split-cases : (s : Text) (b : ℕ) → (p : Text) × ((ps : List Text) × (split s b ≡ p ∷ ps))
unfolding split
split-cases [] b = ([], ([], refl))
split-cases (a ∷ s) b =
    let (p, (ps, e)) = split-cases s b in
    elim (Bool-cases (a == b)) [
      | inl hit ↦ ([], (split s b, rw (hit, split) refl))
      | inr miss ↦ (a ∷ p, (ps, rw (miss, split) (ap (cons_head a) e)))
    ]

join-split : (b : ℕ) (s : Text) → join (split s b) b ≡ s
unfolding split join
join-split b [] = refl
join-split b (a ∷ s) =
    let (p, (ps, e)) = split-cases s b in
    let rest : join (p ∷ ps) b ≡ s = ap (λ l. join l b) (sym e) ∙ join-split b s in
    elim (Bool-cases (a == b)) [
      | inl hit ↦
          rw (hit, split)
            (ap (λ l. join ([] ∷ l) b) e ∙ ap (◌∷◌ b) rest ∙ ap (λ c. c ∷ s) (ground arith))
      | inr miss ↦
          rw (miss, split)
            (ap (λ l. join (cons_head a l) b) e ∙ join-cons_head a b p ps ∙ ap (◌∷◌ a) rest)
    ]

-- A text that parses to a seed is the phrase of that seed, which has at most 24 bits.
pub encode-parse_phrase :
    (p : Text) (s : ℕ) → parse_phrase p ≡ some s → (s < 2 ^ 24) × (encode_phrase s ≡ p)
unfolding parse_phrase encode_phrase
encode-parse_phrase p s e = elim (Bool-cases (length (split p dash) == 4)) [
  | inr other ↦ absurd (ground (arith, e, other))
  | inl four ↦
      let parsed : parse_words (split p dash) ≡ some s = ground (arith, e, four) in
      let length_is : length (split p dash) ≡ 4 = ground (arith, four) in
      let (lt, words) = encode-parse_words (split p dash) s (rw length_is (omega arith)) parsed in
      let below : s < 2 ^ 24 = subst (λ n. s < capacity n) length_is lt in
      let low : s % 2 ^ 24 ≡ s = omega arith in
      (
        below,
        ap (λ n. join (encode_words 4 n) dash) low
            ∙ ap (λ n. join (encode_words n s) dash) (sym length_is)
            ∙ ap (λ l. join l dash) words
            ∙ join-split dash p,
      )
]
