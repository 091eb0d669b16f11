-- ===== src/Random/Tests.antt =====
-- random: the theorems on seeds and draws at concrete values. The generator counts its draws.
use testigo.Base.{ℕ, suc, ◌%◌, ◌^◌, ◌<◌, false, some, ok, ◌≡◌, refl, arith}
use testigo.Base.Int.{ℤ, pos, negsuc, ltb_ℤ}
use testigo.Base.Text.{codes, split, text_dec}
use native.Mathlib.Nat.{mod-lt}
use testigo.Random.{encode_phrase, parse_phrase, parse_words, phrase_index}
use testigo.Random.Source.{Source, set_seed, replay, int_between, draw_words}
use testigo.Random.Phrases.{parse-encode_phrase, encode-parse_phrase}
use testigo.Random.Draws.{DrawsBelow, int_between-bounds, set_seed-replay}

abbrev counter : ℕ → ℕ → ℕ × ℕ
counter g n = (g % n, suc g)

abbrev seeded : ℕ → ℕ
seeded s = s

counter-DrawsBelow : DrawsBelow counter
counter-DrawsBelow g n lt = mod-lt g lt

abbrev fresh : Source ℕ
fresh = record { seed = 5; seed_from_env = false; gen = 5; drawn = false }

parse-encode_phrase_example : parse_phrase (encode_phrase 16777300) ≡ some (16777300 % 2 ^ 24)
parse-encode_phrase_example = parse-encode_phrase 16777300

encode-parse_phrase_example : (84 < 2 ^ 24) × (encode_phrase 84 ≡ codes "crest-anchor-amber-amber")
unfolding parse_phrase parse_words phrase_index split text_dec
encode-parse_phrase_example = encode-parse_phrase (codes "crest-anchor-amber-amber") 84 refl

int_between-bounds_example :
    (n : ℤ) × ((z : Source ℕ) × ((int_between seeded counter (negsuc 2) (pos 4) fresh ≡ ok (n, z))
        × ((ltb_ℤ n (negsuc 2) ≡ false) × (ltb_ℤ (pos 4) n ≡ false))))
int_between-bounds_example =
    int_between-bounds seeded counter counter-DrawsBelow (negsuc 2) (pos 4) fresh refl (omega arith)

set_seed-replay_example :
    (z : Source ℕ) × ((set_seed seeded counter 11 fresh ≡ ok z)
      × (((draw_words seeded counter 3 z).0
            ≡ (replay seeded counter 11 (draw_words seeded counter 3) fresh).0)
          × ((replay seeded counter 11 (draw_words seeded counter 3) fresh).1.gen ≡ 5)))
set_seed-replay_example = set_seed-replay seeded counter 11 3 fresh fresh refl refl
