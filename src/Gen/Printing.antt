-- ===== src/Gen/Printing.antt =====
-- internal/testigogen/model.go: a tag that asks for what an artifact is.
use testigo.Base.{
  ℕ, zero, suc, Bool, true, false, not, List, [], ◌∷◌, ◌++◌, Option, some, All, All-append, All-map,
  if◌then◌else◌, ltb, ◌≡◌, refl, ap, ◌∙◌, arith,
}
use testigo.Base.Int.{ℤ, pos}
use testigo.Base.Text.{Text, codes, same, is_empty, split, join}
use testigo.Base.Trim.{trim_space}
use testigo.Base.Splitting.{split-join, is_clean, trim_space-clean, clean-Lacks}
use testigo.Gen.Methods.{Generated, made, refused, unsettled, ◌>>=◌, >>=-made}
use testigo.Gen.Tags.{
  Artifact, new_artifact, apply_trimmed, apply_token, apply_tokens, check_artifact, parse_artifact,
}

abbrev optional : Bool → Text → List Text
optional b token = if b then token ∷ [] else []

abbrev valued : Text → Text → List Text
valued key value = optional (not (is_empty value)) (key ++ value)

-- The token of an error stub, with its fixture if it has one.
abbrev error_stub_token : Text → Text
error_stub_token [] = codes "errorstub"
error_stub_token (c ∷ s) = codes "errorstub=" ++ c ∷ s

-- The tokens that ask for an artifact; `itoa` prints a number.
abbrev pub tokens : {T : Type 0} → (ℕ → Text) → Artifact T → List Text
tokens itoa e =
    optional e.fixture (codes "fixture")
    ++ (valued (codes "base=") e.base_func
        ++ (valued (codes "memdb=") e.memdb_key
            ++ (optional e.spy (codes "spy")
                ++ (valued (codes "seeder=") e.seeder_method
                    ++ ((optional e.stub (codes "stub=" ++ e.stub_fixture)
                          ++ optional e.error_stub (error_stub_token e.stub_fixture))
                        ++ (optional (ltb 0 e.collections)
                              (codes "collections=" ++ itoa e.collections)
                            ++ optional e.found (codes "found=true")))))))

made-injective : {A : Type 0} {a b : A} → made a ≡ made b → a ≡ b
made-injective e = cc

>>=-made_right : {A : Type 0} (m : Generated A) → (m >>= λ a. made a) ≡ m
>>=-made_right (made a) = refl
>>=-made_right (refused message) = refl
>>=-made_right unsettled = refl

-- A stub has a fixture, an error stub may have one, and nothing else has.
abbrev pub StubsOf : Bool → Bool → Text → Type 0
StubsOf true true f = ⊥
StubsOf true false f = is_empty f ≡ false
StubsOf false true f = Unit
StubsOf false false f = f ≡ []

-- What a number prints as: read back it is that number, and it is one token and not the word one.
pub record IsPrinted (atoi : Text → Option ℤ) (itoa : ℕ → Text) (n : ℕ) : Type 0 where
  pub read_back : atoi (itoa n) ≡ some (pos n)
  pub clean : is_clean (itoa n) ≡ true
  pub some_digit : is_empty (itoa n) ≡ false
  pub no_word : same (itoa n) (codes "one") ≡ false

record AllClean (ts : List Text) : Type 0 where
  each : All (λ t. is_clean t ≡ true) ts

clean_token : (b : Bool) (t : Text) → is_clean t ≡ true → AllClean (optional b t)
clean_token true t h = record { each = (h, tt) }
clean_token false t h = record { each = tt }

infixr 65 ◌+++◌
◌+++◌ : {ts us : List Text} → AllClean ts → AllClean us → AllClean (ts ++ us)
◌+++◌ {ts} {us} c d = record { each = All-append (λ t. is_clean t ≡ true) ts us c.each d.each }

error_stub-clean : (f : Text) → is_clean f ≡ true → is_clean (error_stub_token f) ≡ true
error_stub-clean [] h = refl
error_stub-clean (c ∷ f) h = h

module _ {T : Type 0} (atoi : Text → Option ℤ) where
  apply_tokens-append :
      (ts us : List Text) (e : Artifact T) {e' : Artifact T}
      → apply_tokens atoi ts e ≡ made e'
      → apply_tokens atoi (ts ++ us) e ≡ apply_tokens atoi us e'
  unfolding apply_tokens
  apply_tokens-append [] us e h = ap (apply_tokens atoi us) (made-injective h)
  apply_tokens-append (t ∷ ts) us e h =
      let (e1, first, rest) = >>=-made (apply_token atoi e t) (λ e1. apply_tokens atoi ts e1) h in
      rw first (apply_tokens-append ts us e1 rest)

  one_token :
      (e : Artifact T) (token : Text)
      → is_clean token ≡ true
      → apply_tokens atoi (token ∷ []) e ≡ apply_trimmed atoi e token
  unfolding apply_tokens apply_token
  one_token e token clean =
      >>=-made_right (apply_token atoi e token)
      ∙ ap (apply_trimmed atoi e) (trim_space-clean token clean)

  fixture_step :
      (b : Bool) (e : Artifact T)
      → e.fixture ≡ false
      → apply_tokens atoi (optional b (codes "fixture")) e ≡ made (record e { fixture = b })
  unfolding apply_tokens apply_trimmed
  fixture_step true e h = one_token e (codes "fixture") refl
  fixture_step false e h = ground arith

  base_step :
      (v : Text) (e : Artifact T)
      → e.base_func ≡ []
      → is_clean v ≡ true
      → apply_tokens atoi (valued (codes "base=") v) e ≡ made (record e { base_func = v })
  unfolding apply_tokens apply_trimmed
  base_step [] e h clean = ground arith
  base_step (c ∷ v) e h clean = one_token e (codes "base=" ++ c ∷ v) clean

  memdb_step :
      (v : Text) (e : Artifact T)
      → e.memdb_key ≡ []
      → is_clean v ≡ true
      → apply_tokens atoi (valued (codes "memdb=") v) e ≡ made (record e { memdb_key = v })
  unfolding apply_tokens apply_trimmed
  memdb_step [] e h clean = ground arith
  memdb_step (c ∷ v) e h clean = one_token e (codes "memdb=" ++ c ∷ v) clean

  spy_step :
      (b : Bool) (e : Artifact T)
      → e.spy ≡ false
      → apply_tokens atoi (optional b (codes "spy")) e ≡ made (record e { spy = b })
  unfolding apply_tokens apply_trimmed
  spy_step true e h = one_token e (codes "spy") refl
  spy_step false e h = ground arith

  seeder_step :
      (v : Text) (e : Artifact T)
      → e.seeder_method ≡ []
      → is_clean v ≡ true
      → apply_tokens atoi (valued (codes "seeder=") v) e ≡ made (record e { seeder_method = v })
  unfolding apply_tokens apply_trimmed
  seeder_step [] e h clean = ground arith
  seeder_step (c ∷ v) e h clean = one_token e (codes "seeder=" ++ c ∷ v) clean

  found_step :
      (b : Bool) (e : Artifact T)
      → e.found ≡ false
      → apply_tokens atoi (optional b (codes "found=true")) e ≡ made (record e { found = b })
  unfolding apply_tokens apply_trimmed
  found_step true e h = one_token e (codes "found=true") refl
  found_step false e h = ground arith

  stubs_step :
      (stub error_stub : Bool) (f : Text) (e : Artifact T)
      → e.stub ≡ false
      → e.error_stub ≡ false
      → e.stub_fixture ≡ []
      → StubsOf stub error_stub f
      → is_clean f ≡ true
      → apply_tokens atoi
          (optional stub (codes "stub=" ++ f) ++ optional error_stub (error_stub_token f))
          e
        ≡ made (record e { stub = stub; error_stub = error_stub; stub_fixture = f })
  unfolding apply_tokens apply_trimmed
  stubs_step true true f e h1 h2 h3 k clean = absurd k
  stubs_step true false [] e h1 h2 h3 k clean = cc
  stubs_step true false (c ∷ f) e h1 h2 h3 k clean =
      one_token e (codes "stub=" ++ c ∷ f) clean ∙ ground arith
  stubs_step false true [] e h1 h2 h3 k clean = one_token e (codes "errorstub") refl ∙ ground arith
  stubs_step false true (c ∷ f) e h1 h2 h3 k clean =
      one_token e (codes "errorstub=" ++ c ∷ f) clean ∙ ground arith
  stubs_step false false f e h1 h2 h3 k clean = ground arith

  module _ (itoa : ℕ → Text) where
    counted :
        (n : ℕ) (e : Artifact T)
        → IsPrinted atoi itoa n
        → apply_trimmed atoi e (codes "collections=" ++ itoa n)
          ≡ made (record e { collections = n })
    unfolding apply_trimmed
    counted n e p = rw (p.some_digit, p.no_word, p.read_back) refl

    count_step :
        (n : ℕ) (e : Artifact T)
        → IsPrinted atoi itoa n
        → e.collections ≡ 0
        → apply_tokens atoi (optional (ltb 0 n) (codes "collections=" ++ itoa n)) e
          ≡ made (record e { collections = n })
    unfolding apply_tokens apply_trimmed
    count_step zero e p h = ground arith
    count_step (suc n) e p h =
        let positive : ltb 0 (suc n) ≡ true = ground arith in
        rw positive
          (one_token e (codes "collections=" ++ itoa (suc n)) p.clean ∙ counted (suc n) e p)

    -- An artifact that a tag can ask for.
    pub record IsPrintable (e : Artifact T) : Type 0 where
      pub checked : check_artifact atoi e ≡ made e
      pub stubs : StubsOf e.stub e.error_stub e.stub_fixture
      pub base_clean : is_clean e.base_func ≡ true
      pub memdb_clean : is_clean e.memdb_key ≡ true
      pub seeder_clean : is_clean e.seeder_method ≡ true
      pub fixture_clean : is_clean e.stub_fixture ≡ true
      pub count_printed : IsPrinted atoi itoa e.collections

    tokens-apply :
        (e : Artifact T)
        → IsPrintable e
        → apply_tokens atoi (tokens itoa e) (new_artifact e.name e.type_of) ≡ made e
    unfolding new_artifact
    tokens-apply e p =
        let e0 = new_artifact e.name e.type_of in
        let e1 = record e0 { fixture = e.fixture } in
        let e2 = record e1 { base_func = e.base_func } in
        let e3 = record e2 { memdb_key = e.memdb_key } in
        let e4 = record e3 { spy = e.spy } in
        let e5 = record e4 { seeder_method = e.seeder_method } in
        let e6 = record e5 {
          stub = e.stub;
          error_stub = e.error_stub;
          stub_fixture = e.stub_fixture;
        } in
        let e7 = record e6 { collections = e.collections } in
        apply_tokens-append _ _ e0 (fixture_step e.fixture e0 refl)
        ∙ (apply_tokens-append _ _ e1 (base_step e.base_func e1 refl p.base_clean)
            ∙ (apply_tokens-append _ _ e2 (memdb_step e.memdb_key e2 refl p.memdb_clean)
                ∙ (apply_tokens-append _ _ e3 (spy_step e.spy e3 refl)
                    ∙ (apply_tokens-append _ _ e4
                          (seeder_step e.seeder_method e4 refl p.seeder_clean)
                        ∙ (apply_tokens-append _ _ e5 (
                              stubs_step e.stub e.error_stub e.stub_fixture e5 refl refl refl
                                p.stubs p.fixture_clean)
                            ∙ (apply_tokens-append _ _ e6
                                  (count_step e.collections e6 p.count_printed refl)
                                ∙ found_step e.found e7 refl))))))

    tokens-AllClean : (e : Artifact T) → IsPrintable e → AllClean (tokens itoa e)
    tokens-AllClean e p =
        clean_token e.fixture (codes "fixture") refl
        +++ clean_token (not (is_empty e.base_func)) (codes "base=" ++ e.base_func) p.base_clean
        +++ clean_token (not (is_empty e.memdb_key)) (codes "memdb=" ++ e.memdb_key) p.memdb_clean
        +++ clean_token e.spy (codes "spy") refl
        +++ clean_token (not (is_empty e.seeder_method)) (codes "seeder=" ++ e.seeder_method)
            p.seeder_clean
        +++ (clean_token e.stub (codes "stub=" ++ e.stub_fixture) p.fixture_clean
            +++ clean_token e.error_stub (error_stub_token e.stub_fixture)
                (error_stub-clean e.stub_fixture p.fixture_clean))
        +++ clean_token (ltb 0 e.collections) (codes "collections=" ++ itoa e.collections)
            p.count_printed.clean
        +++ clean_token e.found (codes "found=true") refl

  split_tokens :
      (ts : List Text) (e : Artifact T)
      → All (λ t. is_clean t ≡ true) ts
      → apply_tokens atoi (split (join ts b',') b',') e ≡ apply_tokens atoi ts e
  unfolding apply_tokens apply_token apply_trimmed split join trim_space
  split_tokens [] e clean = refl
  split_tokens (t ∷ ts) e clean =
      ap (λ us. apply_tokens atoi us e)
        (split-join b',' t ts (All-map _ _ (t ∷ ts) clean-Lacks clean))

  -- The tag that is written for an artifact is parsed to this artifact, whatever its options, if the
  -- artifact passes the checks, has a fixture name only as a stub or an error stub and as a stub always,
  -- its names hold no comma and no white space, and Atoi reads back how its count is printed.
  pub parse-tokens :
      (itoa : ℕ → Text) (e : Artifact T)
      → IsPrintable itoa e
      → parse_artifact atoi e.name e.type_of (join (tokens itoa e) b',') ≡ made e
  unfolding parse_artifact
  parse-tokens itoa e p =
      rw
        (
          split_tokens (tokens itoa e) (new_artifact e.name e.type_of)
              (tokens-AllClean itoa e p).each,
          tokens-apply itoa e p,
        )
        p.checked
