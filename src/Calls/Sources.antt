-- ===== src/Calls/Sources.antt =====
-- internal/core/calls.go: when the search for thrown away results panics.
use testigo.Base.{
  Outcome, true, false, All, is_some, Option-cases, ◌⊎◌, ℕ, zero, suc, ◌+◌, ◌≤◌, ◌<◌, false, not,
  ◌&&◌, List, [], ◌∷◌, none, some, length, get_elem?, if◌then◌else◌, ok, panic, ◌≡◌, ◌↔◌, refl,
  arith, inl, inr, ltb, Bool-cases,
}
use testigo.Base.Text.{Text, is_empty}
use testigo.Spy.{CalledFunc}
use testigo.Base.Trim.{trim_space}
use testigo.Calls.Ignored.{
  starts_test, Found, skipped_line, add_ignored, IgnoredReturn, scan_lines, scan_site, scan_valid,
  scan_sites, ignored_returned_values,
}

get_elem?-some :
    {A : Type 0} (l : List A) (i : ℕ) → i < length l → (a : A) × (get_elem? l i ≡ some a)
get_elem?-some [] i lt = absurd (omega arith)
get_elem?-some (x ∷ l) zero lt = (x, refl)
get_elem?-some (x ∷ l) (suc i) lt = get_elem?-some l i (omega arith)

scan_lines-ok :
    (file : Text) (lines : List Text) (left i : ℕ) (found : Found)
    → i < length lines
    → (z : Found) × (scan_lines file lines left i found ≡ ok z)
unfolding scan_lines
scan_lines-ok file lines zero i found lt = (found, refl)
scan_lines-ok file lines (suc left) zero found lt =
    let (line, e) = get_elem?-some lines 0 lt in
    elim (Bool-cases (not (skipped_line (trim_space line)) && starts_test (trim_space line))) [
      | inl stops ↦ (found, rw (e, scan_lines) (rw stops refl))
      | inr goes_on ↦ (
        (if skipped_line (trim_space line)
            then found
            else add_ignored file 1 (trim_space line) found),
        rw (e, scan_lines) (rw goes_on refl),
      )
    ]
scan_lines-ok file lines (suc left) (suc j) found lt =
    let (line, e) = get_elem?-some lines (suc j) lt in
    let next =
      if skipped_line (trim_space line)
      then found
      else add_ignored file (suc j + 1) (trim_space line) found in
    elim (Bool-cases (not (skipped_line (trim_space line)) && starts_test (trim_space line))) [
      | inl stops ↦ (found, rw (e, scan_lines) (rw stops refl))
      | inr goes_on ↦
          (let (z, ran) = scan_lines-ok file lines left j next (omega arith) in
            (z, rw (e, scan_lines) (rw goes_on ran)))
    ]

get_elem?-none : {A : Type 0} (l : List A) (i : ℕ) → length l ≤ i → get_elem? l i ≡ none
get_elem?-none [] i le = refl
get_elem?-none (x ∷ l) zero le = absurd (omega arith)
get_elem?-none (x ∷ l) (suc i) le = get_elem?-none l i (omega arith)

scan_lines-panic :
    (file : Text) (lines : List Text) (left i : ℕ) (found : Found)
    → length lines ≤ i
    → scan_lines file lines (suc left) i found ≡ panic
unfolding scan_lines
scan_lines-panic file lines left i found le = rw (get_elem?-none lines i le, scan_lines) refl

scan_lines_iff :
    (file : Text) (lines : List Text) (left i : ℕ) (found : Found)
    → (scan_lines file lines (suc left) i found ≡ panic) ↔ (length lines ≤ i)
scan_lines_iff file lines left i found = (
  λ h. elim (Bool-cases (ltb i (length lines))) [
    | inl lt ↦
        (let (z, ran) = scan_lines-ok file lines (suc left) i found (ground arith) in
          absurd (ground (arith, h, ran)))
    | inr le ↦ ground arith
  ],
  λ le. scan_lines-panic file lines left i found le,
)

-- What is looked for above an expectation can be read: it has no file, or its line is at most one
-- beyond the lines that are read from the file.
abbrev pub IsReadable : {V : Type 0} → (Text → List Text) → CalledFunc V → Type 0
IsReadable source a =
    (is_empty a.site_file ≡ true) ⊎ (a.site_line ≤ length (source a.site_file) + 1)

module _ {V : Type 0} (source : Text → List Text) where
  -- The search for thrown away results above an expectation panics exactly when the expectation has a
  -- file and its line is beyond the lines read from it by more than one: of a file that cannot be read,
  -- any line from the second on.
  pub scan_site-panic :
      (a : CalledFunc V) (found : Found)
      → (scan_site source a found ≡ panic)
        ↔ ((is_empty a.site_file ≡ false) × (length (source a.site_file) + 1 < a.site_line))
  unfolding scan_site
  scan_site-panic a found = go a.site_line refl
    where
      go :
          (n : ℕ)
          → a.site_line ≡ n
          → (scan_site source a found ≡ panic)
            ↔ ((is_empty a.site_file ≡ false) × (length (source a.site_file) + 1 < n))
      go zero e = rw (e, scan_site) (ground arith)
      go (suc zero) e = rw (e, scan_site) (ground arith)
      go (suc (suc i)) e =
          let file = a.site_file in
          rw (e, scan_site) (ground (arith, scan_lines_iff file (source file) 39 i found))

  -- The expectation is an error, or its place can be read.
  abbrev pub Passed : CalledFunc V → Type 0
  Passed a = (is_some a.err ≡ true) ⊎ IsReadable source a

  scan_valid-cases :
      (a : CalledFunc V) (found : Found)
      → (Passed a × ((z : Found) × (scan_valid source a found ≡ ok z)))
        ⊎ ((¬ Passed a) × (scan_valid source a found ≡ panic))
  unfolding scan_valid
  scan_valid-cases a found = elim (Option-cases a.err) [
    | inr (message, bad) ↦ inl (inl (ground (arith, bad)), (found, rw (bad, scan_valid) refl))
    | inl valid ↦ go valid (scan_site source a found) refl
  ]
    where
      go :
          a.err ≡ none
          → (o : Outcome Found) → scan_site source a found ≡ o
          → (Passed a × ((z : Found) × (scan_valid source a found ≡ ok z)))
            ⊎ ((¬ Passed a) × (scan_valid source a found ≡ panic))
      go valid (ok z) e =
          inl (inr (ground (arith, scan_site-panic a found, e)), (z, rw (valid, scan_valid) e))
      go valid panic e =
          inr
            ((λ h. ground (arith, scan_site-panic a found, e, valid, h)), rw (valid, scan_valid) e)

  scan_sites-ok :
      (exps : List (CalledFunc V)) (found : Found)
      → (All Passed exps × ((z : Found) × (scan_sites source exps found ≡ ok z)))
        ⊎ ((¬ All Passed exps) × (scan_sites source exps found ≡ panic))
  unfolding scan_sites
  scan_sites-ok [] found = inl (tt, (found, refl))
  scan_sites-ok (a ∷ exps) found = elim (scan_valid-cases a found) [
    | inr (bad, e) ↦ inr ((λ h. bad h.0), rw e refl)
    | inl (good, (z, e)) ↦ elim (scan_sites-ok exps z) [
      | inl (all, (y, f)) ↦ inl ((good, all), (y, rw e f))
      | inr (bad, f) ↦ inr ((λ h. bad h.1), rw e f)
    ]
  ]

  pub ignored_returned_values-cases :
      (exps : List (CalledFunc V))
      → (All Passed exps
          × ((l : List IgnoredReturn) × (ignored_returned_values source exps ≡ ok l)))
        ⊎ ((¬ All Passed exps) × (ignored_returned_values source exps ≡ panic))
  unfolding ignored_returned_values
  ignored_returned_values-cases exps = elim (scan_sites-ok exps ([], [])) [
    | inl (all, (z, ran)) ↦ inl (all, (z.1, rw ran refl))
    | inr (some_, ran) ↦ inr (some_, rw ran refl)
  ]
