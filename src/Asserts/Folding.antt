-- ===== src/Asserts/Folding.antt =====
-- internal/core/asserts.go: a folded diff shows every change.
use testigo.Base.{
  ℕ, zero, suc, ◌+◌, ◌-◌, ◌≤◌, ◌<◌, Bool, true, false, not, ◌||◌, List, [], ◌∷◌, some, get_elem?,
  length, leb, drop, if◌then◌else◌, ◌==◌, ◌≡◌, ◌⊎◌, refl, sym, subst, ap, ◌∙◌, arith, inl, inr,
  Bool-cases,
}
use testigo.Asserts.{LineOp}
use testigo.Asserts.Render.{
  is_changed, set_true, keep_around, keep_from, Rendered, folded, line, render_from, none_kept,
  render_line_ops,
}

-- The changed lines of a rendered diff.
abbrev pub changes_shown : List Rendered → List LineOp
changes_shown [] = []
changes_shown (folded ∷ rs) = changes_shown rs
changes_shown (line op ∷ rs) = if is_changed op then op ∷ changes_shown rs else changes_shown rs

abbrev pub changes : List LineOp → List LineOp
changes [] = []
changes (op ∷ ops) = if is_changed op then op ∷ changes ops else changes ops

-- Every changed line is marked.
abbrev Marked : List LineOp → List Bool → Type 0
Marked [] keep = Unit
Marked (op ∷ ops) [] = ⊥
Marked (op ∷ ops) (b ∷ keep) = ((not (is_changed op) || b) ≡ true) × Marked ops keep

changes-render_from :
    (collapsed : Bool) (ops : List LineOp) (keep : List Bool)
    → Marked ops keep
    → changes_shown (render_from collapsed ops keep) ≡ changes ops
unfolding render_from
changes-render_from collapsed [] keep m = refl
changes-render_from collapsed (op ∷ ops) (true ∷ keep) m =
    ground (arith, changes-render_from false ops keep)
changes-render_from collapsed (op ∷ ops) (false ∷ keep) m =
    ground (arith, changes-render_from true ops keep)
changes-render_from collapsed (op ∷ ops) [] m = absurd m

-- The flag of an index is set.
abbrev On : ℕ → List Bool → Type 0
On k keep = get_elem? keep k ≡ some true

On-set_true : (j k : ℕ) (keep : List Bool) → On j keep → On j (set_true k keep)
On-set_true j k [] h = h
On-set_true zero zero (b ∷ keep) h = refl
On-set_true zero (suc k) (b ∷ keep) h = h
On-set_true (suc j) zero (b ∷ keep) h = h
On-set_true (suc j) (suc k) (b ∷ keep) h = On-set_true j k keep h

set_true-On : (k : ℕ) (keep : List Bool) → k < length keep → On k (set_true k keep)
set_true-On k [] lt = absurd (omega arith)
set_true-On zero (b ∷ keep) lt = refl
set_true-On (suc k) (b ∷ keep) lt = set_true-On k keep (omega arith)

length-set_true : (k : ℕ) (keep : List Bool) → length (set_true k keep) ≡ length keep
length-set_true k [] = refl
length-set_true zero (b ∷ keep) = refl
length-set_true (suc k) (b ∷ keep) = ap suc (length-set_true k keep)

On-keep_around : (n d i j : ℕ) (keep : List Bool) → On j keep → On j (keep_around n d i keep)
unfolding keep_around
On-keep_around zero d i j keep h = h
On-keep_around (suc n) d i j keep h = On-keep_around n (d + 1) i j _ (step (leb 2 (i + d)))
  where
    step : (b : Bool) → On j (if b then set_true (i + d - 2) keep else keep)
    step true = On-set_true j (i + d - 2) keep h
    step false = h

length-keep_around : (n d i : ℕ) (keep : List Bool) → length (keep_around n d i keep) ≡ length keep
unfolding keep_around
length-keep_around zero d i keep = refl
length-keep_around (suc n) d i keep = length-keep_around n (d + 1) i _ ∙ step (leb 2 (i + d))
  where
    step : (b : Bool) → length (if b then set_true (i + d - 2) keep else keep) ≡ length keep
    step true = length-set_true (i + d - 2) keep
    step false = refl

-- Among the indices around i is i, where d is 2.
keep_around-On :
    (n d i : ℕ) (keep : List Bool)
    → d ≤ 2
    → 2 < d + n
    → i < length keep
    → On i (keep_around n d i keep)
unfolding keep_around
keep_around-On zero d i keep le lt here = absurd (omega arith)
keep_around-On (suc n) d i keep le lt here = elim (Bool-cases (d == 2)) [
  | inl now ↦
      (let at : i + d - 2 ≡ i = ground (arith, now) in
        let open_ : leb 2 (i + d) ≡ true = ground (arith, now) in
        rw (open_, at) (On-keep_around n (d + 1) i i (set_true i keep) (set_true-On i keep here)))
  | inr later ↦
      keep_around-On n (d + 1) i (if leb 2 (i + d) then set_true (i + d - 2) keep else keep)
        (ground (arith, later)) (omega arith) (subst (λ m. i < m) (sym (step (leb 2 (i + d)))) here)
]
  where
    step : (b : Bool) → length (if b then set_true (i + d - 2) keep else keep) ≡ length keep
    step true = length-set_true (i + d - 2) keep
    step false = refl

On-keep_from :
    (i j : ℕ) (ops : List LineOp) (keep : List Bool) → On j keep → On j (keep_from i ops keep)
unfolding keep_from
On-keep_from i j [] keep h = h
On-keep_from i j (op ∷ ops) keep h = On-keep_from (i + 1) j ops _ (step (is_changed op))
  where
    step : (b : Bool) → On j (if b then keep_around 5 0 i keep else keep)
    step true = On-keep_around 5 0 i j keep h
    step false = h

-- The flags of the changed lines, the first line at the index i.
abbrev OnChanges : ℕ → List LineOp → List Bool → Type 0
OnChanges i [] keep = Unit
OnChanges i (op ∷ ops) keep = ((is_changed op ≡ false) ⊎ On i keep) × OnChanges (i + 1) ops keep

keep_from-OnChanges :
    (i : ℕ) (ops : List LineOp) (keep : List Bool)
    → i + length ops ≤ length keep
    → OnChanges i ops (keep_from i ops keep)
unfolding keep_from
keep_from-OnChanges i [] keep le = tt
keep_from-OnChanges i (op ∷ ops) keep le = elim (Bool-cases (is_changed op)) [
  | inl changed ↦ rw changed (
    inr (
        On-keep_from (i + 1) i ops (keep_around 5 0 i keep)
          (keep_around-On 5 0 i keep (omega arith) (omega arith) (omega arith))),
    keep_from-OnChanges (i + 1) ops (keep_around 5 0 i keep)
        (omega (arith, length-keep_around 5 0 i keep)),
  )
  | inr same ↦ rw same (inl refl, keep_from-OnChanges (i + 1) ops keep (omega arith))
]

length-keep_from :
    (i : ℕ) (ops : List LineOp) (keep : List Bool) → length (keep_from i ops keep) ≡ length keep
unfolding keep_from
length-keep_from i [] keep = refl
length-keep_from i (op ∷ ops) keep = length-keep_from (i + 1) ops _ ∙ step (is_changed op)
  where
    step : (b : Bool) → length (if b then keep_around 5 0 i keep else keep) ≡ length keep
    step true = length-keep_around 5 0 i keep
    step false = refl

-- Flags from the index i on.
OnChanges-Marked :
    (i : ℕ) (ops : List LineOp) (keep : List Bool)
    → i + length ops ≤ length keep
    → OnChanges i ops keep
    → Marked ops (drop i keep)
OnChanges-Marked i [] keep le h = tt
OnChanges-Marked i (op ∷ ops) keep le (here, rest) =
    let (b, (keep', (e, f))) = drop-cons i keep (omega arith) in
    rw e (
      flag b here f,
      subst (Marked ops) (drop-next i keep b keep' e)
          (OnChanges-Marked (i + 1) ops keep (omega arith) rest),
    )
  where
    drop-cons :
        (i : ℕ) (keep : List Bool)
        → i < length keep
        → (b : Bool) × ((keep' : List Bool) × ((drop i keep ≡ b ∷ keep')
              × (get_elem? keep i ≡ some b)))
    drop-cons i [] lt = absurd (omega arith)
    drop-cons zero (b ∷ keep) lt = (b, (keep, (refl, refl)))
    drop-cons (suc i) (b ∷ keep) lt = drop-cons i keep (omega arith)

    drop-next :
        (i : ℕ) (keep : List Bool) (b : Bool) (keep' : List Bool)
        → drop i keep ≡ b ∷ keep'
        → drop (i + 1) keep ≡ keep'
    drop-next zero [] b keep' e = cc
    drop-next (suc i) [] b keep' e = cc
    drop-next zero (c ∷ keep) b keep' e = cc
    drop-next (suc i) (c ∷ keep) b keep' e =
        let at : suc i + 1 ≡ suc (i + 1) = omega arith in rw at (drop-next i keep b keep' e)

    flag :
        (b : Bool)
        → (is_changed op ≡ false) ⊎ On i keep
        → get_elem? keep i ≡ some b
        → (not (is_changed op) || b) ≡ true
    flag b h f = ground (arith, h, f)

length-none_kept : (ops : List LineOp) → length (none_kept ops) ≡ length ops
length-none_kept [] = refl
length-none_kept (op ∷ ops) = ap suc (length-none_kept ops)

-- However a diff is folded, every changed line of it is shown, in order.
pub changes-render_line_ops :
    (ops : List LineOp) → changes_shown (render_line_ops ops) ≡ changes ops
unfolding render_line_ops
changes-render_line_ops ops =
    let keep = keep_from 0 ops (none_kept ops) in
    let long : length keep ≡ length ops =
      length-keep_from 0 ops (none_kept ops) ∙ length-none_kept ops in
    changes-render_from false ops keep (
      OnChanges-Marked 0 ops keep (omega arith)
        (keep_from-OnChanges 0 ops (none_kept ops) (omega (arith, length-none_kept ops))))
