-- ===== src/Graph/Ending.antt =====
-- internal/core/graph.go: the drawing ends, since each call is drawn once.
use testigo.Base.{
  ℕ, zero, suc, ◌+◌, ◌<◌, ◌≤◌, Bool, true, false, not, List, [], ◌∷◌, ◌++◌, map, has, ℕ_discrete,
  length, some_of, select, All, All-map, ◌==◌, ◌≡◌, refl, ap, ◌∙◌, arith, inl, inr, Bool-cases,
}
use testigo.Base.Text.{Text, codes, same}
use testigo.Spy.{CallRecord}
use testigo.Graph.{
  callee_key, caller_key, children, GraphState, Block, block_lines, add_block, render_calls,
  render_children,
}

-- What is drawn stays drawn.
abbrev Keeps : GraphState → GraphState → Type 0
Keeps s t = (n : ℕ) → has ℕ_discrete n s.visited ≡ true → has ℕ_discrete n t.visited ≡ true

module _ {V : Type 0} where
  -- How many of the calls are not drawn yet.
  abbrev pub unvisited : List (CallRecord V) → GraphState → ℕ
  unvisited calls s = length (select (λ c. not (has ℕ_discrete c.seq s.visited)) calls)

  unvisited-le :
      (calls : List (CallRecord V)) (s t : GraphState)
      → Keeps s t
      → unvisited calls t ≤ unvisited calls s
  unvisited-le [] s t k = omega arith
  unvisited-le (c ∷ cs) s t k = ground (arith, k c.seq, unvisited-le cs s t k)

  -- A call of the list that is drawn now is one less.
  unvisited-lt :
      (calls : List (CallRecord V)) (c : CallRecord V) (s t : GraphState)
      → Keeps s t
      → has ℕ_discrete c.seq s.visited ≡ false
      → has ℕ_discrete c.seq t.visited ≡ true
      → some_of (λ d. d.seq == c.seq) calls ≡ true
      → unvisited calls t < unvisited calls s
  unvisited-lt [] c s t k new drawn there = cc
  unvisited-lt (d ∷ ds) c s t k new drawn there = elim (Bool-cases (d.seq == c.seq)) [
    | inl here ↦
        let e : d.seq ≡ c.seq = ground (arith, here) in
        ground (arith, e, new, drawn, unvisited-le ds s t k)
    | inr other ↦ ground (arith, other, there, k d.seq, unvisited-lt ds c s t k new drawn)
  ]

  All-select :
      (P : CallRecord V → Type 0) (p : CallRecord V → Bool) (xs : List (CallRecord V))
      → All P xs
      → All P (select p xs)
  All-select P p [] h = tt
  All-select P p (x ∷ xs) h = elim (Bool-cases (p x)) [
    | inl e ↦ rw e (h.0, All-select P p xs h.1)
    | inr e ↦ rw e (All-select P p xs h.1)
  ]

  self_known : (xs : List (CallRecord V)) → All (λ c. some_of (λ d. d.seq == c.seq) xs ≡ true) xs
  self_known [] = tt
  self_known (x ∷ xs) = (ground arith, All-map _ _ xs (λ c h. ground (arith, h)) (self_known xs))

  module _ (count_label : ℕ → Text) (node : CallRecord V → List ℕ → Text × List Text × List ℕ)
      (calls : List (CallRecord V)) where
    -- A call of the list that is taken as drawn.
    abbrev mark : CallRecord V → GraphState → GraphState
    mark c s = record { visited = c.seq ∷ s.visited; used = (node c s.used).2 }

    Keeps-mark : (c : CallRecord V) (s : GraphState) → Keeps s (mark c s)
    unfolding has
    Keeps-mark c s n h = ground (arith, h)

    visited-mark :
        (c : CallRecord V) (s : GraphState) → has ℕ_discrete c.seq (mark c s).visited ≡ true
    unfolding has
    visited-mark c s = ground arith

    abbrev AllKeep : (Text → GraphState → List Text × GraphState) → Type 0
    AllKeep rec = (key : Text) (s : GraphState) → Keeps s (rec key s).1

    render_calls-Keeps :
        (rec : Text → GraphState → List Text × GraphState) (cs : List (CallRecord V))
        (bs : List Block) (s : GraphState)
        → AllKeep rec
        → Keeps s (render_calls count_label node calls rec cs bs s).1
    unfolding render_calls
    render_calls-Keeps rec [] bs s keep n h = h
    render_calls-Keeps rec (c ∷ cs) bs s keep n h =
        elim (Bool-cases (has ℕ_discrete c.seq s.visited)) [
          | inl old ↦ rw old (render_calls-Keeps rec cs bs s keep n h)
          | inr new ↦ rw new (
              render_calls-Keeps rec cs _ (rec (callee_key c) (mark c s)).1 keep n
                (keep (callee_key c) (mark c s) n (Keeps-mark c s n h)))
        ]

    render_children-Keeps :
        (fuel : ℕ) (key : Text) (s : GraphState)
        → Keeps s (render_children count_label node calls fuel key s).1
    unfolding render_children
    render_children-Keeps zero key s n h = h
    render_children-Keeps (suc fuel) key s n h =
        render_calls-Keeps (render_children count_label node calls fuel) (children calls key) [] s
          (render_children-Keeps fuel) n h

    -- Two ways to draw below that agree where few calls are left agree on the loop.
    render_calls-agree :
        (rec rec' : Text → GraphState → List Text × GraphState) (m : ℕ) (cs : List (CallRecord V))
        (bs : List Block) (s : GraphState)
        → AllKeep rec
        → ((key : Text) (t : GraphState) → unvisited calls t < m → rec key t ≡ rec' key t)
        → All (λ c. some_of (λ d. d.seq == c.seq) calls ≡ true) cs
        → unvisited calls s ≤ m
        → render_calls count_label node calls rec cs bs s
          ≡ render_calls count_label node calls rec' cs bs s
    unfolding render_calls
    render_calls-agree rec rec' m [] bs s keep agree known few = refl
    render_calls-agree rec rec' m (c ∷ cs) bs s keep agree known few =
        elim (Bool-cases (has ℕ_discrete c.seq s.visited)) [
          | inl old ↦ rw old (render_calls-agree rec rec' m cs bs s keep agree known.1 few)
          | inr new ↦
              let key = callee_key c in
              let less =
                unvisited-lt calls c s (mark c s) (Keeps-mark c s) new (visited-mark c s) known.0 in
              let same_ = agree key (mark c s) (omega (arith, less, few)) in
              let later =
                unvisited-le calls (mark c s) (rec key (mark c s)).1 (keep key (mark c s)) in
              let blocks = λ (below : List Text).
                add_block bs (node c s.used).0
                  (map (λ n. codes "  " ++ n) (node c s.used).1 ++ below) in
              rw new (
                render_calls-agree rec rec' m cs (blocks (rec key (mark c s)).0)
                  (rec key (mark c s)).1 keep agree known.1 (omega (arith, less, later, few))
                ∙ ap
                    (λ (r : List Text × GraphState).
                      render_calls count_label node calls rec' cs (blocks r.0) r.1)
                    same_)
        ]

    known_children :
        (key : Text) → All (λ c. some_of (λ d. d.seq == c.seq) calls ≡ true) (children calls key)
    unfolding children
    known_children key = All-select _ (λ c. same (caller_key c) key) calls (self_known calls)

    children_agree :
        (n n' : ℕ) (key : Text) (s : GraphState)
        → unvisited calls s < n
        → unvisited calls s < n'
        → render_children count_label node calls n key s
          ≡ render_children count_label node calls n' key s
    unfolding render_children
    children_agree zero n' key s h h' = absurd (omega arith)
    children_agree (suc n) zero key s h h' = absurd (omega arith)
    children_agree (suc n) (suc n') key s h h' =
        ap (λ (r : List Block × GraphState). (block_lines count_label r.0, r.1))
          (render_calls-agree (render_children count_label node calls n)
            (render_children count_label node calls n') (unvisited calls s) (children calls key) []
            s (render_children-Keeps n)
            (λ k t less. children_agree n n' k t (omega (arith, less, h)) (omega (arith, less, h')))
            (known_children key) (omega arith))

    -- The drawing of the calls below a caller ends: with fuel above the number of the calls that are
    -- not drawn yet, more of it changes neither the lines nor which calls are drawn.
    pub render_children-enough :
        (n k : ℕ) (caller : Text) (s : GraphState)
        → unvisited calls s < n
        → render_children count_label node calls (n + k) caller s
          ≡ render_children count_label node calls n caller s
    render_children-enough n k caller s h = children_agree (n + k) n caller s (omega (arith, h)) h
