-- ===== src/Graph.antt =====
-- internal/core/graph.go: the tree of recorded calls that a failure shows. A text is a list of code
-- points. `node` stands for renderNode: the line and the notes of a call, and the failures that are used
-- up by then, which it is given as well; what it prints is not modelled.
pub mod Ending
pub mod Tests
use testigo.Base.{
  ℕ, zero, suc, ◌+◌, Bool, true, false, not, ◌&&◌, List, [], ◌∷◌, ◌++◌, map, has, ℕ_discrete,
  some_of, select, if◌then◌else◌, ltb,
}
use testigo.Base.Text.{Text, codes, same, join}
use testigo.Spy.{CallRecord}

abbrev pub caller_key : {V : Type 0} → CallRecord V → Text
caller_key c = c.caller_component ++ (codes "." ++ c.caller_method)

abbrev pub callee_key : {V : Type 0} → CallRecord V → Text
callee_key c = c.callee_component ++ (codes "." ++ c.callee_method)

-- `children[caller]`
unfoldable pub children : {V : Type 0} → List (CallRecord V) → Text → List (CallRecord V)
unfolding same
children calls caller = select (λ c. same (caller_key c) caller) calls

-- `callerOrder`: each caller where it is first met, behind those that were met before.
unfoldable pub caller_order : {V : Type 0} → List Text → List (CallRecord V) → List Text
unfolding same
caller_order met [] = []
caller_order met (c ∷ cs) =
    let key = caller_key c in
    if some_of (λ k. same k key) met then caller_order met cs else key ∷ caller_order (key ∷ met) cs

-- `calleeSet[key]`
abbrev pub is_callee : {V : Type 0} → List (CallRecord V) → Text → Bool
is_callee calls key = some_of (λ c. same (callee_key c) key) calls

abbrev pub or_all : List Text → List Text → List Text
or_all [] order = order
or_all (r ∷ rs) order = r ∷ rs

unfoldable pub roots : {V : Type 0} → List (CallRecord V) → List Text
unfolding caller_order
roots calls =
    let order = caller_order [] calls in or_all (select (λ k. not (is_callee calls k)) order) order

-- The calls drawn so far, by their numbers, and the failures used.
pub record GraphState : Type 0 where
  pub visited : List ℕ
  pub used : List ℕ

pub record Block : Type 0 where
  pub head : Text
  pub sub : List Text
  pub count : ℕ

abbrev pub same_block : Block → Text → List Text → Bool
same_block b head sub = same b.head head && same (join b.sub 10) (join sub 10)

-- A block like the last one is counted there.
unfoldable pub add_block : List Block → Text → List Text → List Block
unfolding same join
add_block [] head sub = record { head = head; sub = sub; count = 1 } ∷ []
add_block (b ∷ []) head sub =
    if same_block b head sub
    then record b { count = b.count + 1 } ∷ []
    else b ∷ record { head = head; sub = sub; count = 1 } ∷ []
add_block (b ∷ c ∷ bs) head sub = b ∷ add_block (c ∷ bs) head sub

module _ (count_label : ℕ → Text) where
  abbrev pub block_head : Block → Text
  block_head b = if ltb 1 b.count then b.head ++ count_label b.count else b.head

  -- The lines of the blocks; the last one closes the branch.
  unfoldable pub block_lines : List Block → List Text
  block_lines [] = []
  block_lines (b ∷ []) = (codes "└─▶ " ++ block_head b) ∷ map (λ s. codes "     " ++ s) b.sub
  block_lines (b ∷ c ∷ bs) =
      (codes "├─▶ " ++ block_head b) ∷ (map (λ s. codes "│    " ++ s) b.sub ++ block_lines (c ∷ bs))

  module _ {V : Type 0} (node : CallRecord V → List ℕ → Text × List Text × List ℕ)
      (calls : List (CallRecord V)) where
    -- The loop of `renderChildren`, with its call of itself.
    unfoldable pub render_calls :
        (Text → GraphState → List Text × GraphState)
        → List (CallRecord V)
        → List Block
        → GraphState
        → List Block × GraphState
    unfolding add_block has
    render_calls rec [] blocks s = (blocks, s)
    render_calls rec (c ∷ cs) blocks s =
        let (head, notes, used) = node c s.used in
        let (below, s') =
          rec (callee_key c) (record { visited = c.seq ∷ s.visited; used = used }) in
        let rest =
          render_calls rec cs (add_block blocks head (map (λ n. codes "  " ++ n) notes ++ below))
            s' in
        let skipped = render_calls rec cs blocks s in
        if has ℕ_discrete c.seq s.visited then skipped else rest

    -- `renderChildren`; nothing is drawn where the fuel is out.
    unfoldable pub render_children : ℕ → Text → GraphState → List Text × GraphState
    unfolding render_calls block_lines children
    render_children zero caller s = ([], s)
    render_children (suc fuel) caller s =
        let (blocks, s') = render_calls (render_children fuel) (children calls caller) [] s in
        (block_lines blocks, s')

    -- The loop of `DrawGraph` over the roots: each with the lines below it.
    unfoldable pub draw_roots : ℕ → List Text → GraphState → List (Text × List Text)
    unfolding render_children
    draw_roots fuel [] s = []
    draw_roots fuel (r ∷ rs) s =
        let (lines, s') = render_children fuel r s in (r, lines) ∷ draw_roots fuel rs s'

    unfoldable pub draw_graph : ℕ → List (Text × List Text)
    unfolding draw_roots roots
    draw_graph fuel = draw_roots fuel (roots calls) (record { visited = []; used = [] })
