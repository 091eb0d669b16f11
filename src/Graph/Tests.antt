-- ===== src/Graph/Tests.antt =====
-- internal/core/graph.go: the drawing of a small run.
use testigo.Base.{ℕ, ◌+◌, List, [], ◌∷◌, none, has, ℕ_discrete, ◌≡◌, refl, arith}
use testigo.Base.Text.{Text, codes}
use testigo.Spy.{CallRecord}
use testigo.Graph.{GraphState, render_children, draw_graph}
use testigo.Graph.Ending.{render_children-enough}

abbrev from_to : ℕ → Text → Text → CallRecord ℕ
from_to n a b = record {
  caller_component = a;
  caller_method = codes "m";
  callee_component = b;
  callee_method = codes "m";
  call_site_file = codes "a.go";
  call_site_line = 1;
  params = [];
  snapshots = none;
  seq = n;
  time = n;
}

-- a calls b twice, b calls c, and c calls b.
abbrev run : List (CallRecord ℕ)
run =
    from_to 1 (codes "a") (codes "b")
    ∷ from_to 2 (codes "b") (codes "c")
    ∷ from_to 3 (codes "c") (codes "b")
    ∷ from_to 4 (codes "a") (codes "b")
    ∷ []

abbrev plain_node : CallRecord ℕ → List ℕ → Text × List Text × List ℕ
plain_node c used = (c.callee_component, [], used)

abbrev twice : ℕ → Text
twice n = codes " (x2)"

abbrev start : GraphState
start = record { visited = []; used = [] }

drawn_example :
    draw_graph twice plain_node run 5
    ≡ (
      codes "a.m",
      codes "├─▶ b" ∷ codes "│    └─▶ c" ∷ codes "│         └─▶ b" ∷ codes "└─▶ b" ∷ [],
    )
      ∷ []
unfolding draw_graph ℕ_discrete
drawn_example = refl

-- Where two components call one another and another pair has a root, the two are not drawn.
abbrev with_cycle : List (CallRecord ℕ)
with_cycle =
    from_to 1 (codes "a") (codes "b")
    ∷ from_to 2 (codes "x") (codes "y")
    ∷ from_to 3 (codes "y") (codes "x")
    ∷ []

cycle_example : draw_graph twice plain_node with_cycle 4 ≡ (codes "a.m", codes "└─▶ b" ∷ []) ∷ []
unfolding draw_graph ℕ_discrete
cycle_example = refl

render_children-enough_example :
    render_children twice plain_node run (5 + 7) (codes "a.m") start
    ≡ render_children twice plain_node run 5 (codes "a.m") start
unfolding has
render_children-enough_example =
    render_children-enough twice plain_node run 5 7 (codes "a.m") start (omega arith)
