-- ===== src/Runtime/Tests.antt =====
-- The theorems on the state of a test run at a concrete run: a test with a subtest and one double.
use testigo.Base.{
  ℕ, ◌≤◌, true, List, [], ◌∷◌, some, has, ℕ_discrete, ok, ◌↔◌, ◌⊎◌, ◌≡◌, refl, arith,
}
use testigo.Base.Text.{codes}
use testigo.Spy.{Frame}
use testigo.Spy.Selecting.{seqs}
use testigo.Spy.Verify.{collect_calls}
use testigo.Runtime.{
  Runtime, next_seq, parent_test, current_t, visited, add_owned_spies, collect_test_calls,
}
use testigo.Runtime.Steps.{IsFresh}
use testigo.Runtime.History.{Event, calls, clears, run, after_call, after_call-IsFresh, run-IsFresh}
use mathlib.Core.List.{lookup}
use testigo.Runtime.Visible.{IsForest, IsOwned, add_owned_spies-IsOwned}
use testigo.Runtime.Collected.{owned_call_visible}

abbrev pub copy : ℕ → ℕ
copy v = v

abbrev pub gateway : Frame
gateway = record {
  function = codes "example.com/bank.(*Gateway).Charge";
  file = codes "/b/gateway.go";
  line = 9;
}

abbrev pub cashier : Frame
cashier = record {
  function = codes "example.com/shop.(*Cashier).Pay";
  file = codes "/s/cashier.go";
  line = 12;
}

-- Goroutine 1 runs the subtest 5 of the test 2, which owns the spy 8.
abbrev pub started : Runtime ℕ
started = record {
  call_seq = 0;
  spies = [];
  test_spies = [];
  goroutine_tests = (1, 5) ∷ [];
  test_double_spies = (2, 8 ∷ []) ∷ [];
  subtest_parent = (5, 2) ∷ [];
  observed_methods = [];
  asserted_methods = [];
}

pub started-IsFresh : IsFresh started
unfolding lookup
started-IsFresh = record { bounded = λ m. tt; distinct = λ m. tt; apart = λ m n e. tt }

abbrev pub events : List (Event ℕ)
events =
    calls 1 8 gateway (cashier ∷ []) 100 (50 ∷ [])
    ∷ clears 8
    ∷ calls 3 8 gateway (cashier ∷ []) 120 (70 ∷ [])
    ∷ calls 1 9 gateway [] 130 []
    ∷ []

run-IsFresh_example :
    (z : Runtime ℕ) × (run copy started events ≡ ok z) × IsFresh z × (z.call_seq ≤ 4)
run-IsFresh_example = run-IsFresh copy started events (omega arith) started-IsFresh

-- The state after a call from another goroutine.
abbrev charged : Runtime ℕ
charged = after_call copy 3 8 gateway (cashier ∷ []) 100 (50 ∷ []) started

charged-IsFresh : IsFresh charged
charged-IsFresh =
    after_call-IsFresh copy 3 8 gateway (cashier ∷ []) 100 (50 ∷ []) started (omega arith)
      started-IsFresh

owned_call_visible_example :
    let z = after_call copy 3 8 gateway (cashier ∷ []) 100 (50 ∷ []) started in
    has ℕ_discrete (next_seq started) (seqs (collect_calls (collect_test_calls 6 z 1))) ≡ true
unfolding parent_test current_t has lookup ℕ_discrete
owned_call_visible_example =
    owned_call_visible copy 3 8 gateway (cashier ∷ []) 100 (50 ∷ []) started 6 1 5 1 2 refl
      (2, refl, refl) (omega arith) refl

started-IsForest : IsForest started
unfolding parent_test lookup
started-IsForest c p e = ground arith

add_owned_spies-IsOwned_example :
    ((visited 6 started (some 5)).1 ≡ true)
    × ((m : ℕ)
        → (has ℕ_discrete m (add_owned_spies 6 started (some 5) (9 ∷ [])) ≡ true)
          ↔ ((has ℕ_discrete m (9 ∷ []) ≡ true) ⊎ IsOwned started 5 m))
add_owned_spies-IsOwned_example =
    add_owned_spies-IsOwned 6 5 started (9 ∷ []) started-IsForest (omega arith)

-- The subtest owns no spy; the walk from it takes that of the test above.
walk_up : add_owned_spies 6 started (some 5) (9 ∷ []) ≡ 9 ∷ 8 ∷ []
unfolding add_owned_spies parent_test has lookup ℕ_discrete
walk_up = refl
