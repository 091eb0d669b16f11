-- ===== src/Runtime.antt =====
-- The state that internal/core keeps for a test run: spy.go (`Call`, `Clear`, `TotalCalls`,
-- `collectTestCalls`), mutations.go (which test a goroutine runs), doubles.go (which spies a test
-- owns) and coverage.go (what was seen and asserted). Spies, tests and goroutines are numbers: their
-- addresses and ids. Each sync.Map is a dictionary and each method one step, since the locks and the
-- maps of package sync make the methods atomic. `getTestID` always finds an id. The cleanups that drop
-- the entries of a test when it ends are not modelled.
pub mod Steps
pub mod History
pub mod Visible
pub mod Collected
pub mod Coverage
pub mod Tests
use testigo.Base.{
  ℕ, zero, suc, ◌+◌, ◌%◌, ◌^◌, Bool, true, false, not, ◌&&◌, ◌||◌, List, [], ◌∷◌, ◌++◌, map, Option,
  none, some, length, has, if◌then◌else◌, is_some, ℕ_discrete, Outcome, ok, panic, ◌>>=◌,
}
use testigo.Base.Text.{Text, codes, same, is_empty, path_base, text_dec}
use testigo.Base.Dict.{store, discard}
use testigo.Spy.{CallRecord, Frame, Spy}
use testigo.Spy.Names.{split_full_func_name, unknown, dot}
use mathlib.Core.List.{lookup}
use mathlib.Core.Option

pub record Runtime (V : Type 0) : Type 0 where
  pub call_seq : ℕ
  pub spies : List (ℕ × Spy V)
  -- goroutine to the spies called on it
  pub test_spies : List (ℕ × List ℕ)
  -- goroutine to test
  pub goroutine_tests : List (ℕ × ℕ)
  -- test to the spies of its doubles
  pub test_double_spies : List (ℕ × List ℕ)
  -- subtest to test
  pub subtest_parent : List (ℕ × ℕ)
  pub observed_methods : List (Text × ℕ)
  pub asserted_methods : List (Text × Unit {0})

-- The value of a key, or the zero value of its type.
abbrev pub value_or : {A : Type 0} → ℕ → A → List (ℕ × A) → A
value_or k default m = Option.get_or (lookup ℕ_discrete k m) default

abbrev pub zero_spy : {V : Type 0} → Spy V
zero_spy = record { calls = []; locked = false }

-- A Spy that nothing was called on is the zero value.
abbrev pub spy_at : {V : Type 0} → Runtime V → ℕ → Spy V
spy_at w m = value_or m zero_spy w.spies

-- A set as a list: an element is put in once.
abbrev pub add_to_set : ℕ → List ℕ → List ℕ
add_to_set a s = if has ℕ_discrete a s then s else s ++ a ∷ []

-- The loop of `registerDoubleSpies`.
abbrev pub add_all_to_set : List ℕ → List ℕ → List ℕ
add_all_to_set [] s = s
add_all_to_set (a ∷ as_) s = add_all_to_set as_ (add_to_set a s)

abbrev pub empty_frame : Frame
empty_frame = record { function = []; file = []; line = 0 }

-- The frame behind the callee's, if the stack holds one.
abbrev pub caller_frame : List Frame → Frame
caller_frame [] = empty_frame
caller_frame (f ∷ fs) = f

module _ {V : Type 0} where
  -- `noteObserved`
  unfoldable pub note_observed : Text → Text → Runtime V → Runtime V
  unfolding same
  note_observed component method w =
      let key = component ++ dot ∷ method in
      if is_empty component || same component unknown then w else record w {
        observed_methods =
            store text_dec key (Option.get_or (lookup text_dec key w.observed_methods) 0 + 1)
              w.observed_methods;
      }

  -- `noteAsserted`
  unfoldable pub note_asserted : Text → Text → Runtime V → Runtime V
  note_asserted component method w = if is_empty component then w else record w {
    asserted_methods = store text_dec (component ++ dot ∷ method) tt w.asserted_methods;
  }

  -- The spy joins those called on the goroutine.
  unfoldable pub note_test_spy : ℕ → ℕ → Runtime V → Runtime V
  unfolding has
  note_test_spy goroutine m w = record w {
    test_spies =
        store ℕ_discrete goroutine (add_to_set m (value_or goroutine [] w.test_spies)) w.test_spies;
  }

  -- The record that a call makes.
  unfoldable pub make_record : Frame → List Frame → List V → List V → ℕ → ℕ → CallRecord V
  unfolding split_full_func_name path_base
  make_record callee callers params snapshots seq now =
      let caller = caller_frame callers in
      record {
        caller_component = (split_full_func_name caller.function).0;
        caller_method = (split_full_func_name caller.function).1;
        callee_component = (split_full_func_name callee.function).0;
        callee_method = (split_full_func_name callee.function).1;
        call_site_file = if is_empty caller.file then [] else path_base caller.file;
        call_site_line = caller.line;
        params = params;
        snapshots = some snapshots;
        seq = seq;
        time = now;
      }

  -- `callSeq.Add(1)` on a uint64.
  abbrev pub next_seq : Runtime V → ℕ
  next_seq w = (w.call_seq + 1) % 2 ^ 64

  -- The append to the calls of a Spy, under its lock.
  unfoldable pub append_call : ℕ → Frame → List Frame → List V → List V → ℕ → Runtime V → Runtime V
  unfolding make_record
  append_call m callee callers params snapshots now w = record w {
    call_seq = next_seq w;
    spies =
        store ℕ_discrete m
          (record {
            calls =
                (spy_at w m).calls
                ++ make_record callee callers params snapshots (next_seq w) now ∷ [];
            locked = true;
          })
          w.spies;
  }

  -- `Call` on the Spy m, or on nil. `copy` is the deep copy of an argument, `stack` the frames that
  -- runtime.Callers gives, the callee's first, and `now` the clock.
  unfoldable pub call :
      (V → V) → ℕ → Option ℕ → List Frame → ℕ → List V → Runtime V → Outcome (Runtime V)
  unfolding note_test_spy note_observed append_call
  call copy goroutine none stack now params w = panic
  call copy goroutine (some m) [] now params w = panic
  call copy goroutine (some m) (callee ∷ callers) now params w =
      let (component, method) = split_full_func_name callee.function in
      ok (
        append_call m callee callers params (map copy params) now
          (note_observed component method (note_test_spy goroutine m w)))

  -- `Clear`, and `Reset`
  unfoldable pub clear : ℕ → Runtime V → Runtime V
  clear m w = record w { spies = store ℕ_discrete m (record { calls = []; locked = true }) w.spies }

  unfoldable pub total_calls : Runtime V → ℕ → ℕ
  total_calls w m = let s = spy_at w m in if not s.locked then 0 else length s.calls

  -- `bindGoroutine`: the new binding, and the one to restore.
  unfoldable pub bind_goroutine : ℕ → ℕ → Runtime V → Runtime V × Option ℕ
  bind_goroutine goroutine t w = (
    record w { goroutine_tests = store ℕ_discrete goroutine t w.goroutine_tests },
    lookup ℕ_discrete goroutine w.goroutine_tests,
  )

  -- The function that `bindGoroutine` returns.
  unfoldable pub unbind_goroutine : ℕ → Option ℕ → Runtime V → Runtime V
  unbind_goroutine goroutine (some t) w = record w {
    goroutine_tests = store ℕ_discrete goroutine t w.goroutine_tests;
  }
  unbind_goroutine goroutine none w = record w {
    goroutine_tests = discard ℕ_discrete goroutine w.goroutine_tests;
  }

  unfoldable pub current_t : Runtime V → ℕ → Option ℕ
  current_t w goroutine = lookup ℕ_discrete goroutine w.goroutine_tests

  unfoldable pub register_double_spies : ℕ → List ℕ → Runtime V → Runtime V
  unfolding has
  register_double_spies t [] w = w
  register_double_spies t (m ∷ ms) w = record w {
    test_double_spies =
        store ℕ_discrete t (add_all_to_set (m ∷ ms) (value_or t [] w.test_double_spies))
          w.test_double_spies;
  }

  unfoldable pub register_subtest : ℕ → ℕ → Runtime V → Runtime V
  register_subtest child parent w = record w {
    subtest_parent = store ℕ_discrete child parent w.subtest_parent;
  }

  unfoldable pub parent_test : Runtime V → ℕ → Option ℕ
  parent_test w t = lookup ℕ_discrete t w.subtest_parent

  -- The tests that the loop of `addOwnedSpies` comes to from a test up, and whether it then ends, at
  -- the test that is nil; the fuel bounds its rounds.
  unfoldable pub visited : ℕ → Runtime V → Option ℕ → List ℕ × Bool
  unfolding parent_test
  visited zero w none = ([], true)
  visited zero w (some t) = ([], false)
  visited (suc fuel) w none = ([], true)
  visited (suc fuel) w (some t) =
      let (above, ended) = visited fuel w (parent_test w t) in (t ∷ above, ended)

  -- The body of the loop, for each test that it comes to.
  unfoldable pub add_spies_of : Runtime V → List ℕ → List ℕ → List ℕ
  unfolding has
  add_spies_of w [] s = s
  add_spies_of w (t ∷ ts) s =
      add_spies_of w ts (add_all_to_set (value_or t [] w.test_double_spies) s)

  unfoldable pub add_owned_spies : ℕ → Runtime V → Option ℕ → List ℕ → List ℕ
  unfolding visited add_spies_of
  add_owned_spies fuel w cur s = add_spies_of w (visited fuel w cur).0 s

  -- The spies whose calls a check on a goroutine sees.
  unfoldable pub spy_set : ℕ → Runtime V → ℕ → List ℕ
  unfolding add_owned_spies current_t has
  spy_set fuel w goroutine =
      add_owned_spies fuel w (current_t w goroutine)
        (add_all_to_set (value_or goroutine [] w.test_spies) [])

  -- The calls of the spies whose lock is made.
  abbrev pub calls_seen : Spy V → List (CallRecord V)
  calls_seen s = if s.locked then s.calls else []

  unfoldable pub collect_test_calls : ℕ → Runtime V → ℕ → List (List (CallRecord V))
  unfolding spy_set
  collect_test_calls fuel w goroutine =
      map (λ m. calls_seen (spy_at w m)) (spy_set fuel w goroutine)
