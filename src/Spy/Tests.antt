-- ===== src/Spy/Tests.antt =====
-- internal/core/spy.go: the theorems on checks at a concrete run. Two methods record three calls.
use testigo.Base.{
  ℕ, ◌*◌, ◌==◌, has, true, false, List, [], ◌∷◌, none, All, length, select, ℕ_discrete, some_of,
  ◌||◌, ◌≡◌, ◌≢◌, ◌↔◌, refl, if◌then◌else◌, ◌+◌,
}
use testigo.Base.Int.{pos}
use testigo.Base.Text.{Text, codes, text_dec}
use testigo.Spy.{CallRecord, Expected, exactly, CalledFunc}
use testigo.Spy.Match.{filter_matching_calls, calls_of, calls_by_func}
use mathlib.Core.List.{lookup}
use testigo.Spy.Verify.{is_test_call, collect_calls, assert_calls, check_uncovered_calls}
use testigo.Spy.Selecting.{matches, named}
use testigo.Spy.Counting.{IsMet, assert_calls-one}
use testigo.Spy.Uncovered.{covers, check_uncovered_calls-nil}
use testigo.Spy.Order.{before, in_order, out_of_order, assert_order}
use testigo.Spy.Extremes.{Ordered}
use testigo.Spy.Ordering.{assert_order-Ordered}

abbrev pub charge : ℕ → ℕ → CallRecord ℕ
charge n amount = record {
  caller_component = codes "shop.Cashier";
  caller_method = codes "Pay";
  callee_component = codes "bank.Gateway";
  callee_method = codes "Charge";
  call_site_file = codes "cashier.go";
  call_site_line = 12;
  params = amount ∷ [];
  snapshots = none;
  seq = n;
  time = 10 * n;
}

abbrev pub notify : ℕ → CallRecord ℕ
notify n = record (charge n 0) { callee_method = codes "Notify"; params = [] }

abbrev pub both_spies : List (List (CallRecord ℕ))
both_spies = (charge 1 50 ∷ charge 2 70 ∷ []) ∷ (notify 3 ∷ []) ∷ []

abbrev pub expect : Text → List (Expected ℕ) → CalledFunc ℕ
expect name args = record {
  expected_args = args;
  caller_component = [];
  callee_component = codes "bank.Gateway";
  func_name = name;
  err = none;
  return_count = 0;
  times = pos 1;
  at_least = false;
  site_file = codes "/s/a_test.go";
  site_line = 3;
}

abbrev pub charged_70 : CalledFunc ℕ
charged_70 = expect (codes "Charge") (exactly 70 ∷ [])

abbrev pub charged : CalledFunc ℕ
charged = expect (codes "Charge") []

abbrev pub notified : CalledFunc ℕ
notified = expect (codes "Notify") []

assert_calls-one_example : (assert_calls ◌==◌ false (charged_70 ∷ []) both_spies ≡ []) ↔ (
    (charged_70.err ≡ none)
    × IsMet
        (length (select (matches ◌==◌ charged_70) (collect_calls both_spies)))
        charged_70.times
        charged_70.at_least)
assert_calls-one_example = assert_calls-one ◌==◌ charged_70 both_spies

check_uncovered_calls-nil_example :
    (check_uncovered_calls ◌==◌ (charged_70 ∷ notified ∷ []) both_spies ≡ [])
    ↔ All
        (λ c.
          (is_test_call c || some_of (λ a. covers ◌==◌ a c) (charged_70 ∷ notified ∷ [])) ≡ true)
        (collect_calls both_spies)
unfolding collect_calls has ℕ_discrete
check_uncovered_calls-nil_example =
    check_uncovered_calls-nil ◌==◌ (charged_70 ∷ notified ∷ []) both_spies
      (refl, (refl, (refl, tt)))

assert_order-Ordered_example :
    (assert_order ◌==◌ charged notified before (pos 0) both_spies ≡ in_order) ↔ (
      (charged.err ≡ none)
      × (notified.err ≡ none)
      × (select (matches ◌==◌ charged) (collect_calls both_spies) ≢ [])
      × (select (named notified.func_name) (collect_calls both_spies) ≢ [])
      × Ordered before
          (pos 0)
          (select (matches ◌==◌ charged) (collect_calls both_spies))
          (select (named notified.func_name) (collect_calls both_spies)))
assert_order-Ordered_example = assert_order-Ordered ◌==◌ charged notified before (pos 0) both_spies

-- The order test runs: both charges come before the notice, and not the other way round.
charge_first : assert_order ◌==◌ charged notified before (pos 0) both_spies ≡ in_order
unfolding assert_order filter_matching_calls calls_of lookup calls_by_func collect_calls text_dec
charge_first = refl

-- A second component with a method Notify, called before the charges.
abbrev notify_mail : CallRecord ℕ
notify_mail = record (notify 0) { callee_component = codes "mail.Sender" }

-- Every charge comes before the notice of the gateway, but that of the mail breaks the chain.
mail_breaks_order :
    assert_order ◌==◌ charged notified before (pos 0) ((notify_mail ∷ []) ∷ both_spies)
    ≡ out_of_order
unfolding assert_order filter_matching_calls calls_of lookup calls_by_func collect_calls text_dec
mail_breaks_order = refl

-- One of the charges is not the expected one, so the final check reports it.
charge_50_uncovered :
    length (check_uncovered_calls ◌==◌ (charged_70 ∷ notified ∷ []) both_spies) ≡ 1
unfolding check_uncovered_calls filter_matching_calls calls_of lookup calls_by_func collect_calls
    text_dec
charge_50_uncovered = refl

-- How many differences two numbers add.
abbrev one_if_other : ℕ → ℕ → ℕ → ℕ
one_if_other v w n = if v == w then n else n + 1
