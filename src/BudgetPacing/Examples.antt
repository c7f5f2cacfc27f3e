-- ===== src/BudgetPacing/Examples.antt =====
-- Tests of plugin/budgetpacingquery.cpp and plugin/currencyminorunits.cpp, and the theorems at concrete
-- inputs.
use plasma_ai_usage_monitor.Prelude.{
  ◌^◌, ◌<◌, ℕ, zero, suc, ◌<◌, ◌≤◌, ◌+◌, ◌-◌, ◌*◌, ◌/◌, ◌%◌, ◌≡◌, refl, true, false, none, some,
  List, [], ◌∷◌, str_eq, ltb, arith, All, ◌↔◌,
}
use native.Mathlib.Nat.{div-mul-le_self}
use package.text.Mathlib.TextPositions.{eq_refl}
use plasma_ai_usage_monitor.Prelude.Int.{wrap_64, pos, ◌+ℤ◌, ◌-ℤ◌, ◌*ℤ◌, ◌≤ℤ◌, leb_ℤ}
use plasma_ai_usage_monitor.Prelude.Plain.{plain, whole}
use plasma_ai_usage_monitor.Prelude.Doubles.{IsDoubles}
use plasma_ai_usage_monitor.Forecast.{State, actual, is_state, has_text}
use plasma_ai_usage_monitor.Forecast.Contract.{validate}
use plasma_ai_usage_monitor.BillingCycle
use plasma_ai_usage_monitor.BillingCycle.{Calendar, Cycle}
use plasma_ai_usage_monitor.CurrencyMinorUnits.{digits, digits_of, from_major, to_major}
use plasma_ai_usage_monitor.BudgetPacing.{
  Observation, Request, is_complete_utc_day, matches_scope, sum_within, place, latest_from,
  insert_day, baseline_from, expected_days, sort_into, sorted, median, coverage_of,
}
use plasma_ai_usage_monitor.BudgetPacing.Evaluate.{
  Pace, remaining_of, unavailable, first_fault, projected_of, safe_today_of, calendar_days,
  daily_allowance, state_of, result_of, paced, compared, evaluate,
}
use plasma_ai_usage_monitor.BudgetPacing.Days.{total_within}
use plasma_ai_usage_monitor.BudgetPacing.Latest.{IsTable, Covers, latest_from_lem}
use plasma_ai_usage_monitor.BudgetPacing.Amounts.{amounts_fit}
use plasma_ai_usage_monitor.BudgetPacing.Valid.{IsText}
use plasma_ai_usage_monitor.BudgetPacing.Available.{evaluate-valid}

share-le : (k b : ℕ) → 0 < b → k * b ≤ b → ltb 100 (k * 100) ≡ false
share-le zero b positive le = refl
share-le (suc zero) b positive le = refl
share-le (suc (suc k)) b positive le = absurd (omega arith)

whole-IsDoubles : IsDoubles plain whole
whole-IsDoubles = record {
  major-finite = λ a n. refl;
  major-not_less = λ a n. ground arith;
  percent-finite = λ a b positive. refl;
  percent-not_less = λ a b positive. ground arith;
  percent-le = λ a b positive le. share-le (a / b) b positive (omega (arith, div-mul-le_self a b));
  nought-finite = refl;
  nought-not_less = refl;
  nought-le = refl;
}

plain-IsText : IsText plain
plain-IsText = record { method = refl; empty = refl; upper_empty = refl; equal_fold_refl = eq_refl }

-- Days of UTC.
abbrev days : Calendar
days = record {
  is_zone = λ z. str_eq z "UTC";
  local_date = λ z t. t / 86_400_000;
  midnight = λ z d. some (d * 86_400_000);
  day_of_week = λ d. d % 7 + 1;
  with_day = λ d k. d / 30 * 30 + k - 1;
  next_month = λ d. d + 30;
  last_month = λ d. d - 30;
}

abbrev spent_on : ℕ → ℕ → Observation
spent_on day cents = record {
  observed_at = some (100 * 86_400_000);
  interval_start = some (day * 86_400_000);
  interval_end = some ((day + 1) * 86_400_000);
  value_minor = some (pos cents);
  currency = "EUR";
  value_class = actual;
  scope_kind = "";
  scope_identity = "";
}

abbrev week : List Observation
week =
    spent_on 90 100
    ∷ spent_on 91 120
    ∷ spent_on 92 80
    ∷ spent_on 93 100
    ∷ spent_on 94 110
    ∷ spent_on 95 90
    ∷ spent_on 96 100
    ∷ []

-- A period of thirty days with three days left.
abbrev budget : Request
budget = record {
  policy_id = "policy";
  source_id = "openai";
  source_kind = "provider";
  scope_mode = "aggregate";
  scope_kind = "";
  scope_identity = "";
  scope_label = "";
  value_class = actual;
  limit_minor = pos 1_500;
  currency = "EUR";
  warning_percent = pos 80;
  critical_percent = pos 95;
  period_type = "calendar_month";
  time_zone_id = "UTC";
  cycle = record {
    start_utc = some (70 * 86_400_000);
    end_utc = some (100 * 86_400_000);
    reason_key = "";
  };
  previous_cycle = record { start_utc = none; end_utc = none; reason_key = "" };
  generated_at = some (97 * 86_400_000);
  preflight_reason = "";
  observations = week;
}

abbrev over_limit : Request
over_limit = record budget { limit_minor = pos 600 }

abbrev mixed : Request
mixed = record budget { currency = "USD" }

-- 700 cents are spent, and a usual day costs 100.
three_days_left : (evaluate plain whole days budget).projected_period_end_minor ≡ some (pos 1_000)
unfolding evaluate compared first_fault paced latest_from matches_scope place sum_within
    baseline_from is_complete_utc_day insert_day coverage_of expected_days result_of projected_of
    median sorted sort_into digits digits_of unavailable BillingCycle.is_valid has_text ◌+ℤ◌ wrap_64
three_days_left = refl

spent_too_much : (evaluate plain whole days over_limit).state ≡ State.exceeded
unfolding evaluate compared first_fault paced latest_from matches_scope place sum_within
    baseline_from is_complete_utc_day insert_day coverage_of expected_days result_of projected_of
    median sorted sort_into digits digits_of unavailable BillingCycle.is_valid has_text ◌+ℤ◌ wrap_64
    state_of
spent_too_much = refl

two_currencies : (evaluate plain whole days mixed).reason_key ≡ "mixed-currency"
unfolding evaluate compared first_fault paced latest_from matches_scope place sum_within
    baseline_from is_complete_utc_day insert_day coverage_of expected_days result_of projected_of
    median sorted sort_into digits digits_of unavailable BillingCycle.is_valid has_text ◌+ℤ◌ wrap_64
two_currencies = refl

within_budget : is_state (evaluate plain whole days budget).state State.unavailable ≡ false
unfolding evaluate compared first_fault paced latest_from matches_scope place sum_within
    baseline_from is_complete_utc_day insert_day coverage_of expected_days result_of projected_of
    median sorted sort_into digits digits_of unavailable BillingCycle.is_valid has_text ◌+ℤ◌ wrap_64
    state_of ◌-ℤ◌
within_budget = refl

week_fits : total_within (latest_from budget [] week) budget.cycle < 2 ^ 63
unfolding latest_from matches_scope place
week_fits = omega arith

evaluate-valid_example : validate plain (evaluate plain whole days budget) ≡ none
evaluate-valid_example =
    evaluate-valid plain whole days plain-IsText whole-IsDoubles budget refl refl week_fits
      within_budget

latest_from_lem_example :
    let table = latest_from budget [] week in
    IsTable table
    × All (λ o. matches_scope budget o ≡ true → Covers table o) week
    × ((P : Observation → Type 0)
        → All (λ o. matches_scope budget o ≡ true → P o) week
        → All P table)
latest_from_lem_example = latest_from_lem budget week

abbrev pace : Pace ℕ
pace = record {
  now = 97 * 86_400_000;
  currency = "EUR";
  spent = pos 700;
  sample_count = 7;
  coverage = 100;
  daily_baseline = 100;
  previous = (pos 0, false);
}

amounts_fit_example :
    (remaining_of plain whole days budget (pos 700) +ℤ pos 700 ≡ pos 1_500)
    × (pos 700 ≤ℤ projected_of plain whole days budget pace)
    × (pos 0 ≤ℤ safe_today_of plain whole days budget pace)
    × (safe_today_of plain whole days budget pace ≤ℤ remaining_of plain whole days budget (pos 700))
    × (daily_allowance plain whole days budget pace
          *ℤ pos (calendar_days plain whole days budget pace.now)
        ≤ℤ remaining_of plain whole days budget (pos 700))
    × ((is_state (state_of plain whole days budget pace) State.exceeded ≡ true)
        ↔ (pos 1_500 ≤ℤ pos 700))
    × ((is_state (state_of plain whole days budget pace) State.safe ≡ true)
        → leb_ℤ (pos 1_500) (projected_of plain whole days budget pace) ≡ false)
amounts_fit_example = amounts_fit plain whole days budget pace

cents_of_yen : from_major plain whole 12 "JPY" ≡ some (pos 12)
unfolding from_major digits digits_of has_text
cents_of_yen = refl

fils : to_major plain whole (pos 12_000) "KWD" ≡ some 12
unfolding to_major digits digits_of has_text
fils = refl
