-- ===== src/Forecast/Examples.antt =====
-- Tests of plugin/forecastcontract.cpp, and the theorems at concrete inputs.
use plasma_ai_usage_monitor.Prelude.{ℕ, ◌≡◌, refl, true, none, some, [], not, ◌&&◌, if◌then◌else◌}
use plasma_ai_usage_monitor.Prelude.Int.{pos}
use plasma_ai_usage_monitor.Prelude.Plain.{plain, plain-IsQt}
use plasma_ai_usage_monitor.Prelude.Qt.{contains}
use plasma_ai_usage_monitor.Forecast.{
  Result, budget_overrun, safe, warning, usable, actual, state_key, is_state, is_risk,
}
use plasma_ai_usage_monitor.Forecast.Contract.{
  validate, unavailable_fault, available_fault, pacing_fault,
}
use plasma_ai_usage_monitor.Forecast.Wire.{
  parsed, missing_field, to_variant_map, from_variant_map, first_missing,
}
use plasma_ai_usage_monitor.Forecast.Wire.RoundTrip.{from-to_variant_map}
use plasma_ai_usage_monitor.Forecast.Transitions.{transition_for, transition_for-eq}

abbrev month : Result ℕ
month = record {
  contract_version = "budget-pacing-v2";
  kind = budget_overrun;
  state = warning;
  source_id = "openai";
  source_kind = "provider";
  window = "calendar_month";
  scope = "aggregate";
  current_value = some 40;
  projected_value = some 120;
  limit_value = some 100;
  unit = "USD";
  currency = some "USD";
  predicted_at = some (some 2_000_000);
  period_end = some 3_000_000;
  sample_count = pos 12;
  coverage_percent = 100;
  evidence_grade = usable;
  method_id = "budget-pacing-v2";
  reason_key = "";
  generated_at = some 1_000_000;
  value_class = actual;
  policy_id = "p1";
  period_start = some 500_000;
  spent_minor = some (pos 4000);
  remaining_minor = some (pos 6000);
  consumed_percent = some 40;
  projected_period_end_minor = some (pos 12_000);
  predicted_overrun = true;
  safe_today_minor = some (pos 0);
  remaining_daily_allowance_minor = some (pos 300);
  previous_period_spent_minor = none;
  previous_period_change_percent = none;
}

month_valid : validate plain month ≡ none
unfolding validate unavailable_fault available_fault pacing_fault
month_valid = refl

month_currency :
    validate plain (record month { unit = "EUR" }) ≡ some "forecast currency contract is invalid"
unfolding validate unavailable_fault available_fault pacing_fault
month_currency = refl

nothing_read : from_variant_map plain [] ≡ missing_field "kind"
unfolding from_variant_map first_missing contains
nothing_read = refl

from-to_variant_map_example : from_variant_map plain (to_variant_map month) ≡ parsed month
from-to_variant_map_example =
    from-to_variant_map plain plain-IsQt month
      (record {
        current_finite = refl;
        projected_finite = refl;
        limit_finite = refl;
        consumed_finite = refl;
        change_finite = tt;
        currency_trimmed = (refl, λ e. cc);
        predicted_instant = tt;
      })
      month_valid

transition_for-eq_example : transition_for warning safe ≡ (
    if is_risk safe && not (is_state warning safe)
    then state_key safe
    else if is_risk warning && is_state safe safe
    then "recovered"
    else "")
transition_for-eq_example = transition_for-eq warning safe
