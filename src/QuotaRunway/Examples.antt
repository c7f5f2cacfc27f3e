-- ===== src/QuotaRunway/Examples.antt =====
-- Tests of plugin/quotarunwayquery.cpp, and the theorems at concrete inputs.
use plasma_ai_usage_monitor.Prelude.{ℕ, ◌+◌, ◌*◌, ◌≡◌, ◌≤◌, refl, false, some, [], ◌∷◌, length, All}
use plasma_ai_usage_monitor.Prelude.Qt.{DateTime}
use plasma_ai_usage_monitor.Prelude.Plain.{plain, whole}
use plasma_ai_usage_monitor.Forecast.{State, is_state, has_text}
use plasma_ai_usage_monitor.QuotaRunway.{
  Sample, Request, sort_into, sorted, bounded_samples, supported_source, sort_value, sorted_values,
  median, gaps_from, covered_from, coverage, slopes_of, slopes, consumption_slope, deviations_from,
  volatility,
}
use plasma_ai_usage_monitor.QuotaRunway.Evaluate.{
  unavailable, first_fault, refills, projected, evaluate_sorted, evaluate,
}
use plasma_ai_usage_monitor.QuotaRunway.Evidence.{IsUsable, IsSeries, evaluate-IsUsable}
use plasma_ai_usage_monitor.QuotaRunway.Prediction.{IsCoherent, evaluate-IsCoherent}

-- A sample, so many minutes after the first.
abbrev after : ℕ → ℕ → Sample ℕ
after minutes left = record {
  observed_at = some (1_000_000_000 + minutes * 60_000);
  reset_at = some 1_030_000_000;
  remaining = some left;
  limit = some 100_000;
  unit = "tokens";
  source = "usage_api";
}

abbrev quota : Request ℕ
quota = record {
  source_id = "openai";
  source_kind = "provider";
  window = "daily";
  scope = "account";
  unit = "tokens";
  samples =
      after 0 100_000 ∷ after 10 94_000 ∷ after 30 82_000 ∷ after 20 88_000 ∷ after 40 76_000 ∷ [];
}

abbrev refilled : Request ℕ
refilled = record quota { samples = after 50 90_000 ∷ quota.samples }

abbrev now : DateTime
now = some 1_002_400_000

-- Ten tokens a second are used, and 76000 remain.
lasts_7600_seconds : (evaluate plain whole quota now).predicted_at ≡ some (some 1_010_000_000)
unfolding evaluate evaluate_sorted first_fault refills projected unavailable sort_into sorted
    bounded_samples supported_source sort_value sorted_values median gaps_from covered_from coverage
    slopes_of slopes consumption_slope deviations_from volatility has_text
lasts_7600_seconds = refl

not_monotonic : (evaluate plain whole refilled (some 1_003_000_000)).reason_key ≡ "non_monotonic"
unfolding evaluate evaluate_sorted first_fault refills projected unavailable sort_into sorted
    bounded_samples supported_source sort_value sorted_values median gaps_from covered_from coverage
    slopes_of slopes consumption_slope deviations_from volatility has_text
not_monotonic = refl

forecast_given : is_state (evaluate plain whole quota now).state State.unavailable ≡ false
unfolding evaluate evaluate_sorted first_fault refills projected unavailable sort_into sorted
    bounded_samples supported_source sort_value sorted_values median gaps_from covered_from coverage
    slopes_of slopes consumption_slope deviations_from volatility has_text
forecast_given = refl

evaluate-IsUsable_example :
    (4 ≤ length quota.samples)
    × All (IsUsable plain whole quota now) quota.samples
    × IsSeries plain whole now (sorted quota.samples)
evaluate-IsUsable_example = evaluate-IsUsable plain whole quota now forecast_given

evaluate-IsCoherent_example : IsCoherent (evaluate plain whole quota now)
evaluate-IsCoherent_example = evaluate-IsCoherent plain whole quota now
