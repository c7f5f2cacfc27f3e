-- ===== src/Guardrail/Reasons.antt =====
-- `GuardrailModel::localizedReason` of plugin/guardrailmodel.cpp. `translate` is i18n.
pub mod Complete
use plasma_ai_usage_monitor.Prelude.{
  Option, none, some, List, [], ◌∷◌, String, if◌then◌else◌, str_eq,
}

abbrev pub reason_texts : List (String × String)
reason_texts =
    ("no-data", "No compatible cost observations are available")
    ∷ ("insufficient-samples", "Not enough complete compatible UTC days are available")
    ∷ ("mixed-value-class", "Actual and estimated costs cannot be combined")
    ∷ ("mixed-currency", "The policy and observations do not use one currency")
    ∷ ("scope-unavailable", "The selected budget scope is unavailable")
    ∷ ("unstable-reset", "The provider reset is not stable and authenticated")
    ∷ ("invalid-policy", "The budget policy is invalid")
    ∷ ("query-failed", "The local budget query failed")
    ∷ ("unknown-currency", "The currency minor-unit precision is unknown")
    ∷ ("insufficient_samples", "Not enough compatible observations")
    ∷ ("insufficient_span", "The observation span is too short")
    ∷ ("stale_data", "The latest compatible observation is stale")
    ∷ ("missing_value", "A required value is unavailable")
    ∷ ("unsupported_source", "The source cannot support this forecast")
    ∷ ("incompatible_window", "The quota window is incompatible")
    ∷ ("reset_detected", "The quota reset changed during the observation series")
    ∷ ("non_monotonic", "The remaining quota increased within one reset window")
    ∷ ("no_consumption", "No quota consumption was observed")
    ∷ ("missing_budget", "No compatible monthly budget is configured")
    ∷ ("mixed_currency", "The observations use more than one currency")
    ∷ ("currency_mismatch", "The budget and observations use different currencies")
    ∷ ("mixed_value_class", "Actual and estimated values cannot share one forecast")
    ∷ ("insufficient_coverage", "Too few completed UTC days are represented")
    ∷ ("incomplete_period", "The forecast period is incomplete")
    ∷ ("cancelled", "The forecast request was superseded")
    ∷ ("query_failed", "The local history query failed")
    ∷ []

pub reason_text : List (String × String) → String → Option String
reason_text [] key = none
reason_text ((k, t) ∷ rest) key = if str_eq k key then some t else reason_text rest key

abbrev or_fallback : (String → String) → String → Option String → String
or_fallback translate key (some t) = translate t
or_fallback translate key none = if str_eq key "" then "" else translate "Forecast unavailable"

unfoldable pub localized_reason : (String → String) → String → String
localized_reason translate key = or_fallback translate key (reason_text reason_texts key)
