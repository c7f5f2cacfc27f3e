-- ===== src/Provider/Metrics/Examples.antt =====
-- Tests of the metrics of plugin/providerbackend.cpp, and the theorems at concrete inputs.
use plasma_ai_usage_monitor.Prelude.{ℕ, Bool, false, none, some, List, [], ◌∷◌, String}
use plasma_ai_usage_monitor.Provider.Metrics.{
  cost, requests, billing_api, estimated_pricing, Metric, make_metric, plain_scopes,
}
use plasma_ai_usage_monitor.Provider.Metrics.Replacing.{Distinct}
use plasma_ai_usage_monitor.Provider.Metrics.History.{
  Op, sets, clears, ages, perform_all, perform_all-Distinct,
}

abbrev never : String → Bool
never s = false

abbrev estimated : List (Metric ℕ)
estimated =
    make_metric never cost (some 3) "USD" "USD" (plain_scopes "api_key" "current") estimated_pricing
      "estimated" none (some 1)
    ∷ []

abbrev history : List (Op ℕ)
history =
    sets cost (some 3) "USD" "USD" (plain_scopes "api_key" "current") estimated_pricing "estimated"
      none (some 1)
    ∷ sets cost (some 4) "USD" "" (plain_scopes "api_key" "current") billing_api "actual" none
        (some 2)
    ∷ ages billing_api "timeout"
    ∷ clears requests "api_key" "current" (some 3)
    ∷ []

perform_all-Distinct_example : Distinct (perform_all never history [])
perform_all-Distinct_example = perform_all-Distinct never history [] tt
