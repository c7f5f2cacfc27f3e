-- ===== src/BillingCycle/Examples.antt =====
-- Tests of plugin/billingcycleresolver.cpp, and the theorems at concrete inputs.
use plasma_ai_usage_monitor.Prelude.{◌+◌, ◌-◌, ◌*◌, ◌/◌, ◌%◌, ◌≡◌, refl, false, none, some, str_eq}
use plasma_ai_usage_monitor.BillingCycle.{
  Calendar, Request, Cycle, containing, anchored_range, anchored_cycle, local_cycle, resolve_at,
  resolve,
}
use plasma_ai_usage_monitor.BillingCycle.Containing.{Contains, resolve-Contains}

-- Months of thirty days, and one time zone.
abbrev months : Calendar
months = record {
  is_zone = λ z. str_eq z "UTC";
  local_date = λ z t. t / 86_400_000;
  midnight = λ z d. some (d * 86_400_000);
  day_of_week = λ d. d % 7 + 1;
  with_day = λ d k. d / 30 * 30 + k - 1;
  next_month = λ d. d + 30;
  last_month = λ d. d - 30;
}

abbrev anchored : Request
anchored = record {
  period_type = "anchored_month";
  time_zone_id = "UTC";
  anchor_day = 15;
  generated_at = some (100 * 86_400_000);
  provider_period_start = none;
  provider_reset_at = none;
  provider_reset_authenticated = false;
  provider_reset_stable = false;
  catalog_supports_provider_reset = false;
}

-- Day 100 is the eleventh of its month: the cycle began on the fifteenth before.
abbrev current : Cycle
current = record {
  start_utc = some (74 * 86_400_000);
  end_utc = some (104 * 86_400_000);
  reason_key = "";
}

anchored_found : resolve months anchored 0 ≡ current
unfolding resolve resolve_at anchored_cycle anchored_range local_cycle containing
anchored_found = refl

resolve-Contains_example : Contains (resolve months anchored 0) (100 * 86_400_000)
resolve-Contains_example = resolve-Contains months anchored 0
