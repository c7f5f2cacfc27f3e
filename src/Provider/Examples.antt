-- ===== src/Provider/Examples.antt =====
-- Tests of plugin/providerbackend.cpp, and the theorems at concrete inputs.
use plasma_ai_usage_monitor.Prelude.{
  ℕ, ◌+◌, ◌-◌, ◌*◌, ◌^◌, ◌≤◌, ◌<◌, ◌≡◌, refl, true, false, none, some, List, [], ◌∷◌, ◌/◌,
  if◌then◌else◌, ltb, leb, ◌==◌, str_eq, arith,
}
use plasma_ai_usage_monitor.Prelude.Int.{pos, negsuc, pos_part}
use plasma_ai_usage_monitor.Provider.{
  scheduled, manual, authentication, Provider, initial, is_retryable, is_retryable_status,
  set_error_details, set_loading, settled,
}
use plasma_ai_usage_monitor.Provider.Refresh.{
  is_current_generation, cancel_refresh, begin_refresh, needs_user, prepared, request_refresh,
  track_reply, reply_finished, set_api_key, is_nil,
}
use plasma_ai_usage_monitor.Provider.Errors.{
  otherwise, Reply, Headers, set_network_error, set_network_error-eq, waits_at_most_an_hour,
}
use plasma_ai_usage_monitor.Provider.Gate.{
  loads, begins, tracks, finishes, errs, Call, does, requests, keys, call, perform, call_all,
  IsProvider, call_all-initial-IsProvider, stale_forever, perform_all,
}
use plasma_ai_usage_monitor.Provider.Retry.{
  to_int, Round, retry_request, follow, Ends, retry_request-Ends,
}
use plasma_ai_usage_monitor.Provider.Budget.{
  Doubles, budget_exceeded, budget_warning, Budgets, check_budget_limits, day_costs, is_below,
  is_exceeded, is_warned, budget_currency_mismatch,
}
use plasma_ai_usage_monitor.Provider.Budget.Alerts.{
  day, tally, alerts-le-drops, exceeded_then_warned,
}

abbrev history : List Call
history =
    keys "secret"
    ∷ requests (begins (some 5) ∷ loads true ∷ tracks 0 ∷ []) scheduled (some 5)
    ∷ requests [] scheduled (some 6)
    ∷ requests (begins (some 7) ∷ loads true ∷ tracks 1 ∷ []) manual (some 7)
    ∷ does (finishes 1)
    ∷ does (errs "denied" refl authentication 401 none)
    ∷ does (loads false)
    ∷ requests [] scheduled (some 9)
    ∷ []

history_counts :
    let p = call_all history initial in
    (p.coalesced_refresh_count ≡ 1) × (p.cancellation_count ≡ 1) × (p.generation ≡ 4)
unfolding call_all call perform perform_all request_refresh prepared cancel_refresh begin_refresh
    track_reply reply_finished set_loading set_error_details set_api_key is_nil settled
history_counts = (refl, refl, refl)

call_all-initial-IsProvider_example : IsProvider (call_all history initial)
call_all-initial-IsProvider_example = call_all-initial-IsProvider history

stale_forever_example :
    is_current_generation 0 (call_all history (cancel_refresh initial).0) ≡ false
unfolding call_all
stale_forever_example =
    stale_forever initial 0 history (call_all-initial-IsProvider []) (omega arith)

abbrev locked : Provider
locked = (set_error_details "denied" authentication 401 none initial).0

abbrev headers : Headers
headers = record {
  to_long_long = λ s. if str_eq s "7200" then some (pos 7200) else none;
  rfc_2822 = λ s. none;
  http_date = λ s. none;
}

abbrev busy_server : Reply
busy_server = record {
  status = 503;
  error = otherwise;
  error_string = "Service Unavailable";
  retry_after = "7200";
}

set_network_error-eq_example :
    let p' = (set_network_error headers (some busy_server) "" 1000 initial).0 in
    (str_eq p'.error "" ≡ false) × (needs_user p'.error_kind ≡ false) × (is_retryable p' ≡ true)
unfolding is_retryable_status
set_network_error-eq_example = set_network_error-eq headers busy_server "" 1000 initial refl

waits_at_most_an_hour_example :
    let p' = (set_network_error headers (some busy_server) "" 1000 initial).0 in
    ((reason : _)
      → 5000 < 3_601_000
      → (request_refresh (perform_all []) reason (some 5000) p').1 ≡ false)
    × (3_601_000 ≤ 5000 → (request_refresh (perform_all []) manual (some 5000) p').1 ≡ true)
waits_at_most_an_hour_example =
    waits_at_most_an_hour headers busy_server "" 1000 7200 5000 initial (perform_all []) refl refl

abbrev again : ℕ → Round
again n = record {
  on_timer = initial;
  on_reply = initial;
  number = n;
  reply = busy_server;
  now = 2000;
  jitter = 777;
}

retry_request-Ends_example :
    Ends 2 (
      follow headers
        (retry_request headers busy_server 1000 3 1 2 initial)
        (again 0 ∷ again 1 ∷ []))
retry_request-Ends_example =
    retry_request-Ends headers busy_server 1000 3 1 2 initial (again 0 ∷ again 1 ∷ []) (omega arith)

-- 2^31 seconds ahead are taken for a negative number.
far_ahead : to_int (pos (2 ^ 31)) ≡ negsuc (2 ^ 31 - 1)
unfolding to_int
far_ahead = refl

abbrev whole : Doubles ℕ
whole = record {
  nought = 0;
  less = ltb;
  at_most = leb;
  same = λ a b. a == b;
  times = λ a b. a * b / 100;
  percent = pos_part;
  equal_fold = str_eq;
  normalized = λ s. s;
  same_int = λ a b. pos_part a == pos_part b;
}

abbrev spent : ℕ → Budgets ℕ
spent cost = record {
  currency = "USD";
  budget_currency = "USD";
  budget_warning_percent = pos 80;
  daily = record { budget = 100; cost = cost; warning_emitted = false; exceeded_emitted = false };
  monthly = record { budget = 0; cost = cost; warning_emitted = false; exceeded_emitted = false };
}

alerts-le-drops_example :
    let (exceeds, warns, dropped) =
      tally whole day
        (day_costs 85 ∷ day_costs 120 ∷ day_costs 10 ∷ day_costs 130 ∷ [])
        (spent 0) in
    (exceeds ≤ 1 + dropped) × (warns ≤ 1 + dropped)
alerts-le-drops_example =
    alerts-le-drops whole day (day_costs 85 ∷ day_costs 120 ∷ day_costs 10 ∷ day_costs 130 ∷ [])
      (spent 0)

exceeded_then_warned_example :
    let first = check_budget_limits whole (spent 120) in
    let second = check_budget_limits whole first.0 in
    let third = check_budget_limits whole second.0 in
    (first.1 ≡ budget_exceeded ∷ []) × (second.1 ≡ budget_warning ∷ []) × (third.1 ≡ [])
unfolding budget_currency_mismatch is_exceeded is_warned is_below
exceeded_then_warned_example =
    exceeded_then_warned whole (spent 120) refl refl refl refl refl refl refl
