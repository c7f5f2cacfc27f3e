-- ===== src/Provider.antt =====
-- plugin/providerbackend.cpp and .h: what every provider keeps of its connection, its errors and its
-- refreshes. Replies are numbered; the provider's own `refreshImpl` is an argument. A reply that is
-- aborted also reports `finished`, which removes it from the list that is cleared at that point.
pub mod Refresh
pub mod Errors
pub mod Gate
pub mod Retry
pub mod Budget
pub mod Metrics
mod Examples
use plasma_ai_usage_monitor.Prelude.{
  ℕ, ◌+◌, Bool, true, false, not, ◌||◌, none, List, [], ◌∷◌, ◌++◌, String, if◌then◌else◌, str_eq,
  ◌==◌,
}
use plasma_ai_usage_monitor.Prelude.Qt.{DateTime}

pub data ProviderState : Type 0 where
  disabled unconfigured idle refreshing healthy stale degraded failed : ProviderState

pub data ErrorKind : Type 0 where
  no_error configuration authentication permission rate_limit timeout : ErrorKind
  network server schema unsupported cancelled : ErrorKind

pub data RefreshReason : Type 0 where
  startup scheduled popup_opened manual configuration_changed : RefreshReason
  credential_changed retry : RefreshReason

pub data Freshness : Type 0 where
  fresh aging old never : Freshness

pub data Signal : Type 0 where
  connected_changed disconnected reconnected loading_changed state_changed : Signal
  error_changed diagnostics_changed : Signal

pub record Provider : Type 0 where
  pub api_key : String
  pub connected : Bool
  pub was_connected : Bool
  pub loading : Bool
  pub error : String
  pub error_count : ℕ
  pub consecutive_errors : ℕ
  pub provider_state : ProviderState
  pub error_kind : ErrorKind
  pub http_status : ℕ
  pub retry_after : DateTime
  pub last_refresh_reason : RefreshReason
  pub pending_refresh_reason : RefreshReason
  pub last_attempt : DateTime
  pub last_success : DateTime
  pub last_refreshed : DateTime
  pub next_scheduled_refresh : DateTime
  pub refresh_count : ℕ
  pub coalesced_refresh_count : ℕ
  pub cancellation_count : ℕ
  pub generation : ℕ
  pub active_replies : List ℕ

abbrev pub initial : Provider
initial = record {
  api_key = "";
  connected = false;
  was_connected = false;
  loading = false;
  error = "";
  error_count = 0;
  consecutive_errors = 0;
  provider_state = unconfigured;
  error_kind = no_error;
  http_status = 0;
  retry_after = none;
  last_refresh_reason = startup;
  pending_refresh_reason = startup;
  last_attempt = none;
  last_success = none;
  last_refreshed = none;
  next_scheduled_refresh = none;
  refresh_count = 0;
  coalesced_refresh_count = 0;
  cancellation_count = 0;
  generation = 0;
  active_replies = [];
}

abbrev pub same_state : ProviderState → ProviderState → Bool
same_state disabled disabled = true
same_state unconfigured unconfigured = true
same_state idle idle = true
same_state refreshing refreshing = true
same_state healthy healthy = true
same_state stale stale = true
same_state degraded degraded = true
same_state failed failed = true
same_state _ _ = false

abbrev pub same_bool : Bool → Bool → Bool
same_bool true b = b
same_bool false b = not b

-- `if (m_providerState != next) { m_providerState = next; Q_EMIT stateChanged(); }`
abbrev pub move_to : ProviderState → Provider → Provider × List Signal
move_to next p =
    if same_state p.provider_state next
    then (p, [])
    else (record p { provider_state = next }, state_changed ∷ [])

pub set_connected : Bool → Provider → Provider × List Signal
set_connected on p = if same_bool p.connected on then (p, []) else (
  record p { connected = on; was_connected = p.was_connected || on },
  connected_changed
      ∷ (if not on then disconnected ∷ [] else if p.was_connected then reconnected ∷ [] else []),
)

-- The state that a provider settles in when nothing is loading.
unfoldable pub settled : Bool → String → ProviderState
settled connected error =
    if connected
    then (if str_eq error "" then healthy else degraded)
    else if str_eq error ""
    then idle
    else failed

unfoldable pub set_loading : Bool → Provider → Provider × List Signal
set_loading on p =
    let next = if on then refreshing else settled p.connected p.error in
    let (p', out) = move_to next (record p { loading = on }) in
    if same_bool p.loading on then (p, []) else (p', out ++ loading_changed ∷ [])

unfoldable pub set_error_details :
    String → ErrorKind → ℕ → DateTime → Provider → Provider × List Signal
set_error_details error kind status retry_after p =
    let p' = record p {
      error = error;
      error_kind = kind;
      http_status = status;
      retry_after = retry_after;
      error_count = p.error_count + 1;
      consecutive_errors = p.consecutive_errors + 1;
    } in
    let (p'', out) = move_to (if p.connected then degraded else failed) p' in
    (p'', out ++ error_changed ∷ [])

pub set_error : String → Provider → Provider × List Signal
set_error error p = set_error_details error server 0 none p

pub clear_error : DateTime → Provider → Provider × List Signal
clear_error now p =
    let p' = record p {
      error = "";
      error_kind = no_error;
      http_status = 0;
      retry_after = none;
      consecutive_errors = 0;
    } in
    let (p'', out) = move_to healthy (record p' { last_success = now }) in
    if str_eq p.error ""
    then (p, [])
    else if p.connected
    then (p'', out ++ error_changed ∷ [])
    else (p', error_changed ∷ [])

unfoldable pub is_retryable_status : ℕ → Bool
is_retryable_status status =
    status == 408
    || status == 425
    || status == 429
    || status == 500
    || status == 502
    || status == 503
    || status == 504

abbrev pub is_passing : ErrorKind → Bool
is_passing rate_limit = true
is_passing timeout = true
is_passing network = true
is_passing server = true
is_passing _ = false

pub is_retryable : Provider → Bool
is_retryable p = is_passing p.error_kind || is_retryable_status p.http_status
