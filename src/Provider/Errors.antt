-- ===== src/Provider/Errors.antt =====
-- How plugin/providerbackend.cpp reads a failed reply: the kind of its error, and how long the server
-- asks to wait. The header's number and dates are read by Qt.
use plasma_ai_usage_monitor.Prelude.{
  ℕ, ◌+◌, ◌*◌, ◌≤◌, ◌<◌, ◌≡◌, Bool, true, false, not, ◌&&◌, ◌||◌, Option, none, some, List, String,
  if◌then◌else◌, leb, ◌==◌, min, str_eq, arith, refl, is_some,
}
use plasma_ai_usage_monitor.Prelude.Int.{ℤ, pos}
use plasma_ai_usage_monitor.Prelude.Qt.{DateTime}
use plasma_ai_usage_monitor.Provider.{
  ErrorKind, RefreshReason, is_passing, manual, authentication, permission, rate_limit, server,
  cancelled, timeout, network, no_error, Signal, Provider, set_error_details, is_retryable_status,
  is_retryable,
}
use plasma_ai_usage_monitor.Provider.Refresh.{needs_user, request_refresh}

-- QNetworkReply::NetworkError, as far as the code tells its values apart.
pub data NetworkError : Type 0 where
  nothing operation_canceled timed_out otherwise : NetworkError

-- A finished reply; `status` is 0 where there was no HTTP answer, `retry_after` the trimmed header.
pub record Reply : Type 0 where
  pub status : ℕ
  pub error : NetworkError
  pub error_string : String
  pub retry_after : String

-- QByteArray::toLongLong with its flag, and the two date formats of QDateTime and QLocale.
pub record Headers : Type 0 where
  pub to_long_long : String → Option ℤ
  pub rfc_2822 : String → DateTime
  pub http_date : String → DateTime

abbrev pub same_error : NetworkError → NetworkError → Bool
same_error nothing nothing = true
same_error operation_canceled operation_canceled = true
same_error timed_out timed_out = true
same_error otherwise otherwise = true
same_error _ _ = false

pub error_kind_for_network_reply : Option Reply → ErrorKind
error_kind_for_network_reply none = network
error_kind_for_network_reply (some r) =
    if r.status == 401
    then authentication
    else if r.status == 403
    then permission
    else if r.status == 429
    then rate_limit
    else if leb 500 r.status
    then server
    else if same_error r.error operation_canceled
    then cancelled
    else if same_error r.error timed_out
    then timeout
    else if not (same_error r.error nothing)
    then network
    else no_error

-- The most that a number of seconds may ask for.
abbrev pub longest_wait : ℕ
longest_wait = 3600

as_date : Headers → String → DateTime
as_date h value = if is_some (h.rfc_2822 value) then h.rfc_2822 value else h.http_date value

as_wait : Headers → String → ℕ → Option ℤ → DateTime
as_wait h value now (some (pos seconds)) = some (now + min seconds longest_wait * 1000)
as_wait h value now _ = as_date h value

pub retry_after_for_reply : Headers → Option Reply → ℕ → DateTime
retry_after_for_reply h none now = none
retry_after_for_reply h (some r) now =
    if str_eq r.retry_after ""
    then none
    else as_wait h r.retry_after now (h.to_long_long r.retry_after)

abbrev status_of : Option Reply → ℕ
status_of none = 0
status_of (some r) = r.status

abbrev error_string_of : Option Reply → String
error_string_of none = ""
error_string_of (some r) = r.error_string

abbrev or_else : String → String → String
or_else a b = if str_eq a "" then b else a

pub set_network_error : Headers → Option Reply → String → ℕ → Provider → Provider × List Signal
set_network_error h reply fallback_message now p =
    set_error_details
      (or_else (or_else fallback_message (error_string_of reply)) "Provider request failed")
      (error_kind_for_network_reply reply) (status_of reply) (retry_after_for_reply h reply now) p

or_else_full : (a b : String) → str_eq b "" ≡ false → str_eq (or_else a b) "" ≡ false
or_else_full a b full = ground arith

set_error_details_fields :
    (error : String) (kind : ErrorKind) (status : ℕ) (at : DateTime) (p : Provider)
    → let p' = (set_error_details error kind status at p).0 in
      (p'.error ≡ error)
      × (p'.error_kind ≡ kind)
      × (p'.http_status ≡ status)
      × (p'.retry_after ≡ at)
unfolding set_error_details
set_error_details_fields error kind status at p = ground arith

kind-needs_user :
    (r : Reply)
    → needs_user (error_kind_for_network_reply (some r)) ≡ (r.status == 401 || r.status == 403)
unfolding error_kind_for_network_reply
kind-needs_user r = ground arith

abbrev reply_of : ℕ → NetworkError → Reply
reply_of status error = record {
  status = status;
  error = error;
  error_string = "";
  retry_after = "";
}

abbrev passes : ℕ → NetworkError → Bool
passes status error =
    not (status == 401 || status == 403)
    && (not (same_error error operation_canceled) || leb 500 status || status == 429)

passes-lem :
    (status : ℕ) (error : NetworkError)
    → same_error error nothing ≡ false
    → is_passing (error_kind_for_network_reply (some (reply_of status error))) ≡ passes status error
unfolding error_kind_for_network_reply
passes-lem status nothing broken = cc
passes-lem status operation_canceled broken = ground arith
passes-lem status timed_out broken = ground arith
passes-lem status otherwise broken = ground arith

kind-is_passing :
    (r : Reply)
    → same_error r.error nothing ≡ false
    → is_passing (error_kind_for_network_reply (some r)) ≡ passes r.status r.error
unfolding error_kind_for_network_reply
kind-is_passing r broken = passes-lem r.status r.error broken

status-lem :
    (status : ℕ)
    → ((status == 401 || status == 403) ≡ true → is_retryable_status status ≡ false)
      × ((status == 429) ≡ true → is_retryable_status status ≡ true)
unfolding is_retryable_status
status-lem status = ground arith

-- A failed reply always leaves an error text; only the user can mend what 401 and 403 refuse; and
-- any other failure may be retried, unless the request was cancelled with a status that is neither
-- 500 or more nor one of those worth retrying.
pub set_network_error-eq :
    (h : Headers) (r : Reply) (message : String) (now : ℕ) (p : Provider)
    → same_error r.error nothing ≡ false
    → let p' = (set_network_error h (some r) message now p).0 in
      let refused = r.status == 401 || r.status == 403 in
      (str_eq p'.error "" ≡ false)
      × (needs_user p'.error_kind ≡ refused)
      × (is_retryable p' ≡ (
          not refused
          && (not (same_error r.error operation_canceled)
              || leb 500 r.status
              || is_retryable_status r.status)))
unfolding set_network_error is_retryable
set_network_error-eq h r message now p broken =
    let text = or_else (or_else message r.error_string) "Provider request failed" in
    let kind = error_kind_for_network_reply (some r) in
    let (e, k, st, at) =
      set_error_details_fields text kind r.status (retry_after_for_reply h (some r) now) p in
    rw (e, k, st)
      (
        or_else_full (or_else message r.error_string) "Provider request failed" refl,
        kind-needs_user r,
        ground (arith, kind-is_passing r broken, status-lem r.status),
      )

-- A server that asks for a number of seconds is obeyed for that long, a manual request included,
-- but for no more than an hour: until then every request is refused, and from then on a manual
-- request starts.
pub waits_at_most_an_hour :
    (h : Headers) (r : Reply) (message : String) (now seconds later : ℕ) (p : Provider)
    (impl : Provider → Provider × List Signal)
    → str_eq r.retry_after "" ≡ false
    → h.to_long_long r.retry_after ≡ some (pos seconds)
    → let p' = (set_network_error h (some r) message now p).0 in
      ((reason : RefreshReason)
        → later < now + min seconds 3600 * 1000
        → (request_refresh impl reason (some later) p').1 ≡ false)
      × (now + min seconds 3600 * 1000 ≤ later
          → (request_refresh impl manual (some later) p').1 ≡ true)
unfolding set_network_error retry_after_for_reply as_wait request_refresh
waits_at_most_an_hour h r message now seconds later p impl full read =
    let text = or_else (or_else message r.error_string) "Provider request failed" in
    let kind = error_kind_for_network_reply (some r) in
    let (e, k, st, at) =
      set_error_details_fields text kind r.status (retry_after_for_reply h (some r) now) p in
    rw (at, full, read) (ground arith, ground arith)
