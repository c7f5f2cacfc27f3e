-- ===== src/Scheduler.antt =====
-- plugin/refreshschedulermodel.cpp and .h: when a source is polled again, and what a wake-up or a
-- network change does. A timer is the fact that it is active; `fire` is its timeout. Clock readings
-- are arguments. The arguments of type int may be negative and are integers. Where the code multiplies
-- or adds in int, or casts to it, the result is kept in 32 bits as a machine does, though the
-- language leaves an overflow there undefined. The hash of a key is exact: its products stay inside an
-- int for keys of less than 2^15 characters.
pub mod Intervals
pub mod Recovery
mod Examples
use plasma_ai_usage_monitor.Prelude.{
  ℕ, zero, suc, ◌+◌, ◌-◌, ◌*◌, ◌%◌, ◌^◌, min, max, Bool, true, false, not, ◌&&◌, ◌||◌, Option, none,
  some, List, [], ◌∷◌, ◌++◌, ltb, leb, if◌then◌else◌,
}
use plasma_ai_usage_monitor.Prelude.Int.{ℤ, pos, pos_part, ◌+ℤ◌, ◌*ℤ◌, max_ℤ, ltb_ℤ, leb_ℤ, wrap_32}
use plasma_ai_usage_monitor.Prelude.Qt.{DateTime, earlier, secs_to, add_msecs}

-- QNetworkInformation::Reachability.
pub data Reachability : Type 0 where
  unknown disconnected local site online : Reachability

pub data Signal : Type 0 where
  recovery_requested reachability_changed : Signal

pub record Scheduler : Type 0 where
  pub wake_timer : Bool
  pub recovery_timer : Bool
  pub last_wake_check : DateTime
  pub seen_offline : Bool
  pub network_state_known : Bool
  pub external_refresh_allowed : Bool
  pub monitoring : Bool

abbrev pub initial : Scheduler
initial = record {
  wake_timer = false;
  recovery_timer = false;
  last_wake_check = none;
  seen_offline = false;
  network_state_known = false;
  external_refresh_allowed = true;
  monitoring = false;
}

abbrev pub is_known : Reachability → Bool
is_known unknown = false
is_known _ = true

abbrev pub is_disconnected : Reachability → Bool
is_disconnected disconnected = true
is_disconnected _ = false

abbrev same : Bool → Bool → Bool
same true b = b
same false b = not b

-- More than 90 whole seconds since the last check.
abbrev pub missed_interval : DateTime → ℕ → Bool
missed_interval none now = false
missed_interval (some last) now = ltb_ℤ (pos 90) (secs_to last now)

pub observe_wake_clock : Scheduler → DateTime → Scheduler
observe_wake_clock s none = s
observe_wake_clock s (some now) = record s {
  recovery_timer =
      s.recovery_timer || (missed_interval s.last_wake_check now && not s.recovery_timer);
  last_wake_check = some now;
}

pub observe_reachability : Scheduler → Bool → Scheduler × List Signal
observe_reachability s up =
    let changed = not s.network_state_known || not (same s.external_refresh_allowed up) in
    let signals : List Signal = if changed then reachability_changed ∷ [] else [] in
    let seen = record s { network_state_known = true; external_refresh_allowed = up } in
    if not up then (record seen { seen_offline = true }, signals) else (
      record seen {
        recovery_timer = s.recovery_timer || (s.seen_offline && not s.recovery_timer);
        seen_offline = false;
      },
      signals,
    )

-- The handler that `startMonitoring` connects to QNetworkInformation::reachabilityChanged.
pub on_reachability : Scheduler → Reachability → Scheduler × List Signal
unfolding observe_reachability
on_reachability s r =
    let known = is_known r in
    let allowed = not known || not (is_disconnected r) in
    let changed =
      not (same s.network_state_known known) || not (same s.external_refresh_allowed allowed) in
    let signals : List Signal = if changed then reachability_changed ∷ [] else [] in
    let s' = record s { network_state_known = known; external_refresh_allowed = allowed } in
    let (s'', more) = observe_reachability s' allowed in
    if not known then (s', signals) else (s'', signals ++ more)

-- `network` is QNetworkInformation::instance()->reachability(), or `none` where there is no backend.
pub start_monitoring : Scheduler → DateTime → Option Reachability → Scheduler × List Signal
unfolding observe_wake_clock
start_monitoring s now network =
    let woken = record (observe_wake_clock (record s { monitoring = true }) now) {
      wake_timer = true;
    } in
    if s.monitoring then (s, []) else elim network [
      | none ↦ (woken, [])
      | some r ↦
          let allowed = not (is_known r) || not (is_disconnected r) in
          (
            record woken {
              network_state_known = is_known r;
              external_refresh_allowed = allowed;
              seen_offline = is_known r && not allowed;
            },
            reachability_changed ∷ [],
          )
    ]

-- The timeout of the single-shot recovery timer.
pub fire : Scheduler → Scheduler × List Signal
fire s =
    if s.recovery_timer
    then (record s { recovery_timer = false }, recovery_requested ∷ [])
    else (s, [])

-- The loop of `deterministicJitterMs`, at index i with the code units that are left.
hash_from : ℕ → ℕ → List ℕ → ℕ
hash_from i hash [] = hash
hash_from i hash (unit ∷ units) = hash_from (i + 1) ((hash + unit * (i + 1)) % 997) units

-- The key's UTF-16 code units.
pub deterministic_jitter_ms : List ℕ → ℕ
unfolding hash_from
deterministic_jitter_ms key = hash_from 0 0 key * 37

-- The seconds of a poll, before the popup counts.
abbrev pub poll_seconds : ℤ → ℤ → ℕ
poll_seconds provider_seconds global_seconds =
    if ltb_ℤ (pos 0) provider_seconds
    then pos_part provider_seconds
    else max 1 (pos_part global_seconds)

pub effective_interval_ms : ℤ → ℤ → Bool → ℤ
effective_interval_ms provider_seconds global_seconds popup_open =
    let seconds = poll_seconds provider_seconds global_seconds in
    let longer = max_ℤ (wrap_32 (pos (seconds * 4))) (pos 900) in
    wrap_32 ((if not popup_open then longer else pos seconds) *ℤ pos 1000)

-- The four values of the source's double are whole numbers.
pub backoff_multiplier : ℤ → Bool → ℕ
backoff_multiplier consecutive_errors retryable =
    if leb_ℤ consecutive_errors (pos 0)
    then 1
    else if retryable
    then min 8 (2 ^ min (pos_part consecutive_errors) 3)
    else min 4 (pos_part consecutive_errors + 1)

pub scheduled_interval_ms : List ℕ → ℤ → ℤ → Bool → ℤ → Bool → ℤ
scheduled_interval_ms key provider_seconds global_seconds popup_open errors retryable = wrap_32 (
    wrap_32 (
      effective_interval_ms provider_seconds global_seconds popup_open
      *ℤ pos (backoff_multiplier errors retryable))
    +ℤ pos (deterministic_jitter_ms key))

pub is_fresh : DateTime → ℤ → ℤ → Bool → DateTime → Bool
is_fresh none provider_seconds global_seconds popup_open now = false
is_fresh (some success) provider_seconds global_seconds popup_open none = false
is_fresh (some success) provider_seconds global_seconds popup_open (some now) =
    leb success now
    && ltb_ℤ (pos (now - success))
        (effective_interval_ms provider_seconds global_seconds popup_open)

-- QDateTime::addMSecs, within the instants of `DateTime`.
abbrev add_long : DateTime → ℤ → DateTime
add_long none delay = none
add_long (some t) delay = some (pos_part (pos t +ℤ delay))

pub next_scheduled_refresh : DateTime → List ℕ → ℤ → ℤ → Bool → ℤ → Bool → DateTime
next_scheduled_refresh success key provider_seconds global_seconds popup_open errors retryable =
    add_long success
      (scheduled_interval_ms key provider_seconds global_seconds popup_open errors retryable)
