-- ===== src/Subscription/Sync.antt =====
-- The synchronisation of plugin/subscriptiontoolbackend.cpp: its generations, and when it is tried again
-- after a failure. The header's number and date are read by Qt.
use plasma_ai_usage_monitor.Prelude.{
  ℕ, ◌+◌, ◌*◌, ◌^◌, Bool, true, false, not, ◌&&◌, ◌||◌, Option, none, some, List, [], ◌∷◌, ◌++◌,
  String, if◌then◌else◌, ltb, leb, ◌==◌, min, is_some, str_eq,
}
use plasma_ai_usage_monitor.Prelude.Int.{ℤ, pos}
use plasma_ai_usage_monitor.Prelude.Qt.{DateTime}

-- QByteArray::toLongLong of the trimmed header with its flag, and QDateTime::fromString.
pub record Headers : Type 0 where
  pub to_long_long : String → Option ℤ
  pub rfc_2822 : String → DateTime

pub data Signal : Type 0 where
  enabled_changed sync_enabled_changed sync_status_changed : Signal

-- Replies are numbered; an active one keeps the generation that it was sent in.
pub record Sync : Type 0 where
  pub enabled : Bool
  pub sync_enabled : Bool
  pub syncing : Bool
  pub sync_needs_action : Bool
  pub sync_retry_after : DateTime
  pub sync_failures : ℕ
  pub last_attempt_time : DateTime
  pub last_sync_completion_time : DateTime
  pub sync_generation : ℕ
  pub active_replies : List (ℕ × ℕ)

abbrev pub initial : Sync
initial = record {
  enabled = false;
  sync_enabled = false;
  syncing = false;
  sync_needs_action = false;
  sync_retry_after = none;
  sync_failures = 0;
  last_attempt_time = none;
  last_sync_completion_time = none;
  sync_generation = 0;
  active_replies = [];
}

abbrev pub same_bool : Bool → Bool → Bool
same_bool true b = b
same_bool false b = not b

unfoldable pub set_syncing : Bool → ℕ → Sync → Sync × List Signal
set_syncing on now s =
    let s' =
      if on
      then record s { last_attempt_time = some now }
      else record s { last_sync_completion_time = some now } in
    if same_bool s.syncing on
    then (s, [])
    else (record s' { syncing = on }, sync_status_changed ∷ [])

unfoldable pub cancel_sync : ℕ → Sync → Sync × List Signal
cancel_sync now s =
    let s' = record s { sync_generation = s.sync_generation + 1; active_replies = [] } in
    if s.syncing then set_syncing false now s' else (s', [])

unfoldable pub set_sync_enabled : Bool → ℕ → Sync → Sync × List Signal
set_sync_enabled on now s =
    let s' = record s { sync_enabled = on } in
    let (stopped, out) = cancel_sync now s' in
    if same_bool s.sync_enabled on
    then (s, [])
    else if on
    then (s', sync_enabled_changed ∷ [])
    else (stopped, out ++ sync_enabled_changed ∷ [])

-- The part of `setEnabled` that concerns the synchronisation.
unfoldable pub set_enabled : Bool → ℕ → Sync → Sync × List Signal
set_enabled on now s =
    let s' = record s { enabled = on } in
    let (stopped, out) = cancel_sync now s' in
    if same_bool s.enabled on
    then (s, [])
    else if on
    then (s', enabled_changed ∷ [])
    else (stopped, out ++ enabled_changed ∷ [])

-- The generation that is begun, or 0 for a tool that is not enabled.
unfoldable pub begin_sync_generation : Sync → Sync × ℕ
begin_sync_generation s =
    if not s.enabled
    then (s, 0)
    else (record s { sync_generation = s.sync_generation + 1 }, s.sync_generation + 1)

abbrev pub is_tracked : ℕ → List (ℕ × ℕ) → Bool
is_tracked reply [] = false
is_tracked reply ((r, g) ∷ rs) = r == reply || is_tracked reply rs

unfoldable pub track_sync_reply : ℕ → Sync → Sync
track_sync_reply reply s =
    if is_tracked reply s.active_replies
    then s
    else record s { active_replies = s.active_replies ++ (reply, s.sync_generation) ∷ [] }

pub without : ℕ → List (ℕ × ℕ) → List (ℕ × ℕ)
without reply [] = []
without reply ((r, g) ∷ rs) =
    let rest = without reply rs in if r == reply then rest else (r, g) ∷ rest

unfoldable pub reply_destroyed : ℕ → Sync → Sync
reply_destroyed reply s = record s { active_replies = without reply s.active_replies }

-- On the generation that the reply was sent in.
unfoldable pub sync_reply_is_current : ℕ → Sync → Bool
sync_reply_is_current generation s = s.enabled && generation == s.sync_generation

abbrev pub has_waited : ℕ → DateTime → Bool
has_waited now none = true
has_waited now (some at) = leb at now

unfoldable pub can_auto_sync_at : ℕ → Sync → Bool
can_auto_sync_at now s =
    not s.syncing && not s.sync_needs_action && has_waited now s.sync_retry_after

unfoldable pub reset_sync_retry : Sync → Sync × List Signal
reset_sync_retry s = (
  record s { sync_needs_action = false; sync_retry_after = none; sync_failures = 0 },
  sync_status_changed ∷ [],
)

-- A year, in seconds.
abbrev pub longest_declared : ℕ
longest_declared = 31_536_000

unfoldable pub declared_of : Headers → String → ℕ → Option ℤ → DateTime
declared_of h header now (some (pos seconds)) =
    if leb seconds longest_declared then some (now + seconds * 1000) else h.rfc_2822 header
declared_of h header now _ = h.rfc_2822 header

unfoldable pub later_of : ℕ → DateTime → ℕ
later_of next none = next
later_of next (some declared) = if ltb next declared then declared else next

unfoldable pub record_sync_http_failure : Headers → ℕ → String → ℕ → Sync → Sync × List Signal
record_sync_http_failure h status retry_after now s =
    let next = now + 60 * 2 ^ min s.sync_failures 3 * 1000 in
    let declared = declared_of h retry_after now (h.to_long_long retry_after) in
    (
      record s {
        sync_needs_action = s.sync_needs_action || status == 401 || status == 403;
        sync_failures = s.sync_failures + 1;
        sync_retry_after = some (later_of next declared);
      },
      sync_status_changed ∷ [],
    )

-- The handler of syncCompleted that the constructor connects.
unfoldable pub on_sync_completed : Headers → Bool → ℕ → Sync → Sync × List Signal
on_sync_completed h success now s =
    if success
    then reset_sync_retry s
    else if not s.sync_needs_action && not (is_some s.sync_retry_after)
    then record_sync_http_failure h 0 "" now s
    else (s, [])

-- The handler of syncDiagnostic that the constructor connects.
unfoldable pub on_sync_diagnostic : String → Sync → Sync
on_sync_diagnostic code s =
    if str_eq code "session_expired"
      || str_eq code "not_logged_in"
      || str_eq code "format_changed"
      || str_eq code "invalid_response"
    then record s { sync_needs_action = true }
    else s
