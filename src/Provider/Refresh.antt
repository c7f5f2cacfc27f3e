-- ===== src/Provider/Refresh.antt =====
-- The refreshes of plugin/providerbackend.cpp: what asks for one, what stops one, and how old the data
-- of the last one is.
use plasma_ai_usage_monitor.Prelude.{
  ℕ, ◌+◌, Bool, true, false, not, ◌&&◌, ◌||◌, none, some, List, [], ◌∷◌, ◌++◌, String,
  if◌then◌else◌, ◌==◌, is_some, str_eq,
}
use plasma_ai_usage_monitor.Prelude.Int.{ℤ, pos, ltb_ℤ, leb_ℤ, max_ℤ, ◌+ℤ◌}
use plasma_ai_usage_monitor.Prelude.Qt.{DateTime, earlier, secs_to}
use plasma_ai_usage_monitor.Provider.{
  unconfigured, idle, ErrorKind, authentication, permission, configuration, schema, unsupported,
  RefreshReason, scheduled, popup_opened, manual, retry, Freshness, fresh, aging, old, never,
  Signal, state_changed, diagnostics_changed, Provider, same_state, set_connected, set_loading,
}

abbrev pub same_time : DateTime → DateTime → Bool
same_time none none = true
same_time (some a) (some b) = a == b
same_time _ _ = false

unfoldable pub is_current_generation : ℕ → Provider → Bool
is_current_generation generation p = generation == p.generation

unfoldable pub track_reply : ℕ → Provider → Provider
track_reply reply p = record p { active_replies = p.active_replies ++ reply ∷ [] }

-- QList::removeOne.
pub remove_one : ℕ → List ℕ → List ℕ
remove_one reply [] = []
remove_one reply (r ∷ rs) = if r == reply then rs else r ∷ remove_one reply rs

unfoldable pub reply_finished : ℕ → Provider → Provider
reply_finished reply p = record p { active_replies = remove_one reply p.active_replies }

unfoldable pub is_nil : List ℕ → Bool
is_nil [] = true
is_nil (r ∷ rs) = false

unfoldable pub cancel_refresh : Provider → Provider × List Signal
cancel_refresh p =
    let had_active_work = p.loading || not (is_nil p.active_replies) in
    let p' = record p { generation = p.generation + 1; active_replies = [] } in
    let counted =
      if had_active_work then record p' { cancellation_count = p.cancellation_count + 1 } else p' in
    let first : List Signal = if had_active_work then diagnostics_changed ∷ [] else [] in
    let (p'', out) = set_loading false counted in (p'', first ++ out)

unfoldable pub begin_refresh : DateTime → Provider → Provider × List Signal
begin_refresh now p = (
  record p {
    generation = p.generation + 1;
    last_refresh_reason = p.pending_refresh_reason;
    last_attempt = now;
    active_replies = [];
  },
  state_changed ∷ [],
)

abbrev pub is_automatic : RefreshReason → Bool
is_automatic scheduled = true
is_automatic popup_opened = true
is_automatic retry = true
is_automatic _ = false

abbrev pub is_manual : RefreshReason → Bool
is_manual manual = true
is_manual _ = false

-- Errors that another attempt cannot mend.
abbrev pub needs_user : ErrorKind → Bool
needs_user authentication = true
needs_user permission = true
needs_user configuration = true
needs_user schema = true
needs_user unsupported = true
needs_user _ = false

-- An accepted request stops the refresh that is under way.
unfoldable pub prepared : RefreshReason → Provider → Provider × List Signal
prepared reason p =
    let stopped : Provider × List Signal = if p.loading then cancel_refresh p else (p, []) in
    (record stopped.0 { pending_refresh_reason = reason }, stopped.1)

unfoldable pub request_refresh :
    (Provider → Provider × List Signal)
    → RefreshReason
    → DateTime
    → Provider
    → Provider × Bool × List Signal
request_refresh refresh_impl reason now p =
    let (ready, stopped) = prepared reason p in
    let (p', out) = refresh_impl ready in
    if is_automatic reason && needs_user p.error_kind
    then (p, false, [])
    else if is_some p.retry_after && earlier now p.retry_after
    then (p, false, [])
    else if p.loading && not (is_manual reason)
    then (
      record p { coalesced_refresh_count = p.coalesced_refresh_count + 1 },
      false,
      diagnostics_changed ∷ [],
    )
    else (p', true, stopped ++ out)

unfoldable pub set_next_scheduled_refresh : DateTime → Provider → Provider × List Signal
set_next_scheduled_refresh when p =
    if same_time p.next_scheduled_refresh when
    then (p, [])
    else (record p { next_scheduled_refresh = when }, diagnostics_changed ∷ [])

unfoldable pub update_last_refreshed : DateTime → DateTime → Provider → Provider × List Signal
update_last_refreshed when now p =
    let at = if is_some when then when else now in
    (
      record p { last_refreshed = at; last_success = at; refresh_count = p.refresh_count + 1 },
      state_changed ∷ [],
    )

unfoldable pub set_api_key : String → Provider → Provider × List Signal
set_api_key key p =
    let (p', out) = cancel_refresh p in
    let keyed = record p' { api_key = key } in
    let (gone, dropped) = set_connected false keyed in
    if str_eq p.api_key key
    then (p, [])
    else if str_eq key ""
    then (record gone { provider_state = unconfigured }, out ++ dropped ++ state_changed ∷ [])
    else if same_state keyed.provider_state unconfigured
    then (record keyed { provider_state = idle }, out ++ state_changed ∷ [])
    else (keyed, out)

abbrev pub age_limit : ℤ
age_limit = pos 900

scheduled_limit : DateTime → DateTime → ℤ
scheduled_limit (some success) (some next) =
    if leb_ℤ (secs_to success next) (pos 0)
    then age_limit
    else max_ℤ age_limit (secs_to success next +ℤ pos 300)
scheduled_limit _ _ = age_limit

pub freshness_max_age_seconds : Provider → ℤ
freshness_max_age_seconds p = scheduled_limit p.last_success p.next_scheduled_refresh

age_class : DateTime → ℤ → ℕ → Freshness
age_class none limit now = never
age_class (some success) limit now =
    let age = secs_to success now in
    if ltb_ℤ age (pos 300) then fresh else if ltb_ℤ age limit then aging else old

-- The constructor `old` is the source's `Stale`.
pub freshness : ℕ → Provider → Freshness
freshness now p = age_class p.last_success (freshness_max_age_seconds p) now
