-- ===== src/Provider/Gate.antt =====
-- The histories of plugin/providerbackend.cpp: requests, and what a provider's own refresh and its
-- replies do to the shared state, in any order.
use plasma_ai_usage_monitor.Prelude.{
  ℕ, ◌+◌, ◌≤◌, ◌<◌, ◌≡◌, ◌↔◌, inl, inr, Bool, true, false, not, ◌&&◌, none, List, [], ◌∷◌, String,
  str_eq, is_some, arith, bit, Bool-cases,
}
use plasma_ai_usage_monitor.Prelude.Qt.{DateTime, earlier}
use plasma_ai_usage_monitor.Provider.{
  refreshing, no_error, ErrorKind, RefreshReason, Signal, Provider, initial, set_connected,
  set_loading, set_error_details, clear_error, settled,
}
use plasma_ai_usage_monitor.Provider.Refresh.{
  is_current_generation, track_reply, reply_finished, cancel_refresh, begin_refresh, is_automatic,
  is_manual, needs_user, prepared, request_refresh, set_next_scheduled_refresh,
  update_last_refreshed, set_api_key,
}

-- What a provider's `refreshImpl` and the handlers of its replies can do.
pub data Op : Type 0 where
  connects : Bool → Op
  loads : Bool → Op
  errs : (error : String) → str_eq error "" ≡ false → ErrorKind → ℕ → DateTime → Op
  clears : DateTime → Op
  begins : DateTime → Op
  tracks : ℕ → Op
  finishes : ℕ → Op
  updates : DateTime → DateTime → Op

unfoldable pub perform : Op → Provider → Provider
perform (connects on) p = (set_connected on p).0
perform (loads on) p = (set_loading on p).0
perform (errs error e kind status at) p = (set_error_details error kind status at p).0
perform (clears now) p = (clear_error now p).0
perform (begins now) p = (begin_refresh now p).0
perform (tracks reply) p = track_reply reply p
perform (finishes reply) p = reply_finished reply p
perform (updates at now) p = (update_last_refreshed at now p).0

unfoldable pub perform_all : List Op → Provider → Provider × List Signal
perform_all [] p = (p, [])
perform_all (o ∷ os) p = perform_all os (perform o p)

-- Either one such operation, or a call from outside; a request brings what its `refreshImpl` does.
pub data Call : Type 0 where
  does : Op → Call
  requests : List Op → RefreshReason → DateTime → Call
  cancels : Call
  schedules : DateTime → Call
  keys : String → Call

unfoldable pub call : Call → Provider → Provider
call (does o) p = perform o p
call (requests impl reason now) p = (request_refresh (perform_all impl) reason now p).0
call cancels p = (cancel_refresh p).0
call (schedules at) p = (set_next_scheduled_refresh at p).0
call (keys key) p = (set_api_key key p).0

unfoldable pub call_all : List Call → Provider → Provider
call_all [] p = p
call_all (c ∷ cs) p = call_all cs (call c p)

pub record IsProvider (p : Provider) : Type 0 where
  pub refreshing_loads : p.provider_state ≡ refreshing → p.loading ≡ true
  pub errors : p.consecutive_errors ≤ p.error_count
  pub clear : str_eq p.error "" ≡ true → (p.error_kind ≡ no_error) × (p.consecutive_errors ≡ 0)
  pub unblocked : str_eq p.error "" ≡ true → (p.http_status ≡ 0) × (p.retry_after ≡ none)
  pub connected_once : p.connected ≡ true → p.was_connected ≡ true

abbrev SameOrLater : Provider → Provider → Type 0
SameOrLater p p' = p.generation ≤ p'.generation

perform-IsProvider :
    (o : Op) (p : Provider) → IsProvider p → IsProvider (perform o p) × SameOrLater p (perform o p)
unfolding perform set_connected set_loading settled set_error_details clear_error begin_refresh
    track_reply reply_finished update_last_refreshed
perform-IsProvider (connects on) p v = ground arith
perform-IsProvider (loads on) p v = ground arith
perform-IsProvider (errs error e kind status at) p v = ground arith
perform-IsProvider (clears now) p v = ground arith
perform-IsProvider (begins now) p v = ground arith
perform-IsProvider (tracks reply) p v = ground arith
perform-IsProvider (finishes reply) p v = ground arith
perform-IsProvider (updates at now) p v = ground arith

perform_all-IsProvider :
    (os : List Op) (p : Provider)
    → IsProvider p
    → IsProvider (perform_all os p).0 × SameOrLater p (perform_all os p).0
unfolding perform_all
perform_all-IsProvider [] p v = (v, omega arith)
perform_all-IsProvider (o ∷ os) p v =
    let (v', le) = perform-IsProvider o p v in
    let (v'', le') = perform_all-IsProvider os (perform o p) v' in (v'', omega arith)

cancel_refresh-IsProvider :
    (p : Provider)
    → IsProvider p
    → IsProvider (cancel_refresh p).0
      × (p.generation < (cancel_refresh p).0.generation)
      × ((cancel_refresh p).0.loading ≡ false)
unfolding cancel_refresh set_loading settled
cancel_refresh-IsProvider p v = ground arith

prepared-IsProvider :
    (reason : RefreshReason) (p : Provider)
    → IsProvider p
    → IsProvider (prepared reason p).0 × SameOrLater p (prepared reason p).0
unfolding prepared
prepared-IsProvider reason p v = elim (Bool-cases p.loading) [
  | inl on ↦ rw on (ground (arith, cancel_refresh-IsProvider p v))
  | inr off ↦ rw off (ground arith)
]

call-IsProvider :
    (c : Call) (p : Provider) → IsProvider p → IsProvider (call c p) × SameOrLater p (call c p)
unfolding call request_refresh set_next_scheduled_refresh set_api_key set_connected
call-IsProvider (does o) p v = perform-IsProvider o p v
call-IsProvider (requests impl reason now) p v =
    let (v', le) = prepared-IsProvider reason p v in
    ground (arith, perform_all-IsProvider impl (prepared reason p).0 v')
call-IsProvider cancels p v = ground (arith, cancel_refresh-IsProvider p v)
call-IsProvider (schedules at) p v = ground arith
call-IsProvider (keys key) p v = ground (arith, cancel_refresh-IsProvider p v)

call_all-IsProvider :
    (cs : List Call) (p : Provider)
    → IsProvider p
    → IsProvider (call_all cs p) × SameOrLater p (call_all cs p)
unfolding call_all
call_all-IsProvider [] p v = (v, omega arith)
call_all-IsProvider (c ∷ cs) p v =
    let (v', le) = call-IsProvider c p v in
    let (v'', le') = call_all-IsProvider cs (call c p) v' in (v'', omega arith)

initial-IsProvider : IsProvider initial
initial-IsProvider = ground arith

-- After any history of requests, replies, cancellations and key changes: a provider in the
-- refreshing state is loading; the errors in a row are no more than the errors counted; without an
-- error text there is no error kind, no status, no wait and no errors in a row; and a connected
-- provider is remembered as having been connected.
pub call_all-initial-IsProvider : (cs : List Call) → IsProvider (call_all cs initial)
call_all-initial-IsProvider cs = (call_all-IsProvider cs initial initial-IsProvider).0

-- From a provider that keeps the invariant of its histories, a generation number up to its own is
-- never current again once its refresh is cancelled, whatever happens later: the replies of that
-- refresh stay stale.
pub stale_forever :
    (p : Provider) (generation : ℕ) (cs : List Call)
    → IsProvider p
    → generation ≤ p.generation
    → is_current_generation generation (call_all cs (cancel_refresh p).0) ≡ false
unfolding is_current_generation
stale_forever p generation cs v le =
    let (v', lt, off) = cancel_refresh-IsProvider p v in
    let (v'', later) = call_all-IsProvider cs (cancel_refresh p).0 v' in ground arith

-- A request starts exactly when neither its reason, nor an open wait, nor a refresh under way
-- refuses it; one that starts runs the refresh from the prepared state; and one that is refused
-- changes nothing but the count of coalesced requests, and that only for a refresh under way.
pub request_refresh-eq :
    (impl : Provider → Provider × List Signal) (reason : RefreshReason) (now : DateTime)
    (p : Provider)
    → let blocked = is_automatic reason && needs_user p.error_kind in
      let waiting = is_some p.retry_after && earlier now p.retry_after in
      let busy = p.loading && not (is_manual reason) in
      let (p', started, out) = request_refresh impl reason now p in
      ((started ≡ true) ↔ ((blocked ≡ false) × (waiting ≡ false) × (busy ≡ false)))
      × (started ≡ true → p' ≡ (impl (prepared reason p).0).0)
      × (started ≡ false
          → record p' { coalesced_refresh_count = 0 } ≡ record p { coalesced_refresh_count = 0 })
      × (started ≡ false
          → p'.coalesced_refresh_count
            ≡ p.coalesced_refresh_count + bit (not blocked && not waiting))
unfolding request_refresh
request_refresh-eq impl reason now p = ground arith
