-- ===== src/Scheduler/Recovery.antt =====
-- The reachability and wake-up side of plugin/refreshschedulermodel.cpp, over whole histories.
use plasma_ai_usage_monitor.Prelude.{
  ℕ, suc, ◌+◌, ◌≤◌, ◌≡◌, Bool, true, false, not, Option, none, some, List, [], ◌∷◌, ◌++◌, arith,
  bit,
}
use plasma_ai_usage_monitor.Prelude.Qt.{DateTime}
use plasma_ai_usage_monitor.Scheduler.{
  Reachability, Signal, recovery_requested, reachability_changed, Scheduler, initial, is_known,
  is_disconnected, missed_interval, observe_wake_clock, observe_reachability, on_reachability,
  start_monitoring, fire,
}

-- What the environment can do to the model.
pub data Event : Type 0 where
  starts : DateTime → Option Reachability → Event
  wakes : DateTime → Event
  observes : Bool → Event
  reports : Reachability → Event
  fires : Event

unfoldable pub step : Scheduler → Event → Scheduler × List Signal
unfolding observe_wake_clock observe_reachability on_reachability start_monitoring fire
step s (starts now network) = start_monitoring s now network
step s (wakes now) = (observe_wake_clock s now, [])
step s (observes up) = observe_reachability s up
step s (reports r) = on_reachability s r
step s fires = fire s

unfoldable pub run : Scheduler → List Event → Scheduler × List Signal
run s [] = (s, [])
run s (e ∷ es) = let (s', out) = step s e in let (s'', rest) = run s' es in (s'', out ++ rest)

-- Polling is held back only while the network is known to be down; and while it is known, an outage
-- is remembered exactly as long as polling is held back.
pub record IsConsistent (s : Scheduler) : Type 0 where
  pub unknown_allows : s.network_state_known ≡ false → s.external_refresh_allowed ≡ true
  pub outage : s.network_state_known ≡ true → s.seen_offline ≡ not s.external_refresh_allowed

step-IsConsistent : (s : Scheduler) (e : Event) → IsConsistent s → IsConsistent (step s e).0
unfolding step
step-IsConsistent s (starts none none) v = ground arith
step-IsConsistent s (starts none (some r)) v = ground arith
step-IsConsistent s (starts (some now) none) v = ground arith
step-IsConsistent s (starts (some now) (some r)) v = ground arith
step-IsConsistent s (wakes none) v = ground arith
step-IsConsistent s (wakes (some now)) v = ground arith
step-IsConsistent s (observes up) v = ground arith
step-IsConsistent s (reports r) v = ground arith
step-IsConsistent s fires v = ground arith

run-IsConsistent : (s : Scheduler) (es : List Event) → IsConsistent s → IsConsistent (run s es).0
unfolding run
run-IsConsistent s [] v = v
run-IsConsistent s (e ∷ es) v = run-IsConsistent (step s e).0 es (step-IsConsistent s e v)

initial-IsConsistent : IsConsistent initial
initial-IsConsistent = ground arith

-- After any history from the start, an external refresh is held back only while the state of the
-- network is known, and while it is known an outage is remembered exactly as long as refreshes are
-- held back.
pub run-initial-IsConsistent : (es : List Event) → IsConsistent (run initial es).0
run-initial-IsConsistent es = run-IsConsistent initial es initial-IsConsistent

abbrev pub requests : List Signal → ℕ
requests [] = 0
requests (recovery_requested ∷ out) = suc (requests out)
requests (reachability_changed ∷ out) = requests out

-- 1 for an event that reports the network as down, or a wake-up check after a missed interval.
abbrev pub cause : Scheduler → Event → ℕ
cause s (starts none none) = 0
cause s (starts none (some r)) = bit (is_disconnected r)
cause s (starts (some now) none) = bit (missed_interval s.last_wake_check now)
cause s (starts (some now) (some r)) =
    bit (missed_interval s.last_wake_check now) + bit (is_disconnected r)
cause s (wakes none) = 0
cause s (wakes (some now)) = bit (missed_interval s.last_wake_check now)
cause s (observes up) = bit (not up)
cause s (reports r) = bit (is_disconnected r)
cause s fires = 0

pub causes : Scheduler → List Event → ℕ
causes s [] = 0
causes s (e ∷ es) = cause s e + causes (step s e).0 es

abbrev pending : Scheduler → ℕ
pending s = bit s.recovery_timer + bit s.seen_offline

step-pending :
    (s : Scheduler) (e : Event)
    → requests (step s e).1 + pending (step s e).0 ≤ pending s + cause s e
unfolding step
step-pending s (starts none none) = ground arith
step-pending s (starts none (some r)) = ground arith
step-pending s (starts (some now) none) = ground arith
step-pending s (starts (some now) (some r)) = ground arith
step-pending s (wakes none) = ground arith
step-pending s (wakes (some now)) = ground arith
step-pending s (observes up) = ground arith
step-pending s (reports r) = ground arith
step-pending s fires = ground arith

requests-append : (xs ys : List Signal) → requests (xs ++ ys) ≡ requests xs + requests ys
requests-append [] ys = omega arith
requests-append (recovery_requested ∷ xs) ys = omega (arith, requests-append xs ys)
requests-append (reachability_changed ∷ xs) ys = requests-append xs ys

run-pending :
    (s : Scheduler) (es : List Event)
    → requests (run s es).1 + pending (run s es).0 ≤ pending s + causes s es
unfolding run causes
run-pending s [] = omega arith
run-pending s (e ∷ es) = omega (
  arith,
  step-pending s e,
  run-pending (step s e).0 es,
  requests-append (step s e).1 (run (step s e).0 es).1,
)

-- From the start, recovery is requested at most once for each report of an outage and each wake-up
-- check after a missed interval, however the events interleave.
pub requests-le-causes : (es : List Event) → requests (run initial es).1 ≤ causes initial es
requests-le-causes es = omega (arith, run-pending initial es)

-- From a consistent state that holds external refreshes back, the report of a known network that is
-- not disconnected allows them again and leads to exactly one recovery request at the next timeout,
-- and a second timeout brings none.
pub recovery_after_outage :
    (s : Scheduler) (r : Reachability)
    → IsConsistent s
    → s.external_refresh_allowed ≡ false
    → is_known r ≡ true
    → is_disconnected r ≡ false
    → ((run s (reports r ∷ fires ∷ fires ∷ [])).1 ≡ reachability_changed ∷ recovery_requested ∷ [])
      × ((run s (reports r ∷ fires ∷ fires ∷ [])).0.external_refresh_allowed ≡ true)
unfolding run step
recovery_after_outage s r v held known up = ground arith
