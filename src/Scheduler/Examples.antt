-- ===== src/Scheduler/Examples.antt =====
-- Tests of plugin/refreshschedulermodel.cpp, and the theorems at concrete inputs.
use plasma_ai_usage_monitor.Prelude.{ℕ, ◌≤◌, ◌≡◌, refl, true, false, some, List, [], ◌∷◌, arith}
use plasma_ai_usage_monitor.Prelude.Int.{pos, ◌*ℤ◌, wrap_32}
use plasma_ai_usage_monitor.Scheduler.{
  disconnected, online, recovery_requested, reachability_changed, Scheduler, initial,
  observe_wake_clock, observe_reachability, on_reachability, start_monitoring, fire, hash_from,
  deterministic_jitter_ms, effective_interval_ms, backoff_multiplier,
}
use plasma_ai_usage_monitor.Scheduler.Recovery.{
  Event, starts, wakes, reports, fires, step, run, IsConsistent, run-initial-IsConsistent, requests,
  causes, requests-le-causes, recovery_after_outage,
}

jitter_of_ab : deterministic_jitter_ms (b'a' ∷ b'b' ∷ []) ≡ 10841
unfolding deterministic_jitter_ms hash_from
jitter_of_ab = refl

intervals :
    (effective_interval_ms (pos 300) (pos 60) true ≡ pos 300_000)
    × (effective_interval_ms (pos 0) (pos 60) false ≡ pos 900_000)
    × (effective_interval_ms (pos 10_000_000) (pos 1) true ≡ pos 1_410_065_408)
    × (backoff_multiplier (pos 7) true ≡ 8)
    × (backoff_multiplier (pos 2) false ≡ 3)
unfolding effective_interval_ms backoff_multiplier wrap_32 ◌*ℤ◌
intervals = (refl, refl, refl, refl, refl)

abbrev letters : List ℕ
letters = b'a' ∷ b'b' ∷ []

abbrev outage : List Event
outage =
    starts (some 0) (some online)
    ∷ reports disconnected
    ∷ wakes (some 200_000)
    ∷ reports online
    ∷ fires
    ∷ []

outage_signals :
    (run initial outage).1
    ≡ reachability_changed ∷ reachability_changed ∷ reachability_changed ∷ recovery_requested ∷ []
unfolding run step start_monitoring observe_wake_clock observe_reachability on_reachability fire
outage_signals = refl

run-initial-IsConsistent_example : IsConsistent (run initial outage).0
run-initial-IsConsistent_example = run-initial-IsConsistent outage

requests-le-causes_example : requests (run initial outage).1 ≤ causes initial outage
requests-le-causes_example = requests-le-causes outage

abbrev down : Scheduler
down = record initial {
  seen_offline = true;
  network_state_known = true;
  external_refresh_allowed = false;
}

recovery_after_outage_example :
    ((run down (reports online ∷ fires ∷ fires ∷ [])).1
      ≡ reachability_changed ∷ recovery_requested ∷ [])
    × ((run down (reports online ∷ fires ∷ fires ∷ [])).0.external_refresh_allowed ≡ true)
recovery_after_outage_example = recovery_after_outage down online (ground arith) refl refl refl
