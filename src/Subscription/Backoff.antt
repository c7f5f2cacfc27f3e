-- ===== src/Subscription/Backoff.antt =====
-- How long plugin/subscriptiontoolbackend.cpp waits between synchronisations, over whole histories.
use plasma_ai_usage_monitor.Prelude.{
  ℕ, ◌+◌, ◌*◌, ◌^◌, ◌≤◌, ◌<◌, ◌≡◌, ◌↔◌, refl, All, ◌⊎◌, inl, inr, Bool, true, false, none, some,
  List, [], ◌∷◌, String, leb, ◌==◌, min, max, is_some, arith,
}
use plasma_ai_usage_monitor.Prelude.Int.{pos}
use native.Mathlib.Nat.{pow-le-pow_right}
use plasma_ai_usage_monitor.Subscription.Sync.{
  Headers, Sync, initial, set_syncing, cancel_sync, set_sync_enabled, set_enabled,
  begin_sync_generation, track_sync_reply, reply_destroyed, sync_reply_is_current, can_auto_sync_at,
  reset_sync_retry, declared_of, later_of, record_sync_http_failure, on_sync_completed,
  on_sync_diagnostic,
}

-- What happens to the synchronisation of a tool.
pub data Event : Type 0 where
  syncs : Bool → ℕ → Event
  cancels : ℕ → Event
  switches : Bool → ℕ → Event
  enables : Bool → ℕ → Event
  begins : Event
  tracks : ℕ → Event
  destroys : ℕ → Event
  fails : ℕ → String → ℕ → Event
  completes : Bool → ℕ → Event
  diagnoses : String → Event

abbrev pub is_success : Event → Bool
is_success (completes success now) = success
is_success _ = false

unfoldable pub step : Headers → Event → Sync → Sync
step h (syncs on now) s = (set_syncing on now s).0
step h (cancels now) s = (cancel_sync now s).0
step h (switches on now) s = (set_sync_enabled on now s).0
step h (enables on now) s = (set_enabled on now s).0
step h begins s = (begin_sync_generation s).0
step h (tracks reply) s = track_sync_reply reply s
step h (destroys reply) s = reply_destroyed reply s
step h (fails status header now) s = (record_sync_http_failure h status header now s).0
step h (completes success now) s = (on_sync_completed h success now s).0
step h (diagnoses code) s = on_sync_diagnostic code s

unfoldable pub run : Headers → List Event → Sync → Sync
run h [] s = s
run h (e ∷ es) s = run h es (step h e s)

-- A wait is remembered exactly as long as a failure is counted.
pub record IsSync (s : Sync) : Type 0 where
  pub counted : s.sync_failures ≡ 0 → s.sync_retry_after ≡ none
  pub waits : is_some s.sync_retry_after ≡ false → s.sync_failures ≡ 0

step-lem :
    (h : Headers) (e : Event) (s : Sync)
    → IsSync s
    → IsSync (step h e s) × (s.sync_generation ≤ (step h e s).sync_generation)
unfolding step set_syncing cancel_sync set_sync_enabled set_enabled begin_sync_generation
    track_sync_reply reply_destroyed record_sync_http_failure on_sync_completed on_sync_diagnostic
    reset_sync_retry
step-lem h (syncs on now) s v = ground arith
step-lem h (cancels now) s v = ground arith
step-lem h (switches on now) s v = ground arith
step-lem h (enables on now) s v = ground arith
step-lem h begins s v = ground arith
step-lem h (tracks reply) s v = ground arith
step-lem h (destroys reply) s v = ground arith
step-lem h (fails status header now) s v = ground arith
step-lem h (completes success now) s v = ground arith
step-lem h (diagnoses code) s v = ground arith

run-lem :
    (h : Headers) (es : List Event) (s : Sync)
    → IsSync s
    → IsSync (run h es s) × (s.sync_generation ≤ (run h es s).sync_generation)
unfolding run
run-lem h [] s v = (v, omega arith)
run-lem h (e ∷ es) s v =
    let (v', le) = step-lem h e s v in
    let (v'', le') = run-lem h es (step h e s) v' in (v'', omega arith)

initial-IsSync : IsSync initial
initial-IsSync = ground arith

cancel_sync-lem :
    (now : ℕ) (s : Sync)
    → IsSync s
    → IsSync (cancel_sync now s).0 × (s.sync_generation < (cancel_sync now s).0.sync_generation)
unfolding cancel_sync set_syncing
cancel_sync-lem now s v = ground arith

step_needs :
    (h : Headers) (e : Event) (s : Sync)
    → s.sync_needs_action ≡ true
    → is_success e ≡ false
    → (step h e s).sync_needs_action ≡ true
unfolding step set_syncing cancel_sync set_sync_enabled set_enabled begin_sync_generation
    track_sync_reply reply_destroyed record_sync_http_failure on_sync_completed on_sync_diagnostic
step_needs h (syncs on now) s needs fails' = ground arith
step_needs h (cancels now) s needs fails' = ground arith
step_needs h (switches on now) s needs fails' = ground arith
step_needs h (enables on now) s needs fails' = ground arith
step_needs h begins s needs fails' = ground arith
step_needs h (tracks reply) s needs fails' = ground arith
step_needs h (destroys reply) s needs fails' = ground arith
step_needs h (fails status header now) s needs fails' = ground arith
step_needs h (completes success now) s needs fails' = ground arith
step_needs h (diagnoses code) s needs fails' = ground arith

run_needs :
    (h : Headers) (es : List Event) (s : Sync)
    → s.sync_needs_action ≡ true
    → All (λ e. is_success e ≡ false) es
    → (run h es s).sync_needs_action ≡ true
unfolding run
run_needs h [] s needs none_succeeds = needs
run_needs h (e ∷ es) s needs (fails', rest) =
    run_needs h es (step h e s) (step_needs h e s needs fails') rest

-- Over any history from the start, a wait is set exactly while a failure is counted; and a reply of
-- a generation that was cancelled is never current again, whatever happens later.
pub cancelled_forever :
    (h : Headers) (es later : List Event) (now generation : ℕ)
    → let s = run h es initial in
      let t = run h later (cancel_sync now s).0 in
      ((is_some s.sync_retry_after ≡ true) ↔ (1 ≤ s.sync_failures))
      × (generation ≤ s.sync_generation → sync_reply_is_current generation t ≡ false)
unfolding sync_reply_is_current
cancelled_forever h es later now generation =
    let s = run h es initial in
    let v = (run-lem h es initial initial-IsSync).0 in
    let (v', lt) = cancel_sync-lem now s v in
    ground (arith, run-lem h later (cancel_sync now s).0 v')

backoff_bounds : (n : ℕ) → (1 ≤ 2 ^ min n 3) × (2 ^ min n 3 ≤ 8)
backoff_bounds n = (
  pow-le-pow_right {n = 2} (omega arith) {i = 0} {j = min n 3} (omega arith),
  pow-le-pow_right {n = 2} (omega arith) {i = min n 3} {j = 3} (omega arith),
)

-- A header that asks for a number of seconds, or is no number and no date and asks for none.
abbrev pub Asks : Headers → String → ℕ → Type 0
Asks h header seconds =
    (h.to_long_long header ≡ some (pos seconds))
    ⊎ ((h.to_long_long header ≡ none) × (h.rfc_2822 header ≡ none) × (seconds ≡ 0))

-- A failure that does not tell of missing rights, of an idle tool that needs no action, makes the
-- synchronisation wait a minute, doubled for each failure before it but not beyond eight minutes,
-- or the seconds that the server asks for, up to a year, if they are more: until then no automatic
-- synchronisation starts, and from then on one does.
pub record_sync_http_failure-eq :
    (h : Headers) (status : ℕ) (header : String) (now later seconds : ℕ) (s : Sync)
    → s.syncing ≡ false
    → s.sync_needs_action ≡ false
    → (status == 401) ≡ false
    → (status == 403) ≡ false
    → Asks h header seconds
    → seconds ≤ 31_536_000
    → let s' = (record_sync_http_failure h status header now s).0 in
      let wait = 60 * 2 ^ min s.sync_failures 3 in
      (can_auto_sync_at later s' ≡ leb (now + max wait seconds * 1000) later)
      × (60 ≤ wait)
      × (wait ≤ 480)
unfolding record_sync_http_failure can_auto_sync_at declared_of later_of
record_sync_http_failure-eq h status header now later seconds s idle free not401 not403 (inl read)
      few =
    let within : leb seconds 31_536_000 ≡ true = ground arith in
    rw (read, idle, free, not401, not403, within)
      (
        ground (arith, backoff_bounds s.sync_failures),
        omega (arith, backoff_bounds s.sync_failures),
        omega (arith, backoff_bounds s.sync_failures),
      )
record_sync_http_failure-eq h status header now later seconds s idle free not401 not403
      (inr (no_number, no_date, nought)) few =
    rw (no_number, no_date, nought, idle, free, not401, not403)
      (
        ground (arith, backoff_bounds s.sync_failures),
        omega (arith, backoff_bounds s.sync_failures),
        omega (arith, backoff_bounds s.sync_failures),
      )

-- While the tool needs its user, nothing but a successful synchronisation lets an automatic one
-- start.
pub needs_action_holds :
    (h : Headers) (es : List Event) (now : ℕ) (s : Sync)
    → s.sync_needs_action ≡ true
    → All (λ e. is_success e ≡ false) es
    → can_auto_sync_at now (run h es s) ≡ false
unfolding can_auto_sync_at
needs_action_holds h es now s needs none_succeeds =
    ground (arith, run_needs h es s needs none_succeeds)

-- A failed synchronisation that reports no HTTP failure of its own, from an idle tool with no
-- failure before, is counted the first time only: with a wait still set, even one that has passed,
-- it changes nothing, and the next automatic synchronisation may start at once.
pub second_failure_uncounted :
    (h : Headers) (first second : ℕ) (s : Sync)
    → s.syncing ≡ false
    → s.sync_needs_action ≡ false
    → s.sync_retry_after ≡ none
    → s.sync_failures ≡ 0
    → h.to_long_long "" ≡ none
    → h.rfc_2822 "" ≡ none
    → first + 60_000 ≤ second
    → let s' = (on_sync_completed h false first s).0 in
      let s'' = (on_sync_completed h false second s').0 in
      (s'.sync_failures ≡ 1)
      × (can_auto_sync_at first s' ≡ false)
      × (s'' ≡ s')
      × (can_auto_sync_at second s'' ≡ true)
unfolding on_sync_completed record_sync_http_failure can_auto_sync_at declared_of later_of
second_failure_uncounted h first second s idle free unset zero no_number no_date gap =
    rw (idle, free, unset, zero, no_number, no_date) (refl, ground arith, refl, ground arith)
