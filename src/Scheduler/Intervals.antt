-- ===== src/Scheduler/Intervals.antt =====
-- The intervals of plugin/refreshschedulermodel.cpp: their bounds, and how they fit together.
use plasma_ai_usage_monitor.Prelude.{
  ℕ, zero, suc, ◌+◌, ◌*◌, ◌^◌, ◌≤◌, ◌<◌, min, max, ◌-◌, ◌&&◌, leb, ap, sym, ◌∙◌, ◌≡◌, refl, Bool,
  true, false, not, some, List, [], ◌∷◌, arith, if◌then◌else◌,
}
use plasma_ai_usage_monitor.Prelude.Int.{ℤ, pos, ◌≤ℤ◌, max_ℤ, ltb_ℤ, wrap_32-fits, pos-*, pos-+}
use plasma_ai_usage_monitor.Scheduler.{
  poll_seconds, hash_from, deterministic_jitter_ms, effective_interval_ms, backoff_multiplier,
  scheduled_interval_ms, is_fresh, next_scheduled_refresh,
}

hash_from_bound : (i hash : ℕ) (units : List ℕ) → hash < 997 → hash_from i hash units < 997
unfolding hash_from
hash_from_bound i hash [] h = h
hash_from_bound i hash (unit ∷ units) h = hash_from_bound (i + 1) _ units (omega arith)

jitter_bound : (key : List ℕ) → deterministic_jitter_ms key ≤ 36852
unfolding deterministic_jitter_ms
jitter_bound key = omega (arith, hash_from_bound 0 0 key (omega arith))

power_bound : (e : ℕ) → (1 ≤ 2 ^ min e 3) × (2 ^ min e 3 ≤ 8)
power_bound zero = omega arith
power_bound (suc zero) = omega arith
power_bound (suc (suc zero)) = omega arith
power_bound (suc (suc (suc e))) =
    let top : min (suc (suc (suc e))) 3 ≡ 3 = omega arith in rw top (omega arith)

pub backoff_bound :
    (errors : ℤ) (retryable : Bool)
    → (1 ≤ backoff_multiplier errors retryable) × (backoff_multiplier errors retryable ≤ 8)
unfolding backoff_multiplier
backoff_bound (pos e) retryable = ground (arith, power_bound e)
backoff_bound errors retryable = ground arith

-- The interval without the bounds of an int.
abbrev pub exact_interval_ms : ℤ → ℤ → Bool → ℕ
exact_interval_ms p g popup_open =
    let seconds = poll_seconds p g in
    (if not popup_open then max (seconds * 4) 900 else seconds) * 1000

abbrev pub exact_scheduled_ms : List ℕ → ℤ → ℤ → Bool → ℤ → Bool → ℕ
exact_scheduled_ms key p g popup_open errors retryable =
    exact_interval_ms p g popup_open * backoff_multiplier errors retryable
    + deterministic_jitter_ms key

poll_seconds-le :
    (most : ℕ) (p g : ℤ)
    → 1 ≤ most
    → p ≤ℤ pos most
    → g ≤ℤ pos most
    → (1 ≤ poll_seconds p g) × (poll_seconds p g ≤ most)
poll_seconds-le most p g h hp hg = ground arith

max_ℤ-pos : (a b : ℕ) → max_ℤ (pos a) (pos b) ≡ pos (max a b)
max_ℤ-pos a b = ground arith

if-pos : (b : Bool) (x y : ℕ) → (if b then pos x else pos y) ≡ pos (if b then x else y)
if-pos true x y = refl
if-pos false x y = refl

-- With settings of at most 18 hours (64800 seconds) nothing overflows.
effective_interval_ms-exact :
    (p g : ℤ) (popup_open : Bool)
    → p ≤ℤ pos 64800
    → g ≤ℤ pos 64800
    → effective_interval_ms p g popup_open ≡ pos (exact_interval_ms p g popup_open)
unfolding effective_interval_ms
effective_interval_ms-exact p g popup hp hg =
    let (least, most) = poll_seconds-le 64800 p g (omega arith) hp hg in
    let seconds = poll_seconds p g in
    rw
      (
        wrap_32-fits (seconds * 4) (omega arith),
        max_ℤ-pos (seconds * 4) 900,
        if-pos (not popup) (max (seconds * 4) 900) seconds,
        pos-* (if not popup then max (seconds * 4) 900 else seconds) 1000,
      )
      (wrap_32-fits (exact_interval_ms p g popup) (ground arith))

times_bound : (a b m : ℕ) → 1 ≤ b → b ≤ 8 → a ≤ m → (a ≤ a * b) × (a * b ≤ m * 8)
times_bound a b m lo hi h = (grind arith, grind arith)

exact_interval_ms-bounds :
    (p g : ℤ) (popup_open : Bool)
    → p ≤ℤ pos 64800
    → g ≤ℤ pos 64800
    → (1000 ≤ exact_interval_ms p g popup_open) × (exact_interval_ms p g popup_open ≤ 260_100_000)
exact_interval_ms-bounds p g popup hp hg =
    let (least, most) = poll_seconds-le 64800 p g (omega arith) hp hg in ground arith

pub scheduled_interval_fits :
    (key : List ℕ) (provider_seconds global_seconds : ℤ) (popup_open : Bool) (errors : ℤ)
    (retryable : Bool)
    → provider_seconds ≤ℤ pos 64800
    → global_seconds ≤ℤ pos 64800
    → let exact = exact_interval_ms provider_seconds global_seconds in
      let scheduled =
        exact_scheduled_ms key provider_seconds global_seconds popup_open errors retryable in
      (effective_interval_ms provider_seconds global_seconds popup_open ≡ pos (exact popup_open))
      × (scheduled_interval_ms key provider_seconds global_seconds popup_open errors retryable
          ≡ pos scheduled)
      × (exact popup_open ≤ scheduled)
      × (scheduled < 2 ^ 31)
      × (1000 ≤ exact popup_open)
      × (900_000 ≤ exact false)
      × (exact true * 4 ≤ exact false)
unfolding scheduled_interval_ms
scheduled_interval_fits key p g popup errors retryable hp hg =
    let same = effective_interval_ms-exact p g popup hp hg in
    let (least, most) = exact_interval_ms-bounds p g popup hp hg in
    let (lo, hi) = backoff_bound errors retryable in
    let exact = exact_interval_ms p g popup in
    let multiplier = backoff_multiplier errors retryable in
    let jitter = jitter_bound key in
    let (below, above) = times_bound exact multiplier 260_100_000 lo hi most in
    let scheduled : scheduled_interval_ms key p g popup errors retryable
        ≡ pos (exact_scheduled_ms key p g popup errors retryable) =
      rw
        (
          same,
          pos-* exact multiplier,
          wrap_32-fits (exact * multiplier) (omega arith),
          pos-+ (exact * multiplier) (deterministic_jitter_ms key),
        )
        (wrap_32-fits (exact * multiplier + deterministic_jitter_ms key) (omega arith)) in
    (same, scheduled, omega arith, omega arith, least, ground arith, ground arith)

-- A source whose last success is still fresh is not due: its next scheduled refresh exists,
-- whatever the errors since, and lies after the present instant, if both settings are at most 18
-- hours.
pub is_fresh-before_next :
    (success now : ℕ) (key : List ℕ) (p g : ℤ) (popup_open : Bool) (errors : ℤ) (retryable : Bool)
    → p ≤ℤ pos 64800
    → g ≤ℤ pos 64800
    → is_fresh (some success) p g popup_open (some now) ≡ true
    → (due : ℕ) × (next_scheduled_refresh (some success) key p g popup_open errors retryable
        ≡ some due)
      × (now < due)
unfolding is_fresh next_scheduled_refresh
is_fresh-before_next success now key p g popup errors retryable hp hg fresh =
    let fits = scheduled_interval_fits key p g popup errors retryable hp hg in
    let delay = exact_scheduled_ms key p g popup errors retryable in
    let soon : (leb success now && ltb_ℤ (pos (now - success)) (pos (exact_interval_ms p g popup)))
        ≡ true =
      ap (λ e. leb success now && ltb_ℤ (pos (now - success)) e) (sym fits.0) ∙ fresh in
    (success + delay, rw (fits.1, pos-+ success delay) refl, ground (arith, fits.2))
