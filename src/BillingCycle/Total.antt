-- ===== src/BillingCycle/Total.antt =====
-- Which periods plugin/billingcycleresolver.cpp finds, over what Qt documents of dates and zones.
use plasma_ai_usage_monitor.Prelude.{ℕ, ◌≤◌, ◌<◌, ◌≡◌, ◌⊎◌, true, some, String}
use plasma_ai_usage_monitor.BillingCycle.{Calendar, Request}

-- What Qt documents of dates and of the zones that it knows.
pub record IsCalendar (c : Calendar) : Type 0 where
  pub midnight-valid :
      (z : String) (d : ℕ) → c.is_zone z ≡ true → (t : ℕ) × (c.midnight z d ≡ some t)
  pub midnight-le :
      (z : String) (d t now : ℕ)
      → c.is_zone z ≡ true
      → c.midnight z d ≡ some t
      → d ≤ c.local_date z now
      → t ≤ now
  pub midnight-later :
      (z : String) (d t now : ℕ)
      → c.is_zone z ≡ true
      → c.midnight z d ≡ some t
      → c.local_date z now < d
      → now < t
  pub week : (d : ℕ) → (1 ≤ c.day_of_week d) × (c.day_of_week d ≤ 7)
  pub first_day : (d : ℕ) → c.with_day d 1 ≤ d
  pub month_later : (d k : ℕ) → 1 ≤ k → k ≤ 28 → d < c.next_month (c.with_day d k)
  pub month_before :
      (d k : ℕ) → 31 ≤ d → 1 ≤ k → k ≤ 28 → d < c.with_day d k → c.last_month (c.with_day d k) ≤ d
  pub month_again :
      (d k : ℕ)
      → 31 ≤ d
      → 1 ≤ k
      → k ≤ 28
      → c.next_month (c.last_month (c.with_day d k)) ≡ c.with_day d k

-- The periods that do not rest on a provider's reset, and the anchor in its bounds.
abbrev pub IsPolicy : Request → Type 0
IsPolicy r =
    (r.period_type ≡ "calendar_day")
    ⊎ (r.period_type ≡ "iso_week")
    ⊎ (r.period_type ≡ "calendar_month")
    ⊎ ((r.period_type ≡ "anchored_month") × (1 ≤ r.anchor_day) × (r.anchor_day ≤ 28))

module _ (c : Calendar) (laws : IsCalendar c) where
  open laws use {
    midnight-valid, midnight-le, midnight-later, week, first_day, month_later, month_before,
    month_again,
  }

  abbrev Around : ℕ × ℕ → ℕ → Type 0
  Around range d = (range.0 ≤ d) × (d < range.1)
