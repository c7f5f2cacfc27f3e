-- ===== src/BillingCycle.antt =====
-- plugin/billingcycleresolver.cpp and .h: the period of a budget that contains an instant. Days are
-- numbered; QDate and QTimeZone are arguments, with what Qt documents of them as named laws.
pub mod Containing
pub mod Total
mod Examples
use plasma_ai_usage_monitor.Prelude.{
  ℕ, ◌+◌, ◌-◌, ◌≤◌, ◌<◌, ◌≡◌, Bool, true, false, not, ◌&&◌, ◌||◌, none, some, String, if◌then◌else◌,
  ltb, leb, is_some, str_eq,
}
use plasma_ai_usage_monitor.Prelude.Qt.{DateTime}

-- `with_day d k` is QDate(d.year(), d.month(), k), `next_month` and `last_month` addMonths(1) and
-- addMonths(-1), `local_date` toTimeZone(zone).date(), `midnight` the start of a day of the zone in UTC.
pub record Calendar : Type 0 where
  pub is_zone : String → Bool
  pub local_date : String → ℕ → ℕ
  pub midnight : String → ℕ → DateTime
  pub day_of_week : ℕ → ℕ
  pub with_day : ℕ → ℕ → ℕ
  pub next_month : ℕ → ℕ
  pub last_month : ℕ → ℕ

pub record Request : Type 0 where
  pub period_type : String
  pub time_zone_id : String
  pub anchor_day : ℕ
  pub generated_at : DateTime
  pub provider_period_start : DateTime
  pub provider_reset_at : DateTime
  pub provider_reset_authenticated : Bool
  pub provider_reset_stable : Bool
  pub catalog_supports_provider_reset : Bool

pub record Cycle : Type 0 where
  pub start_utc : DateTime
  pub end_utc : DateTime
  pub reason_key : String

-- `a < b` between two valid instants.
abbrev pub both_before : DateTime → DateTime → Bool
both_before (some a) (some b) = ltb a b
both_before _ _ = false

unfoldable pub is_valid : Cycle → Bool
is_valid c = str_eq c.reason_key "" && both_before c.start_utc c.end_utc

pub invalid : String → Cycle
invalid reason = record { start_utc = none; end_utc = none; reason_key = reason }

-- The cycle from start to end, if both are valid and now lies between them.
unfoldable pub containing : String → DateTime → DateTime → ℕ → Cycle
containing reason (some start) (some end') now =
    if leb start now && ltb now end'
    then record { start_utc = some start; end_utc = some end'; reason_key = "" }
    else invalid reason
containing reason _ _ now = invalid reason

pub provider_cycle : Request → ℕ → Cycle
provider_cycle r now =
    if not r.catalog_supports_provider_reset
      || not r.provider_reset_authenticated
      || not r.provider_reset_stable
    then invalid "unstable-reset"
    else containing "unstable-reset" r.provider_period_start r.provider_reset_at now

module _ (c : Calendar) where
  -- The first day of the period and the first after it, from the local date.
  pub day_range : Request → ℕ → ℕ × ℕ
  day_range r d = (d, d + 1)

  pub week_range : Request → ℕ → ℕ × ℕ
  week_range r d = let start = d + 1 - c.day_of_week d in (start, start + 7)

  pub month_range : Request → ℕ → ℕ × ℕ
  month_range r d = let start = c.with_day d 1 in (start, c.next_month start)

  unfoldable pub anchored_range : Request → ℕ → ℕ × ℕ
  anchored_range r d =
      let anchor = c.with_day d r.anchor_day in
      let start = if leb anchor d then anchor else c.last_month anchor in
      (start, c.next_month start)

  unfoldable pub local_cycle : Request → ℕ × ℕ → ℕ → Cycle
  local_cycle r (start, end') now =
      containing "invalid-policy" (c.midnight r.time_zone_id start) (c.midnight r.time_zone_id end')
        now

  -- The anchor's bounds.
  unfoldable pub anchored_cycle : Request → ℕ → Cycle
  anchored_cycle r now =
      if ltb r.anchor_day 1 || ltb 28 r.anchor_day
      then invalid "invalid-policy"
      else local_cycle r (anchored_range r (c.local_date r.time_zone_id now)) now

  unfoldable pub resolve_at : Request → ℕ → Cycle
  resolve_at r now =
      let d = c.local_date r.time_zone_id now in
      if str_eq r.period_type "provider_reset"
      then provider_cycle r now
      else if not (c.is_zone r.time_zone_id)
      then invalid "invalid-policy"
      else if str_eq r.period_type "calendar_day"
      then local_cycle r (day_range r d) now
      else if str_eq r.period_type "iso_week"
      then local_cycle r (week_range r d) now
      else if str_eq r.period_type "calendar_month"
      then local_cycle r (month_range r d) now
      else if str_eq r.period_type "anchored_month"
      then anchored_cycle r now
      else invalid "invalid-policy"

  abbrev pub now_of : Request → ℕ → ℕ
  now_of r clock = or_clock r.generated_at
    where
      or_clock : DateTime → ℕ
      or_clock none = clock
      or_clock (some t) = t

  unfoldable pub resolve : Request → ℕ → Cycle
  resolve r clock = resolve_at r (now_of r clock)

  -- On the start of the current cycle.
  unfoldable pub before_start : Request → ℕ → DateTime → Cycle
  before_start r clock none = invalid "invalid-policy"
  before_start r clock (some start) = resolve (record r { generated_at = some (start - 1) }) clock

  unfoldable pub previous : Request → Cycle → ℕ → Cycle
  previous r current clock =
      if not (is_valid current)
      then invalid (if str_eq current.reason_key "" then "invalid-policy" else current.reason_key)
      else if str_eq r.period_type "provider_reset"
      then invalid "unstable-reset"
      else before_start r clock current.start_utc
