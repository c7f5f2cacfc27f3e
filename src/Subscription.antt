-- ===== src/Subscription.antt =====
-- plugin/subscriptiontoolbackend.cpp and .h: the usage that a subscription tool counts over its periods,
-- and the warnings at its limits. The calendar of QDate is an argument, and so is the percentage, a
-- double. What a tool's class overrides is the record `Tool`.
pub mod Periods
pub mod Sync
pub mod Backoff
pub mod Windows
pub mod Evidence
pub mod Merging
mod Examples
use plasma_ai_usage_monitor.Prelude.{
  ℕ, ◌+◌, ◌*◌, ◌/◌, Bool, true, false, ◌&&◌, none, some, List, [], ◌∷◌, ◌++◌, if◌then◌else◌, ltb,
  leb, ◌==◌, is_some, Option, ◌<◌,
}
use plasma_ai_usage_monitor.Prelude.Int.{ℤ, pos, pos_part, leb_ℤ, ltb_ℤ, min_ℤ, max_ℤ}
use plasma_ai_usage_monitor.Prelude.Qt.{DateTime}

pub data UsagePeriod : Type 0 where
  five_hour daily weekly monthly : UsagePeriod

pub record Tool : Type 0 where
  pub primary_period : UsagePeriod
  pub secondary_period : Option UsagePeriod

-- Days are counted from the epoch, in UTC: the day with the number `day` of the month of a day, and of
-- the month after it.
pub record Calendar : Type 0 where
  pub this_month : ℕ → ℕ → ℕ
  pub next_month : ℕ → ℕ → ℕ

-- What the calendar is used for: a day of the next month comes later.
pub record IsCalendar (c : Calendar) : Type 0 where
  pub later : (d day : ℕ) → d < c.next_month d day

-- `percent n m` is static_cast<double>(n) / m * 100.0.
pub record Percents (D : Type 0) : Type 0 where
  pub percent : ℕ → ℤ → D
  pub at_least : D → ℤ → Bool
  pub to_int : D → ℤ

pub data Signal : Type 0 where
  usage_updated usage_limit_changed warning_threshold_changed usage_limit_reached : Signal
  activity_detected : Signal
  limit_warning : ℤ → Signal

-- The counts are never negative in the source, where they are ints.
pub record Usage : Type 0 where
  pub usage_count : ℕ
  pub usage_limit : ℤ
  pub warning_threshold : ℤ
  pub critical_threshold : ℤ
  pub secondary_usage_count : ℕ
  pub secondary_usage_limit : ℤ
  pub period_start : DateTime
  pub secondary_period_start : DateTime
  pub last_activity : DateTime
  pub monthly_reset_day : ℕ

abbrev pub initial : Usage
initial = record {
  usage_count = 0;
  usage_limit = pos 0;
  warning_threshold = pos 80;
  critical_threshold = pos 95;
  secondary_usage_count = 0;
  secondary_usage_limit = pos 0;
  period_start = none;
  secondary_period_start = none;
  last_activity = none;
  monthly_reset_day = 1;
}

abbrev pub day_ms : ℕ
day_ms = 86_400_000

abbrev same_int : ℤ → ℤ → Bool
same_int a b = leb_ℤ a b && leb_ℤ b a

abbrev pub same_time : DateTime → DateTime → Bool
same_time none none = true
same_time (some a) (some b) = a == b
same_time _ _ = false

-- qBound.
abbrev bound : ℕ → ℤ → ℕ → ℤ
bound low z high = max_ℤ (pos low) (min_ℤ (pos high) z)

pub set_usage_count : ℤ → Usage → Usage × List Signal
set_usage_count count u =
    if u.usage_count == pos_part count
    then (u, [])
    else (record u { usage_count = pos_part count }, usage_updated ∷ [])

pub set_secondary_usage_count : ℤ → Usage → Usage × List Signal
set_secondary_usage_count count u =
    if u.secondary_usage_count == pos_part count
    then (u, [])
    else (record u { secondary_usage_count = pos_part count }, usage_updated ∷ [])

pub set_usage_limit : ℤ → Usage → Usage × List Signal
set_usage_limit limit u =
    if same_int u.usage_limit limit
    then (u, [])
    else (record u { usage_limit = limit }, usage_limit_changed ∷ usage_updated ∷ [])

pub set_secondary_usage_limit : ℤ → Usage → Usage × List Signal
set_secondary_usage_limit limit u =
    if same_int u.secondary_usage_limit limit
    then (u, [])
    else (record u { secondary_usage_limit = limit }, usage_limit_changed ∷ usage_updated ∷ [])

pub set_period_start : DateTime → Usage → Usage × List Signal
set_period_start start u =
    if same_time u.period_start start
    then (u, [])
    else (record u { period_start = start }, usage_updated ∷ [])

pub set_secondary_period_start : DateTime → Usage → Usage × List Signal
set_secondary_period_start start u =
    if same_time u.secondary_period_start start
    then (u, [])
    else (record u { secondary_period_start = start }, usage_updated ∷ [])

pub set_monthly_reset_day : ℤ → Usage → Usage × List Signal
set_monthly_reset_day day u =
    let next = pos_part (bound 1 day 28) in
    if u.monthly_reset_day == next
    then (u, [])
    else (record u { monthly_reset_day = next }, usage_limit_changed ∷ usage_updated ∷ [])

pub is_limit_reached : Usage → Bool
is_limit_reached u = ltb_ℤ (pos 0) u.usage_limit && leb_ℤ u.usage_limit (pos u.usage_count)

module _ {D : Type 0} (d : Percents D) (t : Tool) where
  -- The second half of `checkLimitWarnings`.
  secondary_warnings : Usage → List Signal
  secondary_warnings u =
      if is_some t.secondary_period
        && ltb_ℤ (pos 0) u.secondary_usage_limit
        && leb_ℤ u.secondary_usage_limit (pos u.secondary_usage_count)
      then usage_limit_reached ∷ []
      else []

  primary_warnings : Usage → List Signal
  primary_warnings u =
      let pct = d.percent u.usage_count u.usage_limit in
      if leb_ℤ u.usage_limit (pos u.usage_count)
      then usage_limit_reached ∷ []
      else if d.at_least pct u.warning_threshold
      then limit_warning (d.to_int pct) ∷ []
      else []

  pub check_limit_warnings : Usage → List Signal
  check_limit_warnings u =
      if leb_ℤ u.usage_limit (pos 0) then [] else primary_warnings u ++ secondary_warnings u

  pub set_warning_threshold : ℤ → Usage → Usage × List Signal
  set_warning_threshold threshold u =
      let u' = record u { warning_threshold = bound 1 threshold 100 } in
      if same_int u.warning_threshold (bound 1 threshold 100)
      then (u, [])
      else (u', warning_threshold_changed ∷ check_limit_warnings u')

  pub set_critical_threshold : ℤ → Usage → Usage × List Signal
  set_critical_threshold threshold u =
      let u' = record u { critical_threshold = bound 1 threshold 100 } in
      if same_int u.critical_threshold (bound 1 threshold 100)
      then (u, [])
      else (u', warning_threshold_changed ∷ check_limit_warnings u')

module _ (c : Calendar) where
  month_end : ℕ → ℕ → ℕ
  month_end day start =
      let d = start / day_ms in
      if ltb d (c.this_month d day)
      then c.this_month d day * day_ms
      else c.next_month d day * day_ms

  pub period_end_from : ℕ → UsagePeriod → ℕ → ℕ
  period_end_from day five_hour start = start + 5 * 3_600_000
  period_end_from day daily start = start + day_ms
  period_end_from day weekly start = start + 7 * day_ms
  period_end_from day monthly start = month_end day start

  pub calculate_period_end : Usage → UsagePeriod → DateTime → DateTime
  calculate_period_end u period none = none
  calculate_period_end u period (some start) =
      some (period_end_from u.monthly_reset_day period start)

  -- `end.isValid() && now >= end`.
  abbrev pub is_due : ℕ → DateTime → Bool
  is_due now none = false
  is_due now (some end') = leb end' now

  pub check_primary : Tool → ℕ → Usage → Usage × List Signal
  check_primary t now u =
      if is_due now (calculate_period_end u t.primary_period u.period_start)
      then (record u { usage_count = 0; period_start = some now }, usage_updated ∷ [])
      else (u, [])

  pub check_secondary : Option UsagePeriod → ℕ → Usage → Usage × List Signal
  check_secondary none now u = (u, [])
  check_secondary (some period) now u =
      if is_due now (calculate_period_end u period u.secondary_period_start)
      then (
        record u { secondary_usage_count = 0; secondary_period_start = some now },
        usage_updated ∷ [],
      )
      else (u, [])

  pub check_and_reset_period : Tool → ℕ → Usage → Usage × List Signal
  check_and_reset_period t now u =
      let (u', out) = check_primary t now u in
      let (u'', rest) = check_secondary t.secondary_period now u' in (u'', out ++ rest)

  pub increment_usage : {D : Type 0} → Percents D → Tool → ℕ → Usage → Usage × List Signal
  increment_usage d t now u =
      let (u', out) = check_and_reset_period t now u in
      let u'' = record u' {
        usage_count = u'.usage_count + 1;
        secondary_usage_count = u'.secondary_usage_count + 1;
        last_activity = some now;
      } in
      (u'', out ++ check_limit_warnings d t u'' ++ usage_updated ∷ activity_detected ∷ [])

-- The part of `setEnabled` that concerns the periods: a tool that is enabled for the first time.
pub start_periods : ℕ → Usage → Usage
start_periods now u =
    if is_some u.period_start
    then u
    else record u { period_start = some now; secondary_period_start = some now }

pub reset_usage : ℕ → Usage → Usage × List Signal
reset_usage now u = (record u { usage_count = 0; period_start = some now }, usage_updated ∷ [])
