-- ===== src/BudgetPacing.antt =====
-- plugin/budgetpacingquery.cpp and .h: how a budget stands in its period, as a forecast. A day of UTC
-- is a number of days since the epoch, and the time zone of the policy is that of BillingCycle.
pub mod Evaluate
pub mod Latest
pub mod Days
pub mod Amounts
pub mod Valid
pub mod Available
mod Examples
use plasma_ai_usage_monitor.Prelude.{
  ℕ, zero, suc, ◌+◌, ◌-◌, ◌*◌, ◌/◌, ◌%◌, Bool, true, false, not, ◌&&◌, ◌||◌, Option, none, some,
  List, [], ◌∷◌, String, if◌then◌else◌, str_eq, ltb, leb, ◌==◌, is_some, length, max,
}
use plasma_ai_usage_monitor.Prelude.Int.{
  wrap_64, ℤ, pos, pos_part, ◌+ℤ◌, ◌-ℤ◌, ltb_ℤ, leb_ℤ, max_ℤ, min_ℤ,
}
use plasma_ai_usage_monitor.Prelude.Qt.{DateTime, earlier, msecs_to, Qt}
use plasma_ai_usage_monitor.Prelude.Doubles.{Doubles, percent}
use plasma_ai_usage_monitor.Forecast.{ValueClass, actual, estimated}
use plasma_ai_usage_monitor.BillingCycle.{Cycle}

abbrev pub day_ms : ℕ
day_ms = 86_400_000

pub record Observation : Type 0 where
  pub observed_at : DateTime
  pub interval_start : DateTime
  pub interval_end : DateTime
  pub value_minor : Option ℤ
  pub currency : String
  pub value_class : ValueClass
  pub scope_kind : String
  pub scope_identity : String

pub record Request : Type 0 where
  pub policy_id : String
  pub source_id : String
  pub source_kind : String
  pub scope_mode : String
  pub scope_kind : String
  pub scope_identity : String
  pub scope_label : String
  pub value_class : ValueClass
  pub limit_minor : ℤ
  pub currency : String
  pub warning_percent : ℤ
  pub critical_percent : ℤ
  pub period_type : String
  pub time_zone_id : String
  pub cycle : Cycle
  pub previous_cycle : Cycle
  pub generated_at : DateTime
  pub preflight_reason : String
  pub observations : List Observation

abbrev pub same_class : ValueClass → ValueClass → Bool
same_class actual actual = true
same_class estimated estimated = true
same_class _ _ = false

abbrev pub same_time : DateTime → DateTime → Bool
same_time none none = true
same_time (some a) (some b) = a == b
same_time _ _ = false

-- QDateTime::operator<=.
abbrev pub no_later : DateTime → DateTime → Bool
no_later a b = not (earlier b a)

abbrev whole_day : ℕ → ℕ → ℕ → Bool
whole_day start end' today_start =
    start % day_ms == 0 && end' == start + day_ms && leb end' today_start

-- `isCompleteUtcDay`
unfoldable pub is_complete_utc_day : Observation → ℕ → Bool
is_complete_utc_day o today_start = on_times o.interval_start o.interval_end
  where
    on_times : DateTime → DateTime → Bool
    on_times (some start) (some end') = whole_day start end' today_start
    on_times _ _ = false

-- `matchesScope`
unfoldable pub matches_scope : Request → Observation → Bool
matches_scope r o =
    if str_eq r.scope_mode "aggregate"
    then str_eq o.scope_kind "" && str_eq o.scope_identity ""
    else str_eq o.scope_kind r.scope_kind && str_eq o.scope_identity r.scope_identity

abbrev pub within : Cycle → Observation → Bool
within c o =
    no_later c.start_utc o.interval_start
    && no_later o.interval_end c.end_utc
    && earlier o.interval_start o.interval_end
    && is_some o.value_minor

abbrev pub value_of : Observation → ℤ
value_of o = elim o.value_minor [ none ↦ pos 0 | some v ↦ v ]

-- `sumWithin`: the total, and whether there was anything. The code adds in qint64, whose overflow the
-- language leaves undefined; here the total wraps as in a machine.
unfoldable pub sum_within : List Observation → Cycle → ℤ × Bool
sum_within [] c = (pos 0, false)
sum_within (o ∷ os) c =
    let rest = sum_within os c in
    if within c o then (wrap_64 (value_of o +ℤ rest.0), true) else rest

abbrev pub same_interval : Observation → Observation → Bool
same_interval a b =
    same_time a.interval_start b.interval_start && same_time a.interval_end b.interval_end

-- `latest.insert(key, candidate)`, unless what the key has is not older.
unfoldable pub place : Observation → List Observation → List Observation
place c [] = c ∷ []
place c (o ∷ os) =
    let rest = place c os in
    if same_interval o c
    then (if earlier o.observed_at c.observed_at then c ∷ os else o ∷ os)
    else o ∷ rest

-- The loop over the observations of the request. The table's order is that of the first arrivals.
unfoldable pub latest_from : Request → List Observation → List Observation → List Observation
latest_from r kept [] = kept
latest_from r kept (o ∷ os) = latest_from r (if matches_scope r o then place o kept else kept) os

unfoldable pub saw_other_scope : Request → List Observation → Bool
saw_other_scope r [] = false
saw_other_scope r (o ∷ os) = not (matches_scope r o) || saw_other_scope r os

-- QMap::insert into the values of the days, by day.
unfoldable pub insert_day : ℕ → ℤ → List (ℕ × ℤ) → List (ℕ × ℤ)
insert_day d v [] = (d, v) ∷ []
insert_day d v ((e, w) ∷ days) =
    let rest = insert_day d v days in
    if ltb d e then (d, v) ∷ (e, w) ∷ days else if d == e then (d, v) ∷ days else (e, w) ∷ rest

abbrev pub day_of : DateTime → ℕ
day_of t = elim t [ none ↦ 0 | some a ↦ a / day_ms ]

-- `baselineByDay`
unfoldable pub baseline_from : List Observation → ℕ → List (ℕ × ℤ) → List (ℕ × ℤ)
baseline_from [] today_start days = days
baseline_from (o ∷ os) today_start days = baseline_from os today_start (
    if is_complete_utc_day o today_start
    then insert_day (day_of o.interval_start) (value_of o) days
    else days)

abbrev pub last_day : ℕ → List (ℕ × ℤ) → ℕ
last_day d [] = d
last_day d ((e, w) ∷ days) = last_day e days

-- `expectedDays`: from the first key to the last.
unfoldable pub expected_days : List (ℕ × ℤ) → ℕ
expected_days [] = 0
expected_days ((d, v) ∷ days) = last_day d days - d + 1

unfoldable pub sort_into : ℤ → List ℤ → List ℤ
sort_into v [] = v ∷ []
sort_into v (w ∷ ws) = let rest = sort_into v ws in if leb_ℤ v w then v ∷ w ∷ ws else w ∷ rest

unfoldable pub sorted : List ℤ → List ℤ
sorted [] = []
sorted (v ∷ vs) = sort_into v (sorted vs)

abbrev pub values : List (ℕ × ℤ) → List ℤ
values [] = []
values ((d, v) ∷ days) = v ∷ values days

abbrev at : ℕ → List ℤ → ℤ
at n [] = pos 0
at zero (v ∷ vs) = v
at (suc n) (v ∷ vs) = at n vs

module _ {D : Type 0} (q : Qt D) (m : Doubles D) where
  -- `median`
  unfoldable pub median : List ℤ → D
  median vs =
      let ordered = sorted vs in
      let middle = length ordered / 2 in
      if length ordered == 0
      then q.nought
      else if length ordered % 2 == 0
      then m.over (m.plus (m.of_long (at (middle - 1) ordered)) (m.of_long (at middle ordered)))
          (m.of_long (pos 2))
      else m.of_long (at middle ordered)

  unfoldable pub coverage_of : List (ℕ × ℤ) → D
  coverage_of days =
      if length days == 0
      then q.nought
      else if ltb 0 (expected_days days)
      then percent q m (pos (length days)) (pos (expected_days days))
      else q.nought
