-- ===== src/BudgetPacing/Evaluate.antt =====
-- `BudgetPacingQuery::evaluate` of plugin/budgetpacingquery.cpp.
use Prim.Native.String.{◌++◌ as join}
use plasma_ai_usage_monitor.Prelude.{
  ℕ, ◌+◌, ◌-◌, ◌*◌, ◌/◌, Bool, false, not, ◌&&◌, ◌||◌, Option, none, some, List, [], ◌∷◌, String,
  if◌then◌else◌, str_eq, ltb, leb, is_some, length, max,
}
use plasma_ai_usage_monitor.Prelude.Int.{ℤ, pos, pos_part, sub_ℕ, ◌-ℤ◌, ltb_ℤ, leb_ℤ, max_ℤ, min_ℤ}
use plasma_ai_usage_monitor.Prelude.Qt.{DateTime, earlier, msecs_to, Qt}
use plasma_ai_usage_monitor.Prelude.Doubles.{Doubles, percent}
use plasma_ai_usage_monitor.Forecast.{Result, State, EvidenceGrade, budget_overrun}
use plasma_ai_usage_monitor.BillingCycle
use plasma_ai_usage_monitor.BillingCycle.{Calendar, Cycle}
use plasma_ai_usage_monitor.CurrencyMinorUnits.{digits, to_major}
use plasma_ai_usage_monitor.BudgetPacing.{
  day_ms, Observation, Request, same_class, no_later, value_of, sum_within, latest_from,
  saw_other_scope, baseline_from, values, median, coverage_of,
}

abbrev method_id : String
method_id = "budget-pacing-v2"

-- The numbers that an available result is made of.
pub record Pace (D : Type 0) : Type 0 where
  pub now : ℕ
  pub currency : String
  pub spent : ℤ
  pub sample_count : ℕ
  pub coverage : D
  pub daily_baseline : D
  pub previous : ℤ × Bool

abbrev pub scope_of : Request → String
scope_of r =
    if str_eq r.scope_mode "scoped" then join (join r.scope_kind ":") r.scope_label else "aggregate"

-- QDateTime::msecsTo: 0 if either is invalid.
abbrev millis : DateTime → DateTime → ℤ
millis (some a) (some b) = msecs_to a b
millis _ _ = pos 0

-- qMin of two instants.
abbrev first_of : DateTime → DateTime → DateTime
first_of a b = if earlier a b then a else b

module _ {D : Type 0} (q : Qt D) (m : Doubles D) (c : Calendar) where
  open q use {trimmed, to_upper, nought, hundred, less}
  open m use {of_long, plus, times, over, at_least, llround, truncate, floor, epsilon}

  abbrev pub currency_of : Request → String
  currency_of r = to_upper (trimmed r.currency)

  -- `unavailable`
  unfoldable pub unavailable : Request → String → ℕ → D → Result D
  unavailable r reason samples coverage = record {
    contract_version = method_id;
    kind = budget_overrun;
    state = State.unavailable;
    source_id = r.source_id;
    source_kind = r.source_kind;
    window = r.period_type;
    scope = scope_of r;
    current_value = none;
    projected_value = none;
    limit_value = none;
    unit = if str_eq (currency_of r) "" then "unknown" else currency_of r;
    currency = some (currency_of r);
    predicted_at = none;
    period_end = if is_some r.cycle.end_utc then r.cycle.end_utc else r.generated_at;
    sample_count = pos samples;
    coverage_percent = coverage;
    evidence_grade = EvidenceGrade.unavailable;
    method_id = method_id;
    reason_key = reason;
    generated_at = r.generated_at;
    value_class = r.value_class;
    policy_id = r.policy_id;
    period_start = r.cycle.start_utc;
    spent_minor = none;
    remaining_minor = none;
    consumed_percent = none;
    projected_period_end_minor = none;
    predicted_overrun = false;
    safe_today_minor = none;
    remaining_daily_allowance_minor = none;
    previous_period_spent_minor = none;
    previous_period_change_percent = none;
  }

  abbrev blank : String → Bool
  blank s = str_eq (trimmed s) ""

  abbrev pub is_refused : Request → Bool
  is_refused r =
      blank r.policy_id
      || blank r.source_id
      || blank r.source_kind
      || leb_ℤ r.limit_minor (pos 0)
      || leb_ℤ r.warning_percent (pos 0)
      || ltb_ℤ r.critical_percent r.warning_percent
      || ltb_ℤ (pos 100) r.critical_percent
      || not (BillingCycle.is_valid r.cycle)
      || earlier r.generated_at r.cycle.start_utc
      || no_later r.cycle.end_utc r.generated_at

  -- What makes an observation incompatible, in the order of the code.
  abbrev pub observation_fault : Request → Observation → Option String
  observation_fault r o =
      if not (is_some o.value_minor) || ltb_ℤ (value_of o) (pos 0)
      then some "no-data"
      else if not (str_eq (to_upper (trimmed o.currency)) (currency_of r))
      then some "mixed-currency"
      else if not (same_class o.value_class r.value_class)
      then some "mixed-value-class"
      else none

  unfoldable pub first_fault : Request → List Observation → Option String
  first_fault r [] = none
  first_fault r (o ∷ os) =
      let rest = first_fault r os in
      elim (observation_fault r o) [ none ↦ rest | some reason ↦ some reason ]

  -- The amounts, in the smallest units of the currency.
  abbrev pub remaining_of : Request → ℤ → ℤ
  remaining_of r spent = max_ℤ (pos 0) (r.limit_minor -ℤ spent)

  abbrev days_left : Request → ℕ → D
  days_left r now =
      let days = over (of_long (millis (some now) r.cycle.end_utc)) (of_long (pos day_ms)) in
      if less nought days then days else nought

  unfoldable pub projected_of : Request → Pace D → ℤ
  projected_of r p =
      max_ℤ p.spent (llround (plus (of_long p.spent) (times p.daily_baseline (days_left r p.now))))

  -- `proRataAtTodayEnd`: the share of the limit for the part of the period up to the end of today.
  unfoldable pub pro_rata_of : Request → Pace D → ℤ
  pro_rata_of r p =
      let zone = r.time_zone_id in
      let tomorrow = c.midnight zone (c.local_date zone p.now + 1) in
      let elapsed = millis r.cycle.start_utc (first_of tomorrow r.cycle.end_utc) in
      let period = millis r.cycle.start_utc r.cycle.end_utc in
      if ltb_ℤ (pos 0) period
      then floor (over (times (of_long r.limit_minor) (of_long elapsed)) (of_long period))
      else pos 0

  unfoldable pub safe_today_of : Request → Pace D → ℤ
  safe_today_of r p = max_ℤ (pos 0) (min_ℤ (remaining_of r p.spent) (pro_rata_of r p -ℤ p.spent))

  -- The days of the calendar that are left, today included.
  unfoldable pub calendar_days : Request → ℕ → ℕ
  calendar_days r now =
      let zone = r.time_zone_id in
      let last : ℕ = elim r.cycle.end_utc [ none ↦ 0 | some e ↦ c.local_date zone (e - 1) ] in
      max 1 (pos_part (sub_ℕ (last + 1) (c.local_date zone now)))

  unfoldable pub daily_allowance : Request → Pace D → ℤ
  daily_allowance r p = pos (pos_part (remaining_of r p.spent) / calendar_days r p.now)

  unfoldable pub state_of : Request → Pace D → State
  state_of r p =
      let consumed = plus (percent q m p.spent r.limit_minor) epsilon in
      if leb_ℤ r.limit_minor p.spent
      then State.exceeded
      else if at_least consumed (of_long r.critical_percent)
      then State.critical
      else if at_least consumed (of_long r.warning_percent)
          || leb_ℤ r.limit_minor (projected_of r p)
      then State.warning
      else State.safe

  unfoldable pub predicted_at_of : Request → Pace D → Option DateTime
  predicted_at_of r p =
      let days = over (of_long (r.limit_minor -ℤ p.spent)) p.daily_baseline in
      let left = if less nought days then days else nought in
      let hours = times left (of_long (pos 24)) in
      let seconds = times (times hours (of_long (pos 60))) (of_long (pos 60)) in
      if leb_ℤ r.limit_minor (projected_of r p) && less epsilon p.daily_baseline
      then some (some (p.now + pos_part (truncate (times seconds (of_long (pos 1000))))))
      else none

  unfoldable pub result_of : Request → Pace D → Result D
  result_of r p = record {
    contract_version = method_id;
    kind = budget_overrun;
    state = state_of r p;
    source_id = r.source_id;
    source_kind = r.source_kind;
    window = r.period_type;
    scope = scope_of r;
    current_value = to_major q m p.spent p.currency;
    projected_value = to_major q m (projected_of r p) p.currency;
    limit_value = to_major q m r.limit_minor p.currency;
    unit = p.currency;
    currency = some p.currency;
    predicted_at = predicted_at_of r p;
    period_end = r.cycle.end_utc;
    sample_count = pos p.sample_count;
    coverage_percent = p.coverage;
    evidence_grade =
        if leb 10 p.sample_count && at_least p.coverage (of_long (pos 90))
        then EvidenceGrade.strong
        else EvidenceGrade.usable;
    method_id = method_id;
    reason_key = "";
    generated_at = some p.now;
    value_class = r.value_class;
    policy_id = r.policy_id;
    period_start = r.cycle.start_utc;
    spent_minor = some p.spent;
    remaining_minor = some (remaining_of r p.spent);
    consumed_percent = some (percent q m p.spent r.limit_minor);
    projected_period_end_minor = some (projected_of r p);
    predicted_overrun = leb_ℤ r.limit_minor (projected_of r p);
    safe_today_minor = some (safe_today_of r p);
    remaining_daily_allowance_minor = some (daily_allowance r p);
    previous_period_spent_minor = if p.previous.1 then some p.previous.0 else none;
    previous_period_change_percent =
        if p.previous.1 && ltb_ℤ (pos 0) p.previous.0
        then some (percent q m (p.spent -ℤ p.previous.0) p.previous.0)
        else none;
  }

  abbrev pub previous_sum : Request → List Observation → ℤ × Bool
  previous_sum r os =
      if BillingCycle.is_valid r.previous_cycle
      then sum_within os r.previous_cycle
      else (pos 0, false)

  -- The result from the compatible observations.
  unfoldable pub paced : Request → ℕ → List Observation → Result D
  paced r now os =
      let spent = sum_within os r.cycle in
      let days = baseline_from os (now / day_ms * day_ms) [] in
      let coverage = coverage_of q m days in
      if not spent.1
      then unavailable r "no-data" 0 nought
      else if ltb (length days) 5 || less (plus coverage epsilon) (of_long (pos 70))
      then unavailable r "insufficient-samples" (length days) coverage
      else result_of r (record {
        now = now;
        currency = currency_of r;
        spent = spent.0;
        sample_count = length days;
        coverage = coverage;
        daily_baseline = median q m (values days);
        previous = previous_sum r os;
      })

  unfoldable pub compared : Request → ℕ → List Observation → Result D
  compared r now [] =
      unavailable r
        (if str_eq r.scope_mode "scoped" && saw_other_scope r r.observations
          then "scope-unavailable"
          else "no-data")
        0 nought
  compared r now (o ∷ os) = elim (first_fault r (o ∷ os)) [
    | none ↦ paced r now (o ∷ os)
    | some reason ↦ unavailable r reason 0 nought
  ]

  abbrev pub instant : DateTime → ℕ
  instant t = elim t [ none ↦ 0 | some now ↦ now ]

  unfoldable pub evaluate : Request → Result D
  evaluate r =
      if not (str_eq r.preflight_reason "")
      then unavailable r r.preflight_reason 0 nought
      else if is_refused r
      then unavailable r
          (if str_eq r.cycle.reason_key "" then "invalid-policy" else r.cycle.reason_key) 0 nought
      else if not (is_some (digits q m (currency_of r)))
      then unavailable r "unknown-currency" 0 nought
      else if not (c.is_zone r.time_zone_id)
      then unavailable r "invalid-policy" 0 nought
      else compared r (instant r.generated_at) (latest_from r [] r.observations)
