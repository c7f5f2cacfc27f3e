-- ===== src/QuotaRunway/Evaluate.antt =====
-- `QuotaRunwayQuery::evaluate` of plugin/quotarunwayquery.cpp.
use plasma_ai_usage_monitor.Prelude.{
  ℕ, Bool, true, false, not, ◌&&◌, ◌||◌, Option, none, some, List, [], ◌∷◌, String, if◌then◌else◌,
  str_eq, ltb, leb, ◌==◌, is_some, length,
}
use plasma_ai_usage_monitor.Prelude.Int.{ℤ, pos, pos_part, ltb_ℤ}
use plasma_ai_usage_monitor.Prelude.Qt.{DateTime, earlier, msecs_to, add_msecs, Qt}
use plasma_ai_usage_monitor.Prelude.Doubles.{Doubles}
use plasma_ai_usage_monitor.Forecast.{Result, State, EvidenceGrade, quota_exhaustion, actual}
use plasma_ai_usage_monitor.QuotaRunway.{
  Sample, Request, seconds, sorted, last_of, supported_source, remaining_of, limit_of, coverage,
  consumption_slope, volatility,
}

abbrev method_id : String
method_id = "quota-runway-v1"

abbrev pub same_time : DateTime → DateTime → Bool
same_time none none = true
same_time (some a) (some b) = a == b
same_time _ _ = false

abbrev pub millis : DateTime → DateTime → ℤ
millis (some a) (some b) = msecs_to a b
millis _ _ = pos 0

module _ {D : Type 0} (q : Qt D) (m : Doubles D) where
  open q use {trimmed, to_lower, equal_fold, nought, less, is_finite}
  open m use {of_long, plus, minus, absolute, times, over, at_least, truncate, epsilon}

  -- `QuotaRunwayQuery::unavailable`
  unfoldable pub unavailable : Request D → DateTime → String → ℕ → D → DateTime → Result D
  unavailable r now reason samples coverage period_end = record {
    contract_version = "runway-v1";
    kind = quota_exhaustion;
    state = State.unavailable;
    source_id = r.source_id;
    source_kind = r.source_kind;
    window = r.window;
    scope = r.scope;
    current_value = none;
    projected_value = none;
    limit_value = none;
    unit = if str_eq r.unit "" then "unknown" else r.unit;
    currency = none;
    predicted_at = none;
    period_end = if is_some period_end then period_end else now;
    sample_count = pos samples;
    coverage_percent = coverage;
    evidence_grade = EvidenceGrade.unavailable;
    method_id = method_id;
    reason_key = reason;
    generated_at = now;
    value_class = actual;
    policy_id = "";
    period_start = none;
    spent_minor = none;
    remaining_minor = none;
    consumed_percent = none;
    projected_period_end_minor = none;
    predicted_overrun = false;
    safe_today_minor = none;
    remaining_daily_allowance_minor = none;
    previous_period_spent_minor = none;
    previous_period_change_percent = none;
  }

  -- A sample without its numbers, or with numbers that cannot be.
  abbrev pub is_missing : Sample D → Bool
  is_missing s =
      not (is_some s.observed_at)
      || not (is_some s.reset_at)
      || not (is_some s.remaining)
      || not (is_some s.limit)
      || not (is_finite (remaining_of q m s))
      || not (is_finite (limit_of q m s))
      || less (remaining_of q m s) nought
      || at_least nought (limit_of q m s)
      || less (plus (limit_of q m s) epsilon) (remaining_of q m s)

  -- A sample of another window, unit, source or limit than the first.
  abbrev pub is_foreign : Request D → Sample D → DateTime → Sample D → Bool
  is_foreign r first period_end s =
      not (same_time s.reset_at period_end)
      || not (equal_fold s.unit r.unit)
      || not (str_eq (to_lower (trimmed s.source)) (to_lower (trimmed first.source)))
      || less epsilon (absolute (minus (limit_of q m s) (limit_of q m first)))

  abbrev pub sample_fault : Request D → Sample D → DateTime → Sample D → Option String
  sample_fault r first period_end s =
      if is_missing s
      then some "missing_value"
      else if not (supported_source q m s.source)
      then some "unsupported_source"
      else if is_foreign r first period_end s
      then some "reset_detected"
      else none

  unfoldable pub first_fault : Request D → Sample D → DateTime → List (Sample D) → Option String
  first_fault r first period_end [] = none
  first_fault r first period_end (s ∷ ss) =
      let rest = first_fault r first period_end ss in
      elim (sample_fault r first period_end s) [ none ↦ rest | some reason ↦ some reason ]

  -- Whether more remains at some sample than at the one before it.
  unfoldable pub refills : Sample D → List (Sample D) → Bool
  refills s [] = false
  refills s (t ∷ ts) = less (plus (remaining_of q m s) epsilon) (remaining_of q m t) || refills t ts

  -- The checks of all samples together, in the order of the code.
  abbrev pub series_fault : DateTime → Sample D → List (Sample D) → Option String
  series_fault now s ss =
      let last = last_of s ss in
      if ltb (length (s ∷ ss)) 4
      then some "insufficient_samples"
      else if ltb_ℤ (seconds s.observed_at last.observed_at) (pos 900)
      then some "insufficient_span"
      else if ltb_ℤ (pos 900) (seconds last.observed_at now)
          || earlier (add_msecs now 1_000) last.observed_at
      then some "stale_data"
      else if not (earlier now last.reset_at)
      then some "incompatible_window"
      else if refills s ss
      then some "non_monotonic"
      else none

  abbrev pub grade_of : List (Sample D) → D → D → EvidenceGrade
  grade_of ss slope covered =
      if leb 8 (length ss)
        && at_least covered (of_long (pos 80))
        && at_least (over (of_long (pos 1)) (of_long (pos 4))) (volatility q m ss slope)
      then EvidenceGrade.strong
      else EvidenceGrade.usable

  -- The result without its projection, its prediction and its state.
  abbrev pub basis : Request D → DateTime → Sample D → List (Sample D) → Result D
  basis r now s ss =
      let last = last_of s ss in
      let covered = coverage q m (s ∷ ss) in
      record (unavailable r now "" (length (s ∷ ss)) covered last.reset_at) {
        current_value = some (remaining_of q m last);
        limit_value = some (limit_of q m last);
        unit = r.unit;
        period_end = last.reset_at;
        evidence_grade = grade_of (s ∷ ss) (consumption_slope q m (s ∷ ss)) covered;
      }

  -- The instant at which nothing remains.
  abbrev pub exhausted_at : Sample D → D → DateTime
  exhausted_at last left =
      add_msecs last.observed_at (pos_part (truncate (times left (of_long (pos 1_000)))))

  -- How near it must be to be critical, in seconds.
  abbrev pub critical_horizon : DateTime → DateTime → D
  critical_horizon now period_end =
      let quarter =
        times (of_long (seconds now period_end)) (over (of_long (pos 1)) (of_long (pos 4))) in
      if less (of_long (pos 3_600)) quarter then quarter else of_long (pos 3_600)

  unfoldable pub projected : Request D → DateTime → Sample D → List (Sample D) → Result D
  projected r now s ss =
      let last = last_of s ss in
      let slope = consumption_slope q m (s ∷ ss) in
      let window = of_long (seconds last.observed_at last.reset_at) in
      let left = over (remaining_of q m last) slope in
      let end_value = minus (remaining_of q m last) (times slope window) in
      let result = basis r now s ss in
      let predicted = exhausted_at last left in
      if at_least epsilon slope
      then record result { state = State.safe; projected_value = some (remaining_of q m last) }
      else if at_least left window
      then record result {
        state = State.safe;
        projected_value = some (if less nought end_value then end_value else nought);
      }
      else record result {
        projected_value = some (if less nought end_value then end_value else nought);
        predicted_at = some predicted;
        state =
            if at_least (critical_horizon now last.reset_at)
              (over (of_long (millis now predicted)) (of_long (pos 1_000)))
            then State.critical
            else State.warning;
      }

  unfoldable pub evaluate_sorted : Request D → DateTime → List (Sample D) → Result D
  evaluate_sorted r now [] = unavailable r now "missing_value" 0 nought none
  evaluate_sorted r now (s ∷ ss) =
      let period_end = (last_of s ss).reset_at in
      elim (first_fault r s period_end (s ∷ ss)) [
        | some reason ↦ unavailable r now reason (length (s ∷ ss)) nought period_end
        | none ↦ elim (series_fault now s ss) [
          | some reason ↦
              unavailable r now reason (length (s ∷ ss)) (coverage q m (s ∷ ss)) period_end
          | none ↦ projected r now s ss
        ]
      ]

  unfoldable pub evaluate : Request D → DateTime → Result D
  evaluate r now = evaluate_sorted r now (sorted r.samples)
