-- ===== src/Forecast/Contract.antt =====
-- `Result::isValid` of plugin/forecastcontract.cpp.
use plasma_ai_usage_monitor.Prelude.{
  Bool, true, false, not, ◌&&◌, ◌||◌, Option, none, some, String, if◌then◌else◌, is_some, str_eq,
}
use plasma_ai_usage_monitor.Prelude.Int.{ℤ, pos, ltb_ℤ}
use plasma_ai_usage_monitor.Prelude.Qt.{earlier, Qt}
use plasma_ai_usage_monitor.Forecast.{
  Kind, quota_exhaustion, budget_overrun, State, EvidenceGrade, Result, unavailable_reason_keys,
  has_text, is_state, is_risk,
}

abbrev pub is_kind : Kind → Kind → Bool
is_kind quota_exhaustion quota_exhaustion = true
is_kind budget_overrun budget_overrun = true
is_kind _ _ = false

abbrev pub is_grade_unavailable : EvidenceGrade → Bool
is_grade_unavailable EvidenceGrade.unavailable = true
is_grade_unavailable _ = false

abbrev pub present : {A : Type 0} → (A → Bool) → Option A → Bool
present p none = false
present p (some a) = p a

-- The first complaint that applies, or else what the rest says.
abbrev pub fail : Bool → String → Option String → Option String
fail bad message rest = if bad then some message else rest

module _ {D : Type 0} (q : Qt D) where
  open q use {trimmed, equal_fold, nought, hundred, less, is_finite}

  abbrev pub blank : String → Bool
  blank s = str_eq (trimmed s) ""

  -- Not finite, or negative.
  abbrev pub bad_amount : D → Bool
  bad_amount d = not (is_finite d) || less d nought

  abbrev pub below_zero : Option ℤ → Bool
  below_zero z = present (λ n. ltb_ℤ n (pos 0)) z

  unfoldable pub unavailable_fault : Result D → Option String → Option String
  unavailable_fault r rest =
      fail (blank r.reason_key || not (has_text unavailable_reason_keys r.reason_key))
        "forecast unavailable reason is invalid"
        (fail (not (is_grade_unavailable r.evidence_grade))
          "unavailable forecast has an evidence grade"
          (fail (is_some r.predicted_at) "unavailable forecast predicts an event" rest))

  unfoldable pub available_fault : Result D → Option String → Option String
  available_fault r rest =
      fail
        (not (is_some r.current_value)
          || not (is_some r.projected_value)
          || not (is_some r.limit_value))
        "available forecast values are incomplete"
        (fail (is_grade_unavailable r.evidence_grade) "available forecast lacks usable evidence" (
          fail (not (blank r.reason_key)) "available forecast has an unavailable reason" (
            fail
              (is_risk r.state && not (is_some r.predicted_at) && is_kind r.kind quota_exhaustion)
              "risk forecast lacks a predicted time"
              (fail (is_state r.state State.safe && is_some r.predicted_at)
                "safe forecast predicts an event" rest))))

  unfoldable pub pacing_fault : Result D → Option String
  pacing_fault r =
      if not (str_eq r.contract_version "budget-pacing-v2")
      then none
      else fail
          (not (is_kind r.kind budget_overrun)
            || blank r.policy_id
            || not (is_some r.period_start)
            || not (earlier r.period_start r.period_end))
          "budget pacing v2 identity or period is invalid"
          (fail
            (not (is_state r.state State.unavailable)
              && (not (is_some r.spent_minor)
                  || not (is_some r.remaining_minor)
                  || not (is_some r.consumed_percent)
                  || not (is_some r.projected_period_end_minor)
                  || not (is_some r.safe_today_minor)
                  || not (is_some r.remaining_daily_allowance_minor)
                  || below_zero r.spent_minor
                  || below_zero r.remaining_minor
                  || below_zero r.safe_today_minor
                  || below_zero r.remaining_daily_allowance_minor
                  || present bad_amount r.consumed_percent))
            "budget pacing v2 values are invalid" none)

  -- `none` for a valid result, and otherwise the diagnostic.
  unfoldable pub validate : Result D → Option String
  unfolding unavailable_fault available_fault pacing_fault
  validate r =
      fail (blank r.source_id || blank r.source_kind || blank r.window || blank r.scope)
        "forecast identity is incomplete"
        (fail (blank r.unit || blank r.method_id) "forecast method or unit is missing" (
          fail
            ((is_kind r.kind budget_overrun
                && (not (present (λ c. not (blank c) && equal_fold r.unit c) r.currency)))
              || (is_kind r.kind quota_exhaustion && is_some r.currency))
            "forecast currency contract is invalid"
            (fail (not (is_some r.period_end) || not (is_some r.generated_at))
              "forecast UTC boundaries are invalid"
              (fail
                (ltb_ℤ r.sample_count (pos 0)
                  || not (is_finite r.coverage_percent)
                  || less r.coverage_percent nought
                  || less hundred r.coverage_percent)
                "forecast evidence values are invalid"
                (fail (present bad_amount r.current_value) "forecast current value is invalid" (
                  fail (present bad_amount r.projected_value) "forecast projected value is invalid"
                    (fail (present bad_amount r.limit_value) "forecast limit value is invalid" (
                      if is_state r.state State.unavailable
                      then unavailable_fault r (pacing_fault r)
                      else available_fault r (pacing_fault r)))))))))
