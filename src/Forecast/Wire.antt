-- ===== src/Forecast/Wire.antt =====
-- `Result::toVariantMap` and `fromVariantMap` of plugin/forecastcontract.cpp. A conversion toUTC is the
-- identity on instants.
pub mod RoundTrip
use plasma_ai_usage_monitor.Prelude.{
  Bool, true, false, not, ◌&&◌, Option, none, some, List, [], ◌∷◌, String, if◌then◌else◌, str_eq,
}
use mathlib.Core.Option
use plasma_ai_usage_monitor.Prelude.Int.{ℤ}
use plasma_ai_usage_monitor.Prelude.Qt.{
  DateTime, Qt, Variant, null, text, number, integer, boolean, date_time, VariantMap, value,
  contains, is_null,
}
use plasma_ai_usage_monitor.Forecast.{
  Kind, quota_exhaustion, budget_overrun, State, EvidenceGrade, ValueClass, actual, estimated,
  Result, kind_key, state_key, evidence_grade_key, value_class_key, enum_for_key,
}
use plasma_ai_usage_monitor.Forecast.Contract.{validate}

module _ {D : Type 0} where
  -- `insertOptional`, `insertOptionalInteger` and their like.
  abbrev or_null : {A : Type 0} → (A → Variant D) → Option A → Variant D
  or_null f none = null
  or_null f (some a) = f a

  abbrev or_null_time : DateTime → Variant D
  or_null_time none = null
  or_null_time (some t) = date_time (some t)

  pub to_variant_map : Result D → VariantMap D
  to_variant_map r =
      ("contractVersion", text r.contract_version)
      ∷ ("kind", text (kind_key r.kind))
      ∷ ("state", text (state_key r.state))
      ∷ ("sourceId", text r.source_id)
      ∷ ("sourceKind", text r.source_kind)
      ∷ ("window", text r.window)
      ∷ ("scope", text r.scope)
      ∷ ("unit", text r.unit)
      ∷ ("periodEnd", date_time r.period_end)
      ∷ ("sampleCount", integer r.sample_count)
      ∷ ("coveragePercent", number r.coverage_percent)
      ∷ ("evidenceGrade", text (evidence_grade_key r.evidence_grade))
      ∷ ("methodId", text r.method_id)
      ∷ ("reasonKey", text r.reason_key)
      ∷ ("generatedAt", date_time r.generated_at)
      ∷ ("valueClass", text (value_class_key r.value_class))
      ∷ ("policyId", text r.policy_id)
      ∷ ("periodStart", or_null_time r.period_start)
      ∷ ("predictedOverrun", boolean r.predicted_overrun)
      ∷ ("currentValue", or_null number r.current_value)
      ∷ ("projectedValue", or_null number r.projected_value)
      ∷ ("limitValue", or_null number r.limit_value)
      ∷ ("currency", or_null text r.currency)
      ∷ ("predictedAt", or_null date_time r.predicted_at)
      ∷ ("spentMinor", or_null integer r.spent_minor)
      ∷ ("remainingMinor", or_null integer r.remaining_minor)
      ∷ ("consumedPercent", or_null number r.consumed_percent)
      ∷ ("projectedPeriodEndMinor", or_null integer r.projected_period_end_minor)
      ∷ ("safeTodayMinor", or_null integer r.safe_today_minor)
      ∷ ("remainingDailyAllowanceMinor", or_null integer r.remaining_daily_allowance_minor)
      ∷ ("previousPeriodSpentMinor", or_null integer r.previous_period_spent_minor)
      ∷ ("previousPeriodChangePercent", or_null number r.previous_period_change_percent)
      ∷ []

  unfoldable pub first_missing : List String → VariantMap D → Option String
  first_missing [] m = none
  first_missing (key ∷ keys) m = if not (contains m key) then some key else first_missing keys m

abbrev pub required_keys : List String
required_keys =
    "kind" ∷ "state" ∷ "sourceId" ∷ "sourceKind" ∷ "window" ∷ "scope" ∷ "currentValue"
    ∷ "projectedValue" ∷ "limitValue" ∷ "unit" ∷ "currency" ∷ "predictedAt" ∷ "periodEnd"
    ∷ "sampleCount" ∷ "coveragePercent" ∷ "evidenceGrade" ∷ "methodId" ∷ "reasonKey" ∷ "generatedAt"
    ∷ "valueClass" ∷ []

abbrev kinds : List (String × Kind)
kinds = ("quota_exhaustion", quota_exhaustion) ∷ ("budget_overrun", budget_overrun) ∷ []

abbrev states : List (String × State)
states =
    ("unavailable", State.unavailable)
    ∷ ("safe", State.safe)
    ∷ ("warning", State.warning)
    ∷ ("critical", State.critical)
    ∷ ("exceeded", State.exceeded)
    ∷ []

abbrev grades : List (String × EvidenceGrade)
grades =
    ("unavailable", EvidenceGrade.unavailable)
    ∷ ("usable", EvidenceGrade.usable)
    ∷ ("strong", EvidenceGrade.strong)
    ∷ []

abbrev value_classes : List (String × ValueClass)
value_classes = ("actual", actual) ∷ ("estimated", estimated) ∷ []

-- What `fromVariantMap` makes of a map: a result, or the diagnostic that it writes, if any.
pub data Parsed (D : Type 0) : Type 0 where
  parsed : Result D → Parsed D
  missing_field : String → Parsed D
  invalid_enum : Parsed D
  invalid_value : Parsed D
  rejected : String → Parsed D

module _ {D : Type 0} (q : Qt D) where
  -- The value, and whether reading it kept `*valid`.
  optional_double : VariantMap D → String → Option D × Bool
  optional_double m key =
      if is_null (value m key) then (none, true) else elim (q.to_double (value m key)) [
        | none ↦ (none, false)
        | some d ↦ if q.is_finite d then (some d, true) else (none, false)
      ]

  optional_string : VariantMap D → String → Option String
  optional_string m key =
      let s = q.trimmed (q.to_string (value m key)) in
      if is_null (value m key) then none else if str_eq s "" then none else some s

  optional_date_time : VariantMap D → String → Option DateTime × Bool
  optional_date_time m key =
      if is_null (value m key) then (none, true) else elim (q.to_date_time (value m key)) [
        | none ↦ (none, false)
        | some t ↦ (some (some t), true)
      ]

  optional_integer : VariantMap D → String → Option ℤ
  optional_integer m key =
      if is_null (value m key) then none else some (q.to_long_long (value m key))

  abbrev read_text : VariantMap D → String → String
  read_text m key = q.to_string (value m key)

  read_kind : VariantMap D → Option Kind
  read_kind m = enum_for_key (read_text m "kind") kinds

  read_state : VariantMap D → Option State
  read_state m = enum_for_key (read_text m "state") states

  read_grade : VariantMap D → Option EvidenceGrade
  read_grade m = enum_for_key (read_text m "evidenceGrade") grades

  read_value_class : VariantMap D → Option ValueClass
  read_value_class m = enum_for_key (read_text m "valueClass") value_classes

  read_version : VariantMap D → String
  read_version m =
      if contains m "contractVersion" then read_text m "contractVersion" else "runway-v1"

  pub read_fields : VariantMap D → Kind → State → EvidenceGrade → ValueClass → Result D
  read_fields m kind state grade value_class = record {
    contract_version = read_version m;
    kind = kind;
    state = state;
    source_id = read_text m "sourceId";
    source_kind = read_text m "sourceKind";
    window = read_text m "window";
    scope = read_text m "scope";
    current_value = (optional_double m "currentValue").0;
    projected_value = (optional_double m "projectedValue").0;
    limit_value = (optional_double m "limitValue").0;
    unit = read_text m "unit";
    currency = optional_string m "currency";
    predicted_at = (optional_date_time m "predictedAt").0;
    period_end = q.to_date_time (value m "periodEnd");
    sample_count = q.to_int (value m "sampleCount");
    coverage_percent = Option.get_or (q.to_double (value m "coveragePercent")) q.nought;
    evidence_grade = grade;
    method_id = read_text m "methodId";
    reason_key = read_text m "reasonKey";
    generated_at = q.to_date_time (value m "generatedAt");
    value_class = value_class;
    policy_id = read_text m "policyId";
    period_start = q.to_date_time (value m "periodStart");
    spent_minor = optional_integer m "spentMinor";
    remaining_minor = optional_integer m "remainingMinor";
    consumed_percent = (optional_double m "consumedPercent").0;
    projected_period_end_minor = optional_integer m "projectedPeriodEndMinor";
    predicted_overrun = q.to_bool (value m "predictedOverrun");
    safe_today_minor = optional_integer m "safeTodayMinor";
    remaining_daily_allowance_minor = optional_integer m "remainingDailyAllowanceMinor";
    previous_period_spent_minor = optional_integer m "previousPeriodSpentMinor";
    previous_period_change_percent = (optional_double m "previousPeriodChangePercent").0;
  }

  pub values_valid : VariantMap D → Bool
  values_valid m =
      (optional_double m "currentValue").1
      && (optional_double m "projectedValue").1
      && (optional_double m "limitValue").1
      && (optional_date_time m "predictedAt").1
      && (optional_double m "consumedPercent").1
      && (optional_double m "previousPeriodChangePercent").1

  accept : Result D → Option String → Parsed D
  accept r none = parsed r
  accept r (some message) = rejected message

  pub read_enums : VariantMap D → Option (Kind × State × EvidenceGrade × ValueClass)
  read_enums m = elim (read_kind m) [
    | none ↦ none
    | some k ↦ elim (read_state m) [
      | none ↦ none
      | some s ↦ elim (read_grade m) [
        | none ↦ none
        | some g ↦ Option.map (λ v. (k, s, g, v)) (read_value_class m)
      ]
    ]
  ]

  pub read_result : VariantMap D → Option (Kind × State × EvidenceGrade × ValueClass) → Parsed D
  read_result m none = invalid_enum
  read_result m (some (k, s, g, v)) =
      let r = read_fields m k s g v in
      if not (values_valid m) then invalid_value else accept r (validate q r)

  unfoldable pub from_variant_map : VariantMap D → Parsed D
  from_variant_map m = elim (first_missing required_keys m) [
    | some key ↦ missing_field key
    | none ↦ read_result m (read_enums m)
  ]
