-- ===== src/Forecast/Wire/RoundTrip.antt =====
-- Writing a result of plugin/forecastcontract.cpp to a map and reading it back.
use plasma_ai_usage_monitor.Prelude.{
  ◌≡◌, refl, ◌≢◌, ◌∙◌, true, Option, none, some, List, String, arith, eq_iff,
}
use mathlib.Core.Option
use plasma_ai_usage_monitor.Prelude.Int.{ℤ}
use plasma_ai_usage_monitor.Prelude.Qt.{
  DateTime, Qt, IsQt, text, number, integer, date_time, VariantMap, value, contains,
}
use plasma_ai_usage_monitor.Forecast.{
  Kind, State, safe, warning, critical, exceeded, EvidenceGrade, usable, strong, ValueClass, Result,
  kind_key, state_key, evidence_grade_key, quota_exhaustion, budget_overrun, actual, estimated,
  value_class_key, enum_for_key,
}
use plasma_ai_usage_monitor.Forecast.Contract.{validate}
use plasma_ai_usage_monitor.Forecast.Wire.{
  kinds, states, grades, value_classes, or_null, or_null_time, to_variant_map, first_missing,
  required_keys, parsed, optional_double, optional_string, optional_date_time, optional_integer,
  read_kind, read_state, read_grade, read_value_class, read_version, read_fields, values_valid,
  accept, read_enums, read_result, from_variant_map,
}

abbrev pub IsInstantIfAny : Option DateTime → Type 0
IsInstantIfAny none = Unit {0}
IsInstantIfAny (some none) = ⊥
IsInstantIfAny (some (some t)) = Unit {0}

module _ {D : Type 0} (q : Qt D) where
  abbrev pub IsFiniteIfAny : Option D → Type 0
  IsFiniteIfAny none = Unit {0}
  IsFiniteIfAny (some d) = q.is_finite d ≡ true

  abbrev pub IsTrimmedIfAny : Option String → Type 0
  IsTrimmedIfAny none = Unit {0}
  IsTrimmedIfAny (some s) = (q.trimmed s ≡ s) × (s ≢ "")

  -- What `isValid` leaves open and the map does not carry: a percentage that is not finite, a currency
  -- with blanks round it, a predicted instant that is no instant.
  pub record IsPlain (r : Result D) : Type 0 where
    pub current_finite : IsFiniteIfAny r.current_value
    pub projected_finite : IsFiniteIfAny r.projected_value
    pub limit_finite : IsFiniteIfAny r.limit_value
    pub consumed_finite : IsFiniteIfAny r.consumed_percent
    pub change_finite : IsFiniteIfAny r.previous_period_change_percent
    pub currency_trimmed : IsTrimmedIfAny r.currency
    pub predicted_instant : IsInstantIfAny r.predicted_at

module _ {D : Type 0} (q : Qt D) (laws : IsQt q) where
  open laws use {
    to_string-text, to_double-number, to_date_time-date_time, to_date_time-null, to_int-integer,
    to_long_long-integer, to_bool-boolean,
  }

  optional_double_lem :
      (m : VariantMap D) (key : String) (o : Option D)
      → value m key ≡ or_null number o
      → IsFiniteIfAny q o
      → optional_double q m key ≡ (o, true)
  unfolding optional_double
  optional_double_lem m key none e h = rw e refl
  optional_double_lem m key (some d) e h = rw (e, to_double-number d, h) refl

  optional_integer_lem :
      (m : VariantMap D) (key : String) (o : Option ℤ)
      → value m key ≡ or_null integer o
      → optional_integer q m key ≡ o
  unfolding optional_integer
  optional_integer_lem m key none e = rw e refl
  optional_integer_lem m key (some z) e = rw (e, to_long_long-integer z) refl

  optional_string_lem :
      (m : VariantMap D) (key : String) (o : Option String)
      → value m key ≡ or_null text o
      → IsTrimmedIfAny q o
      → optional_string q m key ≡ o
  unfolding optional_string
  optional_string_lem m key none e h = rw e refl
  optional_string_lem m key (some s) e (t, ne) =
      rw (e, to_string-text s, t) (ground (arith, eq_iff s ""))

  optional_date_time_lem :
      (m : VariantMap D) (key : String) (o : Option DateTime)
      → value m key ≡ or_null date_time o
      → IsInstantIfAny o
      → optional_date_time q m key ≡ (o, true)
  unfolding optional_date_time
  optional_date_time_lem m key none e h = rw e refl
  optional_date_time_lem m key (some none) e h = absurd h
  optional_date_time_lem m key (some (some t)) e h = rw (e, to_date_time-date_time (some t)) refl

  enum_at :
      {E : Type 0} (m : VariantMap D) (key s : String) (table : List (String × E))
      → value m key ≡ text s
      → enum_for_key (q.to_string (value m key)) table ≡ enum_for_key s table
  enum_at m key s table e = rw (e, to_string-text s) refl

  kind_table : (k : Kind) → enum_for_key (kind_key k) kinds ≡ some k
  unfolding enum_for_key kind_key
  kind_table quota_exhaustion = refl
  kind_table budget_overrun = refl

  state_table : (s : State) → enum_for_key (state_key s) states ≡ some s
  unfolding enum_for_key state_key
  state_table State.unavailable = refl
  state_table safe = refl
  state_table warning = refl
  state_table critical = refl
  state_table exceeded = refl

  grade_table : (g : EvidenceGrade) → enum_for_key (evidence_grade_key g) grades ≡ some g
  unfolding enum_for_key evidence_grade_key
  grade_table EvidenceGrade.unavailable = refl
  grade_table usable = refl
  grade_table strong = refl

  value_class_table : (v : ValueClass) → enum_for_key (value_class_key v) value_classes ≡ some v
  unfolding enum_for_key value_class_key
  value_class_table actual = refl
  value_class_table estimated = refl

  module _ (r : Result D) where
    kind_at : read_kind q (to_variant_map r) ≡ some r.kind
    unfolding read_kind to_variant_map value
    kind_at = enum_at (to_variant_map r) "kind" (kind_key r.kind) kinds refl ∙ kind_table r.kind

    state_at : read_state q (to_variant_map r) ≡ some r.state
    unfolding read_state to_variant_map value
    state_at =
        enum_at (to_variant_map r) "state" (state_key r.state) states refl ∙ state_table r.state

    grade_at : read_grade q (to_variant_map r) ≡ some r.evidence_grade
    unfolding read_grade to_variant_map value
    grade_at =
        enum_at (to_variant_map r) "evidenceGrade" (evidence_grade_key r.evidence_grade) grades refl
        ∙ grade_table r.evidence_grade

    value_class_at : read_value_class q (to_variant_map r) ≡ some r.value_class
    unfolding read_value_class to_variant_map value
    value_class_at =
        enum_at (to_variant_map r) "valueClass" (value_class_key r.value_class) value_classes refl
        ∙ value_class_table r.value_class

    read_enums_lem :
        read_enums q (to_variant_map r) ≡ some (r.kind, r.state, r.evidence_grade, r.value_class)
    unfolding read_enums
    read_enums_lem = ground (arith, kind_at, state_at, grade_at, value_class_at)

    present_lem : first_missing required_keys (to_variant_map r) ≡ none
    unfolding first_missing to_variant_map contains
    present_lem = refl

  module _ (r : Result D) (p : IsPlain q r) where
    current : optional_double q (to_variant_map r) "currentValue" ≡ (r.current_value, true)
    unfolding to_variant_map value
    current = optional_double_lem _ _ r.current_value refl p.current_finite

    projected : optional_double q (to_variant_map r) "projectedValue" ≡ (r.projected_value, true)
    unfolding to_variant_map value
    projected = optional_double_lem _ _ r.projected_value refl p.projected_finite

    limit : optional_double q (to_variant_map r) "limitValue" ≡ (r.limit_value, true)
    unfolding to_variant_map value
    limit = optional_double_lem _ _ r.limit_value refl p.limit_finite

    consumed : optional_double q (to_variant_map r) "consumedPercent" ≡ (r.consumed_percent, true)
    unfolding to_variant_map value
    consumed = optional_double_lem _ _ r.consumed_percent refl p.consumed_finite

    change :
        optional_double q (to_variant_map r) "previousPeriodChangePercent"
        ≡ (r.previous_period_change_percent, true)
    unfolding to_variant_map value
    change = optional_double_lem _ _ r.previous_period_change_percent refl p.change_finite

    currency : optional_string q (to_variant_map r) "currency" ≡ r.currency
    unfolding to_variant_map value
    currency = optional_string_lem _ _ r.currency refl p.currency_trimmed

    predicted : optional_date_time q (to_variant_map r) "predictedAt" ≡ (r.predicted_at, true)
    unfolding to_variant_map value
    predicted = optional_date_time_lem _ _ r.predicted_at refl p.predicted_instant

    values_valid_lem : values_valid q (to_variant_map r) ≡ true
    unfolding values_valid
    values_valid_lem = rw (current, projected, limit, predicted, consumed, change) refl

    abbrev integer_at :
        (key : String) (o : Option ℤ)
        → value (to_variant_map r) key ≡ or_null integer o
        → optional_integer q (to_variant_map r) key ≡ o
    integer_at key o e = optional_integer_lem (to_variant_map r) key o e

    period_start : q.to_date_time (or_null_time r.period_start) ≡ r.period_start
    period_start = elim r.period_start as (λ t. q.to_date_time (or_null_time t) ≡ t) [
      | none ↦ to_date_time-null
      | some t ↦ to_date_time-date_time (some t)
    ]

    read_fields_lem :
        read_fields q (to_variant_map r) r.kind r.state r.evidence_grade r.value_class ≡ r
    unfolding read_fields read_version to_variant_map value contains
    read_fields_lem = simp (
      current,
      projected,
      limit,
      consumed,
      change,
      currency,
      predicted,
      period_start,
      to_string-text,
      to_double-number,
      to_date_time-date_time,
      to_int-integer,
      to_bool-boolean,
      integer_at "spentMinor" r.spent_minor refl,
      integer_at "remainingMinor" r.remaining_minor refl,
      integer_at "projectedPeriodEndMinor" r.projected_period_end_minor refl,
      integer_at "safeTodayMinor" r.safe_today_minor refl,
      integer_at "remainingDailyAllowanceMinor" r.remaining_daily_allowance_minor refl,
      integer_at "previousPeriodSpentMinor" r.previous_period_spent_minor refl,
      Option.get_or,
    )

    -- A valid result is read back from its map as it was written, whatever its state, if its
    -- optional percentages are finite, its currency is trimmed and not empty, its predicted instant
    -- is valid, and values read back as the type they hold.
    pub from-to_variant_map : validate q r ≡ none → from_variant_map q (to_variant_map r) ≡ parsed r
    unfolding from_variant_map read_result accept
    from-to_variant_map valid =
        rw
          (
            present_lem r,
            from_variant_map,
            read_enums_lem r,
            read_result,
            values_valid_lem,
            read_fields_lem,
            valid,
          )
          refl
