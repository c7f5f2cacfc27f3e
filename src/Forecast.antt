-- ===== src/Forecast.antt =====
-- plugin/forecastcontract.h and .cpp: the result that every forecast returns, the keys of its
-- enumerations, and when a change of state is worth a notification. `Contract` is `isValid`, `Wire`
-- the conversion to a QVariantMap and back.
pub mod Contract
pub mod Wire
pub mod Transitions
pub mod Identity
mod Examples
use plasma_ai_usage_monitor.Prelude.{
  ℕ, Bool, true, false, ◌&&◌, ◌||◌, Option, none, some, List, [], ◌∷◌, String, if◌then◌else◌,
  str_eq,
}
use plasma_ai_usage_monitor.Prelude.Int.{ℤ}
use plasma_ai_usage_monitor.Prelude.Qt.{DateTime}

pub data Kind : Type 0 where
  quota_exhaustion budget_overrun : Kind

pub data State : Type 0 where
  unavailable safe warning critical exceeded : State

pub data EvidenceGrade : Type 0 where
  unavailable usable strong : EvidenceGrade

pub data ValueClass : Type 0 where
  actual estimated : ValueClass

pub record Result (D : Type 0) : Type 0 where
  pub contract_version : String
  pub kind : Kind
  pub state : State
  pub source_id : String
  pub source_kind : String
  pub window : String
  pub scope : String
  pub current_value : Option D
  pub projected_value : Option D
  pub limit_value : Option D
  pub unit : String
  pub currency : Option String
  pub predicted_at : Option DateTime
  pub period_end : DateTime
  pub sample_count : ℤ
  pub coverage_percent : D
  pub evidence_grade : EvidenceGrade
  pub method_id : String
  pub reason_key : String
  pub generated_at : DateTime
  pub value_class : ValueClass
  pub policy_id : String
  pub period_start : DateTime
  pub spent_minor : Option ℤ
  pub remaining_minor : Option ℤ
  pub consumed_percent : Option D
  pub projected_period_end_minor : Option ℤ
  pub predicted_overrun : Bool
  pub safe_today_minor : Option ℤ
  pub remaining_daily_allowance_minor : Option ℤ
  pub previous_period_spent_minor : Option ℤ
  pub previous_period_change_percent : Option D

unfoldable pub kind_key : Kind → String
kind_key quota_exhaustion = "quota_exhaustion"
kind_key budget_overrun = "budget_overrun"

unfoldable pub state_key : State → String
state_key unavailable = "unavailable"
state_key safe = "safe"
state_key warning = "warning"
state_key critical = "critical"
state_key exceeded = "exceeded"

unfoldable pub evidence_grade_key : EvidenceGrade → String
evidence_grade_key unavailable = "unavailable"
evidence_grade_key usable = "usable"
evidence_grade_key strong = "strong"

unfoldable pub value_class_key : ValueClass → String
value_class_key actual = "actual"
value_class_key estimated = "estimated"

-- `enumForKey`: the value of the first candidate that is the key.
unfoldable pub enum_for_key : {E : Type 0} → String → List (String × E) → Option E
enum_for_key key [] = none
enum_for_key key ((candidate, e) ∷ rest) =
    if str_eq candidate key then some e else enum_for_key key rest

unfoldable pub unavailable_reason_keys : List String
unavailable_reason_keys =
    "insufficient_samples" ∷ "insufficient_span" ∷ "stale_data" ∷ "missing_value"
    ∷ "unsupported_source" ∷ "incompatible_window" ∷ "reset_detected" ∷ "non_monotonic"
    ∷ "no_consumption" ∷ "missing_budget" ∷ "mixed_currency" ∷ "currency_mismatch"
    ∷ "mixed_value_class" ∷ "insufficient_coverage" ∷ "incomplete_period" ∷ "cancelled"
    ∷ "query_failed" ∷ "no-data" ∷ "insufficient-samples" ∷ "mixed-value-class" ∷ "mixed-currency"
    ∷ "scope-unavailable" ∷ "unstable-reset" ∷ "invalid-policy" ∷ "query-failed"
    ∷ "unknown-currency" ∷ []

unfoldable pub has_text : List String → String → Bool
has_text [] s = false
has_text (t ∷ ts) s = str_eq t s || has_text ts s

abbrev pub is_state : State → State → Bool
is_state unavailable unavailable = true
is_state safe safe = true
is_state warning warning = true
is_state critical critical = true
is_state exceeded exceeded = true
is_state _ _ = false

-- States that need attention.
abbrev pub is_risk : State → Bool
is_risk s = is_state s warning || is_state s critical || is_state s exceeded
