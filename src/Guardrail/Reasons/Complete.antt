-- ===== src/Guardrail/Reasons/Complete.antt =====
-- The texts of `localizedReason` in plugin/guardrailmodel.cpp against the reasons that
-- plugin/forecastcontract.cpp admits.
use plasma_ai_usage_monitor.Prelude.{
  ◌≡◌, refl, inl, inr, subst, true, some, List, [], ◌∷◌, String, is_some, All, arith, str_eq,
  eq_iff, Bool-cases, some_of_is_some,
}
use plasma_ai_usage_monitor.Forecast.{unavailable_reason_keys, has_text}
use plasma_ai_usage_monitor.Guardrail.Reasons.{reason_texts, reason_text, localized_reason}

abbrev IsTold : String → Type 0
IsTold key = is_some (reason_text reason_texts key) ≡ true

All-IsTold : All IsTold unavailable_reason_keys
unfolding unavailable_reason_keys reason_text
All-IsTold = ground arith

IsTold-has_text :
    (keys : List String) (key : String) → All IsTold keys → has_text keys key ≡ true → IsTold key
unfolding has_text
IsTold-has_text [] key a e = cc
IsTold-has_text (k ∷ keys) key a e = elim (Bool-cases (str_eq k key)) [
  | inl same ↦ subst IsTold ((eq_iff k key).0 same) a.0
  | inr other ↦ IsTold-has_text keys key a.1 (ground arith)
]

told_text :
    (key : String) → IsTold key → (text : String) × (reason_text reason_texts key ≡ some text)
told_text key told = some_of_is_some (reason_text reason_texts key) told

-- Every reason that the forecast contract admits for an unavailable result has a text of its own,
-- whose translation is what the interface shows.
pub localized_reason_complete :
    (translate : String → String) (key : String)
    → has_text unavailable_reason_keys key ≡ true
    → (text : String) × (reason_text reason_texts key ≡ some text)
      × (localized_reason translate key ≡ translate text)
unfolding localized_reason
localized_reason_complete translate key h =
    let (text, e) = told_text key (IsTold-has_text unavailable_reason_keys key All-IsTold h) in
    (text, e, rw e refl)
