-- ===== src/Forecast/Transitions.antt =====
-- `transitionFor` of plugin/forecastcontract.cpp: which change of state is notified.
use plasma_ai_usage_monitor.Prelude.{
  ◌≡◌, false, not, ◌&&◌, String, if◌then◌else◌, arith, List, [], ◌∷◌, ℕ, ◌+◌, ◌≤◌, str_eq,
}
use plasma_ai_usage_monitor.Forecast.{
  State, unavailable, safe, warning, critical, exceeded, is_state, is_risk, state_key,
}

pub transition_for : State → State → String
transition_for previous current =
    if is_state current warning && not (is_state previous warning)
    then "warning"
    else if is_state current critical && not (is_state previous critical)
    then "critical"
    else if is_state current exceeded && not (is_state previous exceeded)
    then "exceeded"
    else if is_risk previous && is_state current safe
    then "recovered"
    else ""

-- A notice names the new state where that is a risk and was not the state before; a recovery is a
-- return from a risk straight to safety; nothing else is notified.
pub transition_for-eq :
    (previous current : State)
    → transition_for previous current ≡ (
        if is_risk current && not (is_state previous current)
        then state_key current
        else if is_risk previous && is_state current safe
        then "recovered"
        else "")
unfolding transition_for state_key
transition_for-eq previous unavailable = ground arith
transition_for-eq previous safe = ground arith
transition_for-eq previous warning = ground arith
transition_for-eq previous critical = ground arith
transition_for-eq previous exceeded = ground arith

-- The notices of a history of states, the first of which was known before.
pub notices : State → List State → List String
notices previous [] = []
notices previous (current ∷ rest) = transition_for previous current ∷ notices current rest

abbrev pub count_text : String → List String → ℕ
count_text s [] = 0
count_text s (t ∷ ts) = (if str_eq t s then 1 else 0) + count_text s ts

abbrev pub alerts : List String → ℕ
alerts ts = count_text "warning" ts + count_text "critical" ts + count_text "exceeded" ts

abbrev pub risk_bit : State → ℕ
risk_bit s = if is_risk s then 1 else 0

abbrev OneNotice : State → State → Type 0
OneNotice p c =
    count_text "recovered" (transition_for p c ∷ []) + risk_bit c
    ≤ risk_bit p + alerts (transition_for p c ∷ [])

one_notice_lem : (p c : State) → OneNotice p c
unfolding transition_for
one_notice_lem unavailable unavailable = omega arith
one_notice_lem safe unavailable = omega arith
one_notice_lem warning unavailable = omega arith
one_notice_lem critical unavailable = omega arith
one_notice_lem exceeded unavailable = omega arith
one_notice_lem _ _ = omega arith

recoveries_balance :
    (p : State) (cs : List State)
    → count_text "recovered" (notices p cs) ≤ risk_bit p + alerts (notices p cs)
unfolding notices
recoveries_balance p [] = omega arith
recoveries_balance p (c ∷ cs) = omega (arith, one_notice_lem p c, recoveries_balance c cs)

-- Along any history of states that starts outside a risk, there are no more recovery notices than
-- alerts.
pub recovered-le-alerts :
    (previous : State) (history : List State)
    → is_risk previous ≡ false
    → count_text "recovered" (notices previous history) ≤ alerts (notices previous history)
recovered-le-alerts previous history calm = ground (arith, recoveries_balance previous history)
