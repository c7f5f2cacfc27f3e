-- ===== src/QuotaRunway/Prediction.antt =====
-- The prediction of plugin/quotarunwayquery.cpp against its state.
use plasma_ai_usage_monitor.Prelude.{
  ℕ, ◌≡◌, refl, sym, ◌∙◌, Bool, true, false, not, Option, none, some, List, [], ◌∷◌, String,
  if◌then◌else◌, is_some, length,
}
use plasma_ai_usage_monitor.Prelude.Int.{pos}
use plasma_ai_usage_monitor.Prelude.Qt.{DateTime, Qt}
use plasma_ai_usage_monitor.Prelude.Doubles.{Doubles}
use plasma_ai_usage_monitor.Forecast.{Result, State, EvidenceGrade, is_state, is_risk}
use plasma_ai_usage_monitor.Forecast.Contract.{is_grade_unavailable}
use plasma_ai_usage_monitor.QuotaRunway.{
  Sample, Request, seconds, sorted, last_of, coverage, consumption_slope, remaining_of,
}
use plasma_ai_usage_monitor.QuotaRunway.Evaluate.{
  unavailable, first_fault, series_fault, millis, exhausted_at, critical_horizon, projected,
  evaluate_sorted, evaluate,
}

graded :
    (strong : Bool)
    → is_grade_unavailable (if strong then EvidenceGrade.strong else EvidenceGrade.usable) ≡ false
graded true = refl
graded false = refl

risky : (near : Bool) → is_risk (if near then State.critical else State.warning) ≡ true
risky true = refl
risky false = refl

open_state :
    (near : Bool)
    → is_state (if near then State.critical else State.warning) State.unavailable ≡ false
open_state true = refl
open_state false = refl

-- What a result says of a prediction, an amount and a grade.
pub record IsCoherent {D : Type 0} (x : Result D) : Type 0 where
  pub predicted : is_some x.predicted_at ≡ is_risk x.state
  pub current : is_some x.current_value ≡ not (is_state x.state State.unavailable)
  pub projected : is_some x.projected_value ≡ not (is_state x.state State.unavailable)
  pub limit : is_some x.limit_value ≡ not (is_state x.state State.unavailable)
  pub grade : is_grade_unavailable x.evidence_grade ≡ is_state x.state State.unavailable

module _ {D : Type 0} (q : Qt D) (m : Doubles D) where
  unavailable-IsCoherent :
      (r : Request D) (now : DateTime) (reason : String) (samples : ℕ) (covered : D)
      (end' : DateTime)
      → IsCoherent (unavailable q m r now reason samples covered end')
  unfolding unavailable
  unavailable-IsCoherent r now reason samples covered end' = record {
    predicted = refl;
    current = refl;
    projected = refl;
    limit = refl;
    grade = refl;
  }

  if-IsCoherent :
      (b : Bool) (x y : Result D) → IsCoherent x → IsCoherent y → IsCoherent (if b then x else y)
  if-IsCoherent true x y hx hy = hx
  if-IsCoherent false x y hx hy = hy

  projected-IsCoherent :
      (r : Request D) (now : DateTime) (s : Sample D) (ss : List (Sample D))
      → IsCoherent (projected q m r now s ss)
  unfolding projected unavailable
  projected-IsCoherent r now s ss =
      let last = last_of s ss in
      let slope = consumption_slope q m (s ∷ ss) in
      let window = m.of_long (seconds last.observed_at last.reset_at) in
      let left = m.over (remaining_of q m last) slope in
      let near =
        m.at_least (critical_horizon q m now last.reset_at)
          (m.over (m.of_long (millis now (exhausted_at q m last left))) (m.of_long (pos 1_000))) in
      if-IsCoherent (m.at_least m.epsilon slope) _ _
        (record {
          predicted = refl;
          current = refl;
          projected = refl;
          limit = refl;
          grade = graded _;
        })
        (if-IsCoherent (m.at_least left window) _ _
          (record {
            predicted = refl;
            current = refl;
            projected = refl;
            limit = refl;
            grade = graded _;
          })
          (record {
            predicted = sym (risky near);
            current = rw (open_state near) refl;
            projected = rw (open_state near) refl;
            limit = rw (open_state near) refl;
            grade = graded _ ∙ sym (open_state near);
          }))

  fault-IsCoherent :
      (fault : Option String) (bad : String → Result D) (good : Result D)
      → ((reason : String) → IsCoherent (bad reason))
      → IsCoherent good
      → IsCoherent (elim fault as (λ f. Result D) [ some reason ↦ bad reason | none ↦ good ])
  fault-IsCoherent none bad good hb hg = hg
  fault-IsCoherent (some reason) bad good hb hg = hb reason

  sorted-IsCoherent :
      (r : Request D) (now : DateTime) (ss : List (Sample D))
      → IsCoherent (evaluate_sorted q m r now ss)
  unfolding evaluate_sorted
  sorted-IsCoherent r now [] = unavailable-IsCoherent r now "missing_value" 0 q.nought none
  sorted-IsCoherent r now (s ∷ ss) =
      let period_end = (last_of s ss).reset_at in
      let n = length (s ∷ ss) in
      fault-IsCoherent (first_fault q m r s period_end (s ∷ ss)) _ _
        (λ reason. unavailable-IsCoherent r now reason n q.nought period_end)
        (fault-IsCoherent (series_fault q m now s ss) _ _
          (λ reason. unavailable-IsCoherent r now reason n (coverage q m (s ∷ ss)) period_end)
          (projected-IsCoherent r now s ss))

  -- For every request, the answer predicts an instant exactly where its state is a risk, it has a
  -- current, a projected and a limit value and a grade exactly where its state is not unavailable.
  pub evaluate-IsCoherent : (r : Request D) (now : DateTime) → IsCoherent (evaluate q m r now)
  unfolding evaluate
  evaluate-IsCoherent r now = sorted-IsCoherent r now (sorted r.samples)
