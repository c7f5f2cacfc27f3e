-- ===== src/BudgetPacing/Valid.antt =====
-- A result of plugin/budgetpacingquery.cpp against the contract of forecasts.
use plasma_ai_usage_monitor.Prelude.{
  ℕ, ◌≡◌, refl, Bool, true, false, ◌&&◌, Option, none, some, String, arith, if◌then◌else◌, is_some,
  Bool-cases, inl, inr, and-true, some_of_is_some,
}
use plasma_ai_usage_monitor.Prelude.Int.{ℤ, pos, negsuc, ltb_ℤ, leb_ℤ, ◌≤ℤ◌, ◌-ℤ◌}
use plasma_ai_usage_monitor.Prelude.Qt.{DateTime, earlier, Qt}
use plasma_ai_usage_monitor.Prelude.Doubles.{Doubles, IsDoubles, percent}
use plasma_ai_usage_monitor.Forecast.{State, EvidenceGrade, is_state}
use plasma_ai_usage_monitor.Forecast.Contract.{
  validate, present, is_grade_unavailable, blank, bad_amount, available_fault, pacing_fault,
}
use plasma_ai_usage_monitor.BillingCycle
use plasma_ai_usage_monitor.BillingCycle.{Calendar, Cycle, both_before}
use plasma_ai_usage_monitor.CurrencyMinorUnits.{digits, to_major}
use plasma_ai_usage_monitor.BudgetPacing.{Request}
use plasma_ai_usage_monitor.BudgetPacing.Amounts.{amounts_fit, safe-projected, max_ℤ-le_left}
use plasma_ai_usage_monitor.BudgetPacing.Evaluate.{
  Pace, scope_of, remaining_of, projected_of, safe_today_of, daily_allowance, state_of,
  predicted_at_of, result_of,
}

-- What the texts of the contract rely on: the method's name is not blank and the empty text is, which
-- has no lower case, and a text is equal to itself whatever the case.
pub record IsText {D : Type 0} (q : Qt D) : Type 0 where
  pub method : blank q "budget-pacing-v2" ≡ false
  pub empty : blank q "" ≡ true
  pub upper_empty : q.to_upper "" ≡ ""
  pub equal_fold_refl : (s : String) → q.equal_fold s s ≡ true

module _ {D : Type 0} (q : Qt D) (m : Doubles D) (c : Calendar) (texts : IsText q)
    (doubles : IsDoubles q m) where
  -- What `evaluate` has made sure of before it builds a result.
  pub record IsSound (r : Request) (p : Pace D) : Type 0 where
    pub policy : blank q r.policy_id ≡ false
    pub source : blank q r.source_id ≡ false
    pub source_kind : blank q r.source_kind ≡ false
    pub window : blank q r.period_type ≡ false
    pub scope : blank q (scope_of r) ≡ false
    pub currency : blank q p.currency ≡ false
    pub known : is_some (digits q m p.currency) ≡ true
    pub limit : leb_ℤ r.limit_minor (pos 0) ≡ false
    pub cycle : BillingCycle.is_valid r.cycle ≡ true
    pub spent : ltb_ℤ p.spent (pos 0) ≡ false
    pub finite : q.is_finite p.coverage ≡ true
    pub above : q.less p.coverage q.nought ≡ false
    pub below : q.less q.hundred p.coverage ≡ false

  to_major_fine :
      (z : ℤ) (currency : String)
      → is_some (digits q m currency) ≡ true
      → ltb_ℤ z (pos 0) ≡ false
      → (is_some (to_major q m z currency) ≡ true)
        × (present (bad_amount q) (to_major q m z currency) ≡ false)
  unfolding to_major
  to_major_fine (negsuc a) currency known h = absurd (ground arith)
  to_major_fine (pos a) currency known h =
      let (n, found) = some_of_is_some (digits q m currency) known in
      rw found (refl, rw (doubles.major-finite a n, doubles.major-not_less a n) refl)

  percent_fine :
      (z limit : ℤ)
      → leb_ℤ limit (pos 0) ≡ false
      → ltb_ℤ z (pos 0) ≡ false
      → bad_amount q (percent q m z limit) ≡ false
  percent_fine (negsuc a) limit positive h = absurd (ground arith)
  percent_fine (pos a) (negsuc b) positive h = absurd (ground arith)
  percent_fine (pos a) (pos b) positive h =
      rw (doubles.percent-finite a b (ground arith), doubles.percent-not_less a b (ground arith))
        refl

cycle_parts :
    (c : Cycle)
    → BillingCycle.is_valid c ≡ true
    → (is_some c.start_utc ≡ true)
      × (is_some c.end_utc ≡ true)
      × (earlier c.start_utc c.end_utc ≡ true)
unfolding BillingCycle.is_valid
cycle_parts c h = parts c.start_utc c.end_utc (and-true _ _ h).1
  where
    parts :
        (s e : DateTime)
        → both_before s e ≡ true
        → (is_some s ≡ true) × (is_some e ≡ true) × (earlier s e ≡ true)
    parts none e h = cc
    parts (some s) none h = cc
    parts (some s) (some e) h = (refl, refl, h)

never_unavailable :
    (reached critical warning : Bool)
    → is_state
        (if reached
          then State.exceeded
          else if critical
          then State.critical
          else if warning
          then State.warning
          else State.safe)
        State.unavailable
      ≡ false
never_unavailable reached critical warning = ground arith

graded :
    (strong : Bool)
    → is_grade_unavailable (if strong then EvidenceGrade.strong else EvidenceGrade.usable) ≡ false
graded true = refl
graded false = refl

not_below : (a b : ℤ) → ltb_ℤ a (pos 0) ≡ false → a ≤ℤ b → ltb_ℤ b (pos 0) ≡ false
not_below a b h le = ground arith

nonneg_not_below : (a : ℤ) → pos 0 ≤ℤ a → ltb_ℤ a (pos 0) ≡ false
nonneg_not_below a le = ground arith

otherwise :
    (b : Bool) (first rest : Option String)
    → b ≡ false
    → rest ≡ none
    → (if b then first else rest) ≡ none
otherwise true first rest h e = cc
otherwise false first rest h e = e

pos_not_below : (n : ℕ) → ltb_ℤ (pos n) (pos 0) ≡ false
pos_not_below n = ground arith

positive_not_below : (a : ℤ) → leb_ℤ a (pos 0) ≡ false → ltb_ℤ a (pos 0) ≡ false
positive_not_below a h = ground arith

and-false : (a b : Bool) → (a && b && false) ≡ false
and-false a b = ground arith

module _ {D : Type 0} (q : Qt D) (m : Doubles D) (c : Calendar) (texts : IsText q)
    (doubles : IsDoubles q m) (r : Request) (p : Pace D)
    (sound : IsSound q m c texts doubles r p) where
  projected_sound : ltb_ℤ (projected_of q m c r p) (pos 0) ≡ false
  projected_sound = not_below p.spent (projected_of q m c r p) sound.spent (amounts_fit q m c r p).1

  state-known : is_state (state_of q m c r p) State.unavailable ≡ false
  unfolding state_of
  state-known = never_unavailable (leb_ℤ r.limit_minor p.spent) _ _

  predicted_only :
      leb_ℤ r.limit_minor (projected_of q m c r p) ≡ false
      → is_some (predicted_at_of q m c r p) ≡ false
  unfolding predicted_at_of
  predicted_only h = rw h refl

  not_predicted_safe :
      (is_state (state_of q m c r p) State.safe && is_some (predicted_at_of q m c r p)) ≡ false
  not_predicted_safe = elim (Bool-cases (is_state (state_of q m c r p) State.safe)) [
    | inl safe ↦ rw (safe, predicted_only (safe-projected q m c r p safe)) refl
    | inr other ↦ rw other refl
  ]

  remaining_sound : ltb_ℤ (remaining_of q m c r p.spent) (pos 0) ≡ false
  remaining_sound = nonneg_not_below _ (max_ℤ-le_left (pos 0) (r.limit_minor -ℤ p.spent))

  today_sound : ltb_ℤ (safe_today_of q m c r p) (pos 0) ≡ false
  today_sound = nonneg_not_below (safe_today_of q m c r p) (amounts_fit q m c r p).2

  allowance_sound : ltb_ℤ (daily_allowance q m c r p) (pos 0) ≡ false
  unfolding daily_allowance
  allowance_sound = pos_not_below _

  pacing_passes : pacing_fault q (result_of q m c r p) ≡ none
  unfolding pacing_fault result_of
  pacing_passes =
      let (has_start, has_end, ordered) = cycle_parts r.cycle sound.cycle in
      rw
        (
          sound.policy,
          has_start,
          ordered,
          state-known,
          sound.spent,
          remaining_sound,
          today_sound,
          allowance_sound,
          percent_fine q m c texts doubles p.spent r.limit_minor sound.limit sound.spent,
        )
        refl

  available_passes :
      available_fault q (result_of q m c r p) (pacing_fault q (result_of q m c r p)) ≡ none
  unfolding available_fault result_of
  available_passes =
      let current = to_major_fine q m c texts doubles p.spent p.currency sound.known sound.spent in
      let projected =
        to_major_fine q m c texts doubles (projected_of q m c r p) p.currency sound.known
          projected_sound in
      let limit =
        to_major_fine q m c texts doubles r.limit_minor p.currency sound.known
          (positive_not_below r.limit_minor sound.limit) in
      rw (current.0, projected.0, limit.0, graded _, texts.empty, and-false _ _, not_predicted_safe)
        pacing_passes

  pub result_of-valid : validate q (result_of q m c r p) ≡ none
  unfolding validate result_of
  result_of-valid =
      let current = to_major_fine q m c texts doubles p.spent p.currency sound.known sound.spent in
      let projected =
        to_major_fine q m c texts doubles (projected_of q m c r p) p.currency sound.known
          projected_sound in
      let limit =
        to_major_fine q m c texts doubles r.limit_minor p.currency sound.known
          (positive_not_below r.limit_minor sound.limit) in
      let (has_start, has_end, ordered) = cycle_parts r.cycle sound.cycle in
      rw
        (
          sound.source,
          sound.source_kind,
          sound.window,
          sound.scope,
          sound.currency,
          texts.method,
          texts.equal_fold_refl p.currency,
          has_end,
          pos_not_below p.sample_count,
          sound.finite,
          sound.above,
          sound.below,
          current.1,
          projected.1,
          limit.1,
        )
        (otherwise _ _ _ state-known available_passes)
