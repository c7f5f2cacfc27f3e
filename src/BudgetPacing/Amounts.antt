-- ===== src/BudgetPacing/Amounts.antt =====
-- The numbers of an available forecast of plugin/budgetpacingquery.cpp.
use native.Mathlib.Nat.{div-mul-le_self}
use plasma_ai_usage_monitor.Prelude.{
  ℕ, ◌/◌, ◌≡◌, inl, inr, ◌↔◌, Bool, true, false, ◌||◌, arith, if◌then◌else◌, Bool-cases,
}
use plasma_ai_usage_monitor.Prelude.Int.{
  ℤ, pos, negsuc, pos_part, ◌+ℤ◌, ◌-ℤ◌, ◌*ℤ◌, ◌≤ℤ◌, leb_ℤ, ltb_ℤ, max_ℤ, min_ℤ, -ℤ_parts, +ℤ_parts,
  eq_of_parts,
}
use plasma_ai_usage_monitor.Prelude.Qt.{Qt}
use plasma_ai_usage_monitor.Prelude.Doubles.{Doubles}
use plasma_ai_usage_monitor.Forecast.{State, is_state}
use plasma_ai_usage_monitor.BillingCycle.{Calendar}
use plasma_ai_usage_monitor.Prelude.Int.{pos-*}
use plasma_ai_usage_monitor.BudgetPacing.{Request}
use plasma_ai_usage_monitor.BudgetPacing.Evaluate.{
  Pace, remaining_of, projected_of, pro_rata_of, safe_today_of, calendar_days, daily_allowance,
  state_of,
}

pub max_ℤ-le_left : (a b : ℤ) → a ≤ℤ max_ℤ a b
max_ℤ-le_left a b = ground arith

max_ℤ-le : (a b top : ℤ) → a ≤ℤ top → b ≤ℤ top → max_ℤ a b ≤ℤ top
max_ℤ-le a b top ha hb = ground arith

min_ℤ-le_left : (a b : ℤ) → min_ℤ a b ≤ℤ a
min_ℤ-le_left a b = ground arith

left-+ℤ : (limit spent : ℤ) → max_ℤ (pos 0) (limit -ℤ spent) +ℤ spent ≡ max_ℤ spent limit
left-+ℤ limit spent = elim (Bool-cases (ltb_ℤ (pos 0) (limit -ℤ spent))) [
  | inl more ↦
      let less : ltb_ℤ spent limit ≡ true = ground (arith, -ℤ_parts limit spent) in
      rw (more, less)
        (eq_of_parts _ limit (omega (arith, -ℤ_parts limit spent, +ℤ_parts (limit -ℤ spent) spent)))
  | inr over ↦
      let least : ltb_ℤ spent limit ≡ false = ground (arith, -ℤ_parts limit spent) in
      rw (over, least) (eq_of_parts _ spent (omega (arith, +ℤ_parts (pos 0) spent)))
]

share-le : (left : ℤ) (days : ℕ) → pos 0 ≤ℤ left → pos (pos_part left / days) *ℤ pos days ≤ℤ left
share-le (pos n) days h = rw (pos-* (n / days) days) (omega (arith, div-mul-le_self n days))
share-le (negsuc n) days h = absurd (omega arith)

-- The chain of tests of the state.
exceeded_iff :
    (reached critical warning : Bool)
    → (is_state
          (if reached
            then State.exceeded
            else if critical
            then State.critical
            else if warning
            then State.warning
            else State.safe)
          State.exceeded
        ≡ true)
      ↔ (reached ≡ true)
exceeded_iff reached critical warning = ground arith

safe_only :
    (reached critical warned overrun : Bool)
    → is_state
        (if reached
          then State.exceeded
          else if critical
          then State.critical
          else if warned || overrun
          then State.warning
          else State.safe)
        State.safe
      ≡ true
    → overrun ≡ false
safe_only reached critical warned overrun h = ground arith

leb_ℤ_iff : (a b : ℤ) → (leb_ℤ a b ≡ true) ↔ (a ≤ℤ b)
leb_ℤ_iff a b = ground arith

module _ {D : Type 0} (q : Qt D) (m : Doubles D) (c : Calendar) (r : Request) (p : Pace D) where
  abbrev spent : ℤ
  spent = p.spent

  remaining_nonneg : pos 0 ≤ℤ remaining_of q m c r spent
  remaining_nonneg = max_ℤ-le_left (pos 0) (r.limit_minor -ℤ spent)

  projected-ge : spent ≤ℤ projected_of q m c r p
  unfolding projected_of
  projected-ge = max_ℤ-le_left spent _

  abbrev today : ℤ
  today = pro_rata_of q m c r p -ℤ spent

  safe_today-within :
      (pos 0 ≤ℤ safe_today_of q m c r p) × (safe_today_of q m c r p ≤ℤ remaining_of q m c r spent)
  unfolding safe_today_of
  safe_today-within = (
    max_ℤ-le_left (pos 0) (min_ℤ (remaining_of q m c r spent) today),
    max_ℤ-le (pos 0) (min_ℤ (remaining_of q m c r spent) today) (remaining_of q m c r spent)
        remaining_nonneg (min_ℤ-le_left (remaining_of q m c r spent) today),
  )

  daily_allowance-le :
      daily_allowance q m c r p *ℤ pos (calendar_days q m c r p.now) ≤ℤ remaining_of q m c r spent
  unfolding daily_allowance
  daily_allowance-le =
      share-le (remaining_of q m c r spent) (calendar_days q m c r p.now) remaining_nonneg

  exceeded-spent : (is_state (state_of q m c r p) State.exceeded ≡ true) ↔ (r.limit_minor ≤ℤ spent)
  unfolding state_of
  exceeded-spent =
      let tests = exceeded_iff (leb_ℤ r.limit_minor spent) _ _ in
      let order = leb_ℤ_iff r.limit_minor spent in
      (λ h. order.0 (tests.0 h), λ h. tests.1 (order.1 h))

  pub safe-projected :
      is_state (state_of q m c r p) State.safe ≡ true
      → leb_ℤ r.limit_minor (projected_of q m c r p) ≡ false
  unfolding state_of
  safe-projected h = safe_only (leb_ℤ r.limit_minor spent) _ _ _ h

  -- The amounts of a budget fit together, for every request and every reading of the doubles: what
  -- remains and what is spent make up the larger of the limit and what is spent; no less is
  -- projected than is spent; what is safe today is not negative and at most what remains; the daily
  -- allowance for all remaining days is at most what remains; the state is exceeded exactly where
  -- the limit is spent, and it is safe only where the projected amount is under the limit.
  pub amounts_fit :
      (remaining_of q m c r spent +ℤ spent ≡ max_ℤ spent r.limit_minor)
      × (spent ≤ℤ projected_of q m c r p)
      × (pos 0 ≤ℤ safe_today_of q m c r p)
      × (safe_today_of q m c r p ≤ℤ remaining_of q m c r spent)
      × (daily_allowance q m c r p *ℤ pos (calendar_days q m c r p.now)
          ≤ℤ remaining_of q m c r spent)
      × ((is_state (state_of q m c r p) State.exceeded ≡ true) ↔ (r.limit_minor ≤ℤ spent))
      × ((is_state (state_of q m c r p) State.safe ≡ true)
          → leb_ℤ r.limit_minor (projected_of q m c r p) ≡ false)
  amounts_fit = (
    left-+ℤ r.limit_minor spent,
    projected-ge,
    safe_today-within.0,
    safe_today-within.1,
    daily_allowance-le,
    exceeded-spent,
    safe-projected,
  )
