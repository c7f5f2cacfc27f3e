-- ===== src/Provider/Budget/Alerts.antt =====
-- The alerts of plugin/providerbackend.cpp over whole histories of a provider's budgets.
use plasma_ai_usage_monitor.Prelude.{
  ℕ, suc, ◌+◌, ◌≤◌, ◌≡◌, true, false, not, List, [], ◌∷◌, bit, arith,
}
use plasma_ai_usage_monitor.Provider.Budget.{
  Doubles, Alert, budget_warning, budget_exceeded, Period, Budgets, budget_currency_mismatch,
  is_below, is_warned, is_exceeded, check_period, check_budget_limits, set_daily_cost,
  set_monthly_cost, set_daily_budget, set_monthly_budget, set_budget_warning_percent,
  set_budget_currency, set_currency, set_costs, set_cost, set_estimated_cost, update_estimated_cost,
  withdraw_estimate, Event, day_costs, month_costs, day_budget, month_budget, costs, estimates,
  warns_at, budgets_in, bills_in, prices, no_price, step,
}

module _ {D : Type 0} (d : Doubles D) where
  open d use {nought, less, percent}

  abbrev pub exceeded : List Alert → ℕ
  exceeded [] = 0
  exceeded (budget_exceeded ∷ as') = suc (exceeded as')
  exceeded (budget_warning ∷ as') = exceeded as'

  abbrev pub warnings : List Alert → ℕ
  warnings [] = 0
  warnings (budget_warning ∷ as') = suc (warnings as')
  warnings (budget_exceeded ∷ as') = warnings as'

  pub data Cycle : Type 0 where
    day month : Cycle

  abbrev pub period_of : Cycle → Budgets D → Period D
  period_of day b = b.daily
  period_of month b = b.monthly

  abbrev pub alerts_of : Cycle → Budgets D × List Alert × List Alert → List Alert
  alerts_of day (b, days, months) = days
  alerts_of month (b, days, months) = months

  -- 1 after an event that leaves the cycle's cost below the line of its warning.
  abbrev drop : Cycle → Budgets D → ℕ
  drop c b = bit (is_below d (percent b.budget_warning_percent) (period_of c b))

  -- The alerts of a cycle, and the drops of its cost, over a history.
  pub tally : Cycle → List (Event d) → Budgets D → ℕ × ℕ × ℕ
  tally c [] b = (0, 0, 0)
  tally c (e ∷ es) b =
      let out = step d e b in
      let rest = tally c es out.0 in
      (
        exceeded (alerts_of c out) + rest.0,
        warnings (alerts_of c out) + rest.1,
        drop c out.0 + rest.2,
      )

  check_period-tally :
      (fraction : D) (p : Period D)
      → let (p', out) = check_period d fraction p in
        (exceeded out + bit (not p'.exceeded_emitted)
          ≤ bit (not p.exceeded_emitted) + bit (is_below d fraction p))
        × (warnings out + bit (not p'.warning_emitted)
            ≤ bit (not p.warning_emitted) + bit (is_below d fraction p))
        × (is_below d fraction p' ≡ is_below d fraction p)
  unfolding check_period is_below
  check_period-tally fraction p = ground arith

  -- What a step adds to the two counts is paid for by a flag that was clear, or by a drop.
  abbrev Paid : Cycle → Budgets D → Budgets D × List Alert × List Alert → Type 0
  Paid c b out =
      (exceeded (alerts_of c out) + bit (not (period_of c out.0).exceeded_emitted)
        ≤ bit (not (period_of c b).exceeded_emitted) + drop c out.0)
      × (warnings (alerts_of c out) + bit (not (period_of c out.0).warning_emitted)
          ≤ bit (not (period_of c b).warning_emitted) + drop c out.0)

  check-Paid : (c : Cycle) (b : Budgets D) → Paid c b (check_budget_limits d b)
  unfolding check_budget_limits
  check-Paid day b = ground (arith, check_period-tally (percent b.budget_warning_percent) b.daily)
  check-Paid month b =
      ground (arith, check_period-tally (percent b.budget_warning_percent) b.monthly)

  step-Paid : (c : Cycle) (e : Event d) (b : Budgets D) → Paid c b (step d e b)
  unfolding step set_daily_cost set_monthly_cost set_daily_budget set_monthly_budget
      set_budget_warning_percent set_budget_currency set_cost set_estimated_cost set_currency
      update_estimated_cost withdraw_estimate set_costs
  step-Paid day (day_costs cost) b =
      check-Paid day (record b { daily = record b.daily { cost = cost } })
  step-Paid month (day_costs cost) b =
      check-Paid month (record b { daily = record b.daily { cost = cost } })
  step-Paid day (month_costs cost) b =
      check-Paid day (record b { monthly = record b.monthly { cost = cost } })
  step-Paid month (month_costs cost) b =
      check-Paid month (record b { monthly = record b.monthly { cost = cost } })
  step-Paid day (day_budget budget) b = ground arith
  step-Paid month (day_budget budget) b = ground arith
  step-Paid day (month_budget budget) b = ground arith
  step-Paid month (month_budget budget) b = ground arith
  step-Paid day (warns_at m) b = ground arith
  step-Paid month (warns_at m) b = ground arith
  step-Paid day (budgets_in currency) b = ground arith
  step-Paid month (budgets_in currency) b = ground arith
  step-Paid c (costs cost) b = check-Paid c b
  step-Paid day (estimates cost) b = check-Paid day (set_costs d cost b)
  step-Paid month (estimates cost) b = check-Paid month (set_costs d cost b)
  step-Paid day (bills_in currency) b = ground arith
  step-Paid month (bills_in currency) b = ground arith
  step-Paid day (prices amount currency) b =
      check-Paid day (set_costs d amount (set_currency d currency b).0)
  step-Paid month (prices amount currency) b =
      check-Paid month (set_costs d amount (set_currency d currency b).0)
  step-Paid day no_price b = check-Paid day (set_currency d "" (set_costs d nought b)).0
  step-Paid month no_price b = check-Paid month (set_currency d "" (set_costs d nought b)).0

  tally-paid :
      (c : Cycle) (es : List (Event d)) (b : Budgets D)
      → ((tally c es b).0 ≤ bit (not (period_of c b).exceeded_emitted) + (tally c es b).2)
        × ((tally c es b).1 ≤ bit (not (period_of c b).warning_emitted) + (tally c es b).2)
  unfolding tally
  tally-paid c [] b = omega arith
  tally-paid c (e ∷ es) b =
      let (paid, paid') = step-Paid c e b in
      let (rest, rest') = tally-paid c es (step d e b).0 in (omega arith, omega arith)

  -- Whatever happens to the budgets, the warning line, the two currencies, the costs and the
  -- estimates: over any history of the calls that set them or check them, the alerts of each of the
  -- two kinds for a cycle are at most one more than the events that left the cost of the cycle
  -- below its warning line.
  pub alerts-le-drops :
      (c : Cycle) (es : List (Event d)) (b : Budgets D)
      → let (exceeds, warns, dropped) = tally c es b in
        (exceeds ≤ 1 + dropped) × (warns ≤ 1 + dropped)
  alerts-le-drops c es b = ground (arith, tally-paid c es b)

  -- A daily cost that reaches its positive budget at one stroke, with both flags clear, the
  -- currencies alike and the cost not below the warning line: the first check of the budgets
  -- reports the budget as exceeded, the second brings the warning of the same budget, and the third
  -- nothing.
  pub exceeded_then_warned :
      (b : Budgets D)
      → budget_currency_mismatch d b ≡ false
      → less nought b.daily.budget ≡ true
      → is_exceeded d b.daily ≡ true
      → is_warned d (percent b.budget_warning_percent) b.daily ≡ true
      → is_below d (percent b.budget_warning_percent) b.daily ≡ false
      → b.daily.exceeded_emitted ≡ false
      → b.daily.warning_emitted ≡ false
      → let first = check_budget_limits d b in
        let second = check_budget_limits d first.0 in
        let third = check_budget_limits d second.0 in
        (first.1 ≡ budget_exceeded ∷ []) × (second.1 ≡ budget_warning ∷ []) × (third.1 ≡ [])
  unfolding check_budget_limits budget_currency_mismatch check_period is_exceeded is_warned is_below
  exceeded_then_warned b alike set over high above clear clear' = ground arith
