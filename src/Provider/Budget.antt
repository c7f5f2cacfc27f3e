-- ===== src/Provider/Budget.antt =====
-- The budgets of plugin/providerbackend.cpp. A cost is compared with a budget and with a part of it; the
-- doubles and their operations are an argument, since they are the machine's.
pub mod Alerts
use plasma_ai_usage_monitor.Prelude.{
  ℕ, suc, ◌+◌, ◌≤◌, ◌≡◌, Bool, true, false, not, ◌&&◌, ◌||◌, List, [], ◌∷◌, String, if◌then◌else◌,
  bit, str_eq, arith,
}
use plasma_ai_usage_monitor.Prelude.Int.{ℤ}

-- `less` and `at_most` are < and <= of doubles; `percent m` is m / 100.0.
pub record Doubles (D : Type 0) : Type 0 where
  pub nought : D
  pub less : D → D → Bool
  pub at_most : D → D → Bool
  pub same : D → D → Bool
  pub times : D → D → D
  pub percent : ℤ → D
  pub equal_fold : String → String → Bool
  pub normalized : String → String
  pub same_int : ℤ → ℤ → Bool

pub data Alert : Type 0 where
  budget_warning budget_exceeded : Alert

-- The daily or the monthly half of the state.
pub record Period (D : Type 0) : Type 0 where
  pub budget : D
  pub cost : D
  pub warning_emitted : Bool
  pub exceeded_emitted : Bool

pub record Budgets (D : Type 0) : Type 0 where
  pub currency : String
  pub budget_currency : String
  pub budget_warning_percent : ℤ
  pub daily : Period D
  pub monthly : Period D

-- A budgetChanged signal is `true`.
abbrev pub Changed : Type 0
Changed = Bool

module _ {D : Type 0} (d : Doubles D) where
  open d use {nought, less, at_most, same, times, percent, equal_fold, normalized, same_int}

  unfoldable pub budget_currency_mismatch : Budgets D → Bool
  budget_currency_mismatch b =
      not (str_eq b.currency "")
      && not (str_eq b.budget_currency "")
      && not (equal_fold b.currency b.budget_currency)

  unfoldable pub is_below : D → Period D → Bool
  is_below fraction p = less p.cost (times p.budget fraction)

  unfoldable pub is_warned : D → Period D → Bool
  is_warned fraction p = at_most (times p.budget fraction) p.cost

  unfoldable pub is_exceeded : Period D → Bool
  is_exceeded p = at_most p.budget p.cost

  -- One period: an alert at most, and then the flags are cleared where the cost has dropped.
  pub check_period : D → Period D → Period D × List Alert
  check_period fraction p =
      let (alerted, out) : Period D × List Alert =
        if is_exceeded p && not p.exceeded_emitted
        then (record p { exceeded_emitted = true }, budget_exceeded ∷ [])
        else if is_warned fraction p && not p.warning_emitted
        then (record p { warning_emitted = true }, budget_warning ∷ [])
        else (p, []) in
      let cleared = record alerted { warning_emitted = false; exceeded_emitted = false } in
      if less nought p.budget
      then (if is_below fraction p then cleared else alerted, out)
      else (p, [])

  pub check_budget_limits : Budgets D → Budgets D × List Alert × List Alert
  check_budget_limits b =
      let fraction = percent b.budget_warning_percent in
      let (daily, days) = check_period fraction b.daily in
      let (monthly, months) = check_period fraction b.monthly in
      if budget_currency_mismatch b
      then (b, [], [])
      else (record b { daily = daily; monthly = monthly }, days, months)

  pub set_daily_cost : D → Budgets D → Budgets D × List Alert × List Alert
  set_daily_cost cost b = check_budget_limits (record b { daily = record b.daily { cost = cost } })

  pub set_monthly_cost : D → Budgets D → Budgets D × List Alert × List Alert
  set_monthly_cost cost b =
      check_budget_limits (record b { monthly = record b.monthly { cost = cost } })

  pub set_daily_budget : D → Budgets D → Budgets D × Changed
  set_daily_budget budget b =
      if same b.daily.budget budget
      then (b, false)
      else (record b { daily = record b.daily { budget = budget } }, true)

  pub set_monthly_budget : D → Budgets D → Budgets D × Changed
  set_monthly_budget budget b =
      if same b.monthly.budget budget
      then (b, false)
      else (record b { monthly = record b.monthly { budget = budget } }, true)

  pub set_budget_warning_percent : ℤ → Budgets D → Budgets D × Changed
  set_budget_warning_percent percent b =
      if same_int b.budget_warning_percent percent
      then (b, false)
      else (record b { budget_warning_percent = percent }, true)

  pub set_budget_currency : String → Budgets D → Budgets D × Changed
  set_budget_currency currency b =
      if not (str_eq (normalized currency) "")
        && not (str_eq b.budget_currency (normalized currency))
      then (record b { budget_currency = normalized currency }, true)
      else (b, false)

  -- `setCurrency`; an empty text is the currency of no price.
  pub set_currency : String → Budgets D → Budgets D × Changed
  set_currency currency b =
      let after = record b { currency = normalized currency } in
      let before = budget_currency_mismatch b in
      let now = budget_currency_mismatch after in
      (after, (before && not now) || (now && not before))

  -- Both costs become the one that is known: qMax(0.0, cost) in the code.
  pub set_costs : D → Budgets D → Budgets D
  set_costs cost b =
      let known = if less nought cost then cost else nought in
      record b {
        daily = record b.daily { cost = known };
        monthly = record b.monthly { cost = known };
      }

  -- What `setCost` does to the budgets: the cost that it sets is neither of the two.
  pub set_cost : D → Budgets D → Budgets D × List Alert × List Alert
  set_cost cost b = check_budget_limits b

  -- What `setEstimatedCost` does to them.
  pub set_estimated_cost : D → Budgets D → Budgets D × List Alert × List Alert
  set_estimated_cost cost b = check_budget_limits (set_costs cost b)

  -- What `updateEstimatedCost` does to them, with the estimate of a price, and without one.
  pub update_estimated_cost : D → String → Budgets D → Budgets D × List Alert × List Alert
  update_estimated_cost amount currency b =
      check_budget_limits (set_costs amount (set_currency currency b).0)

  pub withdraw_estimate : Budgets D → Budgets D × List Alert × List Alert
  withdraw_estimate b = check_budget_limits (set_currency "" (set_costs nought b)).0

  -- What happens to a provider's budgets.
  pub data Event : Type 0 where
    day_costs month_costs day_budget month_budget costs estimates : D → Event
    warns_at : ℤ → Event
    budgets_in bills_in : String → Event
    prices : D → String → Event
    no_price : Event

  pub step : Event → Budgets D → Budgets D × List Alert × List Alert
  step (day_costs cost) b = set_daily_cost cost b
  step (month_costs cost) b = set_monthly_cost cost b
  step (day_budget budget) b = ((set_daily_budget budget b).0, [], [])
  step (month_budget budget) b = ((set_monthly_budget budget b).0, [], [])
  step (warns_at percent) b = ((set_budget_warning_percent percent b).0, [], [])
  step (budgets_in currency) b = ((set_budget_currency currency b).0, [], [])
  step (costs cost) b = set_cost cost b
  step (estimates cost) b = set_estimated_cost cost b
  step (bills_in currency) b = ((set_currency currency b).0, [], [])
  step (prices amount currency) b = update_estimated_cost amount currency b
  step no_price b = withdraw_estimate b
