-- ===== src/CostEngine/Formula.antt =====
-- The cost of a price by tokens as a formula of its own, against which plugin/costengine.cpp is held:
-- rounding, allowances, fees and the discount are written here without the functions of the engine.
use mathlib.Core.Path.{ap₂}
use plasma_ai_usage_monitor.Prelude.{
  ℕ, suc, ◌+◌, ◌*◌, ◌/◌, ◌≡◌, refl, ap, ◌∙◌, Bool, true, false, not, ◌&&◌, Option, none, some,
  String, str_eq, if◌then◌else◌, arith,
}
use plasma_ai_usage_monitor.Prelude.Int.{ℤ, pos, negsuc, leb_ℤ, ◌+ℤ◌, ◌-ℤ◌, ◌*ℤ◌, -ℤ_parts, max_ℤ}
use plasma_ai_usage_monitor.CostEngine.Values.{
  Values, no_values, value_then, Fields, Platform, integer, value, value_or, contains, to_map,
  to_list,
}
use plasma_ai_usage_monitor.CostEngine.Decimal.{round_divide, negate, parse_scaled}
use plasma_ai_usage_monitor.CostEngine.Decimal.Rounding.{round_divide-pos, round_divide-negsuc}
use plasma_ai_usage_monitor.CostEngine.Pricing.{
  Draft, or_zero, priced, string_of, rate_value, quantity_value,
}
use plasma_ai_usage_monitor.CostEngine.Tokens.{Tokens, tokens_of}
use plasma_ai_usage_monitor.CostEngine.Charges.{
  Rates, rates_of, rated_draft, billable_of, billable_input,
}
use plasma_ai_usage_monitor.CostEngine.Estimate.{discount_by, discount_of}
use plasma_ai_usage_monitor.CostEngine.Amounts.{token_cost}
use plasma_ai_usage_monitor.CostEngine.Refines.{fee_cost, fees_cost, usage_cost}

-- The whole number nearest to z / d, the greater one in size where two are.
abbrev pub rounded : ℕ → ℤ → ℤ
rounded d (pos n) = pos ((2 * n + d) / (2 * d))
rounded d (negsuc n) = negate (pos ((2 * suc n + d) / (2 * d)))

-- A quantity at a price for a million.
abbrev pub charged : ℤ → ℤ → ℤ
charged quantity rate = rounded 1_000_000 (quantity *ℤ rate)

abbrev pub difference : ℤ → ℤ → ℤ
difference a b = if leb_ℤ a b then pos 0 else a -ℤ b

-- What is used above the free quantity that is not yet consumed.
abbrev pub above_allowance : ℤ → ℤ → ℤ → ℤ
above_allowance requested free consumed = difference requested (difference free consumed)

-- A percentage is given in hundredths.
abbrev pub less_discount : Option ℤ → ℤ → ℤ
less_discount none cost = cost
less_discount (some percent) cost = rounded 10_000 (cost *ℤ (pos 10_000 -ℤ percent))

abbrev pub count_cost : Tokens → Rates → ℤ
count_cost t r =
    charged (t.input -ℤ t.cached -ℤ t.written) (or_zero r.input_rate)
    +ℤ charged t.cached (or_zero r.cached_rate)
    +ℤ charged t.output (or_zero r.output_rate)
    +ℤ charged t.written (or_zero r.written_rate)

round_divide-rounded : (z : ℤ) → round_divide z (pos 1_000_000) ≡ rounded 1_000_000 z
round_divide-rounded (pos n) = round_divide-pos 1_000_000 (omega arith) n ∙ ap pos (omega arith)
round_divide-rounded (negsuc n) =
    round_divide-negsuc 1_000_000 (omega arith) n ∙ ap (λ m. negate (pos m)) (omega arith)

round_divide-percent : (z : ℤ) → round_divide z (pos 10_000) ≡ rounded 10_000 z
round_divide-percent (pos n) = round_divide-pos 10_000 (omega arith) n ∙ ap pos (omega arith)
round_divide-percent (negsuc n) =
    round_divide-negsuc 10_000 (omega arith) n ∙ ap (λ m. negate (pos m)) (omega arith)

priced-charged : (quantity rate : ℤ) → priced quantity rate ≡ charged quantity rate
unfolding priced
priced-charged quantity rate = round_divide-rounded (quantity *ℤ rate)

max_ℤ-difference : (a b : ℤ) → max_ℤ (pos 0) (a -ℤ b) ≡ difference a b
max_ℤ-difference a b = ground (arith, -ℤ_parts a b)

billable_of-above :
    (requested free consumed : ℤ)
    → billable_of requested free consumed ≡ above_allowance requested free consumed
unfolding billable_of
billable_of-above requested free consumed =
    rw (max_ℤ-difference free consumed) (max_ℤ-difference requested (difference free consumed))

token_cost-count_cost : (t : Tokens) (r : Rates) → token_cost t r ≡ count_cost t r
unfolding token_cost
token_cost-count_cost t r =
    rw
      (
        priced-charged (billable_input t) (or_zero r.input_rate),
        priced-charged t.cached (or_zero r.cached_rate),
        priced-charged t.output (or_zero r.output_rate),
        priced-charged t.written (or_zero r.written_rate),
      )
      refl

discount_by-less : (cost : ℤ) (d : Option ℤ) → discount_by cost d ≡ less_discount d cost
unfolding discount_by
discount_by-less cost none = refl
discount_by-less cost (some d) = round_divide-percent (cost *ℤ (pos 10_000 -ℤ d))

if-not : (b : Bool) (x : ℤ) → (if not b then pos 0 else x) ≡ (if b then x else pos 0)
if-not true x = refl
if-not false x = refl

module _ {D : Type 0} (p : Platform D) (used consumed : Fields D) where
  abbrev already : String → ℤ
  already kind =
      if contains consumed kind then or_zero (quantity_value p (value consumed kind)) else pos 0

  -- A fee is charged for what is used of its kind above its allowance.
  abbrev pub fee_of : Fields D → ℤ
  fee_of fee =
      let kind = string_of p (value fee "kind") in
      let free = quantity_value p (value_or fee "freeAllowance" (integer (pos 0))) in
      if contains used kind
      then charged
          (above_allowance (or_zero (quantity_value p (value used kind))) (or_zero free)
            (already kind))
          (or_zero (rate_value p (value fee "amount")))
      else pos 0

  abbrev pub fees_of : Values D → ℤ
  fees_of no_values = pos 0
  fees_of (value_then v vs) = fee_of (to_map v) +ℤ fees_of vs

  fee_cost-fee_of : (fee : Fields D) → fee_cost p used consumed fee ≡ fee_of fee
  unfolding fee_cost
  fee_cost-fee_of fee =
      let kind = string_of p (value fee "kind") in
      let requested = or_zero (quantity_value p (value used kind)) in
      let free = or_zero (quantity_value p (value_or fee "freeAllowance" (integer (pos 0)))) in
      rw
        (
          billable_of-above requested free (already kind),
          priced-charged (above_allowance requested free (already kind))
              (or_zero (rate_value p (value fee "amount"))),
        )
        (if-not (contains used kind) _)

  fees_cost-fees_of : (fees : Values D) → fees_cost p used consumed fees ≡ fees_of fees
  unfolding fees_cost
  fees_cost-fees_of no_values = refl
  fees_cost-fees_of (value_then v vs) = ap₂ ◌+ℤ◌ (fee_cost-fee_of (to_map v)) (fees_cost-fees_of vs)

module _ {D : Type 0} (p : Platform D) (price usage : Fields D) where
  -- The counts at the rates that the steps of the branch chose, and the fees.
  abbrev pub formula_cost : Draft D → ℤ
  formula_cost s =
      count_cost (tokens_of p usage) (rates_of p (rated_draft p price usage s).rates)
      +ℤ fees_of p (to_map (value usage "additiveUsage")) (to_map (value usage "allowanceConsumed"))
          (to_list (value price "additiveFees"))

  pub usage_cost-formula : (s : Draft D) → usage_cost p price usage s ≡ formula_cost s
  unfolding usage_cost
  usage_cost-formula s =
      ap₂ ◌+ℤ◌
        (token_cost-count_cost (tokens_of p usage) (rates_of p (rated_draft p price usage s).rates))
        (fees_cost-fees_of p (to_map (value usage "additiveUsage"))
          (to_map (value usage "allowanceConsumed")) (to_list (value price "additiveFees")))

  -- The discount of a batch, where the price has one and the dimensions are those of a batch.
  abbrev pub percent_of : Fields D → Option ℤ
  percent_of selected =
      if str_eq (string_of p (value selected "serviceTier")) "batch"
        && contains price "batchDiscountPercent"
      then parse_scaled p (value price "batchDiscountPercent") 100
      else none

  pub discount_of-less :
      (selected : Fields D) (cost : ℤ)
      → discount_of p price selected cost ≡ less_discount (percent_of selected) cost
  unfolding discount_of
  discount_of-less selected cost = by_test (
      str_eq (string_of p (value selected "serviceTier")) "batch"
      && contains price "batchDiscountPercent")
    where
      by_test :
          (b : Bool)
          → (if b
              then discount_by cost (parse_scaled p (value price "batchDiscountPercent") 100)
              else cost)
            ≡ less_discount
                (if b then parse_scaled p (value price "batchDiscountPercent") 100 else none)
                cost
      by_test true = discount_by-less cost (parse_scaled p (value price "batchDiscountPercent") 100)
      by_test false = refl
