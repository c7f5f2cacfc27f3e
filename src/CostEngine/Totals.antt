-- ===== src/CostEngine/Totals.antt =====
-- The amount that `CostEngine::estimate` gives against `Formula`, with the discount and the
-- rounding to the currency's smallest unit.
use plasma_ai_usage_monitor.Prelude.{
  ◌*◌, ◌≡◌, ◌≤◌, ◌<◌, refl, ◌∙◌, ap, subst, Bool, true, false, not, ◌&&◌, some, String, str_eq,
  arith, if◌then◌else◌,
}
use plasma_ai_usage_monitor.Prelude.Int.{ℤ, pos, negsuc, ◌+ℤ◌, ◌-ℤ◌, ◌*ℤ◌, eq_of_parts, +ℤ_parts}
use plasma_ai_usage_monitor.Forecast.{has_text}
use plasma_ai_usage_monitor.CostEngine.Values.{Fields, Platform, IsPlatform, value}
use plasma_ai_usage_monitor.CostEngine.Decimal.{magnitude, scaled_to_text}
use plasma_ai_usage_monitor.CostEngine.Decimal.Digits.{is_nil}
use plasma_ai_usage_monitor.CostEngine.Decimal.Rounding.{round_divide_nearest}
use plasma_ai_usage_monitor.CostEngine.Pricing.{
  string_of, rate_scale, whole_currencies, thousandth_currencies, hundredth_currencies,
  currency_minor_digits, currency_of,
}
use plasma_ai_usage_monitor.CostEngine.Charges.{token_price}
use plasma_ai_usage_monitor.CostEngine.Estimate.{
  subtotal_from, discount_of, discounted, branch, start_of, draft_of, refused, finish, estimate,
  minor_of, minor_divisor, minor_scale_from,
}
use plasma_ai_usage_monitor.CostEngine.Amounts.{AllRead}
use plasma_ai_usage_monitor.CostEngine.Formula.{
  less_discount, percent_of, formula_cost, usage_cost-formula, discount_of-less,
}
use plasma_ai_usage_monitor.CostEngine.Refines.{usage_cost, token_price_refines}

if-pos :
    (b : Bool) (x y : ℤ)
    → 0 < minor_divisor x
    → 0 < minor_divisor y
    → 0 < minor_divisor (if b then x else y)
if-pos true x y hx hy = hx
if-pos false x y hx hy = hy

minor_divisor_pos : (currency : String) → 0 < minor_divisor (currency_minor_digits currency)
unfolding currency_minor_digits minor_scale_from
minor_divisor_pos currency = if-pos (has_text whole_currencies currency) (pos 0) _ (omega arith) (
    if-pos (has_text thousandth_currencies currency) (pos 3) _ (omega arith) (
      if-pos (has_text hundredth_currencies currency) (pos 2) (negsuc 0) (omega arith)
        (omega arith)))

zero-+ℤ : (z : ℤ) → pos 0 +ℤ z ≡ z
zero-+ℤ z = eq_of_parts (pos 0 +ℤ z) z (omega (arith, +ℤ_parts (pos 0) z))

module _ {D : Type 0} (p : Platform D) (price usage : Fields D) where
  abbrev pub IsTokenPriced : Type 0
  IsTokenPriced =
      let unit = string_of p (value price "unit") in
      (not (str_eq unit "") && not (str_eq unit "1M_tokens")) ≡ false

  draft_of-tokens :
      IsTokenPriced → draft_of p price usage ≡ token_price p price usage (start_of p price usage)
  unfolding draft_of branch
  draft_of-tokens h = rw h refl

  -- A complete result shows its draft.
  complete_parts :
      (version fingerprint : String)
      → let s = draft_of p price usage in
        let e = estimate p price usage version fingerprint in
        e.complete ≡ true
        → (is_nil s.missing ≡ true)
          × (e.components ≡ s.components)
          × (e.selected_dimensions ≡ s.selected)
          × (e.unrounded_amount_text ≡ some (scaled_to_text (discounted p price s) rate_scale))
          × (e.amount_minor ≡ some (minor_of p price s))
  unfolding estimate finish refused
  complete_parts version fingerprint h = ground arith

  subtotal_is :
      (laws : IsPlatform p)
      → IsTokenPriced
      → let s = draft_of p price usage in
        is_nil s.missing ≡ true
        → AllRead p s.components
        → subtotal_from p (pos 0) s.components ≡ usage_cost p price usage (start_of p price usage)
  unfolding start_of subtotal_from
  subtotal_is laws tokens clear read =
      let start = start_of p price usage in
      let same = draft_of-tokens tokens in
      rw same (
        token_price_refines p price usage laws start
          (subst (λ s. is_nil s.missing ≡ true) same clear)
          (subst (λ s. AllRead p s.components) same read)
        ∙ zero-+ℤ (usage_cost p price usage start))

  -- The estimate implements a formula: where a price by tokens gives a complete result and every
  -- row is read back, the unrounded amount is the text of the cost of each count at its rate and of
  -- each fee above what is left of its allowance, less the percentage of the discount where the
  -- price has one and the dimensions shown are those of a batch, each product rounded to the
  -- nearest whole number; and the amount in the smallest units of the currency is that cost rounded
  -- to the nearest.
  pub estimate_refines :
      (laws : IsPlatform p) (version fingerprint : String)
      → IsTokenPriced
      → let e = estimate p price usage version fingerprint in
        e.complete ≡ true
        → AllRead p e.components
        → let total =
            less_discount
              (percent_of p price usage e.selected_dimensions)
              (formula_cost p price usage (start_of p price usage)) in
          let unit = minor_divisor (currency_minor_digits (currency_of p price)) in
          (e.unrounded_amount_text ≡ some (scaled_to_text total rate_scale))
          × ((minor : ℤ) × (e.amount_minor ≡ some minor)
              × (2 * magnitude (total -ℤ minor *ℤ pos unit) ≤ unit))
  estimate_refines laws version fingerprint tokens complete read =
      let s = draft_of p price usage in
      let start = start_of p price usage in
      let unit = minor_divisor (currency_minor_digits (currency_of p price)) in
      let (clear, rows, chosen, unrounded, minor) = complete_parts version fingerprint complete in
      let subtotal = subtotal_is laws tokens clear (subst (AllRead p) rows read) in
      let cost = subtotal ∙ usage_cost-formula p price usage start in
      let shown = (estimate p price usage version fingerprint).selected_dimensions in
      let total : discounted p price s
          ≡ less_discount (percent_of p price usage shown) (formula_cost p price usage start) =
        unfold discounted in
        rw chosen (
          ap (discount_of p price s.selected) cost
          ∙ discount_of-less p price usage s.selected (formula_cost p price usage start)) in
      (
        unrounded ∙ ap (λ x. some (scaled_to_text x rate_scale)) total,
        (
          minor_of p price s,
          minor,
          subst (λ x. 2 * magnitude (x -ℤ minor_of p price s *ℤ pos unit) ≤ unit) total
              (round_divide_nearest unit (minor_divisor_pos (currency_of p price))
                (discounted p price s)),
        ),
      )
