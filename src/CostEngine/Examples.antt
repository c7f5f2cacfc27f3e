-- ===== src/CostEngine/Examples.antt =====
-- Runs of plugin/costengine.cpp on concrete prices and uses, and the theorems at them.
use plasma_ai_usage_monitor.Prelude.{
  ℕ, ◌≡◌, refl, ◌*◌, ◌≤◌, ◌^◌, Option, none, some, true, false, is_some, ◌↔◌, [], String,
}
use plasma_ai_usage_monitor.Prelude.Int.{ℤ, pos, negsuc, ◌+ℤ◌, ◌-ℤ◌, ◌*ℤ◌}
use plasma_ai_usage_monitor.Forecast.{has_text}
use plasma_ai_usage_monitor.CostEngine.Values.{
  Value, text, integer, map, list, no_values, value_then, Fields, no_fields, field, Platform,
  IsPlatform, value_or, contains, insert, value_for_first_key, merge_rate_map,
}
use plasma_ai_usage_monitor.CostEngine.Decimal.{
  magnitude, signed_scaled, scaled_to_text, round_divide, scale_digits, two_parts, split_dot,
  scaled_parts, rounds_up, padded, is_negative_text, without_sign, wide_digits, pointed, chop_dot,
  chop_zeros, scaled_chars, parse_scaled, parse_text, trim_decimal, has_exponent,
}
use plasma_ai_usage_monitor.CostEngine.Decimal.Digits.{
  chars, take, drop, replicate, is_nil, is_number, rest_of_number, read, to_long_long, push_digits,
  digit_char,
}
use plasma_ai_usage_monitor.CostEngine.Decimal.Printing.{parse_scaled-scaled_to_text}
use plasma_ai_usage_monitor.CostEngine.Decimal.RoundTrip.{scales_IsScale}
use plasma_ai_usage_monitor.CostEngine.Pricing.{
  rate_scale, add_missing, need, lacks, select, charge, component, priced, currency_minor_digits,
  currency_of, status_checks, time_checks, parse_timestamp, observed_at,
}
use plasma_ai_usage_monitor.CostEngine.Tokens.{
  count_checks, context_tokens, choose_tier, context_step, modality_step, service_tier,
  service_step, dimension_step, cached_tokens, written_tokens, tokens_of, cache_checks, use_rates,
}
use plasma_ai_usage_monitor.CostEngine.Charges.{
  rates_of, rate_checks, token_row, token_charges, batch_step, billable_of, fee_amount, fee_charge,
  fee_step, fee_steps, rated_draft, token_price,
}
use plasma_ai_usage_monitor.CostEngine.Estimate.{
  Estimate, subtotal_from, discount_of, discounted, branch, start_of, draft_of, refused, finish,
  estimate, minor_scale_from, minor_divisor, minor_of, overflows,
}
use plasma_ai_usage_monitor.CostEngine.Results.{
  IsReport, price_checks, estimate_complete, estimate_refuses, estimate-IsReport,
}
use plasma_ai_usage_monitor.CostEngine.Accepted.{IsAccepted, token_price-IsAccepted}
use plasma_ai_usage_monitor.CostEngine.Amounts.{AllRead}
use plasma_ai_usage_monitor.CostEngine.Formula.{less_discount, percent_of, formula_cost}
use plasma_ai_usage_monitor.CostEngine.Totals.{estimate_refines}
use plasma_ai_usage_monitor.CostEngine.Allowance.{billable_of-split}
use plasma_ai_usage_monitor.CostEngine.Decimal.Bounds.{parse_scaled-le}

numbers :
    (signed_scaled 1_000_000_000 (chars "12.5") ≡ some (pos 12_500_000_000))
    × (signed_scaled 100 (chars "-3.455") ≡ some (negsuc 345))
    × (signed_scaled 1 (chars "9223372036854775808") ≡ none)
    × (signed_scaled 1 (chars "1.2.3") ≡ none)
    × (signed_scaled 1 (chars ".") ≡ some (pos 0))
    × (scaled_to_text (negsuc 345) 100 ≡ "-3.46")
    × (scaled_to_text (pos 50_000) 1_000_000_000 ≡ "0.00005")
    × (scaled_to_text (pos 120) 1 ≡ "120")
unfolding signed_scaled scaled_to_text round_divide scale_digits two_parts split_dot scaled_parts
    rounds_up padded is_negative_text without_sign wide_digits pointed chop_dot chop_zeros
    scaled_chars take drop replicate is_nil is_number rest_of_number read to_long_long push_digits
    digit_char
numbers = (refl, refl, refl, refl, refl, refl, refl, refl)

abbrev text_of : Value ℕ → Option String
text_of (text s) = some s
text_of (integer (pos n)) = some (scaled_to_text (pos n) 1)
text_of _ = none

abbrev desk : Platform ℕ
desk = record {
  trimmed = λ s. s;
  to_upper = λ s. s;
  to_lower = λ s. s;
  text_to_double = λ s. none;
  fixed = λ d. "";
  is_finite = λ d. true;
  quotient = λ z n. 0;
  as_text = text_of;
  as_bool = λ v. false;
  iso_with_ms = λ s. none;
  iso = λ s. none;
}

desk-IsPlatform : IsPlatform desk
desk-IsPlatform = record { as_text-text = λ s. refl; trimmed-visible = λ cs h. refl }

-- 2.50 and 10 dollars for a million tokens, half of it for what is cached, and a fee for searches.
abbrev price : Fields ℕ
price = field "currency" (text "USD") (
    field "input" (text "2.5") (
      field "output" (text "10") (
        field "cachedInput" (text "1.25") (
          field "additiveFees"
            (list (
              value_then
                (map (
                  field "kind" (text "search") (
                    field "amount" (text "0.01")
                      (field "freeAllowance" (integer (pos 10)) no_fields))))
                no_values))
            no_fields))))

abbrev usage : Fields ℕ
usage = field "inputTokens" (integer (pos 1_200_000)) (
    field "outputTokens" (integer (pos 500_000)) (
      field "cachedInputTokens" (integer (pos 200_000)) (
        field "additiveUsage" (map (field "search" (integer (pos 30)) no_fields)) (
          field "allowanceConsumed" (map (field "search" (integer (pos 4)) no_fields)) no_fields))))

abbrev quantity_read : Option ℤ
quantity_read = parse_scaled desk (integer (pos 1_200_000)) 1

abbrev estimated : Estimate ℕ
estimated = estimate desk price usage "1" "a"

runs :
    (estimated.complete ≡ true)
    × (estimated.amount_minor ≡ some (pos 799))
    × AllRead desk estimated.components
    × (is_nil (token_price desk price usage (start_of desk price usage)).missing ≡ true)
    × (quantity_read ≡ some (pos 1_200_000))
unfolding estimate finish refused draft_of branch start_of discounted discount_of subtotal_from
    token_price rated_draft fee_steps fee_step fee_charge fee_amount billable_of batch_step
    token_charges token_row rate_checks rates_of cache_checks tokens_of written_tokens cached_tokens
    dimension_step service_step service_tier modality_step context_step choose_tier context_tokens
    count_checks use_rates time_checks status_checks observed_at parse_timestamp currency_of
    currency_minor_digits priced component charge select lacks need add_missing merge_rate_map
    value_for_first_key insert contains value_or parse_scaled parse_text trim_decimal has_exponent
    has_text minor_scale_from signed_scaled scaled_to_text round_divide scale_digits two_parts
    split_dot scaled_parts rounds_up padded is_negative_text without_sign wide_digits pointed
    chop_dot chop_zeros scaled_chars take drop replicate is_nil is_number rest_of_number read
    to_long_long push_digits digit_char ◌+ℤ◌ ◌-ℤ◌ ◌*ℤ◌
runs = (refl, refl, (refl, (refl, (refl, (refl, tt)))), refl, refl)

-- A price whose life has ended.
abbrev retired : Fields ℕ
retired = field "lifecycleStatus" (text "retired") price

retired_check : has_text (price_checks desk retired usage) "pricing:retired" ≡ true
unfolding estimate finish refused draft_of branch start_of discounted discount_of subtotal_from
    token_price rated_draft fee_steps fee_step fee_charge fee_amount billable_of batch_step
    token_charges token_row rate_checks rates_of cache_checks tokens_of written_tokens cached_tokens
    dimension_step service_step service_tier modality_step context_step choose_tier context_tokens
    count_checks use_rates time_checks status_checks observed_at parse_timestamp currency_of
    currency_minor_digits priced component charge select lacks need add_missing merge_rate_map
    value_for_first_key insert contains value_or parse_scaled parse_text trim_decimal has_exponent
    has_text minor_scale_from signed_scaled scaled_to_text round_divide scale_digits two_parts
    split_dot scaled_parts rounds_up padded is_negative_text without_sign wide_digits pointed
    chop_dot chop_zeros scaled_chars take drop replicate is_nil is_number rest_of_number read
    to_long_long push_digits digit_char ◌+ℤ◌ ◌-ℤ◌ ◌*ℤ◌
retired_check = refl

estimate_refines_example :
    let total =
      less_discount
        (percent_of desk price usage estimated.selected_dimensions)
        (formula_cost desk price usage (start_of desk price usage)) in
    let unit = minor_divisor (currency_minor_digits (currency_of desk price)) in
    (estimated.unrounded_amount_text ≡ some (scaled_to_text total rate_scale))
    × ((minor : ℤ) × (estimated.amount_minor ≡ some minor)
        × (2 * magnitude (total -ℤ minor *ℤ pos unit) ≤ unit))
unfolding value_or
estimate_refines_example =
    estimate_refines desk price usage desk-IsPlatform "1" "a" refl runs.0 runs.2

parse_scaled-scaled_to_text_example :
    parse_scaled desk (text (scaled_to_text (negsuc 344) rate_scale)) rate_scale ≡ some (negsuc 344)
parse_scaled-scaled_to_text_example =
    parse_scaled-scaled_to_text desk desk-IsPlatform rate_scale scales_IsScale.2 (negsuc 344)

estimate_complete_example :
    let s = draft_of desk price usage in
    ((estimated.complete ≡ true) ↔ ((s.missing ≡ []) × (overflows (minor_of desk price s) ≡ false)))
    × (estimated.available ≡ estimated.complete)
    × ((estimated.complete ≡ true)
        → (estimated.amount_minor ≡ some (minor_of desk price s))
          × (estimated.missing_dimensions ≡ [])
          × (estimated.reason ≡ none))
    × ((estimated.complete ≡ false)
        → (estimated.amount ≡ none)
          × (estimated.amount_minor ≡ none)
          × (estimated.amount_text ≡ none)
          × (estimated.unrounded_amount_text ≡ none)
          × (is_nil estimated.missing_dimensions ≡ false)
          × (is_some estimated.reason ≡ true))
estimate_complete_example = estimate_complete desk price usage "1" "a"

estimate_refuses_example :
    let e = estimate desk retired usage "1" "a" in
    (has_text e.missing_dimensions "pricing:retired" ≡ true)
    × (e.available ≡ false)
    × (e.amount_minor ≡ none)
estimate_refuses_example =
    estimate_refuses desk retired usage "1" "a" "pricing:retired" retired_check

estimate-IsReport_example : IsReport (estimate desk retired usage "1" "a").missing_dimensions
estimate-IsReport_example = estimate-IsReport desk retired usage "1" "a"

token_price-IsAccepted_example :
    let start = start_of desk price usage in
    IsAccepted (tokens_of desk usage) (rates_of desk (rated_draft desk price usage start).rates)
token_price-IsAccepted_example =
    token_price-IsAccepted desk price usage (start_of desk price usage) runs.3

parse_scaled-le_example : 1_200_000 ≤ 2 ^ 63 * 1
parse_scaled-le_example =
    parse_scaled-le 1 scales_IsScale.0 desk (integer (pos 1_200_000)) {z = pos 1_200_000} runs.4

billable_of-split_example :
    billable_of (pos 4) (pos 10) (pos 3) +ℤ billable_of (pos 9) (pos 10) (pos 3 +ℤ pos 4)
    ≡ billable_of (pos 4 +ℤ pos 9) (pos 10) (pos 3)
billable_of-split_example = billable_of-split 4 9 (pos 10) (pos 3)
