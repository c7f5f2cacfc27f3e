-- ===== src/CostEngine/Charges.antt =====
-- plugin/costengine.cpp: the rows of `components` for tokens and for additive fees.
use Prim.Native.String.{◌++◌ as join}
use plasma_ai_usage_monitor.Prelude.{
  Bool, true, not, ◌&&◌, Option, none, some, [], ◌∷◌, String, if◌then◌else◌, str_eq, is_some,
}
use plasma_ai_usage_monitor.Prelude.Int.{ℤ, pos, ◌+ℤ◌, ◌-ℤ◌, ltb_ℤ, leb_ℤ, max_ℤ}
use plasma_ai_usage_monitor.CostEngine.Values.{
  Value, Values, no_values, value_then, Fields, Platform, integer, number, is_null, value, value_or,
  contains, to_map, to_list, value_for_first_key,
}
use plasma_ai_usage_monitor.CostEngine.Decimal.{parse_scaled}
use plasma_ai_usage_monitor.CostEngine.Pricing.{
  Draft, Component, or_zero, priced, lacks, select, charge, component, string_of, rate_value,
  quantity_value,
}
use plasma_ai_usage_monitor.CostEngine.Tokens.{
  Tokens, tokens_of, count_checks, context_step, modality_step, service_tier, service_step,
  dimension_step, cache_checks,
}

-- The rates of a draft as they are read: `none` where the flag is false.
pub record Rates : Type 0 where
  pub input_rate : Option ℤ
  pub output_rate : Option ℤ
  pub cached_rate : Option ℤ
  pub written_rate : Option ℤ

abbrev pub billable_input : Tokens → ℤ
billable_input t = t.input -ℤ t.cached -ℤ t.written

module _ {D : Type 0} (p : Platform D) where
  abbrev pub cached_rate_value : Fields D → Value D
  cached_rate_value rates =
      value_for_first_key rates ("cachedInput" ∷ "cacheRead" ∷ "cachedInputRate" ∷ [])

  abbrev pub written_rate_value : Fields D → Value D
  written_rate_value rates =
      value_for_first_key rates ("cacheWrite" ∷ "cacheWriteInput" ∷ "cacheWriteRate" ∷ [])

  abbrev optional_rate : Value D → Option ℤ
  optional_rate v = if is_null v then none else rate_value p v

  unfoldable pub rates_of : Fields D → Rates
  rates_of rates = record {
    input_rate = rate_value p (value rates "input");
    output_rate = rate_value p (value rates "output");
    cached_rate = optional_rate (cached_rate_value rates);
    written_rate = optional_rate (written_rate_value rates);
  }

  unfoldable pub rate_checks : Tokens → Rates → Draft D → Draft D
  rate_checks t r s =
      lacks (ltb_ℤ (pos 0) t.written && not (is_some r.written_rate)) "cacheWriteRate" (
        lacks (ltb_ℤ (pos 0) t.cached && not (is_some r.cached_rate)) "cachedInputRate" (
          lacks (not (is_some r.output_rate)) "outputRate"
            (lacks (not (is_some r.input_rate)) "inputRate" s)))

  unfoldable pub token_row : String → ℤ → ℤ → Value D → Component D
  token_row kind quantity rate rate_value =
      component p kind quantity (priced quantity rate) rate_value "1M_tokens"

  unfoldable pub token_charges : Tokens → Rates → Fields D → Draft D → Draft D
  token_charges t r rates s =
      let input_due =
        is_some r.input_rate
        && leb_ℤ (t.cached +ℤ t.written) t.input
        && leb_ℤ (pos 0) t.cached
        && leb_ℤ (pos 0) t.written in
      charge (is_some r.written_rate && ltb_ℤ (pos 0) t.written)
        (token_row "cacheWrite" t.written (or_zero r.written_rate) (written_rate_value rates))
        (charge (is_some r.output_rate && leb_ℤ (pos 0) t.output)
          (token_row "output" t.output (or_zero r.output_rate) (value rates "output"))
          (charge (is_some r.cached_rate && ltb_ℤ (pos 0) t.cached)
            (token_row "cacheRead" t.cached (or_zero r.cached_rate) (cached_rate_value rates))
            (charge input_due
              (token_row "input" (billable_input t) (or_zero r.input_rate) (value rates "input"))
              s)))

  abbrev pub batch_discount : Fields D → Option ℤ
  batch_discount price = parse_scaled p (value price "batchDiscountPercent") 100

  unfoldable pub note_discount : Option ℤ → Draft D → Draft D
  note_discount none s = lacks true "serviceTier:batch" s
  note_discount (some d) s = select "batchDiscountPercent" (number (p.quotient d 100)) s

  unfoldable pub batch_step : Fields D → String → Draft D → Draft D
  unfolding note_discount
  batch_step price tier s =
      if str_eq tier "batch" then note_discount (batch_discount price) s else s

-- What is charged of a quantity when part of the free allowance is left.
unfoldable pub billable_of : ℤ → ℤ → ℤ → ℤ
billable_of requested free consumed = max_ℤ (pos 0) (requested -ℤ max_ℤ (pos 0) (free -ℤ consumed))

module _ {D : Type 0} (p : Platform D) (consumed : Fields D) where
  abbrev consumed_read : String → Option ℤ
  consumed_read kind = quantity_value p (value consumed kind)

  -- The check of the allowance that is already consumed, and its value.
  abbrev pub lacks_consumed : String → ℤ → Bool
  lacks_consumed kind free =
      if contains consumed kind then not (is_some (consumed_read kind)) else ltb_ℤ (pos 0) free

  abbrev pub consumed_of : String → ℤ
  consumed_of kind = if contains consumed kind then or_zero (consumed_read kind) else pos 0

  unfoldable pub fee_amount : String → Value D → ℤ → ℤ → Option ℤ → Draft D → Draft D
  fee_amount kind rate fee_rate requested none s = lacks true (join "freeAllowance:" kind) s
  fee_amount kind rate fee_rate requested (some free) s =
      let billable = billable_of requested free (consumed_of kind) in
      charge true (component p (join "fee:" kind) billable (priced billable fee_rate) rate kind)
        (lacks (lacks_consumed kind free) (join "allowanceConsumed:" kind) s)

  unfoldable pub fee_charge : String → Value D → Option ℤ → Option ℤ → Option ℤ → Draft D → Draft D
  unfolding fee_amount
  fee_charge kind rate (some fee_rate) (some requested) free s =
      fee_amount kind rate fee_rate requested free s
  fee_charge kind rate _ _ free s = lacks true (join "additiveFee:" kind) s

module _ {D : Type 0} (p : Platform D) (used consumed : Fields D) where
  -- One turn of the loop over `additiveFees`.
  unfoldable pub fee_step : Fields D → Draft D → Draft D
  unfolding fee_charge
  fee_step fee s =
      let kind = string_of p (value fee "kind") in
      if not (contains used kind)
      then s
      else fee_charge p consumed kind (value fee "amount") (rate_value p (value fee "amount"))
          (quantity_value p (value used kind))
          (quantity_value p (value_or fee "freeAllowance" (integer (pos 0)))) s

  unfoldable pub fee_steps : Values D → Draft D → Draft D
  fee_steps no_values s = s
  fee_steps (value_then v vs) s = fee_steps vs (fee_step (to_map v) s)

module _ {D : Type 0} (p : Platform D) (price usage : Fields D) where
  -- The steps up to the rates, which the charges read.
  unfoldable pub rated_draft : Draft D → Draft D
  rated_draft s = cache_checks p usage (
      dimension_step p price usage "region" (
        dimension_step p price usage "route" (
          service_step p price usage
            (modality_step p price usage (context_step p price usage (count_checks p usage s))))))

  -- The whole branch.
  unfoldable pub token_price : Draft D → Draft D
  token_price s =
      let rated = rated_draft s in
      let t = tokens_of p usage in
      let r = rates_of p rated.rates in
      fee_steps p (to_map (value usage "additiveUsage")) (to_map (value usage "allowanceConsumed"))
        (to_list (value price "additiveFees"))
        (batch_step p price (service_tier p usage)
          (token_charges p t r rated.rates (rate_checks p t r rated)))
