-- ===== src/CostEngine/Steps.antt =====
-- The parts of `estimate` in plugin/costengine.cpp as writes of four kinds to the draft.
use plasma_ai_usage_monitor.Prelude.{
  Bool, true, false, not, ◌&&◌, ◌||◌, Option, none, some, String, str_eq, if◌then◌else◌,
}
use plasma_ai_usage_monitor.Prelude.Int.{ℤ}
use plasma_ai_usage_monitor.CostEngine.Values.{
  Value, Values, no_values, value_then, is_null, Fields, Platform, is_empty, contains, value,
  to_map,
}
use plasma_ai_usage_monitor.CostEngine.Decimal.{is_negative}
use plasma_ai_usage_monitor.CostEngine.Pricing.{
  Draft, Component, lacks, select, charge, unit_amount, unit_price, string_of, quantity_value,
  rate_value,
}
use plasma_ai_usage_monitor.CostEngine.Tokens.{
  Tokens, use_rates, count_checks, choose_tier, tier_matches, context_step, modality_step,
  service_step, dimension_step, cache_checks, tokens_of,
}
use plasma_ai_usage_monitor.CostEngine.Charges.{
  Rates, rates_of, rate_checks, token_charges, note_discount, batch_step, fee_amount, fee_charge,
  fee_step, fee_steps, rated_draft, token_price,
}
use plasma_ai_usage_monitor.CostEngine.Estimate.{branch}

module _ {D : Type 0} (p : Platform D) (Kept : Draft D → Type 0)
    (lacks-Kept : (bad : Bool) (d : String) (s : Draft D) → Kept s → Kept (lacks bad d s))
    (select-Kept : (d : String) (v : Value D) (s : Draft D) → Kept s → Kept (select d v s))
    (rates-Kept : (s : Draft D) (m : Fields D) → Kept s → Kept (record s { rates = m })) where
  if-Kept : (b : Bool) (s t : Draft D) → Kept s → Kept t → Kept (if b then s else t)
  if-Kept true s t hs ht = hs
  if-Kept false s t hs ht = ht

  use_rates-Kept : (d : String) (m : Fields D) (s : Draft D) → Kept s → Kept (use_rates d m s)
  unfolding use_rates
  use_rates-Kept d m s h = if-Kept (is_empty m) _ _ (lacks-Kept true d s h) (rates-Kept s _ h)

  choose_tier-Kept :
      (context : ℤ) (vs : Values D) (s : Draft D) → Kept s → Kept (choose_tier p context vs s)
  unfolding choose_tier
  choose_tier-Kept context no_values s h = h
  choose_tier-Kept context (value_then v vs) s h =
      if-Kept (tier_matches p context (to_map v)) _ _ (select-Kept _ _ _ (rates-Kept s _ h))
        (choose_tier-Kept context vs s h)

  note_discount-Kept : (d : Option ℤ) (s : Draft D) → Kept s → Kept (note_discount p d s)
  unfolding note_discount
  note_discount-Kept none s h = lacks-Kept true _ s h
  note_discount-Kept (some d) s h = select-Kept _ _ s h

  pub batch_step-Kept :
      (price : Fields D) (tier : String) (s : Draft D) → Kept s → Kept (batch_step p price tier s)
  unfolding batch_step
  batch_step-Kept price tier s h = if-Kept _ _ _ (note_discount-Kept _ s h) h

  pub rate_checks-Kept :
      (t : Tokens) (r : Rates) (s : Draft D) → Kept s → Kept (rate_checks p t r s)
  unfolding rate_checks
  rate_checks-Kept t r s h =
      lacks-Kept _ _ _ (lacks-Kept _ _ _ (lacks-Kept _ _ _ (lacks-Kept _ _ s h)))

  module _ (price usage : Fields D) where
    pub count_checks-Kept : (s : Draft D) → Kept s → Kept (count_checks p usage s)
    unfolding count_checks
    count_checks-Kept s h =
        lacks-Kept _ _ _ (lacks-Kept _ _ _ (lacks-Kept _ _ _ (lacks-Kept _ _ s h)))

    context_step-Kept : (s : Draft D) → Kept s → Kept (context_step p price usage s)
    unfolding context_step
    context_step-Kept s h = choose_tier-Kept _ _ _ (lacks-Kept _ _ s h)

    modality_step-Kept : (s : Draft D) → Kept s → Kept (modality_step p price usage s)
    unfolding modality_step
    modality_step-Kept s h =
        let chosen = select-Kept "modality" _ s h in
        if-Kept _ _ _ chosen (use_rates-Kept _ _ _ (lacks-Kept _ _ _ chosen))

    service_step-Kept : (s : Draft D) → Kept s → Kept (service_step p price usage s)
    unfolding service_step
    service_step-Kept s h =
        let chosen = lacks-Kept _ "serviceTier" _ (select-Kept "serviceTier" _ s h) in
        let rated = if-Kept _ _ _ chosen (use_rates-Kept _ _ _ chosen) in
        if-Kept _ _ _ (use_rates-Kept _ _ _ rated) rated

    dimension_step-Kept :
        (d : String) (s : Draft D) → Kept s → Kept (dimension_step p price usage d s)
    unfolding dimension_step
    dimension_step-Kept d s h = if-Kept _ _ _ h (use_rates-Kept _ _ _ (select-Kept _ _ s h))

    cache_checks-Kept : (s : Draft D) → Kept s → Kept (cache_checks p usage s)
    unfolding cache_checks
    cache_checks-Kept s h = lacks-Kept _ _ _ (lacks-Kept _ _ _ (lacks-Kept _ _ s h))

    -- The steps that choose the rates, after the checks of the counts.
    pub rated_draft-Kept :
        (s : Draft D) → Kept (count_checks p usage s) → Kept (rated_draft p price usage s)
    unfolding rated_draft
    rated_draft-Kept s h = cache_checks-Kept _ (
        dimension_step-Kept _ _ (
          dimension_step-Kept _ _ (
            service_step-Kept _
              (modality_step-Kept _ (context_step-Kept (count_checks p usage s) h)))))

  module _
      (charge-Kept : (due : Bool) (row : Component D) (s : Draft D)
        → Kept s
        → Kept (charge due row s)) where
    unit_amount-Kept :
        (unit : String) (rate : Value D) (q r : Option ℤ) (s : Draft D)
        → Kept s
        → Kept (unit_amount p unit rate q r s)
    unfolding unit_amount
    unit_amount-Kept unit rate (some q) (some r) s h =
        if-Kept (is_negative q) _ _ (lacks-Kept true _ s h) (charge-Kept true _ s h)
    unit_amount-Kept unit rate (some q) none s h = lacks-Kept true _ s h
    unit_amount-Kept unit rate none r s h = lacks-Kept true _ s h

    unit_price-Kept :
        (price usage : Fields D) (unit : String) (s : Draft D)
        → Kept s
        → Kept (unit_price p price usage unit s)
    unfolding unit_price
    unit_price-Kept price usage unit s h =
        let unit_usage = to_map (value usage "unitUsage") in
        let used = value unit_usage unit in
        let rate = value price "amount" in
        if-Kept (not (contains price "amount")) _ _ (lacks-Kept true unit s h) (
          if-Kept (not (contains unit_usage unit) || is_null used) _ _ (lacks-Kept true unit s h)
            (unit_amount-Kept unit rate (quantity_value p used) (rate_value p rate) s h))

    fee_amount-Kept :
        (consumed : Fields D) (kind : String) (rate : Value D) (r q : ℤ) (free : Option ℤ)
        (s : Draft D)
        → Kept s
        → Kept (fee_amount p consumed kind rate r q free s)
    unfolding fee_amount
    fee_amount-Kept consumed kind rate r q none s h = lacks-Kept true _ s h
    fee_amount-Kept consumed kind rate r q (some free) s h =
        charge-Kept true _ _ (lacks-Kept _ _ s h)

    fee_charge-Kept :
        (consumed : Fields D) (kind : String) (rate : Value D) (r q free : Option ℤ) (s : Draft D)
        → Kept s
        → Kept (fee_charge p consumed kind rate r q free s)
    unfolding fee_charge
    fee_charge-Kept consumed kind rate (some r) (some q) free s h =
        fee_amount-Kept consumed kind rate r q free s h
    fee_charge-Kept consumed kind rate (some r) none free s h = lacks-Kept true _ s h
    fee_charge-Kept consumed kind rate none q free s h = lacks-Kept true _ s h

    pub fee_steps-Kept :
        (used consumed : Fields D) (vs : Values D) (s : Draft D)
        → Kept s
        → Kept (fee_steps p used consumed vs s)
    unfolding fee_steps fee_step
    fee_steps-Kept used consumed no_values s h = h
    fee_steps-Kept used consumed (value_then v vs) s h =
        fee_steps-Kept used consumed vs (fee_step p used consumed (to_map v) s)
          (if-Kept _ _ _ h (fee_charge-Kept consumed _ _ _ _ _ s h))

    token_charges-Kept :
        (t : Tokens) (r : Rates) (rates : Fields D) (s : Draft D)
        → Kept s
        → Kept (token_charges p t r rates s)
    unfolding token_charges
    token_charges-Kept t r rates s h =
        charge-Kept _ _ _ (charge-Kept _ _ _ (charge-Kept _ _ _ (charge-Kept _ _ s h)))

    module _ (price usage : Fields D) where
      -- The rest of the token branch, after the checks of the rates.
      pub token_price-Kept :
          (s : Draft D)
          → let rated = rated_draft p price usage s in
            Kept (rate_checks p (tokens_of p usage) (rates_of p rated.rates) rated)
            → Kept (token_price p price usage s)
      unfolding token_price
      token_price-Kept s h =
          fee_steps-Kept _ _ _ _ (batch_step-Kept price _ _ (token_charges-Kept _ _ _ _ h))

      -- The branch of the price's unit.
      pub branch-Kept : (s : Draft D) → Kept s → Kept (branch p price usage s)
      unfolding branch
      branch-Kept s h =
          let unit = string_of p (value price "unit") in
          if-Kept (not (str_eq unit "") && not (str_eq unit "1M_tokens")) _ _
            (unit_price-Kept price usage unit s h)
            (token_price-Kept s (
              rate_checks-Kept _ _ _
                (rated_draft-Kept price usage s (count_checks-Kept price usage s h))))
