-- ===== src/CostEngine/Tokens.antt =====
-- plugin/costengine.cpp: the branch of `estimate` for a price by the million tokens, one function for
-- each part, in the order of the code.
use Prim.Native.String.{◌++◌ as join}
use plasma_ai_usage_monitor.Prelude.{
  Bool, true, false, not, ◌&&◌, ◌||◌, Option, none, some, [], ◌∷◌, String, if◌then◌else◌, str_eq,
}
use plasma_ai_usage_monitor.Prelude.Int.{ℤ, pos, ◌+ℤ◌, ltb_ℤ, leb_ℤ}
use plasma_ai_usage_monitor.CostEngine.Values.{
  Value, Values, no_values, value_then, Fields, Platform, text, is_null, value, value_or, contains,
  is_empty, to_map, to_list, value_for_first_key, merge_rate_map,
}
use plasma_ai_usage_monitor.CostEngine.Decimal.{parse_scaled}
use plasma_ai_usage_monitor.CostEngine.Decimal.Digits.{max_long_long}
use plasma_ai_usage_monitor.CostEngine.Pricing.{
  Draft, or_zero, is_invalid, lacks, select, string_of, lower_of,
}

-- The four numbers of tokens that are charged, and those that choose a tier.
pub record Tokens : Type 0 where
  pub input : ℤ
  pub output : ℤ
  pub cached : ℤ
  pub written : ℤ

module _ {D : Type 0} where
  abbrev is_given : Fields D → String → Bool
  is_given usage key = contains usage key && not (is_null (value usage key))

  -- `if (selected.isEmpty()) addMissing(...) else mergeRateMap(rates, selected)`
  unfoldable pub use_rates : String → Fields D → Draft D → Draft D
  use_rates dimension chosen s =
      if is_empty chosen
      then lacks true dimension s
      else record s { rates = merge_rate_map s.rates chosen }

module _ {D : Type 0} (p : Platform D) where
  abbrev count_of : Value D → Option ℤ
  count_of v = parse_scaled p v 1

  abbrev is_within : Option ℤ → Option ℤ → ℤ → Bool
  is_within (some minimum) (some maximum) context = leb_ℤ minimum context && leb_ℤ context maximum
  is_within _ _ context = false

  unfoldable pub tier_matches : ℤ → Fields D → Bool
  tier_matches context tier =
      is_within (count_of (value tier "minInputTokens"))
        (if contains tier "maxInputTokens"
          then count_of (value tier "maxInputTokens")
          else some (pos max_long_long))
        context

  abbrev pub apply_tier : Fields D → Draft D → Draft D
  apply_tier tier s =
      select "contextTier" (value_or tier "id" (value tier "name"))
        (record s { rates = merge_rate_map s.rates tier })

  -- The loop over the tiers stops at the first that matches.
  unfoldable pub choose_tier : ℤ → Values D → Draft D → Draft D
  choose_tier context no_values s = s
  choose_tier context (value_then v vs) s =
      let rest = choose_tier context vs s in
      if tier_matches context (to_map v) then apply_tier (to_map v) s else rest

  abbrev optional_count : Value D → Option ℤ
  optional_count v = if is_null v then some (pos 0) else count_of v

module _ {D : Type 0} (p : Platform D) (usage : Fields D) where
  abbrev pub given_count : String → Option ℤ
  given_count key = if is_given usage key then count_of p (value usage key) else none

  unfoldable pub count_checks : Draft D → Draft D
  count_checks s = lacks (is_invalid (given_count "outputTokens")) "outputTokens:invalid" (
      lacks (is_invalid (given_count "inputTokens")) "inputTokens:invalid" (
        lacks (not (is_given usage "outputTokens")) "outputTokens"
          (lacks (not (is_given usage "inputTokens")) "inputTokens" s)))

  unfoldable pub context_tokens : Option ℤ
  context_tokens =
      if contains usage "contextTokens"
      then count_of p (value usage "contextTokens")
      else some (or_zero (given_count "inputTokens"))

  abbrev is_provided : String → Bool
  is_provided key =
      contains usage key && not (str_eq (p.trimmed (string_of p (value usage key))) "")

  abbrev provided_or : String → String → String
  provided_or key other = if is_provided key then lower_of p (value usage key) else other

  unfoldable pub service_tier : String
  service_tier = provided_or "serviceTier" "standard"

  unfoldable pub cached_tokens : Option ℤ
  cached_tokens =
      optional_count p (value_for_first_key usage ("cachedInputTokens" ∷ "cacheReadTokens" ∷ []))

  unfoldable pub written_tokens : Option ℤ
  written_tokens =
      optional_count p
        (value_for_first_key usage ("cacheWriteTokens" ∷ "cacheWriteInputTokens" ∷ []))

  unfoldable pub tokens_of : Tokens
  tokens_of = record {
    input = or_zero (given_count "inputTokens");
    output = or_zero (given_count "outputTokens");
    cached = or_zero cached_tokens;
    written = or_zero written_tokens;
  }

  unfoldable pub cache_checks : Draft D → Draft D
  cache_checks s =
      let t = tokens_of in
      lacks (ltb_ℤ t.input (t.cached +ℤ t.written)) "cacheTokens:invalid" (
        lacks (is_invalid written_tokens) "cacheWriteTokens:invalid" (
          lacks (is_invalid cached_tokens || ltb_ℤ t.input t.cached) "cachedInputTokens:invalid" s))

module _ {D : Type 0} (p : Platform D) (price usage : Fields D) where
  unfoldable pub context_step : Draft D → Draft D
  context_step s =
      choose_tier p (or_zero (context_tokens p usage)) (to_list (value price "contextTiers"))
        (lacks (is_invalid (context_tokens p usage)) "contextTokens:invalid" s)

  unfoldable pub modality_step : Draft D → Draft D
  modality_step s =
      let rates = to_map (value price "modalityRates") in
      let modality = provided_or p usage "modality" "text" in
      let chosen = select "modality" (text modality) s in
      if is_empty rates
      then chosen
      else use_rates (join "modality:" modality) (to_map (value rates modality))
          (lacks (not (is_provided p usage "modality")) "modality" chosen)

  unfoldable pub service_step : Draft D → Draft D
  service_step s =
      let tiers = to_map (value price "serviceTierRates") in
      let priority = to_map (value price "priorityRates") in
      let required = not (is_empty tiers) || not (is_empty priority) in
      let chosen =
        lacks (required && not (is_provided p usage "serviceTier")) "serviceTier"
          (select "serviceTier" (text (service_tier p usage)) s) in
      let rated =
        if is_empty tiers
        then chosen
        else use_rates (join "serviceTier:" (service_tier p usage))
            (to_map (value tiers (service_tier p usage))) chosen in
      if str_eq (service_tier p usage) "priority"
      then use_rates "serviceTier:priority" priority rated
      else rated

  -- One turn of the loop over the route and the region.
  unfoldable pub dimension_step : String → Draft D → Draft D
  dimension_step dimension s =
      let rates = to_map (value price (join dimension "Rates")) in
      let chosen = string_of p (value usage dimension) in
      if is_empty rates
      then s
      else use_rates (join (join dimension ":") chosen) (to_map (value rates chosen))
          (select dimension (text chosen) s)
