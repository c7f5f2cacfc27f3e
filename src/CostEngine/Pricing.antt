-- ===== src/CostEngine/Pricing.antt =====
-- plugin/costengine.cpp: what `estimate` checks of a price before it counts anything, the rows of
-- its result, and the price of a use that is counted in another unit than tokens.
use Prim.Native.String.{◌++◌ as join}
use plasma_ai_usage_monitor.Prelude.{
  ℕ, Bool, true, false, not, ◌&&◌, ◌||◌, Option, none, some, List, [], ◌∷◌, ◌++◌, String,
  if◌then◌else◌, str_eq, is_some,
}
use plasma_ai_usage_monitor.Prelude.Int.{ℤ, pos, negsuc, ◌*ℤ◌}
use plasma_ai_usage_monitor.Prelude.Qt.{DateTime, earlier}
use plasma_ai_usage_monitor.Forecast.{has_text}
use plasma_ai_usage_monitor.CostEngine.Values.{
  Value, Fields, Platform, boolean, is_null, value, value_or, contains, is_empty, to_map, or_empty,
  value_for_first_key, insert,
}
use plasma_ai_usage_monitor.CostEngine.Decimal.{
  parse_scaled, round_divide, scaled_to_text, is_negative,
}

abbrev pub rate_scale : ℕ
rate_scale = 1_000_000_000

abbrev pub token_scale : ℕ
token_scale = 1_000_000

unfoldable pub add_missing : List String → String → List String
add_missing missing dimension =
    if str_eq dimension "" || has_text missing dimension
    then missing
    else missing ++ (dimension ∷ [])

-- `if (bad) addMissing(missing, dimension)`
unfoldable pub need : Bool → String → List String → List String
need bad dimension missing = if bad then add_missing missing dimension else missing

abbrev pub whole_currencies : List String
whole_currencies = "JPY" ∷ "KRW" ∷ "CLP" ∷ "VND" ∷ []

abbrev pub thousandth_currencies : List String
thousandth_currencies = "KWD" ∷ "BHD" ∷ "JOD" ∷ "OMR" ∷ []

abbrev pub hundredth_currencies : List String
hundredth_currencies =
    "USD" ∷ "EUR" ∷ "GBP" ∷ "SEK" ∷ "NOK" ∷ "DKK" ∷ "CAD" ∷ "AUD" ∷ "CHF" ∷ "CNY" ∷ "INR" ∷ "BRL"
    ∷ []

-- -1 where the currency is not known.
unfoldable pub currency_minor_digits : String → ℤ
currency_minor_digits currency =
    if has_text whole_currencies currency
    then pos 0
    else if has_text thousandth_currencies currency
    then pos 3
    else if has_text hundredth_currencies currency
    then pos 2
    else negsuc 0

-- `component`
pub record Component (D : Type 0) : Type 0 where
  pub kind : String
  pub quantity : D
  pub quantity_text : String
  pub unit : String
  pub unit_rate : Value D
  pub amount : D
  pub amount_text : String

-- The variables that the body of `estimate` changes.
pub record Draft (D : Type 0) : Type 0 where
  pub missing : List String
  pub components : List (Component D)
  pub rates : Fields D
  pub selected : Fields D

abbrev pub or_zero : Option ℤ → ℤ
or_zero none = pos 0
or_zero (some z) = z

-- `!ok || value < 0`
abbrev pub is_invalid : Option ℤ → Bool
is_invalid none = true
is_invalid (some z) = is_negative z

-- What a quantity costs at a rate, both scaled.
unfoldable pub priced : ℤ → ℤ → ℤ
priced quantity rate = round_divide (quantity *ℤ rate) (pos token_scale)

abbrev is_not_before : DateTime → DateTime → Bool
is_not_before (some a) (some b) = not (earlier (some a) (some b))
is_not_before _ _ = false

abbrev is_before : DateTime → DateTime → Bool
is_before (some a) (some b) = earlier (some a) (some b)
is_before _ _ = false

module _ {D : Type 0} where
  -- `addMissing` on the draft, where the test holds.
  unfoldable pub lacks : Bool → String → Draft D → Draft D
  lacks bad dimension s = record s { missing = need bad dimension s.missing }

  unfoldable pub select : String → Value D → Draft D → Draft D
  select dimension v s = record s { selected = insert dimension v s.selected }

  -- `components.append`, where the test holds.
  unfoldable pub charge : Bool → Component D → Draft D → Draft D
  charge due row s = record s {
    components = if due then s.components ++ (row ∷ []) else s.components;
  }

module _ {D : Type 0} (p : Platform D) where
  open p use {as_text, as_bool, trimmed, to_upper, to_lower, iso_with_ms, iso, quotient}

  abbrev pub string_of : Value D → String
  string_of v = or_empty (as_text v)

  abbrev pub lower_of : Value D → String
  lower_of v = to_lower (trimmed (string_of v))

  -- `component`
  unfoldable pub component : String → ℤ → ℤ → Value D → String → Component D
  component kind quantity amount unit_rate unit = record {
    kind = kind;
    quantity = quotient quantity token_scale;
    quantity_text = scaled_to_text quantity token_scale;
    unit = unit;
    unit_rate = unit_rate;
    amount = quotient amount rate_scale;
    amount_text = scaled_to_text amount rate_scale;
  }

  -- `parseTimestamp`
  unfoldable pub parse_timestamp : Value D → DateTime
  parse_timestamp v =
      let parsed = iso_with_ms (string_of v) in
      if is_null v then none else if is_some parsed then parsed else iso (string_of v)

  unfoldable pub currency_of : Fields D → String
  currency_of price = to_upper (trimmed (string_of (value price "currency")))

  -- The checks of the currency, the status, the life cycle and the catalogue.
  unfoldable pub status_checks : Fields D → List String → List String
  status_checks price missing =
      let currency = currency_of price in
      let status = lower_of (value_or price "status" (value price "pricingStatus")) in
      let supported =
        if str_eq currency ""
        then add_missing missing "currency"
        else need (is_negative (currency_minor_digits currency)) "currency:unsupported" missing in
      let known = need (is_empty price || str_eq status "unknown") "pricing" supported in
      let current =
        need (str_eq (lower_of (value price "lifecycleStatus")) "retired") "pricing:retired"
          known in
      need (contains price "estimatesAllowed" && not (as_bool (value price "estimatesAllowed")))
        "catalog:expired" current

  unfoldable pub observed_at : Fields D → DateTime
  observed_at usage =
      parse_timestamp
        (value_for_first_key usage ("pricingTimestamp" ∷ "observedAt" ∷ "timestamp" ∷ []))

  -- The checks of the instant of use against the time in which the price holds.
  unfoldable pub time_checks : Fields D → Fields D → List String → List String
  time_checks price usage missing =
      let required =
        as_bool (value_or price "requireTimestamp" (boolean false))
        || as_bool (value_or usage "requirePricingTimestamp" (boolean false)) in
      let observed = observed_at usage in
      let stamped = need (required && not (is_some observed)) "pricingTimestamp" missing in
      let begun =
        need (is_before observed (parse_timestamp (value price "effectiveFrom")))
          "pricing:before-effectiveFrom" stamped in
      need (is_not_before observed (parse_timestamp (value price "effectiveTo")))
        "pricing:after-effectiveTo" begun

  abbrev pub rate_value : Value D → Option ℤ
  rate_value v = parse_scaled p v rate_scale

  abbrev pub quantity_value : Value D → Option ℤ
  quantity_value v = parse_scaled p v token_scale

  unfoldable pub unit_amount : String → Value D → Option ℤ → Option ℤ → Draft D → Draft D
  unit_amount unit rate (some quantity) (some unit_rate) s =
      if is_negative quantity
      then lacks true (join unit ":invalid") s
      else charge true (component "unit" quantity (priced quantity unit_rate) rate unit) s
  unit_amount unit rate _ _ s = lacks true (join unit ":invalid") s

  -- The branch of a price for a unit that is not a million tokens.
  unfoldable pub unit_price : Fields D → Fields D → String → Draft D → Draft D
  unfolding unit_amount
  unit_price price usage unit s =
      let unit_usage = to_map (value usage "unitUsage") in
      let used = value unit_usage unit in
      let rate = value price "amount" in
      if not (contains price "amount")
      then lacks true unit s
      else if not (contains unit_usage unit) || is_null used
      then lacks true unit s
      else unit_amount unit rate (quantity_value used) (rate_value rate) s
