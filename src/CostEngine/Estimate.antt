-- ===== src/CostEngine/Estimate.antt =====
-- plugin/costengine.cpp: `CostEngine::estimate`. The map that it returns is a record with one field
-- for each key; the entries that it copies from the price are one field.
use plasma_ai_usage_monitor.Prelude.{
  ℕ, ◌/◌, ◌*◌, Bool, true, false, not, ◌&&◌, ◌||◌, Option, none, some, List, [], ◌∷◌, String,
  if◌then◌else◌, str_eq, zero, suc,
}
use plasma_ai_usage_monitor.Prelude.Int.{ℤ, pos, negsuc, ◌+ℤ◌, ◌*ℤ◌, ◌-ℤ◌, ltb_ℤ}
use plasma_ai_usage_monitor.CostEngine.Values.{
  Value, Fields, no_fields, Platform, text, null, value, contains,
}
use plasma_ai_usage_monitor.CostEngine.Decimal.{round_divide, scaled_to_text}
use plasma_ai_usage_monitor.CostEngine.Decimal.Digits.{is_nil, max_long_long}
use plasma_ai_usage_monitor.CostEngine.Pricing.{
  Draft, Component, or_zero, string_of, rate_value, rate_scale, currency_minor_digits, currency_of,
  status_checks, time_checks, unit_price,
}
use plasma_ai_usage_monitor.CostEngine.Charges.{token_price, batch_discount}

pub record Estimate (D : Type 0) : Type 0 where
  pub available : Bool
  pub complete : Bool
  pub estimate_status : String
  pub amount : Option D
  pub amount_text : Option String
  pub amount_minor : Option ℤ
  pub unrounded_amount_text : Option String
  pub currency : Value D
  pub price : Fields D
  pub catalog_version : String
  pub source_fingerprint : String
  pub missing_dimensions : List String
  pub selected_dimensions : Fields D
  pub components : List (Component D)
  pub reason : Option String

-- `for (i = 0; i < minorDigits; ++i) minorScale *= 10`
unfoldable pub minor_scale_from : ℕ → ℕ → ℕ
minor_scale_from zero scale = scale
minor_scale_from (suc n) scale = minor_scale_from n (scale * 10)

abbrev pub minor_scale : ℤ → ℕ
minor_scale (pos n) = minor_scale_from n 1
minor_scale (negsuc n) = 1

abbrev pub minor_divisor : ℤ → ℕ
minor_divisor (pos n) = rate_scale / minor_scale (pos n)
minor_divisor (negsuc n) = 1

abbrev pub overflows : ℤ → Bool
overflows z = ltb_ℤ (pos max_long_long) z || ltb_ℤ z (negsuc max_long_long)

unfoldable pub discount_by : ℤ → Option ℤ → ℤ
discount_by subtotal none = subtotal
discount_by subtotal (some d) = round_divide (subtotal *ℤ (pos 10_000 -ℤ d)) (pos 10_000)

module _ {D : Type 0} (p : Platform D) where
  -- The loop over the rows: the amount of a row is read from its text.
  unfoldable pub subtotal_from : ℤ → List (Component D) → ℤ
  subtotal_from total [] = total
  subtotal_from total (row ∷ rows) =
      subtotal_from (total +ℤ or_zero (rate_value p (text row.amount_text))) rows

  unfoldable pub discount_of : Fields D → Fields D → ℤ → ℤ
  discount_of price selected subtotal =
      if str_eq (string_of p (value selected "serviceTier")) "batch"
        && contains price "batchDiscountPercent"
      then discount_by subtotal (batch_discount p price)
      else subtotal

  unfoldable pub discounted : Fields D → Draft D → ℤ
  discounted price s = discount_of price s.selected (subtotal_from (pos 0) s.components)

  -- The branch of the price's unit.
  unfoldable pub branch : Fields D → Fields D → Draft D → Draft D
  branch price usage s =
      let unit = string_of p (value price "unit") in
      if not (str_eq unit "") && not (str_eq unit "1M_tokens")
      then unit_price p price usage unit s
      else token_price p price usage s

  unfoldable pub start_of : Fields D → Fields D → Draft D
  start_of price usage = record {
    missing = time_checks p price usage (status_checks p price []);
    components = [];
    rates = price;
    selected = no_fields;
  }

  -- The draft before the sum is taken.
  unfoldable pub draft_of : Fields D → Fields D → Draft D
  draft_of price usage = branch price usage (start_of price usage)

  -- The result where a dimension is missing, with the reason that the code gives.
  unfoldable pub refused : Fields D → String → String → String → Draft D → List String → Estimate D
  refused price catalog_version fingerprint reason s missing = record {
    available = false;
    complete = false;
    estimate_status = "unavailable";
    amount = none;
    amount_text = none;
    amount_minor = none;
    unrounded_amount_text = none;
    currency = if str_eq (currency_of p price) "" then null else text (currency_of p price);
    price = price;
    catalog_version = catalog_version;
    source_fingerprint = fingerprint;
    missing_dimensions = missing;
    selected_dimensions = s.selected;
    components = s.components;
    reason = some reason;
  }

  abbrev pub minor_of : Fields D → Draft D → ℤ
  minor_of price s =
      round_divide (discounted price s)
        (pos (minor_divisor (currency_minor_digits (currency_of p price))))

  -- The end of `estimate`.
  unfoldable pub finish : Fields D → String → String → Draft D → Estimate D
  finish price catalog_version fingerprint s =
      let scale = minor_scale (currency_minor_digits (currency_of p price)) in
      let minor = minor_of price s in
      if not (is_nil s.missing)
      then refused price catalog_version fingerprint "missing-or-invalid-pricing-dimensions" s
          s.missing
      else if overflows minor
      then refused price catalog_version fingerprint "amount-overflow" s ("amount:overflow" ∷ [])
      else record (refused price catalog_version fingerprint "" s []) {
        available = true;
        complete = true;
        estimate_status = "available";
        amount_minor = some minor;
        amount = some (p.quotient minor scale);
        amount_text = some (scaled_to_text minor scale);
        unrounded_amount_text = some (scaled_to_text (discounted price s) rate_scale);
        reason = none;
      }

  unfoldable pub estimate : Fields D → Fields D → String → String → Estimate D
  estimate price usage catalog_version fingerprint =
      finish price catalog_version fingerprint (draft_of price usage)
