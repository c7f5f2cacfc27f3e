-- ===== src/CostEngine/Accepted.antt =====
-- The checks of the token branch of plugin/costengine.cpp, read from what it leaves missing.
use mathlib.Core.Bool.{true≢false}
use plasma_ai_usage_monitor.Prelude.{
  ◌≡◌, refl, sym, ◌∙◌, Bool, true, false, not, ◌&&◌, ◌||◌, Option, none, some, List, [], ◌∷◌, ◌++◌,
  String, str_eq, arith, is_some, Bool-cases, inl, inr,
}
use plasma_ai_usage_monitor.Prelude.Int.{ℤ, pos, ◌+ℤ◌, ltb_ℤ}
use plasma_ai_usage_monitor.Forecast.{has_text}
use plasma_ai_usage_monitor.CostEngine.Values.{Fields, Platform}
use plasma_ai_usage_monitor.CostEngine.Decimal.{is_negative}
use plasma_ai_usage_monitor.CostEngine.Decimal.Digits.{is_nil}
use plasma_ai_usage_monitor.CostEngine.Pricing.{
  Draft, add_missing, need, lacks, or_zero, is_invalid,
}
use plasma_ai_usage_monitor.CostEngine.Tokens.{
  Tokens, tokens_of, given_count, count_checks, cache_checks, cached_tokens, written_tokens,
}
use plasma_ai_usage_monitor.CostEngine.Charges.{
  Rates, rates_of, rate_checks, rated_draft, token_price,
}
use plasma_ai_usage_monitor.CostEngine.Missing.{rated_draft-keeps, token_price-keeps}

pub record IsAccepted (t : Tokens) (r : Rates) : Type 0 where
  pub input_rate : is_some r.input_rate ≡ true
  pub output_rate : is_some r.output_rate ≡ true
  pub cached_rate : (ltb_ℤ (pos 0) t.cached && not (is_some r.cached_rate)) ≡ false
  pub written_rate : (ltb_ℤ (pos 0) t.written && not (is_some r.written_rate)) ≡ false
  pub output : is_negative t.output ≡ false
  pub cached : is_negative t.cached ≡ false
  pub written : is_negative t.written ≡ false
  pub within : ltb_ℤ t.input (t.cached +ℤ t.written) ≡ false

abbrev pub Listed : List String → Type 0
Listed m = is_nil m ≡ false

append-Listed : (m : List String) (d : String) → Listed (m ++ (d ∷ []))
unfolding is_nil
append-Listed [] d = refl
append-Listed (x ∷ m) d = refl

pub add_missing-Listed : (m : List String) (d : String) → Listed m → Listed (add_missing m d)
unfolding add_missing
add_missing-Listed m d h = ground (arith, append-Listed m d)

has_text-Listed : (m : List String) (d : String) → has_text m d ≡ true → Listed m
unfolding has_text is_nil
has_text-Listed [] d h = cc
has_text-Listed (x ∷ m) d h = refl

add_missing_lem : (m : List String) (d : String) → str_eq d "" ≡ false → Listed (add_missing m d)
unfolding add_missing
add_missing_lem m d e = ground (arith, append-Listed m d, has_text-Listed m d)

module _ {D : Type 0} where
  abbrev pub Clear : Draft D → Type 0
  Clear s = is_nil s.missing ≡ true

  -- Nothing is missing after a check only if the check passed and nothing was missing before.
  pub lacks-Clear :
      (bad : Bool) (d : String) (s : Draft D)
      → str_eq d "" ≡ false
      → Clear (lacks bad d s)
      → (bad ≡ false) × Clear s
  unfolding lacks need
  lacks-Clear true d s e h = ground (arith, add_missing_lem s.missing d e)
  lacks-Clear false d s e h = (refl, h)

valid : (o : Option ℤ) → is_invalid o ≡ false → is_negative (or_zero o) ≡ false
valid none h = refl
valid (some z) h = h

or-false : (a b : Bool) → (a || b) ≡ false → (a ≡ false) × (b ≡ false)
or-false a b h = ground arith

true_of_not : (b : Bool) → not b ≡ false → b ≡ true
true_of_not b h = ground arith

pub clear_of : (m n : List String) → (Listed m → Listed n) → is_nil n ≡ true → is_nil m ≡ true
clear_of m n f h = elim (Bool-cases (is_nil m)) [
  | inl clear ↦ clear
  | inr listed ↦ absurd (true≢false (sym h ∙ f listed))
]

module _ {D : Type 0} (p : Platform D) (price usage : Fields D) where
  counted :
      (s : Draft D)
      → Clear (count_checks p usage s)
      → is_negative (tokens_of p usage).output ≡ false
  unfolding count_checks tokens_of
  counted s h =
      valid (given_count p usage "outputTokens") (lacks-Clear _ "outputTokens:invalid" _ refl h).0

  cache_counted :
      (s : Draft D)
      → Clear (cache_checks p usage s)
      → let t = tokens_of p usage in
        (is_negative t.cached ≡ false)
        × (is_negative t.written ≡ false)
        × (ltb_ℤ t.input (t.cached +ℤ t.written) ≡ false)
  unfolding cache_checks tokens_of
  cache_counted s h =
      let (within, rest) = lacks-Clear _ "cacheTokens:invalid" _ refl h in
      let (written, last) = lacks-Clear _ "cacheWriteTokens:invalid" _ refl rest in
      let (cached, before) = lacks-Clear _ "cachedInputTokens:invalid" s refl last in
      (
        valid (cached_tokens p usage) (or-false _ _ cached).0,
        valid (written_tokens p usage) written,
        within,
      )

  rates_checked :
      (t : Tokens) (r : Rates) (s : Draft D)
      → Clear (rate_checks p t r s)
      → (is_some r.input_rate ≡ true)
        × (is_some r.output_rate ≡ true)
        × ((ltb_ℤ (pos 0) t.cached && not (is_some r.cached_rate)) ≡ false)
        × ((ltb_ℤ (pos 0) t.written && not (is_some r.written_rate)) ≡ false)
        × Clear s
  unfolding rate_checks
  rates_checked t r s h =
      let (written, more) = lacks-Clear _ "cacheWriteRate" _ refl h in
      let (cached, rest) = lacks-Clear _ "cachedInputRate" _ refl more in
      let (output, last) = lacks-Clear _ "outputRate" _ refl rest in
      let (input, before) = lacks-Clear _ "inputRate" s refl last in
      (true_of_not _ input, true_of_not _ output, cached, written, before)

  count_checks-Clear :
      (s : Draft D) → Clear (rated_draft p price usage s) → Clear (count_checks p usage s)
  count_checks-Clear s h =
      clear_of _ _ (rated_draft-keeps Listed add_missing-Listed p price usage s) h

  cache_sound :
      (s : Draft D)
      → Clear (rated_draft p price usage s)
      → let t = tokens_of p usage in
        (is_negative t.cached ≡ false)
        × (is_negative t.written ≡ false)
        × (ltb_ℤ t.input (t.cached +ℤ t.written) ≡ false)
  unfolding rated_draft
  cache_sound s h = cache_counted _ h

  -- Where the token branch leaves nothing missing: the input and the output have a rate, as have
  -- the cached and the written tokens if there are any; no count of them is negative; and the
  -- cached and the written tokens are together no more than the input.
  pub token_price-IsAccepted :
      (s : Draft D)
      → is_nil (token_price p price usage s).missing ≡ true
      → IsAccepted (tokens_of p usage) (rates_of p (rated_draft p price usage s).rates)
  token_price-IsAccepted s h =
      let t = tokens_of p usage in
      let rated = rated_draft p price usage s in
      let r = rates_of p rated.rates in
      let checked = clear_of _ _ (token_price-keeps Listed add_missing-Listed p price usage s) h in
      let (input, output, cached_rate, written_rate, clear) = rates_checked t r rated checked in
      let (cached, written, within) = cache_sound s clear in
      record {
        input_rate = input;
        output_rate = output;
        cached_rate = cached_rate;
        written_rate = written_rate;
        output = counted s (count_checks-Clear s clear);
        cached = cached;
        written = written;
        within = within;
      }
