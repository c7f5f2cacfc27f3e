-- ===== src/CostEngine/Amounts.antt =====
-- The rows of plugin/costengine.cpp and the sum that the engine reads back from their texts.
use mathlib.Core.Path.{ap₂}
use native.Mathlib.Nat.{zero-mul}
use plasma_ai_usage_monitor.Prelude.{
  ◌/◌, ◌≡◌, refl, sym, ◌∙◌, ap, Bool, true, false, not, ◌&&◌, none, some, List, [], ◌∷◌, ◌++◌,
  String, arith, is_some, if◌then◌else◌, leb, All, Bool-cases, inl, inr,
}
use plasma_ai_usage_monitor.Prelude.Int.{
  ℤ, pos, negsuc, pos_part, neg_part, ◌+ℤ◌, ◌*ℤ◌, ltb_ℤ, leb_ℤ, eq_of_parts, +ℤ_parts,
}
use plasma_ai_usage_monitor.CostEngine.Values.{Value, Fields, Platform, IsPlatform, text}
use plasma_ai_usage_monitor.CostEngine.Decimal.{magnitude, is_negative, round_divide}
use plasma_ai_usage_monitor.CostEngine.Decimal.Digits.{max_long_long}
use plasma_ai_usage_monitor.CostEngine.Decimal.Printing.{parse_scaled-scaled_to_text}
use plasma_ai_usage_monitor.CostEngine.Decimal.RoundTrip.{scales_IsScale}
use plasma_ai_usage_monitor.CostEngine.Pricing.{
  Draft, Component, or_zero, priced, charge, component, rate_value, rate_scale,
}
use plasma_ai_usage_monitor.CostEngine.Tokens.{Tokens}
use plasma_ai_usage_monitor.CostEngine.Charges.{Rates, billable_input, token_row, token_charges}
use plasma_ai_usage_monitor.CostEngine.Estimate.{subtotal_from}
use plasma_ai_usage_monitor.CostEngine.Accepted.{IsAccepted}

-- What the counts cost at their rates.
unfoldable pub token_cost : Tokens → Rates → ℤ
token_cost t r =
    priced (billable_input t) (or_zero r.input_rate)
    +ℤ priced t.cached (or_zero r.cached_rate)
    +ℤ priced t.output (or_zero r.output_rate)
    +ℤ priced t.written (or_zero r.written_rate)

zero-*ℤ : (z : ℤ) → pos 0 *ℤ z ≡ pos 0
unfolding ◌*ℤ◌
zero-*ℤ z = rw (zero-mul (pos_part z), zero-mul (neg_part z)) (ground arith)

priced-zero : (rate : ℤ) → priced (pos 0) rate ≡ pos 0
unfolding priced round_divide
priced-zero rate = rw (zero-*ℤ rate) (ground arith)

pub +ℤ-zero : (z : ℤ) → z +ℤ pos 0 ≡ z
+ℤ-zero z = eq_of_parts (z +ℤ pos 0) z (omega (arith, +ℤ_parts z (pos 0)))

pub +ℤ_assoc : (a b c : ℤ) → a +ℤ b +ℤ c ≡ a +ℤ (b +ℤ c)
+ℤ_assoc a b c =
    eq_of_parts (a +ℤ b +ℤ c) (a +ℤ (b +ℤ c))
      (omega (arith, +ℤ_parts a b, +ℤ_parts (a +ℤ b) c, +ℤ_parts b c, +ℤ_parts a (b +ℤ c)))

kept_if :
    (b : Bool) (a : ℤ)
    → is_some (if b then some a else none) ≡ true
    → or_zero (if b then some a else none) ≡ a
kept_if true a h = refl
kept_if false a h = cc

nothing : (z : ℤ) → is_negative z ≡ false → ltb_ℤ (pos 0) z ≡ false → z ≡ pos 0
nothing (pos n) h g = ap pos (ground arith)
nothing (negsuc n) h g = cc

-- A count of nothing costs nothing, so that its row may be left out.
priced_if :
    (given : Bool) (count rate : ℤ)
    → is_negative count ≡ false
    → (ltb_ℤ (pos 0) count && not given) ≡ false
    → (if given && ltb_ℤ (pos 0) count then priced count rate else pos 0) ≡ priced count rate
priced_if given count rate h g = elim (Bool-cases (ltb_ℤ (pos 0) count)) [
  | inl more ↦ ground arith
  | inr none_left ↦ ground (arith, nothing count h none_left, priced-zero rate)
]

input_is_due :
    (t : Tokens) (r : Rates)
    → IsAccepted t r
    → (is_some r.input_rate
        && leb_ℤ (t.cached +ℤ t.written) t.input
        && leb_ℤ (pos 0) t.cached
        && leb_ℤ (pos 0) t.written)
      ≡ true
input_is_due t r h = ground arith

output_is_due :
    (t : Tokens) (r : Rates)
    → IsAccepted t r
    → (is_some r.output_rate && leb_ℤ (pos 0) t.output) ≡ true
output_is_due t r h = ground arith

sum_of_rows : (x a b c d : ℤ) → x +ℤ a +ℤ b +ℤ c +ℤ d ≡ x +ℤ (a +ℤ b +ℤ c +ℤ d)
sum_of_rows x a b c d = rw (+ℤ_assoc x a b, +ℤ_assoc x (a +ℤ b) c, +ℤ_assoc x (a +ℤ b +ℤ c) d) refl

if_true : (b : Bool) (a : ℤ) → b ≡ true → (if b then a else pos 0) ≡ a
if_true true a h = refl
if_true false a h = cc

module _ {D : Type 0} (p : Platform D) where
  -- The texts of all the rows are read back.
  abbrev pub AllRead : List (Component D) → Type 0
  AllRead rows = All (λ row. is_some (rate_value p (text row.amount_text)) ≡ true) rows

module _ {D : Type 0} (p : Platform D) (laws : IsPlatform p) where
  -- The amount that is read back from the text of a row is the row's own if its whole part fits in
  -- 63 bits; otherwise nothing is read.
  pub rate_value-component :
      (kind : String) (quantity amount : ℤ) (rate : Value D) (unit : String)
      → rate_value p (text (component p kind quantity amount rate unit).amount_text)
        ≡ (if leb (magnitude amount / rate_scale) max_long_long then some amount else none)
  unfolding component
  rate_value-component kind quantity amount rate unit =
      parse_scaled-scaled_to_text p laws rate_scale scales_IsScale.2 amount

  subtotal-append :
      (total : ℤ) (rows : List (Component D)) (row : Component D)
      → subtotal_from p total (rows ++ (row ∷ []))
        ≡ subtotal_from p total rows +ℤ or_zero (rate_value p (text row.amount_text))
  unfolding subtotal_from
  subtotal-append total [] row = refl
  subtotal-append total (r ∷ rows) row =
      subtotal-append (total +ℤ or_zero (rate_value p (text r.amount_text))) rows row

  All-last :
      (rows : List (Component D)) (row : Component D)
      → AllRead p (rows ++ (row ∷ []))
      → AllRead p rows × (is_some (rate_value p (text row.amount_text)) ≡ true)
  All-last [] row (h, hs) = (tt, h)
  All-last (r ∷ rows) row (h, hs) = let (front, last) = All-last rows row hs in ((h, front), last)

  -- What a row adds to the sum, once it is read back.
  pub charge-adds :
      (due : Bool) (kind : String) (quantity amount : ℤ) (rate : Value D) (unit : String)
      (s : Draft D)
      → let after = charge due (component p kind quantity amount rate unit) s in
        AllRead p after.components
        → AllRead p s.components
          × (subtotal_from p (pos 0) after.components
              ≡ subtotal_from p (pos 0) s.components +ℤ (if due then amount else pos 0))
  unfolding charge
  charge-adds true kind quantity amount rate unit s h =
      let row = component p kind quantity amount rate unit in
      let (front, last) = All-last s.components row h in
      let value : or_zero (rate_value p (text row.amount_text)) ≡ amount =
        rw (rate_value-component kind quantity amount rate unit) (
          kept_if (leb (magnitude amount / rate_scale) max_long_long) amount
            (rw (rate_value-component kind quantity amount rate unit) at last)) in
      (
        front,
        subtotal-append (pos 0) s.components row
            ∙ ap (◌+ℤ◌ (subtotal_from p (pos 0) s.components)) value,
      )
  charge-adds false kind quantity amount rate unit s h =
      (h, sym (+ℤ-zero (subtotal_from p (pos 0) s.components)))

  -- The rows of the counts add up to their cost.
  pub token_charges-adds :
      (t : Tokens) (r : Rates) (rates : Fields D) (s : Draft D)
      → IsAccepted t r
      → AllRead p (token_charges p t r rates s).components
      → AllRead p s.components
        × (subtotal_from p (pos 0) (token_charges p t r rates s).components
            ≡ subtotal_from p (pos 0) s.components +ℤ token_cost t r)
  unfolding token_charges token_row token_cost
  token_charges-adds t r rates s ok h =
      let (h3, e4) = charge-adds _ "cacheWrite" _ _ _ _ _ h in
      let (h2, e3) = charge-adds _ "output" _ _ _ _ _ h3 in
      let (h1, e2) = charge-adds _ "cacheRead" _ _ _ _ _ h2 in
      let (h0, e1) = charge-adds _ "input" _ _ _ _ s h1 in
      let x = subtotal_from p (pos 0) s.components in
      let a = e1 ∙ ap (◌+ℤ◌ x) (if_true _ _ (input_is_due t r ok)) in
      let b =
        e2 ∙ ap₂ ◌+ℤ◌ a (priced_if _ t.cached (or_zero r.cached_rate) ok.cached ok.cached_rate) in
      let c = e3 ∙ ap₂ ◌+ℤ◌ b (if_true _ _ (output_is_due t r ok)) in
      let d =
        e4
        ∙ ap₂ ◌+ℤ◌ c (priced_if _ t.written (or_zero r.written_rate) ok.written ok.written_rate) in
      (h0, d ∙ sum_of_rows x _ _ _ _)
