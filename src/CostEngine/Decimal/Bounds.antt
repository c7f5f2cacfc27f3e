-- ===== src/CostEngine/Decimal/Bounds.antt =====
-- How large a number `parseScaled` can return.
use Prim.Native.Char.{Char, code}
use mathlib.Core.Option.{some-injective}
use native.Mathlib.Nat.{pow-suc, mul_comm, mul_assoc, mul-le-mul_right}
use plasma_ai_usage_monitor.Prelude.{
  ℕ, zero, suc, ◌+◌, ◌-◌, ◌*◌, ◌^◌, ◌≡◌, ◌≤◌, ◌<◌, Bool, true, false, not, ◌&&◌, ◌||◌, Option, none,
  some, List, [], ◌∷◌, arith, bit, if◌then◌else◌, length, length-append, Bool-cases, inl, inr,
  >>=-some, String, subst, sym,
}
use plasma_ai_usage_monitor.Prelude.Int.{ℤ, pos}
use plasma_ai_usage_monitor.CostEngine.Values.{Value, Platform, number}
use plasma_ai_usage_monitor.CostEngine.Decimal.{
  magnitude, negate, scale_digits, is_negative_text, without_sign, split_dot, two_parts, padded,
  fraction_value, rounds_up, read_parts, scaled_parts, signed_scaled, parse_text, parse_scaled,
  parse_converted, trim_decimal,
}
use plasma_ai_usage_monitor.CostEngine.Decimal.Digits.{
  take, replicate, is_nil, is_digit, read, is_number, to_long_long, max_long_long, chars,
}
use plasma_ai_usage_monitor.CostEngine.Decimal.Pieces.{length-replicate}
use plasma_ai_usage_monitor.CostEngine.Decimal.RoundTrip.{IsScale}

-- One more digit multiplies what a row can stand for by ten.
wider : (a r P : ℕ) → r ≤ suc a * 10 * P → r ≤ suc a * (P * 10)
wider a r P h = rw (mul_comm P 10, ← mul_assoc (suc a) 10 P) h

read-le : (a : ℕ) (cs : List Char) → suc (read a cs) ≤ suc a * 10 ^ length cs
unfolding read
read-le a [] = omega arith
read-le a (c ∷ cs) = rw (pow-suc 10 (length cs)) (
    let P = 10 ^ length cs in
    let d = code c - b'0' in
    elim (Bool-cases (is_digit c)) [
      | inl digit ↦
          let small : suc (a * 10 + d) ≤ suc a * 10 = ground arith in
          wider a (suc (read a (c ∷ cs))) P
            (rw digit (omega (arith, read-le (a * 10 + d) cs, mul-le-mul_right P small)))
      | inr other ↦
          let small : suc a ≤ suc a * 10 = omega arith in
          wider a (suc (read a (c ∷ cs))) P
            (rw other (omega (arith, read-le a cs, mul-le-mul_right P small)))
    ])

length-take-le : (n : ℕ) (cs : List Char) → length (take n cs) ≤ n
unfolding take
length-take-le zero cs = omega arith
length-take-le (suc n) [] = omega arith
length-take-le (suc n) (c ∷ cs) = omega (arith, length-take-le n cs)

length-padded : (k : ℕ) (cs : List Char) → length (padded k cs) ≡ k
unfolding padded
length-padded k cs =
    let kept = take k cs in
    omega (
      arith,
      length-append kept (replicate (k - length kept) "0"),
      length-replicate {A = Char} (k - length kept) "0",
      length-take-le k cs,
    )

to_long_long-le : (cs : List Char) {n : ℕ} → to_long_long cs ≡ some n → n ≤ max_long_long
unfolding to_long_long
to_long_long-le cs h = ground arith

fraction_value-lt : (cs : List Char) {n : ℕ} → fraction_value cs ≡ some n → n < 10 ^ length cs
unfolding to_long_long is_nil
fraction_value-lt [] h = ground arith
fraction_value-lt (c ∷ cs) h = ground (arith, read-le 0 (c ∷ cs))

if-none {ℓ} :
    {A : Type ℓ} (b : Bool) (o : Option A) {a : A} → (if b then none else o) ≡ some a → o ≡ some a
if-none true o h = cc
if-none false o h = h

if-else-none {ℓ} :
    {A : Type ℓ} (b : Bool) (o : Option A) {a : A} → (if b then o else none) ≡ some a → o ≡ some a
if-else-none true o h = h
if-else-none false o h = cc

module _ (scale : ℕ) (hs : IsScale scale) where
  sum-le :
      (whole fraction : ℕ) (up : Bool)
      → whole ≤ max_long_long
      → fraction < scale
      → whole * scale + fraction + bit up ≤ 2 ^ 63 * scale
  sum-le whole fraction up hw hf =
      let less : whole * scale ≤ max_long_long * scale = mul-le-mul_right scale hw in grind arith

  scaled_parts-le :
      (whole fraction : List Char) {n : ℕ}
      → scaled_parts scale whole fraction ≡ some n
      → n ≤ 2 ^ 63 * scale
  unfolding scaled_parts
  scaled_parts-le whole fraction h =
      let k = scale_digits scale in
      let kept = take (k + 1) fraction in
      let rows = padded k kept in
      let (a, read_whole, next) = >>=-some (to_long_long whole) _ (
        if-none (not (is_number whole) || (not (is_nil fraction) && not (is_number fraction)))
          (read_parts scale whole fraction) h) in
      let (b, read_rows, last) = >>=-some (fraction_value rows) _ next in
      let small : b < scale =
        subst (λ m. b < m) (sym hs.0)
          (subst (λ j. b < 10 ^ j) (length-padded k kept) (fraction_value-lt rows read_rows)) in
      subst (λ r. r ≤ 2 ^ 63 * scale) (some-injective _ _ last)
        (sum-le a b (rounds_up k kept) (to_long_long-le whole read_whole) small)

  magnitude-signed :
      (negative : Bool) (n : ℕ) → magnitude (if negative then negate (pos n) else pos n) ≡ n
  magnitude-signed true n = ground arith
  magnitude-signed false n = omega arith

  signed_scaled-le :
      (cs : List Char) {z : ℤ} → signed_scaled scale cs ≡ some z → magnitude z ≤ 2 ^ 63 * scale
  unfolding signed_scaled
  signed_scaled-le cs h =
      let ((whole, fraction), split, next) =
        >>=-some (two_parts (split_dot (without_sign cs))) _ h in
      let (n, parts, last) = >>=-some (scaled_parts scale whole fraction) _ next in
      subst (λ r. magnitude r ≤ 2 ^ 63 * scale) (some-injective _ _ last)
        (rw (magnitude-signed (is_negative_text cs) n) (scaled_parts-le whole fraction parts))

  module _ {D : Type 0} (p : Platform D) where
    parse_text-le :
        (s : String) {z : ℤ} → parse_text p s scale ≡ some z → magnitude z ≤ 2 ^ 63 * scale
    unfolding parse_text
    parse_text-le s h =
        let cs = chars (trim_decimal p s) in
        signed_scaled-le cs (if-none (is_nil cs) (signed_scaled scale cs) h)

    parse_converted-le :
        (o : Option String) {z : ℤ}
        → parse_converted p o scale ≡ some z
        → magnitude z ≤ 2 ^ 63 * scale
    parse_converted-le none h = cc
    parse_converted-le (some s) h = parse_text-le s h

    -- What is read of any value at a scale of a power of ten is at most 2 ^ 63 units of it, of
    -- either sign.
    pub parse_scaled-le :
        (v : Value D) {z : ℤ} → parse_scaled p v scale ≡ some z → magnitude z ≤ 2 ^ 63 * scale
    unfolding parse_scaled
    parse_scaled-le (number d) h = parse_text-le (p.fixed d) (if-else-none (p.is_finite d) _ h)
    parse_scaled-le v h = parse_converted-le (p.as_text v) h
