-- ===== src/CostEngine/Allowance.antt =====
-- Free allowances of plugin/costengine.cpp, and the size of the products that it computes.
use native.Mathlib.Nat.{mul-le-mul, zero-mul}
use plasma_ai_usage_monitor.Prelude.{
  ℕ, zero, suc, ◌+◌, ◌-◌, ap, ◌*◌, ◌/◌, ◌^◌, ◌≡◌, ◌≤◌, ◌<◌, some, arith,
}
use plasma_ai_usage_monitor.Prelude.Int.{ℤ, pos, negsuc, pos_part, ◌+ℤ◌, ◌-ℤ◌, ◌*ℤ◌, max_ℤ, pos-+}
use plasma_ai_usage_monitor.CostEngine.Values.{Value, Platform}
use plasma_ai_usage_monitor.CostEngine.Decimal.{magnitude, parse_scaled}
use plasma_ai_usage_monitor.CostEngine.Decimal.RoundTrip.{scales_IsScale}
use plasma_ai_usage_monitor.CostEngine.Decimal.Bounds.{parse_scaled-le}
use plasma_ai_usage_monitor.CostEngine.Pricing.{token_scale, rate_scale}
use plasma_ai_usage_monitor.CostEngine.Charges.{billable_of}

max-parts : (z : ℤ) → max_ℤ (pos 0) z ≡ pos (pos_part z)
max-parts (pos zero) = ground arith
max-parts (pos (suc n)) = ground arith
max-parts (negsuc n) = ground arith

sub-part : (r x : ℕ) → pos_part (pos r -ℤ pos x) ≡ r - x
unfolding ◌-ℤ◌
sub-part r x = ground arith

-- What is billed is the part of the request above what is left of the allowance.
billable-parts :
    (r : ℕ) (free consumed : ℤ)
    → billable_of (pos r) free consumed ≡ pos (r - pos_part (free -ℤ consumed))
unfolding billable_of
billable-parts r free consumed =
    rw (max-parts (free -ℤ consumed), max-parts (pos r -ℤ pos (pos_part (free -ℤ consumed))))
      (ap pos (sub-part r (pos_part (free -ℤ consumed))))

left-part :
    (free consumed : ℤ) (n : ℕ)
    → pos_part (free -ℤ (consumed +ℤ pos n)) ≡ pos_part (free -ℤ consumed) - n
unfolding ◌+ℤ◌ ◌-ℤ◌
left-part (pos a) (pos c) n = ground arith
left-part (pos a) (negsuc c) n = ground arith
left-part (negsuc a) (pos c) n = ground arith
left-part (negsuc a) (negsuc c) n = ground arith

-- A use of a free allowance that is charged in two parts, the first being consumed when the second
-- is charged, is billed as the two at once.
pub billable_of-split :
    (first second : ℕ) (free consumed : ℤ)
    → billable_of (pos first) free consumed +ℤ billable_of (pos second) free (consumed +ℤ pos first)
      ≡ billable_of (pos first +ℤ pos second) free consumed
billable_of-split first second free consumed =
    rw
      (
        billable-parts first free consumed,
        billable-parts second free (consumed +ℤ pos first),
        pos-+ first second,
        billable-parts (first + second) free consumed,
        left-part free consumed first,
        pos-+ (first - pos_part (free -ℤ consumed))
            (second - (pos_part (free -ℤ consumed) - first)),
      )
      (ap pos (omega arith))

magnitude-* : (a b : ℤ) → magnitude (a *ℤ b) ≤ magnitude a * magnitude b
unfolding ◌*ℤ◌
magnitude-* (pos a) (pos b) = ground (arith, zero-mul 0)
magnitude-* (pos a) (negsuc b) = ground (arith, zero-mul 0)
magnitude-* (negsuc a) (pos b) = ground (arith, zero-mul 0)
magnitude-* (negsuc a) (negsuc b) = ground (arith, zero-mul 0)

-- The product of a count of tokens, as it is read, and a rate of at most 10 ^ 10 for a million, with
-- what is added to it to round, is inside a signed integer of 128 bits.
pub products_fit :
    {D : Type 0} (p : Platform D) (count : Value D) (q rate : ℤ)
    → parse_scaled p count 1 ≡ some q
    → magnitude rate ≤ 10 ^ 10 * rate_scale
    → magnitude (q *ℤ rate) + token_scale / 2 < 2 ^ 127
products_fit p count q rate read small =
    let le = parse_scaled-le 1 scales_IsScale.0 p count read in
    omega (arith, magnitude-* q rate, mul-le-mul le small)
