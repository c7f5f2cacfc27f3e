-- ===== src/CostEngine/Decimal/Rounding.antt =====
-- `roundDivide` of plugin/costengine.cpp: how far its result is from the quotient, and its size.
use native.Mathlib.Nat.{div-add-mod, mod-lt, zero-mul}
use plasma_ai_usage_monitor.Prelude.{ℕ, ◌+◌, ◌-◌, ◌*◌, ◌/◌, ◌≤◌, ◌<◌, zero, suc, ◌≡◌, arith}
use plasma_ai_usage_monitor.Prelude.Int.{ℤ, pos, negsuc, ◌-ℤ◌, ◌*ℤ◌, pos-*}
use plasma_ai_usage_monitor.CostEngine.Decimal.{round_divide, magnitude, negate}

nearest_ℕ :
    (a d : ℕ)
    → 0 < d
    → let q = (a + d / 2) / d in (2 * (q * d) ≤ 2 * a + d) × (2 * a ≤ 2 * (q * d) + d)
nearest_ℕ a d h =
    let split = div-add-mod (a + d / 2) d in let less = mod-lt (a + d / 2) h in grind arith

negate-* : (q d : ℕ) → negate (pos q) *ℤ pos d ≡ negate (pos (q * d))
unfolding ◌*ℤ◌
negate-* zero d = rw (zero-mul d) (ground arith)
negate-* (suc q) d = ground (arith, zero-mul d)

distance : (a b : ℕ) → magnitude (pos a -ℤ pos b) ≡ (a - b) + (b - a)
unfolding ◌-ℤ◌
distance a b = ground arith

distance_negative : (a b : ℕ) → magnitude (negsuc a -ℤ negate (pos b)) ≡ (suc a - b) + (b - suc a)
unfolding ◌-ℤ◌
distance_negative a b = ground arith

module _ (d : ℕ) (h : 0 < d) where
  abbrev pub nearest : ℕ → ℕ
  nearest a = (a + d / 2) / d

  pub round_divide-pos : (a : ℕ) → round_divide (pos a) (pos d) ≡ pos (nearest a)
  unfolding round_divide
  round_divide-pos a = ground arith

  pub round_divide-negsuc :
      (a : ℕ) → round_divide (negsuc a) (pos d) ≡ negate (pos (nearest (suc a)))
  unfolding round_divide
  round_divide-negsuc a = ground arith

  -- The quotient times the divisor is at most half a divisor from the dividend.
  pub round_divide_nearest : (n : ℤ) → 2 * magnitude (n -ℤ round_divide n (pos d) *ℤ pos d) ≤ d
  round_divide_nearest (pos a) =
      let (lo, hi) = nearest_ℕ a d h in
      rw (round_divide-pos a, pos-* (nearest a) d, distance a (nearest a * d)) (omega arith)
  round_divide_nearest (negsuc a) =
      let (lo, hi) = nearest_ℕ (suc a) d h in
      rw
        (
          round_divide-negsuc a,
          negate-* (nearest (suc a)) d,
          distance_negative a (nearest (suc a) * d),
        )
        (omega arith)
