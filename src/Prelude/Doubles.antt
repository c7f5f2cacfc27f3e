-- ===== src/Prelude/Doubles.antt =====
-- The machine's doubles as the queries use them, beside the comparisons of `Qt`.
use Prim.Native.Nat.{ℕ, ◌<◌, ◌≤◌}
use mathlib.Core.Path.{◌≡◌}
use mathlib.Core.Bool.{Bool, true, false}
use plasma_ai_usage_monitor.Prelude.Int.{ℤ, pos}
use plasma_ai_usage_monitor.Prelude.Qt.{Qt}

-- static_cast<double>(qint64), the operators +, -, * and /, std::abs, >=,
-- std::pow(10.0, n), std::llround, the cast
-- to qint64, std::floor with it, and the constant 1e-9.
pub record Doubles (D : Type 0) : Type 0 where
  pub of_long : ℤ → D
  pub plus : D → D → D
  pub minus : D → D → D
  pub absolute : D → D
  pub times : D → D → D
  pub over : D → D → D
  pub at_least : D → D → Bool
  pub power_of_ten : ℕ → D
  pub llround : D → ℤ
  pub truncate : D → ℤ
  pub floor : D → ℤ
  pub epsilon : D

module _ {D : Type 0} (q : Qt D) (m : Doubles D) where
  -- a / b * 100.0
  abbrev pub percent : ℤ → ℤ → D
  percent a b = m.times (m.over (m.of_long a) (m.of_long b)) q.hundred

  -- What the queries rely on: a quotient of a number that is not negative by a positive one is finite
  -- and not negative, and a part of a whole is at most a hundred per cent of it.
  pub record IsDoubles : Type 0 where
    pub major-finite :
        (a n : ℕ) → q.is_finite (m.over (m.of_long (pos a)) (m.power_of_ten n)) ≡ true
    pub major-not_less :
        (a n : ℕ) → q.less (m.over (m.of_long (pos a)) (m.power_of_ten n)) q.nought ≡ false
    pub percent-finite : (a b : ℕ) → 0 < b → q.is_finite (percent (pos a) (pos b)) ≡ true
    pub percent-not_less : (a b : ℕ) → 0 < b → q.less (percent (pos a) (pos b)) q.nought ≡ false
    pub percent-le : (a b : ℕ) → 0 < b → a ≤ b → q.less q.hundred (percent (pos a) (pos b)) ≡ false
    pub nought-finite : q.is_finite q.nought ≡ true
    pub nought-not_less : q.less q.nought q.nought ≡ false
    pub nought-le : q.less q.hundred q.nought ≡ false
