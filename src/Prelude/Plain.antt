-- ===== src/Prelude/Plain.antt =====
-- A plain reading of the Qt interface, with whole numbers for doubles, for the tests and the laws of
-- `IsQt`.
use Prim.Native.Nat.{ℕ, ◌+◌, ◌-◌, ◌*◌, ◌/◌, ◌^◌}
use Prim.Native.String.{String}
use mathlib.Core.Path.{refl}
use mathlib.Core.Bool.{Bool, true, false}
use mathlib.Core.Option.{Option, none, some}
use package.text.Mathlib.Text.{◌==◌ as str_eq}
use plasma_ai_usage_monitor.Prelude.Int.{ℤ, pos, pos_part}
use plasma_ai_usage_monitor.Prelude.Tests.{ltb, leb}
use plasma_ai_usage_monitor.Prelude.Doubles.{Doubles}
use plasma_ai_usage_monitor.Prelude.Qt.{
  DateTime, Variant, text, number, integer, boolean, date_time, Qt, IsQt,
}

abbrev text_of : Variant ℕ → String
text_of (text s) = s
text_of _ = ""

abbrev number_of : Variant ℕ → Option ℕ
number_of (number d) = some d
number_of _ = none

abbrev instant_of : Variant ℕ → DateTime
instant_of (date_time t) = t
instant_of _ = none

abbrev integer_of : Variant ℕ → ℤ
integer_of (integer z) = z
integer_of _ = pos 0

abbrev boolean_of : Variant ℕ → Bool
boolean_of (boolean b) = b
boolean_of _ = false

abbrev pub plain : Qt ℕ
plain = record {
  trimmed = λ s. s;
  to_upper = λ s. s;
  to_lower = λ s. s;
  equal_fold = str_eq;
  nought = 0;
  hundred = 100;
  less = ltb;
  is_finite = λ d. true;
  to_string = text_of;
  to_double = number_of;
  to_date_time = instant_of;
  to_int = integer_of;
  to_long_long = integer_of;
  to_bool = boolean_of;
}

pub plain-IsQt : IsQt plain
plain-IsQt = record {
  to_string-text = λ s. refl;
  to_double-number = λ d. refl;
  to_date_time-date_time = λ t. refl;
  to_date_time-null = refl;
  to_int-integer = λ z. refl;
  to_long_long-integer = λ z. refl;
  to_bool-boolean = λ b. refl;
}

-- Whole numbers for doubles.
abbrev pub whole : Doubles ℕ
whole = record {
  of_long = pos_part;
  plus = λ a b. a + b;
  minus = λ a b. a - b;
  absolute = λ a. a;
  times = λ a b. a * b;
  over = λ a b. a / b;
  at_least = λ a b. leb b a;
  power_of_ten = λ n. 10 ^ n;
  llround = pos;
  truncate = pos;
  floor = pos;
  epsilon = 0;
}
