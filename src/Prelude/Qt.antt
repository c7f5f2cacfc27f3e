-- ===== src/Prelude/Qt.antt =====
-- What the plugin calls and does not implement. QDateTime is an instant in milliseconds, or invalid;
-- text functions of QString are a record of operations.
use Prim.Native.String.{String}
use Prim.Native.Nat.{ℕ, ◌-◌, ◌/◌, ◌+◌}
use mathlib.Core.Path.{◌≡◌}
use mathlib.Core.Bool.{Bool, true, false, ◌||◌}
use mathlib.Core.List.{List, [], ◌∷◌}
use package.text.Mathlib.Text.{◌==◌ as str_eq}
use mathlib.Core.Option.{Option, none, some}
use plasma_ai_usage_monitor.Prelude.Int.{ℤ, pos, sub_ℕ}
use plasma_ai_usage_monitor.Prelude.Tests.{ltb, leb, if◌then◌else◌}

-- Milliseconds since the Unix epoch; `none` is an invalid QDateTime. Earlier instants are left out.
abbrev pub DateTime : Type 0
DateTime = Option ℕ

-- QDateTime::operator<. An invalid value is before every valid one, and equal to itself.
abbrev pub earlier : DateTime → DateTime → Bool
earlier a none = false
earlier none (some b) = true
earlier (some a) (some b) = ltb a b

-- QDateTime::msecsTo between valid instants.
abbrev pub msecs_to : ℕ → ℕ → ℤ
msecs_to a b = sub_ℕ b a

-- QDateTime::secsTo between valid instants: the quotient is cut towards zero.
abbrev pub secs_to : ℕ → ℕ → ℤ
secs_to a b = if leb a b then pos ((b - a) / 1000) else sub_ℕ 0 ((a - b) / 1000)

-- QDateTime::addMSecs with a delay that is not negative.
abbrev pub add_msecs : DateTime → ℕ → DateTime
add_msecs none d = none
add_msecs (some a) d = some (a + d)

-- QVariant, over the type of the machine's doubles. `null` is the invalid value.
pub data Variant (D : Type 0) : Type 0 where
  null : Variant D
  text : String → Variant D
  number : D → Variant D
  integer : ℤ → Variant D
  boolean : Bool → Variant D
  date_time : DateTime → Variant D

-- The calls of QString, QVariant and <cmath> on texts, doubles D and values. `to_double` is `none`
-- where its flag is false.
pub record Qt (D : Type 0) : Type 0 where
  pub trimmed : String → String
  pub to_upper : String → String
  pub to_lower : String → String
  pub equal_fold : String → String → Bool
  pub nought : D
  pub hundred : D
  pub less : D → D → Bool
  pub is_finite : D → Bool
  pub to_string : Variant D → String
  pub to_double : Variant D → Option D
  pub to_date_time : Variant D → DateTime
  pub to_int : Variant D → ℤ
  pub to_long_long : Variant D → ℤ
  pub to_bool : Variant D → Bool

-- What Qt documents of them: reading a value as the type that it holds gives it back.
pub record IsQt {D : Type 0} (q : Qt D) : Type 0 where
  pub to_string-text : (s : String) → q.to_string (text s) ≡ s
  pub to_double-number : (d : D) → q.to_double (number d) ≡ some d
  pub to_date_time-date_time : (t : DateTime) → q.to_date_time (date_time t) ≡ t
  pub to_date_time-null : q.to_date_time null ≡ none
  pub to_int-integer : (z : ℤ) → q.to_int (integer z) ≡ z
  pub to_long_long-integer : (z : ℤ) → q.to_long_long (integer z) ≡ z
  pub to_bool-boolean : (b : Bool) → q.to_bool (boolean b) ≡ b

-- QVariantMap: the first entry of a key is the one that counts.
abbrev pub VariantMap : Type 0 → Type 0
VariantMap D = List (String × Variant D)

module _ {D : Type 0} where
  unfoldable pub value : VariantMap D → String → Variant D
  value [] key = null
  value ((k, v) ∷ m) key = if str_eq k key then v else value m key

  unfoldable pub contains : VariantMap D → String → Bool
  contains [] key = false
  contains ((k, v) ∷ m) key = str_eq k key || contains m key

  abbrev pub is_null : Variant D → Bool
  is_null null = true
  is_null _ = false

  -- QVariantMap::insert.
  unfoldable pub insert : String → Variant D → VariantMap D → VariantMap D
  insert key v [] = (key, v) ∷ []
  insert key v ((k, w) ∷ m) = if str_eq k key then (k, v) ∷ m else (k, w) ∷ insert key v m
