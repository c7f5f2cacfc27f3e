-- ===== src/CostEngine/Values.antt =====
-- The values that plugin/costengine.cpp reads: a QVariant that may hold a QVariantMap or a
-- QVariantList, and the calls of Qt that the engine makes on texts, doubles and instants.
use Prim.Native.Char.{Char, code}
use package.text.Mathlib.TextBridge.{of_list}
use plasma_ai_usage_monitor.Prelude.{
  All, ◌≤◌, ℕ, ◌≡◌, Bool, true, false, Option, none, some, List, [], ◌∷◌, String, if◌then◌else◌,
  str_eq, not, ◌&&◌, ◌||◌,
}
use plasma_ai_usage_monitor.Prelude.Int.{ℤ}
use plasma_ai_usage_monitor.Prelude.Qt.{DateTime}

-- `null` is an invalid QVariant. The map and the list of values are written out.
mutual
  pub data Value (D : Type 0) : Type 0 where
    null : Value D
    text : String → Value D
    number : D → Value D
    integer : ℤ → Value D
    boolean : Bool → Value D
    list : Values D → Value D
    map : Fields D → Value D

  pub data Values (D : Type 0) : Type 0 where
    no_values : Values D
    value_then : Value D → Values D → Values D

  pub data Fields (D : Type 0) : Type 0 where
    no_fields : Fields D
    field : String → Value D → Fields D → Fields D

-- QString::trimmed, toUpper, toLower, toDouble and number(x, 'f', 12), std::isfinite, the quotient of
-- two numbers as doubles, canConvert<QString> with toString, toBool, and fromString with toUTC.
pub record Platform (D : Type 0) : Type 0 where
  pub trimmed : String → String
  pub to_upper : String → String
  pub to_lower : String → String
  pub text_to_double : String → Option D
  pub fixed : D → String
  pub is_finite : D → Bool
  pub quotient : ℤ → ℕ → D
  pub as_text : Value D → Option String
  pub as_bool : Value D → Bool
  pub iso_with_ms : String → DateTime
  pub iso : String → DateTime

-- A character that is neither a space nor a control code of ASCII.
abbrev pub IsVisible : Char → Type 0
IsVisible c = (b'!' ≤ code c) × (code c ≤ b'~')

-- What Qt documents and the engine relies on: a text is its own conversion, and trimming takes off
-- nothing but space.
pub record IsPlatform {D : Type 0} (p : Platform D) : Type 0 where
  pub as_text-text : (s : String) → p.as_text (text s) ≡ some s
  pub trimmed-visible : (cs : List Char) → All IsVisible cs → p.trimmed (of_list cs) ≡ of_list cs

-- `toString`: empty where there is no conversion.
abbrev pub or_empty : Option String → String
or_empty none = ""
or_empty (some s) = s

module _ {D : Type 0} where
  abbrev pub is_null : Value D → Bool
  is_null null = true
  is_null _ = false

  -- QVariantMap::value, with the default that the call names, and QVariantMap::contains.
  unfoldable pub value_or : Fields D → String → Value D → Value D
  value_or no_fields key other = other
  value_or (field k v m) key other = if str_eq k key then v else value_or m key other

  abbrev pub value : Fields D → String → Value D
  value m key = value_or m key null

  unfoldable pub contains : Fields D → String → Bool
  contains no_fields key = false
  contains (field k v m) key = str_eq k key || contains m key

  abbrev pub is_empty : Fields D → Bool
  is_empty no_fields = true
  is_empty (field k v m) = false

  -- QVariantMap::insert.
  unfoldable pub insert : String → Value D → Fields D → Fields D
  insert key v no_fields = field key v no_fields
  insert key v (field k w m) = if str_eq k key then field k v m else field k w (insert key v m)

  -- QVariant::toMap and toList: empty for any other value.
  abbrev pub to_map : Value D → Fields D
  to_map (map m) = m
  to_map _ = no_fields

  abbrev pub to_list : Value D → Values D
  to_list (list vs) = vs
  to_list _ = no_values

  -- `valueForFirstKey`
  unfoldable pub value_for_first_key : Fields D → List String → Value D
  value_for_first_key m [] = null
  value_for_first_key m (key ∷ keys) =
      if contains m key && not (is_null (value m key))
      then value m key
      else value_for_first_key m keys

  -- `mergeRateMap`
  unfoldable pub merge_rate_map : Fields D → Fields D → Fields D
  merge_rate_map rates no_fields = rates
  merge_rate_map rates (field k v source) = merge_rate_map (insert k v rates) source
