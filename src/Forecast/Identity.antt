-- ===== src/Forecast/Identity.antt =====
-- `Result::stableId` of plugin/forecastcontract.cpp. The SHA-256 of a text, in hexadecimal digits, is
-- an argument.
use Prim.Native.String.{◌++◌ as text_append}
use plasma_ai_usage_monitor.Prelude.{
  not, ◌&&◌, Option, none, some, List, [], ◌∷◌, String, if◌then◌else◌, str_eq,
}
use plasma_ai_usage_monitor.Prelude.Qt.{Qt}
use plasma_ai_usage_monitor.Forecast.{Result, kind_key, value_class_key}

-- QStringList::join.
pub join : String → List String → String
join separator [] = ""
join separator (s ∷ []) = s
join separator (s ∷ t ∷ rest) = text_append s (text_append separator (join separator (t ∷ rest)))

module _ {D : Type 0} (q : Qt D) where
  currency_field : Option String → String
  currency_field none = ""
  currency_field (some c) = q.to_upper (q.trimmed c)

  pub identity_fields : Result D → List String
  unfolding currency_field
  identity_fields r =
      if str_eq r.contract_version "budget-pacing-v2" && not (str_eq r.policy_id "")
      then r.policy_id ∷ kind_key r.kind ∷ []
      else r.source_id
        ∷ kind_key r.kind
        ∷ r.window
        ∷ r.scope
        ∷ value_class_key r.value_class
        ∷ currency_field r.currency
        ∷ []

  unfoldable pub stable_id : (String → String) → Result D → String
  unfolding identity_fields join
  stable_id sha256_hex r = sha256_hex (join "\u{1f}" (identity_fields r))
