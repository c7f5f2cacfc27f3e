-- ===== src/CurrencyMinorUnits.antt =====
-- plugin/currencyminorunits.cpp: the digits of a currency's smallest unit, and amounts in it.
use plasma_ai_usage_monitor.Prelude.{
  ℕ, ◌^◌, ◌-◌, Bool, not, ◌||◌, Option, none, some, List, [], ◌∷◌, String, if◌then◌else◌, ◌>>=◌,
}
use plasma_ai_usage_monitor.Prelude.Int.{ℤ, pos, negsuc}
use plasma_ai_usage_monitor.Prelude.Qt.{Qt}
use plasma_ai_usage_monitor.Prelude.Doubles.{Doubles}
use plasma_ai_usage_monitor.Forecast.{has_text}

abbrev pub two_digit_currencies : List String
two_digit_currencies =
    "AED" ∷ "AFN" ∷ "ALL" ∷ "AMD" ∷ "AOA" ∷ "ARS" ∷ "AUD" ∷ "AWG" ∷ "AZN" ∷ "BAM" ∷ "BBD" ∷ "BDT"
    ∷ "BMD" ∷ "BND" ∷ "BOB" ∷ "BOV" ∷ "BRL" ∷ "BSD" ∷ "BTN" ∷ "BWP" ∷ "BYN" ∷ "BZD" ∷ "CAD" ∷ "CDF"
    ∷ "CHE" ∷ "CHF" ∷ "CHW" ∷ "CNY" ∷ "COP" ∷ "COU" ∷ "CRC" ∷ "CUP" ∷ "CVE" ∷ "CZK" ∷ "DKK" ∷ "DOP"
    ∷ "DZD" ∷ "EGP" ∷ "ERN" ∷ "ETB" ∷ "EUR" ∷ "FJD" ∷ "FKP" ∷ "GBP" ∷ "GEL" ∷ "GHS" ∷ "GIP" ∷ "GMD"
    ∷ "GTQ" ∷ "GYD" ∷ "HKD" ∷ "HNL" ∷ "HTG" ∷ "HUF" ∷ "IDR" ∷ "ILS" ∷ "INR" ∷ "IRR" ∷ "JMD" ∷ "KES"
    ∷ "KGS" ∷ "KHR" ∷ "KPW" ∷ "KYD" ∷ "KZT" ∷ "LAK" ∷ "LBP" ∷ "LKR" ∷ "LRD" ∷ "LSL" ∷ "MAD" ∷ "MDL"
    ∷ "MGA" ∷ "MKD" ∷ "MMK" ∷ "MNT" ∷ "MOP" ∷ "MRU" ∷ "MUR" ∷ "MVR" ∷ "MWK" ∷ "MXN" ∷ "MXV" ∷ "MYR"
    ∷ "MZN" ∷ "NAD" ∷ "NGN" ∷ "NIO" ∷ "NOK" ∷ "NPR" ∷ "NZD" ∷ "PAB" ∷ "PEN" ∷ "PGK" ∷ "PHP" ∷ "PKR"
    ∷ "PLN" ∷ "QAR" ∷ "RON" ∷ "RSD" ∷ "RUB" ∷ "SAR" ∷ "SBD" ∷ "SCR" ∷ "SDG" ∷ "SEK" ∷ "SGD" ∷ "SHP"
    ∷ "SLE" ∷ "SOS" ∷ "SRD" ∷ "SSP" ∷ "STN" ∷ "SVC" ∷ "SYP" ∷ "SZL" ∷ "THB" ∷ "TJS" ∷ "TMT" ∷ "TOP"
    ∷ "TRY" ∷ "TTD" ∷ "TWD" ∷ "TZS" ∷ "UAH" ∷ "USD" ∷ "USN" ∷ "UYU" ∷ "UZS" ∷ "VED" ∷ "VES" ∷ "WST"
    ∷ "XCD" ∷ "XCG" ∷ "YER" ∷ "ZAR" ∷ "ZMW" ∷ "ZWG" ∷ []

abbrev pub zero_digit_currencies : List String
zero_digit_currencies =
    "BIF" ∷ "CLP" ∷ "DJF" ∷ "GNF" ∷ "ISK" ∷ "JPY" ∷ "KMF" ∷ "KRW" ∷ "PYG" ∷ "RWF" ∷ "UGX" ∷ "UYI"
    ∷ "VND" ∷ "VUV" ∷ "XAF" ∷ "XOF" ∷ "XPF" ∷ []

abbrev pub three_digit_currencies : List String
three_digit_currencies = "BHD" ∷ "IQD" ∷ "JOD" ∷ "KWD" ∷ "LYD" ∷ "OMR" ∷ "TND" ∷ []

abbrev pub four_digit_currencies : List String
four_digit_currencies = "CLF" ∷ "UYW" ∷ []

unfoldable pub digits_of : String → Option ℕ
digits_of code =
    if has_text zero_digit_currencies code
    then some 0
    else if has_text three_digit_currencies code
    then some 3
    else if has_text four_digit_currencies code
    then some 4
    else if has_text two_digit_currencies code
    then some 2
    else none

module _ {D : Type 0} (q : Qt D) (m : Doubles D) where
  open m use {of_long, times, over, power_of_ten, llround}

  unfoldable pub digits : String → Option ℕ
  digits currency = digits_of (q.to_upper (q.trimmed currency))

  -- `max` as a double is 2 ^ 63.
  abbrev out_of_range : D → Bool
  out_of_range scaled =
      q.less scaled (of_long (negsuc (2 ^ 63 - 1))) || q.less (of_long (pos (2 ^ 63))) scaled

  unfoldable pub from_major : D → String → Option ℤ
  from_major value currency = do
    precision ← digits currency
    let scaled = times value (power_of_ten precision)
    if not (q.is_finite value) || out_of_range scaled then none else some (llround scaled)

  unfoldable pub to_major : ℤ → String → Option D
  to_major value currency = do
    precision ← digits currency
    some (over (of_long value) (power_of_ten precision))
