-- ===== src/CostEngine/Decimal.antt =====
-- plugin/costengine.cpp: `wideToString`, `trimDecimal`, `parseScaled`, `roundDivide` and
-- `scaledToText`. A text is walked as the list of its characters. A WideInt is an integer without
-- bounds; `Bounds` is about the numbers that `parseScaled` returns.
pub mod Digits
pub mod Reading
pub mod Pieces
pub mod RoundTrip
pub mod Printing
pub mod Bounds
pub mod Rounding
use Prim.Native.Char.{Char, code}
use text.Mathlib.TextBridge.{of_list}
use plasma_ai_usage_monitor.Prelude.{
  ℕ, zero, suc, ◌+◌, ◌-◌, ◌*◌, ◌/◌, ◌^◌, min, Bool, true, false, not, ◌&&◌, ◌||◌, Option, none,
  some, List, [], ◌∷◌, ◌++◌, String, if◌then◌else◌, ltb, leb, ◌==◌, bit, length, ◌>>=◌,
}
use plasma_ai_usage_monitor.Prelude.Int.{ℤ, pos, negsuc, sub_ℕ, neg_part, pos_part}
use plasma_ai_usage_monitor.CostEngine.Values.{Value, number, Platform}
use Digits.{
  chars, take, replicate, is_nil, is_digit, is_newline, digit_char, push_digits, read, is_number,
  drop, to_long_long,
}

-- -z
abbrev pub negate : ℤ → ℤ
negate z = sub_ℕ (neg_part z) (pos_part z)

abbrev pub is_negative : ℤ → Bool
is_negative (pos n) = false
is_negative (negsuc n) = true

-- the absolute value
abbrev pub magnitude : ℤ → ℕ
magnitude z = pos_part z + neg_part z

-- The loop of `wideToString` on a positive value; its fuel is the value.
unfoldable pub wide_digits : ℕ → List Char
wide_digits n = if n == 0 then "0" ∷ [] else push_digits n n []

abbrev pub with_sign : Bool → List Char → List Char
with_sign negative cs = if negative then "-" ∷ cs else cs

unfoldable pub wide_to_string : ℤ → String
wide_to_string z = of_list (with_sign (is_negative z) (wide_digits (magnitude z)))

-- `QString::number(scale).size() - 1`
unfoldable pub scale_digits : ℕ → ℕ
scale_digits scale = length (wide_digits scale) - 1

unfoldable pub round_divide : ℤ → ℤ → ℤ
round_divide numerator (negsuc d) = pos 0
round_divide numerator (pos d) =
    if d == 0
    then pos 0
    else (let result = pos ((magnitude numerator + d / 2) / d) in
        if is_negative numerator then negate result else result)

-- A minus sign is the first character of a negative number's text, a plus sign is dropped.
abbrev pub is_minus : Char → Bool
is_minus c = code c == b'-'

abbrev pub is_sign : Char → Bool
is_sign c = code c == b'+' || is_minus c

abbrev pub is_dot : Char → Bool
is_dot c = code c == b'.'

unfoldable pub is_negative_text : List Char → Bool
is_negative_text [] = false
is_negative_text (c ∷ cs) = is_minus c

unfoldable pub without_sign : List Char → List Char
without_sign [] = []
without_sign (c ∷ cs) = if is_sign c then cs else c ∷ cs

abbrev cons_first : Char → List (List Char) → List (List Char)
cons_first c [] = (c ∷ []) ∷ []
cons_first c (part ∷ parts) = (c ∷ part) ∷ parts

-- `text.split('.')`: one part more than there are dots.
unfoldable pub split_dot : List Char → List (List Char)
split_dot [] = [] ∷ []
split_dot (c ∷ cs) = if is_dot c then [] ∷ split_dot cs else cons_first c (split_dot cs)

-- The whole part and the fraction, unless the text is refused for its number of parts.
unfoldable pub two_parts : List (List Char) → Option (List Char × List Char)
two_parts (whole ∷ []) = if is_nil whole then none else some (whole, [])
two_parts (whole ∷ fraction ∷ []) = some (if is_nil whole then "0" ∷ [] else whole, fraction)
two_parts _ = none

-- Whether the character at position k is there and at least '5'.
unfoldable pub rounds_up : ℕ → List Char → Bool
rounds_up k [] = false
rounds_up zero (c ∷ cs) = leb b'5' (code c)
rounds_up (suc k) (c ∷ cs) = rounds_up k cs

-- The first k characters, filled up with zeros.
unfoldable pub padded : ℕ → List Char → List Char
padded k cs = let kept = take k cs in kept ++ replicate (k - length kept) "0"

abbrev fraction_value : List Char → Option ℕ
fraction_value cs = if is_nil cs then some 0 else to_long_long cs

abbrev pub read_parts : ℕ → List Char → List Char → Option ℕ
read_parts scale whole fraction = do
  integer_value ← to_long_long whole
  let k = scale_digits scale
  let kept = take (k + 1) fraction
  value ← fraction_value (padded k kept)
  some (integer_value * scale + value + bit (rounds_up k kept))

-- What `parseScaled` returns for the two parts of a text, without the sign.
unfoldable pub scaled_parts : ℕ → List Char → List Char → Option ℕ
scaled_parts scale whole fraction =
    if not (is_number whole) || (not (is_nil fraction) && not (is_number fraction))
    then none
    else read_parts scale whole fraction

unfoldable pub signed_scaled : ℕ → List Char → Option ℤ
signed_scaled scale cs = do
  (whole, fraction) ← two_parts (split_dot (without_sign cs))
  n ← scaled_parts scale whole fraction
  some (if is_negative_text cs then negate (pos n) else pos n)

-- Whether a text contains the letter e, of either case.
unfoldable pub has_exponent : List Char → Bool
has_exponent [] = false
has_exponent (c ∷ cs) = code c == b'e' || code c == b'E' || has_exponent cs

module _ {D : Type 0} (p : Platform D) where
  open p use {trimmed, text_to_double, fixed, is_finite, as_text}

  abbrev fixed_if_finite : Option D → String
  fixed_if_finite none = ""
  fixed_if_finite (some d) = if is_finite d then fixed d else ""

  unfoldable pub trim_decimal : String → String
  trim_decimal s =
      let value = trimmed s in
      if has_exponent (chars value) then fixed_if_finite (text_to_double value) else value

  unfoldable pub parse_text : String → ℕ → Option ℤ
  parse_text s scale =
      let cs = chars (trim_decimal s) in if is_nil cs then none else signed_scaled scale cs

  abbrev parse_converted : Option String → ℕ → Option ℤ
  parse_converted none scale = none
  parse_converted (some s) scale = parse_text s scale

  -- `none` is the value 0 with the flag false.
  unfoldable pub parse_scaled : Value D → ℕ → Option ℤ
  parse_scaled (number d) scale = if is_finite d then parse_text (fixed d) scale else none
  parse_scaled v scale = parse_converted (as_text v) scale

-- `while (result.endsWith('0')) chop(1)`
unfoldable pub chop_zeros : List Char → List Char
chop_zeros [] = []
chop_zeros (c ∷ cs) =
    let rest = chop_zeros cs in if is_nil rest && code c == b'0' then [] else c ∷ rest

-- `if (result.endsWith('.')) chop(1)`
unfoldable pub chop_dot : List Char → List Char
chop_dot [] = []
chop_dot (c ∷ cs) = if is_nil cs && is_dot c then [] else c ∷ chop_dot cs

-- The digits with a point before the last k, and a zero for each digit that is missing.
unfoldable pub pointed : ℕ → List Char → List Char
pointed k digits =
    let all = replicate (k + 1 - length digits) "0" ++ digits in
    let split = length all - k in take split all ++ "." ∷ drop split all

unfoldable pub scaled_chars : ℤ → ℕ → List Char
scaled_chars z scale =
    with_sign (is_negative z)
      (chop_dot (chop_zeros (pointed (scale_digits scale) (wide_digits (magnitude z)))))

unfoldable pub scaled_to_text : ℤ → ℕ → String
scaled_to_text z scale = of_list (scaled_chars z scale)
