-- ===== src/CostEngine/Decimal/Digits.antt =====
-- Decimal digits as characters: how they are written, and how a row of them is read.
use Prim.Native.Char.{Char, code}
use Prim.Native.String.{String}
use text.Mathlib.TextBridge.{of_list}
use plasma_ai_usage_monitor.Prelude.{
  ℕ, zero, suc, ◌+◌, ◌-◌, ◌*◌, ◌/◌, ◌%◌, ◌^◌, ◌≡◌, refl, ap, Bool, true, false, ◌&&◌, ◌||◌, Option,
  none, some, List, [], ◌∷◌, if◌then◌else◌, leb, ◌==◌,
}

-- The characters of a text.
abbrev pub chars : String → List Char
chars String.[] = []
chars (String.◌∷◌ c s) = c ∷ chars s

pub chars-of_list : (cs : List Char) → chars (of_list cs) ≡ cs
chars-of_list [] = refl
chars-of_list (c ∷ cs) = ap (λ r. c ∷ r) (chars-of_list cs)

module _ {ℓ} {A : Type ℓ} where
  -- QString::truncate, and a row of one character.
  unfoldable pub take : ℕ → List A → List A
  take zero xs = []
  take (suc n) [] = []
  take (suc n) (x ∷ xs) = x ∷ take n xs

  unfoldable pub drop : ℕ → List A → List A
  drop zero xs = xs
  drop (suc n) [] = []
  drop (suc n) (x ∷ xs) = drop n xs

  unfoldable pub replicate : ℕ → A → List A
  replicate zero x = []
  replicate (suc n) x = x ∷ replicate n x

  unfoldable pub is_nil : List A → Bool
  is_nil [] = true
  is_nil (x ∷ xs) = false

abbrev pub is_digit : Char → Bool
is_digit c = leb b'0' (code c) && leb (code c) b'9'

abbrev pub is_newline : Char → Bool
is_newline c = code c == b'\n'

-- `QChar::fromLatin1('0' + d)` for a digit d.
unfoldable pub digit_char : ℕ → Char
digit_char d =
    if d == 0
    then "0"
    else if d == 1
    then "1"
    else if d == 2
    then "2"
    else if d == 3
    then "3"
    else if d == 4
    then "4"
    else if d == 5
    then "5"
    else if d == 6
    then "6"
    else if d == 7
    then "7"
    else if d == 8
    then "8"
    else "9"

-- `while (value > 0)`: the last digit is put in front.
unfoldable pub push_digits : ℕ → ℕ → List Char → List Char
push_digits zero n digits = digits
push_digits (suc fuel) n digits =
    let rest = push_digits fuel (n / 10) (digit_char (n % 10) ∷ digits) in
    if n == 0 then digits else rest

-- The number that the digits of a text stand for, after the digits that stand for `a`.
unfoldable pub read : ℕ → List Char → ℕ
read a [] = a
read a (c ∷ cs) = if is_digit c then read (a * 10 + (code c - b'0')) cs else read a cs

-- What follows the first digit of `^\d+$`, where `$` also matches before a final newline.
unfoldable pub rest_of_number : List Char → Bool
rest_of_number [] = true
rest_of_number (c ∷ cs) = (is_digit c && rest_of_number cs) || (is_newline c && is_nil cs)

unfoldable pub is_number : List Char → Bool
is_number [] = false
is_number (c ∷ cs) = is_digit c && rest_of_number cs

abbrev pub max_long_long : ℕ
max_long_long = 2 ^ 63 - 1

-- QString::toLongLong of a text of digits; `none` where its flag is false.
unfoldable pub to_long_long : List Char → Option ℕ
to_long_long cs = if is_number cs && leb (read 0 cs) max_long_long then some (read 0 cs) else none
