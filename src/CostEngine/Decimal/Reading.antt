-- ===== src/CostEngine/Decimal/Reading.antt =====
-- What a row of digits stands for, as plugin/costengine.cpp writes and reads it, and over a row that
-- is taken apart or filled up with zeros.
use Prim.Native.Char.{Char, code}
use native.Mathlib.Nat.{pow-suc}
use plasma_ai_usage_monitor.Prelude.{
  ℕ, zero, suc, ◌+◌, ◌-◌, ◌*◌, ◌/◌, ◌%◌, ◌^◌, ◌≡◌, ◌≤◌, ◌<◌, refl, Bool, true, false, List, [], ◌∷◌,
  ◌++◌, arith, if◌then◌else◌, length, All,
}
use plasma_ai_usage_monitor.CostEngine.Decimal.Digits.{replicate, digit_char, push_digits, read}

abbrev pub IsDigit : Char → Type 0
IsDigit c = (b'0' ≤ code c) × (code c ≤ b'9')

code-if : (b : Bool) (x y : Char) → code (if b then x else y) ≡ (if b then code x else code y)
code-if true x y = refl
code-if false x y = refl

pub digit_char-code : (d : ℕ) → d < 10 → code (digit_char d) ≡ b'0' + d
unfolding digit_char
digit_char-code d h = simp code-if (ground arith)

pub read-cons :
    (a : ℕ) (c : Char) (cs : List Char)
    → IsDigit c
    → read a (c ∷ cs) ≡ read (a * 10 + (code c - b'0')) cs
unfolding read
read-cons a c cs h = ground arith

-- The fuel of the loop is enough when it is at least the value.
pub read-push_digits :
    (fuel n : ℕ) (digits : List Char)
    → n ≤ fuel
    → read 0 (push_digits fuel n digits) ≡ read n digits
unfolding push_digits
read-push_digits zero n digits h = ground arith
read-push_digits (suc fuel) n digits h =
    let d : IsDigit (digit_char (n % 10)) = omega (arith, digit_char-code (n % 10) (omega arith)) in
    ground (
      arith,
      read-push_digits fuel (n / 10) (digit_char (n % 10) ∷ digits) (omega arith),
      read-cons (n / 10) (digit_char (n % 10)) digits d,
      digit_char-code (n % 10),
    )

pub push_digits-IsDigit :
    (fuel n : ℕ) (digits : List Char) → All IsDigit digits → All IsDigit (push_digits fuel n digits)
unfolding push_digits
push_digits-IsDigit zero n digits h = h
push_digits-IsDigit (suc fuel) n digits h =
    let d : IsDigit (digit_char (n % 10)) = omega (arith, digit_char-code (n % 10) (omega arith)) in
    ground (arith, push_digits-IsDigit fuel (n / 10) (digit_char (n % 10) ∷ digits) (d, h))

pub read-append : (a : ℕ) (xs ys : List Char) → read a (xs ++ ys) ≡ read (read a xs) ys
unfolding read
read-append a [] ys = refl
read-append a (c ∷ xs) ys =
    ground (arith, read-append (a * 10 + (code c - b'0')) xs ys, read-append a xs ys)

-- The digits before a row weigh ten for each digit of the row.
pub read-shift :
    (a : ℕ) (cs : List Char) → All IsDigit cs → read a cs ≡ a * 10 ^ length cs + read 0 cs
read-shift a [] h = unfold read in omega arith
read-shift a (c ∷ cs) (h, hs) =
    let more = read-shift (a * 10 + (code c - b'0')) cs hs in
    let rest = read-shift (code c - b'0') cs hs in
    rw (read-cons a c cs h, read-cons 0 c cs h, pow-suc 10 (length cs)) (grind arith)

pub read-zeros : (a k : ℕ) → read a (replicate k "0") ≡ a * 10 ^ k
unfolding read replicate
read-zeros a zero = omega arith
read-zeros a (suc k) = rw (read-zeros (a * 10 + 0) k, pow-suc 10 k) (grind arith)
