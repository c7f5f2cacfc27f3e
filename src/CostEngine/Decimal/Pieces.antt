-- ===== src/CostEngine/Decimal/Pieces.antt =====
-- The pieces of a printed number: what taking apart, chopping and splitting do to rows of digits.
use Prim.Native.Char.{Char, code}
use text.Mathlib.TextEquality.{Char-path}
use native.Mathlib.Nat.{pow-suc, mul-le-mul_right}
use plasma_ai_usage_monitor.Prelude.{
  ℕ, zero, suc, ◌+◌, ◌-◌, ◌*◌, ◌^◌, ◌≡◌, ◌≤◌, ◌<◌, refl, ap, true, false, List, [], ◌∷◌, ◌++◌,
  arith, length, All,
}
use plasma_ai_usage_monitor.CostEngine.Decimal.{chop_zeros, chop_dot, split_dot, rounds_up}
use plasma_ai_usage_monitor.CostEngine.Decimal.Digits.{
  take, drop, replicate, is_nil, read, rest_of_number, is_number,
}
use plasma_ai_usage_monitor.CostEngine.Decimal.Reading.{IsDigit, read-cons, read-shift}

module _ {ℓ} {A : Type ℓ} where
  pub take-drop : (n : ℕ) (xs : List A) → take n xs ++ drop n xs ≡ xs
  unfolding take drop
  take-drop zero xs = refl
  take-drop (suc n) [] = refl
  take-drop (suc n) (x ∷ xs) = ap (λ r. x ∷ r) (take-drop n xs)

  pub length-take : (n : ℕ) (xs : List A) → n ≤ length xs → length (take n xs) ≡ n
  unfolding take
  length-take zero xs h = refl
  length-take (suc n) [] h = absurd (omega arith)
  length-take (suc n) (x ∷ xs) h = omega (arith, length-take n xs (omega arith))

  pub length-drop : (n : ℕ) (xs : List A) → n ≤ length xs → length (drop n xs) ≡ length xs - n
  unfolding drop
  length-drop zero xs h = omega arith
  length-drop (suc n) [] h = absurd (omega arith)
  length-drop (suc n) (x ∷ xs) h = omega (arith, length-drop n xs (omega arith))

  pub length-replicate : (n : ℕ) (x : A) → length (replicate n x) ≡ n
  unfolding replicate
  length-replicate zero x = refl
  length-replicate (suc n) x = omega (arith, length-replicate n x)

  pub take_whole : (n : ℕ) (xs : List A) → length xs ≤ n → take n xs ≡ xs
  unfolding take
  take_whole zero [] h = refl
  take_whole zero (x ∷ xs) h = absurd (omega arith)
  take_whole (suc n) [] h = refl
  take_whole (suc n) (x ∷ xs) h = ap (λ r. x ∷ r) (take_whole n xs (omega arith))

  module _ {κ} (P : A → Type κ) where
    pub All-take-drop : (n : ℕ) (xs : List A) → All P xs → All P (take n xs) × All P (drop n xs)
    unfolding take drop
    All-take-drop zero xs h = (tt, h)
    All-take-drop (suc n) [] h = (tt, tt)
    All-take-drop (suc n) (x ∷ xs) (h, hs) =
        let (front, back) = All-take-drop n xs hs in ((h, front), back)

    pub All-replicate : (n : ℕ) (x : A) → P x → All P (replicate n x)
    unfolding replicate
    All-replicate zero x h = tt
    All-replicate (suc n) x h = (h, All-replicate n x h)

pub read-lt : (cs : List Char) → All IsDigit cs → read 0 cs < 10 ^ length cs
read-lt [] h = unfold read in omega arith
read-lt (c ∷ cs) (h, hs) =
    let d = 0 * 10 + (code c - b'0') in
    let small : d ≤ 9 = omega arith in
    rw (read-cons 0 c cs h, pow-suc 10 (length cs))
      (omega (arith, read-shift d cs hs, read-lt cs hs, mul-le-mul_right (10 ^ length cs) small))

pub rest_of_number_digits : (cs : List Char) → All IsDigit cs → rest_of_number cs ≡ true
unfolding rest_of_number
rest_of_number_digits [] h = refl
rest_of_number_digits (c ∷ cs) (h, hs) = ground (arith, rest_of_number_digits cs hs)

pub is_number_digits :
    (c : Char) (cs : List Char) → All IsDigit (c ∷ cs) → is_number (c ∷ cs) ≡ true
unfolding is_number
is_number_digits c cs (h, hs) = ground (arith, rest_of_number_digits cs hs)

pub chop_zeros-point : (xs ys : List Char) → chop_zeros (xs ++ "." ∷ ys) ≡ xs ++ "." ∷ chop_zeros ys
unfolding chop_zeros is_nil
chop_zeros-point [] ys = ground arith
chop_zeros-point (c ∷ []) ys = rw (chop_zeros-point [] ys) refl
chop_zeros-point (c ∷ d ∷ xs) ys = rw (chop_zeros-point (d ∷ xs) ys) refl

pub chop_zeros-IsDigit : (cs : List Char) → All IsDigit cs → All IsDigit (chop_zeros cs)
unfolding chop_zeros
chop_zeros-IsDigit [] h = tt
chop_zeros-IsDigit (c ∷ cs) (h, hs) = ground (arith, chop_zeros-IsDigit cs hs)

nil_of_is_nil : (cs : List Char) → is_nil cs ≡ true → cs ≡ []
unfolding is_nil
nil_of_is_nil [] h = refl
nil_of_is_nil (c ∷ cs) h = cc

pub length-chop_zeros-le : (cs : List Char) → length (chop_zeros cs) ≤ length cs
unfolding chop_zeros
length-chop_zeros-le [] = omega arith
length-chop_zeros-le (c ∷ cs) = ground (arith, length-chop_zeros-le cs)

-- The zeros that were chopped, put back.
pub chop_zeros-append :
    (pad : ℕ) (cs : List Char)
    → length cs ≡ length (chop_zeros cs) + pad
    → chop_zeros cs ++ replicate pad "0" ≡ cs
unfolding chop_zeros replicate
chop_zeros-append zero [] h = refl
chop_zeros-append (suc pad) [] h = absurd (omega arith)
chop_zeros-append zero (c ∷ cs) h =
    ground (arith, chop_zeros-append zero cs, length-chop_zeros-le cs)
chop_zeros-append (suc pad) (c ∷ cs) h = ground (
  arith,
  chop_zeros-append (suc pad) cs,
  chop_zeros-append pad cs,
  length-chop_zeros-le cs,
  nil_of_is_nil (chop_zeros cs),
  Char-path c "0",
)

pub rounds_up_past : (k : ℕ) (cs : List Char) → length cs ≤ k → rounds_up k cs ≡ false
unfolding rounds_up
rounds_up_past k [] h = refl
rounds_up_past zero (c ∷ cs) h = absurd (omega arith)
rounds_up_past (suc k) (c ∷ cs) h = rounds_up_past k cs (omega arith)

pub chop_dot_digits : (cs : List Char) → All IsDigit cs → chop_dot cs ≡ cs
unfolding chop_dot
chop_dot_digits [] h = refl
chop_dot_digits (c ∷ cs) (h, hs) = ground (arith, chop_dot_digits cs hs)

pub split_dot_digits : (cs : List Char) → All IsDigit cs → split_dot cs ≡ cs ∷ []
unfolding split_dot
split_dot_digits [] h = refl
split_dot_digits (c ∷ cs) (h, hs) = ground (arith, split_dot_digits cs hs)

pub split_dot-point :
    (xs ys : List Char)
    → All IsDigit xs
    → All IsDigit ys
    → split_dot (xs ++ "." ∷ ys) ≡ xs ∷ ys ∷ []
unfolding split_dot
split_dot-point [] ys hx hy = rw (split_dot_digits ys hy) refl
split_dot-point (c ∷ xs) ys (h, hs) hy = ground (arith, split_dot-point xs ys hs hy)
