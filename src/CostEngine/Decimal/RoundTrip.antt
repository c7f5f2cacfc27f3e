-- ===== src/CostEngine/Decimal/RoundTrip.antt =====
-- Printing a scaled number and reading it back.
use Prim.Native.Char.{Char}
use native.Mathlib.Nat.{zero-mul, add_comm, add-mul-div_right, div-eq_of_lt}
use plasma_ai_usage_monitor.Prelude.{
  ℕ, ◌+◌, ◌-◌, ◌*◌, ◌/◌, ◌^◌, ◌≡◌, ◌≤◌, ◌<◌, refl, ap, sym, ◌∙◌, subst, Bool, true, false, not,
  ◌&&◌, none, some, List, [], ◌∷◌, ◌++◌, arith, if◌then◌else◌, leb, ◌>>=◌, length, length-append,
  All, All-append,
}
use plasma_ai_usage_monitor.Prelude.Int.{ℤ, pos, negsuc}
use plasma_ai_usage_monitor.CostEngine.Decimal.{
  negate, is_negative, magnitude, wide_digits, with_sign, scale_digits, is_negative_text,
  without_sign, split_dot, two_parts, padded, fraction_value, scaled_parts, signed_scaled,
  chop_zeros, chop_dot, pointed, scaled_chars,
}
use plasma_ai_usage_monitor.CostEngine.Decimal.Digits.{
  take, drop, replicate, is_nil, push_digits, read, is_number, max_long_long, to_long_long,
}
use plasma_ai_usage_monitor.CostEngine.Decimal.Reading.{
  IsDigit, read-push_digits, push_digits-IsDigit, read-append, read-shift, read-zeros,
}
use plasma_ai_usage_monitor.CostEngine.Decimal.Pieces.{
  take-drop, length-take, length-drop, length-replicate, take_whole, All-take-drop, All-replicate,
  read-lt, is_number_digits, chop_zeros-point, chop_zeros-IsDigit, length-chop_zeros-le,
  chop_zeros-append, rounds_up_past, chop_dot_digits, split_dot_digits, split_dot-point,
}

-- A scale of the engine: a power of ten that a long long holds.
abbrev pub IsScale : ℕ → Type 0
IsScale scale = (scale ≡ 10 ^ scale_digits scale) × (scale ≤ max_long_long)

pub scales_IsScale : IsScale 1 × IsScale 1_000_000 × IsScale 1_000_000_000
unfolding scale_digits wide_digits push_digits
scales_IsScale = ((refl, omega arith), (refl, omega arith), (refl, omega arith))

-- The digits that `wideToString` writes stand for the value, and are digits.
pub wide_digits_lem : (n : ℕ) → (read 0 (wide_digits n) ≡ n) × All IsDigit (wide_digits n)
unfolding wide_digits read
wide_digits_lem n = ground (arith, read-push_digits n n [], push_digits-IsDigit n n [])

-- A text of digits has a first one, so that no sign is taken off it.
first_digit :
    (c : Char) (cs : List Char)
    → IsDigit c
    → (without_sign (c ∷ cs) ≡ c ∷ cs) × (is_negative_text (c ∷ cs) ≡ false)
unfolding without_sign is_negative_text
first_digit c cs h = ground arith

sign_parts :
    (negative : Bool) (c : Char) (cs : List Char)
    → IsDigit c
    → (without_sign (with_sign negative (c ∷ cs)) ≡ c ∷ cs)
      × (is_negative_text (with_sign negative (c ∷ cs)) ≡ negative)
sign_parts true c cs h = unfold without_sign is_negative_text in (refl, refl)
sign_parts false c cs h = first_digit c cs h

-- What is left of the printed text without its sign: the whole part, and a fraction if there is one.
chop_dot_last : (xs : List Char) → All IsDigit xs → chop_dot (xs ++ "." ∷ []) ≡ xs
unfolding chop_dot is_nil
chop_dot_last [] h = refl
chop_dot_last (c ∷ xs) (h, hs) = ground (arith, chop_dot_last xs hs)

chop_dot_inside :
    (xs : List Char) (d : Char) (f : List Char)
    → All IsDigit xs
    → All IsDigit (d ∷ f)
    → chop_dot (xs ++ "." ∷ d ∷ f) ≡ xs ++ "." ∷ d ∷ f
unfolding chop_dot is_nil
chop_dot_inside [] d f h hf = ap (λ r. "." ∷ r) (chop_dot_digits (d ∷ f) hf)
chop_dot_inside (c ∷ xs) d f (h, hs) hf = ground (arith, chop_dot_inside xs d f hs hf)

two_parts-shown :
    (c : Char) (cs f : List Char)
    → All IsDigit (c ∷ cs)
    → All IsDigit f
    → two_parts (split_dot (chop_dot ((c ∷ cs) ++ "." ∷ f))) ≡ some (c ∷ cs, f)
unfolding two_parts is_nil
two_parts-shown c cs [] hw hf = rw (chop_dot_last (c ∷ cs) hw, split_dot_digits (c ∷ cs) hw) refl
two_parts-shown c cs (d ∷ f) hw hf =
    rw (chop_dot_inside (c ∷ cs) d f hw hf, split_dot-point (c ∷ cs) (d ∷ f) hw hf) refl

-- The two parts of the digits of n, with k digits after the point.
record Printed (k n : ℕ) (digits : List Char) : Type 0 where
  first : Char
  more : List Char
  fraction : List Char
  parts : pointed k digits ≡ (first ∷ more) ++ "." ∷ fraction
  whole_digits : All IsDigit (first ∷ more)
  fraction_digits : All IsDigit fraction
  length-fraction : length fraction ≡ k
  total : read 0 (first ∷ more) * 10 ^ k + read 0 fraction ≡ n

split-Printed :
    (k n : ℕ) (digits whole fraction : List Char)
    → pointed k digits ≡ whole ++ "." ∷ fraction
    → All IsDigit whole
    → All IsDigit fraction
    → length fraction ≡ k
    → 0 < length whole
    → read 0 (whole ++ fraction) ≡ n
    → Printed k n digits
split-Printed k n digits [] fraction e hw hf len h r = absurd (omega arith)
split-Printed k n digits (c ∷ cs) fraction e hw hf len h r = record {
  first = c;
  more = cs;
  fraction = fraction;
  parts = e;
  whole_digits = hw;
  fraction_digits = hf;
  length-fraction = len;
  total =
      subst (λ j. read 0 (c ∷ cs) * 10 ^ j + read 0 fraction ≡ n) len
        (sym (read-shift (read 0 (c ∷ cs)) fraction hf)
          ∙ sym (read-append 0 (c ∷ cs) fraction)
          ∙ r);
}

pointed-Printed :
    (k n : ℕ) (digits : List Char) → All IsDigit digits → read 0 digits ≡ n → Printed k n digits
unfolding pointed
pointed-Printed k n digits h r =
    let pad = k + 1 - length digits in
    let all = replicate pad "0" ++ digits in
    let long : k + 1 ≤ length all =
      omega
        (arith, length-append (replicate pad "0") digits, length-replicate {A = Char} pad "0") in
    let split = length all - k in
    let zero_digit : IsDigit "0" = omega arith in
    let all_digits : All IsDigit all =
      All-append IsDigit (replicate pad "0") digits (All-replicate IsDigit pad "0" zero_digit) h in
    let (front, back) = All-take-drop IsDigit split all all_digits in
    split-Printed k n digits (take split all) (drop split all) refl front back
      (omega (arith, length-drop split all (omega arith)))
      (omega (arith, length-take split all (omega arith)))
      (rw
        (
          take-drop split all,
          read-append 0 (replicate pad "0") digits,
          read-zeros 0 pad,
          zero-mul (10 ^ pad),
        )
        r)

is_number_of_fraction : (f : List Char) → All IsDigit f → is_nil f ≡ false → is_number f ≡ true
unfolding is_nil
is_number_of_fraction [] h e = cc
is_number_of_fraction (d ∷ f) h e = is_number_digits d f h

to_long_long_digits :
    (c : Char) (cs : List Char)
    → All IsDigit (c ∷ cs)
    → to_long_long (c ∷ cs)
      ≡ (if leb (read 0 (c ∷ cs)) max_long_long then some (read 0 (c ∷ cs)) else none)
unfolding to_long_long
to_long_long_digits c cs h = rw (is_number_digits c cs h) refl

fraction_value_digits :
    (f : List Char) → All IsDigit f → read 0 f ≤ max_long_long → fraction_value f ≡ some (read 0 f)
unfolding is_nil
fraction_value_digits [] h le = unfold read in refl
fraction_value_digits (d ∷ f) h le = rw (to_long_long_digits d f h) (ground arith)

-- A fraction without its last zeros is filled up to what it was.
padded-chopped : (k : ℕ) (f : List Char) → length f ≡ k → padded k (chop_zeros f) ≡ f
unfolding padded
padded-chopped k f h =
    let le = length-chop_zeros-le f in
    rw (take_whole k (chop_zeros f) (omega arith))
      (chop_zeros-append (k - length (chop_zeros f)) f (omega arith))

not_refused : (f : List Char) → All IsDigit f → (not (is_nil f) && not (is_number f)) ≡ false
not_refused f h = ground (arith, is_number_of_fraction f h)

whole-div : (w r scale : ℕ) → r < scale → (w * scale + r) / scale ≡ w
whole-div w r scale h =
    rw (add_comm (w * scale) r, add-mul-div_right r w {z = scale} (omega arith), div-eq_of_lt h)
      (omega arith)

-- The number from its two parts, once both are read.
joined :
    (w r scale n : ℕ)
    → w * scale + r ≡ n
    → r < scale
    → ((if leb w max_long_long then some w else none) >>= λ i. some (i * scale + r + 0))
      ≡ (if leb (n / scale) max_long_long then some n else none)
joined w r scale n e h =
    let q : n / scale ≡ w = rw (← e) (whole-div w r scale h) in rw q (ground arith)

chop_dot-first : (c : Char) (cs : List Char) → IsDigit c → chop_dot (c ∷ cs) ≡ c ∷ chop_dot cs
unfolding chop_dot
chop_dot-first c cs h = ground arith

signed_back :
    (z : ℤ) → (if is_negative z then negate (pos (magnitude z)) else pos (magnitude z)) ≡ z
signed_back (pos n) = ground arith
signed_back (negsuc n) = ground arith

-- Reading what is left of the text once its sign is known.
signed_scaled-text :
    (scale : ℕ) (negative : Bool) (c : Char) (t whole fraction : List Char)
    → IsDigit c
    → two_parts (split_dot (c ∷ t)) ≡ some (whole, fraction)
    → signed_scaled scale (with_sign negative (c ∷ t)) ≡ (
        scaled_parts scale whole fraction >>= λ n.
        some (if negative then negate (pos n) else pos n))
unfolding signed_scaled
signed_scaled-text scale negative c t whole fraction h e =
    let (unsigned, sign) = sign_parts negative c t h in rw (unsigned, sign, e) refl

module _ (scale : ℕ) (hs : IsScale scale) where
  -- Where the whole part fits in a long long, the value is read from the two parts.
  scaled_parts-shown :
      (n : ℕ) {digits : List Char} (q : Printed (scale_digits scale) n digits)
      → scaled_parts scale (q.first ∷ q.more) (chop_zeros q.fraction)
        ≡ (if leb (n / scale) max_long_long then some n else none)
  unfolding scaled_parts
  scaled_parts-shown n q =
      let k = scale_digits scale in
      let f = chop_zeros q.fraction in
      let short : length f ≤ k =
        omega (arith, length-chop_zeros-le q.fraction, q.length-fraction) in
      let small : read 0 q.fraction < scale =
        rw (hs.0, ← q.length-fraction) (read-lt q.fraction q.fraction_digits) in
      rw
        (
          is_number_digits q.first q.more q.whole_digits,
          not_refused f (chop_zeros-IsDigit q.fraction q.fraction_digits),
          take_whole (k + 1) f (omega arith),
          rounds_up_past k f short,
          padded-chopped k q.fraction q.length-fraction,
          fraction_value_digits q.fraction q.fraction_digits (omega (arith, hs.1)),
          to_long_long_digits q.first q.more q.whole_digits,
        )
        (joined (read 0 (q.first ∷ q.more)) (read 0 q.fraction) scale n (rw (← hs.0) at q.total)
          small)

  -- Reading a printed number gives it back, unless its whole part does not fit in a long long.
  pub signed_scaled-scaled_chars :
      (z : ℤ)
      → signed_scaled scale (scaled_chars z scale)
        ≡ (if leb (magnitude z / scale) max_long_long then some z else none)
  unfolding scaled_chars
  signed_scaled-scaled_chars z =
      let k = scale_digits scale in
      let n = magnitude z in
      let (value, digits) = wide_digits_lem n in
      let q = pointed-Printed k n (wide_digits n) digits value in
      let f = chop_zeros q.fraction in
      let hf = chop_zeros-IsDigit q.fraction q.fraction_digits in
      let first : chop_dot ((q.first ∷ q.more) ++ "." ∷ f)
          ≡ q.first ∷ chop_dot (q.more ++ "." ∷ f) =
        chop_dot-first q.first (q.more ++ "." ∷ f) q.whole_digits.0 in
      let split : two_parts (split_dot (q.first ∷ chop_dot (q.more ++ "." ∷ f)))
          ≡ some (q.first ∷ q.more, f) =
        rw (← first) (two_parts-shown q.first q.more f q.whole_digits hf) in
      rw
        (
          q.parts,
          chop_zeros-point (q.first ∷ q.more) q.fraction,
          first,
          signed_scaled-text scale (is_negative z) q.first (chop_dot (q.more ++ "." ∷ f))
              (q.first ∷ q.more) f q.whole_digits.0 split,
          scaled_parts-shown n q,
        )
        (ground (arith, signed_back z))
