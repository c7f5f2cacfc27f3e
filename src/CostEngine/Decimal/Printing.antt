-- ===== src/CostEngine/Decimal/Printing.antt =====
-- A printed number as a QVariant: its characters, and what `parseScaled` reads of it.
use Prim.Native.Char.{Char, code}
use package.text.Mathlib.TextBridge.{of_list}
use plasma_ai_usage_monitor.Prelude.{
  ℕ, ◌+◌, ◌-◌, ◌/◌, ◌≡◌, ◌≤◌, refl, Bool, true, false, none, some, List, [], ◌∷◌, ◌++◌, arith,
  if◌then◌else◌, leb, length, All, All-append,
}
use plasma_ai_usage_monitor.Prelude.Int.{ℤ}
use plasma_ai_usage_monitor.CostEngine.Values.{Platform, IsPlatform, text}
use plasma_ai_usage_monitor.CostEngine.Decimal.{
  is_negative, magnitude, with_sign, scale_digits, wide_digits, split_dot, two_parts, without_sign,
  signed_scaled, has_exponent, trim_decimal, parse_text, parse_scaled, chop_zeros, chop_dot,
  pointed, scaled_chars, scaled_to_text,
}
use plasma_ai_usage_monitor.CostEngine.Decimal.Digits.{
  take, drop, replicate, is_nil, chars-of_list, max_long_long,
}
use plasma_ai_usage_monitor.CostEngine.Decimal.Pieces.{All-take-drop, All-replicate}
use plasma_ai_usage_monitor.CostEngine.Decimal.RoundTrip.{
  IsScale, wide_digits_lem, signed_scaled-scaled_chars,
}

-- The characters of a printed number: a minus sign, a point and digits.
abbrev IsPrinted : Char → Type 0
IsPrinted c = (b'-' ≤ code c) × (code c ≤ b'9')

All-map {ℓ κ ι} :
    {A : Type ℓ} {P : A → Type κ} {Q : A → Type ι} (xs : List A)
    → ((x : A) → P x → Q x)
    → All P xs
    → All Q xs
All-map [] f h = tt
All-map (x ∷ xs) f (h, hs) = (f x h, All-map xs f hs)

chop_zeros-IsPrinted : (cs : List Char) → All IsPrinted cs → All IsPrinted (chop_zeros cs)
unfolding chop_zeros
chop_zeros-IsPrinted [] h = tt
chop_zeros-IsPrinted (c ∷ cs) (h, hs) = ground (arith, chop_zeros-IsPrinted cs hs)

chop_dot-IsPrinted : (cs : List Char) → All IsPrinted cs → All IsPrinted (chop_dot cs)
unfolding chop_dot
chop_dot-IsPrinted [] h = tt
chop_dot-IsPrinted (c ∷ cs) (h, hs) = ground (arith, chop_dot-IsPrinted cs hs)

pointed-IsPrinted : (k : ℕ) (ds : List Char) → All IsPrinted ds → All IsPrinted (pointed k ds)
unfolding pointed
pointed-IsPrinted k ds h =
    let pad : List Char = replicate (k + 1 - length ds) "0" in
    let zero_digit : IsPrinted "0" = omega arith in
    let whole : All IsPrinted (pad ++ ds) =
      All-append IsPrinted pad ds (All-replicate IsPrinted (k + 1 - length ds) "0" zero_digit) h in
    let split = length (pad ++ ds) - k in
    let (front, back) = All-take-drop IsPrinted split (pad ++ ds) whole in
    All-append IsPrinted (take split (pad ++ ds)) ("." ∷ drop split (pad ++ ds)) front
      (omega arith, back)

with_sign-IsPrinted :
    (negative : Bool) (cs : List Char) → All IsPrinted cs → All IsPrinted (with_sign negative cs)
with_sign-IsPrinted true cs h = (omega arith, h)
with_sign-IsPrinted false cs h = h

scaled_chars-IsPrinted : (z : ℤ) (scale : ℕ) → All IsPrinted (scaled_chars z scale)
unfolding scaled_chars
scaled_chars-IsPrinted z scale =
    let ds = wide_digits (magnitude z) in
    let digits : All IsPrinted ds =
      All-map ds (λ c h. omega arith) (wide_digits_lem (magnitude z)).1 in
    let point = pointed-IsPrinted (scale_digits scale) ds digits in
    let zeros = chop_zeros-IsPrinted (pointed (scale_digits scale) ds) point in
    with_sign-IsPrinted (is_negative z) (chop_dot (chop_zeros (pointed (scale_digits scale) ds)))
      (chop_dot-IsPrinted (chop_zeros (pointed (scale_digits scale) ds)) zeros)

no_exponent : (cs : List Char) → All IsPrinted cs → has_exponent cs ≡ false
unfolding has_exponent
no_exponent [] h = refl
no_exponent (c ∷ cs) (h, hs) = ground (arith, no_exponent cs hs)

signed_scaled-empty : (scale : ℕ) → signed_scaled scale [] ≡ none
unfolding signed_scaled two_parts split_dot without_sign is_nil
signed_scaled-empty scale = refl

unless_empty :
    (scale : ℕ) (cs : List Char)
    → (if is_nil cs then none else signed_scaled scale cs) ≡ signed_scaled scale cs
unfolding is_nil
unless_empty scale [] = rw (signed_scaled-empty scale) refl
unless_empty scale (c ∷ cs) = refl

module _ {D : Type 0} (p : Platform D) (laws : IsPlatform p) (scale : ℕ) (hs : IsScale scale) where
  -- A number that is printed at a scale of a power of ten is read back as it was, of either sign,
  -- if its whole part fits in 63 bits; otherwise nothing is read, if a text reads as itself and
  -- trimming takes off nothing but space.
  pub parse_scaled-scaled_to_text :
      (z : ℤ)
      → parse_scaled p (text (scaled_to_text z scale)) scale
        ≡ (if leb (magnitude z / scale) max_long_long then some z else none)
  unfolding parse_scaled parse_text trim_decimal scaled_to_text
  parse_scaled-scaled_to_text z =
      let cs = scaled_chars z scale in
      let printed = scaled_chars-IsPrinted z scale in
      rw
        (
          laws.as_text-text (of_list cs),
          laws.trimmed-visible cs (All-map cs (λ c h. omega arith) printed),
          chars-of_list cs,
          no_exponent cs printed,
          chars-of_list cs,
          unless_empty scale cs,
        )
        (signed_scaled-scaled_chars scale hs z)
