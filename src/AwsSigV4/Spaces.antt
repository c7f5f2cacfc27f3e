-- ===== src/AwsSigV4/Spaces.antt =====
-- The loop of toLowerTrimmed in plugin/awssigv4signer.cpp.
use plasma_ai_usage_monitor.Prelude.{
  ℕ, zero, suc, ◌+◌, ◌≡◌, ◌≤◌, ◌<◌, refl, Bool, true, false, [], ◌∷◌, arith, if◌then◌else◌, ◌==◌,
  length, Bool-cases, inl, inr,
}
use plasma_ai_usage_monitor.AwsSigV4.{
  Bytes, Platform, has_pair, replace_from, squeeze, to_lower_trimmed,
}

replace_from-le :
    (pending : Bool) (bs : Bytes)
    → length (replace_from pending bs) ≤ length bs + (if pending then 1 else 0)
unfolding replace_from
replace_from-le true [] = omega arith
replace_from-le false [] = omega arith
replace_from-le true (b ∷ bs) = ground (arith, replace_from-le false bs)
replace_from-le false (b ∷ bs) = ground (arith, replace_from-le (b == 32) bs)

replace_from-lt :
    (pending : Bool) (bs : Bytes)
    → has_pair pending bs ≡ true
    → length (replace_from pending bs) < length bs + (if pending then 1 else 0)
unfolding has_pair replace_from
replace_from-lt pending [] h = cc
replace_from-lt true (b ∷ bs) h = ground (arith, replace_from-le false bs, replace_from-lt false bs)
replace_from-lt false (b ∷ bs) h = ground (arith, replace_from-lt (b == 32) bs)

squeeze-done : (fuel : ℕ) (bs : Bytes) → length bs ≤ fuel → has_pair false (squeeze fuel bs) ≡ false
unfolding squeeze has_pair
squeeze-done zero [] le = refl
squeeze-done zero (b ∷ bs) le = absurd (omega arith)
squeeze-done (suc fuel) bs le = elim (Bool-cases (has_pair false bs)) [
  | inl spaced ↦
      rw spaced
        (squeeze-done fuel (replace_from false bs) (omega (arith, replace_from-lt false bs spaced)))
  | inr done ↦ rw done done
]

-- The loop of toLowerTrimmed ends after at most as many rounds as the text has bytes: in the result
-- no space follows another.
pub to_lower_trimmed-done :
    (p : Platform) (value : Bytes) → has_pair false (to_lower_trimmed p value) ≡ false
unfolding to_lower_trimmed
to_lower_trimmed-done p value =
    squeeze-done (length (p.to_lower (p.trimmed value))) (p.to_lower (p.trimmed value))
      (omega arith)
