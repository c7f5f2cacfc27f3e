-- ===== src/BudgetPacing/Days.antt =====
-- The days of the baseline of plugin/budgetpacingquery.cpp and the sums of a period.
use plasma_ai_usage_monitor.Prelude.{
  subst, ap, refl, Bool-cases, inl, inr, ◌<◌, ◌^◌, ℕ, suc, ◌+◌, ◌≡◌, ◌≤◌, true, false, List, [],
  ◌∷◌, arith, if◌then◌else◌, length, All,
}
use plasma_ai_usage_monitor.Prelude.Int.{
  ℤ, pos, negsuc, ◌+ℤ◌, ltb_ℤ, pos_part, pos-+, wrap_64, wrap_64-fits,
}
use plasma_ai_usage_monitor.BillingCycle.{Cycle}
use plasma_ai_usage_monitor.BudgetPacing.{
  within, Observation, insert_day, day_of, baseline_from, is_complete_utc_day, last_day,
  expected_days, value_of, sum_within,
}

-- The days rise, from lo on.
abbrev pub IsRising : ℕ → List (ℕ × ℤ) → Type 0
IsRising lo [] = Unit
IsRising lo ((d, v) ∷ days) = (lo ≤ d) × IsRising (suc d) days

insert_day-IsRising :
    (d : ℕ) (v : ℤ) (lo : ℕ) (days : List (ℕ × ℤ))
    → lo ≤ d
    → IsRising lo days
    → IsRising lo (insert_day d v days)
unfolding insert_day
insert_day-IsRising d v lo [] le h = (le, tt)
insert_day-IsRising d v lo ((e, w) ∷ days) le (first, h) =
    ground (arith, insert_day-IsRising d v (suc e) days)

baseline_from-IsRising :
    (os : List Observation) (today : ℕ) (days : List (ℕ × ℤ))
    → IsRising 0 days
    → IsRising 0 (baseline_from os today days)
unfolding baseline_from
baseline_from-IsRising [] today days h = h
baseline_from-IsRising (o ∷ os) today days h =
    let d = day_of o.interval_start in
    baseline_from-IsRising os today
      (if is_complete_utc_day o today then insert_day d (value_of o) days else days)
      (elim (is_complete_utc_day o today)
        as (λ b. IsRising 0 (if b then insert_day d (value_of o) days else days)) [
          | true ↦ insert_day-IsRising d (value_of o) 0 days (omega arith) h
          | false ↦ h
        ])

length-le-last_day :
    (d : ℕ) (days : List (ℕ × ℤ)) → IsRising (suc d) days → d + length days ≤ last_day d days
length-le-last_day d [] h = omega arith
length-le-last_day d ((e, w) ∷ days) (le, h) = omega (arith, length-le-last_day e days h)

length-le : (days : List (ℕ × ℤ)) → IsRising 0 days → length days ≤ expected_days days
unfolding expected_days
length-le [] h = omega arith
length-le ((d, v) ∷ days) h = omega (arith, length-le-last_day d days h.1)

-- There are no more days than from the first to the last.
pub length-le-expected_days :
    (os : List Observation) (today : ℕ)
    → let days = baseline_from os today [] in length days ≤ expected_days days
length-le-expected_days os today =
    length-le (baseline_from os today []) (baseline_from-IsRising os today [] tt)

-- The sum of a period without the bounds of an integer, of values that are not negative.
abbrev pub total_within : List Observation → Cycle → ℕ
total_within [] c = 0
total_within (o ∷ os) c = (if within c o then pos_part (value_of o) else 0) + total_within os c

add_fits :
    (v : ℤ) (n : ℕ)
    → ltb_ℤ v (pos 0) ≡ false
    → pos_part v + n < 2 ^ 63
    → wrap_64 (v +ℤ pos n) ≡ pos (pos_part v + n)
add_fits (negsuc a) n h fits = absurd (ground arith)
add_fits (pos a) n h fits = rw (pos-+ a n) (wrap_64-fits (a + n) fits)

-- Where that sum fits in 64 bits, the sum is it.
sum_within-total :
    (os : List Observation) (c : Cycle)
    → All (λ o. ltb_ℤ (value_of o) (pos 0) ≡ false) os
    → total_within os c < 2 ^ 63
    → (sum_within os c).0 ≡ pos (total_within os c)
unfolding sum_within
sum_within-total [] c h fits = refl
sum_within-total (o ∷ os) c (h, hs) fits = elim (Bool-cases (within c o)) [
  | inl inside ↦
      let added : pos_part (value_of o) + total_within os c < 2 ^ 63 =
        subst (λ b. (if b then pos_part (value_of o) else 0) + total_within os c < 2 ^ 63) inside
          fits in
      rw (inside, sum_within-total os c hs (omega arith))
        (add_fits (value_of o) (total_within os c) h added)
  | inr outside ↦
      let kept : 0 + total_within os c < 2 ^ 63 =
        subst (λ b. (if b then pos_part (value_of o) else 0) + total_within os c < 2 ^ 63) outside
          fits in
      rw (outside, sum_within-total os c hs (omega arith)) (ap pos (omega arith))
]

pub sum_within-nonneg :
    (os : List Observation) (c : Cycle)
    → All (λ o. ltb_ℤ (value_of o) (pos 0) ≡ false) os
    → total_within os c < 2 ^ 63
    → ltb_ℤ (sum_within os c).0 (pos 0) ≡ false
sum_within-nonneg os c h fits = rw (sum_within-total os c h fits) (ground arith)
