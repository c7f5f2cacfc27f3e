-- ===== src/Subscription/Periods.antt =====
-- The periods of plugin/subscriptiontoolbackend.cpp: their ends, what a reset keeps, and the settings.
use plasma_ai_usage_monitor.Prelude.{
  ℕ, suc, ◌++◌, ◌+◌, ◌*◌, ◌/◌, ◌<◌, ◌≡◌, refl, ap, ◌∙◌, subst, inl, inr, Bool, true, false, ◌&&◌,
  Option, none, some, List, [], ◌∷◌, ltb, leb, arith, Bool-cases, bit, is_some,
}
use plasma_ai_usage_monitor.Prelude.Int.{pos, leb_ℤ, ltb_ℤ}
use plasma_ai_usage_monitor.Prelude.Qt.{DateTime}
use plasma_ai_usage_monitor.Subscription.{
  UsagePeriod, five_hour, daily, weekly, monthly, Tool, Calendar, IsCalendar, Percents, Usage,
  day_ms, month_end, period_end_from, calculate_period_end, is_due, check_primary, check_secondary,
  check_and_reset_period, increment_usage, is_limit_reached, check_limit_warnings, Signal,
  usage_limit_reached, usage_updated, usage_limit_changed, warning_threshold_changed,
  activity_detected, limit_warning, primary_warnings, secondary_warnings,
}

-- The signals of a reached limit.
abbrev pub reached : List Signal → ℕ
reached [] = 0
reached (usage_limit_reached ∷ out) = suc (reached out)
reached (_ ∷ out) = reached out

reached-append : (xs ys : List Signal) → reached (xs ++ ys) ≡ reached xs + reached ys
reached-append [] ys = omega arith
reached-append (usage_limit_reached ∷ xs) ys = omega (arith, reached-append xs ys)
reached-append (usage_updated ∷ xs) ys = reached-append xs ys
reached-append (usage_limit_changed ∷ xs) ys = reached-append xs ys
reached-append (warning_threshold_changed ∷ xs) ys = reached-append xs ys
reached-append (activity_detected ∷ xs) ys = reached-append xs ys
reached-append (limit_warning z ∷ xs) ys = reached-append xs ys

-- A count with its start: none from now on if its period was due, and otherwise kept.
abbrev pub Kept : Bool → ℕ → ℕ → DateTime → ℕ → DateTime → Type 0
Kept true now count start count' start' = (count' ≡ 0) × (start' ≡ some now)
Kept false now count start count' start' = (count' ≡ count) × (start' ≡ start)

module _ (c : Calendar) where
  -- A secondary period, where the tool has one, is not due.
  abbrev pub NotDue : Option UsagePeriod → ℕ → Usage → Type 0
  NotDue none now u = Unit
  NotDue (some p) now u = is_due c now (calculate_period_end c u p u.secondary_period_start) ≡ false

  -- Whether the primary, and the secondary period, are due.
  abbrev pub primary_due : Tool → ℕ → Usage → Bool
  primary_due t now u = is_due c now (calculate_period_end c u t.primary_period u.period_start)

  abbrev pub secondary_due : Option UsagePeriod → ℕ → Usage → Bool
  secondary_due none now u = false
  secondary_due (some p) now u = is_due c now (calculate_period_end c u p u.secondary_period_start)

module _ (c : Calendar) (v : IsCalendar c) where
  day_after : (d e start : ℕ) → start / day_ms ≡ d → d < e → start < e * day_ms
  day_after d e start same less = omega arith

  month_end_later : (day start : ℕ) → start < month_end c day start
  unfolding month_end
  month_end_later day start =
      let d = start / day_ms in
      elim (Bool-cases (ltb d (c.this_month d day))) [
        | inl this ↦ rw this (day_after d (c.this_month d day) start refl (ground arith))
        | inr no_more ↦ rw no_more (day_after d (c.next_month d day) start refl (v.later d day))
      ]

  period_end_later : (day : ℕ) (p : UsagePeriod) (start : ℕ) → start < period_end_from c day p start
  unfolding period_end_from
  period_end_later day five_hour start = omega arith
  period_end_later day daily start = omega arith
  period_end_later day weekly start = omega arith
  period_end_later day monthly start = month_end_later day start

  not_due_now :
      (u : Usage) (p : UsagePeriod) (now : ℕ)
      → is_due c now (calculate_period_end c u p (some now)) ≡ false
  unfolding calculate_period_end
  not_due_now u p now = ground (arith, period_end_later u.monthly_reset_day p now)

  check_primary-lem :
      (t : Tool) (now : ℕ) (u : Usage)
      → let u' = (check_primary c t now u).0 in
        (is_due c now (calculate_period_end c u' t.primary_period u'.period_start) ≡ false)
        × Kept
            (primary_due c t now u)
            now
            u.usage_count
            u.period_start
            u'.usage_count
            u'.period_start
        × (u'.secondary_usage_count ≡ u.secondary_usage_count)
        × (u'.secondary_period_start ≡ u.secondary_period_start)
        × (u'.monthly_reset_day ≡ u.monthly_reset_day)
  unfolding check_primary calculate_period_end
  check_primary-lem t now u =
      elim (Bool-cases (is_due c now (calculate_period_end c u t.primary_period u.period_start))) [
        | inl due ↦ rw due (not_due_now u t.primary_period now, (refl, refl), refl, refl, refl)
        | inr no_more ↦ rw no_more (no_more, (refl, refl), refl, refl, refl)
      ]

  check_secondary-lem :
      (o : Option UsagePeriod) (now : ℕ) (u : Usage)
      → let u' = (check_secondary c o now u).0 in
        NotDue c o now u'
        × Kept
            (secondary_due c o now u)
            now
            u.secondary_usage_count
            u.secondary_period_start
            u'.secondary_usage_count
            u'.secondary_period_start
        × (u'.usage_count ≡ u.usage_count)
        × (u'.period_start ≡ u.period_start)
        × (u'.monthly_reset_day ≡ u.monthly_reset_day)
  unfolding check_secondary calculate_period_end
  check_secondary-lem none now u = (tt, (refl, refl), refl, refl, refl)
  check_secondary-lem (some p) now u =
      elim (Bool-cases (is_due c now (calculate_period_end c u p u.secondary_period_start))) [
        | inl due ↦ rw due (not_due_now u p now, (refl, refl), refl, refl, refl)
        | inr no_more ↦ rw no_more (no_more, (refl, refl), refl, refl, refl)
      ]

  due_same :
      (u w : Usage) (p : UsagePeriod) (start : DateTime) (now : ℕ)
      → w.monthly_reset_day ≡ u.monthly_reset_day
      → is_due c now (calculate_period_end c w p start)
        ≡ is_due c now (calculate_period_end c u p start)
  unfolding calculate_period_end
  due_same u w p none now same = refl
  due_same u w p (some t) now same = ap (λ day. leb (period_end_from c day p t) now) same

  secondary_due_same :
      (o : Option UsagePeriod) (now : ℕ) (u w : Usage)
      → w.secondary_period_start ≡ u.secondary_period_start
      → w.monthly_reset_day ≡ u.monthly_reset_day
      → secondary_due c o now w ≡ secondary_due c o now u
  secondary_due_same none now u w start day = refl
  secondary_due_same (some p) now u w start day =
      ap (λ t. is_due c now (calculate_period_end c w p t)) start
      ∙ due_same u w p u.secondary_period_start now day

  -- After the periods are checked, neither of them is due: the present instant lies before the end
  -- of each that has begun; a count and its start are none and the present instant if its period
  -- was due, and what they were if it was not, if a day of the next month comes after the days of
  -- this one.
  pub check_and_reset_period-eq :
      (t : Tool) (now : ℕ) (u : Usage)
      → let u' = (check_and_reset_period c t now u).0 in
        (is_due c now (calculate_period_end c u' t.primary_period u'.period_start) ≡ false)
        × NotDue c t.secondary_period now u'
        × Kept
            (primary_due c t now u)
            now
            u.usage_count
            u.period_start
            u'.usage_count
            u'.period_start
        × Kept
            (secondary_due c t.secondary_period now u)
            now
            u.secondary_usage_count
            u.secondary_period_start
            u'.secondary_usage_count
            u'.secondary_period_start
  unfolding check_and_reset_period
  check_and_reset_period-eq t now u =
      let (fresh, kept, count, start, reset_day) = check_primary-lem t now u in
      let u' = (check_primary c t now u).0 in
      let w = (check_secondary c t.secondary_period now u').0 in
      let (fresh', kept', count', start', day) = check_secondary-lem t.secondary_period now u' in
      let same = secondary_due_same t.secondary_period now u u' start reset_day in
      (
        rw start' (due_same u' _ t.primary_period u'.period_start now day ∙ fresh),
        fresh',
        rw (count', start') kept,
        subst
            (λ b.
              Kept b now u.secondary_usage_count u.secondary_period_start w.secondary_usage_count
                w.secondary_period_start)
            same
            (subst
              (λ n.
                Kept (secondary_due c t.secondary_period now u') now n u.secondary_period_start
                  w.secondary_usage_count w.secondary_period_start)
              count
              (subst
                (λ n.
                  Kept (secondary_due c t.secondary_period now u') now u'.secondary_usage_count n
                    w.secondary_usage_count w.secondary_period_start)
                start kept')),
      )

module _ (c : Calendar) where
  quiet_secondary :
      (o : Option UsagePeriod) (now : ℕ) (u : Usage) → reached (check_secondary c o now u).1 ≡ 0
  unfolding check_secondary
  quiet_secondary none now u = refl
  quiet_secondary (some p) now u = ground arith

  quiet_primary : (t : Tool) (now : ℕ) (u : Usage) → reached (check_primary c t now u).1 ≡ 0
  unfolding check_primary
  quiet_primary t now u = ground arith

  quiet_check : (t : Tool) (now : ℕ) (u : Usage) → reached (check_and_reset_period c t now u).1 ≡ 0
  unfolding check_and_reset_period
  quiet_check t now u =
      let u' = (check_primary c t now u).0 in
      omega (
        arith,
        reached-append (check_primary c t now u).1 (check_secondary c t.secondary_period now u').1,
        quiet_primary t now u,
        quiet_secondary t.secondary_period now u',
      )

-- Whether the secondary limit is watched and reached.
abbrev pub secondary_reached : Tool → Usage → Bool
secondary_reached t u =
    is_some t.secondary_period
    && ltb_ℤ (pos 0) u.secondary_usage_limit
    && leb_ℤ u.secondary_usage_limit (pos u.secondary_usage_count)

module _ {D : Type 0} (d : Percents D) (t : Tool) where
  reached-primary :
      (u : Usage) → reached (primary_warnings d t u) ≡ bit (leb_ℤ u.usage_limit (pos u.usage_count))
  unfolding primary_warnings
  reached-primary u = ground arith

  reached-secondary : (u : Usage) → reached (secondary_warnings d t u) ≡ bit (secondary_reached t u)
  unfolding secondary_warnings
  reached-secondary u = ground arith

  reached-check :
      (u : Usage)
      → reached (check_limit_warnings d t u)
        ≡ bit (is_limit_reached u) + bit (ltb_ℤ (pos 0) u.usage_limit && secondary_reached t u)
  unfolding check_limit_warnings is_limit_reached
  reached-check u = ground (
    arith,
    reached-append (primary_warnings d t u) (secondary_warnings d t u),
    reached-primary u,
    reached-secondary u,
  )

  -- A tool's activity is counted once in each of its periods, after those that were due have begun
  -- anew; and it signals a reached limit once for the primary limit where that is reached, and once
  -- for the secondary one where that is reached and there is a primary one.
  pub increment_usage-eq :
      (c : Calendar) (now : ℕ) (u : Usage)
      → let before = (check_and_reset_period c t now u).0 in
        let (after, out) = increment_usage c d t now u in
        (after.usage_count ≡ before.usage_count + 1)
        × (after.secondary_usage_count ≡ before.secondary_usage_count + 1)
        × (after.last_activity ≡ some now)
        × (reached out
            ≡ bit (is_limit_reached after)
              + bit (ltb_ℤ (pos 0) after.usage_limit && secondary_reached t after))
  unfolding increment_usage
  increment_usage-eq c now u =
      let after = (increment_usage c d t now u).0 in
      let last = usage_updated ∷ activity_detected ∷ [] in
      let counted : reached
            ((check_and_reset_period c t now u).1 ++ check_limit_warnings d t after ++ last)
          ≡ bit (is_limit_reached after)
            + bit (ltb_ℤ (pos 0) after.usage_limit && secondary_reached t after) =
        omega (
          arith,
          reached-append ((check_and_reset_period c t now u).1 ++ check_limit_warnings d t after)
              last,
          reached-append (check_and_reset_period c t now u).1 (check_limit_warnings d t after),
          quiet_check c t now u,
          reached-check after,
        ) in
      (refl, refl, refl, counted)
