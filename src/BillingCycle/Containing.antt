-- ===== src/BillingCycle/Containing.antt =====
-- The cycles of plugin/billingcycleresolver.cpp and the instants they contain.
use plasma_ai_usage_monitor.Prelude.{
  ℕ, ◌-◌, ◌≤◌, ◌<◌, ◌≡◌, refl, sym, subst, ◌⊎◌, inl, inr, Bool, true, false, not, ◌&&◌, ◌||◌, none,
  some, String, if◌then◌else◌, ltb, leb, str_eq, arith, Bool-cases,
}
use plasma_ai_usage_monitor.Prelude.Qt.{DateTime}
use plasma_ai_usage_monitor.BillingCycle.{
  Calendar, Request, Cycle, is_valid, invalid, containing, provider_cycle, day_range, week_range,
  month_range, anchored_range, local_cycle, anchored_cycle, resolve_at, now_of, resolve,
  before_start, previous,
}

-- The cycle gives a reason and no instants, or it gives none and contains the instant.
abbrev pub Contains : Cycle → ℕ → Type 0
Contains c now =
    ((is_valid c ≡ false) × (str_eq c.reason_key "" ≡ false))
    ⊎ ((start : ℕ) × (end' : ℕ) × (c.start_utc ≡ some start)
        × (c.end_utc ≡ some end')
        × (is_valid c ≡ true)
        × (start ≤ now)
        × (now < end'))

invalid-Contains :
    (reason : String) (now : ℕ) → str_eq reason "" ≡ false → Contains (invalid reason) now
unfolding invalid is_valid
invalid-Contains reason now told = inl (rw told refl, told)

containing-Contains :
    (reason : String) (start end' : DateTime) (now : ℕ)
    → str_eq reason "" ≡ false
    → Contains (containing reason start end' now) now
unfolding containing is_valid
containing-Contains reason none end' now told = invalid-Contains reason now told
containing-Contains reason (some start) none now told = invalid-Contains reason now told
containing-Contains reason (some start) (some end') now told =
    elim (Bool-cases (leb start now && ltb now end')) [
      | inr outside ↦ rw outside (invalid-Contains reason now told)
      | inl inside ↦
          rw inside (inr (start, end', refl, refl, ground arith, ground arith, ground arith))
    ]

reason_told :
    (reason : String) → str_eq (if str_eq reason "" then "invalid-policy" else reason) "" ≡ false
reason_told reason = elim (Bool-cases (str_eq reason "")) [
  | inl missing ↦ rw missing refl
  | inr told ↦ rw told told
]

-- One cycle or the other.
if-Contains :
    (b : Bool) (x y : Cycle) (now : ℕ)
    → Contains x now
    → Contains y now
    → Contains (if b then x else y) now
if-Contains true x y now here there = here
if-Contains false x y now here there = there

pub valid_between :
    (reason : String) (t u now : ℕ)
    → t ≤ now
    → now < u
    → is_valid (containing reason (some t) (some u) now) ≡ true
unfolding containing is_valid
valid_between reason t u now le lt =
    let inside : (leb t now && ltb now u) ≡ true = ground arith in rw inside (ground arith)

module _ (c : Calendar) where
  local_cycle-Contains :
      (r : Request) (range : ℕ × ℕ) (now : ℕ) → Contains (local_cycle c r range now) now
  unfolding local_cycle
  local_cycle-Contains r (start, end') now =
      containing-Contains "invalid-policy" (c.midnight r.time_zone_id start)
        (c.midnight r.time_zone_id end') now refl

  resolve_at-Contains : (r : Request) (now : ℕ) → Contains (resolve_at c r now) now
  unfolding resolve_at provider_cycle anchored_cycle
  resolve_at-Contains r now =
      let d = c.local_date r.time_zone_id now in
      let vain = invalid-Contains "invalid-policy" now refl in
      let unstable = invalid-Contains "unstable-reset" now refl in
      let is_type = str_eq r.period_type in
      let untrusted =
        not r.catalog_supports_provider_reset
        || not r.provider_reset_authenticated
        || not r.provider_reset_stable in
      if-Contains (is_type "provider_reset") _ _ now
        (if-Contains untrusted _ _ now unstable (
          containing-Contains "unstable-reset" r.provider_period_start r.provider_reset_at now
            refl))
        (if-Contains (not (c.is_zone r.time_zone_id)) _ _ now vain (
          if-Contains (is_type "calendar_day") _ _ now
            (local_cycle-Contains r (day_range c r d) now)
            (if-Contains (is_type "iso_week") _ _ now
              (local_cycle-Contains r (week_range c r d) now)
              (if-Contains (is_type "calendar_month") _ _ now
                (local_cycle-Contains r (month_range c r d) now)
                (if-Contains (is_type "anchored_month") _ _ now
                  (if-Contains (ltb r.anchor_day 1 || ltb 28 r.anchor_day) _ _ now vain
                    (local_cycle-Contains r (anchored_range c r d) now))
                  vain)))))

  -- Whatever the request and the calendar: a cycle that is resolved either gives a reason and is
  -- not valid, or is valid and contains the instant that it was asked for.
  pub resolve-Contains : (r : Request) (clock : ℕ) → Contains (resolve c r clock) (now_of c r clock)
  unfolding resolve
  resolve-Contains r clock = resolve_at-Contains r (now_of c r clock)

  abbrev pub Reaches : Cycle → ℕ → Type 0
  Reaches found start =
      (from : ℕ) × (to : ℕ) × (found.start_utc ≡ some from)
      × (found.end_utc ≡ some to)
      × (from < start)
      × (start ≤ to)

  Reaches-Contains :
      (found : Cycle) (start : ℕ)
      → 1 ≤ start
      → is_valid found ≡ true
      → Contains found (start - 1)
      → Reaches found start
  Reaches-Contains found start after good (inl (bad, told)) = cc
  Reaches-Contains found start after good (inr (from, to, at, until, ok, le, lt)) =
      (from, to, at, until, omega arith, omega arith)

  before-Contains :
      (r : Request) (begins : DateTime) (start clock : ℕ)
      → begins ≡ some start
      → Contains (before_start c r clock begins) (start - 1)
  unfolding before_start
  before-Contains r begins start clock same =
      subst (λ x. Contains (before_start c r clock x) (start - 1)) (sym same)
        (resolve-Contains (record r { generated_at = some (start - 1) }) clock)

  previous-Contains :
      (r : Request) (current : Cycle) (start clock : ℕ)
      → current.start_utc ≡ some start
      → Contains (previous c r current clock) (start - 1)
  unfolding previous
  previous-Contains r current start clock begins =
      if-Contains (not (is_valid current)) _ _ (start - 1)
        (invalid-Contains
          (if str_eq current.reason_key "" then "invalid-policy" else current.reason_key)
          (start - 1) (reason_told current.reason_key))
        (if-Contains (str_eq r.period_type "provider_reset") _ _ (start - 1)
          (invalid-Contains "unstable-reset" (start - 1) refl)
          (before-Contains r current.start_utc start clock begins))

  -- The cycle before a valid one, where it is valid too, begins before that one and reaches up to
  -- it, for a cycle that begins after the epoch.
  pub previous-before :
      (r : Request) (current : Cycle) (start clock : ℕ)
      → 1 ≤ start
      → current.start_utc ≡ some start
      → is_valid (previous c r current clock) ≡ true
      → Reaches (previous c r current clock) start
  previous-before r current start clock after begins good =
      Reaches-Contains (previous c r current clock) start after good
        (previous-Contains r current start clock begins)
