-- ===== src/BudgetPacing/Available.antt =====
-- `evaluate` of plugin/budgetpacingquery.cpp against the contract of forecasts: from the guards of the
-- code to what a result relies on.
use package.text.Mathlib.TextEquality.{eq_iff}
use plasma_ai_usage_monitor.Prelude.{
  ◌^◌, ℕ, ◌/◌, ◌*◌, ◌≡◌, ◌≤◌, ◌<◌, refl, Bool, true, false, not, ◌||◌, Option, none, some, List, [],
  ◌∷◌, String, str_eq, arith, if◌then◌else◌, is_some, length, ltb, ap, ◌∙◌, All, Bool-cases, inl,
  inr, ◌==◌,
}
use plasma_ai_usage_monitor.Prelude.Int.{ℤ, pos, ltb_ℤ}
use plasma_ai_usage_monitor.Prelude.Qt.{Qt}
use plasma_ai_usage_monitor.Prelude.Doubles.{Doubles, IsDoubles}
use plasma_ai_usage_monitor.Forecast.{Result, State, is_state, has_text}
use plasma_ai_usage_monitor.Forecast.Contract.{validate, blank}
use plasma_ai_usage_monitor.BillingCycle.{Calendar}
use plasma_ai_usage_monitor.CurrencyMinorUnits.{digits, digits_of}
use plasma_ai_usage_monitor.BudgetPacing.{
  day_ms, Observation, Request, sum_within, latest_from, baseline_from, values, median, coverage_of,
  expected_days, value_of,
}
use plasma_ai_usage_monitor.BudgetPacing.Days.{
  total_within, length-le-expected_days, sum_within-nonneg,
}
use plasma_ai_usage_monitor.BudgetPacing.Valid.{IsText, IsSound, result_of-valid}
use plasma_ai_usage_monitor.BudgetPacing.Evaluate.{
  scope_of, currency_of, unavailable, is_refused, first_fault, observation_fault, paced, compared,
  evaluate, instant, previous_sum,
}

-- The fields that matter of the ten tests.
refused_parts :
    (a b c d e f g h i j : Bool)
    → (a || b || c || d || e || f || g || not h || i || j) ≡ false
    → (a ≡ false) × (b ≡ false) × (c ≡ false) × (d ≡ false) × (h ≡ true)
refused_parts a b c d e f g h i j none_applies = ground arith

true_of_not : (b : Bool) → not b ≡ false → b ≡ true
true_of_not b h = ground arith

no_fault :
    (fault rest : Option String)
    → elim fault as (λ f. Option String) [ none ↦ rest | some reason ↦ some reason ] ≡ none
    → (fault ≡ none) × (rest ≡ none)
no_fault none rest h = (refl, h)
no_fault (some reason) rest h = cc

counted :
    (missing negative : Bool) (reason : String) (rest : Option String)
    → (if missing || negative then some reason else rest) ≡ none
    → negative ≡ false
counted missing negative reason rest h = ground arith

not_code : (s : String) → s ≡ "" → is_some (digits_of s) ≡ false
unfolding digits_of has_text
not_code s empty = rw empty refl

module _ {D : Type 0} (q : Qt D) (m : Doubles D) (c : Calendar) (texts : IsText q)
    (doubles : IsDoubles q m) where
  -- From nought to a hundred.
  abbrev IsPart : D → Type 0
  IsPart d = (q.is_finite d ≡ true) × (q.less d q.nought ≡ false) × (q.less q.hundred d ≡ false)

  nought-IsPart : IsPart q.nought
  nought-IsPart = (doubles.nought-finite, doubles.nought-not_less, doubles.nought-le)

  if-IsPart :
      (a b : Bool) (x : D)
      → (b ≡ true → IsPart x)
      → IsPart (if a then q.nought else if b then x else q.nought)
  if-IsPart true b x h = nought-IsPart
  if-IsPart false true x h = h refl
  if-IsPart false false x h = nought-IsPart

  coverage_of-IsPart :
      (days : List (ℕ × ℤ)) → length days ≤ expected_days days → IsPart (coverage_of q m days)
  unfolding coverage_of
  coverage_of-IsPart days le = if-IsPart (length days == 0) (ltb 0 (expected_days days)) _ (λ more.
      let positive : 0 < expected_days days = ground arith in
      let n = length days in
      let e = expected_days days in
      (
        doubles.percent-finite n e positive,
        doubles.percent-not_less n e positive,
        doubles.percent-le n e positive le,
      ))

  fault_free :
      (r : Request) (os : List Observation)
      → first_fault q m c r os ≡ none
      → All (λ o. ltb_ℤ (value_of o) (pos 0) ≡ false) os
  unfolding first_fault
  fault_free r [] h = tt
  fault_free r (o ∷ os) h =
      let (here, rest) = no_fault (observation_fault q m c r o) (first_fault q m c r os) h in
      (
        counted (not (is_some o.value_minor)) (ltb_ℤ (value_of o) (pos 0)) _ _ here,
        fault_free r os rest,
      )

  known_currency :
      (r : Request)
      → is_some (digits q m (currency_of q m c r)) ≡ true
      → blank q (currency_of q m c r) ≡ false
  unfolding digits
  known_currency r known = elim (Bool-cases (blank q (currency_of q m c r))) [
    | inl empty ↦
        let nothing = (eq_iff (q.trimmed (currency_of q m c r)) "").0 empty in
        let unknown =
          not_code (q.to_upper (q.trimmed (currency_of q m c r)))
            (ap q.to_upper nothing ∙ texts.upper_empty) in
        cc (known, unknown)
    | inr named ↦ named
  ]

  record IsFine (x : Result D) : Type 0 where
    valid : is_state x.state State.unavailable ≡ false → validate q x ≡ none

  unavailable-IsFine :
      (r : Request) (reason : String) (samples : ℕ) (coverage : D)
      → IsFine (unavailable q m c r reason samples coverage)
  unfolding unavailable
  unavailable-IsFine r reason samples coverage = record { valid = λ h. cc }

  if-IsFine :
      (b : Bool) (x y : Result D) → IsFine x → (b ≡ false → IsFine y) → IsFine (if b then x else y)
  if-IsFine true x y hx hy = hx
  if-IsFine false x y hx hy = hy refl

  module _ (r : Request) (window : blank q r.period_type ≡ false)
      (scope : blank q (scope_of r) ≡ false) where
    pace-IsSound :
        (now : ℕ) (os : List Observation)
        → is_refused q m c r ≡ false
        → is_some (digits q m (currency_of q m c r)) ≡ true
        → first_fault q m c r os ≡ none
        → total_within os r.cycle < 2 ^ 63
        → (daily : D) → (previous : ℤ × Bool)
        → let days = baseline_from os (now / day_ms * day_ms) [] in
          IsSound q m c texts doubles r (record {
            now = now;
            currency = currency_of q m c r;
            spent = (sum_within os r.cycle).0;
            sample_count = length days;
            coverage = coverage_of q m days;
            daily_baseline = daily;
            previous = previous;
          })
    pace-IsSound now os allowed known compatible fits daily previous =
        let (policy, source, kind, limit, cycle) = refused_parts _ _ _ _ _ _ _ _ _ _ allowed in
        let today = now / day_ms * day_ms in
        let (finite, above, below) =
          coverage_of-IsPart (baseline_from os today []) (length-le-expected_days os today) in
        record {
          policy = policy;
          source = source;
          source_kind = kind;
          window = window;
          scope = scope;
          currency = known_currency r known;
          known = known;
          limit = limit;
          cycle = cycle;
          spent = sum_within-nonneg os r.cycle (fault_free r os compatible) fits;
          finite = finite;
          above = above;
          below = below;
        }

    paced-IsFine :
        (now : ℕ) (os : List Observation)
        → is_refused q m c r ≡ false
        → is_some (digits q m (currency_of q m c r)) ≡ true
        → first_fault q m c r os ≡ none
        → total_within os r.cycle < 2 ^ 63
        → IsFine (paced q m c r now os)
    unfolding paced
    paced-IsFine now os allowed known compatible fits =
        let days = baseline_from os (now / day_ms * day_ms) [] in
        let coverage = coverage_of q m days in
        if-IsFine (not (sum_within os r.cycle).1) _ _ (unavailable-IsFine r "no-data" 0 q.nought)
          (λ spent.
            if-IsFine
              (ltb (length days) 5 || q.less (m.plus coverage m.epsilon) (m.of_long (pos 70))) _ _
              (unavailable-IsFine r "insufficient-samples" (length days) coverage)
              (λ enough. record {
                valid = λ available. result_of-valid q m c texts doubles r _ (
                    pace-IsSound now os allowed known compatible fits (median q m (values days))
                      (previous_sum q m c r os));
              }))

    fault-IsFine :
        (fault : Option String) (x : Result D)
        → (fault ≡ none → IsFine x)
        → IsFine (elim fault as (λ f. Result D) [
          | none ↦ x
          | some reason ↦ unavailable q m c r reason 0 q.nought
        ])
    fault-IsFine none x h = h refl
    fault-IsFine (some reason) x h = unavailable-IsFine r reason 0 q.nought

    compared-IsFine :
        (now : ℕ) (os : List Observation)
        → is_refused q m c r ≡ false
        → is_some (digits q m (currency_of q m c r)) ≡ true
        → total_within os r.cycle < 2 ^ 63
        → IsFine (compared q m c r now os)
    unfolding compared
    compared-IsFine now [] allowed known fits = unavailable-IsFine r _ 0 q.nought
    compared-IsFine now (o ∷ os) allowed known fits =
        fault-IsFine (first_fault q m c r (o ∷ os)) (paced q m c r now (o ∷ os))
          (λ compatible. paced-IsFine now (o ∷ os) allowed known compatible fits)

    evaluate-IsFine :
        total_within (latest_from r [] r.observations) r.cycle < 2 ^ 63 → IsFine (evaluate q m c r)
    unfolding evaluate
    evaluate-IsFine fits =
        if-IsFine (not (str_eq r.preflight_reason "")) _ _ (unavailable-IsFine r _ 0 q.nought)
          (λ ready.
            if-IsFine (is_refused q m c r) _ _ (unavailable-IsFine r _ 0 q.nought) (λ allowed.
              if-IsFine (not (is_some (digits q m (currency_of q m c r)))) _ _
                (unavailable-IsFine r _ 0 q.nought)
                (λ known.
                  if-IsFine (not (c.is_zone r.time_zone_id)) _ _ (unavailable-IsFine r _ 0 q.nought)
                    (λ zone.
                      compared-IsFine (instant q m c r.generated_at)
                        (latest_from r [] r.observations) allowed (true_of_not _ known) fits))))

    -- Where the type of the period and the name of the scope are not blank and the observations
    -- that count within the period sum to less than 2 ^ 63, every answer of evaluate that is not
    -- unavailable meets the contract of forecasts: its texts, times, evidence, amounts and the
    -- fields of a budget pacing are valid. Of the doubles it relies on the laws of IsDoubles, of
    -- the texts on those of IsText.
    pub evaluate-valid :
        total_within (latest_from r [] r.observations) r.cycle < 2 ^ 63
        → is_state (evaluate q m c r).state State.unavailable ≡ false
        → validate q (evaluate q m c r) ≡ none
    evaluate-valid fits = (evaluate-IsFine fits).valid
