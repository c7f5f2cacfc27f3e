-- ===== src/QuotaRunway/Evidence.antt =====
-- What an answer of plugin/quotarunwayquery.cpp other than unavailable rests on.
use plasma_ai_usage_monitor.Prelude.{
  ℕ, ◌+◌, ◌≡◌, ◌≤◌, refl, ap, subst, Bool, true, false, not, ◌||◌, Option, none, some, List, [],
  ◌∷◌, String, arith, if◌then◌else◌, is_some, length, ltb, All, ==_iff,
}
use plasma_ai_usage_monitor.Prelude.Int.{pos, ltb_ℤ}
use plasma_ai_usage_monitor.Prelude.Qt.{DateTime, earlier, Qt}
use plasma_ai_usage_monitor.Prelude.Doubles.{Doubles}
use plasma_ai_usage_monitor.Forecast.{Result, State, is_state}
use plasma_ai_usage_monitor.QuotaRunway.{
  Sample, Request, seconds, sort_into, sorted, last_of, supported_source, remaining_of, limit_of,
  coverage,
}
use plasma_ai_usage_monitor.QuotaRunway.Evaluate.{
  unavailable, is_missing, is_foreign, sample_fault, first_fault, refills, series_fault,
  evaluate_sorted, evaluate, same_time, projected,
}

length-sort_into :
    {D : Type 0} → (s : Sample D) (ss : List (Sample D)) → length (sort_into s ss) ≡ length ss + 1
unfolding sort_into
length-sort_into s [] = refl
length-sort_into s (t ∷ ts) = ground (arith, length-sort_into s ts)

length-sorted : {D : Type 0} → (ss : List (Sample D)) → length (sorted ss) ≡ length ss
unfolding sorted
length-sorted [] = refl
length-sorted (s ∷ ss) = omega (arith, length-sort_into s (sorted ss), length-sorted ss)

All-sort_into :
    {D : Type 0}
    → (P : Sample D → Type 0) (s : Sample D) (ss : List (Sample D)) → All P (sort_into s ss)
    → P s × All P ss
unfolding sort_into
All-sort_into P s [] h = h
All-sort_into P s (t ∷ ts) h = parts (earlier t.observed_at s.observed_at) (All-sort_into P s ts) h
  where
    parts :
        (b : Bool)
        → (All P (sort_into s ts) → P s × All P ts)
        → All P (if b then t ∷ sort_into s ts else s ∷ t ∷ ts)
        → P s × All P (t ∷ ts)
    parts true more (first, rest) = let (here, later) = more rest in (here, (first, later))
    parts false more h = h

All-sorted :
    {D : Type 0} → (P : Sample D → Type 0) (ss : List (Sample D)) → All P (sorted ss) → All P ss
unfolding sorted
All-sorted P [] h = h
All-sorted P (s ∷ ss) h =
    let (here, rest) = All-sort_into P s (sorted ss) h in (here, All-sorted P ss rest)

answered :
    {D : Type 0}
    → (fault : Option String) (bad : String → Result D) (good : Result D)
    → ((reason : String) → is_state (bad reason).state State.unavailable ≡ true)
    → is_state
        (elim fault as (λ f. Result D) [ some reason ↦ bad reason | none ↦ good ]).state
        State.unavailable
      ≡ false
    → fault ≡ none
answered none bad good refused h = refl
answered (some reason) bad good refused h = cc (h, refused reason)

no_fault :
    (fault rest : Option String)
    → elim fault as (λ f. Option String) [ none ↦ rest | some reason ↦ some reason ] ≡ none
    → (fault ≡ none) × (rest ≡ none)
no_fault none rest h = (refl, h)
no_fault (some reason) rest h = cc

same_time-eq : (a b : DateTime) → same_time a b ≡ true → a ≡ b
same_time-eq none none h = refl
same_time-eq none (some b) h = cc
same_time-eq (some a) none h = cc
same_time-eq (some a) (some b) h = ap some ((==_iff a b).0 h)

three_tests :
    (a b c : Bool) (x y z : String)
    → (if a then some x else if not b then some y else if c then some z else none) ≡ none
    → (a ≡ false) × (b ≡ true) × (c ≡ false)
three_tests a b c x y z h = ground arith

five_tests :
    (a b c d e : Bool) (v w x y z : String)
    → (if a
        then some v
        else if b
        then some w
        else if c
        then some x
        else if not d
        then some y
        else if e
        then some z
        else none)
      ≡ none
    → (a ≡ false) × (b ≡ false) × (c ≡ false) × (d ≡ true) × (e ≡ false)
five_tests a b c d e v w x y z h = ground arith

nine_tests :
    (a b c d e f g h i : Bool)
    → (not a || not b || not c || not d || not e || not f || g || h || i) ≡ false
    → (c ≡ true) × (d ≡ true) × (e ≡ true) × (f ≡ true) × (g ≡ false) × (h ≡ false) × (i ≡ false)
nine_tests a b c d e f g h i none_applies = ground arith

at_least_four : (n : ℕ) → ltb n 4 ≡ false → 4 ≤ n
at_least_four n h = ground arith

or_left : (a b : Bool) → (a || b) ≡ false → a ≡ false
or_left a b h = ground arith

four_tests : (a b c d : Bool) → (not a || not b || not c || d) ≡ false → (a ≡ true) × (b ≡ true)
four_tests a b c d none_applies = ground arith

module _ {D : Type 0} (q : Qt D) (m : Doubles D) where
  -- A sample that counts: it has an amount within its limit, is of a source and of the unit that are
  -- supported, and its window has not ended.
  pub record IsUsable (r : Request D) (now : DateTime) (s : Sample D) : Type 0 where
    pub remaining : is_some s.remaining ≡ true
    pub limit : is_some s.limit ≡ true
    pub finite : q.is_finite (remaining_of q m s) ≡ true
    pub nonneg : q.less (remaining_of q m s) q.nought ≡ false
    pub positive : m.at_least q.nought (limit_of q m s) ≡ false
    pub within : q.less (m.plus (limit_of q m s) m.epsilon) (remaining_of q m s) ≡ false
    pub source : supported_source q m s.source ≡ true
    pub unit : q.equal_fold s.unit r.unit ≡ true
    pub open_window : earlier now s.reset_at ≡ true

  -- The samples in order: nothing was refilled, they span a quarter of an hour and are not older.
  abbrev pub IsSeries : DateTime → List (Sample D) → Type 0
  IsSeries now [] = ⊥
  IsSeries now (s ∷ ss) =
      (refills q m s ss ≡ false)
      × (ltb_ℤ (seconds s.observed_at (last_of s ss).observed_at) (pos 900) ≡ false)
      × (ltb_ℤ (pos 900) (seconds (last_of s ss).observed_at now) ≡ false)

  sample-IsUsable :
      (r : Request D) (now : DateTime) (first s : Sample D) (period_end : DateTime)
      → earlier now period_end ≡ true
      → sample_fault q m r first period_end s ≡ none
      → IsUsable r now s
  sample-IsUsable r now first s period_end ahead h =
      let (complete, supported, same) =
        three_tests (is_missing q m s) (supported_source q m s.source)
          (is_foreign q m r first period_end s) _ _ _ h in
      let (remaining, limit, finite, limit_finite, nonneg, positive, within) =
        nine_tests _ _ _ _ _ _ _ _ _ complete in
      let (window, unit) = four_tests _ _ _ _ same in
      record {
        remaining = remaining;
        limit = limit;
        finite = finite;
        nonneg = nonneg;
        positive = positive;
        within = within;
        source = supported;
        unit = unit;
        open_window = rw (same_time-eq s.reset_at period_end window) ahead;
      }

  samples-IsUsable :
      (r : Request D) (now : DateTime) (first : Sample D) (period_end : DateTime)
      (ss : List (Sample D))
      → earlier now period_end ≡ true
      → first_fault q m r first period_end ss ≡ none
      → All (IsUsable r now) ss
  unfolding first_fault
  samples-IsUsable r now first period_end [] ahead h = tt
  samples-IsUsable r now first period_end (s ∷ ss) ahead h =
      let (here, rest) =
        no_fault (sample_fault q m r first period_end s) (first_fault q m r first period_end ss)
          h in
      (
        sample-IsUsable r now first s period_end ahead here,
        samples-IsUsable r now first period_end ss ahead rest,
      )

  sorted-lem :
      (r : Request D) (now : DateTime) (ss : List (Sample D))
      → is_state (evaluate_sorted q m r now ss).state State.unavailable ≡ false
      → (4 ≤ length ss) × All (IsUsable r now) ss × IsSeries now ss
  unfolding evaluate_sorted unavailable
  sorted-lem r now [] h = cc
  sorted-lem r now (s ∷ ss) h =
      let period_end = (last_of s ss).reset_at in
      let fault = first_fault q m r s period_end (s ∷ ss) in
      let series = series_fault q m now s ss in
      let sound = answered fault _ _ (λ reason. refl) h in
      let whole =
        answered series
          (λ reason.
            unavailable q m r now reason (length (s ∷ ss)) (coverage q m (s ∷ ss)) period_end)
          (projected q m r now s ss) (λ reason. refl)
          (subst
            (λ f.
              is_state
                (elim f as (λ g. Result D) [
                  | some reason ↦ unavailable q m r now reason (length (s ∷ ss)) q.nought period_end
                  | none ↦ elim series as (λ g. Result D) [
                    | some reason ↦
                        unavailable q m r now reason (length (s ∷ ss)) (coverage q m (s ∷ ss))
                          period_end
                    | none ↦ projected q m r now s ss
                  ]
                ]).state
                State.unavailable
              ≡ false)
            sound h) in
      let (enough, span, fresh, ahead, drained) = five_tests _ _ _ _ _ _ _ _ _ _ whole in
      (
        at_least_four (length (s ∷ ss)) enough,
        samples-IsUsable r now s period_end (s ∷ ss) ahead sound,
        (drained, span, (or_left _ _ fresh)),
      )

  -- A forecast of a quota other than unavailable rests on its evidence: there are at least four
  -- samples, each has a finite amount within its positive limit, a supported source, the unit of
  -- the request and a window that has not ended, and in the order of time nothing is refilled, they
  -- span a quarter of an hour, and the last is at most a quarter of an hour old.
  pub evaluate-IsUsable :
      (r : Request D) (now : DateTime)
      → is_state (evaluate q m r now).state State.unavailable ≡ false
      → (4 ≤ length r.samples) × All (IsUsable r now) r.samples × IsSeries now (sorted r.samples)
  unfolding evaluate
  evaluate-IsUsable r now h =
      let (enough, usable, series) = sorted-lem r now (sorted r.samples) h in
      (omega (arith, length-sorted r.samples), All-sorted (IsUsable r now) r.samples usable, series)
