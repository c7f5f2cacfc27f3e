-- ===== src/Provider/Metrics/Replacing.antt =====
-- What the operations on the metrics of plugin/providerbackend.cpp leave of the others.
use plasma_ai_usage_monitor.Prelude.{
  ◌≡◌, refl, inl, inr, Bool, true, false, not, ◌&&◌, ◌||◌, Option, some, List, [], ◌∷◌, ◌++◌,
  String, keep, str_eq, All, All-keep, All-append, arith, Bool-cases,
}
use text.Mathlib.TextPositions.{eq_refl}
use plasma_ai_usage_monitor.Prelude.Qt.{DateTime}
use plasma_ai_usage_monitor.Provider.Metrics.{
  MetricKind, MetricSource, billing_api, usage_api, metrics_api, response_headers,
  published_documentation, local_observation, estimated_pricing, connectivity_probe, self_tracked,
  browser_sync, is_cost, is_estimate, metric_kind_name, metric_source_name, Scopes, Metric,
  same_scopes, replaced_by, is_estimated_cost, make_metric, without_estimates, set_provider_metric,
  matches, metric,
}

false_of_not : (b : Bool) → not b ≡ true → b ≡ false
false_of_not true h = cc
false_of_not false h = refl

source-real :
    (s : MetricSource)
    → is_estimate s ≡ false
    → str_eq (metric_source_name s) "estimated_pricing" ≡ false
unfolding metric_source_name
source-real billing_api h = refl
source-real usage_api h = refl
source-real metrics_api h = refl
source-real response_headers h = refl
source-real published_documentation h = refl
source-real local_observation h = refl
source-real estimated_pricing h = cc
source-real connectivity_probe h = refl
source-real self_tracked h = refl
source-real browser_sync h = refl

unlike : (a b c d : Bool) → not (a && b && (c || d)) ≡ true → (a && b && d) ≡ false
unlike a b c d h = ground arith

module _ {D : Type 0} where
  -- The same kind, scopes, period and currency.
  abbrev pub alike : Metric D → Metric D → Bool
  alike a b = str_eq a.kind b.kind && same_scopes a.scopes b.scopes && str_eq a.currency b.currency

  abbrev pub Distinct : List (Metric D) → Type 0
  Distinct [] = Unit
  Distinct (m ∷ ms) = All (λ n. alike m n ≡ false) ms × Distinct ms

  pub Distinct-keep :
      (p : Metric D → Bool) (ms : List (Metric D)) → Distinct ms → Distinct (keep p ms)
  Distinct-keep p [] v = tt
  Distinct-keep p (m ∷ ms) (apart, v) =
      elim (p m) as (λ b. Distinct (elim b [ true ↦ m ∷ keep p ms | false ↦ keep p ms ])) [
        | true ↦ (All-keep (λ n. alike m n ≡ false) p ms apart, Distinct-keep p ms v)
        | false ↦ Distinct-keep p ms v
      ]

  Distinct-append :
      (ms : List (Metric D)) (n : Metric D)
      → Distinct ms
      → All (λ m. alike m n ≡ false) ms
      → Distinct (ms ++ n ∷ [])
  Distinct-append [] n v apart = (tt, tt)
  Distinct-append (m ∷ ms) n (apart, v) (far, fars) =
      (All-append (λ k. alike m k ≡ false) ms (n ∷ []) apart (far, tt), Distinct-append ms n v fars)

  kept_one :
      (P : Metric D → Type 0) (p : Metric D → Bool) (m : Metric D) (ms : List (Metric D)) (b : Bool)
      → (b ≡ true → P m)
      → All P (keep p ms)
      → All P (elim b [ true ↦ m ∷ keep p ms | false ↦ keep p ms ])
  kept_one P p m ms true passes rest = (passes refl, rest)
  kept_one P p m ms false passes rest = rest

  -- What is kept passes the test.
  All-kept :
      (P : Metric D → Type 0) (p : Metric D → Bool) (ms : List (Metric D))
      → ((m : Metric D) → p m ≡ true → P m)
      → All P (keep p ms)
  All-kept P p [] passes = tt
  All-kept P p (m ∷ ms) passes = kept_one P p m ms (p m) (passes m) (All-kept P p ms passes)

  not_replaced :
      (kind : String) (scopes : Scopes) (currency : String) (m : Metric D)
      → not (replaced_by kind scopes currency m) ≡ true
      → (str_eq m.kind kind && same_scopes m.scopes scopes && str_eq m.currency currency) ≡ false
  unfolding replaced_by
  not_replaced kind scopes currency m kept =
      unlike (str_eq m.kind kind) (same_scopes m.scopes scopes) (str_eq currency "")
        (str_eq m.currency currency) kept

  Distinct-without_estimates :
      (kind : MetricKind) (source : MetricSource) (quality : String) (ms : List (Metric D))
      → Distinct ms
      → Distinct (without_estimates kind source quality ms)
  unfolding without_estimates
  Distinct-without_estimates kind source quality ms v =
      elim (Bool-cases (is_cost kind && not (is_estimate source) && str_eq quality "actual")) [
        | inl drops ↦ rw drops (Distinct-keep (λ m. not (is_estimated_cost m)) ms v)
        | inr keeps ↦ rw keeps v
      ]

  module _ (starts : String → Bool) (kind : MetricKind) (v : Option D) (unit currency : String)
      (scopes : Scopes) (source : MetricSource) (quality : String) (reset_at now : DateTime) where
    abbrev set_it : List (Metric D) → List (Metric D)
    set_it = set_provider_metric starts kind v unit currency scopes source quality reset_at now

    abbrev new_one : Metric D
    new_one = make_metric starts kind v unit currency scopes source quality reset_at now

    pub Distinct-set : (ms : List (Metric D)) → Distinct ms → Distinct (set_it ms)
    unfolding set_provider_metric make_metric
    Distinct-set ms distinct =
        let others = without_estimates kind source quality ms in
        let p : Metric D → Bool =
          λ m. not (replaced_by (metric_kind_name kind) scopes currency m) in
        Distinct-append (keep p others) new_one
          (Distinct-keep p others (Distinct-without_estimates kind source quality ms distinct))
          (All-kept (λ m. alike m new_one ≡ false) p others
            (λ m kept. not_replaced (metric_kind_name kind) scopes currency m kept))

    metric-append :
        (k s w : String) (ms : List (Metric D)) (n : Metric D)
        → matches k s w n ≡ true
        → metric k s w (ms ++ n ∷ []) ≡ some n
    unfolding metric
    metric-append k s w [] n fits = rw fits refl
    metric-append k s w (m ∷ ms) n fits = rw (metric-append k s w ms n fits) refl

    matches-new : matches (metric_kind_name kind) scopes.scope scopes.window new_one ≡ true
    unfolding matches make_metric
    matches-new =
        rw (eq_refl (metric_kind_name kind), eq_refl scopes.scope, eq_refl scopes.window)
          (ground arith)

    new_real : is_estimate source ≡ false → is_estimated_cost new_one ≡ false
    unfolding is_estimated_cost make_metric
    new_real real = ground (arith, source-real source real)

    no_estimate_left :
        (ms : List (Metric D))
        → is_cost kind ≡ true
        → is_estimate source ≡ false
        → str_eq quality "actual" ≡ true
        → All (λ m. is_estimated_cost m ≡ false) (set_it ms)
    unfolding set_provider_metric without_estimates
    no_estimate_left ms costs real actual =
        let real' : not (is_estimate source) ≡ true = ground arith in
        let p : Metric D → Bool =
          λ m. not (replaced_by (metric_kind_name kind) scopes currency m) in
        let q : Metric D → Bool = λ m. not (is_estimated_cost m) in
        rw (costs, real', actual)
          (All-append (λ m. is_estimated_cost m ≡ false) (keep p (keep q ms)) (new_one ∷ [])
            (All-keep (λ m. is_estimated_cost m ≡ false) p (keep q ms)
              (All-kept (λ m. is_estimated_cost m ≡ false) q ms
                (λ m kept. false_of_not (is_estimated_cost m) kept)))
            (new_real real, tt))

    -- A metric that is set is found again by its kind, its scope and its window, whatever stood in
    -- the list; and once an actual cost is set from any source but an estimate, no estimated cost
    -- is left.
    pub set_provider_metric-eq :
        (ms : List (Metric D))
        → (metric (metric_kind_name kind) scopes.scope scopes.window (set_it ms) ≡ some new_one)
          × (is_cost kind ≡ true
              → is_estimate source ≡ false
              → str_eq quality "actual" ≡ true
              → All (λ m. is_estimated_cost m ≡ false) (set_it ms))
    unfolding set_provider_metric
    set_provider_metric-eq ms = (
      metric-append (metric_kind_name kind) scopes.scope scopes.window _ new_one matches-new,
      λ costs real actual. no_estimate_left ms costs real actual,
    )
