-- ===== src/Provider/Metrics/History.antt =====
-- The metrics of plugin/providerbackend.cpp over whole histories.
use plasma_ai_usage_monitor.Prelude.{
  ◌≡◌, refl, ◌∙◌, inl, inr, Bool, false, Option, none, List, [], ◌∷◌, map, String, str_eq, All,
  Bool-cases,
}
use plasma_ai_usage_monitor.Prelude.Qt.{DateTime}
use plasma_ai_usage_monitor.Provider.Metrics.{
  MetricKind, MetricSource, local_observation, metric_source_name, Scopes, Metric,
  set_provider_metric, plain_scopes, clear_provider_metric, remove_provider_metrics, stale,
  mark_provider_metrics_stale,
}
use plasma_ai_usage_monitor.Provider.Metrics.Replacing.{
  alike, Distinct, Distinct-keep, Distinct-set,
}

-- What happens to the metrics.
pub data Op (D : Type 0) : Type 0 where
  sets :
      MetricKind
      → Option D
      → String
      → String
      → Scopes
      → MetricSource
      → String
      → DateTime
      → DateTime
      → Op D
  clears : MetricKind → String → String → DateTime → Op D
  removes : MetricSource → String → List MetricKind → Op D
  ages : MetricSource → String → Op D

module _ {D : Type 0} where
  pub perform : (String → Bool) → Op D → List (Metric D) → List (Metric D)
  perform starts (sets kind v unit currency scopes source quality reset_at now) ms =
      set_provider_metric starts kind v unit currency scopes source quality reset_at now ms
  perform starts (clears kind scope window now) ms =
      clear_provider_metric starts kind scope window now ms
  perform starts (removes source window kinds) ms = remove_provider_metrics source window kinds ms
  perform starts (ages source diagnostic) ms = mark_provider_metrics_stale source diagnostic ms

  pub perform_all : (String → Bool) → List (Op D) → List (Metric D) → List (Metric D)
  perform_all starts [] ms = ms
  perform_all starts (o ∷ os) ms = perform_all starts os (perform starts o ms)

  stale_keeps :
      (source diagnostic : String) (m : Metric D)
      → ((stale source diagnostic m).kind ≡ m.kind)
        × ((stale source diagnostic m).scopes ≡ m.scopes)
        × ((stale source diagnostic m).currency ≡ m.currency)
  unfolding stale
  stale_keeps source diagnostic m = elim (Bool-cases (str_eq m.source source)) [
    | inr other ↦ rw other (refl, refl, refl)
    | inl same ↦ elim (Bool-cases (str_eq diagnostic "")) [
      | inl silent ↦ rw (same, silent) (refl, refl, refl)
      | inr told ↦ rw (same, told) (refl, refl, refl)
    ]
  ]

  stale-alike :
      (source diagnostic : String) (a b : Metric D)
      → alike (stale source diagnostic a) (stale source diagnostic b) ≡ alike a b
  stale-alike source diagnostic a b =
      let (kind, scopes, currency) = stale_keeps source diagnostic a in
      let (kind', scopes', currency') = stale_keeps source diagnostic b in
      rw (kind, scopes, currency, kind', scopes', currency') refl

  Distinct-stale :
      (source diagnostic : String) (ms : List (Metric D))
      → Distinct ms
      → Distinct (map (stale source diagnostic) ms)
  Distinct-stale source diagnostic [] v = tt
  Distinct-stale source diagnostic (m ∷ ms) (apart, v) =
      (still_apart ms apart, Distinct-stale source diagnostic ms v)
    where
      still_apart :
          (ns : List (Metric D))
          → All (λ n. alike m n ≡ false) ns
          → All
              (λ n. alike (stale source diagnostic m) n ≡ false)
              (map (stale source diagnostic) ns)
      still_apart [] far = tt
      still_apart (n ∷ ns) (far, fars) =
          (stale-alike source diagnostic m n ∙ far, still_apart ns fars)

  perform-Distinct :
      (starts : String → Bool) (o : Op D) (ms : List (Metric D))
      → Distinct ms
      → Distinct (perform starts o ms)
  unfolding perform clear_provider_metric remove_provider_metrics mark_provider_metrics_stale
  perform-Distinct starts (sets kind v unit currency scopes source quality reset_at now) ms d =
      Distinct-set starts kind v unit currency scopes source quality reset_at now ms d
  perform-Distinct starts (clears kind scope window now) ms d =
      Distinct-set starts kind none "" "" (plain_scopes scope window) local_observation "unknown"
        none now ms d
  perform-Distinct starts (removes source window kinds) ms d = Distinct-keep _ ms d
  perform-Distinct starts (ages source diagnostic) ms d =
      Distinct-stale (metric_source_name source) diagnostic ms d

  -- Over any history of metrics that are set, cleared, removed and marked as stale, no two metrics
  -- have the same kind, scopes, period and currency, if none had before.
  pub perform_all-Distinct :
      (starts : String → Bool) (os : List (Op D)) (ms : List (Metric D))
      → Distinct ms
      → Distinct (perform_all starts os ms)
  unfolding perform_all
  perform_all-Distinct starts [] ms d = d
  perform_all-Distinct starts (o ∷ os) ms d =
      perform_all-Distinct starts os (perform starts o ms) (perform-Distinct starts o ms d)
