-- ===== src/Provider/Metrics.antt =====
-- The metrics of plugin/providerbackend.cpp: a list in which a new metric replaces the ones of its
-- identity. The map of a metric is a record; a scope that its map lacks reads as an empty text.
pub mod Replacing
pub mod History
mod Examples
use plasma_ai_usage_monitor.Prelude.{
  Bool, true, false, not, ◌&&◌, ◌||◌, Option, none, some, List, [], ◌∷◌, ◌++◌, map, String,
  if◌then◌else◌, keep, is_some, str_eq,
}
use plasma_ai_usage_monitor.Prelude.Qt.{DateTime}
use plasma_ai_usage_monitor.Provider.Refresh.{same_time}

pub data MetricKind : Type 0 where
  input_tokens cache_read_input_tokens cache_creation_input_tokens output_tokens : MetricKind
  requests cost credit_balance request_limit request_remaining token_limit : MetricKind
  token_remaining latency error_rate : MetricKind

pub data MetricSource : Type 0 where
  billing_api usage_api metrics_api response_headers published_documentation : MetricSource
  local_observation estimated_pricing connectivity_probe self_tracked browser_sync : MetricSource

pub metric_kind_name : MetricKind → String
metric_kind_name input_tokens = "input_tokens"
metric_kind_name cache_read_input_tokens = "cache_read_input_tokens"
metric_kind_name cache_creation_input_tokens = "cache_creation_input_tokens"
metric_kind_name output_tokens = "output_tokens"
metric_kind_name requests = "requests"
metric_kind_name cost = "cost"
metric_kind_name credit_balance = "credit_balance"
metric_kind_name request_limit = "request_limit"
metric_kind_name request_remaining = "request_remaining"
metric_kind_name token_limit = "token_limit"
metric_kind_name token_remaining = "token_remaining"
metric_kind_name latency = "latency"
metric_kind_name error_rate = "error_rate"

pub metric_source_name : MetricSource → String
metric_source_name billing_api = "billing_api"
metric_source_name usage_api = "usage_api"
metric_source_name metrics_api = "metrics_api"
metric_source_name response_headers = "response_headers"
metric_source_name published_documentation = "published_documentation"
metric_source_name local_observation = "local_observation"
metric_source_name estimated_pricing = "estimated_pricing"
metric_source_name connectivity_probe = "connectivity_probe"
metric_source_name self_tracked = "self_tracked"
metric_source_name browser_sync = "browser_sync"

abbrev pub is_cost : MetricKind → Bool
is_cost cost = true
is_cost _ = false

abbrev pub is_estimate : MetricSource → Bool
is_estimate estimated_pricing = true
is_estimate _ = false

-- What a metric is told apart by.
pub record Scopes : Type 0 where
  pub scope : String
  pub window : String
  pub model_scope : String
  pub project_scope : String
  pub service_tier_scope : String
  pub line_item_scope : String
  pub period_start : DateTime
  pub period_end : DateTime

pub record Metric (D : Type 0) : Type 0 where
  pub kind : String
  pub value : Option D
  pub available : Bool
  pub unit : String
  pub currency : String
  pub source : String
  pub quality : String
  pub diagnostic : String
  pub observed_at : DateTime
  pub reset_at : DateTime
  pub scopes : Scopes
  pub aggregation_level : String

abbrev pub same_scopes : Scopes → Scopes → Bool
same_scopes a b =
    str_eq a.scope b.scope
    && str_eq a.window b.window
    && str_eq a.model_scope b.model_scope
    && str_eq a.project_scope b.project_scope
    && str_eq a.service_tier_scope b.service_tier_scope
    && str_eq a.line_item_scope b.line_item_scope
    && same_time a.period_start b.period_start
    && same_time a.period_end b.period_end

abbrev pub plain_scopes : String → String → Scopes
plain_scopes scope window = record {
  scope = scope;
  window = window;
  model_scope = "";
  project_scope = "";
  service_tier_scope = "";
  line_item_scope = "";
  period_start = none;
  period_end = none;
}

has_kind : List MetricKind → String → Bool
has_kind [] kind = false
has_kind (k ∷ ks) kind = str_eq (metric_kind_name k) kind || has_kind ks kind

-- With the signal that a change sends.

module _ {D : Type 0} where
  -- A metric that one with this kind, these scopes and this currency replaces: no currency stands for all.
  pub replaced_by : String → Scopes → String → Metric D → Bool
  replaced_by kind scopes currency m =
      str_eq m.kind kind
      && same_scopes m.scopes scopes
      && (str_eq currency "" || str_eq m.currency currency)

  -- A cost that was estimated.
  pub is_estimated_cost : Metric D → Bool
  is_estimated_cost m = str_eq m.kind "cost" && str_eq m.source "estimated_pricing"

  -- `starts_scoped` is scope.startsWith("organization_scoped").
  pub make_metric :
      (String → Bool)
      → MetricKind
      → Option D
      → String
      → String
      → Scopes
      → MetricSource
      → String
      → DateTime
      → DateTime
      → Metric D
  make_metric starts_scoped kind value unit currency scopes source quality reset_at now = record {
    kind = metric_kind_name kind;
    value = value;
    available = is_some value;
    unit = unit;
    currency = currency;
    source = metric_source_name source;
    quality = quality;
    diagnostic = "";
    observed_at = now;
    reset_at = reset_at;
    scopes = scopes;
    aggregation_level =
        if not (str_eq scopes.model_scope "")
          || not (str_eq scopes.project_scope "")
          || not (str_eq scopes.service_tier_scope "")
          || not (str_eq scopes.line_item_scope "")
          || starts_scoped scopes.scope
        then "scoped"
        else "aggregate";
  }

  pub without_estimates : MetricKind → MetricSource → String → List (Metric D) → List (Metric D)
  without_estimates kind source quality ms =
      if is_cost kind && not (is_estimate source) && str_eq quality "actual"
      then keep (λ m. not (is_estimated_cost m)) ms
      else ms

  pub set_provider_metric :
      (String → Bool)
      → MetricKind
      → Option D
      → String
      → String
      → Scopes
      → MetricSource
      → String
      → DateTime
      → DateTime
      → List (Metric D)
      → List (Metric D)
  set_provider_metric starts_scoped kind value unit currency scopes source quality reset_at now ms =
      keep (λ m. not (replaced_by (metric_kind_name kind) scopes currency m))
        (without_estimates kind source quality ms)
      ++ make_metric starts_scoped kind value unit currency scopes source quality reset_at now ∷ []

  pub clear_provider_metric :
      (String → Bool) → MetricKind → String → String → DateTime → List (Metric D) → List (Metric D)
  clear_provider_metric starts_scoped kind scope window now ms =
      set_provider_metric starts_scoped kind none "" "" (plain_scopes scope window)
        local_observation "unknown" none now ms

  pub remove_provider_metrics :
      MetricSource → String → List MetricKind → List (Metric D) → List (Metric D)
  remove_provider_metrics source window kinds ms =
      keep
        (λ m. not (
          str_eq m.source (metric_source_name source)
          && str_eq m.scopes.window window
          && has_kind kinds m.kind))
        ms

  stale : String → String → Metric D → Metric D
  stale source diagnostic m =
      let aged = record m { quality = "stale" } in
      if str_eq m.source source
      then (if str_eq diagnostic "" then aged else record aged { diagnostic = diagnostic })
      else m

  pub mark_provider_metrics_stale : MetricSource → String → List (Metric D) → List (Metric D)
  mark_provider_metrics_stale source diagnostic ms =
      map (stale (metric_source_name source) diagnostic) ms

  matches : String → String → String → Metric D → Bool
  matches kind scope window m =
      str_eq m.kind kind
      && (str_eq scope "" || str_eq m.scopes.scope scope)
      && (str_eq window "" || str_eq m.scopes.window window)

  -- The last metric that matches.
  pub metric : String → String → String → List (Metric D) → Option (Metric D)
  metric kind scope window [] = none
  metric kind scope window (m ∷ ms) =
      let later = metric kind scope window ms in
      if is_some later then later else if matches kind scope window m then some m else none
