-- ===== src/Guardrail/Examples.antt =====
-- Tests of plugin/guardrailmodel.cpp, and the theorems at concrete inputs.
use plasma_ai_usage_monitor.Prelude.{
  ℕ, ◌≡◌, refl, inl, false, some, [], ◌∷◌, String, ◌==◌, ==_iff, length,
}
use plasma_ai_usage_monitor.Prelude.Plain.{plain}
use plasma_ai_usage_monitor.Prelude.Qt.{VariantMap, text}
use plasma_ai_usage_monitor.Forecast.{unavailable_reason_keys, has_text}
use plasma_ai_usage_monitor.Guardrail.{
  Host, Work, Model, initial, cancel_all, cancel, cached, set_query, worker_for, launch, serve,
  start, refresh_with_query, finish,
}
use plasma_ai_usage_monitor.Guardrail.Cache.{empty-IsCache}
use plasma_ai_usage_monitor.Guardrail.Steps.{In, Reach, begin, next, requests}
use plasma_ai_usage_monitor.Guardrail.Workers.{IsManned, Reach-IsManned}
use plasma_ai_usage_monitor.Guardrail.Published.{IsHonest, Reach-IsHonest, answer}
use plasma_ai_usage_monitor.Guardrail.Requests.{flagged, superseded, answered}
use plasma_ai_usage_monitor.Guardrail.Reasons.{reason_texts, reason_text, localized_reason}
use plasma_ai_usage_monitor.Guardrail.Reasons.Complete.{localized_reason_complete}

-- A key is the number of entries of the map; the answer to a query is the query.
abbrev host : Host ℕ ℕ
host = record {
  same_map = λ a b. false;
  digest = λ m. length m;
  same_key = ◌==◌;
  same_key_iff = ==_iff;
  execute = λ query. query ∷ [];
  sha256_hex = λ s. s;
  translate = λ s. s;
}

abbrev query : VariantMap ℕ
query = ("sourceId", text "openai") ∷ []

abbrev asked : Model ℕ ℕ
asked = (refresh_with_query plain host query initial).0

Reach-asked : Reach plain host asked
Reach-asked = next begin (requests query)

asked_busy : (asked.pending_worker_count ≡ 1) × (asked.generation ≡ 1)
unfolding refresh_with_query set_query start cancel cancel_all serve cached launch worker_for
asked_busy = (refl, refl)

Reach-IsManned_example : IsManned asked
Reach-IsManned_example = Reach-IsManned plain host Reach-asked

Reach-IsHonest_example : IsHonest plain host asked
Reach-IsHonest_example = Reach-IsHonest plain host Reach-asked

abbrev first_worker : Work ℕ ℕ
first_worker = record { id = 0; generation = 1; cache_key = 1; cancelled = false; query = query }

abbrev at_work : Model ℕ ℕ
at_work = record initial {
  generation = 1;
  pending_worker_count = 1;
  work = first_worker ∷ [];
  next_id = 1;
}

superseded_example :
    let s' = (start plain host [] at_work).0 in
    let t = (finish plain host (flagged first_worker) (query ∷ []) s').0 in
    In (flagged first_worker) s'.work
    × (t.forecasts ≡ s'.forecasts)
    × (t.cache ≡ s'.cache)
    × (t.cache_order ≡ s'.cache_order)
superseded_example = superseded plain host [] at_work first_worker (query ∷ []) (inl refl)

answered_example :
    let s' = (start plain host query initial).0 in
    let w = worker_for plain host query (cancel initial).0 in
    let t = (finish plain host w (query ∷ []) s').0 in
    let u = (start plain host query t).0 in
    In w s'.work
    × (t.forecasts ≡ answer plain host query)
    × (u.forecasts ≡ answer plain host query)
    × (u.pending_worker_count ≡ t.pending_worker_count)
unfolding cached
answered_example = answered plain host query initial (empty-IsCache host) refl

localized_reason_complete_example :
    (text : String) × (reason_text reason_texts "stale_data" ≡ some text)
    × (localized_reason (λ s. s) "stale_data" ≡ text)
unfolding unavailable_reason_keys has_text
localized_reason_complete_example = localized_reason_complete (λ s. s) "stale_data" refl
