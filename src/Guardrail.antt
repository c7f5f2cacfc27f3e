-- ===== src/Guardrail.antt =====
-- plugin/guardrailmodel.cpp and .h: the list of forecasts, computed by workers on other threads. Each
-- request has a generation; a newer request cancels the older workers through a flag that the worker
-- and the model share, and a finished worker publishes only while its generation is current. `Host`
-- holds what the model calls: the forecast query itself, Qt's digest of a map, and the comparisons.
pub mod Reasons
pub mod Cache
pub mod Steps
pub mod Workers
pub mod Published
pub mod Requests
pub mod Keys
mod Examples
use plasma_ai_usage_monitor.Prelude.{
  ℕ, suc, ◌+◌, ◌-◌, ◌/◌, ◌≡◌, ◌↔◌, Bool, true, false, not, ◌&&◌, Option, none, some, List, [], ◌∷◌,
  ◌++◌, map, String, if◌then◌else◌, ltb, ◌==◌, length, keep, str_eq,
}
use plasma_ai_usage_monitor.Prelude.Int.{pos}
use plasma_ai_usage_monitor.Prelude.Qt.{
  DateTime, Qt, Variant, text, integer, VariantMap, value, insert,
}
use plasma_ai_usage_monitor.Forecast.Wire.{Parsed, parsed, from_variant_map}
use plasma_ai_usage_monitor.Forecast.Identity.{stable_id}
use Reasons.{localized_reason}

-- `same_map` is operator== of QVariantMap; `digest` the SHA-256 of a map's compact JSON; `execute`
-- RunwayQuery::execute of a query that is not cancelled.
pub record Host (D K : Type 0) : Type 0 where
  pub same_map : VariantMap D → VariantMap D → Bool
  pub digest : VariantMap D → K
  pub same_key : K → K → Bool
  pub same_key_iff : (a b : K) → (same_key a b ≡ true) ↔ (a ≡ b)
  pub execute : VariantMap D → List (VariantMap D)
  pub sha256_hex : String → String
  pub translate : String → String

-- A worker: `id` stands for its address, `query` is what its thread was given.
pub record Work (D K : Type 0) : Type 0 where
  pub id : ℕ
  pub generation : ℕ
  pub cache_key : K
  pub cancelled : Bool
  pub query : VariantMap D

pub record Model (D K : Type 0) : Type 0 where
  pub query : VariantMap D
  pub forecasts : List (VariantMap D)
  pub generation : ℕ
  pub pending_worker_count : ℕ
  pub work : List (Work D K)
  pub cache : List (K × List (VariantMap D))
  pub cache_order : List K
  pub next_id : ℕ

pub data Signal : Type 0 where
  query_changed forecasts_changed busy_changed generation_changed : Signal
  pending_worker_count_changed : Signal
  completed : ℕ → Signal

-- The bound of `m_cacheOrder`.
abbrev pub max_cached : ℕ
max_cached = 16

module _ {D K : Type 0} where
  abbrev pub initial : Model D K
  initial = record {
    query = [];
    forecasts = [];
    generation = 0;
    pending_worker_count = 0;
    work = [];
    cache = [];
    cache_order = [];
    next_id = 0;
  }

  pub is_busy : Model D K → Bool
  is_busy s = ltb 0 s.pending_worker_count

  pub cancel_all : List (Work D K) → List (Work D K)
  cancel_all [] = []
  cancel_all (w ∷ ws) = record w { cancelled = true } ∷ cancel_all ws

  pub cancel : Model D K → Model D K × List Signal
  cancel s = (
    record s { generation = s.generation + 1; work = cancel_all s.work },
    generation_changed ∷ [],
  )

  pub invalidate_cache : Model D K → Model D K
  invalidate_cache s = record s { cache = []; cache_order = [] }

module _ {D K : Type 0} (h : Host D K) where
  open h use {same_map, same_key}

  -- QHash::constFind, remove and insert.
  pub cached : K → List (K × List (VariantMap D)) → Option (List (VariantMap D))
  cached k [] = none
  cached k ((j, rows) ∷ c) = if same_key j k then some rows else cached k c

  pub without : K → List (K × List (VariantMap D)) → List (K × List (VariantMap D))
  without k [] = []
  without k ((j, rows) ∷ c) = if same_key j k then without k c else (j, rows) ∷ without k c

  -- QList::removeAll.
  pub remove_key : K → List K → List K
  remove_key k = keep λ j. not (same_key j k)

  -- `while (m_cacheOrder.size() > 16) m_cache.remove(m_cacheOrder.takeFirst());`
  pub trim : List K → List (K × List (VariantMap D)) → List K × List (K × List (VariantMap D))
  trim [] c = ([], c)
  trim (k ∷ order) c =
      let rest = trim order (without k c) in
      if ltb max_cached (length (k ∷ order)) then rest else (k ∷ order, c)

  pub remember : K → List (VariantMap D) → Model D K → Model D K
  remember k rows s =
      let (order, c) =
        trim (remove_key k s.cache_order ++ k ∷ []) ((k, rows) ∷ without k s.cache) in
      record s { cache = c; cache_order = order }

  pub set_query : VariantMap D → Model D K → Model D K × List Signal
  set_query query s =
      if same_map s.query query then (s, []) else (record s { query = query }, query_changed ∷ [])

module _ {D K : Type 0} (q : Qt D) (h : Host D K) where
  open h use {digest, sha256_hex, translate}

  canonical : VariantMap D → DateTime → VariantMap D
  canonical query none = query
  canonical query (some t) = insert "generatedAt" (integer (pos (t / 1000 / 60))) query

  pub cache_key : VariantMap D → K
  cache_key query = digest (canonical query (q.to_date_time (value query "generatedAt")))

  identity_of : Parsed D → String
  identity_of (parsed r) = stable_id q sha256_hex r
  identity_of _ = ""

  pub decorated : VariantMap D → VariantMap D
  decorated forecast =
      insert "reasonText"
        (text (localized_reason translate (q.to_string (value forecast "reasonKey"))))
        (insert "stableId" (text (identity_of (from_variant_map q forecast))) forecast)

  pub worker_for : VariantMap D → Model D K → Work D K
  worker_for query s = record {
    id = s.next_id;
    generation = s.generation;
    cache_key = cache_key query;
    cancelled = false;
    query = query;
  }

  launch : VariantMap D → Model D K → Model D K × List Signal
  launch query s = (
    record s {
      work = s.work ++ worker_for query s ∷ [];
      pending_worker_count = s.pending_worker_count + 1;
      next_id = s.next_id + 1;
    },
    pending_worker_count_changed ∷ (if not (is_busy s) then busy_changed ∷ [] else []),
  )

  -- The end of `start`, on the cache's answer.
  serve : VariantMap D → Option (List (VariantMap D)) → Model D K → Model D K × List Signal
  serve query (some rows) s =
      (record s { forecasts = rows }, forecasts_changed ∷ completed s.generation ∷ [])
  serve query none s = launch query s

  pub start : VariantMap D → Model D K → Model D K × List Signal
  start query s =
      let s' = (cancel s).0 in
      let (s'', out) = serve query (cached h (cache_key query) s'.cache) s' in
      (s'', generation_changed ∷ out)

  pub refresh : Model D K → Model D K × List Signal
  refresh s = start s.query s

  pub refresh_with_query : VariantMap D → Model D K → Model D K × List Signal
  refresh_with_query query s =
      let (s', first) = set_query h query s in
      let (s'', rest) = start query s' in (s'', first ++ rest)

  pub is_current : Work D K → Model D K → Bool
  is_current w s = w.generation == s.generation && not w.cancelled

  publish : Work D K → List (VariantMap D) → Model D K → Model D K × List Signal
  publish w result s =
      let rows = map decorated result in
      (
        remember h w.cache_key rows (record s { forecasts = rows }),
        forecasts_changed ∷ completed w.generation ∷ [],
      )

  pub retire : Work D K → Model D K → Model D K × List Signal
  retire w s =
      let s' = record s {
        work = keep (λ v. not (v.id == w.id)) s.work;
        pending_worker_count = s.pending_worker_count - 1;
      } in
      (
        s',
        pending_worker_count_changed
            ∷ (if not (is_busy s) && is_busy s'
                then busy_changed ∷ []
                else if is_busy s && not (is_busy s')
                then busy_changed ∷ []
                else []),
      )

  -- The watcher's `finished`, with the worker as the list holds it and the result of its thread.
  pub finish : Work D K → List (VariantMap D) → Model D K → Model D K × List Signal
  finish w result s =
      let after : Model D K × List Signal =
        if is_current w s then publish w result s else (s, []) in
      let (s', first) = after in let (s'', last) = retire w s' in (s'', first ++ last)
