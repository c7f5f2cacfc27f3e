-- ===== src/Guardrail/Published.antt =====
-- What plugin/guardrailmodel.cpp shows and caches over any history.
use plasma_ai_usage_monitor.Prelude.{
  ◌≡◌, refl, sym, ap, ◌∙◌, ◌⊎◌, inl, inr, true, false, Option, none, some, List, [], ◌∷◌, map, All,
  All-append, All-keep, arith, Bool-cases,
}
use plasma_ai_usage_monitor.Prelude.Qt.{Qt, VariantMap}
use plasma_ai_usage_monitor.Guardrail.{
  Host, Work, Model, cancel_all, cancel, invalidate_cache, decorated, set_query, launch, worker_for,
  serve, start, refresh, refresh_with_query, is_current, publish, retire, finish, remember, cached,
  cache_key,
}
use plasma_ai_usage_monitor.Guardrail.Cache.{
  IsCache, empty-IsCache, not-cached-nil, remember-IsCache, remember-sub,
}
use plasma_ai_usage_monitor.Guardrail.Steps.{
  In, Step, sets, refreshes, requests, cancels, clears, finishes, Reach, begin, next,
}
use plasma_ai_usage_monitor.Guardrail.Workers.{In-All}

module _ {D K : Type 0} (q : Qt D) (h : Host D K) where
  abbrev pub answer : VariantMap D → List (VariantMap D)
  answer query = map (decorated q h) (h.execute query)

  -- The rows answer some query that has this key.
  abbrev pub Answers : K → List (VariantMap D) → Type 0
  Answers k rows = (query : VariantMap D) × (cache_key q h query ≡ k) × (rows ≡ answer query)

  abbrev Keyed : List (Work D K) → Type 0
  Keyed ws = All (λ w. w.cache_key ≡ cache_key q h w.query) ws

  -- The cache is in order, each entry answers a query with its key, and what is shown is nothing or the
  -- whole answer to one query.
  pub record IsHonest (s : Model D K) : Type 0 where
    pub ordered : IsCache h s.cache_order s.cache
    pub keyed : Keyed s.work
    pub entries :
        (k : K) (rows : List (VariantMap D)) → cached h k s.cache ≡ some rows → Answers k rows
    pub shown : (s.forecasts ≡ []) ⊎ ((query : VariantMap D) × (s.forecasts ≡ answer query))

  Keyed-cancel_all : (ws : List (Work D K)) → Keyed ws → Keyed (cancel_all ws)
  unfolding cancel_all
  Keyed-cancel_all [] v = tt
  Keyed-cancel_all (w ∷ ws) v = (v.0, Keyed-cancel_all ws v.1)

  cancel-IsHonest : (s : Model D K) → IsHonest s → IsHonest (cancel s).0
  unfolding cancel
  cancel-IsHonest s v = record {
    ordered = v.ordered;
    keyed = Keyed-cancel_all s.work v.keyed;
    entries = v.entries;
    shown = v.shown;
  }

  serve-IsHonest :
      (query : VariantMap D) (o : Option (List (VariantMap D))) (s : Model D K)
      → cached h (cache_key q h query) s.cache ≡ o
      → IsHonest s
      → IsHonest (serve q h query o s).0
  unfolding serve launch worker_for
  serve-IsHonest query none s e v = record {
    ordered = v.ordered;
    keyed = All-append _ s.work (_ ∷ []) v.keyed (refl, tt);
    entries = v.entries;
    shown = v.shown;
  }
  serve-IsHonest query (some rows) s e v = record {
    ordered = v.ordered;
    keyed = v.keyed;
    entries = v.entries;
    shown = let (asked, _, same) = v.entries (cache_key q h query) rows e in inr (asked, same);
  }

  start-IsHonest :
      (query : VariantMap D) (s : Model D K) → IsHonest s → IsHonest (start q h query s).0
  unfolding start
  start-IsHonest query s v = serve-IsHonest query _ (cancel s).0 refl (cancel-IsHonest s v)

  set_query-IsHonest :
      (query : VariantMap D) (s : Model D K) → IsHonest s → IsHonest (set_query h query s).0
  unfolding set_query
  set_query-IsHonest query s v = elim (Bool-cases (h.same_map s.query query)) [
    | inl same ↦ rw same v
    | inr differs ↦
        rw differs
          (record { ordered = v.ordered; keyed = v.keyed; entries = v.entries; shown = v.shown })
  ]

  -- The rows of a worker that was not cancelled.
  abbrev Brings : Work D K → List (VariantMap D) → Type 0
  Brings w result = w.cancelled ≡ false → result ≡ h.execute w.query

  publish-IsHonest :
      (w : Work D K) (result : List (VariantMap D)) (s : Model D K)
      → w.cache_key ≡ cache_key q h w.query
      → result ≡ h.execute w.query
      → IsHonest s
      → IsHonest (publish q h w result s).0
  unfolding publish remember
  publish-IsHonest w result s key fits v =
      let rows = map (decorated q h) result in
      let s' = record s { forecasts = rows } in
      let same : rows ≡ answer w.query = ap (map (decorated q h)) fits in
      record {
        ordered = (remember-IsCache h w.cache_key rows s' v.ordered).0;
        keyed = v.keyed;
        entries = λ k found e. elim (remember-sub h w.cache_key rows s' v.ordered k found e) [
          | inl (at, new) ↦ (w.query, sym key ∙ sym at, new ∙ same)
          | inr old ↦ v.entries k found old
        ];
        shown = inr (w.query, same);
      }

  retire-IsHonest : (w : Work D K) (s : Model D K) → IsHonest s → IsHonest (retire q h w s).0
  unfolding retire
  retire-IsHonest w s v = record {
    ordered = v.ordered;
    keyed = All-keep _ _ s.work v.keyed;
    entries = v.entries;
    shown = v.shown;
  }

  is_current-live : (w : Work D K) (s : Model D K) → is_current q h w s ≡ true → w.cancelled ≡ false
  unfolding is_current
  is_current-live w s e = ground arith

  finish-IsHonest :
      (w : Work D K) (result : List (VariantMap D)) (s : Model D K)
      → In w s.work
      → Brings w result
      → IsHonest s
      → IsHonest (finish q h w result s).0
  unfolding finish
  finish-IsHonest w result s i honest v = elim (Bool-cases (is_current q h w s)) [
    | inl now ↦ rw now (
        retire-IsHonest w (publish q h w result s).0 (
          publish-IsHonest w result s
            (In-All (λ u. u.cache_key ≡ cache_key q h u.query) w s.work i v.keyed)
            (honest (is_current-live w s now)) v))
    | inr late ↦ rw late (retire-IsHonest w s v)
  ]

  no_entries : (k : K) (rows : List (VariantMap D)) → cached h k [] ≡ some rows → Answers k rows
  no_entries k rows e = ground (arith, not-cached-nil h k)

  Step-IsHonest : {s t : Model D K} → Step q h s t → IsHonest s → IsHonest t
  unfolding refresh refresh_with_query invalidate_cache
  Step-IsHonest {s} (sets query) v = set_query-IsHonest query s v
  Step-IsHonest {s} refreshes v = start-IsHonest s.query s v
  Step-IsHonest {s} (requests query) v =
      start-IsHonest query (set_query h query s).0 (set_query-IsHonest query s v)
  Step-IsHonest {s} cancels v = cancel-IsHonest s v
  Step-IsHonest {s} clears v = record {
    ordered = empty-IsCache h;
    keyed = v.keyed;
    entries = no_entries;
    shown = v.shown;
  }
  Step-IsHonest {s} (finishes w result i honest) v = finish-IsHonest w result s i honest v

  -- Over any history of requests, cancellations, cache resets and finishing workers, the cache
  -- holds at most 16 answers, each listed once in the order of eviction and each the decorated
  -- answer to a query with its key, and the forecasts shown are none or the whole answer to one
  -- query.
  pub Reach-IsHonest : {s : Model D K} → Reach q h s → IsHonest s
  Reach-IsHonest begin = record {
    ordered = empty-IsCache h;
    keyed = tt;
    entries = no_entries;
    shown = inl refl;
  }
  Reach-IsHonest (next r st) = Step-IsHonest st (Reach-IsHonest r)
