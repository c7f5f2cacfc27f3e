-- ===== src/Guardrail/Requests.antt =====
-- One request of plugin/guardrailmodel.cpp: an older worker that it supersedes, and its own answer.
use plasma_ai_usage_monitor.Prelude.{
  ◌≡◌, refl, ap, inl, inr, Bool, true, false, not, Option, none, some, List, [], ◌∷◌, ◌++◌,
  if◌then◌else◌, arith, Option-cases,
}
use plasma_ai_usage_monitor.Prelude.Qt.{Qt, VariantMap}
use plasma_ai_usage_monitor.Guardrail.{
  Host, Work, Model, Signal, busy_changed, query_changed, forecasts_changed, generation_changed,
  pending_worker_count_changed, completed, is_busy, cancel_all, cancel, worker_for, launch, serve,
  start, is_current, publish, retire, finish, remember, cached, cache_key,
}
use plasma_ai_usage_monitor.Guardrail.Cache.{IsCache, remember-IsCache}
use plasma_ai_usage_monitor.Guardrail.Steps.{In}
use plasma_ai_usage_monitor.Guardrail.Published.{answer}

-- Whether an odd number of the signals says that the busy state changed.
abbrev pub toggles : List Signal → Bool
toggles [] = false
toggles (busy_changed ∷ out) = not (toggles out)
toggles (query_changed ∷ out) = toggles out
toggles (forecasts_changed ∷ out) = toggles out
toggles (generation_changed ∷ out) = toggles out
toggles (pending_worker_count_changed ∷ out) = toggles out
toggles (completed n ∷ out) = toggles out

module _ {D K : Type 0} where
  abbrev pub flagged : Work D K → Work D K
  flagged w = record w { cancelled = true }

  In-cancel_all : (w : Work D K) (ws : List (Work D K)) → In w ws → In (flagged w) (cancel_all ws)
  unfolding cancel_all
  In-cancel_all w [] i = i
  In-cancel_all w (x ∷ ws) (inl e) = inl (ap flagged e)
  In-cancel_all w (x ∷ ws) (inr i) = inr (In-cancel_all w ws i)

  In-append_left : (w : Work D K) (xs ys : List (Work D K)) → In w xs → In w (xs ++ ys)
  In-append_left w [] ys i = absurd i
  In-append_left w (x ∷ xs) ys (inl e) = inl e
  In-append_left w (x ∷ xs) ys (inr i) = inr (In-append_left w xs ys i)

  In-append_right : (w : Work D K) (xs : List (Work D K)) → In w (xs ++ w ∷ [])
  In-append_right w [] = inl refl
  In-append_right w (x ∷ xs) = inr (In-append_right w xs)

module _ {D K : Type 0} (q : Qt D) (h : Host D K) where
  serve-In :
      (w : Work D K) (query : VariantMap D) (o : Option (List (VariantMap D))) (s : Model D K)
      → In w s.work
      → In w (serve q h query o s).0.work
  unfolding serve launch
  serve-In w query none s i = In-append_left w s.work (_ ∷ []) i
  serve-In w query (some rows) s i = i

  -- A request marks every older worker; such a worker still finishes, and whatever its thread then
  -- brings changes neither the forecasts shown nor the cache and its order.
  pub superseded :
      (query : VariantMap D) (s : Model D K) (w : Work D K) (result : List (VariantMap D))
      → In w s.work
      → let s' = (start q h query s).0 in
        let t = (finish q h (flagged w) result s').0 in
        In (flagged w) s'.work
        × (t.forecasts ≡ s'.forecasts)
        × (t.cache ≡ s'.cache)
        × (t.cache_order ≡ s'.cache_order)
  unfolding start finish is_current retire cancel
  superseded query s w result i =
      let late : is_current q h (flagged w) (start q h query s).0 ≡ false = ground arith in
      (
        serve-In (flagged w) query _ (cancel s).0 (In-cancel_all w s.work i),
        rw late refl,
        rw late refl,
        rw late refl,
      )

  remember_shown :
      (k : K) (rows : List (VariantMap D)) (s : Model D K)
      → (remember h k rows s).forecasts ≡ s.forecasts
  unfolding remember
  remember_shown k rows s = refl

  start_hit :
      (query : VariantMap D) (t : Model D K) (rows : List (VariantMap D))
      → cached h (cache_key q h query) t.cache ≡ some rows
      → let u = (start q h query t).0 in
        (u.forecasts ≡ rows) × (u.pending_worker_count ≡ t.pending_worker_count)
  unfolding start cancel serve
  start_hit query t rows hit = (rw hit refl, rw hit refl)

  module _ (query : VariantMap D) (s : Model D K) (v : IsCache h s.cache_order s.cache) where
    abbrev launched : Model D K
    launched = (launch q h query (cancel s).0).0

    abbrev worker : Work D K
    worker = worker_for q h query (cancel s).0

    start_miss : cached h (cache_key q h query) s.cache ≡ none → (start q h query s).0 ≡ launched
    unfolding start serve cancel
    start_miss miss = rw miss refl

    abbrev ended : Model D K
    ended = (finish q h worker (h.execute query) launched).0

    worker_now : is_current q h worker launched ≡ true
    unfolding is_current worker_for launch cancel
    worker_now = ground arith

    abbrev published : Model D K
    published = (publish q h worker (h.execute query) launched).0

    ended_lem : ended ≡ (retire q h worker published).0
    unfolding finish retire
    ended_lem = rw worker_now refl

    retired_cache :
        ((retire q h worker published).0.forecasts ≡ answer q h query)
        × (cached h (cache_key q h query) (retire q h worker published).0.cache
            ≡ some (answer q h query))
    unfolding worker_for launch cancel retire publish
    retired_cache =
        let s' = record launched { forecasts = answer q h query } in
        (retired_shown, (remember-IsCache h (cache_key q h query) (answer q h query) s' v).1)
      where
        retired_shown : (retire q h worker published).0.forecasts ≡ answer q h query
        retired_shown = remember_shown (cache_key q h query) (answer q h query) _

    finish_now :
        (ended.forecasts ≡ answer q h query)
        × (cached h (cache_key q h query) ended.cache ≡ some (answer q h query))
    finish_now = rw ended_lem retired_cache

    launched_In : In worker launched.work
    unfolding launch
    launched_In = In-append_right worker (cancel s).0.work

    -- Where the cache is in order and cannot answer a request, the request starts a worker; when
    -- that worker brings the answer to the query, the answer is shown, and the same request made
    -- again is served at once, with no new worker.
    pub answered :
        cached h (cache_key q h query) s.cache ≡ none
        → let s' = (start q h query s).0 in
          let t = (finish q h (worker_for q h query (cancel s).0) (h.execute query) s').0 in
          let u = (start q h query t).0 in
          In (worker_for q h query (cancel s).0) s'.work
          × (t.forecasts ≡ answer q h query)
          × (u.forecasts ≡ answer q h query)
          × (u.pending_worker_count ≡ t.pending_worker_count)
    answered miss =
        let (now, hit) = finish_now in
        let (again, idle) = start_hit query ended (answer q h query) hit in
        rw (start_miss miss) (launched_In, now, again, idle)

  -- For a request and for a worker that finishes, the busy state differs afterwards exactly when
  -- the number of busyChanged signals sent is odd.
  pub busy-signals :
      (query : VariantMap D) (w : Work D K) (result : List (VariantMap D)) (s : Model D K)
      → let (s', out) = start q h query s in
        let (t, done) = finish q h w result s in
        (is_busy s' ≡ (if toggles out then not (is_busy s) else is_busy s))
        × (is_busy t ≡ (if toggles done then not (is_busy s) else is_busy s))
  unfolding start cancel serve launch finish publish remember retire is_busy
  busy-signals query w result s = (
    elim (Option-cases (cached h (cache_key q h query) s.cache)) [
      | inl miss ↦ rw miss (ground arith)
      | inr (rows, hit) ↦ rw hit (ground arith)
    ],
    ground arith,
  )
