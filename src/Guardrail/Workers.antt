-- ===== src/Guardrail/Workers.antt =====
-- The workers of plugin/guardrailmodel.cpp over any history: their number, and which of them are live.
use plasma_ai_usage_monitor.Prelude.{
  ℕ, ◌+◌, ◌≤◌, ◌<◌, ◌≡◌, refl, ◌≢◌, inl, inr, false, not, Option, none, some, List, [], ◌∷◌, ◌++◌,
  if◌then◌else◌, ◌==◌, length, length-append, All, All-append, keep, All-keep, sym, subst, ap,
  arith, Bool-cases,
}
use plasma_ai_usage_monitor.Prelude.Qt.{Qt, VariantMap}
use plasma_ai_usage_monitor.Guardrail.{
  Host, Work, Model, cancel_all, cancel, invalidate_cache, set_query, launch, worker_for, serve,
  start, refresh, refresh_with_query, is_current, publish, retire, finish, remember, cached,
  cache_key,
}
use plasma_ai_usage_monitor.Guardrail.Steps.{
  In, Step, sets, refreshes, requests, cancels, clears, finishes, Reach, begin, next,
}

module _ {D K : Type 0} where
  abbrev pub live : List (Work D K) → ℕ
  live [] = 0
  live (w ∷ ws) = (if w.cancelled then 0 else 1) + live ws

  abbrev drop_id : ℕ → List (Work D K) → List (Work D K)
  drop_id i = keep λ v. not (v.id == i)

  -- Addresses below the bound, each once.
  abbrev Owned : ℕ → List (Work D K) → Type 0
  Owned n ws = All (λ w. w.id < n) ws

  abbrev Apart : List (Work D K) → Type 0
  Apart [] = Unit {0}
  Apart (w ∷ ws) = All (λ v. v.id ≢ w.id) ws × Apart ws

  abbrev Current : ℕ → List (Work D K) → Type 0
  Current g ws = All (λ w. w.cancelled ≡ false → w.generation ≡ g) ws

  -- The count is the number of workers, at most one of which is live; a live one has the current
  -- generation; no two share an address.
  pub record IsManned (s : Model D K) : Type 0 where
    pub counted : s.pending_worker_count ≡ length s.work
    pub one_live : live s.work ≤ 1
    pub current : Current s.generation s.work
    pub owned : Owned s.next_id s.work
    pub apart : Apart s.work

  length-cancel_all : (ws : List (Work D K)) → length (cancel_all ws) ≡ length ws
  unfolding cancel_all
  length-cancel_all [] = refl
  length-cancel_all (w ∷ ws) = omega (arith, length-cancel_all ws)

  live-cancel_all : (ws : List (Work D K)) → live (cancel_all ws) ≡ 0
  unfolding cancel_all
  live-cancel_all [] = refl
  live-cancel_all (w ∷ ws) = omega (arith, live-cancel_all ws)

  current-cancel_all : (g : ℕ) (ws : List (Work D K)) → Current g (cancel_all ws)
  unfolding cancel_all
  current-cancel_all g [] = tt
  current-cancel_all g (w ∷ ws) = (λ e. cc, current-cancel_all g ws)

  Owned-cancel_all : (n : ℕ) (ws : List (Work D K)) → Owned n ws → Owned n (cancel_all ws)
  unfolding cancel_all
  Owned-cancel_all n [] o = tt
  Owned-cancel_all n (w ∷ ws) o = (o.0, Owned-cancel_all n ws o.1)

  apart_one-cancel_all :
      (i : ℕ) (ws : List (Work D K)) → All (λ v. v.id ≢ i) ws → All (λ v. v.id ≢ i) (cancel_all ws)
  unfolding cancel_all
  apart_one-cancel_all i [] a = tt
  apart_one-cancel_all i (w ∷ ws) a = (a.0, apart_one-cancel_all i ws a.1)

  Apart-cancel_all : (ws : List (Work D K)) → Apart ws → Apart (cancel_all ws)
  unfolding cancel_all
  Apart-cancel_all [] a = tt
  Apart-cancel_all (w ∷ ws) a = (apart_one-cancel_all w.id ws a.0, Apart-cancel_all ws a.1)

  cancel-IsManned : (s : Model D K) → IsManned s → IsManned (cancel s).0
  unfolding cancel
  cancel-IsManned s v = record {
    counted = omega (arith, v.counted, length-cancel_all s.work);
    one_live = omega (arith, live-cancel_all s.work);
    current = current-cancel_all (s.generation + 1) s.work;
    owned = Owned-cancel_all s.next_id s.work v.owned;
    apart = Apart-cancel_all s.work v.apart;
  }

  live-cancel : (s : Model D K) → live (cancel s).0.work ≡ 0
  unfolding cancel
  live-cancel s = live-cancel_all s.work

  live-append : (xs ys : List (Work D K)) → live (xs ++ ys) ≡ live xs + live ys
  live-append [] ys = omega arith
  live-append (w ∷ xs) ys = omega (arith, live-append xs ys)

  Owned-ne : (n : ℕ) (ws : List (Work D K)) → Owned n ws → All (λ v. v.id ≢ n) ws
  Owned-ne n [] o = tt
  Owned-ne n (w ∷ ws) o = (omega arith, Owned-ne n ws o.1)

  Owned-mono : (n : ℕ) (ws : List (Work D K)) → Owned n ws → Owned (n + 1) ws
  Owned-mono n [] o = tt
  Owned-mono n (w ∷ ws) o = (omega arith, Owned-mono n ws o.1)

  Apart-append :
      (ws : List (Work D K)) (w : Work D K)
      → Apart ws
      → All (λ v. v.id ≢ w.id) ws
      → Apart (ws ++ w ∷ [])
  Apart-append [] w a n = (tt, tt)
  Apart-append (x ∷ ws) w a n =
      (All-append _ ws (w ∷ []) a.0 (ground arith, tt), Apart-append ws w a.1 n.1)

  pub In-All {κ} :
      (P : Work D K → Type κ) (w : Work D K) (ws : List (Work D K)) → In w ws → All P ws → P w
  In-All P w [] i a = absurd i
  In-All P w (x ∷ ws) (inl e) a = subst P (sym e) a.0
  In-All P w (x ∷ ws) (inr i) a = In-All P w ws i a.1

  drop_none : (i : ℕ) (ws : List (Work D K)) → All (λ v. v.id ≢ i) ws → drop_id i ws ≡ ws
  drop_none i [] a = refl
  drop_none i (x ∷ ws) a = ground (arith, drop_none i ws a.1)

  length-drop_id :
      (w : Work D K) (ws : List (Work D K))
      → In w ws
      → Apart ws
      → length (drop_id w.id ws) + 1 ≡ length ws
  length-drop_id w [] i a = absurd i
  length-drop_id w (x ∷ ws) (inl e) a =
      ground (arith, drop_none x.id ws a.0, ap length (drop_none x.id ws a.0))
  length-drop_id w (x ∷ ws) (inr i) a =
      ground (arith, length-drop_id w ws i a.1, In-All (λ v. v.id ≢ x.id) w ws i a.0)

  live-drop_id : (i : ℕ) (ws : List (Work D K)) → live (drop_id i ws) ≤ live ws
  live-drop_id i [] = omega arith
  live-drop_id i (x ∷ ws) = ground (arith, live-drop_id i ws)

  Apart-drop_id : (i : ℕ) (ws : List (Work D K)) → Apart ws → Apart (drop_id i ws)
  Apart-drop_id i [] a = tt
  Apart-drop_id i (x ∷ ws) a = ground (
    arith,
    Apart-drop_id i ws a.1,
    All-keep (λ (v : Work D K). v.id ≢ x.id) (λ v. not (v.id == i)) ws a.0,
  )

module _ {D K : Type 0} (q : Qt D) (h : Host D K) where
  serve-IsManned :
      (query : VariantMap D) (o : Option (List (VariantMap D))) (s : Model D K)
      → live s.work ≡ 0
      → IsManned s
      → IsManned (serve q h query o s).0
  unfolding serve launch worker_for
  serve-IsManned query none s idle v =
      let worker = worker_for q h query s in
      record {
        counted = omega (arith, v.counted, length-append s.work (worker ∷ []));
        one_live = omega (arith, idle, live-append s.work (worker ∷ []));
        current = All-append _ s.work (worker ∷ []) v.current (λ _. refl, tt);
        owned =
            All-append _ s.work (worker ∷ []) (Owned-mono s.next_id s.work v.owned)
              (omega arith, tt);
        apart = Apart-append s.work worker v.apart (Owned-ne s.next_id s.work v.owned);
      }
  serve-IsManned query (some rows) s idle v = ground arith

  start-IsManned :
      (query : VariantMap D) (s : Model D K) → IsManned s → IsManned (start q h query s).0
  unfolding start
  start-IsManned query s v =
      serve-IsManned query (cached h (cache_key q h query) (cancel s).0.cache) (cancel s).0 idle
        (cancel-IsManned s v)
    where
      idle : live (cancel s).0.work ≡ 0
      idle = live-cancel s

  retire-IsManned :
      (w : Work D K) (s : Model D K) → In w s.work → IsManned s → IsManned (retire q h w s).0
  unfolding retire
  retire-IsManned w s i v = record {
    counted = omega (arith, v.counted, length-drop_id w s.work i v.apart);
    one_live = omega (arith, v.one_live, live-drop_id w.id s.work);
    current = All-keep _ _ s.work v.current;
    owned = All-keep _ _ s.work v.owned;
    apart = Apart-drop_id w.id s.work v.apart;
  }

  -- Publishing leaves the workers alone.
  publish_work :
      (w : Work D K) (result : List (VariantMap D)) (s : Model D K)
      → let s' = (publish q h w result s).0 in
        (s'.work ≡ s.work)
        × (s'.pending_worker_count ≡ s.pending_worker_count)
        × (s'.generation ≡ s.generation)
        × (s'.next_id ≡ s.next_id)
  unfolding publish remember
  publish_work w result s = (refl, refl, refl, refl)

  publish-IsManned :
      (w : Work D K) (result : List (VariantMap D)) (s : Model D K)
      → IsManned s
      → IsManned (publish q h w result s).0
  unfolding publish remember
  publish-IsManned w result s v = record {
    counted = v.counted;
    one_live = v.one_live;
    current = v.current;
    owned = v.owned;
    apart = v.apart;
  }

  finish-IsManned :
      (w : Work D K) (result : List (VariantMap D)) (s : Model D K)
      → In w s.work
      → IsManned s
      → IsManned (finish q h w result s).0
  unfolding finish
  finish-IsManned w result s i v = elim (Bool-cases (is_current q h w s)) [
    | inl now ↦ rw now (
        retire-IsManned w (publish q h w result s).0 (rw ((publish_work w result s).0) i)
          (publish-IsManned w result s v))
    | inr late ↦ rw late (retire-IsManned w s i v)
  ]

  set_query-IsManned :
      (query : VariantMap D) (s : Model D K) → IsManned s → IsManned (set_query h query s).0
  unfolding set_query
  set_query-IsManned query s v = ground arith

  Step-IsManned : {s t : Model D K} → Step q h s t → IsManned s → IsManned t
  unfolding refresh refresh_with_query invalidate_cache
  Step-IsManned {s} (sets query) v = set_query-IsManned query s v
  Step-IsManned {s} refreshes v = start-IsManned s.query s v
  Step-IsManned {s} (requests query) v =
      start-IsManned query (set_query h query s).0 (set_query-IsManned query s v)
  Step-IsManned {s} cancels v = cancel-IsManned s v
  Step-IsManned {s} clears v = ground arith
  Step-IsManned {s} (finishes w result i honest) v = finish-IsManned w result s i v

  -- Over any history the count of pending workers is the number of workers, at most one of them is
  -- live, a live one has the current generation, and no two share an address.
  pub Reach-IsManned : {s : Model D K} → Reach q h s → IsManned s
  Reach-IsManned begin = record {
    counted = refl;
    one_live = omega arith;
    current = tt;
    owned = tt;
    apart = tt;
  }
  Reach-IsManned (next r st) = Step-IsManned st (Reach-IsManned r)
