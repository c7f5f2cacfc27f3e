-- ===== src/Guardrail/Steps.antt =====
-- The histories of plugin/guardrailmodel.cpp: the calls from the interface and the workers that finish,
-- in any order.
use plasma_ai_usage_monitor.Prelude.{◌≡◌, ◌⊎◌, false, List, [], ◌∷◌}
use plasma_ai_usage_monitor.Prelude.Qt.{Qt, VariantMap}
use plasma_ai_usage_monitor.Guardrail.{
  Host, Work, Model, initial, cancel, invalidate_cache, set_query, refresh, refresh_with_query,
  finish,
}

module _ {D K : Type 0} where
  abbrev pub In : Work D K → List (Work D K) → Type 0
  In w [] = ⊥
  In w (v ∷ ws) = (w ≡ v) ⊎ In w ws

module _ {D K : Type 0} (q : Qt D) (h : Host D K) where
  -- A worker that was not cancelled brings the answer to its query; one that was may bring anything.
  pub data Step (s : Model D K) : Model D K → Type 0 where
    sets : (query : VariantMap D) → Step s (set_query h query s).0
    refreshes : Step s (refresh q h s).0
    requests : (query : VariantMap D) → Step s (refresh_with_query q h query s).0
    cancels : Step s (cancel s).0
    clears : Step s (invalidate_cache s)
    finishes :
        (w : Work D K) (result : List (VariantMap D))
        → In w s.work
        → (w.cancelled ≡ false → result ≡ h.execute w.query)
        → Step s (finish q h w result s).0

  pub data Reach : Model D K → Type 0 where
    begin : Reach initial
    next : {s t : Model D K} → Reach s → Step s t → Reach t
