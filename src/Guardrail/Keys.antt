-- ===== src/Guardrail/Keys.antt =====
-- The cache key of plugin/guardrailmodel.cpp, and the requests it stands for.
use plasma_ai_usage_monitor.Prelude.{ℕ, ◌/◌, ◌≡◌, refl, ap, ◌∙◌, some, arith}
use plasma_ai_usage_monitor.Prelude.Int.{pos}
use plasma_ai_usage_monitor.Prelude.Qt.{Qt, IsQt, integer, date_time, VariantMap, value, insert}
use plasma_ai_usage_monitor.Prelude.Maps.{value-insert_self, insert-insert}
use plasma_ai_usage_monitor.Guardrail.{Host, canonical, cache_key}

module _ {D : Type 0} where
  abbrev pub dated : ℕ → VariantMap D → VariantMap D
  dated t = insert "generatedAt" (date_time (some t))

module _ {D K : Type 0} (q : Qt D) (h : Host D K) (laws : IsQt q) where
  cache_key-dated :
      (t : ℕ) (query : VariantMap D)
      → cache_key q h (dated t query)
        ≡ h.digest (insert "generatedAt" (integer (pos (t / 1000 / 60))) query)
  unfolding cache_key canonical
  cache_key-dated t query =
      ap (λ d. h.digest (canonical q h (dated t query) d)) instant
      ∙ ap h.digest (insert-insert "generatedAt" _ _ query)
    where
      instant : q.to_date_time (value (dated t query) "generatedAt") ≡ some t
      instant =
          ap q.to_date_time (value-insert_self "generatedAt" (date_time (some t)) query)
          ∙ laws.to_date_time-date_time (some t)

  -- Two requests that differ in nothing but an instant within the same minute share a cache key, if
  -- reading an instant from a map gives back the one written.
  pub cache_key-minute :
      (t u : ℕ) (query : VariantMap D)
      → t / 60_000 ≡ u / 60_000
      → cache_key q h (dated t query) ≡ cache_key q h (dated u query)
  cache_key-minute t u query same =
      let minute : t / 1000 / 60 ≡ u / 1000 / 60 = omega arith in
      rw (cache_key-dated t query, cache_key-dated u query, minute) refl
