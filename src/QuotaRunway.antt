-- ===== src/QuotaRunway.antt =====
-- plugin/quotarunwayquery.cpp and .h: how long a quota lasts, from the samples of what remained of it.
pub mod Evaluate
pub mod Evidence
pub mod Prediction
mod Examples
use plasma_ai_usage_monitor.Prelude.{
  ℕ, zero, suc, ◌+◌, ◌-◌, ◌*◌, ◌/◌, ◌%◌, Bool, true, false, not, ◌&&◌, ◌||◌, Option, none, some,
  List, [], ◌∷◌, ◌++◌, String, if◌then◌else◌, ltb, leb, ◌==◌, length,
}
use plasma_ai_usage_monitor.Prelude.Int.{ℤ, pos, ltb_ℤ}
use plasma_ai_usage_monitor.Prelude.Qt.{DateTime, earlier, secs_to, Qt}
use plasma_ai_usage_monitor.Prelude.Doubles.{Doubles}
use plasma_ai_usage_monitor.Forecast.{has_text}

pub record Sample (D : Type 0) : Type 0 where
  pub observed_at : DateTime
  pub reset_at : DateTime
  pub remaining : Option D
  pub limit : Option D
  pub unit : String
  pub source : String

pub record Request (D : Type 0) : Type 0 where
  pub source_id : String
  pub source_kind : String
  pub window : String
  pub scope : String
  pub unit : String
  pub samples : List (Sample D)

abbrev pub supported_sources : List String
supported_sources =
    "response_headers" ∷ "usage_api" ∷ "metrics_api" ∷ "billing_api" ∷ "browser_sync" ∷ []

-- QDateTime::secsTo: 0 if either is invalid.
abbrev pub seconds : DateTime → DateTime → ℤ
seconds (some a) (some b) = secs_to a b
seconds _ _ = pos 0

module _ {D : Type 0} where
  -- std::sort by observedAt.
  unfoldable pub sort_into : Sample D → List (Sample D) → List (Sample D)
  sort_into s [] = s ∷ []
  sort_into s (t ∷ ts) =
      let rest = sort_into s ts in
      if earlier t.observed_at s.observed_at then t ∷ rest else s ∷ t ∷ ts

  unfoldable pub sorted : List (Sample D) → List (Sample D)
  sorted [] = []
  sorted (s ∷ ss) = sort_into s (sorted ss)

  abbrev pub last_of : Sample D → List (Sample D) → Sample D
  last_of s [] = s
  last_of s (t ∷ ts) = last_of t ts

  -- The sample at an index, or the given one.
  abbrev at : Sample D → ℕ → List (Sample D) → Sample D
  at s n [] = s
  at s zero (t ∷ ts) = t
  at s (suc n) (t ∷ ts) = at s n ts

  -- The indices from n to 255, of m of them.
  abbrev pick : ℕ → ℕ → ℕ → Sample D → List (Sample D) → List (Sample D)
  pick zero n last s ss = []
  pick (suc m) n last s ss = at s (n * last / 255) ss ∷ pick m (n + 1) last s ss

  -- `boundedSamples`
  unfoldable pub bounded_samples : List (Sample D) → List (Sample D)
  bounded_samples [] = []
  bounded_samples (s ∷ ss) =
      if leb (length (s ∷ ss)) 256 then s ∷ ss else pick 256 0 (length ss) s (s ∷ ss)

module _ {D : Type 0} (q : Qt D) (m : Doubles D) where
  open q use {nought, hundred, less}
  open m use {of_long, plus, minus, absolute, times, over, at_least, epsilon}

  -- `supportedSource`
  unfoldable pub supported_source : String → Bool
  supported_source source = has_text supported_sources (q.to_lower (q.trimmed source))

  abbrev pub remaining_of : Sample D → D
  remaining_of s = elim s.remaining [ none ↦ nought | some d ↦ d ]

  abbrev pub limit_of : Sample D → D
  limit_of s = elim s.limit [ none ↦ nought | some d ↦ d ]

  unfoldable pub sort_value : D → List D → List D
  sort_value d [] = d ∷ []
  sort_value d (e ∷ es) = let rest = sort_value d es in if less e d then e ∷ rest else d ∷ e ∷ es

  unfoldable pub sorted_values : List D → List D
  sorted_values [] = []
  sorted_values (d ∷ ds) = sort_value d (sorted_values ds)

  abbrev value_at : ℕ → List D → D
  value_at n [] = nought
  value_at zero (d ∷ ds) = d
  value_at (suc n) (d ∷ ds) = value_at n ds

  -- `median`
  unfoldable pub median : List D → D
  median ds =
      let ordered = sorted_values ds in
      let middle = length ordered / 2 in
      if length ordered == 0
      then nought
      else if length ordered % 2 == 0
      then over (plus (value_at (middle - 1) ordered) (value_at middle ordered)) (of_long (pos 2))
      else value_at middle ordered

  unfoldable pub gaps_from : Sample D → List (Sample D) → List D
  gaps_from s [] = []
  gaps_from s (t ∷ ts) = of_long (seconds s.observed_at t.observed_at) ∷ gaps_from t ts

  -- The sum of the gaps, each at most twice the usual one.
  unfoldable pub covered_from : D → D → List D → D
  covered_from usual covered [] = covered
  covered_from usual covered (gap ∷ gaps) =
      let most = times usual (of_long (pos 2)) in
      covered_from usual (plus covered (if less most gap then most else gap)) gaps

  -- std::clamp
  abbrev pub clamp : D → D → D → D
  clamp d low high = if less d low then low else if less high d then high else d

  -- `coverage`
  unfoldable pub coverage : List (Sample D) → D
  coverage [] = nought
  coverage (s ∷ []) = nought
  coverage (s ∷ t ∷ ts) =
      let gaps = gaps_from s (t ∷ ts) in
      let usual = median gaps in
      let span = of_long (seconds s.observed_at (last_of t ts).observed_at) in
      if at_least nought span || at_least nought usual
      then nought
      else clamp (times (over (covered_from usual nought gaps) span) hundred) nought hundred

  abbrev rate : Sample D → Sample D → D
  rate s t =
      over (minus (remaining_of s) (remaining_of t)) (of_long (seconds s.observed_at t.observed_at))

  -- The slopes from a sample to each later one.
  unfoldable pub slopes_of : Sample D → List (Sample D) → List D
  slopes_of s [] = []
  slopes_of s (t ∷ ts) =
      let rest = slopes_of s ts in
      if ltb_ℤ (pos 0) (seconds s.observed_at t.observed_at) then rate s t ∷ rest else rest

  unfoldable pub slopes : List (Sample D) → List D
  slopes [] = []
  slopes (s ∷ ss) = slopes_of s ss ++ slopes ss

  -- `consumptionSlope`
  unfoldable pub consumption_slope : List (Sample D) → D
  consumption_slope ss = median (slopes (bounded_samples ss))

  unfoldable pub deviations_from : D → Sample D → List (Sample D) → List D
  deviations_from slope s [] = []
  deviations_from slope s (t ∷ ts) =
      let rest = deviations_from slope t ts in
      if ltb_ℤ (pos 0) (seconds s.observed_at t.observed_at)
      then absolute (minus (rate s t) slope) ∷ rest
      else rest

  -- `volatility`
  unfoldable pub volatility : List (Sample D) → D → D
  volatility [] slope = nought
  volatility (s ∷ ss) slope =
      if ltb (length (s ∷ ss)) 2 || at_least epsilon slope
      then nought
      else over (median (deviations_from slope s ss)) slope
