-- ===== src/Subscription/Windows.antt =====
-- The quota windows that plugin/subscriptiontoolbackend.cpp keeps from synchronisations: which rows it
-- accepts, how they replace older ones, and how old a row may be to count. `far_from_hundred a b` is
-- abs(a + b - 100.0) > 0.01; a date in a text is read by QDateTime::fromString.
use plasma_ai_usage_monitor.Prelude.{
  ℕ, Bool, true, false, not, ◌&&◌, ◌||◌, Option, none, some, List, [], ◌∷◌, map, String,
  if◌then◌else◌, ltb, leb, is_some, str_eq,
}
use plasma_ai_usage_monitor.Prelude.Int.{pos, leb_ℤ}
use plasma_ai_usage_monitor.Prelude.Qt.{
  DateTime, earlier, secs_to, Variant, null, text, boolean, date_time, Qt, VariantMap, value,
  contains, insert,
}

pub record Measures (D : Type 0) : Type 0 where
  pub far_from_hundred : D → D → Bool
  pub iso_date : String → DateTime
  pub same_value : Variant D → Variant D → Bool

module _ {D : Type 0} (q : Qt D) (m : Measures D) where
  -- toDouble, and 0 where it fails.
  pub double_of : Variant D → D
  double_of v = or_nought (q.to_double v)
    where
      or_nought : Option D → D
      or_nought none = q.nought
      or_nought (some d) = d

  pub is_percent : Option D → Bool
  is_percent none = false
  is_percent (some d) = q.is_finite d && not (q.less d q.nought) && not (q.less q.hundred d)

  -- A null, a text and a Boolean are not taken for a number.
  pub is_measure : Variant D → Bool
  is_measure null = false
  is_measure (text s) = false
  is_measure (boolean b) = false
  is_measure v = is_percent (q.to_double v)

  -- At least one of the fields is there, and each that is there is a percentage.
  unfoldable pub is_valid_window : VariantMap D → Bool
  is_valid_window row =
      let used = contains row "percentUsed" in
      let remaining = contains row "percentRemaining" in
      let used_value = value row "percentUsed" in
      let remaining_value = value row "percentRemaining" in
      (used || remaining)
      && (not used || is_measure used_value)
      && (not remaining || is_measure remaining_value)
      && not (
          used
          && remaining
          && m.far_from_hundred (double_of used_value) (double_of remaining_value))

  unfoldable pub same_window : VariantMap D → VariantMap D → Bool
  same_window old row =
      m.same_value (value old "kind") (value row "kind")
      && m.same_value (value old "window") (value row "window")
      && m.same_value (value old "scope") (value row "scope")
      && m.same_value (value old "source") (value row "source")

  -- The first window of the same identity is replaced; otherwise the row is appended.
  unfoldable pub place : VariantMap D → List (VariantMap D) → List (VariantMap D)
  place row [] = row ∷ []
  place row (old ∷ rows) = if same_window old row then row ∷ rows else old ∷ place row rows

  unfoldable pub merge_window : ℕ → VariantMap D → List (VariantMap D) → List (VariantMap D)
  merge_window now row rows =
      if is_valid_window row
      then place (insert "observedAt" (date_time (some now)) row) rows
      else rows

  unfoldable pub set_synced_quota_windows :
      ℕ → List (VariantMap D) → List (VariantMap D) → List (VariantMap D)
  set_synced_quota_windows now [] rows = rows
  set_synced_quota_windows now (row ∷ windows) rows =
      set_synced_quota_windows now windows (merge_window now row rows)

  unfoldable pub authenticated_quota_source : VariantMap D → Bool
  authenticated_quota_source row =
      let source = q.to_string (value row "source") in
      str_eq source "browser_sync"
      || str_eq source "antigravity_local"
      || str_eq source "local_daemon_actual"

  pub is_local_estimate : VariantMap D → Bool
  is_local_estimate row =
      let precision = q.to_string (value row "precision") in
      str_eq (q.to_string (value row "source")) "local_activity"
      || str_eq precision "self_tracked_local"
      || str_eq precision "estimated"

  -- toDateTime, and an ISO date in a text where that fails.
  unfoldable pub time_of : VariantMap D → String → DateTime
  time_of row key =
      let direct = q.to_date_time (value row key) in
      if is_some direct then direct else m.iso_date (q.to_string (value row key))

  abbrev pub has_measure : VariantMap D → Bool
  has_measure row = contains row "percentUsed" || contains row "percentRemaining"

  -- A reset that is not later than now.
  unfoldable pub is_past : DateTime → ℕ → Bool
  is_past none now = false
  is_past (some at) now = leb at now

  unfoldable pub freshness_state : Bool → DateTime → DateTime → ℕ → String
  freshness_state measured none reset now = "never_observed"
  freshness_state measured (some observed) reset now =
      if not measured
      then "never_observed"
      else if is_past reset now
      then "awaiting_refresh"
      else if ltb now observed || leb_ℤ (pos 900) (secs_to observed now)
      then "stale"
      else "fresh"

  -- value(key, true).toBool().
  unfoldable pub was_available : VariantMap D → Bool
  was_available row = if contains row "available" then q.to_bool (value row "available") else true

  unfoldable pub reason_at : ℕ → VariantMap D → String
  reason_at now row =
      freshness_state (has_measure row) (time_of row "observedAt") (time_of row "resetAt") now

  unfoldable pub window_at : ℕ → VariantMap D → VariantMap D
  window_at now row =
      if authenticated_quota_source row || is_local_estimate row
      then insert "freshnessState" (text (reason_at now row)) (
          insert "available" (boolean (was_available row && str_eq (reason_at now row) "fresh"))
            row)
      else row

  unfoldable pub quota_windows_at : ℕ → List (VariantMap D) → List (VariantMap D)
  quota_windows_at now rows = map (window_at now) rows

  unfoldable pub has_fresh : List (VariantMap D) → Bool
  has_fresh [] = false
  has_fresh (row ∷ rows) =
      authenticated_quota_source row && q.to_bool (value row "available") || has_fresh rows

  unfoldable pub has_fresh_quota : ℕ → List (VariantMap D) → Bool
  has_fresh_quota now rows = has_fresh (quota_windows_at now rows)

  pub latest : DateTime → List (VariantMap D) → DateTime
  latest best [] = best
  latest best (row ∷ rows) =
      let observed = q.to_date_time (value row "observedAt") in
      let next =
        if authenticated_quota_source row
          && is_some observed
          && (not (is_some best) || earlier best observed)
        then observed
        else best in
      latest next rows

  pub last_quota_observation : List (VariantMap D) → DateTime
  last_quota_observation rows = latest none rows
