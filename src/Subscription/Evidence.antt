-- ===== src/Subscription/Evidence.antt =====
-- What the quota windows of plugin/subscriptiontoolbackend.cpp are worth: which ones are shown as
-- available, and what a merge of new ones keeps.
use plasma_ai_usage_monitor.Prelude.{
  ℕ, ◌+◌, ◌≤◌, ◌<◌, ◌≡◌, refl, sym, ap, ◌∙◌, ◌⊎◌, inl, inr, Bool, true, false, not, ◌&&◌, ◌||◌,
  none, some, List, [], ◌∷◌, String, if◌then◌else◌, ltb, str_eq, arith, Bool-cases, and-true,
}
use plasma_ai_usage_monitor.Prelude.Int.{pos, leb_ℤ}
use plasma_ai_usage_monitor.Prelude.Qt.{
  DateTime, secs_to, Variant, text, boolean, Qt, IsQt, VariantMap, value, contains, insert,
}
use plasma_ai_usage_monitor.Prelude.Maps.{value-insert_self, value-insert_other}
use plasma_ai_usage_monitor.Subscription.Windows.{
  Measures, is_local_estimate, was_available, authenticated_quota_source, time_of, is_past,
  freshness_state, reason_at, window_at, quota_windows_at, has_fresh, has_fresh_quota,
}

fresh_choice :
    (a b c : Bool)
    → str_eq
        (if not a
          then "never_observed"
          else if b
          then "awaiting_refresh"
          else if c
          then "stale"
          else "fresh")
        "fresh"
      ≡ true
    → (a ≡ true) × (b ≡ false) × (c ≡ false)
fresh_choice true true c h = cc
fresh_choice true false true h = cc
fresh_choice true false false h = (refl, refl, refl)
fresh_choice false b c h = cc

second_of_or : (a b : Bool) → (a || b) ≡ true → a ≡ false → b ≡ true
second_of_or a b either no_more = ground arith

is_recent :
    (t now : ℕ)
    → (ltb now t || leb_ℤ (pos 900) (secs_to t now)) ≡ false
    → (t ≤ now) × (now < t + 900_000)
is_recent t now recent = ground arith

module _ {D : Type 0} (q : Qt D) (m : Measures D) where
  -- A row observed by an authenticated source less than fifteen minutes ago, and not since reset.
  pub record IsFresh (now : ℕ) (row : VariantMap D) : Type 0 where
    pub authenticated : authenticated_quota_source q m row ≡ true
    pub measured : (contains row "percentUsed" || contains row "percentRemaining") ≡ true
    pub observed :
        (t : ℕ) × (time_of q m row "observedAt" ≡ some t) × (t ≤ now) × (now < t + 900_000)
    pub unreset : (t : ℕ) → time_of q m row "resetAt" ≡ some t → now < t

  abbrev pub SomeFresh : ℕ → List (VariantMap D) → Type 0
  SomeFresh now [] = ⊥
  SomeFresh now (row ∷ rows) = IsFresh now row ⊎ SomeFresh now rows

  fresh_means :
      (measured : Bool) (observed reset : DateTime) (now : ℕ)
      → str_eq (freshness_state q m measured observed reset now) "fresh" ≡ true
      → (measured ≡ true)
        × ((t : ℕ) × (observed ≡ some t) × (t ≤ now) × (now < t + 900_000))
        × ((t : ℕ) → reset ≡ some t → now < t)
  unfolding freshness_state is_past
  fresh_means measured none reset now fresh = cc
  fresh_means measured (some t) reset now fresh =
      let (seen, ahead, recent) =
        fresh_choice measured (is_past q m reset now) (ltb now t || leb_ℤ (pos 900) (secs_to t now))
          fresh in
      (
        seen,
        (t, refl, (is_recent t now recent).0, (is_recent t now recent).1),
        before_reset reset ahead,
      )
    where
      before_reset : (r : DateTime) → is_past q m r now ≡ false → (u : ℕ) → r ≡ some u → now < u
      before_reset none ahead u e = cc
      before_reset (some r) ahead u e = ground arith

  module _ (laws : IsQt q) where
    open laws use {to_bool-boolean}

    source_kept :
        (key : String) (v : Variant D) (row : VariantMap D)
        → str_eq key "source" ≡ false
        → authenticated_quota_source q m (insert key v row) ≡ authenticated_quota_source q m row
    unfolding authenticated_quota_source
    source_kept key v row other = rw (value-insert_other key "source" v row other) refl

    authenticated_kept :
        (now : ℕ) (row : VariantMap D)
        → authenticated_quota_source q m (window_at q m now row)
          ≡ authenticated_quota_source q m row
    unfolding window_at
    authenticated_kept now row =
        elim (Bool-cases (authenticated_quota_source q m row || is_local_estimate q m row)) [
          | inr other ↦ rw other refl
          | inl dated ↦ rw dated (
              source_kept "freshnessState" (text (reason_at q m now row)) _ refl
              ∙ source_kept "available" _ row refl)
        ]

    available_value :
        (now : ℕ) (row : VariantMap D)
        → authenticated_quota_source q m row ≡ true
        → value (window_at q m now row) "available"
          ≡ boolean (was_available q m row && str_eq (reason_at q m now row) "fresh")
    unfolding window_at
    available_value now row known = rw known (
        value-insert_other "freshnessState" "available" (text (reason_at q m now row)) _ refl
        ∙ value-insert_self "available" _ row)

    available-IsFresh :
        (now : ℕ) (row : VariantMap D)
        → authenticated_quota_source q m row ≡ true
        → q.to_bool (value (window_at q m now row) "available") ≡ true
        → IsFresh now row
    unfolding reason_at
    available-IsFresh now row known shown =
        let is_new = str_eq (reason_at q m now row) "fresh" in
        let both : (was_available q m row && is_new) ≡ true =
          sym (to_bool-boolean (was_available q m row && is_new))
          ∙ (sym (ap q.to_bool (available_value now row known)) ∙ shown) in
        let (seen, observed, unreset) =
          fresh_means (contains row "percentUsed" || contains row "percentRemaining")
            (time_of q m row "observedAt") (time_of q m row "resetAt") now
            (and-true (was_available q m row) is_new both).1 in
        record { authenticated = known; measured = seen; observed = observed; unreset = unreset }

    -- A quota that is reported as fresh rests on a window from an authenticated source that
    -- measured a percentage less than fifteen minutes ago, not in the future, and whose reset has
    -- not passed, if reading a Boolean from a value gives back the one written.
    pub has_fresh_quota-SomeFresh :
        (now : ℕ) (rows : List (VariantMap D))
        → has_fresh_quota q m now rows ≡ true
        → SomeFresh now rows
    unfolding has_fresh_quota quota_windows_at has_fresh
    has_fresh_quota-SomeFresh now [] fresh = cc
    has_fresh_quota-SomeFresh now (row ∷ rows) fresh =
        let shown_row = window_at q m now row in
        let here =
          authenticated_quota_source q m shown_row && q.to_bool (value shown_row "available") in
        elim (Bool-cases here) [
          | inl yes_here ↦
              let (known, shown) =
                and-true (authenticated_quota_source q m shown_row)
                  (q.to_bool (value shown_row "available")) yes_here in
              inl (available-IsFresh now row (sym (authenticated_kept now row) ∙ known) shown)
          | inr no_more ↦ inr (
              has_fresh_quota-SomeFresh now rows
                (second_of_or here (has_fresh q m (quota_windows_at q m now rows)) fresh no_more))
        ]
