-- ===== src/Subscription/Examples.antt =====
-- Tests of plugin/subscriptiontoolbackend.cpp, and the theorems at concrete inputs.
use plasma_ai_usage_monitor.Prelude.{
  ℕ, ◌+◌, ◌-◌, ◌*◌, ◌/◌, ◌≤◌, ◌≡◌, ◌↔◌, refl, inl, inr, Bool, true, false, not, ◌&&◌, none, some,
  [], ◌∷◌, String, if◌then◌else◌, leb, is_some, str_eq, arith, eq_iff, length, All, sym, ◌∙◌,
  Bool-cases,
}
use mathlib.Core.Bool.{true≢false}
use mathlib.Core.HLevel.{Discrete}
use native.Mathlib.Decide.{ℕ_discrete}
use plasma_ai_usage_monitor.Prelude.Int.{ℤ, pos}
use plasma_ai_usage_monitor.Prelude.Qt.{
  Variant, text, number, date_time, VariantMap, value, contains, insert,
}
use plasma_ai_usage_monitor.Prelude.Plain.{plain, plain-IsQt}
use plasma_ai_usage_monitor.Subscription.{
  five_hour, monthly, weekly, Tool, Calendar, IsCalendar, Percents, Usage, calculate_period_end,
  is_due, check_and_reset_period, increment_usage, is_limit_reached,
}
use plasma_ai_usage_monitor.Subscription as Counting
use plasma_ai_usage_monitor.Subscription.Periods.{Kept, NotDue, check_and_reset_period-eq}
use plasma_ai_usage_monitor.Subscription.Sync.{Headers, initial, cancel_sync, sync_reply_is_current}
use plasma_ai_usage_monitor.Subscription.Backoff.{enables, begins, run, cancelled_forever}
use plasma_ai_usage_monitor.Subscription.Windows.{
  Measures, has_fresh_quota, quota_windows_at, has_fresh, window_at, reason_at,
  authenticated_quota_source, freshness_state, is_past, time_of, was_available, is_valid_window,
  set_synced_quota_windows,
}
use plasma_ai_usage_monitor.Subscription.Evidence.{SomeFresh, has_fresh_quota-SomeFresh}
use plasma_ai_usage_monitor.Subscription.Merging.{
  ComparesNames, IsNamed, IsStore, set_synced_quota_windows-IsStore,
}

string_discrete : Discrete String
string_discrete s t = elim (Bool-cases (str_eq s t)) [
  | inl same ↦ yes ((eq_iff s t).0 same)
  | inr other ↦ no (λ e. true≢false (sym ((eq_iff s t).1 e) ∙ other))
]

ℤ_discrete : Discrete ℤ
ℤ_discrete = hlevel ℕ_discrete

variant_discrete : Discrete (Variant ℕ)
variant_discrete = hlevel (ℕ_discrete, ℤ_discrete, string_discrete)

abbrev decided : {A : Type 0} → Dec A → Bool
decided (yes a) = true
decided (no a) = false

decided_iff : {A : Type 0} (d : Dec A) → (decided d ≡ true) ↔ A
decided_iff (yes a) = (λ h. a, λ a'. refl)
decided_iff (no n) = (λ h. cc, λ a. absurd (n a))

same_variant : Variant ℕ → Variant ℕ → Bool
same_variant a b = decided (variant_discrete a b)

same_variant_iff : (a b : Variant ℕ) → (same_variant a b ≡ true) ↔ (a ≡ b)
unfolding same_variant
same_variant_iff a b = decided_iff (variant_discrete a b)

abbrev measures : Measures ℕ
measures = record {
  far_from_hundred = λ a b. not (leb (a + b) 100 && leb 100 (a + b));
  iso_date = λ s. none;
  same_value = same_variant;
}

-- Months of thirty days.
abbrev months : Calendar
months = record {
  this_month = λ d day. d / 30 * 30 + day - 1;
  next_month = λ d day. (d / 30 + 1) * 30 + day;
}

months-IsCalendar : IsCalendar months
months-IsCalendar = record { later = λ d day. omega arith }

abbrev percents : Percents ℕ
percents = record { percent = λ n z. n; at_least = λ d z. leb 80 d; to_int = λ d. pos d }

abbrev tool : Tool
tool = record { primary_period = five_hour; secondary_period = some weekly }

abbrev used : Usage
used = record Counting.initial {
  usage_count = 9;
  usage_limit = pos 10;
  secondary_usage_count = 40;
  period_start = some 0;
  secondary_period_start = some 0;
}

check_and_reset_period-eq_example :
    let u' = (check_and_reset_period months tool 18_000_000 used).0 in
    (is_due months 18_000_000 (calculate_period_end months u' five_hour u'.period_start) ≡ false)
    × NotDue months (some weekly) 18_000_000 u'
    × Kept true 18_000_000 9 (some 0) u'.usage_count u'.period_start
    × Kept false 18_000_000 40 (some 0) u'.secondary_usage_count u'.secondary_period_start
unfolding calculate_period_end Counting.period_end_from
check_and_reset_period-eq_example =
    check_and_reset_period-eq months months-IsCalendar tool 18_000_000 used

abbrev headers : Headers
headers = record {
  to_long_long = λ s. if str_eq s "120" then some (pos 120) else none;
  rfc_2822 = λ s. none;
}

cancelled_forever_example :
    let s = run headers (enables true 0 ∷ begins ∷ []) initial in
    let t = run headers (begins ∷ begins ∷ []) (cancel_sync 5 s).0 in
    ((is_some s.sync_retry_after ≡ true) ↔ (1 ≤ s.sync_failures))
    × (1 ≤ s.sync_generation → sync_reply_is_current 1 t ≡ false)
cancelled_forever_example =
    cancelled_forever headers (enables true 0 ∷ begins ∷ []) (begins ∷ begins ∷ []) 5 1

abbrev synced : VariantMap ℕ
synced =
    ("kind", text "weekly")
    ∷ ("source", text "browser_sync")
    ∷ ("percentUsed", number 40)
    ∷ ("observedAt", date_time (some 1000))
    ∷ []

has_fresh_quota-SomeFresh_example : SomeFresh plain measures 2000 (synced ∷ [])
unfolding has_fresh_quota quota_windows_at has_fresh window_at reason_at authenticated_quota_source
    freshness_state is_past time_of was_available value contains insert
has_fresh_quota-SomeFresh_example =
    has_fresh_quota-SomeFresh plain measures plain-IsQt 2000 (synced ∷ []) refl

names_iff : ComparesNames measures
names_iff a b a_name b_name = same_variant_iff a b

synced-IsNamed : IsNamed synced
unfolding value
synced-IsNamed = (tt, tt, tt, tt)

set_synced_quota_windows-IsStore_example :
    let rows' = set_synced_quota_windows plain measures 5000 (synced ∷ []) [] in
    IsStore plain measures names_iff rows'
    × (length rows' ≤ 0 + 1)
    × (All (λ s. is_valid_window plain measures s ≡ false) (synced ∷ []) → rows' ≡ [])
set_synced_quota_windows-IsStore_example =
    set_synced_quota_windows-IsStore plain measures names_iff 5000 (synced ∷ []) []
      (synced-IsNamed, tt) (tt, tt, tt)
