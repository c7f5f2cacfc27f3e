-- ===== src/BudgetPacing/Latest.antt =====
-- The newest observation of each interval, as plugin/budgetpacingquery.cpp collects them.
use plasma_ai_usage_monitor.Prelude.{
  ◌≡◌, ◌⊎◌, inl, inr, refl, sym, ◌∙◌, ap, subst, and-true, Bool, true, false, none, some, List, [],
  ◌∷◌, arith, if◌then◌else◌, All, ==_iff,
}
use plasma_ai_usage_monitor.Prelude.Qt.{DateTime, earlier}
use plasma_ai_usage_monitor.BudgetPacing.{
  Observation, Request, same_time, same_interval, matches_scope, place, latest_from,
}

-- No two observations have the same interval.
abbrev pub IsTable : List Observation → Type 0
IsTable [] = Unit
IsTable (o ∷ os) = All (λ p. same_interval o p ≡ false) os × IsTable os

-- The table has an observation of the interval of c that is no older.
abbrev pub Covers : List Observation → Observation → Type 0
Covers [] c = ⊥
Covers (o ∷ os) c =
    ((same_interval o c ≡ true) × (earlier o.observed_at c.observed_at ≡ false)) ⊎ Covers os c

same_time_eq : (a b : DateTime) → same_time a b ≡ true → a ≡ b
same_time_eq none none h = refl
same_time_eq none (some b) h = cc
same_time_eq (some a) none h = cc
same_time_eq (some a) (some b) h = ap some ((==_iff a b).0 h)

same_time_sym : (a b : DateTime) → same_time a b ≡ same_time b a
same_time_sym none none = refl
same_time_sym none (some b) = refl
same_time_sym (some a) none = refl
same_time_sym (some a) (some b) = ground arith

-- Observations with the same interval compare alike with every other.
alike : (o c p : Observation) → same_interval o c ≡ true → same_interval o p ≡ same_interval c p
alike o c p h =
    let (starts, ends) =
      and-true (same_time o.interval_start c.interval_start)
        (same_time o.interval_end c.interval_end) h in
    rw
      (
        same_time_eq o.interval_start c.interval_start starts,
        same_time_eq o.interval_end c.interval_end ends,
      )
      refl

same_interval_sym : (a b : Observation) → same_interval a b ≡ same_interval b a
same_interval_sym a b =
    rw
      (same_time_sym a.interval_start b.interval_start, same_time_sym a.interval_end b.interval_end)
      refl

newer : (a b d : DateTime) → earlier a b ≡ true → earlier a d ≡ false → earlier b d ≡ false
newer a b none h g = refl
newer none (some b) (some d) h g = cc
newer none none (some d) h g = cc
newer (some a) none (some d) h g = cc
newer (some a) (some b) (some d) h g = ground arith

same_time_self : (a : DateTime) → same_time a a ≡ true
same_time_self none = refl
same_time_self (some a) = ground arith

not_earlier_self : (a : DateTime) → earlier a a ≡ false
not_earlier_self none = refl
not_earlier_self (some a) = ground arith

apart_of :
    (o c : Observation) (os : List Observation)
    → same_interval o c ≡ true
    → All (λ p. same_interval o p ≡ false) os
    → All (λ p. same_interval c p ≡ false) os
apart_of o c [] h hs = tt
apart_of o c (p ∷ ps) h (hp, hps) = (sym (alike o c p h) ∙ hp, apart_of o c ps h hps)

if-place :
    (P : List Observation → Type 0) (b : Bool) (xs ys : List Observation)
    → (b ≡ true → P xs)
    → (b ≡ false → P ys)
    → P (if b then xs else ys)
if-place P true xs ys f g = f refl
if-place P false xs ys f g = g refl

place-All :
    (o c : Observation) (os : List Observation)
    → same_interval o c ≡ false
    → All (λ p. same_interval o p ≡ false) os
    → All (λ p. same_interval o p ≡ false) (place c os)
unfolding place
place-All o c [] h hs = (h, tt)
place-All o c (p ∷ ps) h (hp, hps) =
    let P : List Observation → Type 0 = All (λ r. same_interval o r ≡ false) in
    if-place P (same_interval p c) _ _
      (λ same.
        if-place P (earlier p.observed_at c.observed_at) _ _ (λ old. (h, hps)) (λ new. (hp, hps)))
      (λ other. (hp, place-All o c ps h hps))

place-IsTable : (c : Observation) (os : List Observation) → IsTable os → IsTable (place c os)
unfolding place
place-IsTable c [] h = (tt, tt)
place-IsTable c (o ∷ os) (apart, h) =
    if-place IsTable (same_interval o c) _ _
      (λ same.
        if-place IsTable (earlier o.observed_at c.observed_at) _ _
          (λ old. (apart_of o c os same apart, h)) (λ new. (apart, h)))
      (λ other. (place-All o c os other apart, place-IsTable c os h))

same_interval_self : (c : Observation) → same_interval c c ≡ true
same_interval_self c = rw (same_time_self c.interval_start, same_time_self c.interval_end) refl

place-Covers_self : (c : Observation) (os : List Observation) → Covers (place c os) c
unfolding place
place-Covers_self c [] = inl (same_interval_self c, not_earlier_self c.observed_at)
place-Covers_self c (o ∷ os) =
    if-place (λ t. Covers t c) (same_interval o c) _ _
      (λ same.
        if-place (λ t. Covers t c) (earlier o.observed_at c.observed_at) _ _
          (λ old. inl (same_interval_self c, not_earlier_self c.observed_at))
          (λ new. inl (same, new)))
      (λ other. inr (place-Covers_self c os))

place-Covers : (c x : Observation) (os : List Observation) → Covers os x → Covers (place c os) x
unfolding place
place-Covers c x [] h = elim h [ ]
place-Covers c x (o ∷ os) h =
    if-place (λ t. Covers t x) (same_interval o c) _ _
      (λ same.
        if-place (λ t. Covers t x) (earlier o.observed_at c.observed_at) _ _
          (λ old. elim h [
            | inl here ↦
                inl
                  (sym (alike o c x same) ∙ here.0, newer _ c.observed_at x.observed_at old here.1)
            | inr there ↦ inr there
          ])
          (λ new. h))
      (λ other. elim h [ inl here ↦ inl here | inr there ↦ inr (place-Covers c x os there) ])

place-All_of :
    (P : Observation → Type 0) (c : Observation) (os : List Observation)
    → P c
    → All P os
    → All P (place c os)
unfolding place
place-All_of P c [] h hs = (h, tt)
place-All_of P c (o ∷ os) h (ho, hs) =
    if-place (All P) (same_interval o c) _ _
      (λ same.
        if-place (All P) (earlier o.observed_at c.observed_at) _ _ (λ old. (h, hs))
          (λ new. (ho, hs)))
      (λ other. (ho, place-All_of P c os h hs))

All-map :
    (P Q : Observation → Type 0) (os : List Observation)
    → ((o : Observation) → P o → Q o)
    → All P os
    → All Q os
All-map P Q [] f h = tt
All-map P Q (o ∷ os) f (h, hs) = (f o h, All-map P Q os f hs)

module _ (r : Request) where
  abbrev next : Observation → List Observation → List Observation
  next o kept = if matches_scope r o then place o kept else kept

  latest_from-Covers :
      (kept os : List Observation) (x : Observation)
      → Covers kept x
      → Covers (latest_from r kept os) x
  unfolding latest_from
  latest_from-Covers kept [] x h = h
  latest_from-Covers kept (o ∷ os) x h = latest_from-Covers (next o kept) os x (
      if-place (λ t. Covers t x) (matches_scope r o) _ _ (λ matched. place-Covers o x kept h)
        (λ other. h))

  latest_from-AllCovered :
      (kept os : List Observation)
      → All (λ o. matches_scope r o ≡ true → Covers (latest_from r kept os) o) os
  unfolding latest_from
  latest_from-AllCovered kept [] = tt
  latest_from-AllCovered kept (o ∷ os) = (
    λ matched. latest_from-Covers (next o kept) os o (
        subst (λ b. Covers (if b then place o kept else kept) o) (sym matched)
          (place-Covers_self o kept)),
    latest_from-AllCovered (next o kept) os,
  )

  latest_from-IsTable :
      (kept os : List Observation) → IsTable kept → IsTable (latest_from r kept os)
  unfolding latest_from
  latest_from-IsTable kept [] h = h
  latest_from-IsTable kept (o ∷ os) h =
      latest_from-IsTable (next o kept) os
        (if-place IsTable (matches_scope r o) _ _ (λ matched. place-IsTable o kept h) (λ other. h))

  latest_from-All :
      (P : Observation → Type 0) (kept os : List Observation)
      → All P kept
      → All (λ o. matches_scope r o ≡ true → P o) os
      → All P (latest_from r kept os)
  unfolding latest_from
  latest_from-All P kept [] h hs = h
  latest_from-All P kept (o ∷ os) h (ho, hs) =
      latest_from-All P (next o kept) os
        (if-place (All P) (matches_scope r o) _ _ (λ matched. place-All_of P o kept (ho matched) h)
          (λ other. h))
        hs

  -- The observations that evaluate collects from those of a request are a table: no two have the
  -- same interval; each observation that matches the scope has an entry of its interval that was
  -- not observed earlier; and each entry is an observation that matches.
  pub latest_from_lem :
      (os : List Observation)
      → let table = latest_from r [] os in
        IsTable table
        × All (λ o. matches_scope r o ≡ true → Covers table o) os
        × ((P : Observation → Type 0) → All (λ o. matches_scope r o ≡ true → P o) os → All P table)
  latest_from_lem os = (
    latest_from-IsTable [] os tt,
    latest_from-AllCovered [] os,
    λ P h. latest_from-All P [] os tt h,
  )
