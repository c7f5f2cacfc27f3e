-- ===== src/Guardrail/Cache.antt =====
-- The cache of plugin/guardrailmodel.cpp: what `remember` does to the entries and to their order.
use plasma_ai_usage_monitor.Prelude.{
  ◌≤◌, ◌≡◌, refl, ◌⊎◌, inl, inr, Bool, true, false, none, some, List, [], ◌∷◌, ◌++◌, if◌then◌else◌,
  ltb, length, arith, Bool-cases, is_some, ◌||◌, sym, ◌∙◌,
}
use plasma_ai_usage_monitor.Prelude.Qt.{VariantMap}
use plasma_ai_usage_monitor.Guardrail.{
  Host, Model, max_cached, cached, without, remove_key, trim, remember,
}

module _ {D K : Type 0} (h : Host D K) where
  open h use {same_key, same_key_iff}

  abbrev pub has_key : K → List K → Bool
  has_key k [] = false
  has_key k (j ∷ order) = same_key j k || has_key k order

  -- No key stands twice.
  abbrev pub Distinct : List K → Type 0
  Distinct [] = Unit {0}
  Distinct (k ∷ order) = (has_key k order ≡ false) × Distinct order

  -- The order lists the cached keys, each once, and no more than the bound.
  pub record IsCache (order : List K) (c : List (K × List (VariantMap D))) : Type 0 where
    pub bounded : length order ≤ max_cached
    pub distinct : Distinct order
    pub listed : (k : K) → is_some (cached h k c) ≡ has_key k order

  pub empty-IsCache : IsCache [] []
  unfolding cached
  empty-IsCache = record { bounded = omega arith; distinct = tt; listed = λ k. refl }

  pub not-cached-nil : (k : K) → cached h k [] ≡ none
  unfolding cached
  not-cached-nil k = refl

  cached-without :
      (k j : K) (c : List (K × List (VariantMap D)))
      → cached h j (without h k c) ≡ (if same_key k j then none else cached h j c)
  unfolding cached without
  cached-without k j [] = ground arith
  cached-without k j ((i, rows) ∷ c) =
      ground (arith, cached-without k j c, same_key_iff i k, same_key_iff i j, same_key_iff k j)

  has_key-remove :
      (k j : K) (order : List K)
      → has_key j (remove_key h k order) ≡ (if same_key k j then false else has_key j order)
  unfolding remove_key
  has_key-remove k j [] = ground arith
  has_key-remove k j (i ∷ order) =
      ground (arith, has_key-remove k j order, same_key_iff i k, same_key_iff i j, same_key_iff k j)

  has_key-append :
      (k j : K) (order : List K) → has_key j (order ++ k ∷ []) ≡ (has_key j order || same_key k j)
  has_key-append k j [] = ground arith
  has_key-append k j (i ∷ order) = ground (arith, has_key-append k j order)

  Distinct-remove : (k : K) (order : List K) → Distinct order → Distinct (remove_key h k order)
  unfolding remove_key
  Distinct-remove k [] d = tt
  Distinct-remove k (i ∷ order) d =
      ground (arith, Distinct-remove k order d.1, has_key-remove k i order)

  Distinct-append :
      (k : K) (order : List K)
      → has_key k order ≡ false
      → Distinct order
      → Distinct (order ++ k ∷ [])
  Distinct-append k [] new d = (refl, tt)
  Distinct-append k (i ∷ order) new d =
      ground (
        arith,
        Distinct-append k order,
        has_key-append k i order,
        same_key_iff i k,
        same_key_iff k i,
      )

  abbrev Lists : List K → List (K × List (VariantMap D)) → Type 0
  Lists order c = (k : K) → is_some (cached h k c) ≡ has_key k order

  Lists-without :
      (k : K) (order : List K) (c : List (K × List (VariantMap D)))
      → Distinct (k ∷ order)
      → Lists (k ∷ order) c
      → Lists order (without h k c)
  Lists-without k order c d l j = rw (cached-without k j c) (elim (Bool-cases (same_key k j)) [
    | inl e ↦ rw (e, ← (same_key_iff k j).0 e, d.0) refl
    | inr ne ↦ ground (arith, l j)
  ])

  trim-IsCache :
      (order : List K) (c : List (K × List (VariantMap D)))
      → Distinct order
      → Lists order c
      → let (order', c') = trim h order c in
        (length order' ≤ max_cached) × Distinct order' × Lists order' c'
  unfolding trim
  trim-IsCache [] c d l = (omega arith, tt, l)
  trim-IsCache (k ∷ order) c d l = elim (Bool-cases (ltb max_cached (length (k ∷ order)))) [
    | inl over ↦ rw over (trim-IsCache order (without h k c) d.1 (Lists-without k order c d l))
    | inr fits ↦ rw fits (ground arith, d, l)
  ]

  trim-last :
      (k : K) (order : List K) (c : List (K × List (VariantMap D)))
      → Distinct (order ++ k ∷ [])
      → cached h k (trim h (order ++ k ∷ []) c).1 ≡ cached h k c
  unfolding trim
  trim-last k [] c d = refl
  trim-last k (i ∷ order) c d = ground (
    arith,
    trim-last k order (without h i c) d.1,
    cached-without i k c,
    has_key-append k i order,
    same_key_iff i k,
    same_key_iff k i,
  )

  trim-sub :
      (j : K) (order : List K) (c : List (K × List (VariantMap D))) (v : List (VariantMap D))
      → cached h j (trim h order c).1 ≡ some v
      → cached h j c ≡ some v
  unfolding trim
  trim-sub j [] c v e = e
  trim-sub j (i ∷ order) c v e =
      ground (arith, trim-sub j order (without h i c) v, cached-without i j c)

  module _ (k : K) (rows : List (VariantMap D)) (s : Model D K)
      (v : IsCache s.cache_order s.cache) where
    same_self : same_key k k ≡ true
    same_self = (same_key_iff k k).1 refl

    order_Distinct : Distinct (remove_key h k s.cache_order ++ k ∷ [])
    order_Distinct =
        Distinct-append k (remove_key h k s.cache_order)
          (rw (has_key-remove k k s.cache_order, same_self) refl)
          (Distinct-remove k s.cache_order v.distinct)

    entry_Lists : Lists (remove_key h k s.cache_order ++ k ∷ []) ((k, rows) ∷ without h k s.cache)
    unfolding cached
    entry_Lists j = ground (
      arith,
      cached-without k j s.cache,
      has_key-append k j (remove_key h k s.cache_order),
      has_key-remove k j s.cache_order,
      v.listed j,
    )

    pub cached_newest :
        (j : K)
        → cached h j ((k, rows) ∷ without h k s.cache)
          ≡ (if same_key k j then some rows else cached h j (without h k s.cache))
    unfolding cached
    cached_newest j = refl

    -- From a cache in order, remembering an answer keeps at most 16 keys, each once, exactly those
    -- of the entries, and the answer is what the next request for its key finds.
    pub remember-IsCache :
        let s' = remember h k rows s in
        IsCache s'.cache_order s'.cache × (cached h k s'.cache ≡ some rows)
    unfolding remember
    remember-IsCache =
        let order = remove_key h k s.cache_order ++ k ∷ [] in
        let entries = (k, rows) ∷ without h k s.cache in
        let (b, d, l) = trim-IsCache order entries order_Distinct entry_Lists in
        (
          record { bounded = b; distinct = d; listed = l },
          trim-last k (remove_key h k s.cache_order) entries order_Distinct ∙ newest,
        )
      where
        newest : cached h k ((k, rows) ∷ without h k s.cache) ≡ some rows
        newest = rw (cached_newest k, same_self) refl

    pub remember-sub :
        (j : K) (w : List (VariantMap D))
        → cached h j (remember h k rows s).cache ≡ some w
        → ((j ≡ k) × (w ≡ rows)) ⊎ (cached h j s.cache ≡ some w)
    unfolding remember
    remember-sub j w e =
        let entries = (k, rows) ∷ without h k s.cache in
        let e' = trim-sub j (remove_key h k s.cache_order ++ k ∷ []) entries w e in
        elim (Bool-cases (same_key k j)) [
          | inl same ↦ inl (sym ((same_key_iff k j).0 same), ground (arith, cached_newest j))
          | inr other ↦ inr (ground (arith, cached_newest j, cached-without k j s.cache))
        ]
