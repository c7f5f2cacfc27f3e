-- ===== src/Subscription/Merging.antt =====
-- What a synchronisation of plugin/subscriptiontoolbackend.cpp makes of the quota windows that are kept.
use plasma_ai_usage_monitor.Prelude.{
  ℕ, suc, ◌+◌, ◌≤◌, ◌≡◌, ◌↔◌, refl, ◌∙◌, inl, inr, true, false, ◌&&◌, some, List, [], ◌∷◌, All,
  arith, Bool-cases, length, and-true,
}
use plasma_ai_usage_monitor.Prelude.Qt.{
  Variant, null, text, date_time, Qt, VariantMap, value, insert,
}
use plasma_ai_usage_monitor.Prelude.Maps.{value-insert_other, contains-insert_other}
use plasma_ai_usage_monitor.Subscription.Windows.{
  Measures, is_valid_window, same_window, place, merge_window, set_synced_quota_windows,
}

-- A text or no value at all, as the parts of an identity are.
abbrev pub IsName : {D : Type 0} → Variant D → Type 0
IsName null = Unit
IsName (text s) = Unit
IsName _ = ⊥

-- A window whose identity is made of texts.
abbrev pub IsNamed : {D : Type 0} → VariantMap D → Type 0
IsNamed row =
    IsName (value row "kind")
    × IsName (value row "window")
    × IsName (value row "scope")
    × IsName (value row "source")

-- QVariant::operator== on two texts, or on what is no value: no conversion takes place there.
abbrev pub ComparesNames : {D : Type 0} → Measures D → Type 0
ComparesNames {D = D} m =
    (a b : Variant D) → IsName a → IsName b → (m.same_value a b ≡ true) ↔ (a ≡ b)

module _ {D : Type 0} (q : Qt D) (m : Measures D) (reads : ComparesNames m) where
  -- No two windows of the same identity.
  abbrev pub Distinct : List (VariantMap D) → Type 0
  Distinct [] = Unit
  Distinct (row ∷ rows) = All (λ s. same_window q m row s ≡ false) rows × Distinct rows

  abbrev pub IsStore : List (VariantMap D) → Type 0
  IsStore rows = Distinct rows × All (λ s. is_valid_window q m s ≡ true) rows × All IsNamed rows

  same_left :
      (old row s : VariantMap D)
      → IsNamed old
      → IsNamed row
      → same_window q m old row ≡ true
      → same_window q m row s ≡ same_window q m old s
  unfolding same_window
  same_left old row s (k, w, c, o) (k', w', c', o') same =
      let kind = m.same_value (value old "kind") (value row "kind") in
      let window = m.same_value (value old "window") (value row "window") in
      let scope = m.same_value (value old "scope") (value row "scope") in
      let source = m.same_value (value old "source") (value row "source") in
      let (rest, at_source) = and-true (kind && window && scope) source same in
      let (rest', at_scope) = and-true (kind && window) scope rest in
      let (at_kind, at_window) = and-true kind window rest' in
      rw
        (
          (reads (value old "kind") (value row "kind") k k').0 at_kind,
          (reads (value old "window") (value row "window") w w').0 at_window,
          (reads (value old "scope") (value row "scope") c c').0 at_scope,
          (reads (value old "source") (value row "source") o o').0 at_source,
        )
        refl

  All-place :
      (P : VariantMap D → Type 0) (row : VariantMap D) (rows : List (VariantMap D))
      → P row
      → All P rows
      → All P (place q m row rows)
  unfolding place
  All-place P row [] p ps = (p, tt)
  All-place P row (old ∷ rows) p (o, ps) = elim (Bool-cases (same_window q m old row)) [
    | inl same ↦ rw same (p, ps)
    | inr other ↦ rw other (o, All-place P row rows p ps)
  ]

  All-same_left :
      (old row : VariantMap D) (rows : List (VariantMap D))
      → IsNamed old
      → IsNamed row
      → same_window q m old row ≡ true
      → All (λ s. same_window q m old s ≡ false) rows
      → All (λ s. same_window q m row s ≡ false) rows
  All-same_left old row [] named named' same ps = tt
  All-same_left old row (s ∷ rows) named named' same (p, ps) =
      (same_left old row s named named' same ∙ p, All-same_left old row rows named named' same ps)

  place-Distinct :
      (row : VariantMap D) (rows : List (VariantMap D))
      → IsNamed row
      → All IsNamed rows
      → Distinct rows
      → Distinct (place q m row rows)
  unfolding place
  place-Distinct row [] named ns v = (tt, tt)
  place-Distinct row (old ∷ rows) named (n, ns) (apart, v) =
      elim (Bool-cases (same_window q m old row)) [
        | inl same ↦ rw same (All-same_left old row rows n named same apart, v)
        | inr other ↦ rw other (
          All-place (λ s. same_window q m old s ≡ false) row rows other apart,
          place-Distinct row rows named ns v,
        )
      ]

  length-place :
      (row : VariantMap D) (rows : List (VariantMap D))
      → length (place q m row rows) ≤ suc (length rows)
  unfolding place
  length-place row [] = omega arith
  length-place row (old ∷ rows) = elim (Bool-cases (same_window q m old row)) [
    | inl same ↦ rw same (omega arith)
    | inr other ↦ rw other (omega (arith, length-place row rows))
  ]

  valid-insert :
      (now : ℕ) (row : VariantMap D)
      → is_valid_window q m (insert "observedAt" (date_time (some now)) row)
        ≡ is_valid_window q m row
  unfolding is_valid_window
  valid-insert now row =
      let v = date_time (some now) in
      rw
        (
          value-insert_other "observedAt" "percentUsed" v row refl,
          value-insert_other "observedAt" "percentRemaining" v row refl,
          contains-insert_other "observedAt" "percentUsed" v row refl,
          contains-insert_other "observedAt" "percentRemaining" v row refl,
        )
        refl

  insert-IsNamed :
      (now : ℕ) (row : VariantMap D)
      → IsNamed row
      → IsNamed (insert "observedAt" (date_time (some now)) row)
  insert-IsNamed now row named =
      let v = date_time (some now) in
      rw
        (
          value-insert_other "observedAt" "kind" v row refl,
          value-insert_other "observedAt" "window" v row refl,
          value-insert_other "observedAt" "scope" v row refl,
          value-insert_other "observedAt" "source" v row refl,
        )
        named

  merge-IsStore :
      (now : ℕ) (row : VariantMap D) (rows : List (VariantMap D))
      → IsNamed row
      → IsStore rows
      → IsStore (merge_window q m now row rows)
        × (length (merge_window q m now row rows) ≤ suc (length rows))
  unfolding merge_window
  merge-IsStore now row rows is_named (distinct, valid, named) =
      let dated = insert "observedAt" (date_time (some now)) row in
      elim (Bool-cases (is_valid_window q m row)) [
        | inr vain ↦ rw vain ((distinct, valid, named), omega arith)
        | inl fit ↦ rw fit (
          (
            place-Distinct dated rows (insert-IsNamed now row is_named) named distinct,
            All-place (λ s. is_valid_window q m s ≡ true) dated rows (valid-insert now row ∙ fit)
                valid,
            All-place IsNamed dated rows (insert-IsNamed now row is_named) named,
          ),
          length-place dated rows,
        )
      ]

  unmerged :
      (now : ℕ) (row : VariantMap D) (rows : List (VariantMap D))
      → is_valid_window q m row ≡ false
      → merge_window q m now row rows ≡ rows
  unfolding merge_window
  unmerged now row rows vain = rw vain refl

  -- Whatever a synchronisation brings: if the windows kept had no identity twice and all measured a
  -- percentage, so do those kept afterwards; they are at most as many more as it brought; and a
  -- response with no valid window leaves all as it was, if the identities of the windows are texts
  -- or absent and the comparison of values tells exactly the equal ones of those.
  pub set_synced_quota_windows-IsStore :
      (now : ℕ) (windows rows : List (VariantMap D))
      → All IsNamed windows
      → IsStore rows
      → let rows' = set_synced_quota_windows q m now windows rows in
        IsStore rows'
        × (length rows' ≤ length rows + length windows)
        × (All (λ s. is_valid_window q m s ≡ false) windows → rows' ≡ rows)
  unfolding set_synced_quota_windows
  set_synced_quota_windows-IsStore now [] rows named v = (v, omega arith, λ none_valid. refl)
  set_synced_quota_windows-IsStore now (row ∷ windows) rows (named, more) v =
      let (v', few) = merge-IsStore now row rows named v in
      let (v'', few', same) =
        set_synced_quota_windows-IsStore now windows (merge_window q m now row rows) more v' in
      (v'', omega arith, λ (vain, rest). same rest ∙ unmerged now row rows vain)
