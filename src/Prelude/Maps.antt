-- ===== src/Prelude/Maps.antt =====
-- What an insertion into a QVariantMap leaves of the others.
use mathlib.Core.Path.{◌≡◌, refl, ap}
use mathlib.Core.Logic.{inl, inr}
use mathlib.Core.Bool.{true, false}
use mathlib.Core.List.{[], ◌∷◌}
use Prim.Native.String.{String}
use package.text.Mathlib.Text.{◌==◌ as str_eq}
use package.text.Mathlib.TextEquality.{eq_iff}
use package.text.Mathlib.TextPositions.{eq_refl}
use plasma_ai_usage_monitor.Prelude.Tests.{Bool-cases}
use plasma_ai_usage_monitor.Prelude.Qt.{Variant, VariantMap, value, contains, insert}

apart_too :
    (k key other : String) → str_eq k key ≡ true → str_eq key other ≡ false → str_eq k other ≡ false
apart_too k key other same apart = rw ((eq_iff k key).0 same) apart

module _ {D : Type 0} where
  pub value-insert_self :
      (key : String) (v : Variant D) (m : VariantMap D) → value (insert key v m) key ≡ v
  unfolding value insert
  value-insert_self key v [] = rw (eq_refl key) refl
  value-insert_self key v ((k, w) ∷ m) = elim (Bool-cases (str_eq k key)) [
    | inl same ↦ rw (same, value) (rw same refl)
    | inr other ↦ rw other (rw other (value-insert_self key v m))
  ]

  pub insert-insert :
      (key : String) (v w : Variant D) (m : VariantMap D)
      → insert key v (insert key w m) ≡ insert key v m
  unfolding insert
  insert-insert key v w [] = rw (eq_refl key) refl
  insert-insert key v w ((k, x) ∷ m) = elim (Bool-cases (str_eq k key)) [
    | inl same ↦ rw same (rw same refl)
    | inr other ↦ rw other (rw other (ap (λ r. (k, x) ∷ r) (insert-insert key v w m)))
  ]

  pub value-insert_other :
      (key other : String) (v : Variant D) (m : VariantMap D)
      → str_eq key other ≡ false
      → value (insert key v m) other ≡ value m other
  unfolding value insert
  value-insert_other key other v [] apart = rw apart refl
  value-insert_other key other v ((k, w) ∷ m) apart = elim (Bool-cases (str_eq k key)) [
    | inl same ↦ rw (same, value) (rw (apart_too k key other same apart) refl)
    | inr no_more ↦ elim (Bool-cases (str_eq k other)) [
      | inl here ↦ rw no_more (rw (here, value) refl)
      | inr there ↦ rw no_more (rw (there, value) (value-insert_other key other v m apart))
    ]
  ]

  pub contains-insert_other :
      (key other : String) (v : Variant D) (m : VariantMap D)
      → str_eq key other ≡ false
      → contains (insert key v m) other ≡ contains m other
  unfolding contains insert
  contains-insert_other key other v [] apart = rw apart refl
  contains-insert_other key other v ((k, w) ∷ m) apart = elim (Bool-cases (str_eq k key)) [
    | inl same ↦ rw same refl
    | inr no_more ↦ rw no_more (rw (contains-insert_other key other v m apart) refl)
  ]
