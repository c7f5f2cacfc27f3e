-- ===== src/CostEngine/Refines.antt =====
-- The token branch of plugin/costengine.cpp against the cost of the counts and of the fees.
use Prim.Native.String.{◌++◌ as join}
use text.Mathlib.TextEquality.{eq_iff}
use text.Mathlib.TextLemmas.{append-eq-nil_iff}
use plasma_ai_usage_monitor.Prelude.{
  ◌≡◌, refl, sym, ◌∙◌, ap, subst, Bool, true, false, not, Option, none, some, List, String, str_eq,
  arith, if◌then◌else◌,
}
use plasma_ai_usage_monitor.Prelude.Int.{ℤ, pos, ◌+ℤ◌}
use plasma_ai_usage_monitor.CostEngine.Values.{
  Value, Values, no_values, value_then, Fields, Platform, IsPlatform, integer, value, value_or,
  contains, to_map, to_list,
}
use plasma_ai_usage_monitor.CostEngine.Decimal.Digits.{is_nil}
use plasma_ai_usage_monitor.CostEngine.Pricing.{
  Draft, Component, or_zero, priced, lacks, select, string_of, rate_value, quantity_value,
}
use plasma_ai_usage_monitor.CostEngine.Tokens.{tokens_of, service_tier}
use plasma_ai_usage_monitor.CostEngine.Charges.{
  rates_of, rate_checks, token_charges, batch_step, billable_of, consumed_of, fee_amount,
  fee_charge, fee_step, fee_steps, rated_draft, token_price,
}
use plasma_ai_usage_monitor.CostEngine.Estimate.{subtotal_from}
use plasma_ai_usage_monitor.CostEngine.Steps.{
  rated_draft-Kept, count_checks-Kept, rate_checks-Kept, batch_step-Kept,
}
use plasma_ai_usage_monitor.CostEngine.Missing.{fee_steps-keeps}
use plasma_ai_usage_monitor.CostEngine.Accepted.{
  Clear, Listed, add_missing-Listed, clear_of, lacks-Clear, token_price-IsAccepted,
}
use plasma_ai_usage_monitor.CostEngine.Amounts.{
  token_cost, AllRead, charge-adds, token_charges-adds, +ℤ_assoc, +ℤ-zero,
}

-- A dimension that begins with a word is not empty.
join-full : (word rest : String) → str_eq word "" ≡ false → str_eq (join word rest) "" ≡ false
join-full word rest h =
    ground
      (arith, eq_iff word "", eq_iff (join word rest) "", append-eq-nil_iff {p = word} {q = rest})

module _ {D : Type 0} (p : Platform D) (consumed : Fields D) where
  abbrev cost_of : String → Option ℤ → Option ℤ → Option ℤ → ℤ
  cost_of kind rate requested free =
      priced (billable_of (or_zero requested) (or_zero free) (consumed_of p consumed kind))
        (or_zero rate)

module _ {D : Type 0} (p : Platform D) (used consumed : Fields D) where
  -- What a fee costs: nothing, unless its kind is used.
  unfoldable pub fee_cost : Fields D → ℤ
  fee_cost fee =
      let kind = string_of p (value fee "kind") in
      if not (contains used kind)
      then pos 0
      else cost_of p consumed kind (rate_value p (value fee "amount"))
          (quantity_value p (value used kind))
          (quantity_value p (value_or fee "freeAllowance" (integer (pos 0))))

  unfoldable pub fees_cost : Values D → ℤ
  fees_cost no_values = pos 0
  fees_cost (value_then v vs) = fee_cost (to_map v) +ℤ fees_cost vs

module _ {D : Type 0} (p : Platform D) (laws : IsPlatform p) (used consumed : Fields D) where
  abbrev sum_of : Draft D → ℤ
  sum_of s = subtotal_from p (pos 0) s.components

  -- After a step that leaves nothing missing, the rows have grown by what it costs.
  abbrev Adds : Draft D → Draft D → ℤ → Type 0
  Adds s after cost =
      Clear after
      → AllRead p after.components
      → AllRead p s.components × (sum_of after ≡ sum_of s +ℤ cost)

  lacks-Adds :
      (word kind : String) (s : Draft D) (cost : ℤ)
      → str_eq word "" ≡ false
      → Adds s (lacks true (join word kind) s) cost
  lacks-Adds word kind s cost h clear read =
      let bad = lacks-Clear true (join word kind) s (join-full word kind h) clear in ground arith

  fee_charge-Adds :
      (kind : String) (rate : Value D) (r q f : Option ℤ) (s : Draft D)
      → Adds s (fee_charge p consumed kind rate r q f s) (cost_of p consumed kind r q f)
  unfolding fee_charge fee_amount lacks
  fee_charge-Adds kind rate none q f s = lacks-Adds "additiveFee:" kind s _ refl
  fee_charge-Adds kind rate (some r) none f s = lacks-Adds "additiveFee:" kind s _ refl
  fee_charge-Adds kind rate (some r) (some q) none s = lacks-Adds "freeAllowance:" kind s _ refl
  fee_charge-Adds kind rate (some r) (some q) (some f) s =
      λ clear read. charge-adds p laws true (join "fee:" kind) _ _ rate kind _ read

  Adds-nothing : (s : Draft D) → Adds s s (pos 0)
  Adds-nothing s clear read = (read, sym (+ℤ-zero (sum_of s)))

  Adds-if :
      (b : Bool) (s t u : Draft D) (c d : ℤ)
      → Adds s t c
      → Adds s u d
      → Adds s (if b then t else u) (if b then c else d)
  Adds-if true s t u c d f g = f
  Adds-if false s t u c d f g = g

  fee_step-Adds :
      (fee : Fields D) (s : Draft D)
      → Adds s (fee_step p used consumed fee s) (fee_cost p used consumed fee)
  unfolding fee_step fee_cost
  fee_step-Adds fee s =
      Adds-if (not (contains used (string_of p (value fee "kind")))) s _ _ _ _ (Adds-nothing s)
        (fee_charge-Adds _ _ _ _ _ s)

  fee_steps-Adds :
      (fees : Values D) (s : Draft D)
      → Adds s (fee_steps p used consumed fees s) (fees_cost p used consumed fees)
  unfolding fee_steps fees_cost
  fee_steps-Adds no_values s = Adds-nothing s
  fee_steps-Adds (value_then v vs) s = λ clear read.
      let after = fee_step p used consumed (to_map v) s in
      let clear_after =
        clear_of after.missing (fee_steps p used consumed vs after).missing
          (fee_steps-keeps Listed add_missing-Listed p used consumed vs after) clear in
      let (read_after, rest) = fee_steps-Adds vs after clear read in
      let (read_before, first) = fee_step-Adds (to_map v) s clear_after read_after in
      (
        read_before,
        rest
            ∙ ap (λ x. x +ℤ fees_cost p used consumed vs) first
            ∙ +ℤ_assoc (sum_of s) (fee_cost p used consumed (to_map v))
                (fees_cost p used consumed vs),
      )

-- The formula: the counts at their rates, and the fees.
module _ {D : Type 0} (p : Platform D) (price usage : Fields D) where
  unfoldable pub usage_cost : Draft D → ℤ
  usage_cost s =
      token_cost (tokens_of p usage) (rates_of p (rated_draft p price usage s).rates)
      +ℤ fees_cost p (to_map (value usage "additiveUsage"))
          (to_map (value usage "allowanceConsumed")) (to_list (value price "additiveFees"))

  abbrev SameRows : Draft D → Draft D → Type 0
  SameRows s t = t.components ≡ s.components

  lacks-SameRows :
      (s : Draft D) (bad : Bool) (d : String) (t : Draft D)
      → SameRows s t
      → SameRows s (lacks bad d t)
  unfolding lacks
  lacks-SameRows s bad d t h = h

  select-SameRows :
      (s : Draft D) (d : String) (v : Value D) (t : Draft D)
      → SameRows s t
      → SameRows s (select d v t)
  unfolding select
  select-SameRows s d v t h = h

  rated_draft-SameRows : (s : Draft D) → SameRows s (rated_draft p price usage s)
  rated_draft-SameRows s =
      rated_draft-Kept p (SameRows s) (lacks-SameRows s) (select-SameRows s) (λ t m k. k) price
        usage s
        (count_checks-Kept p (SameRows s) (lacks-SameRows s) (select-SameRows s) (λ t m k. k) price
          usage s refl)

  -- Where the branch leaves nothing missing and every row is read back, the rows add up to the formula.
  pub token_price_refines :
      (laws : IsPlatform p) (s : Draft D)
      → is_nil (token_price p price usage s).missing ≡ true
      → AllRead p (token_price p price usage s).components
      → subtotal_from p (pos 0) (token_price p price usage s).components
        ≡ subtotal_from p (pos 0) s.components +ℤ usage_cost s
  unfolding usage_cost token_price
  token_price_refines laws s clear read =
      let rated = rated_draft p price usage s in
      let t = tokens_of p usage in
      let r = rates_of p rated.rates in
      let checked = rate_checks p t r rated in
      let charged = token_charges p t r rated.rates checked in
      let sum : List (Component D) → ℤ = subtotal_from p (pos 0) in
      let used = to_map (value usage "additiveUsage") in
      let consumed = to_map (value usage "allowanceConsumed") in
      let fees = to_list (value price "additiveFees") in
      let same : checked.components ≡ s.components =
        rate_checks-Kept p (SameRows s) (lacks-SameRows s) (select-SameRows s) (λ t m k. k) t r
          rated (rated_draft-SameRows s) in
      let batched = batch_step p price (service_tier p usage) charged in
      let kept : batched.components ≡ charged.components =
        batch_step-Kept p (SameRows charged) (lacks-SameRows charged) (select-SameRows charged)
          (λ t m k. k) price (service_tier p usage) charged refl in
      let (read_batched, with_fees) = fee_steps-Adds p laws used consumed fees batched clear read in
      let (read_checked, with_counts) =
        token_charges-adds p laws t r rated.rates checked
          (token_price-IsAccepted p price usage s clear) (subst (AllRead p) kept read_batched) in
      let f = fees_cost p used consumed fees in
      with_fees
      ∙ ap (λ x. x +ℤ f) (ap sum kept ∙ with_counts ∙ ap (λ x. sum x +ℤ token_cost t r) same)
      ∙ +ℤ_assoc (sum s.components) (token_cost t r) f
