-- ===== src/CostEngine/Missing.antt =====
-- The list of missing dimensions of plugin/costengine.cpp, through every part of `estimate`.
use plasma_ai_usage_monitor.Prelude.{Bool, true, false, List, [], String, if◌then◌else◌}
use plasma_ai_usage_monitor.CostEngine.Values.{Value, Values, Fields, Platform}
use plasma_ai_usage_monitor.CostEngine.Pricing.{
  Draft, Component, add_missing, need, lacks, select, charge, status_checks, time_checks,
}
use plasma_ai_usage_monitor.CostEngine.Tokens.{count_checks, tokens_of}
use plasma_ai_usage_monitor.CostEngine.Charges.{
  rates_of, rate_checks, rated_draft, token_price, fee_steps,
}
use plasma_ai_usage_monitor.CostEngine.Estimate.{draft_of, start_of}
use plasma_ai_usage_monitor.CostEngine.Steps.{
  fee_steps-Kept, rated_draft-Kept, token_price-Kept, branch-Kept,
}

module _ (P : List String → Type 0)
    (keep : (m : List String) (d : String) → P m → P (add_missing m d)) where
  need-keeps : (bad : Bool) (d : String) (m : List String) → P m → P (need bad d m)
  unfolding need
  need-keeps true d m h = keep m d h
  need-keeps false d m h = h

  if-keeps : (b : Bool) (m n : List String) → P m → P n → P (if b then m else n)
  if-keeps true m n hm hn = hm
  if-keeps false m n hm hn = hn

  module _ {D : Type 0} (p : Platform D) where
    pub status_checks-keeps :
        (price : Fields D) (m : List String) → P m → P (status_checks p price m)
    unfolding status_checks
    status_checks-keeps price m h = need-keeps _ _ _ (
        need-keeps _ _ _
          (need-keeps _ _ _ (if-keeps _ _ _ (keep m "currency" h) (need-keeps _ _ m h))))

    pub time_checks-keeps :
        (price usage : Fields D) (m : List String) → P m → P (time_checks p price usage m)
    unfolding time_checks
    time_checks-keeps price usage m h = need-keeps _ _ _ (need-keeps _ _ _ (need-keeps _ _ m h))

    lacks-keeps : (bad : Bool) (d : String) (s : Draft D) → P s.missing → P (lacks bad d s).missing
    unfolding lacks
    lacks-keeps bad d s h = need-keeps bad d s.missing h

    select-keeps : (d : String) (v : Value D) (s : Draft D) → P s.missing → P (select d v s).missing
    unfolding select
    select-keeps d v s h = h

    charge-keeps :
        (due : Bool) (row : Component D) (s : Draft D) → P s.missing → P (charge due row s).missing
    unfolding charge
    charge-keeps due row s h = h

    pub fee_steps-keeps :
        (used consumed : Fields D) (fees : Values D) (s : Draft D)
        → P s.missing
        → P (fee_steps p used consumed fees s).missing
    fee_steps-keeps used consumed fees s h =
        fee_steps-Kept p (λ t. P t.missing) lacks-keeps select-keeps (λ t m k. k) charge-keeps used
          consumed fees s h

    module _ (price usage : Fields D) (s : Draft D) where
      -- The steps that choose the rates, after the checks of the counts.
      pub rated_draft-keeps :
          P (count_checks p usage s).missing → P (rated_draft p price usage s).missing
      rated_draft-keeps h =
          rated_draft-Kept p (λ t. P t.missing) lacks-keeps select-keeps (λ t m k. k) price usage s
            h

      -- The rest of the token branch, after the checks of the rates.
      pub token_price-keeps :
          let rated = rated_draft p price usage s in
          P (rate_checks p (tokens_of p usage) (rates_of p rated.rates) rated).missing
          → P (token_price p price usage s).missing
      token_price-keeps h =
          token_price-Kept p (λ t. P t.missing) lacks-keeps select-keeps (λ t m k. k) charge-keeps
            price usage s h

    -- What the checks of the price and of its time leave is kept to the end.
    pub draft_of-keeps :
        (price usage : Fields D)
        → P (time_checks p price usage (status_checks p price []))
        → P (draft_of p price usage).missing
    unfolding draft_of start_of
    draft_of-keeps price usage h =
        branch-Kept p (λ t. P t.missing) lacks-keeps select-keeps (λ t m k. k) charge-keeps price
          usage (start_of p price usage) h
