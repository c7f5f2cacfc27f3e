-- ===== src/CostEngine/Results.antt =====
-- What `CostEngine::estimate` returns: when an amount is given, and what is listed as missing.
use text.Mathlib.TextEquality.{eq_iff}
use plasma_ai_usage_monitor.Prelude.{
  ◌≡◌, ◌↔◌, refl, true, false, ◌||◌, none, some, List, [], ◌∷◌, ◌++◌, String, str_eq, arith,
  is_some,
}
use plasma_ai_usage_monitor.Forecast.{has_text}
use plasma_ai_usage_monitor.CostEngine.Values.{Fields, Platform}
use plasma_ai_usage_monitor.CostEngine.Decimal.Digits.{is_nil}
use plasma_ai_usage_monitor.CostEngine.Pricing.{add_missing, status_checks, time_checks}
use plasma_ai_usage_monitor.CostEngine.Missing.{
  status_checks-keeps, time_checks-keeps, draft_of-keeps,
}
use plasma_ai_usage_monitor.CostEngine.Estimate.{
  draft_of, refused, finish, estimate, minor_of, overflows,
}

-- A list of dimensions that `addMissing` made: no empty one, none twice.
abbrev pub IsReport : List String → Type 0
IsReport [] = Unit
IsReport (d ∷ ds) = (str_eq d "" ≡ false) × (has_text ds d ≡ false) × IsReport ds

has_text-append :
    (ms : List String) (d x : String) → has_text (ms ++ (d ∷ [])) x ≡ (has_text ms x || str_eq d x)
unfolding has_text
has_text-append [] d x = ground arith
has_text-append (m ∷ ms) d x = ground (arith, has_text-append ms d x)

append-IsReport :
    (ms : List String) (d : String)
    → str_eq d "" ≡ false
    → has_text ms d ≡ false
    → IsReport ms
    → IsReport (ms ++ (d ∷ []))
unfolding has_text
append-IsReport [] d e h r = (e, refl, tt)
append-IsReport (m ∷ ms) d e h (em, hm, r) =
    ground (arith, append-IsReport ms d, has_text-append ms d m, eq_iff m d, eq_iff d m)

add_missing-IsReport : (ms : List String) (d : String) → IsReport ms → IsReport (add_missing ms d)
unfolding add_missing
add_missing-IsReport ms d r = ground (arith, append-IsReport ms d)

add_missing-has_text :
    (x : String) (ms : List String) (d : String)
    → has_text ms x ≡ true
    → has_text (add_missing ms d) x ≡ true
unfolding add_missing
add_missing-has_text x ms d h = ground (arith, has_text-append ms d x)

module _ {D : Type 0} (p : Platform D) (price usage : Fields D) where
  -- What the price alone, or its time, makes missing.
  abbrev pub price_checks : List String
  price_checks = time_checks p price usage (status_checks p price [])

  -- The missing dimensions are each listed once, and none is empty.
  draft_of-IsReport : IsReport (draft_of p price usage).missing
  draft_of-IsReport = draft_of-keeps IsReport add_missing-IsReport p price usage (
      time_checks-keeps IsReport add_missing-IsReport p price usage (status_checks p price [])
        (status_checks-keeps IsReport add_missing-IsReport p price [] tt))

  -- Whatever the price and the use, the missing dimensions of the result are each listed once, and
  -- none is empty.
  pub estimate-IsReport :
      (version fingerprint : String)
      → IsReport (estimate p price usage version fingerprint).missing_dimensions
  unfolding estimate finish refused has_text
  estimate-IsReport version fingerprint = ground (arith, draft_of-IsReport)

  -- A result is complete exactly where nothing is missing and the amount fits in 64 bits; it is
  -- available exactly then; a complete one has the amount, no missing dimension and no reason; and
  -- one that is not complete has no amount of any form, but a missing dimension and a reason.
  pub estimate_complete :
      (version fingerprint : String)
      → let e = estimate p price usage version fingerprint in
        let s = draft_of p price usage in
        ((e.complete ≡ true) ↔ ((s.missing ≡ []) × (overflows (minor_of p price s) ≡ false)))
        × (e.available ≡ e.complete)
        × ((e.complete ≡ true)
            → (e.amount_minor ≡ some (minor_of p price s))
              × (e.missing_dimensions ≡ [])
              × (e.reason ≡ none))
        × ((e.complete ≡ false)
            → (e.amount ≡ none)
              × (e.amount_minor ≡ none)
              × (e.amount_text ≡ none)
              × (e.unrounded_amount_text ≡ none)
              × (is_nil e.missing_dimensions ≡ false)
              × (is_some e.reason ≡ true))
  unfolding estimate finish refused is_nil
  estimate_complete version fingerprint = ground arith

  -- A dimension that the checks of the price and of its time find missing is listed in the result
  -- whatever the rest of the estimate does, and the result is not available and has no amount.
  pub estimate_refuses :
      (version fingerprint dimension : String)
      → has_text price_checks dimension ≡ true
      → let e = estimate p price usage version fingerprint in
        (has_text e.missing_dimensions dimension ≡ true)
        × (e.available ≡ false)
        × (e.amount_minor ≡ none)
  unfolding estimate finish refused is_nil has_text
  estimate_refuses version fingerprint dimension h =
      let listed =
        draft_of-keeps (λ m. has_text m dimension ≡ true) (add_missing-has_text dimension) p price
          usage h in
      ground arith
