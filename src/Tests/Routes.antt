-- ===== src/Tests/Routes.antt =====
-- The theorems about web/lib/router.ts and web/lib/borrow.ts at concrete inputs.
use ovrflo.Prelude.{
  ℕ, ◌≡◌, ◌≢◌, ◌↔◌, ◌⊎◌, Bool, true, false, none, some, [], ◌∷◌, List, filter, find, All, ◌==◌,
}
use ovrflo.Prelude.Int.{pos, ◌≤ℤ◌, ◌<ℤ◌}
use ovrflo.Prelude.Sorting.{Occurs}
use ovrflo.Prelude.Text.{Text, lower, text_eq}
use ovrflo.Router.{LiquidityPosition, TickDepth}
use ovrflo.Borrow.{is_liquid, is_covering, total_of, resolve_selected_tick, plan_selected_borrow}
use ovrflo.Borrow.Plan.{Lowest, resolve_selected_tick_lem, plan_selected_borrow_lem}

abbrev same_address : Text → Text → Bool
same_address a b = text_eq (lower a) (lower b)

abbrev alice : Text
alice = b'a' ∷ []

abbrev bob : Text
bob = b'B' ∷ []

abbrev market : Text
market = b'm' ∷ []

abbrev supplied : ℕ → Text → ℕ → ℕ → LiquidityPosition
supplied id lender apr amount = record {
  id = pos id;
  lender = lender;
  market = market;
  apr_bps = apr;
  available_liquidity = pos amount;
}

abbrev supply : List LiquidityPosition
supply = supplied 3 bob 100 5 ∷ supplied 1 alice 200 9 ∷ supplied 2 bob 100 7 ∷ []

abbrev tick : ℕ → ℕ → TickDepth
tick apr total = record { apr_bps = apr; total = pos total; own = pos 0; positions = [] }

abbrev ticks : List TickDepth
ticks = tick 300 20 ∷ tick 100 5 ∷ tick 200 0 ∷ []

resolve_selected_tick_lem_example :
    ((t : TickDepth) × Occurs t ticks
      × (pos 0 <ℤ t.total)
      × (some 200 ≡ some t.apr_bps)
      × (resolve_selected_tick ticks (some 200) ≡ some 200))
    ⊎ (All (λ t. some 200 ≢ some t.apr_bps) (filter is_liquid ticks)
        × Lowest is_liquid ticks (resolve_selected_tick ticks (some 200)))
resolve_selected_tick_lem_example = resolve_selected_tick_lem ticks (some 200)

plan_selected_borrow_lem_example :
    let depth = total_of (find (λ t. t.apr_bps == 100) ticks) in
    let plan = plan_selected_borrow ticks 100 (pos 10) in
    (plan.fill ≤ℤ depth)
    × (plan.fill ≤ℤ pos 10)
    × ((plan.fill ≡ depth) ⊎ (plan.fill ≡ pos 10))
    × ((plan.is_partial ≡ true) ↔ (depth <ℤ pos 10))
    × (plan.is_partial ≡ true → Lowest (is_covering 100 (pos 10)) ticks plan.alternative_apr_bps)
    × (plan.is_partial ≡ false → plan.alternative_apr_bps ≡ none)
plan_selected_borrow_lem_example = plan_selected_borrow_lem ticks 100 (pos 10)
