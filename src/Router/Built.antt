-- ===== src/Router/Built.antt =====
-- `buildLadder` of web/lib/router.ts: what each tick of the ladder holds.
use ovrflo.Prelude.{◌≡◌, Bool, true, Option, filter, All}
use ovrflo.Prelude.Int.{pos, ◌+ℤ◌, ◌<ℤ◌}
use ovrflo.Prelude.Text.{Text}
use ovrflo.Router.{TickDepth, owned_by}
use ovrflo.Router.Depth.{depth}

module _ (same_address : Text → Text → Bool) where
  -- A tick of the ladder is faithful: its depth is split into one's own and the rest, and its
  -- positions are open ones of the market at that tick.
  abbrev pub IsTick : Text → Option Text → TickDepth → Type 0
  IsTick market self t =
      (t.total +ℤ t.own ≡ depth t.positions)
      × (t.own ≡ depth (filter (owned_by same_address self) t.positions))
      × All
          (λ p.
            (p.apr_bps ≡ t.apr_bps)
            × (same_address p.market market ≡ true)
            × (pos 0 <ℤ p.available_liquidity))
          t.positions
