-- ===== src/Watch/Slippage.antt =====
-- The slippage of web/lib/modal-logic.ts.
use ovrflo.Prelude.{◌*◌, arith}
use ovrflo.Prelude.Int.{ℤ, pos, negsuc, ◌≤ℤ◌, ◌<ℤ◌, pos-*ℤ, pos-/ℤ, pos--ℤ}
use ovrflo.Watch.{apply_slippage_down, default_slippage_bps}

-- The default slippage leaves something of two wei or more, and never more than there is.
pub apply_slippage_down_bounds :
    (amount : ℤ)
    → pos 2 ≤ℤ amount
    → (pos 0 <ℤ apply_slippage_down amount default_slippage_bps)
      × (apply_slippage_down amount default_slippage_bps ≤ℤ amount)
unfolding apply_slippage_down
apply_slippage_down_bounds (pos n) h =
    rw (pos--ℤ 10000 50 (omega arith), pos-*ℤ n 9950, pos-/ℤ (n * 9950) 10000)
      (omega arith, omega arith)
apply_slippage_down_bounds (negsuc n) h = absurd (omega arith)
