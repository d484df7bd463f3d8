-- ===== src/Quote.antt =====
-- web/components/borrow/quote.ts: the quote of a borrow, from a preview that the lending contract
-- simulates. The block and the simulation are whatever the node answers.
pub mod Presented
use ovrflo.Prelude.{
  ℕ, ◌==◌, Bool, true, false, not, ◌&&◌, ◌||◌, Option, none, some, List, find, if◌then◌else◌,
}
use ovrflo.Prelude.Int.{ℤ, pos, ◌-ℤ◌, ◌*ℤ◌, ◌/ℤ◌, ltb_ℤ, leb_ℤ, eqb_ℤ}
use ovrflo.Prelude.Text.{Text}
use ovrflo.Prelude.Errors.{Result}
use ovrflo.Ladder.{LadderModel, ShapedRung, pool_available_wei}
use ovrflo.Payoff.{StreamSchedule, CoverDate, cover_date, repay_preview}
use ovrflo.Runtime.{Failure}
use ovrflo.Watch.{apply_slippage_down, default_slippage_bps}

pub record QuoteBlock : Type 0 where
  pub number : ℤ
  pub hash : Text

pub record PreviewBorrowOutcome : Type 0 where
  pub empty_tick : Bool
  pub actual_borrow : ℤ
  pub fee_amount : ℤ
  pub obligation : ℤ
  pub block : QuoteBlock

pub record BorrowQuoteSnapshot : Type 0 where
  pub block : QuoteBlock
  pub actual_borrow : ℤ
  pub fee_amount : ℤ
  pub net : ℤ
  pub obligation : ℤ
  pub stream_remaining : ℤ
  pub residual : ℤ
  pub apr_bps : ℕ
  pub target : ℤ
  pub min_acceptable : ℤ

pub record BorrowQuote : Type 0 where
  pub snapshot : BorrowQuoteSnapshot
  pub cap : ℤ
  pub depth : ℤ
  pub fill : ℤ
  pub is_partial : Bool
  pub empty_tick : Bool
  pub below_fill_floor : Bool
  pub sale_equivalent : Bool

-- What the simulation answers: the three amounts, or a revert, by whether its error's name is
-- EmptyTick.
pub data SimulatedPreview : Type 0 where
  simulated : ℤ → ℤ → ℤ → SimulatedPreview
  reverted_preview : Bool → Failure → SimulatedPreview

pub data PreviewRead : Type 0 where
  preview_read : PreviewBorrowOutcome → PreviewRead
  block_without_hash : PreviewRead
  preview_threw : Failure → PreviewRead

-- `readPreviewBorrow` after the block's hash was checked.
abbrev pub read_at : QuoteBlock → SimulatedPreview → PreviewRead
read_at block (simulated actual_borrow fee_amount obligation) = preview_read (record {
  empty_tick = false;
  actual_borrow = actual_borrow;
  fee_amount = fee_amount;
  obligation = obligation;
  block = block;
})
read_at block (reverted_preview true e) = preview_read (record {
  empty_tick = true;
  actual_borrow = pos 0;
  fee_amount = pos 0;
  obligation = pos 0;
  block = block;
})
read_at block (reverted_preview false e) = preview_threw e

unfoldable pub read_preview_borrow : ℤ → Option Text → SimulatedPreview → PreviewRead
read_preview_borrow number none answer = block_without_hash
read_preview_borrow number (some hash) answer =
    read_at (record { number = number; hash = hash }) answer

-- `a > b ? a - b : 0n`
abbrev pub left_over : ℤ → ℤ → ℤ
left_over a b = if ltb_ℤ b a then a -ℤ b else pos 0

-- The parameters of `presentQuote` besides the preview.
pub record QuoteInput : Type 0 where
  pub target : ℤ
  pub cap : ℤ
  pub depth : ℤ
  pub apr_bps : ℕ
  pub stream_remaining : ℤ
  pub min_liquidity : ℤ

unfoldable pub present_quote : PreviewBorrowOutcome → QuoteInput → BorrowQuote
present_quote preview input =
    let actual_borrow = preview.actual_borrow in
    let net = left_over actual_borrow preview.fee_amount in
    record {
      snapshot = record {
        block = preview.block;
        actual_borrow = actual_borrow;
        fee_amount = preview.fee_amount;
        net = net;
        obligation = preview.obligation;
        stream_remaining = input.stream_remaining;
        residual = left_over input.stream_remaining preview.obligation;
        apr_bps = input.apr_bps;
        target = input.target;
        min_acceptable =
            if ltb_ℤ (pos 0) net then apply_slippage_down net default_slippage_bps else pos 0;
      };
      cap = input.cap;
      depth = input.depth;
      fill = actual_borrow;
      is_partial =
          not preview.empty_tick && ltb_ℤ actual_borrow input.target && ltb_ℤ (pos 0) actual_borrow;
      empty_tick = preview.empty_tick;
      below_fill_floor = ltb_ℤ (pos 0) actual_borrow && ltb_ℤ actual_borrow input.min_liquidity;
      sale_equivalent =
          ltb_ℤ (pos 0) actual_borrow && eqb_ℤ preview.obligation input.stream_remaining;
    }

unfoldable pub snapshot_quote : BorrowQuote → BorrowQuoteSnapshot
snapshot_quote quote = quote.snapshot

-- Never the block's number.
unfoldable pub quote_drift : BorrowQuoteSnapshot → BorrowQuoteSnapshot → Bool
quote_drift frozen live =
    not (eqb_ℤ frozen.actual_borrow live.actual_borrow)
    || not (eqb_ℤ frozen.fee_amount live.fee_amount)
    || not (eqb_ℤ frozen.obligation live.obligation)

abbrev pub depth_at : Option LadderModel → Option ℕ → ℤ → ℤ
depth_at none apr_bps min_liquidity = pos 0
depth_at (some model) none min_liquidity = pos 0
depth_at (some model) (some apr_bps) min_liquidity =
    pool_available_wei (find (λ (r : ShapedRung). r.apr_bps == apr_bps) model.rungs) min_liquidity

unfoldable pub tick_depth_wei : Option LadderModel → Option ℕ → ℤ → ℤ
tick_depth_wei model apr_bps min_liquidity = depth_at model apr_bps min_liquidity

unfoldable pub live_rungs : LadderModel → List ShapedRung
live_rungs model = model.pickables

unfoldable pub ttm_seconds : ℤ → ℤ → ℤ
ttm_seconds end now = if leb_ℤ end now then pos 0 else end -ℤ now

unfoldable pub loan_cover : StreamSchedule → ℤ → ℤ → Result CoverDate
loan_cover schedule obligation now = cover_date schedule obligation now

unfoldable pub full_repay_cover_preview : StreamSchedule → ℤ → ℤ → Result (CoverDate × CoverDate)
full_repay_cover_preview schedule obligation now = repay_preview schedule obligation obligation now

-- The share of the pool that is drawn, in ten-thousandths, and whether more is drawn than there is.
unfoldable pub pool_fractions : ℤ → ℤ → ℤ × Bool
pool_fractions draw depth =
    if leb_ℤ depth (pos 0)
    then (pos 0, ltb_ℤ (pos 0) draw)
    else if leb_ℤ draw (pos 0)
    then (pos 0, false)
    else (
      (let ratio_bps = draw *ℤ pos 10000 /ℤ depth in
          if ltb_ℤ (pos 1000000) ratio_bps then pos 1000000 else ratio_bps),
      ltb_ℤ depth draw,
    )
