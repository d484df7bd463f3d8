-- ===== src/Watch.antt =====
-- What the client shows of a loan and a position: web/lib/modal-logic.ts, web/lib/positions.ts and
-- web/lib/watch-rows.ts, without the lines of text. A share of a whole that is shown as a fraction is
-- left in the ten-thousandths that the source computes.
pub mod Slippage
pub mod Closable
pub mod Repayable
use ovrflo.Prelude.{
  ℕ, Bool, true, false, not, ◌&&◌, ◌||◌, Option, none, some, List, [], ◌∷◌, ◌++◌, filter,
  if◌then◌else◌,
}
use ovrflo.Prelude.Int.{ℤ, pos, ◌+ℤ◌, ◌-ℤ◌, ◌*ℤ◌, ◌/ℤ◌, ltb_ℤ, leb_ℤ, eqb_ℤ}
use ovrflo.Prelude.Text.{Text, lower, text_eq}
use ovrflo.Prelude.Errors.{Result, ok, ◌>>=◌}
use ovrflo.LendingMath.{LoanTerms, loan_outstanding, is_loan_open, upfront_bps}
use ovrflo.Payoff.{
  StreamSchedule, CoverDate, projected, covered, uncovered, cover_date, interpolate_outstanding,
}
use ovrflo.Router.{LiquidityPosition, TickDepth}
use ovrflo.Borrow.{resolve_selected_tick}
use ovrflo.Action.Claim.{ClaimPair, claimable_from}

-- web/lib/modal-logic.ts
unfoldable pub repay_max : LoanTerms → ℤ → ℤ
repay_max loan wallet_balance =
    let outstanding = loan_outstanding loan in
    if ltb_ℤ wallet_balance outstanding then wallet_balance else outstanding

unfoldable pub can_close_loan : LoanTerms → ℤ → Bool
can_close_loan loan withdrawable =
    if loan.closed then false else leb_ℤ (loan_outstanding loan) withdrawable

abbrev pub default_slippage_bps : ℤ
default_slippage_bps = pos 50

unfoldable pub apply_slippage_down : ℤ → ℤ → ℤ
apply_slippage_down amount slippage_bps = amount *ℤ (pos 10000 -ℤ slippage_bps) /ℤ pos 10000

unfoldable pub apply_slippage_up : ℤ → ℤ → ℤ
apply_slippage_up amount slippage_bps = amount *ℤ (pos 10000 +ℤ slippage_bps) /ℤ pos 10000

-- The fields of a stream that a series is matched by.
pub record SeriesStream : Type 0 where
  pub sender : Text
  pub asset : Text
  pub end_time : ℤ
  pub canceled : Bool
  pub depleted : Bool

pub record SeriesMarket : Type 0 where
  pub vault : Text
  pub ovrflo_token : Text
  pub expiry_cached : ℤ

unfoldable pub is_series_matched_stream : (Text → Text → Bool) → SeriesStream → SeriesMarket → Bool
is_series_matched_stream same_address stream market =
    same_address stream.sender market.vault
    && same_address stream.asset market.ovrflo_token
    && eqb_ℤ stream.end_time market.expiry_cached
    && not stream.canceled
    && not stream.depleted

-- web/lib/positions.ts
pub data LoanCardState : Type 0 where
  repaying residual settled : LoanCardState

unfoldable pub loan_card_state : LoanTerms → LoanCardState
loan_card_state loan =
    if loan.closed
    then settled
    else if ltb_ℤ (pos 0) (loan_outstanding loan)
    then repaying
    else residual

-- A part in hundredths of a whole that is not zero.
abbrev pub hundredths : ℤ → ℤ → ℤ
hundredths part whole = if leb_ℤ whole part then pos 100 else part *ℤ pos 100 /ℤ whole

unfoldable pub obligation_pct : LoanTerms → ℤ
obligation_pct loan =
    if eqb_ℤ loan.obligation (pos 0)
    then pos 100
    else hundredths (loan.drawn +ℤ loan.repaid) loan.obligation

unfoldable pub streamed_pct : ℤ → ℤ → ℤ → ℤ
streamed_pct deposited withdrawn withdrawable =
    if eqb_ℤ deposited (pos 0) then pos 0 else hundredths (withdrawn +ℤ withdrawable) deposited

-- `Boolean(normalizedUser) && position.lender.toLowerCase() === normalizedUser`
abbrev pub is_lender : Option Text → LiquidityPosition → Bool
is_lender none p = false
is_lender (some []) p = false
is_lender (some (c ∷ cs)) p = text_eq (lower p.lender) (c ∷ cs)

unfoldable pub select_liquidity_for_lender :
    List LiquidityPosition → Text → Option Text → List LiquidityPosition
select_liquidity_for_lender liquidity market user =
    filter (λ (p : LiquidityPosition). text_eq (lower p.market) (lower market) && is_lender user p)
      liquidity

abbrev pub teaser_at : Option ℕ → ℤ → ℕ → Result (Option ℤ)
teaser_at none ttm_seconds fee_bps = ok none
teaser_at (some best) ttm_seconds fee_bps = do
  bps ← upfront_bps best ttm_seconds fee_bps
  ok (some bps)

unfoldable pub borrow_teaser_bps : List TickDepth → ℤ → ℕ → Result (Option ℤ)
borrow_teaser_bps ladder ttm_seconds fee_bps =
    teaser_at (resolve_selected_tick ladder none) ttm_seconds fee_bps

-- web/lib/watch-rows.ts
unfoldable pub position_filled : ℤ → ℤ → ℤ
position_filled interval_start interval_end =
    let filled = interval_end -ℤ interval_start in if ltb_ℤ filled (pos 0) then pos 0 else filled

unfoldable pub position_claimable : List ClaimPair → ℤ
position_claimable pairs = claimable_from (pos 0) pairs

pub data MatchState : Type 0 where
  resting partial_match filled_match : MatchState

unfoldable pub supplied_match_state : ℤ → ℤ → MatchState
supplied_match_state filled unfilled =
    if eqb_ℤ filled (pos 0)
    then resting
    else if eqb_ℤ unfilled (pos 0)
    then filled_match
    else partial_match

unfoldable pub fraction_of : ℤ → ℤ → ℤ
fraction_of part whole = if leb_ℤ whole (pos 0) then pos 0 else part *ℤ pos 10000 /ℤ whole

pub data BorrowedState : Type 0 where
  row_repaying row_close_ready row_settled : BorrowedState

abbrev pub closes : LoanTerms → Option ℤ → Bool
closes loan none = false
closes loan (some withdrawable) = can_close_loan loan withdrawable

-- `outstanding` is the one that was read with the row.
unfoldable pub borrowed_row_state : LoanTerms → ℤ → Option ℤ → BorrowedState
borrowed_row_state loan outstanding withdrawable =
    if loan.closed || eqb_ℤ outstanding (pos 0) || not (is_loan_open loan)
    then row_settled
    else if closes loan withdrawable
    then row_close_ready
    else row_repaying

pub data StreamState : Type 0 where
  eligible_stream pledged_stream vesting_stream : StreamState

unfoldable pub stream_row_state : Bool → ℤ → Bool → StreamState
stream_row_state route_eligible remaining pledged =
    if pledged
    then pledged_stream
    else if route_eligible && ltb_ℤ (pos 0) remaining
    then eligible_stream
    else vesting_stream

abbrev pub date_of : CoverDate → Option ℤ
date_of (projected at) = some at
date_of (covered at) = some at
date_of uncovered = none

unfoldable pub loan_cover_at : Option StreamSchedule → ℤ → ℤ → Result (Option ℤ)
loan_cover_at none outstanding now = ok none
loan_cover_at (some schedule) outstanding now = do
  cover ← cover_date schedule outstanding now
  ok (date_of cover)

unfoldable pub displayed_outstanding : Option StreamSchedule → ℤ → ℤ → ℤ → Bool → Result ℤ
displayed_outstanding schedule last_outstanding last_read_at now true = ok last_outstanding
displayed_outstanding none last_outstanding last_read_at now false = ok last_outstanding
displayed_outstanding (some schedule) last_outstanding last_read_at now false =
    interpolate_outstanding schedule last_outstanding last_read_at now

-- A loan with the outstanding that was read with it.
abbrev pub is_over : LoanTerms × ℤ → Bool
is_over (loan, outstanding) = loan.closed || eqb_ℤ outstanding (pos 0)

unfoldable pub sort_borrowed_loans : List (LoanTerms × ℤ) → List (LoanTerms × ℤ)
sort_borrowed_loans loans = filter (λ l. not (is_over l)) loans ++ filter is_over loans
