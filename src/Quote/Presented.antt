-- ===== src/Quote/Presented.antt =====
-- web/components/borrow/quote.ts: a quote that is presented is one that the builder of
-- web/lib/actions/borrow.ts accepts.
use ovrflo.Prelude.{◌∙◌, ◌≡◌, refl, true, false, arith, inl, inr, Bool-cases}
use ovrflo.Prelude.Int.{ℤ, pos, ◌+ℤ◌, ◌-ℤ◌, ◌≤ℤ◌, ◌<ℤ◌, ltb_ℤ, int_laws, -ℤ_parts, +ℤ_parts}
use ovrflo.Watch.{apply_slippage_down, default_slippage_bps}
use ovrflo.Watch.Slippage.{apply_slippage_down_bounds}
use ovrflo.Action.Borrow.{quote_refused}
use ovrflo.Action.Borrow.Reads.{BorrowQuoteState}
use ovrflo.Action.Built.Borrowing.{IsQuote}
use ovrflo.Action.Built.Completing.{quote_refused-false}
use ovrflo.Quote.{PreviewBorrowOutcome, QuoteInput, BorrowQuoteSnapshot, present_quote, left_over}

-- The state has the amounts of the quote.
abbrev pub HasAmounts : BorrowQuoteState → BorrowQuoteSnapshot → Type 0
HasAmounts q s =
    (q.actual_borrow ≡ s.actual_borrow)
    × (q.fee_amount ≡ s.fee_amount)
    × (q.obligation ≡ s.obligation)
    × (q.residual ≡ s.residual)
    × (q.min_acceptable ≡ s.min_acceptable)

left_over_nonneg : (a b : ℤ) → pos 0 ≤ℤ left_over a b
left_over_nonneg a b = elim (Bool-cases (ltb_ℤ b a)) [
  | inl e ↦ rw e (ground (arith, -ℤ_parts a b))
  | inr e ↦ rw e (omega arith)
]

present_quote-IsQuote :
    (preview : PreviewBorrowOutcome) (input : QuoteInput) (q : BorrowQuoteState)
    → pos 0 ≤ℤ preview.fee_amount
    → preview.fee_amount +ℤ pos 2 ≤ℤ preview.actual_borrow
    → pos 0 <ℤ preview.obligation
    → HasAmounts q (present_quote preview input).snapshot
    → IsQuote q
unfolding present_quote
present_quote-IsQuote preview input q fee some_net owed (borrowed, paid, debt, rest, least) =
    let net = preview.actual_borrow -ℤ preview.fee_amount in
    let two : pos 2 ≤ℤ net = omega (int_laws, some_net) in
    let (kept, below) = apply_slippage_down_bounds net two in
    let more : ltb_ℤ preview.fee_amount preview.actual_borrow ≡ true =
      ground (arith, some_net, +ℤ_parts preview.fee_amount (pos 2)) in
    let positive : ltb_ℤ (pos 0) net ≡ true = ground arith in
    let minimum : q.min_acceptable ≡ apply_slippage_down net default_slippage_bps =
      least ∙ rw (more, positive) refl in
    rw (borrowed, paid, debt, rest, minimum)
      (
        ground (arith, -ℤ_parts preview.actual_borrow preview.fee_amount),
        ground arith,
        owed,
        left_over_nonneg input.stream_remaining preview.obligation,
        kept,
        below,
      )

-- When a preview has a fee that is not negative, an amount that is at least two above the fee,
-- and a positive obligation, a state with the amounts of the quote that is presented for it,
-- whatever the other inputs are, is not refused by the builder of the borrowing for the amounts
-- of its quote.
pub present_quote-quote_refused :
    (preview : PreviewBorrowOutcome) (input : QuoteInput) (q : BorrowQuoteState)
    → pos 0 ≤ℤ preview.fee_amount
    → preview.fee_amount +ℤ pos 2 ≤ℤ preview.actual_borrow
    → pos 0 <ℤ preview.obligation
    → HasAmounts q (present_quote preview input).snapshot
    → quote_refused q ≡ false
present_quote-quote_refused preview input q fee some_net owed amounts =
    quote_refused-false q (present_quote-IsQuote preview input q fee some_net owed amounts)
