-- ===== src/Tests/Watches.antt =====
-- The theorems about what the client shows of a loan and of a quote, at concrete inputs.
use ovrflo.Prelude.{◌≡◌, ◌↔◌, refl, Bool, true, false, some, [], ◌∷◌, arith}
use ovrflo.Prelude.Int.{ℤ, pos, ◌+ℤ◌, ◌-ℤ◌, ◌<ℤ◌, ◌≤ℤ◌}
use ovrflo.Prelude.Text.{Text, lower, text_eq}
use ovrflo.LendingMath.{LoanTerms, loan_outstanding}
use ovrflo.ReadOutcome.{fresh, ready, no_metadata}
use ovrflo.Action.{ActionIdentity, loan_closed}
use ovrflo.Action.Repay.{MarketActionContext, Loan, CloseState, Snapshot, refuse, build_close}
use ovrflo.Action.Closing.{IsBuilt}
use ovrflo.Action.Borrow.{quote_refused}
use ovrflo.Action.Borrow.Reads.{BorrowQuoteState}
use ovrflo.Watch.{residual, row_settled, loan_card_state, can_close_loan, borrowed_row_state}
use ovrflo.Watch.Closable.{HasOwnLoan, build_close-can_close_loan, build_close-residual}
use ovrflo.Quote.{PreviewBorrowOutcome, QuoteInput, present_quote}
use ovrflo.Quote.Presented.{present_quote-quote_refused}

abbrev same_address : Text → Text → Bool
same_address a b = text_eq (lower a) (lower b)

abbrev alice : ActionIdentity
alice = record { account = b'a' ∷ []; chain_id = 1 }

abbrev lending_text : Text
lending_text = b'l' ∷ []

abbrev market : MarketActionContext
market = record {
  vault = b'v' ∷ [];
  lending = some lending_text;
  market = b'm' ∷ [];
  underlying = b'u' ∷ [];
  ovrflo_token = b't' ∷ [];
  pt_token = b'p' ∷ [];
  sablier = b's' ∷ [];
  expiry = pos 900;
  now = pos 100;
}

abbrev terms_after : ℤ → LoanTerms
terms_after repaid = record { obligation = pos 10; drawn = pos 1; repaid = repaid; closed = false }

abbrev loan_after : ℤ → Loan
loan_after repaid = record {
  id = pos 7;
  borrower = b'A' ∷ [];
  stream_id = pos 8;
  terms = terms_after repaid;
}

abbrev state_after : ℤ → CloseState
state_after repaid = record { loan = some (loan_after repaid); withdrawable = pos 6 }

abbrev snapshot_after : ℤ → Snapshot CloseState
snapshot_after repaid = record {
  identity = alice;
  market = market;
  state = ready fresh (state_after repaid) [] no_metadata;
}

own : same_address (loan_after (pos 4)).borrower alice.account ≡ true
unfolding text_eq lower
own = refl

has_loan :
    (repaid : ℤ)
    → HasOwnLoan same_address
        (pos 7)
        (snapshot_after repaid)
        lending_text
        (state_after repaid)
        (loan_after repaid)
has_loan repaid = (refl, refl, refl, refl, own, refl)

owes_five : pos 0 <ℤ loan_outstanding (terms_after (pos 4))
unfolding loan_outstanding ◌+ℤ◌ ◌-ℤ◌
owes_five = omega arith

owes_nothing : loan_outstanding (terms_after (pos 9)) ≡ pos 0
unfolding loan_outstanding ◌+ℤ◌ ◌-ℤ◌
owes_nothing = refl

build_close-can_close_loan_example :
    (can_close_loan (terms_after (pos 4)) (pos 6) ≡ true)
    ↔ IsBuilt (build_close same_address (pos 7) (snapshot_after (pos 4)))
build_close-can_close_loan_example =
    build_close-can_close_loan same_address (pos 7) (snapshot_after (pos 4)) lending_text
      (state_after (pos 4)) (loan_after (pos 4)) (has_loan (pos 4)) owes_five

build_close-residual_example :
    (loan_card_state (terms_after (pos 9)) ≡ residual)
    × (can_close_loan (terms_after (pos 9)) (pos 6) ≡ true)
    × (borrowed_row_state (terms_after (pos 9)) (pos 0) (some (pos 6)) ≡ row_settled)
    × (build_close same_address (pos 7) (snapshot_after (pos 9))
        ≡ refuse loan_closed "Loan has no outstanding balance")
build_close-residual_example =
    build_close-residual same_address (pos 7) (snapshot_after (pos 9)) lending_text
      (state_after (pos 9)) (loan_after (pos 9)) (has_loan (pos 9)) owes_nothing (omega arith)

abbrev preview : PreviewBorrowOutcome
preview = record {
  empty_tick = false;
  actual_borrow = pos 1000;
  fee_amount = pos 10;
  obligation = pos 1100;
  block = record { number = pos 5; hash = b'h' ∷ [] };
}

abbrev input : QuoteInput
input = record {
  target = pos 1200;
  cap = pos 2000;
  depth = pos 1000;
  apr_bps = 800;
  stream_remaining = pos 1500;
  min_liquidity = pos 100;
}

abbrev shown_state : BorrowQuoteState
shown_state =
    let s = (present_quote preview input).snapshot in
    record {
      market = b'm' ∷ [];
      stream_id = pos 8;
      apr_bps = 800;
      amount = pos 1200;
      actual_borrow = s.actual_borrow;
      fee_amount = s.fee_amount;
      obligation = s.obligation;
      residual = s.residual;
      min_acceptable = s.min_acceptable;
    }

some_net : pos 10 +ℤ pos 2 ≤ℤ pos 1000
unfolding ◌+ℤ◌
some_net = omega arith

present_quote-quote_refused_example : quote_refused shown_state ≡ false
present_quote-quote_refused_example =
    present_quote-quote_refused preview input shown_state (omega arith) some_net (omega arith)
      (refl, refl, refl, refl, refl)
