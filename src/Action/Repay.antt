-- ===== src/Action/Repay.antt =====
-- web/lib/actions/repay.ts, and `closeDefinition` of web/lib/actions/positions.ts: the two actions on
-- a loan, each from its intent and a snapshot of what was read.
use Prim.Native.String.{String}
use ovrflo.Prelude.{Bool, not, Option, none, some, [], ◌∷◌, if◌then◌else◌}
use ovrflo.Prelude.Int.{ℤ, pos, ltb_ℤ, eqb_ℤ}
use ovrflo.Prelude.Text.{Text}
use ovrflo.LendingMath.{LoanTerms, loan_outstanding, is_loan_open}
use ovrflo.ReadOutcome.{ReadOutcome, fresh, stale, loading, ready, partial, unavailable}
use ovrflo.Action.{
  ActionIdentity, ActionErrorCode, market_not_configured, snapshot_not_ready, loan_not_found,
  not_owner, loan_closed, loan_not_closable, amount_over_capacity, wallet_insufficient, CallData,
  single, kind_lending, repay, close, at_loan, at_stream, at_token_balance, at_allowance,
  big_figure, ActionBuildResult, invalid_action, erc20_authorization, ready_action,
}
use ovrflo.Action.Value.{Values, no_values, value, big}
use ovrflo.Action.Amount.{ParsedAmount, parsed, refused, parse_positive_amount}

-- `MarketActionContext` of web/lib/actions/types.ts.
pub record MarketActionContext : Type 0 where
  pub vault : Text
  pub lending : Option Text
  pub market : Text
  pub underlying : Text
  pub ovrflo_token : Text
  pub pt_token : Text
  pub sablier : Text
  pub expiry : ℤ
  pub now : ℤ

-- `Loan` of web/lib/types.ts; the fields that its balance depends on are its terms.
pub record Loan : Type 0 where
  pub id : ℤ
  pub borrower : Text
  pub stream_id : ℤ
  pub terms : LoanTerms

pub record RepayState : Type 0 where
  pub loan : Option Loan
  pub wallet_balance : ℤ
  pub allowance : ℤ

pub record CloseState : Type 0 where
  pub loan : Option Loan
  pub withdrawable : ℤ

pub record Snapshot (S : Type 0) : Type 0 where
  pub identity : ActionIdentity
  pub market : MarketActionContext
  pub state : ReadOutcome S

pub record RepayIntent : Type 0 where
  pub amount : Text
  pub loan_id : ℤ

-- The data of an outcome that is fresh and ready.
abbrev pub fresh_data : {S : Type 0} → ReadOutcome S → Option S
fresh_data (ready fresh d failures m) = some d
fresh_data (ready stale d failures m) = none
fresh_data (loading d failures m) = none
fresh_data (partial f d failures m) = none
fresh_data (unavailable d failures m) = none

abbrev pub refuse : ActionErrorCode → String → ActionBuildResult
refuse code message = invalid_action (record { code = code; message = message } ∷ [])

-- `!loan || loan.id !== intent.loanId`
abbrev pub loan_at : ℤ → Option Loan → Option Loan
loan_at id none = none
loan_at id (some l) = if eqb_ℤ l.id id then some l else none

abbrev pub lending_call : Text → String → Values → CallData
lending_call lending name args = record {
  target = lending;
  contract = kind_lending;
  function_name = name;
  args = args;
  value = pos 0;
}

module _ (same_address : Text → Text → Bool) where
  -- The action that `repayDefinition` builds once every check has passed.
  unfoldable pub repay_action :
      Snapshot RepayState → ℤ → ℤ → Text → RepayState → ℤ → ActionBuildResult
  repay_action snapshot loan_id amount lending state outstanding =
      let token = snapshot.market.ovrflo_token in
      let account = snapshot.identity.account in
      ready_action repay snapshot.identity "REPAY LOAN"
        ("fresh-loan" ∷ "loan-open" ∷ "amount-valid" ∷ "wallet-funded" ∷ [])
        (erc20_authorization token lending amount amount state.allowance ∷ [])
        (single (lending_call lending "repay" (value (big loan_id) (value (big amount) no_values))))
        (at_loan lending loan_id
          ∷ at_token_balance token account
          ∷ at_allowance token account lending
          ∷ [])
        none
        (("loanId", big_figure loan_id)
          ∷ ("amount", big_figure amount)
          ∷ ("outstanding", big_figure outstanding)
          ∷ [])
        (record {
          source = lending;
          event_name = some "Repaid";
          label = "REPAID";
          expected_ids = loan_id ∷ [];
          expected_amounts = ("repaid", amount) ∷ ("outstandingBefore", outstanding) ∷ [];
        })

  -- The checks of the loan, and then of the amount.
  unfoldable pub repay_loan :
      Snapshot RepayState → ℤ → ℤ → Text → RepayState → Option Loan → ActionBuildResult
  repay_loan snapshot loan_id amount lending state none = refuse loan_not_found "Loan was not found"
  repay_loan snapshot loan_id amount lending state (some loan) =
      let outstanding = loan_outstanding loan.terms in
      if not (same_address loan.borrower snapshot.identity.account)
      then refuse not_owner "Connected account is not the borrower"
      else if not (is_loan_open loan.terms)
      then refuse loan_closed "Loan has no outstanding balance"
      else if ltb_ℤ outstanding amount
      then refuse amount_over_capacity "Repay amount exceeds the fresh outstanding balance"
      else if ltb_ℤ state.wallet_balance amount
      then refuse wallet_insufficient "Repay amount exceeds wallet balance"
      else repay_action snapshot loan_id amount lending state outstanding

  unfoldable pub repay_state :
      Snapshot RepayState → ℤ → ℤ → Text → Option RepayState → ActionBuildResult
  repay_state snapshot loan_id amount lending none =
      refuse snapshot_not_ready "Repay state is not fresh and complete"
  repay_state snapshot loan_id amount lending (some state) =
      repay_loan snapshot loan_id amount lending state (loan_at loan_id state.loan)

  unfoldable pub repay_amount :
      Snapshot RepayState → ℤ → ParsedAmount → Option Text → ActionBuildResult
  repay_amount snapshot loan_id (refused e) lending = invalid_action (e ∷ [])
  repay_amount snapshot loan_id (parsed amount) none =
      refuse market_not_configured "Lending is not deployed"
  repay_amount snapshot loan_id (parsed amount) (some lending) =
      repay_state snapshot loan_id amount lending (fresh_data snapshot.state)

  -- `repayDefinition.build`
  unfoldable pub build_repay : (Text → ℤ) → RepayIntent → Snapshot RepayState → ActionBuildResult
  build_repay parse_units intent snapshot =
      repay_amount snapshot intent.loan_id (parse_positive_amount parse_units intent.amount)
        snapshot.market.lending

  unfoldable pub close_action :
      Snapshot CloseState → ℤ → Text → CloseState → Loan → ActionBuildResult
  close_action snapshot loan_id lending state loan =
      let outstanding = loan_outstanding loan.terms in
      ready_action close snapshot.identity "CLOSE LOAN"
        ("fresh-loan" ∷ "loan-open" ∷ "stream-covers-outstanding" ∷ []) []
        (single (lending_call lending "close" (value (big loan_id) no_values)))
        (at_loan lending loan_id ∷ at_stream snapshot.market.sablier (some loan.stream_id) ∷ [])
        none
        (("loanId", big_figure loan_id)
          ∷ ("outstanding", big_figure outstanding)
          ∷ ("withdrawable", big_figure state.withdrawable)
          ∷ [])
        (record {
          source = lending;
          event_name = some "Closed";
          label = "CLOSED";
          expected_ids = loan_id ∷ loan.stream_id ∷ [];
          expected_amounts =
              ("outstanding", outstanding) ∷ ("withdrawable", state.withdrawable) ∷ [];
        })

  unfoldable pub close_loan :
      Snapshot CloseState → ℤ → Text → CloseState → Option Loan → ActionBuildResult
  close_loan snapshot loan_id lending state none = refuse loan_not_found "Loan was not found"
  close_loan snapshot loan_id lending state (some loan) =
      if not (same_address loan.borrower snapshot.identity.account)
      then refuse not_owner "Connected account is not the borrower"
      else if not (is_loan_open loan.terms)
      then refuse loan_closed "Loan has no outstanding balance"
      else if ltb_ℤ state.withdrawable (loan_outstanding loan.terms)
      then refuse loan_not_closable "Fresh stream value cannot cover the outstanding balance"
      else close_action snapshot loan_id lending state loan

  unfoldable pub close_state :
      Snapshot CloseState → ℤ → Text → Option CloseState → ActionBuildResult
  close_state snapshot loan_id lending none =
      refuse snapshot_not_ready "Close state is not fresh and complete"
  close_state snapshot loan_id lending (some state) =
      close_loan snapshot loan_id lending state (loan_at loan_id state.loan)

  unfoldable pub close_at : Snapshot CloseState → ℤ → Option Text → ActionBuildResult
  close_at snapshot loan_id none = refuse market_not_configured "Lending is not deployed"
  close_at snapshot loan_id (some lending) =
      close_state snapshot loan_id lending (fresh_data snapshot.state)

  -- `closeDefinition.build`, of an intent to close the loan.
  unfoldable pub build_close : ℤ → Snapshot CloseState → ActionBuildResult
  build_close loan_id snapshot = close_at snapshot loan_id snapshot.market.lending
