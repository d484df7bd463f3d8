-- ===== src/Action.antt =====
-- web/lib/actions/types.ts: what an action is, what it needs and what it calls. A value of a type
-- that the source leaves open (`unknown`) is a `Value` of Action.Value.
pub mod Value
pub mod Review
pub mod Amount
pub mod Steps
pub mod Supply
pub mod Rate
pub mod Convert
pub mod Claim
pub mod Borrow
pub mod Registry
pub mod Built
pub mod Repay
pub mod Loans
pub mod Closing
use Prim.Native.String.{String}
use ovrflo.Prelude.{ℕ, Bool, Option, List, []}
use ovrflo.Prelude.Int.{ℤ, leb_ℤ}
use ovrflo.Prelude.Text.{Text}
use ovrflo.Action.Value.{Values}

-- `ActionType` of web/lib/types.ts.
pub data ActionType : Type 0 where
  supply withdraw claim_share claim_position deposit claim_matured wrap unwrap : ActionType
  borrow claim_stream adjust_rate repay close : ActionType

pub record ActionIdentity : Type 0 where
  pub account : Text
  pub chain_id : ℕ

pub data ActionErrorCode : Type 0 where
  action_snapshot_mismatch snapshot_not_ready snapshot_block_mismatch : ActionErrorCode
  snapshot_resource_mismatch amount_malformed amount_zero amount_over_capacity : ActionErrorCode
  wallet_insufficient market_not_configured market_matured market_not_matured : ActionErrorCode
  invalid_apr same_rate position_not_found not_owner nothing_claimable : ActionErrorCode
  claim_pairs_empty stream_not_owned stream_ineligible loan_not_found loan_closed : ActionErrorCode
  loan_not_closable routing_incomplete routing_insufficient quote_invalid : ActionErrorCode
  unregistered_target : ActionErrorCode

pub record ActionError : Type 0 where
  pub code : ActionErrorCode
  pub message : String

-- The only strategy of an approval is "optimistic-zero-first".
pub record Erc20Authorization : Type 0 where
  pub token : Text
  pub spender : Text
  pub required_amount : ℤ
  pub approval_amount : ℤ
  pub current_allowance : ℤ
  pub satisfied : Bool

pub record Erc721Authorization : Type 0 where
  pub token : Text
  pub spender : Text
  pub token_id : ℤ
  pub satisfied : Bool

pub data Authorization : Type 0 where
  erc20 : Erc20Authorization → Authorization
  erc721 : Erc721Authorization → Authorization

pub data ContractKind : Type 0 where
  kind_erc20 kind_ovrflo kind_lending kind_sablier : ContractKind

pub record CallData : Type 0 where
  pub target : Text
  pub contract : ContractKind
  pub function_name : String
  pub args : Values
  pub value : ℤ

-- A final call is a single call, or a batch with the calls in it.
mutual
  pub data FinalCall : Type 0 where
    single : CallData → FinalCall
    batch : CallData → FinalCalls → FinalCall

  pub data FinalCalls : Type 0 where
    no_calls : FinalCalls
    next_call : FinalCall → FinalCalls → FinalCalls

pub data TouchedResource : Type 0 where
  at_contract : Text → TouchedResource
  at_market : Text → Text → TouchedResource
  at_market_depth : Text → Text → Option ℕ → TouchedResource
  at_liquidity_position at_loan : Text → ℤ → TouchedResource
  at_stream : Text → Option ℤ → TouchedResource
  at_nft_approval : Text → Text → Text → ℤ → TouchedResource
  at_token_balance : Text → Text → TouchedResource
  at_allowance : Text → Text → Text → TouchedResource

pub record FrozenRoute : Type 0 where
  pub ids : List ℤ
  pub amounts : List ℤ
  pub apr_bps : ℕ

-- A value of the economics of a review.
pub data Figure : Type 0 where
  big_figure : ℤ → Figure
  number_figure : ℕ → Figure
  text_figure : Text → Figure
  flag_figure : Bool → Figure

pub record FrozenReview : Type 0 where
  pub action_type : ActionType
  pub title : String
  pub identity : ActionIdentity
  pub call : FinalCall
  pub authorizations : List Authorization
  pub route : Option FrozenRoute
  pub economics : List (String × Figure)

pub record ReceiptSummaryData : Type 0 where
  pub source : Text
  pub event_name : Option String
  pub label : String
  pub expected_ids : List ℤ
  pub expected_amounts : List (String × ℤ)

pub record ReadyAction : Type 0 where
  pub action_type : ActionType
  pub identity : ActionIdentity
  pub preconditions : List String
  pub authorizations : List Authorization
  pub call : FinalCall
  pub touched_resources : List TouchedResource
  pub review : FrozenReview
  pub receipt_summary : ReceiptSummaryData

pub data ActionBuildResult : Type 0 where
  built : ReadyAction → ActionBuildResult
  invalid_action : List ActionError → ActionBuildResult

unfoldable pub erc20_authorization : Text → Text → ℤ → ℤ → ℤ → Authorization
erc20_authorization token spender amount approval_amount current_allowance = erc20 (record {
  token = token;
  spender = spender;
  required_amount = amount;
  approval_amount = approval_amount;
  current_allowance = current_allowance;
  satisfied = leb_ℤ amount current_allowance;
})

unfoldable pub ready_action :
    ActionType
    → ActionIdentity
    → String
    → List String
    → List Authorization
    → FinalCall
    → List TouchedResource
    → Option FrozenRoute
    → List (String × Figure)
    → ReceiptSummaryData
    → ActionBuildResult
ready_action kind identity title preconditions authorizations call touched route economics summary =
    built (record {
      action_type = kind;
      identity = identity;
      preconditions = preconditions;
      authorizations = authorizations;
      call = call;
      touched_resources = touched;
      review = record {
        action_type = kind;
        title = title;
        identity = identity;
        call = call;
        authorizations = authorizations;
        route = route;
        economics = economics;
      };
      receipt_summary = summary;
    })
