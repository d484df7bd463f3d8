-- ===== src/Action/Convert.antt =====
-- web/lib/actions/convert.ts: depositing PT, wrapping the underlying and unwrapping it.
use Prim.Native.String.{String}
use ovrflo.Prelude.{Bool, not, true, ◌||◌, Option, none, some, List, [], ◌∷◌, if◌then◌else◌}
use ovrflo.Prelude.Int.{ℤ, pos, ltb_ℤ, leb_ℤ, eqb_ℤ}
use ovrflo.Prelude.Text.{Text}
use ovrflo.Convert.{
  deposit as deposit_mode, DepositCapStatus, buffered_fee_approve_amount, deposit_cap_status,
}
use ovrflo.Action.{
  snapshot_not_ready, market_matured, wallet_insufficient, amount_over_capacity, quote_invalid,
  CallData, kind_ovrflo, Authorization, Figure, text_figure, single, deposit, wrap, unwrap,
  at_market, at_stream, at_token_balance, at_allowance, big_figure, ActionBuildResult,
  invalid_action, erc20_authorization, ready_action,
}
use ovrflo.Action.Value.{Values, no_values, value, big, address}
use ovrflo.Action.Amount.{parse_positive_amount}
use ovrflo.Action.Steps.{refuse_if, need_amount, need}
use ovrflo.Action.Repay.{Snapshot, MarketActionContext, fresh_data}

pub record DepositPreview : Type 0 where
  pub amount : ℤ
  pub to_wallet : ℤ
  pub to_stream : ℤ
  pub fee : ℤ
  pub min_to_wallet : ℤ

pub record DepositState : Type 0 where
  pub wallet_balance : ℤ
  pub pt_allowance : ℤ
  pub underlying_allowance : ℤ
  pub cap_limit : ℤ
  pub cap_used : ℤ
  pub preview : DepositPreview

pub record WrapState : Type 0 where
  pub wallet_balance : ℤ
  pub allowance : ℤ

pub record UnwrapState : Type 0 where
  pub wallet_balance : ℤ
  pub wrap_reserve : ℤ

abbrev pub vault_call : Text → String → Values → CallData
vault_call vault name args = record {
  target = vault;
  contract = kind_ovrflo;
  function_name = name;
  args = args;
  value = pos 0;
}

-- The condition on a preview that is refused.
unfoldable pub preview_refused : ℤ → DepositPreview → Bool
preview_refused amount p =
    not (eqb_ℤ p.amount amount)
    || ltb_ℤ p.to_wallet (pos 0)
    || ltb_ℤ p.to_stream (pos 0)
    || ltb_ℤ p.fee (pos 0)
    || ltb_ℤ p.min_to_wallet (pos 0)
    || ltb_ℤ p.to_wallet p.min_to_wallet

unfoldable pub deposit_authorizations : MarketActionContext → ℤ → DepositState → List Authorization
deposit_authorizations market amount state =
    let fee = state.preview.fee in
    erc20_authorization market.pt_token market.vault amount amount state.pt_allowance
    ∷ (if ltb_ℤ (pos 0) fee
        then erc20_authorization market.underlying market.vault fee
            (buffered_fee_approve_amount fee) state.underlying_allowance
          ∷ []
        else [])

abbrev pub cap_figure : Option ℤ → Figure
cap_figure none = text_figure (b'u' ∷ b'n' ∷ b'l' ∷ b'i' ∷ b'm' ∷ b'i' ∷ b't' ∷ b'e' ∷ b'd' ∷ [])
cap_figure (some c) = big_figure c

unfoldable pub deposit_action :
    Snapshot DepositState → ℤ → DepositState → Option ℤ → ActionBuildResult
deposit_action snapshot amount state cap_remaining =
    let market = snapshot.market in
    let account = snapshot.identity.account in
    let p = state.preview in
    ready_action deposit snapshot.identity "DEPOSIT PT"
      ("fresh-state" ∷ "market-live" ∷ "amount-valid" ∷ "capacity-valid" ∷ "preview-valid" ∷ [])
      (deposit_authorizations market amount state)
      (single (
        vault_call market.vault "deposit" (
          value (address market.market)
            (value (big amount) (value (big p.min_to_wallet) no_values)))))
      (at_market market.vault market.market
        ∷ at_stream market.sablier none
        ∷ at_token_balance market.pt_token account
        ∷ at_token_balance market.underlying account
        ∷ at_token_balance market.ovrflo_token account
        ∷ at_allowance market.pt_token account market.vault
        ∷ (if ltb_ℤ (pos 0) p.fee
            then at_allowance market.underlying account market.vault ∷ []
            else []))
      none
      (("amount", big_figure amount)
        ∷ ("toWallet", big_figure p.to_wallet)
        ∷ ("toStream", big_figure p.to_stream)
        ∷ ("fee", big_figure p.fee)
        ∷ ("minToWallet", big_figure p.min_to_wallet)
        ∷ ("capRemaining", cap_figure cap_remaining)
        ∷ [])
      (record {
        source = market.vault;
        event_name = some "Deposited";
        label = "DEPOSITED";
        expected_ids = [];
        expected_amounts =
            ("deposited", amount) ∷ ("minimumToWallet", p.min_to_wallet) ∷ ("fee", p.fee) ∷ [];
      })

-- The cap's status for the amount of a deposit.
abbrev pub cap_status : ℤ → DepositState → DepositCapStatus
cap_status amount state = deposit_cap_status deposit_mode amount true state.cap_limit state.cap_used

-- `depositDefinition.build`, of an intent with the amount.
unfoldable pub build_deposit : (Text → ℤ) → Text → Snapshot DepositState → ActionBuildResult
build_deposit parse_units raw snapshot =
    need_amount invalid_action (parse_positive_amount parse_units raw) (λ amount.
      need invalid_action (fresh_data snapshot.state) snapshot_not_ready
        "Deposit state is not fresh and complete"
        (λ state.
          refuse_if invalid_action (leb_ℤ snapshot.market.expiry snapshot.market.now) market_matured
            "Deposits close at maturity"
            (refuse_if invalid_action (ltb_ℤ state.wallet_balance amount) wallet_insufficient
              "Amount exceeds PT wallet balance"
              (refuse_if invalid_action
                ((cap_status amount state).cap_reached || (cap_status amount state).cap_exceeded)
                amount_over_capacity "Amount exceeds the fresh deposit capacity"
                (refuse_if invalid_action (preview_refused amount state.preview) quote_invalid
                  "Deposit preview contains an invalid amount"
                  (deposit_action snapshot amount state
                    (cap_status amount state).cap_remaining))))))

unfoldable pub wrap_action : Snapshot WrapState → ℤ → WrapState → ActionBuildResult
wrap_action snapshot amount state =
    let market = snapshot.market in
    let account = snapshot.identity.account in
    ready_action wrap snapshot.identity "WRAP" ("fresh-state" ∷ "amount-valid" ∷ [])
      (erc20_authorization market.underlying market.vault amount amount state.allowance ∷ [])
      (single (vault_call market.vault "wrap" (value (big amount) no_values)))
      (at_market market.vault market.market
        ∷ at_token_balance market.underlying account
        ∷ at_token_balance market.ovrflo_token account
        ∷ at_allowance market.underlying account market.vault
        ∷ [])
      none (("amount", big_figure amount) ∷ [])
      (record {
        source = market.vault;
        event_name = some "Wrapped";
        label = "WRAPPED";
        expected_ids = [];
        expected_amounts = ("wrapped", amount) ∷ [];
      })

-- `wrapDefinition.build`, of an intent with the amount.
unfoldable pub build_wrap : (Text → ℤ) → Text → Snapshot WrapState → ActionBuildResult
build_wrap parse_units raw snapshot =
    need_amount invalid_action (parse_positive_amount parse_units raw) (λ amount.
      need invalid_action (fresh_data snapshot.state) snapshot_not_ready
        "Wrap state is not fresh and complete"
        (λ state.
          refuse_if invalid_action (ltb_ℤ state.wallet_balance amount) wallet_insufficient
            "Amount exceeds underlying wallet balance" (wrap_action snapshot amount state)))

unfoldable pub unwrap_capacity : UnwrapState → ℤ
unwrap_capacity state =
    if ltb_ℤ state.wallet_balance state.wrap_reserve
    then state.wallet_balance
    else state.wrap_reserve

unfoldable pub unwrap_action : Snapshot UnwrapState → ℤ → ℤ → ActionBuildResult
unwrap_action snapshot amount capacity =
    let market = snapshot.market in
    let account = snapshot.identity.account in
    ready_action unwrap snapshot.identity "UNWRAP"
      ("fresh-state" ∷ "amount-valid" ∷ "reserve-valid" ∷ []) []
      (single (vault_call market.vault "unwrap" (value (big amount) no_values)))
      (at_market market.vault market.market
        ∷ at_token_balance market.underlying account
        ∷ at_token_balance market.ovrflo_token account
        ∷ [])
      none (("amount", big_figure amount) ∷ ("capacity", big_figure capacity) ∷ [])
      (record {
        source = market.vault;
        event_name = some "Unwrapped";
        label = "UNWRAPPED";
        expected_ids = [];
        expected_amounts = ("unwrapped", amount) ∷ [];
      })

-- `unwrapDefinition.build`, of an intent with the amount.
unfoldable pub build_unwrap : (Text → ℤ) → Text → Snapshot UnwrapState → ActionBuildResult
build_unwrap parse_units raw snapshot =
    need_amount invalid_action (parse_positive_amount parse_units raw) (λ amount.
      need invalid_action (fresh_data snapshot.state) snapshot_not_ready
        "Unwrap state is not fresh and complete"
        (λ state.
          refuse_if invalid_action (ltb_ℤ (unwrap_capacity state) amount) amount_over_capacity
            "Amount exceeds fresh unwrap capacity"
            (unwrap_action snapshot amount (unwrap_capacity state))))
