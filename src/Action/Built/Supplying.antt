-- ===== src/Action/Built/Supplying.antt =====
-- When the actions on a position are built, and what they call: web/lib/actions/supply.ts and
-- `adjustRateDefinition` of web/lib/actions/positions.ts.
use Prim.Native.String.{String}
use ovrflo.Prelude.{◌≡◌, refl, Bool, true, Option, some, [], ◌∷◌, arith}
use ovrflo.Prelude.Int.{ℤ, pos, ◌<ℤ◌, ◌≤ℤ◌}
use ovrflo.Prelude.Text.{Text}
use ovrflo.Router.{LiquidityPosition}
use ovrflo.Action.{ReadyAction, supply, single, erc20_authorization, ready_action}
use ovrflo.Action.Amount.{parsed, parse_positive_amount}
use ovrflo.Action.Repay.{Snapshot, fresh_data, lending_call}
use ovrflo.Action.Loans.{IfBuilt}
use ovrflo.Action.Supply.{SupplyIntent, SupplyState, supply_args, supply_action, build_supply}
use ovrflo.Action.Supply.{
  WithdrawState, ClaimShareState, build_withdraw, withdraw_action, build_claim_share,
  claim_share_action,
}
use ovrflo.Action.Rate.{
  AdjustRateIntent, AdjustRateState, adjust_rate_call, adjust_rate_action, build_adjust_rate,
}
use ovrflo.Units.{max_uint128}
use ovrflo.Action.{ActionIdentity, withdraw, claim_share, adjust_rate}
use ovrflo.Action.Value.{Values, no_values, value, big}
use ovrflo.Prelude.{◌≢◌}
use ovrflo.Prelude.Int.{eq_of_parts}
use ovrflo.Action.Built.{
  IsReviewed, CanPost, IsActive, apr_refused-CanPost, active_position-IsActive, not-false,
  after_amount, after, unless,
}

-- What a supply rests on, and what it is.
abbrev pub SupplyBuilt : (Text → ℤ) → SupplyIntent → Snapshot SupplyState → ReadyAction → Type 0
SupplyBuilt parse_units intent snapshot a =
    (amount : ℤ) × (parse_positive_amount parse_units intent.amount ≡ parsed amount)
    × ((lending : Text) × (snapshot.market.lending ≡ some lending)
        × ((state : SupplyState) × (fresh_data snapshot.state ≡ some state)
            × (snapshot.market.now <ℤ snapshot.market.expiry)
            × CanPost state.apr_min_bps state.apr_max_bps intent.apr_bps
            × (amount ≤ℤ state.wallet_balance)
            × IsReviewed supply snapshot.identity a
            × (a.call
                ≡ single (
                    lending_call lending "supply"
                      (supply_args snapshot.market.market intent.apr_bps amount)))
            × (a.authorizations
                ≡ erc20_authorization snapshot.market.underlying lending amount amount
                    state.allowance
                  ∷ [])))

pub build_supply_lem :
    (parse_units : Text → ℤ) (intent : SupplyIntent) (snapshot : Snapshot SupplyState)
    → IfBuilt (build_supply parse_units intent snapshot) (SupplyBuilt parse_units intent snapshot)
unfolding build_supply supply_action ready_action
build_supply_lem parse_units intent snapshot =
    let P : ReadyAction → Type 0 = SupplyBuilt parse_units intent snapshot in
    after_amount P _ _ (λ amount p. after P _ _ _ _ (λ lending l. after P _ _ _ _ (λ state s.
      unless P _ _ _ _ (λ live. unless P _ _ _ _ (λ post. unless P _ _ _ _ (λ funded. (
        amount,
        p,
        (
          lending,
          l,
          (
            state,
            s,
            ground arith,
            apr_refused-CanPost _ _ _ post,
            ground arith,
            (refl, refl, refl, refl, refl, refl),
            refl,
            refl,
          ),
        ),
      )))))))

-- What a claim of a pool's share rests on, and what it is.
abbrev pub ClaimShareBuilt : ℤ → Snapshot ClaimShareState → ReadyAction → Type 0
ClaimShareBuilt loan_id snapshot a =
    (lending : Text) × (snapshot.market.lending ≡ some lending)
    × ((state : ClaimShareState) × (fresh_data snapshot.state ≡ some state)
        × (state.loan_id ≡ loan_id)
        × (pos 0 <ℤ state.claimable)
        × IsReviewed claim_share snapshot.identity a
        × (a.call
            ≡ single (
                lending_call lending "claim"
                  (value (big loan_id) (value (big (pos 0)) (value (big max_uint128) no_values)))))
        × (a.authorizations ≡ []))

pub build_claim_share_lem :
    (loan_id : ℤ) (snapshot : Snapshot ClaimShareState)
    → IfBuilt (build_claim_share loan_id snapshot) (ClaimShareBuilt loan_id snapshot)
unfolding build_claim_share claim_share_action ready_action
build_claim_share_lem loan_id snapshot =
    let P : ReadyAction → Type 0 = ClaimShareBuilt loan_id snapshot in
    after P _ _ _ _ (λ lending l. after P _ _ _ _ (λ state s. unless P _ _ _ _ (λ due. (
      lending,
      l,
      (
        state,
        s,
        ground (arith, eq_of_parts state.loan_id loan_id),
        ground arith,
        (refl, refl, refl, refl, refl, refl),
        refl,
        refl,
      ),
    ))))

module _ (same_address : Text → Text → Bool) where
  -- The position of the identifier is active, and is the account's own.
  abbrev pub OwnsActive : ActionIdentity → ℤ → Option LiquidityPosition → LiquidityPosition → Type 0
  OwnsActive identity id found p =
      IsActive id found p × (same_address p.lender identity.account ≡ true)

  -- What a withdrawal rests on, and what it is.
  abbrev pub WithdrawBuilt : ℤ → Snapshot WithdrawState → ReadyAction → Type 0
  WithdrawBuilt position_id snapshot a =
      (lending : Text) × (snapshot.market.lending ≡ some lending)
      × ((state : WithdrawState) × (fresh_data snapshot.state ≡ some state)
          × ((position : LiquidityPosition) × OwnsActive snapshot.identity position_id
                state.position position)
          × IsReviewed withdraw snapshot.identity a
          × (a.call ≡ single (lending_call lending "withdraw" (value (big position_id) no_values)))
          × (a.authorizations ≡ []))

  pub build_withdraw_lem :
      (position_id : ℤ) (snapshot : Snapshot WithdrawState)
      → IfBuilt
          (build_withdraw same_address position_id snapshot)
          (WithdrawBuilt position_id snapshot)
  unfolding build_withdraw withdraw_action ready_action
  build_withdraw_lem position_id snapshot =
      let P : ReadyAction → Type 0 = WithdrawBuilt position_id snapshot in
      after P _ _ _ _ (λ lending l. after P _ _ _ _ (λ state s. after P _ _ _ _ (λ position found.
        unless P _ _ _ _ (λ own. (
          lending,
          l,
          (
            state,
            s,
            (
              position,
              (active_position-IsActive position_id state.position position found, not-false _ own),
            ),
            (refl, refl, refl, refl, refl, refl),
            refl,
            refl,
          ),
        )))))

  -- What an adjustment of a rate rests on, and what it is: the position is withdrawn and all that it
  -- held is supplied again.
  abbrev pub AdjustRateBuilt :
      (String → Values → Text) → AdjustRateIntent → Snapshot AdjustRateState → ReadyAction → Type 0
  AdjustRateBuilt encode intent snapshot a =
      (lending : Text) × (snapshot.market.lending ≡ some lending)
      × ((state : AdjustRateState) × (fresh_data snapshot.state ≡ some state)
          × (snapshot.market.now <ℤ snapshot.market.expiry)
          × CanPost state.apr_min_bps state.apr_max_bps intent.new_apr_bps
          × ((position : LiquidityPosition) × OwnsActive snapshot.identity intent.position_id
                state.position position
              × (intent.new_apr_bps ≢ position.apr_bps)
              × IsReviewed adjust_rate snapshot.identity a
              × (a.call
                  ≡ adjust_rate_call encode lending snapshot.market.market intent
                      position.available_liquidity)
              × (a.authorizations
                  ≡ erc20_authorization snapshot.market.underlying lending
                      position.available_liquidity position.available_liquidity state.allowance
                    ∷ [])))

  pub build_adjust_rate_lem :
      (encode : String → Values → Text) (intent : AdjustRateIntent)
      (snapshot : Snapshot AdjustRateState)
      → IfBuilt
          (build_adjust_rate encode same_address intent snapshot)
          (AdjustRateBuilt encode intent snapshot)
  unfolding build_adjust_rate adjust_rate_action ready_action
  build_adjust_rate_lem encode intent snapshot =
      let P : ReadyAction → Type 0 = AdjustRateBuilt encode intent snapshot in
      after P _ _ _ _ (λ lending l. after P _ _ _ _ (λ state s. unless P _ _ _ _ (λ live.
        after P _ _ _ _ (λ position found. unless P _ _ _ _ (λ own. unless P _ _ _ _ (λ post.
          unless P _ _ _ _ (λ other. (
            lending,
            l,
            (
              state,
              s,
              ground arith,
              apr_refused-CanPost _ _ _ post,
              (
                position,
                (
                  active_position-IsActive intent.position_id state.position position found,
                  not-false _ own,
                ),
                ground arith,
                (refl, refl, refl, refl, refl, refl),
                refl,
                refl,
              ),
            ),
          ))))))))
