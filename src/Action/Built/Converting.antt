-- ===== src/Action/Built/Converting.antt =====
-- When the conversions of web/lib/actions/convert.ts are built, and what they call and approve.
use ovrflo.Prelude.{◌≡◌, refl, false, some, [], ◌∷◌, arith}
use ovrflo.Prelude.Int.{ℤ, pos, ◌<ℤ◌, ◌≤ℤ◌, ltb_ℤ, eq_of_parts}
use ovrflo.Prelude.Text.{Text}
use ovrflo.Convert.Cap.{WithinCap, deposit_cap_status-WithinCap}
use ovrflo.Action.{ReadyAction, single, deposit, wrap, unwrap, erc20_authorization, ready_action}
use ovrflo.Action.Value.{no_values, value, big, address}
use ovrflo.Action.Amount.{parsed, parse_positive_amount}
use ovrflo.Action.Repay.{Snapshot, fresh_data}
use ovrflo.Action.Loans.{IfBuilt, parsed_positive}
use ovrflo.Action.Convert.{
  DepositPreview, DepositState, WrapState, UnwrapState, vault_call, preview_refused,
  deposit_authorizations, deposit_action, build_deposit, wrap_action, build_wrap, unwrap_capacity,
  unwrap_action, build_unwrap,
}
use ovrflo.Action.Built.{IsReviewed, after_amount, after, unless}

-- The preview is of the amount, and of what can be paid out.
abbrev pub IsPreview : ℤ → DepositPreview → Type 0
IsPreview amount p =
    (p.amount ≡ amount)
    × (pos 0 ≤ℤ p.to_wallet)
    × (pos 0 ≤ℤ p.to_stream)
    × (pos 0 ≤ℤ p.fee)
    × (pos 0 ≤ℤ p.min_to_wallet)
    × (p.min_to_wallet ≤ℤ p.to_wallet)

preview_refused-IsPreview :
    (amount : ℤ) (p : DepositPreview) → preview_refused amount p ≡ false → IsPreview amount p
unfolding preview_refused
preview_refused-IsPreview amount p h = (
  ground (arith, eq_of_parts p.amount amount),
  ground arith,
  ground arith,
  ground arith,
  ground arith,
  ground arith,
)

-- What a deposit rests on, and what it is.
abbrev pub DepositBuilt : (Text → ℤ) → Text → Snapshot DepositState → ReadyAction → Type 0
DepositBuilt parse_units raw snapshot a =
    (amount : ℤ) × (parse_positive_amount parse_units raw ≡ parsed amount)
    × ((state : DepositState) × (fresh_data snapshot.state ≡ some state)
        × (snapshot.market.now <ℤ snapshot.market.expiry)
        × (amount ≤ℤ state.wallet_balance)
        × WithinCap amount state.cap_limit state.cap_used
        × IsPreview amount state.preview
        × IsReviewed deposit snapshot.identity a
        × (a.call
            ≡ single (
                vault_call snapshot.market.vault "deposit" (
                  value (address snapshot.market.market)
                    (value (big amount) (value (big state.preview.min_to_wallet) no_values)))))
        × (a.authorizations ≡ deposit_authorizations snapshot.market amount state))

pub build_deposit_lem :
    (parse_units : Text → ℤ) (raw : Text) (snapshot : Snapshot DepositState)
    → IfBuilt (build_deposit parse_units raw snapshot) (DepositBuilt parse_units raw snapshot)
unfolding build_deposit deposit_action ready_action
build_deposit_lem parse_units raw snapshot =
    let P : ReadyAction → Type 0 = DepositBuilt parse_units raw snapshot in
    after_amount P _ _ (λ amount p. after P _ _ _ _ (λ state s. unless P _ _ _ _ (λ live.
      unless P _ _ _ _ (λ funded. unless P _ _ _ _ (λ room. unless P _ _ _ _ (λ fine.
        let positive = parsed_positive parse_units raw amount p in
        let within =
          (deposit_cap_status-WithinCap amount state.cap_limit state.cap_used positive).0 room in
        (
          amount,
          p,
          (
            state,
            s,
            ground arith,
            ground arith,
            within,
            preview_refused-IsPreview amount state.preview fine,
            (refl, refl, refl, refl, refl, refl),
            refl,
            refl,
          ),
        )))))))

-- What wrapping rests on, and what it is.
abbrev pub WrapBuilt : (Text → ℤ) → Text → Snapshot WrapState → ReadyAction → Type 0
WrapBuilt parse_units raw snapshot a =
    (amount : ℤ) × (parse_positive_amount parse_units raw ≡ parsed amount)
    × ((state : WrapState) × (fresh_data snapshot.state ≡ some state)
        × (amount ≤ℤ state.wallet_balance)
        × IsReviewed wrap snapshot.identity a
        × (a.call ≡ single (vault_call snapshot.market.vault "wrap" (value (big amount) no_values)))
        × (a.authorizations
            ≡ erc20_authorization snapshot.market.underlying snapshot.market.vault amount amount
                state.allowance
              ∷ []))

pub build_wrap_lem :
    (parse_units : Text → ℤ) (raw : Text) (snapshot : Snapshot WrapState)
    → IfBuilt (build_wrap parse_units raw snapshot) (WrapBuilt parse_units raw snapshot)
unfolding build_wrap wrap_action ready_action
build_wrap_lem parse_units raw snapshot =
    let P : ReadyAction → Type 0 = WrapBuilt parse_units raw snapshot in
    after_amount P _ _ (λ amount p. after P _ _ _ _ (λ state s. unless P _ _ _ _ (λ funded.
      (amount, p, (state, s, ground arith, (refl, refl, refl, refl, refl, refl), refl, refl)))))

-- What unwrapping rests on, and what it is.
abbrev pub UnwrapBuilt : (Text → ℤ) → Text → Snapshot UnwrapState → ReadyAction → Type 0
UnwrapBuilt parse_units raw snapshot a =
    (amount : ℤ) × (parse_positive_amount parse_units raw ≡ parsed amount)
    × ((state : UnwrapState) × (fresh_data snapshot.state ≡ some state)
        × (amount ≤ℤ state.wallet_balance)
        × (amount ≤ℤ state.wrap_reserve)
        × IsReviewed unwrap snapshot.identity a
        × (a.call
            ≡ single (vault_call snapshot.market.vault "unwrap" (value (big amount) no_values)))
        × (a.authorizations ≡ []))

unwrap_capacity_bounds :
    (state : UnwrapState) (amount : ℤ)
    → ltb_ℤ (unwrap_capacity state) amount ≡ false
    → (amount ≤ℤ state.wallet_balance) × (amount ≤ℤ state.wrap_reserve)
unfolding unwrap_capacity
unwrap_capacity_bounds state amount h = (ground arith, ground arith)

pub build_unwrap_lem :
    (parse_units : Text → ℤ) (raw : Text) (snapshot : Snapshot UnwrapState)
    → IfBuilt (build_unwrap parse_units raw snapshot) (UnwrapBuilt parse_units raw snapshot)
unfolding build_unwrap unwrap_action ready_action
build_unwrap_lem parse_units raw snapshot =
    let P : ReadyAction → Type 0 = UnwrapBuilt parse_units raw snapshot in
    after_amount P _ _ (λ amount p. after P _ _ _ _ (λ state s. unless P _ _ _ _ (λ within.
      let (wallet, reserve) = unwrap_capacity_bounds state amount within in
      (amount, p, (state, s, wallet, reserve, (refl, refl, refl, refl, refl, refl), refl, refl)))))
