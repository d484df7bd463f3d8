-- ===== src/Convert.antt =====
-- web/lib/convert.ts: the limit on deposits, the fee's approval, and what a conversion still needs.
pub mod Cap
use Prim.Native.String.{String}
use ovrflo.Prelude.{Bool, false, true, ◌&&◌, ◌||◌, Option, none, some, if◌then◌else◌}
use ovrflo.Prelude.Int.{ℤ, pos, ◌-ℤ◌, ◌*ℤ◌, ◌/ℤ◌, ltb_ℤ, eqb_ℤ}

pub data ConvertMode : Type 0 where
  deposit claim_matured wrap unwrap : ConvertMode

abbrev pub is_deposit : ConvertMode → Bool
is_deposit deposit = true
is_deposit claim_matured = false
is_deposit wrap = false
is_deposit unwrap = false

abbrev pub is_wrap : ConvertMode → Bool
is_wrap wrap = true
is_wrap deposit = false
is_wrap claim_matured = false
is_wrap unwrap = false

-- `cap_remaining` is none where the cap is 0, which stands for no limit.
pub record DepositCapStatus : Type 0 where
  pub cap_remaining : Option ℤ
  pub cap_reached : Bool
  pub cap_exceeded : Bool

abbrev pub is_zero_cap : Option ℤ → Bool
is_zero_cap none = false
is_zero_cap (some c) = eqb_ℤ c (pos 0)

abbrev pub is_over_cap : Option ℤ → ℤ → Bool
is_over_cap none amount = false
is_over_cap (some c) amount = ltb_ℤ (pos 0) c && ltb_ℤ c amount

unfoldable pub cap_remaining_of : ℤ → ℤ → Option ℤ
cap_remaining_of cap_limit cap_used =
    if ltb_ℤ (pos 0) cap_limit
    then some (if ltb_ℤ cap_used cap_limit then cap_limit -ℤ cap_used else pos 0)
    else none

unfoldable pub deposit_cap_status : ConvertMode → ℤ → Bool → ℤ → ℤ → DepositCapStatus
deposit_cap_status mode amount cap_loaded cap_limit cap_used =
    let remaining = cap_remaining_of cap_limit cap_used in
    record {
      cap_remaining = remaining;
      cap_reached = is_deposit mode && cap_loaded && is_zero_cap remaining;
      cap_exceeded = is_deposit mode && cap_loaded && is_over_cap remaining amount;
    }

unfoldable pub buffered_fee_approve_amount : ℤ → ℤ
buffered_fee_approve_amount fee_amount = fee_amount *ℤ pos 102 /ℤ pos 100

pub record ConvertApprovals : Type 0 where
  pub amount : ℤ
  pub fee_amount : ℤ
  pub pt_allowance : ℤ
  pub pt_approved_amount : ℤ
  pub underlying_allowance : ℤ
  pub underlying_approved_amount : ℤ

pub record ConvertApprovalNeeds : Type 0 where
  pub needs_pt_approval : Bool
  pub needs_underlying_approval : Bool
  pub needs_approval : Bool

unfoldable pub convert_approval_needs : ConvertMode → ConvertApprovals → ConvertApprovalNeeds
convert_approval_needs mode a =
    let pt =
      is_deposit mode
      && ltb_ℤ (pos 0) a.amount
      && ltb_ℤ a.pt_allowance a.amount
      && ltb_ℤ a.pt_approved_amount a.amount in
    let required = if is_wrap mode then a.amount else a.fee_amount in
    let underlying =
      (is_deposit mode && ltb_ℤ (pos 0) a.fee_amount || is_wrap mode)
      && ltb_ℤ (pos 0) a.amount
      && ltb_ℤ a.underlying_allowance required
      && ltb_ℤ a.underlying_approved_amount required in
    record {
      needs_pt_approval = pt;
      needs_underlying_approval = underlying;
      needs_approval = pt || underlying;
    }

-- What is wrong with the amount of a conversion: the texts of `convertValidationError`, of which the
-- second shows what remains of the cap.
pub data ConvertError : Type 0 where
  insufficient_balance : ConvertError
  exceeds_deposit_cap : ℤ → ConvertError

abbrev pub or_zero : Option ℤ → ℤ
or_zero none = pos 0
or_zero (some z) = z

unfoldable pub convert_validation_error : ℤ → ℤ → Bool → Option ℤ → Option ConvertError
convert_validation_error amount wallet_balance cap_exceeded cap_remaining =
    if ltb_ℤ (pos 0) amount && ltb_ℤ wallet_balance amount
    then some insufficient_balance
    else if cap_exceeded
    then some (exceeds_deposit_cap (or_zero cap_remaining))
    else none
