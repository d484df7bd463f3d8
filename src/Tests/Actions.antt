-- ===== src/Tests/Actions.antt =====
-- The theorems about web/lib/actions/repay.ts and positions.ts at concrete inputs.
use ovrflo.Prelude.{◌↔◌, ◌-◌, ◌*◌, ◌^◌, ◌≡◌, refl, Bool, true, false, some, [], ◌∷◌, arith}
use ovrflo.Prelude.Int.{ℤ, pos, ◌+ℤ◌, ◌-ℤ◌, ◌<ℤ◌, ◌≤ℤ◌}
use ovrflo.Prelude.Text.{Text, lower, text_eq}
use ovrflo.LendingMath.{loan_outstanding, is_loan_open}
use ovrflo.ReadOutcome.{fresh, ready, no_metadata}
use ovrflo.Action.{ActionIdentity}
use ovrflo.Action.Amount.{
  parsed, trim, trim_start, trim_end, trim_before, digits_then, matches_amount,
  parse_positive_amount,
}
use ovrflo.Action.Repay.{
  MarketActionContext, Loan, RepayState, CloseState, Snapshot, RepayIntent, fresh_data, build_repay,
  build_close,
}
use ovrflo.Action.Loans.{IfBuilt, RepayBuilt, IsRepay, build_repay_lem}
use ovrflo.Watch.{repay_max}
use ovrflo.Watch.Repayable.{BuiltAs, build_repay-repay_max}
use ovrflo.Action.Closing.{CloseBuilt, build_close_lem}

abbrev same_address : Text → Text → Bool
same_address a b = text_eq (lower a) (lower b)

-- A text of a whole number of units, as its first digit.
abbrev parse_units : Text → ℤ
parse_units [] = pos 0
parse_units (c ∷ cs) = pos ((c - 48) * 10 ^ 18)

abbrev alice : ActionIdentity
alice = record { account = b'a' ∷ []; chain_id = 1 }

abbrev market : MarketActionContext
market = record {
  vault = b'v' ∷ [];
  lending = some (b'l' ∷ []);
  market = b'm' ∷ [];
  underlying = b'u' ∷ [];
  ovrflo_token = b't' ∷ [];
  pt_token = b'p' ∷ [];
  sablier = b's' ∷ [];
  expiry = pos 900;
  now = pos 100;
}

abbrev loan : Loan
loan = record {
  id = pos 7;
  borrower = b'A' ∷ [];
  stream_id = pos 8;
  terms = record {
    obligation = pos (10 * 10 ^ 18);
    drawn = pos (10 ^ 18);
    repaid = pos 0;
    closed = false;
  };
}

abbrev owing_state : RepayState
owing_state = record { loan = some loan; wallet_balance = pos (6 * 10 ^ 18); allowance = pos 0 }

abbrev repay_snapshot : Snapshot RepayState
repay_snapshot = record {
  identity = alice;
  market = market;
  state = ready fresh owing_state [] no_metadata;
}

abbrev intent : RepayIntent
intent = record { amount = b'5' ∷ []; loan_id = pos 7 }

build_repay_lem_example : IfBuilt (build_repay same_address parse_units intent repay_snapshot) (λ a.
    (amount : ℤ) × (parse_positive_amount parse_units intent.amount ≡ parsed amount)
    × (pos 0 <ℤ amount)
    × ((lending : Text) × (repay_snapshot.market.lending ≡ some lending)
        × RepayBuilt same_address repay_snapshot intent.loan_id amount lending
            (fresh_data repay_snapshot.state)
            a))
build_repay_lem_example = build_repay_lem same_address parse_units intent repay_snapshot

amount_parsed : parse_positive_amount parse_units intent.amount ≡ parsed (pos (5 * 10 ^ 18))
unfolding parse_positive_amount trim trim_start trim_end trim_before matches_amount digits_then
amount_parsed = refl

owner_same : same_address loan.borrower alice.account ≡ true
unfolding text_eq lower
owner_same = refl

loan_open : is_loan_open loan.terms ≡ true
unfolding is_loan_open loan_outstanding ◌+ℤ◌ ◌-ℤ◌
loan_open = refl

owes : pos (5 * 10 ^ 18) ≤ℤ loan_outstanding loan.terms
unfolding loan_outstanding ◌+ℤ◌ ◌-ℤ◌
owes = omega arith

build_repay-repay_max_example :
    (pos (5 * 10 ^ 18) ≤ℤ repay_max loan.terms owing_state.wallet_balance)
    ↔ BuiltAs
        (build_repay same_address parse_units intent repay_snapshot)
        (IsRepay same_address repay_snapshot (pos 7) (pos (5 * 10 ^ 18)) (b'l' ∷ []) owing_state)
build_repay-repay_max_example =
    build_repay-repay_max same_address parse_units intent repay_snapshot (pos (5 * 10 ^ 18))
      (b'l' ∷ []) owing_state loan (refl, refl, refl, refl, owner_same, loan_open) amount_parsed

abbrev close_snapshot : Snapshot CloseState
close_snapshot = record {
  identity = alice;
  market = market;
  state =
      ready fresh (record { loan = some loan; withdrawable = pos (9 * 10 ^ 18) }) [] no_metadata;
}

build_close_lem_example : IfBuilt (build_close same_address (pos 7) close_snapshot) (
    CloseBuilt same_address
      (pos 7)
      close_snapshot
      close_snapshot.market.lending
      (fresh_data close_snapshot.state))
build_close_lem_example = build_close_lem same_address (pos 7) close_snapshot
