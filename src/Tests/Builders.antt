-- ===== src/Tests/Builders.antt =====
-- The theorems about the builders of web/lib/actions at concrete inputs.
use Prim.Native.String.{String}
use ovrflo.Prelude.{
  ◌≡◌, ◌-◌, refl, Bool, true, false, some, none, List, [], ◌∷◌, arith, sort, sort_from, subst, ◌↔◌,
}
use ovrflo.Prelude.Int.{ℤ, pos, ◌+ℤ◌, ◌-ℤ◌, ◌≤ℤ◌}
use ovrflo.Prelude.Errors.{Returns, IfReturns, ok}
use ovrflo.Prelude.Text.{Text, text_eq}
use ovrflo.Convert.{deposit, deposit_cap_status}
use ovrflo.Convert.Cap.{WithinCap, cap_blocks, deposit_cap_status-WithinCap}
use ovrflo.Router.{
  LiquidityPosition, HydratedRoute, is_ready, routed, select_hydrated_route, route, ranked, pick,
}
use ovrflo.ReadOutcome.{ReadOutcomeMetadata, fresh, ready, no_metadata}
use ovrflo.Action.{ActionIdentity}
use ovrflo.Action.Value.{Values}
use ovrflo.Action.Amount.{
  parsed, trim, trim_start, trim_end, trim_before, digits_then, matches_amount,
  parse_positive_amount,
}
use ovrflo.Action.Repay.{MarketActionContext, Snapshot}
use ovrflo.Action.Supply.{SupplyIntent, SupplyState, build_supply}
use ovrflo.Action.Closing.{IsBuilt}
use ovrflo.Action.Loans.{IfBuilt}
use ovrflo.Action.Borrow.{BorrowIntent, build_borrow, borrow_id_refused}
use ovrflo.Action.Borrow.Reads.{
  BorrowStreamState, BorrowRoutingState, BorrowQuoteState, BorrowReads, BorrowSnapshot,
  has_coherent_block, is_one_block, fresh_reads, has_repeats, found_all, position_by_id,
}
use ovrflo.Action.Registry.{borrow_intent, borrow_snapshot, build_action}
use ovrflo.Action.Built.All.{Justified, build_action-Justified}
use ovrflo.Action.Built.Addresses.{HasAddresses}
use ovrflo.Action.Built.Returning.{IsReturned, build_borrow-IsReturned, inputs, IsBound}
use ovrflo.Action.Built.Completing.{build_supply-IsBuilt, build_borrow-IsBuilt}

abbrev same : Text → Text → Bool
same a b = text_eq a b

-- A text of a whole number of units, as its first digit.
abbrev units : Text → ℤ
units [] = pos 0
units (c ∷ cs) = pos (c - 48)

abbrev encode_call : String → Values → Text
encode_call name args = []

abbrev carol : ActionIdentity
carol = record { account = b'c' ∷ []; chain_id = 1 }

abbrev live_market : MarketActionContext
live_market = record {
  vault = b'v' ∷ [];
  lending = some (b'l' ∷ []);
  market = b'm' ∷ [];
  underlying = b'u' ∷ [];
  ovrflo_token = b't' ∷ [];
  pt_token = b'p' ∷ [];
  sablier = b's' ∷ [];
  expiry = pos 900;
  now = pos 100;
}

four_parsed : parse_positive_amount units (b'4' ∷ []) ≡ parsed (pos 4)
unfolding parse_positive_amount trim trim_start trim_end trim_before matches_amount digits_then
four_parsed = refl

abbrev supply_state : SupplyState
supply_state = record {
  wallet_balance = pos 9;
  allowance = pos 0;
  apr_min_bps = 100;
  apr_max_bps = 1000;
}

abbrev supply_four : SupplyIntent
supply_four = record { amount = b'4' ∷ []; apr_bps = 500 }

abbrev supply_reads : Snapshot SupplyState
supply_reads = record {
  identity = carol;
  market = live_market;
  state = ready fresh supply_state [] no_metadata;
}

build_supply-IsBuilt_example : IsBuilt (build_supply units supply_four supply_reads)
build_supply-IsBuilt_example =
    build_supply-IsBuilt units supply_four supply_reads (pos 4) (b'l' ∷ []) supply_state four_parsed
      refl refl (omega arith) (omega arith, omega arith, omega arith) (omega arith) (omega arith)

abbrev at_block : ReadOutcomeMetadata
at_block = record {
  scope_key = none;
  block_number = some (pos 77);
  block_hash = some (b'h' ∷ []);
  block_timestamp = none;
  data_updated_at = none;
}

abbrev stream : BorrowStreamState
stream = record {
  stream_id = pos 5;
  recipient = b'c' ∷ [];
  approved = none;
  approved_for_all = false;
  eligible = true;
}

abbrev routing : BorrowRoutingState
routing = record {
  market = b'm' ∷ [];
  apr_bps = 500;
  candidate_ids = pos 1 ∷ pos 2 ∷ [];
  aggregate_depth = pos 8;
  max_route_ids = 3;
}

abbrev lender_position : ℤ → Text → ℤ → LiquidityPosition
lender_position id lender depth = record {
  id = id;
  lender = lender;
  market = b'm' ∷ [];
  apr_bps = 500;
  available_liquidity = depth;
}

-- The second position is the borrower's own.
abbrev hydrated : List LiquidityPosition
hydrated =
    lender_position (pos 1) (b'd' ∷ []) (pos 6) ∷ lender_position (pos 2) (b'c' ∷ []) (pos 2) ∷ []

abbrev quote : BorrowQuoteState
quote = record {
  market = b'm' ∷ [];
  stream_id = pos 5;
  apr_bps = 500;
  amount = pos 4;
  actual_borrow = pos 4;
  fee_amount = pos 1;
  obligation = pos 6;
  residual = pos 0;
  min_acceptable = pos 3;
}

abbrev borrow_reads : BorrowReads
borrow_reads = record { stream = stream; routing = routing; positions = hydrated; quote = quote }

abbrev borrow_at_block : BorrowSnapshot
borrow_at_block = record {
  identity = carol;
  market = live_market;
  stream = ready fresh stream [] at_block;
  routing = ready fresh routing [] at_block;
  hydration = ready fresh hydrated [] at_block;
  quote = ready fresh quote [] at_block;
}

abbrev borrow_four : BorrowIntent
borrow_four = record { amount = b'4' ∷ []; stream_id = pos 5 }

abbrev selected : HydratedRoute
selected = record {
  status = is_ready;
  public_depth = pos 8;
  executable_depth = pos 6;
  fragmented_depth = pos 0;
  self_excluded_depth = pos 2;
  selected_depth = pos 6;
  selected_ids = pos 1 ∷ [];
}

route_selected :
    select_hydrated_route same hydrated (some (b'c' ∷ [])) (pos 4) (pos 8) 3 ≡ ok (routed selected)
unfolding select_hydrated_route route ranked pick sort sort_from ◌+ℤ◌ ◌-ℤ◌ text_eq
route_selected = refl

one_block : has_coherent_block borrow_at_block ≡ true
unfolding has_coherent_block is_one_block text_eq
one_block = refl

reads_there : fresh_reads borrow_at_block ≡ some borrow_reads
unfolding fresh_reads
reads_there = refl

own_stream : same (b'c' ∷ []) (b'c' ∷ []) ≡ true
unfolding text_eq
own_stream = refl

own_market : same (b'm' ∷ []) (b'm' ∷ []) ≡ true
unfolding text_eq
own_market = refl

ids_fine : borrow_id_refused (pos 1 ∷ pos 2 ∷ []) ≡ false
unfolding borrow_id_refused has_repeats
ids_fine = refl

no_repeats : has_repeats (pos 1 ∷ pos 2 ∷ []) ≡ false
unfolding has_repeats
no_repeats = refl

hydrated_found : found_all hydrated (pos 1 ∷ pos 2 ∷ []) ≡ some hydrated
unfolding found_all position_by_id
hydrated_found = refl

net_covers : pos 3 ≤ℤ pos 4 -ℤ pos 1
unfolding ◌-ℤ◌
net_covers = omega arith

-- A text of one letter is an address here.
abbrev is_address : Text → Bool
is_address (c ∷ []) = true
is_address [] = false
is_address (c ∷ d ∷ cs) = false

addresses :
    HasAddresses is_address (inputs borrow_four borrow_at_block (pos 4) (b'l' ∷ []) borrow_reads)
addresses = (refl, refl, refl, refl, refl, tt, ((refl, refl), ((refl, refl), tt)))

build_borrow-IsBuilt_example :
    Returns (build_borrow is_address same units borrow_four borrow_at_block) IsBuilt
build_borrow-IsBuilt_example =
    build_borrow-IsBuilt is_address same units borrow_four borrow_at_block (pos 4) (b'l' ∷ [])
      borrow_reads hydrated selected four_parsed refl reads_there one_block (omega arith) addresses
      (refl, refl, own_stream)
      (
        own_market,
        ids_fine,
        no_repeats,
        hydrated_found,
        ((own_market, refl, omega arith), ((own_market, refl, omega arith), tt)),
      )
      route_selected refl (own_market, refl, refl, refl)
      (omega arith, omega arith, omega arith, omega arith, omega arith, net_covers)

all_fine :
    (amount : ℤ) (lending : Text) (reads : BorrowReads)
    → borrow_at_block.market.lending ≡ some lending
    → fresh_reads borrow_at_block ≡ some reads
    → HasAddresses is_address (inputs borrow_four borrow_at_block amount lending reads)
      × IsBound reads.routing.max_route_ids
unfolding fresh_reads
all_fine amount lending reads l h =
    let eq : borrow_reads ≡ reads = cc in
    subst
      (λ (r : BorrowReads).
        HasAddresses is_address (inputs borrow_four borrow_at_block amount lending r)
        × IsBound r.routing.max_route_ids)
      eq
      (
        (refl, refl, refl, refl, refl, tt, ((refl, refl), ((refl, refl), tt))),
        (omega arith, omega arith),
      )

build_borrow-IsReturned_example :
    IsReturned (build_borrow is_address same units borrow_four borrow_at_block)
build_borrow-IsReturned_example =
    build_borrow-IsReturned is_address same units borrow_four borrow_at_block all_fine

build_action-Justified_example :
    IfReturns
      (build_action is_address same units encode_call
        (borrow_intent borrow_four)
        (borrow_snapshot borrow_at_block))
      (λ r. IfBuilt r (
        Justified same units encode_call
          (borrow_intent borrow_four)
          (borrow_snapshot borrow_at_block)))
build_action-Justified_example =
    build_action-Justified is_address same units encode_call (borrow_intent borrow_four)
      (borrow_snapshot borrow_at_block)

deposit_cap_status-WithinCap_example :
    (cap_blocks (deposit_cap_status deposit (pos 4) true (pos 10) (pos 6)) ≡ false)
    ↔ WithinCap (pos 4) (pos 10) (pos 6)
deposit_cap_status-WithinCap_example =
    deposit_cap_status-WithinCap (pos 4) (pos 10) (pos 6) (omega arith)
