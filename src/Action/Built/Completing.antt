-- ===== src/Action/Built/Completing.antt =====
-- When a supply and a borrow are sure to be built: web/lib/actions/supply.ts and borrow.ts.
use ovrflo.Prelude.{
  ℕ, ◌≤◌, ◌≡◌, refl, sym, subst, ◌∙◌, Bool, true, false, Option, some, List, [], ◌∷◌, All, arith,
}
use ovrflo.Prelude.Int.{ℤ, ◌<ℤ◌, ◌≤ℤ◌, leb_ℤ, ltb_ℤ, eqb_ℤ}
use ovrflo.Prelude.Errors.{Result, ok, Returns}
use ovrflo.Prelude.Text.{Text}
use ovrflo.Prelude.Sorting.{All-map}
use ovrflo.Router.{
  LiquidityPosition, HydratedRoute, routed, is_ready, max_safe_integer, select_hydrated_route,
}
use ovrflo.Action.{ActionBuildResult, ready_action}
use ovrflo.Action.Amount.{parsed, parse_positive_amount}
use ovrflo.Action.Steps.{refuse_if, need_amount, need}
use ovrflo.Action.Repay.{Snapshot, fresh_data}
use ovrflo.Action.Closing.{IsBuilt}
use ovrflo.Action.Supply.{SupplyIntent, SupplyState, apr_refused, supply_action, build_supply}
use ovrflo.Action.Borrow.{
  BorrowIntent, BorrowInputs, quote_refused, need_route, need_selected, borrow_action,
  compare_addresses, compare_approved, check_ticks, quote_differs, borrow_quoted, off_tick,
  borrow_routed, borrow_inputs, build_borrow,
}
use ovrflo.Action.Borrow.Reads.{
  BorrowReads, BorrowQuoteState, BorrowSnapshot, has_coherent_block, fresh_reads, found_all,
}
use ovrflo.Action.Built.{CanPost}
use ovrflo.Action.Built.Borrowing.{IsQuote, QuoteAgrees, OnTick, IsProjected, OwnsStream}
use ovrflo.Action.Built.Addresses.{
  HasAddresses, IsPlaced, IsComparable, compare_addresses-same, compare_approved-same,
  compare_lenders-same,
}
use ovrflo.Action.Built.Returning.{inputs, found_all-All, selected-found}

apr_refused-false :
    (low high apr : ℕ)
    → CanPost low high apr
    → apr ≤ max_safe_integer
    → apr_refused low high apr ≡ false
unfolding apr_refused
apr_refused-false low high apr (above, below, whole) safe = rw whole (ground arith)

-- A supply is built for an amount that the text stands for and that the wallet holds, with a
-- deployed lending contract and fresh reads, before maturity, at a postable rate that is a safe
-- integer.
pub build_supply-IsBuilt :
    (parse_units : Text → ℤ) (intent : SupplyIntent) (snapshot : Snapshot SupplyState) (amount : ℤ)
    (lending : Text) (state : SupplyState)
    → parse_positive_amount parse_units intent.amount ≡ parsed amount
    → snapshot.market.lending ≡ some lending
    → fresh_data snapshot.state ≡ some state
    → snapshot.market.now <ℤ snapshot.market.expiry
    → CanPost state.apr_min_bps state.apr_max_bps intent.apr_bps
    → intent.apr_bps ≤ max_safe_integer
    → amount ≤ℤ state.wallet_balance
    → IsBuilt (build_supply parse_units intent snapshot)
unfolding build_supply supply_action ready_action need_amount need refuse_if
build_supply-IsBuilt parse_units intent snapshot amount lending state p l s live post safe funded =
    let open_market : leb_ℤ snapshot.market.expiry snapshot.market.now ≡ false = ground arith in
    let rate = apr_refused-false state.apr_min_bps state.apr_max_bps intent.apr_bps post safe in
    let enough : ltb_ℤ state.wallet_balance amount ≡ false = ground arith in
    rw (p, l, s, open_market, rate, enough) tt

pub quote_refused-false : (q : BorrowQuoteState) → IsQuote q → quote_refused q ≡ false
unfolding quote_refused
quote_refused-false q (borrowed, fee, owed, rest, least, net) = ground arith

module _ (same_address : Text → Text → Bool) where
  off_tick-false :
      (b : BorrowInputs) (p : LiquidityPosition)
      → OnTick same_address b p
      → off_tick same_address b p ≡ false
  off_tick-false b p (market, rate, depth) = rw (market, rate) (ground arith)

  quote_differs-false :
      (b : BorrowInputs) → QuoteAgrees same_address b → quote_differs same_address b ≡ false
  quote_differs-false b (market, stream, rate, amount) =
      rw (market, stream, rate, amount) (ground arith)

module _ (is_address : Text → Bool) (same_address : Text → Text → Bool) where
  compared :
      (a b : Text) (rest : Result ActionBuildResult)
      → is_address a ≡ true
      → is_address b ≡ true
      → Returns rest IsBuilt
      → Returns (compare_addresses is_address a b rest) IsBuilt
  compared a b rest h k r = rw (compare_addresses-same is_address a b rest h k) r

  approved_compared :
      (all : Bool) (approved : Option Text) (spender : Text) (rest : Result ActionBuildResult)
      → IsComparable is_address all approved spender
      → Returns rest IsBuilt
      → Returns (compare_approved is_address all approved spender rest) IsBuilt
  approved_compared all approved spender rest h r =
      rw (compare_approved-same is_address all approved spender rest h) r

  action-IsBuilt :
      (b : BorrowInputs) (selected : HydratedRoute) (amounts : List ℤ)
      → IsBuilt (borrow_action same_address b selected amounts)
  unfolding borrow_action ready_action
  action-IsBuilt b selected amounts = tt

  -- Positions that are on the tick, with addresses, pass its check.
  check_ticks-same :
      (b : BorrowInputs) (ps : List LiquidityPosition) (rest : Result ActionBuildResult)
      → is_address b.market.market ≡ true
      → All (IsPlaced is_address) ps
      → All (OnTick same_address b) ps
      → check_ticks is_address same_address b ps rest ≡ rest
  unfolding check_ticks refuse_if
  check_ticks-same b [] rest market placed on = refl
  check_ticks-same b (p ∷ ps) rest market placed on =
      rw
        (
          compare_addresses-same is_address p.market b.market.market _ placed.0.0 market,
          off_tick-false same_address b p on.0,
        )
        (check_ticks-same b ps rest market placed.1 on.1)

  quoted-IsBuilt :
      (b : BorrowInputs) (selected : HydratedRoute)
      → HasAddresses is_address b
      → (ps : List LiquidityPosition) × (found_all b.reads.positions selected.selected_ids
          ≡ some ps)
      → QuoteAgrees same_address b
      → IsQuote b.reads.quote
      → Returns (borrow_quoted is_address same_address b selected) IsBuilt
  unfolding borrow_quoted need_selected refuse_if
  quoted-IsBuilt b selected fine (ps, e) agrees quote = compared _ _ _ fine.4 fine.0 (
      rw (quote_differs-false same_address b agrees, quote_refused-false b.reads.quote quote, e)
        (approved_compared _ _ _ _ fine.5 (action-IsBuilt b selected _)))

  routed-IsBuilt :
      (b : BorrowInputs) (projected : List LiquidityPosition) (selected : HydratedRoute)
      → HasAddresses is_address b
      → IsProjected same_address b projected
      → select_hydrated_route same_address projected
          (some b.identity.account)
          b.amount
          b.reads.routing.aggregate_depth
          b.reads.routing.max_route_ids
        ≡ ok (routed selected)
      → selected.status ≡ is_ready
      → Returns (borrow_quoted is_address same_address b selected) IsBuilt
      → Returns (borrow_routed is_address same_address b) IsBuilt
  unfolding borrow_routed need_route refuse_if need
  routed-IsBuilt b projected selected fine (market, ids, unique, found, ticks) select open_status
        done =
      let placed =
        found_all-All (IsPlaced is_address) b.reads.positions b.reads.routing.candidate_ids
          projected fine.6 found in
      let lenders =
        compare_lenders-same is_address projected
          (select_hydrated_route same_address projected (some b.identity.account) b.amount
            b.reads.routing.aggregate_depth b.reads.routing.max_route_ids)
          (All-map {P = IsPlaced is_address} (λ p h. h.1) projected placed) in
      compared _ _ _ fine.3 fine.0 (
        simp (market, ids, unique, found)
          (subst (λ r. Returns r IsBuilt) (sym (check_ticks-same b projected _ fine.0 placed ticks))
            (simp (lenders ∙ select, open_status) done)))

  -- A borrow is built, without throwing, for an amount that the text stands for, with a deployed
  -- lending contract and four fresh reads of one block, before maturity, if every text that is
  -- compared as an address is one, on which the comparison does not throw, the stream is the
  -- intent's, eligible and the account's own, the candidates of the route are hydrated at its
  -- tick, the selected route is ready, and the quote is of this borrow with its amounts in
  -- order.
  pub build_borrow-IsBuilt :
      (parse_units : Text → ℤ) (intent : BorrowIntent) (snapshot : BorrowSnapshot) (amount : ℤ)
      (lending : Text) (reads : BorrowReads) (projected : List LiquidityPosition)
      (selected : HydratedRoute)
      → parse_positive_amount parse_units intent.amount ≡ parsed amount
      → snapshot.market.lending ≡ some lending
      → fresh_reads snapshot ≡ some reads
      → has_coherent_block snapshot ≡ true
      → snapshot.market.now <ℤ snapshot.market.expiry
      → HasAddresses is_address (inputs intent snapshot amount lending reads)
      → OwnsStream same_address (inputs intent snapshot amount lending reads)
      → IsProjected same_address (inputs intent snapshot amount lending reads) projected
      → select_hydrated_route same_address projected
          (some snapshot.identity.account)
          amount
          reads.routing.aggregate_depth
          reads.routing.max_route_ids
        ≡ ok (routed selected)
      → selected.status ≡ is_ready
      → QuoteAgrees same_address (inputs intent snapshot amount lending reads)
      → IsQuote reads.quote
      → Returns (build_borrow is_address same_address parse_units intent snapshot) IsBuilt
  unfolding build_borrow borrow_inputs need_amount need refuse_if
  build_borrow-IsBuilt parse_units intent snapshot amount lending reads projected selected p l r
        block live fine (at, fit, own) route_of select open_status agrees quote =
      let b = inputs intent snapshot amount lending reads in
      let open_market : leb_ℤ snapshot.market.expiry snapshot.market.now ≡ false = ground arith in
      let same : eqb_ℤ reads.stream.stream_id intent.stream_id ≡ true = rw at (ground arith) in
      let found = selected-found same_address b projected selected route_of.3 select in
      let done = quoted-IsBuilt b selected fine found agrees quote in
      let routed_done = routed-IsBuilt b projected selected fine route_of select open_status done in
      simp (p, l, r, block, open_market, same, fit)
        (compared _ _ _ fine.2 fine.1 (simp own routed_done))
