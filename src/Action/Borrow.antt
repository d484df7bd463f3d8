-- ===== src/Action/Borrow.antt =====
-- web/lib/actions/borrow.ts: borrowing against a stream, from four reads of one block.
pub mod Reads
use ovrflo.Prelude.{
  ℕ, ◌==◌, Bool, true, false, not, ◌&&◌, ◌||◌, Option, none, some, List, [], ◌∷◌, ◌++◌, map, any,
  if◌then◌else◌,
}
use ovrflo.Prelude.Int.{ℤ, pos, ◌-ℤ◌, ltb_ℤ, leb_ℤ, eqb_ℤ}
use ovrflo.Prelude.Text.{Text}
use ovrflo.Prelude.Errors.{Result, ok, err, undefined_read, invalid_address}
use ovrflo.Router.{
  LiquidityPosition, HydratedRouteResult, HydratedRoute, RouteStatus, is_ready, insufficient,
  fragmented, conservation_failed, routed, select_hydrated_route,
}
use ovrflo.Action.{
  ActionIdentity, ActionError, market_not_configured, snapshot_not_ready, snapshot_block_mismatch,
  market_matured, snapshot_resource_mismatch, stream_ineligible, stream_not_owned,
  routing_incomplete, routing_insufficient, quote_invalid, Authorization, erc721, single, borrow,
  at_liquidity_position, at_market_depth, at_stream, at_nft_approval, big_figure, number_figure,
  ActionBuildResult, invalid_action, ready_action,
}
use ovrflo.Action.Value.{Values, no_values, value, big, number, address}
use ovrflo.Action.Amount.{parse_positive_amount}
use ovrflo.Action.Steps.{refuse_if, need_amount, need}
use ovrflo.Action.Repay.{MarketActionContext, fresh_data, lending_call}
use ovrflo.Action.Borrow.Reads.{
  BorrowStreamState, BorrowRoutingState, BorrowQuoteState, BorrowReads, BorrowSnapshot,
  has_coherent_block, fresh_reads, has_repeats, found_all,
}

pub record BorrowIntent : Type 0 where
  pub amount : Text
  pub stream_id : ℤ

-- `invalidAction`, in a function that can also throw.
abbrev pub refusal : List ActionError → Result ActionBuildResult
refusal errors = ok (invalid_action errors)

-- What the checks of a borrow leave for the action: the intent, the market and what was read.
pub record BorrowInputs : Type 0 where
  pub identity : ActionIdentity
  pub market : MarketActionContext
  pub stream_id : ℤ
  pub amount : ℤ
  pub lending : Text
  pub reads : BorrowReads

unfoldable pub borrow_id_refused : List ℤ → Bool
borrow_id_refused [] = true
borrow_id_refused (id ∷ ids) = has_repeats (id ∷ ids) || any (λ i. leb_ℤ i (pos 0)) (id ∷ ids)

-- The condition on a quote of amounts that is refused.
unfoldable pub quote_refused : BorrowQuoteState → Bool
quote_refused q =
    leb_ℤ q.actual_borrow (pos 0)
    || ltb_ℤ q.actual_borrow q.fee_amount
    || leb_ℤ q.obligation (pos 0)
    || ltb_ℤ q.residual (pos 0)
    || leb_ℤ q.min_acceptable (pos 0)
    || ltb_ℤ (q.actual_borrow -ℤ q.fee_amount) q.min_acceptable

abbrev pub is_ready_status : RouteStatus → Bool
is_ready_status is_ready = true
is_ready_status insufficient = false
is_ready_status fragmented = false

-- The route that is ready, of a selection that did not throw.
unfoldable pub need_route :
    Result HydratedRouteResult
    → (HydratedRoute → Result ActionBuildResult)
    → Result ActionBuildResult
need_route (err e) rest = err e
need_route (ok (conservation_failed projected aggregate)) rest = refusal (
    record {
      code = routing_incomplete;
      message = "Projected and hydrated route depth do not conserve";
    }
    ∷ [])
need_route (ok (routed r)) rest =
    refuse_if refusal (not (is_ready_status r.status)) routing_insufficient
      "Fresh public liquidity cannot fill this amount" (rest r)

-- `isAddressEqual(a, b)` of viem throws unless both texts are addresses. The rest is what follows on
-- its answer.
unfoldable pub compare_addresses {ℓ} :
    {R : Type ℓ} → (Text → Bool) → Text → Text → Result R → Result R
compare_addresses is_address a b rest =
    if is_address a && is_address b then rest else err invalid_address

unfoldable pub are_addresses : (Text → Bool) → List LiquidityPosition → Bool
are_addresses is_address [] = true
are_addresses is_address (p ∷ ps) = is_address p.lender && are_addresses is_address ps

-- `selectHydratedRoute` compares every lender with the account once the depth is conserved. The
-- account is an address, since it was compared before.
unfoldable pub compare_lenders :
    (Text → Bool) → List LiquidityPosition → Result HydratedRouteResult → Result HydratedRouteResult
compare_lenders is_address positions (err e) = err e
compare_lenders is_address positions (ok (conservation_failed projected aggregate)) =
    ok (conservation_failed projected aggregate)
compare_lenders is_address positions (ok (routed r)) =
    if are_addresses is_address positions then ok (routed r) else err invalid_address

-- The comparison of the approved address, which is there only without an approval for all.
unfoldable pub compare_approved :
    (Text → Bool) → Bool → Option Text → Text → Result ActionBuildResult → Result ActionBuildResult
compare_approved is_address true approved spender rest = rest
compare_approved is_address false none spender rest = rest
compare_approved is_address false (some a) spender rest =
    compare_addresses is_address a spender rest

-- The amounts of the selected positions, which are read off the map.
unfoldable pub need_selected :
    Option (List LiquidityPosition) → (List ℤ → Result ActionBuildResult) → Result ActionBuildResult
need_selected none rest = err undefined_read
need_selected (some ps) rest = rest (map (λ (p : LiquidityPosition). p.available_liquidity) ps)

abbrev pub approved_as : (Text → Text → Bool) → Option Text → Text → Bool
approved_as same_address none spender = false
approved_as same_address (some a) spender = same_address a spender

abbrev pub borrow_args : BorrowInputs → Values
borrow_args b = value (address b.market.market) (
    value (number b.reads.routing.apr_bps) (
      value (big b.amount)
        (value (big b.stream_id) (value (big b.reads.quote.min_acceptable) no_values))))

module _ (same_address : Text → Text → Bool) where
  unfoldable pub stream_authorization : BorrowInputs → Authorization
  stream_authorization b = erc721 (record {
    token = b.market.sablier;
    spender = b.lending;
    token_id = b.stream_id;
    satisfied =
        b.reads.stream.approved_for_all
        || approved_as same_address b.reads.stream.approved b.lending;
  })

  unfoldable pub borrow_action : BorrowInputs → HydratedRoute → List ℤ → ActionBuildResult
  borrow_action b selected amounts =
      let market = b.market in
      let apr_bps = b.reads.routing.apr_bps in
      let quote = b.reads.quote in
      ready_action borrow b.identity "BORROW"
        ("fresh-stream" ∷ "fresh-projected-route" ∷ "fresh-hydration" ∷ "fresh-quote"
          ∷ "single-block" ∷ "route-conserved" ∷ "self-liquidity-excluded" ∷ [])
        (stream_authorization b ∷ []) (single (lending_call b.lending "borrow" (borrow_args b)))
        (map (at_liquidity_position b.lending) selected.selected_ids
          ++ at_market_depth b.lending market.market (some apr_bps)
            ∷ at_stream market.sablier (some b.stream_id)
            ∷ at_nft_approval market.sablier b.identity.account b.lending b.stream_id
            ∷ [])
        (some (record { ids = selected.selected_ids; amounts = amounts; apr_bps = apr_bps }))
        (("amount", big_figure b.amount)
          ∷ ("actualBorrow", big_figure quote.actual_borrow)
          ∷ ("feeAmount", big_figure quote.fee_amount)
          ∷ ("obligation", big_figure quote.obligation)
          ∷ ("residual", big_figure quote.residual)
          ∷ ("minAcceptable", big_figure quote.min_acceptable)
          ∷ ("selectedDepth", big_figure selected.selected_depth)
          ∷ ("aprBps", number_figure apr_bps)
          ∷ [])
        (record {
          source = b.lending;
          event_name = some "Borrowed";
          label = "BORROWED";
          expected_ids = b.stream_id ∷ selected.selected_ids;
          expected_amounts =
              ("borrowed", b.amount)
              ∷ ("minimumReceived", quote.min_acceptable)
              ∷ ("obligation", quote.obligation)
              ∷ [];
        })

  -- The condition on a hydrated position that is not at the projected tick.
  abbrev pub off_tick : BorrowInputs → LiquidityPosition → Bool
  off_tick b p =
      not (same_address p.market b.market.market)
      || not (p.apr_bps == b.reads.routing.apr_bps)
      || ltb_ℤ p.available_liquidity (pos 0)

  -- The condition on a quote of another borrow.
  abbrev pub quote_differs : BorrowInputs → Bool
  quote_differs b =
      let q = b.reads.quote in
      not (same_address q.market b.market.market)
      || not (eqb_ℤ q.stream_id b.stream_id)
      || not (q.apr_bps == b.reads.routing.apr_bps)
      || not (eqb_ℤ q.amount b.amount)

module _ (is_address : Text → Bool) (same_address : Text → Text → Bool) where
  -- The first position that is off the tick refuses the borrow, and the first that has no address
  -- of a market throws.
  unfoldable pub check_ticks :
      BorrowInputs → List LiquidityPosition → Result ActionBuildResult → Result ActionBuildResult
  check_ticks b [] rest = rest
  check_ticks b (p ∷ ps) rest = compare_addresses is_address p.market b.market.market (
      refuse_if refusal (off_tick same_address b p) routing_incomplete
        "Hydrated route data does not match the projected tick" (check_ticks b ps rest))

  -- The checks of the quote, and the action.
  unfoldable pub borrow_quoted : BorrowInputs → HydratedRoute → Result ActionBuildResult
  borrow_quoted b selected = compare_addresses is_address b.reads.quote.market b.market.market (
      refuse_if refusal (quote_differs same_address b) snapshot_resource_mismatch
        "Quote state does not match the reviewed borrow"
        (refuse_if refusal (quote_refused b.reads.quote) quote_invalid
          "Fresh borrow quote is invalid"
          (need_selected (found_all b.reads.positions selected.selected_ids) (λ amounts.
            compare_approved is_address b.reads.stream.approved_for_all b.reads.stream.approved
              b.lending (ok (borrow_action same_address b selected amounts))))))

  -- The checks of the route.
  unfoldable pub borrow_routed : BorrowInputs → Result ActionBuildResult
  borrow_routed b =
      let routing = b.reads.routing in
      compare_addresses is_address routing.market b.market.market (
        refuse_if refusal (not (same_address routing.market b.market.market))
          snapshot_resource_mismatch "Route state does not match the selected market"
          (refuse_if refusal (borrow_id_refused routing.candidate_ids) routing_incomplete
            "Projected route identifiers are incomplete"
            (refuse_if refusal
              (has_repeats (map (λ (p : LiquidityPosition). p.id) b.reads.positions))
              routing_incomplete "A projected route candidate lacks fresh hydration"
              (need refusal (found_all b.reads.positions routing.candidate_ids) routing_incomplete
                "A projected route candidate lacks fresh hydration"
                (λ projected. check_ticks b projected (
                  need_route
                    (compare_lenders is_address projected (
                      select_hydrated_route same_address projected (some b.identity.account)
                        b.amount routing.aggregate_depth routing.max_route_ids))
                    (λ selected. borrow_quoted b selected)))))))

  -- The checks of the stream, of what `build` has gathered.
  unfoldable pub borrow_inputs : BorrowInputs → Result ActionBuildResult
  borrow_inputs b =
      let stream = b.reads.stream in
      refuse_if refusal (not (eqb_ℤ stream.stream_id b.stream_id)) snapshot_resource_mismatch
        "Stream state does not match the borrow intent"
        (refuse_if refusal (not stream.eligible) stream_ineligible
          "Stream is not eligible collateral"
          (compare_addresses is_address stream.recipient b.identity.account (
            refuse_if refusal (not (same_address stream.recipient b.identity.account))
              stream_not_owned "Connected account is not the stream recipient" (borrow_routed b))))

  -- `borrowDefinition.build`
  unfoldable pub build_borrow :
      (Text → ℤ) → BorrowIntent → BorrowSnapshot → Result ActionBuildResult
  build_borrow parse_units intent snapshot =
      need_amount refusal (parse_positive_amount parse_units intent.amount) (λ amount.
        need refusal snapshot.market.lending market_not_configured "Lending is not deployed"
          (λ lending.
            need refusal (fresh_reads snapshot) snapshot_not_ready
              "Borrow inputs are not all fresh and complete"
              (λ reads.
                refuse_if refusal (not (has_coherent_block snapshot)) snapshot_block_mismatch
                  "Borrow inputs do not describe one chain block"
                  (refuse_if refusal (leb_ℤ snapshot.market.expiry snapshot.market.now)
                    market_matured "Borrowing closes at maturity"
                    (borrow_inputs (record {
                      identity = snapshot.identity;
                      market = snapshot.market;
                      stream_id = intent.stream_id;
                      amount = amount;
                      lending = lending;
                      reads = reads;
                    }))))))
