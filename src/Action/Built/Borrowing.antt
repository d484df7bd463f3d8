-- ===== src/Action/Built/Borrowing.antt =====
-- When a borrow is built, and what it calls: web/lib/actions/borrow.ts with web/lib/router.ts.
use ovrflo.Prelude.{
  ◌≡◌, ◌==◌, refl, Bool, true, false, not, ◌||◌, Option, none, some, List, [], ◌∷◌, map, All, arith,
  ==_iff,
}
use ovrflo.Prelude.Int.{ℤ, pos, ◌-ℤ◌, ◌<ℤ◌, ◌≤ℤ◌, eqb_ℤ, eq_of_parts}
use ovrflo.Prelude.Sorting.{All-map}
use ovrflo.Prelude.Errors.{Error, Result, err, ok, undefined_read, IfReturns}
use ovrflo.Prelude.Text.{Text}
use ovrflo.Router.{
  LiquidityPosition, HydratedRouteResult, HydratedRoute, routed, is_ready, insufficient, fragmented,
  conservation_failed,
}
use ovrflo.Router.Depth.{IsNonneg}
use ovrflo.Router.Route.{IsRoute, select_hydrated_route-IsRoute}
use ovrflo.Action.{ReadyAction, single, borrow, ActionBuildResult, ready_action}
use ovrflo.Action.Amount.{parsed, parse_positive_amount}
use ovrflo.Action.Steps.{refuse_if_lem, need_amount_lem, need_lem}
use ovrflo.Action.Repay.{lending_call}
use ovrflo.Action.Loans.{IfBuilt, IfBuilt-map}
use ovrflo.Action.Borrow.{
  BorrowIntent, BorrowInputs, refusal, borrow_id_refused, quote_refused, need_route, need_selected,
  is_ready_status, stream_authorization, borrow_args, borrow_action, borrow_quoted, off_tick,
  borrow_routed, borrow_inputs, build_borrow,
}
use ovrflo.Action.Borrow.Reads.{
  BorrowQuoteState, BorrowSnapshot, has_coherent_block, fresh_reads, has_repeats, found_all,
}
use ovrflo.Action.Built.{IsReviewed, not-false}
use ovrflo.Action.Built.Addresses.{
  compare_addresses_lem, compare_approved_lem, compare_lenders-routed, check_ticks_lem,
}

-- If the borrow returns and is built, it has the property.
abbrev pub IfBorrowed : (ReadyAction → Type 0) → Result ActionBuildResult → Type 0
IfBorrowed P r = IfReturns r (λ b. IfBuilt b P)

pub IfBorrowed-map :
    (r : Result ActionBuildResult) (P Q : ReadyAction → Type 0)
    → IfBorrowed P r
    → ((a : ReadyAction) → P a → Q a)
    → IfBorrowed Q r
IfBorrowed-map (err e) P Q h k = tt
IfBorrowed-map (ok r) P Q h k = IfBuilt-map r P Q h k

pub need_route_lem :
    (Q : Result ActionBuildResult → Type 0) (found : Result HydratedRouteResult)
    (rest : HydratedRoute → Result ActionBuildResult)
    → ((e : Error) → found ≡ err e → Q (err e))
    → ((errors : List _) → Q (refusal errors))
    → ((r : HydratedRoute) → found ≡ ok (routed r) → r.status ≡ is_ready → Q (rest r))
    → Q (need_route found rest)
unfolding need_route
need_route_lem Q (err e) rest thrown stopped k = thrown e refl
need_route_lem Q (ok (conservation_failed a b)) rest thrown stopped k = stopped _
need_route_lem Q (ok (routed r)) rest thrown stopped k =
    refuse_if_lem refusal Q stopped _ _ _ _
      (λ open_status. k r refl (ready_of r.status open_status))
  where
    ready_of : (s : _) → not (is_ready_status s) ≡ false → s ≡ is_ready
    ready_of is_ready = λ h. refl
    ready_of insufficient = λ h. absurd (cc)
    ready_of fragmented = λ h. absurd (cc)

pub need_selected_lem :
    (Q : Result ActionBuildResult → Type 0) (found : Option (List LiquidityPosition))
    (rest : List ℤ → Result ActionBuildResult)
    → (found ≡ none → Q (err undefined_read))
    → ((ps : List LiquidityPosition)
        → found ≡ some ps
        → Q (rest (map (λ (p : LiquidityPosition). p.available_liquidity) ps)))
    → Q (need_selected found rest)
unfolding need_selected
need_selected_lem Q none rest lost k = lost refl
need_selected_lem Q (some ps) rest lost k = k ps refl

-- The quote's amounts are in order: what is borrowed, less the fee, is at least the least that is
-- accepted.
abbrev pub IsQuote : BorrowQuoteState → Type 0
IsQuote q =
    (pos 0 <ℤ q.actual_borrow)
    × (q.fee_amount ≤ℤ q.actual_borrow)
    × (pos 0 <ℤ q.obligation)
    × (pos 0 ≤ℤ q.residual)
    × (pos 0 <ℤ q.min_acceptable)
    × (q.min_acceptable ≤ℤ q.actual_borrow -ℤ q.fee_amount)

quote_refused-IsQuote : (q : BorrowQuoteState) → quote_refused q ≡ false → IsQuote q
unfolding quote_refused
quote_refused-IsQuote q h =
    (ground arith, ground arith, ground arith, ground arith, ground arith, ground arith)

module _ (same_address : Text → Text → Bool) where
  -- The quote is of this borrow.
  abbrev pub QuoteAgrees : BorrowInputs → Type 0
  QuoteAgrees b =
      (same_address b.reads.quote.market b.market.market ≡ true)
      × (b.reads.quote.stream_id ≡ b.stream_id)
      × (b.reads.quote.apr_bps ≡ b.reads.routing.apr_bps)
      × (b.reads.quote.amount ≡ b.amount)

  -- The position is of the market and at the rate of the route, and its depth is not negative.
  abbrev pub OnTick : BorrowInputs → LiquidityPosition → Type 0
  OnTick b p =
      (same_address p.market b.market.market ≡ true)
      × (p.apr_bps ≡ b.reads.routing.apr_bps)
      × IsNonneg p

  -- The action borrows the amount at the route's rate against the stream, for at least what the
  -- quote accepts, and freezes the route.
  abbrev pub IsBorrow : BorrowInputs → HydratedRoute → ReadyAction → Type 0
  IsBorrow b selected a =
      IsReviewed borrow b.identity a
      × (a.call ≡ single (lending_call b.lending "borrow" (borrow_args b)))
      × (a.authorizations ≡ stream_authorization same_address b ∷ [])
      × ((amounts : List LiquidityPosition) × (found_all b.reads.positions selected.selected_ids
            ≡ some amounts)
          × (a.review.route
              ≡ some (record {
                ids = selected.selected_ids;
                amounts = map (λ (p : LiquidityPosition). p.available_liquidity) amounts;
                apr_bps = b.reads.routing.apr_bps;
              })))

  quote_agrees :
      (b : BorrowInputs)
      → (not (same_address b.reads.quote.market b.market.market)
          || not (eqb_ℤ b.reads.quote.stream_id b.stream_id)
          || not (b.reads.quote.apr_bps == b.reads.routing.apr_bps)
          || not (eqb_ℤ b.reads.quote.amount b.amount))
        ≡ false
      → QuoteAgrees b
  quote_agrees b h = (
    ground arith,
    ground (arith, eq_of_parts b.reads.quote.stream_id b.stream_id),
    ground (arith, ==_iff b.reads.quote.apr_bps b.reads.routing.apr_bps),
    ground (arith, eq_of_parts b.reads.quote.amount b.amount),
  )

  off_tick-OnTick :
      (b : BorrowInputs) (p : LiquidityPosition) → off_tick same_address b p ≡ false → OnTick b p
  off_tick-OnTick b p h =
      (ground arith, ground (arith, ==_iff p.apr_bps b.reads.routing.apr_bps), ground arith)

  -- The candidates of a route: identifiers that are positive and differ, hydrated at its tick.
  abbrev pub IsProjected : BorrowInputs → List LiquidityPosition → Type 0
  IsProjected b projected =
      (same_address b.reads.routing.market b.market.market ≡ true)
      × (borrow_id_refused b.reads.routing.candidate_ids ≡ false)
      × (has_repeats (map (λ (p : LiquidityPosition). p.id) b.reads.positions) ≡ false)
      × (found_all b.reads.positions b.reads.routing.candidate_ids ≡ some projected)
      × All (OnTick b) projected

  -- The route is ready for the amount, out of the projected positions.
  abbrev pub IsSelected : BorrowInputs → List LiquidityPosition → HydratedRoute → Type 0
  IsSelected b projected selected =
      (selected.status ≡ is_ready)
      × IsRoute same_address projected (some b.identity.account) b.amount
          b.reads.routing.aggregate_depth b.reads.routing.max_route_ids selected

  -- What a borrow rests on after the checks of the stream, and what it is.
  abbrev pub RouteBorrowed : BorrowInputs → ReadyAction → Type 0
  RouteBorrowed b a =
      (projected : List LiquidityPosition) × IsProjected b projected
      × ((selected : HydratedRoute) × IsSelected b projected selected
          × QuoteAgrees b
          × IsQuote b.reads.quote
          × IsBorrow b selected a)

  -- The stream is the one of the intent, can be borrowed against, and is the account's own.
  abbrev pub OwnsStream : BorrowInputs → Type 0
  OwnsStream b =
      (b.reads.stream.stream_id ≡ b.stream_id)
      × (b.reads.stream.eligible ≡ true)
      × (same_address b.reads.stream.recipient b.identity.account ≡ true)

  -- What a borrow rests on, and what it is.
  abbrev pub BorrowBuilt : (Text → ℤ) → BorrowIntent → BorrowSnapshot → ReadyAction → Type 0
  BorrowBuilt parse_units intent snapshot a =
      (b : BorrowInputs) × (b.identity ≡ snapshot.identity)
      × (b.market ≡ snapshot.market)
      × (b.stream_id ≡ intent.stream_id)
      × (parse_positive_amount parse_units intent.amount ≡ parsed b.amount)
      × (snapshot.market.lending ≡ some b.lending)
      × (fresh_reads snapshot ≡ some b.reads)
      × (has_coherent_block snapshot ≡ true)
      × (snapshot.market.now <ℤ snapshot.market.expiry)
      × OwnsStream b
      × RouteBorrowed b a

module _ (is_address : Text → Bool) (same_address : Text → Text → Bool) where
  borrow_quoted_lem :
      (b : BorrowInputs) (selected : HydratedRoute)
      → IfBorrowed
          (λ a.
            QuoteAgrees same_address b × IsQuote b.reads.quote × IsBorrow same_address b selected a)
          (borrow_quoted is_address same_address b selected)
  unfolding borrow_quoted borrow_action ready_action
  borrow_quoted_lem b selected =
      let Q : Result ActionBuildResult → Type 0 = IfBorrowed (λ a.
        QuoteAgrees same_address b × IsQuote b.reads.quote × IsBorrow same_address b selected a) in
      let stop : (errors : List _) → Q (refusal errors) = λ errors. tt in
      compare_addresses_lem is_address Q _ _ _ (λ _. tt)
        (λ _. refuse_if_lem refusal Q stop _ _ _ _ (λ agrees.
          refuse_if_lem refusal Q stop _ _ _ _ (λ fine.
            need_selected_lem Q _ _ (λ _. tt)
              (λ ps e. compare_approved_lem is_address Q _ _ _ _ tt (
                quote_agrees same_address b agrees,
                quote_refused-IsQuote b.reads.quote fine,
                ((refl, refl, refl, refl, refl, refl), refl, refl, (ps, e, refl)),
              )))))

  borrow_routed_lem :
      (b : BorrowInputs)
      → IfBorrowed (RouteBorrowed same_address b) (borrow_routed is_address same_address b)
  unfolding borrow_routed
  borrow_routed_lem b =
      let Q : Result ActionBuildResult → Type 0 = IfBorrowed (RouteBorrowed same_address b) in
      let stop : (errors : List _) → Q (refusal errors) = λ errors. tt in
      compare_addresses_lem is_address Q _ _ _ (λ _. tt)
        (λ _. refuse_if_lem refusal Q stop _ _ _ _ (λ at.
          refuse_if_lem refusal Q stop _ _ _ _ (λ ids.
            refuse_if_lem refusal Q stop _ _ _ _ (λ unique.
              need_lem refusal Q stop _ _ _ _ (λ ps found.
                check_ticks_lem is_address same_address Q tt stop b ps _ (λ on_tick.
                  let ticks : All (OnTick same_address b) ps =
                    All-map (off_tick-OnTick same_address b) ps on_tick in
                  let nonneg : All IsNonneg ps =
                    All-map {P = OnTick same_address b} {Q = IsNonneg} (λ p h. h.2) ps ticks in
                  need_route_lem Q _ _ (λ e h. tt) stop
                    (λ selected h open_status.
                      let selects =
                        select_hydrated_route-IsRoute same_address ps (some b.identity.account)
                          b.amount b.reads.routing.aggregate_depth b.reads.routing.max_route_ids
                          selected nonneg (compare_lenders-routed is_address ps _ selected h) in
                      IfBorrowed-map (borrow_quoted is_address same_address b selected) _
                        (RouteBorrowed same_address b) (borrow_quoted_lem b selected)
                        (λ a (agrees, quote, is). (
                          ps,
                          (not-false _ at, ids, unique, found, ticks),
                          (selected, (open_status, selects), agrees, quote, is),
                        )))))))))

  borrow_inputs_lem :
      (b : BorrowInputs)
      → IfBorrowed
          (λ a. OwnsStream same_address b × RouteBorrowed same_address b a)
          (borrow_inputs is_address same_address b)
  unfolding borrow_inputs
  borrow_inputs_lem b =
      let Q : Result ActionBuildResult → Type 0 =
        IfBorrowed (λ a. OwnsStream same_address b × RouteBorrowed same_address b a) in
      let stop : (errors : List _) → Q (refusal errors) = λ errors. tt in
      refuse_if_lem refusal Q stop _ _ _ _ (λ at. refuse_if_lem refusal Q stop _ _ _ _ (λ fit.
        compare_addresses_lem is_address Q _ _ _ (λ _. tt)
          (λ _. refuse_if_lem refusal Q stop _ _ _ _ (λ own.
            let same : b.reads.stream.stream_id ≡ b.stream_id =
              ground (arith, eq_of_parts b.reads.stream.stream_id b.stream_id) in
            IfBorrowed-map (borrow_routed is_address same_address b) _ _ (borrow_routed_lem b)
              (λ a h. ((same, not-false _ fit, not-false _ own), h))))))

  pub build_borrow_lem :
      (parse_units : Text → ℤ) (intent : BorrowIntent) (snapshot : BorrowSnapshot)
      → IfBorrowed
          (BorrowBuilt same_address parse_units intent snapshot)
          (build_borrow is_address same_address parse_units intent snapshot)
  unfolding build_borrow
  build_borrow_lem parse_units intent snapshot =
      let Q : Result ActionBuildResult → Type 0 =
        IfBorrowed (BorrowBuilt same_address parse_units intent snapshot) in
      let stop : (errors : List _) → Q (refusal errors) = λ errors. tt in
      need_amount_lem refusal Q stop _ _ (λ amount p. need_lem refusal Q stop _ _ _ _ (λ lending l.
        need_lem refusal Q stop _ _ _ _ (λ reads r. refuse_if_lem refusal Q stop _ _ _ _ (λ block.
          refuse_if_lem refusal Q stop _ _ _ _ (λ live.
            let b : BorrowInputs = record {
              identity = snapshot.identity;
              market = snapshot.market;
              stream_id = intent.stream_id;
              amount = amount;
              lending = lending;
              reads = reads;
            } in
            IfBorrowed-map (borrow_inputs is_address same_address b) _ _ (borrow_inputs_lem b)
              (λ a h.
                (b, refl, refl, refl, p, l, r, not-false _ block, ground arith, h.0, h.1)))))))
