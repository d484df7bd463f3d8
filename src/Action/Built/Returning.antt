-- ===== src/Action/Built/Returning.antt =====
-- `borrowDefinition.build` of web/lib/actions/borrow.ts: when it returns at all. What it reads off
-- the map of hydrated positions after the route is selected is always there.
use ovrflo.Prelude.{
  ℕ, ◌<◌, ◌≤◌, ◌≡◌, refl, sym, ap, subst, ◌∙◌, Bool, true, not, ◌&&◌, Option, none, some, List, [],
  ◌∷◌, map, take, filter, sort, All, arith, inl, inr, Bool-cases, Option-cases,
}
use ovrflo.Prelude.Int.{ℤ, pos, ltb_ℤ, eqb_ℤ, eq_of_parts}
use ovrflo.Prelude.Sorting.{All-take, All-map, All-filter_keep, All-sort}
use ovrflo.Prelude.Errors.{Result, ok, Returns}
use ovrflo.Prelude.Text.{Text}
use ovrflo.Router.{
  LiquidityPosition, HydratedRoute, routed, owned_by, deeper_first, ranked, route,
  select_hydrated_route, max_safe_integer,
}
use ovrflo.Router.Route.{pick_lem, select_hydrated_route-routed, select_hydrated_route-err}
use ovrflo.Action.{ActionBuildResult, ActionError}
use ovrflo.Action.Steps.{refuse_if_lem, need_amount_lem, need_lem}
use ovrflo.Action.Borrow.{
  BorrowIntent, BorrowInputs, refusal, compare_addresses, borrow_action, borrow_quoted,
  borrow_routed, borrow_inputs, build_borrow,
}
use ovrflo.Action.Borrow.Reads.{
  BorrowReads, BorrowSnapshot, fresh_reads, last_found, position_by_id, found_all,
}
use ovrflo.Action.Built.Addresses.{
  HasAddresses, IsPlaced, compare_addresses-same, compare_approved-same, compare_lenders-same,
  check_ticks-address,
}
use ovrflo.Action.Built.Borrowing.{need_route_lem, need_selected_lem}

-- A map has the position of the identifier.
abbrev pub CanFind : List LiquidityPosition → ℤ → Type 0
CanFind positions id = (p : LiquidityPosition) × (position_by_id positions id ≡ some p)

last_found-id :
    (later : Option LiquidityPosition) (id : ℤ) (q p : LiquidityPosition)
    → ((r : LiquidityPosition) → later ≡ some r → r.id ≡ id)
    → last_found later id q ≡ some p
    → p.id ≡ id
last_found-id (some r) id q p k = λ h. k p h
last_found-id none id q p k = elim (Bool-cases (eqb_ℤ q.id id)) [
  | inr e ↦ rw e (λ h. absurd (cc))
  | inl e ↦ rw e (λ h.
      let same : q ≡ p = cc in
      ap (λ (x : LiquidityPosition). x.id) (sym same) ∙ ground (arith, eq_of_parts q.id id))
]

position_by_id-id :
    (positions : List LiquidityPosition) (id : ℤ) (p : LiquidityPosition)
    → position_by_id positions id ≡ some p
    → p.id ≡ id
unfolding position_by_id
position_by_id-id [] id p h = absurd (cc)
position_by_id-id (q ∷ qs) id p h =
    last_found-id (position_by_id qs id) id q p (position_by_id-id qs id) h

-- What was found for a list of identifiers is found again by its own identifiers.
found_all-CanFind :
    (positions : List LiquidityPosition) (ids : List ℤ) (ps : List LiquidityPosition)
    → found_all positions ids ≡ some ps
    → All (λ (p : LiquidityPosition). CanFind positions p.id) ps
unfolding found_all
found_all-CanFind positions [] ps = λ h.
    let same : [] ≡ ps = cc in
    subst (All (λ (p : LiquidityPosition). CanFind positions p.id)) same tt
found_all-CanFind positions (id ∷ ids) ps = elim (Option-cases (position_by_id positions id)) [
  | inl e ↦ rw e (λ h. absurd (cc))
  | inr (p, e) ↦ elim (Option-cases (found_all positions ids)) [
    | inl f ↦ rw (e, f) (λ h. absurd (cc))
    | inr (rest, f) ↦
        rw (e, f)
          (λ h.
            let same : p ∷ rest ≡ ps = cc in
            subst (All (λ (q : LiquidityPosition). CanFind positions q.id)) same (
              (p, ap (position_by_id positions) (position_by_id-id positions id p e) ∙ e),
              found_all-CanFind positions ids rest f,
            ))
  ]
]

position_by_id-holds :
    (P : LiquidityPosition → Type 0) (positions : List LiquidityPosition) (id : ℤ)
    (p : LiquidityPosition)
    → All P positions
    → position_by_id positions id ≡ some p
    → P p
unfolding position_by_id
position_by_id-holds P [] id p h = λ e. absurd (cc)
position_by_id-holds P (q ∷ qs) id p h = elim (Option-cases (position_by_id qs id)) [
  | inr (r, e) ↦
      rw e (λ f. let same : r ≡ p = cc in subst P same (position_by_id-holds P qs id r h.1 e))
  | inl e ↦ elim (Bool-cases (eqb_ℤ q.id id)) [
    | inl g ↦ rw (e, g) (λ f. let same : q ≡ p = cc in subst P same h.0)
    | inr g ↦ rw (e, g) (λ f. absurd (cc))
  ]
]

pub found_all-All :
    (P : LiquidityPosition → Type 0) (positions : List LiquidityPosition) (ids : List ℤ)
    (ps : List LiquidityPosition)
    → All P positions
    → found_all positions ids ≡ some ps
    → All P ps
unfolding found_all
found_all-All P positions [] ps h = λ e. let same : [] ≡ ps = cc in subst (All P) same tt
found_all-All P positions (id ∷ ids) ps h = elim (Option-cases (position_by_id positions id)) [
  | inl e ↦ rw e (λ f. absurd (cc))
  | inr (p, e) ↦ elim (Option-cases (found_all positions ids)) [
    | inl g ↦ rw (e, g) (λ f. absurd (cc))
    | inr (rest, g) ↦
        rw (e, g)
          (λ f.
            let same : p ∷ rest ≡ ps = cc in
            subst (All P) same
              (position_by_id-holds P positions id p h e, found_all-All P positions ids rest h g))
  ]
]

CanFind-found_all :
    (positions : List LiquidityPosition) (ids : List ℤ)
    → All (CanFind positions) ids
    → (ps : List LiquidityPosition) × (found_all positions ids ≡ some ps)
unfolding found_all
CanFind-found_all positions [] h = ([], refl)
CanFind-found_all positions (id ∷ ids) h =
    let (p, e) = h.0 in
    let (ps, f) = CanFind-found_all positions ids h.1 in (p ∷ ps, rw (e, f) refl)

All-ids :
    (P : ℤ → Type 0) (ps : List LiquidityPosition)
    → All (λ (p : LiquidityPosition). P p.id) ps
    → All P (map (λ (p : LiquidityPosition). p.id) ps)
All-ids P [] h = tt
All-ids P (p ∷ ps) h = (h.0, All-ids P ps h.1)

abbrev pub IsReturned : Result ActionBuildResult → Type 0
IsReturned r = Returns r (λ b. Unit)

stop : (errors : List ActionError) → IsReturned (refusal errors)
stop errors = tt

-- What the checks of the snapshot leave for a borrow.
abbrev pub inputs : BorrowIntent → BorrowSnapshot → ℤ → Text → BorrowReads → BorrowInputs
inputs intent snapshot amount lending reads = record {
  identity = snapshot.identity;
  market = snapshot.market;
  stream_id = intent.stream_id;
  amount = amount;
  lending = lending;
  reads = reads;
}

-- The bound on a route's identifiers is a positive safe integer.
abbrev pub IsBound : ℕ → Type 0
IsBound n = (0 < n) × (n ≤ max_safe_integer)

module _ (same_address : Text → Text → Bool) where
  -- A property of the identifiers of all positions holds of those that a route selects.
  selected-All :
      (P : ℤ → Type 0) (positions : List LiquidityPosition) (borrower : Option Text)
      (target aggregate : ℤ) (max_route_ids : ℕ)
      → All (λ (p : LiquidityPosition). P p.id) positions
      → All P (route same_address positions borrower target aggregate max_route_ids).selected_ids
  unfolding route ranked
  selected-All P positions borrower target aggregate max_route_ids h =
      let Q : LiquidityPosition → Type 0 = λ p. P p.id in
      let open_to : LiquidityPosition → Bool =
        λ p. ltb_ℤ (pos 0) p.available_liquidity && not (owned_by same_address borrower p) in
      let usable = sort deeper_first (filter open_to positions) in
      let (n, picked, reached, end, short) = pick_lem target (pos 0) (take max_route_ids usable) in
      let kept : All Q (take n (take max_route_ids usable)) = All-take Q n _ (
        All-take Q max_route_ids _
          (All-sort Q deeper_first _ (All-filter_keep Q open_to positions h))) in
      All-sort P ltb_ℤ _ (All-ids P _ (rw picked kept))

  -- The positions that a route selects are found again.
  pub selected-found :
      (b : BorrowInputs) (projected : List LiquidityPosition) (selected : HydratedRoute)
      → found_all b.reads.positions b.reads.routing.candidate_ids ≡ some projected
      → select_hydrated_route same_address projected
          (some b.identity.account)
          b.amount
          b.reads.routing.aggregate_depth
          b.reads.routing.max_route_ids
        ≡ ok (routed selected)
      → (ps : List LiquidityPosition) × (found_all b.reads.positions selected.selected_ids
          ≡ some ps)
  selected-found b projected selected found h =
      let routing = b.reads.routing in
      let (conserved, same) =
        select_hydrated_route-routed same_address projected (some b.identity.account) b.amount
          routing.aggregate_depth routing.max_route_ids selected h in
      let there =
        selected-All (CanFind b.reads.positions) projected (some b.identity.account) b.amount
          routing.aggregate_depth routing.max_route_ids
          (found_all-CanFind b.reads.positions routing.candidate_ids projected found) in
      CanFind-found_all b.reads.positions selected.selected_ids
        (subst (λ (r : HydratedRoute). All (CanFind b.reads.positions) r.selected_ids) same there)

module _ (is_address : Text → Bool) (same_address : Text → Text → Bool) where
  -- Comparing addresses returns if the rest does.
  compared :
      (a b : Text) (rest : Result ActionBuildResult)
      → is_address a ≡ true
      → is_address b ≡ true
      → IsReturned rest
      → IsReturned (compare_addresses is_address a b rest)
  compared a b rest h k r = rw (compare_addresses-same is_address a b rest h k) r

  borrow_quoted-IsReturned :
      (b : BorrowInputs) (selected : HydratedRoute)
      → HasAddresses is_address b
      → (ps : List LiquidityPosition) × (found_all b.reads.positions selected.selected_ids
          ≡ some ps)
      → IsReturned (borrow_quoted is_address same_address b selected)
  unfolding borrow_quoted
  borrow_quoted-IsReturned b selected
        (market, account, recipient, routed_at, quoted_at, approved, _) (ps, e) =
      compared _ _ _ quoted_at market (
        refuse_if_lem refusal IsReturned stop _ _ _ _ (λ agrees.
          refuse_if_lem refusal IsReturned stop _ _ _ _ (λ fine.
            need_selected_lem IsReturned _ _
              (λ lost. absurd (let wrong : none ≡ some ps = sym lost ∙ e in cc))
              (λ qs f.
                rw
                  (compare_approved-same is_address b.reads.stream.approved_for_all
                    b.reads.stream.approved b.lending (ok (borrow_action same_address b selected _))
                    approved)
                  tt))))

  borrow_routed-IsReturned :
      (b : BorrowInputs)
      → HasAddresses is_address b
      → IsBound b.reads.routing.max_route_ids
      → IsReturned (borrow_routed is_address same_address b)
  unfolding borrow_routed
  borrow_routed-IsReturned b fine bound =
      let routing = b.reads.routing in
      let (market, account, recipient, routed_at, quoted_at, approved, placed) = fine in
      compared _ _ _ routed_at market (
        refuse_if_lem refusal IsReturned stop _ _ _ _ (λ at.
          refuse_if_lem refusal IsReturned stop _ _ _ _ (λ ids.
            refuse_if_lem refusal IsReturned stop _ _ _ _ (λ unique.
              need_lem refusal IsReturned stop _ _ _ _ (λ ps found.
                let there =
                  found_all-All (IsPlaced is_address) b.reads.positions routing.candidate_ids ps
                    placed found in
                let route_of =
                  select_hydrated_route same_address ps (some b.identity.account) b.amount
                    routing.aggregate_depth routing.max_route_ids in
                let lenders =
                  compare_lenders-same is_address ps route_of
                    (All-map {P = IsPlaced is_address} (λ p h. h.1) ps there) in
                check_ticks-address is_address same_address IsReturned stop b ps _ market
                  (All-map {P = IsPlaced is_address} (λ p h. h.0) ps there)
                  (need_route_lem IsReturned _ _
                    (λ e h. absurd (
                      select_hydrated_route-err same_address ps (some b.identity.account) b.amount
                        routing.aggregate_depth routing.max_route_ids e bound.0 bound.1
                        (sym lenders ∙ h)))
                    stop
                    (λ selected h is_open.
                      borrow_quoted-IsReturned b selected fine
                        (selected-found same_address b ps selected found (sym lenders ∙ h)))))))))

  -- The builder of a borrow returns and never throws whenever, for reads that are all fresh and a
  -- deployed lending contract, the texts that it compares are addresses, on which the comparison
  -- does not throw, and the bound on a route's identifiers is a positive safe integer. In
  -- particular the positions of a selected route are always found again.
  pub build_borrow-IsReturned :
      (parse_units : Text → ℤ) (intent : BorrowIntent) (snapshot : BorrowSnapshot)
      → ((amount : ℤ) (lending : Text) (reads : BorrowReads)
          → snapshot.market.lending ≡ some lending
          → fresh_reads snapshot ≡ some reads
          → HasAddresses is_address (inputs intent snapshot amount lending reads)
            × IsBound reads.routing.max_route_ids)
      → IsReturned (build_borrow is_address same_address parse_units intent snapshot)
  unfolding build_borrow borrow_inputs
  build_borrow-IsReturned parse_units intent snapshot given =
      need_amount_lem refusal IsReturned stop _ _ (λ amount p.
        need_lem refusal IsReturned stop _ _ _ _ (λ lending l.
          need_lem refusal IsReturned stop _ _ _ _ (λ reads r.
            let (fine, bound) = given amount lending reads l r in
            refuse_if_lem refusal IsReturned stop _ _ _ _ (λ block.
              refuse_if_lem refusal IsReturned stop _ _ _ _ (λ live.
                refuse_if_lem refusal IsReturned stop _ _ _ _ (λ at.
                  refuse_if_lem refusal IsReturned stop _ _ _ _ (λ fit.
                    compared _ _ _ fine.2 fine.1 (
                      refuse_if_lem refusal IsReturned stop _ _ _ _
                        (λ own. borrow_routed-IsReturned _ fine bound)))))))))
