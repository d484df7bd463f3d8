-- ===== src/Action/Built/Addresses.antt =====
-- The comparisons of addresses in web/lib/actions/borrow.ts: what holds where they do not throw, and
-- that they do not throw on addresses.
use ovrflo.Prelude.{
  ◌≡◌, refl, inl, inr, Bool, true, false, ◌&&◌, Option, none, some, List, [], ◌∷◌, All, Bool-cases,
}
use ovrflo.Prelude.Text.{Text}
use ovrflo.Prelude.Errors.{Result, ok, err, invalid_address}
use ovrflo.Router.{
  LiquidityPosition, HydratedRouteResult, HydratedRoute, routed, conservation_failed,
}
use ovrflo.Action.{ActionError, ActionBuildResult}
use ovrflo.Action.Steps.{refuse_if_lem}
use ovrflo.Action.Borrow.{
  BorrowInputs, refusal, compare_addresses, are_addresses, compare_lenders, compare_approved,
  off_tick, check_ticks,
}

module _ (is_address : Text → Bool) where
  pub compare_addresses_lem :
      (Q : Result ActionBuildResult → Type 0) (a b : Text) (rest : Result ActionBuildResult)
      → ((is_address a && is_address b) ≡ false → Q (err invalid_address))
      → ((is_address a && is_address b) ≡ true → Q rest)
      → Q (compare_addresses is_address a b rest)
  unfolding compare_addresses
  compare_addresses_lem Q a b rest thrown k = elim (Bool-cases (is_address a && is_address b)) [
    | inl e ↦ rw e (k e)
    | inr e ↦ rw e (thrown e)
  ]

  -- An address that the approval is compared by.
  abbrev pub IsComparable : Bool → Option Text → Text → Type 0
  IsComparable true approved spender = Unit
  IsComparable false none spender = Unit
  IsComparable false (some a) spender = (is_address a ≡ true) × (is_address spender ≡ true)

  -- Both texts of a position are addresses.
  abbrev pub IsPlaced : LiquidityPosition → Type 0
  IsPlaced p = (is_address p.market ≡ true) × (is_address p.lender ≡ true)

  -- Every text that a borrow compares is an address.
  abbrev pub HasAddresses : BorrowInputs → Type 0
  HasAddresses b =
      (is_address b.market.market ≡ true)
      × (is_address b.identity.account ≡ true)
      × (is_address b.reads.stream.recipient ≡ true)
      × (is_address b.reads.routing.market ≡ true)
      × (is_address b.reads.quote.market ≡ true)
      × IsComparable b.reads.stream.approved_for_all b.reads.stream.approved b.lending
      × All IsPlaced b.reads.positions

  pub compare_approved_lem :
      (Q : Result ActionBuildResult → Type 0) (all : Bool) (approved : Option Text) (spender : Text)
      (rest : Result ActionBuildResult)
      → Q (err invalid_address)
      → Q rest
      → Q (compare_approved is_address all approved spender rest)
  unfolding compare_approved
  compare_approved_lem Q true approved spender rest thrown k = k
  compare_approved_lem Q false none spender rest thrown k = k
  compare_approved_lem Q false (some a) spender rest thrown k =
      compare_addresses_lem Q a spender rest (λ _. thrown) (λ _. k)

  pub compare_addresses-same :
      (a b : Text) (rest : Result ActionBuildResult)
      → is_address a ≡ true
      → is_address b ≡ true
      → compare_addresses is_address a b rest ≡ rest
  unfolding compare_addresses
  compare_addresses-same a b rest h k = rw (h, k) refl

  pub compare_approved-same :
      (all : Bool) (approved : Option Text) (spender : Text) (rest : Result ActionBuildResult)
      → IsComparable all approved spender
      → compare_approved is_address all approved spender rest ≡ rest
  unfolding compare_approved
  compare_approved-same true approved spender rest h = refl
  compare_approved-same false none spender rest h = refl
  compare_approved-same false (some a) spender rest h =
      compare_addresses-same a spender rest h.0 h.1

  -- A selection is the route's own where the lenders are compared without a throw.
  pub compare_lenders-routed :
      (ps : List LiquidityPosition) (found : Result HydratedRouteResult) (r : HydratedRoute)
      → compare_lenders is_address ps found ≡ ok (routed r)
      → found ≡ ok (routed r)
  unfolding compare_lenders
  compare_lenders-routed ps (err e) r = λ h. h
  compare_lenders-routed ps (ok (conservation_failed a b)) r = λ h. h
  compare_lenders-routed ps (ok (routed q)) r = elim (Bool-cases (are_addresses is_address ps)) [
    | inl e ↦ rw e (λ h. h)
    | inr e ↦ rw e (λ h. absurd (cc))
  ]

  are_addresses-true :
      (ps : List LiquidityPosition)
      → All (λ (p : LiquidityPosition). is_address p.lender ≡ true) ps
      → are_addresses is_address ps ≡ true
  unfolding are_addresses
  are_addresses-true [] h = refl
  are_addresses-true (p ∷ ps) h = rw (h.0, are_addresses-true ps h.1) refl

  pub compare_lenders-same :
      (ps : List LiquidityPosition) (found : Result HydratedRouteResult)
      → All (λ (p : LiquidityPosition). is_address p.lender ≡ true) ps
      → compare_lenders is_address ps found ≡ found
  unfolding compare_lenders
  compare_lenders-same ps (err e) h = refl
  compare_lenders-same ps (ok (conservation_failed a b)) h = refl
  compare_lenders-same ps (ok (routed r)) h = rw (are_addresses-true ps h) refl

  module _ (same_address : Text → Text → Bool) where
    abbrev IsOn : BorrowInputs → LiquidityPosition → Type 0
    IsOn b p = off_tick same_address b p ≡ false

    pub check_ticks_lem :
        (Q : Result ActionBuildResult → Type 0)
        → Q (err invalid_address)
        → ((errors : List ActionError) → Q (refusal errors))
        → (b : BorrowInputs) (ps : List LiquidityPosition) (rest : Result ActionBuildResult)
        → (All (IsOn b) ps → Q rest)
        → Q (check_ticks is_address same_address b ps rest)
    unfolding check_ticks
    check_ticks_lem Q thrown stop b [] rest k = k tt
    check_ticks_lem Q thrown stop b (p ∷ ps) rest k =
        compare_addresses_lem Q p.market b.market.market _ (λ _. thrown)
          (λ _.
            refuse_if_lem refusal Q stop _ _ _ _
              (λ here. check_ticks_lem Q thrown stop b ps rest (λ later. k (here, later))))

    -- On addresses a check of the ticks refuses or goes on.
    pub check_ticks-address :
        (Q : Result ActionBuildResult → Type 0)
        → ((errors : List ActionError) → Q (refusal errors))
        → (b : BorrowInputs) (ps : List LiquidityPosition) (rest : Result ActionBuildResult)
        → is_address b.market.market ≡ true
        → All (λ (p : LiquidityPosition). is_address p.market ≡ true) ps
        → Q rest
        → Q (check_ticks is_address same_address b ps rest)
    unfolding check_ticks
    check_ticks-address Q stop b [] rest market h k = k
    check_ticks-address Q stop b (p ∷ ps) rest market h k =
        rw (compare_addresses-same p.market b.market.market _ h.0 market) (
          refuse_if_lem refusal Q stop _ _ _ _
            (λ _. check_ticks-address Q stop b ps rest market h.1 k))
