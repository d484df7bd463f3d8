-- ===== src/Router/Route.antt =====
-- `selectHydratedRoute` of web/lib/router.ts: what the route promises.
use ovrflo.Prelude.{
  ℕ, zero, suc, ◌≡◌, ◌≢◌, ◌↔◌, ◌≤◌, ◌<◌, refl, ◌∙◌, sym, ap, subst, ◌⊎◌, inl, inr, Bool, true,
  false, not, ◌&&◌, ◌||◌, ltb, Option, List, [], ◌∷◌, map, arith, take, length, length-take,
  take-take, filter, All, All-filter, sort, Bool-cases, leb,
}
use ovrflo.Prelude.Int.{ℤ, pos, ◌+ℤ◌, ◌-ℤ◌, ◌≤ℤ◌, ◌<ℤ◌, ltb_ℤ, leb_ℤ, eqb_ℤ, eq_of_parts, int_laws}
use ovrflo.Prelude.Sorting.{All-take, All-sort}
use ovrflo.Prelude.Errors.{Error, ok, err}
use ovrflo.Prelude.Text.{Text}
use ovrflo.Router.{
  LiquidityPosition, HydratedRoute, routed, is_ready, max_safe_integer, select_hydrated_route,
  sum_from, depth_of, owned_by, deeper_first, pick, ranked, route, route_status,
}
use ovrflo.Router.Depth.{depth_of-depth, depth-sort, depth-split, depth-take-le, IsNonneg}

short_suc :
    (target start : ℤ) (p : LiquidityPosition) (ps : List LiquidityPosition) (n : ℕ)
    → start <ℤ target
    → ((k : ℕ) → k < n → sum_from (start +ℤ p.available_liquidity) (take k ps) <ℤ target)
    → (k : ℕ) → k < suc n
    → sum_from start (take k (p ∷ ps)) <ℤ target
short_suc target start p ps n e short zero h = e
short_suc target start p ps n e short (suc k) h = short k (omega arith)

-- The picked positions are the shortest beginning of the list that reaches the target, or all.
pub pick_lem :
    (target start : ℤ) (ps : List LiquidityPosition)
    → (n : ℕ) × ((pick target start ps).0 ≡ take n ps)
      × ((pick target start ps).1 ≡ sum_from start (take n ps))
      × ((target ≤ℤ (pick target start ps).1) ⊎ (take n ps ≡ ps))
      × ((k : ℕ) → k < n → sum_from start (take k ps) <ℤ target)
unfolding pick
pick_lem target start [] = (0, refl, refl, inr refl, λ k h. absurd (omega arith))
pick_lem target start (p ∷ ps) = elim (Bool-cases (leb_ℤ target start)) [
  | inl e ↦ (0, rw e refl, rw e refl, rw e (inl (ground arith)), λ k h. absurd (omega arith))
  | inr e ↦
      let (n, picked, reached, end, short) = pick_lem target (start +ℤ p.available_liquidity) ps in
      let over : (target ≤ℤ (pick target start (p ∷ ps)).1) ⊎ (take (suc n) (p ∷ ps) ≡ p ∷ ps) =
        rw e (elim end [ inl g ↦ inl g | inr g ↦ inr (ap (λ r. p ∷ r) g) ]) in
      (
        suc n,
        rw (e, picked) refl,
        rw (e, reached) refl,
        over,
        short_suc target start p ps n (ground arith) short,
      )
]

route_status-is_ready :
    (depth target fragmented : ℤ)
    → (route_status depth target fragmented ≡ is_ready) ↔ (target ≤ℤ depth)
route_status-is_ready d t f = ground arith

module _ (same_address : Text → Text → Bool) (positions : List LiquidityPosition)
    (borrower : Option Text) where
  -- The position can be drawn on by the borrower.
  abbrev pub CanDraw : LiquidityPosition → Type 0
  CanDraw p = (pos 0 <ℤ p.available_liquidity) × (owned_by same_address borrower p ≡ false)

  All-CanDraw :
      (ps : List LiquidityPosition)
      → All
          (λ p.
            (ltb_ℤ (pos 0) p.available_liquidity && not (owned_by same_address borrower p)) ≡ true)
          ps
      → All CanDraw ps
  All-CanDraw [] h = tt
  All-CanDraw (p ∷ ps) h = (ground (arith, h.0), All-CanDraw ps h.1)

  pub ranked-CanDraw : All CanDraw (ranked same_address positions borrower)
  unfolding ranked
  ranked-CanDraw = All-sort CanDraw deeper_first _ (
      All-CanDraw _ (
        All-filter
          (λ p. ltb_ℤ (pos 0) p.available_liquidity && not (owned_by same_address borrower p))
          positions))

  -- The depth of all positions is the borrower's own with the depth of the ranked.
  depth-ranked :
      All IsNonneg positions
      → depth_of positions
        ≡ depth_of (filter (owned_by same_address borrower) positions)
          +ℤ depth_of (ranked same_address positions borrower)
  unfolding ranked
  depth-ranked h =
      rw
        (
          depth_of-depth positions,
          depth-split (owned_by same_address borrower) positions h,
          depth_of-depth (filter (owned_by same_address borrower) positions),
          depth_of-depth (
              sort deeper_first (
                filter
                  (λ p.
                    ltb_ℤ (pos 0) p.available_liquidity && not (owned_by same_address borrower p))
                  positions)),
          depth-sort deeper_first (
              filter
                (λ p. ltb_ℤ (pos 0) p.available_liquidity && not (owned_by same_address borrower p))
                positions),
        )
        refl

  CanDraw-IsNonneg : (ps : List LiquidityPosition) → All CanDraw ps → All IsNonneg ps
  CanDraw-IsNonneg [] h = tt
  CanDraw-IsNonneg (p ∷ ps) h = (omega (arith, h.0.0), CanDraw-IsNonneg ps h.1)

  depth_of-take-le :
      (n : ℕ)
      → depth_of (take n (ranked same_address positions borrower))
        ≤ℤ depth_of (ranked same_address positions borrower)
  depth_of-take-le n =
      rw
        (
          depth_of-depth (ranked same_address positions borrower),
          depth_of-depth (take n (ranked same_address positions borrower)),
        )
        (depth-take-le n _ (CanDraw-IsNonneg _ ranked-CanDraw))

  module _ (target aggregate : ℤ) (max_route_ids : ℕ) where
    -- What `selectHydratedRoute` promises of the route that it returns.
    abbrev pub IsRoute : HydratedRoute → Type 0
    IsRoute r =
        (sel : List LiquidityPosition) × All CanDraw sel
        × (length sel ≤ max_route_ids)
        × (r.selected_ids ≡ sort ltb_ℤ (map (λ (p : LiquidityPosition). p.id) sel))
        × (r.selected_depth ≡ depth_of sel)
        × ((r.status ≡ is_ready) ↔ (target ≤ℤ r.selected_depth))
        × ((r.status ≡ is_ready) ⊎ (r.selected_depth ≡ r.executable_depth))
        × ((k : ℕ) → k < length sel → depth_of (take k sel) <ℤ target)
        × (r.public_depth ≡ r.executable_depth +ℤ r.fragmented_depth +ℤ r.self_excluded_depth)
        × (pos 0 ≤ℤ r.fragmented_depth)

    route-IsRoute :
        depth_of positions ≡ aggregate
        → All IsNonneg positions
        → IsRoute (route same_address positions borrower target aggregate max_route_ids)
    unfolding route
    route-IsRoute same nonneg =
        let usable = ranked same_address positions borrower in
        let bounded = take max_route_ids usable in
        let (n, picked, reached, end, short) = pick_lem target (pos 0) bounded in
        let sum = depth-ranked nonneg in
        let len = length-take n bounded in
        let len2 = length-take max_route_ids usable in
        (
          take n bounded,
          All-take CanDraw n _ (All-take CanDraw max_route_ids _ ranked-CanDraw),
          omega (arith, len, len2),
          rw picked refl,
          reached,
          route_status-is_ready (pick target (pos 0) bounded).1 target
              (depth_of usable -ℤ depth_of bounded),
          elim end [
            | inl g ↦ inl (
                (route_status-is_ready (pick target (pos 0) bounded).1 target
                    (depth_of usable -ℤ depth_of bounded)).1
                  g)
            | inr g ↦ inr (reached ∙ ap depth_of g)
          ],
          λ k h. rw (take-take k n bounded (omega (arith, len))) (short k (omega (arith, len))),
          sym same ∙ sum ∙ omega int_laws,
          omega (int_laws, depth_of-take-le max_route_ids),
        )

    -- A route that is returned is the one of conserved depths.
    pub select_hydrated_route-routed :
        (r : HydratedRoute)
        → select_hydrated_route same_address positions borrower target aggregate max_route_ids
          ≡ ok (routed r)
        → (depth_of positions ≡ aggregate)
          × (route same_address positions borrower target aggregate max_route_ids ≡ r)
    unfolding select_hydrated_route
    select_hydrated_route-routed r =
        elim (Bool-cases (leb max_route_ids 0 || ltb max_safe_integer max_route_ids)) [
          | inl e ↦ rw e (λ h. absurd (cc))
          | inr e ↦ elim (Bool-cases (eqb_ℤ (depth_of positions) aggregate)) [
            | inr f ↦ rw (e, f) (λ h. absurd (cc))
            | inl f ↦
                rw (e, f) (λ h. (ground (arith, eq_of_parts (depth_of positions) aggregate), cc))
          ]
        ]

    -- Whatever route is returned is as promised, for depths that are not negative.
    pub select_hydrated_route-IsRoute :
        (r : HydratedRoute)
        → All IsNonneg positions
        → select_hydrated_route same_address positions borrower target aggregate max_route_ids
          ≡ ok (routed r)
        → IsRoute r
    select_hydrated_route-IsRoute r nonneg h =
        let (conserved, same) = select_hydrated_route-routed r h in
        subst IsRoute same (route-IsRoute conserved nonneg)

    -- A bound that is a positive safe integer is never refused.
    pub select_hydrated_route-err :
        (e : Error)
        → 0 < max_route_ids
        → max_route_ids ≤ max_safe_integer
        → select_hydrated_route same_address positions borrower target aggregate max_route_ids
          ≢ err e
    unfolding select_hydrated_route
    select_hydrated_route-err e lo hi =
        let small : (leb max_route_ids 0 || ltb max_safe_integer max_route_ids) ≡ false =
          ground arith in
        elim (Bool-cases (eqb_ℤ (depth_of positions) aggregate)) [
          | inl f ↦ rw (small, f) (λ h. absurd (cc))
          | inr f ↦ rw (small, f) (λ h. absurd (cc))
        ]
