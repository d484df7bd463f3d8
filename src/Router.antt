-- ===== src/Router.antt =====
-- web/lib/router.ts: the ladder of public depth, and the route through hydrated positions. viem's
-- `isAddressEqual` is the parameter `same_address`.
pub mod Depth
pub mod Route
pub mod Built
use ovrflo.Prelude.{
  ℕ, suc, ◌+◌, ◌-◌, ◌^◌, Bool, true, false, not, ◌&&◌, ◌||◌, Option, none, some, List, [], ◌∷◌, map,
  ltb, leb, ◌==◌, if◌then◌else◌, filter, take, sort,
}
use ovrflo.Prelude.Int.{ℤ, pos, pos_part, neg_part, ◌+ℤ◌, ◌-ℤ◌, ltb_ℤ, leb_ℤ, eqb_ℤ}
use ovrflo.Prelude.Errors.{Result, ok, err, route_bound}
use ovrflo.Prelude.Text.{Text}

pub record LiquidityPosition : Type 0 where
  pub id : ℤ
  pub lender : Text
  pub market : Text
  pub apr_bps : ℕ
  pub available_liquidity : ℤ

pub record TickDepth : Type 0 where
  pub apr_bps : ℕ
  pub total : ℤ
  pub own : ℤ
  pub positions : List LiquidityPosition

pub data RouteStatus : Type 0 where
  is_ready insufficient fragmented : RouteStatus

pub record HydratedRoute : Type 0 where
  pub status : RouteStatus
  pub public_depth : ℤ
  pub executable_depth : ℤ
  pub fragmented_depth : ℤ
  pub self_excluded_depth : ℤ
  pub selected_depth : ℤ
  pub selected_ids : List ℤ

pub data HydratedRouteResult : Type 0 where
  conservation_failed : ℤ → ℤ → HydratedRouteResult
  routed : HydratedRoute → HydratedRouteResult

abbrev pub id_before : LiquidityPosition → LiquidityPosition → Bool
id_before a b = ltb_ℤ a.id b.id

-- The comparison of `selectHydratedRoute`: the deeper first, and the lower id among equals.
abbrev pub deeper_first : LiquidityPosition → LiquidityPosition → Bool
deeper_first a b =
    ltb_ℤ b.available_liquidity a.available_liquidity
    || eqb_ℤ a.available_liquidity b.available_liquidity && ltb_ℤ a.id b.id

-- `positions.reduce((sum, position) => sum + position.availableLiquidity, start)`
abbrev pub sum_from : ℤ → List LiquidityPosition → ℤ
sum_from acc [] = acc
sum_from acc (p ∷ ps) = sum_from (acc +ℤ p.available_liquidity) ps

abbrev pub depth_of : List LiquidityPosition → ℤ
depth_of ps = sum_from (pos 0) ps

-- The loop that picks positions until the target is reached: what it picks, and their depth.
unfoldable pub pick : ℤ → ℤ → List LiquidityPosition → List LiquidityPosition × ℤ
pick target depth [] = ([], depth)
pick target depth (p ∷ ps) =
    let rest = pick target (depth +ℤ p.available_liquidity) ps in
    if leb_ℤ target depth then ([], depth) else (p ∷ rest.0, rest.1)

-- `Number.MAX_SAFE_INTEGER`
abbrev pub max_safe_integer : ℕ
max_safe_integer = 2 ^ 53 - 1

abbrev pub route_status : ℤ → ℤ → ℤ → RouteStatus
route_status selected_depth target fragmented_depth =
    if leb_ℤ target selected_depth
    then is_ready
    else if ltb_ℤ (pos 0) fragmented_depth
    then fragmented
    else insufficient

module _ (same_address : Text → Text → Bool) where
  -- `self && isAddressEqual(p.lender, self)`
  abbrev pub owned_by : Option Text → LiquidityPosition → Bool
  owned_by none p = false
  owned_by (some a) p = same_address p.lender a

  abbrev pub is_open : Text → LiquidityPosition → Bool
  is_open market p = same_address p.market market && ltb_ℤ (pos 0) p.available_liquidity

  -- The loop of `buildLadder` over the positions of a tick: the depth of others, and one's own.
  unfoldable pub split_from : Option Text → ℤ → ℤ → List LiquidityPosition → ℤ × ℤ
  split_from self total own [] = (total, own)
  split_from self total own (p ∷ ps) =
      split_from self (if owned_by self p then total else total +ℤ p.available_liquidity)
        (if owned_by self p then own +ℤ p.available_liquidity else own) ps

  -- The body of the `map` in `buildLadder`.
  unfoldable pub tick_depth : List LiquidityPosition → Option Text → ℕ → TickDepth
  tick_depth opened self apr_bps =
      let at_tick = filter (λ p. p.apr_bps == apr_bps) opened in
      let (total, own) = split_from self (pos 0) (pos 0) at_tick in
      record { apr_bps = apr_bps; total = total; own = own; positions = at_tick }

  unfoldable pub build_ladder :
      List LiquidityPosition → Text → List ℕ → Option Text → List TickDepth
  build_ladder positions market ticks self =
      map (tick_depth (sort id_before (filter (is_open market) positions)) self) (sort ltb ticks)

  -- The positions that a borrower can draw on, deepest first.
  unfoldable pub ranked : List LiquidityPosition → Option Text → List LiquidityPosition
  ranked positions borrower =
      sort deeper_first
        (filter (λ p. ltb_ℤ (pos 0) p.available_liquidity && not (owned_by borrower p)) positions)

  -- `selectHydratedRoute` after its two checks.
  unfoldable pub route : List LiquidityPosition → Option Text → ℤ → ℤ → ℕ → HydratedRoute
  route positions borrower target aggregate_depth max_route_ids =
      let usable = ranked positions borrower in
      let bounded = take max_route_ids usable in
      let executable = depth_of bounded in
      let fragmented_depth = depth_of usable -ℤ executable in
      let (selected, selected_depth) = pick target (pos 0) bounded in
      record {
        status = route_status selected_depth target fragmented_depth;
        public_depth = aggregate_depth;
        executable_depth = executable;
        fragmented_depth = fragmented_depth;
        self_excluded_depth = depth_of (filter (owned_by borrower) positions);
        selected_depth = selected_depth;
        selected_ids = sort ltb_ℤ (map (λ (p : LiquidityPosition). p.id) selected);
      }

  unfoldable pub select_hydrated_route :
      List LiquidityPosition → Option Text → ℤ → ℤ → ℕ → Result HydratedRouteResult
  select_hydrated_route positions borrower target aggregate_depth max_route_ids =
      let projected_depth = depth_of positions in
      if leb max_route_ids 0 || ltb max_safe_integer max_route_ids
      then err route_bound
      else if eqb_ℤ projected_depth aggregate_depth
      then ok (routed (route positions borrower target aggregate_depth max_route_ids))
      else ok (conservation_failed projected_depth aggregate_depth)
