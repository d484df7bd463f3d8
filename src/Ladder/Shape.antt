-- ===== src/Ladder/Shape.antt =====
-- `shapeLadder` of web/lib/ladder.ts: which rungs can be picked, and which is the deepest.
use ovrflo.Prelude.{
  ℕ, suc, ◌≤◌, ◌≡◌, refl, ◌⊎◌, inl, inr, Option, none, some, List, [], ◌∷◌, arith, get_elem?,
  filter, All, Bool-cases,
}
use ovrflo.Prelude.Int.{ℤ, pos, ◌≤ℤ◌, ◌<ℤ◌, ltb_ℤ}
use ovrflo.Prelude.Errors.{Returns, Returns-witness}
use ovrflo.Units.{tick_bps}
use ovrflo.LendingMath.{units_to_wei}
use ovrflo.Ladder.{
  TickDepthInput, ShapedRung, pickable, rung_kind, is_pickable, shape_rung, shape_rungs, deepest,
  shape_ladder,
}

-- What `shapeLadder` promises of each rung for its input.
abbrev pub IsShaped : ℤ → ℤ → List TickDepthInput → List ShapedRung → Type 0
IsShaped unit min_liquidity [] [] = Unit
IsShaped unit min_liquidity [] (r ∷ rs) = ⊥
IsShaped unit min_liquidity (d ∷ ds) [] = ⊥
IsShaped unit min_liquidity (d ∷ ds) (r ∷ rs) =
    (r.apr_bps ≡ d.apr_bps)
    × (r.available_wei ≡ units_to_wei d.available_units unit)
    × (r.kind ≡ rung_kind r.available_wei min_liquidity)
    × IsShaped unit min_liquidity ds rs

-- The input has ticks that fit 16 bits.
abbrev pub HasTicks : List TickDepthInput → Type 0
HasTicks = All (λ d. d.apr_bps ≤ 65_535)

shape_rungs-IsShaped :
    (unit min_liquidity : ℤ) (ds : List TickDepthInput)
    → HasTicks ds
    → Returns (shape_rungs unit min_liquidity ds) (IsShaped unit min_liquidity ds)
unfolding shape_rungs shape_rung tick_bps
shape_rungs-IsShaped unit m [] h = tt
shape_rungs-IsShaped unit m (d ∷ ds) h = ground (arith, shape_rungs-IsShaped unit m ds h.1)

abbrev pub IsPickable : ℤ → ShapedRung → Type 0
IsPickable min_liquidity r = (pos 0 <ℤ r.available_wei) × (min_liquidity ≤ℤ r.available_wei)

pickable_bounds : (wei m : ℤ) → rung_kind wei m ≡ pickable → (pos 0 <ℤ wei) × (m ≤ℤ wei)
unfolding rung_kind
pickable_bounds wei m h = ground arith

pickables-IsPickable :
    (unit m : ℤ) (ds : List TickDepthInput) (rs : List ShapedRung)
    → IsShaped unit m ds rs
    → All (IsPickable m) (filter is_pickable rs)
pickables-IsPickable unit m [] [] h = tt
pickables-IsPickable unit m [] (r ∷ rs) h = absurd h
pickables-IsPickable unit m (d ∷ ds) [] h = absurd h
pickables-IsPickable unit m (d ∷ ds) (r ∷ rs) h =
    ground (arith, pickables-IsPickable unit m ds rs h.3, pickable_bounds r.available_wei m)

-- The rung is the deepest of the list, and stands in it.
abbrev pub IsDeepest : List ShapedRung → Option ShapedRung → Type 0
IsDeepest rs none = rs ≡ []
IsDeepest rs (some b) =
    (All (λ r. r.available_wei ≤ℤ b.available_wei) rs) × (i : ℕ) × (get_elem? rs i ≡ some b)

deepest_from :
    (b : ShapedRung) (rs : List ShapedRung)
    → (c : ShapedRung) × (deepest (some b) rs ≡ some c)
      × (b.available_wei ≤ℤ c.available_wei)
      × (All (λ r. r.available_wei ≤ℤ c.available_wei) rs)
      × ((b ≡ c) ⊎ ((i : ℕ) × (get_elem? rs i ≡ some c)))
unfolding deepest
deepest_from b [] = (b, refl, omega arith, tt, inl refl)
deepest_from b (r ∷ rs) = elim (Bool-cases (ltb_ℤ b.available_wei r.available_wei)) [
  | inl deeper ↦
      let (c, e, le, all, at) = deepest_from r rs in
      (
        c,
        rw deeper e,
        ground arith,
        (le, all),
        elim at [ inl same ↦ inr (0, ground arith) | inr (i, g) ↦ inr (suc i, g) ],
      )
  | inr not_deeper ↦
      let (c, e, le, all, at) = deepest_from b rs in
      (
        c,
        rw not_deeper e,
        le,
        (ground arith, all),
        elim at [ inl same ↦ inl same | inr (i, g) ↦ inr (suc i, g) ],
      )
]

deepest-IsDeepest : (rs : List ShapedRung) → IsDeepest rs (deepest none rs)
unfolding deepest
deepest-IsDeepest [] = refl
deepest-IsDeepest (r ∷ rs) =
    let (c, e, le, all, at) = deepest_from r rs in
    let place : (i : ℕ) × (get_elem? (r ∷ rs) i ≡ some c) = elim at [
      | inl same ↦ (0, ground arith)
      | inr (i, g) ↦ (suc i, g)
    ] in
    rw e ((le, all), place.0, place.1)

-- With ticks that fit 16 bits the ladder is built. It has a rung for each input, in order, with
-- its tick, its depth in wei and the kind that the depth has; every pickable rung holds a
-- positive amount and at least the minimum; and the best depth is the deepest pickable rung, or
-- nothing if there is none.
pub shape_ladder_lem :
    (depths : List TickDepthInput) (unit min_liquidity : ℤ)
    → HasTicks depths
    → Returns (shape_ladder depths unit min_liquidity) (λ m.
      IsShaped unit min_liquidity depths m.rungs
      × (m.pickables ≡ filter is_pickable m.rungs)
      × All (IsPickable min_liquidity) m.pickables
      × IsDeepest m.pickables m.best_depth)
unfolding shape_ladder
shape_ladder_lem depths unit m h =
    let (rs, e, shaped) =
      Returns-witness (shape_rungs unit m depths) (shape_rungs-IsShaped unit m depths h) in
    rw e (
      shaped,
      refl,
      pickables-IsPickable unit m depths rs shaped,
      deepest-IsDeepest (filter is_pickable rs),
    )
