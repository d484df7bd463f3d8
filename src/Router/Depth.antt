-- ===== src/Router/Depth.antt =====
-- The depth of a list of positions in web/lib/router.ts: it does not depend on the order.
use ovrflo.Prelude.{
  ℕ, zero, suc, ◌≡◌, refl, ◌∙◌, inl, inr, Bool, false, not, ◌&&◌, List, [], ◌∷◌, arith, take,
  filter, All, insert_sorted, sort_from, sort, Bool-cases,
}
use ovrflo.Prelude.Int.{ℤ, pos, ◌+ℤ◌, ◌≤ℤ◌, ltb_ℤ, int_laws}
use ovrflo.Router.{LiquidityPosition, sum_from, depth_of}

-- The depth by recursion on the list.
abbrev pub depth : List LiquidityPosition → ℤ
depth [] = pos 0
depth (p ∷ ps) = p.available_liquidity +ℤ depth ps

sum_from-depth : (acc : ℤ) (ps : List LiquidityPosition) → sum_from acc ps ≡ acc +ℤ depth ps
sum_from-depth acc [] = omega int_laws
sum_from-depth acc (p ∷ ps) = sum_from-depth (acc +ℤ p.available_liquidity) ps ∙ omega int_laws

pub depth_of-depth : (ps : List LiquidityPosition) → depth_of ps ≡ depth ps
depth_of-depth ps = sum_from-depth (pos 0) ps ∙ omega int_laws

module _ (before : LiquidityPosition → LiquidityPosition → Bool) where
  depth-insert_sorted :
      (p : LiquidityPosition) (ps : List LiquidityPosition)
      → depth (insert_sorted before p ps) ≡ p.available_liquidity +ℤ depth ps
  depth-insert_sorted p [] = refl
  depth-insert_sorted p (q ∷ ps) = elim (Bool-cases (before p q)) [
    | inl e ↦ rw e refl
    | inr e ↦ rw (e, depth-insert_sorted p ps) (omega int_laws)
  ]

  depth-sort_from :
      (acc ps : List LiquidityPosition) → depth (sort_from before acc ps) ≡ depth acc +ℤ depth ps
  unfolding sort_from
  depth-sort_from acc [] = omega int_laws
  depth-sort_from acc (p ∷ ps) =
      depth-sort_from (insert_sorted before p acc) ps
      ∙ rw (depth-insert_sorted p acc) (omega int_laws)

  pub depth-sort : (ps : List LiquidityPosition) → depth (sort before ps) ≡ depth ps
  unfolding sort
  depth-sort ps = depth-sort_from [] ps ∙ omega int_laws

abbrev pub IsNonneg : LiquidityPosition → Type 0
IsNonneg p = pos 0 ≤ℤ p.available_liquidity

pub depth_nonneg : (ps : List LiquidityPosition) → All IsNonneg ps → pos 0 ≤ℤ depth ps
depth_nonneg [] h = omega arith
depth_nonneg (p ∷ ps) h = omega (int_laws, depth_nonneg ps h.1)

none_available :
    (p : LiquidityPosition)
    → IsNonneg p
    → ltb_ℤ (pos 0) p.available_liquidity ≡ false
    → p.available_liquidity ≤ℤ pos 0
none_available p h f = ground arith

-- A list of depths that are not negative is split by ownership.
module _ (owned : LiquidityPosition → Bool) where
  pub depth-split :
      (ps : List LiquidityPosition)
      → All IsNonneg ps
      → depth ps
        ≡ depth (filter owned ps)
          +ℤ depth (filter (λ p. ltb_ℤ (pos 0) p.available_liquidity && not (owned p)) ps)
  depth-split [] h = omega int_laws
  depth-split (p ∷ ps) h = rw (depth-split ps h.1) (elim (Bool-cases (owned p)) [
    | inl e ↦ elim (Bool-cases (ltb_ℤ (pos 0) p.available_liquidity)) [
      | inl f ↦ rw (e, f) (omega int_laws)
      | inr f ↦ rw (e, f) (omega int_laws)
    ]
    | inr e ↦ elim (Bool-cases (ltb_ℤ (pos 0) p.available_liquidity)) [
      | inl f ↦ rw (e, f) (omega int_laws)
      | inr f ↦ rw (e, f) (omega (int_laws, none_available p h.0 f))
    ]
  ])

pub depth-take-le :
    (n : ℕ) (ps : List LiquidityPosition) → All IsNonneg ps → depth (take n ps) ≤ℤ depth ps
depth-take-le zero ps h = omega (int_laws, depth_nonneg ps h)
depth-take-le (suc n) [] h = omega arith
depth-take-le (suc n) (p ∷ ps) h = omega (int_laws, depth-take-le n ps h.1)
