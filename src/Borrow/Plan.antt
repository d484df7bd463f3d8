-- ===== src/Borrow/Plan.antt =====
-- web/lib/borrow.ts: what the selected tick and the plan are.
use ovrflo.Prelude.{
  ℕ, ◌≡◌, ◌≤◌, ◌↔◌, ◌⊎◌, ◌≢◌, refl, sym, ap, subst, ◌∙◌, length, inl, inr, Bool, true, false,
  Option, none, some, List, [], ◌∷◌, arith, ==_iff, ◌==◌, filter, find, any, sort, All, All-filter,
  Bool-cases,
}
use ovrflo.Prelude.Int.{ℤ, pos, ◌≤ℤ◌, ◌<ℤ◌, ltb_ℤ, leb_ℤ}
use ovrflo.Prelude.Sorting.{
  All-both, All-map, any-found, any-false-All, All-sort, All-of-sort, length-sort, All-filter_keep,
  Ascends, Ascends-sort, Occurs, All-Occurs,
}
use ovrflo.Router.{TickDepth}
use ovrflo.Borrow.{
  is_liquid, by_rate, first_rate, resolve_selected_tick, total_of, is_covering,
  plan_selected_borrow,
}

All-never : (ts : List TickDepth) → All (λ t. none ≢ some t.apr_bps) ts
All-never [] = tt
All-never (t ∷ ts) = (λ e. cc, All-never ts)

-- The rate is the lowest among the ticks of the ladder that pass the test, and one of them has it.
abbrev pub IsLowest : (TickDepth → Bool) → List TickDepth → ℕ → Type 0
IsLowest p ladder a =
    ((t : TickDepth) × Occurs t ladder × (p t ≡ true) × (t.apr_bps ≡ a))
    × All (λ t. a ≤ t.apr_bps) (filter p ladder)

-- No tick of the ladder passes, or the rate is the lowest of those.
abbrev pub Lowest : (TickDepth → Bool) → List TickDepth → Option ℕ → Type 0
Lowest p ladder none = filter p ladder ≡ []
Lowest p ladder (some a) = IsLowest p ladder a

no_entry {ℓ} : {A : Type ℓ} (xs : List A) → length xs ≡ 0 → xs ≡ []
no_entry [] h = refl
no_entry (x ∷ xs) h = absurd (omega (arith, h))

module _ (p : TickDepth → Bool) (ladder : List TickDepth) where
  passing-Occurs : All (λ t. Occurs t ladder × (p t ≡ true)) (filter p ladder)
  passing-Occurs =
      All-both _ _ _ (All-filter_keep (λ t. Occurs t ladder) p ladder (All-Occurs ladder))
        (All-filter p ladder)

  first_rate_lem :
      (sorted : List TickDepth)
      → sort by_rate (filter p ladder) ≡ sorted
      → Lowest p ladder (first_rate sorted)
  first_rate_lem [] e =
      no_entry (filter p ladder) (sym (length-sort by_rate (filter p ladder)) ∙ ap length e)
  first_rate_lem (t ∷ ts) e =
      let ordered : Ascends (λ (t : TickDepth). t.apr_bps) (t ∷ ts) =
        subst (Ascends (λ (t : TickDepth). t.apr_bps)) e
          (Ascends-sort (λ (t : TickDepth). t.apr_bps) (filter p ladder)) in
      let found : Occurs t ladder × (p t ≡ true) =
        (subst (All (λ t. Occurs t ladder × (p t ≡ true))) e
          (All-sort _ by_rate _ passing-Occurs)).0 in
      (
        (t, found.0, found.1, refl),
        All-of-sort (λ (u : TickDepth). t.apr_bps ≤ u.apr_bps) by_rate (filter p ladder)
            (subst (All (λ (u : TickDepth). t.apr_bps ≤ u.apr_bps)) (sym e)
              (omega arith, ordered.0)),
      )

other_rate : (t : TickDepth) (a : ℕ) → (t.apr_bps == a) ≡ false → some a ≢ some t.apr_bps
other_rate t a g h = ground arith

-- The rate stays selected when a liquid tick has it. Otherwise no liquid tick has the selected rate,
-- and the result is the lowest rate of the liquid ticks, or none when no tick is liquid.
pub resolve_selected_tick_lem :
    (ladder : List TickDepth) (selected : Option ℕ)
    → ((t : TickDepth) × Occurs t ladder
        × (pos 0 <ℤ t.total)
        × (selected ≡ some t.apr_bps)
        × (resolve_selected_tick ladder selected ≡ selected))
      ⊎ (All (λ t. selected ≢ some t.apr_bps) (filter is_liquid ladder)
          × Lowest is_liquid ladder (resolve_selected_tick ladder selected))
unfolding resolve_selected_tick
resolve_selected_tick_lem ladder none = inr (All-never _, first_rate_lem is_liquid ladder _ refl)
resolve_selected_tick_lem ladder (some a) =
    let liquid = sort by_rate (filter is_liquid ladder) in
    elim (Bool-cases (any (λ t. t.apr_bps == a) liquid)) [
      | inl e ↦
          let (t, same, standing) =
            any-found (λ (t : TickDepth). t.apr_bps == a) _ liquid
              (All-sort _ by_rate _ (passing-Occurs is_liquid ladder)) e in
          rw e (
            inl (
              t,
              standing.0,
              ground (arith, standing.1),
              ap some (sym ((==_iff t.apr_bps a).0 same)),
              refl,
            ))
      | inr e ↦ rw e (
          inr (
            All-of-sort (λ (t : TickDepth). some a ≢ some t.apr_bps) by_rate
                (filter is_liquid ladder)
                (All-map {P = λ (t : TickDepth). (t.apr_bps == a) ≡ false}
                  {Q = λ (t : TickDepth). some a ≢ some t.apr_bps} (λ t g h. other_rate t a g h)
                  liquid (any-false-All (λ (t : TickDepth). t.apr_bps == a) liquid e)),
            first_rate_lem is_liquid ladder _ refl,
          ))
    ]

-- The fill is the target or the depth of the selected tick, whichever is less. The plan is partial
-- exactly when that depth is below the target; then the alternative is the lowest rate of the other
-- ticks that cover the target, none when there is none, and a full plan offers no alternative.
pub plan_selected_borrow_lem :
    (ladder : List TickDepth) (selected : ℕ) (target : ℤ)
    → let depth = total_of (find (λ t. t.apr_bps == selected) ladder) in
      let plan = plan_selected_borrow ladder selected target in
      (plan.fill ≤ℤ depth)
      × (plan.fill ≤ℤ target)
      × ((plan.fill ≡ depth) ⊎ (plan.fill ≡ target))
      × ((plan.is_partial ≡ true) ↔ (depth <ℤ target))
      × (plan.is_partial ≡ true
          → Lowest (is_covering selected target) ladder plan.alternative_apr_bps)
      × (plan.is_partial ≡ false → plan.alternative_apr_bps ≡ none)
unfolding plan_selected_borrow
plan_selected_borrow_lem ladder selected target =
    let depth = total_of (find (λ t. t.apr_bps == selected) ladder) in
    elim (Bool-cases (ltb_ℤ target depth)) [
      | inl e ↦
          let f : leb_ℤ target target ≡ true = ground arith in
          rw (e, f)
            (ground arith, omega arith, inr refl, (λ h. cc, λ h. ground arith), λ h. cc, λ h. refl)
      | inr e ↦ elim (Bool-cases (leb_ℤ target depth)) [
        | inl f ↦
            rw (e, f)
              (
                omega arith,
                ground arith,
                inl refl,
                (λ h. cc, λ h. ground arith),
                λ h. cc,
                λ h. refl,
              )
        | inr f ↦
            rw (e, f)
              (
                omega arith,
                ground arith,
                inl refl,
                (λ h. ground arith, λ h. refl),
                λ h. first_rate_lem (is_covering selected target) ladder _ refl,
                λ h. cc,
              )
      ]
    ]
