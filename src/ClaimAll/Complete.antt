-- ===== src/ClaimAll/Complete.antt =====
-- `planClaimAll` of web/lib/claim-all.ts leaves no claim out.
use ovrflo.Prelude.{
  ℕ, zero, suc, ◌≡◌, refl, sym, ap, subst, ◌∙◌, inl, inr, true, false, Option, none, some, List, [],
  ◌∷◌, ◌++◌, arith, get_elem?, find, Bool-cases,
}
use ovrflo.Prelude.Int.{ℤ, pos, ◌<ℤ◌, leb_ℤ, eqb_ℤ, eq_of_parts}
use ovrflo.Prelude.Text.{Text, lower, text_eq, text_eq_iff, text_eq_refl}
use ovrflo.Prelude.Errors.{Result, ok, err, IfReturns, IfReturns->>=}
use ovrflo.ClaimAll.{
  PoolClaim, PoolInput, Entry, Entries, entry_at, set_entry, entry_or_new, with_claim, add_claim,
  add_pool, group_pools,
}

-- The first claim of a loan.
abbrev pub claim_of : ℤ → List PoolClaim → Option PoolClaim
claim_of id = find (λ c. eqb_ℤ c.loan_id id)

-- The pool's claim stands in the entry of its contract.
abbrev pub IsHeld : PoolInput → Entries → Type 0
IsHeld p es =
    (e : Entry) × (entry_at (lower p.lending) es ≡ some e)
    × ((c : PoolClaim) × (claim_of p.loan_id e.claims ≡ some c) × (c.claimable ≡ p.claimable))

entry_at-set_entry : (k : Text) (e : Entry) (es : Entries) → entry_at k (set_entry k e es) ≡ some e
entry_at-set_entry k e [] = rw (text_eq_refl k) refl
entry_at-set_entry k e (d ∷ es) = elim (Bool-cases (text_eq d.0 k)) [
  | inl f ↦ rw (f, f) refl
  | inr f ↦ rw (f, f) (entry_at-set_entry k e es)
]

entry_at-other :
    (k l : Text) (e : Entry) (es : Entries)
    → text_eq k l ≡ false
    → entry_at l (set_entry k e es) ≡ entry_at l es
entry_at-other k l e [] h = rw h refl
entry_at-other k l e (d ∷ es) h = elim (Bool-cases (text_eq d.0 k)) [
  | inl f ↦
      let same : d.0 ≡ k = (text_eq_iff d.0 k).0 f in
      let g : text_eq d.0 l ≡ false = ap (λ t. text_eq t l) same ∙ h in rw (f, g) refl
  | inr f ↦ elim (Bool-cases (text_eq d.0 l)) [
    | inl g ↦ rw (f, g) refl
    | inr g ↦ rw (f, g) (entry_at-other k l e es h)
  ]
]

claim_of-append_found :
    (id : ℤ) (cs : List PoolClaim) (d c : PoolClaim)
    → claim_of id cs ≡ some c
    → claim_of id (cs ++ d ∷ []) ≡ some c
claim_of-append_found id [] d c = λ h. absurd (cc)
claim_of-append_found id (b ∷ cs) d c = elim (Bool-cases (eqb_ℤ b.loan_id id)) [
  | inl f ↦ rw f (λ h. h)
  | inr f ↦ rw f (λ h. claim_of-append_found id cs d c h)
]

claim_of-append_new :
    (cs : List PoolClaim) (d : PoolClaim)
    → claim_of d.loan_id cs ≡ none
    → claim_of d.loan_id (cs ++ d ∷ []) ≡ some d
claim_of-append_new [] d =
    λ h. let same : eqb_ℤ d.loan_id d.loan_id ≡ true = ground arith in rw same refl
claim_of-append_new (b ∷ cs) d = elim (Bool-cases (eqb_ℤ b.loan_id d.loan_id)) [
  | inl f ↦ rw f (λ h. absurd (cc))
  | inr f ↦ rw f (λ h. claim_of-append_new cs d h)
]

pub same_loan : (a b : ℤ) → eqb_ℤ a b ≡ true → a ≡ b
same_loan a b h = ground (arith, eq_of_parts a b)

-- The claim of a pool is held once the pool was added.
add_claim-IsHeld :
    (es : Entries) (p : PoolInput) (found : Option Entry)
    → entry_at (lower p.lending) es ≡ found
    → (claim : Option PoolClaim) → claim_of p.loan_id (entry_or_new found p).claims ≡ claim
    → IfReturns (add_claim es p (entry_or_new found p) claim) (IsHeld p)
add_claim-IsHeld es p found h none g = (
  with_claim (entry_or_new found p) p,
  entry_at-set_entry (lower p.lending) _ es,
  (
    record { loan_id = p.loan_id; claimable = p.claimable },
    claim_of-append_new (entry_or_new found p).claims
        (record { loan_id = p.loan_id; claimable = p.claimable }) g,
    refl,
  ),
)
add_claim-IsHeld es p none h (some d) g = absurd (cc)
add_claim-IsHeld es p (some e) h (some d) g = elim (Bool-cases (eqb_ℤ d.claimable p.claimable)) [
  | inl f ↦ rw f (e, h, (d, g, same_loan d.claimable p.claimable f))
  | inr f ↦ rw f tt
]

-- A claim that is held stays held when another pool is added.
add_claim-keeps :
    (es : Entries) (p q : PoolInput) (claim : Option PoolClaim)
    → IsHeld q es
    → IfReturns (add_claim es p (entry_or_new (entry_at (lower p.lending) es) p) claim) (IsHeld q)
add_claim-keeps es p q none (e, at, (c, held, amount)) =
    elim (Bool-cases (text_eq (lower p.lending) (lower q.lending))) [
      | inl f ↦
          let same : lower p.lending ≡ lower q.lending = (text_eq_iff _ _).0 f in
          let here : entry_at (lower p.lending) es ≡ some e = ap (λ k. entry_at k es) same ∙ at in
          rw here (
            with_claim e p,
            ap (λ k. entry_at k (set_entry (lower p.lending) (with_claim e p) es)) (sym same)
                ∙ entry_at-set_entry (lower p.lending) (with_claim e p) es,
            (c, claim_of-append_found q.loan_id e.claims _ c held, amount),
          )
      | inr f ↦
          (e, entry_at-other (lower p.lending) (lower q.lending) _ es f ∙ at, (c, held, amount))
    ]
add_claim-keeps es p q (some d) h = elim (Bool-cases (eqb_ℤ d.claimable p.claimable)) [
  | inl f ↦ rw f h
  | inr f ↦ rw f tt
]

always : (r : Result Entries) → IfReturns r (λ _. Unit {0})
always (ok es) = tt
always (err e) = tt

add_pool-IsHeld :
    (es : Entries) (p : PoolInput) → pos 0 <ℤ p.claimable → IfReturns (add_pool es p) (IsHeld p)
unfolding add_pool
add_pool-IsHeld es p h =
    let e = entry_or_new (entry_at (lower p.lending) es) p in
    let positive : leb_ℤ p.claimable (pos 0) ≡ false = ground arith in
    elim (Bool-cases (text_eq (lower e.asset) (lower p.asset))) [
      | inl g ↦
          rw (positive, g)
            (add_claim-IsHeld es p (entry_at (lower p.lending) es) refl
              (claim_of p.loan_id e.claims) refl)
      | inr g ↦ rw (positive, g) tt
    ]

add_pool-keeps :
    (es : Entries) (p q : PoolInput) → IsHeld q es → IfReturns (add_pool es p) (IsHeld q)
unfolding add_pool
add_pool-keeps es p q h =
    let e = entry_or_new (entry_at (lower p.lending) es) p in
    elim (Bool-cases (leb_ℤ p.claimable (pos 0))) [
      | inl f ↦ rw f h
      | inr f ↦ elim (Bool-cases (text_eq (lower e.asset) (lower p.asset))) [
        | inl g ↦ rw (f, g) (add_claim-keeps es p q (claim_of p.loan_id e.claims) h)
        | inr g ↦ rw (f, g) tt
      ]
    ]

group_pools-keeps :
    (ps : List PoolInput) (es : Entries) (q : PoolInput)
    → IsHeld q es
    → IfReturns (group_pools es ps) (IsHeld q)
unfolding group_pools
group_pools-keeps [] es q h = h
group_pools-keeps (p ∷ ps) es q h =
    IfReturns->>= (add_pool es p) (λ es'. group_pools es' ps) (IsHeld q) (IsHeld q)
      (add_pool-keeps es p q h) (λ es' k. group_pools-keeps ps es' q k)

-- Every pool with something to claim is held at the end of the loop.
pub group_pools-IsHeld :
    (ps : List PoolInput) (es : Entries)
    → (i : ℕ) (q : PoolInput) → get_elem? ps i ≡ some q
    → pos 0 <ℤ q.claimable
    → IfReturns (group_pools es ps) (IsHeld q)
unfolding group_pools
group_pools-IsHeld [] es i q e h = absurd (cc)
group_pools-IsHeld (p ∷ ps) es zero q e h =
    let same : p ≡ q = cc in
    IfReturns->>= (add_pool es p) (λ es'. group_pools es' ps) (IsHeld q) (IsHeld q)
      (subst (λ r. IfReturns (add_pool es p) (IsHeld r)) same
        (add_pool-IsHeld es p (subst (λ (r : PoolInput). pos 0 <ℤ r.claimable) (sym same) h)))
      (λ es' k. group_pools-keeps ps es' q k)
group_pools-IsHeld (p ∷ ps) es (suc i) q e h =
    IfReturns->>= (add_pool es p) (λ es'. group_pools es' ps) (λ _. Unit {0}) (IsHeld q)
      (always (add_pool es p)) (λ es' _. group_pools-IsHeld ps es' i q e h)
