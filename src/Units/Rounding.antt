-- ===== src/Units/Rounding.antt =====
-- The amounts of web/lib/units.ts round as their names say.
use ovrflo.Prelude.{
  ℕ, ◌+◌, ◌*◌, ◌/◌, ◌%◌, ◌≤◌, ◌<◌, ◌≡◌, ◌↔◌, sym, ap, subst, ◌∙◌, inl, inr, arith, ◌==◌,
  if◌then◌else◌, Bool-cases,
}
use ovrflo.Prelude.Int.{
  ℤ, pos, ◌+ℤ◌, ◌-ℤ◌, ◌≤ℤ◌, ◌<ℤ◌, +ℤ_parts, -ℤ_parts, eq_of_parts, ltb_ℤ, int_laws, pos-*ℤ, pos-/ℤ,
  pos-%ℤ, pos-+ℤ,
}
use ovrflo.Prelude.Errors.{ok}
use ovrflo.Units.{add, sub, mul_div, mul_div_up}

pub div_bounds : (n d : ℕ) → 0 < d → ((n / d) * d ≤ n) × (n < (n / d) * d + d)
div_bounds n d h = ground arith

floor_value :
    (a num den : ℕ) → 0 < den → mul_div (pos a) (pos num) (pos den) ≡ ok (pos (a * num / den))
unfolding mul_div
floor_value a num den h = rw (pos-*ℤ a num, pos-/ℤ (a * num) den) (ground arith)

pub mul_div_floor :
    (a num den : ℕ)
    → 0 < den
    → (r : ℕ) × (mul_div (pos a) (pos num) (pos den) ≡ ok (pos r))
      × (r * den ≤ a * num)
      × (a * num < r * den + den)
mul_div_floor a num den h =
    let (lo, hi) = div_bounds (a * num) den h in (a * num / den, floor_value a num den h, lo, hi)

-- The ceiling that `mul_div_up` computes, on numbers.
abbrev pub ceil_div : ℕ → ℕ → ℕ
ceil_div n d = if n % d == 0 then n / d else n / d + 1

pub ceil_div_bounds : (n d : ℕ) → 0 < d → (n ≤ ceil_div n d * d) × (ceil_div n d * d < n + d)
ceil_div_bounds n d h = elim (Bool-cases (n % d == 0)) [
  | inl e ↦ rw e (ground arith)
  | inr e ↦ rw e (ground arith)
]

ceil_value :
    (a num den : ℕ)
    → 0 < den
    → mul_div_up (pos a) (pos num) (pos den) ≡ ok (pos (ceil_div (a * num) den))
unfolding mul_div_up
ceil_value a num den h =
    rw (pos-*ℤ a num, pos-/ℤ (a * num) den, pos-%ℤ (a * num) den, pos-+ℤ (a * num / den) 1)
      (ground arith)

-- For numbers and a positive denominator, `mulDivUp` returns the quotient rounded up: the least
-- multiple of the denominator that is not below the product.
pub mul_div_up_ceil :
    (a num den : ℕ)
    → 0 < den
    → (r : ℕ) × (mul_div_up (pos a) (pos num) (pos den) ≡ ok (pos r))
      × (a * num ≤ r * den)
      × (r * den < a * num + den)
mul_div_up_ceil a num den h =
    let (lo, hi) = ceil_div_bounds (a * num) den h in
    (ceil_div (a * num) den, ceil_value a num den h, lo, hi)

below : (a b c : ℤ) → add c b ≡ a → pos 0 ≤ℤ c → a <ℤ b → ⊥
unfolding add
below a b c whole positive short =
    let sum : b ≤ℤ c +ℤ b = omega (int_laws, positive) in
    let there : b ≤ℤ a = subst (λ x. b ≤ℤ x) whole sum in omega arith

back : (a b : ℤ) → b ≤ℤ a → (add (a -ℤ b) b ≡ a) × (pos 0 ≤ℤ a -ℤ b)
unfolding add
back a b covers = (
  ground (arith, -ℤ_parts a b, +ℤ_parts (a -ℤ b) b, eq_of_parts (a -ℤ b +ℤ b) a),
  omega (int_laws, covers),
)

rest_of : (a b c : ℤ) → add c b ≡ a → c ≡ a -ℤ b
unfolding add
rest_of a b c whole = sym (
    ap (λ x. x -ℤ b) (sym whole)
    ∙ ground (arith, +ℤ_parts c b, -ℤ_parts (c +ℤ b) b, eq_of_parts (c +ℤ b -ℤ b) c))

-- `sub` returns exactly the amount that is not negative and that `add` completes to what is
-- subtracted from, and throws when there is none.
pub sub-add : (a b c : ℤ) → (sub a b ≡ ok c) ↔ ((add c b ≡ a) × (pos 0 ≤ℤ c))
unfolding sub
sub-add a b c = elim (Bool-cases (ltb_ℤ a b)) [
  | inl e ↦ rw e (
    λ h. absurd (cc),
    λ (whole, positive).
        let short : a <ℤ b = ground arith in absurd (below a b c whole positive short),
  )
  | inr e ↦ rw e (
    λ h.
        let same : a -ℤ b ≡ c = cc in
        let covers : b ≤ℤ a = ground arith in
        subst (λ x. (add x b ≡ a) × (pos 0 ≤ℤ x)) same (back a b covers),
    λ (whole, positive). ap ok (sym (rest_of a b c whole)),
  )
]
