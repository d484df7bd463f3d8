-- ===== src/Convert/Cap.antt =====
-- web/lib/convert.ts: what the cap's status and the fee's approval promise.
use ovrflo.Prelude.{◌*◌, ◌/◌, ◌≡◌, ◌↔◌, refl, Bool, true, false, ◌||◌, arith, inl, inr, Bool-cases}
use ovrflo.Prelude.Int.{
  ℤ, pos, negsuc, ◌+ℤ◌, ◌*ℤ◌, ◌≤ℤ◌, ◌<ℤ◌, ltb_ℤ, +ℤ_parts, -ℤ_parts, pos-*ℤ, pos-/ℤ,
}
use ovrflo.Convert.{
  deposit, DepositCapStatus, cap_remaining_of, deposit_cap_status, buffered_fee_approve_amount,
}

-- The amount of a deposit keeps what is deposited within the cap, where there is one.
abbrev pub WithinCap : ℤ → ℤ → ℤ → Type 0
WithinCap amount cap_limit cap_used = pos 0 <ℤ cap_limit → cap_used +ℤ amount ≤ℤ cap_limit

-- The two flags that keep a deposit back.
abbrev pub cap_blocks : DepositCapStatus → Bool
cap_blocks s = s.cap_reached || s.cap_exceeded

-- For a positive amount, a deposit is kept back by the status of a loaded cap exactly if it would go
-- over the cap. A cap that is not positive keeps nothing back.
pub deposit_cap_status-WithinCap :
    (amount cap_limit cap_used : ℤ)
    → pos 0 <ℤ amount
    → (cap_blocks (deposit_cap_status deposit amount true cap_limit cap_used) ≡ false)
      ↔ WithinCap amount cap_limit cap_used
unfolding deposit_cap_status cap_remaining_of
deposit_cap_status-WithinCap amount cap_limit cap_used h =
    elim (Bool-cases (ltb_ℤ (pos 0) cap_limit)) [
      | inr e ↦ rw e ((λ g limit. absurd (ground arith)), (λ g. refl))
      | inl e ↦ elim (Bool-cases (ltb_ℤ cap_used cap_limit)) [
        | inl f ↦
            rw (e, f)
              (
                (λ g limit. ground (arith, +ℤ_parts cap_used amount, -ℤ_parts cap_limit cap_used)),
                (λ g. ground (arith, +ℤ_parts cap_used amount, -ℤ_parts cap_limit cap_used)),
              )
        | inr f ↦
            rw (e, f)
              (
                (λ g limit. absurd (cc)),
                (λ g.
                    absurd (ground (arith, +ℤ_parts cap_used amount, -ℤ_parts cap_limit cap_used))),
              )
      ]
    ]

-- The approval of a fee covers the fee, and by at most a fiftieth more.
pub buffered_fee_approve_amount_bounds :
    (fee : ℤ)
    → pos 0 ≤ℤ fee
    → (fee ≤ℤ buffered_fee_approve_amount fee)
      × (buffered_fee_approve_amount fee *ℤ pos 50 ≤ℤ fee *ℤ pos 51)
unfolding buffered_fee_approve_amount
buffered_fee_approve_amount_bounds (pos n) h =
    rw (pos-*ℤ n 102, pos-/ℤ (n * 102) 100, pos-*ℤ (n * 102 / 100) 50, pos-*ℤ n 51)
      (omega arith, omega arith)
buffered_fee_approve_amount_bounds (negsuc n) h = absurd (omega arith)
