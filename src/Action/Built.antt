-- ===== src/Action/Built.antt =====
-- What every action that a `build` function under web/lib/actions builds has in common, and what the
-- checks on the way rule out.
pub mod Supplying
pub mod Converting
pub mod Claiming
pub mod Addresses
pub mod Borrowing
pub mod All
pub mod Completing
pub mod Returning
use ovrflo.Prelude.{
  ℕ, ◌%◌, ◌≤◌, ◌≡◌, refl, sym, ap, subst, ◌∙◌, inl, inr, Bool, true, false, not, ◌||◌, Option, none,
  some, arith, if◌then◌else◌, Bool-cases, ltb, leb, ◌==◌,
}
use ovrflo.Prelude.Int.{ℤ, pos, ◌<ℤ◌, leb_ℤ, eqb_ℤ, eq_of_parts}
use ovrflo.LendingMath.{apr_step_bps}
use ovrflo.Router.{LiquidityPosition, max_safe_integer}
use Prim.Native.String.{String}
use ovrflo.Action.{
  ActionType, ActionIdentity, ActionError, ActionErrorCode, ReadyAction, ActionBuildResult,
  invalid_action,
}
use ovrflo.Action.Amount.{ParsedAmount, parsed}
use ovrflo.Action.Steps.{refuse_if, need_amount, need, refuse_if_lem, need_amount_lem, need_lem}
use ovrflo.Action.Supply.{apr_refused, active_position}
use ovrflo.Action.Loans.{IfBuilt}

-- The action is of the type and for the account, and its review shows what it calls and approves.
abbrev pub IsReviewed : ActionType → ActionIdentity → ReadyAction → Type 0
IsReviewed kind identity a =
    (a.action_type ≡ kind)
    × (a.identity ≡ identity)
    × (a.review.action_type ≡ kind)
    × (a.review.identity ≡ identity)
    × (a.review.call ≡ a.call)
    × (a.review.authorizations ≡ a.authorizations)

-- The rate is within the bounds, and a whole number of steps.
abbrev pub CanPost : ℕ → ℕ → ℕ → Type 0
CanPost apr_min_bps apr_max_bps apr_bps =
    (apr_min_bps ≤ apr_bps) × (apr_bps ≤ apr_max_bps) × (apr_bps % apr_step_bps ≡ 0)

pub or-false : (a b : Bool) → (a || b) ≡ false → (a ≡ false) × (b ≡ false)
or-false true b = λ h. absurd (cc)
or-false false b = λ h. (refl, h)

pub not-false : (b : Bool) → not b ≡ false → b ≡ true
not-false true = λ h. refl
not-false false = λ h. absurd (cc)

pub apr_refused-CanPost :
    (low high apr : ℕ) → apr_refused low high apr ≡ false → CanPost low high apr
unfolding apr_refused
apr_refused-CanPost low high apr h = (ground arith, ground arith, ground arith)

-- The position is the one of the identifier, and holds liquidity.
abbrev pub IsActive : ℤ → Option LiquidityPosition → LiquidityPosition → Type 0
IsActive id found p = (found ≡ some p) × (p.id ≡ id) × (pos 0 <ℤ p.available_liquidity)

pub active_position-IsActive :
    (id : ℤ) (found : Option LiquidityPosition) (p : LiquidityPosition)
    → active_position id found ≡ some p
    → IsActive id found p
unfolding active_position
active_position-IsActive id none p h = absurd (cc)
active_position-IsActive id (some q) p h =
    elim (Bool-cases (not (eqb_ℤ q.id id) || leb_ℤ q.available_liquidity (pos 0))) [
      | inl e ↦ let wrong : none ≡ some p = sym (rw e refl) ∙ h in absurd (cc)
      | inr e ↦
          let same : some q ≡ some p = sym (rw e refl) ∙ h in
          let place : q ≡ p = cc in
          let (at, holds) =
            or-false (not (eqb_ℤ q.id id)) (leb_ℤ q.available_liquidity (pos 0)) e in
          let matches : eqb_ℤ q.id id ≡ true = not-false _ at in
          let id_eq : q.id ≡ id = ground (arith, eq_of_parts q.id id) in
          let liquid : pos 0 <ℤ q.available_liquidity = ground arith in
          subst (λ (z : LiquidityPosition). IsActive id (some q) z) place (refl, id_eq, liquid)
    ]

-- The steps of a `build` function that refuses by `invalidAction`, for a property of what is built.
module _ (P : ReadyAction → Type 0) where
  pub after_amount :
      (p : ParsedAmount) (rest : ℤ → ActionBuildResult)
      → ((amount : ℤ) → p ≡ parsed amount → IfBuilt (rest amount) P)
      → IfBuilt (need_amount invalid_action p rest) P
  after_amount p rest k = need_amount_lem invalid_action (λ r. IfBuilt r P) (λ errors. tt) p rest k

  pub after :
      {A : Type 0} (found : Option A) (code : ActionErrorCode) (message : String)
      (rest : A → ActionBuildResult)
      → ((a : A) → found ≡ some a → IfBuilt (rest a) P)
      → IfBuilt (need invalid_action found code message rest) P
  after {A} found code message rest k =
      need_lem invalid_action (λ r. IfBuilt r P) (λ errors. tt) found code message rest k

  pub unless :
      (b : Bool) (code : ActionErrorCode) (message : String) (rest : ActionBuildResult)
      → (b ≡ false → IfBuilt rest P)
      → IfBuilt (refuse_if invalid_action b code message rest) P
  unless b code message rest k =
      refuse_if_lem invalid_action (λ r. IfBuilt r P) (λ errors. tt) b code message rest k
