-- ===== src/Queue/Sound.antt =====
-- web/hooks/useTxQueue.ts: what the queue can be waiting for, whatever happens in whatever order.
use ovrflo.Prelude.{
  ℕ, zero, suc, ◌+◌, ◌≡◌, ◌==◌, ◌⊎◌, refl, sym, ap, subst, ◌∙◌, inl, inr, Bool, true, false, Option,
  none, some, List, [], ◌∷◌, length, drop, get_elem?, get_elem?-drop, arith, Bool-cases, ==_iff,
  all, ltb, ◌&&◌,
}
use ovrflo.Action.{ActionIdentity, ActionError}
use ovrflo.Runtime.{Awaited, returned, threw, ActionExecutionResult}
use ovrflo.Runtime
use ovrflo.ClaimAll.{QueuedTx}
use ovrflo.Queue.{
  QueueInvariant, holds, broken, QueueRow, QueueRowStatus, QueueState, preparing, pending,
  confirmed, skipped, needs_review, paused, refresh_failed, failed, is_settled, is_confirmed,
  set_status, update_rows, update_row, pause_at, invariant_now,
}
use ovrflo.Queue.Process.{
  RowBuild, row_plan, row_changed, row_gone, Task, rebuilding, confirming, retrying, scan,
  next_open, stop_at, prepare_row, process_open, process_at, confirm_row, is_gone_code,
  after_row_rebuild, after_row_confirm,
}
use ovrflo.Queue.Commands.{
  new_run, start, start_for, resume, resume_for, resume_from, resume_plan, resume_at, retry_row,
  accept_review, accept_for, accept_at, after_refresh_retry,
}
use ovrflo.Queue.Machine.{task_run, if_current}

-- The row at the index is being prepared: it is neither confirmed nor skipped.
abbrev pub IsPreparing : List QueueRow → ℕ → Type 0
IsPreparing rows i = (r : QueueRow) × (get_elem? rows i ≡ some r) × (r.status ≡ preparing)

pair_left : (p q : ℕ × QueuedTx) → some p ≡ some q → q.0 ≡ p.0
pair_left p q h = let same : p ≡ q = cc in ap (λ (z : ℕ × QueuedTx). z.0) (sym same)

scan_lem :
    (k : ℕ) (rs : List QueueRow) (i : ℕ) (tx : QueuedTx)
    → scan k rs ≡ some (i, tx)
    → (j : ℕ) × (i ≡ k + j)
      × ((r : QueueRow) × (get_elem? rs j ≡ some r) × (is_settled r.status ≡ false))
unfolding scan
scan_lem k [] i tx = λ h. absurd (cc)
scan_lem k (r ∷ rs) i tx = elim (Bool-cases (is_settled r.status)) [
  | inr e ↦ simp e (λ h. (0, omega (arith, pair_left (k, r.tx) (i, tx) h), (r, refl, e)))
  | inl e ↦
      simp e (λ h. let (j, at, found) = scan_lem (suc k) rs i tx h in (suc j, omega arith, found))
]

open_unconfirmed : (s : QueueRowStatus) → is_settled s ≡ false → is_confirmed s ≡ false
open_unconfirmed confirmed h = absurd (cc)
open_unconfirmed skipped h = absurd (cc)
open_unconfirmed pending h = refl
open_unconfirmed preparing h = refl
open_unconfirmed needs_review h = refl
open_unconfirmed paused h = refl
open_unconfirmed refresh_failed h = refl
open_unconfirmed failed h = refl

set_status-preparing :
    (r : QueueRow) → is_settled r.status ≡ false → (set_status preparing none r).status ≡ preparing
unfolding set_status
set_status-preparing r h = simp (open_unconfirmed r.status h) refl

update_rows-IsPreparing :
    (i : ℕ) (rows : List QueueRow) (r : QueueRow)
    → get_elem? rows i ≡ some r
    → is_settled r.status ≡ false
    → IsPreparing (update_rows i preparing none rows) i
unfolding update_rows
update_rows-IsPreparing i [] r h s = absurd (cc)
update_rows-IsPreparing zero (q ∷ qs) r h s =
    let same : r ≡ q = cc in
    (
      set_status preparing none q,
      refl,
      set_status-preparing q (subst (λ (z : QueueRow). is_settled z.status ≡ false) same s),
    )
update_rows-IsPreparing (suc i) (q ∷ qs) r h s = update_rows-IsPreparing i qs r h s

module _ (R Plan : Type 0) where
  -- What a task of the current run rests on.
  abbrev pub IsLive : QueueState R → Task Plan → Type 0
  IsLive s (rebuilding i run tx identity) = IsPreparing s.rows i
  IsLive s (confirming i run plan) = IsPreparing s.rows i
  IsLive s (retrying i run) = s.refresh_failure ≡ some i

  -- The outcome is of the run, and so is a task that it waits for.
  abbrev pub IsOf : ℕ → QueueState R × Option (Task Plan) → Type 0
  IsOf run (s, none) = s.generation ≡ run
  IsOf run (s, some t) = (s.generation ≡ run) × (task_run t ≡ run) × IsLive s t

  prepare_row-IsOf :
      (i run : ℕ) (tx : QueuedTx) (identity : Option ActionIdentity) (s : QueueState R)
      → s.generation ≡ run
      → IsPreparing (update_rows i preparing none s.rows) i
      → IsOf run (prepare_row i run tx identity s)
  unfolding pause_at
  prepare_row-IsOf i run tx none s g p = g
  prepare_row-IsOf i run tx (some identity) s g p = (g, refl, p)

  process_open-IsOf :
      (check : QueueInvariant) (index run : ℕ) (found : Option (ℕ × QueuedTx)) (s : QueueState R)
      → s.generation ≡ run
      → next_open s.rows index ≡ found
      → IsOf run (process_open check run found s)
  unfolding pause_at
  process_open-IsOf check index run none s g h = g
  process_open-IsOf (broken reason) index run (some (i, tx)) s g h = g
  process_open-IsOf holds index run (some (i, tx)) s g h =
      let (j, at, (r, e, is_open)) = scan_lem index (drop index s.rows) i tx h in
      let place : get_elem? s.rows i ≡ some r =
        ap (get_elem? s.rows) at ∙ sym (get_elem?-drop index j s.rows) ∙ e in
      prepare_row-IsOf i run tx s.identity s g (update_rows-IsPreparing i s.rows r place is_open)

  process_at-IsOf :
      (answer : QueueInvariant) (index run : ℕ) (s : QueueState R)
      → s.generation ≡ run
      → IsOf run (process_at answer index run s)
  unfolding process_at
  process_at-IsOf answer index run s g =
      let now : (s.generation == run) ≡ true = (==_iff s.generation run).1 g in
      simp now
        (process_open-IsOf (invariant_now answer s) index run (next_open s.rows index) s g refl)

  pub current-IsOf :
      (run : ℕ) (s : QueueState R) (rest : QueueState R × Option (Task Plan))
      → (s.generation ≡ run → IsOf s.generation rest)
      → IsOf s.generation (if_current run s rest)
  current-IsOf run s rest k = elim (Bool-cases (s.generation == run)) [
    | inl e ↦ simp e (k ((==_iff s.generation run).0 e))
    | inr e ↦ simp e refl
  ]

  confirm_row-IsOf :
      (check : QueueInvariant) (i run : ℕ) (plan : Plan) (s : QueueState R)
      → s.generation ≡ run
      → IsPreparing s.rows i
      → IsOf run (confirm_row check i run plan s)
  unfolding pause_at
  confirm_row-IsOf (broken reason) i run plan s g p = g
  confirm_row-IsOf holds i run plan s g p = (g, refl, p)

  pub after_row_rebuild-IsOf :
      (answer : QueueInvariant) (i run : ℕ) (a : Awaited (RowBuild Plan)) (s : QueueState R)
      → s.generation ≡ run
      → IsPreparing s.rows i
      → IsOf run (after_row_rebuild answer i run a s)
  unfolding after_row_rebuild stop_at
  after_row_rebuild-IsOf answer i run (threw e) s g p = g
  after_row_rebuild-IsOf answer i run (returned row_gone) s g p =
      process_at-IsOf answer (suc i) run (update_row i skipped none s) g
  after_row_rebuild-IsOf answer i run (returned (row_changed tx)) s g p = g
  after_row_rebuild-IsOf answer i run (returned (row_plan plan)) s g p =
      confirm_row-IsOf (invariant_now answer s) i run plan s g p

  pub after_row_confirm-IsOf :
      (answer : QueueInvariant) (i run : ℕ) (a : Awaited (ActionExecutionResult R))
      (s : QueueState R)
      → s.generation ≡ run
      → IsOf run (after_row_confirm answer i run a s)
  unfolding after_row_confirm stop_at pause_at
  after_row_confirm-IsOf answer i run (threw e) s g = g
  after_row_confirm-IsOf answer i run (returned (Runtime.success r)) s g =
      process_at-IsOf answer (suc i) run (update_row i confirmed none s) g
  after_row_confirm-IsOf answer i run (returned (Runtime.refresh_failed r e)) s g = g
  after_row_confirm-IsOf answer i run (returned (Runtime.review_needed d)) s g = g
  after_row_confirm-IsOf answer i run (returned Runtime.identity_changed) s g = g
  after_row_confirm-IsOf answer i run (returned (Runtime.invalid errors)) s g =
      elim (Bool-cases
        (ltb 0 (length errors) && all (λ (e : ActionError). is_gone_code e.code) errors)) [
          | inl e ↦ simp e (process_at-IsOf answer (suc i) run (update_row i skipped none s) g)
          | inr e ↦ simp e g
        ]
  after_row_confirm-IsOf answer i run (returned (Runtime.authorization_failed e)) s g = g
  after_row_confirm-IsOf answer i run (returned (Runtime.simulation_failed e)) s g = g
  after_row_confirm-IsOf answer i run (returned (Runtime.rejected e)) s g = g
  after_row_confirm-IsOf answer i run (returned (Runtime.transport_failed e)) s g = g
  after_row_confirm-IsOf answer i run (returned (Runtime.reverted h r)) s g = g
  after_row_confirm-IsOf answer i run (returned (Runtime.comparison_threw e)) s g = g
  after_row_confirm-IsOf answer i run (returned Runtime.out_of_fuel) s g = g

  pub after_refresh_retry-IsOf :
      (answer : QueueInvariant) (i run : ℕ) (a : Awaited (Option (ActionExecutionResult R)))
      (s : QueueState R)
      → s.generation ≡ run
      → IsOf run (after_refresh_retry answer i run a s)
  unfolding after_refresh_retry stop_at pause_at
  after_refresh_retry-IsOf answer i run (threw e) s g = g
  after_refresh_retry-IsOf answer i run (returned (some (Runtime.success r))) s g =
      process_at-IsOf answer (suc i) run
        (update_row i confirmed none (record s { refresh_failure = none })) g
  after_refresh_retry-IsOf answer i run (returned (some Runtime.identity_changed)) s g = g
  after_refresh_retry-IsOf answer i run (returned (some (Runtime.refresh_failed r e))) s g = g
  after_refresh_retry-IsOf answer i run (returned _) s g = g

  -- A command either does nothing, or begins a new run.
  abbrev pub IsBegun : QueueState R → QueueState R × Option (Task Plan) → Type 0
  IsBegun s outcome = (outcome ≡ (s, none)) ⊎ IsOf (suc s.generation) outcome

  pub start-IsBegun :
      (answer : QueueInvariant) (plan : List QueuedTx) (s : QueueState R)
      → IsBegun s (start answer plan s)
  unfolding start new_run
  start-IsBegun answer plan s = go plan s.identity
    where
      go :
          (p : List QueuedTx) (identity : Option ActionIdentity)
          → IsBegun s (start_for answer p identity s)
      go [] identity = inl refl
      go (tx ∷ txs) none = inl refl
      go (tx ∷ txs) (some identity) = inr (process_at-IsOf answer 0 (suc s.generation) _ refl)

  resume_at-IsOf :
      (answer : QueueInvariant) (review : Bool) (count : ℕ) (found : Option ℕ) (s : QueueState R)
      → IsOf s.generation (resume_at answer review count found s)
  resume_at-IsOf answer review count none s = refl
  resume_at-IsOf answer true count (some i) s = refl
  resume_at-IsOf answer false count (some i) s =
      process_at-IsOf answer (count + i) s.generation s refl

  retry_row-IsOf :
      (check : QueueInvariant) (i : ℕ) (s : QueueState R)
      → s.refresh_failure ≡ some i
      → IsOf s.generation (retry_row check i s)
  unfolding pause_at
  retry_row-IsOf (broken reason) i s h = refl
  retry_row-IsOf holds i s h = (refl, refl, h)

  resume_from-IsOf :
      (answer : QueueInvariant) (fresh : List QueuedTx) (found : Option ℕ) (s : QueueState R)
      → s.refresh_failure ≡ found
      → IsOf s.generation (resume_from answer fresh found s)
  unfolding resume_plan
  resume_from-IsOf answer fresh (some i) s h = retry_row-IsOf (invariant_now answer s) i s h
  resume_from-IsOf answer fresh none s h = resume_at-IsOf answer _ _ _ _

  pub resume-IsBegun :
      (answer : QueueInvariant) (fresh : List QueuedTx) (s : QueueState R)
      → IsBegun s (resume answer fresh s)
  unfolding resume new_run
  resume-IsBegun answer fresh s = go s.identity
    where
      go : (identity : Option ActionIdentity) → IsBegun s (resume_for answer fresh identity s)
      go none = inl refl
      go (some identity) = inr (resume_from-IsOf answer fresh s.refresh_failure (new_run s) refl)

  accept_at-IsOf :
      (answer : QueueInvariant) (count : ℕ) (rows : List QueueRow) (s : QueueState R)
      → IsOf s.generation (accept_at answer count rows s)
  accept_at-IsOf answer count [] s = refl
  accept_at-IsOf answer count (r ∷ rs) s = process_at-IsOf answer count s.generation s refl

  pub accept_review-IsBegun :
      (answer : QueueInvariant) (reviewed : List QueuedTx) (s : QueueState R)
      → IsBegun s (accept_review answer reviewed s)
  unfolding accept_review new_run
  accept_review-IsBegun answer reviewed s = go s.identity
    where
      go : (identity : Option ActionIdentity) → IsBegun s (accept_for answer reviewed identity s)
      go none = inl refl
      go (some identity) = inr (accept_at-IsOf answer _ _ _)
