-- ===== src/Queue/Reached.antt =====
-- web/hooks/useTxQueue.ts: an invariant of every state that the queue can come to.
use ovrflo.Prelude.{
  ℕ, zero, suc, ◌≤◌, ◌≡◌, ◌==◌, refl, sym, subst, inl, inr, Bool, true, false, Option, none, some,
  List, [], ◌∷◌, length, filter, get_elem?, arith, Bool-cases, All, All-get, ==_iff,
}
use ovrflo.Prelude.Sorting.{All-map, All-both}
use ovrflo.Action.{ActionIdentity}
use ovrflo.Queue.{QueueState}
use ovrflo.Queue.Process.{
  Task, rebuilding, confirming, retrying, after_row_rebuild, after_row_confirm,
}
use ovrflo.Queue.Commands.{after_refresh_retry, unmount}
use ovrflo.Queue.Machine.{
  Event, rendered, unmounted, started, resumed, review_accepted, row_rebuilt, row_confirmed,
  refresh_retried, Machine, without, task_run, then_wait, if_current, rebuild_answer,
  confirm_answer, retry_answer, step, run_events,
}
use ovrflo.Queue.Sound.{
  IsLive, IsOf, IsBegun, after_row_rebuild-IsOf, after_row_confirm-IsOf, after_refresh_retry-IsOf,
  start-IsBegun, resume-IsBegun, accept_review-IsBegun,
}

All-without {ℓ κ} :
    {A : Type ℓ} (P : A → Type κ) (n : ℕ) (xs : List A) → All P xs → All P (without n xs)
All-without P n [] h = tt
All-without P zero (x ∷ xs) h = h.1
All-without P (suc n) (x ∷ xs) h = (h.0, All-without P n xs h.1)

count-without {ℓ} :
    {A : Type ℓ} (p : A → Bool) (n : ℕ) (xs : List A)
    → length (filter p (without n xs)) ≤ length (filter p xs)
count-without p n [] = omega arith
count-without p zero (x ∷ xs) = ground arith
count-without p (suc n) (x ∷ xs) = ground (arith, count-without p n xs)

none-All {ℓ} :
    {A : Type ℓ} (p : A → Bool) (xs : List A) → length (filter p xs) ≤ 0 → All (λ x. p x ≡ false) xs
none-All p [] = λ h. tt
none-All p (x ∷ xs) = elim (Bool-cases (p x)) [
  | inl e ↦ rw e (λ h. absurd (omega arith))
  | inr e ↦ rw e (λ h. (refl, none-All p xs h))
]

All-none {ℓ} :
    {A : Type ℓ} (p : A → Bool) (xs : List A) → All (λ x. p x ≡ false) xs → length (filter p xs) ≡ 0
All-none p [] h = refl
All-none p (x ∷ xs) h = rw (h.0) (All-none p xs h.1)

count-cons {ℓ} :
    {A : Type ℓ} (p : A → Bool) (x : A) (xs : List A)
    → length (filter p (x ∷ xs)) ≤ suc (length (filter p xs))
count-cons p x xs = ground arith

-- Of one entry at most, the rest has none.
lone-rest {ℓ} :
    {A : Type ℓ} (p : A → Bool) (n : ℕ) (xs : List A) (x : A)
    → length (filter p xs) ≤ 1
    → get_elem? xs n ≡ some x
    → p x ≡ true
    → All (λ y. p y ≡ false) (without n xs)
lone-rest p n [] x h at e = tt
lone-rest p zero (y ∷ ys) x h at e =
    let same : x ≡ y = cc in
    let here : p y ≡ true = subst (λ z. p z ≡ true) same e in
    none-All p ys (ground (arith, h, here))
lone-rest p (suc n) (y ∷ ys) x h at e = elim (Bool-cases (p y)) [
  | inl f ↦
      let rest : length (filter p ys) ≤ 0 = ground (arith, h, f) in
      let wrong : p x ≡ false = All-get (λ z. p z ≡ false) ys n x (none-All p ys rest) at in
      absurd (cc)
  | inr f ↦ (f, lone-rest p n ys x (ground (arith, h, f)) at e)
]

module _ (R Plan : Type 0) where
  abbrev pub is_current : QueueState R → Task Plan → Bool
  is_current s t = task_run t == s.generation

  -- The task is of no later run than the current one, and live if it is of that.
  abbrev pub IsWaiting : QueueState R → Task Plan → Type 0
  IsWaiting s t = (task_run t ≤ s.generation) × (task_run t ≡ s.generation → IsLive R Plan s t)

  -- At most one task is of the current run. Where that task is a rebuild or an execution, its row is
  -- being prepared.
  abbrev pub IsSound : Machine R Plan → Type 0
  IsSound m =
      All (IsWaiting m.queue) m.waiting × (length (filter (is_current m.queue) m.waiting) ≤ 1)

  -- The task is of an earlier run.
  abbrev pub IsStale : ℕ → Task Plan → Type 0
  IsStale run t = (task_run t ≤ run) × ((task_run t == run) ≡ false)

  stale-IsWaiting :
      (run : ℕ) (s : QueueState R) (ts : List (Task Plan))
      → s.generation ≡ run
      → All (IsStale run) ts
      → All (IsWaiting s) ts × (length (filter (is_current s) ts) ≡ 0)
  stale-IsWaiting run s [] g h = (tt, refl)
  stale-IsWaiting run s (t ∷ ts) g ((le, past), h) =
      let (rest, count) = stale-IsWaiting run s ts g h in
      let gone : is_current s t ≡ false = simp g past in
      let old : task_run t ≡ s.generation → IsLive R Plan s t =
        λ e. absurd (ground (arith, ==_iff (task_run t) run)) in
      (((simp g le, old), rest), simp (gone, count) refl)

  then_wait-IsSound :
      (run : ℕ) (outcome : QueueState R × Option (Task Plan)) (ts : List (Task Plan))
      → IsOf R Plan run outcome
      → All (IsStale run) ts
      → IsSound (then_wait outcome ts)
  then_wait-IsSound run (s, none) ts of h =
      let (rest, count) = stale-IsWaiting run s ts of h in (rest, omega (arith, count))
  then_wait-IsSound run (s, some t) ts (g, at, live) h =
      let (rest, count) = stale-IsWaiting run s ts g h in
      (
        ((omega (arith, g, at), λ e. live), rest),
        omega (arith, count, count-cons (is_current s) t ts),
      )

  -- Every task is of an earlier run once a new one is begun.
  begun-IsStale :
      (s : QueueState R) (ts : List (Task Plan))
      → All (IsWaiting s) ts
      → All (IsStale (suc s.generation)) ts
  begun-IsStale s ts h =
      All-map {P = IsWaiting s} {Q = IsStale (suc s.generation)}
        (λ t w. (omega (arith, w.0), ground (arith, w.0))) ts h

  begun-IsSound :
      (m : Machine R Plan) (outcome : QueueState R × Option (Task Plan))
      → IsSound m
      → IsBegun R Plan m.queue outcome
      → IsSound (then_wait outcome m.waiting)
  begun-IsSound m outcome sound (inl same) =
      subst (λ (o : QueueState R × Option (Task Plan)). IsSound (then_wait o m.waiting)) (sym same)
        sound
  begun-IsSound m outcome sound (inr of) =
      then_wait-IsSound (suc m.queue.generation) outcome m.waiting of
        (begun-IsStale m.queue m.waiting sound.0)

  -- The answer to a task: of an earlier run it changes nothing, of the current one no other is left.
  answered-IsSound :
      (m : Machine R Plan) (n : ℕ) (t : Task Plan) (rest : QueueState R × Option (Task Plan))
      → IsSound m
      → get_elem? m.waiting n ≡ some t
      → (m.queue.generation ≡ task_run t
          → IsLive R Plan m.queue t
          → IsOf R Plan m.queue.generation rest)
      → IsSound (then_wait (if_current (task_run t) m.queue rest) (without n m.waiting))
  answered-IsSound m n t rest (waits, lone) at k =
      elim (Bool-cases (m.queue.generation == task_run t)) [
        | inr e ↦ simp e (
          All-without (IsWaiting m.queue) n m.waiting waits,
          omega (arith, lone, count-without (is_current m.queue) n m.waiting),
        )
        | inl e ↦
            let now : m.queue.generation ≡ task_run t = (==_iff _ _).0 e in
            let live = (All-get (IsWaiting m.queue) m.waiting n t waits at).1 (sym now) in
            let here : is_current m.queue t ≡ true = (==_iff _ _).1 (sym now) in
            let left = lone-rest (is_current m.queue) n m.waiting t lone at here in
            let bounds = All-without (IsWaiting m.queue) n m.waiting waits in
            simp e (
              then_wait-IsSound m.queue.generation rest (without n m.waiting) (k now live) (
                All-map
                  {P = λ (u : Task Plan). IsWaiting m.queue u × (is_current m.queue u ≡ false)}
                  {Q = IsStale m.queue.generation} (λ u w. (w.0.0, w.1)) (without n m.waiting)
                  (All-both (IsWaiting m.queue) (λ (u : Task Plan). is_current m.queue u ≡ false)
                    (without n m.waiting) bounds left)))
      ]

  step-IsSound : (e : Event R Plan) (m : Machine R Plan) → IsSound m → IsSound (step e m)
  unfolding step unmount rebuild_answer confirm_answer retry_answer
  step-IsSound (rendered identity) m sound = (
    All-map {P = IsWaiting m.queue} {Q = IsWaiting (record (m.queue) { identity = identity })}
        (λ t w. (w.0, λ e. kept identity m.queue t (w.1 e))) m.waiting sound.0,
    sound.1,
  )
    where
      kept :
          (identity : Option ActionIdentity) (s : QueueState R) (t : Task Plan)
          → IsLive R Plan s t
          → IsLive R Plan (record s { identity = identity }) t
      kept identity s (rebuilding i run tx who) h = h
      kept identity s (confirming i run plan) h = h
      kept identity s (retrying i run) h = h
  step-IsSound unmounted m sound =
      then_wait-IsSound (suc m.queue.generation) (unmount m.queue, none) m.waiting refl
        (begun-IsStale m.queue m.waiting sound.0)
  step-IsSound (started answer plan) m sound =
      begun-IsSound m _ sound (start-IsBegun R Plan answer plan m.queue)
  step-IsSound (resumed answer plan) m sound =
      begun-IsSound m _ sound (resume-IsBegun R Plan answer plan m.queue)
  step-IsSound (review_accepted answer plan) m sound =
      begun-IsSound m _ sound (accept_review-IsBegun R Plan answer plan m.queue)
  step-IsSound (row_rebuilt answer n a) m sound = go (get_elem? m.waiting n) refl
    where
      go :
          (found : Option (Task Plan))
          → get_elem? m.waiting n ≡ found
          → IsSound (rebuild_answer answer a n found m)
      go none at = sound
      go (some (confirming i run plan)) at = sound
      go (some (retrying i run)) at = sound
      go (some (rebuilding i run tx who)) at =
          answered-IsSound m n (rebuilding i run tx who) (after_row_rebuild answer i run a m.queue)
            sound at
            (λ now live.
              subst (λ r. IsOf R Plan r (after_row_rebuild answer i run a m.queue)) (sym now)
                (after_row_rebuild-IsOf R Plan answer i run a m.queue now live))
  step-IsSound (row_confirmed answer n a) m sound = go (get_elem? m.waiting n) refl
    where
      go :
          (found : Option (Task Plan))
          → get_elem? m.waiting n ≡ found
          → IsSound (confirm_answer answer a n found m)
      go none at = sound
      go (some (rebuilding i run tx who)) at = sound
      go (some (retrying i run)) at = sound
      go (some (confirming i run plan)) at =
          answered-IsSound m n (confirming i run plan) (after_row_confirm answer i run a m.queue)
            sound at
            (λ now live.
              subst (λ r. IsOf R Plan r (after_row_confirm answer i run a m.queue)) (sym now)
                (after_row_confirm-IsOf R Plan answer i run a m.queue now))
  step-IsSound (refresh_retried answer n a) m sound = go (get_elem? m.waiting n) refl
    where
      go :
          (found : Option (Task Plan))
          → get_elem? m.waiting n ≡ found
          → IsSound (retry_answer answer a n found m)
      go none at = sound
      go (some (rebuilding i run tx who)) at = sound
      go (some (confirming i run plan)) at = sound
      go (some (retrying i run)) at =
          answered-IsSound m n (retrying i run) (after_refresh_retry answer i run a m.queue) sound
            at
            (λ now live.
              subst (λ r. IsOf R Plan r (after_refresh_retry answer i run a m.queue)) (sym now)
                (after_refresh_retry-IsOf R Plan answer i run a m.queue now))

  -- Whatever events come in whatever order, the queue stays sound, from any sound state: it
  -- waits for no task of a later run than its current one, and for at most one of the current
  -- run. Where that is a rebuild or an execution, its row is being prepared, so neither
  -- confirmed nor skipped; where it is a retry, it is that of the refresh that failed.
  pub run_events-IsSound :
      (es : List (Event R Plan)) (m : Machine R Plan) → IsSound m → IsSound (run_events es m)
  unfolding run_events
  run_events-IsSound [] m sound = sound
  run_events-IsSound (e ∷ es) m sound = run_events-IsSound es (step e m) (step-IsSound e m sound)
