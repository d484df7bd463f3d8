-- ===== src/StreamBook/Paging.antt =====
-- The windows of the pages in web/lib/stream-book.ts.
use ovrflo.Prelude.{
  ℕ, zero, suc, ◌+◌, ◌≤◌, ◌<◌, ◌≡◌, ◌⊎◌, inl, inr, refl, some, ltb, arith, Bool-cases,
}
use ovrflo.Prelude.Int.{pos, ◌<ℤ◌, pos-+ℤ}
use ovrflo.StreamBook.{window_stop, next_page_param}

module _ (size count : ℕ) where
  -- The starts of the pages that are asked for.
  pub data Visited : ℕ → Type 0 where
    first_page : Visited 0
    page_after :
        (p q : ℕ)
        → Visited p
        → next_page_param (pos p) (pos count) (pos size) ≡ some (pos q)
        → Visited q

  abbrev pub IsInWindow : ℕ → ℕ → Type 0
  IsInWindow i p = (p ≤ i) × (pos i <ℤ window_stop (pos p) (pos count) (pos size))

  next_value :
      (p q : ℕ) → next_page_param (pos p) (pos count) (pos size) ≡ some (pos q) → q ≡ p + size
  unfolding next_page_param
  next_value p q e = ground (arith, pos-+ℤ p size)

  next_there :
      (p : ℕ)
      → p + size < count
      → next_page_param (pos p) (pos count) (pos size) ≡ some (pos (p + size))
  unfolding next_page_param
  next_there p h = rw (pos-+ℤ p size) (ground arith)

  window_within : (i p : ℕ) → IsInWindow i p → i < p + size
  unfolding window_stop
  window_within i p (from, to) = ground (arith, pos-+ℤ p size)

  window_there : (i p : ℕ) → p ≤ i → i < count → i < p + size → IsInWindow i p
  unfolding window_stop
  window_there i p from below near = (from, rw (pos-+ℤ p size) (ground arith))

  -- Of the pages from a visited one on, one has the index.
  window_from :
      (fuel i p : ℕ)
      → 0 < size
      → Visited p
      → p ≤ i
      → i < count
      → i < p + fuel
      → (q : ℕ) × Visited q × IsInWindow i q
  window_from zero i p sized seen from below near = absurd (omega arith)
  window_from (suc fuel) i p sized seen from below near = elim (Bool-cases (ltb i (p + size))) [
    | inl e ↦ (p, seen, window_there i p from below (ground arith))
    | inr e ↦
        window_from fuel i (p + size) sized
          (page_after p (p + size) seen (next_there p (ground arith))) (ground arith) below
          (ground arith)
  ]

  -- Two visited pages are one, or a page apart.
  abbrev IsApart : ℕ → ℕ → Type 0
  IsApart p q = (p ≡ q) ⊎ (p + size ≤ q) ⊎ (q + size ≤ p)

  Visited-IsApart : (p q : ℕ) → Visited p → Visited q → IsApart p q
  Visited-IsApart _ _ first_page first_page = inl refl
  Visited-IsApart _ _ first_page (page_after q_before q b e) =
      ground (arith, next_value q_before q e)
  Visited-IsApart _ _ (page_after p_before p a e) first_page =
      ground (arith, next_value p_before p e)
  Visited-IsApart _ _ (page_after p_before p a d) (page_after q_before q b e) =
      let before = Visited-IsApart p_before q_before a b in
      ground (arith, next_value p_before p d, next_value q_before q e)

  -- When pages have at least one row and the index is below the count of the source, exactly one of
  -- the pages that are asked for, one after the other from the start, has the index in its window.
  pub Visited-window_stop :
      (i : ℕ)
      → 0 < size
      → i < count
      → ((p : ℕ) × Visited p × IsInWindow i p)
        × ((p q : ℕ) → Visited p → Visited q → IsInWindow i p → IsInWindow i q → p ≡ q)
  Visited-window_stop i sized below = (
    window_from (suc i) i 0 sized first_page (omega arith) below (omega arith),
    λ p q a b in_p in_q.
        let apart = Visited-IsApart p q a b in
        ground (arith, window_within i p in_p, window_within i q in_q),
  )
