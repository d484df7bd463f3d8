-- ===== src/Ladder/Window.antt =====
-- `tickWindow` and `stepWindow` of web/lib/ladder.ts.
use Prim.Native.Nat.{min}
use ovrflo.Prelude.{
  ℕ, suc, ◌+◌, ◌-◌, ◌≤◌, ◌<◌, ◌≡◌, refl, inl, inr, Option, none, some, List, [], ◌∷◌, arith,
  if◌then◌else◌, length, get_elem?, All, Bool-cases, ◌∙◌, ap, sym, ltb, ◌==◌,
}
use ovrflo.Ladder.{
  ShapedRung, LadderModel, TickWindow, Bounds, window_start, selected_index, is_nil, index_from,
  index_of_tick,
}

sub_self : (k : ℕ) → k - k ≡ 0
sub_self k = omega arith

sub_none : (k : ℕ) → k - 0 ≡ k
sub_none k = omega arith

index_from_found :
    (rs : List ShapedRung) (k i a : ℕ)
    → index_from k rs a ≡ some i
    → (k ≤ i)
      × (i < k + length rs)
      × (r : ShapedRung) × (get_elem? rs (i - k) ≡ some r)
      × (r.apr_bps ≡ a)
unfolding index_from
index_from_found [] k i a h = absurd (cc)
index_from_found (r ∷ rs) k i a h = elim (Bool-cases (r.apr_bps == a)) [
  | inl hit ↦
      let e : k ≡ i = ground arith in
      (omega (arith, e), omega (arith, e), r, rw (← e, sub_self k) refl, ground arith)
  | inr miss ↦
      let h' : index_from (suc k) rs a ≡ some i = ground arith in
      let (lo, hi, found, at, tick) = index_from_found rs (suc k) i a h' in
      let step : i - k ≡ suc (i - suc k) = omega arith in
      (omega arith, omega arith, found, rw step at, tick)
]

-- A tick that is found stands at its index.
pub index_of_tick_found :
    (rs : List ShapedRung) (i a : ℕ)
    → index_of_tick rs a ≡ some i
    → (i < length rs) × (r : ShapedRung) × (get_elem? rs i ≡ some r) × (r.apr_bps ≡ a)
unfolding index_of_tick
index_of_tick_found rs i a h =
    let (_, hi, r, at, tick) = index_from_found rs 0 i a h in
    (omega arith, r, ap (get_elem? rs) (sym (sub_none i)) ∙ at, tick)

-- The window is the part of the ladder from `start` on, and its neighbours are the rungs on
-- either side of that part.
pub record IsWindow (rungs : List ShapedRung) (start : ℕ) (w : TickWindow) : Type 0 where
  pub same : (i : ℕ) → i < length w.rungs → get_elem? w.rungs i ≡ get_elem? rungs (start + i)
  pub size : length w.rungs ≡ min 3 (length rungs)
  pub inside : start + length w.rungs ≤ length rungs
  pub below : w.neighbor_below ≡ (if ltb 0 start then get_elem? rungs (start - 1) else none)
  pub above : w.neighbor_above ≡ get_elem? rungs (start + length w.rungs)

module _ (rungs : List ShapedRung) (selected : Option ℕ) (bounds : Bounds)
    (some_rung : 0 < length rungs) where
  abbrev index : ℕ
  index = selected_index rungs selected

  abbrev last : ℕ
  last = length rungs - 1

  abbrev start : ℕ
  start = window_start index last

-- The ticks of the ladder fit 16 bits, and it is marked empty exactly if it has no rung.
pub record IsLadder (model : LadderModel) : Type 0 where
  pub ticks : All (λ (r : ShapedRung). r.apr_bps ≤ 65_535) model.rungs
  pub marked : model.empty_ladder ≡ is_nil model.rungs
