-- ===== src/LendingMath/Ids.antt =====
-- The lists that web/lib/lending-math.ts counts out: identifiers and rates.
use Prim.Native.Nat.{min}
use ovrflo.Prelude.{
  ℕ, zero, suc, ◌+◌, ◌-◌, ◌*◌, ◌<◌, ◌≡◌, refl, ap, ◌∙◌, none, some, [], arith, ltb, leb,
  if◌then◌else◌, length, get_elem?,
}
use ovrflo.Prelude.Int.{pos, ◌-ℤ◌, pos--ℤ}
use ovrflo.LendingMath.{count_up, enumerate_ids, apr_loop, apr_choices}

length-count_up : (index n : ℕ) → length (count_up index n) ≡ n
unfolding count_up
length-count_up index zero = refl
length-count_up index (suc n) = omega (arith, length-count_up (index + 1) n)

get_elem?-count_up :
    (index n i : ℕ) → i < n → get_elem? (count_up index n) i ≡ some (pos (index + i + 1))
unfolding count_up
get_elem?-count_up index zero i h = elim h [ ]
get_elem?-count_up index (suc n) zero h = ground arith
get_elem?-count_up index (suc n) (suc i) h = ground (arith, get_elem?-count_up (index + 1) n i)

capped_count :
    (n m : ℕ)
    → count_up 0 (min n m)
      ≡ (if leb (if ltb m n then m else n) 0 then [] else count_up 0 (if ltb m n then m else n))
unfolding count_up
capped_count n m = ground arith

suc-sub-one : (n : ℕ) → suc n - 1 ≡ n
suc-sub-one n = omega arith

enumerate_count :
    (next_id max_ids : ℕ)
    → enumerate_ids (pos next_id) (pos max_ids) ≡ count_up 0 (min (next_id - 1) max_ids)
unfolding enumerate_ids ◌-ℤ◌ count_up
enumerate_count zero max_ids = ground arith
enumerate_count (suc n) max_ids =
    rw (pos--ℤ (suc n) 1 (omega arith), suc-sub-one n) (ground (arith, capped_count n max_ids))

zero_plus : (i : ℕ) → 0 + i + 1 ≡ i + 1
zero_plus i = omega arith

-- `enumerateIds` lists the identifiers 1, 2, 3, … below the next one, in order, and no more of
-- them than the limit.
pub enumerate_ids_lem :
    (next_id max_ids : ℕ)
    → (length (enumerate_ids (pos next_id) (pos max_ids)) ≡ min (next_id - 1) max_ids)
      × ((i : ℕ)
          → i < min (next_id - 1) max_ids
          → get_elem? (enumerate_ids (pos next_id) (pos max_ids)) i ≡ some (pos (i + 1)))
enumerate_ids_lem next_id max_ids =
    rw (enumerate_count next_id max_ids) (
      length-count_up 0 _,
      λ i h. get_elem?-count_up 0 _ i h ∙ ap (λ k. some (pos k)) (zero_plus i),
    )

get_elem?-apr_loop :
    (fuel apr_bps max_bps step_bps i : ℕ)
    → 0 < step_bps
    → max_bps < apr_bps + fuel
    → get_elem? (apr_loop fuel apr_bps max_bps step_bps) i
      ≡ (if leb (apr_bps + i * step_bps) max_bps then some (apr_bps + i * step_bps) else none)
unfolding apr_loop
get_elem?-apr_loop zero a m s i p h = ground arith
get_elem?-apr_loop (suc fuel) a m s zero p h = ground arith
get_elem?-apr_loop (suc fuel) a m s (suc i) p h =
    ground (arith, get_elem?-apr_loop fuel (a + s) m s i)

-- For a positive step the loop ends within its fuel, and `aprChoices` lists exactly the rates
-- `min + i * step` that are not above the maximum, at place `i`.
pub apr_choices_lem :
    (min_bps max_bps step_bps i : ℕ)
    → 0 < step_bps
    → get_elem? (apr_choices min_bps max_bps step_bps) i
      ≡ (if leb (min_bps + i * step_bps) max_bps then some (min_bps + i * step_bps) else none)
unfolding apr_choices
apr_choices_lem min_bps max_bps step_bps i p =
    get_elem?-apr_loop (suc (max_bps - min_bps)) min_bps max_bps step_bps i p (omega arith)
