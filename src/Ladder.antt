-- ===== src/Ladder.antt =====
-- web/lib/ladder.ts: the ladder of rates with their resting liquidity, and the window of three
-- rates that the form shows. A tick is a natural number; `findIndex` gives an option, `none` for -1.
pub mod Shape
pub mod Window
use Prim.Native.Nat.{min}
use ovrflo.Prelude.{
  ℕ, zero, suc, ◌+◌, ◌-◌, ◌*◌, ◌%◌, Bool, true, false, ◌&&◌, ◌||◌, Option, none, some, List, [],
  ◌∷◌, ltb, leb, ◌==◌, if◌then◌else◌, length, get_elem?, take, drop, filter,
}
use ovrflo.Prelude.Int.{ℤ, pos, pos_part, neg_part, ltb_ℤ, leb_ℤ}
use ovrflo.Prelude.Errors.{Result, ok, err, ◌>>=◌}
use ovrflo.Units.{tick_bps}
use ovrflo.LendingMath.{units_to_wei, floor_to_unit}

pub record TickDepthInput : Type 0 where
  pub apr_bps : ℕ
  pub available_units : ℤ

pub data RungKind : Type 0 where
  pickable below_minimum empty : RungKind

pub record ShapedRung : Type 0 where
  pub apr_bps : ℕ
  pub available_units : ℤ
  pub available_wei : ℤ
  pub kind : RungKind

pub data StepperBound : Type 0 where
  enabled disabled_min disabled_max : StepperBound

pub record TickWindow : Type 0 where
  pub rungs : List ShapedRung
  pub selected : Option ℕ
  pub prev : StepperBound
  pub next : StepperBound
  pub neighbor_below : Option ShapedRung
  pub neighbor_above : Option ShapedRung
  pub empty_ladder : Bool

pub record LadderModel : Type 0 where
  pub rungs : List ShapedRung
  pub pickables : List ShapedRung
  pub empty_ladder : Bool
  pub best_depth : Option ShapedRung

pub record Bounds : Type 0 where
  pub apr_min : ℕ
  pub apr_max : ℕ

pub rung_kind : ℤ → ℤ → RungKind
rung_kind available_wei min_liquidity =
    if leb_ℤ available_wei (pos 0)
    then empty
    else if ltb_ℤ available_wei min_liquidity
    then below_minimum
    else pickable

abbrev pub is_pickable : ShapedRung → Bool
is_pickable r = elim r.kind [ pickable ↦ true | _ ↦ false ]

-- The body of the `map` in `shapeLadder`.
shape_rung : ℤ → ℤ → TickDepthInput → Result ShapedRung
shape_rung unit min_liquidity depth = do
  let wei = units_to_wei depth.available_units unit
  apr ← tick_bps depth.apr_bps
  ok (record {
    apr_bps = apr;
    available_units = depth.available_units;
    available_wei = wei;
    kind = rung_kind wei min_liquidity;
  })

pub shape_rungs : ℤ → ℤ → List TickDepthInput → Result (List ShapedRung)
shape_rungs unit min_liquidity [] = ok []
shape_rungs unit min_liquidity (d ∷ ds) = do
  r ← shape_rung unit min_liquidity d
  rs ← shape_rungs unit min_liquidity ds
  ok (r ∷ rs)

-- `!best || rung.availableWei > best.availableWei`
abbrev is_deeper : ShapedRung → Option ShapedRung → Bool
is_deeper r none = true
is_deeper r (some b) = ltb_ℤ b.available_wei r.available_wei

-- The loop of `shapeLadder` that finds the deepest rung.
deepest : Option ShapedRung → List ShapedRung → Option ShapedRung
deepest best [] = best
deepest best (r ∷ rs) = deepest (if is_deeper r best then some r else best) rs

abbrev pub is_nil : List ShapedRung → Bool
is_nil [] = true
is_nil (_ ∷ _) = false

pub shape_ladder : List TickDepthInput → ℤ → ℤ → Result LadderModel
shape_ladder depths unit min_liquidity = do
  rungs ← shape_rungs unit min_liquidity depths
  let picked = filter is_pickable rungs
  ok (record {
    rungs = rungs;
    pickables = picked;
    empty_ladder = is_nil rungs;
    best_depth = deepest none picked;
  })

abbrev rung_tick : Option ShapedRung → Option ℕ
rung_tick none = none
rung_tick (some r) = some r.apr_bps

pub best_depth_tick : LadderModel → Option ℕ
best_depth_tick model = rung_tick model.best_depth

index_from : ℕ → List ShapedRung → ℕ → Option ℕ
index_from i [] apr_bps = none
index_from i (r ∷ rs) apr_bps =
    if r.apr_bps == apr_bps then some i else index_from (suc i) rs apr_bps

pub index_of_tick : List ShapedRung → ℕ → Option ℕ
index_of_tick rungs apr_bps = index_from 0 rungs apr_bps

-- `a ?? b`
abbrev or_else {ℓ} : {A : Type ℓ} → Option A → Option A → Option A
or_else none b = b
or_else (some a) b = some a

-- `Math.max(0, i)` of an index that may be -1.
abbrev pub index_or_zero : Option ℕ → ℕ
index_or_zero none = 0
index_or_zero (some i) = i

fallback_tick : LadderModel → Option ℕ
fallback_tick model = or_else (best_depth_tick model) (rung_tick (get_elem? model.rungs 0))

-- `selected` of `tickWindow`.
selected_tick : LadderModel → Option ℕ → Result (Option ℕ)
selected_tick model none = ok (fallback_tick model)
selected_tick model (some a) = elim (index_of_tick model.rungs a) [
  | some _ ↦ tick_bps a >>= λ t. ok (some t)
  | none ↦ ok (fallback_tick model)
]

-- `start` and `end` of `tickWindow`, from the index of the selected rung and the last index.
abbrev pub window_start : ℕ → ℕ → ℕ
window_start index last = if ltb last (index - 1 + 2) then last - 2 else index - 1

abbrev pub window_end : ℕ → ℕ → ℕ
window_end index last = min last (window_start index last + 2)

pub empty_window : TickWindow
empty_window = record {
  rungs = [];
  selected = none;
  prev = disabled_min;
  next = disabled_max;
  neighbor_below = none;
  neighbor_above = none;
  empty_ladder = true;
}

abbrev pub selected_index : List ShapedRung → Option ℕ → ℕ
selected_index rungs none = 0
selected_index rungs (some a) = index_or_zero (index_of_tick rungs a)

abbrev pub at_min : Option ℕ → Bounds → Bool
at_min none b = false
at_min (some a) b = leb a b.apr_min

abbrev pub at_max : Option ℕ → Bounds → Bool
at_max none b = false
at_max (some a) b = leb b.apr_max a

-- `tickWindow` of a ladder with rungs, around its selected tick.
pub window_at : List ShapedRung → Option ℕ → Bounds → TickWindow
window_at rungs selected bounds =
    let index = selected_index rungs selected in
    let last = length rungs - 1 in
    let start = window_start index last in
    let end = window_end index last in
    record {
      rungs = take (end + 1 - start) (drop start rungs);
      selected = selected;
      prev = if at_min selected bounds || leb index 0 then disabled_min else enabled;
      next = if at_max selected bounds || leb last index then disabled_max else enabled;
      neighbor_below = if ltb 0 start then get_elem? rungs (start - 1) else none;
      neighbor_above = if ltb end last then get_elem? rungs (end + 1) else none;
      empty_ladder = false;
    }

pub tick_window : LadderModel → Option ℕ → Bounds → Result TickWindow
tick_window model selected_apr_bps bounds =
    if model.empty_ladder || is_nil model.rungs
    then ok empty_window
    else (selected_tick model selected_apr_bps >>= λ s. ok (window_at model.rungs s bounds))

pub data Direction : Type 0 where
  down up : Direction

-- `model.rungs[nextIndex]`; an index of -1 finds nothing.
next_rung : List ShapedRung → Option ℕ → Direction → Option ShapedRung
next_rung rungs none d = get_elem? rungs 0
next_rung rungs (some i) up = get_elem? rungs (i + 1)
next_rung rungs (some zero) down = none
next_rung rungs (some (suc i)) down = get_elem? rungs i

pub step_window : LadderModel → ℕ → Direction → Bounds → Result TickWindow
step_window model selected_apr_bps direction bounds =
    let next = next_rung model.rungs (index_of_tick model.rungs selected_apr_bps) direction in
    tick_window model (or_else (rung_tick next) (some selected_apr_bps)) bounds

pub pool_available_wei : Option ShapedRung → ℤ → ℤ
pool_available_wei none min_liquidity = pos 0
pool_available_wei (some r) min_liquidity =
    if is_pickable r
    then (if ltb_ℤ r.available_wei min_liquidity then pos 0 else r.available_wei)
    else pos 0

pub align_supply_amount : ℤ → ℤ → Result ℤ
align_supply_amount amount unit = floor_to_unit amount unit

pub tick_in_bounds : ℕ → ℕ → ℕ → ℕ → Bool
tick_in_bounds apr_bps apr_min apr_max spacing =
    if leb spacing 0
    then false
    else leb apr_min apr_bps && leb apr_bps apr_max && apr_bps % spacing == 0
