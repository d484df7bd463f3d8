-- ===== src/Borrow.antt =====
-- web/lib/borrow.ts: the tick that a borrow draws on, and the plan of its fill.
pub mod Plan
use ovrflo.Prelude.{
  ℕ, Bool, true, false, not, ◌&&◌, Option, none, some, List, [], ◌∷◌, ◌==◌, if◌then◌else◌, filter,
  find, any, sort,
}
use ovrflo.Prelude.Int.{ℤ, pos, pos_part, neg_part, ltb_ℤ, leb_ℤ}
use ovrflo.Prelude.Sorting.{by_key}
use ovrflo.Router.{TickDepth}

pub record SelectedBorrowPlan : Type 0 where
  pub fill : ℤ
  pub is_partial : Bool
  pub alternative_apr_bps : Option ℕ

abbrev pub is_liquid : TickDepth → Bool
is_liquid t = ltb_ℤ (pos 0) t.total

-- `list.sort((a, b) => a.aprBps - b.aprBps)`
abbrev pub by_rate : TickDepth → TickDepth → Bool
by_rate = by_key (λ (t : TickDepth). t.apr_bps)

-- `list[0]?.aprBps ?? null`
abbrev pub first_rate : List TickDepth → Option ℕ
first_rate [] = none
first_rate (t ∷ ts) = some t.apr_bps

abbrev pub keeps_tick : List TickDepth → Option ℕ → Bool
keeps_tick liquid none = false
keeps_tick liquid (some a) = any (λ t. t.apr_bps == a) liquid

unfoldable pub resolve_selected_tick : List TickDepth → Option ℕ → Option ℕ
resolve_selected_tick ladder selected =
    let liquid = sort by_rate (filter is_liquid ladder) in
    if keeps_tick liquid selected then selected else first_rate liquid

-- `selected?.total ?? 0n`
abbrev pub total_of : Option TickDepth → ℤ
total_of none = pos 0
total_of (some t) = t.total

abbrev pub is_covering : ℕ → ℤ → TickDepth → Bool
is_covering selected target t = not (t.apr_bps == selected) && leb_ℤ target t.total && is_liquid t

unfoldable pub plan_selected_borrow : List TickDepth → ℕ → ℤ → SelectedBorrowPlan
plan_selected_borrow ladder selected target =
    let depth = total_of (find (λ t. t.apr_bps == selected) ladder) in
    let fill = if ltb_ℤ target depth then target else depth in
    if leb_ℤ target fill
    then record { fill = fill; is_partial = false; alternative_apr_bps = none }
    else record {
      fill = fill;
      is_partial = true;
      alternative_apr_bps = first_rate (sort by_rate (filter (is_covering selected target) ladder));
    }
