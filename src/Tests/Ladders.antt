-- ===== src/Tests/Ladders.antt =====
-- The theorems about web/lib/ladder.ts at concrete inputs.
use ovrflo.Prelude.{ℕ, ◌≡◌, some, [], ◌∷◌, List, false, arith, filter, All}
use ovrflo.Prelude.Int.{pos}
use ovrflo.Prelude.Errors.{Returns}
use ovrflo.Ladder.{
  TickDepthInput, ShapedRung, LadderModel, Bounds, pickable, is_pickable, shape_ladder,
}
use ovrflo.Ladder.Shape.{IsShaped, IsPickable, IsDeepest, shape_ladder_lem}

abbrev depths : List TickDepthInput
depths =
    record { apr_bps = 100; available_units = pos 4 }
    ∷ record { apr_bps = 200; available_units = pos 0 }
    ∷ record { apr_bps = 300; available_units = pos 9 }
    ∷ []

shape_ladder_lem_example : Returns (shape_ladder depths (pos 10) (pos 50)) (λ m.
    IsShaped (pos 10) (pos 50) depths m.rungs
    × (m.pickables ≡ filter is_pickable m.rungs)
    × All (IsPickable (pos 50)) m.pickables
    × IsDeepest m.pickables m.best_depth)
shape_ladder_lem_example = shape_ladder_lem depths (pos 10) (pos 50) (omega arith)

abbrev rung : ℕ → ShapedRung
rung apr = record {
  apr_bps = apr;
  available_units = pos 7;
  available_wei = pos 70;
  kind = pickable;
}

abbrev four : LadderModel
four = record {
  rungs = rung 100 ∷ rung 200 ∷ rung 300 ∷ rung 400 ∷ [];
  pickables = rung 100 ∷ rung 200 ∷ rung 300 ∷ rung 400 ∷ [];
  empty_ladder = false;
  best_depth = some (rung 100);
}

abbrev limits : Bounds
limits = record { apr_min = 100; apr_max = 400 }
