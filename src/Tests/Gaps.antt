-- ===== src/Tests/Gaps.antt =====
-- A series with one missing slot.
use predictive_autoscaler.Prelude.{ℕ, ◌≡◌, refl, some, List, [], ◌∷◌, All, arith, sort_by, nat_eq}
use predictive_autoscaler.Gapfill.{
  GapRule, point_le, fills, fill_gaps, fill_gap, fill_by, slots, decide, partition, overlaps,
}
use predictive_autoscaler.Gapfill.Safe.{Between, fills-Between}
use predictive_autoscaler.Tests.Numbers.{nat_float}

abbrev short_gaps : GapRule
short_gaps = record {
  cutoff = some 5000;
  boundaries = 3000 ∷ [];
  grid_s = 600;
  max_missing = 3;
  forbidden = (1500, 1600) ∷ [];
}

abbrev series : List (ℕ × ℕ)
series = (1800, 9) ∷ (600, 3) ∷ []

one_fill : fills {F = ℕ} short_gaps ((1800, 9) ∷ (3000, 3) ∷ (600, 3) ∷ []) ≡ (1200, 3) ∷ []
unfolding fills fill_gaps fill_gap fill_by slots decide partition overlaps sort_by
one_fill = refl

fills-Between_example :
    All (Between short_gaps (omega arith) (sort_by point_le series)) (fills short_gaps series)
fills-Between_example = fills-Between short_gaps (omega arith) series
