-- ===== src/Tests/Plans.antt =====
-- A history of five points in chunks of two.
use predictive_autoscaler.Prelude.{ℕ, ◌+◌, ◌*◌, ◌≤◌, ◌≡◌, refl, List, [], ◌∷◌, All, ok, arith}
use predictive_autoscaler.History.{plan_chunks, chunks_from}
use predictive_autoscaler.History.Cover.{grid, size, points, plan_chunks-covers}

five_points : plan_chunks 60 300 60 2 ≡ ok ((60, 120) ∷ (180, 240) ∷ (300, 300) ∷ [])
unfolding plan_chunks chunks_from
five_points = refl

plan_chunks-covers_example :
    (cs : List (ℕ × ℕ)) × (plan_chunks 60 (60 + 4 * 60) 60 2 ≡ ok cs)
    × (points 60 cs ≡ grid 60 60 5)
    × All (λ c. size 60 c ≤ 2) cs
plan_chunks-covers_example = plan_chunks-covers 60 4 60 1 (omega arith)
