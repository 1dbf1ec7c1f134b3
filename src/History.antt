-- ===== src/History.antt =====
-- The plan of a history read in chunks (plan_chunks of ml-engine/forecasting/history.py).
pub mod Cover
use predictive_autoscaler.Prelude.{
  ℕ, zero, suc, ◌+◌, ◌-◌, ◌*◌, ◌/◌, ◌%◌, min, not, ◌||◌, List, [], ◌∷◌, ltb, leb, ◌==◌, nat_eq,
  if◌then◌else◌, Result, ok, err, raise_if, ◌>>=◌, ◌>>◌,
}

pub data PlanError : Type 0 where
  bad_plan : PlanError

-- The loop from s, on fuel.
unfoldable pub chunks_from : ℕ → ℕ → ℕ → ℕ → ℕ → List (ℕ × ℕ)
chunks_from zero s end_s interval_s max_points = []
chunks_from (suc fuel) s end_s interval_s max_points =
    let e = min end_s (s + (max_points - 1) * interval_s) in
    let rest = chunks_from fuel (e + interval_s) end_s interval_s max_points in
    if leb s end_s then (s, e) ∷ rest else []

-- The fuel is the number of grid points: every round of the loop takes at least one. The test of
-- end < start comes first here, since end - start stops at 0.
unfoldable pub plan_chunks : ℕ → ℕ → ℕ → ℕ → Result PlanError (List (ℕ × ℕ))
plan_chunks start end_s interval_s max_points = do
  raise_if (ltb end_s start || not ((end_s - start) % interval_s == 0) || ltb max_points 1) bad_plan
  ok (chunks_from ((end_s - start) / interval_s + 1) start end_s interval_s max_points)
