-- ===== src/Tests/Levels.antt =====
-- A calibration state of calibration.py after two windows, and its bounds.
use predictive_autoscaler.Prelude.{
  ℕ, ◌+◌, ◌-◌, ◌*◌, ◌≤◌, ◌<◌, ◌≡◌, refl, none, some, List, [], ◌∷◌, ok, arith, count, ◌≤?◌, fmax,
  ◌⊕◌, ◌⊘◌, sort_by,
}
use predictive_autoscaler.Calibration.{
  CalibrationPolicy, CalibrationState, CalibrationRecord, E8, BoundInfo, initial, rank, upper_bound,
  available, buffered_scores, bound_of, check_policy, in_cohort, pinball_rps, nominal_ratio,
}
use predictive_autoscaler.Calibration.Apply.{
  moved_level, clip, apply, apply_new, apply_truth, apply_scored, apply_unscorable, apply_cohort,
  count_scored, count_bound, add_score, trim_scores, move_level,
}
use predictive_autoscaler.Calibration.Record.{apply_all}
use predictive_autoscaler.Calibration.Level.{IsPolicy, check_policy-IsPolicy}
use predictive_autoscaler.Calibration.Direction.{LevelMove, apply-LevelMove}
use predictive_autoscaler.Calibration.Invariant.{IsWell, apply_all-IsWell}
use predictive_autoscaler.Calibration.Once.{apply_all_replay}
use predictive_autoscaler.Calibration.Bound.{score_count, rank_bounds, upper_bound_coverage}
use predictive_autoscaler.Calibration.Answer.{wanted, Answer, upper_bound-Answer}
use predictive_autoscaler.Tests.Numbers.{nat_float, nat_total, nat_trans}

abbrev policy : CalibrationPolicy
policy = record {
  lead_seconds = 60;
  nominal_bps = 1_000;
  eta_bps = 50;
  min_bps = 200;
  max_bps = 5_000;
  min_windows = 1;
  max_scores = 3;
  retention_seconds = 600;
}

is_policy : IsPolicy policy
unfolding check_policy
is_policy = (check_policy-IsPolicy policy).0 refl

abbrev cohort_window : CalibrationRecord ℕ
cohort_window = record {
  seq = 1;
  epoch = "e";
  model = "lstm";
  recipe = "r";
  issuance_id = "i1";
  decision_origin = 60;
  window_end = 120;
  base_rps = 5;
  upper_rps = some 8;
  status = "scored";
  y_rps = some 9;
}

abbrev closed_window : CalibrationRecord ℕ
closed_window = record cohort_window {
  seq = 2;
  window_end = 180;
  status = "unscorable";
  y_rps = none;
}

abbrev run : List (CalibrationRecord ℕ)
run = cohort_window ∷ closed_window ∷ []

abbrev after_run : CalibrationState ℕ
after_run = record {
  epoch = "e";
  model = "lstm";
  recipe = "r";
  a_e8 = 9_550_000;
  scores = (120, 4) ∷ [];
  last_seq = 2;
  newest_window_end = some 120;
  all_windows = record { scored = 1; unscorable = 1; bounded = 1; covered = 0; error_sum_rps = 4 };
  gate = record { scored = 1; unscorable = 1; bounded = 1; covered = 0; error_sum_rps = 1 };
  level_updates = 1;
  at_bound = 0;
}

run-after_run : apply_all (initial policy "e" "lstm" "r") run policy ≡ ok after_run
unfolding apply_all apply apply_new apply_truth apply_scored apply_unscorable apply_cohort initial
    in_cohort count_scored count_bound add_score trim_scores sort_by move_level moved_level clip
    pinball_rps nominal_ratio
run-after_run = refl

apply_all-IsWell_example : IsWell policy after_run
apply_all-IsWell_example =
    apply_all-IsWell policy "e" "lstm" "r" run after_run is_policy run-after_run

apply_all_replay_example : apply_all after_run run policy ≡ ok after_run
apply_all_replay_example =
    apply_all_replay policy run (initial policy "e" "lstm" "r") after_run run-after_run

-- The next cohort window, whose bound held.
abbrev next_window : CalibrationRecord ℕ
next_window = record cohort_window {
  seq = 3;
  decision_origin = 120;
  window_end = 240;
  y_rps = some 6;
}

abbrev after_next : CalibrationState ℕ
after_next = record after_run {
  a_e8 = 9_600_000;
  scores = (120, 4) ∷ (240, 1) ∷ [];
  last_seq = 3;
  newest_window_end = some 240;
  all_windows = record { scored = 2; unscorable = 1; bounded = 2; covered = 1; error_sum_rps = 5 };
  gate = record { scored = 2; unscorable = 1; bounded = 2; covered = 1; error_sum_rps = 1 };
  level_updates = 2;
}

next_applied : apply after_run next_window policy ≡ ok after_next
unfolding apply apply_new apply_truth apply_scored apply_cohort in_cohort count_scored count_bound
    add_score trim_scores sort_by move_level moved_level clip pinball_rps nominal_ratio
next_applied = refl

apply-LevelMove_example : LevelMove policy next_window after_run after_next
apply-LevelMove_example =
    apply-LevelMove policy "e" "lstm" "r" run next_window after_run after_next is_policy
      run-after_run next_applied

rank_bounds_example :
    (20 * (E8 - 10_000_000) ≤ rank 19 10_000_000 * E8)
    × (rank 19 10_000_000 * E8 < 20 * (E8 - 10_000_000) + E8)
rank_bounds_example = rank_bounds 19 10_000_000

abbrev high_level : CalibrationState ℕ
high_level = record after_run { a_e8 = 50_000_000 }

bound_run : upper_bound high_level policy 5 200 ≡ ok (1, 1, 0, available 9 4)
unfolding upper_bound bound_of buffered_scores rank sort_by
bound_run = refl

upper_bound-Answer_example :
    (info : BoundInfo ℕ) × (upper_bound high_level policy 5 200
      ≡ ok (
        score_count high_level policy 5 200,
        wanted high_level policy 5 200,
        ◌⊘◌ {F = ℕ} 50_000_000 E8,
        info,
      ))
    × Answer high_level policy 5 200 info
upper_bound-Answer_example =
    upper_bound-Answer high_level policy 5 200 nat_total nat_trans refl refl (omega arith)

upper_bound_coverage_example :
    (1 ≤ 1)
    × (1 ≡ score_count high_level policy 5 200)
    × (2 * (E8 - 50_000_000) ≤ count (λ e. e ≤? 4) (buffered_scores high_level policy 200) * E8)
    × (◌≡◌ {A = ℕ} 9 (fmax 0 (5 ⊕ 4)))
upper_bound_coverage_example =
    upper_bound_coverage high_level policy 5 200 nat_total nat_trans 1 1 0 9 4 (omega arith)
      bound_run
