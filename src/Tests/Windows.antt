-- ===== src/Tests/Windows.antt =====
-- A window of maturation.py of two targets: scored, and one whose truth is late.
use predictive_autoscaler.Prelude.{
  ℕ, ◌≡◌, refl, Option, none, some, List, [], ◌∷◌, Dict, ok, min, arith, Bool, nat_eq,
}
use predictive_autoscaler.Maturation.{
  Payload, Scored, window_outcome, settle_window, close_window, scored_payload, truth_deadline_ms,
}
use predictive_autoscaler.Maturation.Window.{check_window, last_target}
use predictive_autoscaler.Maturation.Collect.{scan, admit, max_values}
use predictive_autoscaler.Maturation.Final.{SameBy, window_outcome_final}
use predictive_autoscaler.Maturation.Truth.{
  truth, due_status, status_of, IsTruthful, window_outcome-due_status, window_outcome-IsTruthful,
  window_outcome_terminal,
}
use predictive_autoscaler.Tests.Numbers.{nat_float, digests}

abbrev grid : List ℕ
grid = 60 ∷ 120 ∷ []

abbrev received : Dict ℕ (ℕ × ℕ)
received = (60, (7, 61_000)) ∷ (120, (9, 121_000)) ∷ []

abbrev received_more : Dict ℕ (ℕ × ℕ)
received_more = (60, (7, 61_000)) ∷ (120, (9, 121_000)) ∷ (180, (1, 400_000)) ∷ []

abbrev payload : Scored ℕ
payload = record {
  y_window_max_rps = 9;
  targets = 2;
  targets_sha256 = "grid";
  base_window_max_rps = 5;
  upper_window_max_rps = some 8;
  covered = some Bool.false;
  residual_rps = 4;
  abs_error_rps = 4;
  values = 7 ∷ 9 ∷ [];
  values_sha256 = "values";
  completed_at_ms = 121_000;
}

scored_run :
    window_outcome digests grid 5 (some 8) received 200_000 10 30 none
    ≡ ok (some (Payload.scored payload))
unfolding window_outcome settle_window close_window scored_payload check_window last_target
    truth_deadline_ms scan admit max_values
scored_run = refl

-- The third receipt came after the run.
same_receipts : SameBy 200_000 received received_more
same_receipts t = ground (arith, nat_eq.same_iff 180 t)

window_outcome_final_example :
    window_outcome digests grid 5 (some 8) received_more 500_000 10 30 none
    ≡ ok (some (Payload.scored payload))
window_outcome_final_example =
    window_outcome_final digests grid 5 (some 8) received received_more 200_000 500_000 10 30 none
      (Payload.scored payload) (ground arith) same_receipts scored_run

window_outcome-IsTruthful_example :
    (vs : List ℕ) × (truth received (min 200_000 (truth_deadline_ms (last_target grid) 10 30)) grid
      ≡ some vs)
    × IsTruthful digests grid 5 (some 8) vs payload
window_outcome-IsTruthful_example =
    window_outcome-IsTruthful digests grid 5 (some 8) received 200_000 10 30 none payload scored_run

window_outcome-due_status_example :
    (o : Option (Payload ℕ)) × (window_outcome digests grid 5 (some 8) [] 200_000 10 30 none ≡ ok o)
    × (status_of digests o
        ≡ due_status digests
            (truth [] (min 200_000 (truth_deadline_ms (last_target grid) 10 30)) grid)
            200_000
            (truth_deadline_ms (last_target grid) 10 30))
unfolding check_window last_target
window_outcome-due_status_example =
    window_outcome-due_status digests grid 5 (some 8) [] 200_000 10 30 none refl (ground arith) refl

window_outcome_terminal_example :
    (p : Payload ℕ) × (window_outcome digests grid 5 none received 170_000 10 30 none ≡ ok (some p))
unfolding check_window last_target truth_deadline_ms
window_outcome_terminal_example =
    window_outcome_terminal digests grid 5 none received 170_000 10 30 none refl (ground arith)
