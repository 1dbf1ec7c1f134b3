-- ===== src/Tests/Ledgers.antt =====
-- A ledger of trust.py that takes an issuance, its outcome and a replay outcome.
use predictive_autoscaler.Prelude.{ℕ, ◌≡◌, refl, none, some, Bool, Result, ok, err}
use predictive_autoscaler.Calibration.{in_cohort, pinball_rps}
use predictive_autoscaler.Trust.Types.{TrustError, Ledger, EvidenceRecord, IssuanceNote}
use predictive_autoscaler.Trust.Ledger.{
  new_ledger, note_issuance, same_identity, issue_prospective, update_bucket, prune,
}
use predictive_autoscaler.Trust.Ledger.Outcome.{
  note_outcome, covered_of, replay_bucket, outcome_replay, outcome_prospective, outcome_scored,
  error_bucket, step_bucket, bound_bucket, bound_outcome, gate_outcome,
}
use predictive_autoscaler.Trust.Ledger.Once.{
  now, then_matured, note_outcome_once, note_issuance_once,
}
use predictive_autoscaler.Trust.Ledger.Replay.{Isolated, note_outcome_replay}
use predictive_autoscaler.Trust.Ledger.Counts.{IsLedger}
use predictive_autoscaler.Trust.Ledger.Reach.{started, issued, matured, Reached-IsLedger}
use predictive_autoscaler.Tests.Numbers.{nat_float}

abbrev fresh : Ledger ℕ
fresh = new_ledger "e" "lstm" "r" 60

abbrev taken : Result TrustError (Ledger ℕ) → Ledger ℕ
taken (ok l) = l
taken (err e) = fresh

abbrev note : IssuanceNote
note = record {
  seq = 1;
  epoch = "e";
  model = "lstm";
  recipe = "r";
  origin = 3600;
  window_end = 3720;
  deadline_s = 3900;
  lead_s = 60;
  mode = "prospective";
  bounded = Bool.true;
}

abbrev outcome : EvidenceRecord ℕ
outcome = record {
  cal = record {
    seq = 1;
    epoch = "e";
    model = "lstm";
    recipe = "r";
    issuance_id = "i1";
    decision_origin = 3600;
    window_end = 3720;
    base_rps = 5;
    upper_rps = some 8;
    status = "scored";
    y_rps = some 7;
  };
  mode = "prospective";
  committed_at_ms = 3_800_000;
  step_abs_errors = none;
}

abbrev hindsight : EvidenceRecord ℕ
hindsight = record outcome { cal = record outcome.cal { seq = 2 }; mode = "replay" }

abbrev after_note : Ledger ℕ
after_note = taken (note_issuance fresh note 86_400)

noted : note_issuance fresh note 86_400 ≡ ok after_note
unfolding note_issuance same_identity issue_prospective update_bucket prune new_ledger in_cohort
noted = refl

abbrev after_outcome : Ledger ℕ
after_outcome = taken (note_outcome after_note outcome 60 0 10 86_400)

outcome_noted : note_outcome after_note outcome 60 0 10 86_400 ≡ ok after_outcome
unfolding note_issuance same_identity issue_prospective update_bucket prune new_ledger in_cohort
    note_outcome covered_of outcome_prospective outcome_scored error_bucket step_bucket bound_bucket
    bound_outcome gate_outcome pinball_rps
outcome_noted = refl

abbrev after_replay : Ledger ℕ
after_replay = taken (note_outcome after_outcome hindsight 60 0 10 86_400)

replay_noted : note_outcome after_outcome hindsight 60 0 10 86_400 ≡ ok after_replay
unfolding note_issuance same_identity issue_prospective update_bucket prune new_ledger in_cohort
    note_outcome covered_of outcome_prospective outcome_scored error_bucket step_bucket bound_bucket
    bound_outcome gate_outcome pinball_rps outcome_replay replay_bucket
replay_noted = refl

note_issuance_once_example : note_issuance after_replay note 86_400 ≡ ok after_replay
note_issuance_once_example =
    note_issuance_once 60 0 10 86_400 note fresh after_note after_replay noted
      (then_matured hindsight (then_matured outcome now outcome_noted) replay_noted)

note_outcome_once_example : note_outcome after_replay outcome 60 0 10 86_400 ≡ ok after_replay
note_outcome_once_example =
    note_outcome_once 60 0 10 86_400 outcome after_note after_outcome after_replay outcome_noted
      (then_matured hindsight now replay_noted)

note_outcome_replay_example : Isolated 3720 86_400 after_outcome after_replay
note_outcome_replay_example =
    note_outcome_replay hindsight 60 0 10 86_400 after_outcome after_replay refl replay_noted

Reached-IsLedger_example : IsLedger 10 86_400 after_replay
Reached-IsLedger_example =
    Reached-IsLedger 60 0 10 86_400 "e" "lstm" "r" 60 after_replay
      (matured hindsight (matured outcome (issued note started noted) outcome_noted) replay_noted)
