-- ===== src/Trust/Candidate.antt =====
-- The inputs, gates and verdicts of trust.py, and the settings that the gates compare with.
use predictive_autoscaler.Prelude.{ℕ, String, Bool, ◌&&◌, Option, Dict}
use predictive_autoscaler.Trust.Types.{Ledger}

-- `TrustSettings` of contracts.py.
pub record TrustSettings : Type 0 where
  pub min_shadow_hours : ℕ
  pub min_prospective_windows : ℕ
  pub coverage_tolerance_bps : ℕ
  pub worst_day_min_outcomes : ℕ
  pub min_availability_bps : ℕ
  pub acute_consecutive_misses : ℕ
  pub acute_recent_windows : ℕ
  pub repromotion_hours : ℕ
  pub repromotion_windows : ℕ
  pub challenger_min_pairs : ℕ
  pub challenger_min_hours : ℕ
  pub challenger_loss_ratio_bps : ℕ
  pub challenger_exit_loss_ratio_bps : ℕ
  pub challenger_cost_ratio_bps : ℕ
  pub max_fit_age_hours : ℕ

pub record CandidateInputs (F : Type 0) : Type 0 where
  pub model : String
  pub ledger : Ledger F
  pub bound_available : Bool
  pub calibration_windows : ℕ
  pub min_calibration_windows : ℕ
  pub history_seconds : ℕ
  pub required_history_seconds : ℕ
  pub data_fresh : Bool
  pub fit_age_seconds : Option ℕ

pub record Global (F : Type 0) : Type 0 where
  pub now_s : ℕ
  pub lead_seconds : ℕ
  pub nominal_miscoverage : F
  pub identity_ok : Bool
  pub store_healthy : Bool
  pub replay_suite_passed : Bool
  pub startup_budget_valid : Bool

pub record Gates : Type 0 where
  pub identity : Bool
  pub state : Bool
  pub fit : Bool
  pub history : Bool
  pub calibration : Bool
  pub prospective : Bool
  pub coverage : Bool
  pub availability : Bool

-- `all(gates.values())`; the gate `fit` is the source's "data".
abbrev pub all_gates : Gates → Bool
all_gates g =
    g.identity && g.state && g.fit && g.history && g.calibration && g.prospective && g.coverage
    && g.availability

pub data Reason : Type 0 where
  identity_mismatch state_unavailable data_unavailable history_insufficient : Reason
  calibration_insufficient shadow_insufficient coverage_low lead_insufficient : Reason
  replay_gate_missing ready : Reason

pub data Phase : Type 0 where
  collecting calibrating shadow trusted_phase degraded : Phase

-- The details that `candidate_gates` returns beside the gates.
pub record GateInfo (F : Type 0) : Type 0 where
  pub coverage_gate : Option F
  pub coverage_all : Option F
  pub outcome_availability : Option F
  pub prediction_availability : Option F
  pub overdue_windows : ℕ
  pub prospective : ℕ
  pub replay : ℕ
  pub eta : Option ℕ

pub record CandidateVerdict (F : Type 0) : Type 0 where
  pub model : String
  pub recipe : String
  pub gates : Gates
  pub reason : Reason
  pub phase : Phase
  pub trusted : Bool
  pub info : GateInfo F
  pub eta_seconds : Option ℕ

pub record Verdict (F : Type 0) : Type 0 where
  pub selected : Option String
  pub phase : Phase
  pub reason : Reason
  pub prediction_ready : Bool
  pub candidates : Dict String (CandidateVerdict F)
  pub promoted : Dict String Bool
