-- ===== src/Calibration/Types.antt =====
-- The state, the policy and the records of calibration.py.
use predictive_autoscaler.Prelude.{ℕ, String, Option, List}

pub data CalibrationError : Type 0 where
  inconsistent_policy bad_base other_epoch other_model unknown_status bad_truth : CalibrationError

pub record CalibrationPolicy : Type 0 where
  pub lead_seconds : ℕ
  pub nominal_bps : ℕ
  pub eta_bps : ℕ
  pub min_bps : ℕ
  pub max_bps : ℕ
  pub min_windows : ℕ
  pub max_scores : ℕ
  pub retention_seconds : ℕ

-- The `all` and `gate` diagnostics: the error sum is `abs_error_sum_rps` in the first and
-- `pinball_sum_rps` in the second.
pub record Diagnostics (F : Type 0) : Type 0 where
  pub scored : ℕ
  pub unscorable : ℕ
  pub bounded : ℕ
  pub covered : ℕ
  pub error_sum_rps : F

pub record CalibrationState (F : Type 0) : Type 0 where
  pub epoch : String
  pub model : String
  pub recipe : String
  pub a_e8 : ℕ
  pub scores : List (ℕ × F)
  pub last_seq : ℕ
  pub newest_window_end : Option ℕ
  pub all_windows : Diagnostics F
  pub gate : Diagnostics F
  pub level_updates : ℕ
  pub at_bound : ℕ

pub record CalibrationRecord (F : Type 0) : Type 0 where
  pub seq : ℕ
  pub epoch : String
  pub model : String
  pub recipe : String
  pub issuance_id : String
  pub decision_origin : ℕ
  pub window_end : ℕ
  pub base_rps : F
  pub upper_rps : Option F
  pub status : String
  pub y_rps : Option F

pub data Unavailable : Type 0 where
  calibration_insufficient rank_overflow : Unavailable

-- A bound with the score that it rests on, or why there is none.
pub data BoundInfo (F : Type 0) : Type 0 where
  available : F → F → BoundInfo F
  unavailable : Unavailable → BoundInfo F
