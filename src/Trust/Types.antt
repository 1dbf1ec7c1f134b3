-- ===== src/Trust/Types.antt =====
-- The state of trust.py: an evidence ledger with its hourly buckets.
use predictive_autoscaler.Prelude.{ℕ, String, Bool, Option, List, Dict}
use predictive_autoscaler.Calibration.{CalibrationRecord}

pub data TrustError : Type 0 where
  other_identity unknown_mode no_truth unknown_candidate mixed_candidates other_recipe other_pairs :
      TrustError

abbrev pub hour : ℕ
hour = 3600

abbrev pub day : ℕ
day = 86400

-- An hourly bucket: the prospective counts and sums, then the replay counts.
pub record Bucket (F : Type 0) : Type 0 where
  pub iss : ℕ
  pub g_iss : ℕ
  pub sc : ℕ
  pub un : ℕ
  pub g_sc : ℕ
  pub g_un : ℕ
  pub a_bd : ℕ
  pub a_cv : ℕ
  pub g_bd : ℕ
  pub g_cv : ℕ
  pub n_step : ℕ
  pub pin : F
  pub abs_sum : F
  pub bias : F
  pub st0 : F
  pub st1 : F
  pub st2 : F
  pub r_iss : ℕ
  pub r_sc : ℕ
  pub r_un : ℕ
  pub r_bd : ℕ
  pub r_cv : ℕ

pub record Totals : Type 0 where
  pub issued : ℕ
  pub covered : ℕ
  pub missed : ℕ
  pub unscorable : ℕ
  pub prospective_gate_bounded : ℕ
  pub replay_gate_bounded : ℕ

pub record Ledger (F : Type 0) : Type 0 where
  pub epoch : String
  pub model : String
  pub recipe : String
  pub interval_s : ℕ
  pub buckets : Dict ℕ (Bucket F)
  pub pending : Dict ℕ ℕ
  pub recent : List ℕ
  pub consecutive_misses : ℕ
  pub first_prospective_s : Option ℕ
  pub first_issue_s : Option ℕ
  pub last_prospective_outcome_s : Option ℕ
  pub last_outcome_seq : ℕ
  pub last_issuance_seq : ℕ
  pub newest_s : Option ℕ
  pub totals : Totals

-- `EvidenceRecord`: the step errors are those of the first, middle and last target.
pub record EvidenceRecord (F : Type 0) : Type 0 where
  pub cal : CalibrationRecord F
  pub mode : String
  pub committed_at_ms : ℕ
  pub step_abs_errors : Option (F × F × F)

-- What `note_issuance` is told of an issuance.
pub record IssuanceNote : Type 0 where
  pub seq : ℕ
  pub epoch : String
  pub model : String
  pub recipe : String
  pub origin : ℕ
  pub window_end : ℕ
  pub deadline_s : ℕ
  pub lead_s : ℕ
  pub mode : String
  pub bounded : Bool
