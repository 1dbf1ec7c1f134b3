-- ===== src/Maturation/Outcomes.antt =====
-- The outcome payloads of maturation.py, and the digests that they carry.
use predictive_autoscaler.Prelude.{
  ℕ, String, Bool, Option, none, some, List, ◌==◌, string_eq, if◌then◌else◌,
}

-- SHA-256 of the canonical JSON of a grid and of the sampled values: the hash is the library's.
pub record Digests (F : Type 0) : Type 0 where
  pub targets_sha256 : List ℕ → String
  pub values_sha256 : List F → String

pub record Scored (F : Type 0) : Type 0 where
  pub y_window_max_rps : F
  pub targets : ℕ
  pub targets_sha256 : String
  pub base_window_max_rps : F
  pub upper_window_max_rps : Option F
  pub covered : Option Bool
  pub residual_rps : F
  pub abs_error_rps : F
  pub values : List F
  pub values_sha256 : String
  pub completed_at_ms : ℕ

-- `excluded_window` and `missing_truth`: how many targets, of how many, the grid's digest, the first one
-- (with its exclusion) and the deadline.
pub data Payload (F : Type 0) : Type 0 where
  excluded_window : ℕ → ℕ → String → ℕ → String → ℕ → Payload F
  missing_truth : ℕ → ℕ → String → ℕ → ℕ → Payload F
  scored : Scored F → Payload F

pub data Status : Type 0 where
  is_scored is_unscorable : Status

abbrev pub status : {F : Type 0} → Payload F → Status
status (scored s) = is_scored
status (excluded_window _ _ _ _ _ _) = is_unscorable
status (missing_truth _ _ _ _ _) = is_unscorable

-- A text that Python takes for true.
abbrev pub truthy : Option String → Option String
truthy none = none
truthy (some why) = if why == "" then none else some why
