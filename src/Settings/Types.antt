-- ===== src/Settings/Types.antt =====
-- The settings and what they are read from (contracts.py: the settings classes, the tables of the
-- admitted ranges, LeadSelection). The prediction object's parts are already told apart by their type.
use predictive_autoscaler.Prelude.{
  ℕ, Bool, Option, none, some, List, [], ◌∷◌, String, Dict, lookup, string_eq, leb, ◌&&◌,
  if◌then◌else◌, Result, ok, err,
}
use predictive_autoscaler.Trust.Candidate.{TrustSettings}

pub data ContractError : Type 0 where
  contract_refused : ContractError

-- An integer setting: not there, not an integer or negative, or a number.
pub data Field : Type 0 where
  absent malformed : Field
  given : ℕ → Field

-- `_object`: a group that is not there (or null), no object, or an object.
pub data RawGroup : Type 0 where
  no_group not_an_object : RawGroup
  object : Dict String Field → RawGroup

-- spec.prediction; `keys` are all of its keys, `enabled` whether pred.get("enabled", True) is True.
pub record RawPrediction : Type 0 where
  pub keys : List String
  pub enabled : Bool
  pub engine : Option String
  pub seasonality : Option String
  pub sample_interval : Field
  pub horizon_minutes : Field
  pub history_days : Field
  pub settlement_seconds : Field
  pub outcome_grace_seconds : Field
  pub risk : RawGroup
  pub calibration : RawGroup
  pub trust : RawGroup
  pub predictive_extra : RawGroup

pub record CalibrationSettings : Type 0 where
  pub min_windows : ℕ
  pub max_scores : ℕ
  pub retention_days : ℕ
  pub eta_bps : ℕ
  pub min_miscoverage_bps : ℕ
  pub max_miscoverage_bps : ℕ

-- RiskSettings and PredictiveExtraSettings are the fields miscoverage_bps, max_replicas and max_percent.
pub record ForecastSettings : Type 0 where
  pub engine : String
  pub sample_interval_seconds : ℕ
  pub seasonality : String
  pub history_days : ℕ
  pub horizon_seconds : ℕ
  pub settlement_seconds : ℕ
  pub outcome_grace_seconds : ℕ
  pub miscoverage_bps : ℕ
  pub calibration : CalibrationSettings
  pub trust : TrustSettings
  pub max_replicas : ℕ
  pub max_percent : ℕ

-- The settings that stand outside the groups, checked.
pub record GridSettings : Type 0 where
  pub engine : String
  pub interval : ℕ
  pub seasonality : String
  pub history : ℕ
  pub horizon : ℕ
  pub settle : ℕ
  pub grace : ℕ

-- The keys of a group with their inclusive bounds.
abbrev pub Spec : Type 0
Spec = Dict String (ℕ × ℕ)

abbrev pub risk_spec : Spec
risk_spec = ("miscoverageBps", (100, 2500)) ∷ []

abbrev pub calibration_spec : Spec
calibration_spec =
    ("minWindows", (16, 4096))
    ∷ ("maxScores", (16, 4096))
    ∷ ("retentionDays", (1, 28))
    ∷ ("etaBps", (1, 1000))
    ∷ ("minMiscoverageBps", (1, 5000))
    ∷ ("maxMiscoverageBps", (1, 5000))
    ∷ []

abbrev pub trust_spec : Spec
trust_spec =
    ("minShadowHours", (1, 672))
    ∷ ("minProspectiveWindows", (1, 4096))
    ∷ ("coverageToleranceBps", (0, 2500))
    ∷ ("worstDayMinOutcomes", (1, 1440))
    ∷ ("minAvailabilityBps", (0, 10_000))
    ∷ ("acuteConsecutiveMisses", (1, 1000))
    ∷ ("acuteRecentWindows", (1, 4096))
    ∷ ("repromotionHours", (0, 672))
    ∷ ("repromotionWindows", (1, 4096))
    ∷ ("challengerMinPairs", (1, 4096))
    ∷ ("challengerMinHours", (1, 672))
    ∷ ("challengerLossRatioBps", (1, 10_000))
    ∷ ("challengerExitLossRatioBps", (1, 20_000))
    ∷ ("challengerCostRatioBps", (10_000, 20_000))
    ∷ ("maxFitAgeHours", (1, 24))
    ∷ []

abbrev pub extra_spec : Spec
extra_spec = ("maxReplicas", (0, 1000)) ∷ ("maxPercent", (0, 1000)) ∷ []

abbrev pub allowed_intervals : List ℕ
allowed_intervals = 60 ∷ 120 ∷ 180 ∷ 240 ∷ 300 ∷ 360 ∷ 480 ∷ 600 ∷ []

abbrev pub known_keys : List String
known_keys =
    "engine" ∷ "sampleIntervalSeconds" ∷ "seasonality" ∷ "historyDays" ∷ "settlementSeconds"
    ∷ "outcomeGraceSeconds" ∷ "risk" ∷ "calibration" ∷ "trust" ∷ "predictiveExtra" ∷ "enabled"
    ∷ "horizonMinutes" ∷ "leadTimeMinutes" ∷ "updateIntervalSeconds" ∷ []

abbrev pub or_text : Option String → String → String
or_text none d = d
or_text (some s) d = s

abbrev pub or_absent : Option Field → Field
or_absent none = absent
or_absent (some f) = f

-- One key of a group: an integer in its bounds is taken, anything else raises.
unfoldable pub add_value :
    String → ℕ → ℕ → Field → Dict String ℕ → Result ContractError (Dict String ℕ)
add_value key lo hi absent rest = ok rest
add_value key lo hi malformed rest = err contract_refused
add_value key lo hi (given v) rest =
    if leb lo v && leb v hi then ok ((key, v) ∷ rest) else err contract_refused

abbrev pub or_value : Option ℕ → ℕ → ℕ
or_value none d = d
or_value (some n) d = n

-- A field of `cls(**values)`: its default unless it was given.
abbrev pub pick : String → ℕ → Dict String ℕ → ℕ
pick key d values = or_value (lookup key values) d

unfoldable pub calibration_settings : Dict String ℕ → CalibrationSettings
calibration_settings v = record {
  min_windows = pick "minWindows" 128 v;
  max_scores = pick "maxScores" 512 v;
  retention_days = pick "retentionDays" 7 v;
  eta_bps = pick "etaBps" 50 v;
  min_miscoverage_bps = pick "minMiscoverageBps" 100 v;
  max_miscoverage_bps = pick "maxMiscoverageBps" 2500 v;
}

unfoldable pub trust_settings : Dict String ℕ → TrustSettings
trust_settings v = record {
  min_shadow_hours = pick "minShadowHours" 48 v;
  min_prospective_windows = pick "minProspectiveWindows" 64 v;
  coverage_tolerance_bps = pick "coverageToleranceBps" 500 v;
  worst_day_min_outcomes = pick "worstDayMinOutcomes" 24 v;
  min_availability_bps = pick "minAvailabilityBps" 9500 v;
  acute_consecutive_misses = pick "acuteConsecutiveMisses" 5 v;
  acute_recent_windows = pick "acuteRecentWindows" 32 v;
  repromotion_hours = pick "repromotionHours" 24 v;
  repromotion_windows = pick "repromotionWindows" 32 v;
  challenger_min_pairs = pick "challengerMinPairs" 64 v;
  challenger_min_hours = pick "challengerMinHours" 48 v;
  challenger_loss_ratio_bps = pick "challengerLossRatioBps" 9500 v;
  challenger_exit_loss_ratio_bps = pick "challengerExitLossRatioBps" 10_000 v;
  challenger_cost_ratio_bps = pick "challengerCostRatioBps" 10_200 v;
  max_fit_age_hours = pick "maxFitAgeHours" 12 v;
}

-- status.prediction.lead: not there, without exactly its keys, or its method and its five integers in the
-- order of LeadSelection.
pub data RawLead : Type 0 where
  no_lead malformed_lead : RawLead
  lead : String → Field × Field × Field × Field × Field → RawLead

pub data LeadProblem : Type 0 where
  not_recorded malformed_status unknown_method not_integers other_generation : LeadProblem
  off_cadence too_short : LeadProblem

pub record LeadSelection : Type 0 where
  pub lead_seconds : ℕ
  pub startup_delay_seconds : ℕ
  pub actuation_allowance_seconds : ℕ
  pub method : String
  pub sample_count : ℕ
  pub observed_generation : ℕ

unfoldable pub lead_of :
    String → Field × Field × Field × Field × Field → Result LeadProblem LeadSelection
lead_of method (given l, given d, given a, given n, given g) = ok (record {
  lead_seconds = l;
  startup_delay_seconds = d;
  actuation_allowance_seconds = a;
  method = method;
  sample_count = n;
  observed_generation = g;
})
lead_of method _ = err not_integers
