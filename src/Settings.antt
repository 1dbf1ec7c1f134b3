-- ===== src/Settings.antt =====
-- The forecast settings, the lead and the issued window (ml-engine/forecasting/contracts.py). A setting of
-- the autoscaler's object is absent, no integer that is not negative, or a number.
pub mod Types
pub mod Windows
pub mod Bounds
pub mod Feasible
pub mod Leads
use predictive_autoscaler.Prelude.{
  ℕ, ◌+◌, ◌-◌, ◌*◌, ◌/◌, ◌%◌, Bool, true, false, not, ◌&&◌, ◌||◌, Option, none, some, List, [], ◌∷◌,
  ◌++◌, String, any, all, Dict, lookup, contains, ltb, leb, ◌==◌, nat_eq, string_eq, if◌then◌else◌,
  Result, ok, err, raise_if, ◌>>=◌, ◌>>◌,
}
use predictive_autoscaler.Calibration.{bps}
use predictive_autoscaler.Calibration.{CalibrationPolicy}
use predictive_autoscaler.Trust.Candidate.{TrustSettings}
use predictive_autoscaler.Settings.Types.*

-- `v := obj[key]` in lo..hi, of the keys that are there; the first one that is not raises.
unfoldable pub int_values : Spec → Dict String Field → Result ContractError (Dict String ℕ)
int_values [] obj = ok []
int_values ((key, (lo, hi)) ∷ spec) obj = do
  rest ← int_values spec obj
  add_value key lo hi (or_absent (lookup key obj)) rest

unfoldable pub int_group : Spec → RawGroup → Result ContractError (Dict String ℕ)
int_group spec no_group = ok []
int_group spec not_an_object = err contract_refused
int_group spec (object obj) = do
  raise_if (not (all (λ (e : String × Field). contains e.0 spec) obj)) contract_refused
  int_values spec obj

-- k = ceil((n + 1)(1 - a)) with a in basis points.
unfoldable pub rank_bps : ℕ → ℕ → ℕ
rank_bps n miscoverage_bps = ((n + 1) * (bps - miscoverage_bps) + (bps - 1)) / bps

unfoldable pub check_feasible : ForecastSettings → Result ContractError (Unit {0})
check_feasible s =
    let c = s.calibration in
    let t = s.trust in
    do
      raise_if
          (not (
            leb c.min_miscoverage_bps s.miscoverage_bps
            && leb s.miscoverage_bps c.max_miscoverage_bps))
          contract_refused
      raise_if (leb c.max_miscoverage_bps c.min_miscoverage_bps) contract_refused
      raise_if (ltb c.max_scores c.min_windows) contract_refused
      raise_if (ltb c.min_windows (rank_bps c.min_windows c.min_miscoverage_bps)) contract_refused
      raise_if (ltb ((c.retention_days * 86400) / s.horizon_seconds) c.min_windows) contract_refused
      raise_if
          (ltb c.max_scores t.acute_recent_windows || ltb c.max_scores t.min_prospective_windows)
          contract_refused
      raise_if (ltb t.challenger_exit_loss_ratio_bps t.challenger_loss_ratio_bps) contract_refused
      raise_if (ltb (c.retention_days * 24) t.min_shadow_hours) contract_refused

-- `pred.get(key, default)` of an integer, with its test.
unfoldable pub read_field : Field → ℕ → (ℕ → Bool) → Result ContractError ℕ
read_field absent d p = if p d then ok d else err contract_refused
read_field malformed d p = err contract_refused
read_field (given n) d p = if p n then ok n else err contract_refused

-- The settings outside the groups, field by field.
unfoldable pub grid_settings : RawPrediction → Result ContractError GridSettings
grid_settings pred = do
  raise_if (not (all (λ k. any (λ j. j == k) known_keys) pred.keys)) contract_refused
  raise_if (not pred.enabled) contract_refused
  let engine = or_text pred.engine "statistical"
  raise_if (not (engine == "statistical" || engine == "legacyLstm")) contract_refused
  let seasonality = or_text pred.seasonality "daily"
  raise_if (not (seasonality == "daily")) contract_refused
  interval ← read_field pred.sample_interval 300 (λ n. any (λ i. i == n) allowed_intervals)
  raise_if (engine == "legacyLstm" && not (interval == 600)) contract_refused
  horizon_min ← read_field pred.horizon_minutes 60 (λ n. ltb 0 n)
  let horizon = horizon_min * 60
  raise_if (ltb 3600 horizon || not (horizon % interval == 0) || ltb 60 (horizon / interval))
      contract_refused
  history_days ← read_field pred.history_days 14 (λ n. leb 1 n && leb n 28)
  settle ← read_field pred.settlement_seconds 120 (λ n. leb n 900)
  grace ← read_field pred.outcome_grace_seconds 600 (λ n. leb n 3600)
  ok (record {
    engine = engine;
    interval = interval;
    seasonality = seasonality;
    history = history_days;
    horizon = horizon;
    settle = settle;
    grace = grace;
  })

unfoldable pub assemble :
    GridSettings → Dict String ℕ → Dict String ℕ → Dict String ℕ → Dict String ℕ → ForecastSettings
assemble grid risk cal trust extra = record {
  engine = grid.engine;
  sample_interval_seconds = grid.interval;
  seasonality = grid.seasonality;
  history_days = grid.history;
  horizon_seconds = grid.horizon;
  settlement_seconds = grid.settle;
  outcome_grace_seconds = grid.grace;
  miscoverage_bps = pick "miscoverageBps" 1000 risk;
  calibration = calibration_settings cal;
  trust = trust_settings trust;
  max_replicas = pick "maxReplicas" 2 extra;
  max_percent = pick "maxPercent" 50 extra;
}

unfoldable pub feasible : ForecastSettings → Result ContractError ForecastSettings
feasible s = do check_feasible s; ok s

unfoldable pub resolve_settings : RawPrediction → Result ContractError ForecastSettings
resolve_settings pred = do
  grid ← grid_settings pred
  risk ← int_group risk_spec pred.risk
  cal ← int_group calibration_spec pred.calibration
  trust ← int_group trust_spec pred.trust
  extra ← int_group extra_spec pred.predictive_extra
  feasible (assemble grid risk cal trust extra)

-- `CalibrationPolicy.from_settings`, before its checks.
unfoldable pub policy_of : ForecastSettings → ℕ → CalibrationPolicy
policy_of s lead_seconds = record {
  lead_seconds = lead_seconds;
  nominal_bps = s.miscoverage_bps;
  eta_bps = s.calibration.eta_bps;
  min_bps = s.calibration.min_miscoverage_bps;
  max_bps = s.calibration.max_miscoverage_bps;
  min_windows = s.calibration.min_windows;
  max_scores = s.calibration.max_scores;
  retention_seconds = s.calibration.retention_days * 86400;
}

-- L = ceil((D + C + A + Δ) / Δ) * Δ
unfoldable pub automatic_lead_seconds : ℕ → ℕ → ℕ → ℕ → ℕ
automatic_lead_seconds startup_delay decision_interval allowance interval =
    ((startup_delay + decision_interval + allowance + interval + (interval - 1)) / interval)
    * interval

unfoldable pub check_lead : LeadSelection → ForecastSettings → ℕ → Result LeadProblem LeadSelection
check_lead sel s generation =
    let dt = s.sample_interval_seconds in
    do
      raise_if (not (sel.observed_generation == generation)) other_generation
      raise_if
          (ltb sel.lead_seconds dt
            || not (sel.lead_seconds % dt == 0)
            || ltb s.horizon_seconds sel.lead_seconds)
          off_cadence
      raise_if
          (ltb sel.lead_seconds (sel.startup_delay_seconds + dt + sel.actuation_allowance_seconds))
          too_short
      ok sel

unfoldable pub resolve_lead : RawLead → ForecastSettings → ℕ → Result LeadProblem LeadSelection
resolve_lead no_lead s generation = err not_recorded
resolve_lead malformed_lead s generation = err malformed_status
resolve_lead (lead method fields) s generation = do
  raise_if (not (method == "configured" || method == "measured")) unknown_method
  sel ← lead_of method fields
  check_lead sel s generation
