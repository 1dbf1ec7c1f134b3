-- ===== src/Tests/Resolved.antt =====
-- The default settings, a lead of ten minutes and its window.
use predictive_autoscaler.Prelude.{ℕ, ◌+◌, ◌*◌, ◌<◌, ◌≡◌, refl, arith, true, none, [], ok}
use predictive_autoscaler.Calibration.{check_policy}
use predictive_autoscaler.Maturation.Window.{check_window, last_target}
use predictive_autoscaler.Settings.{
  int_group, rank_bps, check_feasible, read_field, grid_settings, assemble, feasible,
  resolve_settings, policy_of,
}
use predictive_autoscaler.Settings.Types.{
  absent, no_group, RawPrediction, ForecastSettings, LeadSelection, calibration_settings,
  trust_settings,
}
use predictive_autoscaler.Settings.Windows.{
  ForecastWindow, make_window, target_timestamps, window_end_of, actionable_at,
}
use predictive_autoscaler.Settings.Feasible.{resolve_settings-check_policy}
use predictive_autoscaler.Settings.Leads.{make_window-check_window}

abbrev plain_spec : RawPrediction
plain_spec = record {
  keys = [];
  enabled = true;
  engine = none;
  seasonality = none;
  sample_interval = absent;
  horizon_minutes = absent;
  history_days = absent;
  settlement_seconds = absent;
  outcome_grace_seconds = absent;
  risk = no_group;
  calibration = no_group;
  trust = no_group;
  predictive_extra = no_group;
}

abbrev defaults : ForecastSettings
defaults = record {
  engine = "statistical";
  sample_interval_seconds = 300;
  seasonality = "daily";
  history_days = 14;
  horizon_seconds = 3600;
  settlement_seconds = 120;
  outcome_grace_seconds = 600;
  miscoverage_bps = 1000;
  calibration = record {
    min_windows = 128;
    max_scores = 512;
    retention_days = 7;
    eta_bps = 50;
    min_miscoverage_bps = 100;
    max_miscoverage_bps = 2500;
  };
  trust = record {
    min_shadow_hours = 48;
    min_prospective_windows = 64;
    coverage_tolerance_bps = 500;
    worst_day_min_outcomes = 24;
    min_availability_bps = 9500;
    acute_consecutive_misses = 5;
    acute_recent_windows = 32;
    repromotion_hours = 24;
    repromotion_windows = 32;
    challenger_min_pairs = 64;
    challenger_min_hours = 48;
    challenger_loss_ratio_bps = 9500;
    challenger_exit_loss_ratio_bps = 10_000;
    challenger_cost_ratio_bps = 10_200;
    max_fit_age_hours = 12;
  };
  max_replicas = 2;
  max_percent = 50;
}

defaults_resolved : resolve_settings plain_spec ≡ ok defaults
unfolding resolve_settings grid_settings read_field int_group assemble feasible check_feasible
    rank_bps calibration_settings trust_settings
defaults_resolved = refl

resolve_settings-check_policy_example : check_policy (policy_of defaults 900) ≡ ok tt
resolve_settings-check_policy_example =
    resolve_settings-check_policy plain_spec defaults 900 defaults_resolved (omega arith)

abbrev short_lead : LeadSelection
short_lead = record {
  lead_seconds = 900;
  startup_delay_seconds = 60;
  actuation_allowance_seconds = 30;
  method = "measured";
  sample_count = 5;
  observed_generation = 1;
}

abbrev short_window : ForecastWindow
short_window = record { decision_origin = 6000; interval_seconds = 300; lead_seconds = 900 }

short_window_made : make_window 6000 defaults short_lead ≡ ok short_window
unfolding make_window
short_window_made = refl

make_window-check_window_example :
    (check_window (target_timestamps short_window) ≡ ok tt)
    × (last_target (target_timestamps short_window) ≡ window_end_of short_window)
    × ((now_ms : ℕ)
        → actionable_at short_window now_ms short_lead ≡ true
        → (now_ms + 30 * 1000 < (6000 + 300) * 1000)
          × (now_ms + (60 + 300 + 30) * 1000 < (6000 + 900) * 1000))
make_window-check_window_example =
    make_window-check_window 6000 defaults short_lead short_window (omega arith) short_window_made
