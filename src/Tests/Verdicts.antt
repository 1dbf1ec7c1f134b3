-- ===== src/Tests/Verdicts.antt =====
-- A verdict of trust.py that selects the naive, a challenger's selection, and a repromotion.
use predictive_autoscaler.Prelude.{
  ℕ, ◌+◌, ◌*◌, ◌≤◌, ◌<◌, ◌≡◌, refl, none, some, [], ◌∷◌, String, Bool, true, false, Dict, lookup,
  Result, ok, err, ◌⊎◌, string_eq, pair_eq, nat_eq, sort_by,
}
use predictive_autoscaler.Trust.Types.{TrustError, Ledger, hour}
use predictive_autoscaler.Trust.Candidate.{
  TrustSettings, CandidateInputs, Global, Gates, all_gates, CandidateVerdict, Verdict, ready,
  trusted_phase, collecting,
}
use predictive_autoscaler.Trust.Ledger.{new_ledger, empty_bucket}
use predictive_autoscaler.Trust.Windows.{
  in_window, window_sums, sum_buckets, add_bucket, ratio, availability, overdue, overdue_in,
  expected_opportunities, opportunities, grid_up, daily_gate_coverage, collect_days, day_counts,
  add_day, first_hour,
}
use predictive_autoscaler.Trust.Gating.{
  candidate_gates, gates_of, coverage_threshold, worst_ok, acute_ok, shadow_held, fit_fresh,
}
use predictive_autoscaler.Trust.Hysteresis.{
  Hysteresis, Evaluation, new_hysteresis, own_state, promote, step_own, step,
}
use predictive_autoscaler.Trust.Hysteresis.Safety.{step-gates_ok}
use predictive_autoscaler.Trust.Hysteresis.Repromotion.{
  Unbroken, Degraded, demoted, waited, Degraded-repromotion,
}
use predictive_autoscaler.Trust.Pairs.{
  Pairs, challenger_promoted, challenger_retained, paired_ok, sums_ok, cost_ok, pair_sums,
  sum_pairs, add_sums, span,
}
use predictive_autoscaler.Trust.Selection.{
  Selection, new_selection, select, enter_all, enter, entry_flag, stays, kept_current, choose,
  eligible, entry_held, switch, is_name, naive_trusted,
}
use predictive_autoscaler.Trust.Selection.Safe.{
  entered, select_trusted, select-challenger, select_fallback,
}
use predictive_autoscaler.Trust.Evaluate.{
  TrustState, evaluate, by_model, known, one_epoch, pairs_match, judge, evaluation,
  candidate_verdict, verdict_of,
}
use predictive_autoscaler.Trust.Evaluate.Ready.{evaluate_ready}
use predictive_autoscaler.Tests.Numbers.{nat_float}

abbrev settings : TrustSettings
settings = record {
  min_shadow_hours = 1;
  min_prospective_windows = 1;
  coverage_tolerance_bps = 0;
  worst_day_min_outcomes = 1;
  min_availability_bps = 0;
  acute_consecutive_misses = 3;
  acute_recent_windows = 10;
  repromotion_hours = 1;
  repromotion_windows = 1;
  challenger_min_pairs = 1;
  challenger_min_hours = 0;
  challenger_loss_ratio_bps = 10_000;
  challenger_exit_loss_ratio_bps = 10_000;
  challenger_cost_ratio_bps = 10_000;
  max_fit_age_hours = 24;
}

abbrev evaluation_at : ℕ → Bool → Evaluation
evaluation_at now passed = record {
  epoch = "e";
  recipe = "r";
  bounds = now;
  gates_ok = passed;
  now_s = now;
}

abbrev demoted_state : Hysteresis
demoted_state = record {
  epoch = "e";
  recipe = "r";
  trusted = false;
  ever_trusted = true;
  demoted_at_s = some 100;
  bounds_at_demotion = 100;
  gates_ok_since_s = none;
}

abbrev waiting : Hysteresis
waiting = record demoted_state { gates_ok_since_s = some 200 }

is_waiting : waiting ≡ step demoted_state (evaluation_at 200 true) settings
unfolding step step_own promote own_state
is_waiting = refl

Degraded-waiting : Degraded settings 100 100 (evaluation_at 200 true ∷ []) waiting
unfolding own_state
Degraded-waiting =
    waited (evaluation_at 200 true) (demoted demoted_state refl refl refl refl refl) refl is_waiting
      refl

Degraded-repromotion_example :
    (t : ℕ) × Unbroken t (evaluation_at 3800 true ∷ evaluation_at 200 true ∷ [])
    × (t + settings.repromotion_hours * hour ≤ 3800)
    × (100 < 3800)
    × (100 + settings.repromotion_windows ≤ 3800)
unfolding step step_own promote own_state
Degraded-repromotion_example =
    Degraded-repromotion settings 100 100 (evaluation_at 200 true ∷ []) waiting
      (evaluation_at 3800 true) Degraded-waiting refl refl

step-gates_ok_example : true ≡ true
unfolding step step_own promote own_state
step-gates_ok_example = step-gates_ok waiting (evaluation_at 3800 true) settings refl

abbrev all_hold : Gates
all_hold = record {
  identity = true;
  state = true;
  fit = true;
  history = true;
  calibration = true;
  prospective = true;
  coverage = true;
  availability = true;
}

abbrev trusted_verdict : String → CandidateVerdict ℕ
trusted_verdict m = record {
  model = m;
  recipe = "r";
  gates = all_hold;
  reason = ready;
  phase = trusted_phase;
  trusted = true;
  info = record {
    coverage_gate = none;
    coverage_all = none;
    outcome_availability = none;
    prediction_availability = none;
    overdue_windows = 0;
    prospective = 1;
    replay = 0;
    eta = none;
  };
  eta_seconds = none;
}

abbrev two_verdicts : Dict String (CandidateVerdict ℕ)
two_verdicts =
    ("lstm", trusted_verdict "lstm") ∷ ("seasonal_naive", trusted_verdict "seasonal_naive") ∷ []

abbrev lstm_pairs : Dict String (Pairs ℕ)
lstm_pairs =
    (
      "lstm",
      record {
        epoch = "e";
        challenger = "lstm";
        baseline = "seasonal_naive";
        recipes = ("lstm", "r") ∷ ("seasonal_naive", "r") ∷ [];
        pending = [];
        buckets = (1, record { n = 2; chal = 2; base = 4; first = 3600; last = 7140 }) ∷ [];
        last_seq = 1;
      },
    )
    ∷ []

abbrev lstm_costs : Dict String (Dict String (ℕ × ℕ))
lstm_costs = ("lstm", ("shortage", (1, 2)) ∷ ("replica_time", (2, 2)) ∷ []) ∷ []

abbrev entered_early : Selection
entered_early = record {
  epoch = some "e";
  selected = some "seasonal_naive";
  recipe = some "r";
  since_s = some 3600;
  switches = 1;
  entry_since = (("lstm", "r"), 3600) ∷ [];
}

lstm_selected :
    (select entered_early two_verdicts lstm_pairs lstm_costs 7200 settings).0.selected ≡ some "lstm"
unfolding select enter_all enter entry_flag challenger_promoted challenger_retained paired_ok
    sums_ok cost_ok pair_sums sum_pairs add_sums span in_window kept_current stays choose eligible
    entry_held switch
lstm_selected = refl

select_trusted_example :
    (v : CandidateVerdict ℕ) × (lookup "lstm" two_verdicts ≡ some v) × (v.trusted ≡ true)
select_trusted_example =
    select_trusted entered_early two_verdicts lstm_pairs lstm_costs 7200 settings "lstm"
      lstm_selected

select-challenger_example :
    (v : CandidateVerdict ℕ) × (lookup "lstm" two_verdicts ≡ some v)
    × (naive_trusted two_verdicts ≡ true)
    × ((entered_early.selected ≡ some "lstm")
          × (is_name entered_early.recipe v.recipe ≡ true)
          × (challenger_retained (lookup "lstm" lstm_pairs) 7200 settings (lookup "lstm" lstm_costs)
              ≡ true)
        ⊎ (challenger_promoted (lookup "lstm" lstm_pairs) 7200 settings (lookup "lstm" lstm_costs)
            ≡ true)
          × ((since : ℕ) × (lookup
                  ("lstm", v.recipe)
                  (entered entered_early two_verdicts lstm_pairs lstm_costs 7200 settings)
                ≡ some since)
              × (since + settings.repromotion_hours * hour ≤ 7200)))
select-challenger_example =
    select-challenger entered_early two_verdicts lstm_pairs lstm_costs 7200 settings "lstm" refl
      lstm_selected

select_fallback_example :
    (m : String) × ((select (new_selection none) two_verdicts [] [] 7200 settings).0.selected
      ≡ some m)
select_fallback_example = select_fallback (new_selection none) two_verdicts [] [] 7200 settings refl

-- A ledger of the naive with one covered gate bound in hour 1.
abbrev naive_ledger : Ledger ℕ
naive_ledger = record (new_ledger "e" "seasonal_naive" "r" 60) {
  buckets =
      (
        1,
        record empty_bucket {
          iss = 1;
          g_iss = 1;
          sc = 1;
          g_sc = 1;
          g_bd = 1;
          g_cv = 1;
          a_bd = 1;
          a_cv = 1;
        },
      )
      ∷ [];
  first_prospective_s = some 3600;
  first_issue_s = some 3600;
}

abbrev naive_inputs : CandidateInputs ℕ
naive_inputs = record {
  model = "seasonal_naive";
  ledger = naive_ledger;
  bound_available = true;
  calibration_windows = 1;
  min_calibration_windows = 1;
  history_seconds = 7200;
  required_history_seconds = 3600;
  data_fresh = true;
  fit_age_seconds = none;
}

abbrev global : Global ℕ
global = record {
  now_s = 7200;
  lead_seconds = 60;
  nominal_miscoverage = 0;
  identity_ok = true;
  store_healthy = true;
  replay_suite_passed = true;
  startup_budget_valid = true;
}

abbrev start : TrustState
start = record { hyst = []; selection = none }

abbrev nothing_yet : Verdict ℕ × TrustState
nothing_yet = (
  record {
    selected = none;
    phase = collecting;
    reason = ready;
    prediction_ready = false;
    candidates = [];
    promoted = [];
  },
  start,
)

abbrev judged : Result TrustError (Verdict ℕ × TrustState) → Verdict ℕ × TrustState
judged (ok r) = r
judged (err e) = nothing_yet

abbrev first_verdict : Verdict ℕ × TrustState
first_verdict = judged (evaluate (naive_inputs ∷ []) start global settings [] [])

evaluated : evaluate (naive_inputs ∷ []) start global settings [] [] ≡ ok first_verdict
unfolding evaluate by_model known one_epoch pairs_match new_ledger
evaluated = refl

prediction_ready_first : first_verdict.0.prediction_ready ≡ true
unfolding evaluate by_model known one_epoch pairs_match judge evaluation candidate_verdict
    candidate_gates gates_of coverage_threshold worst_ok acute_ok shadow_held fit_fresh window_sums
    sum_buckets in_window add_bucket ratio availability overdue overdue_in expected_opportunities
    opportunities grid_up first_hour daily_gate_coverage collect_days day_counts add_day sort_by
    step step_own own_state promote new_hysteresis new_ledger select enter_all kept_current stays
    choose eligible switch new_selection verdict_of
prediction_ready_first = refl

evaluate_ready_example :
    (m : String) × (v : CandidateVerdict ℕ) × (first_verdict.0.selected ≡ some m)
    × (lookup m first_verdict.0.candidates ≡ some v)
    × (v.trusted ≡ true)
    × (all_gates v.gates ≡ true)
    × (global.replay_suite_passed ≡ true)
    × (global.startup_budget_valid ≡ true)
evaluate_ready_example =
    evaluate_ready global settings (naive_inputs ∷ []) start first_verdict.1 [] [] first_verdict.0
      evaluated prediction_ready_first
