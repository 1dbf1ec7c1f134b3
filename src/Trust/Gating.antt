-- ===== src/Trust/Gating.antt =====
-- `candidate_gates` of trust.py: the eight gates of one candidate at one evaluation.
use predictive_autoscaler.Prelude.{
  ℕ, ◌+◌, ◌-◌, ◌*◌, max, Bool, true, false, not, ◌&&◌, ◌||◌, Option, none, some, [], ◌∷◌, Dict, ltb,
  leb, if◌then◌else◌, length, sum_by, Float, ◌⊖◌, ◌⊘◌, ◌≤?◌,
}
use predictive_autoscaler.Trust.Types.{hour, day, Ledger}
use predictive_autoscaler.Trust.Windows.{window_sums, availability, ratio, daily_gate_coverage}
use predictive_autoscaler.Trust.Candidate.{TrustSettings, CandidateInputs, Global, Gates, GateInfo}

-- `now - first >= hours * hour`, with the subtraction moved to the other side.
unfoldable pub shadow_held : Option ℕ → ℕ → ℕ → Bool
shadow_held none now_s hours = false
shadow_held (some first) now_s hours = leb (first + hours * hour) now_s

unfoldable pub fit_fresh : Option ℕ → ℕ → Bool
fit_fresh none hours = true
fit_fresh (some age) hours = leb age (hours * hour)

-- hours * hour - (now - first), 0 where that is not positive.
unfoldable pub shadow_left : Option ℕ → ℕ → ℕ → ℕ
shadow_left none now_s hours = hours * hour
shadow_left (some first) now_s hours = hours * hour + first - now_s

module _ {F : Type 0} ⦃fl : Float F⦄ where
  abbrev pub at_least : F → Option F → Bool
  at_least floor none = false
  at_least floor (some v) = floor ≤? v

  unfoldable pub coverage_threshold : Global F → TrustSettings → F
  coverage_threshold g t =
      (fl.of_int 1 ⊖ g.nominal_miscoverage)
      ⊖ (fl.of_int t.coverage_tolerance_bps ⊘ fl.of_int 10_000)

  -- The worst day: every UTC day with enough outcomes is at the threshold. The settings demand at
  -- least one outcome, so that nothing is divided by zero.
  unfoldable pub worst_ok : F → ℕ → Dict ℕ (ℕ × ℕ) → Bool
  worst_ok threshold min_outcomes [] = true
  worst_ok threshold min_outcomes ((d, (bd, cv)) ∷ days) =
      let rest = worst_ok threshold min_outcomes days in
      if leb min_outcomes bd then (threshold ≤? (fl.of_int cv ⊘ fl.of_int bd)) && rest else rest

  -- The acute test: no run of misses, and the recent bounds at the threshold once there are enough.
  unfoldable pub acute_ok : F → TrustSettings → Ledger F → Bool
  acute_ok threshold t led =
      ltb led.consecutive_misses t.acute_consecutive_misses
      && (ltb (length led.recent) t.acute_recent_windows
          || (threshold
              ≤? (fl.of_int (sum_by (λ (c : ℕ). c) led.recent) ⊘ fl.of_int (length led.recent))))

  unfoldable pub gates_of : CandidateInputs F → Global F → TrustSettings → Gates
  gates_of ci g t =
      let led = ci.ledger in
      let w7 = window_sums led g.now_s (7 * day) in
      let av = availability led g.now_s day in
      let threshold = coverage_threshold g t in
      let floor = fl.of_int t.min_availability_bps ⊘ fl.of_int 10_000 in
      record {
        identity = g.identity_ok;
        state = g.store_healthy;
        fit = ci.data_fresh && fit_fresh ci.fit_age_seconds t.max_fit_age_hours;
        history = leb ci.required_history_seconds ci.history_seconds;
        calibration = ci.bound_available;
        prospective =
            shadow_held led.first_prospective_s g.now_s t.min_shadow_hours
            && leb t.min_prospective_windows w7.g_bd;
        coverage =
            at_least threshold (ratio w7.g_cv w7.g_bd)
            && (worst_ok threshold t.worst_day_min_outcomes
                  (daily_gate_coverage led g.now_s (7 * day))
                && acute_ok threshold t led);
        availability = at_least floor av.outcomes && at_least floor av.predictions;
      }

  -- Advisory: the seconds that the missing windows or shadow hours take; none when enough windows have
  -- low coverage.
  unfoldable pub eta_of : CandidateInputs F → Global F → TrustSettings → Bool → ℕ → Option ℕ
  eta_of ci g t covered bounds =
      let missing =
        max (ci.min_calibration_windows - ci.calibration_windows)
          (t.min_prospective_windows - bounds) in
      let left = shadow_left ci.ledger.first_prospective_s g.now_s t.min_shadow_hours in
      if not covered && leb t.min_prospective_windows bounds
      then none
      else some (max (missing * g.lead_seconds) left)

  unfoldable pub candidate_gates : CandidateInputs F → Global F → TrustSettings → Gates × GateInfo F
  candidate_gates ci g t =
      let w7 = window_sums ci.ledger g.now_s (7 * day) in
      let av = availability ci.ledger g.now_s day in
      let gates = gates_of ci g t in
      (
        gates,
        record {
          coverage_gate = ratio w7.g_cv w7.g_bd;
          coverage_all = ratio w7.a_cv w7.a_bd;
          outcome_availability = av.outcomes;
          prediction_availability = av.predictions;
          overdue_windows = av.overdue_windows;
          prospective = w7.g_bd;
          replay = w7.r_bd;
          eta = eta_of ci g t gates.coverage w7.g_bd;
        },
      )
