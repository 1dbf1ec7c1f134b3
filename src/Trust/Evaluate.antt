-- ===== src/Trust/Evaluate.antt =====
-- `evaluate` of trust.py: the verdict over all candidates, and the new state.
pub mod Ready
use predictive_autoscaler.Prelude.{
  ℕ, String, Bool, true, false, not, ◌&&◌, ◌||◌, Option, none, some, List, [], ◌∷◌, map, Dict,
  lookup, insert, contains, any, all, ltb, ◌==◌, nat_eq, string_eq, if◌then◌else◌, Float, Result,
  ok, err, raise_if, ◌>>=◌, ◌>>◌,
}
use predictive_autoscaler.Trust.Types.{TrustError, unknown_candidate, mixed_candidates, other_pairs}
use predictive_autoscaler.Trust.Candidate.{
  TrustSettings, CandidateInputs, Global, Gates, all_gates, Reason, identity_mismatch,
  state_unavailable, data_unavailable, history_insufficient, calibration_insufficient,
  shadow_insufficient, coverage_low, lead_insufficient, replay_gate_missing, ready, Phase,
  collecting, calibrating, shadow, trusted_phase, degraded, GateInfo, CandidateVerdict, Verdict,
}
use predictive_autoscaler.Trust.Gating.{candidate_gates}
use predictive_autoscaler.Trust.Hysteresis.{Hysteresis, Evaluation, new_hysteresis, step}
use predictive_autoscaler.Trust.Pairs.{Pairs}
use predictive_autoscaler.Trust.Selection.{
  naive, fallback_order, Selection, new_selection, same_name, select,
}

-- The hysteresis of each model, and the selection.
pub record TrustState : Type 0 where
  pub hyst : Dict String Hysteresis
  pub selection : Option Selection

-- The first gate that fails, in the order of `_GATE_REASON`.
unfoldable pub gate_reason : Gates → Reason
gate_reason g =
    if not g.identity
    then identity_mismatch
    else if not g.state
    then state_unavailable
    else if not g.fit
    then data_unavailable
    else if not g.history
    then history_insufficient
    else if not g.calibration
    then calibration_insufficient
    else if not g.prospective
    then shadow_insufficient
    else if not g.coverage
    then coverage_low
    else if not g.availability
    then data_unavailable
    else ready

unfoldable pub phase_of : Hysteresis → Gates → Phase
phase_of h g =
    if h.trusted
    then trusted_phase
    else if h.ever_trusted
    then degraded
    else if not g.history
    then collecting
    else if not g.calibration
    then calibrating
    else shadow

-- Where all gates hold but the hysteresis still runs, the reason is `ShadowInsufficient`.
unfoldable pub reason_of : Hysteresis → Gates → Reason
reason_of h g = elim (gate_reason g) [
  | ready ↦ if h.trusted then ready else shadow_insufficient
  | other ↦ other
]

-- The place in `REASON_ORDER`.
unfoldable pub reason_index : Reason → ℕ
reason_index identity_mismatch = 0
reason_index state_unavailable = 1
reason_index data_unavailable = 2
reason_index history_insufficient = 3
reason_index calibration_insufficient = 4
reason_index shadow_insufficient = 5
reason_index coverage_low = 6
reason_index lead_insufficient = 7
reason_index replay_gate_missing = 8
reason_index ready = 9

-- A new epoch starts a new selection.
abbrev pub prior_selection : Option Selection → Option String → Selection
prior_selection none epoch = new_selection epoch
prior_selection (some s) epoch = if same_name s.epoch epoch then s else new_selection epoch

module _ {F : Type 0} where
  unfoldable pub by_model :
      List (CandidateInputs F) → Dict String (CandidateInputs F) → Dict String (CandidateInputs F)
  by_model [] d = d
  by_model (c ∷ cs) d = by_model cs (insert c.model c d)

  -- `next(iter(epochs), None)`
  abbrev pub epoch_of : List (CandidateInputs F) → Option String
  epoch_of [] = none
  epoch_of (c ∷ cs) = some c.ledger.epoch

  abbrev pub recipe_in : String → Dict String (CandidateInputs F) → Option String
  recipe_in m d = elim (lookup m d) [ none ↦ none | some c ↦ some c.ledger.recipe ]

  unfoldable pub known : Dict String (CandidateInputs F) → Bool
  known [] = true
  known ((m, c) ∷ d) = any (λ n. n == m) fallback_order && known d

  unfoldable pub one_epoch : List (CandidateInputs F) → Bool
  one_epoch cs =
      all (λ (c : CandidateInputs F). same_name (some c.ledger.epoch) (epoch_of cs)) cs
      && all (λ (c : CandidateInputs F). c.ledger.model == c.model) cs

  -- The paired evidence of each challenger has the candidates' identity.
  unfoldable pub pairs_match :
      Option String → Dict String (CandidateInputs F) → Dict String (Pairs F) → Bool
  pairs_match epoch cands [] = true
  pairs_match epoch cands ((m, p) ∷ d) =
      (not (contains m cands)
        || m == naive
        || (same_name (some p.epoch) epoch
            && p.challenger == m
            && p.baseline == naive
            && same_name (lookup m p.recipes) (recipe_in m cands)
            && same_name (lookup naive p.recipes) (recipe_in naive cands)))
      && pairs_match epoch cands d

  -- The candidate furthest along, the first in the fallback order on ties.
  unfoldable pub best_from : CandidateVerdict F → List (CandidateVerdict F) → CandidateVerdict F
  best_from b [] = b
  best_from b (v ∷ vs) =
      best_from (if ltb (reason_index b.reason) (reason_index v.reason) then v else b) vs

  unfoldable pub ordered :
      Dict String (CandidateVerdict F) → List String → List (CandidateVerdict F)
  ordered verdicts [] = []
  ordered verdicts (m ∷ ms) =
      let rest = ordered verdicts ms in elim (lookup m verdicts) [ none ↦ rest | some v ↦ v ∷ rest ]

  -- Reason and phase where nothing is selected: a trusted best candidate waits in shadow.
  unfoldable pub unselected : List (CandidateVerdict F) → Reason × Phase
  unselected [] = (history_insufficient, collecting)
  unselected (v ∷ vs) =
      let best = best_from v vs in
      if best.trusted then (shadow_insufficient, shadow) else (best.reason, best.phase)

  unfoldable pub ready_reason : Global F → Reason
  ready_reason g =
      if not g.replay_suite_passed
      then replay_gate_missing
      else if not g.startup_budget_valid
      then lead_insufficient
      else ready

  unfoldable pub verdict_of :
      Option String → Global F → Dict String (CandidateVerdict F) → Dict String Bool → Verdict F
  verdict_of none g verdicts promoted =
      let (reason, phase) = unselected (ordered verdicts fallback_order) in
      record {
        selected = none;
        phase = phase;
        reason = reason;
        prediction_ready = false;
        candidates = verdicts;
        promoted = promoted;
      }
  verdict_of (some m) g verdicts promoted = record {
    selected = some m;
    phase = trusted_phase;
    reason = ready_reason g;
    prediction_ready = g.replay_suite_passed && g.startup_budget_valid;
    candidates = verdicts;
    promoted = promoted;
  }

module _ {F : Type 0} ⦃fl : Float F⦄ where
  unfoldable pub evaluation : CandidateInputs F → Global F → TrustSettings → Evaluation
  evaluation ci g t = record {
    epoch = ci.ledger.epoch;
    recipe = ci.ledger.recipe;
    bounds = ci.ledger.totals.prospective_gate_bounded;
    gates_ok = all_gates (candidate_gates ci g t).0;
    now_s = g.now_s;
  }

  abbrev pub prior_of : Option Hysteresis → CandidateInputs F → Hysteresis
  prior_of none ci = new_hysteresis ci.ledger.recipe ci.ledger.epoch
  prior_of (some h) ci = h

  unfoldable pub candidate_verdict :
      CandidateInputs F → Hysteresis → Global F → TrustSettings → CandidateVerdict F
  candidate_verdict ci h g t =
      let (gates, info) = candidate_gates ci g t in
      record {
        model = ci.model;
        recipe = ci.ledger.recipe;
        gates = gates;
        reason = reason_of h gates;
        phase = phase_of h gates;
        trusted = h.trusted;
        info = info;
        eta_seconds = if h.trusted then none else info.eta;
      }

  -- The loop over the candidates: the new hysteresis and the verdict of each.
  unfoldable pub judge :
      Dict String (CandidateInputs F)
      → Dict String Hysteresis
      → Global F
      → TrustSettings
      → Dict String Hysteresis × Dict String (CandidateVerdict F)
      → Dict String Hysteresis × Dict String (CandidateVerdict F)
  judge [] hyst g t acc = acc
  judge ((m, ci) ∷ cands) hyst g t (new_h, verdicts) =
      let h = step (prior_of (lookup m hyst) ci) (evaluation ci g t) t in
      judge cands hyst g t (insert m h new_h, insert m (candidate_verdict ci h g t) verdicts)

  unfoldable pub evaluate :
      List (CandidateInputs F)
      → TrustState
      → Global F
      → TrustSettings
      → Dict String (Pairs F)
      → Dict String (Dict String (F × F))
      → Result TrustError (Verdict F × TrustState)
  evaluate cands state g t pairs costs = do
    let by = by_model cands []
    let epoch = epoch_of cands
    raise_if (not (known by)) unknown_candidate
    raise_if (not (one_epoch cands)) mixed_candidates
    raise_if (not (pairs_match epoch by pairs)) other_pairs
    let judged = judge by state.hyst g t ([], [])
    let chosen = select (prior_selection state.selection epoch) judged.1 pairs costs g.now_s t
    ok (
      verdict_of chosen.0.selected g judged.1 chosen.1,
      record { hyst = judged.0; selection = some chosen.0 },
    )
