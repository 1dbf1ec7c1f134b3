-- ===== src/Trust/Hysteresis/Safety.antt =====
-- Trust is never kept or given against the gates (`step` of trust.py).
use predictive_autoscaler.Prelude.{◌≡◌, ap, ◌∙◌, true, false, none, some, arith}
use predictive_autoscaler.Trust.Candidate.{TrustSettings}
use predictive_autoscaler.Trust.Hysteresis.{Hysteresis, Evaluation, step, step_own, own_state}

-- A candidate is trusted after an evaluation only if its gates held at it.
pub step-gates_ok :
    (h : Hysteresis) (e : Evaluation) (s : TrustSettings)
    → (step h e s).trusted ≡ true
    → e.gates_ok ≡ true
unfolding step step_own
step-gates_ok h e s t = ground (arith, t)

step_own_demotes :
    (h : Hysteresis) (e : Evaluation) (s : TrustSettings)
    → h.trusted ≡ true
    → e.gates_ok ≡ false
    → step_own h e s ≡ record h {
      trusted = false;
      demoted_at_s = some e.now_s;
      bounds_at_demotion = e.bounds;
      gates_ok_since_s = none;
    }
unfolding step_own
step_own_demotes h e s t g = simp (t, g)

-- A trusted candidate of the evaluation's epoch and recipe whose gates fail is demoted at once: at that
-- time, with the gate bounds counted so far, and with no run of held gates.
pub step_demotes :
    (h : Hysteresis) (e : Evaluation) (s : TrustSettings)
    → own_state h e ≡ h
    → h.trusted ≡ true
    → e.gates_ok ≡ false
    → step h e s ≡ record h {
      trusted = false;
      demoted_at_s = some e.now_s;
      bounds_at_demotion = e.bounds;
      gates_ok_since_s = none;
    }
unfolding step
step_demotes h e s own t g = ap (λ k. step_own k e s) own ∙ step_own_demotes h e s t g
