-- ===== src/Trust/Hysteresis.antt =====
-- The hysteresis of one candidate (`step` of trust.py).
pub mod Safety
pub mod Repromotion
use predictive_autoscaler.Prelude.{
  ℕ, ◌+◌, ◌-◌, ◌*◌, ◌≤◌, String, Bool, true, false, ◌&&◌, Option, none, some, ltb, leb, ◌==◌,
  string_eq, if◌then◌else◌,
}
use predictive_autoscaler.Trust.Types.{hour}
use predictive_autoscaler.Trust.Candidate.{TrustSettings}

pub record Hysteresis : Type 0 where
  pub epoch : String
  pub recipe : String
  pub trusted : Bool
  pub ever_trusted : Bool
  pub demoted_at_s : Option ℕ
  pub bounds_at_demotion : ℕ
  pub gates_ok_since_s : Option ℕ

unfoldable pub new_hysteresis : String → String → Hysteresis
new_hysteresis recipe epoch = record {
  epoch = epoch;
  recipe = recipe;
  trusted = false;
  ever_trusted = false;
  demoted_at_s = none;
  bounds_at_demotion = 0;
  gates_ok_since_s = none;
}

-- What an evaluation brings: the ledger's identity and its total of gate bounds, and the time.
pub record Evaluation : Type 0 where
  pub epoch : String
  pub recipe : String
  pub bounds : ℕ
  pub gates_ok : Bool
  pub now_s : ℕ

-- A state of another epoch or recipe starts over.
unfoldable pub own_state : Hysteresis → Evaluation → Hysteresis
unfolding new_hysteresis
own_state h e =
    if h.epoch == e.epoch && h.recipe == e.recipe then h else new_hysteresis e.recipe e.epoch

abbrev pub since : Option ℕ → ℕ → ℕ
since none now_s = now_s
since (some t) now_s = t

-- `now - t >= hours * hour and demoted_at is not None and now > demoted_at`, the subtraction moved to
-- the other side.
unfoldable pub held_long : ℕ → Option ℕ → ℕ → TrustSettings → Bool
held_long t none now_s s = false
held_long t (some demoted_at) now_s s =
    leb (t + s.repromotion_hours * hour) now_s && ltb demoted_at now_s

-- An untrusted candidate whose gates hold.
unfoldable pub promote : Hysteresis → Evaluation → TrustSettings → Hysteresis
unfolding held_long
promote h e s =
    let t = since h.gates_ok_since_s e.now_s in
    let h' = record h { gates_ok_since_s = some t } in
    if h.ever_trusted
    then (if held_long t h.demoted_at_s e.now_s s
          && leb (h.bounds_at_demotion + s.repromotion_windows) e.bounds
        then record h' { trusted = true }
        else h')
    else record h' { trusted = true; ever_trusted = true }

unfoldable pub step_own : Hysteresis → Evaluation → TrustSettings → Hysteresis
step_own h e s =
    if h.trusted
    then (if e.gates_ok then h else record h {
      trusted = false;
      demoted_at_s = some e.now_s;
      bounds_at_demotion = e.bounds;
      gates_ok_since_s = none;
    })
    else (if e.gates_ok then promote h e s else record h { gates_ok_since_s = none })

unfoldable pub step : Hysteresis → Evaluation → TrustSettings → Hysteresis
step h e s = step_own (own_state h e) e s
