-- ===== src/Maturation.antt =====
-- When an issued window becomes a terminal outcome (ml-engine/forecasting/maturation.py).
-- A time is a natural number: seconds on the grid, milliseconds for a receipt. `window_outcome`
-- returns none while the window is pending.
pub mod Window
mod Outcomes
pub mod Collect
pub mod Final
pub mod Truth
pub use Outcomes.*
use predictive_autoscaler.Prelude.{
  ℕ, ◌+◌, ◌*◌, min, String, Option, none, some, List, [], ◌∷◌, length, lookup, Dict, Float, ◌⊖◌,
  ◌≤?◌, Result, ok, ltb, if◌then◌else◌, ◌>>=◌, ◌>>◌,
}
use predictive_autoscaler.Maturation.Window.{WindowError, check_window, last_target}
use predictive_autoscaler.Maturation.Collect.{Scan, scan, nothing_scanned, max_values}

unfoldable pub truth_deadline_ms : ℕ → ℕ → ℕ → ℕ
truth_deadline_ms window_end settlement_s grace_s = (window_end + settlement_s + grace_s) * 1000

-- `[(t, why) for t in targets if (why := excluded(t))]`: an empty reason excludes nothing.
unfoldable pub excluded_targets : (ℕ → Option String) → List ℕ → List (ℕ × String)
excluded_targets excluded [] = []
excluded_targets excluded (t ∷ ts) =
    let rest = excluded_targets excluded ts in
    elim (truthy (excluded t)) [ none ↦ rest | some why ↦ (t, why) ∷ rest ]

-- `excluded is None` and a predicate that excludes nothing go on alike.
abbrev pub exclusion_hits : Option (ℕ → Option String) → List ℕ → List (ℕ × String)
exclusion_hits none targets = []
exclusion_hits (some excluded) targets = excluded_targets excluded targets

module _ {F : Type 0} ⦃fl : Float F⦄ (dg : Digests F) where
  open dg use {targets_sha256, values_sha256}

  -- The payload of a window whose every target was received in time.
  unfoldable pub scored_payload : List ℕ → F → Option F → Scan F → Payload F
  scored_payload targets base_rps upper_rps s =
      let y = max_values s.values in
      Payload.scored (record {
        y_window_max_rps = y;
        targets = length targets;
        targets_sha256 = targets_sha256 targets;
        base_window_max_rps = base_rps;
        upper_window_max_rps = upper_rps;
        covered = elim upper_rps [ none ↦ none | some u ↦ some (y ≤? u) ];
        residual_rps = y ⊖ base_rps;
        abs_error_rps = fl.abs (y ⊖ base_rps);
        values = s.values;
        values_sha256 = values_sha256 s.values;
        completed_at_ms = s.completed;
      })

  -- What follows the scan: a missing target waits until the deadline, then closes the window.
  unfoldable pub close_window : List ℕ → F → Option F → ℕ → ℕ → Scan F → List ℕ → Option (Payload F)
  close_window targets base_rps upper_rps now_ms deadline_ms s [] =
      some (scored_payload targets base_rps upper_rps s)
  close_window targets base_rps upper_rps now_ms deadline_ms s (t ∷ ts) =
      if ltb now_ms deadline_ms
      then none
      else some (
          Payload.missing_truth (length (t ∷ ts)) (length targets) (targets_sha256 targets) t
            deadline_ms)

  unfoldable pub settle_window :
      List ℕ → F → Option F → Dict ℕ (F × ℕ) → ℕ → ℕ → List (ℕ × String) → Option (Payload F)
  settle_window targets base_rps upper_rps received now_ms deadline_ms ((t, why) ∷ hit) = some (
      Payload.excluded_window (length ((t, why) ∷ hit)) (length targets) (targets_sha256 targets) t
        why deadline_ms)
  settle_window targets base_rps upper_rps received now_ms deadline_ms [] =
      let s = scan received (min now_ms deadline_ms) targets nothing_scanned in
      close_window targets base_rps upper_rps now_ms deadline_ms s s.missing

  -- Pending (none), or the terminal outcome; its status is `status` of the payload.
  unfoldable pub window_outcome :
      List ℕ
      → F
      → Option F
      → Dict ℕ (F × ℕ)
      → ℕ
      → ℕ
      → ℕ
      → Option (ℕ → Option String)
      → Result WindowError (Option (Payload F))
  window_outcome targets base_rps upper_rps received now_ms settlement_s grace_s excluded = do
    check_window targets
    let window_end = last_target targets
    let close_ms = (window_end + settlement_s) * 1000
    let deadline_ms = truth_deadline_ms window_end settlement_s grace_s
    if ltb now_ms close_ms
        then ok none
        else ok (
            settle_window targets base_rps upper_rps received now_ms deadline_ms
              (exclusion_hits excluded targets))
