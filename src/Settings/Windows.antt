-- ===== src/Settings/Windows.antt =====
-- The issued window (contracts.py: ForecastWindow, make_window).
use predictive_autoscaler.Prelude.{
  ℕ, zero, suc, ◌+◌, ◌-◌, ◌*◌, ◌/◌, ◌%◌, min, Bool, not, ◌&&◌, ◌||◌, List, [], ◌∷◌, ltb, leb, ◌==◌,
  nat_eq, Result, ok, raise_if, ◌>>◌,
}
use predictive_autoscaler.Settings.Types.{
  ContractError, contract_refused, ForecastSettings, LeadSelection,
}

pub record ForecastWindow : Type 0 where
  pub decision_origin : ℕ
  pub interval_seconds : ℕ
  pub lead_seconds : ℕ

unfoldable pub window_end_of : ForecastWindow → ℕ
window_end_of w = w.decision_origin + w.lead_seconds

-- t + k Δ for `count` values of k, from k on.
unfoldable pub targets_from : ℕ → ℕ → ℕ → ℕ → List ℕ
targets_from t dt k zero = []
targets_from t dt k (suc left) = (t + k * dt) ∷ targets_from t dt (k + 1) left

unfoldable pub target_timestamps : ForecastWindow → List ℕ
target_timestamps w =
    targets_from w.decision_origin w.interval_seconds 1 (w.lead_seconds / w.interval_seconds)

-- A deadline below zero, which no time is before, is 0.
unfoldable pub valid_until : ForecastWindow → LeadSelection → ℕ
valid_until w l = min (w.decision_origin + w.interval_seconds - l.actuation_allowance_seconds) (
    w.decision_origin
    + w.lead_seconds
    - (l.startup_delay_seconds + w.interval_seconds + l.actuation_allowance_seconds))

-- Whether now + A precedes the first target; without one the source raises an IndexError.
unfoldable pub precedes_first : List ℕ → ℕ → Bool
precedes_first [] t = Bool.false
precedes_first (first ∷ rest) t = ltb t (first * 1000)

unfoldable pub actionable_at : ForecastWindow → ℕ → LeadSelection → Bool
actionable_at w now_ms l =
    precedes_first (target_timestamps w) (now_ms + l.actuation_allowance_seconds * 1000)
    && ltb now_ms (valid_until w l * 1000)

unfoldable pub make_window :
    ℕ → ForecastSettings → LeadSelection → Result ContractError ForecastWindow
make_window origin s l =
    let dt = s.sample_interval_seconds in
    do
      raise_if (not (origin % dt == 0)) contract_refused
      raise_if
          (not (l.lead_seconds % dt == 0)
            || not (leb dt l.lead_seconds && leb l.lead_seconds s.horizon_seconds))
          contract_refused
      ok (record { decision_origin = origin; interval_seconds = dt; lead_seconds = l.lead_seconds })
