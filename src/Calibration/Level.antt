-- ===== src/Calibration/Level.antt =====
-- The limits of calibration.py's working level, and the policies that the constructor accepts.
use predictive_autoscaler.Prelude.{ℕ, ◌*◌, ◌≤◌, ◌<◌, ◌≡◌, ◌↔◌, ok, arith}
use predictive_autoscaler.Calibration.{CalibrationPolicy, check_policy, bps}
use predictive_autoscaler.Calibration.Apply.{clip}

-- What `__post_init__` checks.
pub record IsPolicy (p : CalibrationPolicy) : Type 0 where
  pub min_positive : 0 < p.min_bps
  pub min_le_nominal : p.min_bps ≤ p.nominal_bps
  pub nominal_le_max : p.nominal_bps ≤ p.max_bps
  pub max_below_one : p.max_bps < bps
  pub lead_positive : 0 < p.lead_seconds
  pub windows_positive : 0 < p.min_windows
  pub windows_fit : p.min_windows ≤ p.max_scores
  pub eta_le_one : p.eta_bps ≤ bps

-- The constructor accepts exactly the consistent policies: with limits in order strictly between zero
-- and one, a positive lead, at least one window, room for the windows that it asks for, and a learning
-- rate of at most one.
pub check_policy-IsPolicy : (p : CalibrationPolicy) → (check_policy p ≡ ok tt) ↔ IsPolicy p
unfolding check_policy
check_policy-IsPolicy p = (λ h. ground arith, λ v. ground (arith, v))

abbrev pub InRange : CalibrationPolicy → ℕ → Type 0
InRange p a = (p.min_bps * bps ≤ a) × (a ≤ p.max_bps * bps)

pub clip-InRange : (p : CalibrationPolicy) (a : ℕ) → IsPolicy p → InRange p (clip p a)
unfolding clip
clip-InRange p a v = omega arith
