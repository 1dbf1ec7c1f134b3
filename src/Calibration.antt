-- ===== src/Calibration.antt =====
-- Window calibration (ml-engine/forecasting/calibration.py): the score buffer, the adaptive level
-- and the upper bound of one model.
-- The level is an integer in units of 1e-8, as in the source. Scores and rates are floating-point
-- numbers, of which only the operations that the code calls are used (`Float`).
mod Types
pub mod Apply
pub mod Record
pub mod Level
pub mod Invariant
pub mod Direction
pub mod Once
pub mod Bound
pub mod Answer
pub use Types.*
use predictive_autoscaler.Prelude.{
  ℕ, suc, ◌+◌, ◌-◌, ◌*◌, ◌/◌, ◌%◌, min, max, String, Bool, true, false, not, ◌&&◌, ◌||◌, Option,
  none, some, List, [], ◌∷◌, ◌++◌, ltb, leb, ◌==◌, nat_eq, string_eq, if◌then◌else◌, length,
  get_elem?, last_n, filterb, map, sort_by, or_else, to_int, Float, ◌⊕◌, ◌⊖◌, ◌⊗◌, ◌⊘◌, ◌≤?◌, ◌<?◌,
  fmax, Result, ok, err, raise_if, ◌>>=◌, ◌>>◌,
}

abbrev pub E8 : ℕ
E8 = 100_000_000

abbrev pub bps : ℕ
bps = 10_000

-- `CalibrationPolicy.__post_init__`
unfoldable pub check_policy : CalibrationPolicy → Result CalibrationError (Unit {0})
check_policy p =
    raise_if
      (not (
          ltb 0 p.min_bps
          && leb p.min_bps p.nominal_bps
          && leb p.nominal_bps p.max_bps
          && ltb p.max_bps bps)
        || leb p.lead_seconds 0
        || ltb p.min_windows 1
        || ltb p.max_scores p.min_windows
        || not (leb p.eta_bps bps))
      inconsistent_policy

-- k = ceil((n + 1)(1 - a)): the source's -(-x // E8) is the quotient rounded up.
unfoldable pub rank : ℕ → ℕ → ℕ
rank n a_e8 = ((n + 1) * (E8 - a_e8) + (E8 - 1)) / E8

unfoldable pub in_cohort : ℕ → ℕ → Bool
in_cohort decision_origin lead_seconds = decision_origin % lead_seconds == 0

module _ {F : Type 0} ⦃fl : Float F⦄ where
  unfoldable pub pinball_rps : F → F → F → F
  pinball_rps y upper miscoverage =
      let tau = fl.of_int 1 ⊖ miscoverage in
      if upper ≤? y then tau ⊗ (y ⊖ upper) else (fl.of_int 1 ⊖ tau) ⊗ (upper ⊖ y)

  unfoldable pub nominal_ratio : CalibrationPolicy → F
  nominal_ratio p = fl.of_int p.nominal_bps ⊘ fl.of_int bps

  unfoldable pub initial : CalibrationPolicy → String → String → String → CalibrationState F
  initial policy epoch model recipe = record {
    epoch = epoch;
    model = model;
    recipe = recipe;
    a_e8 = policy.nominal_bps * bps;
    scores = [];
    last_seq = 0;
    newest_window_end = none;
    all_windows = record {
      scored = 0;
      unscorable = 0;
      bounded = 0;
      covered = 0;
      error_sum_rps = fl.of_int 0;
    };
    gate = record {
      scored = 0;
      unscorable = 0;
      bounded = 0;
      covered = 0;
      error_sum_rps = fl.of_int 0;
    };
    level_updates = 0;
    at_bound = 0;
  }

  -- `now - retention < end <= now`, the newest `max_scores` of them. The left test is written without
  -- a subtraction, which could fall below zero.
  unfoldable pub buffered_scores : CalibrationState F → CalibrationPolicy → ℕ → List F
  buffered_scores state policy now_s = last_n policy.max_scores (
      map (λ (s : ℕ × F). s.1)
        (filterb (λ (s : ℕ × F). ltb now_s (s.0 + policy.retention_seconds) && leb s.0 now_s)
          state.scores))

  -- The bound of the sorted scores, or why there is none.
  unfoldable pub bound_of : CalibrationPolicy → F → ℕ → List F → BoundInfo F
  bound_of policy base_rps k scores =
      if ltb (length scores) policy.min_windows
      then unavailable calibration_insufficient
      else if ltb (length scores) k
      then unavailable rank_overflow
      else elim (get_elem? scores (k - 1)) [
        | none ↦ unavailable rank_overflow
        | some q ↦ available (fmax (fl.of_int 0) (base_rps ⊕ q)) q
      ]

  -- The details (n, rank, level) and the bound.
  unfoldable pub upper_bound :
      CalibrationState F
      → CalibrationPolicy
      → F
      → ℕ
      → Result CalibrationError (ℕ × ℕ × F × BoundInfo F)
  upper_bound state policy base_rps now_s = do
    raise_if (not (fl.is_finite base_rps) || (base_rps <? fl.of_int 0)) bad_base
    let scores = sort_by ◌≤?◌ (buffered_scores state policy now_s)
    let n = length scores
    let k = rank n state.a_e8
    ok (n, k, fl.of_int state.a_e8 ⊘ fl.of_int E8, bound_of policy base_rps k scores)
