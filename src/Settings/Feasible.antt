-- ===== src/Settings/Feasible.antt =====
-- Resolved settings are a policy that the calibration accepts (contracts.py: resolve_settings;
-- calibration.py: CalibrationPolicy.from_settings and __post_init__).
use predictive_autoscaler.Prelude.{
  ℕ, ◌≤◌, ◌≡◌, refl, sym, subst, ap, arith, not, ◌&&◌, some, String, Dict, lookup, ltb, leb, nat_eq,
  string_eq, ok, bind-ok, raise_if-ok,
}
use predictive_autoscaler.Calibration.{check_policy, CalibrationPolicy}
use predictive_autoscaler.Settings.{
  int_group, check_feasible, resolve_settings, policy_of, grid_settings, assemble, feasible,
}
use predictive_autoscaler.Settings.Bounds.{group-bounds}
use predictive_autoscaler.Settings.Types.{
  contract_refused, RawPrediction, CalibrationSettings, ForecastSettings, risk_spec, trust_spec,
  extra_spec, calibration_spec, pick, calibration_settings,
}

-- What the check of the settings has found.
feasible-orders :
    (s : ForecastSettings)
    → check_feasible s ≡ ok tt
    → (s.calibration.min_miscoverage_bps ≤ s.miscoverage_bps)
      × (s.miscoverage_bps ≤ s.calibration.max_miscoverage_bps)
      × (s.calibration.min_windows ≤ s.calibration.max_scores)
unfolding check_feasible
feasible-orders s e =
    let c = s.calibration in
    let (nominal, e1) =
      raise_if-ok
        (not (
          leb c.min_miscoverage_bps s.miscoverage_bps
          && leb s.miscoverage_bps c.max_miscoverage_bps))
        contract_refused _ tt e in
    let (bounds, e2) =
      raise_if-ok (leb c.max_miscoverage_bps c.min_miscoverage_bps) contract_refused _ tt e1 in
    let (buffer, e3) = raise_if-ok (ltb c.max_scores c.min_windows) contract_refused _ tt e2 in
    (ground (arith, nominal), ground (arith, nominal), ground (arith, buffer))

accepted :
    (p : CalibrationPolicy)
    → 1 ≤ p.lead_seconds
    → 1 ≤ p.min_bps
    → p.min_bps ≤ p.nominal_bps
    → p.nominal_bps ≤ p.max_bps
    → p.max_bps ≤ 5000
    → 1 ≤ p.min_windows
    → p.min_windows ≤ p.max_scores
    → p.eta_bps ≤ 1000
    → check_policy p ≡ ok tt
unfolding check_policy
accepted p h1 h2 h3 h4 h5 h6 h7 h8 = ground arith

-- What is left of a resolution: the calibration group, and the check across the fields.
resolved-parts :
    (pred : RawPrediction) (s : ForecastSettings)
    → resolve_settings pred ≡ ok s
    → (cal : Dict String ℕ) × (int_group calibration_spec pred.calibration ≡ ok cal)
      × (s.calibration ≡ calibration_settings cal)
      × (check_feasible s ≡ ok tt)
unfolding resolve_settings feasible assemble
resolved-parts pred s e =
    let (grid, e1, e2) = bind-ok (grid_settings pred) _ s e in
    let (risk, e3, e4) = bind-ok (int_group risk_spec pred.risk) _ s e2 in
    let (cal, e5, e6) = bind-ok (int_group calibration_spec pred.calibration) _ s e4 in
    let (trust, e7, e8) = bind-ok (int_group trust_spec pred.trust) _ s e6 in
    let (extra, e9, e10) = bind-ok (int_group extra_spec pred.predictive_extra) _ s e8 in
    let made = assemble grid risk cal trust extra in
    let (u, checked, e11) = bind-ok (check_feasible made) (λ v. ok made) s e10 in
    let same : made ≡ s = ground (arith, e11) in
    (
      cal,
      e5,
      sym (ap (λ (s : ForecastSettings). s.calibration) same),
      subst (λ s. check_feasible s ≡ ok tt) same checked,
    )

-- Settings that are resolved give, for every positive lead, a calibration policy that its own check accepts.
pub resolve_settings-check_policy :
    (pred : RawPrediction) (s : ForecastSettings) (lead_seconds : ℕ)
    → resolve_settings pred ≡ ok s
    → 1 ≤ lead_seconds
    → check_policy (policy_of s lead_seconds) ≡ ok tt
unfolding policy_of calibration_settings
resolve_settings-check_policy pred s lead_seconds e h =
    let (cal, group, same, checked) = resolved-parts pred s e in
    let (low, high, buffer) = feasible-orders s checked in
    let bounds =
      λ (key : String) (lo hi d : ℕ) (entry : lookup key calibration_spec ≡ some (lo, hi))
          (l : lo ≤ d) (h : d ≤ hi).
        group-bounds key pred.calibration calibration_spec cal lo hi d entry group l h in
    let windows = bounds "minWindows" 16 4096 128 refl (omega arith) (omega arith) in
    let eta = bounds "etaBps" 1 1000 50 refl (omega arith) (omega arith) in
    let least = bounds "minMiscoverageBps" 1 5000 100 refl (omega arith) (omega arith) in
    let most = bounds "maxMiscoverageBps" 1 5000 2500 refl (omega arith) (omega arith) in
    let windows_is : s.calibration.min_windows ≡ pick "minWindows" 128 cal =
      ap (λ (c : CalibrationSettings). c.min_windows) same in
    let eta_is : s.calibration.eta_bps ≡ pick "etaBps" 50 cal =
      ap (λ (c : CalibrationSettings). c.eta_bps) same in
    let least_is : s.calibration.min_miscoverage_bps ≡ pick "minMiscoverageBps" 100 cal =
      ap (λ (c : CalibrationSettings). c.min_miscoverage_bps) same in
    let most_is : s.calibration.max_miscoverage_bps ≡ pick "maxMiscoverageBps" 2500 cal =
      ap (λ (c : CalibrationSettings). c.max_miscoverage_bps) same in
    accepted (policy_of s lead_seconds) h (omega (arith, least_is, least.0)) low high
      (omega (arith, most_is, most.1)) (omega (arith, windows_is, windows.0)) buffer
      (omega (arith, eta_is, eta.1))
