-- ===== src/Settings/Leads.antt =====
-- An issued window is the exact window that maturation accepts (contracts.py: make_window and
-- ForecastWindow; maturation.py: check_window).
use predictive_autoscaler.Prelude.{
  ℕ, zero, suc, ◌+◌, ◌-◌, ◌*◌, ◌/◌, ◌%◌, min, ◌≤◌, ◌<◌, ◌≡◌, refl, sym, subst, ap, ◌∙◌, arith, true,
  not, ◌&&◌, ◌||◌, all, ltb, leb, ◌==◌, nat_eq, ok, raise_if-ok,
}
use native.Mathlib.Nat.{add-mul, mod-add-div'}
use predictive_autoscaler.Maturation.Window.{check_window, steps, evenly_spaced, last_target}
use predictive_autoscaler.Settings.Types.{contract_refused, ForecastSettings, LeadSelection}
use predictive_autoscaler.Settings.Windows.{
  ForecastWindow, window_end_of, targets_from, target_timestamps, valid_until, precedes_first,
  actionable_at, make_window,
}

next-slot : (t dt k : ℕ) → t + (k + 1) * dt ≡ t + k * dt + dt
next-slot t dt k =
    let whole = add-mul k 1 dt in let one : 1 * dt ≡ dt = omega arith in omega (arith, whole, one)

slot-step : (t dt k : ℕ) → (t + (k + 1) * dt) - (t + k * dt) ≡ dt
slot-step t dt k = ap (λ x. x - (t + k * dt)) (next-slot t dt k) ∙ cancel (t + k * dt) dt
  where
    cancel : (a b : ℕ) → a + b - a ≡ b
    cancel a b = omega arith

module _ (t dt : ℕ) where
  steps-same : (k n : ℕ) → all (λ e. e == dt) (steps (targets_from t dt k n)) ≡ true
  unfolding steps targets_from
  steps-same k zero = refl
  steps-same k (suc zero) = refl
  steps-same k (suc (suc n)) =
      let here : ((t + (k + 1) * dt) - (t + k * dt) == dt) ≡ true =
        (nat_eq.same_iff _ dt).1 (slot-step t dt k) in
      rw here (steps-same (k + 1) (suc n))

  targets-check_window : (k n : ℕ) → 1 ≤ dt → check_window (targets_from t dt k (suc n)) ≡ ok tt
  unfolding check_window steps evenly_spaced targets_from
  targets-check_window k zero h = refl
  targets-check_window k (suc n) h =
      let rest = steps-same (k + 1) (suc n) in
      let positive : ltb 0 dt ≡ true = ground (arith, h) in
      rw (slot-step t dt k, positive, rest) refl

  last-targets : (k n : ℕ) → last_target (targets_from t dt k (suc n)) ≡ t + (k + n) * dt
  unfolding last_target targets_from
  last-targets k zero = let same : k ≡ k + 0 = omega arith in ap (λ j. t + j * dt) same
  last-targets k (suc n) =
      let same : k + 1 + n ≡ k + suc n = omega arith in
      last-targets (k + 1) n ∙ ap (λ j. t + j * dt) same

-- What an accepted window is.
made-window :
    (origin : ℕ) (s : ForecastSettings) (l : LeadSelection) (w : ForecastWindow)
    → make_window origin s l ≡ ok w
    → ((l.lead_seconds % s.sample_interval_seconds == 0) ≡ true)
      × (s.sample_interval_seconds ≤ l.lead_seconds)
      × (record {
        decision_origin = origin;
        interval_seconds = s.sample_interval_seconds;
        lead_seconds = l.lead_seconds;
      }
          ≡ w)
unfolding make_window
made-window origin s l w e =
    let (aligned, e1) =
      raise_if-ok (not (origin % s.sample_interval_seconds == 0)) contract_refused _ w e in
    let (within, e2) =
      raise_if-ok
        (not (l.lead_seconds % s.sample_interval_seconds == 0)
          || not (
              leb s.sample_interval_seconds l.lead_seconds && leb l.lead_seconds s.horizon_seconds))
        contract_refused _ w e1 in
    (ground (arith, within), ground (arith, within), ground (arith, e2))

drop_zero : (a : ℕ) → a ≡ 0 + a
drop_zero a = omega arith

quotient-pos :
    (l dt : ℕ) → 1 ≤ dt → dt ≤ l → l % dt ≡ 0 → (n : ℕ) × (l / dt ≡ suc n) × (suc n * dt ≡ l)
quotient-pos l dt h le e = by_quotient (l / dt) refl
  where
    by_quotient : (q : ℕ) → l / dt ≡ q → (n : ℕ) × (l / dt ≡ suc n) × (suc n * dt ≡ l)
    by_quotient zero p =
        let whole : 0 + 0 * dt ≡ l =
          sym (ap (λ r. r + l / dt * dt) e ∙ ap (λ q. 0 + q * dt) p) ∙ mod-add-div' l dt in
        absurd (omega (arith, whole, le, h))
    by_quotient (suc n) p =
        let whole : 0 + suc n * dt ≡ l =
          sym (ap (λ r. r + l / dt * dt) e ∙ ap (λ q. 0 + q * dt) p) ∙ mod-add-div' l dt in
        (n, p, drop_zero (suc n * dt) ∙ whole)

-- A window that is issued for a lead is one that maturation accepts: its targets are evenly spaced and
-- the last one is its end. While it is actionable, the time and the actuation allowance precede the
-- first target, and the time, the startup delay, a cadence and the allowance precede its end. The
-- cadence is positive.
pub make_window-check_window :
    (origin : ℕ) (s : ForecastSettings) (l : LeadSelection) (w : ForecastWindow)
    → 1 ≤ s.sample_interval_seconds
    → make_window origin s l ≡ ok w
    → (check_window (target_timestamps w) ≡ ok tt)
      × (last_target (target_timestamps w) ≡ window_end_of w)
      × ((now_ms : ℕ)
          → actionable_at w now_ms l ≡ true
          → (now_ms + l.actuation_allowance_seconds * 1000
              < (origin + s.sample_interval_seconds) * 1000)
            × (now_ms
                  + (l.startup_delay_seconds + s.sample_interval_seconds
                      + l.actuation_allowance_seconds)
                    * 1000
                < (origin + l.lead_seconds) * 1000))
unfolding target_timestamps window_end_of actionable_at valid_until precedes_first targets_from
make_window-check_window origin s l w h e =
    let dt = s.sample_interval_seconds in
    let (aligned, le, same) = made-window origin s l w e in
    let no_rest : l.lead_seconds % dt ≡ 0 = (nat_eq.same_iff (l.lead_seconds % dt) 0).0 aligned in
    let (n, quot, whole) = quotient-pos l.lead_seconds dt h le no_rest in
    let grid : targets_from origin dt 1 (l.lead_seconds / dt) ≡ targets_from origin dt 1 (suc n) =
      ap (targets_from origin dt 1) quot in
    subst
      (λ w.
        (check_window (target_timestamps w) ≡ ok tt)
        × (last_target (target_timestamps w) ≡ window_end_of w)
        × ((now_ms : ℕ)
            → actionable_at w now_ms l ≡ true
            → (now_ms + l.actuation_allowance_seconds * 1000 < (origin + dt) * 1000)
              × (now_ms + (l.startup_delay_seconds + dt + l.actuation_allowance_seconds) * 1000
                  < (origin + l.lead_seconds) * 1000)))
      same
      (
        ap check_window grid ∙ targets-check_window origin dt 1 n h,
        ap last_target grid
            ∙ last-targets origin dt 1 n
            ∙ ap (λ q. origin + q * dt) (one_more n)
            ∙ ap (λ x. origin + x) whole,
        λ now_ms act.
            let until = min (origin + dt - l.actuation_allowance_seconds) (
              origin
              + l.lead_seconds
              - (l.startup_delay_seconds + dt + l.actuation_allowance_seconds)) in
            let on_grid : (precedes_first (targets_from origin dt 1 (suc n))
                    (now_ms + l.actuation_allowance_seconds * 1000)
                  && ltb now_ms (until * 1000))
                ≡ true =
              subst
                (λ ts.
                  (precedes_first ts (now_ms + l.actuation_allowance_seconds * 1000)
                    && ltb now_ms (until * 1000))
                  ≡ true)
                grid act in
            let single : 1 * dt ≡ dt = omega arith in
            let early : ltb (now_ms + l.actuation_allowance_seconds * 1000)
                  ((origin + 1 * dt) * 1000)
                ≡ true =
              ground (arith, on_grid) in
            let before : ltb now_ms (until * 1000) ≡ true = ground (arith, on_grid) in
            (ground (arith, early, single), ground (arith, before)),
      )
  where
    one_more : (n : ℕ) → 1 + n ≡ suc n
    one_more n = omega arith
