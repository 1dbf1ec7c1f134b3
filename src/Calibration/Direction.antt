-- ===== src/Calibration/Direction.antt =====
-- How one matured record moves the working level of calibration.py.
use predictive_autoscaler.Prelude.{
  ℕ, ◌+◌, ◌-◌, ◌*◌, min, max, ◌≤◌, ◌<◌, ◌≡◌, refl, ap, ◌∙◌, true, false, Option, none, some, List,
  String, Float, ◌≤?◌, ◌<?◌, to_int, ok, Bool-cases, inl, inr, arith,
}
use native.Mathlib.Nat.{mul-le-mul_left, mul-sub}
use predictive_autoscaler.Calibration.{
  CalibrationPolicy, CalibrationState, CalibrationRecord, bps, in_cohort, initial,
}
use predictive_autoscaler.Calibration.Apply.{
  moved_level, clip, apply, apply_scored, apply_unscorable, apply_cohort, add_score, move_level,
}
use predictive_autoscaler.Calibration.Level.{IsPolicy, InRange}
use predictive_autoscaler.Calibration.Record.{
  replayed, closed, matured, noted, apply-Applied, apply_all,
}
use predictive_autoscaler.Calibration.Invariant.{apply_all-IsWell}

-- The level after a bound that held: a step up, to the upper limit at most.
abbrev pub raised : CalibrationPolicy → ℕ → ℕ
raised p a = min (p.max_bps * bps) (a + p.eta_bps * p.nominal_bps)

-- The level after a bound that was missed: a step down, to the lower limit at least.
abbrev pub lowered : CalibrationPolicy → ℕ → ℕ
lowered p a = max (p.min_bps * bps) (a - p.eta_bps * (bps - p.nominal_bps))

clip-raised :
    (p : CalibrationPolicy) (a : ℕ)
    → IsPolicy p
    → InRange p a
    → clip p (moved_level p a 0) ≡ raised p a
unfolding clip moved_level
clip-raised p a v h = omega arith

clip-lowered :
    (p : CalibrationPolicy) (a : ℕ)
    → IsPolicy p
    → InRange p a
    → clip p (moved_level p a 1) ≡ lowered p a
unfolding clip moved_level
clip-lowered p a v h =
    let product : p.eta_bps * p.nominal_bps ≤ p.eta_bps * bps =
      mul-le-mul_left p.eta_bps (omega arith) in
    let apart = mul-sub p.eta_bps bps p.nominal_bps in omega (arith, product, apart)

module _ {F : Type 0} ⦃fl : Float F⦄ where
  -- A record that is new, scored, and of the cohort: the only kind whose bound counts for the level.
  pub record IsCounting (p : CalibrationPolicy) (r : CalibrationRecord F) (s : CalibrationState F)
      : Type 0 where
    pub new : s.last_seq < r.seq
    pub scored : r.status ≡ "scored"
    pub inside : in_cohort r.decision_origin p.lead_seconds ≡ true

  -- What a record does to the level.
  pub data LevelMove (p : CalibrationPolicy) (r : CalibrationRecord F) (s s' : CalibrationState F)
      : Type 0 where
    old : r.seq ≤ s.last_seq → s'.a_e8 ≡ s.a_e8 → LevelMove p r s s'
    unscored : r.status ≡ "unscorable" → s'.a_e8 ≡ s.a_e8 → LevelMove p r s s'
    outside :
        in_cohort r.decision_origin p.lead_seconds ≡ false → s'.a_e8 ≡ s.a_e8 → LevelMove p r s s'
    unbounded : r.upper_rps ≡ none → s'.a_e8 ≡ s.a_e8 → LevelMove p r s s'
    held :
        (y u : F)
        → IsCounting p r s
        → r.y_rps ≡ some y
        → r.upper_rps ≡ some u
        → (y ≤? u) ≡ true
        → s'.a_e8 ≡ raised p s.a_e8
        → LevelMove p r s s'
    missed :
        (y u : F)
        → IsCounting p r s
        → r.y_rps ≡ some y
        → r.upper_rps ≡ some u
        → (y ≤? u) ≡ false
        → s'.a_e8 ≡ lowered p s.a_e8
        → LevelMove p r s s'

  cohort-LevelMove :
      (p : CalibrationPolicy) (r : CalibrationRecord F) (y : F) (o : Option F)
      (s t s' : CalibrationState F)
      → IsPolicy p
      → InRange p s.a_e8
      → t.a_e8 ≡ s.a_e8
      → IsCounting p r s
      → r.y_rps ≡ some y
      → r.upper_rps ≡ o
      → s' ≡ apply_cohort p r.window_end y r.base_rps o t
      → LevelMove p r s s'
  unfolding apply_cohort add_score move_level
  cohort-LevelMove p r y none s t s' v h same c ty tu e =
      unbounded tu (ap (λ (x : CalibrationState F). x.a_e8) e ∙ same)
  cohort-LevelMove p r y (some u) s t s' v h same c ty tu e =
      let level : s'.a_e8 ≡ clip p (moved_level p s.a_e8 (to_int (u <? y))) =
        ap (λ (x : CalibrationState F). x.a_e8) e
        ∙ ap (λ a. clip p (moved_level p a (to_int (u <? y)))) same in
      elim (Bool-cases (y ≤? u)) [
        | inl q ↦ held y u c ty tu q (rw q at level ∙ clip-raised p s.a_e8 v h)
        | inr q ↦ missed y u c ty tu q (rw q at level ∙ clip-lowered p s.a_e8 v h)
      ]

  scored-LevelMove :
      (p : CalibrationPolicy) (r : CalibrationRecord F) (y : F) (s s' : CalibrationState F)
      → IsPolicy p
      → InRange p s.a_e8
      → s.last_seq < r.seq
      → r.status ≡ "scored"
      → r.y_rps ≡ some y
      → s' ≡ apply_scored p r y (noted r s)
      → LevelMove p r s s'
  unfolding apply_scored
  scored-LevelMove p r y s s' v h new sc ty e =
      elim (Bool-cases (in_cohort r.decision_origin p.lead_seconds)) [
        | inl inside ↦
            cohort-LevelMove p r y r.upper_rps s _ s' v h refl
              (record { new = new; scored = sc; inside = inside }) ty refl (rw inside at e)
        | inr out ↦ outside out (ap (λ (x : CalibrationState F). x.a_e8) (rw out at e))
      ]

  -- From any state that records make of a new one under a consistent policy, one more record that is
  -- accepted moves the level so: a record taken already, an unscorable one, one outside the cohort and
  -- one without an issued bound leave it. Any other record is new, scored and of the cohort: a bound
  -- that held (y at most the bound) raises the level by eta times nominal, to the upper limit at most,
  -- and a missed one lowers it by eta times (1 - nominal), to the lower limit at least.
  pub apply-LevelMove :
      (p : CalibrationPolicy) (epoch model recipe : String) (rs : List (CalibrationRecord F))
      (r : CalibrationRecord F) (s s' : CalibrationState F)
      → IsPolicy p
      → apply_all (initial p epoch model recipe) rs p ≡ ok s
      → apply s r p ≡ ok s'
      → LevelMove p r s s'
  unfolding apply_unscorable
  apply-LevelMove p epoch model recipe rs r s s' v run e =
      let well = apply_all-IsWell p epoch model recipe rs s v run in
      elim (apply-Applied p r s s' e) [
        | replayed seen same ↦ old seen (ap (λ (x : CalibrationState F). x.a_e8) same)
        | closed new un same ↦ unscored un (ap (λ (x : CalibrationState F). x.a_e8) same)
        | matured y new sc ty same ↦ scored-LevelMove p r y s s' v well.level new sc ty same
      ]
