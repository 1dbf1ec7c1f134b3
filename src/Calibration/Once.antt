-- ===== src/Calibration/Once.antt =====
-- Exactly once: the journal's sequence numbers keep calibration.py from applying a record again.
use predictive_autoscaler.Prelude.{
  ℕ, ◌≤◌, max, ◌≡◌, refl, Option, none, some, List, [], ◌∷◌, All, Float, ok, err, Result-cases,
  Bool-cases, inl, inr, arith, string_eq,
}
use predictive_autoscaler.Calibration.{
  CalibrationPolicy, CalibrationState, CalibrationRecord, in_cohort,
}
use predictive_autoscaler.Calibration.Apply.{
  apply, apply_scored, apply_unscorable, apply_cohort, add_score, move_level,
}
use predictive_autoscaler.Calibration.Record.{
  Applied, replayed, closed, matured, noted, apply-Applied, apply_all,
}

module _ {F : Type 0} ⦃fl : Float F⦄ where
  -- The identity of a state, and the last sequence number that it holds.
  abbrev SameIdentity : CalibrationState F → CalibrationState F → Type 0
  SameIdentity s s' = (s'.epoch ≡ s.epoch) × (s'.model ≡ s.model) × (s'.recipe ≡ s.recipe)

  cohort_identity :
      (p : CalibrationPolicy) (w : ℕ) (y b : F) (u : Option F) (s : CalibrationState F)
      → SameIdentity s (apply_cohort p w y b u s)
        × ((apply_cohort p w y b u s).last_seq ≡ s.last_seq)
  unfolding apply_cohort add_score move_level
  cohort_identity p w y b none s = ((refl, refl, refl), refl)
  cohort_identity p w y b (some u) s = ((refl, refl, refl), refl)

  scored_identity :
      (p : CalibrationPolicy) (r : CalibrationRecord F) (y : F) (s : CalibrationState F)
      → SameIdentity s (apply_scored p r y s) × ((apply_scored p r y s).last_seq ≡ s.last_seq)
  unfolding apply_scored
  scored_identity p r y s = elim (Bool-cases (in_cohort r.decision_origin p.lead_seconds)) [
    | inl e ↦ rw e (cohort_identity p r.window_end y r.base_rps r.upper_rps _)
    | inr e ↦ rw e ((refl, refl, refl), refl)
  ]

  -- A record that was applied leaves the larger of the two sequence numbers.
  pub Applied-last_seq :
      (p : CalibrationPolicy) (r : CalibrationRecord F) (s s' : CalibrationState F)
      → Applied p r s s'
      → SameIdentity s s' × (s'.last_seq ≡ max s.last_seq r.seq)
  unfolding apply_unscorable
  Applied-last_seq p r s s' (replayed old e) = rw e ((refl, refl, refl), omega arith)
  Applied-last_seq p r s s' (closed new u e) = rw e ((refl, refl, refl), omega arith)
  Applied-last_seq p r s s' (matured y new sc o e) =
      let (same, last) = scored_identity p r y (noted r s) in rw e (same, omega (arith, last))

  -- A record at or below the last sequence number of its own epoch, model and recipe changes nothing.
  pub apply_old :
      (p : CalibrationPolicy) (r : CalibrationRecord F) (s : CalibrationState F)
      → r.epoch ≡ s.epoch
      → r.model ≡ s.model
      → r.recipe ≡ s.recipe
      → r.seq ≤ s.last_seq
      → apply s r p ≡ ok s
  unfolding apply
  apply_old p r s e m c old = ground (
    arith,
    (string_eq.same_iff r.epoch s.epoch).1 e,
    (string_eq.same_iff r.model s.model).1 m,
    (string_eq.same_iff r.recipe s.recipe).1 c,
  )

  -- What `apply` accepts belongs to the state's own epoch, model and recipe.
  pub apply_identity :
      (p : CalibrationPolicy) (r : CalibrationRecord F) (s s' : CalibrationState F)
      → apply s r p ≡ ok s'
      → (r.epoch ≡ s.epoch) × (r.model ≡ s.model) × (r.recipe ≡ s.recipe)
  unfolding apply
  apply_identity p r s s' h = ground (
    arith,
    h,
    string_eq.same_iff r.epoch s.epoch,
    string_eq.same_iff r.model s.model,
    string_eq.same_iff r.recipe s.recipe,
  )

  -- The records that a run has applied: of the state's identity, and at or below its last sequence
  -- number.
  abbrev IsFolded : CalibrationState F → CalibrationRecord F → Type 0
  IsFolded s r =
      (r.epoch ≡ s.epoch) × (r.model ≡ s.model) × (r.recipe ≡ s.recipe) × (r.seq ≤ s.last_seq)

  apply_all-IsFolded :
      (p : CalibrationPolicy) (rs : List (CalibrationRecord F)) (s s' : CalibrationState F)
      → apply_all s rs p ≡ ok s'
      → SameIdentity s s' × (s.last_seq ≤ s'.last_seq) × All (IsFolded s') rs
  unfolding apply_all
  apply_all-IsFolded p [] s s' h =
      let same : s' ≡ s = cc in rw same ((refl, refl, refl), omega arith, tt)
  apply_all-IsFolded p (r ∷ rs) s s' h = elim (Result-cases (apply s r p)) [
    | inl (t, f) ↦
        let (id1, last1) = Applied-last_seq p r s t (apply-Applied p r s t f) in
        let (id2, last2, folded) = apply_all-IsFolded p rs t s' (rw f at h) in
        let (e, m, c) = apply_identity p r s t f in
        (
          (cc, cc, cc),
          omega (arith, last1, last2),
          ((cc, cc, cc, omega (arith, last1, last2)), folded),
        )
    | inr (x, f) ↦ let failed : err x ≡ ok s' = rw f at h in cc
  ]

  folded_again :
      (p : CalibrationPolicy) (rs : List (CalibrationRecord F)) (s : CalibrationState F)
      → All (IsFolded s) rs
      → apply_all s rs p ≡ ok s
  unfolding apply_all
  folded_again p [] s h = refl
  folded_again p (r ∷ rs) s h =
      let (e, m, c, old) = h.0 in rw (apply_old p r s e m c old) (folded_again p rs s h.1)

  -- Replaying a whole run of records that was already applied, as after a restart or a retry, is
  -- accepted and leaves the state exactly as it is.
  pub apply_all_replay :
      (p : CalibrationPolicy) (rs : List (CalibrationRecord F)) (s s' : CalibrationState F)
      → apply_all s rs p ≡ ok s'
      → apply_all s' rs p ≡ ok s'
  apply_all_replay p rs s s' h = folded_again p rs s' (apply_all-IsFolded p rs s s' h).2
