-- ===== src/Calibration/Record.antt =====
-- The ways in which `apply` of calibration.py returns, and the induction over a run of records.
use predictive_autoscaler.Prelude.{
  true, ◌≤◌, ◌<◌, ◌≡◌, refl, Option, none, some, List, [], ◌∷◌, Float, Result, ok, err,
  Result-cases, Bool-cases, inl, inr, arith, ◌==◌, string_eq, leb, ◌>>=◌,
}
use predictive_autoscaler.Calibration.{
  CalibrationError, CalibrationPolicy, CalibrationState, CalibrationRecord,
}
use predictive_autoscaler.Calibration.Apply.{
  apply_scored, apply_unscorable, apply_truth, apply_new, apply,
}

module _ {F : Type 0} ⦃fl : Float F⦄ where
  abbrev pub noted : CalibrationRecord F → CalibrationState F → CalibrationState F
  noted r s = record s { last_seq = r.seq }

  pub data Applied (p : CalibrationPolicy) (r : CalibrationRecord F) (s s' : CalibrationState F)
      : Type 0 where
    replayed : r.seq ≤ s.last_seq → s' ≡ s → Applied p r s s'
    closed :
        s.last_seq < r.seq
        → r.status ≡ "unscorable"
        → s' ≡ apply_unscorable p r (noted r s)
        → Applied p r s s'
    matured :
        (y : F)
        → s.last_seq < r.seq
        → r.status ≡ "scored"
        → r.y_rps ≡ some y
        → s' ≡ apply_scored p r y (noted r s)
        → Applied p r s s'

  apply_truth-Applied :
      (p : CalibrationPolicy) (r : CalibrationRecord F) (o : Option F) (s s' : CalibrationState F)
      → s.last_seq < r.seq
      → r.status ≡ "scored"
      → r.y_rps ≡ o
      → apply_truth p r o (noted r s) ≡ ok s'
      → Applied p r s s'
  unfolding apply_truth
  apply_truth-Applied p r none s s' h sc o e = cc
  apply_truth-Applied p r (some y) s s' h sc o e = matured y h sc o (ground (arith, e))

  pub apply-Applied :
      (p : CalibrationPolicy) (r : CalibrationRecord F) (s s' : CalibrationState F)
      → apply s r p ≡ ok s'
      → Applied p r s s'
  unfolding apply apply_new
  apply-Applied p r s s' e = elim (Bool-cases (leb r.seq s.last_seq)) [
    | inl old ↦ replayed (ground arith) (ground (arith, e))
    | inr new ↦ elim (Bool-cases (r.status == "unscorable")) [
      | inl un ↦ closed (ground arith) ((string_eq.same_iff _ _).0 un) (ground (arith, e))
      | inr sc ↦
          let named : (r.status == "scored") ≡ true = ground (arith, e) in
          apply_truth-Applied p r r.y_rps s s' (ground arith) ((string_eq.same_iff _ _).0 named)
            refl (ground (arith, e))
    ]
  ]

  -- The records of a run, applied in turn.
  unfoldable pub apply_all :
      CalibrationState F
      → List (CalibrationRecord F)
      → CalibrationPolicy
      → Result CalibrationError (CalibrationState F)
  apply_all s [] p = ok s
  apply_all s (r ∷ rs) p = apply s r p >>= λ s'. apply_all s' rs p

  -- What every record keeps, a run keeps.
  pub apply_all_induction {ℓ} :
      (P : CalibrationState F → Type ℓ) (p : CalibrationPolicy)
      → ((r : CalibrationRecord F) (s s' : CalibrationState F) → Applied p r s s' → P s → P s')
      → (s s' : CalibrationState F) (rs : List (CalibrationRecord F)) → apply_all s rs p ≡ ok s'
      → P s
      → P s'
  unfolding apply_all
  apply_all_induction P p keep s s' [] e h = let same : s ≡ s' = cc in rw same at h
  apply_all_induction P p keep s s' (r ∷ rs) e h = elim (Result-cases (apply s r p)) [
    | inl (t, f) ↦
        apply_all_induction P p keep t s' rs (rw f at e) (keep r s t (apply-Applied p r s t f) h)
    | inr (x, f) ↦ let failed : err x ≡ ok s' = rw f at e in cc
  ]
