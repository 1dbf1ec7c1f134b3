-- ===== src/Trust/Ledger/Noted.antt =====
-- The ways in which `note_issuance` and `note_outcome` of trust.py return.
use predictive_autoscaler.Prelude.{
  ℕ, ◌≤◌, ◌<◌, ◌≡◌, ◌≢◌, refl, Bool, true, false, Option, none, some, erase, nat_eq, Float, ok,
  Result-cases, Bool-cases, inl, inr, arith, leb, ◌==◌, string_eq,
}
use predictive_autoscaler.Calibration.{in_cohort}
use predictive_autoscaler.Trust.Types.{Ledger, EvidenceRecord, IssuanceNote}
use predictive_autoscaler.Trust.Ledger.{
  prune, same_identity, issue_replay, issue_prospective, note_issuance,
}
use predictive_autoscaler.Trust.Ledger.Outcome.{
  covered_of, outcome_replay, outcome_unscorable, outcome_scored, outcome_prospective, note_outcome,
}

module _ {F : Type 0} ⦃fl : Float F⦄ where
  abbrev pub issuing : Ledger F → IssuanceNote → Ledger F
  issuing l i = record l { last_issuance_seq = i.seq }

  pub data Issued (i : IssuanceNote) (ret : ℕ) (l l' : Ledger F) : Type 0 where
    repeated : i.seq ≤ l.last_issuance_seq → l' ≡ l → Issued i ret l l'
    replay :
        l.last_issuance_seq < i.seq
        → i.mode ≡ "replay"
        → l' ≡ prune (issue_replay i (issuing l i)) i.origin ret
        → Issued i ret l l'
    prospective :
        l.last_issuance_seq < i.seq
        → i.mode ≡ "prospective"
        → l' ≡ prune (issue_prospective i (issuing l i)) i.origin ret
        → Issued i ret l l'

  pub note_issuance-Issued :
      (i : IssuanceNote) (ret : ℕ) (l l' : Ledger F)
      → note_issuance l i ret ≡ ok l'
      → Issued i ret l l'
  unfolding note_issuance same_identity
  note_issuance-Issued i ret l l' h = elim (Bool-cases (leb i.seq l.last_issuance_seq)) [
    | inl old ↦ repeated (ground arith) (ground (arith, h))
    | inr new ↦ elim (Bool-cases (i.mode == "replay")) [
      | inl r ↦ replay (ground arith) ((string_eq.same_iff _ _).0 r) (ground (arith, h))
      | inr p ↦
          let named : (i.mode == "prospective") ≡ true = ground (arith, h) in
          prospective (ground arith) ((string_eq.same_iff _ _).0 named) (ground (arith, h))
    ]
  ]

  pub issuance_identity :
      (i : IssuanceNote) (ret : ℕ) (l l' : Ledger F)
      → note_issuance l i ret ≡ ok l'
      → (i.epoch ≡ l.epoch) × (i.model ≡ l.model) × (i.recipe ≡ l.recipe)
  unfolding note_issuance same_identity
  issuance_identity i ret l l' h = ground (
    arith,
    h,
    string_eq.same_iff i.epoch l.epoch,
    string_eq.same_iff i.model l.model,
    string_eq.same_iff i.recipe l.recipe,
  )

  abbrev pub maturing : Ledger F → EvidenceRecord F → Ledger F
  maturing l r = record l {
    last_outcome_seq = r.cal.seq;
    pending = erase r.cal.window_end l.pending;
  }

  module _ (r : EvidenceRecord F) (lead_s : ℕ) (nominal : F) (recent_n ret : ℕ) where
    abbrev gated : Bool
    gated = in_cohort r.cal.decision_origin lead_s

    pub data Matured (l l' : Ledger F) : Type 0 where
      repeated : r.cal.seq ≤ l.last_outcome_seq → l' ≡ l → Matured l l'
      replay :
          (scored covered : Bool)
          → l.last_outcome_seq < r.cal.seq
          → r.mode ≡ "replay"
          → l' ≡ prune (outcome_replay r scored gated covered (maturing l r)) r.cal.window_end ret
          → Matured l l'
      unscorable :
          l.last_outcome_seq < r.cal.seq
          → r.mode ≢ "replay"
          → l' ≡ prune (outcome_unscorable r gated (maturing l r)) r.cal.window_end ret
          → Matured l l'
      scored :
          (y : F) (covered : Bool)
          → l.last_outcome_seq < r.cal.seq
          → r.mode ≢ "replay"
          → r.cal.y_rps ≡ some y
          → covered_of true (some y) r.cal.upper_rps ≡ ok covered
          → l'
            ≡ prune
                (outcome_scored r gated covered y nominal recent_n r.cal.upper_rps (maturing l r))
                r.cal.window_end
                ret
          → Matured l l'

    prospective-Matured :
        (is_scored covered : Bool) (y : Option F) (l s' l' : Ledger F)
        → l.last_outcome_seq < r.cal.seq
        → r.mode ≢ "replay"
        → r.cal.y_rps ≡ y
        → covered_of is_scored y r.cal.upper_rps ≡ ok covered
        → outcome_prospective r is_scored gated covered nominal recent_n y (maturing l r) ≡ ok s'
        → l' ≡ prune s' r.cal.window_end ret
        → Matured l l'
    unfolding outcome_prospective
    prospective-Matured false covered y l s' l' new m o c e p =
        unscorable new m (ground (arith, e, p))
    prospective-Matured true covered none l s' l' new m o c e p = cc
    prospective-Matured true covered (some y) l s' l' new m o c e p =
        scored y covered new m o c (ground (arith, e, p))

    abbrev is_scored_status : Bool
    is_scored_status = r.cal.status == "scored"

    pub note_outcome-Matured :
        (l l' : Ledger F) → note_outcome l r lead_s nominal recent_n ret ≡ ok l' → Matured l l'
    unfolding note_outcome same_identity
    note_outcome-Matured l l' h = elim (Bool-cases (leb r.cal.seq l.last_outcome_seq)) [
      | inl old ↦ repeated (ground arith) (ground (arith, h))
      | inr new ↦ elim (Result-cases (covered_of is_scored_status r.cal.y_rps r.cal.upper_rps)) [
        | inr (x, e) ↦ absurd (ground (arith, h, e, new))
        | inl (covered, e) ↦ elim (Bool-cases (r.mode == "replay")) [
          | inl m ↦
              replay is_scored_status covered (ground arith) ((string_eq.same_iff _ _).0 m)
                (ground (arith, h, e, new, m))
          | inr m ↦
              elim (Result-cases (
                outcome_prospective r is_scored_status gated covered nominal recent_n r.cal.y_rps
                  (maturing l r))) [
                    | inr (x, o) ↦ absurd (ground (arith, h, e, new, m, o))
                    | inl (s', o) ↦
                        prospective-Matured is_scored_status covered r.cal.y_rps l s' l'
                          (ground arith)
                          (λ q. let yes_replay = (string_eq.same_iff r.mode "replay").1 q in cc)
                          refl e o (ground (arith, h, e, new, m, o))
                  ]
        ]
      ]
    ]
