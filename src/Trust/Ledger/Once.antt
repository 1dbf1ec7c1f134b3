-- ===== src/Trust/Ledger/Once.antt =====
-- Exactly once: a ledger of trust.py takes an issuance or an outcome by its sequence number.
use predictive_autoscaler.Prelude.{
  ℕ, ◌≤◌, max, ◌≡◌, refl, ◌∙◌, Bool, true, false, Option, none, some, Float, ok, arith, string_eq,
}
use predictive_autoscaler.Calibration.{in_cohort}
use predictive_autoscaler.Trust.Types.{Ledger, EvidenceRecord, IssuanceNote}
use predictive_autoscaler.Trust.Ledger.{
  prune, same_identity, issue_replay, issue_prospective, note_issuance,
}
use predictive_autoscaler.Trust.Ledger.Outcome.{
  outcome_replay, outcome_unscorable, outcome_scored, bound_outcome, gate_outcome, note_outcome,
}
use predictive_autoscaler.Trust.Ledger.Noted.{
  Issued, Matured, note_issuance-Issued, note_outcome-Matured, issuance_identity, maturing,
}

module _ {F : Type 0} ⦃fl : Float F⦄ where
  -- Of one epoch, model and recipe, with the same sequence numbers.
  pub record SamePlace (l l' : Ledger F) : Type 0 where
    pub epoch : l'.epoch ≡ l.epoch
    pub model : l'.model ≡ l.model
    pub recipe : l'.recipe ≡ l.recipe
    pub issuances : l'.last_issuance_seq ≡ l.last_issuance_seq
    pub outcomes : l'.last_outcome_seq ≡ l.last_outcome_seq

  scored-SamePlace :
      (r : EvidenceRecord F) (g c : Bool) (y nominal : F) (n : ℕ) (u : Option F) (l : Ledger F)
      → SamePlace l (outcome_scored r g c y nominal n u l)
  unfolding outcome_scored bound_outcome gate_outcome
  scored-SamePlace r g c y nominal n none l = ground arith
  scored-SamePlace r true c y nominal n (some u) l = ground arith
  scored-SamePlace r false c y nominal n (some u) l = ground arith

  -- What a new outcome leaves: the identity, and its own sequence number.
  pub record Advanced (l l' : Ledger F) (seq : ℕ) : Type 0 where
    pub epoch : l'.epoch ≡ l.epoch
    pub model : l'.model ≡ l.model
    pub recipe : l'.recipe ≡ l.recipe
    pub issuances : l'.last_issuance_seq ≡ l.last_issuance_seq
    pub outcomes : l'.last_outcome_seq ≡ max l.last_outcome_seq seq

  pub Matured-Advanced :
      (r : EvidenceRecord F) (lead : ℕ) (nominal : F) (n ret : ℕ) (l l' : Ledger F)
      → Matured r lead nominal n ret l l'
      → Advanced l l' r.cal.seq
  unfolding prune outcome_replay outcome_unscorable
  Matured-Advanced r lead nominal n ret l l' (Matured.repeated old e) = rw e (record {
    epoch = refl;
    model = refl;
    recipe = refl;
    issuances = refl;
    outcomes = omega arith;
  })
  Matured-Advanced r lead nominal n ret l l' (Matured.replay s c new m e) = rw e (record {
    epoch = refl;
    model = refl;
    recipe = refl;
    issuances = refl;
    outcomes = omega arith;
  })
  Matured-Advanced r lead nominal n ret l l' (Matured.unscorable new m e) = rw e (record {
    epoch = refl;
    model = refl;
    recipe = refl;
    issuances = refl;
    outcomes = omega arith;
  })
  Matured-Advanced r lead nominal n ret l l' (Matured.scored y c new m o k e) =
      let same =
        scored-SamePlace r (in_cohort r.cal.decision_origin lead) c y nominal n r.cal.upper_rps
          (maturing l r) in
      rw e (record {
        epoch = same.epoch;
        model = same.model;
        recipe = same.recipe;
        issuances = same.issuances;
        outcomes = omega (arith, same.outcomes);
      })

  outcome_identity :
      (r : EvidenceRecord F) (lead : ℕ) (nominal : F) (n ret : ℕ) (l l' : Ledger F)
      → note_outcome l r lead nominal n ret ≡ ok l'
      → (r.cal.epoch ≡ l.epoch) × (r.cal.model ≡ l.model) × (r.cal.recipe ≡ l.recipe)
  unfolding note_outcome same_identity
  outcome_identity r lead nominal n ret l l' h = ground (
    arith,
    h,
    string_eq.same_iff r.cal.epoch l.epoch,
    string_eq.same_iff r.cal.model l.model,
    string_eq.same_iff r.cal.recipe l.recipe,
  )

  outcome_old :
      (r : EvidenceRecord F) (lead : ℕ) (nominal : F) (n ret : ℕ) (l : Ledger F)
      → r.cal.epoch ≡ l.epoch
      → r.cal.model ≡ l.model
      → r.cal.recipe ≡ l.recipe
      → r.cal.seq ≤ l.last_outcome_seq
      → note_outcome l r lead nominal n ret ≡ ok l
  unfolding note_outcome same_identity
  outcome_old r lead nominal n ret l e m c old = ground (
    arith,
    (string_eq.same_iff r.cal.epoch l.epoch).1 e,
    (string_eq.same_iff r.cal.model l.model).1 m,
    (string_eq.same_iff r.cal.recipe l.recipe).1 c,
  )

  pub Issued-seq :
      (i : IssuanceNote) (ret : ℕ) (l l' : Ledger F)
      → Issued i ret l l'
      → (l'.epoch ≡ l.epoch)
        × (l'.model ≡ l.model)
        × (l'.recipe ≡ l.recipe)
        × (l'.last_issuance_seq ≡ max l.last_issuance_seq i.seq)
        × (l'.last_outcome_seq ≡ l.last_outcome_seq)
  unfolding prune issue_replay issue_prospective
  Issued-seq i ret l l' (Issued.repeated old e) = rw e (refl, refl, refl, omega arith, refl)
  Issued-seq i ret l l' (Issued.replay new m e) = rw e (refl, refl, refl, omega arith, refl)
  Issued-seq i ret l l' (Issued.prospective new m e) = rw e (refl, refl, refl, omega arith, refl)

  issuance_old :
      (i : IssuanceNote) (ret : ℕ) (l : Ledger F)
      → i.epoch ≡ l.epoch
      → i.model ≡ l.model
      → i.recipe ≡ l.recipe
      → i.seq ≤ l.last_issuance_seq
      → note_issuance l i ret ≡ ok l
  unfolding note_issuance same_identity
  issuance_old i ret l e m c old = ground (
    arith,
    (string_eq.same_iff i.epoch l.epoch).1 e,
    (string_eq.same_iff i.model l.model).1 m,
    (string_eq.same_iff i.recipe l.recipe).1 c,
  )

  -- What any further notes keep: the identity, and sequence numbers that only grow.
  record IsAfter (l k : Ledger F) : Type 0 where
    pub epoch : k.epoch ≡ l.epoch
    pub model : k.model ≡ l.model
    pub recipe : k.recipe ≡ l.recipe
    pub issuances : l.last_issuance_seq ≤ k.last_issuance_seq
    pub outcomes : l.last_outcome_seq ≤ k.last_outcome_seq

  module _ (lead : ℕ) (nominal : F) (n ret : ℕ) where
    -- The ledgers that `l` becomes by further issuances and outcomes, in any order.
    pub data Later (l : Ledger F) : Ledger F → Type 0 where
      now : Later l l
      then_issued :
          (i : IssuanceNote) {k k' : Ledger F}
          → Later l k
          → note_issuance k i ret ≡ ok k'
          → Later l k'
      then_matured :
          (r : EvidenceRecord F) {k k' : Ledger F}
          → Later l k
          → note_outcome k r lead nominal n ret ≡ ok k'
          → Later l k'

    Later-IsAfter : (l k : Ledger F) → Later l k → IsAfter l k
    Later-IsAfter l k now = record {
      epoch = refl;
      model = refl;
      recipe = refl;
      issuances = omega arith;
      outcomes = omega arith;
    }
    Later-IsAfter l k (then_issued i {k = j} h e) =
        let past = Later-IsAfter l j h in
        let (e', m', c', seen, same) = Issued-seq i ret j k (note_issuance-Issued i ret j k e) in
        record {
          epoch = e' ∙ past.epoch;
          model = m' ∙ past.model;
          recipe = c' ∙ past.recipe;
          issuances = omega (arith, past.issuances, seen);
          outcomes = omega (arith, past.outcomes, same);
        }
    Later-IsAfter l k (then_matured r {k = j} h e) =
        let past = Later-IsAfter l j h in
        let a =
          Matured-Advanced r lead nominal n ret j k
            (note_outcome-Matured r lead nominal n ret j k e) in
        record {
          epoch = a.epoch ∙ past.epoch;
          model = a.model ∙ past.model;
          recipe = a.recipe ∙ past.recipe;
          issuances = omega (arith, past.issuances, a.issuances);
          outcomes = omega (arith, past.outcomes, a.outcomes);
        }

    -- An outcome that a ledger has accepted is accepted again after any further issuances and outcomes
    -- that it accepts, newer or older ones, under the same settings, and it changes nothing then.
    pub note_outcome_once :
        (r : EvidenceRecord F) (l l' k : Ledger F)
        → note_outcome l r lead nominal n ret ≡ ok l'
        → Later l' k
        → note_outcome k r lead nominal n ret ≡ ok k
    note_outcome_once r l l' k h later =
        let (e, m, c) = outcome_identity r lead nominal n ret l l' h in
        let a =
          Matured-Advanced r lead nominal n ret l l'
            (note_outcome-Matured r lead nominal n ret l l' h) in
        let past = Later-IsAfter l' k later in
        outcome_old r lead nominal n ret k (cc (e, a.epoch, past.epoch))
          (cc (m, a.model, past.model)) (cc (c, a.recipe, past.recipe))
          (omega (arith, a.outcomes, past.outcomes))

    -- An issuance that a ledger has accepted is accepted again after any further issuances and
    -- outcomes that it accepts, newer or older ones, under the same settings, and it changes nothing
    -- then.
    pub note_issuance_once :
        (i : IssuanceNote) (l l' k : Ledger F)
        → note_issuance l i ret ≡ ok l'
        → Later l' k
        → note_issuance k i ret ≡ ok k
    note_issuance_once i l l' k h later =
        let (e, m, c) = issuance_identity i ret l l' h in
        let (e', m', c', seen, same) = Issued-seq i ret l l' (note_issuance-Issued i ret l l' h) in
        let past = Later-IsAfter l' k later in
        issuance_old i ret k (cc (e, e', past.epoch)) (cc (m, m', past.model))
          (cc (c, c', past.recipe)) (omega (arith, seen, past.issuances))
