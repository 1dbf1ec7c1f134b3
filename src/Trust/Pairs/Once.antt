-- ===== src/Trust/Pairs/Once.antt =====
-- Exactly once: the paired evidence of trust.py takes an outcome by its sequence number.
use predictive_autoscaler.Prelude.{
  ℕ, ◌≤◌, ◌≡◌, refl, ap, sym, ◌∙◌, Bool, true, false, not, ◌&&◌, ◌||◌, Option, none, some, List, [],
  ◌∷◌, Dict, String, lookup, contains, leb, ◌==◌, string_eq, nat_eq, Bool-cases, bind-ok, inl, inr,
  arith, Float, Result, ok, ◌>>=◌, subst,
}
use predictive_autoscaler.Calibration.{CalibrationRecord, in_cohort, pinball_rps}
use predictive_autoscaler.Trust.Types.{TrustError, EvidenceRecord}
use predictive_autoscaler.Trust.Pairs.{
  Pairs, Half, prune_pairs, wait, meet, pair_up, note_bound, note_pair, other_than,
}

module _ {F : Type 0} ⦃fl : Float F⦄ where
  -- The epoch and the models of a challenge, and the last sequence number that it has taken.
  abbrev place : Pairs F → ℕ × String × Dict String String
  place p = (p.last_seq, p.epoch, p.recipes)

  place-pair_up :
      (c : CalibrationRecord F) (loss : F) (o : Option (Half F)) (s : Pairs F)
      → place (pair_up c loss o s) ≡ place s
  unfolding pair_up wait meet
  place-pair_up c loss none s = refl
  place-pair_up c loss (some o) s =
      elim (Bool-cases (o.model == c.model || not (o.issuance_id == c.issuance_id))) [
        | inl e ↦ rw e refl
        | inr e ↦ rw e refl
      ]

  place-note_bound :
      (c : CalibrationRecord F) (nominal : F) (ret : ℕ) (y u : Option F) (s s' : Pairs F)
      → note_bound c nominal ret y u s ≡ ok s'
      → place s' ≡ place s
  unfolding note_bound prune_pairs
  place-note_bound c nominal ret y none s s' e = let same : s ≡ s' = cc in ap place (sym same)
  place-note_bound c nominal ret none (some u) s s' e = cc
  place-note_bound c nominal ret (some y) (some u) s s' e =
      let loss = pinball_rps y u nominal in
      let paired = pair_up c loss (lookup c.window_end s.pending) s in
      let same : prune_pairs c.window_end ret paired ≡ s' = cc in
      ap place (sym same) ∙ place-pair_up c loss (lookup c.window_end s.pending) s

  -- The outcomes that are passed over: of another epoch or model, or taken already.
  abbrev passed_over : Pairs F → EvidenceRecord F → Bool
  passed_over p r =
      not (r.cal.epoch == p.epoch)
      || not (contains r.cal.model p.recipes)
      || leb r.cal.seq p.last_seq

  -- A prospective, scored outcome of the gate cohort.
  abbrev pairable : EvidenceRecord F → ℕ → Bool
  pairable r lead =
      r.mode == "prospective" && r.cal.status == "scored" && in_cohort r.cal.decision_origin lead

  module _ (lead : ℕ) (nominal : F) (ret : ℕ) where
    place-note_pair :
        (p p' : Pairs F) (r : EvidenceRecord F)
        → passed_over p r ≡ false
        → note_pair p r lead nominal ret ≡ ok p'
        → place p' ≡ place (record p { last_seq = r.cal.seq })
    unfolding note_pair
    place-note_pair p p' r over e =
        elim (Bool-cases (other_than (lookup r.cal.model p.recipes) r.cal.recipe)) [
          | inl refused ↦ absurd (ground (arith, e, over, refused))
          | inr own ↦
              let s = record p { last_seq = r.cal.seq } in
              elim (Bool-cases (pairable r lead)) [
                | inl fits ↦
                    let bound : note_bound r.cal nominal ret r.cal.y_rps r.cal.upper_rps s ≡ ok p' =
                      ground (arith, e, over, own, fits) in
                    place-note_bound r.cal nominal ret r.cal.y_rps r.cal.upper_rps s p' bound
                | inr unfit ↦
                    let same : s ≡ p' = ground (arith, e, over, own, unfit) in ap place (sym same)
              ]
        ]

    passed_over-note_pair :
        (p : Pairs F) (r : EvidenceRecord F)
        → passed_over p r ≡ true
        → note_pair p r lead nominal ret ≡ ok p
    unfolding note_pair
    passed_over-note_pair p r over = rw over refl

    -- A later state of the same challenge, whose last sequence number has only grown.
    record IsLater (p q : Pairs F) : Type 0 where
      pub epoch : q.epoch ≡ p.epoch
      pub recipes : q.recipes ≡ p.recipes
      pub last_seq : p.last_seq ≤ q.last_seq

    stays_passed :
        (p q : Pairs F) (r : EvidenceRecord F)
        → IsLater p q
        → passed_over p r ≡ true
        → passed_over q r ≡ true
    stays_passed p q r h over =
        let same_epoch : (r.cal.epoch == q.epoch) ≡ (r.cal.epoch == p.epoch) =
          ap (λ e. r.cal.epoch == e) h.epoch in
        let same_models : contains r.cal.model q.recipes ≡ contains r.cal.model p.recipes =
          ap (λ d. contains r.cal.model d) h.recipes in
        ground (arith, over, same_epoch, same_models, h.last_seq)

    -- What one outcome leaves: a later state, in which it is passed over.
    note_pair-passed_over :
        (p p' : Pairs F) (r : EvidenceRecord F)
        → note_pair p r lead nominal ret ≡ ok p'
        → IsLater p p' × (passed_over p' r ≡ true)
    note_pair-passed_over p p' r e = elim (Bool-cases (passed_over p r)) [
      | inl over ↦
          let again = passed_over-note_pair p r over in
          let same : p ≡ p' = cc (e, again) in
          subst (λ q. IsLater p q × (passed_over q r ≡ true)) same
            (record { epoch = refl; recipes = refl; last_seq = omega arith }, over)
      | inr taken ↦
          let put = place-note_pair p p' r taken e in
          let last : p'.last_seq ≡ r.cal.seq =
            ap (λ (x : ℕ × String × Dict String String). x.0) put in
          (
            record {
              epoch = ap (λ (x : ℕ × String × Dict String String). x.1) put;
              recipes = ap (λ (x : ℕ × String × Dict String String). x.2) put;
              last_seq = ground (arith, last, taken);
            },
            ground (arith, last),
          )
    ]

    -- The outcomes of a list, one after the other; the first that is refused ends it.
    unfoldable pub note_pairs : Pairs F → List (EvidenceRecord F) → Result TrustError (Pairs F)
    note_pairs p [] = ok p
    note_pairs p (r ∷ rs) = do p' ← note_pair p r lead nominal ret; note_pairs p' rs

    note_pairs-IsLater :
        (p q : Pairs F) (rs : List (EvidenceRecord F)) → note_pairs p rs ≡ ok q → IsLater p q
    unfolding note_pairs
    note_pairs-IsLater p q [] e =
        let same : p ≡ q = cc in
        subst (IsLater p) same (record { epoch = refl; recipes = refl; last_seq = omega arith })
    note_pairs-IsLater p q (r ∷ rs) e =
        let (p', first, rest) =
          bind-ok (note_pair p r lead nominal ret) (λ s. note_pairs s rs) q e in
        let (one, over) = note_pair-passed_over p p' r first in
        let more = note_pairs-IsLater p' q rs rest in
        record {
          epoch = more.epoch ∙ one.epoch;
          recipes = more.recipes ∙ one.recipes;
          last_seq = omega (arith, one.last_seq, more.last_seq);
        }

    -- An outcome that paired evidence has accepted is accepted again after any further outcomes that
    -- it accepts, newer or older ones, under the same settings, and it changes nothing then.
    pub note_pair_once :
        (p p' q : Pairs F) (r : EvidenceRecord F) (rs : List (EvidenceRecord F))
        → note_pair p r lead nominal ret ≡ ok p'
        → note_pairs p' rs ≡ ok q
        → note_pair q r lead nominal ret ≡ ok q
    note_pair_once p p' q r rs e later =
        let (one, over) = note_pair-passed_over p p' r e in
        passed_over-note_pair q r (stays_passed p' q r (note_pairs-IsLater p' q rs later) over)
