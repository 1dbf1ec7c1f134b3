-- ===== src/Maturation/Truth.antt =====
-- What `window_outcome` says of a window, against a direct reading of the receipts.
use predictive_autoscaler.Prelude.{
  append-ne-nil, ℕ, length, ◌+◌, ◌*◌, ◌≤◌, min, String, ◌≡◌, ◌≢◌, refl, sym, ◌∙◌, inl, inr, ltb,
  Option, none, some, List, [], ◌∷◌, ◌++◌, append_assoc, append-nil, lookup, nat_eq, Dict, Float,
  ok, if◌then◌else◌, arith, Bool-cases, ◌⊖◌, max,
}
use predictive_autoscaler.Maturation.{
  Payload, Scored, Status, is_scored, is_unscorable, status, Digests, window_outcome, settle_window,
  close_window, scored_payload, exclusion_hits, truth_deadline_ms,
}
use predictive_autoscaler.Maturation.Window.{check_window, last_target}
use predictive_autoscaler.Maturation.Collect.{Scan, admit, scan, nothing_scanned, max_values}
use predictive_autoscaler.Maturation.Final.{received_by, missing-scan}

module _ {F : Type 0} where
  -- The sampled values of all targets, if every one was received by the cutoff.
  abbrev pub truth : Dict ℕ (F × ℕ) → ℕ → List ℕ → Option (List F)
  truth r c [] = some []
  truth r c (t ∷ ts) = elim (received_by c (lookup t r)) [
    | none ↦ none
    | some (v, at_ms) ↦ elim (truth r c ts) [ none ↦ none | some vs ↦ some (v ∷ vs) ]
  ]

  abbrev Agrees : Scan F → Scan F → Option (List F) → Type 0
  Agrees s s' none = s'.missing ≢ []
  Agrees s s' (some vs) = (s'.missing ≡ s.missing) × (s'.values ≡ s.values ++ vs)

  Agrees-admit :
      (c t : ℕ) (o : Option (F × ℕ)) (tr : Option (List F)) (s s' : Scan F)
      → (s'.missing ≡ [] → (admit c t o s).missing ≡ [])
      → Agrees (admit c t o s) s' tr
      → Agrees s s' (elim (received_by c o) [
        | none ↦ none
        | some (v, at_ms) ↦ elim tr [ none ↦ none | some vs ↦ some (v ∷ vs) ]
      ])
  unfolding admit
  Agrees-admit c t none tr s s' back h = λ e. append-ne-nil s.missing t (back e)
  Agrees-admit c t (some (v, a)) none s s' back h = elim (Bool-cases (ltb c a)) [
    | inl late ↦ rw late h
    | inr here ↦ rw here h
  ]
  Agrees-admit c t (some (v, a)) (some vs) s s' back h = elim (Bool-cases (ltb c a)) [
    | inl late ↦ rw late (λ e. append-ne-nil s.missing t (rw late at (back e)))
    | inr here ↦
        let h' : Agrees (record s { values = s.values ++ v ∷ []; completed = max s.completed a }) s'
            (some vs) =
          rw here at h in
        rw here (h'.0, h'.1 ∙ append_assoc s.values (v ∷ []) vs)
  ]

  scan-truth :
      (r : Dict ℕ (F × ℕ)) (c : ℕ) (ts : List ℕ) (s : Scan F)
      → Agrees s (scan r c ts s) (truth r c ts)
  unfolding scan
  scan-truth r c [] s = (refl, sym (append-nil s.values))
  scan-truth r c (t ∷ ts) s =
      let s1 = admit c t (lookup t r) s in
      Agrees-admit c t (lookup t r) (truth r c ts) s (scan r c ts s1) (missing-scan r c ts s1)
        (scan-truth r c ts s1)

module _ {F : Type 0} ⦃fl : Float F⦄ (dg : Digests F) where
  -- What the window should become: scored when the whole truth was received by the cutoff, else
  -- pending before the deadline and unscorable from the deadline on.
  abbrev pub due_status : Option (List F) → ℕ → ℕ → Option Status
  due_status (some vs) now dl = some is_scored
  due_status none now dl = if ltb now dl then none else some is_unscorable

  abbrev pub status_of : Option (Payload F) → Option Status
  status_of none = none
  status_of (some p) = some (status p)

  close-missing :
      (targets : List ℕ) (base : F) (upper : Option F) (now dl : ℕ) (s : Scan F) (miss : List ℕ)
      → miss ≢ []
      → status_of (close_window dg targets base upper now dl s miss) ≡ due_status none now dl
  unfolding close_window
  close-missing targets base upper now dl s [] h = absurd (h refl)
  close-missing targets base upper now dl s (t ∷ ts) h = ground arith

  close-due_status :
      (targets : List ℕ) (base : F) (upper : Option F) (now dl : ℕ) (s : Scan F)
      (tr : Option (List F))
      → Agrees nothing_scanned s tr
      → status_of (close_window dg targets base upper now dl s s.missing) ≡ due_status tr now dl
  unfolding close_window
  close-due_status targets base upper now dl s none h =
      close-missing targets base upper now dl s s.missing h
  close-due_status targets base upper now dl s (some vs) h =
      simp h.0 (unfold scored_payload in refl)

  -- The facts of a scored payload, as the receipts and the issued values give them.
  pub record IsTruthful (targets : List ℕ) (base : F) (upper : Option F) (vs : List F)
      (p : Scored F) : Type 0 where
    pub values : p.values ≡ vs
    pub y : p.y_window_max_rps ≡ max_values vs
    pub base_issued : p.base_window_max_rps ≡ base
    pub upper_issued : p.upper_window_max_rps ≡ upper
    pub residual : p.residual_rps ≡ max_values vs ⊖ base
    pub grid : p.targets_sha256 ≡ dg.targets_sha256 targets

  close-IsTruthful :
      (targets : List ℕ) (base : F) (upper : Option F) (now dl : ℕ) (s : Scan F)
      (tr : Option (List F)) (p : Scored F)
      → Agrees nothing_scanned s tr
      → close_window dg targets base upper now dl s s.missing ≡ some (Payload.scored p)
      → (vs : List F) × (tr ≡ some vs) × IsTruthful targets base upper vs p
  unfolding close_window scored_payload
  close-IsTruthful targets base upper now dl s none p h e =
      absurd (ground (arith, e, close-missing targets base upper now dl s s.missing h))
  close-IsTruthful targets base upper now dl s (some vs) p h e =
      let found : close_window dg targets base upper now dl s [] ≡ some (Payload.scored p) =
        simp h.0 at e in
      (
        vs,
        refl,
        record {
          values = ground (arith, found, h.1);
          y = ground (arith, found, h.1);
          base_issued = ground (arith, found);
          upper_issued = ground (arith, found);
          residual = ground (arith, found, h.1);
          grid = ground (arith, found);
        },
      )

  module _ (targets : List ℕ) (base : F) (upper : Option F) (r : Dict ℕ (F × ℕ))
      (now settlement grace : ℕ) (excluded : Option (ℕ → Option String))
      (grid : check_window targets ≡ ok tt)
      (closable : (last_target targets + settlement) * 1000 ≤ now)
      (clear : exclusion_hits excluded targets ≡ []) where
    abbrev deadline : ℕ
    deadline = truth_deadline_ms (last_target targets) settlement grace

    -- On an evenly spaced window that can close and that no exclusion hits, the status is decided by
    -- the receipts alone: scored when every target was received by the earlier of now and the
    -- deadline; else pending before the deadline, and unscorable from the deadline on.
    pub window_outcome-due_status :
        (o : Option (Payload F)) × (window_outcome dg targets base upper r now settlement grace
            excluded
          ≡ ok o)
        × (status_of o ≡ due_status (truth r (min now deadline) targets) now deadline)
    unfolding window_outcome settle_window
    window_outcome-due_status =
        let s = scan r (min now deadline) targets nothing_scanned in
        (
          close_window dg targets base upper now deadline s s.missing,
          rw (grid, clear) (ground arith),
          close-due_status targets base upper now deadline s (truth r (min now deadline) targets)
              (scan-truth r (min now deadline) targets nothing_scanned),
        )

  module _ (targets : List ℕ) (base : F) (upper : Option F) (r : Dict ℕ (F × ℕ))
      (now settlement grace : ℕ) (excluded : Option (ℕ → Option String)) where
    settle-IsTruthful :
        (dl : ℕ) (hit : List (ℕ × String)) (p : Scored F)
        → settle_window dg targets base upper r now dl hit ≡ some (Payload.scored p)
        → (vs : List F) × (truth r (min now dl) targets ≡ some vs)
          × IsTruthful targets base upper vs p
    unfolding settle_window
    settle-IsTruthful dl ((t, why) ∷ hit) p e = absurd (ground (arith, e))
    settle-IsTruthful dl [] p e =
        close-IsTruthful targets base upper now dl (scan r (min now dl) targets nothing_scanned)
          (truth r (min now dl) targets) p (scan-truth r (min now dl) targets nothing_scanned) e

    -- A scored payload is the truth: every target's value was received by the earlier of now and the
    -- deadline, and the payload's values, maximum, residual, grid digest, base and bound are those of
    -- the receipts and of what was issued.
    pub window_outcome-IsTruthful :
        (p : Scored F)
        → window_outcome dg targets base upper r now settlement grace excluded
          ≡ ok (some (Payload.scored p))
        → (vs : List F) × (truth r
              (min now (truth_deadline_ms (last_target targets) settlement grace))
              targets
            ≡ some vs)
          × IsTruthful targets base upper vs p
    unfolding window_outcome
    window_outcome-IsTruthful p h =
        let dl = truth_deadline_ms (last_target targets) settlement grace in
        let hit = exclusion_hits excluded targets in
        let settled : settle_window dg targets base upper r now dl hit ≡ some (Payload.scored p) =
          ground (arith, h) in
        settle-IsTruthful dl hit p settled

    settle_some :
        (dl : ℕ) (hit : List (ℕ × String))
        → dl ≤ now
        → (p : Payload F) × (settle_window dg targets base upper r now dl hit ≡ some p)
    unfolding settle_window
    settle_some dl ((t, why) ∷ hit) h = (_, refl)
    settle_some dl [] h = let s = scan r (min now dl) targets nothing_scanned in closed s s.missing
      where
        closed :
            (s : Scan F) (miss : List ℕ)
            → (p : Payload F) × (close_window dg targets base upper now dl s miss ≡ some p)
        closed s [] = (scored_payload dg targets base upper s, unfold close_window in refl)
        closed s (t ∷ ts) = (
          Payload.missing_truth (length (t ∷ ts)) (length targets) (dg.targets_sha256 targets) t dl,
          unfold close_window in ground arith,
        )

    -- From its truth deadline on, an evenly spaced window is never pending: it has an outcome.
    pub window_outcome_terminal :
        check_window targets ≡ ok tt
        → truth_deadline_ms (last_target targets) settlement grace ≤ now
        → (p : Payload F) × (window_outcome dg targets base upper r now settlement grace excluded
            ≡ ok (some p))
    unfolding window_outcome truth_deadline_ms
    window_outcome_terminal grid due =
        let dl = truth_deadline_ms (last_target targets) settlement grace in
        let (p, e) = settle_some dl (exclusion_hits excluded targets) due in
        (p, rw grid (ground (arith, e)))
