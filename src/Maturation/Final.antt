-- ===== src/Maturation/Final.antt =====
-- Outcomes of maturation.py are final: a terminal result depends on what was received by the time
-- at which it was computed, and no later receipt or evaluation changes it.
use predictive_autoscaler.Prelude.{
  append-ne-nil, ℕ, ◌≤◌, min, String, ◌≡◌, refl, ◌∙◌, ap, inl, inr, Option, none, some, List, [],
  ◌∷◌, lookup, nat_eq, Dict, Float, ok, err, ltb, if◌then◌else◌, arith, Result-cases, Bool-cases,
}
use predictive_autoscaler.Maturation.{
  Payload, Digests, window_outcome, settle_window, close_window, exclusion_hits, truth_deadline_ms,
}
use predictive_autoscaler.Maturation.Window.{check_window, last_target}
use predictive_autoscaler.Maturation.Collect.{Scan, admit, scan, nothing_scanned}

module _ {F : Type 0} where
  -- What had been received by `now`.
  abbrev pub received_by : ℕ → Option (F × ℕ) → Option (F × ℕ)
  received_by now none = none
  received_by now (some (v, at_ms)) = if ltb now at_ms then none else some (v, at_ms)

  abbrev pub SameBy : ℕ → Dict ℕ (F × ℕ) → Dict ℕ (F × ℕ) → Type 0
  SameBy now r r' = (t : ℕ) → received_by now (lookup t r') ≡ received_by now (lookup t r)

  admit-received_by :
      (now c t : ℕ) (o o' : Option (F × ℕ)) (s : Scan F)
      → c ≤ now
      → received_by now o' ≡ received_by now o
      → admit c t o' s ≡ admit c t o s
  unfolding admit
  admit-received_by now c t none none s h e = refl
  admit-received_by now c t none (some (v', a')) s h e = ground arith
  admit-received_by now c t (some (v, a)) none s h e = ground arith
  admit-received_by now c t (some (v, a)) (some (v', a')) s h e = ground arith

  scan-SameBy :
      (now c : ℕ) (r r' : Dict ℕ (F × ℕ)) (ts : List ℕ) (s : Scan F)
      → c ≤ now
      → SameBy now r r'
      → scan r' c ts s ≡ scan r c ts s
  unfolding scan
  scan-SameBy now c r r' [] s h e = refl
  scan-SameBy now c r r' (t ∷ ts) s h e =
      rw (admit-received_by now c t (lookup t r) (lookup t r') s h (e t))
        (scan-SameBy now c r r' ts (admit c t (lookup t r) s) h e)

  missing-admit :
      (c t : ℕ) (o : Option (F × ℕ)) (s : Scan F) → (admit c t o s).missing ≡ [] → s.missing ≡ []
  unfolding admit
  missing-admit c t none s h = absurd (append-ne-nil s.missing t h)
  missing-admit c t (some (v, a)) s h = ground (arith, append-ne-nil s.missing t)

  pub missing-scan :
      (r : Dict ℕ (F × ℕ)) (c : ℕ) (ts : List ℕ) (s : Scan F)
      → (scan r c ts s).missing ≡ []
      → s.missing ≡ []
  unfolding scan
  missing-scan r c [] s h = h
  missing-scan r c (t ∷ ts) s h =
      missing-admit c t (lookup t r) s (missing-scan r c ts (admit c t (lookup t r) s) h)

  admit_later :
      (c c' t : ℕ) (o : Option (F × ℕ)) (s : Scan F)
      → c ≤ c'
      → (admit c t o s).missing ≡ []
      → admit c' t o s ≡ admit c t o s
  unfolding admit
  admit_later c c' t none s h e = refl
  admit_later c c' t (some (v, a)) s h e = ground (arith, append-ne-nil s.missing t)

  -- A scan that missed nothing is the same at any later cutoff.
  scan_later :
      (r : Dict ℕ (F × ℕ)) (c c' : ℕ) (ts : List ℕ) (s : Scan F)
      → c ≤ c'
      → (scan r c ts s).missing ≡ []
      → scan r c' ts s ≡ scan r c ts s
  unfolding scan
  scan_later r c c' [] s h e = refl
  scan_later r c c' (t ∷ ts) s h e =
      rw (admit_later c c' t (lookup t r) s h (missing-scan r c ts (admit c t (lookup t r) s) e))
        (scan_later r c c' ts (admit c t (lookup t r) s) h e)

module _ {F : Type 0} ⦃fl : Float F⦄ (dg : Digests F) where
  -- The scan's part of the result, for either outcome of the scan.
  close_final :
      (targets : List ℕ) (base : F) (upper : Option F) (r r' : Dict ℕ (F × ℕ)) (now now' dl : ℕ)
      (miss : List ℕ) (p : Payload F)
      → now ≤ now'
      → SameBy now r r'
      → (scan r (min now dl) targets nothing_scanned).missing ≡ miss
      → close_window dg targets base upper now dl (scan r (min now dl) targets nothing_scanned) miss
        ≡ some p
      → settle_window dg targets base upper r' now' dl [] ≡ some p
  unfolding settle_window close_window
  close_final targets base upper r r' now now' dl [] p h same e q =
      let agree = scan-SameBy now (min now dl) r r' targets nothing_scanned (omega arith) same in
      let later =
        scan_later r' (min now dl) (min now' dl) targets nothing_scanned (omega arith)
          (ap (λ (s : Scan F). s.missing) agree ∙ e) in
      rw (later ∙ agree) (simp e q)
  close_final targets base upper r r' now now' dl (t ∷ ts) p h same e q =
      elim (Bool-cases (ltb now dl)) [
        | inl early ↦ let absent : none ≡ some p = rw early at q in cc
        | inr due ↦
            let cut : min now' dl ≡ min now dl = ground arith in
            let agree =
              scan-SameBy now (min now dl) r r' targets nothing_scanned (omega arith) same in
            rw (cut, agree, e) (ground arith)
      ]

  settle_final :
      (targets : List ℕ) (base : F) (upper : Option F) (r r' : Dict ℕ (F × ℕ)) (now now' dl : ℕ)
      (hit : List (ℕ × String)) (p : Payload F)
      → now ≤ now'
      → SameBy now r r'
      → settle_window dg targets base upper r now dl hit ≡ some p
      → settle_window dg targets base upper r' now' dl hit ≡ some p
  unfolding settle_window
  settle_final targets base upper r r' now now' dl (x ∷ hit) p h same q = q
  settle_final targets base upper r r' now now' dl [] p h same q =
      close_final targets base upper r r' now now' dl _ p h same refl q

  -- A terminal outcome stays as it is: evaluated at any later time, and over any receipts that
  -- agree with the earlier ones on what had been received by the earlier time, the same window
  -- has the same outcome and payload.
  pub window_outcome_final :
      (targets : List ℕ) (base : F) (upper : Option F) (r r' : Dict ℕ (F × ℕ))
      (now now' settlement grace : ℕ) (excluded : Option (ℕ → Option String)) (p : Payload F)
      → now ≤ now'
      → SameBy now r r'
      → window_outcome dg targets base upper r now settlement grace excluded ≡ ok (some p)
      → window_outcome dg targets base upper r' now' settlement grace excluded ≡ ok (some p)
  unfolding window_outcome
  window_outcome_final targets base upper r r' now now' settlement grace excluded p h same q =
      elim (Result-cases (check_window targets)) [
        | inl (u, e) ↦
            let dl = truth_deadline_ms (last_target targets) settlement grace in
            rw e (
              ground (
                arith,
                rw e at q,
                settle_final targets base upper r r' now now' dl (exclusion_hits excluded targets) p
                    h same,
              ))
        | inr (x, e) ↦ let failed : err x ≡ ok (some p) = rw e at q in cc
      ]
