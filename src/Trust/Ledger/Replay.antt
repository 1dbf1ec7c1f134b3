-- ===== src/Trust/Ledger/Replay.antt =====
-- Replay evidence is counted apart in a ledger of trust.py: no prospective count sees it.
use predictive_autoscaler.Prelude.{
  ℕ, ◌+◌, ◌*◌, ◌/◌, ◌≡◌, ◌≢◌, refl, ap, ◌∙◌, ◌<◌, Bool, true, false, Option, none, some, Dict,
  erase, lookup, keep_keys, lookup-erase, lookup-insert, lookup-keep_keys, nat_eq, ◌==◌, ltb,
  or_else, max, Float, ok, Bool-cases, inl, inr, arith,
}
use predictive_autoscaler.Trust.Types.{hour, day, Bucket, Ledger, EvidenceRecord}
use predictive_autoscaler.Trust.Ledger.{bucket_at, update_bucket, prune}
use predictive_autoscaler.Trust.Ledger.Outcome.{replay_bucket, outcome_replay, note_outcome}
use predictive_autoscaler.Trust.Ledger.Noted.{Matured, note_outcome-Matured, maturing}

other_pending :
    {V : Type 0} (own w : ℕ) (p : ℕ → Bool) (d : Dict ℕ V)
    → w ≢ own
    → p w ≡ true
    → lookup w (keep_keys p (erase own d)) ≡ lookup w d
other_pending own w p d other kept =
    let apart : (own == w) ≡ false = ground (arith, nat_eq.same_iff own w, other) in
    simp (lookup-keep_keys, lookup-erase, kept, apart)

module _ {F : Type 0} ⦃fl : Float F⦄ where
  -- A bucket without its replay counts.
  abbrev pub prospective_part : Bucket F → Bucket F
  prospective_part b = record b { r_iss = 0; r_sc = 0; r_un = 0; r_bd = 0; r_cv = 0 }

  replay_bucket-prospective_part :
      (s g : Bool) (u : Option F) (c : Bool) (b : Bucket F)
      → prospective_part (replay_bucket s g u c b) ≡ prospective_part b
  unfolding replay_bucket
  replay_bucket-prospective_part false g u c b = refl
  replay_bucket-prospective_part true false u c b = refl
  replay_bucket-prospective_part true true none c b = refl
  replay_bucket-prospective_part true true (some u) c b = refl

  -- A change that keeps the prospective part of one bucket keeps it at every hour that stays.
  kept_part :
      (t k : ℕ) (f : Bucket F → Bucket F) (p : ℕ → Bool) (d : Dict ℕ (Bucket F))
      → ((b : Bucket F) → prospective_part (f b) ≡ prospective_part b)
      → p k ≡ true
      → prospective_part (bucket_at k (keep_keys p (update_bucket t f d)))
        ≡ prospective_part (bucket_at k d)
  unfolding update_bucket
  kept_part t k f p d same kept = elim (Bool-cases (t / hour == k)) [
    | inl e ↦
        let here : t / hour ≡ k = (nat_eq.same_iff (t / hour) k).0 e in
        simp (lookup-keep_keys, kept, lookup-insert, e)
          (same (bucket_at (t / hour) d) ∙ ap (λ j. prospective_part (bucket_at j d)) here)
    | inr e ↦ simp (lookup-keep_keys, kept, lookup-insert, e)
  ]

  -- What of a ledger the gates read, apart from the buckets and the pending windows.
  pub record SameGates (l l' : Ledger F) : Type 0 where
    pub recent : l'.recent ≡ l.recent
    pub misses : l'.consecutive_misses ≡ l.consecutive_misses
    pub first_bound : l'.first_prospective_s ≡ l.first_prospective_s
    pub first_issue : l'.first_issue_s ≡ l.first_issue_s
    pub bounded : l'.totals.prospective_gate_bounded ≡ l.totals.prospective_gate_bounded
    pub covered : l'.totals.covered ≡ l.totals.covered
    pub missed : l'.totals.missed ≡ l.totals.missed

  -- The gates' part is the same, and so are the prospective part of every hour that is kept and every
  -- pending window that is kept, but for the one that ends at `own`.
  abbrev pub Isolated : ℕ → ℕ → Ledger F → Ledger F → Type 0
  Isolated own ret l l' =
      SameGates l l'
      × ((k : ℕ)
          → or_else l'.newest_s 0 < k * hour + ret
          → prospective_part (bucket_at k l'.buckets) ≡ prospective_part (bucket_at k l.buckets))
      × ((w : ℕ)
          → w ≢ own
          → or_else l'.newest_s 0 < w + day
          → lookup w l'.pending ≡ lookup w l.pending)

  outcome_replay-Isolated :
      (r : EvidenceRecord F) (s g c : Bool) (ret : ℕ) (l : Ledger F)
      → Isolated r.cal.window_end ret l
          (prune (outcome_replay r s g c (maturing l r)) r.cal.window_end ret)
  unfolding prune outcome_replay
  outcome_replay-Isolated r s g c ret l = (
    record {
      recent = refl;
      misses = refl;
      first_bound = refl;
      first_issue = refl;
      bounded = refl;
      covered = refl;
      missed = refl;
    },
    λ k h.
        kept_part r.cal.window_end k (replay_bucket s g r.cal.upper_rps c)
          (λ j. ltb (max r.cal.window_end (or_else l.newest_s r.cal.window_end)) (j * hour + ret))
          l.buckets (replay_bucket-prospective_part s g r.cal.upper_rps c) (ground (arith, h)),
    λ w other h.
        other_pending r.cal.window_end w
          (λ j. ltb (max r.cal.window_end (or_else l.newest_s r.cal.window_end)) (j + day))
          l.pending other (ground (arith, h)),
  )

  Matured-Isolated :
      (r : EvidenceRecord F) (lead : ℕ) (nominal : F) (n ret : ℕ) (l l' : Ledger F)
      → r.mode ≡ "replay"
      → Matured r lead nominal n ret l l'
      → Isolated r.cal.window_end ret l l'
  Matured-Isolated r lead nominal n ret l l' m (Matured.repeated old e) = rw e (
    record {
      recent = refl;
      misses = refl;
      first_bound = refl;
      first_issue = refl;
      bounded = refl;
      covered = refl;
      missed = refl;
    },
    λ k h. refl,
    λ w other h. refl,
  )
  Matured-Isolated r lead nominal n ret l l' m (Matured.replay s c new q e) =
      rw e (outcome_replay-Isolated r s _ c ret l)
  Matured-Isolated r lead nominal n ret l l' m (Matured.unscorable new q e) = absurd (q m)
  Matured-Isolated r lead nominal n ret l l' m (Matured.scored y c new q o k e) = absurd (q m)

  pub note_outcome_replay :
      (r : EvidenceRecord F) (lead : ℕ) (nominal : F) (n ret : ℕ) (l l' : Ledger F)
      → r.mode ≡ "replay"
      → note_outcome l r lead nominal n ret ≡ ok l'
      → Isolated r.cal.window_end ret l l'
  note_outcome_replay r lead nominal n ret l l' m h =
      Matured-Isolated r lead nominal n ret l l' m
        (note_outcome-Matured r lead nominal n ret l l' h)
