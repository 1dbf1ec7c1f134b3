-- ===== src/Trust/Ledger/Counts.antt =====
-- The invariant of a ledger of trust.py: counts that agree, and a state of bounded extent.
use predictive_autoscaler.Prelude.{
  ℕ, ◌+◌, ◌*◌, ◌≤◌, ◌<◌, max, Bool, true, false, not, Option, none, some, [], ◌∷◌, ◌++◌, nat_eq,
  ltb, if◌then◌else◌, length, length-last_n, All, All-map, All-keep_keys, All-keep_keys_self,
  to_int, or_else, Float, arith,
}
use predictive_autoscaler.Calibration.{in_cohort}
use predictive_autoscaler.Trust.Types.{hour, day, Bucket, Ledger, EvidenceRecord, IssuanceNote}
use predictive_autoscaler.Trust.Ledger.{prune, issue_replay, issue_prospective}
use predictive_autoscaler.Trust.Ledger.Outcome.{
  outcome_replay, outcome_unscorable, outcome_scored, bound_outcome, gate_outcome,
}
use predictive_autoscaler.Trust.Ledger.Buckets.{
  to_int-le-one, IsBucket, replay_bucket-IsBucket, error_bucket-HasRoom, bound_bucket-IsBucket,
  update_bucket-All,
}

module _ {F : Type 0} where
  -- Nothing that the retention has dropped is kept, and the last outcomes are at most `recent_n`.
  pub record IsLedger (recent_n ret : ℕ) (l : Ledger F) : Type 0 where
    pub buckets : All (λ (e : ℕ × Bucket F). IsBucket e.1) l.buckets
    pub hours : All (λ (e : ℕ × Bucket F). or_else l.newest_s 0 < e.0 * hour + ret) l.buckets
    pub pending : All (λ (e : ℕ × ℕ). or_else l.newest_s 0 < e.0 + day) l.pending
    pub recent : length l.recent ≤ recent_n
    pub gate_total : l.totals.prospective_gate_bounded ≤ l.totals.covered + l.totals.missed
    pub misses : l.consecutive_misses ≤ l.totals.missed

  -- What the operations change before they prune.
  pub record IsCounted (recent_n : ℕ) (l : Ledger F) : Type 0 where
    pub buckets : All (λ (e : ℕ × Bucket F). IsBucket e.1) l.buckets
    pub recent : length l.recent ≤ recent_n
    pub gate_total : l.totals.prospective_gate_bounded ≤ l.totals.covered + l.totals.missed
    pub misses : l.consecutive_misses ≤ l.totals.missed

  pub prune-IsLedger :
      (n ret now : ℕ) (l : Ledger F) → IsCounted n l → IsLedger n ret (prune l now ret)
  unfolding prune
  prune-IsLedger n ret now l h =
      let newest = max now (or_else l.newest_s now) in
      record {
        buckets = All-keep_keys _ (λ k. ltb newest (k * hour + ret)) l.buckets h.buckets;
        hours =
            All-map _ _ (λ e q. ground arith) _
              (All-keep_keys_self (λ k. ltb newest (k * hour + ret)) l.buckets);
        pending =
            All-map _ _ (λ e q. ground arith) _
              (All-keep_keys_self (λ k. ltb newest (k + day)) l.pending);
        recent = h.recent;
        gate_total = h.gate_total;
        misses = h.misses;
      }

module _ {F : Type 0} ⦃fl : Float F⦄ where
  pub issue_replay-IsCounted :
      (n : ℕ) (i : IssuanceNote) (l : Ledger F) → IsCounted n l → IsCounted n (issue_replay i l)
  unfolding issue_replay
  issue_replay-IsCounted n i l h = record {
    buckets = update_bucket-All i.origin _ l.buckets (λ b q. omega arith) h.buckets;
    recent = h.recent;
    gate_total = h.gate_total;
    misses = h.misses;
  }

  pub issue_prospective-IsCounted :
      (n : ℕ) (i : IssuanceNote) (l : Ledger F)
      → IsCounted n l
      → IsCounted n (issue_prospective i l)
  unfolding issue_prospective
  issue_prospective-IsCounted n i l h = record {
    buckets =
        update_bucket-All i.origin _ l.buckets
          (λ b q. omega (arith, to_int-le-one (in_cohort i.origin i.lead_s))) h.buckets;
    recent = h.recent;
    gate_total = h.gate_total;
    misses = h.misses;
  }

  pub outcome_replay-IsCounted :
      (n : ℕ) (r : EvidenceRecord F) (s g c : Bool) (l : Ledger F)
      → IsCounted n l
      → IsCounted n (outcome_replay r s g c l)
  unfolding outcome_replay
  outcome_replay-IsCounted n r s g c l h = record {
    buckets =
        update_bucket-All r.cal.window_end _ l.buckets
          (replay_bucket-IsBucket s g r.cal.upper_rps c) h.buckets;
    recent = h.recent;
    gate_total = h.gate_total;
    misses = h.misses;
  }

  pub outcome_unscorable-IsCounted :
      (n : ℕ) (r : EvidenceRecord F) (g : Bool) (l : Ledger F)
      → IsCounted n l
      → IsCounted n (outcome_unscorable r g l)
  unfolding outcome_unscorable
  outcome_unscorable-IsCounted n r g l h = record {
    buckets =
        update_bucket-All r.cal.window_end _ l.buckets (λ b q. omega (arith, to_int-le-one g))
          h.buckets;
    recent = h.recent;
    gate_total = h.gate_total;
    misses = h.misses;
  }

  bound_outcome-IsCounted :
      (n : ℕ) (r : EvidenceRecord F) (g c : Bool) (l : Ledger F)
      → IsCounted n l
      → IsCounted n (bound_outcome r g c n l)
  unfolding bound_outcome gate_outcome
  bound_outcome-IsCounted n r false c l h = record {
    buckets = h.buckets;
    recent = h.recent;
    gate_total = omega (arith, h.gate_total);
    misses = omega (arith, h.misses);
  }
  bound_outcome-IsCounted n r true c l h = record {
    buckets = h.buckets;
    recent = omega (arith, length-last_n n (l.recent ++ to_int c ∷ []));
    gate_total = hit c;
    misses = missed c;
  }
    where
      hit :
          (b : Bool)
          → l.totals.prospective_gate_bounded + 1
            ≤ l.totals.covered + to_int b + (l.totals.missed + to_int (not b))
      hit true = omega (arith, h.gate_total)
      hit false = omega (arith, h.gate_total)

      missed :
          (b : Bool)
          → (if b then 0 else l.consecutive_misses + 1) ≤ l.totals.missed + to_int (not b)
      missed true = omega arith
      missed false = omega (arith, h.misses)

  pub outcome_scored-IsCounted :
      (n : ℕ) (r : EvidenceRecord F) (g c : Bool) (y nominal : F) (u : Option F) (l : Ledger F)
      → IsCounted n l
      → IsCounted n (outcome_scored r g c y nominal n u l)
  unfolding outcome_scored
  outcome_scored-IsCounted n r g c y nominal none l h = record {
    buckets =
        update_bucket-All r.cal.window_end _ l.buckets
          (λ b q. (error_bucket-HasRoom r g y b q).counts) h.buckets;
    recent = h.recent;
    gate_total = h.gate_total;
    misses = h.misses;
  }
  outcome_scored-IsCounted n r g c y nominal (some u) l h =
      bound_outcome-IsCounted n r g c _ (record {
        buckets =
            update_bucket-All r.cal.window_end _ l.buckets
              (λ b q. bound_bucket-IsBucket g c y u nominal _ (error_bucket-HasRoom r g y b q))
              h.buckets;
        recent = h.recent;
        gate_total = h.gate_total;
        misses = h.misses;
      })
