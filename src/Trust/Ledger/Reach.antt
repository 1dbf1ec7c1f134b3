-- ===== src/Trust/Ledger/Reach.antt =====
-- The ledgers of trust.py that issuances and outcomes can make, and their invariant.
use predictive_autoscaler.Prelude.{ℕ, ◌≡◌, String, nat_eq, Float, ok, arith}
use predictive_autoscaler.Trust.Types.{Ledger, EvidenceRecord, IssuanceNote}
use predictive_autoscaler.Trust.Ledger.{new_ledger, note_issuance}
use predictive_autoscaler.Trust.Ledger.Outcome.{note_outcome}
use predictive_autoscaler.Trust.Ledger.Noted.{
  Issued, Matured, note_issuance-Issued, note_outcome-Matured, maturing, issuing,
}
use predictive_autoscaler.Trust.Ledger.Counts.{
  IsLedger, IsCounted, prune-IsLedger, issue_replay-IsCounted, issue_prospective-IsCounted,
  outcome_replay-IsCounted, outcome_unscorable-IsCounted, outcome_scored-IsCounted,
}

module _ {F : Type 0} ⦃fl : Float F⦄ where
  issuing-IsCounted :
      (n ret : ℕ) (i : IssuanceNote) (l : Ledger F) → IsLedger n ret l → IsCounted n (issuing l i)
  issuing-IsCounted n ret i l h = record {
    buckets = h.buckets;
    recent = h.recent;
    gate_total = h.gate_total;
    misses = h.misses;
  }

  Issued-IsLedger :
      (n ret : ℕ) (i : IssuanceNote) (l l' : Ledger F)
      → Issued i ret l l'
      → IsLedger n ret l
      → IsLedger n ret l'
  Issued-IsLedger n ret i l l' (Issued.repeated old e) h = rw e h
  Issued-IsLedger n ret i l l' (Issued.replay new m e) h = rw e (
      prune-IsLedger n ret i.origin _
        (issue_replay-IsCounted n i (issuing l i) (issuing-IsCounted n ret i l h)))
  Issued-IsLedger n ret i l l' (Issued.prospective new m e) h = rw e (
      prune-IsLedger n ret i.origin _
        (issue_prospective-IsCounted n i (issuing l i) (issuing-IsCounted n ret i l h)))

  maturing-IsCounted :
      (n ret : ℕ) (r : EvidenceRecord F) (l : Ledger F)
      → IsLedger n ret l
      → IsCounted n (maturing l r)
  maturing-IsCounted n ret r l h = record {
    buckets = h.buckets;
    recent = h.recent;
    gate_total = h.gate_total;
    misses = h.misses;
  }

  Matured-IsLedger :
      (n ret lead : ℕ) (nominal : F) (r : EvidenceRecord F) (l l' : Ledger F)
      → Matured r lead nominal n ret l l'
      → IsLedger n ret l
      → IsLedger n ret l'
  Matured-IsLedger n ret lead nominal r l l' (Matured.repeated old e) h = rw e h
  Matured-IsLedger n ret lead nominal r l l' (Matured.replay s c new m e) h = rw e (
      prune-IsLedger n ret r.cal.window_end _
        (outcome_replay-IsCounted n r s _ c (maturing l r) (maturing-IsCounted n ret r l h)))
  Matured-IsLedger n ret lead nominal r l l' (Matured.unscorable new m e) h = rw e (
      prune-IsLedger n ret r.cal.window_end _
        (outcome_unscorable-IsCounted n r _ (maturing l r) (maturing-IsCounted n ret r l h)))
  Matured-IsLedger n ret lead nominal r l l' (Matured.scored y c new m o k e) h = rw e (
      prune-IsLedger n ret r.cal.window_end _ (
        outcome_scored-IsCounted n r _ c y nominal r.cal.upper_rps (maturing l r)
          (maturing-IsCounted n ret r l h)))

  -- The ledgers that a new one becomes by issuances and outcomes, in any order.
  pub data Reached (lead : ℕ) (nominal : F) (n ret : ℕ) (epoch model recipe : String) (interval : ℕ)
      : Ledger F → Type 0 where
    started :
        Reached lead nominal n ret epoch model recipe interval
          (new_ledger epoch model recipe interval)
    issued :
        (i : IssuanceNote) {l l' : Ledger F}
        → Reached lead nominal n ret epoch model recipe interval l
        → note_issuance l i ret ≡ ok l'
        → Reached lead nominal n ret epoch model recipe interval l'
    matured :
        (r : EvidenceRecord F) {l l' : Ledger F}
        → Reached lead nominal n ret epoch model recipe interval l
        → note_outcome l r lead nominal n ret ≡ ok l'
        → Reached lead nominal n ret epoch model recipe interval l'

  -- Every ledger that issuances and outcomes can make has buckets whose counts agree (covered within
  -- bounded within scored, the gate cohort within all windows), keeps no hour and no pending window
  -- that the retention or the day has dropped, holds at most `recent_n` recent outcomes, and counts no
  -- gate bound and no miss in a row that the totals do not hold.
  pub Reached-IsLedger :
      (lead : ℕ) (nominal : F) (n ret : ℕ) (epoch model recipe : String) (interval : ℕ)
      (l : Ledger F)
      → Reached lead nominal n ret epoch model recipe interval l
      → IsLedger n ret l
  unfolding new_ledger
  Reached-IsLedger lead nominal n ret epoch model recipe interval l started = record {
    buckets = tt;
    hours = tt;
    pending = tt;
    recent = omega arith;
    gate_total = omega arith;
    misses = omega arith;
  }
  Reached-IsLedger lead nominal n ret epoch model recipe interval l (issued i {l = k} h e) =
      Issued-IsLedger n ret i k l (note_issuance-Issued i ret k l e)
        (Reached-IsLedger lead nominal n ret epoch model recipe interval k h)
  Reached-IsLedger lead nominal n ret epoch model recipe interval l (matured r {l = k} h e) =
      Matured-IsLedger n ret lead nominal r k l (note_outcome-Matured r lead nominal n ret k l e)
        (Reached-IsLedger lead nominal n ret epoch model recipe interval k h)
