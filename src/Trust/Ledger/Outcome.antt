-- ===== src/Trust/Ledger/Outcome.antt =====
-- `note_outcome` of trust.py: a matured outcome in the evidence ledger.
use predictive_autoscaler.Prelude.{
  ℕ, ◌+◌, Bool, true, false, not, Option, none, some, [], ◌∷◌, ◌++◌, erase, leb, ◌==◌, nat_eq,
  string_eq, if◌then◌else◌, last_n, to_int, Float, ◌⊕◌, ◌⊖◌, ◌≤?◌, Result, ok, err, ◌>>=◌, ◌>>◌,
}
use predictive_autoscaler.Calibration.{in_cohort, pinball_rps}
use predictive_autoscaler.Trust.Types.{TrustError, no_truth, Bucket, Ledger, EvidenceRecord}
use predictive_autoscaler.Trust.Ledger.{prune, same_identity, update_bucket}

module _ {F : Type 0} ⦃fl : Float F⦄ where
  -- `scored and upper is not None and y <= upper`; a scored record without a Y cannot be compared.
  unfoldable pub covered_of : Bool → Option F → Option F → Result TrustError Bool
  covered_of false y u = ok false
  covered_of true y none = ok false
  covered_of true none (some u) = err no_truth
  covered_of true (some y) (some u) = ok (y ≤? u)

  -- The replay counts, and only these.
  unfoldable pub replay_bucket : Bool → Bool → Option F → Bool → Bucket F → Bucket F
  replay_bucket false gate u covered b = record b { r_un = b.r_un + 1 }
  replay_bucket true false u covered b = record b { r_sc = b.r_sc + 1 }
  replay_bucket true true none covered b = record b { r_sc = b.r_sc + 1 }
  replay_bucket true true (some u) covered b = record b {
    r_sc = b.r_sc + 1;
    r_bd = b.r_bd + 1;
    r_cv = b.r_cv + to_int covered;
  }

  -- `scored and gate and c.upper_rps is not None`
  abbrev pub gate_bound : Bool → Bool → Option F → ℕ
  gate_bound true true (some u) = 1
  gate_bound _ _ _ = 0

  unfoldable pub outcome_replay : EvidenceRecord F → Bool → Bool → Bool → Ledger F → Ledger F
  outcome_replay r scored gate covered s = record s {
    buckets =
        update_bucket r.cal.window_end (replay_bucket scored gate r.cal.upper_rps covered)
          s.buckets;
    totals = record s.totals {
      replay_gate_bounded = s.totals.replay_gate_bounded + gate_bound scored gate r.cal.upper_rps;
    };
  }

  unfoldable pub outcome_unscorable : EvidenceRecord F → Bool → Ledger F → Ledger F
  outcome_unscorable r gate s = record s {
    buckets =
        update_bucket r.cal.window_end
          (λ b. record b { un = b.un + 1; g_un = b.g_un + to_int gate }) s.buckets;
    totals = record s.totals { unscorable = s.totals.unscorable + 1 };
  }

  unfoldable pub step_bucket : Option (F × F × F) → Bucket F → Bucket F
  step_bucket none b = b
  step_bucket (some (e0, e1, e2)) b = record b {
    n_step = b.n_step + 1;
    st0 = b.st0 ⊕ e0;
    st1 = b.st1 ⊕ e1;
    st2 = b.st2 ⊕ e2;
  }

  unfoldable pub error_bucket : EvidenceRecord F → Bool → F → Bucket F → Bucket F
  error_bucket r gate y b = step_bucket r.step_abs_errors (record b {
    sc = b.sc + 1;
    g_sc = b.g_sc + to_int gate;
    abs_sum = b.abs_sum ⊕ fl.abs (y ⊖ r.cal.base_rps);
    bias = b.bias ⊕ (r.cal.base_rps ⊖ y);
  })

  unfoldable pub bound_bucket : Bool → Bool → F → F → F → Bucket F → Bucket F
  bound_bucket gate covered y u nominal_miscoverage b =
      let b' = record b { a_bd = b.a_bd + 1; a_cv = b.a_cv + to_int covered } in
      if gate
      then record b' {
        g_bd = b.g_bd + 1;
        g_cv = b.g_cv + to_int covered;
        pin = b.pin ⊕ pinball_rps y u nominal_miscoverage;
      }
      else b'

  -- The last outcomes of gate bounds, and the misses in a row.
  unfoldable pub gate_outcome : EvidenceRecord F → Bool → ℕ → Ledger F → Ledger F
  gate_outcome r covered recent_n s = record s {
    totals = record s.totals { prospective_gate_bounded = s.totals.prospective_gate_bounded + 1 };
    recent = last_n recent_n (s.recent ++ to_int covered ∷ []);
    consecutive_misses = if covered then 0 else s.consecutive_misses + 1;
    last_prospective_outcome_s = some r.cal.window_end;
  }

  unfoldable pub bound_outcome : EvidenceRecord F → Bool → Bool → ℕ → Ledger F → Ledger F
  bound_outcome r gate covered recent_n s =
      let s' = record s {
        totals = record s.totals {
          covered = s.totals.covered + to_int covered;
          missed = s.totals.missed + to_int (not covered);
        };
      } in
      if gate then gate_outcome r covered recent_n s' else s'

  unfoldable pub outcome_scored :
      EvidenceRecord F → Bool → Bool → F → F → ℕ → Option F → Ledger F → Ledger F
  outcome_scored r gate covered y nominal_miscoverage recent_n none s = record s {
    buckets = update_bucket r.cal.window_end (error_bucket r gate y) s.buckets;
  }
  outcome_scored r gate covered y nominal_miscoverage recent_n (some u) s =
      bound_outcome r gate covered recent_n (record s {
        buckets =
            update_bucket r.cal.window_end
              (λ b. bound_bucket gate covered y u nominal_miscoverage (error_bucket r gate y b))
              s.buckets;
      })

  -- The outcome of a prospective record; a scored one carries its Y.
  unfoldable pub outcome_prospective :
      EvidenceRecord F
      → Bool
      → Bool
      → Bool
      → F
      → ℕ
      → Option F
      → Ledger F
      → Result TrustError (Ledger F)
  outcome_prospective r false gate covered nominal_miscoverage recent_n y s =
      ok (outcome_unscorable r gate s)
  outcome_prospective r true gate covered nominal_miscoverage recent_n none s = err no_truth
  outcome_prospective r true gate covered nominal_miscoverage recent_n (some y) s =
      ok (outcome_scored r gate covered y nominal_miscoverage recent_n r.cal.upper_rps s)

  -- `note_outcome`: exactly once by the sequence number; the window is no longer pending.
  unfoldable pub note_outcome :
      Ledger F → EvidenceRecord F → ℕ → F → ℕ → ℕ → Result TrustError (Ledger F)
  note_outcome ledger r lead_s nominal_miscoverage recent_n retention_s = do
    same_identity ledger r.cal.epoch r.cal.model r.cal.recipe
    if leb r.cal.seq ledger.last_outcome_seq then ok ledger else do
      let s = record ledger {
        last_outcome_seq = r.cal.seq;
        pending = erase r.cal.window_end ledger.pending;
      }
      let gate = in_cohort r.cal.decision_origin lead_s
      let scored = r.cal.status == "scored"
      covered ← covered_of scored r.cal.y_rps r.cal.upper_rps
      s' ←
          if r.mode == "replay"
          then ok (outcome_replay r scored gate covered s)
          else outcome_prospective r scored gate covered nominal_miscoverage recent_n r.cal.y_rps s
      ok (prune s' r.cal.window_end retention_s)
