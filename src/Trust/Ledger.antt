-- ===== src/Trust/Ledger.antt =====
-- The evidence ledger of trust.py: issuances and outcomes, folded into hourly buckets.
pub mod Outcome
pub mod Noted
pub mod Once
pub mod Replay
pub mod Buckets
pub mod Counts
pub mod Reach
use predictive_autoscaler.Prelude.{
  ℕ, ◌+◌, ◌*◌, ◌/◌, max, String, Bool, true, false, not, ◌&&◌, ◌||◌, Option, none, some, List, [],
  ◌∷◌, ◌++◌, Dict, lookup, insert, erase, keep_keys, ltb, leb, ◌==◌, nat_eq, string_eq,
  if◌then◌else◌, last_n, or_else, to_int, is_some, Float, ◌⊕◌, ◌⊖◌, ◌≤?◌, Result, ok, err, raise_if,
  ◌>>=◌, ◌>>◌,
}
use predictive_autoscaler.Calibration.{CalibrationRecord, in_cohort, pinball_rps}
use predictive_autoscaler.Trust.Types.{
  TrustError, other_identity, unknown_mode, hour, day, Bucket, Ledger, EvidenceRecord, IssuanceNote,
}

-- The `v or d` of an optional time that is only set where it is missing.
abbrev pub set_once : Bool → Option ℕ → ℕ → Option ℕ
set_once b (some t) d = some t
set_once b none d = if b then some d else none

module _ {F : Type 0} where
  unfoldable pub new_ledger : String → String → String → ℕ → Ledger F
  new_ledger epoch model recipe interval_s = record {
    epoch = epoch;
    model = model;
    recipe = recipe;
    interval_s = interval_s;
    buckets = [];
    pending = [];
    recent = [];
    consecutive_misses = 0;
    first_prospective_s = none;
    first_issue_s = none;
    last_prospective_outcome_s = none;
    last_outcome_seq = 0;
    last_issuance_seq = 0;
    newest_s = none;
    totals = record {
      issued = 0;
      covered = 0;
      missed = 0;
      unscorable = 0;
      prospective_gate_bounded = 0;
      replay_gate_bounded = 0;
    };
  }

  -- The bucket of hour k is kept when k > (newest - retention) // hour, which over the integers is
  -- newest - retention < k * hour; here without a subtraction, which could fall below zero. So for
  -- the pending windows, kept when their end is above newest - day.
  unfoldable pub prune : Ledger F → ℕ → ℕ → Ledger F
  prune ledger now_s retention_s =
      let newest = max now_s (or_else ledger.newest_s now_s) in
      record ledger {
        newest_s = some newest;
        buckets = keep_keys (λ k. ltb newest (k * hour + retention_s)) ledger.buckets;
        pending = keep_keys (λ k. ltb newest (k + day)) ledger.pending;
      }

  unfoldable pub same_identity : Ledger F → String → String → String → Result TrustError (Unit {0})
  same_identity ledger epoch model recipe =
      raise_if (not (epoch == ledger.epoch && model == ledger.model && recipe == ledger.recipe))
        other_identity

module _ {F : Type 0} ⦃fl : Float F⦄ where
  abbrev pub empty_bucket : Bucket F
  empty_bucket = record {
    iss = 0;
    g_iss = 0;
    sc = 0;
    un = 0;
    g_sc = 0;
    g_un = 0;
    a_bd = 0;
    a_cv = 0;
    g_bd = 0;
    g_cv = 0;
    n_step = 0;
    pin = fl.of_int 0;
    abs_sum = fl.of_int 0;
    bias = fl.of_int 0;
    st0 = fl.of_int 0;
    st1 = fl.of_int 0;
    st2 = fl.of_int 0;
    r_iss = 0;
    r_sc = 0;
    r_un = 0;
    r_bd = 0;
    r_cv = 0;
  }

  -- `_bucket`: the bucket of time t's hour, a new one if there is none.
  abbrev pub or_empty : Option (Bucket F) → Bucket F
  or_empty none = empty_bucket
  or_empty (some b) = b

  abbrev pub bucket_at : ℕ → Dict ℕ (Bucket F) → Bucket F
  bucket_at k buckets = or_empty (lookup k buckets)

  -- A change of that bucket in place.
  unfoldable pub update_bucket : ℕ → (Bucket F → Bucket F) → Dict ℕ (Bucket F) → Dict ℕ (Bucket F)
  update_bucket t f buckets = insert (t / hour) (f (bucket_at (t / hour) buckets)) buckets

  unfoldable pub issue_replay : IssuanceNote → Ledger F → Ledger F
  issue_replay i s = record s {
    buckets = update_bucket i.origin (λ b. record b { r_iss = b.r_iss + 1 }) s.buckets;
  }

  unfoldable pub issue_prospective : IssuanceNote → Ledger F → Ledger F
  issue_prospective i s = record s {
    buckets =
        update_bucket i.origin
          (λ b. record b {
            iss = b.iss + 1;
            g_iss = b.g_iss + to_int (in_cohort i.origin i.lead_s);
          })
          s.buckets;
    totals = record s.totals { issued = s.totals.issued + 1 };
    pending = insert i.window_end i.deadline_s s.pending;
    first_issue_s = set_once true s.first_issue_s i.origin;
    first_prospective_s = set_once i.bounded s.first_prospective_s i.origin;
  }

  -- `note_issuance`: exactly once by the sequence number.
  unfoldable pub note_issuance : Ledger F → IssuanceNote → ℕ → Result TrustError (Ledger F)
  note_issuance ledger i retention_s = do
    same_identity ledger i.epoch i.model i.recipe
    if leb i.seq ledger.last_issuance_seq then ok ledger else do
      raise_if (not (i.mode == "prospective" || i.mode == "replay")) unknown_mode
      let s = record ledger { last_issuance_seq = i.seq }
      ok (
          prune (if i.mode == "replay" then issue_replay i s else issue_prospective i s) i.origin
            retention_s)
