-- ===== src/Journal/Compact.antt =====
-- Retention (store.py: compact and retention_summary, with the triggers that admit a DELETE below the
-- horizon only).
use predictive_autoscaler.Prelude.{
  ℕ, ◌+◌, ◌-◌, Bool, not, ◌&&◌, Option, none, some, List, [], ◌∷◌, ◌++◌, String, length, filterb,
  any, all, map, count, Dict, lookup, insert, ltb, leb, ◌==◌, nat_eq, string_eq, if◌then◌else◌,
  Result, ok, err, ◌>>=◌,
}
use predictive_autoscaler.Journal.Types.{
  StoreError, refused_by_journal, Issuance, Outcome, scored, unscorable, Receipt, Retained,
  Database, Journal, StoreSettings, Codec,
}
use predictive_autoscaler.Journal.Guard.{Env, Plan, answer, write, guard, require_healthy}
use predictive_autoscaler.Journal.Reads.{Checkpoint, row_to_issuance, latest_checkpoint}
use predictive_autoscaler.Journal.Commit.{unless_refused, status_beq}

-- What a compaction reports.
pub record Removed : Type 0 where
  pub issuances : ℕ
  pub outcomes : ℕ
  pub observations : ℕ
  pub kept : ℕ

-- An issuance with its outcomes.
abbrev pub Item : Type 0
Item = Issuance × List Outcome

-- A loop whose steps may raise.
unfoldable pub each {ℓ} :
    {A : Type ℓ} {S : Type 0} → (A → S → Result StoreError S) → List A → S → Result StoreError S
each f [] s = ok s
each f (x ∷ xs) s = do after ← f x s; each f xs after

abbrev pub or_zero : Option ℕ → ℕ
or_zero none = 0
or_zero (some n) = n

unfoldable pub below : ℕ → Issuance → Bool
below horizon i = ltb i.key.window_end horizon

abbrev pub covered_seq : {J : Type 0} → Option (Checkpoint J) → ℕ
covered_seq none = 0
covered_seq (some c) = c.last_outcome_seq

module _ {J F : Type 0} (cx : Codec J) where
  -- `covered`: of every epoch with an old issuance, what its latest checkpoint covers.
  unfoldable pub cover_epoch :
      Database F → Issuance → Dict String ℕ → Result StoreError (Dict String ℕ)
  cover_epoch db i covered = do
    latest ← latest_checkpoint cx i.key.evidence_key db
    ok (insert i.key.evidence_key (covered_seq latest) covered)

  unfoldable pub cover_epochs : Database F → ℕ → Result StoreError (Dict String ℕ)
  cover_epochs db horizon = each (cover_epoch db) (filterb (below horizon) db.issuances) []

-- Every expected model has an outcome, no other has, and all are covered.
unfoldable pub complete : Dict String ℕ → Issuance → List Outcome → Bool
complete covered i outs =
    all (λ m. any (λ (o : Outcome). o.model == m) outs) i.models
    && all (λ (o : Outcome). any (λ m. o.model == m) i.models) outs
    && all (λ (o : Outcome). leb o.seq (or_zero (lookup i.key.evidence_key covered))) outs

-- The removable issuances by epoch, and how many stay.
pub record Gathered : Type 0 where
  pub epochs : Dict String (List Item)
  pub kept : ℕ

abbrev pub or_empty : Option (List Item) → List Item
or_empty none = []
or_empty (some items) = items

unfoldable pub place : Dict String ℕ → Issuance → List Outcome → Gathered → Gathered
place covered i outs g =
    if complete covered i outs
    then record g {
      epochs =
          insert i.key.evidence_key
            (or_empty (lookup i.key.evidence_key g.epochs) ++ (i, outs) ∷ []) g.epochs;
    }
    else record g { kept = g.kept + 1 }

module _ {F : Type 0} where
  unfoldable pub outcomes_of : String → Database F → List Outcome
  outcomes_of iid db = filterb (λ (o : Outcome). o.issuance_id == iid) db.outcomes

  -- DELETE FROM outcomes / issuances WHERE issuance_id = ?, with the triggers.
  unfoldable pub delete_outcomes : String → Database F → Result StoreError (Database F)
  delete_outcomes iid db =
      if any (λ (o : Outcome). o.issuance_id == iid && not (ltb o.window_end db.retention_horizon))
        db.outcomes
      then err refused_by_journal
      else ok (record db {
        outcomes = filterb (λ (o : Outcome). not (o.issuance_id == iid)) db.outcomes;
      })

  unfoldable pub delete_issuance : String → Database F → Result StoreError (Database F)
  delete_issuance iid db =
      if any (λ (i : Issuance). i.issuance_id == iid && not (below db.retention_horizon i))
        db.issuances
      then err refused_by_journal
      else ok (record db {
        issuances = filterb (λ (i : Issuance). not (i.issuance_id == iid)) db.issuances;
      })

-- An epoch's counts and the removal counts, while its items go.
pub record Sweep (F : Type 0) : Type 0 where
  pub tally : Retained
  pub n_issuances : ℕ
  pub n_outcomes : ℕ
  pub db : Database F

module _ {F : Type 0} where
  -- INSERT OR REPLACE INTO retention
  unfoldable pub retain : String → ℕ → Sweep F → Sweep F
  retain evidence horizon s = record s {
    db = record s.db {
      retention = insert evidence (record s.tally { through_window_end = horizon }) s.db.retention;
    };
  }

abbrev pub is_scored : Outcome → Bool
is_scored o = status_beq o.status scored

abbrev pub is_unscorable : Outcome → Bool
is_unscorable o = status_beq o.status unscorable

module _ {J : Type 0} (cx : Codec J) where
  unfoldable pub tally_item : Item → Retained → Retained
  tally_item (i, outs) t = record t {
    issued = t.issued + 1;
    scored_count = t.scored_count + count is_scored outs;
    unscorable_count = t.unscorable_count + count is_unscorable outs;
    digest = cx.sha256 (cx.digest_json t.digest i (map (λ (o : Outcome). o.payload_sha256) outs));
  }

  abbrev pub or_new : Option Retained → Retained
  or_new (some r) = r
  or_new none = record {
    through_window_end = 0;
    issued = 0;
    scored_count = 0;
    unscorable_count = 0;
    digest = cx.zero_digest;
  }

module _ {J F : Type 0} (cx : Codec J) where
  -- One row of the query over the old issuances.
  unfoldable pub gather_one :
      Dict String ℕ → Database F → Issuance → Gathered → Result StoreError Gathered
  gather_one covered db row g = do
    i ← row_to_issuance cx row
    ok (place covered i (outcomes_of i.issuance_id db) g)

  unfoldable pub gather : Dict String ℕ → ℕ → Database F → Result StoreError Gathered
  gather covered horizon db =
      each (gather_one covered db) (filterb (below horizon) db.issuances)
        (record { epochs = []; kept = 0 })

  unfoldable pub remove_item : Item → Sweep F → Result StoreError (Sweep F)
  remove_item (i, outs) s = do
    without_outcomes ← delete_outcomes i.issuance_id s.db
    after ← delete_issuance i.issuance_id without_outcomes
    ok (record {
      tally = tally_item cx (i, outs) s.tally;
      n_issuances = s.n_issuances + (length without_outcomes.issuances - length after.issuances);
      n_outcomes = s.n_outcomes + (length s.db.outcomes - length without_outcomes.outcomes);
      db = after;
    })

  unfoldable pub remove_epoch : ℕ → String × List Item → Sweep F → Result StoreError (Sweep F)
  remove_epoch horizon (evidence, items) s = do
    swept ← each remove_item items (record s { tally = or_new cx (lookup evidence s.db.retention) })
    ok (retain evidence horizon swept)

module _ {F : Type 0} where
  abbrev pub old_observation : StoreSettings → ℕ → Receipt F → Bool
  old_observation st horizon r = ltb (r.event_time + st.obs_extra) horizon

  unfoldable pub drop_observations : StoreSettings → ℕ → Database F → Database F
  drop_observations st horizon db = record db {
    observations = filterb (λ r. not (old_observation st horizon r)) db.observations;
  }

  unfoldable pub raise_horizon : ℕ → Database F → Database F
  raise_horizon horizon db = record db { retention_horizon = horizon }

abbrev pub nothing_removed : Removed
nothing_removed = record { issuances = 0; outcomes = 0; observations = 0; kept = 0 }

module _ {J F : Type 0} (cx : Codec J) (st : StoreSettings) where
  abbrev pub sweep_from : Database F → Sweep F
  sweep_from db = record { tally = or_new cx none; n_issuances = 0; n_outcomes = 0; db = db }

  -- The transaction: the counts and the database that it leaves.
  unfoldable pub compacted :
      Dict String ℕ → ℕ → Database F → Result StoreError (Removed × Database F)
  compacted covered horizon db = do
    let raised = raise_horizon horizon db
    g ← gather cx covered horizon raised
    s ← each (remove_epoch cx horizon) g.epochs (sweep_from raised)
    let after = drop_observations st horizon s.db
    ok (
      record {
        issuances = s.n_issuances;
        outcomes = s.n_outcomes;
        observations = length s.db.observations - length after.observations;
        kept = g.kept;
      },
      after,
    )

  unfoldable pub compact_to : ℕ → Database F → Plan F Removed
  compact_to horizon db =
      if leb horizon db.retention_horizon
      then answer (ok nothing_removed)
      else unless_refused (cover_epochs cx db horizon) (λ covered.
        unless_refused (compacted covered horizon db)
          (λ (p : Removed × Database F). write (ok p.0) p.1))

  -- A horizon below zero is no horizon above the stored one, as 0 is none.
  unfoldable pub compact : Env → ℕ → Journal F → Result StoreError Removed × Journal F
  compact env now_s j =
      guard env.moment
        (unless_refused (require_healthy j) (λ u. compact_to (now_s - st.retention_seconds) j.db)) j

module _ {F : Type 0} where
  unfoldable pub retention_summary : String → Database F → Option Retained
  retention_summary evidence db = lookup evidence db.retention
