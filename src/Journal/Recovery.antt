-- ===== src/Journal/Recovery.antt =====
-- A restart finds the same state before and after a compaction (store.py: compact and recover).
use predictive_autoscaler.Prelude.{
  ℕ, ◌≤◌, ◌≡◌, refl, sym, subst, ap, ◌∙◌, inl, inr, arith, Bool, true, false, not, ◌&&◌, Bool-cases,
  Option, none, some, leb→le, Result-cases, lookup, all, leb, List, ◌==◌, nat_eq, string_eq,
  filterb, ltb, String, Dict, ok, ◌>>=◌, All, All-filterb, All-map,
}
use predictive_autoscaler.Journal.Types.{
  IssuanceKey, Issuance, Outcome, CheckpointRow, Journal, Database, StoreSettings, Codec,
  issuance_id_for,
}
use predictive_autoscaler.Journal.Guard.{Env}
use predictive_autoscaler.Journal.Reads.{on_row}
use predictive_autoscaler.Journal.Compact.{
  Item, delete_outcomes, delete_issuance, drop_observations, raise_horizon, outcomes_of, complete,
}
use predictive_autoscaler.Journal.Wellformed.{
  core, delete_issuance-ok, delete_outcomes-ok, Identified, Attached, Wellformed,
  row_to_issuance-ok,
}
use predictive_autoscaler.Journal.Sweeps.{All-map2, All-every, compacted-keeps}
use predictive_autoscaler.Journal.Change.{compact-keeps}
use predictive_autoscaler.Journal.Reads.{
  Checkpoint, latest_checkpoint, outcomes_after, map_rows, row_to_outcome, read_checkpoint,
  last_row,
}
use predictive_autoscaler.Journal.Observe.{recover, replay, starting}
use predictive_autoscaler.Journal.Compact.{
  Removed, compacted, compact, cover_epochs, covered_seq, or_zero,
}
use predictive_autoscaler.Journal.Covered.{
  filterb-filterb_skip, all-filterb, Covers, cover_epochs-Covers, covered-le,
}

-- No other key has the issuance id of this one.
abbrev pub OwnIdentity : {J : Type 0} → Codec J → StoreSettings → IssuanceKey → Type 0
OwnIdentity cx st key =
    (k : IssuanceKey) → issuance_id_for cx st k ≡ issuance_id_for cx st key → k ≡ key

-- The outcomes that a restart replays.
abbrev replayed : String → ℕ → Outcome → Bool
replayed evidence last o = o.evidence_key == evidence && ltb last o.seq

module _ {J F : Type 0} (cx : Codec J) (st : StoreSettings) (evidence : String) (d : Database F)
    (latest : Option (Checkpoint J)) where
  -- No outcome of a removable issuance is replayed.
  abbrev Folded : String → List Outcome → Type 0
  Folded iid os =
      All (λ o. (o.issuance_id == iid) ≡ true → replayed evidence (covered_seq latest) o ≡ false) os

  complete-Folded :
      (covered : Dict String ℕ) (i : Issuance)
      → OwnIdentity cx st i.key
      → Wellformed cx st (core d)
      → All (Covers cx d) covered
      → latest_checkpoint cx evidence d ≡ ok latest
      → i.issuance_id ≡ issuance_id_for cx st i.key
      → complete covered i (outcomes_of i.issuance_id d) ≡ true
      → Folded i.issuance_id d.outcomes
  unfolding complete outcomes_of
  complete-Folded covered i inj w cover at_latest named e =
      let within : all (λ (o : Outcome). leb o.seq (or_zero (lookup i.key.evidence_key covered)))
            (filterb (λ (o : Outcome). o.issuance_id == i.issuance_id) d.outcomes)
          ≡ true =
        ground (arith, e) in
      let bounded =
        all-filterb (λ (o : Outcome). leb o.seq (or_zero (lookup i.key.evidence_key covered)))
          (λ (o : Outcome). o.issuance_id == i.issuance_id) d.outcomes within in
      All-map2 (Attached cx st) _ _
        (λ o (k, id, epoch, window) small hit.
          let whose : o.issuance_id ≡ i.issuance_id =
            (string_eq.same_iff o.issuance_id i.issuance_id).0 hit in
          let same : k ≡ i.key = inj k (sym id ∙ whose ∙ named) in
          let of_i : o.evidence_key ≡ i.key.evidence_key =
            epoch ∙ ap (λ (k : IssuanceKey). k.evidence_key) same in
          elim (Bool-cases (o.evidence_key == evidence)) [
            | inr other ↦ rw other refl
            | inl ours ↦
                let e1 : i.key.evidence_key ≡ evidence =
                  sym of_i ∙ (string_eq.same_iff o.evidence_key evidence).0 ours in
                let le1 = covered-le cx d covered evidence latest cover at_latest in
                let le2 : or_zero (lookup i.key.evidence_key covered) ≤ covered_seq latest =
                  subst (λ ek. or_zero (lookup ek covered) ≤ covered_seq latest) (sym e1) le1 in
                let le3 = leb→le o.seq (or_zero (lookup i.key.evidence_key covered)) (small hit) in
                let past : ltb (covered_seq latest) o.seq ≡ false = ground (arith, le2, le3) in
                rw (ours, past) refl
          ])
        d.outcomes w.1 bounded

  -- The same checkpoints, and the same outcomes to replay.
  abbrev SameReplay : Database F → Type 0
  SameReplay a =
      (a.checkpoints ≡ d.checkpoints)
      × (filterb (replayed evidence (covered_seq latest)) a.outcomes
          ≡ filterb (replayed evidence (covered_seq latest)) d.outcomes)
      × ((iid : String) → Folded iid d.outcomes → Folded iid a.outcomes)

  deleting-SameReplay :
      (iid : String) (d0 d1 d2 : Database F)
      → Folded iid d.outcomes
      → SameReplay d0
      → delete_outcomes iid d0 ≡ ok d1
      → delete_issuance iid d1 ≡ ok d2
      → SameReplay d2
  deleting-SameReplay iid d0 d1 d2 q (cps, outs, folds) e1 e2 =
      let (low1, same1) = delete_outcomes-ok iid d0 d1 e1 in
      let (low2, same2) = delete_issuance-ok iid d1 d2 e2 in
      let keep = λ (o : Outcome). not (o.issuance_id == iid) in
      let skip = filterb-filterb_skip (replayed evidence (covered_seq latest)) keep d0.outcomes (
        All-map
          (λ (o : Outcome).
            (o.issuance_id == iid) ≡ true → replayed evidence (covered_seq latest) o ≡ false)
          (λ (o : Outcome). keep o ≡ false → replayed evidence (covered_seq latest) o ≡ false)
          (λ o h k. h (ground (arith, k))) d0.outcomes (folds iid q)) in
      let p1 : SameReplay d1 =
        subst SameReplay same1
          (cps, skip ∙ outs, λ iid2 f. All-filterb _ keep d0.outcomes (folds iid2 f)) in
      subst SameReplay same2 (p1.0, p1.1, p1.2)

  compacted-SameReplay :
      (horizon : ℕ) (covered : Dict String ℕ) (n : Removed) (after : Database F)
      → All (λ (i : Issuance). OwnIdentity cx st i.key) d.issuances
      → Wellformed cx st (core d)
      → latest_checkpoint cx evidence d ≡ ok latest
      → cover_epochs cx d horizon ≡ ok covered
      → compacted cx st covered horizon d ≡ ok (n, after)
      → SameReplay after
  unfolding raise_horizon outcomes_of drop_observations
  compacted-SameReplay horizon covered n after inj w at_latest e1 e2 =
      let cover = cover_epochs-Covers cx d horizon covered e1 in
      compacted-keeps cx st (λ (it : Item). Folded it.0.issuance_id d.outcomes)
        (λ (row : Issuance). Identified cx st row × OwnIdentity cx st row.key) SameReplay covered
        horizon d
        (λ row i (named, own) read done.
          let (models, same) = row_to_issuance-ok cx row i read in
          let named_i : i.issuance_id ≡ issuance_id_for cx st i.key =
            subst (λ (i : Issuance). i.issuance_id ≡ issuance_id_for cx st i.key) same named.1 in
          complete-Folded covered i (subst (λ (i : Issuance). OwnIdentity cx st i.key) same own) w
            cover at_latest named_i done)
        (λ it d0 d1 d2 q p e3 e4. deleting-SameReplay it.0.issuance_id d0 d1 d2 q p e3 e4)
        (λ r a p. p) (λ a p. p) n after
        (All-filterb (λ (row : Issuance). Identified cx st row × OwnIdentity cx st row.key) _
          d.issuances
          (All-map2 (Identified cx st) (λ (i : Issuance). OwnIdentity cx st i.key) _
            (λ i a b. (a, b)) d.issuances w.0 inj))
        (refl, refl, λ iid f. f) e2

module _ {J : Type 0} where
  starting-covered :
      (initial : J) (latest : Option (Checkpoint J))
      → (starting initial latest).1 ≡ covered_seq latest
  starting-covered initial none = refl
  starting-covered initial (some c) = refl

module _ {J F : Type 0} (cx : Codec J) (st : StoreSettings) where
  compacted-checkpoints :
      (horizon : ℕ) (covered : Dict String ℕ) (n : Removed) (d after : Database F)
      → compacted cx st covered horizon d ≡ ok (n, after)
      → after.checkpoints ≡ d.checkpoints
  unfolding raise_horizon drop_observations
  compacted-checkpoints horizon covered n d after e =
      compacted-keeps cx st (λ it. Unit {0}) (λ row. Unit {0}) (λ a. a.checkpoints ≡ d.checkpoints)
        covered horizon d (λ row i r e3 e4. tt)
        (λ it d0 d1 d2 q p e3 e4.
          let (low1, same1) = delete_outcomes-ok it.0.issuance_id d0 d1 e3 in
          let (low2, same2) = delete_issuance-ok it.0.issuance_id d1 d2 e4 in
          let p1 : d1.checkpoints ≡ d.checkpoints =
            subst (λ a. a.checkpoints ≡ d.checkpoints) same1 p in
          subst (λ a. a.checkpoints ≡ d.checkpoints) same2 p1)
        (λ r a p. p) (λ a p. p) n after (All-every (λ row. Unit {0}) (λ row. tt) _) refl e

  recover-same :
      (evidence : String) (fold : J → Outcome → J) (initial : J) (d a : Database F)
      → a.checkpoints ≡ d.checkpoints
      → ((latest : Option (Checkpoint J))
          → latest_checkpoint cx evidence d ≡ ok latest
          → SameReplay cx st evidence d latest a)
      → recover cx evidence fold initial a ≡ recover cx evidence fold initial d
  unfolding recover latest_checkpoint outcomes_after
  recover-same evidence fold initial d a cps same =
      let at_a : latest_checkpoint cx evidence a ≡ latest_checkpoint cx evidence d =
        ap
          (λ rows.
            on_row (read_checkpoint cx)
              (last_row (filterb (λ (c : CheckpointRow). c.evidence_key == evidence) rows)))
          cps in
      elim (Result-cases (latest_checkpoint cx evidence d)) [
        | inr (x, e) ↦ rw (at_a, e) refl
        | inl (latest, e) ↦
            let start = starting initial latest in
            let outs : filterb (replayed evidence start.1) a.outcomes
                ≡ filterb (replayed evidence start.1) d.outcomes =
              subst
                (λ last.
                  filterb (replayed evidence last) a.outcomes
                  ≡ filterb (replayed evidence last) d.outcomes)
                (sym (starting-covered initial latest)) (same latest e).1 in
            rw (at_a, e)
              (ap
                (λ os. map_rows (row_to_outcome cx) os >>= λ outs.
                  ok (replay fold outs (start.0, start.1, 0)))
                outs)
      ]

  -- However a compaction ends, with whatever failures, a restart before it and one after it find the
  -- same state, from the same outcomes in the same order, for every epoch, fold and initial state. The
  -- journal is well-formed and no key has the issuance id of another
  -- issuance's key.
  pub recover-compact :
      (env : Env) (now_s : ℕ) (j : Journal F) (evidence : String) (fold : J → Outcome → J)
      (initial : J)
      → All (λ (i : Issuance). OwnIdentity cx st i.key) j.db.issuances
      → Wellformed cx st (core j.db)
      → recover cx evidence fold initial (compact cx st env now_s j).1.db
        ≡ recover cx evidence fold initial j.db
  recover-compact env now_s j evidence fold initial inj w =
      compact-keeps cx st
        (λ a. recover cx evidence fold initial a ≡ recover cx evidence fold initial j.db) j.db refl
        (λ horizon covered n after higher e1 e2.
          let kept = compacted-checkpoints horizon covered n j.db after e2 in
          recover-same evidence fold initial j.db after kept (λ latest e3.
            compacted-SameReplay cx st evidence j.db latest horizon covered n after inj w e3 e1 e2))
        env now_s j refl
