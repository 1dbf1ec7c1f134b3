-- ===== src/Journal/Change.antt =====
-- What one call can change in the file: nothing, or one transaction of its method, whose checks passed.
use predictive_autoscaler.Prelude.{
  ℕ, ◌-◌, ◌&&◌, ◌≡◌, refl, sym, subst, inl, inr, ◌<◌, arith, false, Bool-cases, Option, none, some,
  List, ◌==◌, nat_eq, string_eq, ltb, leb, String, Float, Dict, Result, ok, err, ◌>>◌,
}
use predictive_autoscaler.Journal.Types.{
  StoreError, IssuanceKey, Issuance, Outcome, OutcomeStatus, Journal, Database, StoreSettings,
  Codec, issuance_id_for,
}
use predictive_autoscaler.Journal.Guard.{Env, answer, require_healthy}
use predictive_autoscaler.Journal.Reads.{
  get_issuance, on_row, row_to_outcome, outcome_row, Checkpoint,
}
use predictive_autoscaler.Journal.Commit.{
  insert_issuance, new_issuance, issue_row, commit_new, commit_found, issuance_plan,
  checked_issuance, commit_issuance, issued_before, get_or_issue, get_or_commit, new_outcome,
  append_outcome, accepting, outcome_found, outcome_plan, commit_outcome,
}
use predictive_autoscaler.Journal.Observe.{
  ObservationReceipt, record_all, record_observations, append_checkpoint, checkpoint_new,
  checkpoint_after, write_checkpoint,
}
use predictive_autoscaler.Journal.Compact.{Removed, cover_epochs, compacted, compact_to, compact}
use predictive_autoscaler.Journal.Ops.{
  Op, commit_issuance_op, get_or_issue_op, commit_outcome_op, record_observations_op,
  write_checkpoint_op, compact_op, get_issuance_op, outcomes_after_op, latest_checkpoint_op,
  perform,
}
use predictive_autoscaler.Journal.Writes.{
  Writes, Writes-unless_refused, report-keeps, guard-keeps, checked-keeps,
}

module _ {J F : Type 0} ⦃fl : Float F⦄ (cx : Codec J) (st : StoreSettings) where
  pub data Change (d : Database F) : Database F → Type 0 where
    unchanged : Change d d
    issued :
        (now_ms : ℕ) (key : IssuanceKey) (bundle : String) (models : List String)
        {after : Database F}
        → get_issuance cx key d ≡ ok none
        → insert_issuance (new_issuance cx st now_ms key bundle models d) d ≡ ok after
        → Change d after
    resolved :
        (env : Env) (i : Issuance) (iid model : String) (status : OutcomeStatus) (bytes : String)
        → outcome_row iid model d ≡ none
        → accepting cx st env iid model bytes d ≡ ok i
        → Change d (append_outcome (new_outcome cx st env.now_ms i model status bytes d) d)
    observed :
        (series source : String) (samples : List (ℕ × F × ℕ)) (n : ObservationReceipt)
        → Change d (record_all series source samples (n, d)).1
    checkpointed :
        (now_ms : ℕ) (evidence : String) (last : ℕ) (bytes : String)
        → Change d (append_checkpoint cx st now_ms evidence last bytes d)
    retired :
        (horizon : ℕ) (covered : Dict String ℕ) (n : Removed) {after : Database F}
        → d.retention_horizon < horizon
        → cover_epochs cx d horizon ≡ ok covered
        → compacted cx st covered horizon d ≡ ok (n, after)
        → Change d after

-- What follows a check has its value.
after-ok : {A B E : Type 0} (r : Result E A) (k : Result E B) (b : B) → (r >> k) ≡ ok b → k ≡ ok b
after-ok (ok a) k b e = e
after-ok (err x) k b e = cc

module _ {J : Type 0} (cx : Codec J) where
  row-none : (r : Option Outcome) → on_row (row_to_outcome cx) r ≡ ok none → r ≡ none
  unfolding row_to_outcome
  row-none none e = refl
  row-none (some o) e = absurd (ground (arith, e))

module _ {J F : Type 0} (cx : Codec J) (st : StoreSettings) where
  -- What holds before a compaction, and after every transaction of one, holds after it.
  module _ (P : Database F → Type 0) (d : Database F) (same : P d)
      (removes : (horizon : ℕ) (covered : Dict String ℕ) (n : Removed) (after : Database F)
        → d.retention_horizon < horizon
        → cover_epochs cx d horizon ≡ ok covered
        → compacted cx st covered horizon d ≡ ok (n, after)
        → P after) where
    Writes-compact : (horizon : ℕ) → Writes P (compact_to cx st horizon d)
    unfolding compact_to
    Writes-compact horizon = elim (Bool-cases (leb horizon d.retention_horizon)) [
      | inl old ↦ rw old tt
      | inr new ↦ rw new (
          Writes-unless_refused P _ _ (λ covered e1.
            Writes-unless_refused P _ _
              (λ p e2. removes horizon covered p.0 p.1 (ground (arith, new)) e1 e2)))
    ]

    pub compact-keeps :
        (env : Env) (now_s : ℕ) (j : Journal F) → j.db ≡ d → P (compact cx st env now_s j).1.db
    unfolding compact
    compact-keeps env now_s j e = guard-keeps P env.moment _ j (subst P (sym e) same) (
        Writes-unless_refused P _ _ (λ u e1.
          subst (λ a. Writes P (compact_to cx st (now_s - st.retention_seconds) a)) (sym e)
            (Writes-compact (now_s - st.retention_seconds))))

module _ {J F : Type 0} ⦃fl : Float F⦄ (cx : Codec J) (st : StoreSettings) where
  Writes-found :
      (env : Env) (key : IssuanceKey) (bundle : String) (expected : List String) (d : Database F)
      (found : Option Issuance)
      → get_issuance cx key d ≡ ok found
      → Writes (Change cx st d) (commit_found cx st env key bundle expected d found)
  unfolding commit_found commit_new issue_row
  Writes-found env key bundle expected d (some i) e = tt
  Writes-found env key bundle expected d none e =
      Writes-unless_refused (Change cx st d) _ _ (λ u e1.
        Writes-unless_refused (Change cx st d) _ _
          (λ after e2. issued env.now_ms key bundle expected e e2))

  commit_issuance-Change :
      (env : Env) (key : IssuanceKey) (payload : J) (models : List String) (j : Journal F)
      → Change cx st j.db (commit_issuance cx st env key payload models j).1.db
  unfolding commit_issuance issuance_plan
  commit_issuance-Change env key payload models j =
      checked-keeps (Change cx st j.db) env.moment (checked_issuance cx st payload models)
        (λ (p : String × List String). issuance_plan cx st env key p.0 p.1 j) j unchanged
        (λ p c. Writes-unless_refused (Change cx st j.db) _ _ (λ found e.
          Writes-found env key p.0 p.1 j.db found (after-ok (require_healthy j) _ found e)))

  get_or_issue-Change :
      (env : Env) (key : IssuanceKey) (build : String → J) (models : List String) (j : Journal F)
      (before : Result StoreError (Option Issuance))
      → Change cx st j.db (get_or_commit cx st env key build models j before).1.db
  unfolding get_or_commit
  get_or_issue-Change env key build models j (err e) =
      report-keeps (Change cx st j.db) (err e) j unchanged
  get_or_issue-Change env key build models j (ok (some i)) =
      guard-keeps (Change cx st j.db) env.moment (answer (ok (i, false))) j unchanged tt
  get_or_issue-Change env key build models j (ok none) =
      commit_issuance-Change env key (build (issuance_id_for cx st key)) models j

  Writes-outcome :
      (env : Env) (iid model : String) (status : OutcomeStatus) (bytes : String) (d : Database F)
      (found : Option Outcome)
      → on_row (row_to_outcome cx) (outcome_row iid model d) ≡ ok found
      → Writes (Change cx st d) (outcome_found cx st env iid model status bytes d found)
  unfolding outcome_found
  Writes-outcome env iid model status bytes d (some o) e = tt
  Writes-outcome env iid model status bytes d none e =
      Writes-unless_refused (Change cx st d) _ _
        (λ i e1. resolved env i iid model status bytes (row-none cx (outcome_row iid model d) e) e1)

  commit_outcome-Change :
      (env : Env) (iid model : String) (status : OutcomeStatus) (payload : J) (j : Journal F)
      → Change cx st j.db (commit_outcome cx st env iid model status payload j).1.db
  unfolding commit_outcome outcome_plan
  commit_outcome-Change env iid model status payload j =
      checked-keeps (Change cx st j.db) env.moment _
        (λ bytes. outcome_plan cx st env iid model status bytes j) j unchanged
        (λ bytes c. Writes-unless_refused (Change cx st j.db) _ _ (λ found e.
          Writes-outcome env iid model status bytes j.db found
            (after-ok (require_healthy j) _ found e)))

  record_observations-Change :
      (env : Env) (series : String) (samples : List (ℕ × F × ℕ)) (source : String) (j : Journal F)
      → Change cx st j.db (record_observations cx st env series samples source j).1.db
  unfolding record_observations
  record_observations-Change env series samples source j =
      checked-keeps (Change cx st j.db) env.moment _ _ j unchanged (λ u c.
        Writes-unless_refused (Change cx st j.db) _ _ (λ v e.
          observed series source samples (record { new = 0; duplicate = 0; corrected = 0 })))

  Writes-checkpoint :
      (env : Env) (evidence : String) (last : ℕ) (bytes : String) (d : Database F)
      (latest : Option (Checkpoint J))
      → Writes (Change cx st d) (checkpoint_after cx st env evidence last bytes d latest)
  unfolding checkpoint_after checkpoint_new
  Writes-checkpoint env evidence last bytes d none =
      Writes-unless_refused (Change cx st d) _ _
        (λ u e. checkpointed env.now_ms evidence last bytes)
  Writes-checkpoint env evidence last bytes d (some c) =
      elim (Bool-cases (ltb last c.last_outcome_seq)) [
        | inl back ↦ rw back tt
        | inr forward ↦
            elim (Bool-cases (c.last_outcome_seq == last && c.payload_sha256 == cx.sha256 bytes)) [
              | inl again ↦ rw (forward, again) tt
              | inr different ↦
                  rw (forward, different)
                    (Writes-unless_refused (Change cx st d) _ _
                      (λ u e. checkpointed env.now_ms evidence last bytes))
            ]
      ]

  write_checkpoint-Change :
      (env : Env) (evidence : String) (state : J) (last : ℕ) (j : Journal F)
      → Change cx st j.db (write_checkpoint cx st env evidence state last j).1.db
  unfolding write_checkpoint
  write_checkpoint-Change env evidence state last j =
      checked-keeps (Change cx st j.db) env.moment _ _ j unchanged (λ bytes c.
        Writes-unless_refused (Change cx st j.db) _ _
          (λ latest e. Writes-checkpoint env evidence last bytes j.db latest))

  pub perform-Change :
      (env : Env) (op : Op J F) (j : Journal F) → Change cx st j.db (perform cx st env op j).db
  unfolding perform get_or_issue
  perform-Change env (commit_issuance_op key payload models) j =
      commit_issuance-Change env key payload models j
  perform-Change env (get_or_issue_op key build models) j =
      get_or_issue-Change env key build models j (issued_before cx st key models j)
  perform-Change env (commit_outcome_op iid model status payload) j =
      commit_outcome-Change env iid model status payload j
  perform-Change env (record_observations_op series samples source) j =
      record_observations-Change env series samples source j
  perform-Change env (write_checkpoint_op evidence state last) j =
      write_checkpoint-Change env evidence state last j
  perform-Change env (compact_op now_s) j =
      compact-keeps cx st (Change cx st j.db) j.db unchanged
        (λ horizon covered n after h e1 e2. retired horizon covered n h e1 e2) env now_s j refl
  perform-Change env (get_issuance_op key) j =
      guard-keeps (Change cx st j.db) env.moment _ j unchanged tt
  perform-Change env (outcomes_after_op evidence after_seq) j =
      guard-keeps (Change cx st j.db) env.moment _ j unchanged tt
  perform-Change env (latest_checkpoint_op evidence) j =
      guard-keeps (Change cx st j.db) env.moment _ j unchanged tt
