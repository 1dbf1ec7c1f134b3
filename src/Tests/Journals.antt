-- ===== src/Tests/Journals.antt =====
-- A journal with one issuance of one model. The bytes of an object are the object; the digest of a text
-- is the text, and only the key of this issuance has its digest.
use predictive_autoscaler.Prelude.{
  ℕ, ◌≡◌, ◌⊎◌, refl, inl, inr, arith, Bool, true, false, not, ◌&&◌, ◌||◌, none, some, List, [], ◌∷◌,
  ◌==◌, nat_eq, string_eq, String, if◌then◌else◌, Bool-cases, ok, err,
}
use predictive_autoscaler.Journal.Types.{
  store_corrupt, is_unavailable, retired_key, IssuanceKey, Issuance, Outcome, scored, unscorable,
  Journal, Database, StoreSettings, Codec, fresh_database, key_sha, issuance_id_for,
  integrity_conflict,
}
use predictive_autoscaler.Journal.Guard.{
  Env, smooth, at_commit, database_error, error_of, require_healthy,
}
use predictive_autoscaler.Journal.Ops.{
  Op, commit_issuance_op, commit_outcome_op, compact_op, run, perform,
}
use predictive_autoscaler.Journal.Commit.{commit_issuance, commit_outcome}
use predictive_autoscaler.Journal.Standing.{CollisionFree, Evolves, standing, run-Evolves}
use predictive_autoscaler.Journal.Types.{encode_bounded, within, CheckpointRow, max_outcome_bytes}
use predictive_autoscaler.Journal.Guard.{checked, guard, check_quota, commit_at, report}
use predictive_autoscaler.Journal.Reads.{
  Checkpoint, models_of, distinct, get_issuance, get_issuance_by_id, issuance_row, outcome_row,
  find, row_to_issuance, row_to_outcome, latest_checkpoint, read_checkpoint, last_row,
  outcomes_after, map_rows,
}
use predictive_autoscaler.Journal.Commit.{
  checked_issuance, issuance_plan, unless_refused, commit_found, commit_new, refuse_retired,
  append_issuance, insert_issuance, issue_row, new_issuance, present, outcome_plan, outcome_found,
  accepting, accept, append_outcome, new_outcome, status_beq,
}
use predictive_autoscaler.Journal.Observe.{
  write_checkpoint, checkpoint_after, checkpoint_new, append_checkpoint, keep_latest, recover,
  replay,
}
use predictive_autoscaler.Journal.Compact.{compact}
use predictive_autoscaler.Journal.Failed.{Recorded, raised, perform_failed}
use predictive_autoscaler.Journal.Crash.{failing_at, reopened, commit-reopened}
use predictive_autoscaler.Journal.Guard.{after_commit}
use predictive_autoscaler.Journal.Recovery.{recover-compact}
use predictive_autoscaler.Journal.Forever.{commit-again}
use predictive_autoscaler.Journal.Restart.{recover-write_checkpoint}
use predictive_autoscaler.Journal.Permanent.{Keeps, run-Keeps}
use predictive_autoscaler.Journal.Once.{commit_outcome-again}
use predictive_autoscaler.Prelude.{insert_sorted, sort_by}
use predictive_autoscaler.Tests.Numbers.{nat_float}

abbrev key_beq : IssuanceKey → IssuanceKey → Bool
key_beq k l =
    k.evidence_key == l.evidence_key
    && k.decision_origin == l.decision_origin
    && k.window_start == l.window_start
    && k.window_end == l.window_end
    && k.settings_sha256 == l.settings_sha256

key_beq-same : (k l : IssuanceKey) → key_beq k l ≡ true → k ≡ l
key_beq-same k l e = ground (
  arith,
  string_eq.same_iff k.evidence_key l.evidence_key,
  nat_eq.same_iff k.decision_origin l.decision_origin,
  nat_eq.same_iff k.window_start l.window_start,
  nat_eq.same_iff k.window_end l.window_end,
  string_eq.same_iff k.settings_sha256 l.settings_sha256,
  e,
)

abbrev first_key : IssuanceKey
first_key = record {
  evidence_key = "epoch";
  decision_origin = 60;
  window_start = 60;
  window_end = 120;
  settings_sha256 = "settings";
}

abbrev plain : Codec String
plain = record {
  encode = λ s. some s;
  decode = λ s. s;
  size = λ s. 1;
  sha256 = λ s. s;
  key_json = λ k. if key_beq k first_key then "first" else "other";
  digest_json = λ d i ps. d;
  id_of = λ s k. k;
  is_sha256 = λ s. true;
  is_model = λ s. true;
  name_le = λ a b. true;
  zero_digest = "zero";
}

abbrev small : StoreSettings
small = record {
  store_id = "store";
  quota_bytes = 1000;
  retention_seconds = 10;
  obs_extra = 10;
  max_bundle_bytes = 100;
}

abbrev calm : Env
calm = record { now_ms = 200000; usage_bytes = 0; moment = smooth }

-- The empty file, as fresh_database makes it.
abbrev empty_file : Database ℕ
empty_file = record {
  issuances = [];
  last_issuance = 0;
  outcomes = [];
  last_outcome = 0;
  observations = [];
  corrections = [];
  checkpoints = [];
  last_checkpoint = 0;
  retention = [];
  retention_horizon = 0;
}

empty_file_fresh : fresh_database ≡ empty_file
unfolding fresh_database
empty_file_fresh = refl

abbrev empty_journal : Journal ℕ
empty_journal = record { problem = none; db = empty_file }

abbrev first_issuance : Issuance
first_issuance = record {
  seq = 1;
  issuance_id = "first";
  key_sha256 = "first";
  key = first_key;
  bundle = "bundle";
  bundle_sha256 = "bundle";
  models = "naive" ∷ [];
  committed_at_ms = 200000;
}

abbrev issued_journal : Journal ℕ
issued_journal = record {
  problem = none;
  db = record empty_file { issuances = first_issuance ∷ []; last_issuance = 1 };
}

abbrev first_outcome : Outcome
first_outcome = record {
  seq = 1;
  issuance_id = "first";
  evidence_key = "epoch";
  window_end = 120;
  model = "naive";
  status = scored;
  payload = "outcome";
  payload_sha256 = "outcome";
  committed_at_ms = 200000;
}

abbrev settled_journal : Journal ℕ
settled_journal = record {
  problem = none;
  db = record issued_journal.db { outcomes = first_outcome ∷ []; last_outcome = 1 };
}

abbrev first_checkpoint : CheckpointRow
first_checkpoint = record {
  seq = 1;
  evidence_key = "epoch";
  last_outcome_seq = 1;
  schema_version = 1;
  payload = "state";
  payload_sha256 = "state";
  created_at_ms = 200000;
}

abbrev checkpointed_journal : Journal ℕ
checkpointed_journal = record {
  problem = none;
  db = record settled_journal.db { checkpoints = first_checkpoint ∷ []; last_checkpoint = 1 };
}

abbrev checkpoint_read : Checkpoint String
checkpoint_read = record {
  seq = 1;
  last_outcome_seq = 1;
  state = "state";
  payload_sha256 = "state";
}

first-CollisionFree : CollisionFree plain first_key
unfolding key_sha
first-CollisionFree k e = elim (Bool-cases (key_beq k first_key)) [
  | inl same ↦ key_beq-same k first_key same
  | inr other ↦
      let hit : string_eq.same "other" "first" ≡ true =
        (string_eq.same_iff "other" "first").1 (rw other at e) in
      absurd (ground (arith, hit))
]

run-Evolves_example : Evolves first_key (standing plain first_key empty_journal.db) (
    standing plain first_key
      (run plain small
        ((calm, commit_issuance_op first_key "bundle" ("naive" ∷ []))
          ∷ (calm, compact_op 1000)
          ∷ [])
        empty_journal).db)
run-Evolves_example =
    run-Evolves plain small
      ((calm, commit_issuance_op first_key "bundle" ("naive" ∷ [])) ∷ (calm, compact_op 1000) ∷ [])
      empty_journal first_key first-CollisionFree (tt, tt)

first_issued :
    commit_issuance plain small calm first_key "bundle" ("naive" ∷ []) empty_journal
    ≡ (ok (first_issuance, true), issued_journal)
unfolding commit_issuance checked checked_issuance encode_bounded within models_of distinct guard
    issuance_plan unless_refused require_healthy get_issuance issuance_row find commit_found
    commit_new refuse_retired check_quota append_issuance insert_issuance issue_row new_issuance
    present commit_at report row_to_issuance issuance_id_for key_sha insert_sorted sort_by
first_issued = refl

first_settled :
    commit_outcome plain small calm "first" "naive" scored "outcome" issued_journal
    ≡ (ok (first_outcome, true), settled_journal)
unfolding commit_outcome checked encode_bounded within guard outcome_plan unless_refused
    require_healthy outcome_row find outcome_found check_quota accepting accept get_issuance_by_id
    row_to_issuance row_to_outcome models_of distinct append_outcome new_outcome present commit_at
    report insert_sorted sort_by
first_settled = refl

first_checkpointed :
    write_checkpoint plain small calm "epoch" "state" 1 settled_journal
    ≡ (ok checkpoint_read, checkpointed_journal)
unfolding write_checkpoint checked encode_bounded within guard unless_refused require_healthy
    latest_checkpoint read_checkpoint last_row checkpoint_after checkpoint_new check_quota
    append_checkpoint keep_latest present commit_at report
first_checkpointed = refl

abbrev settling : List (Env × Op String ℕ)
settling = (calm, commit_outcome_op "first" "naive" scored "outcome") ∷ []

settling_healthy : require_healthy (run plain small settling issued_journal) ≡ ok tt
unfolding run perform commit_outcome checked encode_bounded within guard outcome_plan unless_refused
    require_healthy outcome_row find outcome_found check_quota accepting accept get_issuance_by_id
    row_to_issuance row_to_outcome models_of distinct append_outcome new_outcome present commit_at
    report insert_sorted sort_by
settling_healthy = refl

none_fits : encode_bounded plain "none" max_outcome_bytes ≡ ok "none"
unfolding encode_bounded within
none_fits = refl

nothing_later : outcomes_after plain "epoch" 1 checkpointed_journal.db ≡ ok []
unfolding outcomes_after map_rows
nothing_later = refl

commit-again_example :
    (commit_issuance plain small calm first_key "bundle"
        ("naive" ∷ [])
        (run plain small settling issued_journal)
      ≡ (ok (first_issuance, false), run plain small settling issued_journal))
    ⊎ ((get_issuance plain first_key (run plain small settling issued_journal).db ≡ ok none)
        × (refuse_retired first_key (run plain small settling issued_journal).db ≡ err retired_key))
commit-again_example =
    commit-again plain small calm first_key "bundle" ("naive" ∷ []) empty_journal issued_journal
      first_issuance true settling calm first-CollisionFree (λ a b e. refl, λ a b c e f. refl)
      (tt, tt) first_issued settling_healthy refl

commit_outcome-again_example :
    commit_outcome plain small calm "first" "naive" unscorable "none" settled_journal ≡ (
      if not (status_beq scored unscorable) || not (first_outcome.payload == "none")
          then err integrity_conflict
          else ok (first_outcome, false),
      settled_journal,
    )
commit_outcome-again_example =
    commit_outcome-again plain small calm "first" "naive" scored "outcome" issued_journal
      settled_journal first_outcome true calm unscorable "none" "none" first_settled none_fits refl

recover-compact_example :
    recover plain "epoch"
      (λ s o. o.payload)
      "initial"
      (compact plain small calm 1000 checkpointed_journal).1.db
    ≡ recover plain "epoch" (λ s o. o.payload) "initial" checkpointed_journal.db
unfolding key_sha issuance_id_for
recover-compact_example =
    recover-compact plain small calm 1000 checkpointed_journal "epoch" (λ s o. o.payload) "initial"
      (first-CollisionFree, tt) (((refl, refl), tt), ((first_key, refl, refl, refl), tt))

recover-write_checkpoint_example :
    recover plain "epoch" (λ s o. o.payload) "initial" checkpointed_journal.db
    ≡ ok (replay (λ s o. o.payload) [] ("state", 1, 0))
recover-write_checkpoint_example =
    recover-write_checkpoint plain small "epoch" calm "state" 1 settled_journal checkpointed_journal
      checkpoint_read (λ s o. o.payload) "initial" [] (λ a b e. e) (λ s bytes e. ground (arith, e))
      first_checkpointed nothing_later

run-Keeps_example :
    Keeps small checkpointed_journal.db
      (run plain small ((calm, compact_op 1000) ∷ []) checkpointed_journal).db
run-Keeps_example = run-Keeps plain small ((calm, compact_op 1000) ∷ []) checkpointed_journal

abbrev failing : Env
failing = record calm { moment = at_commit database_error }

-- The disk fails at the commit of the outcome.
outcome_raised :
    raised plain small failing (commit_outcome_op "first" "naive" scored "outcome") issued_journal
    ≡ some store_corrupt
unfolding raised commit_outcome checked encode_bounded within guard outcome_plan unless_refused
    require_healthy outcome_row find outcome_found check_quota accepting accept get_issuance_by_id
    row_to_issuance row_to_outcome models_of distinct append_outcome new_outcome present commit_at
    report insert_sorted sort_by error_of
outcome_raised = refl

corrupt_unavailable : is_unavailable store_corrupt ≡ true
unfolding is_unavailable
corrupt_unavailable = refl

abbrev corrupted : Journal ℕ
corrupted =
    perform plain small failing (commit_outcome_op "first" "naive" scored "outcome") issued_journal

perform_failed_example :
    Recorded store_corrupt none corrupted.problem × (run plain small settling corrupted ≡ corrupted)
perform_failed_example =
    perform_failed plain small failing (commit_outcome_op "first" "naive" scored "outcome")
      store_corrupt issued_journal settling outcome_raised corrupt_unavailable

commit-reopened_example :
    (d : Bool) × (commit_issuance plain small
        (failing_at smooth calm)
        first_key
        "bundle"
        ("naive" ∷ [])
        (reopened
          (commit_issuance plain small
            (failing_at (after_commit database_error) calm)
            first_key
            "bundle"
            ("naive" ∷ [])
            empty_journal).1.db)
      ≡ (ok (first_issuance, d), issued_journal))
commit-reopened_example =
    commit-reopened plain small (after_commit database_error) calm first_key "bundle" ("naive" ∷ [])
      empty_journal issued_journal first_issuance true (λ a b e. refl, λ a b c e f. refl)
      first_issued
