-- ===== src/Journal/Commit.antt =====
-- Committing issuances and outcomes (store.py: commit_issuance, get_or_issue, _refuse_retired, _same,
-- commit_outcome, with the constraints and the triggers of the two tables).
use predictive_autoscaler.Prelude.{
  ℕ, ◌+◌, ◌*◌, Bool, true, false, not, ◌&&◌, ◌||◌, Option, none, some, List, [], ◌∷◌, ◌++◌, String,
  any, ltb, ◌==◌, nat_eq, string_eq, if◌then◌else◌, Result, ok, err, raise_if, ◌>>=◌, ◌>>◌,
}
use predictive_autoscaler.Journal.Types.{
  StoreError, bad_input, integrity_conflict, retired_key, refused_by_journal, IssuanceKey, Issuance,
  Outcome, OutcomeStatus, scored, unscorable, Database, Journal, StoreSettings, Codec, key_sha,
  issuance_id_for, encode_bounded, max_outcome_bytes,
}
use predictive_autoscaler.Journal.Guard.{
  Env, Plan, answer, write, guard, checked, report, require_healthy, check_quota,
}
use predictive_autoscaler.Journal.Reads.{
  models_of, get_issuance, get_issuance_by_id, outcome_row, row_to_outcome, on_row,
}

-- The reading of a row that must be there.
unfoldable pub present : {A : Type 0} → Result StoreError (Option A) → Result StoreError A
present (ok (some a)) = ok a
present (ok none) = err refused_by_journal
present (err e) = err e

abbrev pub with_flag : {A : Type 0} → Bool → Result StoreError A → Result StoreError (A × Bool)
with_flag created r = do a ← r; ok (a, created)

unfoldable pub same_names : List String → List String → Bool
same_names [] [] = true
same_names (x ∷ xs) (y ∷ ys) = x == y && same_names xs ys
same_names _ _ = false

unfoldable pub status_beq : OutcomeStatus → OutcomeStatus → Bool
status_beq scored scored = true
status_beq unscorable unscorable = true
status_beq _ _ = false

-- `_same`
unfoldable pub same_issuance : Issuance → String → List String → Result StoreError Issuance
same_issuance existing bundle models =
    if not (existing.bundle == bundle) || not (same_names existing.models models)
    then err integrity_conflict
    else ok existing

-- get_or_issue answers the committed issuance for the same model set only.
unfoldable pub same_models : Issuance → List String → Result StoreError (Option Issuance)
same_models existing models =
    if not (same_names existing.models models) then err integrity_conflict else ok (some existing)

-- A plan that goes on when its checks have passed.
unfoldable pub unless_refused : {F A B : Type 0} → Result StoreError A → (A → Plan F B) → Plan F B
unless_refused (ok a) f = f a
unless_refused (err e) f = answer (err e)

module _ {F : Type 0} where
  unfoldable pub refuse_retired : IssuanceKey → Database F → Result StoreError (Unit {0})
  refuse_retired key db = raise_if (ltb key.window_end db.retention_horizon) retired_key

  unfoldable pub append_issuance : Issuance → Database F → Database F
  append_issuance row db = record db {
    issuances = db.issuances ++ row ∷ [];
    last_issuance = row.seq;
  }

  -- INSERT INTO issuances: the unique columns and the trigger issuances_not_retired.
  unfoldable pub insert_issuance : Issuance → Database F → Result StoreError (Database F)
  insert_issuance row db =
      if any (λ i. i.issuance_id == row.issuance_id || i.key_sha256 == row.key_sha256) db.issuances
        || ltb row.key.window_end db.retention_horizon
      then err refused_by_journal
      else ok (append_issuance row db)

  unfoldable pub append_outcome : Outcome → Database F → Database F
  append_outcome row db = record db { outcomes = db.outcomes ++ row ∷ []; last_outcome = row.seq }

module _ {J : Type 0} (cx : Codec J) (st : StoreSettings) where
  -- The arguments' checks, then the guarded block.
  unfoldable pub checked_issuance : J → List String → Result StoreError (String × List String)
  checked_issuance payload models = do
    bundle ← encode_bounded cx payload st.max_bundle_bytes
    expected ← models_of cx models
    ok (bundle, expected)

module _ {J : Type 0} (cx : Codec J) (st : StoreSettings) where
  -- The issuance that an outcome may be committed for.
  unfoldable pub accept : Env → String → String → Option Issuance → Result StoreError Issuance
  accept env model bytes none = err bad_input
  accept env model bytes (some i) = do
    raise_if (not (any (λ m. m == model) i.models)) bad_input
    check_quota st env (cx.size bytes)
    raise_if (ltb env.now_ms (i.key.window_end * 1000)) bad_input
    ok i

module _ {J F : Type 0} (cx : Codec J) (st : StoreSettings) where
  unfoldable pub new_issuance : ℕ → IssuanceKey → String → List String → Database F → Issuance
  new_issuance now_ms key bundle models db = record {
    seq = db.last_issuance + 1;
    issuance_id = issuance_id_for cx st key;
    key_sha256 = key_sha cx key;
    key = key;
    bundle = bundle;
    bundle_sha256 = cx.sha256 bundle;
    models = models;
    committed_at_ms = now_ms;
  }

  -- The transaction, and the record read back.
  unfoldable pub issue_row :
      Env → IssuanceKey → String → List String → Database F → Plan F (Issuance × Bool)
  issue_row env key bundle models db =
      unless_refused (insert_issuance (new_issuance env.now_ms key bundle models db) db)
        (λ after. write (with_flag true (present (get_issuance cx key after))) after)

  unfoldable pub commit_new :
      Env → IssuanceKey → String → List String → Database F → Plan F (Issuance × Bool)
  commit_new env key bundle models db =
      unless_refused (refuse_retired key db >> check_quota st env (cx.size bundle))
        (λ u. issue_row env key bundle models db)

  unfoldable pub commit_found :
      Env
      → IssuanceKey
      → String
      → List String
      → Database F
      → Option Issuance
      → Plan F (Issuance × Bool)
  commit_found env key bundle models db (some existing) =
      answer (with_flag false (same_issuance existing bundle models))
  commit_found env key bundle models db none = commit_new env key bundle models db

  unfoldable pub issuance_plan :
      Env → IssuanceKey → String → List String → Journal F → Plan F (Issuance × Bool)
  issuance_plan env key bundle models j =
      unless_refused (require_healthy j >> get_issuance cx key j.db)
        (λ found. commit_found env key bundle models j.db found)

  unfoldable pub commit_issuance :
      Env
      → IssuanceKey
      → J
      → List String
      → Journal F
      → Result StoreError (Issuance × Bool) × Journal F
  commit_issuance env key payload models j =
      checked env.moment (checked_issuance cx st payload models)
        (λ (p : String × List String). issuance_plan env key p.0 p.1 j) j

  -- The part of get_or_issue before the commit: a committed issuance, or none.
  unfoldable pub issued_before :
      IssuanceKey → List String → Journal F → Result StoreError (Option Issuance)
  issued_before key models j = do
    require_healthy j
    found ← get_issuance cx key j.db
    elim found [
      | none ↦ do refuse_retired key j.db; ok none
      | some existing ↦ do expected ← models_of cx models; same_models existing expected
    ]

  -- The committed issuance is answered, and none is built before a key is found free.
  unfoldable pub get_or_commit :
      Env
      → IssuanceKey
      → (String → J)
      → List String
      → Journal F
      → Result StoreError (Option Issuance)
      → Result StoreError (Issuance × Bool) × Journal F
  get_or_commit env key build models j (err e) = report (err e) j
  get_or_commit env key build models j (ok (some existing)) =
      guard env.moment (answer (ok (existing, false))) j
  get_or_commit env key build models j (ok none) =
      commit_issuance env key (build (issuance_id_for cx st key)) models j

  unfoldable pub get_or_issue :
      Env
      → IssuanceKey
      → (String → J)
      → List String
      → Journal F
      → Result StoreError (Issuance × Bool) × Journal F
  get_or_issue env key build models j =
      get_or_commit env key build models j (issued_before key models j)

  unfoldable pub new_outcome : ℕ → Issuance → String → OutcomeStatus → String → Database F → Outcome
  new_outcome now_ms i model status bytes db = record {
    seq = db.last_outcome + 1;
    issuance_id = i.issuance_id;
    evidence_key = i.key.evidence_key;
    window_end = i.key.window_end;
    model = model;
    status = status;
    payload = bytes;
    payload_sha256 = cx.sha256 bytes;
    committed_at_ms = now_ms;
  }

  unfoldable pub accepting :
      Env → String → String → String → Database F → Result StoreError Issuance
  accepting env iid model bytes db = do
    found ← get_issuance_by_id cx iid db
    accept cx st env model bytes found

  -- The outcome is read back as the row that was inserted.
  unfoldable pub outcome_found :
      Env
      → String
      → String
      → OutcomeStatus
      → String
      → Database F
      → Option Outcome
      → Plan F (Outcome × Bool)
  outcome_found env iid model status bytes db (some o) = answer (
      if not (status_beq o.status status) || not (o.payload == bytes)
      then err integrity_conflict
      else ok (o, false))
  outcome_found env iid model status bytes db none =
      unless_refused (accepting env iid model bytes db) (λ i.
        let after = append_outcome (new_outcome env.now_ms i model status bytes db) db in
        write (with_flag true (present (on_row (row_to_outcome cx) (outcome_row iid model after))))
          after)

  unfoldable pub outcome_plan :
      Env → String → String → OutcomeStatus → String → Journal F → Plan F (Outcome × Bool)
  outcome_plan env iid model status bytes j =
      unless_refused (require_healthy j >> on_row (row_to_outcome cx) (outcome_row iid model j.db))
        (λ found. outcome_found env iid model status bytes j.db found)

  unfoldable pub commit_outcome :
      Env
      → String
      → String
      → OutcomeStatus
      → J
      → Journal F
      → Result StoreError (Outcome × Bool) × Journal F
  commit_outcome env iid model status payload j =
      checked env.moment
        (raise_if (model == "") bad_input >> encode_bounded cx payload max_outcome_bytes)
        (λ bytes. outcome_plan env iid model status bytes j) j
