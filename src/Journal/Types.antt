-- ===== src/Journal/Types.antt =====
-- The rows and the state of the journal (store.py: the schema, the exceptions, IssuanceKey, Issuance,
-- Outcome, Checkpoint). Bytes are texts; their JSON form, size and digest are the interface Codec.
use predictive_autoscaler.Prelude.{
  ℕ, String, Bool, true, false, not, ◌&&◌, ◌||◌, Option, none, some, List, [], Dict, ltb, leb, ◌==◌,
  nat_eq, if◌then◌else◌, Result, ok, err, raise_if, ◌>>◌,
}

-- The exceptions; the last three are StoreUnavailable and its subclasses.
pub data StoreError : Type 0 where
  bad_input integrity_conflict retired_key refused_by_journal : StoreError
  store_unavailable store_full store_corrupt : StoreError

-- `isinstance(e, StoreUnavailable)`
unfoldable pub is_unavailable : StoreError → Bool
is_unavailable store_unavailable = true
is_unavailable store_full = true
is_unavailable store_corrupt = true
is_unavailable _ = false

pub record IssuanceKey : Type 0 where
  pub evidence_key : String
  pub decision_origin : ℕ
  pub window_start : ℕ
  pub window_end : ℕ
  pub settings_sha256 : String

pub record Issuance : Type 0 where
  pub seq : ℕ
  pub issuance_id : String
  pub key_sha256 : String
  pub key : IssuanceKey
  pub bundle : String
  pub bundle_sha256 : String
  pub models : List String
  pub committed_at_ms : ℕ

pub data OutcomeStatus : Type 0 where
  scored unscorable : OutcomeStatus

pub record Outcome : Type 0 where
  pub seq : ℕ
  pub issuance_id : String
  pub evidence_key : String
  pub window_end : ℕ
  pub model : String
  pub status : OutcomeStatus
  pub payload : String
  pub payload_sha256 : String
  pub committed_at_ms : ℕ

pub record CheckpointRow : Type 0 where
  pub seq : ℕ
  pub evidence_key : String
  pub last_outcome_seq : ℕ
  pub schema_version : ℕ
  pub payload : String
  pub payload_sha256 : String
  pub created_at_ms : ℕ

-- One row of the observations or of their corrections.
pub record Receipt (F : Type 0) : Type 0 where
  pub series : String
  pub event_time : ℕ
  pub value : F
  pub received_ms : ℕ
  pub source_sha256 : String

pub record Retained : Type 0 where
  pub through_window_end : ℕ
  pub issued : ℕ
  pub scored_count : ℕ
  pub unscorable_count : ℕ
  pub digest : String

-- The file: its tables, the last row number each AUTOINCREMENT table has used, and the horizon.
pub record Database (F : Type 0) : Type 0 where
  pub issuances : List Issuance
  pub last_issuance : ℕ
  pub outcomes : List Outcome
  pub last_outcome : ℕ
  pub observations : List (Receipt F)
  pub corrections : List (Receipt F)
  pub checkpoints : List CheckpointRow
  pub last_checkpoint : ℕ
  pub retention : Dict String Retained
  pub retention_horizon : ℕ

abbrev pub schema_version : ℕ
schema_version = 1

unfoldable pub fresh_database : {F : Type 0} → Database F
fresh_database = record {
  issuances = [];
  last_issuance = 0;
  outcomes = [];
  last_outcome = 0;
  observations = [];
  corrections = [];
  checkpoints = [];
  last_checkpoint = 0;
  retention = [];
  retention_horizon = 0;
}

-- The store object: the file and the first failure, after which it stays unhealthy.
pub record Journal (F : Type 0) : Type 0 where
  pub problem : Option StoreError
  pub db : Database F

-- The attributes that the constructor fixes.
pub record StoreSettings : Type 0 where
  pub store_id : String
  pub quota_bytes : ℕ
  pub retention_seconds : ℕ
  pub obs_extra : ℕ
  pub max_bundle_bytes : ℕ

abbrev pub max_models : ℕ
max_models = 3

abbrev pub max_outcome_bytes : ℕ
max_outcome_bytes = 4096

abbrev pub max_checkpoint_bytes : ℕ
max_checkpoint_bytes = 1048576

abbrev pub checkpoints_kept : ℕ
checkpoints_kept = 3

-- What json, hashlib and re compute. `encode` is none where canonical_json raises; `key_json` and
-- `digest_json` are the canonical JSON of a key and of a link of the retention's digest chain; `id_of`
-- is "iss-" and 32 hex digits of the digest of the store's identity and the key's digest.
pub record Codec (J : Type 0) : Type 0 where
  pub encode : J → Option String
  pub decode : String → J
  pub size : String → ℕ
  pub sha256 : String → String
  pub key_json : IssuanceKey → String
  pub digest_json : String → Issuance → List String → String
  pub id_of : String → String → String
  pub is_sha256 : String → Bool
  pub is_model : String → Bool
  pub name_le : String → String → Bool
  pub zero_digest : String

module _ {J : Type 0} (cx : Codec J) where
  -- `IssuanceKey.__post_init__`: the checks of the types are not modelled.
  unfoldable pub new_key : String → ℕ → ℕ → ℕ → String → Result StoreError IssuanceKey
  new_key evidence decision_origin start window_end settings = do
    raise_if (not (cx.is_sha256 evidence && cx.is_sha256 settings)) bad_input
    raise_if (not (start == decision_origin) || leb window_end start) bad_input
    ok (record {
      evidence_key = evidence;
      decision_origin = decision_origin;
      window_start = start;
      window_end = window_end;
      settings_sha256 = settings;
    })

  -- `IssuanceKey.sha256`
  unfoldable pub key_sha : IssuanceKey → String
  key_sha k = cx.sha256 (cx.key_json k)

  unfoldable pub issuance_id_for : StoreSettings → IssuanceKey → String
  unfolding key_sha
  issuance_id_for st k = cx.id_of st.store_id (key_sha k)

  -- `ForecastStore._encode`: the object's bytes, at most `cap` of them.
  unfoldable pub within : ℕ → Option String → Result StoreError String
  within cap none = err bad_input
  within cap (some bytes) = if ltb cap (cx.size bytes) then err bad_input else ok bytes

  unfoldable pub encode_bounded : J → ℕ → Result StoreError String
  encode_bounded payload cap = within cap (cx.encode payload)
