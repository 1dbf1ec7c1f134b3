-- ===== src/Journal/Ops.antt =====
-- A journal in use: any sequence of calls of the store's public methods, each with its own clock,
-- space in use and failure.
use predictive_autoscaler.Prelude.{ℕ, List, [], ◌∷◌, String, Float}
use predictive_autoscaler.Journal.Types.{IssuanceKey, OutcomeStatus, Journal, StoreSettings, Codec}
use predictive_autoscaler.Journal.Guard.{Env, answer, guard}
use predictive_autoscaler.Journal.Reads.{get_issuance, outcomes_after, latest_checkpoint}
use predictive_autoscaler.Journal.Commit.{commit_issuance, get_or_issue, commit_outcome}
use predictive_autoscaler.Journal.Observe.{record_observations, write_checkpoint}
use predictive_autoscaler.Journal.Compact.{compact}

-- The calls; the last three are reads, which can only find the journal corrupt.
pub data Op (J F : Type 0) : Type 0 where
  commit_issuance_op : IssuanceKey → J → List String → Op J F
  get_or_issue_op : IssuanceKey → (String → J) → List String → Op J F
  commit_outcome_op : String → String → OutcomeStatus → J → Op J F
  record_observations_op : String → List (ℕ × F × ℕ) → String → Op J F
  write_checkpoint_op : String → J → ℕ → Op J F
  compact_op : ℕ → Op J F
  get_issuance_op : IssuanceKey → Op J F
  outcomes_after_op : String → ℕ → Op J F
  latest_checkpoint_op : String → Op J F

module _ {J F : Type 0} ⦃fl : Float F⦄ (cx : Codec J) (st : StoreSettings) where
  unfoldable pub perform : Env → Op J F → Journal F → Journal F
  perform env (commit_issuance_op key payload models) j =
      (commit_issuance cx st env key payload models j).1
  perform env (get_or_issue_op key build models) j = (get_or_issue cx st env key build models j).1
  perform env (commit_outcome_op iid model status payload) j =
      (commit_outcome cx st env iid model status payload j).1
  perform env (record_observations_op series samples source) j =
      (record_observations cx st env series samples source j).1
  perform env (write_checkpoint_op evidence state last) j =
      (write_checkpoint cx st env evidence state last j).1
  perform env (compact_op now_s) j = (compact cx st env now_s j).1
  perform env (get_issuance_op key) j = (guard env.moment (answer (get_issuance cx key j.db)) j).1
  perform env (outcomes_after_op evidence after_seq) j =
      (guard env.moment (answer (outcomes_after cx evidence after_seq j.db)) j).1
  perform env (latest_checkpoint_op evidence) j =
      (guard env.moment (answer (latest_checkpoint cx evidence j.db)) j).1

  unfoldable pub run : List (Env × Op J F) → Journal F → Journal F
  run [] j = j
  run ((env, op) ∷ ops) j = run ops (perform env op j)
