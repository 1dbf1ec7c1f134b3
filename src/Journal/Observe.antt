-- ===== src/Journal/Observe.antt =====
-- Observations and checkpoints (store.py: record_observations, observations, corrections,
-- write_checkpoint, recover).
use predictive_autoscaler.Prelude.{
  ℕ, ◌+◌, ◌*◌, Bool, not, ◌&&◌, ◌||◌, Option, none, some, List, [], ◌∷◌, ◌++◌, String, length,
  filterb, any, map, last_n, ltb, leb, ◌==◌, nat_eq, string_eq, if◌then◌else◌, sort_by, Float, ◌≤?◌,
  Result, ok, err, raise_if, ◌>>=◌, ◌>>◌,
}
use predictive_autoscaler.Journal.Types.{
  StoreError, bad_input, Outcome, CheckpointRow, Receipt, Database, Journal, StoreSettings, Codec,
  encode_bounded, schema_version, max_checkpoint_bytes, checkpoints_kept,
}
use predictive_autoscaler.Journal.Guard.{
  Env, Plan, answer, write, checked, require_healthy, check_quota,
}
use predictive_autoscaler.Journal.Reads.{Checkpoint, find, latest_checkpoint, outcomes_after}
use predictive_autoscaler.Journal.Commit.{present, unless_refused}

pub record ObservationReceipt : Type 0 where
  pub new : ℕ
  pub duplicate : ℕ
  pub corrected : ℕ

module _ {F : Type 0} ⦃fl : Float F⦄ where
  abbrev pub same_value : F → F → Bool
  same_value a b = (a ≤? b) && (b ≤? a)

  unfoldable pub observation_row : String → ℕ → Database F → Option (Receipt F)
  observation_row series event_time db =
      find (λ (r : Receipt F). r.series == series && r.event_time == event_time) db.observations

  -- A sample is new, the same again, or a correction of what was received first.
  unfoldable pub receive :
      Receipt F
      → Option (Receipt F)
      → ObservationReceipt × Database F
      → ObservationReceipt × Database F
  receive row none (n, db) =
      (record n { new = n.new + 1 }, record db { observations = db.observations ++ row ∷ [] })
  receive row (some have) (n, db) =
      if same_value have.value row.value then (record n { duplicate = n.duplicate + 1 }, db) else (
        record n { corrected = n.corrected + 1 },
        record db { corrections = db.corrections ++ row ∷ [] },
      )

  -- One sample of the transaction's loop, with the counts so far.
  unfoldable pub record_one :
      String
      → String
      → ℕ × F × ℕ
      → ObservationReceipt × Database F
      → ObservationReceipt × Database F
  record_one series source (ts, v, at) s =
      receive
        (record {
          series = series;
          event_time = ts;
          value = v;
          received_ms = at;
          source_sha256 = source;
        })
        (observation_row series ts s.1) s

  unfoldable pub record_all :
      String
      → String
      → List (ℕ × F × ℕ)
      → ObservationReceipt × Database F
      → ObservationReceipt × Database F
  record_all series source [] s = s
  record_all series source (x ∷ xs) s = record_all series source xs (record_one series source x s)

  -- What is refused of a sample whose parts have their types: a value below zero or infinite.
  unfoldable pub bad_sample : ℕ × F × ℕ → Bool
  bad_sample (ts, v, at) = not (fl.of_int 0 ≤? v) || not (fl.is_finite v)

  abbrev pub recorded : ObservationReceipt × Database F → Plan F ObservationReceipt
  recorded (n, db) = write (ok n) db

  unfoldable pub record_observations :
      {J : Type 0}
      → Codec J
      → StoreSettings
      → Env
      → String
      → List (ℕ × F × ℕ)
      → String
      → Journal F
      → Result StoreError ObservationReceipt × Journal F
  record_observations cx st env series samples source j =
      checked env.moment (raise_if (not (cx.is_sha256 source) || any bad_sample samples) bad_input)
        (λ u. unless_refused (require_healthy j >> check_quota st env (64 * length samples)) (λ v.
          recorded (
            record_all series source samples
              (record { new = 0; duplicate = 0; corrected = 0 }, j.db))))
        j

module _ {F : Type 0} where
  -- `ORDER BY event_time`
  abbrev pub time_le : Receipt F → Receipt F → Bool
  time_le a b = leb a.event_time b.event_time

  unfoldable pub observations_between : String → ℕ → ℕ → Database F → List (ℕ × F × ℕ)
  observations_between series lo hi db =
      map (λ (r : Receipt F). (r.event_time, r.value, r.received_ms))
        (sort_by time_le (
          filterb
            (λ (r : Receipt F). r.series == series && leb lo r.event_time && leb r.event_time hi)
            db.observations))

  unfoldable pub corrections_of : String → Database F → List (ℕ × F × ℕ)
  corrections_of series db =
      map (λ (r : Receipt F). (r.event_time, r.value, r.received_ms))
        (filterb (λ (r : Receipt F). r.series == series) db.corrections)

-- DELETE FROM checkpoints: of an epoch's rows only the last ones stay.
unfoldable pub keep_latest : String → List CheckpointRow → List CheckpointRow
keep_latest evidence rows =
    let mine =
      last_n checkpoints_kept (filterb (λ (c : CheckpointRow). c.evidence_key == evidence) rows) in
    filterb
      (λ (c : CheckpointRow).
        not (c.evidence_key == evidence) || any (λ (d : CheckpointRow). d.seq == c.seq) mine)
      rows

module _ {J F : Type 0} (cx : Codec J) (st : StoreSettings) where
  unfoldable pub append_checkpoint : ℕ → String → ℕ → String → Database F → Database F
  append_checkpoint now_ms evidence last bytes db =
      let row : CheckpointRow = record {
        seq = db.last_checkpoint + 1;
        evidence_key = evidence;
        last_outcome_seq = last;
        schema_version = schema_version;
        payload = bytes;
        payload_sha256 = cx.sha256 bytes;
        created_at_ms = now_ms;
      } in
      record db {
        checkpoints = keep_latest evidence (db.checkpoints ++ row ∷ []);
        last_checkpoint = row.seq;
      }

  unfoldable pub checkpoint_new : Env → String → ℕ → String → Database F → Plan F (Checkpoint J)
  checkpoint_new env evidence last bytes db =
      unless_refused (check_quota st env (cx.size bytes)) (λ u.
        let after = append_checkpoint env.now_ms evidence last bytes db in
        write (present (latest_checkpoint cx evidence after)) after)

  unfoldable pub checkpoint_after :
      Env → String → ℕ → String → Database F → Option (Checkpoint J) → Plan F (Checkpoint J)
  checkpoint_after env evidence last bytes db none = checkpoint_new env evidence last bytes db
  checkpoint_after env evidence last bytes db (some latest) =
      if ltb last latest.last_outcome_seq
      then answer (err bad_input)
      else if latest.last_outcome_seq == last && latest.payload_sha256 == cx.sha256 bytes
      then answer (ok latest)
      else checkpoint_new env evidence last bytes db

  unfoldable pub write_checkpoint :
      Env → String → J → ℕ → Journal F → Result StoreError (Checkpoint J) × Journal F
  write_checkpoint env evidence state last j =
      checked env.moment (encode_bounded cx state max_checkpoint_bytes)
        (λ bytes.
          unless_refused (require_healthy j >> latest_checkpoint cx evidence j.db)
            (λ latest. checkpoint_after env evidence last bytes j.db latest))
        j

module _ {J : Type 0} where
  -- The loop of `recover`: the state, the last sequence number and how many were applied.
  unfoldable pub replay : (J → Outcome → J) → List Outcome → J × ℕ × ℕ → J × ℕ × ℕ
  replay fold [] s = s
  replay fold (o ∷ os) (state, last, applied) = replay fold os (fold state o, o.seq, applied + 1)

  abbrev pub starting : J → Option (Checkpoint J) → J × ℕ
  starting initial none = (initial, 0)
  starting initial (some c) = (c.state, c.last_outcome_seq)

module _ {J F : Type 0} (cx : Codec J) where
  unfoldable pub recover :
      String → (J → Outcome → J) → J → Database F → Result StoreError (J × ℕ × ℕ)
  recover evidence fold initial db = do
    latest ← latest_checkpoint cx evidence db
    let start = starting initial latest
    outs ← outcomes_after cx evidence start.1 db
    ok (replay fold outs (start.0, start.1, 0))
