-- ===== src/Journal/Reads.antt =====
-- What is read from the journal, with the checks of every read (store.py: _row_to_issuance, _models,
-- get_issuance, get_issuance_by_id, open_issuances, issuances_after, issuances, _row_to_outcome,
-- outcomes_after, latest_checkpoint).
use predictive_autoscaler.Prelude.{
  ℕ, Bool, true, not, ◌&&◌, ◌||◌, Option, none, some, List, [], ◌∷◌, String, length, filterb, any,
  all, ltb, leb, ◌==◌, nat_eq, string_eq, if◌then◌else◌, sort_by, Result, ok, err, raise_if, ◌>>=◌,
  ◌>>◌,
}
use predictive_autoscaler.Journal.Types.{
  StoreError, bad_input, store_corrupt, IssuanceKey, Issuance, Outcome, CheckpointRow, Database,
  Codec, key_sha, max_models, schema_version,
}

-- The first row that a query finds.
unfoldable pub find {ℓ} : {A : Type ℓ} → (A → Bool) → List A → Option A
find p [] = none
find p (x ∷ xs) = if p x then some x else find p xs

-- `ORDER BY seq DESC LIMIT 1` of a table in the order of its row numbers.
unfoldable pub last_row {ℓ} : {A : Type ℓ} → List A → Option A
last_row [] = none
last_row (x ∷ []) = some x
last_row (x ∷ y ∷ xs) = last_row (y ∷ xs)

unfoldable pub distinct : List String → Bool
distinct [] = true
distinct (x ∷ xs) = not (any (λ y. x == y) xs) && distinct xs

-- One row after the other; the first exception stops it.
unfoldable pub map_rows :
    {A B : Type 0} → (A → Result StoreError B) → List A → Result StoreError (List B)
map_rows f [] = ok []
map_rows f (x ∷ xs) = do y ← f x; ys ← map_rows f xs; ok (y ∷ ys)

abbrev pub on_row :
    {A B : Type 0} → (A → Result StoreError B) → Option A → Result StoreError (Option B)
on_row f none = ok none
on_row f (some x) = do y ← f x; ok (some y)

-- A checkpoint with its state parsed.
pub record Checkpoint (J : Type 0) : Type 0 where
  pub seq : ℕ
  pub last_outcome_seq : ℕ
  pub state : J
  pub payload_sha256 : String

-- `ORDER BY window_end, seq`
abbrev pub window_le : Issuance → Issuance → Bool
window_le a b =
    ltb a.key.window_end b.key.window_end || a.key.window_end == b.key.window_end && leb a.seq b.seq

module _ {F : Type 0} where
  unfoldable pub outcome_row : String → String → Database F → Option Outcome
  outcome_row iid model db = find (λ o. o.issuance_id == iid && o.model == model) db.outcomes

module _ {J : Type 0} (cx : Codec J) where
  -- `_models`: 1 to 3 distinct names, sorted. The checks of the argument's type are not modelled.
  unfoldable pub models_of : List String → Result StoreError (List String)
  models_of models =
      if not (distinct models)
        || ltb (length models) 1
        || ltb max_models (length models)
        || not (all cx.is_model models)
      then err bad_input
      else ok (sort_by cx.name_le models)

  abbrev pub or_corrupt : {A : Type 0} → Result StoreError A → Result StoreError A
  or_corrupt (ok a) = ok a
  or_corrupt (err e) = err store_corrupt

  unfoldable pub row_to_issuance : Issuance → Result StoreError Issuance
  row_to_issuance row = do
    raise_if (not (cx.sha256 row.bundle == row.bundle_sha256)) store_corrupt
    expected ← or_corrupt (models_of row.models)
    ok (record row { models = expected })

  unfoldable pub row_to_outcome : Outcome → Result StoreError Outcome
  row_to_outcome row = do
    raise_if (not (cx.sha256 row.payload == row.payload_sha256)) store_corrupt
    ok row

  unfoldable pub read_checkpoint : CheckpointRow → Result StoreError (Checkpoint J)
  read_checkpoint c = do
    raise_if
        (not (c.schema_version == schema_version) || not (cx.sha256 c.payload == c.payload_sha256))
        store_corrupt
    ok (record {
      seq = c.seq;
      last_outcome_seq = c.last_outcome_seq;
      state = cx.decode c.payload;
      payload_sha256 = c.payload_sha256;
    })

  module _ {F : Type 0} where
    -- The row whose key has the digest of `key`.
    unfoldable pub issuance_row : IssuanceKey → Database F → Option Issuance
    issuance_row key db = find (λ i. i.key_sha256 == key_sha cx key) db.issuances

    unfoldable pub get_issuance : IssuanceKey → Database F → Result StoreError (Option Issuance)
    get_issuance key db = on_row row_to_issuance (issuance_row key db)

    unfoldable pub get_issuance_by_id : String → Database F → Result StoreError (Option Issuance)
    get_issuance_by_id iid db =
        on_row row_to_issuance (find (λ i. i.issuance_id == iid) db.issuances)

    unfoldable pub open_issuances :
        String → String → ℕ → Database F → Result StoreError (List Issuance)
    open_issuances evidence model by db = do
      let is_open = λ (i : Issuance).
          i.key.evidence_key == evidence
          && leb i.key.window_end by
          && not (
              any (λ (o : Outcome). o.issuance_id == i.issuance_id && o.model == model) db.outcomes)
      rows ← map_rows row_to_issuance (sort_by window_le (filterb is_open db.issuances))
      ok (filterb (λ (i : Issuance). any (λ m. m == model) i.models) rows)

    unfoldable pub issuances_after : String → ℕ → Database F → Result StoreError (List Issuance)
    issuances_after evidence after_seq db = map_rows row_to_issuance (
        filterb (λ (i : Issuance). i.key.evidence_key == evidence && ltb after_seq i.seq)
          db.issuances)

    unfoldable pub outcomes_after : String → ℕ → Database F → Result StoreError (List Outcome)
    outcomes_after evidence after_seq db =
        map_rows row_to_outcome
          (filterb (λ (o : Outcome). o.evidence_key == evidence && ltb after_seq o.seq) db.outcomes)

    unfoldable pub latest_checkpoint :
        String → Database F → Result StoreError (Option (Checkpoint J))
    latest_checkpoint evidence db =
        on_row read_checkpoint
          (last_row (filterb (λ (c : CheckpointRow). c.evidence_key == evidence) db.checkpoints))
