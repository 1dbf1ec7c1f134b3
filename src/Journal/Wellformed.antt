-- ===== src/Journal/Wellformed.antt =====
-- The invariant of the journal's rows: the digests and the identity of an issuance are those of its key,
-- and an outcome names the epoch and the window of the issuance that it belongs to.
use predictive_autoscaler.Prelude.{
  bind-ok, ℕ, ◌≡◌, refl, ◌∙◌, inl, inr, arith, false, not, ◌||◌, ◌&&◌, Bool-cases, Option, none,
  some, List, [], ◌∷◌, ◌==◌, nat_eq, string_eq, any, filterb, ltb, String, Float, ok, raise_if, All,
}
use predictive_autoscaler.Journal.Types.{
  store_corrupt, IssuanceKey, Issuance, Outcome, CheckpointRow, Receipt, Database, StoreSettings,
  Codec, key_sha, issuance_id_for,
}
use predictive_autoscaler.Journal.Reads.{row_to_issuance, models_of, or_corrupt}
use predictive_autoscaler.Journal.Commit.{insert_issuance, append_issuance}
use predictive_autoscaler.Journal.Observe.{
  ObservationReceipt, receive, record_one, record_all, same_value,
}
use predictive_autoscaler.Journal.Compact.{below, delete_outcomes, delete_issuance}

-- The parts of the file that observations do not touch.
abbrev pub Core : Type 0
Core = List Issuance × List Outcome × List CheckpointRow × ℕ

module _ {F : Type 0} where
  abbrev pub core : Database F → Core
  core d = (d.issuances, d.outcomes, d.checkpoints, d.retention_horizon)

module _ {F : Type 0} ⦃fl : Float F⦄ where
  core-receive :
      (row : Receipt F) (found : Option (Receipt F)) (s : ObservationReceipt × Database F)
      → core (receive row found s).1 ≡ core s.1
  unfolding receive
  core-receive row none (n, db) = refl
  core-receive row (some have) (n, db) = elim (Bool-cases (same_value have.value row.value)) [
    | inl e ↦ rw e refl
    | inr e ↦ rw e refl
  ]

  core-record_one :
      (series source : String) (x : ℕ × F × ℕ) (s : ObservationReceipt × Database F)
      → core (record_one series source x s).1 ≡ core s.1
  unfolding record_one
  core-record_one series source (ts, v, at) s = core-receive _ _ s

  pub core-record_all :
      (series source : String) (xs : List (ℕ × F × ℕ)) (s : ObservationReceipt × Database F)
      → core (record_all series source xs s).1 ≡ core s.1
  unfolding record_all
  core-record_all series source [] s = refl
  core-record_all series source (x ∷ xs) s =
      core-record_all series source xs (record_one series source x s)
      ∙ core-record_one series source x s

module _ {F : Type 0} where
  -- An accepted INSERT: no constraint and no trigger has refused it.
  pub insert_issuance-ok :
      (row : Issuance) (d after : Database F)
      → insert_issuance row d ≡ ok after
      → (any (λ i. i.issuance_id == row.issuance_id || i.key_sha256 == row.key_sha256) d.issuances
          ≡ false)
        × (ltb row.key.window_end d.retention_horizon ≡ false)
        × (append_issuance row d ≡ after)
  unfolding insert_issuance
  insert_issuance-ok row d after e =
      elim (Bool-cases (
        any (λ i. i.issuance_id == row.issuance_id || i.key_sha256 == row.key_sha256)
          d.issuances)) [
            | inl taken ↦ absurd (ground (arith, rw taken at e))
            | inr free ↦ elim (Bool-cases (ltb row.key.window_end d.retention_horizon)) [
              | inl late ↦ absurd (ground (arith, rw (free, late) at e))
              | inr early ↦
                  let kept : ok (append_issuance row d) ≡ ok after = rw (free, early) at e in
                  (free, early, ground (arith, kept))
            ]
          ]

  -- An accepted DELETE removes rows below the horizon only.
  pub delete_issuance-ok :
      (iid : String) (d after : Database F)
      → delete_issuance iid d ≡ ok after
      → (any
            (λ (i : Issuance). i.issuance_id == iid && not (below d.retention_horizon i))
            d.issuances
          ≡ false)
        × (record d {
          issuances = filterb (λ (i : Issuance). not (i.issuance_id == iid)) d.issuances;
        }
            ≡ after)
  unfolding delete_issuance
  delete_issuance-ok iid d after e =
      elim (Bool-cases (
        any (λ (i : Issuance). i.issuance_id == iid && not (below d.retention_horizon i))
          d.issuances)) [
            | inl high ↦ absurd (ground (arith, rw high at e))
            | inr low ↦
                let kept : ok (record d {
                  issuances = filterb (λ (i : Issuance). not (i.issuance_id == iid)) d.issuances;
                })
                    ≡ ok after =
                  rw low at e in
                (low, ground (arith, kept))
          ]

  pub delete_outcomes-ok :
      (iid : String) (d after : Database F)
      → delete_outcomes iid d ≡ ok after
      → (any
            (λ (o : Outcome). o.issuance_id == iid && not (ltb o.window_end d.retention_horizon))
            d.outcomes
          ≡ false)
        × (record d { outcomes = filterb (λ (o : Outcome). not (o.issuance_id == iid)) d.outcomes }
            ≡ after)
  unfolding delete_outcomes
  delete_outcomes-ok iid d after e =
      elim (Bool-cases (
        any (λ (o : Outcome). o.issuance_id == iid && not (ltb o.window_end d.retention_horizon))
          d.outcomes)) [
            | inl high ↦ absurd (ground (arith, rw high at e))
            | inr low ↦
                let kept : ok (record d {
                  outcomes = filterb (λ (o : Outcome). not (o.issuance_id == iid)) d.outcomes;
                })
                    ≡ ok after =
                  rw low at e in
                (low, ground (arith, kept))
          ]

module _ {J : Type 0} (cx : Codec J) (st : StoreSettings) where
  abbrev pub Identified : Issuance → Type 0
  Identified i = (i.key_sha256 ≡ key_sha cx i.key) × (i.issuance_id ≡ issuance_id_for cx st i.key)

  abbrev pub Attached : Outcome → Type 0
  Attached o =
      (k : IssuanceKey) × (o.issuance_id ≡ issuance_id_for cx st k)
      × (o.evidence_key ≡ k.evidence_key)
      × (o.window_end ≡ k.window_end)

  abbrev pub Wellformed : Core → Type 0
  Wellformed c = All Identified c.0 × All Attached c.1

module _ {J : Type 0} (cx : Codec J) where
  -- Reading a row changes nothing but its list of models.
  pub row_to_issuance-ok :
      (row i : Issuance)
      → row_to_issuance cx row ≡ ok i
      → (models : List String) × (record row { models = models } ≡ i)
  unfolding row_to_issuance
  row_to_issuance-ok row i e =
      let (u, e1, e2) =
        bind-ok (raise_if (not (cx.sha256 row.bundle == row.bundle_sha256)) store_corrupt) _ i e in
      let (models, e3, e4) = bind-ok (or_corrupt cx (models_of cx row.models)) _ i e2 in
      (models, ground (arith, e4))
