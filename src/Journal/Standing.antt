-- ===== src/Journal/Standing.antt =====
-- The abstract view of the journal: what one key stands at. It forgets the tables, the row numbers and
-- every other key.
use predictive_autoscaler.Prelude.{
  ◌<◌, ℕ, ◌≡◌, refl, sym, subst, ap, ◌∙◌, inl, inr, arith, Bool, true, false, not, ◌&&◌, Bool-cases,
  Option, none, some, Option-cases, List, [], ◌∷◌, ◌==◌, nat_eq, string_eq, ltb, String, Float,
  Dict, ok, All-filterb, All-map,
}
use predictive_autoscaler.Journal.Types.{
  IssuanceKey, Issuance, Journal, Database, StoreSettings, Codec, key_sha, issuance_id_for,
}
use predictive_autoscaler.Journal.Guard.{Env}
use predictive_autoscaler.Journal.Reads.{issuance_row, find}
use predictive_autoscaler.Journal.Commit.{append_issuance, new_issuance, append_outcome}
use predictive_autoscaler.Journal.Observe.{append_checkpoint}
use predictive_autoscaler.Journal.Compact.{
  Removed, compacted, below, delete_issuance, drop_observations, raise_horizon,
}
use predictive_autoscaler.Journal.Ops.{Op, perform, run}
use predictive_autoscaler.Journal.Change.{
  Change, unchanged, issued, resolved, observed, checkpointed, retired, perform-Change,
}
use predictive_autoscaler.Journal.Wellformed.{
  Core, core, core-record_all, insert_issuance-ok, delete_issuance-ok, delete_outcomes-ok,
  Identified, Attached, Wellformed,
}
use predictive_autoscaler.Journal.Sweeps.{All-every, find-All, compacted-keeps}
use predictive_autoscaler.Journal.Finds.{
  find-append_some, find-append_none, find-filterb, find-none, find-nothing, any-All,
}
use predictive_autoscaler.Journal.Invariant.{Change-Wellformed}

-- A key is free, committed to an issuance, or retired for good.
pub data Standing : Type 0 where
  free : Standing
  committed : Issuance → Standing
  lapsed : Standing

abbrev pub standing_of : Option Issuance → Bool → Standing
standing_of (some i) late = committed i
standing_of none true = lapsed
standing_of none false = free

-- What a key may come to: it is committed once, to an issuance of that key, and retired once.
pub data Evolves (key : IssuanceKey) : Standing → Standing → Type 0 where
  keeps : {s : Standing} → Evolves key s s
  commits : (i : Issuance) → i.key ≡ key → Evolves key free (committed i)
  lapses : Evolves key free lapsed
  goes : (i : Issuance) → Evolves key (committed i) lapsed

pub Evolves-trans :
    {key : IssuanceKey} {a b c : Standing} → Evolves key a b → Evolves key b c → Evolves key a c
Evolves-trans keeps q = q
Evolves-trans (commits i e) keeps = commits i e
Evolves-trans (commits i e) (goes j) = lapses
Evolves-trans lapses keeps = lapses
Evolves-trans (goes i) keeps = goes i

module _ {F J : Type 0} (cx : Codec J) (key : IssuanceKey) where
  unfoldable pub standing : Database F → Standing
  standing d = standing_of (issuance_row cx key d) (ltb key.window_end d.retention_horizon)

-- No other key has the digest of this one.
abbrev pub CollisionFree : {J : Type 0} → Codec J → IssuanceKey → Type 0
CollisionFree cx key = (k : IssuanceKey) → key_sha cx k ≡ key_sha cx key → k ≡ key

module _ {J : Type 0} (cx : Codec J) (st : StoreSettings) (key : IssuanceKey)
    (inj : CollisionFree cx key) where
  -- Every row with the digest of the key has the identity of the key.
  same_id :
      (y : Issuance)
      → Identified cx st y
      → (y.key_sha256 == key_sha cx key) ≡ true
      → y.issuance_id ≡ issuance_id_for cx st key
  same_id y named t =
      let digest : y.key_sha256 ≡ key_sha cx key =
        (string_eq.same_iff y.key_sha256 (key_sha cx key)).0 t in
      let same : y.key ≡ key = inj y.key (sym named.0 ∙ digest) in
      named.1 ∙ ap (λ k. issuance_id_for cx st k) same

module _ {J F : Type 0} (cx : Codec J) (st : StoreSettings) (key : IssuanceKey)
    (inj : CollisionFree cx key) where
  standing-issued :
      (row : Issuance) (d : Database F)
      → row.key_sha256 ≡ key_sha cx row.key
      → ltb row.key.window_end d.retention_horizon ≡ false
      → Evolves key (standing cx key d) (standing cx key (append_issuance row d))
  unfolding standing issuance_row append_issuance
  standing-issued row d named early =
      let mine = λ (i : Issuance). i.key_sha256 == key_sha cx key in
      elim (Option-cases (find mine d.issuances)) [
        | inr (x, e) ↦ rw (e, find-append_some mine d.issuances row x e) keeps
        | inl e ↦ elim (Bool-cases (row.key_sha256 == key_sha cx key)) [
          | inl t ↦
              let digest : row.key_sha256 ≡ key_sha cx key =
                (string_eq.same_iff row.key_sha256 (key_sha cx key)).0 t in
              let same : row.key ≡ key = inj row.key (sym named ∙ digest) in
              let open_still : ltb key.window_end d.retention_horizon ≡ false =
                subst (λ (k : IssuanceKey). ltb k.window_end d.retention_horizon ≡ false) same
                  early in
              rw (e, find-append_none mine d.issuances row e, t, open_still) (commits row same)
          | inr f ↦ rw (e, find-append_none mine d.issuances row e, f) keeps
        ]
      ]

  standing-raised :
      (horizon : ℕ) (d : Database F)
      → d.retention_horizon < horizon
      → Evolves key (standing cx key d) (standing cx key (raise_horizon horizon d))
  unfolding standing issuance_row raise_horizon
  standing-raised horizon d h =
      let mine = λ (i : Issuance). i.key_sha256 == key_sha cx key in
      elim (Option-cases (find mine d.issuances)) [
        | inr (x, e) ↦ rw e keeps
        | inl e ↦ elim (Bool-cases (ltb key.window_end d.retention_horizon)) [
          | inl late ↦
              let later : ltb key.window_end horizon ≡ true = ground (arith, late, h) in
              rw (e, late, later) keeps
          | inr early ↦ elim (Bool-cases (ltb key.window_end horizon)) [
            | inl later ↦ rw (e, early, later) lapses
            | inr still ↦ rw (e, early, still) keeps
          ]
        ]
      ]

  -- A key that is found under its own digest is the key asked for.
  found-key :
      (d : Database F) (x : Issuance)
      → Wellformed cx st (core d)
      → issuance_row cx key d ≡ some x
      → x.key ≡ key
  unfolding issuance_row
  found-key d x w e =
      let (named, t) =
        find-All (Identified cx st) (λ (i : Issuance). i.key_sha256 == key_sha cx key) d.issuances x
          w.0 e in
      let digest : x.key_sha256 ≡ key_sha cx key =
        (string_eq.same_iff x.key_sha256 (key_sha cx key)).0 t in
      inj x.key (sym named.0 ∙ digest)

  -- The DELETE of an issuance retires its key, and leaves every other key where it stands.
  standing-deleted :
      (iid : String) (d after : Database F)
      → Wellformed cx st (core d)
      → delete_issuance iid d ≡ ok after
      → Evolves key (standing cx key d) (standing cx key after)
  unfolding standing issuance_row below
  standing-deleted iid d after w e =
      let mine = λ (i : Issuance). i.key_sha256 == key_sha cx key in
      let others = λ (i : Issuance). not (i.issuance_id == iid) in
      let (low, same) = delete_issuance-ok iid d after e in
      subst (λ a. Evolves key (standing cx key d) (standing cx key a)) same
        (elim (Option-cases (find mine d.issuances)) [
          | inl nothing ↦ rw (nothing, find-nothing mine others d.issuances nothing) keeps
          | inr (x, found) ↦ elim (Bool-cases (others x)) [
            | inl other ↦ rw (found, find-filterb mine others d.issuances x found other) keeps
            | inr gone ↦
                let all_low =
                  any-All
                    (λ (i : Issuance). i.issuance_id == iid && not (below d.retention_horizon i))
                    d.issuances low in
                let (x_low, t) =
                  find-All
                    (λ (i : Issuance).
                      (i.issuance_id == iid && not (below d.retention_horizon i)) ≡ false)
                    mine d.issuances x all_low found in
                let (named, t2) = find-All (Identified cx st) mine d.issuances x w.0 found in
                let hit : (x.issuance_id == iid) ≡ true = ground (arith, gone) in
                let removed : x.issuance_id ≡ iid = (string_eq.same_iff x.issuance_id iid).0 hit in
                let mine_id : issuance_id_for cx st key ≡ iid =
                  sym (same_id cx st key inj x named t) ∙ removed in
                let below_x : ltb x.key.window_end d.retention_horizon ≡ true =
                  ground (arith, x_low, hit) in
                let late : ltb key.window_end d.retention_horizon ≡ true =
                  subst (λ (k : IssuanceKey). ltb k.window_end d.retention_horizon ≡ true)
                    (found-key d x w found) below_x in
                let none_left = find-none mine others d.issuances (
                  All-map (Identified cx st) (λ y. mine y ≡ true → others y ≡ false)
                    (λ y n m.
                      let hit_y =
                        (string_eq.same_iff y.issuance_id iid).1
                          (same_id cx st key inj y n m ∙ mine_id) in
                      rw hit_y refl)
                    d.issuances w.0) in
                rw (found, none_left, late) (goes x)
          ]
        ])

module _ {J F : Type 0} (cx : Codec J) (st : StoreSettings) (key : IssuanceKey)
    (inj : CollisionFree cx key) where
  standing-compacted :
      (horizon : ℕ) (covered : Dict String ℕ) (n : Removed) (d after : Database F)
      → d.retention_horizon < horizon
      → Wellformed cx st (core d)
      → compacted cx st covered horizon d ≡ ok (n, after)
      → Evolves key (standing cx key d) (standing cx key after)
  unfolding standing issuance_row raise_horizon drop_observations
  standing-compacted horizon covered n d after higher w e =
      (compacted-keeps cx st (λ it. Unit {0}) (λ row. Unit {0})
        (λ a. Evolves key (standing cx key d) (standing cx key a) × Wellformed cx st (core a))
        covered horizon d (λ row i r e3 e4. tt)
        (λ it d0 d1 d2 q p e3 e4.
          let (low_outcomes, same) = delete_outcomes-ok it.0.issuance_id d0 d1 e3 in
          let w1 : Wellformed cx st (core d1) =
            subst (λ a. Wellformed cx st (core a)) same
              (p.1.0, All-filterb (Attached cx st) _ d0.outcomes p.1.1) in
          let to1 : Evolves key (standing cx key d) (standing cx key d1) =
            subst (λ a. Evolves key (standing cx key d) (standing cx key a)) same p.0 in
          let (low, same2) = delete_issuance-ok it.0.issuance_id d1 d2 e4 in
          (
            Evolves-trans to1 (standing-deleted cx st key inj it.0.issuance_id d1 d2 w1 e4),
            subst (λ a. Wellformed cx st (core a)) same2
                (All-filterb (Identified cx st) _ d1.issuances w1.0, w1.1),
          ))
        (λ r a p. p) (λ a p. p) n after (All-every (λ row. Unit {0}) (λ row. tt) _)
        (standing-raised cx st key inj horizon d higher, w) e).0

  Change-Evolves :
      ⦃fl : Float F⦄ (d after : Database F)
      → Change cx st d after
      → Wellformed cx st (core d)
      → Evolves key (standing cx key d) (standing cx key after)
  unfolding standing issuance_row new_issuance append_outcome append_checkpoint
  Change-Evolves d after unchanged w = keeps
  Change-Evolves d after (issued now_ms k bundle models e1 e2) w =
      let row = new_issuance cx st now_ms k bundle models d in
      let (vacant, early, same) = insert_issuance-ok row d after e2 in
      subst (λ a. Evolves key (standing cx key d) (standing cx key a)) same
        (standing-issued cx st key inj row d refl early)
  Change-Evolves d after (resolved env i iid model status bytes e1 e2) w = keeps
  Change-Evolves d after (observed series source samples n) w =
      subst
        (λ (c : Core).
          Evolves key (standing cx key d)
            (standing_of (find (λ i. i.key_sha256 == key_sha cx key) c.0) (ltb key.window_end c.3)))
        (sym (core-record_all series source samples (n, d))) keeps
  Change-Evolves d after (checkpointed now_ms evidence last bytes) w = keeps
  Change-Evolves d after (retired horizon covered n higher e1 e2) w =
      standing-compacted horizon covered n d after higher w e2

module _ {J F : Type 0} ⦃fl : Float F⦄ (cx : Codec J) (st : StoreSettings) where
  -- Under any sequence of calls, with any failures, every key of a well-formed journal goes the way of
  -- the abstract store: it is committed at most once, to an issuance of its own, keeps that issuance,
  -- and once retired is never issued again. No other key has the digest of that key.
  pub run-Evolves :
      (ops : List (Env × Op J F)) (j : Journal F) (key : IssuanceKey)
      → CollisionFree cx key
      → Wellformed cx st (core j.db)
      → Evolves key (standing cx key j.db) (standing cx key (run cx st ops j).db)
  unfolding run
  run-Evolves [] j key inj w = keeps
  run-Evolves ((env, op) ∷ ops) j key inj w =
      let change = perform-Change cx st env op j in
      Evolves-trans (Change-Evolves cx st key inj j.db (perform cx st env op j).db change w) (
        run-Evolves ops (perform cx st env op j) key inj
          (Change-Wellformed cx st j.db (perform cx st env op j).db change w))
