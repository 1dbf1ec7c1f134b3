-- ===== src/Journal/Restart.antt =====
-- A restart takes up the state that was checkpointed (store.py: write_checkpoint, latest_checkpoint and
-- recover).
use predictive_autoscaler.Prelude.{
  raise_if-ok, bind-ok, ℕ, zero, suc, ◌+◌, ◌-◌, ◌≤◌, ◌≡◌, refl, sym, subst, ap, ◌∙◌, inl, inr,
  arith, Bool, true, not, ◌||◌, ◌&&◌, Bool-cases, Option, none, some, Option-cases, List, [], ◌∷◌,
  ◌++◌, ◌==◌, nat_eq, string_eq, String, length, length-append, filterb, any, drop, last_n, ltb, ok,
}
use predictive_autoscaler.Journal.Types.{
  store_corrupt, Outcome, CheckpointRow, Journal, Database, StoreSettings, Codec, schema_version,
  within, encode_bounded, checkpoints_kept, max_checkpoint_bytes,
}
use predictive_autoscaler.Journal.Guard.{Env, Plan, answer, write, require_healthy}
use predictive_autoscaler.Journal.Reads.{
  Checkpoint, last_row, on_row, read_checkpoint, latest_checkpoint, outcomes_after,
}
use predictive_autoscaler.Journal.Commit.{present}
use predictive_autoscaler.Journal.Observe.{
  keep_latest, append_checkpoint, checkpoint_new, checkpoint_after, write_checkpoint, replay,
  recover,
}
use predictive_autoscaler.Journal.Success.{
  guard-ok, checked-ok, unless_refused-answer, unless_refused-write,
}
use predictive_autoscaler.Journal.Retry.{present-ok, on_row-some}

module _ {A : Type 0} where
  last_row-append : (xs : List A) (y : A) → last_row (xs ++ y ∷ []) ≡ some y
  unfolding last_row
  last_row-append [] y = refl
  last_row-append (x ∷ []) y = refl
  last_row-append (x ∷ z ∷ xs) y = last_row-append (z ∷ xs) y

  filterb-append_true :
      (p : A → Bool) (xs : List A) (y : A)
      → p y ≡ true
      → filterb p (xs ++ y ∷ []) ≡ filterb p xs ++ y ∷ []
  filterb-append_true p [] y e = rw e refl
  filterb-append_true p (x ∷ xs) y e = elim (Bool-cases (p x)) [
    | inl t ↦ rw t (ap (λ ys. x ∷ ys) (filterb-append_true p xs y e))
    | inr f ↦ rw f (filterb-append_true p xs y e)
  ]

  any-drop_last :
      (p : A → Bool) (n : ℕ) (xs : List A) (y : A)
      → n ≤ length xs
      → p y ≡ true
      → any p (drop n (xs ++ y ∷ [])) ≡ true
  any-drop_last p zero [] y h e = rw e refl
  any-drop_last p zero (x ∷ xs) y h e = ground (arith, any-drop_last p zero xs y (omega arith) e)
  any-drop_last p (suc n) [] y h e = absurd (omega (arith, h))
  any-drop_last p (suc n) (x ∷ xs) y h e = any-drop_last p n xs y (omega (arith, h)) e

answer-same : {F A : Type 0} (a b : A) → ◌≡◌ {A = Plan F A} (answer (ok a)) (answer (ok b)) → a ≡ b
answer-same a b e = ground (arith, e)

abbrev of_epoch : String → CheckpointRow → Bool
of_epoch evidence c = c.evidence_key == evidence

-- The newest checkpoint of an epoch is never the one that goes.
last-keep_latest :
    (evidence : String) (rows : List CheckpointRow) (row : CheckpointRow)
    → of_epoch evidence row ≡ true
    → last_row (filterb (of_epoch evidence) (keep_latest evidence (rows ++ row ∷ []))) ≡ some row
unfolding keep_latest
last-keep_latest evidence rows row e =
    let mine = filterb (of_epoch evidence) rows in
    let kept_n = last_n checkpoints_kept (filterb (of_epoch evidence) (rows ++ row ∷ [])) in
    let keep = λ (c : CheckpointRow).
      not (of_epoch evidence c) || any (λ (d : CheckpointRow). d.seq == c.seq) kept_n in
    let split = filterb-append_true (of_epoch evidence) rows row e in
    let own : (row.seq == row.seq) ≡ true = (nat_eq.same_iff row.seq row.seq).1 refl in
    let enough : length (mine ++ row ∷ []) - checkpoints_kept ≤ length mine =
      omega (arith, length-append mine (row ∷ [])) in
    let there : any (λ (d : CheckpointRow). d.seq == row.seq) kept_n ≡ true =
      subst
        (λ xs. any (λ (d : CheckpointRow). d.seq == row.seq) (last_n checkpoints_kept xs) ≡ true)
        (sym split)
        (any-drop_last (λ (d : CheckpointRow). d.seq == row.seq)
          (length (mine ++ row ∷ []) - checkpoints_kept) mine row enough own) in
    let keeps : keep row ≡ true = rw (e, there) refl in
    ap last_row (
      ap (filterb (of_epoch evidence)) (filterb-append_true keep rows row keeps)
      ∙ filterb-append_true (of_epoch evidence) (filterb keep rows) row e)
    ∙ last_row-append (filterb (of_epoch evidence) (filterb keep rows)) row

module _ {J : Type 0} (cx : Codec J) where
  encoded-as :
      (state : J) (bytes : String)
      → encode_bounded cx state max_checkpoint_bytes ≡ ok bytes
      → cx.encode state ≡ some bytes
  unfolding encode_bounded within
  encoded-as state bytes e = elim (Option-cases (cx.encode state)) [
    | inl nothing ↦ absurd (ground (arith, rw nothing at e))
    | inr (b, found) ↦ elim (Bool-cases (ltb max_checkpoint_bytes (cx.size b))) [
      | inl large ↦ absurd (ground (arith, rw (found, large) at e))
      | inr fits ↦
          let kept : ok b ≡ ok bytes = rw (found, fits) at e in
          let same : b ≡ bytes = ground (arith, kept) in found ∙ ap some same
    ]
  ]

  read_checkpoint-ok :
      (row : CheckpointRow) (c : Checkpoint J)
      → read_checkpoint cx row ≡ ok c
      → (c.state ≡ cx.decode row.payload)
        × (c.last_outcome_seq ≡ row.last_outcome_seq)
        × (c.payload_sha256 ≡ cx.sha256 row.payload)
  unfolding read_checkpoint
  read_checkpoint-ok row c e =
      let (wrong, e1) =
        raise_if-ok
          (not (row.schema_version == schema_version)
            || not (cx.sha256 row.payload == row.payload_sha256))
          store_corrupt _ c e in
      let matches : (cx.sha256 row.payload == row.payload_sha256) ≡ true = ground (arith, wrong) in
      let same : cx.sha256 row.payload ≡ row.payload_sha256 =
        (string_eq.same_iff (cx.sha256 row.payload) row.payload_sha256).0 matches in
      (
        ground (arith, e1),
        ground (arith, e1),
        let digest : row.payload_sha256 ≡ c.payload_sha256 = ground (arith, e1) in
            sym (same ∙ digest),
      )

module _ {J F : Type 0} (cx : Codec J) (st : StoreSettings) (evidence : String) where
  -- The latest checkpoint is this one, with this state.
  abbrev Holds : String → ℕ → Database F → Checkpoint J → Type 0
  Holds bytes last d c =
      (latest_checkpoint cx evidence d ≡ ok (some c))
      × (c.state ≡ cx.decode bytes)
      × (c.last_outcome_seq ≡ last)

  appended-Holds :
      (now_ms : ℕ) (last : ℕ) (bytes : String) (d : Database F) (c : Checkpoint J)
      → latest_checkpoint cx evidence (append_checkpoint cx st now_ms evidence last bytes d)
        ≡ ok (some c)
      → Holds bytes last (append_checkpoint cx st now_ms evidence last bytes d) c
  unfolding latest_checkpoint append_checkpoint
  appended-Holds now_ms last bytes d c e =
      let row : CheckpointRow = record {
        seq = d.last_checkpoint + 1;
        evidence_key = evidence;
        last_outcome_seq = last;
        schema_version = schema_version;
        payload = bytes;
        payload_sha256 = cx.sha256 bytes;
        created_at_ms = now_ms;
      } in
      let own : (evidence == evidence) ≡ true = (string_eq.same_iff evidence evidence).1 refl in
      let newest = last-keep_latest evidence d.checkpoints row own in
      let (state, upto, digest) = read_checkpoint-ok cx row c (
        on_row-some (read_checkpoint cx) row c
          (sym (ap (on_row (read_checkpoint cx)) newest) ∙ e)) in
      (e, state, upto)

  new-Holds :
      (env : Env) (last : ℕ) (bytes : String) (d after : Database F) (c : Checkpoint J)
      → checkpoint_new cx st env evidence last bytes d ≡ write (ok c) after
      → Holds bytes last after c
  unfolding checkpoint_new
  new-Holds env last bytes d after c e =
      let (u, e1, e2) = unless_refused-write _ _ (ok c) after e in
      let next = append_checkpoint cx st env.now_ms evidence last bytes d in
      let same : next ≡ after = ground (arith, e2) in
      let read : present (latest_checkpoint cx evidence next) ≡ ok c = ground (arith, e2) in
      subst (λ a. Holds bytes last a c) same
        (appended-Holds env.now_ms last bytes d c
          (present-ok (latest_checkpoint cx evidence next) c read))

  new-answer :
      (env : Env) (last : ℕ) (bytes : String) (d : Database F) (c : Checkpoint J)
      → checkpoint_new cx st env evidence last bytes d ≡ answer (ok c)
      → ⊥
  unfolding checkpoint_new
  new-answer env last bytes d c e =
      let (u, e1, e2) = unless_refused-answer _ _ c e in ground (arith, e2)

  -- The latest checkpoint that has the digest of these bytes has their state.
  same-Holds :
      (bytes : String) (last : ℕ) (d : Database F) (c : Checkpoint J)
      → ((a b : String) → cx.sha256 a ≡ cx.sha256 b → a ≡ b)
      → latest_checkpoint cx evidence d ≡ ok (some c)
      → c.payload_sha256 ≡ cx.sha256 bytes
      → c.last_outcome_seq ≡ last
      → Holds bytes last d c
  unfolding latest_checkpoint
  same-Holds bytes last d c inj e digest upto =
      elim (Option-cases (last_row (filterb (of_epoch evidence) d.checkpoints))) [
        | inl nothing ↦ absurd (ground (arith, rw nothing at e))
        | inr (row, found) ↦
            let (state, last_row_seq, row_digest) =
              read_checkpoint-ok cx row c
                (on_row-some (read_checkpoint cx) row c (rw found at e)) in
            let same : row.payload ≡ bytes = inj row.payload bytes (sym row_digest ∙ digest) in
            (e, state ∙ ap cx.decode same, upto)
      ]

  after-answer :
      (env : Env) (last : ℕ) (bytes : String) (d : Database F) (found : Option (Checkpoint J))
      (c : Checkpoint J)
      → ((a b : String) → cx.sha256 a ≡ cx.sha256 b → a ≡ b)
      → latest_checkpoint cx evidence d ≡ ok found
      → checkpoint_after cx st env evidence last bytes d found ≡ answer (ok c)
      → Holds bytes last d c
  unfolding checkpoint_after
  after-answer env last bytes d none c inj e e1 = absurd (new-answer env last bytes d c e1)
  after-answer env last bytes d (some latest) c inj e e1 =
      elim (Bool-cases (ltb last latest.last_outcome_seq)) [
        | inl back ↦ absurd (ground (arith, rw back at e1))
        | inr forward ↦
            elim (Bool-cases
              (latest.last_outcome_seq == last && latest.payload_sha256 == cx.sha256 bytes)) [
                | inr other ↦ absurd (new-answer env last bytes d c (rw (forward, other) at e1))
                | inl again ↦
                    let same = answer-same {F = F} latest c (rw (forward, again) at e1) in
                    let digest_hit : (latest.payload_sha256 == cx.sha256 bytes) ≡ true =
                      ground (arith, again) in
                    let digest =
                      (string_eq.same_iff latest.payload_sha256 (cx.sha256 bytes)).0 digest_hit in
                    subst (Holds bytes last d) same
                      (same-Holds bytes last d latest inj e digest (ground (arith, again)))
              ]
      ]

  after-write :
      (env : Env) (last : ℕ) (bytes : String) (d after : Database F) (found : Option (Checkpoint J))
      (c : Checkpoint J)
      → checkpoint_after cx st env evidence last bytes d found ≡ write (ok c) after
      → Holds bytes last after c
  unfolding checkpoint_after
  after-write env last bytes d after none c e = new-Holds env last bytes d after c e
  after-write env last bytes d after (some latest) c e =
      elim (Bool-cases (ltb last latest.last_outcome_seq)) [
        | inl back ↦ absurd (ground (arith, rw back at e))
        | inr forward ↦
            elim (Bool-cases
              (latest.last_outcome_seq == last && latest.payload_sha256 == cx.sha256 bytes)) [
                | inl again ↦ absurd (ground (arith, rw (forward, again) at e))
                | inr other ↦ new-Holds env last bytes d after c (rw (forward, other) at e)
              ]
      ]

  written-Holds :
      (env : Env) (state : J) (last : ℕ) (j after : Journal F) (c : Checkpoint J)
      → ((a b : String) → cx.sha256 a ≡ cx.sha256 b → a ≡ b)
      → write_checkpoint cx st env evidence state last j ≡ (ok c, after)
      → (bytes : String) × (cx.encode state ≡ some bytes) × Holds bytes last after.db c
  unfolding write_checkpoint
  written-Holds env state last j after c inj e =
      let (bytes, e1, e2) = checked-ok env.moment _ _ c j after e in
      let encoded : cx.encode state ≡ some bytes = encoded-as cx state bytes e1 in
      elim (guard-ok env.moment _ c j after e2) [
        | inl (e3, e4) ↦
            let (found, e5, e6) = unless_refused-answer _ _ c e3 in
            let (u, e7, e8) = bind-ok (require_healthy j) _ found e5 in
            (
              bytes,
              encoded,
              subst (λ (k : Journal F). Holds bytes last k.db c) e4
                  (after-answer env last bytes j.db found c inj e8 e6),
            )
        | inr (d, e3, e4) ↦
            let (found, e5, e6) = unless_refused-write _ _ (ok c) d e3 in
            (
              bytes,
              encoded,
              subst (λ (k : Journal F). Holds bytes last k.db c) e4
                  (after-write env last bytes j.db d found c e6),
            )
      ]

  -- What was checkpointed is what a restart takes up: the state given to write_checkpoint, with the
  -- outcomes after the given sequence number folded in once, in order. Decoding undoes encoding,
  -- digests do not collide, and those outcomes can be read.
  pub recover-write_checkpoint :
      (env : Env) (state : J) (last : ℕ) (j after : Journal F) (c : Checkpoint J)
      (fold : J → Outcome → J) (initial : J) (outs : List Outcome)
      → ((a b : String) → cx.sha256 a ≡ cx.sha256 b → a ≡ b)
      → ((s : J) (bytes : String) → cx.encode s ≡ some bytes → cx.decode bytes ≡ s)
      → write_checkpoint cx st env evidence state last j ≡ (ok c, after)
      → outcomes_after cx evidence last after.db ≡ ok outs
      → recover cx evidence fold initial after.db ≡ ok (replay fold outs (state, last, 0))
  unfolding recover
  recover-write_checkpoint env state last j after c fold initial outs inj decodes e read =
      let (bytes, encoded, (latest, state_c, upto)) =
        written-Holds env state last j after c inj e in
      let whole : c.state ≡ state = state_c ∙ decodes state bytes encoded in
      let outs_c : outcomes_after cx evidence c.last_outcome_seq after.db ≡ ok outs =
        subst (λ n. outcomes_after cx evidence n after.db ≡ ok outs) (sym upto) read in
      rw (latest, outs_c)
        (ap (λ s. ok (replay fold outs (s, c.last_outcome_seq, 0))) whole
          ∙ ap (λ n. ok (replay fold outs (state, n, 0))) upto)
