-- ===== src/Journal/Invariant.antt =====
-- The invariant of the journal's rows, kept by every call.
use predictive_autoscaler.Prelude.{
  raise_if-ok, bind-ok, ◌+◌, ◌*◌, ◌≤◌, ◌≡◌, refl, sym, subst, ap, ◌∙◌, inl, inr, arith, true, not,
  Option, none, some, Option-cases, List, [], ◌∷◌, ◌==◌, nat_eq, string_eq, any, ltb, String, Float,
  ok, All-append, All-filterb,
}
use predictive_autoscaler.Journal.Types.{
  store_full, bad_input, Issuance, Journal, Database, StoreSettings, Codec, issuance_id_for,
}
use predictive_autoscaler.Journal.Guard.{Env, check_quota}
use predictive_autoscaler.Journal.Reads.{find, row_to_issuance, on_row, get_issuance_by_id}
use predictive_autoscaler.Journal.Commit.{
  append_issuance, new_issuance, append_outcome, new_outcome, accept, accepting,
}
use predictive_autoscaler.Journal.Observe.{append_checkpoint}
use predictive_autoscaler.Journal.Compact.{drop_observations, raise_horizon}
use predictive_autoscaler.Journal.Ops.{Op, perform, run}
use predictive_autoscaler.Journal.Change.{
  Change, unchanged, issued, resolved, observed, checkpointed, retired, perform-Change,
}
use predictive_autoscaler.Journal.Wellformed.{
  core, core-record_all, insert_issuance-ok, delete_issuance-ok, delete_outcomes-ok, Identified,
  Attached, Wellformed, row_to_issuance-ok,
}
use predictive_autoscaler.Journal.Sweeps.{All-every, find-All, compacted-keeps}

module _ {J : Type 0} (cx : Codec J) (st : StoreSettings) where
  pub accept-ok :
      (env : Env) (model bytes : String) (found : Option Issuance) (i : Issuance)
      → accept cx st env model bytes found ≡ ok i
      → (found ≡ some i)
        × (any (λ m. m == model) i.models ≡ true)
        × (i.key.window_end * 1000 ≤ env.now_ms)
  unfolding accept check_quota
  accept-ok env model bytes none i e = absurd (ground (arith, e))
  accept-ok env model bytes (some i0) i e =
      let (named, e1) = raise_if-ok (not (any (λ m. m == model) i0.models)) bad_input _ i e in
      let (fits, e2) =
        raise_if-ok (ltb st.quota_bytes (env.usage_bytes + cx.size bytes)) store_full _ i e1 in
      let (ended, e3) = raise_if-ok (ltb env.now_ms (i0.key.window_end * 1000)) bad_input _ i e2 in
      let same : i0 ≡ i = ground (arith, e3) in
      (
        ap some same,
        subst (λ i. any (λ m. m == model) i.models ≡ true) same (ground (arith, named)),
        subst (λ i. i.key.window_end * 1000 ≤ env.now_ms) same (ground (arith, ended)),
      )

module _ {J F : Type 0} (cx : Codec J) (st : StoreSettings) where
  -- The issuance that an outcome is accepted for is a row of the table, as it is read.
  pub accepting-row :
      (env : Env) (iid model bytes : String) (d : Database F) (i : Issuance)
      → accepting cx st env iid model bytes d ≡ ok i
      → (row : Issuance) × (find (λ (i : Issuance). i.issuance_id == iid) d.issuances ≡ some row)
        × (row_to_issuance cx row ≡ ok i)
  unfolding accepting get_issuance_by_id
  accepting-row env iid model bytes d i e =
      elim (Option-cases (find (λ (i : Issuance). i.issuance_id == iid) d.issuances)) [
        | inl nothing ↦
            absurd (ground (arith, accept-ok cx st env model bytes none i (rw nothing at e)))
        | inr (row, found) ↦
            let (there, e1, e2) =
              bind-ok (on_row (row_to_issuance cx) (some row)) _ i (rw found at e) in
            let (i0, e3, e4) = bind-ok (row_to_issuance cx row) _ there e1 in
            let (same, named, ended) = accept-ok cx st env model bytes there i e2 in
            let both : i0 ≡ i = ground (arith, e4, same) in (row, found, e3 ∙ ap ok both)
      ]

  pub Change-Wellformed :
      ⦃fl : Float F⦄ (d after : Database F)
      → Change cx st d after
      → Wellformed cx st (core d)
      → Wellformed cx st (core after)
  unfolding new_issuance append_issuance new_outcome append_outcome append_checkpoint raise_horizon
      drop_observations
  Change-Wellformed d after unchanged w = w
  Change-Wellformed d after (issued now_ms key bundle models e1 e2) w =
      let row = new_issuance cx st now_ms key bundle models d in
      let (free, early, same) = insert_issuance-ok row d after e2 in
      subst (λ a. Wellformed cx st (core a)) same
        (All-append (Identified cx st) d.issuances (row ∷ []) w.0 ((refl, refl), tt), w.1)
  Change-Wellformed d after (resolved env i iid model status bytes e1 e2) w =
      let (row, found, read) = accepting-row env iid model bytes d i e2 in
      let (models, same) = row_to_issuance-ok cx row i read in
      let (id, named) =
        find-All (Identified cx st) (λ (i : Issuance). i.issuance_id == iid) d.issuances row w.0
          found in
      let attached : i.issuance_id ≡ issuance_id_for cx st i.key =
        subst (λ (i : Issuance). i.issuance_id ≡ issuance_id_for cx st i.key) same id.1 in
      (
        w.0,
        All-append (Attached cx st) d.outcomes
            (new_outcome cx st env.now_ms i model status bytes d ∷ []) w.1
            ((i.key, attached, refl, refl), tt),
      )
  Change-Wellformed d after (observed series source samples n) w =
      subst (Wellformed cx st) (sym (core-record_all series source samples (n, d))) w
  Change-Wellformed d after (checkpointed now_ms evidence last bytes) w = w
  Change-Wellformed d after (retired horizon covered n higher e1 e2) w =
      compacted-keeps cx st (λ it. Unit {0}) (λ row. Unit {0}) (λ a. Wellformed cx st (core a))
        covered horizon d (λ row i r e3 e4. tt)
        (λ it d0 d1 d2 q p e3 e4.
          let (low_outcomes, same1) = delete_outcomes-ok it.0.issuance_id d0 d1 e3 in
          let (low, same2) = delete_issuance-ok it.0.issuance_id d1 d2 e4 in
          let p1 =
            subst (λ a. Wellformed cx st (core a)) same1
              (p.0, All-filterb (Attached cx st) _ d0.outcomes p.1) in
          subst (λ a. Wellformed cx st (core a)) same2
            (All-filterb (Identified cx st) _ d1.issuances p1.0, p1.1))
        (λ r a p. p) (λ a p. p) n after (All-every (λ row. Unit {0}) (λ row. tt) _) w e2

module _ {J F : Type 0} ⦃fl : Float F⦄ (cx : Codec J) (st : StoreSettings) where
  -- Every call keeps the invariant.
  pub run-Wellformed :
      (ops : List (Env × Op J F)) (j : Journal F)
      → Wellformed cx st (core j.db)
      → Wellformed cx st (core (run cx st ops j).db)
  unfolding run
  run-Wellformed [] j w = w
  run-Wellformed ((env, op) ∷ ops) j w =
      run-Wellformed ops (perform cx st env op j)
        (Change-Wellformed cx st j.db (perform cx st env op j).db (perform-Change cx st env op j) w)
