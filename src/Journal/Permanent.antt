-- ===== src/Journal/Permanent.antt =====
-- What the journal has taken in stays as it is until retention takes it: terminal outcomes and first
-- receipts (store.py: the triggers, commit_outcome, record_observations and compact).
use predictive_autoscaler.Prelude.{
  ℕ, ◌+◌, ◌<◌, ◌≤◌, ◌≡◌, ◌⊎◌, refl, sym, subst, ap, ◌∙◌, inl, inr, arith, false, not, ◌&&◌,
  Bool-cases, Option, none, some, List, [], ◌∷◌, ◌==◌, nat_eq, string_eq, ltb, String, Float, Dict,
  ok,
}
use predictive_autoscaler.Journal.Types.{Outcome, Receipt, Journal, Database, StoreSettings, Codec}
use predictive_autoscaler.Journal.Guard.{Env}
use predictive_autoscaler.Journal.Reads.{find, outcome_row}
use predictive_autoscaler.Journal.Commit.{
  append_issuance, new_issuance, append_outcome, new_outcome,
}
use predictive_autoscaler.Journal.Observe.{
  ObservationReceipt, observation_row, receive, record_one, record_all, same_value,
  append_checkpoint,
}
use predictive_autoscaler.Journal.Compact.{
  Removed, compacted, delete_outcomes, drop_observations, raise_horizon, old_observation,
}
use predictive_autoscaler.Journal.Ops.{Op, perform, run}
use predictive_autoscaler.Journal.Change.{
  Change, unchanged, issued, resolved, observed, checkpointed, retired, perform-Change,
}
use predictive_autoscaler.Journal.Sweeps.{All-every, find-All, compacted-keeps}
use predictive_autoscaler.Journal.Finds.{find-append_some, find-filterb, any-All}
use predictive_autoscaler.Journal.Wellformed.{
  insert_issuance-ok, delete_issuance-ok, delete_outcomes-ok,
}

module _ {F : Type 0} ⦃fl : Float F⦄ (st : StoreSettings) where
  -- From one file to a later one: the horizon has not gone back, and a terminal outcome or a first receipt
  -- is there unchanged unless it is below the horizon, receipts by the further seconds of their own.
  abbrev pub Keeps : Database F → Database F → Type 0
  Keeps d a =
      (d.retention_horizon ≤ a.retention_horizon)
      × ((iid model : String) (o : Outcome)
          → outcome_row iid model d ≡ some o
          → (outcome_row iid model a ≡ some o) ⊎ (o.window_end < a.retention_horizon))
      × ((series : String) (t : ℕ) (r : Receipt F)
          → observation_row series t d ≡ some r
          → (observation_row series t a ≡ some r)
            ⊎ (r.event_time + st.obs_extra < a.retention_horizon))

  Keeps-refl : (d : Database F) → Keeps d d
  Keeps-refl d = (omega arith, λ iid model o e. inl e, λ series t r e. inl e)

  Keeps-trans : (d b a : Database F) → Keeps d b → Keeps b a → Keeps d a
  Keeps-trans d b a (h1, o1, r1) (h2, o2, r2) = (
    omega (arith, h1, h2),
    λ iid model o e. elim (o1 iid model o e) [
      | inl there ↦ o2 iid model o there
      | inr old ↦ inr (omega (arith, old, h2))
    ],
    λ series t r e. elim (r1 series t r e) [
      | inl there ↦ r2 series t r there
      | inr old ↦ inr (omega (arith, old, h2))
    ],
  )

  -- Observations and outcomes are what Keeps looks at.
  same-Keeps :
      (d a : Database F)
      → d.retention_horizon ≤ a.retention_horizon
      → d.outcomes ≡ a.outcomes
      → d.observations ≡ a.observations
      → Keeps d a
  unfolding outcome_row observation_row
  same-Keeps d a h os rs = (
    h,
    λ iid model o e.
        inl (ap (find (λ (o : Outcome). o.issuance_id == iid && o.model == model)) (sym os) ∙ e),
    λ series t r e.
        inl (ap (find (λ (r : Receipt F). r.series == series && r.event_time == t)) (sym rs) ∙ e),
  )

  receive-Keeps :
      (row : Receipt F) (found : Option (Receipt F)) (s : ObservationReceipt × Database F)
      → Keeps s.1 (receive row found s).1
  unfolding receive outcome_row observation_row
  receive-Keeps row none (n, d) = (
    omega arith,
    λ iid model o e. inl e,
    λ series t r e. inl (
        find-append_some (λ (r : Receipt F). r.series == series && r.event_time == t) d.observations
          row r e),
  )
  receive-Keeps row (some have) (n, d) = elim (Bool-cases (same_value have.value row.value)) [
    | inl same ↦ rw same (Keeps-refl d)
    | inr other ↦ rw other (omega arith, λ iid model o e. inl e, λ series t r e. inl e)
  ]

  record_all-Keeps :
      (series source : String) (xs : List (ℕ × F × ℕ)) (s : ObservationReceipt × Database F)
      → Keeps s.1 (record_all series source xs s).1
  unfolding record_all record_one
  record_all-Keeps series source [] s = Keeps-refl s.1
  record_all-Keeps series source ((ts, v, at) ∷ xs) s =
      let after = record_one series source (ts, v, at) s in
      Keeps-trans s.1 after.1 (record_all series source xs after).1 (receive-Keeps _ _ s)
        (record_all-Keeps series source xs after)

  -- A DELETE of outcomes takes only what is below the horizon.
  delete_outcomes-Keeps :
      (iid : String) (d a : Database F) → delete_outcomes iid d ≡ ok a → Keeps d a
  unfolding outcome_row observation_row
  delete_outcomes-Keeps iid d a e =
      let (low, same) = delete_outcomes-ok iid d a e in
      let keep = λ (o : Outcome). not (o.issuance_id == iid) in
      let all_low =
        any-All
          (λ (o : Outcome). o.issuance_id == iid && not (ltb o.window_end d.retention_horizon))
          d.outcomes low in
      subst (Keeps d) same (
        omega arith,
        λ iid2 model o found.
            let mine = λ (o : Outcome). o.issuance_id == iid2 && o.model == model in
            elim (Bool-cases (keep o)) [
              | inl keeps ↦ inl (find-filterb mine keep d.outcomes o found keeps)
              | inr goes ↦
                  let (o_low, t) =
                    find-All
                      (λ (o : Outcome).
                        (o.issuance_id == iid && not (ltb o.window_end d.retention_horizon))
                        ≡ false)
                      mine d.outcomes o all_low found in
                  inr (ground (arith, o_low, goes))
            ],
        λ series t r found. inl found,
      )

  drop_observations-Keeps :
      (horizon : ℕ) (d : Database F)
      → d.retention_horizon ≡ horizon
      → Keeps d (drop_observations st horizon d)
  unfolding drop_observations outcome_row observation_row
  drop_observations-Keeps horizon d at = (
    omega arith,
    λ iid model o e. inl e,
    λ series t r e.
        let keep = λ (r : Receipt F). not (old_observation st horizon r) in
        let mine = λ (r : Receipt F). r.series == series && r.event_time == t in
        elim (Bool-cases (keep r)) [
          | inl keeps ↦ inl (find-filterb mine keep d.observations r e keeps)
          | inr goes ↦ inr (ground (arith, goes, at))
        ],
  )

  compacted-Keeps :
      {J : Type 0} (cx : Codec J) (horizon : ℕ) (covered : Dict String ℕ) (n : Removed)
      (d after : Database F)
      → d.retention_horizon < horizon
      → compacted cx st covered horizon d ≡ ok (n, after)
      → Keeps d after
  unfolding raise_horizon drop_observations
  compacted-Keeps cx horizon covered n d after higher e =
      (compacted-keeps cx st (λ it. Unit {0}) (λ row. Unit {0})
        (λ a. Keeps d a × (a.retention_horizon ≡ horizon)) covered horizon d (λ row i r e3 e4. tt)
        (λ it d0 d1 d2 q p e3 e4.
          let (low1, same1) = delete_outcomes-ok it.0.issuance_id d0 d1 e3 in
          let (low2, same2) = delete_issuance-ok it.0.issuance_id d1 d2 e4 in
          let at1 : d1.retention_horizon ≡ horizon =
            subst (λ a. a.retention_horizon ≡ horizon) same1 p.1 in
          let to1 = Keeps-trans d d0 d1 p.0 (delete_outcomes-Keeps it.0.issuance_id d0 d1 e3) in
          let step2 : Keeps d1 d2 =
            subst (Keeps d1) same2 (same-Keeps d1 _ (omega arith) refl refl) in
          (Keeps-trans d d1 d2 to1 step2, subst (λ a. a.retention_horizon ≡ horizon) same2 at1))
        (λ r a p. (Keeps-trans d a _ p.0 (same-Keeps a _ (omega arith) refl refl), p.1))
        (λ a p. (Keeps-trans d a _ p.0 (drop_observations-Keeps horizon a p.1), p.1)) n after
        (All-every (λ row. Unit {0}) (λ row. tt) _)
        (same-Keeps d (raise_horizon horizon d) (omega (arith, higher)) refl refl, refl) e).0

  Change-Keeps :
      {J : Type 0} (cx : Codec J) (d after : Database F) → Change cx st d after → Keeps d after
  unfolding append_issuance new_issuance append_outcome append_checkpoint outcome_row
      observation_row
  Change-Keeps cx d after unchanged = Keeps-refl d
  Change-Keeps cx d after (issued now_ms key bundle models e1 e2) =
      let row = new_issuance cx st now_ms key bundle models d in
      let (vacant, early, same) = insert_issuance-ok row d after e2 in
      subst (Keeps d) same (same-Keeps d (append_issuance row d) (omega arith) refl refl)
  Change-Keeps cx d after (resolved env i iid model status bytes e1 e2) = (
    omega arith,
    λ iid2 model2 o e. inl (
        find-append_some (λ (o : Outcome). o.issuance_id == iid2 && o.model == model2) d.outcomes
          (new_outcome cx st env.now_ms i model status bytes d) o e),
    λ series t r e. inl e,
  )
  Change-Keeps cx d after (observed series source samples n) =
      record_all-Keeps series source samples (n, d)
  Change-Keeps cx d after (checkpointed now_ms evidence last bytes) =
      same-Keeps d (append_checkpoint cx st now_ms evidence last bytes d) (omega arith) refl refl
  Change-Keeps cx d after (retired horizon covered n higher e1 e2) =
      compacted-Keeps cx horizon covered n d after higher e2

module _ {J F : Type 0} ⦃fl : Float F⦄ (cx : Codec J) (st : StoreSettings) where
  -- Under any calls, with any failures: the retention horizon only moves forward; a terminal outcome is
  -- found again unchanged unless its window has ended below the horizon; and so is the first receipt of
  -- an event time, unless it is older than the horizon by the further time that observations are kept.
  pub run-Keeps : (ops : List (Env × Op J F)) (j : Journal F) → Keeps st j.db (run cx st ops j).db
  unfolding run
  run-Keeps [] j = Keeps-refl st j.db
  run-Keeps ((env, op) ∷ ops) j =
      Keeps-trans st j.db (perform cx st env op j).db (run cx st ops (perform cx st env op j)).db
        (Change-Keeps st cx j.db (perform cx st env op j).db (perform-Change cx st env op j))
        (run-Keeps ops (perform cx st env op j))
