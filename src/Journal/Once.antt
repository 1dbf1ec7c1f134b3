-- ===== src/Journal/Once.antt =====
-- Exactly one terminal outcome of an issuance and a model (store.py: commit_outcome).
use predictive_autoscaler.Prelude.{
  bind-ok, ◌≡◌, refl, subst, ap, ◌∙◌, inl, inr, arith, Bool, true, false, not, ◌||◌, Bool-cases,
  Option, none, some, ◌==◌, string_eq, String, if◌then◌else◌, ok, err, raise_if, ◌>>◌,
}
use predictive_autoscaler.Journal.Types.{
  bad_input, integrity_conflict, is_unavailable, Outcome, OutcomeStatus, Journal, Database,
  StoreSettings, Codec, encode_bounded, max_outcome_bytes,
}
use predictive_autoscaler.Journal.Guard.{
  Env, smooth, Plan, answer, write, guard, checked, read_at, report, mark, require_healthy,
}
use predictive_autoscaler.Journal.Reads.{on_row, row_to_outcome, outcome_row}
use predictive_autoscaler.Journal.Commit.{
  present, with_flag, unless_refused, status_beq, append_outcome, new_outcome, outcome_found,
  outcome_plan, commit_outcome,
}
use predictive_autoscaler.Journal.Success.{
  guard-ok, checked-ok, unless_refused-answer, unless_refused-write,
}
use predictive_autoscaler.Journal.Retry.{present-ok, with_flag-ok}

module _ {J F : Type 0} (cx : Codec J) (st : StoreSettings) where
  -- The journal is healthy and has this terminal outcome.
  abbrev Settled : String → String → Journal F → Outcome → Type 0
  Settled iid model j o =
      (require_healthy j ≡ ok tt)
      × (on_row (row_to_outcome cx) (outcome_row iid model j.db) ≡ ok (some o))

  found-answer :
      (env : Env) (iid model : String) (status : OutcomeStatus) (bytes : String) (d : Database F)
      (found : Option Outcome) (o : Outcome) (c : Bool)
      → outcome_found cx st env iid model status bytes d found ≡ answer (ok (o, c))
      → found ≡ some o
  unfolding outcome_found
  found-answer env iid model status bytes d none o c e =
      let (i, e1, e2) = unless_refused-answer _ _ (o, c) e in absurd (ground (arith, e2))
  found-answer env iid model status bytes d (some x) o c e =
      elim (Bool-cases (not (status_beq x.status status) || not (x.payload == bytes))) [
        | inl differs ↦ absurd (ground (arith, rw differs at e))
        | inr same ↦
            let kept : ◌≡◌ {A = Plan F (Outcome × Bool)} (answer (ok (x, false)))
                (answer (ok (o, c))) =
              rw same at e in
            let value : x ≡ o = ground (arith, kept) in ap some value
      ]

  found-write :
      (env : Env) (iid model : String) (status : OutcomeStatus) (bytes : String)
      (d after : Database F) (found : Option Outcome) (o : Outcome) (c : Bool)
      → outcome_found cx st env iid model status bytes d found ≡ write (ok (o, c)) after
      → on_row (row_to_outcome cx) (outcome_row iid model after) ≡ ok (some o)
  unfolding outcome_found
  found-write env iid model status bytes d after (some x) o c e =
      elim (Bool-cases (not (status_beq x.status status) || not (x.payload == bytes))) [
        | inl differs ↦ absurd (ground (arith, rw differs at e))
        | inr same ↦ absurd (ground (arith, rw same at e))
      ]
  found-write env iid model status bytes d after none o c e =
      let (i, e1, e2) = unless_refused-write _ _ (ok (o, c)) after e in
      let next = append_outcome (new_outcome cx st env.now_ms i model status bytes d) d in
      let same : next ≡ after = ground (arith, e2) in
      let r = on_row (row_to_outcome cx) (outcome_row iid model next) in
      let read : with_flag true (present r) ≡ ok (o, c) = ground (arith, e2) in
      let (e3, e4) = with_flag-ok true c (present r) o read in
      subst (λ a. on_row (row_to_outcome cx) (outcome_row iid model a) ≡ ok (some o)) same
        (present-ok r o e3)

  plan-Settled :
      (env : Env) (iid model : String) (status : OutcomeStatus) (bytes : String)
      (j after : Journal F) (o : Outcome) (c : Bool)
      → guard env.moment (outcome_plan cx st env iid model status bytes j) j ≡ (ok (o, c), after)
      → Settled iid model after o
  unfolding outcome_plan require_healthy
  plan-Settled env iid model status bytes j after o c e =
      elim (guard-ok env.moment _ (o, c) j after e) [
        | inl (e1, e2) ↦
            let (found, e3, e4) = unless_refused-answer _ _ (o, c) e1 in
            let (u, well, read) = bind-ok (require_healthy j) _ found e3 in
            subst (λ k. Settled iid model k o) e2
              (well, read ∙ ap ok (found-answer env iid model status bytes j.db found o c e4))
        | inr (d, e1, e2) ↦
            let (found, e3, e4) = unless_refused-write _ _ (ok (o, c)) d e1 in
            let (u, well, read) = bind-ok (require_healthy j) _ found e3 in
            subst (λ k. Settled iid model k o) e2
              (well, found-write env iid model status bytes j.db d found o c e4)
      ]

  Settled-again :
      (env : Env) (iid model : String) (status : OutcomeStatus) (bytes : String) (j : Journal F)
      (o : Outcome)
      → env.moment ≡ smooth
      → Settled iid model j o
      → guard env.moment (outcome_plan cx st env iid model status bytes j) j ≡ (
        if not (status_beq o.status status) || not (o.payload == bytes)
            then err integrity_conflict
            else ok (o, false),
        j,
      )
  unfolding outcome_plan unless_refused outcome_found guard read_at report mark is_unavailable
  Settled-again env iid model status bytes j o calm (well, read) =
      elim (Bool-cases (not (status_beq o.status status) || not (o.payload == bytes))) [
        | inl differs ↦ rw (well, read, calm, differs) refl
        | inr same ↦ rw (well, read, calm, same) refl
      ]

  -- After a commit_outcome that returned an outcome, a later one for the same issuance and model, with any
  -- status and payload that fits, is answered with that very outcome as not created if status and
  -- bytes are the same, is a conflict otherwise, and changes nothing. The later call does not fail.
  pub commit_outcome-again :
      (env : Env) (iid model : String) (status : OutcomeStatus) (payload : J) (j after : Journal F)
      (o : Outcome) (c : Bool) (again : Env) (status2 : OutcomeStatus) (payload2 : J)
      (bytes2 : String)
      → commit_outcome cx st env iid model status payload j ≡ (ok (o, c), after)
      → encode_bounded cx payload2 max_outcome_bytes ≡ ok bytes2
      → again.moment ≡ smooth
      → commit_outcome cx st again iid model status2 payload2 after ≡ (
        if not (status_beq o.status status2) || not (o.payload == bytes2)
            then err integrity_conflict
            else ok (o, false),
        after,
      )
  unfolding commit_outcome checked
  commit_outcome-again env iid model status payload j after o c again status2 payload2 bytes2 e fits
        calm =
      let (bytes, e1, e2) =
        checked-ok env.moment
          (raise_if (model == "") bad_input >> encode_bounded cx payload max_outcome_bytes) _ (o, c)
          j after e in
      let (u, named, e3) = bind-ok (raise_if (model == "") bad_input) _ bytes e1 in
      let settled = plan-Settled env iid model status bytes j after o c e2 in
      rw (named, fits) (Settled-again again iid model status2 bytes2 after o calm settled)
