-- ===== src/Journal/Health.antt =====
-- An unhealthy journal is never written again (store.py: _guard, _require_healthy).
use predictive_autoscaler.Prelude.{
  ◌-◌, ◌≡◌, refl, ◌∙◌, ap, inl, inr, Bool-cases, some, List, [], ◌∷◌, nat_eq, string_eq, String,
  Float, Result, ok, err, ◌>>◌,
}
use predictive_autoscaler.Journal.Types.{
  StoreError, store_unavailable, is_unavailable, IssuanceKey, Journal, StoreSettings, Codec,
}
use predictive_autoscaler.Journal.Guard.{
  report, read_at, Env, Moment, smooth, at_read, at_commit, after_commit, Plan, answer, guard,
  checked, mark, read_error, require_healthy,
}
use predictive_autoscaler.Journal.Commit.{
  unless_refused, issuance_plan, commit_issuance, issued_before, get_or_issue, get_or_commit,
  outcome_plan, commit_outcome,
}
use predictive_autoscaler.Journal.Observe.{record_observations, write_checkpoint}
use predictive_autoscaler.Journal.Compact.{compact_to, compact}
use predictive_autoscaler.Journal.Ops.{
  Op, commit_issuance_op, get_or_issue_op, commit_outcome_op, record_observations_op,
  write_checkpoint_op, compact_op, get_issuance_op, outcomes_after_op, latest_checkpoint_op,
  perform,
}
use predictive_autoscaler.Journal.Guard.{at_commit, fail_with}
use predictive_autoscaler.Journal.Ops.{run}

module _ {F : Type 0} where
  mark-unhealthy : (e p : StoreError) (j : Journal F) → j.problem ≡ some p → mark e j ≡ j
  unfolding mark fail_with
  mark-unhealthy e p j h =
      let kept : fail_with e j.problem ≡ j.problem = rw h refl in
      elim (Bool-cases (is_unavailable e)) [
        | inl u ↦ rw u (ap (λ q. record j { problem = q }) kept)
        | inr u ↦ rw u refl
      ]

  refused :
      (p : StoreError) (j : Journal F)
      → j.problem ≡ some p
      → require_healthy j ≡ err store_unavailable
  unfolding require_healthy
  refused p j h = rw h refl

module _ {F A : Type 0} where
  report-unhealthy :
      (r : Result StoreError A) (p : StoreError) (j : Journal F)
      → j.problem ≡ some p
      → (report r j).1 ≡ j
  unfolding report
  report-unhealthy (ok a) p j h = refl
  report-unhealthy (err e) p j h = mark-unhealthy e p j h

  answer-unhealthy :
      (m : Moment) (r : Result StoreError A) (p : StoreError) (j : Journal F)
      → j.problem ≡ some p
      → (guard m (answer r) j).1 ≡ j
  unfolding guard read_at
  answer-unhealthy smooth r p j h = report-unhealthy r p j h
  answer-unhealthy (at_read f) r p j h = report-unhealthy (err (read_error f r)) p j h
  answer-unhealthy (at_commit f) r p j h = report-unhealthy r p j h
  answer-unhealthy (after_commit f) r p j h = report-unhealthy r p j h

  -- A plan that asks for a healthy store first.
  plan-unhealthy :
      {B : Type 0} (m : Moment) (k : Result StoreError B) (f : B → Plan F A) (p : StoreError)
      (j : Journal F)
      → j.problem ≡ some p
      → (guard m (unless_refused (require_healthy j >> k) f) j).1 ≡ j
  unfolding unless_refused
  plan-unhealthy m k f p j h = rw (refused p j h) (answer-unhealthy m (err store_unavailable) p j h)

  checked-unhealthy :
      {X : Type 0} (m : Moment) (r : Result StoreError X) (body : X → Plan F A) (p : StoreError)
      (j : Journal F)
      → ((x : X) → (guard m (body x) j).1 ≡ j)
      → (checked m r body j).1 ≡ j
  unfolding checked
  checked-unhealthy m (ok x) body p j h = h x
  checked-unhealthy m (err e) body p j h = refl

module _ {J F : Type 0} (cx : Codec J) (st : StoreSettings) where
  before-unhealthy :
      (key : IssuanceKey) (models : List String) (p : StoreError) (j : Journal F)
      → j.problem ≡ some p
      → issued_before cx st key models j ≡ err store_unavailable
  unfolding issued_before
  before-unhealthy key models p j h = rw (refused p j h) refl

module _ {J F : Type 0} ⦃fl : Float F⦄ (cx : Codec J) (st : StoreSettings) where
  perform-unhealthy :
      (env : Env) (op : Op J F) (p : StoreError) (j : Journal F)
      → j.problem ≡ some p
      → perform cx st env op j ≡ j
  unfolding perform get_or_issue get_or_commit unless_refused commit_issuance commit_outcome
      issuance_plan outcome_plan record_observations write_checkpoint compact
  perform-unhealthy env (commit_issuance_op key payload models) p j h =
      checked-unhealthy env.moment _ _ p j (λ x. plan-unhealthy env.moment _ _ p j h)
  perform-unhealthy env (get_or_issue_op key build models) p j h =
      ap (λ b. (get_or_commit cx st env key build models j b).1)
        (before-unhealthy cx st key models p j h)
      ∙ report-unhealthy (err store_unavailable) p j h
  perform-unhealthy env (commit_outcome_op iid model status payload) p j h =
      checked-unhealthy env.moment _ _ p j (λ x. plan-unhealthy env.moment _ _ p j h)
  perform-unhealthy env (record_observations_op series samples source) p j h =
      checked-unhealthy env.moment _ _ p j (λ x. plan-unhealthy env.moment _ _ p j h)
  perform-unhealthy env (write_checkpoint_op evidence state last) p j h =
      checked-unhealthy env.moment _ _ p j (λ x. plan-unhealthy env.moment _ _ p j h)
  perform-unhealthy env (compact_op now_s) p j h =
      ap
        (λ (r : Result StoreError (Unit {0})).
          (guard env.moment
            (unless_refused r (λ u. compact_to cx st (now_s - st.retention_seconds) j.db)) j).1)
        (refused p j h)
      ∙ answer-unhealthy env.moment (err store_unavailable) p j h
  perform-unhealthy env (get_issuance_op key) p j h = answer-unhealthy env.moment _ p j h
  perform-unhealthy env (outcomes_after_op evidence after_seq) p j h =
      answer-unhealthy env.moment _ p j h
  perform-unhealthy env (latest_checkpoint_op evidence) p j h = answer-unhealthy env.moment _ p j h

  -- A journal that has failed once is, under any further calls, exactly as it was: nothing is written,
  -- and the first problem stays on record.
  pub run-unhealthy :
      (ops : List (Env × Op J F)) (p : StoreError) (j : Journal F)
      → j.problem ≡ some p
      → run cx st ops j ≡ j
  unfolding run
  run-unhealthy [] p j h = refl
  run-unhealthy ((env, op) ∷ ops) p j h =
      let same = perform-unhealthy env op p j h in rw same (run-unhealthy ops p j h)
