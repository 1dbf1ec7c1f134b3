-- ===== src/Journal/Crash.antt =====
-- A commit that SQLite fails, and the same commit after the journal is opened again (store.py:
-- commit_issuance, _tx).
use mathlib.Core.Path.{fun_ext}
use predictive_autoscaler.Prelude.{
  ◌≡◌, ◌⊎◌, refl, sym, ap, ◌∙◌, inl, inr, arith, Bool, false, Option, none, some, List, String,
  Result, ok, err, bind-ok, ◌>>◌,
}
use predictive_autoscaler.Journal.Types.{
  StoreError, IssuanceKey, Issuance, Journal, Database, StoreSettings, Codec, encode_bounded,
}
use predictive_autoscaler.Journal.Guard.{
  report, commit_at, read_at, Env, Moment, smooth, at_read, at_commit, after_commit, Plan, answer,
  write, guard, checked, error_of, read_error, require_healthy, check_quota,
}
use predictive_autoscaler.Journal.Reads.{get_issuance, models_of}
use predictive_autoscaler.Journal.Commit.{
  unless_refused, issue_row, commit_new, commit_found, checked_issuance, commit_issuance,
  issuance_plan,
}
use predictive_autoscaler.Journal.Writes.{db-mark}
use predictive_autoscaler.Journal.Success.{guard-ok, checked-ok}
use predictive_autoscaler.Journal.Names.{NamesOrdered, models_of-again}
use predictive_autoscaler.Journal.Retry.{commit-Answers, retry-Answers}

-- The same call, with the failure of SQLite that `m` tells.
abbrev pub failing_at : Moment → Env → Env
failing_at m env = record env { moment = m }

module _ {F : Type 0} where
  -- A file opened by a new process: no failure is on record.
  abbrev pub reopened : Database F → Journal F
  reopened d = record { problem = none; db = d }

  reopened-healthy : (j : Journal F) → j.problem ≡ none → reopened j.db ≡ j
  reopened-healthy j h = ap (λ q. record j { problem = q }) (sym h)

  healthy_problem : (j : Journal F) → require_healthy j ≡ ok tt → j.problem ≡ none
  unfolding require_healthy
  healthy_problem j h = ground (arith, h)

module _ {F A : Type 0} where
  report-db : (r : Result StoreError A) (j : Journal F) → (report r j).1.db ≡ j.db
  unfolding report
  report-db (ok a) j = refl
  report-db (err e) j = db-mark e j

  answer-db :
      (m : Moment) (r : Result StoreError A) (j : Journal F) → (guard m (answer r) j).1.db ≡ j.db
  unfolding guard read_at
  answer-db smooth r j = report-db r j
  answer-db (at_read f) r j = report-db (err (read_error f r)) j
  answer-db (at_commit f) r j = report-db r j
  answer-db (after_commit f) r j = report-db r j

  write-db :
      (m : Moment) (r : Result StoreError A) (d : Database F) (j : Journal F)
      → ((guard m (write r d) j).1.db ≡ j.db) ⊎ ((guard m (write r d) j).1.db ≡ d)
  unfolding guard commit_at
  write-db smooth r d j = inr (report-db r (record j { db = d }))
  write-db (at_read f) r d j = inl (report-db (err (error_of f)) j)
  write-db (at_commit f) r d j = inl (report-db (err (error_of f)) j)
  write-db (after_commit f) r d j = inr (report-db (err (error_of f)) (record j { db = d }))

  -- Where a block succeeds when nothing fails, a failure leaves the file as it was before or after.
  guard-before_or_after :
      (m : Moment) (p : Plan F A) (a : A) (j after : Journal F)
      → guard smooth p j ≡ (ok a, after)
      → ((guard m p j).1.db ≡ j.db) ⊎ ((guard m p j).1.db ≡ after.db)
  guard-before_or_after m p a j after e = elim (guard-ok smooth p a j after e) [
    | inl (e1, e2) ↦ inl (ap (λ q. (guard m q j).1.db) e1 ∙ answer-db m (ok a) j)
    | inr (d, e1, e2) ↦
        let there : d ≡ after.db = ap (λ (k : Journal F). k.db) e2 in
        let same = ap (λ q. (guard m q j).1.db) e1 in
        elim (write-db m (ok a) d j) [
          | inl before ↦ inl (same ∙ before)
          | inr written ↦ inr (same ∙ written ∙ there)
        ]
  ]

  guard-problem :
      (p : Plan F A) (a : A) (j after : Journal F)
      → guard smooth p j ≡ (ok a, after)
      → after.problem ≡ j.problem
  guard-problem p a j after e = elim (guard-ok smooth p a j after e) [
    | inl (e1, e2) ↦ ap (λ (k : Journal F). k.problem) (sym e2)
    | inr (d, e1, e2) ↦ ap (λ (k : Journal F). k.problem) (sym e2)
  ]

module _ {J F : Type 0} (cx : Codec J) (st : StoreSettings) where
  commit_found_moment :
      (m : Moment) (env : Env) (key : IssuanceKey) (bundle : String) (models : List String)
      (d : Database F) (found : Option Issuance)
      → commit_found cx st (failing_at m env) key bundle models d found
        ≡ commit_found cx st (failing_at smooth env) key bundle models d found
  unfolding commit_found commit_new issue_row check_quota
  commit_found_moment m env key bundle models d (some x) = refl
  commit_found_moment m env key bundle models d none = refl

  -- What a commit would write does not depend on a failure.
  issuance_plan_moment :
      (m : Moment) (env : Env) (key : IssuanceKey) (bundle : String) (models : List String)
      (j : Journal F)
      → issuance_plan cx st (failing_at m env) key bundle models j
        ≡ issuance_plan cx st (failing_at smooth env) key bundle models j
  unfolding issuance_plan
  issuance_plan_moment m env key bundle models j =
      ap (λ f. unless_refused (require_healthy j >> get_issuance cx key j.db) f)
        (fun_ext (λ found. commit_found_moment m env key bundle models j.db found))

  -- A guarded commit that returns a record: the file after any failure, and the retry.
  module _ (m : Moment) (env : Env) (key : IssuanceKey) (bundle : String) (models : List String)
      (j after : Journal F) (i : Issuance) (c : Bool) (again : models_of cx models ≡ ok models)
      (done : guard smooth (issuance_plan cx st (failing_at smooth env) key bundle models j) j
        ≡ (ok (i, c), after)) where
    abbrev left : Database F
    left = (guard m (issuance_plan cx st (failing_at m env) key bundle models j) j).1.db

    left_before_or_after : (left ≡ j.db) ⊎ (left ≡ after.db)
    left_before_or_after =
        let same = ap (λ p. (guard m p j).1.db) (issuance_plan_moment m env key bundle models j) in
        elim (guard-before_or_after m _ (i, c) j after done) [
          | inl before ↦ inl (same ∙ before)
          | inr written ↦ inr (same ∙ written)
        ]

    guard-reopened :
        (d : Bool) × (guard smooth
            (issuance_plan cx st (failing_at smooth env) key bundle models (reopened left))
            (reopened left)
          ≡ (ok (i, d), after))
    guard-reopened =
        let (healthy, read, own) =
          commit-Answers cx st (failing_at smooth env) key bundle models j after i c again done in
        let clean = healthy_problem after healthy in
        let clean_before = sym (guard-problem _ (i, c) j after done) ∙ clean in
        let repeat = λ (k : Journal F).
          guard smooth (issuance_plan cx st (failing_at smooth env) key bundle models k) k in
        elim left_before_or_after [
          | inl before ↦ (
            c,
            ap (λ d. repeat (reopened d)) before
                ∙ ap repeat (reopened-healthy j clean_before)
                ∙ done,
          )
          | inr written ↦ (
            false,
            ap (λ d. repeat (reopened d)) written
                ∙ ap repeat (reopened-healthy after clean)
                ∙ retry-Answers cx st (failing_at smooth env) key bundle models after i refl
                    (healthy, read, own),
          )
        ]

  pub commit-reopened :
      (m : Moment) (env : Env) (key : IssuanceKey) (payload : J) (models : List String)
      (j after : Journal F) (i : Issuance) (c : Bool)
      → NamesOrdered cx
      → commit_issuance cx st (failing_at smooth env) key payload models j ≡ (ok (i, c), after)
      → (d : Bool) × (commit_issuance cx st
            (failing_at smooth env)
            key
            payload
            models
            (reopened (commit_issuance cx st (failing_at m env) key payload models j).1.db)
          ≡ (ok (i, d), after))
  unfolding commit_issuance checked_issuance checked
  commit-reopened m env key payload models j after i c ordered e =
      let (args, e1, e2) =
        checked-ok smooth (checked_issuance cx st payload models) _ (i, c) j after e in
      let (bundle, e3, e4) = bind-ok (encode_bounded cx payload st.max_bundle_bytes) _ args e1 in
      let (expected, e5, e6) = bind-ok (models_of cx models) _ args e4 in
      let same : (bundle, expected) ≡ args = ground (arith, e6) in
      let done : guard smooth (issuance_plan cx st (failing_at smooth env) key bundle expected j) j
          ≡ (ok (i, c), after) =
        ap
          (λ (p : String × List String).
            guard smooth (issuance_plan cx st (failing_at smooth env) key p.0 p.1 j) j)
          same
        ∙ e2 in
      rw (e3, e5)
        (guard-reopened m env key bundle expected j after i c
          (models_of-again cx models expected ordered e5) done)
