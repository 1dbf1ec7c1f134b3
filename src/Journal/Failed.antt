-- ===== src/Journal/Failed.antt =====
-- A call that fails records its failure (store.py: _guard, _fail), and the journal is never written
-- again.
use predictive_autoscaler.Prelude.{
  ◌≡◌, refl, sym, arith, Bool, true, false, Option, none, some, List, String, string_eq, nat_eq,
  Float, Result, ok, err, raise_if, ◌>>=◌, ℕ,
}
use predictive_autoscaler.Journal.Types.{
  StoreError, bad_input, is_unavailable, IssuanceKey, Issuance, Journal, StoreSettings, Codec,
  encode_bounded, within,
}
use predictive_autoscaler.Journal.Guard.{
  report, commit_at, read_at, Env, Moment, smooth, at_read, at_commit, after_commit, Plan, answer,
  write, guard, checked, mark, fail_with, error_of, read_error,
}
use predictive_autoscaler.Journal.Reads.{models_of, get_issuance, outcomes_after, latest_checkpoint}
use predictive_autoscaler.Journal.Commit.{
  checked_issuance, commit_issuance, issued_before, get_or_issue, get_or_commit, commit_outcome,
}
use predictive_autoscaler.Journal.Observe.{record_observations, write_checkpoint}
use predictive_autoscaler.Journal.Compact.{compact}
use predictive_autoscaler.Journal.Ops.{
  Op, commit_issuance_op, get_or_issue_op, commit_outcome_op, record_observations_op,
  write_checkpoint_op, compact_op, get_issuance_op, outcomes_after_op, latest_checkpoint_op,
  perform, run,
}
use predictive_autoscaler.Journal.Health.{run-unhealthy}

abbrev pub exception : {A : Type 0} → Result StoreError A → Option StoreError
exception (ok a) = none
exception (err e) = some e

-- The problem on record after a call that raised `e` is the one before it, and `e` where there was none.
pub data Recorded (e : StoreError) : Option StoreError → Option StoreError → Type 0 where
  first : Recorded e none (some e)
  kept : (p : StoreError) → Recorded e (some p) (some p)

Recorded-some :
    (e : StoreError) (o o' : Option StoreError) → Recorded e o o' → (p : StoreError) × (o' ≡ some p)
Recorded-some e o o' first = (e, refl)
Recorded-some e o o' (kept p) = (p, refl)

-- The arguments' checks raise no StoreUnavailable.
abbrev OnlyInput : {A : Type 0} → Result StoreError A → Type 0
OnlyInput r = (e : StoreError) → r ≡ err e → is_unavailable e ≡ false

module _ {F : Type 0} where
  mark-Recorded :
      (e : StoreError) (o : Option StoreError) (j : Journal F)
      → is_unavailable e ≡ true
      → j.problem ≡ o
      → Recorded e o (mark e j).problem
  unfolding mark fail_with
  mark-Recorded e none j u h = rw (u, h) first
  mark-Recorded e (some p) j u h = rw (u, h) (kept p)

module _ {F A : Type 0} where
  report-Recorded :
      (r : Result StoreError A) (e : StoreError) (o : Option StoreError) (j : Journal F)
      → exception (report r j).0 ≡ some e
      → is_unavailable e ≡ true
      → j.problem ≡ o
      → Recorded e o (report r j).1.problem
  unfolding report
  report-Recorded (ok a) e o j h u s = absurd (ground (arith, h))
  report-Recorded (err x) e o j h u s =
      let same : x ≡ e = ground (arith, h) in rw same (mark-Recorded e o j u s)

  guard-Recorded :
      (m : Moment) (p : Plan F A) (e : StoreError) (j : Journal F)
      → exception (guard m p j).0 ≡ some e
      → is_unavailable e ≡ true
      → Recorded e j.problem (guard m p j).1.problem
  unfolding guard commit_at read_at
  guard-Recorded smooth (answer r) e j h u = report-Recorded r e j.problem j h u refl
  guard-Recorded (at_read f) (answer r) e j h u =
      report-Recorded (err (read_error f r)) e j.problem j h u refl
  guard-Recorded (at_commit f) (answer r) e j h u = report-Recorded r e j.problem j h u refl
  guard-Recorded (after_commit f) (answer r) e j h u = report-Recorded r e j.problem j h u refl
  guard-Recorded smooth (write r d) e j h u =
      report-Recorded r e j.problem (record j { db = d }) h u refl
  guard-Recorded (at_read f) (write r d) e j h u =
      report-Recorded (err (error_of f)) e j.problem j h u refl
  guard-Recorded (at_commit f) (write r d) e j h u =
      report-Recorded (err (error_of f)) e j.problem j h u refl
  guard-Recorded (after_commit f) (write r d) e j h u =
      report-Recorded (err (error_of f)) e j.problem (record j { db = d }) h u refl

  checked-Recorded :
      {X : Type 0} (m : Moment) (r : Result StoreError X) (body : X → Plan F A) (e : StoreError)
      (j : Journal F)
      → OnlyInput r
      → exception (checked m r body j).0 ≡ some e
      → is_unavailable e ≡ true
      → Recorded e j.problem (checked m r body j).1.problem
  unfolding checked
  checked-Recorded m (ok x) body e j only h u = guard-Recorded m (body x) e j h u
  checked-Recorded m (err x) body e j only h u =
      let same : x ≡ e = ground (arith, h) in
      let input : is_unavailable x ≡ false = only x refl in
      absurd (ground (arith, rw same at input, u))

raise_if-OnlyInput : (c : Bool) → OnlyInput (raise_if c bad_input)
unfolding is_unavailable
raise_if-OnlyInput true e h = let same : bad_input ≡ e = ground (arith, h) in rw (sym same) refl
raise_if-OnlyInput false e h = absurd (ground (arith, h))

bind-OnlyInput :
    {A B : Type 0} (r : Result StoreError A) (f : A → Result StoreError B)
    → OnlyInput r
    → ((a : A) → OnlyInput (f a))
    → OnlyInput (r >>= f)
bind-OnlyInput (ok a) f h k = k a
bind-OnlyInput (err x) f h k = λ e q. h e (ground (arith, q))

module _ {J : Type 0} (cx : Codec J) where
  within-OnlyInput : (cap : ℕ) (o : Option String) → OnlyInput (within cx cap o)
  unfolding within is_unavailable
  within-OnlyInput cap none e h = ground (arith, h)
  within-OnlyInput cap (some bytes) e h = ground (arith, h)

  models_of-OnlyInput : (models : List String) → OnlyInput (models_of cx models)
  unfolding models_of is_unavailable
  models_of-OnlyInput models e h = ground (arith, h)

module _ {J F : Type 0} ⦃fl : Float F⦄ (cx : Codec J) (st : StoreSettings) where
  -- The exception of a call.
  unfoldable pub raised : Env → Op J F → Journal F → Option StoreError
  raised env (commit_issuance_op key payload models) j =
      exception (commit_issuance cx st env key payload models j).0
  raised env (get_or_issue_op key build models) j =
      exception (get_or_issue cx st env key build models j).0
  raised env (commit_outcome_op iid model status payload) j =
      exception (commit_outcome cx st env iid model status payload j).0
  raised env (record_observations_op series samples source) j =
      exception (record_observations cx st env series samples source j).0
  raised env (write_checkpoint_op evidence state last) j =
      exception (write_checkpoint cx st env evidence state last j).0
  raised env (compact_op now_s) j = exception (compact cx st env now_s j).0
  raised env (get_issuance_op key) j =
      exception (guard env.moment (answer (get_issuance cx key j.db)) j).0
  raised env (outcomes_after_op evidence after_seq) j =
      exception (guard env.moment (answer (outcomes_after cx evidence after_seq j.db)) j).0
  raised env (latest_checkpoint_op evidence) j =
      exception (guard env.moment (answer (latest_checkpoint cx evidence j.db)) j).0

  issuance-Recorded :
      (env : Env) (key : IssuanceKey) (payload : J) (models : List String) (e : StoreError)
      (j : Journal F)
      → exception (commit_issuance cx st env key payload models j).0 ≡ some e
      → is_unavailable e ≡ true
      → Recorded e j.problem (commit_issuance cx st env key payload models j).1.problem
  unfolding commit_issuance checked_issuance encode_bounded
  issuance-Recorded env key payload models e j h u =
      checked-Recorded env.moment _ _ e j
        (bind-OnlyInput _ _ (within-OnlyInput cx st.max_bundle_bytes (cx.encode payload)) (λ bundle.
          bind-OnlyInput _ _ (models_of-OnlyInput cx models) (λ ms x q. ground (arith, q))))
        h u

  get_or_commit-Recorded :
      (env : Env) (key : IssuanceKey) (build : String → J) (models : List String) (e : StoreError)
      (j : Journal F) (before : Result StoreError (Option Issuance))
      → exception (get_or_commit cx st env key build models j before).0 ≡ some e
      → is_unavailable e ≡ true
      → Recorded e j.problem (get_or_commit cx st env key build models j before).1.problem
  unfolding get_or_commit
  get_or_commit-Recorded env key build models e j (err x) h u =
      report-Recorded (err x) e j.problem j h u refl
  get_or_commit-Recorded env key build models e j (ok (some i)) h u =
      guard-Recorded env.moment _ e j h u
  get_or_commit-Recorded env key build models e j (ok none) h u =
      issuance-Recorded env key _ models e j h u

  perform-Recorded :
      (env : Env) (op : Op J F) (e : StoreError) (j : Journal F)
      → raised env op j ≡ some e
      → is_unavailable e ≡ true
      → Recorded e j.problem (perform cx st env op j).problem
  unfolding raised perform get_or_issue commit_outcome encode_bounded record_observations
      write_checkpoint compact
  perform-Recorded env (commit_issuance_op key payload models) e j h u =
      issuance-Recorded env key payload models e j h u
  perform-Recorded env (get_or_issue_op key build models) e j h u =
      get_or_commit-Recorded env key build models e j (issued_before cx st key models j) h u
  perform-Recorded env (commit_outcome_op iid model status payload) e j h u =
      checked-Recorded env.moment _ _ e j
        (bind-OnlyInput _ _ (raise_if-OnlyInput _) (λ v. within-OnlyInput cx _ (cx.encode payload)))
        h u
  perform-Recorded env (record_observations_op series samples source) e j h u =
      checked-Recorded env.moment _ _ e j (raise_if-OnlyInput _) h u
  perform-Recorded env (write_checkpoint_op evidence state last) e j h u =
      checked-Recorded env.moment _ _ e j (within-OnlyInput cx _ (cx.encode state)) h u
  perform-Recorded env (compact_op now_s) e j h u = guard-Recorded env.moment _ e j h u
  perform-Recorded env (get_issuance_op key) e j h u = guard-Recorded env.moment _ e j h u
  perform-Recorded env (outcomes_after_op evidence after_seq) e j h u =
      guard-Recorded env.moment _ e j h u
  perform-Recorded env (latest_checkpoint_op evidence) e j h u = guard-Recorded env.moment _ e j h u

  -- A call that raises StoreUnavailable, or one of its subclasses, leaves a problem on record: its own,
  -- or the one that was there before. Any further calls leave the journal exactly as that call left it:
  -- nothing is written, and the problem stays.
  pub perform_failed :
      (env : Env) (op : Op J F) (e : StoreError) (j : Journal F) (ops : List (Env × Op J F))
      → raised env op j ≡ some e
      → is_unavailable e ≡ true
      → Recorded e j.problem (perform cx st env op j).problem
        × (run cx st ops (perform cx st env op j) ≡ perform cx st env op j)
  perform_failed env op e j ops h u =
      let on_record = perform-Recorded env op e j h u in
      let (p, problem) = Recorded-some e _ _ on_record in
      (on_record, run-unhealthy cx st ops p (perform cx st env op j) problem)
