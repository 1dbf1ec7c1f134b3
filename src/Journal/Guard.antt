-- ===== src/Journal/Guard.antt =====
-- How every operation of the store ends (store.py: _guard, _tx, _fail, _require_healthy,
-- _check_quota): the answer, the exception that a failure of SQLite becomes, and what is written.
use predictive_autoscaler.Prelude.{
  ℕ, ◌+◌, Bool, Option, none, some, ltb, if◌then◌else◌, Result, ok, err, raise_if,
}
use predictive_autoscaler.Journal.Types.{
  StoreError, store_unavailable, store_full, store_corrupt, refused_by_journal, is_unavailable,
  Journal, Database, StoreSettings,
}

-- The exceptions of SQLite.
pub data DbFault : Type 0 where
  integrity_error : DbFault
  operational_error : Bool → Bool → DbFault
  database_error : DbFault

-- Whether SQLite fails, and where: at a statement before the COMMIT is durable, or after it.
pub data Moment : Type 0 where
  smooth : Moment
  at_read at_commit after_commit : DbFault → Moment

-- What a call finds: the clock, the space in use, and whether SQLite fails.
pub record Env : Type 0 where
  pub now_ms : ℕ
  pub usage_bytes : ℕ
  pub moment : Moment

-- `except` of _guard; an operational error tells whether its message has "full" or "malformed".
unfoldable pub error_of : DbFault → StoreError
error_of integrity_error = refused_by_journal
error_of (operational_error full malformed) =
    if full then store_full else if malformed then store_corrupt else store_unavailable
error_of database_error = store_corrupt

-- `_fail`: the first problem is kept.
unfoldable pub fail_with : StoreError → Option StoreError → Option StoreError
fail_with e none = some e
fail_with e (some p) = some p

module _ {F : Type 0} where
  unfoldable pub mark : StoreError → Journal F → Journal F
  mark e j = if is_unavailable e then record j { problem = fail_with e j.problem } else j

  unfoldable pub require_healthy : Journal F → Result StoreError (Unit {0})
  require_healthy j = elim j.problem [ none ↦ ok tt | some p ↦ err store_unavailable ]

-- The body of an operation: an answer without a transaction, or a transaction that leaves a
-- database and the answer read from it.
pub data Plan (F A : Type 0) : Type 0 where
  answer : Result StoreError A → Plan F A
  write : Result StoreError A → Database F → Plan F A

-- What is raised when a read fails: an unhealthy store refuses before it reads anything.
unfoldable pub read_error : {A : Type 0} → DbFault → Result StoreError A → StoreError
read_error f (err store_unavailable) = store_unavailable
read_error f _ = error_of f

module _ {F A : Type 0} where
  -- The end of the `with self._guard(...)` block.
  unfoldable pub report : Result StoreError A → Journal F → Result StoreError A × Journal F
  report (ok a) j = (ok a, j)
  report (err e) j = (err e, mark e j)

  unfoldable pub commit_at :
      Moment → Result StoreError A → Database F → Journal F → Result StoreError A × Journal F
  unfolding report
  commit_at smooth r d j = report r (record j { db = d })
  commit_at (at_read f) r d j = report (err (error_of f)) j
  commit_at (at_commit f) r d j = report (err (error_of f)) j
  commit_at (after_commit f) r d j = report (err (error_of f)) (record j { db = d })

  unfoldable pub read_at :
      Moment → Result StoreError A → Journal F → Result StoreError A × Journal F
  unfolding report
  read_at (at_read f) r j = report (err (read_error f r)) j
  read_at _ r j = report r j

  unfoldable pub guard : Moment → Plan F A → Journal F → Result StoreError A × Journal F
  guard m (answer r) j = read_at m r j
  guard m (write r d) j = commit_at m r d j

-- An operation that checks its arguments before its guarded block.
unfoldable pub checked :
    {F X A : Type 0}
    → Moment
    → Result StoreError X
    → (X → Plan F A)
    → Journal F
    → Result StoreError A × Journal F
checked m (err e) body j = (err e, j)
checked m (ok x) body j = guard m (body x) j

-- `_check_quota`
unfoldable pub check_quota : StoreSettings → Env → ℕ → Result StoreError (Unit {0})
check_quota st env incoming = raise_if (ltb st.quota_bytes (env.usage_bytes + incoming)) store_full
