-- ===== src/Journal.antt =====
-- The forecast journal (ml-engine/forecasting/store.py, class ForecastStore): immutable issuances and
-- outcomes, first receipts of observations, replaceable checkpoints, and retention. SQLite's tables are
-- lists in the order of their row numbers; a transaction writes all of its change or none of it.
pub mod Types
pub mod Guard
pub mod Reads
pub mod Commit
pub mod Observe
pub mod Compact
pub mod Ops
pub mod Change
pub mod Sweeps
pub mod Wellformed
pub mod Invariant
pub mod Standing
pub mod Finds
pub mod Recovery
pub mod Health
pub mod Failed
pub mod Crash
pub mod Names
pub mod Retry
pub mod Success
pub mod Forever
pub mod Restart
pub mod Permanent
pub mod Once
pub mod Writes
pub mod Covered
