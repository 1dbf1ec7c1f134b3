-- ===== src/Trust.antt =====
-- Trust for the forecasts of one autoscaler (ml-engine/forecasting/trust.py): evidence ledgers, the
-- gates of a candidate, its hysteresis, paired challenger evidence, selection and the verdict.
-- The keys of the source's dictionaries that are decimal numbers (hours, window ends) are numbers
-- here.
pub mod Types
pub mod Ledger
pub mod Windows
pub mod Candidate
pub mod Gating
pub mod Hysteresis
pub mod Pairs
pub mod Selection
pub mod Evaluate
