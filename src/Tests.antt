-- ===== src/Tests.antt =====
-- Concrete inputs for the theorems: each is applied to one run of the code.
mod Numbers
mod Windows
mod Levels
mod Ledgers
mod Verdicts
mod Records
mod Clocks
mod Plans
mod Gaps
mod Slots
mod Paired
mod Journals
mod Resolved
