-- ===== src/Lib.antt =====
-- The trust pipeline of the predictive autoscaler's forecasts (ml-engine/forecasting).
--
-- An autoscaler's object is resolved to settings and a lead, and these give the windows (contracts.py).
-- The forecast journal (store.py) keeps issuances and their outcomes for good, and checkpoints of what
-- is computed from them. An issued forecast window matures into one terminal outcome (maturation.py).
-- Its outcome feeds the window calibration of its model (calibration.py), which issues the upper bounds
-- of later windows, and the model's evidence ledger (trust.py). From the ledgers the gates of each
-- candidate are computed; they drive its hysteresis and the selection, and together these give the
-- verdict on whether the forecasts may act on the scaling. Receipt times come from a clock that never
-- goes backwards (clock.py); the services hold their models in a registry (ml-engine/api/registry.py).
--
-- Files, and the code that each models:
--   Maturation        maturation.py: check_window in Maturation/Window, the loop over the targets in
--                     Maturation/Collect, the payloads in Maturation/Outcomes, window_outcome and
--                     truth_deadline_ms in Maturation.
--   Calibration       calibration.py: the policy, the rank, the bound and the initial state in
--                     Calibration, apply in Calibration/Apply, the records in Calibration/Types.
--   Trust             trust.py: note_issuance in Trust/Ledger, note_outcome in Trust/Ledger/Outcome,
--                     the trailing windows in Trust/Windows, candidate_gates in Trust/Gating over the
--                     records of Trust/Candidate, step in Trust/Hysteresis, note_pair and the
--                     challenger tests in Trust/Pairs, select in Trust/Selection, evaluate in
--                     Trust/Evaluate.
--   Journal           store.py: the rows, the schema and the settings in Journal/Types, _guard and _tx
--                     in Journal/Guard, the reads in Journal/Reads, the issuances and outcomes in
--                     Journal/Commit, observations, checkpoints and recover in Journal/Observe, compact
--                     in Journal/Compact, sequences of calls in Journal/Ops.
--   Settings          contracts.py: resolve_settings, _check_feasible and resolve_lead in Settings, over
--                     the tables and records of Settings/Types; ForecastWindow and make_window in
--                     Settings/Windows.
--   Registry          ml-engine/api/registry.py: install, remove and pin of the loaded model records, as
--                     steps; the cleanup of a record is an entry of a list.
--   Admission         ml-engine/api/admission.py: the slots of the worker threads.
--   Clock             clock.py: the receipt clock and the manual clock, over what the wall clock shows.
--   History           history.py: plan_chunks, which cuts a history read into chunks.
--   Gapfill           ml-engine/data/gapfill.py: which gaps of a series fill_interior_gaps fills, and with
--                     what; neither its choice of a run nor its cap on the filled part.
--   Prelude           tests, lists, dictionaries, results, sorting, and the interface of the
--                     floating-point numbers.
--   Tests             concrete runs, to which the theorems are applied.
-- The other files hold proofs, and are named for what they prove.
--
-- How the code is modelled. A function that copies a dictionary and changes the copy is a function from
-- state to state; one that raises returns a result with the exception. A dictionary with fixed keys is
-- a record, any other one a list of pairs in the order of insertion; decimal text keys are numbers.
-- Floating-point numbers are a type parameter with the operations that the code calls (`Float`); a
-- theorem that needs more of them, such as a total order, says so among its hypotheses, and the
-- comparisons are those of numbers that are no NaN. Times, counts and levels are natural numbers:
-- where the source subtracts, the subtraction is moved to the other side of the comparison, or stops at
-- 0 where the source takes the maximum with something that is not negative. SHA-256 of canonical JSON is
-- a parameter (`Digests`). Loops are over lists, but for that of plan_chunks, which runs on fuel: the
-- number of the grid points, of which every round takes at least one.
--
-- The journal is a value: its tables as lists in the order of row numbers, and the first failure. A call
-- is given the time, the space in use, and whether SQLite fails at a read, at the COMMIT or after it. A
-- transaction writes all or nothing; the locks make the calls of one process a sequence. Payloads are a
-- type parameter, and what json, hashlib and re compute of them the interface `Codec`.
--
-- Not modelled: the reading of JSON bundles (candidate, issued_outcome and the from_journal
-- constructors), the requests and responses of contracts.py, the opening, verification and export
-- of the journal's file, the reads of the history over HTTP, the numerical kernels over numpy, the
-- HTTP services and worker threads, and the operator, which is written in Go.
pub mod Prelude
pub mod Maturation
pub mod Calibration
pub mod Trust
pub mod Registry
pub mod Clock
pub mod History
pub mod Gapfill
pub mod Admission
pub mod Tests
pub mod Journal
pub mod Settings
