-- ===== src/Execution.antt =====
-- backend/internal_api: the execution surface that Go calls. `Codes` is codes.py, `Row`, `Ops` and
-- `Store` are executions.py, `Postgres` is postgres_executions.py, `Runner` and `Router` are router.py.
-- The other modules are lemmas on these: `Lifecycle` and `WellFormed` on one row, `Indexed`, `Calls`
-- and `Replay` on the store, `Refinement` on the two stores, `RunEnds`, `RunOutcome` and `Overtaken`
-- on the runner, `Answers` on the endpoints.
pub mod Codes
pub mod Row
pub mod Ops
pub mod Lifecycle
pub mod WellFormed
pub mod Store
pub mod Indexed
pub mod Calls
pub mod Replay
pub mod Postgres
pub mod Refinement
pub mod Runner
pub mod RunEnds
pub mod RunOutcome
pub mod Overtaken
pub mod Router
pub mod Answers
mod Tests
mod CodecTests
