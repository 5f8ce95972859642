-- ===== src/Jobs.antt =====
-- backend/services/upload_jobs.py: the status of upload, delete and ingest jobs. `Job` is the record
-- and its changes, `Manager` the store in memory, `Redis` the store with WATCH transactions;
-- `Invariant`, `Stored` and `Linear` are lemmas on these.
pub mod Job
pub mod Manager
pub mod Redis
pub mod Invariant
pub mod Linear
pub mod Stored
mod Tests
