-- ===== src/Documents.antt =====
-- backend/services/document_jobs.py: the changes of the document index. `Calls` is the state that they
-- share with the services, and calls that may fail; `Index` the locked operations.
-- `Program` has what they leave with the loader in its place.
pub mod Calls
pub mod Index
pub mod Safety
pub mod Remove
pub mod Steps
pub mod Rebuild
pub mod Replace
pub mod Before
pub mod Locked
pub mod Filename
pub mod FilenameParts
pub mod FilenameLaws
pub mod Removal
pub mod Recovery
pub mod RecoveryLaws
pub mod Replay
pub mod Live
mod Tests
pub mod References
pub mod Loading
pub mod Program
