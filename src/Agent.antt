-- ===== src/Agent.antt =====
-- backend/agent/verify.py: the citations of an answer.
pub mod Verify
pub mod VerifyLaws
mod Tests
