-- ===== src/Evidence.antt =====
-- src/ai_researcher/evidence: passages that support or refute a claim, and claims that are one.
pub mod Errors
pub mod Links
pub mod Identity
mod Tests
