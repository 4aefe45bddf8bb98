-- ===== src/Ingest.antt =====
-- src/ai_researcher/ingest: papers that several sources describe.
pub mod Dedup
mod Tests
