-- ===== src/Scoping.antt =====
-- src/ai_researcher/scoping: the user narrows a topic before papers are gathered.
pub mod Terms
pub mod Dialogue
pub mod Estimate
mod Tests
