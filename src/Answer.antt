-- ===== src/Answer.antt =====
-- src/ai_researcher/answer: an answer whose statements name the passages that support them.
pub mod Errors
pub mod Citation
pub mod Statements
pub mod Synthesize
mod Tests
