-- ===== src/Extraction.antt =====
-- src/ai_researcher/extraction: the records that the model extracts from a paper.
pub mod Errors
pub mod Validate
mod Tests
