-- ===== src/Trees.antt =====
-- src/ai_researcher/trees: the sections of a paper become a tree of at most five levels of nodes.
pub mod Errors
pub mod Order
pub mod Summaries
pub mod Build
pub mod Index
mod Tests
mod IndexTests
pub mod Shortlist
