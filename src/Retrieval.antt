-- ===== src/Retrieval.antt =====
-- src/ai_researcher/retrieval: the question is answered from the trees of the shortlisted papers,
-- node by node, under one budget of model expansions.
pub mod Budget
pub mod Errors
pub mod Outcomes
pub mod Judgement
pub mod Walk
pub mod Traverse
pub mod Store
pub mod Tests
