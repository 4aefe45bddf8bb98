-- ===== src/Monitor.antt =====
-- src/ai_researcher/monitor: what has changed for the subscriptions since a point in time, and the subscriptions.
pub mod Changes
pub mod Subscriptions
mod Tests
