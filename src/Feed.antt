-- ===== src/Feed.antt =====
-- src/follow_the_money/feed: the planning, selection and publication of one Feed.
pub mod Plan
pub mod Item
pub mod Outcome
pub mod Assess
pub mod Freshness
pub mod Dedupe
pub mod Snapshot
pub mod Publish
pub mod Checkpoint
pub mod Lease
pub mod Bundle
pub mod Run
pub mod Deployment
mod Tests
