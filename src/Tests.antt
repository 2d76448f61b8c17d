-- ===== src/Tests.antt =====
-- Runs of the model on a small fleet: one organization, two nodes, and one environment whose stack
-- has a swappable web service and a pinned database.
pub mod Data
pub mod Store
pub mod Rollout
pub mod Spec
pub mod Logbuf
pub mod Homes
pub mod Life
pub mod Rollback
pub mod Parser
pub mod Agent
pub mod Previews
