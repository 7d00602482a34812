-- ===== src/Room/Commits.antt =====
-- packages/ambion/src/room/transition.ts: what the decisions on messages guarantee.
pub mod Written
pub mod Authored
pub mod Summaries
pub mod Waiting
pub mod Returns
pub mod Refusals
pub mod Distinct
pub mod Freshness
pub mod Offered
pub mod Heard
pub mod Woken
