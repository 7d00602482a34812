-- ===== src/Room.antt =====
-- packages/ambion: the room, from its rules to its decisions.
pub mod Types
pub mod Rules
pub mod ActivationId
pub mod State
pub mod Fold
pub mod Recipients
pub mod Activation
pub mod Reconcile
pub mod Decide
pub mod Refs
pub mod Scheduled
pub mod Routing
pub mod Messages
pub mod Completion
pub mod Commit
pub mod Commits
pub mod Command
pub mod Owed
pub mod Responds
pub mod Projection
pub mod Advance
pub mod Running
pub mod Replays
pub mod Reached
pub mod History
pub mod Seats
pub mod Passes
pub mod Authority
pub mod Attempts
pub mod Search
pub mod Steering
mod Examples
