-- ===== src/Journal.antt =====
-- packages/journal: the append-only journal, its storage and its fence between runs.
pub mod Json
pub mod Rules
pub mod Fencing
pub mod Result
pub mod Entry
pub mod Storage
pub mod Writer
pub mod Positions
pub mod Replay
pub mod Mirror
pub mod Drafts
pub mod Landing
pub mod Readers
pub mod Health
pub mod Appends
mod Examples
