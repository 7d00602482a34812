-- ===== src/Room/Rules.antt =====
-- packages/ambion/src/room/rules.verified.ts: the rules the room decides by.
pub mod Leases
pub mod Wakes
pub mod Exchanges
pub mod Grants
pub mod Summaries
