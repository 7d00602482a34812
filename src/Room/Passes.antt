-- ===== src/Room/Passes.antt =====
-- One pass of a room against the facts: packages/ambion/src/room/reconcile.ts plans, and
-- transition.ts decides each step of the plan where it lands.
pub mod Endings
pub mod Closing
pub mod Alarm
use ambion.Common.{Memᴰ, none, some, ◌≡◌, ◌≤◌}
use ambion.Common.Maps.{text_key, get, values}
use ambion.Room.ActivationId.{max_safe_integer}
use ambion.Room.State.{DueActivation, RoomState}
use ambion.Room.Types.{RuleLease}

-- The facts of a record: each lease stands under its id, no reading is past the record, and no
-- activation that is due was claimed.
pub record WellKept (state : RoomState) : Type 0 where
  pub stands : (l : RuleLease) → Memᴰ l (values state.leases) → get state.leases l.id ≡ some l
  pub read : (l : RuleLease) → Memᴰ l (values state.leases) → l.read_through ≤ state.last_seq
  pub bounded : state.last_seq ≤ max_safe_integer
  pub unclaimed : (owed : DueActivation) → Memᴰ owed state.due → get state.leases owed.id ≡ none
