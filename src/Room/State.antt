-- ===== src/Room/State.antt =====
-- The facts that a room's decisions read: packages/ambion/src/room/fold.ts, lease.ts, presence.ts,
-- delivery.ts and ../scheduling.ts.
use ambion.Common.{ℕ, Bool, Option, List, Text}
use ambion.Room.Types.{Source, RuleLease, Message, Seating, Composition, ExchangeRef, Close}

pub data PresenceStatus : Type 0 where
  present absent : PresenceStatus

pub record PersonState : Type 0 where
  pub name : Text
  pub identity : Text
  pub presence : PresenceStatus
  pub last_departure : Option ℕ
  pub changed_at : Option Text
  pub preferences : Option Text

-- An activation that the room owes a seat, and has not had.
pub record DueActivation : Type 0 where
  pub source : Source
  pub position : ℕ
  pub attempt : ℕ
  pub id : Text
  pub seat : Text
  pub unsuccessful_attempts : ℕ
  pub not_before : Option ℕ
  pub permanent : Bool

pub record ScheduledSay : Type 0 where
  pub seq : ℕ
  pub seat : Text
  pub due : Text
  pub text : Text
  pub refs : List Text

pub record MessageSteer : Type 0 where
  pub seat : Text
  pub activation : Text

pub record MessageRecipients : Type 0 where
  pub wakes : List Text
  pub steers : List MessageSteer

-- The base facts, which each entry adds to or changes.
pub record BaseFacts : Type 0 where
  pub messages : List Message
  pub closes : List Close
  pub cancelled_at : Option ℕ
  pub leases : List (Text × RuleLease)
  pub composition : Option Composition
  pub deliveries : List (ℕ × MessageRecipients)

-- The facts beside them, which the projection derives.
pub record RoomState : Type 0 where
  pub composition : Option Composition
  pub roster : List Seating
  pub reserve : List Seating
  pub people : List (Text × PersonState)
  pub exchange : Option ExchangeRef
  pub closes : List Close
  pub cancelled_at : Option ℕ
  pub leases : List (Text × RuleLease)
  pub due : List DueActivation
  pub scheduled : List ScheduledSay
  pub messages : List Message
  pub last_seq : ℕ
