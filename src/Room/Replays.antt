-- ===== src/Room/Replays.antt =====
-- The record of a room read at once, beside packages/ambion/src/room/projection.ts, which reads it
-- entry by entry: each derived fact as a function of the base facts.
pub mod AtWork
pub mod Exchange
pub mod Record
pub mod Steps
pub mod Closing
pub mod Agrees
use ambion.Room.Completion.{Completion}
use ambion.Common.{
  All, List, Option, Text, [], filter, last, ltb, map, none, some, ℕ, ◌&&◌, ◌<◌, ◌∷◌, ◌≡◌, ◌≤◌,
}
use ambion.Room.Completion.{exchange_after}
use ambion.Room.Fold.{
  RoomEntry, advance_people, apply_entry, close_entry, last_message_seq, message_entry,
}
use ambion.Room.Projection.{RoomProjection, opens_kind}
use ambion.Room.Running.{Listed, at_work_now}
use ambion.Room.State.{BaseFacts, PersonState}
use ambion.Room.Types.{Close, ExchangeRef, LeaseState, Message, RuleLease, ends, running, runs}

-- The people after the messages.
unfoldable pub people_from : List (Text × PersonState) → List Message → List (Text × PersonState)
people_from people [] = people
people_from people (m ∷ messages) = people_from (advance_people people m) messages

abbrev pub people_of : List Message → List (Text × PersonState)
people_of = people_from []

abbrev end_of : Option Close → ℕ
end_of none = 0
end_of (some close) = close.through

-- The end of the latest close.
unfoldable pub boundary_of : List Close → ℕ
boundary_of closes = end_of (last closes)

abbrev pub person_names : List (Text × PersonState) → List Text
person_names people = map (λ e. e.0) people

-- The exchange that is open on the record.
unfoldable pub open_exchange_of : BaseFacts → Option ExchangeRef
open_exchange_of facts =
    exchange_after facts.messages (person_names (people_of facts.messages))
      (boundary_of facts.closes)

-- One entry applied to the base facts, with the exchange that they leave open.
unfoldable pub facts_after : BaseFacts → RoomEntry → ℕ → BaseFacts
facts_after facts entry seq = apply_entry facts entry seq (open_exchange_of facts)

unfoldable pub facts_from : BaseFacts → List (RoomEntry × ℕ) → BaseFacts
facts_from facts [] = facts
facts_from facts ((entry, seq) ∷ entries) = facts_from (facts_after facts entry seq) entries

-- A message stands at the place of its entry, and a close ends between the last close and the last
-- message.
abbrev pub IsPlaced : BaseFacts → RoomEntry → ℕ → Type 0
IsPlaced facts (message_entry m) seq = m.seq ≡ seq
IsPlaced facts (close_entry close) seq =
    (boundary_of facts.closes ≤ close.through) × (close.through ≤ last_message_seq facts.messages)
IsPlaced facts _ seq = Unit

-- Entries that continue the facts, at ascending places after `top`.
abbrev pub IsRecord : BaseFacts → ℕ → List (RoomEntry × ℕ) → Type 0
IsRecord facts top [] = Unit
IsRecord facts top ((entry, seq) ∷ entries) =
    (top < seq) × IsPlaced facts entry seq × IsRecord (facts_after facts entry seq) seq entries

-- The lease runs, or ended at `top` or before.
abbrev pub OverBy : ℕ → LeaseState → Type 0
OverBy top (runs expires_at) = Unit
OverBy top (ends reason cancelled cause until) = until ≤ top

abbrev pub EndedBy : ℕ → List (Text × RuleLease) → Type 0
EndedBy top leases = All (λ e. OverBy top e.1.state) leases

-- The messages after a boundary that can open an exchange.
unfoldable pub tail_of : ℕ → List Message → List Message
tail_of boundary messages = filter (λ m. opens_kind m.content && ltb boundary m.seq) messages

-- What a step must keep true between the base facts and the facts derived from them.
pub record IsIndexed (p : RoomProjection) (top : ℕ) : Type 0 where
  pub at_work : p.running ≡ at_work_now p.base.leases
  pub listed : Listed p.base.leases
  pub over : EndedBy top p.base.leases

pub record IsDerived (p : RoomProjection) (top : ℕ) : Type 0 where
  pub met : p.people ≡ people_of p.base.messages
  pub kept : p.tail ≡ tail_of p.boundary p.base.messages
  pub asked : p.exchange ≡ exchange_after p.tail (person_names p.people) p.boundary
  pub bounded : p.boundary ≡ boundary_of p.base.closes
  pub within : p.boundary ≤ last_message_seq p.base.messages
  pub placed : last_message_seq p.base.messages ≤ top
  pub newest : p.last_seq ≡ last_message_seq p.base.messages
