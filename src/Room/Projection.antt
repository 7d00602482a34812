-- ===== src/Room/Projection.antt =====
-- packages/ambion/src/room/projection.ts: the derived facts of a room, and the parts of a step.
-- A value of the model is never shared, so the copies that the source takes and the changes that it
-- makes in place are one function here.
use ambion.Room.Completion.{SummaryClose, exchange_after}
use ambion.Room.Fold.{reseat, reserve_of}
use ambion.Common.Options.{◌>>=◌}
use ambion.Common.{
  Bool, List, Option, Text, [], false, filter, if◌then◌else◌, ltb, map, none, not, some, text_eq,
  true, ℕ, ◌&&◌, ◌++◌, ◌∷◌, ◌||◌,
}
use ambion.Common.Maps.{number_key, text_key, Key, get, set}
use ambion.Room.Owed.{DueSummarize, OwedFacts, leases_or_none}
use ambion.Room.Responds.{OpenRespond, SeatLeases, drop_seat, due_responds_of}
use ambion.Room.Rules.Leases.{is_ended}
use ambion.Room.Scheduled.{has_value}
use ambion.Room.State.{BaseFacts, PersonState, RoomState, ScheduledSay}
use ambion.Room.Types.{
  Close, Content, ExchangeRef, Message, PresenceChange, RuleLease, Seating, Source, arrived,
  changed, said, summary, system, unseated,
}

pub record RoomProjection : Type 0 where
  pub base : BaseFacts
  pub people : List (Text × PersonState)
  pub roster : List Seating
  pub exchange : Option ExchangeRef
  pub boundary : ℕ
  pub tail : List Message
  pub summary_facts : List Message
  pub running : List (Text × RuleLease)
  pub seat_leases : SeatLeases
  pub closed_leases : List (ℕ × List (Text × RuleLease))
  pub wakes : List OpenRespond
  pub owed : List DueSummarize
  pub scheduled : List ScheduledSay
  pub last_seq : ℕ

abbrev pub no_facts : BaseFacts
no_facts = record {
  messages = [];
  closes = [];
  cancelled_at = none;
  leases = [];
  composition = none;
  deliveries = [];
}

abbrev pub empty_projection : RoomProjection
empty_projection = record {
  base = no_facts;
  people = [];
  roster = [];
  exchange = none;
  boundary = 0;
  tail = [];
  summary_facts = [];
  running = [];
  seat_leases = [];
  closed_leases = [];
  wakes = [];
  owed = [];
  scheduled = [];
  last_seq = 0;
}

-- `projectState`
unfoldable pub project_state : RoomProjection → RoomState
project_state p = record {
  composition = p.base.composition;
  roster = p.roster;
  reserve = reserve_of p.base.composition p.roster;
  people = p.people;
  exchange = p.exchange;
  closes = p.base.closes;
  cancelled_at = p.base.cancelled_at;
  leases = p.base.leases;
  due = due_responds_of p.wakes (map (λ s. s.name) p.roster) ++ map (λ o. o.due) p.owed;
  scheduled = p.scheduled;
  messages = p.base.messages;
  last_seq = p.last_seq;
}

abbrev pub facts_of : RoomProjection → OwedFacts
facts_of p = record {
  summary_facts = p.summary_facts;
  closed_leases = p.closed_leases;
  cancelled_at = p.base.cancelled_at;
}

abbrev pub people_names : RoomProjection → List Text
people_names p = map (λ e. e.0) p.people

-- A message that can open an exchange.
abbrev pub opens_kind : Content → Bool
opens_kind (said to text refs delay_seconds) = true
opens_kind (system to text refs returns) = true
opens_kind _ = false

abbrev pub is_arrival : Content → Bool
is_arrival (changed arrived subject identity attention fixed preferences) = true
is_arrival _ = false

-- The subject of a removal.
abbrev pub removed_seat : Content → Option Text
removed_seat (changed unseated subject identity attention fixed preferences) = some subject
removed_seat _ = none

abbrev pub is_summary : Content → Bool
is_summary (summary to text refs covers_from covers_through) = true
is_summary _ = false

abbrev pub is_seating : Content → Bool
is_seating (changed PresenceChange.seated subject identity attention fixed preferences) = true
is_seating (changed unseated subject identity attention fixed preferences) = true
is_seating _ = false

-- `exchangeOf`: only a message that can open one, or a new person, changes the open exchange.
unfoldable pub exchange_of :
    List Message → List Text → ℕ → Option ExchangeRef → Message → Option ExchangeRef
exchange_of tail people boundary known m =
    if opens_kind m.content || is_arrival m.content
    then exchange_after tail people boundary
    else known

-- `notedBy`
unfoldable pub tail_after : RoomProjection → Message → List Message
tail_after p m = if opens_kind m.content && ltb p.boundary m.seq then p.tail ++ m ∷ [] else p.tail

unfoldable pub summary_facts_after : RoomProjection → Message → List Message
summary_facts_after p m =
    if is_summary m.content || has_value (removed_seat m.content)
    then p.summary_facts ++ m ∷ []
    else p.summary_facts

unfoldable pub roster_after : RoomProjection → Message → List Seating
roster_after p m =
    if is_seating m.content && has_value p.base.composition then reseat p.roster m else p.roster

abbrev pub wakes_kept : Option Text → List OpenRespond → List OpenRespond
wakes_kept none wakes = wakes
wakes_kept (some seat) wakes = drop_seat wakes seat

-- One lease under its id, in the group of its key.
unfoldable pub leased :
    {K : Type 0} ⦃key : Key K⦄
    → List (K × List (Text × RuleLease))
    → K
    → RuleLease
    → List (K × List (Text × RuleLease))
leased index k hold = set index k (set (leases_or_none (get index k)) hold.id hold)

-- `map.delete(id)`
unfoldable pub without : List (Text × RuleLease) → Text → List (Text × RuleLease)
without leases id = filter (λ e. not (text_eq e.0 id)) leases

abbrev pub runs_now : RuleLease → Bool
runs_now lease = not (is_ended lease.state)

unfoldable pub running_after : List (Text × RuleLease) → RuleLease → List (Text × RuleLease)
running_after running hold =
    if runs_now hold then set running hold.id hold else without running hold.id

-- `indexLeases`
unfoldable pub running_of :
    List (Text × RuleLease) → List (Text × RuleLease) → List (Text × RuleLease)
running_of running [] = running
running_of running ((id, hold) ∷ leases) =
    running_of (if runs_now hold then set running hold.id hold else running) leases

abbrev pub is_closed : Source → Bool
is_closed Source.message = false
is_closed Source.closed = true

unfoldable pub seat_index : SeatLeases → List (Text × RuleLease) → SeatLeases
seat_index index [] = index
seat_index index ((id, hold) ∷ leases) =
    seat_index
      (if is_closed hold.activation.source then index else leased index hold.activation.seat hold)
      leases

unfoldable pub closed_index :
    List (ℕ × List (Text × RuleLease))
    → List (Text × RuleLease)
    → List (ℕ × List (Text × RuleLease))
closed_index index [] = index
closed_index index ((id, hold) ∷ leases) =
    closed_index
      (if is_closed hold.activation.source
        then leased index hold.activation.position hold
        else index)
      leases

abbrev pub summary_close : Close → SummaryClose
summary_close close = record {
  from = close.from;
  through = close.through;
  owes = close.person >>= λ person. close.summary_writer >>= λ writer. some (person, writer);
}

abbrev pub add_judged : List DueSummarize → Option DueSummarize → List DueSummarize
add_judged owed none = owed
add_judged owed (some next) = owed ++ next ∷ []
