-- ===== src/Room/Fold.antt =====
-- packages/ambion/src/room/fold.ts, lease.ts, delivery.ts and presence.ts: one committed entry
-- applied to the room's facts.
use ambion.Common.{
  ℕ, Bool, true, false, not, ◌&&◌, Option, none, some, List, [], ◌∷◌, ◌++◌, map, Text, text_eq, leb,
  ltb, last, any, filter, if◌then◌else◌,
}
use ambion.Common.Maps.{get, set, values, text_key, number_key}
use ambion.Room.Types.{
  Source, ActivationFields, runs, ends, RuleLease, Change, Attention, broadcast, arrived, left,
  seated, unseated, Content, said, system, changed, dismissed, Message, Seating, Composition,
  ExchangeRef, Close,
}
use ambion.Room.ActivationId.{decode_activation_id}
use ambion.Room.State.{present, absent, PersonState, MessageSteer, MessageRecipients, BaseFacts}
use ambion.Room.Rules.Leases.{apply_change, cancel_hold}
use ambion.Room.Rules.Exchanges.{includes}

-- A `Set` of names, in the order in which they were first added.
unfoldable pub distinct_onto : List Text → List Text → List Text
distinct_onto seen [] = seen
distinct_onto seen (n ∷ ns) = distinct_onto (if includes seen n then seen else seen ++ n ∷ []) ns

unfoldable pub distinct : List Text → List Text
unfolding distinct_onto
distinct = distinct_onto []

-- The leases, by activation id.
abbrev pub Leases : Type 0
Leases = List (Text × RuleLease)

abbrev pub put_lease : Option ActivationFields → Leases → Change → ℕ → Leases
put_lease none leases change seq = leases
put_lease (some activation) leases change seq =
    set leases change.id (apply_change (get leases change.id) change seq activation)

unfoldable pub apply_lease : Leases → Change → ℕ → Leases
apply_lease leases change seq = put_lease (decode_activation_id change.id) leases change seq

unfoldable pub cancel_leases : Leases → ℕ → Text → Leases
cancel_leases leases cancelled_at at = map (λ e. (e.0, cancel_hold e.1 cancelled_at at)) leases

-- The lease held a change before the message, and ended, if it ended, after it.
unfoldable pub at_work : RuleLease → ℕ → Bool
at_work lease seq = ltb lease.opened_seq seq && (elim lease.state [
  | runs expires_at ↦ true
  | ends reason cancelled cause until ↦ leb seq until
])

abbrev pub same_as : Option Text → Text → Bool
same_as none name = false
same_as (some from) name = text_eq name from

abbrev pub is_respond : Source → Bool
is_respond Source.message = true
is_respond Source.closed = false

-- Whether the content of a message steers a seat at work: a system message with a target steers
-- only its target, and a scheduled say or a dismissal steers nobody.
unfoldable pub content_steers : Content → Text → Bool
content_steers (system none text refs returns) seat = true
content_steers (system (some to) text refs returns) seat = text_eq seat to
content_steers (said to text refs (some delay_seconds)) seat = false
content_steers (dismissed say) seat = false
content_steers _ seat = true

unfoldable pub steers : Message → List Text → RuleLease → Bool
unfolding at_work content_steers
steers m wakes lease =
    is_respond lease.activation.source
    && not (same_as m.from lease.activation.seat)
    && content_steers m.content lease.activation.seat
    && not (includes wakes lease.activation.seat)
    && at_work lease m.seq

-- The first lease at a seat is the one that the message steers.
unfoldable pub steered_by :
    Message → List Text → List MessageSteer → List RuleLease → List MessageSteer
steered_by m wakes steered [] = steered
steered_by m wakes steered (lease ∷ leases) =
    let seat = lease.activation.seat in
    let next =
      if steers m wakes lease && not (any (λ s. text_eq s.seat seat) steered)
      then steered ++ record { seat = seat; activation = lease.id } ∷ []
      else steered in
    steered_by m wakes next leases

unfoldable pub message_delivery : Message → Leases → MessageRecipients
unfolding steered_by distinct
message_delivery m leases =
    let wakes = distinct m.wakes in
    record { wakes = wakes; steers = steered_by m wakes [] (values leases) }

-- The entries that the journal holds for a room.
pub data RoomEntry : Type 0 where
  message_entry : Message → RoomEntry
  close_entry : Close → RoomEntry
  cancel_entry : (at : Text) → RoomEntry
  lease_entry : Change → RoomEntry
  composition_entry : Composition → RoomEntry
  run_entry : (at : Text) → RoomEntry

abbrev pub cancel_close : ExchangeRef → ℕ → Text → Close
cancel_close open_exchange through at = record {
  person = open_exchange.person;
  from = open_exchange.from;
  through = through;
  at = at;
  summary_writer = none;
  cancelled = true;
}

unfoldable pub cancelled_close : Option ExchangeRef → ℕ → Text → List Close
cancelled_close none through at = []
cancelled_close (some open_exchange) through at = cancel_close open_exchange through at ∷ []

unfoldable pub last_message_seq : List Message → ℕ
unfolding last
last_message_seq messages = elim (last messages) [ none ↦ 0 | some m ↦ m.seq ]

unfoldable pub apply_entry : BaseFacts → RoomEntry → ℕ → Option ExchangeRef → BaseFacts
unfolding message_delivery cancelled_close last_message_seq cancel_leases apply_lease
apply_entry facts (message_entry m) seq open_exchange = record facts {
  deliveries = set facts.deliveries m.seq (message_delivery m facts.leases);
  messages = facts.messages ++ m ∷ [];
}
apply_entry facts (close_entry close) seq open_exchange = record facts {
  closes = facts.closes ++ close ∷ [];
}
apply_entry facts (cancel_entry at) seq open_exchange = record facts {
  closes = facts.closes ++ cancelled_close open_exchange (last_message_seq facts.messages) at;
  cancelled_at = some seq;
  leases = cancel_leases facts.leases seq at;
}
apply_entry facts (lease_entry change) seq open_exchange = record facts {
  leases = apply_lease facts.leases change seq;
}
apply_entry facts (composition_entry composition) seq open_exchange = record facts {
  composition = some composition;
}
apply_entry facts (run_entry at) seq open_exchange = facts

-- `splice(at, 1)` of the first seat of a name
unfoldable pub remove_seat : List Seating → Text → List Seating
remove_seat [] name = []
remove_seat (s ∷ ss) name =
    let rest = remove_seat ss name in if text_eq s.name name then ss else s ∷ rest

abbrev pub or_text : Option Text → Text → Text
or_text none d = d
or_text (some t) d = t

abbrev pub or_attention : Option Attention → Attention
or_attention none = broadcast
or_attention (some a) = a

unfoldable pub reseat_content : List Seating → Content → List Seating
unfolding remove_seat
reseat_content roster (changed seated subject identity attention fixed preferences) =
    remove_seat roster subject
    ++ record {
      name = subject;
      identity = or_text identity [];
      attention = or_attention attention;
      fixed = fixed;
    }
      ∷ []
reseat_content roster (changed unseated subject identity attention fixed preferences) =
    remove_seat roster subject
reseat_content roster _ = roster

unfoldable pub reseat : List Seating → Message → List Seating
unfolding reseat_content
reseat roster m = reseat_content roster m.content

abbrev or_option {ℓ} : {A : Type ℓ} → Option A → Option A → Option A
or_option none d = d
or_option (some t) d = some t

abbrev identity_of : Option PersonState → Text
identity_of none = []
identity_of (some p) = p.identity

abbrev departure_of : Option PersonState → Option ℕ
departure_of none = none
departure_of (some p) = p.last_departure

abbrev preferences_of : Option PersonState → Option Text
preferences_of none = none
preferences_of (some p) = p.preferences

abbrev People : Type 0
People = List (Text × PersonState)

unfoldable pub meet : People → ℕ → Text → Content → People
meet people seq at (changed arrived subject identity attention fixed preferences) =
    let known = get people subject in
    set people subject (record {
      name = subject;
      identity = or_text identity (identity_of known);
      presence = present;
      last_departure = departure_of known;
      changed_at = some at;
      preferences = or_option preferences (preferences_of known);
    })
meet people seq at (changed left subject identity attention fixed preferences) =
    elim (get people subject) [
      | none ↦ people
      | some known ↦
          set people subject
            (record known { presence = absent; last_departure = some seq; changed_at = some at })
    ]
meet people seq at _ = people

unfoldable pub advance_people : People → Message → People
unfolding meet
advance_people people m = meet people m.seq m.at m.content

-- A seat that an agent cannot unseat.
unfoldable pub is_fixed : Seating → Option Composition → Bool
is_fixed seat composition = elim seat.fixed [
  | some fixed ↦ fixed
  | none ↦ elim composition [ none ↦ false | some c ↦ same_as c.summary_writer seat.name ]
]

unfoldable pub reserve_seat : Seating → Seating
reserve_seat seat = record {
  name = seat.name;
  identity = seat.identity;
  attention = broadcast;
  fixed = seat.fixed;
}

-- `new Map(entries)`: a later entry of a name gives its seat, in the place of the first.
unfoldable pub define_seats : List (Text × Seating) → List Seating → List (Text × Seating)
define_seats m [] = m
define_seats m (s ∷ ss) = define_seats (set m s.name s) ss

unfoldable pub reserve_of : Option Composition → List Seating → List Seating
unfolding define_seats reserve_seat
reserve_of none roster = []
reserve_of (some composition) roster = map reserve_seat (
    filter (λ seat. not (any (λ s. text_eq s.name seat.name) roster))
      (values (define_seats [] (composition.seats ++ composition.reserve))))
