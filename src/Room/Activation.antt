-- ===== src/Room/Activation.antt =====
-- packages/ambion/src/room/activation.ts and lease.ts: the authority that one recorded activation
-- grants to its seat.
use ambion.Common.{
  ℕ, Bool, false, not, ◌&&◌, Option, none, some, List, [], ◌∷◌, ◌++◌, map, Text, text_eq, ltb, ◌==◌,
  any, if◌then◌else◌,
}
use ambion.Common.Maps.{get, text_key}
use ambion.Room.Types.{
  Source, ActivationFields, RuleLease, unseated, Content, changed, Message, Close,
}
use ambion.Room.ActivationId.{decode_activation_id}
use ambion.Room.State.{RoomState, PersonState}
use ambion.Room.Recipients.{recipients_of}
use ambion.Room.Rules.Leases.{is_live}
use ambion.Room.Rules.Grants.{
  CloseFact, GrantPurpose, respond, summarize, Grant, well_formed, close_for, activation_grant,
}

-- Why an activation may not act.
pub data Staleness : Type 0 where
  lease_ended no_grant seat_taken : Staleness

pub data ActivationPurpose : Type 0 where
  responds : (message : ℕ) → ActivationPurpose
  summarizes : (exchange : ℕ) (person : Text) (through : ℕ) (people : List Text) → ActivationPurpose

pub record ActivationSpec : Type 0 where
  pub id : Text
  pub seat : Text
  pub attempt : ℕ
  pub purpose : ActivationPurpose

abbrev removes : Content → Text → Bool
removes (changed unseated subject identity attention fixed preferences) seat = text_eq subject seat
removes _ seat = false

-- `removalsOf` and `removedAfter`
unfoldable pub removed_after : List Message → Text → ℕ → Bool
removed_after messages seat seq = any (λ m. removes m.content seat && ltb seq m.seq) messages

abbrev close_fact : Close → List CloseFact
close_fact close = elim close.summary_writer [
  | none ↦ []
  | some writer ↦ elim close.person [
    | none ↦ []
    | some person ↦
        record {
          person = person;
          from = close.from;
          through = close.through;
          summary_writer = some writer;
        }
        ∷ []
  ]
]

-- A close with a writer names its person, by the type of a close.
unfoldable pub owing_summaries : List Close → List CloseFact
owing_summaries [] = []
owing_summaries (close ∷ closes) = close_fact close ++ owing_summaries closes

unfoldable pub seated : RoomState → Text → Bool
seated state name = any (λ seat. text_eq seat.name name) state.roster

abbrev pub names_of : List (Text × PersonState) → List Text
names_of = map (λ p. p.0)

abbrev pub recorded_for : Source → RoomState → ℕ → Bool
recorded_for Source.message state position = any (λ m. m.seq == position) state.messages
recorded_for Source.closed state position = false

abbrev pub close_of : Source → RoomState → ActivationFields → Option CloseFact
close_of Source.message state parsed = none
close_of Source.closed state parsed =
    close_for (owing_summaries state.closes) parsed.position parsed.seat

unfoldable pub grant_for : RoomState → ActivationFields → Option Grant
grant_for state parsed =
    activation_grant parsed state.cancelled_at (seated state parsed.seat)
      (removed_after state.messages parsed.seat parsed.position)
      (recorded_for parsed.source state parsed.position) (close_of parsed.source state parsed)

unfoldable pub purpose_of : RoomState → GrantPurpose → ActivationPurpose
purpose_of state (respond message) = responds message
purpose_of state (summarize exchange person through) =
    summarizes exchange person through
      (recipients_of state.messages exchange through (names_of state.people))

unfoldable pub spec_of : Text → RoomState → Option Grant → Option ActivationSpec
spec_of id state none = none
spec_of id state (some grant) = some (record {
  id = id;
  seat = grant.seat;
  attempt = grant.attempt;
  purpose = purpose_of state grant.purpose;
})

unfoldable pub spec_decoded : Text → RoomState → Option ActivationFields → Option ActivationSpec
unfolding spec_of
spec_decoded id state none = none
spec_decoded id state (some parsed) =
    if not (well_formed parsed) then none else spec_of id state (grant_for state parsed)

unfoldable pub activation_spec : Text → RoomState → Option ActivationSpec
unfolding spec_decoded
activation_spec id state = spec_decoded id state (decode_activation_id id)

pub data Authority : Type 0 where
  stale : Staleness → Authority
  holds : ActivationSpec → RuleLease → Authority

abbrev pub if_spec : Option ActivationSpec → RuleLease → Authority
if_spec none lease = stale no_grant
if_spec (some spec) lease = holds spec lease

abbrev pub authority_of : Option RuleLease → RoomState → Text → ℕ → Authority
authority_of none state id now = stale lease_ended
authority_of (some lease) state id now =
    if not (is_live lease now) then stale lease_ended else if_spec (activation_spec id state) lease

unfoldable pub seat_authority : RoomState → Text → ℕ → Authority
seat_authority state id now = authority_of (get state.leases id) state id now

-- The seat that an id names.
unfoldable pub seat_of : Text → Option Text
seat_of id = elim (decode_activation_id id) [ none ↦ none | some fields ↦ some fields.seat ]
