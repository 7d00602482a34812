-- ===== src/Room/Routing.antt =====
-- packages/ambion/src/room/routing.ts: who wakes for a message.
use ambion.Room.Activation.{ActivationSpec, activation_spec, responds, summarizes}
use ambion.Common.{
  Bool, List, Option, Text, [], any, false, filter, if◌then◌else◌, leb, map, none, not, some, true,
  ℕ, ◌&&◌, ◌++◌, ◌∷◌,
}
use ambion.Common.Maps.{text_key, get}
use ambion.Room.Fold.{distinct, or_attention, same_as}
use ambion.Room.Reconcile.{Seats}
use ambion.Room.State.{RoomState}
use ambion.Room.Types.{
  Attention, Body, Content, PresenceChange, Seating, broadcast, changed, dismissed, named,
  none_said, presence, said, summary, system,
}

abbrev pub width : Attention → ℕ
width none_said = 0
width named = 1
width broadcast = 2
width presence = 3

-- The presence of `to` narrows the reach of a text.
abbrev reach_of_text : Option Text → Attention
reach_of_text none = broadcast
reach_of_text (some to) = named

abbrev pub reach_of : Content → Attention
reach_of (summary to text refs covers_from covers_through) = none_said
reach_of (dismissed say) = none_said
reach_of (said to text refs delay_seconds) = reach_of_text to
reach_of (system to text refs returns) = reach_of_text to
reach_of (changed change subject identity attention fixed preferences) = presence

abbrev seated_subject : PresenceChange → Text → Option Text
seated_subject PresenceChange.seated subject = some subject
seated_subject _ subject = none

abbrev pub target_of : Content → Option Text
target_of (said to text refs delay_seconds) = to
target_of (system to text refs returns) = to
target_of (changed change subject identity attention fixed preferences) =
    seated_subject change subject
target_of _ = none

-- A seat that is not named wakes for a reach that its attention is wide enough for.
abbrev pub hears : Attention → Attention → Bool
hears attention none_said = false
hears attention named = false
hears attention reach = leb (width reach) (width attention)

-- A candidate for a wake.
pub record Candidate : Type 0 where
  pub name : Text
  pub attention : Attention

unfoldable pub wakes_for : Candidate → Content → Bool
wakes_for seat content =
    if same_as (target_of content) seat.name then true else hears seat.attention (reach_of content)

abbrev pub is_respond_spec : Option ActivationSpec → Bool
is_respond_spec none = false
is_respond_spec (some spec) = elim spec.purpose [
  | responds m ↦ true
  | summarizes exchange person through people ↦ false
]

abbrev pub any_respond : Option (List Text) → RoomState → Bool
any_respond none state = false
any_respond (some ids) state = any (λ id. is_respond_spec (activation_spec id state)) ids

-- Summary work does not block a new respond activation of the seat.
unfoldable pub holds_ordinary : RoomState → Option (List Text) → Bool
holds_ordinary state ids = any_respond ids state

abbrev pub candidate : Seating → Candidate
candidate seat = record { name = seat.name; attention = seat.attention }

abbrev pub newcomer : Content → List Candidate
newcomer (changed PresenceChange.seated subject identity attention fixed preferences) =
    record { name = subject; attention = or_attention attention } ∷ []
newcomer _ = []

-- The seats that a message may wake: a seating adds its own.
unfoldable pub candidates : RoomState → Content → List Candidate
candidates state content = map candidate state.roster ++ newcomer content

unfoldable pub is_free : RoomState → Seats → Option Text → Candidate → Bool
is_free state live author seat =
    not (same_as author seat.name) && not (holds_ordinary state (get live seat.name))

unfoldable pub routes : Body → RoomState → Seats → List Text
routes body state live = distinct (
    map (λ seat. seat.name)
      (filter (λ seat. wakes_for seat body.content)
        (filter (λ seat. is_free state live body.from seat) (candidates state body.content))))
