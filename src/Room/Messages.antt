-- ===== src/Room/Messages.antt =====
-- packages/ambion/src/room/transition.ts: the decisions on messages. `toISOString` and `Date.parse`
-- are parameters of a section.
use ambion.Common.{
  Bool, List, Option, Text, [], any, false, find, if◌then◌else◌, leb, ltb, none, not, some, text_eq,
  true, ℕ, ◌&&◌, ◌++◌, ◌+◌, ◌==◌, ◌∷◌,
}
use ambion.Common.Maps.{text_key, get}
use ambion.Room.Activation.{Staleness}
use ambion.Room.Fold.{is_fixed, or_attention, or_text, same_as}
use ambion.Room.Reconcile.{live_work}
use ambion.Room.Refs.{RefsFault, is_space, refs_refusal}
use ambion.Room.Routing.{routes, width}
use ambion.Room.Scheduled.{ScheduleFault, has_value}
use ambion.Room.State.{PersonState, RoomState, absent, present}
use ambion.Room.Types.{
  Attention, Body, Composition, Content, Message, PresenceChange, Seating, arrived, left, none_said,
  said, summary, system, unseated,
}

-- Each refusal of a message; the text of a reason is left out.
pub data MessageRefusal : Type 0 where
  not_present unknown_participant hears_nothing : (name : Text) → MessageRefusal
  duplicate_name already_seated not_seated other_identity : (name : Text) → MessageRefusal
  empty_message : MessageRefusal
  bad_refs : RefsFault → MessageRefusal
  message_too_large : (size bytes : ℕ) → MessageRefusal
  stale_seat : Staleness → MessageRefusal
  not_permitted seating_is_off closing_schedules not_a_speaker : MessageRefusal
  has_summary : (person : Text) → MessageRefusal
  states_no_position : MessageRefusal
  missed_entries : List Message → MessageRefusal
  not_in_reserve fixed_seat : (name : Text) → MessageRefusal
  to_oneself : MessageRefusal
  bad_schedule : ScheduleFault → MessageRefusal
  not_own_say : (seat : Text) → MessageRefusal
  not_scheduled : (say : ℕ) → MessageRefusal

pub data Unchanged : Type 0 where
  still_seated still_unseated : (name : Text) → Unchanged
  still_dismissed : (say : ℕ) → Unchanged

pub data MessageDecision : Type 0 where
  message_body : Body → MessageDecision
  no_message : MessageDecision
  unchanged_message : Unchanged → MessageDecision
  refused_message : MessageRefusal → MessageDecision

-- The text of a body, with its references and whether it gives a scheduled say back.
pub record Words : Type 0 where
  pub text : Text
  pub refs : List Text
  pub returns : Bool

abbrev pub words_of : Content → Option Words
words_of (said to text refs delay_seconds) =
    some (record { text = text; refs = refs; returns = false })
words_of (system to text refs returns) =
    some (record { text = text; refs = refs; returns = has_value returns })
words_of (summary to text refs covers_from covers_through) =
    some (record { text = text; refs = refs; returns = false })
words_of _ = none

-- `text.trim() === ''`
unfoldable pub is_blank : Text → Bool
is_blank [] = true
is_blank (c ∷ s) = is_space c && is_blank s

abbrev refs_message : Option RefsFault → Option MessageRefusal
refs_message none = none
refs_message (some fault) = some (bad_refs fault)

abbrev words_refusal : Option Words → Option MessageRefusal
words_refusal none = none
words_refusal (some words) =
    if words.returns
    then none
    else if is_blank words.text
    then some empty_message
    else refs_message (refs_refusal words.refs)

unfoldable pub content_refusal : Content → Option MessageRefusal
content_refusal content = words_refusal (words_of content)

abbrev is_high : ℕ → Bool
is_high c = leb 55296 c && leb c 56319

abbrev is_low : ℕ → Bool
is_low c = leb 56320 c && leb c 57343

abbrev unit_size : ℕ → ℕ
unit_size c = if ltb c 128 then 1 else if ltb c 2048 then 2 else 3

-- The bytes of a text in UTF-8. Two surrogates that belong together take four, and a single one is
-- written as U+FFFD.
unfoldable pub utf8_size : Text → ℕ
utf8_size [] = 0
utf8_size (c ∷ []) = unit_size c
utf8_size (c ∷ d ∷ s) =
    let pair = utf8_size s in
    let single = utf8_size (d ∷ s) in
    if is_high c && is_low d then 4 + pair else unit_size c + single

abbrev size_refusal : Option Words → Option ℕ → Option MessageRefusal
size_refusal none bytes = none
size_refusal (some words) none = none
size_refusal (some words) (some bytes) =
    if ltb bytes (utf8_size words.text)
    then some (message_too_large (utf8_size words.text) bytes)
    else none

unfoldable pub oversize_refusal : Content → Option ℕ → Option MessageRefusal
oversize_refusal content bytes = size_refusal (words_of content) bytes

abbrev pub or_refusal : Option MessageRefusal → MessageDecision → MessageDecision
or_refusal none decision = decision
or_refusal (some refusal) decision = refused_message refusal

unfoldable pub routed : RoomState → Body → ℕ → Bool → Body
routed state body now route = record body {
  wakes = if route then routes body state (live_work state now).seats else [];
}

-- `message` of the source
unfoldable pub write_message : RoomState → Body → ℕ → Bool → Option ℕ → MessageDecision
write_message state body now route bytes =
    or_refusal (content_refusal body.content) (
      or_refusal (oversize_refusal body.content bytes) (message_body (routed state body now route)))

abbrev pub seat_named : List Seating → Text → Option Seating
seat_named seats name = find (λ seat. text_eq seat.name name) seats

abbrev pub on_list : List Seating → Text → Bool
on_list seats name = any (λ seat. text_eq seat.name name) seats

abbrev pub is_person : RoomState → Text → Bool
is_person state name = any (λ p. text_eq p.0 name) state.people

abbrev pub is_present : Option PersonState → Bool
is_present none = false
is_present (some person) = elim person.presence [ present ↦ true | absent ↦ false ]

-- `deliver` and `post`: `from` is absent for the host.
pub record Delivery : Type 0 where
  pub from : Option Text
  pub to : Option Text
  pub text : Text
  pub refs : List Text
  pub bytes : Option ℕ

abbrev pub presence_refusal_of : RoomState → Option Text → Option MessageRefusal
presence_refusal_of state none = none
presence_refusal_of state (some person) =
    if is_present (get state.people person) then none else some (not_present person)

abbrev pub deaf : Option Seating → Bool
deaf none = false
deaf (some seat) = elim seat.attention [ none_said ↦ true | _ ↦ false ]

abbrev pub target_refusal : RoomState → Option Text → Option MessageRefusal
target_refusal state none = none
target_refusal state (some to) =
    if not (is_person state to) && not (on_list state.roster to)
    then some (unknown_participant to)
    else if deaf (seat_named state.roster to)
    then some (hears_nothing to)
    else none

abbrev pub delivered_content : Delivery → Option Text → Content
delivered_content command none = system command.to command.text command.refs none
delivered_content command (some person) = said command.to command.text command.refs none

-- A change of a person or a seat, before the room stamps it.
pub record PresenceDraft : Type 0 where
  pub from : Option Text
  pub activation : Option Text
  pub change : PresenceChange
  pub subject : Text
  pub identity : Option Text
  pub attention : Option Attention
  pub fixed : Option Bool
  pub preferences : Option Text

abbrev width_eq : Attention → Attention → Bool
width_eq a b = width a == width b

abbrev bool_eq : Bool → Bool → Bool
bool_eq true b = b
bool_eq false b = not b

abbrev names_writer : Option Composition → Text → Bool
names_writer none name = false
names_writer (some composition) name = same_as composition.summary_writer name

abbrev or_writer : Option Bool → Option Composition → Text → Bool
or_writer (some fixed) composition name = fixed
or_writer none composition name = names_writer composition name

-- A repeated seating asks for exactly what the roster holds.
unfoldable pub same_seating : Seating → PresenceDraft → Option Composition → Bool
same_seating seat draft composition =
    text_eq (or_text draft.identity []) seat.identity
    && width_eq (or_attention draft.attention) seat.attention
    && bool_eq (is_fixed seat composition) (or_writer draft.fixed composition draft.subject)

abbrev seating_refusal : RoomState → PresenceDraft → Option Seating → Option MessageRefusal
seating_refusal state draft none =
    if is_person state draft.subject then some (duplicate_name draft.subject) else none
seating_refusal state draft (some seat) =
    if is_person state draft.subject
    then some (duplicate_name draft.subject)
    else if not (same_seating seat draft state.composition)
    then some (already_seated draft.subject)
    else none

abbrev unseat_refusal : RoomState → Option Seating → Text → Option MessageRefusal
unseat_refusal state (some seat) name = none
unseat_refusal state none name = if on_list state.reserve name then none else some (not_seated name)

abbrev same_identity : Text → Option Text → Bool
same_identity known none = false
same_identity known (some identity) = text_eq known identity

abbrev known_refusal : Option PersonState → PresenceDraft → Option MessageRefusal
known_refusal none draft = none
known_refusal (some person) draft =
    if is_present (some person) && not (same_identity person.identity draft.identity)
    then some (other_identity draft.subject)
    else none

abbrev arrival_refusal : RoomState → PresenceDraft → Option MessageRefusal
arrival_refusal state draft =
    if on_list (state.roster ++ state.reserve) draft.subject
    then some (duplicate_name draft.subject)
    else known_refusal (get state.people draft.subject) draft

abbrev refusal_of_change : PresenceChange → RoomState → PresenceDraft → Option MessageRefusal
refusal_of_change PresenceChange.seated state draft =
    seating_refusal state draft (seat_named state.roster draft.subject)
refusal_of_change unseated state draft =
    unseat_refusal state (seat_named state.roster draft.subject) draft.subject
refusal_of_change arrived state draft = arrival_refusal state draft
refusal_of_change left state draft = none

unfoldable pub presence_refusal : RoomState → PresenceDraft → Option MessageRefusal
presence_refusal state draft = refusal_of_change draft.change state draft

-- The change already stands.
abbrev pub stands_already : PresenceChange → RoomState → Text → Bool
stands_already arrived state subject = is_present (get state.people subject)
stands_already left state subject = not (is_present (get state.people subject))
stands_already PresenceChange.seated state subject = on_list state.roster subject
stands_already unseated state subject = not (on_list state.roster subject)
