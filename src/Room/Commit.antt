-- ===== src/Room/Commit.antt =====
-- packages/ambion/src/room/transition.ts: what a seat commits, and the decisions of the host on
-- messages. `toISOString` and `Date.parse` are parameters of a section.
use ambion.Room.Activation.{
  stale, ActivationPurpose, ActivationSpec, Authority, holds, responds, seat_authority, summarizes,
}
use ambion.Room.Fold.{is_fixed}
use ambion.Common.{
  Bool, List, Option, Text, [], false, filter, if◌then◌else◌, ltb, none, not, some, text_eq, true,
  ℕ, ◌&&◌,
}
use ambion.Common.Int.{to_nat, ℤ}
use ambion.Room.Completion.{covering_summary}
use ambion.Room.Messages.{
  Delivery, MessageDecision, MessageRefusal, PresenceDraft, bad_schedule, closing_schedules, deaf,
  delivered_content, fixed_seat, has_summary, hears_nothing, is_person, message_body,
  missed_entries, no_message, not_a_speaker, not_in_reserve, not_own_say, not_permitted,
  not_scheduled, on_list, or_refusal, presence_refusal, presence_refusal_of, refused_message,
  seat_named, seating_is_off, stale_seat, stands_already, states_no_position, still_dismissed,
  still_seated, still_unseated, target_refusal, to_oneself, unchanged_message, unknown_participant,
  write_message,
}
use ambion.Room.Rules.Exchanges.{includes}
use ambion.Room.Rules.Leases.{Freshness, fresh, invalid, missed, speech_freshness}
use ambion.Room.Rules.Summaries.{Stamped, stamped_summary}
use ambion.Room.Scheduled.{
  Dismissal, ScheduleFault, ScheduleLimits, already_gone, dismiss, dismissal, is_safe_integer,
  never_scheduled, of_another, returning, schedule_refusal,
}
use ambion.Room.State.{RoomState}
use ambion.Room.Types.{
  Body, Composition, Content, Message, PresenceChange, Seating, changed, dismissed, said, summary,
  unseated,
}

-- What a seat asks the room to record.
pub data Intent : Type 0 where
  says : (to : Option Text) (text : Text) (refs : List Text) (delay : Option ℤ) → Intent
  seats : (name : Text) → Intent
  unseats : (name : Text) → Intent
  dismisses : (say : ℕ) → Intent

-- The request of a seat, with the bounds that its command states beside it.
pub record CommitRequest : Type 0 where
  pub activation : Text
  pub read_through : Option ℤ
  pub intent : Intent
  pub bytes : Option ℕ
  pub schedule : ScheduleLimits

-- Who writes: `at`, and the activation and the seat where a seat does.
pub record Stamp : Type 0 where
  pub at : Text
  pub activation : Option Text
  pub from : Option Text

abbrev pub stamped : Stamp → Content → Body
stamped stamp content = record {
  from = stamp.from;
  at = stamp.at;
  activation = stamp.activation;
  wakes = [];
  content = content;
}

abbrev responds_purpose : ActivationPurpose → Bool
responds_purpose (responds m) = true
responds_purpose (summarizes exchange person through people) = false

abbrev pub permits : ActivationSpec → Intent → Bool
permits spec (says to text refs delay) = true
permits spec _ = responds_purpose spec.purpose

abbrev pub changes_seats : Intent → Bool
changes_seats (seats name) = true
changes_seats (unseats name) = true
changes_seats _ = false

abbrev pub seating_off_in : Option Composition → Bool
seating_off_in none = false
seating_off_in (some composition) = composition.seating_off

abbrev pub safe_position : Option ℤ → Option ℤ
safe_position none = none
safe_position (some z) = if is_safe_integer z then some z else none

abbrev place_of_read : Option ℤ → ℕ
place_of_read none = 0
place_of_read (some z) = to_nat z

abbrev pub fresh_refusal : Freshness → RoomState → Option ℤ → Option MessageRefusal
fresh_refusal invalid state read = some states_no_position
fresh_refusal missed state read =
    some (missed_entries (filter (λ m. ltb (place_of_read read) m.seq) state.messages))
fresh_refusal fresh state read = none

-- `speechFreshness`: a scheduled say states no position.
abbrev pub freshness_refusal : Intent → RoomState → Option ℤ → Option MessageRefusal
freshness_refusal (says to text refs none) state read_through =
    let read = safe_position read_through in
    fresh_refusal (speech_freshness read state.last_seq) state read
freshness_refusal _ state read_through = none

abbrev pub fault_refusal : Option ScheduleFault → Option MessageRefusal
fault_refusal none = none
fault_refusal (some fault) = some (bad_schedule fault)

abbrev named_refusal : RoomState → Text → Option Text → Option MessageRefusal
named_refusal state seat none = none
named_refusal state seat (some target) =
    if not (is_person state target) && not (on_list state.roster target)
    then some (unknown_participant target)
    else if text_eq target seat
    then some to_oneself
    else if deaf (seat_named state.roster target)
    then some (hears_nothing target)
    else none

unfoldable pub address_refusal :
    RoomState → Text → Option Text → Option ℤ → ScheduleLimits → Option MessageRefusal
address_refusal state seat to (some delay) schedule =
    fault_refusal (schedule_refusal state.scheduled seat to delay schedule)
address_refusal state seat to none schedule = named_refusal state seat to

-- A delay that passed its test.
abbrev pub seconds_of : Option ℤ → Option ℕ
seconds_of none = none
seconds_of (some z) = some (to_nat z)

abbrev pub seated_content : Seating → Content
seated_content spare =
    changed PresenceChange.seated spare.name (some spare.identity) (some spare.attention)
      spare.fixed none

abbrev seat_from_reserve : Option Seating → RoomState → Text → Stamp → ℕ → MessageDecision
seat_from_reserve none state name stamp now = refused_message (not_in_reserve name)
seat_from_reserve (some spare) state name stamp now =
    write_message state (stamped stamp (seated_content spare)) now true none

unfoldable pub seating : RoomState → Text → Stamp → ℕ → MessageDecision
seating state name stamp now =
    if on_list state.roster name
    then unchanged_message (still_seated name)
    else seat_from_reserve (seat_named state.reserve name) state name stamp now

abbrev unseat_found : Option Seating → RoomState → Text → Stamp → ℕ → MessageDecision
unseat_found none state name stamp now =
    if on_list state.reserve name
    then unchanged_message (still_unseated name)
    else refused_message (unknown_participant name)
unseat_found (some seat) state name stamp now =
    if is_fixed seat state.composition
    then refused_message (fixed_seat name)
    else write_message state (stamped stamp (changed unseated name none none none none)) now true
        none

unfoldable pub unseating : RoomState → Text → Stamp → ℕ → MessageDecision
unseating state name stamp now = unseat_found (seat_named state.roster name) state name stamp now

abbrev gone : Option Text → ℕ → MessageDecision
gone none say = no_message
gone (some from) say = unchanged_message (still_dismissed say)

abbrev pub dismissed_as : Dismissal → ℕ → Stamp → MessageDecision
dismissed_as dismiss say stamp = message_body (stamped stamp (dismissed say))
dismissed_as already_gone say stamp = gone stamp.from say
dismissed_as (of_another seat) say stamp = refused_message (not_own_say seat)
dismissed_as never_scheduled say stamp = refused_message (not_scheduled say)

unfoldable pub dismissing : RoomState → ℕ → Stamp → MessageDecision
dismissing state say stamp =
    dismissed_as (dismissal state.scheduled state.messages stamp.from say) say stamp

abbrev pub or_person : Option Text → Text → Text
or_person none person = person
or_person (some to) person = to

module _ (iso : ℕ → Text) (parse : Text → Option ℕ) where
  abbrev pub author_body : Delivery → ℕ → Body
  author_body command now = record {
    from = command.from;
    at = iso now;
    activation = none;
    wakes = [];
    content = delivered_content command command.from;
  }

  -- `deliver` and `post`
  unfoldable pub deliver : RoomState → Delivery → ℕ → MessageDecision
  deliver state command now = or_refusal (presence_refusal_of state command.from) (
      or_refusal (target_refusal state command.to)
        (write_message state (author_body command now) now true command.bytes))

  abbrev draft_body : PresenceDraft → ℕ → Body
  draft_body draft now = record {
    from = draft.from;
    at = iso now;
    activation = draft.activation;
    wakes = [];
    content =
        changed draft.change draft.subject draft.identity draft.attention draft.fixed
          draft.preferences;
  }

  unfoldable pub change_presence : RoomState → PresenceDraft → ℕ → Bool → MessageDecision
  change_presence state draft now route = or_refusal (presence_refusal state draft) (
      if stands_already draft.change state draft.subject
      then no_message
      else write_message state (draft_body draft now) now route none)

  abbrev pub seat_stamp : ActivationSpec → CommitRequest → ℕ → Stamp
  seat_stamp spec request now = record {
    at = iso now;
    activation = some request.activation;
    from = some spec.seat;
  }

  abbrev summary_content : Stamped → Text → List Text → Content
  summary_content covers text refs =
      summary covers.to text refs covers.covers_from covers.covers_through

  abbrev if_uncovered : Option Message → Text → MessageDecision → MessageDecision
  if_uncovered none recipient decision = decision
  if_uncovered (some m) recipient decision = refused_message (has_summary recipient)

  -- The summary that a seat says for a closed exchange: its recipient, the text and the range.
  unfoldable pub commit_summary :
      RoomState
      → CommitRequest
      → ActivationSpec
      → ℕ
      → ℕ
      → Text
      → List Text
      → Text
      → List Text
      → ℕ
      → MessageDecision
  commit_summary state request spec exchange through recipient people text refs now =
      if not (includes people recipient)
      then refused_message not_a_speaker
      else if_uncovered (covering_summary state.messages recipient exchange through none) recipient
          (write_message state
            (stamped (seat_stamp spec request now)
              (summary_content (stamped_summary recipient exchange through) text refs))
            now true request.bytes)

  abbrev closing_say :
      Option ℤ
      → RoomState
      → CommitRequest
      → ActivationSpec
      → ℕ
      → ℕ
      → Text
      → List Text
      → Option Text
      → Text
      → List Text
      → ℕ
      → MessageDecision
  closing_say (some delay) state request spec exchange through person people to text refs now =
      refused_message closing_schedules
  closing_say none state request spec exchange through person people to text refs now =
      commit_summary state request spec exchange through (or_person to person) people text refs now

  abbrev pub ordinary_intent :
      Intent → RoomState → CommitRequest → ActivationSpec → ℕ → MessageDecision
  ordinary_intent (seats name) state request spec now =
      seating state name (seat_stamp spec request now) now
  ordinary_intent (unseats name) state request spec now =
      unseating state name (seat_stamp spec request now) now
  ordinary_intent (dismisses say) state request spec now =
      dismissing state say (seat_stamp spec request now)
  ordinary_intent (says to text refs delay) state request spec now =
      or_refusal (address_refusal state spec.seat to delay request.schedule) (
        write_message state
          (stamped (seat_stamp spec request now) (said to text refs (seconds_of delay))) now true
          request.bytes)

  unfoldable pub ordinary_commit : RoomState → CommitRequest → ActivationSpec → ℕ → MessageDecision
  ordinary_commit state request spec now =
      or_refusal (freshness_refusal request.intent state request.read_through)
        (ordinary_intent request.intent state request spec now)

  -- A say of a summary activation is its summary; every other intent is ordinary.
  abbrev pub commit_for :
      Intent → ActivationPurpose → RoomState → CommitRequest → ActivationSpec → ℕ → MessageDecision
  commit_for (says to text refs delay) (summarizes exchange person through people) state request
        spec now =
      closing_say delay state request spec exchange through person people to text refs now
  commit_for intent purpose state request spec now = ordinary_commit state request spec now

  unfoldable pub commit_permitted : RoomState → CommitRequest → ActivationSpec → ℕ → MessageDecision
  commit_permitted state request spec now =
      if not (permits spec request.intent)
      then refused_message not_permitted
      else if seating_off_in state.composition && changes_seats request.intent
      then refused_message seating_is_off
      else commit_for request.intent spec.purpose state request spec now

  abbrev pub commit_with : Authority → RoomState → CommitRequest → ℕ → MessageDecision
  commit_with (stale why) state request now = refused_message (stale_seat why)
  commit_with (holds spec lease) state request now = commit_permitted state request spec now

  unfoldable pub commit : RoomState → CommitRequest → ℕ → MessageDecision
  commit state request now =
      commit_with (seat_authority state request.activation now) state request now

  abbrev pub write_returned : Option Body → RoomState → ℕ → MessageDecision
  write_returned none state now = no_message
  write_returned (some body) state now = write_message state body now true none

  -- `returnSay`
  unfoldable pub return_say : RoomState → ℕ → ℕ → MessageDecision
  return_say state say now =
      write_returned (returning iso parse state.scheduled state.roster say now) state now

  -- `dismiss` of the host
  unfoldable pub dismiss_say : RoomState → ℕ → ℕ → MessageDecision
  dismiss_say state say now =
      dismissing state say (record { at = iso now; activation = none; from = none })
