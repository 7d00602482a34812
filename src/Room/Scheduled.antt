-- ===== src/Room/Scheduled.antt =====
-- packages/ambion/src/room/scheduled.ts: the scheduled says that wait to return. `Date.parse` and
-- `toISOString` are parameters of a section.
use ambion.Room.Fold.{same_as}
use ambion.Common.{
  Bool, List, Option, Text, [], any, false, filter, find, if◌then◌else◌, leb, length, none, not,
  some, text_eq, true, ℕ, ◌&&◌, ◌*◌, ◌++◌, ◌+◌, ◌==◌, ◌∷◌, ◌||◌,
}
use ambion.Common.Int.{le_nat, lt_nat, negsuc, pos, ℤ}
use ambion.Room.ActivationId.{max_safe_integer}
use ambion.Room.Rules.Leases.{returnable}
use ambion.Room.State.{ScheduledSay}
use ambion.Room.Types.{
  Body, Content, Message, PresenceChange, Seating, changed, dismissed, said, summary, system,
  unseated,
}

-- The system message gives a scheduled say back.
abbrev pub returned_say : Content → Option ℕ
returned_say (system to text refs returns) = returns
returned_say _ = none

abbrev pub scheduled_delay : Content → Option ℕ
scheduled_delay (said to text refs delay_seconds) = delay_seconds
scheduled_delay _ = none

abbrev pub has_value {ℓ} : {A : Type ℓ} → Option A → Bool
has_value none = false
has_value (some a) = true

abbrev is_unseated : PresenceChange → Bool
is_unseated unseated = true
is_unseated _ = false

unfoldable pub changes_content : Content → Bool
changes_content (said to text refs delay_seconds) = has_value delay_seconds
changes_content (system to text refs returns) = has_value returns
changes_content (dismissed say) = true
changes_content (changed change subject identity attention fixed preferences) = is_unseated change
changes_content (summary to text refs covers_from covers_through) = false

unfoldable pub changes_scheduled : Message → Bool
unfolding changes_content
changes_scheduled m = changes_content m.content

abbrev author_or_empty : Option Text → Text
author_or_empty none = []
author_or_empty (some name) = name

-- Bounds on a scheduled say; `none` is `Infinity`.
pub record ScheduleLimits : Type 0 where
  pub min_delay_seconds : ℕ
  pub max_delay_seconds : Option ℕ
  pub waiting : Option ℕ

abbrev pub unbounded : ScheduleLimits
unbounded = record { min_delay_seconds = 1; max_delay_seconds = none; waiting = none }

pub data ScheduleFault : Type 0 where
  not_to_author not_whole : ScheduleFault
  outside_limits : (seconds : ℤ) → ScheduleFault
  too_many_wait : (count : ℕ) → ScheduleFault

abbrev pub is_safe_integer : ℤ → Bool
is_safe_integer (pos n) = leb n max_safe_integer
is_safe_integer (negsuc n) = leb (n + 1) max_safe_integer

abbrev pub above : ℤ → Option ℕ → Bool
above z none = false
above z (some n) = not (le_nat z n)

abbrev pub reaches : ℕ → Option ℕ → Bool
reaches count none = false
reaches count (some most) = leb most count

-- The intent of a say with `delaySeconds`.
unfoldable pub schedule_refusal :
    List ScheduledSay → Text → Option Text → ℤ → ScheduleLimits → Option ScheduleFault
schedule_refusal list seat to delay schedule =
    let waiting = length (filter (λ say. text_eq say.seat seat) list) in
    if not (same_as to seat)
    then some not_to_author
    else if not (is_safe_integer delay)
    then some not_whole
    else if lt_nat delay schedule.min_delay_seconds || above delay schedule.max_delay_seconds
    then some (outside_limits delay)
    else if reaches waiting schedule.waiting
    then some (too_many_wait waiting)
    else none

pub data Dismissal : Type 0 where
  dismiss already_gone : Dismissal
  of_another : (seat : Text) → Dismissal
  never_scheduled : Dismissal

unfoldable pub own_scheduled : List Message → Text → ℕ → Bool
own_scheduled messages seat seq =
    any (λ m. m.seq == seq && has_value (scheduled_delay m.content) && same_as m.from seat) messages

abbrev dismissal_of : Option ScheduledSay → List Message → Option Text → ℕ → Dismissal
dismissal_of none messages none seq = already_gone
dismissal_of (some say) messages none seq = dismiss
dismissal_of (some say) messages (some seat) seq =
    if text_eq say.seat seat then dismiss else of_another say.seat
dismissal_of none messages (some seat) seq =
    if own_scheduled messages seat seq then already_gone else never_scheduled

unfoldable pub dismissal : List ScheduledSay → List Message → Option Text → ℕ → Dismissal
dismissal list messages seat seq =
    dismissal_of (find (λ say. say.seq == seq) list) messages seat seq

-- The last time of a Date, in milliseconds: `toISOString` throws past it.
abbrev pub max_time : ℕ
max_time = 8640000000000000

-- `returnable` at a time that may be NaN
abbrev pub is_returnable : Option ℕ → ℕ → Bool → Bool
is_returnable none now on_roster = false
is_returnable (some due) now on_roster = returnable due now on_roster

module _ (iso : ℕ → Text) (parse : Text → Option ℕ) where
  abbrev pub waits_until :
      Option ℕ → List ScheduledSay → Message → Content → ℕ → Option (List ScheduledSay)
  waits_until (some at) list m (said to text refs delay) seconds =
      let due = at + seconds * 1000 in
      if leb due max_time
      then some (
          list
          ++ record {
            seq = m.seq;
            seat = author_or_empty m.from;
            due = iso due;
            text = text;
            refs = refs;
          }
            ∷ [])
      else none
  waits_until (some at) list m content seconds = some list
  waits_until none list m content seconds = none

  abbrev pub step_content : List ScheduledSay → Message → Content → Option (List ScheduledSay)
  step_content list m (system to text refs (some say)) =
      some (filter (λ s. not (s.seq == say)) list)
  step_content list m (dismissed say) = some (filter (λ s. not (s.seq == say)) list)
  step_content list m (changed unseated subject identity attention fixed preferences) =
      some (filter (λ s. not (text_eq s.seat subject)) list)
  step_content list m (said to text refs (some seconds)) =
      waits_until (parse m.at) list m (said to text refs (some seconds)) seconds
  step_content list m content = some list

  -- The list after one message. A stamp that is no time throws, and so does a due time past the last time of a
  -- Date: `none`.
  unfoldable pub schedule_step : List ScheduledSay → Message → Option (List ScheduledSay)
  schedule_step list m = step_content list m m.content

  abbrev pub returned : Bool → ScheduledSay → ℕ → Option Body
  returned false say now = none
  returned true say now = some (record {
    from = none;
    at = iso now;
    activation = none;
    wakes = [];
    content = system (some say.seat) say.text say.refs (some say.seq);
  })

  abbrev pub returning_say : Option ScheduledSay → List Seating → ℕ → Option Body
  returning_say none roster now = none
  returning_say (some say) roster now =
      returned (is_returnable (parse say.due) now (any (λ seat. text_eq seat.name say.seat) roster))
        say now

  -- The system message that gives a say back now.
  unfoldable pub returning : List ScheduledSay → List Seating → ℕ → ℕ → Option Body
  returning list roster seq now = returning_say (find (λ say. say.seq == seq) list) roster now
