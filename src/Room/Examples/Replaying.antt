-- ===== src/Room/Examples/Replaying.antt =====
-- A record of a room, replayed.
use ambion.Common.{
  last, ◌≡◌, codes, filter, find, text_eq, any, leb→le, ltb→lt, List, Option, Text, [], false, none,
  refl, some, ℕ, ◌∷◌,
}
use ambion.Room.Fold.{
  last_message_seq, apply_entry, RoomEntry, cancel_entry, close_entry, lease_entry, message_entry,
}
use ambion.Room.Reached.Cancelled.{cancel_clears}
use ambion.Room.Reconcile.{due_of, due_activation}
use ambion.Room.Refs.{refs_refusal}
use ambion.Room.Command.{decide, RoomCommand, cancel_command, deliver_command}
use ambion.Room.Routing.{candidates, routes}
use ambion.Room.Commit.{deliver}
use ambion.Room.Messages.{
  is_blank, content_refusal, utf8_size, oversize_refusal, routed, write_message,
}
use ambion.Common.Maps.{text_key, get, set}
use ambion.Room.History.{Keyed}
use ambion.Room.Reached.{Reached, moves, opens, Reached-Agrees}
use ambion.Room.Types.{
  system, Change, ChangeState, Close, Composition, broadcast, end_for, released, run_until,
}
use ambion.Room.Replays.{boundary_of, facts_after, facts_from}
use ambion.Room.Rules.Grants.{next_activation_id}
use ambion.Room.Rules.Wakes.{answers, wake_answered}
use ambion.Room.Rules.Exchanges.{is_said, opens_exchange, opening_question, includes}
use ambion.Room.Rules.Leases.{covers_attempt, apply_change}
use ambion.Room.ActivationId.{
  is_name, safe_positive_integer, encode_activation_id, cut, positive_integer, source_of,
  decode_activation_id,
}
use ambion.Room.Advance.{
  on_lease, closed_at, on_close, on_cancel, advance, replay_onto, on_message, replay,
}
use ambion.Room.Projection.{
  project_state, exchange_of, tail_after, leased, RoomProjection, empty_projection, no_facts,
}
use ambion.Room.Completion.{first_speaker, exchange_after}
use ambion.Room.Scheduled.{changes_scheduled}
use ambion.Room.Owed.{judge_owed, rejudge_owed}
use ambion.Room.Responds.{rejudge_seat, judge_seats, judge_wake, covering, responds_of}
use ambion.Room.Replays.Agrees.{Agrees, replay-Agrees}
use ambion.Room.Examples.{agent, asked, first_id}

abbrev write_time : ℕ → Text
write_time now = now ∷ []

abbrev read_time : Text → Option ℕ
read_time s = some 0

abbrev composed : Composition
composed = record {
  seats = record { name = agent; identity = []; attention = broadcast; fixed = none } ∷ [];
  reserve = [];
  summary_writer = none;
  seating_off = false;
}

abbrev change_at : ChangeState → Change
change_at state = record { id = first_id; at = []; read_through = 1; state = state }

abbrev closed_first : Close
closed_first = record {
  person = none;
  from = 1;
  through = 1;
  at = [];
  summary_writer = none;
  cancelled = false;
}

abbrev entries : List (RoomEntry × ℕ)
entries =
    (message_entry asked, 1)
    ∷ (lease_entry (change_at (run_until 50)), 2)
    ∷ (lease_entry (change_at (end_for released none)), 3)
    ∷ (close_entry closed_first, 4)
    ∷ (cancel_entry [], 5)
    ∷ []

abbrev or_empty : Option RoomProjection → RoomProjection
or_empty none = empty_projection
or_empty (some p) = p

abbrev replayed : RoomProjection
replayed = or_empty (replay write_time read_time (λ n. n) entries)

replay-Agrees_example : Agrees replayed (facts_from no_facts entries)
unfolding due_of due_activation any filter find get set text_eq covering judge_wake judge_seats
    responds_of rejudge_seat judge_owed rejudge_owed changes_scheduled exchange_after tail_after
    leased on_message on_lease closed_at on_close on_cancel advance replay_onto replay apply_entry
    is_name safe_positive_integer encode_activation_id cut positive_integer source_of
    decode_activation_id covers_attempt apply_change includes opening_question answers wake_answered
    next_activation_id boundary_of facts_after
replay-Agrees_example =
    replay-Agrees write_time read_time (λ n. n) entries replayed
      (
        ltb→lt 0 1 refl,
        refl,
        (
          ltb→lt 1 2 refl,
          tt,
          (
            ltb→lt 2 3 refl,
            tt,
            (ltb→lt 3 4 refl, (leb→le 0 1 refl, leb→le 1 1 refl), (ltb→lt 4 5 refl, tt, tt)),
          ),
        ),
      )
      refl

abbrev posting : RoomCommand
posting =
    deliver_command
      (record { from = none; to = none; text = codes "start"; refs = []; bytes = some 100 })

abbrev posted_entry : RoomEntry
posted_entry = message_entry (record {
  body = record {
    from = none;
    at = write_time 10;
    activation = none;
    wakes = [];
    content = system none (codes "start") [] none;
  };
  seq = 1;
})

abbrev posted_room : RoomProjection
posted_room = or_empty (advance write_time read_time (λ n. n) empty_projection posted_entry 1)

abbrev stopped_room : RoomProjection
stopped_room =
    or_empty (advance write_time read_time (λ n. n) posted_room (cancel_entry (write_time 20)) 2)

posted-Reached : Reached write_time read_time (λ n. n) posted_room 1
unfolding filter judge_seats responds_of changes_scheduled project_state on_message advance
    apply_entry is_blank content_refusal utf8_size oversize_refusal routed write_message deliver
    candidates routes decide refs_refusal
posted-Reached = moves 1 10 posting posted_entry opens (ltb→lt 0 1 refl) refl refl

stopped-Reached : Reached write_time read_time (λ n. n) stopped_room 2
unfolding find judge_seats responds_of judge_owed rejudge_owed changes_scheduled first_speaker
    exchange_after exchange_of tail_after on_message closed_at on_cancel advance apply_entry is_said
    opens_exchange opening_question decide
stopped-Reached =
    moves 2 20 cancel_command (cancel_entry (write_time 20)) posted-Reached (ltb→lt 1 2 refl) refl
      refl

Reached-Agrees_example : Agrees stopped_room stopped_room.base × Keyed stopped_room.base.leases
Reached-Agrees_example = Reached-Agrees write_time read_time (λ n. n) stopped_room 2 stopped-Reached

cancel_clears_example :
    (stopped_room.exchange ≡ none) × (stopped_room.wakes ≡ []) × (stopped_room.scheduled ≡ [])
unfolding find judge_seats responds_of judge_owed rejudge_owed changes_scheduled first_speaker
    exchange_after exchange_of tail_after on_message closed_at on_cancel advance apply_entry is_said
    opens_exchange opening_question decide last last_message_seq
cancel_clears_example =
    cancel_clears write_time read_time (λ n. n) posted_room stopped_room (write_time 20) 1 2
      posted-Reached (ltb→lt 1 2 refl) (leb→le 1 1 refl, tt) refl
