-- ===== src/Room/Examples/Writing.antt =====
-- Messages of a room at concrete facts.
use ambion.Room.Rules.Leases.{
  is_expired, on_record, admits_lease, lease_expiry, speech_freshness, returnable, is_live,
}
use ambion.Common.{
  filter, any, find, text_eq, Memᴰ, Option, Text, [], codes, none, refl, some, sym, true, ℕ, ◌∙◌,
  ◌∷◌, ◌≡◌, ◌≤◌,
}
use ambion.Room.Activation.{
  spec_of, spec_decoded, seat_of, purpose_of, seat_authority, seated, removed_after, grant_for,
  activation_spec, ActivationSpec, responds,
}
use ambion.Room.Commits.Freshness.{IsRead}
use ambion.Room.Fold.{distinct_onto, distinct, apply_lease}
use ambion.Room.Reconcile.{
  add_seat, exchange_at_work, add_due, live_seats, add_leases, live_work, endings, due_says,
  plan_reconciliation, say_due, abandonments,
}
use ambion.Room.ActivationId.{
  decimal, is_name, cut, source_of, encode_activation_id, render, positive_integer,
  safe_positive_integer, decode_activation_id,
}
use ambion.Room.Refs.{message_uri, parse_room_uri, refs_refusal}
use ambion.Room.Rules.Exchanges.{exchange_live, holds_exchange, includes, survives_cancellation}
use ambion.Room.Routing.{wakes_for, holds_ordinary, is_free, candidates, routes}
use ambion.Room.Scheduled.{schedule_step, schedule_refusal, returning}
use ambion.Room.Decide.{is_owed, seat_held, admission_of, running_lease, run_lease}
use ambion.Room.Commit.{
  ordinary_commit, commit_permitted, address_refusal, commit, CommitRequest, Intent, commit_summary,
  dismiss_say, return_say, says,
}
use ambion.Room.Rules.Summaries.{stamped_summary}
use ambion.Room.Completion.{covers_for, covering_summary}
use ambion.Room.Messages.{
  oversize_refusal, content_refusal, routed, utf8_size, is_blank, write_message, Delivery,
  has_summary, message_body, no_message, refused_message,
}
use ambion.Room.Rules.Grants.{well_formed, activation_grant}
use ambion.Common.Int.{pos}
use ambion.Common.Maps.{text_key, get}
use ambion.Room.ActivationId.RoundTrip.{decode-encode}
use ambion.Room.Authority.{Entitled}
use ambion.Room.Commits.Authored.{commit-IsStamped, say_reads_all}
use ambion.Room.Commits.Returns.{Unrepeated, give_back, planned_return_lands, returned_once}
use ambion.Room.Commits.Summaries.{one_summary}
use ambion.Room.Commits.Waiting.{IsWithin, waiting_is_bounded, waiting_of}
use ambion.Room.Commits.Woken.{IsWoken, routes-IsWoken}
use ambion.Room.Commits.Distinct.{Once}
use ambion.Room.Refs.RoundTrip.{parse-message_uri}
use ambion.Room.Seats.Bounded.{IsBounded, run_lease-IsBounded}
use ambion.Room.State.{RoomState, ScheduledSay}
use ambion.Room.Types.{Body, Content, RuleLease, run_until, said, summary}
use ambion.Room.Examples.{
  agent, asked, claim_one, first_fields, first_id, options_at, owed_one, room_with, running_one,
}
use mathlib.Core.List.Memᴰ

-- A time is written as one character.
abbrev write_time : ℕ → Text
write_time now = now ∷ []

abbrev read_time : Text → Option ℕ
read_time [] = none
read_time (t ∷ s) = some t

abbrev at_work_room : RoomState
at_work_room = room_with ((first_id, running_one) ∷ []) [] none

abbrev spec_one : ActivationSpec
spec_one = record { id = first_id; seat = agent; attempt = 1; purpose = responds 1 }

abbrev asks : Intent → CommitRequest
asks intent = record {
  activation = first_id;
  read_through = some (pos 1);
  intent = intent;
  bytes = some 100;
  schedule = record { min_delay_seconds = 1; max_delay_seconds = some 60; waiting = some 2 };
}

abbrev by_agent : Content → Body
by_agent content = record {
  from = some agent;
  at = write_time 10;
  activation = some first_id;
  wakes = [];
  content = content;
}

abbrev hi : Intent
hi = says none (codes "hi") [] none

abbrev later_note : Intent
later_note = says (some agent) (codes "hi") [] (some (pos 30))

commit-IsStamped_example :
    (spec : ActivationSpec) × (lease : RuleLease) × (get at_work_room.leases first_id ≡ some lease)
    × (is_live lease 10 ≡ true)
    × Entitled at_work_room first_id spec
    × (some agent ≡ some spec.seat)
    × (some first_id ≡ some first_id)
    × (write_time 10 ≡ write_time 10)
unfolding commit seat_authority get text_eq is_live activation_spec decode_activation_id cut
    source_of positive_integer is_name well_formed grant_for activation_grant survives_cancellation
    seated filter distinct_onto exchange_live holds_exchange add_seat exchange_at_work is_expired
    on_record spec_of spec_decoded add_due add_leases live_seats live_work candidates holds_ordinary
    is_free wakes_for includes any removed_after commit_permitted purpose_of ordinary_commit
    speech_freshness address_refusal write_message content_refusal is_blank refs_refusal
    oversize_refusal utf8_size routed routes distinct
commit-IsStamped_example =
    commit-IsStamped write_time read_time at_work_room (asks hi) 10
      (by_agent (said none (codes "hi") [] none)) refl

say_reads_all_example :
    IsRead write_time read_time none at_work_room
      (asks hi)
      10
      (by_agent (said none (codes "hi") [] none))
unfolding seat_authority get text_eq is_live activation_spec decode_activation_id cut source_of
    positive_integer is_name well_formed grant_for activation_grant survives_cancellation seated any
    removed_after purpose_of commit commit_permitted ordinary_commit speech_freshness
    address_refusal write_message content_refusal is_blank refs_refusal oversize_refusal utf8_size
    routed routes distinct filter candidates is_free
say_reads_all_example =
    say_reads_all write_time read_time at_work_room (asks hi) 10 spec_one running_one 1 none
      (codes "hi") [] none (by_agent (said none (codes "hi") [] none)) refl refl refl refl

waiting_is_bounded_example :
    IsWithin (asks later_note).schedule (pos 30)
    × (waiting_of
          (record { seq = 2; seat = agent; due = write_time 30010; text = codes "hi"; refs = [] }
            ∷ [])
          agent
        ≤ 2)
unfolding seat_authority get text_eq is_live activation_spec decode_activation_id cut source_of
    positive_integer is_name well_formed grant_for activation_grant survives_cancellation seated any
    removed_after purpose_of commit commit_permitted ordinary_commit address_refusal
    schedule_refusal filter write_message content_refusal is_blank refs_refusal oversize_refusal
    utf8_size routed routes distinct candidates is_free schedule_step
waiting_is_bounded_example =
    waiting_is_bounded write_time read_time at_work_room (asks later_note) 10 spec_one running_one 1
      (some agent) (codes "hi") [] (pos 30) (by_agent (said (some agent) (codes "hi") [] (some 30)))
      2 2
      (record { seq = 2; seat = agent; due = write_time 30010; text = codes "hi"; refs = [] } ∷ [])
      refl refl refl refl refl refl

abbrev summed : Body
summed = by_agent (summary (codes "p") (codes "sum") [] 1 1)

abbrev summed_room : RoomState
summed_room = record at_work_room {
  messages = asked ∷ record { body = summed; seq = 2 } ∷ [];
  last_seq = 2;
}

one_summary_example :
    commit_summary write_time read_time summed_room
      (asks hi)
      spec_one
      1
      1
      (codes "p")
      (codes "p" ∷ [])
      (codes "more")
      []
      20
    ≡ refused_message (has_summary (codes "p"))
unfolding commit_summary includes any text_eq covering_summary find covers_for write_message
    content_refusal is_blank refs_refusal oversize_refusal utf8_size routed routes stamped_summary
    distinct filter candidates is_free
one_summary_example =
    one_summary write_time read_time at_work_room summed_room (asks hi) (asks hi) spec_one spec_one
      1 1 (codes "p") (codes "p" ∷ []) (codes "p" ∷ []) (codes "sum") (codes "more") [] [] 10 20
      summed (record { body = summed; seq = 2 }) refl refl (Memᴰ.tail (Memᴰ.head refl)) refl

abbrev waiting_say : ScheduledSay
waiting_say = record { seq = 1; seat = agent; due = write_time 5; text = codes "note"; refs = [] }

abbrev waiting_room : RoomState
waiting_room = record (room_with [] [] none) { scheduled = waiting_say ∷ [] }

abbrev given_back : Body
given_back = record {
  from = none;
  at = write_time 10;
  activation = none;
  wakes = agent ∷ [];
  content = give_back waiting_say;
}

waiting-Unrepeated : Unrepeated waiting_room.scheduled
waiting-Unrepeated s t (Memᴰ.head a) (Memᴰ.head b) same = a ∙ sym b
waiting-Unrepeated s t (Memᴰ.tail m) n same = absurd (Memᴰ.not-nil m)
waiting-Unrepeated s t m (Memᴰ.tail n) same = absurd (Memᴰ.not-nil n)

planned_return_lands_example :
    (say : ScheduledSay) × Memᴰ say waiting_room.scheduled
    × (say.seq ≡ 1)
    × (b : Body) × (return_say write_time read_time waiting_room 1 10 ≡ message_body b)
    × (b.content ≡ give_back say)
    × (b.from ≡ none)
unfolding plan_reconciliation endings abandonments filter due_says say_due returnable seated any
    text_eq
planned_return_lands_example =
    planned_return_lands write_time read_time waiting_room (options_at 10) 1 waiting-Unrepeated
      (Memᴰ.head refl)

returned_once_example :
    (return_say write_time read_time (room_with [] [] none) 1 20 ≡ no_message)
    × (dismiss_say write_time read_time (room_with [] [] none) 1 20 ≡ no_message)
unfolding return_say returning find returnable any text_eq write_message content_refusal
    oversize_refusal routed routes distinct filter candidates is_free holds_ordinary get live_work
    live_seats add_due add_leases wakes_for includes schedule_step
returned_once_example =
    returned_once write_time read_time waiting_room (room_with [] [] none) 1 10 20 3 given_back refl
      refl

abbrev posted : Delivery
posted = record { from = none; to = some agent; text = codes "hello"; refs = []; bytes = some 100 }

routes-IsWoken_example :
    Once (routes given_back waiting_room [])
    × ((name : Text)
        → Memᴰ name (routes given_back waiting_room [])
        → IsWoken given_back waiting_room [] name)
    × ((name : Text)
        → IsWoken given_back waiting_room [] name
        → Memᴰ name (routes given_back waiting_room []))
routes-IsWoken_example = routes-IsWoken given_back waiting_room []

run_lease-IsBounded_example :
    (l : RuleLease) × (get
        (apply_lease []
          (record { id = first_id; at = write_time 10; read_through = 0; state = run_until 40 })
          2)
        first_id
      ≡ some l)
    × IsBounded read_time l claim_one 10
unfolding run_lease activation_spec decode_activation_id cut source_of text_eq positive_integer
    is_name well_formed grant_for activation_grant survives_cancellation seated any removed_after
    running_lease admission_of admits_lease get is_owed seat_held seat_of lease_expiry
run_lease-IsBounded_example =
    run_lease-IsBounded write_time read_time (room_with [] (owed_one ∷ []) none) claim_one 10 2
      (record { id = first_id; at = write_time 10; read_through = 0; state = run_until 40 })
      (λ t. refl) refl

decode-encode_example : decode_activation_id first_id ≡ some first_fields
unfolding encode_activation_id safe_positive_integer is_name render
decode-encode_example = decode-encode first_fields first_id refl

parse-message_uri_example :
    parse_room_uri (codes "ambion://room/lab/message/7")
    ≡ some (record { room = codes "lab"; message = some 7 })
unfolding message_uri safe_positive_integer is_name decimal
parse-message_uri_example =
    parse-message_uri (codes "lab") 7 (codes "ambion://room/lab/message/7") refl
