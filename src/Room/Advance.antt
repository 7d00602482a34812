-- ===== src/Room/Advance.antt =====
-- packages/ambion/src/room/projection.ts: one entry applied to the derived facts, and the replay of a
-- journal. The wait after failed attempts, `Date.parse` and `toISOString` are parameters of a
-- section, and `none` stands for a throw.
use ambion.Room.Completion.{exchange_after}
use ambion.Room.Responds.{OpenRespond, rejudge_seat, responds_of}
use ambion.Common.{
  List, Option, Text, [], filter, if◌then◌else◌, ltb, map, none, some, text_eq, true, ℕ, ◌++◌, ◌==◌,
  ◌∷◌,
}
use ambion.Common.Maps.{text_key, get, set, number_key}
use ambion.Room.Fold.{
  RoomEntry, advance_people, apply_entry, apply_lease, cancel_entry, cancelled_close, close_entry,
  composition_entry, last_message_seq, lease_entry, message_delivery, message_entry, run_entry,
}
use ambion.Room.Owed.{DueSummarize, OwedFacts, judge_owed, rejudge_owed}
use ambion.Room.Projection.{
  RoomProjection, add_judged, closed_index, empty_projection, exchange_of, facts_of, leased,
  people_names, removed_seat, roster_after, running_after, running_of, seat_index, summary_close,
  summary_facts_after, tail_after, wakes_kept,
}
use ambion.Room.Scheduled.{changes_scheduled, schedule_step}
use ambion.Room.State.{BaseFacts, MessageRecipients, ScheduledSay}
use ambion.Room.Types.{
  Change, Close, Composition, Content, Message, RuleLease, Source, changed, summary, unseated,
}
use ambion.Common.Options.{◌>>=◌}

abbrev pub base_after : RoomProjection → Message → MessageRecipients → BaseFacts
base_after p m delivery = record p.base {
  messages = p.base.messages ++ m ∷ [];
  deliveries = set p.base.deliveries m.seq delivery;
}

-- The facts after a message, with the wakes, the owed summaries and the scheduled says that it leaves.
abbrev pub with_message :
    RoomProjection
    → Message
    → List OpenRespond
    → List DueSummarize
    → List ScheduledSay
    → RoomProjection
with_message p m wakes owed scheduled =
    let tail = tail_after p m in
    let people = advance_people p.people m in
    record p {
      base = base_after p m (message_delivery m p.running);
      people = people;
      roster = roster_after p m;
      exchange = exchange_of tail (map (λ e. e.0) people) p.boundary p.exchange m;
      tail = tail;
      summary_facts = summary_facts_after p m;
      wakes = wakes;
      owed = owed;
      scheduled = scheduled;
      last_seq = m.seq;
    }

-- The facts after a close, with the summaries that are owed then.
abbrev pub with_close : RoomProjection → Close → List DueSummarize → RoomProjection
with_close p close owed =
    let tail = filter (λ m. ltb close.through m.seq) p.tail in
    record p {
      boundary = close.through;
      tail = tail;
      exchange = exchange_after tail (people_names p) close.through;
      owed = owed;
    }

-- The facts that a cancellation leaves, before the owed summaries are judged again.
abbrev pub cancelled_facts : RoomProjection → Text → ℕ → RoomProjection
cancelled_facts p at seq =
    let base = apply_entry p.base (cancel_entry at) seq p.exchange in
    record p {
      base = base;
      wakes = [];
      scheduled = [];
      running = running_of [] base.leases;
      seat_leases = seat_index [] base.leases;
      closed_leases = closed_index [] base.leases;
    }

module _ (iso : ℕ → Text) (parse : Text → Option ℕ) (backoff : ℕ → ℕ) where
  abbrev pub owed_with : Content → List DueSummarize → OwedFacts → Option (List DueSummarize)
  owed_with (summary to text refs covers_from covers_through) owed facts =
      rejudge_owed parse backoff owed (λ o. true) facts
  owed_with (changed unseated subject identity attention fixed preferences) owed facts =
      rejudge_owed parse backoff owed (λ o. text_eq o.due.seat subject) facts
  owed_with _ owed facts = some owed

  -- The list of says changes at the messages that `changesScheduled` names.
  abbrev pub scheduled_after : List ScheduledSay → Message → Option (List ScheduledSay)
  scheduled_after list m = if changes_scheduled m then schedule_step iso parse list m else some list

  abbrev pub message_scheduled :
      RoomProjection → Message → List OpenRespond → List DueSummarize → Option RoomProjection
  message_scheduled p m opened owed = scheduled_after p.scheduled m >>= λ scheduled.
      some (with_message p m (wakes_kept (removed_seat m.content) p.wakes ++ opened) owed scheduled)

  unfoldable pub on_message : RoomProjection → Message → Option RoomProjection
  on_message p m =
      let facts = record (facts_of p) { summary_facts = summary_facts_after p m } in
      do
        opened ← responds_of parse backoff m (message_delivery m p.running) p.seat_leases
        owed ← owed_with m.content p.owed facts
        message_scheduled p m opened owed

  abbrev pub on_hold : Source → RoomProjection → RuleLease → Option RoomProjection
  on_hold Source.closed p hold =
      let closed = leased p.closed_leases hold.activation.position hold in
      do
        owed ←
            rejudge_owed parse backoff p.owed (λ o. o.due.position == hold.activation.position)
              (record (facts_of p) { closed_leases = closed })
        some (record p { closed_leases = closed; owed = owed })
  on_hold Source.message p hold =
      let seats = leased p.seat_leases hold.activation.seat hold in
      do
        wakes ←
            rejudge_seat parse backoff p.wakes hold.activation.seat (get seats hold.activation.seat)
        some (record p { seat_leases = seats; wakes = wakes })

  abbrev pub with_hold : Option RuleLease → RoomProjection → Option RoomProjection
  with_hold none p = some p
  with_hold (some hold) p =
      on_hold hold.activation.source (record p { running = running_after p.running hold }) hold

  abbrev pub with_leases : RoomProjection → List (Text × RuleLease) → RoomProjection
  with_leases p leases = record p { base = record p.base { leases = leases } }

  unfoldable pub on_lease : RoomProjection → Change → ℕ → Option RoomProjection
  on_lease p change seq =
      let leases = apply_lease p.base.leases change seq in
      with_hold (get leases change.id) (with_leases p leases)

  unfoldable pub closed_at : RoomProjection → Close → Option RoomProjection
  closed_at p close = do
    next ← judge_owed parse backoff (summary_close close) (facts_of p)
    some (with_close p close (add_judged p.owed next))

  unfoldable pub on_close : RoomProjection → Close → Option RoomProjection
  on_close p close =
      closed_at (record p { base = record p.base { closes = p.base.closes ++ close ∷ [] } }) close

  abbrev pub close_if : List Close → RoomProjection → Option RoomProjection
  close_if [] p = some p
  close_if (close ∷ more) p = closed_at p close

  unfoldable pub on_cancel : RoomProjection → Text → ℕ → Option RoomProjection
  on_cancel p at seq =
      let marked = cancelled_facts p at seq in
      do
        owed ← rejudge_owed parse backoff p.owed (λ o. true) (facts_of marked)
        close_if (cancelled_close p.exchange (last_message_seq p.base.messages) at)
            (record marked { owed = owed })

  abbrev pub on_composition : RoomProjection → Composition → RoomProjection
  on_composition p composition = record p {
    base = record p.base { composition = some composition };
    roster = composition.seats;
  }

  -- One committed entry. A message stands at the place of its entry.
  unfoldable pub advance : RoomProjection → RoomEntry → ℕ → Option RoomProjection
  advance p (message_entry m) seq = on_message p m
  advance p (lease_entry change) seq = on_lease p change seq
  advance p (close_entry close) seq = on_close p close
  advance p (cancel_entry at) seq = on_cancel p at seq
  advance p (composition_entry composition) seq = some (on_composition p composition)
  advance p (run_entry at) seq = some p

  unfoldable pub replay_onto : RoomProjection → List (RoomEntry × ℕ) → Option RoomProjection
  replay_onto p [] = some p
  replay_onto p ((entry, seq) ∷ entries) = advance p entry seq >>= λ next. replay_onto next entries

  unfoldable pub replay : List (RoomEntry × ℕ) → Option RoomProjection
  replay entries = replay_onto empty_projection entries
