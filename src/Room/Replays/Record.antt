-- ===== src/Room/Replays/Record.antt =====
-- packages/ambion/src/room/projection.ts: the derived facts after a message and after a close.
use ambion.Room.Replays.Exchange.{
  tail_of-later, exchange_after-tail, names-advance_people, people_of-append, tail_of-append,
}
use ambion.Room.Rules.Exchanges.{opening_question}
use ambion.Room.Completion.{exchange_after}
use ambion.Common.{
  Bool-cases, List, [], ap, arith, false, filter, find, if◌then◌else◌, inl, inr, last, last-append,
  ltb, refl, sym, ℕ, ◌&&◌, ◌++◌, ◌<◌, ◌∙◌, ◌∷◌, ◌≡◌, ◌≤◌,
}
use ambion.Room.Advance.{with_close, with_message}
use ambion.Room.Fold.{advance_people, last_message_seq}
use ambion.Room.Owed.{DueSummarize}
use ambion.Room.Projection.{
  RoomProjection, empty_projection, exchange_of, is_arrival, opens_kind, tail_after,
}
use ambion.Room.Replays.{
  IsDerived, IsIndexed, boundary_of, people_from, people_of, person_names, tail_of,
  open_exchange_of,
}
use ambion.Room.Responds.{OpenRespond}
use ambion.Room.Running.{Listed}
use ambion.Room.State.{ScheduledSay}
use ambion.Room.Types.{Close, Message}

pub empty-IsIndexed : IsIndexed empty_projection 0
unfolding filter
empty-IsIndexed = record { at_work = refl; listed = Listed.empty; over = tt }

pub empty-IsDerived : IsDerived empty_projection 0
unfolding people_from tail_of filter exchange_after opening_question find boundary_of last
    last_message_seq
empty-IsDerived = record {
  met = refl;
  kept = refl;
  asked = refl;
  bounded = refl;
  within = omega arith;
  placed = omega arith;
  newest = refl;
}

last_message_seq-append :
    (messages : List Message) (m : Message) → last_message_seq (messages ++ m ∷ []) ≡ m.seq
unfolding last_message_seq
last_message_seq-append messages m = rw (last-append messages m, last_message_seq) refl

pub boundary_of-append :
    (closes : List Close) (c : Close) → boundary_of (closes ++ c ∷ []) ≡ c.through
unfolding boundary_of
boundary_of-append closes c = rw (last-append closes c) refl

-- The open exchange of the derived facts is that of the record.
pub asked-open :
    (p : RoomProjection) (top : ℕ) → IsDerived p top → p.exchange ≡ open_exchange_of p.base
unfolding open_exchange_of
asked-open p top d =
    d.asked
    ∙ ap (λ t. exchange_after t (person_names p.people) p.boundary) d.kept
    ∙ exchange_after-tail p.base.messages (person_names p.people) p.boundary
    ∙ ap (λ n. exchange_after p.base.messages (person_names n) p.boundary) d.met
    ∙ ap (λ b. exchange_after p.base.messages (person_names (people_of p.base.messages)) b)
        d.bounded

tail_after-tail_of :
    (p : RoomProjection) (m : Message)
    → p.tail ≡ tail_of p.boundary p.base.messages
    → tail_after p m ≡ tail_of p.boundary (p.base.messages ++ m ∷ [])
unfolding tail_after
tail_after-tail_of p m kept =
    ap (λ t. if opens_kind m.content && ltb p.boundary m.seq then t ++ m ∷ [] else t) kept
    ∙ sym (tail_of-append p.boundary p.base.messages m)

tail_after-kept :
    (p : RoomProjection) (m : Message) → opens_kind m.content ≡ false → tail_after p m ≡ p.tail
unfolding tail_after
tail_after-kept p m h = rw h refl

exchange_of-asked :
    (p : RoomProjection) (m : Message)
    → p.exchange ≡ exchange_after p.tail (person_names p.people) p.boundary
    → exchange_of
        (tail_after p m)
        (person_names (advance_people p.people m))
        p.boundary
        p.exchange
        m
      ≡ exchange_after (tail_after p m) (person_names (advance_people p.people m)) p.boundary
unfolding exchange_of
exchange_of-asked p m asked = elim (Bool-cases (opens_kind m.content)) [
  | inl e ↦ rw e refl
  | inr e ↦ elim (Bool-cases (is_arrival m.content)) [
    | inl a ↦ rw (e, a) refl
    | inr a ↦
        rw (e, a)
          (asked
            ∙ ap (λ n. exchange_after p.tail n p.boundary) (sym (names-advance_people p.people m a))
            ∙ ap (λ t. exchange_after t (person_names (advance_people p.people m)) p.boundary)
                (sym (tail_after-kept p m e)))
  ]
]

pub with_message-IsDerived :
    (p : RoomProjection) (m : Message) (top : ℕ) (wakes : List OpenRespond)
    (owed : List DueSummarize) (scheduled : List ScheduledSay)
    → top < m.seq
    → IsDerived p top
    → IsDerived (with_message p m wakes owed scheduled) m.seq
with_message-IsDerived p m top wakes owed scheduled later d =
    let newest = last_message_seq-append p.base.messages m in
    record {
      met =
          ap (λ people. advance_people people m) d.met
          ∙ sym (people_of-append [] p.base.messages m);
      kept = tail_after-tail_of p m d.kept;
      asked = exchange_of-asked p m d.asked;
      bounded = d.bounded;
      within = rw newest (omega (arith, later, d.within, d.placed));
      placed = rw newest (omega arith);
      newest = sym newest;
    }

-- A close leaves the messages after it.
pub with_close-IsDerived :
    (r : RoomProjection) (close : Close) (seq : ℕ) (owed : List DueSummarize)
    → r.people ≡ people_of r.base.messages
    → r.tail ≡ tail_of r.boundary r.base.messages
    → r.last_seq ≡ last_message_seq r.base.messages
    → boundary_of r.base.closes ≡ close.through
    → r.boundary ≤ close.through
    → close.through ≤ last_message_seq r.base.messages
    → last_message_seq r.base.messages ≤ seq
    → IsDerived (with_close r close owed) seq
with_close-IsDerived r close seq owed met kept newest bounded from through placed = record {
  met = met;
  kept =
      ap (filter (λ m. ltb close.through m.seq)) kept
      ∙ tail_of-later r.boundary close.through r.base.messages from;
  asked = refl;
  bounded = sym bounded;
  within = through;
  placed = placed;
  newest = newest;
}
