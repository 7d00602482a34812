-- ===== src/Room/Replays/Steps.antt =====
-- packages/ambion/src/room/projection.ts: the steps of a message and of a change of a lease.
use ambion.Common.{
  ◌==◌, Option, Text, some, some-injective, List, ap, arith, refl, subst, sym, ℕ, ◌<◌, ◌∙◌, ◌≡◌,
  ◌≤◌,
}
use ambion.Room.Advance.{on_lease, with_hold, with_leases, on_hold, base_after, with_message}
use ambion.Room.Fold.{
  apply_lease, lease_entry, last_message_seq, RoomEntry, apply_entry, message_delivery,
  message_entry,
}
use ambion.Room.Replays.Record.{with_message-IsDerived}
use ambion.Common.Maps.{get, number_key, text_key, set}
use ambion.Common.Options.{after_>>=}
use ambion.Room.Owed.{rejudge_owed, DueSummarize}
use ambion.Room.Projection.{facts_of, leased, running_after, RoomProjection}
use ambion.Room.Responds.{rejudge_seat, SeatLeases, OpenRespond}
use ambion.Room.Replays.{
  boundary_of, people_of, person_names, tail_of, EndedBy, IsDerived, IsIndexed, facts_after,
}
use ambion.Room.Replays.AtWork.{
  apply_lease-Applied, same_leases, sets, Changes, Kept, running_after-at_work, set-Kept,
  EndedBy-later, message_delivery-at_work,
}
use ambion.Room.Running.{Listed, at_work_now}
use ambion.Room.Types.{Change, RuleLease, Source, Message}
use ambion.Room.Completion.{exchange_after}
use ambion.Room.State.{ScheduledSay}

-- What one entry leaves.
pub record Step (p q : RoomProjection) (entry : RoomEntry) (seq : ℕ) : Type 0 where
  pub base : q.base ≡ facts_after p.base entry seq
  pub indexed : IsIndexed q seq
  pub derived : IsDerived q seq

pub IsDerived-later : (p : RoomProjection) (a b : ℕ) → a ≤ b → IsDerived p a → IsDerived p b
IsDerived-later p a b later d = record {
  met = d.met;
  kept = d.kept;
  asked = d.asked;
  bounded = d.bounded;
  within = d.within;
  placed = omega (arith, later, d.placed);
  newest = d.newest;
}

pub IsIndexed-later : (p : RoomProjection) (a b : ℕ) → a ≤ b → IsIndexed p a → IsIndexed p b
IsIndexed-later p a b later i = record {
  at_work = i.at_work;
  listed = i.listed;
  over = EndedBy-later a b p.base.leases later i.over;
}

-- The facts whose index of leases is left alone.
pub IsIndexed-same :
    (p q : RoomProjection) (top : ℕ)
    → q.running ≡ p.running
    → q.base.leases ≡ p.base.leases
    → IsIndexed p top
    → IsIndexed q top
IsIndexed-same p q top same_running leases_same i = record {
  at_work = same_running ∙ i.at_work ∙ ap at_work_now (sym leases_same);
  listed = subst Listed (sym leases_same) i.listed;
  over = subst (EndedBy top) (sym leases_same) i.over;
}

pub message-Step :
    (p : RoomProjection) (m : Message) (top seq : ℕ) (wakes : List OpenRespond)
    (owed : List DueSummarize) (scheduled : List ScheduledSay)
    → top < seq
    → m.seq ≡ seq
    → IsIndexed p top
    → IsDerived p top
    → Step p (with_message p m wakes owed scheduled) (message_entry m) seq
unfolding facts_after apply_entry
message-Step p m top seq wakes owed scheduled later place i d =
    let after : top < m.seq = subst (λ n. top < n) (sym place) later in
    record {
      base =
          ap (λ r. base_after p m r)
            (ap (message_delivery m) i.at_work
              ∙ message_delivery-at_work m p.base.leases top i.over after);
      indexed =
          IsIndexed-same p (with_message p m wakes owed scheduled) seq refl refl
            (IsIndexed-later p top seq (omega (arith, later)) i);
      derived =
          subst (IsDerived (with_message p m wakes owed scheduled)) place
            (with_message-IsDerived p m top wakes owed scheduled after d);
    }

-- A step that leaves what the derived facts are compared with.
record Same (p q : RoomProjection) : Type 0 where
  people : q.people ≡ p.people
  tail : q.tail ≡ p.tail
  exchange : q.exchange ≡ p.exchange
  boundary : q.boundary ≡ p.boundary
  last_seq : q.last_seq ≡ p.last_seq
  base : q.base ≡ p.base
  running_now : q.running ≡ p.running

-- The groups of leases, the wakes and the owed summaries are none of it.
Same-beside :
    (p : RoomProjection) (closed_leases : List (ℕ × List (Text × RuleLease)))
    (seat_leases : SeatLeases) (wakes : List OpenRespond) (owed : List DueSummarize)
    → Same p (record p {
      closed_leases = closed_leases;
      seat_leases = seat_leases;
      wakes = wakes;
      owed = owed;
    })
Same-beside p closed_leases seat_leases wakes owed = record {
  people = refl;
  tail = refl;
  exchange = refl;
  boundary = refl;
  last_seq = refl;
  base = refl;
  running_now = refl;
}

IsDerived-Same : (p q : RoomProjection) (top : ℕ) → Same p q → IsDerived p top → IsDerived q top
IsDerived-Same p q top s d = record {
  met = s.people ∙ d.met ∙ ap (λ b. people_of b.messages) (sym s.base);
  kept =
      s.tail
      ∙ d.kept
      ∙ ap (λ b. tail_of p.boundary b.messages) (sym s.base)
      ∙ ap (λ b. tail_of b q.base.messages) (sym s.boundary);
  asked =
      s.exchange
      ∙ d.asked
      ∙ ap (λ t. exchange_after t (person_names p.people) p.boundary) (sym s.tail)
      ∙ ap (λ n. exchange_after q.tail (person_names n) p.boundary) (sym s.people)
      ∙ ap (λ b. exchange_after q.tail (person_names q.people) b) (sym s.boundary);
  bounded = s.boundary ∙ d.bounded ∙ ap (λ b. boundary_of b.closes) (sym s.base);
  within =
      subst (λ b. b ≤ last_message_seq q.base.messages) (sym s.boundary)
        (subst (λ b. p.boundary ≤ last_message_seq b.messages) (sym s.base) d.within);
  placed = subst (λ b. last_message_seq b.messages ≤ top) (sym s.base) d.placed;
  newest = s.last_seq ∙ d.newest ∙ ap (λ b. last_message_seq b.messages) (sym s.base);
}

IsIndexed-Same : (p q : RoomProjection) (top : ℕ) → Same p q → IsIndexed p top → IsIndexed q top
IsIndexed-Same p q top s i = IsIndexed-same p q top s.running_now (ap (λ b. b.leases) s.base) i

module _ (iso : ℕ → Text) (parse : Text → Option ℕ) (backoff : ℕ → ℕ) where
  on_hold-Same :
      (s : Source) (p q : RoomProjection) (hold : RuleLease)
      → on_hold iso parse backoff s p hold ≡ some q
      → Same p q
  on_hold-Same Source.closed p q hold h =
      let closed = leased p.closed_leases hold.activation.position hold in
      after_>>= (Same p)
        (rejudge_owed parse backoff p.owed (λ o. o.due.position == hold.activation.position)
          (record (facts_of p) { closed_leases = closed }))
        (λ owed. record p { closed_leases = closed; owed = owed })
        (λ owed. Same-beside p closed p.seat_leases p.wakes owed) h
  on_hold-Same Source.message p q hold h =
      let seats = leased p.seat_leases hold.activation.seat hold in
      after_>>= (Same p)
        (rejudge_seat parse backoff p.wakes hold.activation.seat (get seats hold.activation.seat))
        (λ wakes. record p { seat_leases = seats; wakes = wakes })
        (λ wakes. Same-beside p p.closed_leases seats wakes p.owed) h

  -- The index follows the lease that a change sets.
  lease_set-Step :
      (p q : RoomProjection) (c : Change) (top seq : ℕ) (hold : RuleLease)
      → top < seq
      → IsIndexed p top
      → IsDerived p top
      → apply_lease p.base.leases c seq ≡ set p.base.leases hold.id hold
      → Changes p.base.leases hold hold.id seq
      → with_hold iso parse backoff
          (some hold)
          (with_leases iso parse backoff p (apply_lease p.base.leases c seq))
        ≡ some q
      → Step p q (lease_entry c) seq
  unfolding facts_after apply_entry
  lease_set-Step p q c top seq hold later i d placed changes h =
      let leases = apply_lease p.base.leases c seq in
      let r = record p {
        base = record p.base { leases = leases };
        running = running_after p.running hold;
      } in
      let same = on_hold-Same hold.activation.source r q hold h in
      let was : Kept top p.base.leases = record { listed = i.listed; over = i.over } in
      let now = set-Kept p.base.leases hold top seq was (omega (arith, later)) changes in
      let indexed : IsIndexed r seq = record {
        at_work =
            ap (λ x. running_after x hold) i.at_work
            ∙ running_after-at_work p.base.leases hold seq i.listed changes
            ∙ ap at_work_now (sym placed);
        listed = subst Listed (sym placed) now.listed;
        over = subst (EndedBy seq) (sym placed) now.over;
      } in
      let derived : IsDerived r seq = record {
        met = d.met;
        kept = d.kept;
        asked = d.asked;
        bounded = d.bounded;
        within = d.within;
        placed = omega (arith, later, d.placed);
        newest = d.newest;
      } in
      record {
        base = same.base;
        indexed = IsIndexed-Same r q seq same indexed;
        derived = IsDerived-Same r q seq same derived;
      }

  lease_absent-Step :
      (p : RoomProjection) (c : Change) (top seq : ℕ)
      → top < seq
      → IsIndexed p top
      → IsDerived p top
      → apply_lease p.base.leases c seq ≡ p.base.leases
      → Step p
          (with_leases iso parse backoff p (apply_lease p.base.leases c seq))
          (lease_entry c)
          seq
  unfolding facts_after apply_entry
  lease_absent-Step p c top seq later i d kept =
      let r = with_leases iso parse backoff p (apply_lease p.base.leases c seq) in
      let d_later = IsDerived-later p top seq (omega (arith, later)) d in
      record {
        base = refl;
        indexed =
            IsIndexed-same p r seq refl kept (IsIndexed-later p top seq (omega (arith, later)) i);
        derived = record {
          met = d_later.met;
          kept = d_later.kept;
          asked = d_later.asked;
          bounded = d_later.bounded;
          within = d_later.within;
          placed = d_later.placed;
          newest = d_later.newest;
        };
      }

  pub lease-Step :
      (p q : RoomProjection) (c : Change) (top seq : ℕ)
      → top < seq
      → IsIndexed p top
      → IsDerived p top
      → on_lease iso parse backoff p c seq ≡ some q
      → Step p q (lease_entry c) seq
  unfolding on_lease
  lease-Step p q c top seq later i d h =
      let was : Kept top p.base.leases = record { listed = i.listed; over = i.over } in
      elim (apply_lease-Applied p.base.leases c top seq was (omega (arith, later))) [
        | same_leases kept absent_now ↦
            subst (λ x. Step p x (lease_entry c) seq) (some-injective (rw absent_now at h))
              (lease_absent-Step p c top seq later i d kept)
        | sets hold placed there changes ↦
            lease_set-Step p q c top seq hold later i d
              (placed ∙ ap (λ x. set p.base.leases x hold) (sym changes.same_id))
              (subst (λ x. Changes p.base.leases hold x seq) (sym changes.same_id) changes)
              (rw there at h)
      ]
