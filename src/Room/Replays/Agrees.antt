-- ===== src/Room/Replays/Agrees.antt =====
-- packages/ambion/src/room/projection.ts: `advance` and `replay` against the record read at once.
use ambion.Room.Advance.{
  message_scheduled, owed_with, scheduled_after, with_message, advance, on_composition, on_message,
  replay, replay_onto,
}
use ambion.Common.{
  ◌++◌, List, Option, Text, [], arith, refl, some, some-injective, subst, sym, ℕ, ◌<◌, ◌∷◌, ◌≡◌,
  ◌≤◌,
}
use ambion.Common.Options.{after_>>=, >>=-some, ◌>>=◌}
use ambion.Room.Projection.{
  removed_seat, wakes_kept, RoomProjection, empty_projection, facts_of, no_facts,
  summary_facts_after,
}
use ambion.Room.Replays.Steps.{message-Step, Step, IsDerived-later, IsIndexed-later, lease-Step}
use ambion.Room.Responds.{responds_of}
use ambion.Room.Fold.{
  RoomEntry, apply_entry, cancel_entry, close_entry, composition_entry, last_message_seq,
  lease_entry, message_delivery, message_entry, run_entry,
}
use ambion.Room.Replays.{
  IsDerived, IsIndexed, IsPlaced, IsRecord, facts_after, facts_from, people_of, open_exchange_of,
}
use ambion.Room.Replays.Closing.{cancel-Step, close-Step}
use ambion.Room.Replays.Record.{asked-open, empty-IsDerived, empty-IsIndexed}
use ambion.Room.Running.{at_work_now}
use ambion.Room.State.{BaseFacts}

-- The derived facts are those of the record.
pub record Agrees (p : RoomProjection) (facts : BaseFacts) : Type 0 where
  pub base_facts : p.base ≡ facts
  pub at_work : p.running ≡ at_work_now facts.leases
  pub met : p.people ≡ people_of facts.messages
  pub open_now : p.exchange ≡ open_exchange_of facts
  pub newest : p.last_seq ≡ last_message_seq facts.messages

module _ (iso : ℕ → Text) (parse : Text → Option ℕ) (backoff : ℕ → ℕ) where
  same_facts-Step :
      (p q : RoomProjection) (entry : RoomEntry) (top seq : ℕ)
      → top ≤ seq
      → q.base ≡ facts_after p.base entry seq
      → IsIndexed q top
      → IsDerived q top
      → Step p q entry seq
  same_facts-Step p q entry top seq later base i d = record {
    base = base;
    indexed = IsIndexed-later q top seq later i;
    derived = IsDerived-later q top seq later d;
  }

  pub advance-Step :
      (p q : RoomProjection) (entry : RoomEntry) (top seq : ℕ)
      → top < seq
      → IsPlaced p.base entry seq
      → IsIndexed p top
      → IsDerived p top
      → advance iso parse backoff p entry seq ≡ some q
      → Step p q entry seq
  unfolding advance on_message facts_after apply_entry
  advance-Step p q (message_entry m) top seq later place i d h =
      let facts = record (facts_of p) { summary_facts = summary_facts_after p m } in
      let (opened, a, more) =
        >>=-some (responds_of parse backoff m (message_delivery m p.running) p.seat_leases)
          (λ opened. owed_with iso parse backoff m.content p.owed facts >>= λ owed.
            message_scheduled iso parse backoff p m opened owed)
          h in
      let (owed, b, last_part) =
        >>=-some (owed_with iso parse backoff m.content p.owed facts)
          (λ owed. message_scheduled iso parse backoff p m opened owed) more in
      let wakes = wakes_kept (removed_seat m.content) p.wakes ++ opened in
      after_>>= (λ x. Step p x (message_entry m) seq)
        (scheduled_after iso parse backoff p.scheduled m) (with_message p m wakes owed)
        (λ scheduled. message-Step p m top seq wakes owed scheduled later place i d) last_part
  advance-Step p q (lease_entry c) top seq later place i d h =
      lease-Step iso parse backoff p q c top seq later i d h
  advance-Step p q (close_entry close) top seq later place i d h =
      close-Step iso parse backoff p q close top seq later place i d h
  advance-Step p q (cancel_entry at) top seq later place i d h =
      cancel-Step iso parse backoff p q at top seq later i d h
  advance-Step p q (composition_entry composition) top seq later place i d h =
      subst (λ x. Step p x (composition_entry composition) seq) (some-injective h)
        (same_facts-Step p (on_composition iso parse backoff p composition)
          (composition_entry composition) top seq (omega (arith, later)) refl
          (record { at_work = i.at_work; listed = i.listed; over = i.over })
          (record {
            met = d.met;
            kept = d.kept;
            asked = d.asked;
            bounded = d.bounded;
            within = d.within;
            placed = d.placed;
            newest = d.newest;
          }))
  advance-Step p q (run_entry at) top seq later place i d h =
      subst (λ x. Step p x (run_entry at) seq) (some-injective h)
        (same_facts-Step p p (run_entry at) top seq (omega (arith, later)) refl i d)

  pub step-Agrees :
      (p : RoomProjection) (top : ℕ) → IsIndexed p top → IsDerived p top → Agrees p p.base
  step-Agrees p top i d = record {
    base_facts = refl;
    at_work = i.at_work;
    met = d.met;
    open_now = asked-open p top d;
    newest = d.newest;
  }

  replay_onto-Agrees :
      (p q : RoomProjection) (top : ℕ) (entries : List (RoomEntry × ℕ))
      → IsIndexed p top
      → IsDerived p top
      → IsRecord p.base top entries
      → replay_onto iso parse backoff p entries ≡ some q
      → Agrees q (facts_from p.base entries)
  unfolding replay_onto facts_from
  replay_onto-Agrees p q top [] i d record_of h =
      subst (λ x. Agrees x p.base) (some-injective h) (step-Agrees p top i d)
  replay_onto-Agrees p q top ((entry, seq) ∷ entries) i d (later, place, rest) h =
      let (next, went, more) =
        >>=-some (advance iso parse backoff p entry seq)
          (λ n. replay_onto iso parse backoff n entries) h in
      let step = advance-Step p next entry top seq later place i d went in
      subst (λ b. Agrees q (facts_from b entries)) step.base
        (replay_onto-Agrees next q seq entries step.indexed step.derived
          (subst (λ b. IsRecord b seq entries) (sym step.base) rest) more)

  -- When a replay of a record returns, where the places ascend, each message stands at the place of its
  -- entry and each close ends between the last close and the last message, then the base facts are those of
  -- the entries applied one after the other, each with the exchange that the record then leaves open; the
  -- index of leases at work holds the leases that run, in their order; and the people, the open exchange and
  -- the last position are those that the whole record gives.
  pub replay-Agrees :
      (entries : List (RoomEntry × ℕ)) (q : RoomProjection)
      → IsRecord no_facts 0 entries
      → replay iso parse backoff entries ≡ some q
      → Agrees q (facts_from no_facts entries)
  unfolding replay
  replay-Agrees entries q record_of h =
      replay_onto-Agrees empty_projection q 0 entries empty-IsIndexed empty-IsDerived record_of h
