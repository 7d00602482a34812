-- ===== src/Room/Reached.antt =====
-- A room as it runs: packages/ambion/src/room/transition.ts decides on the facts of projection.ts, inside the
-- write queue of the journal, and projection.ts applies the entry that the decision writes.
pub mod Cancelled
use ambion.Common.{
  Option, Text, arith, refl, some, some-injective, subst, sym, ℕ, ◌<◌, ◌∙◌, ◌≡◌, ◌≤◌,
}
use ambion.Room.Advance.{advance}
use ambion.Room.Command.{
  RoomCommand, cancel_command, close_at, close_command, commit_command, compose_command,
  composition_at, decide, deliver_command, dismiss_command, end_command, lease_at_place,
  lease_command, message_at, presence_command, proposed, reconcile_command, release_command,
  return_command, run_command,
}
use ambion.Room.Decide.{
  CloseDecision, ComposeDecision, LeaseDecision, change_entry, close_exchange, close_not,
  close_with, compose_not, compose_with, refuses, unchanged, unwritable,
}
use ambion.Room.Fold.{RoomEntry, last_message_seq}
use ambion.Room.History.{Keyed}
use ambion.Room.Messages.{
  MessageDecision, message_body, no_message, refused_message, unchanged_message,
}
use ambion.Room.Passes.Closing.{close_exchange-written}
use ambion.Room.Projection.{RoomProjection, empty_projection, project_state}
use ambion.Room.Replays.{IsDerived, IsIndexed, IsPlaced, boundary_of}
use ambion.Room.Replays.Agrees.{Agrees, advance-Step, step-Agrees}
use ambion.Room.Replays.Record.{empty-IsDerived, empty-IsIndexed}
use ambion.Room.Rules.Exchanges.{CloseRef}
use ambion.Room.Running.{Listed-Keyed}
use ambion.Room.State.{BaseFacts}

module _ (iso : ℕ → Text) (parse : Text → Option ℕ) (backoff : ℕ → ℕ) where
  -- The facts of a room after decided entries, with the place of the latest. The journal gives each
  -- entry a later place.
  pub data Reached : RoomProjection → ℕ → Type 0 where
    opens : Reached empty_projection 0
    moves :
        {p q : RoomProjection} {top : ℕ} (seq now : ℕ) (command : RoomCommand) (entry : RoomEntry)
        → Reached p top
        → top < seq
        → proposed (decide iso parse (project_state p) command now) seq ≡ some entry
        → advance iso parse backoff p entry seq ≡ some q
        → Reached q seq

  message_at-IsPlaced :
      (d : MessageDecision) (facts : BaseFacts) (seq : ℕ) (entry : RoomEntry)
      → message_at d seq ≡ some entry
      → IsPlaced facts entry seq
  message_at-IsPlaced (message_body b) facts seq entry h =
      subst (λ e. IsPlaced facts e seq) (some-injective h) refl
  message_at-IsPlaced no_message facts seq entry h = absurd (cc)
  message_at-IsPlaced (unchanged_message u) facts seq entry h = absurd (cc)
  message_at-IsPlaced (refused_message r) facts seq entry h = absurd (cc)

  lease_at_place-IsPlaced :
      (d : LeaseDecision) (facts : BaseFacts) (seq : ℕ) (entry : RoomEntry)
      → lease_at_place d ≡ some entry
      → IsPlaced facts entry seq
  lease_at_place-IsPlaced (change_entry change) facts seq entry h =
      subst (λ e. IsPlaced facts e seq) (some-injective h) tt
  lease_at_place-IsPlaced unchanged facts seq entry h = absurd (cc)
  lease_at_place-IsPlaced (refuses r) facts seq entry h = absurd (cc)
  lease_at_place-IsPlaced unwritable facts seq entry h = absurd (cc)

  composition_at-IsPlaced :
      (d : ComposeDecision) (facts : BaseFacts) (seq : ℕ) (entry : RoomEntry)
      → composition_at d ≡ some entry
      → IsPlaced facts entry seq
  composition_at-IsPlaced (compose_with composition) facts seq entry h =
      subst (λ e. IsPlaced facts e seq) (some-injective h) tt
  composition_at-IsPlaced (compose_not r) facts seq entry h = absurd (cc)

  -- A close ends at the last message, which no close is past.
  close_at-IsPlaced :
      (p : RoomProjection) (command : CloseRef) (now top seq : ℕ) (d : CloseDecision)
      (entry : RoomEntry)
      → IsDerived p top
      → close_exchange iso parse (project_state p) command now ≡ d
      → close_at d ≡ some entry
      → IsPlaced p.base entry seq
  unfolding project_state
  close_at-IsPlaced p command now top seq (close_with close) entry derived e h =
      let (opened, at, from, through, rest) =
        close_exchange-written iso parse (project_state p) command now close e in
      let last_one = through ∙ derived.newest in
      subst (λ x. IsPlaced p.base x seq) (some-injective h)
        (
          subst (λ n. boundary_of p.base.closes ≤ n) (sym last_one)
              (subst (λ b. b ≤ last_message_seq p.base.messages) derived.bounded derived.within),
          subst (λ n. n ≤ last_message_seq p.base.messages) (sym last_one) (omega arith),
        )
  close_at-IsPlaced p command now top seq (close_not a) entry derived e h = absurd (cc)

  -- Every entry that a decision writes continues the record.
  decided-IsPlaced :
      (p : RoomProjection) (command : RoomCommand) (now top seq : ℕ) (entry : RoomEntry)
      → IsDerived p top
      → proposed (decide iso parse (project_state p) command now) seq ≡ some entry
      → IsPlaced p.base entry seq
  unfolding decide
  decided-IsPlaced p (deliver_command c) now top seq entry derived h =
      message_at-IsPlaced _ p.base seq entry h
  decided-IsPlaced p (presence_command c r) now top seq entry derived h =
      message_at-IsPlaced _ p.base seq entry h
  decided-IsPlaced p (commit_command c) now top seq entry derived h =
      message_at-IsPlaced _ p.base seq entry h
  decided-IsPlaced p (return_command s) now top seq entry derived h =
      message_at-IsPlaced _ p.base seq entry h
  decided-IsPlaced p (dismiss_command s) now top seq entry derived h =
      message_at-IsPlaced _ p.base seq entry h
  decided-IsPlaced p (lease_command c) now top seq entry derived h =
      lease_at_place-IsPlaced _ p.base seq entry h
  decided-IsPlaced p (end_command c) now top seq entry derived h =
      lease_at_place-IsPlaced _ p.base seq entry h
  decided-IsPlaced p (release_command c) now top seq entry derived h =
      lease_at_place-IsPlaced _ p.base seq entry h
  decided-IsPlaced p (compose_command c) now top seq entry derived h =
      composition_at-IsPlaced _ p.base seq entry h
  decided-IsPlaced p (close_command c) now top seq entry derived h =
      close_at-IsPlaced p c now top seq _ entry derived refl h
  decided-IsPlaced p run_command now top seq entry derived h =
      subst (λ e. IsPlaced p.base e seq) (some-injective h) tt
  decided-IsPlaced p cancel_command now top seq entry derived h =
      subst (λ e. IsPlaced p.base e seq) (some-injective h) tt
  decided-IsPlaced p (reconcile_command o) now top seq entry derived h = absurd (cc)

  pub Reached-IsDerived :
      (p : RoomProjection) (top : ℕ) → Reached p top → IsIndexed p top × IsDerived p top
  Reached-IsDerived _ _ opens = (empty-IsIndexed, empty-IsDerived)
  Reached-IsDerived q _
        (moves {p = p} {top = top} seq now command entry before later decided went) =
      let (i, d) = Reached-IsDerived p top before in
      let step =
        advance-Step iso parse backoff p q entry top seq later
          (decided-IsPlaced p command now top seq entry d decided) i d went in
      (step.indexed, step.derived)

  -- A room that only its own decisions move keeps its derived facts true to its record: after any entries
  -- that commands wrote, its index of leases at work holds the leases that run, and its people,
  -- its open exchange and its last position are those that the whole record gives.
  pub Reached-Agrees :
      (p : RoomProjection) (top : ℕ) → Reached p top → Agrees p p.base × Keyed p.base.leases
  Reached-Agrees p top there =
      let (i, d) = Reached-IsDerived p top there in
      (step-Agrees iso parse backoff p top i d, Listed-Keyed p.base.leases i.listed)
