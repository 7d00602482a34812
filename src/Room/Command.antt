-- ===== src/Room/Command.antt =====
-- packages/ambion/src/room/transition.ts `decide`: each command of a room with its decision, and the entry
-- that the decision writes. `toISOString` and `Date.parse` are parameters of a section.
use ambion.Room.Reconcile.{Reconciliation, Send, plan_reconciliation, ReconcileOptions}
use ambion.Room.Commit.{CommitRequest, change_presence, commit, deliver, dismiss_say, return_say}
use ambion.Room.Decide.{
  CloseDecision, ComposeDecision, LeaseDecision, LeaseEnding, ReconcileStep, RunCommand,
  change_entry, close_exchange, close_not, close_with, compose, compose_not, compose_with,
  end_lease, reconcile, release_lease, run_lease,
}
use ambion.Room.Fold.{
  RoomEntry, cancel_entry, close_entry, composition_entry, lease_entry, message_entry, run_entry,
}
use ambion.Room.Messages.{Delivery, MessageDecision, PresenceDraft, message_body}
use ambion.Room.Rules.Exchanges.{CloseRef}
use ambion.Room.State.{RoomState}
use ambion.Room.Types.{Composition}
use ambion.Common.{Option, none, some, ℕ, Text, List, Bool}

pub data RoomCommand : Type 0 where
  deliver_command : Delivery → RoomCommand
  presence_command : (change : PresenceDraft) (route : Bool) → RoomCommand
  commit_command : CommitRequest → RoomCommand
  return_command dismiss_command : (say : ℕ) → RoomCommand
  lease_command : RunCommand → RoomCommand
  end_command release_command : LeaseEnding → RoomCommand
  compose_command : Composition → RoomCommand
  close_command : CloseRef → RoomCommand
  run_command cancel_command : RoomCommand
  reconcile_command : ReconcileOptions → RoomCommand

-- What a pass does beside its writes.
pub record PassEffects : Type 0 where
  pub sends : List Send
  pub forget : List Text
  pub alarm_at : Option ℕ

pub data RoomDecision : Type 0 where
  of_message : MessageDecision → RoomDecision
  of_lease : LeaseDecision → RoomDecision
  of_compose : ComposeDecision → RoomDecision
  of_close : CloseDecision → RoomDecision
  starts_run cancels_work : (at : Text) → RoomDecision
  plans : List ReconcileStep → PassEffects → RoomDecision

-- The entry of a decision at the place that the journal gives it.
abbrev pub message_at : MessageDecision → ℕ → Option RoomEntry
message_at (message_body b) seq = some (message_entry (record { body = b; seq = seq }))
message_at _ seq = none

abbrev pub lease_at_place : LeaseDecision → Option RoomEntry
lease_at_place (change_entry change) = some (lease_entry change)
lease_at_place _ = none

abbrev pub composition_at : ComposeDecision → Option RoomEntry
composition_at (compose_with composition) = some (composition_entry composition)
composition_at (compose_not refusal) = none

abbrev pub close_at : CloseDecision → Option RoomEntry
close_at (close_with close) = some (close_entry close)
close_at (close_not admission) = none

abbrev pub proposed : RoomDecision → ℕ → Option RoomEntry
proposed (of_message d) seq = message_at d seq
proposed (of_lease d) seq = lease_at_place d
proposed (of_compose d) seq = composition_at d
proposed (of_close d) seq = close_at d
proposed (starts_run at) seq = some (run_entry at)
proposed (cancels_work at) seq = some (cancel_entry at)
proposed (plans steps effects) seq = none

abbrev effects_of : Reconciliation → PassEffects
effects_of plan = record { sends = plan.sends; forget = plan.forget; alarm_at = plan.alarm_at }

module _ (iso : ℕ → Text) (parse : Text → Option ℕ) where
  unfoldable pub decide : RoomState → RoomCommand → ℕ → RoomDecision
  decide state (deliver_command command) now = of_message (deliver iso parse state command now)
  decide state (presence_command change route) now =
      of_message (change_presence iso parse state change now route)
  decide state (commit_command request) now = of_message (commit iso parse state request now)
  decide state (return_command say) now = of_message (return_say iso parse state say now)
  decide state (dismiss_command say) now = of_message (dismiss_say iso parse state say now)
  decide state (lease_command command) now = of_lease (run_lease iso parse state command now)
  decide state (end_command ending) now = of_lease (end_lease iso parse state ending now)
  decide state (release_command ending) now = of_lease (release_lease iso parse state ending now)
  decide state (compose_command composition) now = of_compose (compose state composition)
  decide state (close_command close) now = of_close (close_exchange iso parse state close now)
  decide state run_command now = starts_run (iso now)
  decide state cancel_command now = cancels_work (iso now)
  decide state (reconcile_command options) now =
      let options_now = record options { now = now } in
      plans (reconcile iso parse state options_now)
        (effects_of (plan_reconciliation parse state options_now))
