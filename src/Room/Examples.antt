-- ===== src/Room/Examples.antt =====
-- Decisions of a room at concrete facts.
mod Writing
mod Replaying
use ambion.Common.{
  zero, suc, Memᴰ, any, filter, ◌+◌, ◌<◌, ◌≤◌, List, Option, Text, [], arith, codes, false, inl,
  inr, none, refl, some, text_eq, true, ℕ, ◌∷◌, ◌≡◌,
}
use ambion.Room.Activation.{
  ActivationSpec, activation_spec, grant_for, holds, purpose_of, removed_after, responds,
  seat_authority, seat_of, seated,
}
use ambion.Room.Fold.{
  at_work, is_respond, message_delivery, same_as, steers, apply_entry, apply_lease, cancel_entry,
  run_entry,
}
use ambion.Room.Recipients.{index_at_or_after, seq_at}
use ambion.Room.Reconcile.{
  LeaseEnd, abandonment, abandonments, close_now, due_activation, due_of, endings, exchange_at_work,
  is_stale, latest, lease_ending, live_work, plan_close, plan_reconciliation, ReconcileOptions,
}
use ambion.Room.Rules.Exchanges.{
  includes, CloseRef, close_admission, exchange_live, survives_cancellation, opening_question,
}
use ambion.Room.Rules.Leases.{
  admits_lease, apply_change, ending_of, is_expired, is_live, LeaseKind, lease_expiry,
}
use ambion.Room.Search.{IsFound, IsOrdered, index_at_or_after-IsFound}
use ambion.Room.Steering.{steers_at_work}
use ambion.Room.Types.{
  Close, failed, transient, ActivationFields, Change, ExchangeRef, Message, RuleLease, Source,
  broadcast, ends, expired, revoked, run_until, runs, said,
}
use ambion.Common.Maps.{set, text_key, get}
use ambion.Room.ActivationId.{
  decode_activation_id, digits, encode_activation_id, cut, render, positive_integer, is_name,
  source_of, safe_positive_integer,
}
use ambion.Room.Attempts.{abandonment_settles, retry_advances}
use ambion.Room.Authority.{Entitled, authority_is_Entitled}
use ambion.Room.Decide.{
  admission_of, close_entry_of, close_exchange, close_with, is_owed, running_lease, seat_held,
  RunCommand, change_entry, end_lease, ending_command, run_lease,
}
use ambion.Room.Passes.{WellKept}
use ambion.Room.Passes.Alarm.{expiry_is_looked_at}
use ambion.Room.Passes.Closing.{close_ends_exchange, planned_close_lands}
use ambion.Room.Rules.Grants.{activation_grant, next_activation_id, well_formed}
use ambion.Room.Rules.Wakes.{answers, came_to_nothing, counts_against, wake_answered}
use ambion.Room.Seats.{Reached, begins, goes_on, runs_lease}
use ambion.Room.History.{Continues, Placed, apply_all, lease_at}
use ambion.Room.History.Leases.{cancellation_is_final, lease-Continues}
use ambion.Room.Passes.Endings.{ended_by, planned_ends_land}
use ambion.Room.Seats.Holders.{one_holder}
use ambion.Room.State.{BaseFacts, DueActivation, RoomState}
use mathlib.Core.List.Memᴰ

abbrev stamp : ℕ → Text
stamp now = []

abbrev read_stamp : Text → Option ℕ
read_stamp s = some 0

abbrev pub agent : Text
agent = codes "a"

abbrev pub first_id : Text
first_id = codes "message:1:a:1"

abbrev pub first_fields : ActivationFields
first_fields = record { source = Source.message; position = 1; seat = agent; attempt = 1 }

abbrev pub running_one : RuleLease
running_one = record {
  id = first_id;
  activation = first_fields;
  at = [];
  claimed_at = [];
  opened_seq = 2;
  read_through = 0;
  state = runs 50;
}

abbrev pub asked : Message
asked = record {
  body = record {
    from = some (codes "p");
    at = [];
    activation = none;
    wakes = agent ∷ [];
    content = said none (codes "hello") [] none;
  };
  seq = 1;
}

abbrev pub owed_one : DueActivation
owed_one = record {
  source = Source.message;
  position = 1;
  attempt = 1;
  id = first_id;
  seat = agent;
  unsuccessful_attempts = 0;
  not_before = none;
  permanent = false;
}

abbrev pub room_with : List (Text × RuleLease) → List DueActivation → Option ExchangeRef → RoomState
room_with leases due exchange = record {
  composition = none;
  roster = record { name = agent; identity = []; attention = broadcast; fixed = none } ∷ [];
  reserve = [];
  people = [];
  exchange = exchange;
  closes = [];
  cancelled_at = none;
  leases = leases;
  due = due;
  scheduled = [];
  messages = asked ∷ [];
  last_seq = 1;
}

abbrev pub options_at : ℕ → ReconcileOptions
options_at now = record { now = now; resend = 5; attempts = 3; sent = []; stopped = false }

abbrev facts_one : BaseFacts
facts_one = record {
  messages = asked ∷ [];
  closes = [];
  cancelled_at = none;
  leases = (first_id, running_one) ∷ [];
  composition = none;
  deliveries = [];
}

abbrev run_after : List Placed
run_after = record { entry = run_entry []; seq = 4; open_exchange = none } ∷ []

lease-Continues_example :
    (after : RuleLease) × (lease_at (apply_all facts_one run_after) first_id ≡ some after)
    × Continues running_one after
lease-Continues_example =
    lease-Continues facts_one run_after first_id running_one (unfold get text_eq in refl)

cancellation_is_final_example :
    lease_at (apply_all (apply_entry facts_one (cancel_entry []) 3 none) run_after) first_id
    ≡ some (record running_one { at = []; state = ends revoked true none 3 })
cancellation_is_final_example =
    cancellation_is_final facts_one 3 [] none run_after first_id running_one 50
      (unfold get text_eq in refl) refl (omega arith)

abbrev pub claim_one : RunCommand
claim_one = record {
  kind = LeaseKind.claim;
  id = first_id;
  expiry = 30;
  deadline = 100;
  read_through = none;
}

abbrev owing_room : RoomState
owing_room = room_with [] (owed_one ∷ []) none

claim_change : Change
unfolding lease_expiry
claim_change = record {
  id = first_id;
  at = [];
  read_through = 0;
  state = run_until (lease_expiry 10 10 30 100);
}

claimed : List (Text × RuleLease)
unfolding claim_change apply_lease
claimed = apply_lease [] claim_change 2

claim_written : run_lease stamp read_stamp owing_room claim_one 10 ≡ change_entry claim_change
unfolding claim_change run_lease activation_spec decode_activation_id text_eq well_formed grant_for
    activation_grant survives_cancellation seated any removed_after running_lease admission_of
    admits_lease get is_owed seat_held seat_of cut positive_integer source_of is_name
claim_written = refl

abbrev lease_now : RuleLease
lease_now = record {
  id = first_id;
  activation = first_fields;
  at = [];
  claimed_at = [];
  opened_seq = 2;
  read_through = 0;
  state = runs 40;
}

claimed_one : get claimed first_id ≡ some lease_now
unfolding claimed claim_change apply_lease decode_activation_id set get text_eq apply_change cut
    positive_integer source_of is_name
claimed_one = refl

first_seat : seat_of first_id ≡ some agent
unfolding seat_of decode_activation_id text_eq cut positive_integer source_of is_name
first_seat = refl

claimed-Reached : Reached stamp read_stamp claimed 10
unfolding claimed
claimed-Reached =
    goes_on (begins 10) (runs_lease owing_room claim_one claim_change 2 refl claim_written)

lease_now_live : is_live lease_now 10 ≡ true
unfolding is_live
lease_now_live = refl

one_holder_example : first_id ≡ first_id
one_holder_example =
    one_holder stamp read_stamp claimed 10 first_id first_id lease_now lease_now agent
      claimed-Reached claimed_one claimed_one lease_now_live lease_now_live first_seat first_seat

abbrev working_room : RoomState
working_room = room_with ((first_id, running_one) ∷ []) [] none

one_lease_kept : WellKept working_room
unfolding get text_eq
one_lease_kept = record {
  stands =
      λ l m. elim (Memᴰ.cases_cons m) [ inl e ↦ rw e refl | inr rest ↦ absurd (Memᴰ.not-nil rest) ];
  read = λ l m. elim (Memᴰ.cases_cons m) [
    | inl e ↦ rw e (omega arith)
    | inr rest ↦ absurd (Memᴰ.not-nil rest)
  ];
  bounded = omega arith;
  unclaimed = λ owed m. absurd (Memᴰ.not-nil m);
}

abbrev overdue_order : LeaseEnd
overdue_order = record { id = first_id; reason = expired; read_through = 0; cause = none }

overdue_planned :
    Memᴰ overdue_order (plan_reconciliation read_stamp working_room (options_at 60)).expired_leases
unfolding plan_reconciliation endings lease_ending ending_of is_stale seated any text_eq
    removed_after is_expired
overdue_planned = Memᴰ.head refl

planned_ends_land_example :
    end_lease stamp read_stamp working_room (ending_command overdue_order) 60
    ≡ change_entry (ended_by stamp overdue_order 60)
planned_ends_land_example =
    planned_ends_land stamp read_stamp working_room (options_at 60) overdue_order one_lease_kept
      (inl (inr overdue_planned))

abbrev quiet_room : RoomState
quiet_room = room_with [] [] (some (record { person = some (codes "p"); from = 1; at = [] }))

abbrev whole_exchange : CloseRef
whole_exchange = record { from = 1; through = 1 }

quiet_planned :
    (plan_reconciliation read_stamp quiet_room (options_at 60)).close ≡ some whole_exchange
unfolding plan_reconciliation endings abandonments filter plan_close close_now close_admission
    live_work exchange_at_work exchange_live any
quiet_planned = refl

planned_close_lands_example :
    (close_exchange stamp read_stamp quiet_room whole_exchange 60
      ≡ close_with (close_entry_of stamp read_stamp quiet_room whole_exchange 60))
    × ((plan_reconciliation read_stamp quiet_room (options_at 60)).revoked_leases ≡ [])
    × ((plan_reconciliation read_stamp quiet_room (options_at 60)).expired_leases ≡ [])
    × ((plan_reconciliation read_stamp quiet_room (options_at 60)).abandoned_leases ≡ [])
planned_close_lands_example =
    planned_close_lands stamp read_stamp quiet_room (options_at 60) whole_exchange quiet_planned

abbrev quiet_close : Close
quiet_close = close_entry_of stamp read_stamp quiet_room whole_exchange 60

close_ends_exchange_example :
    (opened : ExchangeRef) × (quiet_room.exchange ≡ some opened)
    × (quiet_close.from ≡ opened.from)
    × (quiet_close.through ≡ 1)
    × (exchange_at_work quiet_room 60 ≡ false)
    × (opening_question quiet_room.messages [] quiet_close.through ≡ none)
close_ends_exchange_example =
    close_ends_exchange stamp read_stamp quiet_room whole_exchange 60 quiet_close (omega arith, tt)
      (planned_close_lands stamp read_stamp quiet_room (options_at 60) whole_exchange
        quiet_planned).0

expiry_is_looked_at_example :
    (alarm : ℕ) × ((plan_reconciliation read_stamp working_room (options_at 20)).alarm_at
      ≡ some alarm)
    × (20 < alarm)
    × (alarm ≤ 50)
expiry_is_looked_at_example =
    expiry_is_looked_at read_stamp working_room (options_at 20) running_one 50 (Memᴰ.head refl) refl
      (unfold is_live in refl) refl

abbrev first_spec : ActivationSpec
first_spec = record { id = first_id; seat = agent; attempt = 1; purpose = responds 1 }

held_authority : seat_authority working_room first_id 20 ≡ holds first_spec running_one
unfolding seat_authority get text_eq is_live activation_spec decode_activation_id well_formed
    grant_for activation_grant survives_cancellation seated any removed_after purpose_of cut
    positive_integer source_of is_name
held_authority = refl

authority_is_Entitled_example :
    (get working_room.leases first_id ≡ some running_one)
    × (is_live running_one 20 ≡ true)
    × Entitled working_room first_id first_spec
authority_is_Entitled_example =
    authority_is_Entitled working_room first_id 20 first_spec running_one held_authority

abbrev failed_one : RuleLease
failed_one = record running_one { state = ends failed false (some transient) 3 }

abbrev due_after : ℕ → DueActivation
due_after tries = record owed_one {
  attempt = tries + 1;
  id = codes "message:1:a:2";
  unsuccessful_attempts = tries;
  not_before = some 7;
}

due_first : due_of read_stamp 1 agent [] (λ n. 7) ≡ some (some owed_one)
unfolding due_of wake_answered any filter due_activation encode_activation_id next_activation_id
    digits render is_name safe_positive_integer
due_first = refl

due_second : due_of read_stamp 1 agent (failed_one ∷ []) (λ n. 7) ≡ some (some (due_after 1))
unfolding due_of wake_answered any filter due_activation encode_activation_id next_activation_id
    digits answers counts_against came_to_nothing latest render is_name safe_positive_integer
due_second = refl

retry_advances_example :
    ((due_after 1).unsuccessful_attempts ≡ owed_one.unsuccessful_attempts + 1)
    × ((due_after 1).attempt ≡ owed_one.attempt + 1)
retry_advances_example =
    retry_advances read_stamp 1 agent [] (λ n. 7) failed_one owed_one (due_after 1)
      (failed, false, some transient, 3, refl, unfold came_to_nothing in refl) due_first due_second

abandonment_settles_example :
    due_of read_stamp 1 agent
      (failed_one
        ∷ apply_change none (ended_by stamp (abandonment (due_after 1)) 60) 5 first_fields
        ∷ [])
      (λ n. 7)
    ≡ some none
abandonment_settles_example =
    abandonment_settles read_stamp stamp (due_after 1) 60 1 5 agent (failed_one ∷ []) (λ n. 7)
      first_fields refl

two_messages : IsOrdered (asked ∷ record asked { seq = 4 } ∷ [])
unfolding seq_at
two_messages zero zero before h = omega arith
two_messages zero (suc zero) before h = omega arith
two_messages (suc zero) (suc zero) before h = omega arith
two_messages (suc zero) zero before h = absurd (omega (arith, before))
two_messages i (suc (suc j)) before h = absurd (omega (arith, h))
two_messages (suc (suc i)) zero before h = absurd (omega (arith, before))
two_messages (suc (suc i)) (suc zero) before h = absurd (omega (arith, before))

index_at_or_after-IsFound_example :
    IsFound
      (asked ∷ record asked { seq = 4 } ∷ [])
      2
      (index_at_or_after (asked ∷ record asked { seq = 4 } ∷ []) 2)
index_at_or_after-IsFound_example =
    index_at_or_after-IsFound (asked ∷ record asked { seq = 4 } ∷ []) 2 two_messages

abbrev later_said : Message
later_said = record asked { seq = 4; body = record asked.body { wakes = [] } }

steered_first :
    Memᴰ
      (record { seat = agent; activation = first_id })
      (message_delivery later_said ((first_id, running_one) ∷ [])).steers
unfolding message_delivery steers text_eq includes any at_work
steered_first = Memᴰ.head refl

steers_at_work_example :
    (lease : RuleLease) × Memᴰ lease (running_one ∷ [])
    × (first_id ≡ lease.id)
    × (agent ≡ lease.activation.seat)
    × (is_respond lease.activation.source ≡ true)
    × (same_as later_said.from lease.activation.seat ≡ false)
    × (includes
          (message_delivery later_said ((first_id, running_one) ∷ [])).wakes
          lease.activation.seat
        ≡ false)
    × (at_work lease later_said.seq ≡ true)
steers_at_work_example =
    steers_at_work later_said ((first_id, running_one) ∷ [])
      (record { seat = agent; activation = first_id }) steered_first
