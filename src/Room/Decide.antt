-- ===== src/Room/Decide.antt =====
-- packages/ambion/src/room/transition.ts: the decisions on leases, compositions, closes and passes.
-- `Date.parse` and `toISOString` are parameters of a section.
use ambion.Room.ActivationId.{max_safe_integer}
use ambion.Common.{
  Bool, List, Option, Text, [], any, false, find, if◌then◌else◌, map, none, not, some, text_eq,
  true, ℕ, ◌&&◌, ◌++◌, ◌∷◌,
}
use ambion.Common.Int.{le_nat, pos, to_nat, ℤ}
use ambion.Common.Maps.{text_key, get, values}
use ambion.Room.Activation.{
  ActivationSpec, Authority, Staleness, activation_spec, holds, lease_ended, no_grant,
  seat_authority, seat_of, seat_taken, stale,
}
use ambion.Room.Reconcile.{
  LeaseEnd, ReconcileOptions, Reconciliation, live_work, plan_reconciliation,
}
use ambion.Room.Rules.Exchanges.{
  CloseAdmission, CloseRef, OpenExchange, admitted, close_admission, obsolete, owes_summary, replan,
}
use ambion.Room.Rules.Leases.{
  Admission, LeaseKind, admits_lease, claim, granted, held, is_expired, is_live, lease_expiry,
  may_end, on_record, phase_of, refused_ended, renew,
}
use ambion.Room.State.{PersonState, RoomState}
use ambion.Room.Types.{
  Change, Close, Composition, EndReason, ExchangeRef, FailureCause, LeasePhase, RuleLease, Seating,
  end_for, ended, revoked, run_until, running,
}

pub data Refusal : Type 0 where
  stale_claim : Staleness → Refusal
  not_on_record : Refusal
  names_a_person : (name : Text) → Refusal

-- What a command on a lease gives: an entry, none where the lease does not change, a refusal, or an
-- expiry that is NaN, which no body holds, so that the append throws.
pub data LeaseDecision : Type 0 where
  change_entry : Change → LeaseDecision
  unchanged : LeaseDecision
  refuses : Refusal → LeaseDecision
  unwritable : LeaseDecision

pub data CloseDecision : Type 0 where
  close_with : Close → CloseDecision
  close_not : CloseAdmission → CloseDecision

pub data ComposeDecision : Type 0 where
  compose_with : Composition → ComposeDecision
  compose_not : Refusal → ComposeDecision

-- `LeaseEnding`, with the place that the caller names
pub record LeaseEnding : Type 0 where
  pub id : Text
  pub reason : EndReason
  pub read_through : ℤ
  pub cause : Option FailureCause

pub data ReconcileStep : Type 0 where
  end_step : LeaseEnding → ReconcileStep
  close_step : CloseRef → ReconcileStep
  return_step : ℕ → ReconcileStep

-- A command that claims or renews a lease.
pub record RunCommand : Type 0 where
  pub kind : LeaseKind
  pub id : Text
  pub expiry : ℕ
  pub deadline : ℕ
  pub read_through : Option ℤ

-- `validReadThrough`
unfoldable pub valid_read_through : Option ℤ → ℕ → Bool
valid_read_through none last_seq = false
valid_read_through (some n) last_seq = le_nat n max_safe_integer && on_record n last_seq

-- `invalidProgress` is a refusal
unfoldable pub invalid_progress : RoomState → Option ℤ → Bool
invalid_progress state none = false
invalid_progress state (some n) = not (valid_read_through (some n) state.last_seq)

abbrev pub phase_known : Option RuleLease → Option LeasePhase
phase_known none = none
phase_known (some lease) = some (phase_of lease.state)

abbrev pub live_known : Option RuleLease → ℕ → Bool
live_known none now = false
live_known (some lease) now = is_live lease now

abbrev pub expired_known : Option RuleLease → ℕ → Bool
expired_known none now = false
expired_known (some lease) now = is_expired lease now

abbrev pub same_seat : Option Text → Text → Bool
same_seat none seat = false
same_seat (some name) seat = text_eq name seat

unfoldable pub holds_seat : Text → Text → ℕ → RuleLease → Bool
holds_seat id seat now lease =
    not (text_eq lease.id id) && same_seat (seat_of lease.id) seat && is_live lease now

abbrev pub seat_held_by : Option Text → RoomState → Text → ℕ → Bool
seat_held_by none state id now = false
seat_held_by (some seat) state id now = any (holds_seat id seat now) (values state.leases)

unfoldable pub seat_held : RoomState → Text → ℕ → Bool
seat_held state id now = seat_held_by (seat_of id) state id now

unfoldable pub is_owed : RoomState → Text → Bool
is_owed state id = any (λ due. text_eq due.id id) state.due

abbrev pub place_or_zero : Option ℤ → ℕ
place_or_zero none = 0
place_or_zero (some n) = to_nat n

abbrev one_writer : Option Text → List Seating → Option Text
one_writer none roster = none
one_writer (some writer) roster =
    if any (λ seat. text_eq seat.name writer) roster then some writer else none

-- `summaryWriter`
unfoldable pub summary_writer : Option Composition → List Seating → Option Text
summary_writer none roster = none
summary_writer (some composition) roster = one_writer composition.summary_writer roster

-- What the lease of a command is admitted as.
unfoldable pub admission_of : RoomState → RunCommand → ℕ → Admission
admission_of state command now =
    let known = get state.leases command.id in
    admits_lease command.kind (phase_known known) (live_known known now) (is_owed state command.id)
      (seat_held state command.id now)

-- The command that ends the lease of an order.
abbrev pub ending_command : LeaseEnd → LeaseEnding
ending_command order = record {
  id = order.id;
  reason = order.reason;
  read_through = pos order.read_through;
  cause = order.cause;
}

abbrev pub has_spec : Option ActivationSpec → Bool
has_spec none = false
has_spec (some spec) = true

abbrev pub if_authority : Authority → LeaseDecision → LeaseDecision
if_authority (stale why) decision = refuses (stale_claim why)
if_authority (holds spec lease) decision = decision

abbrev pub is_running_lease : RuleLease → Bool
is_running_lease lease = elim (phase_of lease.state) [ running ↦ true | ended ↦ false ]

abbrev known_person : List (Text × PersonState) → Seating → Bool
known_person people seat = any (λ p. text_eq p.0 seat.name) people

abbrev compose_unless : Option Seating → Composition → ComposeDecision
compose_unless none composition = compose_with composition
compose_unless (some seat) composition = compose_not (names_a_person seat.name)

unfoldable pub compose : RoomState → Composition → ComposeDecision
compose state composition =
    compose_unless (find (known_person state.people) (composition.seats ++ composition.reserve))
      composition

abbrev pub person_of : Option ExchangeRef → Option Text
person_of none = none
person_of (some exchange) = exchange.person

abbrev pub writer_for : Option Text → Bool → Option Text → Option Text
writer_for none reported writer = none
writer_for (some person) reported writer = if reported then writer else none

abbrev pub ref_of : Option ExchangeRef → Option OpenExchange
ref_of none = none
ref_of (some exchange) = some (record { from = exchange.from })

unfoldable pub close_admission_now : RoomState → CloseRef → ℕ → CloseAdmission
close_admission_now state command now =
    close_admission (ref_of state.exchange) command state.last_seq (live_work state now).exchange

abbrev pub if_close : CloseAdmission → Close → CloseDecision
if_close admitted close = close_with close
if_close obsolete close = close_not obsolete
if_close replan close = close_not replan

abbrev pub ending_step : LeaseEnd → ReconcileStep
ending_step order = end_step (ending_command order)

abbrev pub close_steps : Option CloseRef → List ReconcileStep
close_steps none = []
close_steps (some close) = close_step close ∷ []

-- The steps of `reconcile`, in their order.
unfoldable pub steps_of : Reconciliation → List ReconcileStep
steps_of plan =
    map ending_step (plan.revoked_leases ++ plan.expired_leases ++ plan.abandoned_leases)
    ++ close_steps plan.close
    ++ map return_step plan.returns

module _ (iso : ℕ → Text) (parse : Text → Option ℕ) where
  abbrev pub claimed_from : Option RuleLease → ℕ → Option ℕ
  claimed_from none now = some now
  claimed_from (some known) now = parse known.claimed_at

  abbrev pub running_entry : Option ℕ → RunCommand → ℕ → ℕ → LeaseDecision
  running_entry none command now read_through = unwritable
  running_entry (some claimed_at) command now read_through = change_entry (record {
    id = command.id;
    at = iso now;
    read_through = read_through;
    state = run_until (lease_expiry now claimed_at command.expiry command.deadline);
  })

  abbrev pub admit : Admission → Option RuleLease → RunCommand → ℕ → ℕ → LeaseDecision
  admit refused_ended known command now read_through = refuses (stale_claim lease_ended)
  admit held known command now read_through = refuses (stale_claim seat_taken)
  admit granted known command now read_through =
      running_entry (claimed_from known now) command now read_through

  unfoldable pub running_lease : RoomState → RunCommand → ℕ → ℕ → LeaseDecision
  running_lease state command now read_through =
      admit (admission_of state command now) (get state.leases command.id) command now read_through

  abbrev pub of_kind : LeaseKind → RoomState → RunCommand → ℕ → LeaseDecision
  of_kind claim state command now =
      if not (has_spec (activation_spec command.id state))
      then refuses (stale_claim no_grant)
      else running_lease state command now 0
  of_kind renew state command now =
      if invalid_progress state command.read_through
      then refuses not_on_record
      else if not (has_spec (activation_spec command.id state))
      then refuses (stale_claim no_grant)
      else running_lease state command now (place_or_zero command.read_through)

  -- `claim` and `renew`
  unfoldable pub run_lease : RoomState → RunCommand → ℕ → LeaseDecision
  run_lease state command now = of_kind command.kind state command now

  -- `end`
  unfoldable pub end_lease : RoomState → LeaseEnding → ℕ → LeaseDecision
  end_lease state command now =
      let known = get state.leases command.id in
      if invalid_progress state (some command.read_through)
      then refuses not_on_record
      else if not (may_end (phase_known known) command.reason (expired_known known now))
      then unchanged
      else change_entry (record {
        id = command.id;
        at = iso now;
        read_through = to_nat command.read_through;
        state = end_for command.reason command.cause;
      })

  -- `release`
  unfoldable pub release_lease : RoomState → LeaseEnding → ℕ → LeaseDecision
  release_lease state command now =
      if_authority (seat_authority state command.id now) (end_lease state command now)

  abbrev pub stop_one : Option RuleLease → RoomState → ℕ → LeaseDecision
  stop_one none state now = unchanged
  stop_one (some lease) state now =
      end_lease state
        (record { id = lease.id; reason = revoked; read_through = pos 0; cause = none }) now

  unfoldable pub stop_work : RoomState → ℕ → LeaseDecision
  stop_work state now = stop_one (find is_running_lease (values state.leases)) state now

  -- The entry of a close that is admitted.
  unfoldable pub close_entry_of : RoomState → CloseRef → ℕ → Close
  close_entry_of state command now =
      let person = person_of state.exchange in
      let reported =
        owes_summary state.messages (map (λ p. p.0) state.people) command.from command.through in
      record {
        person = person;
        from = command.from;
        through = command.through;
        at = iso now;
        summary_writer = writer_for person reported (summary_writer state.composition state.roster);
        cancelled = false;
      }

  -- `closing`
  unfoldable pub close_exchange : RoomState → CloseRef → ℕ → CloseDecision
  close_exchange state command now =
      if_close (close_admission_now state command now) (close_entry_of state command now)

  unfoldable pub reconcile : RoomState → ReconcileOptions → List ReconcileStep
  reconcile state options = steps_of (plan_reconciliation parse state options)
