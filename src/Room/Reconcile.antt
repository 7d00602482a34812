-- ===== src/Room/Reconcile.antt =====
-- packages/ambion/src/room/reconcile.ts and lease.ts: what the room owes, and what one pass does.
-- A time is a natural number of milliseconds. `Date.parse` and the backoff of the host are
-- parameters of a section; a stamp that `Date.parse` cannot read is `none`.
use ambion.Common.{
  Bool, List, Option, Text, [], any, false, filter, if◌then◌else◌, leb, length, ltb, map, max, min,
  none, not, some, text_eq, true, ℕ, ◌&&◌, ◌++◌, ◌+◌, ◌==◌, ◌∷◌, ◌||◌,
}
use ambion.Common.Maps.{text_key, get, set, values}
use ambion.Room.Activation.{removed_after, seat_of, seated}
use ambion.Room.ActivationId.{encode_activation_id}
use ambion.Room.Rules.Exchanges.{
  CloseAdmission, CloseRef, OpenExchange, OwedActivation, admitted, close_admission, exchange_live,
}
use ambion.Room.Rules.Grants.{next_activation_id}
use ambion.Room.Rules.Leases.{
  Ending, ending_of, is_expired, is_live, is_overdue, is_revoked, phase_of, returnable,
}
use ambion.Room.Rules.Wakes.{counts_against, wake_answered}
use ambion.Room.State.{DueActivation, RoomState, ScheduledSay}
use ambion.Room.Types.{
  ActivationFields, EndReason, ExchangeRef, FailureCause, LeasePhase, LeaseState, RuleLease, Source,
  abandoned, ended, ends, expired, permanent, revoked, running, runs, transient,
}

-- What the pass reads beside the facts.
pub record ReconcileOptions : Type 0 where
  pub now : ℕ
  pub resend : ℕ
  pub attempts : ℕ
  pub sent : List (Text × ℕ)
  pub stopped : Bool

pub record Send : Type 0 where
  pub id : Text
  pub seat : Text

pub record LeaseEnd : Type 0 where
  pub id : Text
  pub reason : EndReason
  pub read_through : ℕ
  pub cause : Option FailureCause

pub record Reconciliation : Type 0 where
  pub revoked_leases : List LeaseEnd
  pub expired_leases : List LeaseEnd
  pub abandoned_leases : List LeaseEnd
  pub close : Option CloseRef
  pub returns : List ℕ
  pub sends : List Send
  pub forget : List Text
  pub alarm_at : Option ℕ

-- The seats at work by name, with the ids that make each one live.
abbrev pub Seats : Type 0
Seats = List (Text × List Text)

abbrev ids_of : Option (List Text) → List Text
ids_of none = []
ids_of (some ids) = ids

unfoldable pub add_seat : Seats → Option Text → Text → Seats
add_seat live none id = live
add_seat live (some seat) id = set live seat (ids_of (get live seat) ++ id ∷ [])

unfoldable pub add_leases : Seats → List RuleLease → ℕ → Seats
add_leases live [] now = live
add_leases live (lease ∷ leases) now =
    add_leases (if is_live lease now then add_seat live (seat_of lease.id) lease.id else live)
      leases now

unfoldable pub add_due : Seats → List DueActivation → Seats
add_due live [] = live
add_due live (owed ∷ due) = add_due (add_seat live (some owed.seat) owed.id) due

unfoldable pub live_seats : RoomState → ℕ → Seats
live_seats state now = add_due (add_leases [] (values state.leases) now) state.due

pub record LiveWork : Type 0 where
  pub seats : Seats
  pub exchange : Bool
  pub rest : Bool

abbrev pub owed_of : DueActivation → OwedActivation
owed_of due = record { source = due.source; seat = due.seat }

-- The exchange's own work, as the pass and the close both ask for it.
unfoldable pub exchange_at_work : RoomState → ℕ → Bool
exchange_at_work state now = exchange_live (values state.leases) (map owed_of state.due) now

abbrev pub is_empty {ℓ} : {A : Type ℓ} → List A → Bool
is_empty [] = true
is_empty (x ∷ xs) = false

unfoldable pub live_work : RoomState → ℕ → LiveWork
unfolding exchange_at_work
live_work state now = record {
  seats = live_seats state now;
  exchange = exchange_at_work state now;
  rest = is_empty (live_seats state now);
}

unfoldable pub is_stale : RoomState → ActivationFields → Bool
is_stale state activation =
    if not (seated state activation.seat)
    then true
    else removed_after state.messages activation.seat activation.position

abbrev pub is_running : LeasePhase → Bool
is_running running = true
is_running ended = false

-- How one lease ends in this pass.
unfoldable pub lease_ending : RoomState → ℕ → RuleLease → Ending
lease_ending state now lease =
    ending_of (is_running (phase_of lease.state)) (is_stale state lease.activation)
      (is_expired lease now)

abbrev pub revocation : Ending → RuleLease → List LeaseEnd
revocation is_revoked lease =
    record { id = lease.id; reason = revoked; read_through = lease.read_through; cause = none } ∷ []
revocation _ lease = []

abbrev pub expiration : Ending → RuleLease → List LeaseEnd
expiration is_overdue lease =
    record { id = lease.id; reason = expired; read_through = lease.read_through; cause = none } ∷ []
expiration _ lease = []

-- The two lists that the loop over the leases fills.
unfoldable pub endings : RoomState → ℕ → List RuleLease → List LeaseEnd × List LeaseEnd
endings state now [] = ([], [])
endings state now (lease ∷ leases) =
    let rest = endings state now leases in
    let ending = lease_ending state now lease in
    (revocation ending lease ++ rest.0, expiration ending lease ++ rest.1)

unfoldable pub forgotten : RoomState → ReconcileOptions → List Text
forgotten state options =
    filter (λ id. not (any (λ owed. text_eq owed.id id) state.due)) (map (λ e. e.0) options.sent)

unfoldable pub capped : DueActivation → ReconcileOptions → Bool
capped owed options = owed.permanent || leb options.attempts owed.unsuccessful_attempts

unfoldable pub abandonment : DueActivation → LeaseEnd
abandonment owed = record {
  id = owed.id;
  reason = abandoned;
  read_through = 0;
  cause = some (if owed.permanent then permanent else transient);
}

unfoldable pub abandonments : RoomState → ReconcileOptions → List LeaseEnd
abandonments state options = map abandonment (filter (λ owed. capped owed options) state.due)

abbrev pub if_admitted : CloseAdmission → CloseRef → Option CloseRef
if_admitted admitted close = some close
if_admitted _ close = none

abbrev pub open_of : ExchangeRef → OpenExchange
open_of exchange = record { from = exchange.from }

unfoldable pub close_now : RoomState → Bool → Option ExchangeRef → Option CloseRef
close_now state live none = none
close_now state live (some exchange) =
    let close : CloseRef = record { from = exchange.from; through = state.last_seq } in
    if_admitted (close_admission (some (open_of exchange)) close state.last_seq live) close

-- `closing` of reconcile.ts
unfoldable pub plan_close : RoomState → LiveWork → Option CloseRef
unfolding close_now
plan_close state work = close_now state work.exchange state.exchange

unfoldable pub owing : RoomState → ReconcileOptions → List DueActivation
owing state options = filter (λ owed. not (capped owed options)) state.due

abbrev pub or_now : Option ℕ → ℕ → ℕ
or_now none now = now
or_now (some t) now = t

abbrev pub resend_at : Option ℕ → ReconcileOptions → ℕ
resend_at none options = options.now
resend_at (some sent) options = sent + options.resend

unfoldable pub due_at : DueActivation → ReconcileOptions → ℕ
due_at owed options =
    let backoff = or_now owed.not_before options.now in
    if ltb options.now backoff then backoff else resend_at (get options.sent owed.id) options

unfoldable pub due_wakes : RoomState → ReconcileOptions → List Send
due_wakes state options =
    map (λ owed. record { id = owed.id; seat = owed.seat })
      (filter (λ owed. leb (due_at owed options) options.now) (owing state options))

unfoldable pub retry_time : ReconcileOptions → DueActivation → ℕ
retry_time options owed =
    let at = due_at owed options in if ltb options.now at then at else options.now + options.resend

unfoldable pub retry_times : RoomState → ReconcileOptions → List ℕ
retry_times state options = map (retry_time options) (owing state options)

abbrev pub expiry_state : LeaseState → Bool → List ℕ
expiry_state (runs expires_at) live = if live then expires_at ∷ [] else []
expiry_state (ends reason cancelled cause until) live = []

abbrev pub expiry_of : RuleLease → ℕ → List ℕ
expiry_of lease now = expiry_state lease.state (is_live lease now)

unfoldable pub live_expiries : List RuleLease → ℕ → List ℕ
live_expiries [] now = []
live_expiries (lease ∷ leases) now = expiry_of lease now ++ live_expiries leases now

abbrev pub lesser : ℕ → Option ℕ → ℕ
lesser n none = n
lesser n (some m) = min n m

-- `Math.min(...list)` of a list that is not empty
unfoldable pub least : List ℕ → Option ℕ
least [] = none
least (n ∷ ns) = some (lesser n (least ns))

module _ (parse : Text → Option ℕ) where
  -- `returnable(returnsAt(say), now, ...)`, where no time is due at NaN
  unfoldable pub say_due : RoomState → ℕ → ScheduledSay → Bool
  say_due state now say = elim (parse say.due) [
    | none ↦ false
    | some due ↦ returnable due now (seated state say.seat)
  ]

  unfoldable pub due_says : RoomState → ℕ → List ℕ
  due_says state now = map (λ say. say.seq) (filter (say_due state now) state.scheduled)

  unfoldable pub return_times : List ScheduledSay → List ℕ
  return_times [] = []
  return_times (say ∷ says) = elim (parse say.due) [
    | none ↦ return_times says
    | some due ↦ due ∷ return_times says
  ]

  unfoldable pub next_alarm : RoomState → ReconcileOptions → Option ℕ
  next_alarm state options = least (
      filter (λ at. ltb options.now at)
        (live_expiries (values state.leases) options.now
          ++ retry_times state options
          ++ return_times state.scheduled))

  unfoldable pub plan_reconciliation : RoomState → ReconcileOptions → Reconciliation
  plan_reconciliation state options =
      let ends = endings state options.now (values state.leases) in
      let given_up = if options.stopped then [] else abandonments state options in
      let quiet = is_empty ends.0 && is_empty ends.1 && is_empty given_up && not options.stopped in
      record {
        revoked_leases = ends.0;
        expired_leases = ends.1;
        abandoned_leases = given_up;
        close = if quiet then plan_close state (live_work state options.now) else none;
        returns = if quiet then due_says state options.now else [];
        sends = if options.stopped then [] else due_wakes state options;
        forget = forgotten state options;
        alarm_at = if options.stopped then none else next_alarm state options;
      }

  -- `Math.max(0, ...stamps)`, without the stamps that are no time
  unfoldable pub latest : List RuleLease → ℕ
  latest [] = 0
  latest (lease ∷ leases) = elim (parse lease.at) [
    | none ↦ latest leases
    | some t ↦ max t (latest leases)
  ]

  abbrev permanent_cause : Option FailureCause → Bool
  permanent_cause (some permanent) = true
  permanent_cause _ = false

  abbrev permanent_state : LeaseState → Bool
  permanent_state (runs expires_at) = false
  permanent_state (ends reason cancelled cause until) = permanent_cause cause

  -- An id that does not encode throws: `none`.
  abbrev pub due_with :
      Option Text → ActivationFields → List RuleLease → (ℕ → ℕ) → Option DueActivation
  due_with none next failures backoff = none
  due_with (some id) next failures backoff =
      let tries = length failures in
      some (record {
        source = next.source;
        position = next.position;
        attempt = next.attempt;
        id = id;
        seat = next.seat;
        unsuccessful_attempts = tries;
        not_before = if tries == 0 then none else some (latest failures + backoff tries);
        permanent = any (λ lease. permanent_state lease.state) failures;
      })

  unfoldable pub due_activation :
      Source → ℕ → Text → List RuleLease → (ℕ → ℕ) → Option DueActivation
  due_activation source position seat failures backoff =
      let next = next_activation_id source position seat (length failures) in
      due_with (encode_activation_id next) next failures backoff

  abbrev pub is_due : Option DueActivation → Option (Option DueActivation)
  is_due none = none
  is_due (some due) = some (some due)

  -- What a message makes due for a seat: nothing where a lease answered it, and `none` for a throw.
  unfoldable pub due_of : ℕ → Text → List RuleLease → (ℕ → ℕ) → Option (Option DueActivation)
  due_of seq seat taken backoff =
      if wake_answered taken seq
      then some none
      else is_due (
          due_activation Source.message seq seat (filter (λ lease. counts_against lease seq) taken)
            backoff)
