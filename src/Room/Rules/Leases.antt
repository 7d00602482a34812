-- ===== src/Room/Rules/Leases.antt =====
-- packages/ambion/src/room/rules.verified.ts: the lease of an activation.
use ambion.Common.{
  ℕ, ◌+◌, max, min, Bool, true, false, not, ◌&&◌, ◌||◌, Option, none, some, leb, ltb, if◌then◌else◌,
  Text,
}
use ambion.Common.Int.{ℤ, is_nonneg, le_nat, lt_nat}
use ambion.Room.Types.{
  ActivationFields, EndReason, revoked, expired, abandoned, LeasePhase, running, ended, LeaseState,
  runs, ends, RuleLease, ChangeState, run_until, end_for, Change,
}

-- `expired` of the source; the name is that of an end's reason here
unfoldable pub past_expiry : ℕ → ℕ → Bool
past_expiry expiry now = leb expiry now

unfoldable pub returnable : ℕ → ℕ → Bool → Bool
returnable due now on_roster = leb due now && on_roster

abbrev pub phase_of : LeaseState → LeasePhase
phase_of (runs expires_at) = running
phase_of (ends reason cancelled cause until) = ended

abbrev pub covers_state : LeaseState → ℕ → Bool
covers_state (runs expires_at) seq = true
covers_state (ends reason cancelled cause until) seq = leb seq until

unfoldable pub covers_attempt : RuleLease → ℕ → Bool
covers_attempt lease seq = covers_state lease.state seq

unfoldable pub next_attempt : ℕ → ℕ
next_attempt attempts = attempts + 1

unfoldable pub before_cancellation : ℕ → ℕ → Bool
before_cancellation position cancelled_at = ltb position cancelled_at

unfoldable pub may_end : Option LeasePhase → EndReason → Bool → Bool
may_end none revoked late = true
may_end none abandoned late = true
may_end none _ late = false
may_end (some ended) reason late = false
may_end (some running) abandoned late = false
may_end (some running) revoked late = true
may_end (some running) expired late = late
may_end (some running) _ late = not late

unfoldable pub lease_expiry : ℕ → ℕ → ℕ → ℕ → ℕ
lease_expiry now claimed_at expiry deadline = min (now + expiry) (claimed_at + deadline)

pub data Freshness : Type 0 where
  invalid missed fresh : Freshness

unfoldable pub on_record : ℤ → ℕ → Bool
on_record position last_seq = is_nonneg position && le_nat position last_seq

unfoldable pub speech_freshness : Option ℤ → ℕ → Freshness
unfolding on_record
speech_freshness none last_seq = invalid
speech_freshness (some read_through) last_seq =
    if not (on_record read_through last_seq)
    then invalid
    else if lt_nat read_through last_seq
    then missed
    else fresh

unfoldable pub unread_by : Bool → Option ℕ → ℕ → ℕ → Bool
unread_by true read_through seq entry = false
unread_by false none seq entry = false
unread_by false (some read_through) seq entry = ltb read_through seq && ltb seq entry

abbrev pub changed_state : ChangeState → ℕ → LeaseState
changed_state (run_until expires_at) seq = runs expires_at
changed_state (end_for reason cause) seq = ends reason false cause seq

abbrev pub change_running : RuleLease → Change → ℕ → LeaseState → RuleLease
change_running known change seq (ends reason cancelled cause until) = known
change_running known change seq (runs expires_at) = record {
  id = change.id;
  activation = known.activation;
  at = change.at;
  claimed_at = known.claimed_at;
  opened_seq = known.opened_seq;
  read_through = max known.read_through change.read_through;
  state = changed_state change.state seq;
}

unfoldable pub apply_change : Option RuleLease → Change → ℕ → ActivationFields → RuleLease
apply_change (some known) change seq activation = change_running known change seq known.state
apply_change none change seq activation = record {
  id = change.id;
  activation = activation;
  at = change.at;
  claimed_at = change.at;
  opened_seq = seq;
  read_through = max 0 change.read_through;
  state = changed_state change.state seq;
}

abbrev marked_state : LeaseState → Bool
marked_state (ends revoked cancelled cause until) = cancelled
marked_state _ = false

unfoldable pub marked_cancelled : RuleLease → Bool
marked_cancelled lease = marked_state lease.state

abbrev pub cancel_state : LeaseState → ℕ → LeaseState
cancel_state (runs expires_at) cancelled_at = ends revoked true none cancelled_at
cancel_state held cancelled_at = held

abbrev pub is_ended : LeaseState → Bool
is_ended (runs expires_at) = false
is_ended (ends reason cancelled cause until) = true

unfoldable pub cancel_hold : RuleLease → ℕ → Text → RuleLease
unfolding before_cancellation
cancel_hold hold cancelled_at at =
    if is_ended hold.state || not (before_cancellation hold.activation.position cancelled_at)
    then hold
    else record hold { at = at; state = cancel_state hold.state cancelled_at }

abbrev pub expired_state : LeaseState → ℕ → Bool
expired_state (ends reason cancelled cause until) now = false
expired_state (runs expires_at) now = leb expires_at now

unfoldable pub is_expired : RuleLease → ℕ → Bool
is_expired lease now = expired_state lease.state now

unfoldable pub is_live : RuleLease → ℕ → Bool
unfolding is_expired
is_live lease now = not (is_ended lease.state) && not (is_expired lease now)

pub data Ending : Type 0 where
  is_revoked is_overdue stays : Ending

unfoldable pub ending_of : Bool → Bool → Bool → Ending
ending_of false stale late = stays
ending_of true true late = is_revoked
ending_of true false late = if late then is_overdue else stays

pub data LeaseKind : Type 0 where
  claim renew : LeaseKind

pub data Admission : Type 0 where
  granted refused_ended held : Admission

unfoldable pub admits_lease : LeaseKind → Option LeasePhase → Bool → Bool → Bool → Admission
admits_lease renew none live owed seat_held = refused_ended
admits_lease claim none live owed seat_held =
    if not owed then refused_ended else if seat_held then held else granted
admits_lease kind (some phase) live owed seat_held = if not live then refused_ended else granted
