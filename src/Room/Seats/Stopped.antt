-- ===== src/Room/Seats/Stopped.antt =====
-- packages/ambion/src/room/transition.ts `end` and `release`: an end writes the end of its lease,
-- which no lease survives.
use ambion.Common.{Bool-cases, Option, Text, ap, false, inl, inr, none, refl, some, sym, ℕ, ◌≡◌}
use ambion.Common.Maps.{text_key, get}
use ambion.Room.Activation.{Authority, holds, seat_authority, stale}
use ambion.Room.Decide.{
  LeaseDecision, LeaseEnding, change_entry, end_lease, expired_known, if_authority,
  invalid_progress, phase_known, release_lease,
}
use ambion.Room.Rules.Leases.{apply_change, change_running, is_live, may_end}
use ambion.Room.State.{RoomState}
use ambion.Room.Types.{
  ActivationFields, Change, EndReason, FailureCause, LeaseState, RuleLease, end_for, ends, runs,
}

-- An end is written, for a lease that the command names.
abbrev pub IsEnd : LeaseEnding → Change → Type 0
IsEnd command change =
    (change.id ≡ command.id) × (change.state ≡ end_for command.reason command.cause)

abbrev written : LeaseDecision → Change → Change
written (change_entry change) other = change
written _ other = other

module _ (iso : ℕ → Text) (parse : Text → Option ℕ) where
  pub end_lease-IsEnd :
      (state : RoomState) (command : LeaseEnding) (now : ℕ) (change : Change)
      → end_lease iso parse state command now ≡ change_entry change
      → IsEnd command change
  unfolding end_lease
  end_lease-IsEnd state command now change e =
      let known = get state.leases command.id in
      elim (Bool-cases (invalid_progress state (some command.read_through))) [
        | inl h ↦ absurd (cc)
        | inr valid ↦
            elim (Bool-cases
              (may_end (phase_known known) command.reason (expired_known known now))) [
                | inl h ↦
                    let w = rw (valid, h) at e in
                    (
                      sym (ap (λ d. (written d change).id) w),
                      sym (ap (λ d. (written d change).state) w),
                    )
                | inr h ↦ absurd (cc)
              ]
      ]

  if_authority-end :
      (authority : Authority) (decision : LeaseDecision) (change : Change)
      → if_authority authority decision ≡ change_entry change
      → decision ≡ change_entry change
  if_authority-end (stale why) decision change e = absurd (cc)
  if_authority-end (holds spec lease) decision change e = e

  pub release_lease-IsEnd :
      (state : RoomState) (command : LeaseEnding) (now : ℕ) (change : Change)
      → release_lease iso parse state command now ≡ change_entry change
      → IsEnd command change
  unfolding release_lease
  release_lease-IsEnd state command now change e = end_lease-IsEnd state command now change (
      if_authority-end (seat_authority state command.id now) (end_lease iso parse state command now)
        change e)

change_running-end :
    (l : RuleLease) (change : Change) (seq now : ℕ) (reason : EndReason)
    (cause : Option FailureCause) (s : LeaseState)
    → l.state ≡ s
    → change.state ≡ end_for reason cause
    → is_live (change_running l change seq s) now ≡ false
unfolding is_live
change_running-end l change seq now reason cause (runs expires_at) e ends_it = rw ends_it refl
change_running-end l change seq now reason cause (ends r c f until) e ends_it = rw e refl

-- A lease that an end was applied to is not live.
pub apply_end-not_live :
    (known : Option RuleLease) (change : Change) (seq now : ℕ) (a : ActivationFields)
    (reason : EndReason) (cause : Option FailureCause)
    → change.state ≡ end_for reason cause
    → is_live (apply_change known change seq a) now ≡ false
unfolding apply_change
apply_end-not_live none change seq now a reason cause e = unfold is_live in rw e refl
apply_end-not_live (some l) change seq now a reason cause e =
    change_running-end l change seq now reason cause l.state refl e
