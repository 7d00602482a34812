-- ===== src/Room/Seats/Admitted.antt =====
-- packages/ambion/src/room/transition.ts `claim`, `renew` and `runningLease`: what an admitted
-- change says.
use ambion.Common.{
  Option-cases, any_complete, text_eq, text_eq_iff, text_eq_refl, Bool-cases, ap, inl, inr, refl,
  sym, Bool, Option, Text, arith, false, none, some, true, ℕ, ◌≡◌, ◌⊎◌,
}
use ambion.Common.Maps.{text_key, get-Memᴰ, get}
use ambion.Room.Activation.{seat_of, activation_spec}
use ambion.Room.Decide.{
  holds_seat, is_owed, live_known, phase_known, seat_held, invalid_progress, place_or_zero,
  LeaseDecision, admit, claimed_from, has_spec, of_kind, run_lease, running_lease, RunCommand,
  admission_of, change_entry, running_entry,
}
use ambion.Room.History.{Keyed}
use ambion.Room.Rules.Leases.{
  is_live, held, refused_ended, Admission, LeaseKind, admits_lease, claim, granted, renew,
}
use ambion.Room.Seats.{Alone, Exclusive}
use ambion.Room.Types.{RuleLease, Change, LeasePhase}
use ambion.Room.State.{RoomState}

pub admits_lease-granted :
    (kind : LeaseKind) (phase : Option LeasePhase) (live owed held_seat : Bool)
    → admits_lease kind phase live owed held_seat ≡ granted
    → ((phase ≡ none) × (held_seat ≡ false)) ⊎ (live ≡ true)
unfolding admits_lease
admits_lease-granted renew none live owed h e = absurd (cc)
admits_lease-granted claim none live owed h e = ground arith
admits_lease-granted kind (some phase) live owed h e = ground arith

-- The change that a decision writes, or another one.
abbrev written : LeaseDecision → Change → Change
written (change_entry change) other = change
written _ other = other

-- The change is one that the admission of its command granted.
abbrev pub IsGranted : RoomState → RunCommand → ℕ → Change → Type 0
IsGranted state command now change =
    (admission_of state command now ≡ granted) × (change.id ≡ command.id)

module _ (iso : ℕ → Text) (parse : Text → Option ℕ) where
  running_entry-id :
      (claimed_at : Option ℕ) (command : RunCommand) (now read_through : ℕ) (change : Change)
      → running_entry iso parse claimed_at command now read_through ≡ change_entry change
      → change.id ≡ command.id
  running_entry-id none command now rt change e = absurd (cc)
  running_entry-id (some claimed_at) command now rt change e =
      sym (ap (λ d. (written d change).id) e)

  admit-granted :
      (a : Admission) (known : Option RuleLease) (command : RunCommand) (now read_through : ℕ)
      (change : Change)
      → admit iso parse a known command now read_through ≡ change_entry change
      → (a ≡ granted) × (change.id ≡ command.id)
  admit-granted refused_ended known command now rt change e = absurd (cc)
  admit-granted held known command now rt change e = absurd (cc)
  admit-granted granted known command now rt change e =
      (refl, running_entry-id (claimed_from iso parse known now) command now rt change e)

  running_lease-IsGranted :
      (state : RoomState) (command : RunCommand) (now read_through : ℕ) (change : Change)
      → running_lease iso parse state command now read_through ≡ change_entry change
      → IsGranted state command now change
  unfolding running_lease
  running_lease-IsGranted state command now rt change =
      admit-granted (admission_of state command now) (get state.leases command.id) command now rt
        change

  of_kind-IsGranted :
      (kind : LeaseKind) (state : RoomState) (command : RunCommand) (now : ℕ) (change : Change)
      → of_kind iso parse kind state command now ≡ change_entry change
      → IsGranted state command now change
  of_kind-IsGranted claim state command now change e =
      elim (Bool-cases (has_spec (activation_spec command.id state))) [
        | inl h ↦ running_lease-IsGranted state command now 0 change (rw h at e)
        | inr h ↦ absurd (cc)
      ]
  of_kind-IsGranted renew state command now change e =
      elim (Bool-cases (invalid_progress state command.read_through)) [
        | inl h ↦ absurd (cc)
        | inr valid ↦ elim (Bool-cases (has_spec (activation_spec command.id state))) [
          | inl h ↦
              running_lease-IsGranted state command now (place_or_zero command.read_through) change
                (rw (valid, h) at e)
          | inr h ↦ absurd (cc)
        ]
      ]

  pub run_lease-IsGranted :
      (state : RoomState) (command : RunCommand) (now : ℕ) (change : Change)
      → run_lease iso parse state command now ≡ change_entry change
      → IsGranted state command now change
  unfolding run_lease
  run_lease-IsGranted state command = of_kind-IsGranted command.kind state command

held-any :
    (state : RoomState) (id seat j : Text) (m : RuleLease) (now : ℕ)
    → Keyed state.leases
    → get state.leases j ≡ some m
    → is_live m now ≡ true
    → seat_of id ≡ some seat
    → seat_of j ≡ some seat
    → text_eq j id ≡ false
    → seat_held state id now ≡ true
unfolding seat_held is_live
held-any state id seat j m now keyed at_j live sid sj other = rw sid (
    any_complete (holds_seat id seat now) (get-Memᴰ state.leases j m at_j)
      (unfold holds_seat in rw (keyed j m at_j, other, sj, text_eq_refl seat, live) refl))

-- A lease that a claim or a renewal is admitted for is the only one of its seat.
pub granted-Alone :
    (state : RoomState) (command : RunCommand) (now : ℕ)
    → Keyed state.leases
    → Exclusive state.leases now
    → admission_of state command now ≡ granted
    → Alone state.leases command.id now
unfolding admission_of
granted-Alone state command now keyed exclusive g j m seat at_j live_j sid sj =
    let known = get state.leases command.id in
    elim (admits_lease-granted command.kind (phase_known known) (live_known known now)
      (is_owed state command.id) (seat_held state command.id now) g) [
        | inl (first, free) ↦ elim (Bool-cases (text_eq j command.id)) [
          | inl same ↦ sym ((text_eq_iff j command.id).0 same)
          | inr other ↦
              let held_now =
                held-any state command.id seat j m now keyed at_j live_j sid sj other in
              absurd (cc)
        ]
        | inr live ↦ elim (Option-cases known) [
          | inl e ↦ absurd (cc)
          | inr (l, e) ↦ exclusive command.id j l m seat e at_j (rw e at live) live_j sid sj
        ]
      ]
