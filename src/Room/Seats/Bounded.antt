-- ===== src/Room/Seats/Bounded.antt =====
-- packages/ambion/src/room/transition.ts `claim` and `renew`, with `leaseExpiry` of rules.verified.ts: how long a
-- lease runs.
use ambion.Common.{
  List, subst, Bool-cases, Option, Option-cases, Text, ap, arith, false, inl, inr, none, refl, some,
  some-injective, sym, true, ℕ, ◌+◌, ◌∙◌, ◌≡◌, ◌≤◌,
}
use ambion.Common.Maps.{text_key, get, get-set_self}
use ambion.Room.Decide.{
  admission_of, is_owed, live_known, phase_known, run_lease, seat_held, LeaseDecision, RunCommand,
  admit, change_entry, claimed_from, has_spec, invalid_progress, of_kind, place_or_zero,
  running_lease,
}
use ambion.Room.Fold.{apply_lease}
use ambion.Room.Rules.Leases.{
  is_live, Admission, LeaseKind, apply_change, change_running, changed_state, claim, granted, held,
  is_ended, lease_expiry, refused_ended, renew,
}
use ambion.Room.Seats.Admitted.{admits_lease-granted}
use ambion.Room.Activation.{activation_spec}
use ambion.Room.ActivationId.{decode_activation_id}
use ambion.Room.Authority.{activation_spec-Entitled}
use ambion.Room.State.{RoomState}
use ambion.Room.Types.{ActivationFields, Change, LeaseState, RuleLease, ends, run_until, runs}

-- The decision of a claim or a renewal, past its guards.
of_kind-running :
    (iso : ℕ → Text) (parse : Text → Option ℕ) (kind : LeaseKind) (state : RoomState)
    (command : RunCommand) (now : ℕ) (change : Change)
    → of_kind iso parse kind state command now ≡ change_entry change
    → (has_spec (activation_spec command.id state) ≡ true)
      × (read_through : ℕ) × (running_lease iso parse state command now read_through
          ≡ change_entry change)
of_kind-running iso parse claim state command now change e =
    elim (Bool-cases (has_spec (activation_spec command.id state))) [
      | inl h ↦ (h, 0, rw h at e)
      | inr h ↦ absurd (let w = rw h at e in cc)
    ]
of_kind-running iso parse renew state command now change e =
    elim (Bool-cases (invalid_progress state command.read_through)) [
      | inl h ↦ absurd (let w = rw h at e in cc)
      | inr valid ↦ elim (Bool-cases (has_spec (activation_spec command.id state))) [
        | inl h ↦ (h, place_or_zero command.read_through, rw (valid, h) at e)
        | inr h ↦ absurd (let w = rw (valid, h) at e in cc)
      ]
    ]

-- The change that a decision writes.
abbrev written_change : LeaseDecision → Option Change
written_change (change_entry change) = some change
written_change _ = none

-- The lease that a change keeps running, from a claim at a time.
record IsRunFrom (iso : ℕ → Text) (change : Change) (command : RunCommand) (now claimed_at : ℕ)
    : Type 0 where
  same_id : change.id ≡ command.id
  stamped_at : change.at ≡ iso now
  goes_on : change.state ≡ run_until (lease_expiry now claimed_at command.expiry command.deadline)

admit-IsRunFrom :
    (iso : ℕ → Text) (parse : Text → Option ℕ) (a : Admission) (known : Option RuleLease)
    (command : RunCommand) (now read_through : ℕ) (change : Change)
    → admit iso parse a known command now read_through ≡ change_entry change
    → (claimed_at : ℕ) × (claimed_from iso parse known now ≡ some claimed_at)
      × (a ≡ granted)
      × IsRunFrom iso change command now claimed_at
admit-IsRunFrom iso parse refused_ended known command now rt change e = absurd (cc)
admit-IsRunFrom iso parse held known command now rt change e = absurd (cc)
admit-IsRunFrom iso parse granted known command now rt change e =
    elim (Option-cases (claimed_from iso parse known now)) [
      | inl n ↦ absurd (let w = rw n at e in cc)
      | inr (c, h) ↦
          let same = some-injective (ap written_change (rw h at e)) in
          (
            c,
            h,
            refl,
            record {
              same_id = sym (ap (λ x. x.id) same);
              stamped_at = sym (ap (λ x. x.at) same);
              goes_on = sym (ap (λ x. x.state) same);
            },
          )
    ]

has_spec-decoded :
    (state : RoomState) (id : Text)
    → has_spec (activation_spec id state) ≡ true
    → (a : ActivationFields) × (decode_activation_id id ≡ some a)
has_spec-decoded state id h = elim (Option-cases (activation_spec id state)) [
  | inl e ↦ absurd (let w = rw e at h in cc)
  | inr (spec, e) ↦
      let (a, decoded, kept, survives, own) = activation_spec-Entitled state id spec e in
      (a, decoded)
]

-- A lease that runs no longer than its deadline after its first claim.
pub record IsBounded (parse : Text → Option ℕ) (l : RuleLease) (command : RunCommand) (now : ℕ)
    : Type 0 where
  pub expires_at : ℕ
  pub claimed : ℕ
  pub on : l.state ≡ runs expires_at
  pub first : parse l.claimed_at ≡ some claimed
  pub by_deadline : expires_at ≤ claimed + command.deadline
  pub by_expiry : expires_at ≤ now + command.expiry

expiry-bounds :
    (now claimed expiry deadline : ℕ)
    → (lease_expiry now claimed expiry deadline ≤ claimed + deadline)
      × (lease_expiry now claimed expiry deadline ≤ now + expiry)
unfolding lease_expiry
expiry-bounds now claimed expiry deadline = (omega arith, omega arith)

changed-IsBounded :
    (iso : ℕ → Text) (parse : Text → Option ℕ) (l : RuleLease) (change : Change)
    (command : RunCommand) (now claimed seq : ℕ)
    → IsRunFrom iso change command now claimed
    → l.state ≡ changed_state change.state seq
    → parse l.claimed_at ≡ some claimed
    → IsBounded parse l command now
changed-IsBounded iso parse l change command now claimed seq from state_is first =
    let (a, b) = expiry-bounds now claimed command.expiry command.deadline in
    record {
      expires_at = lease_expiry now claimed command.expiry command.deadline;
      claimed = claimed;
      on = state_is ∙ ap (λ s. changed_state s seq) from.goes_on;
      first = first;
      by_deadline = a;
      by_expiry = b;
    }

change_running-IsBounded :
    (iso : ℕ → Text) (parse : Text → Option ℕ) (known : RuleLease) (change : Change)
    (command : RunCommand) (now claimed seq : ℕ) (s : LeaseState)
    → is_ended s ≡ false
    → IsRunFrom iso change command now claimed
    → parse known.claimed_at ≡ some claimed
    → IsBounded parse (change_running known change seq s) command now
change_running-IsBounded iso parse known change command now claimed seq (runs expires_at) h from
      first =
    changed-IsBounded iso parse (change_running known change seq (runs expires_at)) change command
      now claimed seq from refl first
change_running-IsBounded iso parse known change command now claimed seq
      (ends reason cancelled cause until) h from first =
    absurd (cc)

applied-IsBounded :
    (iso : ℕ → Text) (parse : Text → Option ℕ) (known : Option RuleLease) (change : Change)
    (command : RunCommand) (now claimed seq : ℕ) (a : ActivationFields)
    → ((t : ℕ) → parse (iso t) ≡ some t)
    → claimed_from iso parse known now ≡ some claimed
    → ((l : RuleLease) → known ≡ some l → is_ended l.state ≡ false)
    → IsRunFrom iso change command now claimed
    → IsBounded parse (apply_change known change seq a) command now
unfolding apply_change
applied-IsBounded iso parse none change command now claimed seq a reads c on from =
    changed-IsBounded iso parse (apply_change none change seq a) change command now claimed seq from
      refl (ap parse from.stamped_at ∙ reads now ∙ c)
applied-IsBounded iso parse (some known) change command now claimed seq a reads c on from =
    change_running-IsBounded iso parse known change command now claimed seq known.state
      (on known refl) from c

-- A lease that is admitted to run is not one that ended.
granted-on :
    (state : RoomState) (command : RunCommand) (now : ℕ) (l : RuleLease)
    → admission_of state command now ≡ granted
    → get state.leases command.id ≡ some l
    → is_ended l.state ≡ false
unfolding admission_of is_live
granted-on state command now l granted_now at =
    elim (admits_lease-granted command.kind (phase_known (get state.leases command.id))
      (live_known (get state.leases command.id) now) (is_owed state command.id)
      (seat_held state command.id now) granted_now) [
        | inl (first, free) ↦ absurd (let w = rw at at first in cc)
        | inr live ↦ let alive = rw at at live in ground arith
      ]

get-apply_lease :
    (leases : List (Text × RuleLease)) (c : Change) (seq : ℕ) (a : ActivationFields)
    → decode_activation_id c.id ≡ some a
    → get (apply_lease leases c seq) c.id ≡ some (apply_change (get leases c.id) c seq a)
unfolding apply_lease
get-apply_lease leases c seq a decoded =
    rw decoded (get-set_self leases c.id (apply_change (get leases c.id) c seq a))

-- A claim or a renewal that is written leaves its lease running no longer than the expiry of its command from
-- now, and no longer than the deadline of its command from the first claim, where the time that
-- `toISOString` writes is the time that `Date.parse` reads.
pub run_lease-IsBounded :
    (iso : ℕ → Text) (parse : Text → Option ℕ) (state : RoomState) (command : RunCommand)
    (now seq : ℕ) (change : Change)
    → ((t : ℕ) → parse (iso t) ≡ some t)
    → run_lease iso parse state command now ≡ change_entry change
    → (l : RuleLease) × (get (apply_lease state.leases change seq) command.id ≡ some l)
      × IsBounded parse l command now
unfolding run_lease running_lease
run_lease-IsBounded iso parse state command now seq change reads e =
    let (owns, rt, goes) = of_kind-running iso parse command.kind state command now change e in
    let (claimed, from_claim, granted_now, from) =
      admit-IsRunFrom iso parse (admission_of state command now) (get state.leases command.id)
        command now rt change goes in
    let (a, decoded) = has_spec-decoded state command.id owns in
    let hold = apply_change (get state.leases change.id) change seq a in
    let same = from.same_id in
    (
      hold,
      subst (λ x. get (apply_lease state.leases change seq) x ≡ some hold) same
          (get-apply_lease state.leases change seq a (ap decode_activation_id same ∙ decoded)),
      applied-IsBounded iso parse (get state.leases change.id) change command now claimed seq a
          reads
          (subst (λ x. claimed_from iso parse (get state.leases x) now ≡ some claimed) (sym same)
            from_claim)
          (λ l at.
            granted-on state command now l granted_now
              (subst (λ x. get state.leases x ≡ some l) same at))
          from,
    )
