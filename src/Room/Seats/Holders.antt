-- ===== src/Room/Seats/Holders.antt =====
-- One live lease of each seat, in every state of a room: packages/ambion/src/room/transition.ts and
-- lease.ts together.
use ambion.Common.{
  subst, Option, ◌≤◌, ◌⊎◌, arith, some-injective, true, Bool-cases, List, Option-cases, Text, ap,
  inl, inr, refl, some, sym, text_eq, text_eq_iff, ℕ, ◌∙◌, ◌≡◌,
}
use ambion.Room.Seats.Admitted.{granted-Alone, run_lease-IsGranted}
use ambion.Room.Activation.{seat_of}
use ambion.Room.Decide.{LeaseEnding}
use ambion.Room.Seats.{
  Reached, Step, begins, cancels, ends_lease, goes_on, releases_lease, runs_lease, waits, Alone,
  Exclusive,
}
use ambion.Room.Seats.Stopped.{IsEnd, apply_end-not_live, end_lease-IsEnd, release_lease-IsEnd}
use ambion.Room.Types.{ActivationFields, Change, LeaseState, RuleLease, ends, runs}
use ambion.Common.Maps.{get-map, text_key, get}
use ambion.Room.Fold.{cancel_leases, apply_lease, put_lease}
use ambion.Room.History.Leases.{cancel_hold-kept, get-put_lease}
use ambion.Room.Rules.Leases.{cancel_hold, is_live, apply_change, change_running}
use ambion.Room.ActivationId.{decode_activation_id}
use ambion.Room.History.{Keyed}

change_running-id :
    (l : RuleLease) (change : Change) (seq : ℕ) (s : LeaseState)
    → l.id ≡ change.id
    → (change_running l change seq s).id ≡ change.id
change_running-id l change seq (runs expires_at) e = refl
change_running-id l change seq (ends r c f until) e = e

-- The identity of a lease that a change is applied to.
apply_change-id :
    (leases : List (Text × RuleLease)) (change : Change) (seq : ℕ) (a : ActivationFields)
    → Keyed leases
    → (apply_change (get leases change.id) change seq a).id ≡ change.id
unfolding apply_change
apply_change-id leases change seq a keyed = elim (Option-cases (get leases change.id)) [
  | inl e ↦ rw e refl
  | inr (l, e) ↦ rw e (change_running-id l change seq l.state (keyed change.id l e))
]

put_lease-Keyed :
    (leases : List (Text × RuleLease)) (change : Change) (seq : ℕ) (a : ActivationFields)
    → Keyed leases
    → Keyed (put_lease (some a) leases change seq)
put_lease-Keyed leases change seq a keyed i l h = elim (Bool-cases (text_eq change.id i)) [
  | inl same ↦
      let e = (text_eq_iff change.id i).0 same in
      let at_i = rw (get-put_lease leases change seq a i, same) at h in
      ap (λ x. x.id) (some-injective (sym at_i)) ∙ apply_change-id leases change seq a keyed ∙ e
  | inr other ↦ keyed i l (rw (get-put_lease leases change seq a i, other) at h)
]

apply_lease-Keyed :
    (leases : List (Text × RuleLease)) (change : Change) (seq : ℕ)
    → Keyed leases
    → Keyed (apply_lease leases change seq)
unfolding apply_lease
apply_lease-Keyed leases change seq keyed = elim (Option-cases (decode_activation_id change.id)) [
  | inl e ↦ rw e keyed
  | inr (a, e) ↦ rw e (put_lease-Keyed leases change seq a keyed)
]

cancel_hold-same_id : (l : RuleLease) (seq : ℕ) (at : Text) → (cancel_hold l seq at).id ≡ l.id
unfolding cancel_hold
cancel_hold-same_id l seq at = ground arith

-- The lease that a cancellation leaves at an id comes from one that stood there.
cancelled_from :
    (leases : List (Text × RuleLease)) (seq : ℕ) (at id : Text) (l : RuleLease)
    → get (cancel_leases leases seq at) id ≡ some l
    → (before : RuleLease) × (get leases id ≡ some before) × (l ≡ cancel_hold before seq at)
unfolding cancel_leases
cancelled_from leases seq at id l h = elim (Option-cases (get leases id)) [
  | inl e ↦
      absurd
        (let w = sym (get-map (λ l. cancel_hold l seq at) leases id) ∙ h in let v = rw e at w in cc)
  | inr (before, e) ↦
      let w = sym (get-map (λ l. cancel_hold l seq at) leases id) ∙ h in
      (before, e, some-injective (sym (rw e at w)))
]

cancel_leases-Keyed :
    (leases : List (Text × RuleLease)) (seq : ℕ) (at : Text)
    → Keyed leases
    → Keyed (cancel_leases leases seq at)
cancel_leases-Keyed leases seq at keyed id l h =
    let (before, e, same) = cancelled_from leases seq at id l h in
    ap (λ x. x.id) same ∙ cancel_hold-same_id before seq at ∙ keyed id before e

cancel_hold-is_live :
    (l : RuleLease) (seq : ℕ) (at : Text) (now : ℕ)
    → is_live (cancel_hold l seq at) now ≡ true
    → is_live l now ≡ true
unfolding cancel_hold is_live
cancel_hold-is_live l seq at now h = elim (cancel_hold-kept l seq at) [
  | inl e ↦ rw e at h
  | inr (live, e) ↦ absurd (ground arith)
]

cancel_leases-Exclusive :
    (leases : List (Text × RuleLease)) (seq : ℕ) (at : Text) (now : ℕ)
    → Exclusive leases now
    → Exclusive (cancel_leases leases seq at) now
cancel_leases-Exclusive leases seq at now exclusive i j l m seat at_i at_j live_i live_j =
    let (l', ei, same_l) = cancelled_from leases seq at i l at_i in
    let (m', ej, same_m) = cancelled_from leases seq at j m at_j in
    exclusive i j l' m' seat ei ej (cancel_hold-is_live l' seq at now (rw same_l at live_i))
      (cancel_hold-is_live m' seq at now (rw same_m at live_j))

-- A lease after a change is the changed one, or it stood there before.
put_lease-from :
    (leases : List (Text × RuleLease)) (change : Change) (seq : ℕ) (a : ActivationFields) (i : Text)
    (l : RuleLease)
    → get (put_lease (some a) leases change seq) i ≡ some l
    → ((change.id ≡ i) × (l ≡ apply_change (get leases change.id) change seq a))
      ⊎ (get leases i ≡ some l)
put_lease-from leases change seq a i l h = elim (Bool-cases (text_eq change.id i)) [
  | inl same ↦
      let at_i = rw (get-put_lease leases change seq a i, same) at h in
      inl ((text_eq_iff change.id i).0 same, some-injective (sym at_i))
  | inr other ↦ inr (rw (get-put_lease leases change seq a i, other) at h)
]

-- A change keeps the leases exclusive when its lease is not live or stands alone.
put_lease-Exclusive :
    (leases : List (Text × RuleLease)) (change : Change) (seq now : ℕ) (a : ActivationFields)
    → Exclusive leases now
    → (is_live (apply_change (get leases change.id) change seq a) now ≡ true
        → Alone leases change.id now)
    → Exclusive (put_lease (some a) leases change seq) now
put_lease-Exclusive leases change seq now a exclusive alone i j l m seat at_i at_j live_i live_j =
    λ si sj. elim (put_lease-from leases change seq a i l at_i) [
      | inl (ei, same_l) ↦ elim (put_lease-from leases change seq a j m at_j) [
        | inl (ej, same_m) ↦ sym ei ∙ ej
        | inr old_j ↦
            sym ei ∙ alone (rw same_l at live_i) j m seat old_j live_j (rw (sym ei) at si) sj
      ]
      | inr old_i ↦ elim (put_lease-from leases change seq a j m at_j) [
        | inl (ej, same_m) ↦
            sym (alone (rw same_m at live_j) i l seat old_i live_i (rw (sym ej) at sj) si) ∙ ej
        | inr old_j ↦ exclusive i j l m seat old_i old_j live_i live_j si sj
      ]
    ]

apply_lease-Exclusive :
    (leases : List (Text × RuleLease)) (change : Change) (seq now : ℕ)
    → Exclusive leases now
    → ((a : ActivationFields)
        → is_live (apply_change (get leases change.id) change seq a) now ≡ true
        → Alone leases change.id now)
    → Exclusive (apply_lease leases change seq) now
unfolding apply_lease
apply_lease-Exclusive leases change seq now exclusive alone =
    elim (Option-cases (decode_activation_id change.id)) [
      | inl e ↦ rw e exclusive
      | inr (a, e) ↦ rw e (put_lease-Exclusive leases change seq now a exclusive (alone a))
    ]

is_live_earlier :
    (l : RuleLease) (s : LeaseState) (now later : ℕ)
    → l.state ≡ s
    → now ≤ later
    → is_live l later ≡ true
    → is_live l now ≡ true
unfolding is_live
is_live_earlier l (runs expires_at) now later e before live =
    let w = rw e at live in rw e (ground arith)
is_live_earlier l (ends r c f until) now later e before live = let w = rw e at live in absurd (cc)

ends-Exclusive :
    (leases : List (Text × RuleLease)) (command : LeaseEnding) (change : Change) (seq now : ℕ)
    → IsEnd command change
    → Exclusive leases now
    → Exclusive (apply_lease leases change seq) now
ends-Exclusive leases command change seq now (by_id, is_end) exclusive =
    apply_lease-Exclusive leases change seq now exclusive (λ a live.
      let over =
        apply_end-not_live (get leases change.id) change seq now a command.reason command.cause
          is_end in
      absurd (cc))

module _ (iso : ℕ → Text) (parse : Text → Option ℕ) where
  -- What every state keeps: each lease under its id, and one live lease of each seat.
  abbrev Holds : List (Text × RuleLease) → ℕ → Type 0
  Holds leases now = Keyed leases × Exclusive leases now

  Step-Holds :
      {leases next : List (Text × RuleLease)} {now later : ℕ}
      → Step iso parse leases now next later
      → Holds leases now
      → Holds next later
  Step-Holds (runs_lease {leases} {now} state command change seq same e) (keyed, exclusive) =
      let (granted_now, by_id) = run_lease-IsGranted iso parse state command now change e in
      let alone =
        granted-Alone state command now (subst Keyed (sym same) keyed)
          (subst (λ ls. Exclusive ls now) (sym same) exclusive) granted_now in
      (
        apply_lease-Keyed leases change seq keyed,
        apply_lease-Exclusive leases change seq now exclusive (λ a live.
            subst (λ id. Alone leases id now) (sym by_id)
              (subst (λ ls. Alone ls command.id now) same alone)),
      )
  Step-Holds (ends_lease {leases} {now} state command change seq same e) (keyed, exclusive) = (
    apply_lease-Keyed leases change seq keyed,
    ends-Exclusive leases command change seq now
        (end_lease-IsEnd iso parse state command now change e) exclusive,
  )
  Step-Holds (releases_lease {leases} {now} state command change seq same e) (keyed, exclusive) = (
    apply_lease-Keyed leases change seq keyed,
    ends-Exclusive leases command change seq now
        (release_lease-IsEnd iso parse state command now change e) exclusive,
  )
  Step-Holds (cancels {leases} {now} seq at) (keyed, exclusive) =
      (cancel_leases-Keyed leases seq at keyed, cancel_leases-Exclusive leases seq at now exclusive)
  Step-Holds (waits {leases} {now} {later} before) (keyed, exclusive) = (
    keyed,
    λ i j l m seat at_i at_j live_i live_j.
        exclusive i j l m seat at_i at_j (is_live_earlier l l.state now later refl before live_i)
          (is_live_earlier m m.state now later refl before live_j),
  )

  Reached-Holds :
      {leases : List (Text × RuleLease)} {now : ℕ} → Reached iso parse leases now → Holds leases now
  unfolding get
  Reached-Holds (begins now) = (λ i l h. absurd (cc), λ i j l m seat h. absurd (cc))
  Reached-Holds (goes_on before step) = Step-Holds step (Reached-Holds before)

-- In every state that the decisions of a room, its cancellations and the clock lead to, two live
-- leases of one seat are one lease: no seat ever runs two activations at once.
pub one_holder :
    (iso : ℕ → Text) (parse : Text → Option ℕ) (leases : List (Text × RuleLease)) (now : ℕ)
    (i j : Text) (l m : RuleLease) (seat : Text)
    → Reached iso parse leases now
    → get leases i ≡ some l
    → get leases j ≡ some m
    → is_live l now ≡ true
    → is_live m now ≡ true
    → seat_of i ≡ some seat
    → seat_of j ≡ some seat
    → i ≡ j
one_holder iso parse leases now i j l m seat reached =
    (Reached-Holds iso parse reached).1 i j l m seat
