-- ===== src/Room/Passes/Endings.antt =====
-- packages/ambion/src/room/reconcile.ts `endings` and `abandonments` against transition.ts `end`.
use ambion.Common.{
  Bool-cases, filter, filter-sub, subst, sym, Bool, Option, Text, ap, arith, false, inl, inr,
  le→leb, refl, some, true, ◌≤◌, List, Memᴰ, [], ℕ, ◌∷◌, ◌≡◌, ◌⊎◌,
}
use ambion.Common.Maps.{values, text_key, get}
use ambion.Room.Passes.{WellKept}
use ambion.Room.Reconcile.{
  ReconcileOptions, abandonment, abandonments, capped, expiration, is_running, is_stale,
  plan_reconciliation, revocation, LeaseEnd, endings, lease_ending,
}
use ambion.Room.Rules.Leases.{
  is_expired, Ending, ending_of, may_end, on_record, phase_of, stays, is_overdue, is_revoked,
}
use ambion.Room.State.{DueActivation, RoomState}
use ambion.Room.ActivationId.{max_safe_integer}
use ambion.Room.Decide.{
  change_entry, end_lease, ending_command, expired_known, invalid_progress, phase_known,
  valid_read_through,
}
use ambion.Room.Types.{
  Change, EndReason, LeaseState, end_for, ends, runs, RuleLease, expired, revoked,
}
use mathlib.Core.List.Memᴰ

-- The order names the lease, with its progress, and ends it as the rules said.
abbrev Orders : RoomState → ℕ → LeaseEnd → Ending → EndReason → RuleLease → Type 0
Orders state now order ending reason l =
    (lease_ending state now l ≡ ending)
    × (order.id ≡ l.id)
    × (order.read_through ≡ l.read_through)
    × (order.reason ≡ reason)

revocation-from :
    (state : RoomState) (now : ℕ) (ending : Ending) (l : RuleLease) (order : LeaseEnd)
    → lease_ending state now l ≡ ending
    → Memᴰ order (revocation ending l)
    → Orders state now order is_revoked revoked l
revocation-from state now is_revoked l order e (Memᴰ.head same) =
    (e, ap (λ o. o.id) same, ap (λ o. o.read_through) same, ap (λ o. o.reason) same)
revocation-from state now is_revoked l order e (Memᴰ.tail m) = absurd (Memᴰ.not-nil m)
revocation-from state now is_overdue l order e m = absurd (Memᴰ.not-nil m)
revocation-from state now stays l order e m = absurd (Memᴰ.not-nil m)

expiration-from :
    (state : RoomState) (now : ℕ) (ending : Ending) (l : RuleLease) (order : LeaseEnd)
    → lease_ending state now l ≡ ending
    → Memᴰ order (expiration ending l)
    → Orders state now order is_overdue expired l
expiration-from state now is_overdue l order e (Memᴰ.head same) =
    (e, ap (λ o. o.id) same, ap (λ o. o.read_through) same, ap (λ o. o.reason) same)
expiration-from state now is_overdue l order e (Memᴰ.tail m) = absurd (Memᴰ.not-nil m)
expiration-from state now is_revoked l order e m = absurd (Memᴰ.not-nil m)
expiration-from state now stays l order e m = absurd (Memᴰ.not-nil m)

revoked-from :
    (state : RoomState) (now : ℕ) (leases : List RuleLease) (order : LeaseEnd)
    → Memᴰ order (endings state now leases).0
    → (l : RuleLease) × Memᴰ l leases × Orders state now order is_revoked revoked l
unfolding endings
revoked-from state now [] order h = absurd (Memᴰ.not-nil h)
revoked-from state now (l ∷ ls) order h =
    elim (Memᴰ.append_cases (revocation (lease_ending state now l) l) h) [
      | inl m ↦
          (l, Memᴰ.head refl, revocation-from state now (lease_ending state now l) l order refl m)
      | inr m ↦ let (l', at, o) = revoked-from state now ls order m in (l', Memᴰ.tail at, o)
    ]

expired-from :
    (state : RoomState) (now : ℕ) (leases : List RuleLease) (order : LeaseEnd)
    → Memᴰ order (endings state now leases).1
    → (l : RuleLease) × Memᴰ l leases × Orders state now order is_overdue expired l
unfolding endings
expired-from state now [] order h = absurd (Memᴰ.not-nil h)
expired-from state now (l ∷ ls) order h =
    elim (Memᴰ.append_cases (expiration (lease_ending state now l) l) h) [
      | inl m ↦
          (l, Memᴰ.head refl, expiration-from state now (lease_ending state now l) l order refl m)
      | inr m ↦ let (l', at, o) = expired-from state now ls order m in (l', Memᴰ.tail at, o)
    ]

ending_of-may_end :
    (s : LeaseState) (stale late : Bool) (ending : Ending) (reason : EndReason)
    → ending_of (is_running (phase_of s)) stale late ≡ ending
    → ((ending ≡ is_revoked) × (reason ≡ revoked)) ⊎ ((ending ≡ is_overdue) × (reason ≡ expired))
    → may_end (some (phase_of s)) reason late ≡ true
unfolding ending_of may_end
ending_of-may_end (ends r c f until) stale late ending reason e h = absurd (ground arith)
ending_of-may_end (runs expires_at) true late ending reason e h = ground arith
ending_of-may_end (runs expires_at) false true ending reason e h = ground arith
ending_of-may_end (runs expires_at) false false ending reason e h = absurd (ground arith)

-- The entry of an order that lands.
abbrev pub ended_by : (ℕ → Text) → LeaseEnd → ℕ → Change
ended_by iso order now = record {
  id = order.id;
  at = iso now;
  read_through = order.read_through;
  state = end_for order.reason order.cause;
}

module _ (iso : ℕ → Text) (parse : Text → Option ℕ) (state : RoomState) (now : ℕ) where
  end_lease-lands :
      (order : LeaseEnd)
      → order.read_through ≤ state.last_seq
      → state.last_seq ≤ max_safe_integer
      → may_end
          (phase_known (get state.leases order.id))
          order.reason
          (expired_known (get state.leases order.id) now)
        ≡ true
      → end_lease iso parse state (ending_command order) now ≡ change_entry (ended_by iso order now)
  unfolding end_lease invalid_progress valid_read_through on_record
  end_lease-lands order read bounded may =
      rw
        (
          le→leb order.read_through max_safe_integer (omega (arith, read, bounded)),
          le→leb order.read_through state.last_seq read,
          may,
        )
        refl

  lease-lands :
      (l : RuleLease) (order : LeaseEnd) (ending : Ending) (reason : EndReason)
      → WellKept state
      → Memᴰ l (values state.leases)
      → ((ending ≡ is_revoked) × (reason ≡ revoked)) ⊎ ((ending ≡ is_overdue) × (reason ≡ expired))
      → Orders state now order ending reason l
      → end_lease iso parse state (ending_command order) now ≡ change_entry (ended_by iso order now)
  unfolding lease_ending
  lease-lands l order ending reason kept at how (e, by_id, by_place, by_reason) =
      let known = subst (λ i. get state.leases i ≡ some l) (sym by_id) (kept.stands l at) in
      end_lease-lands order (subst (λ n. n ≤ state.last_seq) (sym by_place) (kept.read l at))
        kept.bounded
        (rw (known, by_reason)
          (ending_of-may_end l.state (is_stale state l.activation) (is_expired l now) ending reason
            e how))

  abandonment-lands :
      (owed : DueActivation)
      → WellKept state
      → Memᴰ owed state.due
      → end_lease iso parse state (ending_command (abandonment owed)) now
        ≡ change_entry (ended_by iso (abandonment owed) now)
  unfolding abandonment may_end
  abandonment-lands owed kept at =
      end_lease-lands (abandonment owed) (omega arith) kept.bounded
        (rw (kept.unclaimed owed at) refl)

-- Each end that a pass plans is written when it is decided on the facts of the pass: the revoked
-- and the expired leases with the progress that they had, and the activations given up on. The
-- record is well kept.
pub planned_ends_land :
    (iso : ℕ → Text) (parse : Text → Option ℕ) (state : RoomState) (options : ReconcileOptions)
    (order : LeaseEnd)
    → WellKept state
    → (Memᴰ order (plan_reconciliation parse state options).revoked_leases
        ⊎ Memᴰ order (plan_reconciliation parse state options).expired_leases)
      ⊎ Memᴰ order (plan_reconciliation parse state options).abandoned_leases
    → end_lease iso parse state (ending_command order) options.now
      ≡ change_entry (ended_by iso order options.now)
unfolding plan_reconciliation abandonments capped
planned_ends_land iso parse state options order kept (inl (inl m)) =
    let (l, at, o) = revoked-from state options.now (values state.leases) order m in
    lease-lands iso parse state options.now l order is_revoked revoked kept at (inl (refl, refl)) o
planned_ends_land iso parse state options order kept (inl (inr m)) =
    let (l, at, o) = expired-from state options.now (values state.leases) order m in
    lease-lands iso parse state options.now l order is_overdue expired kept at (inr (refl, refl)) o
planned_ends_land iso parse state options order kept (inr m) = elim (Bool-cases options.stopped) [
  | inl stopped ↦ absurd (Memᴰ.not-nil (rw stopped at m))
  | inr going ↦
      let (owed, at, same) =
        Memᴰ.of_map abandonment (filter (λ o. capped o options) state.due) (rw going at m) in
      subst
        (λ o.
          end_lease iso parse state (ending_command o) options.now
          ≡ change_entry (ended_by iso o options.now))
        same
        (abandonment-lands iso parse state options.now owed kept
          (filter-sub (λ o. capped o options) state.due at))
]
