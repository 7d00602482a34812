-- ===== src/Room/Passes/Alarm.antt =====
-- packages/ambion/src/room/reconcile.ts `nextAlarm`, `retryTimes` and `dueWakes`: no work of a room
-- waits for a clock that nobody set.
use ambion.Common.{
  Bool, if-false, Bool-cases, Option, Text, ap, false, filter, filter-keeps, filter_sound, leb,
  leb→le, ltb, ltb→lt, lt→ltb, none, some-injective, subst, sym, true, ◌++◌, ◌<◌, ◌∙◌, ◌⊎◌, List,
  Memᴰ, [], arith, inl, inr, refl, some, ℕ, ◌∷◌, ◌≡◌, ◌≤◌,
}
use ambion.Room.Reconcile.{
  expiry_state, ReconcileOptions, expiry_of, lesser, live_expiries, next_alarm, plan_reconciliation,
  retry_times, return_times, least,
}
use ambion.Room.Types.{LeaseState, RuleLease, runs}
use ambion.Common.Maps.{values}
use ambion.Room.Rules.Leases.{is_live}
use ambion.Room.State.{RoomState}
use mathlib.Core.List.Memᴰ

lesser-le : (n : ℕ) (o : Option ℕ) → lesser n o ≤ n
lesser-le n none = omega arith
lesser-le n (some m) = omega arith

lesser-some : (n m : ℕ) (o : Option ℕ) → o ≡ some m → lesser n o ≤ m
lesser-some n m o e = rw e (omega arith)

lesser-cases :
    (n : ℕ) (o : Option ℕ) → (lesser n o ≡ n) ⊎ ((m : ℕ) × (o ≡ some m) × (lesser n o ≡ m))
lesser-cases n none = inl refl
lesser-cases n (some m) = elim (Bool-cases (leb n m)) [
  | inl e ↦ inl (let below = leb→le n m e in omega arith)
  | inr e ↦ inr (m, refl, ground arith)
]

-- The least number of a list is at most each one.
least-le : (n : ℕ) (ns : List ℕ) → Memᴰ n ns → (m : ℕ) × (least ns ≡ some m) × (m ≤ n)
unfolding least
least-le n [] m = absurd (Memᴰ.not-nil m)
least-le n (k ∷ ns) (Memᴰ.head same) =
    (lesser k (least ns), refl, omega (arith, lesser-le k (least ns), same))
least-le n (k ∷ ns) (Memᴰ.tail rest) =
    let (m, found, below) = least-le n ns rest in
    (lesser k (least ns), refl, omega (arith, lesser-some k m (least ns) found, below))

-- It is one of them.
least-Memᴰ : (m : ℕ) (ns : List ℕ) → least ns ≡ some m → Memᴰ m ns
unfolding least
least-Memᴰ m [] e = absurd (cc)
least-Memᴰ m (k ∷ ns) e = elim (lesser-cases k (least ns)) [
  | inl first ↦ Memᴰ.head (sym (some-injective e) ∙ first)
  | inr (j, found, same) ↦
      Memᴰ.tail (least-Memᴰ m ns (found ∙ ap some (sym same ∙ some-injective e)))
]

-- The alarm of a list of times is after the moment, and at or before each time after the moment.
soonest :
    (now at : ℕ) (times : List ℕ)
    → Memᴰ at times
    → now < at
    → (alarm : ℕ) × (least (filter (λ t. ltb now t) times) ≡ some alarm)
      × (now < alarm)
      × (alarm ≤ at)
soonest now at times m later =
    let (alarm, found, below) =
      least-le at (filter (λ t. ltb now t) times)
        (filter-keeps (λ t. ltb now t) m (lt→ltb now at later)) in
    let there = least-Memᴰ alarm (filter (λ t. ltb now t) times) found in
    (alarm, found, ltb→lt now alarm (filter_sound (λ t. ltb now t) times there), below)

expiry_state-Memᴰ :
    (s : LeaseState) (live : Bool) (expires_at : ℕ)
    → s ≡ runs expires_at
    → live ≡ true
    → Memᴰ expires_at (expiry_state s live)
expiry_state-Memᴰ s live expires_at e h = rw (e, h) (Memᴰ.head refl)

live_expiries-Memᴰ :
    (leases : List RuleLease) (l : RuleLease) (now expires_at : ℕ)
    → Memᴰ l leases
    → l.state ≡ runs expires_at
    → is_live l now ≡ true
    → Memᴰ expires_at (live_expiries leases now)
unfolding live_expiries
live_expiries-Memᴰ [] l now expires_at m e live = absurd (Memᴰ.not-nil m)
live_expiries-Memᴰ (k ∷ ls) l now expires_at (Memᴰ.head same) e live =
    Memᴰ.append_left (live_expiries ls now) (
      subst (λ x. Memᴰ expires_at (expiry_of x now)) same
        (expiry_state-Memᴰ l.state (is_live l now) expires_at e live))
live_expiries-Memᴰ (k ∷ ls) l now expires_at (Memᴰ.tail m) e live =
    Memᴰ.append_right (expiry_of k now) (live_expiries-Memᴰ ls l now expires_at m e live)

-- The expiry of a live lease does not pass unseen: the pass sets an alarm after now, at or before
-- it. The room is not stopped.
pub expiry_is_looked_at :
    (parse : Text → Option ℕ) (state : RoomState) (options : ReconcileOptions) (l : RuleLease)
    (expires_at : ℕ)
    → Memᴰ l (values state.leases)
    → l.state ≡ runs expires_at
    → is_live l options.now ≡ true
    → options.stopped ≡ false
    → (alarm : ℕ) × ((plan_reconciliation parse state options).alarm_at ≡ some alarm)
      × (options.now < alarm)
      × (alarm ≤ expires_at)
unfolding plan_reconciliation next_alarm
expiry_is_looked_at parse state options l expires_at m e live going =
    let later : options.now < expires_at = unfold is_live in let w = rw e at live in ground arith in
    let (alarm, found, after, below) =
      soonest options.now expires_at
        (live_expiries (values state.leases) options.now
          ++ retry_times state options
          ++ return_times parse state.scheduled)
        (Memᴰ.append_left (return_times parse state.scheduled) (
          Memᴰ.append_left (retry_times state options)
            (live_expiries-Memᴰ (values state.leases) l options.now expires_at m e live)))
        later in
    (
      alarm,
      if-false options.stopped none (next_alarm parse state options) going ∙ found,
      after,
      below,
    )
