-- ===== src/Room/History/Leases.antt =====
-- The lease of one id through the entries of a journal: rules.verified.ts `applyChange` and
-- `cancelHold`, lease.ts `applyLease`, fold.ts `applyEntry`.
use ambion.Common.{
  lt→ltb, ap, [], if◌then◌else◌, none, text_eq_iff, ◌<◌, ◌∷◌, Bool-cases, List, Option,
  Option-cases, false, inl, inr, some, text_eq, ◌⊎◌, Text, arith, refl, subst, sym, true, ℕ, ◌∙◌,
  ◌≡◌,
}
use ambion.Room.Rules.Leases.{
  before_cancellation, apply_change, cancel_hold, cancel_state, change_running, is_ended,
}
use ambion.Common.Maps.{get-map, text_key, get, get-set}
use ambion.Room.Fold.{
  RoomEntry, apply_entry, cancel_entry, cancel_leases, close_entry, composition_entry, lease_entry,
  message_entry, put_lease, run_entry, apply_lease,
}
use ambion.Room.History.{Placed, apply_all, lease_at, Continues}
use ambion.Room.State.{BaseFacts}
use ambion.Room.Types.{
  ExchangeRef, revoked, ActivationFields, Change, LeaseState, RuleLease, ends, runs,
}
use ambion.Room.ActivationId.{decode_activation_id}

Continues-refl : (l : RuleLease) → Continues l l
Continues-refl l = record {
  same_activation = refl;
  same_claim = refl;
  same_opening = refl;
  progress = omega arith;
  final = λ h. refl;
}

Continues-trans : {a b c : RuleLease} → Continues a b → Continues b c → Continues a c
Continues-trans p q = record {
  same_activation = q.same_activation ∙ p.same_activation;
  same_claim = q.same_claim ∙ p.same_claim;
  same_opening = q.same_opening ∙ p.same_opening;
  progress = omega (arith, p.progress, q.progress);
  final = λ h. q.final (subst (λ l. is_ended l.state ≡ true) (sym (p.final h)) h) ∙ p.final h;
}

change_running-Continues :
    (l : RuleLease) (c : Change) (seq : ℕ) (s : LeaseState)
    → l.state ≡ s
    → Continues l (change_running l c seq s)
change_running-Continues l c seq (ends reason cancelled cause until) e = Continues-refl l
change_running-Continues l c seq (runs expires_at) e = record {
  same_activation = refl;
  same_claim = refl;
  same_opening = refl;
  progress = omega arith;
  final = λ h. absurd (cc);
}

pub cancel_hold-kept :
    (l : RuleLease) (seq : ℕ) (at : Text)
    → (cancel_hold l seq at ≡ l)
      ⊎ (is_ended l.state ≡ false)
        × (cancel_hold l seq at ≡ record l { at = at; state = cancel_state l.state seq })
unfolding cancel_hold
cancel_hold-kept l seq at = ground arith

cancel_hold-Continues : (l : RuleLease) (seq : ℕ) (at : Text) → Continues l (cancel_hold l seq at)
cancel_hold-Continues l seq at = elim (cancel_hold-kept l seq at) [
  | inl e ↦ subst (Continues l) (sym e) (Continues-refl l)
  | inr (live, e) ↦ subst (Continues l) (sym e) (record {
    same_activation = refl;
    same_claim = refl;
    same_opening = refl;
    progress = omega arith;
    final = λ h. absurd (cc);
  })
]

apply_change-Continues :
    (l : RuleLease) (c : Change) (seq : ℕ) (a : ActivationFields)
    → Continues l (apply_change (some l) c seq a)
unfolding apply_change
apply_change-Continues l c seq a = change_running-Continues l c seq l.state refl

-- What an entry leaves of the lease at one id.
abbrev Kept : Option RuleLease → RuleLease → Type 0
Kept o l = (m : RuleLease) × (o ≡ some m) × Continues l m

pub get-put_lease :
    (leases : List (Text × RuleLease)) (c : Change) (seq : ℕ) (a : ActivationFields) (id : Text)
    → get (put_lease (some a) leases c seq) id
      ≡ (if text_eq c.id id then some (apply_change (get leases c.id) c seq a) else get leases id)
get-put_lease leases c seq a id = get-set leases c.id id (apply_change (get leases c.id) c seq a)

put_lease-Kept :
    (a : ActivationFields) (leases : List (Text × RuleLease)) (c : Change) (seq : ℕ) (id : Text)
    (l : RuleLease)
    → get leases id ≡ some l
    → Kept (get (put_lease (some a) leases c seq) id) l
put_lease-Kept a leases c seq id l h = elim (Bool-cases (text_eq c.id id)) [
  | inl same ↦
      let e = (text_eq_iff c.id id).0 same in
      let known = subst (λ i. get leases i ≡ some l) (sym e) h in
      (
        apply_change (some l) c seq a,
        rw (get-put_lease leases c seq a id, same, known) refl,
        apply_change-Continues l c seq a,
      )
  | inr other ↦ (l, rw (get-put_lease leases c seq a id, other) h, Continues-refl l)
]

apply_lease-Kept :
    (leases : List (Text × RuleLease)) (c : Change) (seq : ℕ) (id : Text) (l : RuleLease)
    → get leases id ≡ some l
    → Kept (get (apply_lease leases c seq) id) l
unfolding apply_lease
apply_lease-Kept leases c seq id l h = elim (Option-cases (decode_activation_id c.id)) [
  | inl e ↦ rw e (l, h, Continues-refl l)
  | inr (a, e) ↦ rw e (put_lease-Kept a leases c seq id l h)
]

cancel_leases-Kept :
    (leases : List (Text × RuleLease)) (seq : ℕ) (at : Text) (id : Text) (l : RuleLease)
    → get leases id ≡ some l
    → Kept (get (cancel_leases leases seq at) id) l
unfolding cancel_leases
cancel_leases-Kept leases seq at id l h = (
  cancel_hold l seq at,
  rw (get-map (λ l. cancel_hold l seq at) leases id, h) refl,
  cancel_hold-Continues l seq at,
)

apply_entry-Kept :
    (facts : BaseFacts) (entry : RoomEntry) (seq : ℕ) (open_exchange : Option ExchangeRef)
    (id : Text) (l : RuleLease)
    → lease_at facts id ≡ some l
    → Kept (lease_at (apply_entry facts entry seq open_exchange) id) l
unfolding apply_entry
apply_entry-Kept facts (message_entry m) seq o id l h = (l, h, Continues-refl l)
apply_entry-Kept facts (close_entry c) seq o id l h = (l, h, Continues-refl l)
apply_entry-Kept facts (cancel_entry at) seq o id l h =
    cancel_leases-Kept facts.leases seq at id l h
apply_entry-Kept facts (lease_entry c) seq o id l h = apply_lease-Kept facts.leases c seq id l h
apply_entry-Kept facts (composition_entry c) seq o id l h = (l, h, Continues-refl l)
apply_entry-Kept facts (run_entry at) seq o id l h = (l, h, Continues-refl l)

-- Through any entries, a lease on the record stays there with the cause, the first claim and the
-- place that it had; its progress never falls; and once it ended, no entry changes it.
pub lease-Continues :
    (facts : BaseFacts) (entries : List Placed) (id : Text) (before : RuleLease)
    → lease_at facts id ≡ some before
    → (after : RuleLease) × (lease_at (apply_all facts entries) id ≡ some after)
      × Continues before after
unfolding apply_all
lease-Continues facts [] id before h = (before, h, Continues-refl before)
lease-Continues facts (p ∷ ps) id before h =
    let (next, at, step) = apply_entry-Kept facts p.entry p.seq p.open_exchange id before h in
    let (after, reached, rest) =
      lease-Continues (apply_entry facts p.entry p.seq p.open_exchange) ps id next at in
    (after, reached, Continues-trans step rest)

cancel_hold-early :
    (l : RuleLease) (seq : ℕ) (at : Text) (expires_at : ℕ)
    → l.state ≡ runs expires_at
    → l.activation.position < seq
    → cancel_hold l seq at ≡ record l { at = at; state = ends revoked true none seq }
unfolding cancel_hold before_cancellation
cancel_hold-early l seq at expires_at runs_on before =
    rw (runs_on, lt→ltb l.activation.position seq before) refl

-- A cancellation ends the work before it: a running lease whose cause has an earlier place is
-- revoked and marked at the place of the cancellation, and stays so through any entries that
-- follow.
pub cancellation_is_final :
    (facts : BaseFacts) (seq : ℕ) (at : Text) (open_exchange : Option ExchangeRef)
    (entries : List Placed) (id : Text) (l : RuleLease) (expires_at : ℕ)
    → lease_at facts id ≡ some l
    → l.state ≡ runs expires_at
    → l.activation.position < seq
    → lease_at (apply_all (apply_entry facts (cancel_entry at) seq open_exchange) entries) id
      ≡ some (record l { at = at; state = ends revoked true none seq })
cancellation_is_final facts seq at o entries id l expires_at h runs_on before =
    let next = apply_entry facts (cancel_entry at) seq o in
    let stopped : lease_at next id ≡ some (cancel_hold l seq at) =
      unfold apply_entry cancel_leases in
      rw (get-map (λ l. cancel_hold l seq at) facts.leases id, h) refl in
    let early = cancel_hold-early l seq at expires_at runs_on before in
    let (after, reached, rest) = lease-Continues next entries id (cancel_hold l seq at) stopped in
    reached ∙ ap some (rest.final (rw early refl) ∙ early)
