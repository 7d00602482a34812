-- ===== src/Room/Authority.antt =====
-- packages/ambion/src/room/activation.ts `activationSpec` and `seatAuthority`, with `activationGrant`
-- of rules.verified.ts: what an activation must have to act.
use ambion.Common.{
  subst, Bool, Bool-cases, Option, Option-cases, Text, ap, arith, false, inl, inr, none, refl, some,
  some-injective, sym, true, ℕ, ◌∙◌, ◌≡◌,
}
use ambion.Common.Maps.{text_key, get}
use ambion.Room.Activation.{
  stale, Authority, holds, if_spec, seat_authority, ActivationSpec, activation_spec, close_of,
  grant_for, recorded_for, removed_after, seated, spec_of,
}
use ambion.Room.Rules.Leases.{is_live}
use ambion.Room.Types.{RuleLease, ActivationFields, Source}
use ambion.Room.ActivationId.{decode_activation_id}
use ambion.Room.Reconcile.{is_stale}
use ambion.Room.Rules.Exchanges.{survives_cancellation}
use ambion.Room.Rules.Grants.{CloseFact, Grant, activation_grant, grant_of, well_formed}
use ambion.Room.State.{RoomState}

grant_of-seat :
    (source : Source) (id : ActivationFields) (recorded : Bool) (close : Option CloseFact)
    (g : Grant)
    → grant_of source id recorded close ≡ some g
    → g.seat ≡ id.seat
grant_of-seat Source.message id true close g e = sym (ap (λ x. x.seat) (some-injective e))
grant_of-seat Source.message id false close g e = absurd (cc)
grant_of-seat Source.closed id recorded none g e = absurd (cc)
grant_of-seat Source.closed id recorded (some close) g e = sym (ap (λ x. x.seat) (some-injective e))

-- What a grant needs: its cause survives the cancellation, its seat is on the roster, and no
-- removal of the seat is on the record after the cause.
abbrev Needs : ActivationFields → Option ℕ → Bool → Bool → Grant → Type 0
Needs id cancelled_at on_roster removed g =
    (survives_cancellation id.position cancelled_at ≡ true)
    × (on_roster ≡ true)
    × (removed ≡ false)
    × (g.seat ≡ id.seat)

activation_grant-Needs :
    (id : ActivationFields) (cancelled_at : Option ℕ) (on_roster removed recorded : Bool)
    (close : Option CloseFact) (g : Grant)
    → activation_grant id cancelled_at on_roster removed recorded close ≡ some g
    → Needs id cancelled_at on_roster removed g
unfolding activation_grant
activation_grant-Needs id cancelled_at false removed recorded close g e = absurd (ground arith)
activation_grant-Needs id cancelled_at true true recorded close g e = absurd (ground arith)
activation_grant-Needs id cancelled_at true false recorded close g e =
    elim (Bool-cases (survives_cancellation id.position cancelled_at)) [
      | inl h ↦ (h, refl, refl, grant_of-seat id.source id recorded close g (rw h at e))
      | inr h ↦ absurd (cc)
    ]

spec_of-granted :
    (id : Text) (state : RoomState) (grant : Option Grant) (spec : ActivationSpec)
    → spec_of id state grant ≡ some spec
    → (g : Grant) × (grant ≡ some g) × (spec.seat ≡ g.seat)
unfolding spec_of
spec_of-granted id state none spec e = absurd (cc)
spec_of-granted id state (some g) spec e = (g, refl, sym (ap (λ s. s.seat) (some-injective e)))

-- What the seat of an id needs: an id of the room, a seat that no removal made stale, and a cause
-- that no cancellation ended.
abbrev pub Entitled : RoomState → Text → ActivationSpec → Type 0
Entitled state id spec =
    (parsed : ActivationFields) × (decode_activation_id id ≡ some parsed)
    × (is_stale state parsed ≡ false)
    × (survives_cancellation parsed.position state.cancelled_at ≡ true)
    × (spec.seat ≡ parsed.seat)

pub activation_spec-Entitled :
    (state : RoomState) (id : Text) (spec : ActivationSpec)
    → activation_spec id state ≡ some spec
    → Entitled state id spec
unfolding activation_spec grant_for is_stale
activation_spec-Entitled state id spec e = elim (Option-cases (decode_activation_id id)) [
  | inl h ↦ absurd (let w = rw h at e in cc)
  | inr (parsed, h) ↦ elim (Bool-cases (well_formed parsed)) [
    | inl well ↦
        let (g, granted_now, by_seat) =
          spec_of-granted id state (grant_for state parsed) spec (rw (h, well) at e) in
        let (survives, on_roster, kept, own) =
          activation_grant-Needs parsed state.cancelled_at (seated state parsed.seat)
            (removed_after state.messages parsed.seat parsed.position)
            (recorded_for parsed.source state parsed.position) (close_of parsed.source state parsed)
            g granted_now in
        (parsed, h, rw (on_roster, kept) refl, survives, by_seat ∙ own)
    | inr ill ↦ absurd (let w = rw (h, ill) at e in cc)
  ]
]

abbrev held_spec : Authority → ActivationSpec → ActivationSpec
held_spec (stale why) other = other
held_spec (holds spec lease) other = spec

abbrev held_lease : Authority → RuleLease → RuleLease
held_lease (stale why) other = other
held_lease (holds spec lease) other = lease

if_spec-holds :
    (o : Option ActivationSpec) (known lease : RuleLease) (spec : ActivationSpec)
    → if_spec o known ≡ holds spec lease
    → (o ≡ some spec) × (known ≡ lease)
if_spec-holds none known lease spec e = absurd (cc)
if_spec-holds (some s) known lease spec e =
    (ap some (ap (λ a. held_spec a s) e), ap (λ a. held_lease a known) e)

-- The authority of an id is held by a live lease of the id, whose activation has what it needs: its
-- seat is on the roster, no later removal of the seat and no later cancellation is on the record.
pub authority_is_Entitled :
    (state : RoomState) (id : Text) (now : ℕ) (spec : ActivationSpec) (lease : RuleLease)
    → seat_authority state id now ≡ holds spec lease
    → (get state.leases id ≡ some lease) × (is_live lease now ≡ true) × Entitled state id spec
unfolding seat_authority
authority_is_Entitled state id now spec lease e = elim (Option-cases (get state.leases id)) [
  | inl h ↦ absurd (let w = rw h at e in cc)
  | inr (known, h) ↦ elim (Bool-cases (is_live known now)) [
    | inl live ↦
        let (at, same) =
          if_spec-holds (activation_spec id state) known lease spec (rw (h, live) at e) in
        (
          h ∙ ap some same,
          subst (λ l. is_live l now ≡ true) same live,
          activation_spec-Entitled state id spec at,
        )
    | inr dead ↦ absurd (let w = rw (h, dead) at e in cc)
  ]
]
