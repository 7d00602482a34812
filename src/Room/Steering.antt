-- ===== src/Room/Steering.antt =====
-- packages/ambion/src/room/delivery.ts `messageDelivery`: the leases that a message steers.
use ambion.Common.{
  All, Bool-cases, List, Memᴰ, Text, [], any, arith, false, inl, inr, not, refl, subst, sym,
  text_eq, true, ◌&&◌, ◌++◌, ◌∷◌, ◌≡◌,
}
use ambion.Common.Maps.{values}
use ambion.Room.Fold.{at_work, distinct, is_respond, message_delivery, same_as, steered_by, steers}
use ambion.Room.Rules.Exchanges.{includes}
use ambion.Room.State.{MessageSteer}
use ambion.Room.Types.{Message, RuleLease}
use mathlib.Core.List.Memᴰ

-- A steer names a lease of the record at its seat, which the message may steer.
abbrev pub Steered : Message → List Text → List RuleLease → MessageSteer → Type 0
Steered m wakes leases s =
    (lease : RuleLease) × Memᴰ lease leases
    × (s.activation ≡ lease.id)
    × (s.seat ≡ lease.activation.seat)
    × (steers m wakes lease ≡ true)

module _ {ℓ κ} {A : Type ℓ} (P : A → Type κ) where
  All-append : (xs : List A) (y : A) → All P xs → P y → All P (xs ++ y ∷ [])
  All-append [] y all p = (p, tt)
  All-append (x ∷ xs) y (q, all) p = (q, All-append xs y all p)

  All-Memᴰ : (xs : List A) {y : A} → All P xs → Memᴰ y xs → P y
  All-Memᴰ [] all m = absurd (Memᴰ.not-nil m)
  All-Memᴰ (x ∷ xs) (p, all) (Memᴰ.head e) = subst P (sym e) p
  All-Memᴰ (x ∷ xs) (p, all) (Memᴰ.tail m) = All-Memᴰ xs all m

steered_by-Steered :
    (m : Message) (wakes : List Text) (whole : List RuleLease) (steered : List MessageSteer)
    (leases : List RuleLease)
    → ((l : RuleLease) → Memᴰ l leases → Memᴰ l whole)
    → All (Steered m wakes whole) steered
    → All (Steered m wakes whole) (steered_by m wakes steered leases)
unfolding steered_by
steered_by-Steered m wakes whole steered [] sub all = all
steered_by-Steered m wakes whole steered (lease ∷ leases) sub all =
    elim (Bool-cases
      (steers m wakes lease && not (any (λ s. text_eq s.seat lease.activation.seat) steered))) [
        | inl may ↦ rw may (
            steered_by-Steered m wakes whole
              (steered ++ record { seat = lease.activation.seat; activation = lease.id } ∷ [])
              leases (λ l h. sub l (Memᴰ.tail h))
              (All-append (Steered m wakes whole) steered
                (record { seat = lease.activation.seat; activation = lease.id }) all
                (lease, sub lease (Memᴰ.head refl), refl, refl, ground arith)))
        | inr skip ↦
            rw skip
              (steered_by-Steered m wakes whole steered leases (λ l h. sub l (Memᴰ.tail h)) all)
      ]

steers-needs :
    (m : Message) (wakes : List Text) (lease : RuleLease)
    → steers m wakes lease ≡ true
    → (is_respond lease.activation.source ≡ true)
      × (same_as m.from lease.activation.seat ≡ false)
      × (includes wakes lease.activation.seat ≡ false)
      × (at_work lease m.seq ≡ true)
unfolding steers
steers-needs m wakes lease h = ground arith

-- A message steers only leases of the record that a message caused and that were at work when it
-- landed, and it steers neither its author's seat nor a seat that it wakes.
pub steers_at_work :
    (m : Message) (leases : List (Text × RuleLease)) (s : MessageSteer)
    → Memᴰ s (message_delivery m leases).steers
    → (lease : RuleLease) × Memᴰ lease (values leases)
      × (s.activation ≡ lease.id)
      × (s.seat ≡ lease.activation.seat)
      × (is_respond lease.activation.source ≡ true)
      × (same_as m.from lease.activation.seat ≡ false)
      × (includes (message_delivery m leases).wakes lease.activation.seat ≡ false)
      × (at_work lease m.seq ≡ true)
unfolding message_delivery
steers_at_work m leases s at =
    let wakes = distinct m.wakes in
    let (lease, there, same, seat, may) =
      All-Memᴰ (Steered m wakes (values leases)) (steered_by m wakes [] (values leases))
        (steered_by-Steered m wakes (values leases) [] (values leases) (λ l h. h) tt) at in
    let (responds, other, unwoken, working) = steers-needs m wakes lease may in
    (lease, there, same, seat, responds, other, unwoken, working)
