-- ===== src/Room/Commits/Woken.antt =====
-- packages/ambion/src/room/routing.ts: the seats that wake for a message.
use ambion.Common.{
  ap, none, some, ◌∙◌, Option, filter, filter-keeps, filter-sub, filter_sound, map, Bool-cases,
  Memᴰ, Text, [], arith, false, inl, inr, refl, subst, sym, text_eq, text_eq_iff, text_eq_refl,
  true, ◌≡◌,
}
use ambion.Room.Fold.{same_as, distinct}
use ambion.Common.Maps.{text_key, get}
use ambion.Room.Routing.{holds_ordinary, Candidate, candidates, is_free, routes, wakes_for}
use ambion.Room.Types.{Body}
use ambion.Room.Commits.Distinct.{Once, distinct_onto-Once, distinct_onto-adds, distinct_onto-from}
use ambion.Room.Commits.Offered.{
  Busy, Busy-holds_ordinary, Offered, Offered-candidates, candidates-Offered, holds_ordinary-Busy,
}
use ambion.Room.Commits.Heard.{Hears, Hears-wakes_for, wakes_for-Hears}
use ambion.Room.Reconcile.{Seats}
use ambion.Room.State.{RoomState}
use mathlib.Core.List.Memᴰ

-- A name that a message wakes: that of a seat it is offered to, that did not write it, that no
-- activation for another message keeps at work, and that hears it.
pub record IsWoken (body : Body) (state : RoomState) (live : Seats) (name : Text) : Type 0 where
  pub seat : Candidate
  pub same : seat.name ≡ name
  pub known : Offered state body.content seat
  pub not_author : body.from ≡ some name → ⊥
  pub idle : Busy state live name → ⊥
  pub hears_it : Hears seat body.content

not_from :
    (author : Option Text) (name : Text) → same_as author name ≡ false → author ≡ some name → ⊥
not_from none name h e = absurd (cc)
not_from (some from) name h e =
    let w = text_eq_refl name in absurd (let v = rw (ap (λ o. same_as o name) e) at h in cc)

from_other :
    (author : Option Text) (name : Text) → (author ≡ some name → ⊥) → same_as author name ≡ false
from_other none name other = refl
from_other (some from) name other = elim (Bool-cases (text_eq name from)) [
  | inl e ↦ absurd (other (ap some (sym ((text_eq_iff name from).0 e))))
  | inr e ↦ e
]

is_free-idle :
    (state : RoomState) (live : Seats) (author : Option Text) (seat : Candidate)
    → is_free state live author seat ≡ true
    → (same_as author seat.name ≡ false) × (holds_ordinary state (get live seat.name) ≡ false)
unfolding is_free
is_free-idle state live author seat h = ground arith

-- A seat that may wake did not write the message, and no activation for another message keeps it at work.
is_free-Busy :
    (state : RoomState) (live : Seats) (author : Option Text) (seat : Candidate)
    → is_free state live author seat ≡ true
    → (author ≡ some seat.name → ⊥) × (Busy state live seat.name → ⊥)
is_free-Busy state live author seat h =
    let (other, idle) = is_free-idle state live author seat h in
    (
      not_from author seat.name other,
      λ busy. let at_work = Busy-holds_ordinary state live seat.name busy in absurd (cc),
    )

Busy-is_free :
    (state : RoomState) (live : Seats) (author : Option Text) (seat : Candidate)
    → (author ≡ some seat.name → ⊥)
    → (Busy state live seat.name → ⊥)
    → is_free state live author seat ≡ true
unfolding is_free
Busy-is_free state live author seat other idle =
    let apart = from_other author seat.name other in
    elim (Bool-cases (holds_ordinary state (get live seat.name))) [
      | inl e ↦ absurd (idle (holds_ordinary-Busy state live seat.name e))
      | inr e ↦ rw (apart, e) refl
    ]

-- The names that wake for a message, each once, are those of the seats that it is offered to, which are the
-- roster and the seat that the message seats, where the seat is not its author, no live activation for another
-- message keeps it at work (work on a summary does not), and the message is a say or a system message to it, or
-- one to the room that its attention of broadcast or presence hears, or a seating of it, or a change of a
-- person or a seat that its attention of presence watches.
pub routes-IsWoken :
    (body : Body) (state : RoomState) (live : Seats)
    → Once (routes body state live)
      × ((name : Text) → Memᴰ name (routes body state live) → IsWoken body state live name)
      × ((name : Text) → IsWoken body state live name → Memᴰ name (routes body state live))
unfolding routes distinct
routes-IsWoken body state live =
    let free = is_free state live body.from in
    let hearing = λ (seat : Candidate). wakes_for seat body.content in
    let all = candidates state body.content in
    let woken = map (λ seat. seat.name) (filter hearing (filter free all)) in
    (
      distinct_onto-Once [] woken tt,
      λ name m. elim (distinct_onto-from [] woken m) [
        | inl nobody ↦ absurd (Memᴰ.not-nil nobody)
        | inr there ↦
            let (seat, at, same) =
              Memᴰ.of_map (λ s. s.name) (filter hearing (filter free all)) there in
            let by_reach = filter-sub hearing (filter free all) at in
            let (other, idle) =
              is_free-Busy state live body.from seat (filter_sound free all by_reach) in
            record {
              seat = seat;
              same = same;
              known = candidates-Offered state body.content seat (filter-sub free all by_reach);
              not_author = λ e. other (e ∙ ap some (sym same));
              idle = λ busy. idle (subst (Busy state live) (sym same) busy);
              hears_it =
                  wakes_for-Hears seat body.content (filter_sound hearing (filter free all) at);
            }
      ],
      λ name w.
          let known = Offered-candidates state body.content w.seat w.known in
          let is_free_seat : free w.seat ≡ true =
            Busy-is_free state live body.from w.seat (λ e. w.not_author (e ∙ ap some w.same))
              (λ busy. w.idle (subst (Busy state live) w.same busy)) in
          distinct_onto-adds [] woken (
            subst (λ n. Memᴰ n woken) w.same
              (Memᴰ.map (λ s. s.name)
                (filter-keeps hearing (filter-keeps free known is_free_seat)
                  (Hears-wakes_for w.seat body.content w.hears_it)))),
    )
