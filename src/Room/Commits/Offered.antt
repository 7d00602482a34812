-- ===== src/Room/Commits/Offered.antt =====
-- packages/ambion/src/room/routing.ts: the seats that a message is offered to, and the work that keeps one busy, told beside the code.
use ambion.Common.{
  Option-cases, any_complete, any_sound, false, Bool, List, Memᴰ, Option, Text, inl, inr, map, none,
  refl, some, subst, sym, true, ℕ, ◌≡◌,
}
use ambion.Room.Activation.{
  ActivationPurpose, ActivationSpec, activation_spec, responds, summarizes,
}
use ambion.Room.Rules.Wakes.{answers}
use ambion.Common.Maps.{text_key, get}
use ambion.Room.Reconcile.{Seats}
use ambion.Room.Routing.{
  Candidate, candidate, candidates, holds_ordinary, newcomer, is_respond_spec,
}
use ambion.Room.State.{RoomState}
use ambion.Room.Types.{
  Attention, Content, PresenceChange, Seating, arrived, broadcast, changed, dismissed, left, said,
  summary, system, unseated,
}
use mathlib.Core.List.Memᴰ

-- The seats that a message is offered to: the roster, and the seat that a seating seats, which hears
-- what the room says where the seating states no attention.
pub data Offered (state : RoomState) (content : Content) (seat : Candidate) : Type 0 where
  of_roster :
      (s : Seating)
      → Memᴰ s state.roster
      → seat ≡ record { name = s.name; attention = s.attention }
      → Offered state content seat
  of_seating :
      (subject : Text) (identity : Option Text) (attention : Attention) (fixed : Option Bool)
      (preferences : Option Text)
      → content ≡ changed PresenceChange.seated subject identity (some attention) fixed preferences
      → seat ≡ record { name = subject; attention = attention }
      → Offered state content seat
  of_plain_seating :
      (subject : Text) (identity : Option Text) (fixed : Option Bool) (preferences : Option Text)
      → content ≡ changed PresenceChange.seated subject identity none fixed preferences
      → seat ≡ record { name = subject; attention = broadcast }
      → Offered state content seat

pub Offered-candidates :
    (state : RoomState) (content : Content) (seat : Candidate)
    → Offered state content seat
    → Memᴰ seat (candidates state content)
unfolding candidates
Offered-candidates state content seat (of_roster s there same) =
    Memᴰ.append_left (newcomer content)
      (subst (λ c. Memᴰ c (map candidate state.roster)) (sym same) (Memᴰ.map candidate there))
Offered-candidates state content seat
      (of_seating subject identity attention fixed preferences e same) =
    Memᴰ.append_right (map candidate state.roster)
      (subst (λ c. Memᴰ seat (newcomer c)) (sym e) (Memᴰ.head same))
Offered-candidates state content seat (of_plain_seating subject identity fixed preferences e same) =
    Memᴰ.append_right (map candidate state.roster)
      (subst (λ c. Memᴰ seat (newcomer c)) (sym e) (Memᴰ.head same))

newcomer-Offered :
    (state : RoomState) (content : Content) (seat : Candidate)
    → Memᴰ seat (newcomer content)
    → Offered state content seat
newcomer-Offered state (said to text refs delay_seconds) seat m = absurd (Memᴰ.not-nil m)
newcomer-Offered state (system to text refs returns) seat m = absurd (Memᴰ.not-nil m)
newcomer-Offered state (summary to text refs covers_from covers_through) seat m =
    absurd (Memᴰ.not-nil m)
newcomer-Offered state (dismissed say) seat m = absurd (Memᴰ.not-nil m)
newcomer-Offered state (changed arrived subject identity attention fixed preferences) seat m =
    absurd (Memᴰ.not-nil m)
newcomer-Offered state (changed left subject identity attention fixed preferences) seat m =
    absurd (Memᴰ.not-nil m)
newcomer-Offered state (changed unseated subject identity attention fixed preferences) seat m =
    absurd (Memᴰ.not-nil m)
newcomer-Offered state
      (changed PresenceChange.seated subject identity (some attention) fixed preferences) seat m =
    elim (Memᴰ.cases_cons m) [
      | inl same ↦ of_seating subject identity attention fixed preferences refl same
      | inr nothing ↦ absurd (Memᴰ.not-nil nothing)
    ]
newcomer-Offered state (changed PresenceChange.seated subject identity none fixed preferences) seat
      m =
    elim (Memᴰ.cases_cons m) [
      | inl same ↦ of_plain_seating subject identity fixed preferences refl same
      | inr nothing ↦ absurd (Memᴰ.not-nil nothing)
    ]

pub candidates-Offered :
    (state : RoomState) (content : Content) (seat : Candidate)
    → Memᴰ seat (candidates state content)
    → Offered state content seat
unfolding candidates
candidates-Offered state content seat m = elim (Memᴰ.append_cases (map candidate state.roster) m) [
  | inl old ↦
      let (s, there, same) = Memᴰ.of_map candidate state.roster old in of_roster s there (sym same)
  | inr new ↦ newcomer-Offered state content seat new
]

-- A seat that a live activation for a message keeps at work; work on a summary does not.
pub record Busy (state : RoomState) (live : Seats) (name : Text) : Type 0 where
  pub ids : List Text
  pub at : get live name ≡ some ids
  pub id : Text
  pub one : Memᴰ id ids
  pub spec : ActivationSpec
  pub activation : activation_spec id state ≡ some spec
  pub answered : ℕ
  pub answers_it : spec.purpose ≡ responds answered

pub Busy-holds_ordinary :
    (state : RoomState) (live : Seats) (name : Text)
    → Busy state live name
    → holds_ordinary state (get live name) ≡ true
unfolding holds_ordinary
Busy-holds_ordinary state live name busy = rw busy.at (
    any_complete (λ id. is_respond_spec (activation_spec id state)) busy.one
      (rw (busy.activation, busy.answers_it) refl))

respond_purpose :
    (purpose : ActivationPurpose)
    → (elim purpose [ responds m ↦ true | summarizes exchange person through people ↦ false ]
        ≡ true)
    → (m : ℕ) × (purpose ≡ responds m)
respond_purpose (responds m) h = (m, refl)
respond_purpose (summarizes exchange person through people) h = absurd (cc)

respond_spec :
    (o : Option ActivationSpec)
    → is_respond_spec o ≡ true
    → (spec : ActivationSpec) × (o ≡ some spec) × (m : ℕ) × (spec.purpose ≡ responds m)
respond_spec none h = absurd (cc)
respond_spec (some spec) h =
    let (m, purpose) = respond_purpose spec.purpose h in (spec, refl, m, purpose)

pub holds_ordinary-Busy :
    (state : RoomState) (live : Seats) (name : Text)
    → holds_ordinary state (get live name) ≡ true
    → Busy state live name
unfolding holds_ordinary
holds_ordinary-Busy state live name h = elim (Option-cases (get live name)) [
  | inl n ↦ absurd (let w = rw n at h in cc)
  | inr (ids, at) ↦
      let respond = λ (id : Text). is_respond_spec (activation_spec id state) in
      let (id, there, answers) = any_sound respond ids (rw at at h) in
      let (spec, found, m, purpose) = respond_spec (activation_spec id state) answers in
      record {
        ids = ids;
        at = at;
        id = id;
        one = there;
        spec = spec;
        activation = found;
        answered = m;
        answers_it = purpose;
      }
]
