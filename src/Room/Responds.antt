-- ===== src/Room/Responds.antt =====
-- packages/ambion/src/room/responds.ts: the wakes that are still open. `none` stands for a throw.
use ambion.Common.{
  Bool, List, Option, Text, [], filter, if◌then◌else◌, map, none, not, some, text_eq, ℕ, ◌++◌, ◌∷◌,
}
use ambion.Common.Maps.{text_key, get, values}
use ambion.Room.Fold.{distinct}
use ambion.Room.Owed.{leases_or_none}
use ambion.Room.Reconcile.{due_of}
use ambion.Room.Rules.Exchanges.{includes}
use ambion.Room.Rules.Leases.{covers_attempt, is_ended}
use ambion.Room.Rules.Wakes.{wake_answered}
use ambion.Room.State.{DueActivation, MessageRecipients}
use ambion.Room.Types.{Message, RuleLease}

-- A wake that is pending, or one that a running lease answers while it runs.
pub data OpenRespond : Type 0 where
  pending_wake : (due : DueActivation) (at : Text) → OpenRespond
  held_wake : (seat : Text) (position : ℕ) (at : Text) → OpenRespond

abbrev pub wake_seat : OpenRespond → Text
wake_seat (pending_wake due at) = due.seat
wake_seat (held_wake seat position at) = seat

abbrev pub wake_position : OpenRespond → ℕ
wake_position (pending_wake due at) = due.position
wake_position (held_wake seat position at) = position

abbrev pub wake_at : OpenRespond → Text
wake_at (pending_wake due at) = at
wake_at (held_wake seat position at) = at

-- The leases of each seat that a wake claims.
abbrev pub SeatLeases : Type 0
SeatLeases = List (Text × List (Text × RuleLease))

unfoldable pub covering : Option (List (Text × RuleLease)) → ℕ → List RuleLease
covering leases seq = filter (λ lease. covers_attempt lease seq) (values (leases_or_none leases))

abbrev is_ended_lease : RuleLease → Bool
is_ended_lease lease = is_ended lease.state

module _ (parse : Text → Option ℕ) (backoff : ℕ → ℕ) where
  abbrev judged_wake :
      Option (Option DueActivation) → Text → ℕ → Text → List RuleLease → Option (Option OpenRespond)
  judged_wake none seat seq at attempts = none
  judged_wake (some (some due)) seat seq at attempts = some (some (pending_wake due at))
  judged_wake (some none) seat seq at attempts =
      if wake_answered (filter is_ended_lease attempts) seq
      then some none
      else some (some (held_wake seat seq at))

  -- The wake of one seat, or nothing when an ended lease answered it for good.
  unfoldable pub judge_wake :
      Text → ℕ → Text → Option (List (Text × RuleLease)) → Option (Option OpenRespond)
  judge_wake seat seq at leases =
      let attempts = covering leases seq in
      judged_wake (due_of parse seq seat attempts backoff) seat seq at attempts

  abbrev and_wakes :
      Option (Option OpenRespond) → Option (List OpenRespond) → Option (List OpenRespond)
  and_wakes none rest = none
  and_wakes (some none) rest = rest
  and_wakes (some (some wake)) none = none
  and_wakes (some (some wake)) (some rest) = some (wake ∷ rest)

  unfoldable pub judge_seats : List Text → ℕ → Text → SeatLeases → Option (List OpenRespond)
  judge_seats [] seq at leases = some []
  judge_seats (seat ∷ seats) seq at leases =
      and_wakes (judge_wake seat seq at (get leases seat)) (judge_seats seats seq at leases)

  -- The wakes that one message opens, in the order of its recipients.
  unfoldable pub responds_of : Message → MessageRecipients → SeatLeases → Option (List OpenRespond)
  responds_of m delivery leases =
      judge_seats (distinct (delivery.wakes ++ map (λ s. s.seat) delivery.steers)) m.seq m.at leases

  -- Every wake of one seat, judged again.
  unfoldable pub rejudge_seat :
      List OpenRespond → Text → Option (List (Text × RuleLease)) → Option (List OpenRespond)
  rejudge_seat [] seat leases = some []
  rejudge_seat (wake ∷ wakes) seat leases =
      let next =
        if text_eq (wake_seat wake) seat
        then judge_wake seat (wake_position wake) (wake_at wake) leases
        else some (some wake) in
      and_wakes next (rejudge_seat wakes seat leases)

unfoldable pub drop_seat : List OpenRespond → Text → List OpenRespond
drop_seat wakes seat = filter (λ wake. not (text_eq (wake_seat wake) seat)) wakes

abbrev due_wake : OpenRespond → List Text → List DueActivation
due_wake (pending_wake due at) roster = if includes roster due.seat then due ∷ [] else []
due_wake (held_wake seat position at) roster = []

-- The wakes that are pending for the seats of the roster, in the order in which they opened.
unfoldable pub due_responds_of : List OpenRespond → List Text → List DueActivation
due_responds_of [] roster = []
due_responds_of (wake ∷ wakes) roster = due_wake wake roster ++ due_responds_of wakes roster
