-- ===== src/Room/Seats.antt =====
-- The leases of a room as its decisions move them: packages/ambion/src/room/transition.ts decides
-- each change on the facts of its moment, and lease.ts applies it. Time only goes forward.
pub mod Bounded
pub mod Admitted
pub mod Stopped
pub mod Holders
use ambion.Room.Fold.{Leases}
use ambion.Common.{List, Option, Text, [], some, true, ℕ, ◌≡◌, ◌≤◌}
use ambion.Common.Maps.{text_key, get}
use ambion.Room.Activation.{seat_of}
use ambion.Room.Decide.{LeaseEnding, RunCommand, change_entry, end_lease, release_lease, run_lease}
use ambion.Room.Fold.{apply_lease, cancel_leases}
use ambion.Room.Rules.Leases.{is_live}
use ambion.Room.State.{RoomState}
use ambion.Room.Types.{Change, RuleLease}

-- Two live leases of one seat are one lease.
abbrev pub Exclusive : List (Text × RuleLease) → ℕ → Type 0
Exclusive leases now =
    (i j : Text) (l m : RuleLease) (seat : Text)
    → get leases i ≡ some l
    → get leases j ≡ some m
    → is_live l now ≡ true
    → is_live m now ≡ true
    → seat_of i ≡ some seat
    → seat_of j ≡ some seat
    → i ≡ j

-- No lease but the one of an id is live at the seat of that id.
abbrev pub Alone : List (Text × RuleLease) → Text → ℕ → Type 0
Alone leases id now =
    (j : Text) (m : RuleLease) (seat : Text)
    → get leases j ≡ some m
    → is_live m now ≡ true
    → seat_of id ≡ some seat
    → seat_of j ≡ some seat
    → id ≡ j

module _ (iso : ℕ → Text) (parse : Text → Option ℕ) where
  -- One step: a decision on facts that hold these leases, with the entry that it wrote applied, a
  -- cancellation, or time that passes.
  pub data Step : List (Text × RuleLease) → ℕ → List (Text × RuleLease) → ℕ → Type 0 where
    runs_lease :
        {leases : List (Text × RuleLease)} {now : ℕ} (state : RoomState) (command : RunCommand)
        (change : Change) (seq : ℕ)
        → state.leases ≡ leases
        → run_lease iso parse state command now ≡ change_entry change
        → Step leases now (apply_lease leases change seq) now
    ends_lease :
        {leases : List (Text × RuleLease)} {now : ℕ} (state : RoomState) (command : LeaseEnding)
        (change : Change) (seq : ℕ)
        → state.leases ≡ leases
        → end_lease iso parse state command now ≡ change_entry change
        → Step leases now (apply_lease leases change seq) now
    releases_lease :
        {leases : List (Text × RuleLease)} {now : ℕ} (state : RoomState) (command : LeaseEnding)
        (change : Change) (seq : ℕ)
        → state.leases ≡ leases
        → release_lease iso parse state command now ≡ change_entry change
        → Step leases now (apply_lease leases change seq) now
    cancels :
        {leases : List (Text × RuleLease)} {now : ℕ} (seq : ℕ) (at : Text)
        → Step leases now (cancel_leases leases seq at) now
    waits :
        {leases : List (Text × RuleLease)} {now later : ℕ}
        → now ≤ later
        → Step leases now leases later

  -- The leases that a room without leases comes to.
  pub data Reached : List (Text × RuleLease) → ℕ → Type 0 where
    begins : (now : ℕ) → Reached [] now
    goes_on :
        {leases next : List (Text × RuleLease)} {now later : ℕ}
        → Reached leases now
        → Step leases now next later
        → Reached next later
