-- ===== src/Room/History.antt =====
-- Leases through the entries of a journal: packages/ambion/src/room/fold.ts `applyEntry`, as
-- projection.ts applies it to one entry after the other.
pub mod Leases
use ambion.Common.{List, Option, Text, [], true, ℕ, ◌∷◌, ◌≡◌, ◌≤◌, some}
use ambion.Common.Maps.{text_key, get}
use ambion.Room.Rules.Leases.{is_ended}
use ambion.Room.Fold.{RoomEntry, apply_entry}
use ambion.Room.State.{BaseFacts}
use ambion.Room.Types.{ExchangeRef, RuleLease, ended}

-- One entry with its place and the exchange that was open before it.
pub record Placed : Type 0 where
  pub entry : RoomEntry
  pub seq : ℕ
  pub open_exchange : Option ExchangeRef

-- The loop over the entries.
unfoldable pub apply_all : BaseFacts → List Placed → BaseFacts
apply_all facts [] = facts
apply_all facts (p ∷ ps) = apply_all (apply_entry facts p.entry p.seq p.open_exchange) ps

-- The lease that the facts hold for an id.
abbrev pub lease_at : BaseFacts → Text → Option RuleLease
lease_at facts id = get facts.leases id

-- What stays of a lease through any entries: it keeps its cause and its first claim, its progress does not fall,
-- and once it ended nothing changes it.
pub record Continues (before after : RuleLease) : Type 0 where
  pub same_activation : after.activation ≡ before.activation
  pub same_claim : after.claimed_at ≡ before.claimed_at
  pub same_opening : after.opened_seq ≡ before.opened_seq
  pub progress : before.read_through ≤ after.read_through
  pub final : is_ended before.state ≡ true → after ≡ before

-- Each lease stands under its own id.
abbrev pub Keyed : List (Text × RuleLease) → Type 0
Keyed leases = (id : Text) (l : RuleLease) → get leases id ≡ some l → l.id ≡ id
