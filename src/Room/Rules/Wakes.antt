-- ===== src/Room/Rules/Wakes.antt =====
-- packages/ambion/src/room/rules.verified.ts: which lease answers a wake, and which attempt counts.
use ambion.Common.{ℕ, Bool, true, false, ◌&&◌, ◌||◌, List, leb, ◌==◌, any, if◌then◌else◌}
use ambion.Room.Types.{
  EndReason, failed, revoked, expired, abandoned, LeaseState, runs, ends, RuleLease,
}

unfoldable pub came_to_nothing : EndReason → Bool
came_to_nothing failed = true
came_to_nothing expired = true
came_to_nothing _ = false

abbrev pub settles_named : EndReason → Bool
settles_named abandoned = true
settles_named revoked = true
settles_named _ = false

abbrev pub answers_state : LeaseState → RuleLease → ℕ → Bool
answers_state (runs expires_at) lease seq = true
answers_state (ends reason cancelled cause until) lease seq =
    if came_to_nothing reason
    then false
    else if settles_named reason && lease.activation.position == seq
    then true
    else leb seq lease.read_through

unfoldable pub answers : RuleLease → ℕ → Bool
unfolding came_to_nothing
answers lease seq = answers_state lease.state lease seq

unfoldable pub wake_answered : List RuleLease → ℕ → Bool
wake_answered taken seq = any (λ lease. answers lease seq) taken

abbrev pub counts_state : LeaseState → RuleLease → ℕ → Bool
counts_state (runs expires_at) lease seq = false
counts_state (ends reason cancelled cause until) lease seq =
    came_to_nothing reason || lease.activation.position == seq

unfoldable pub counts_against : RuleLease → ℕ → Bool
unfolding came_to_nothing
counts_against lease seq = counts_state lease.state lease seq
