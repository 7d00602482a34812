-- ===== src/Room/Rules/Summaries.antt =====
-- packages/ambion/src/room/rules.verified.ts: the verdict on the summary work of one close.
use ambion.Common.{ℕ, Bool, true, false, not, ◌&&◌, List, Text, any, if◌then◌else◌}
use ambion.Room.Types.{released, revoked, abandoned, LeaseState, runs, ends, RuleLease}
use ambion.Room.Rules.Leases.{marked_cancelled}

pub data SummaryVerdict : Type 0 where
  pending : (owed : Bool) → SummaryVerdict
  silent failure : SummaryVerdict

abbrev stood_down_state : LeaseState → Bool
stood_down_state (ends released cancelled cause until) = true
stood_down_state (ends revoked cancelled cause until) = true
stood_down_state (ends abandoned cancelled cause until) = true
stood_down_state _ = false

unfoldable pub stood_down : List RuleLease → Bool
stood_down summaries = any (λ lease. stood_down_state lease.state) summaries

abbrev released_state : LeaseState → Bool
released_state (ends released cancelled cause until) = true
released_state _ = false

unfoldable pub summary_released : List RuleLease → Bool
summary_released summaries = any (λ lease. released_state lease.state) summaries

abbrev running_state : LeaseState → Bool
running_state (runs expires_at) = true
running_state (ends reason cancelled cause until) = false

unfoldable pub summary_running : List RuleLease → Bool
summary_running summaries = any (λ lease. running_state lease.state) summaries

unfoldable pub cancelled_summary : List RuleLease → Bool → Bool
cancelled_summary summaries cancelled_after_close =
    cancelled_after_close && any marked_cancelled summaries

unfoldable pub summary_verdict : Bool → Bool → List RuleLease → Bool → SummaryVerdict
summary_verdict writer_named removed_after_close summaries cancelled_after_close =
    if not writer_named
    then silent
    else if removed_after_close
    then failure
    else if cancelled_summary summaries cancelled_after_close
    then failure
    else if not (stood_down summaries) && cancelled_after_close
    then failure
    else if not (stood_down summaries)
    then pending true
    else if summary_running summaries
    then pending false
    else if summary_released summaries
    then silent
    else failure

-- What a closing commit stamps: the recipient and the covered range.
pub record Stamped : Type 0 where
  pub to : Text
  pub covers_from : ℕ
  pub covers_through : ℕ

unfoldable pub stamped_summary : Text → ℕ → ℕ → Stamped
stamped_summary person from through = record {
  to = person;
  covers_from = from;
  covers_through = through;
}
