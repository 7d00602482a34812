-- ===== src/Room/Completion.antt =====
-- packages/ambion/src/room/exchange.ts: the summary of a closed exchange, and how it stands.
use ambion.Common.{
  Bool, List, Option, Text, [], false, filter, find, leb, none, not, some, true, ℕ, ◌&&◌,
}
use ambion.Room.Activation.{removed_after}
use ambion.Room.Fold.{same_as}
use ambion.Room.Rules.Exchanges.{
  covers_exchange, is_said, spoken_by, survives_cancellation, opening_question,
}
use ambion.Room.Rules.Grants.{summarizes_close}
use ambion.Room.Rules.Summaries.{SummaryVerdict, pending, silent, summary_verdict}
use ambion.Room.Scheduled.{has_value}
use ambion.Room.Types.{Content, ExchangeRef, Message, RuleLease, summary}

abbrev from_writer : Option Text → Option Text → Bool
from_writer none author = true
from_writer (some writer) author = same_as author writer

abbrev pub covers_content : Content → Text → ℕ → ℕ → Bool
covers_content (summary to text refs covers_from covers_through) person from through =
    covers_exchange to covers_from covers_through person from through
covers_content _ person from through = false

unfoldable pub covers_for : Option Text → Text → ℕ → ℕ → Message → Bool
covers_for writer person from through m =
    covers_content m.content person from through && from_writer writer m.from

unfoldable pub covering_summary : List Message → Text → ℕ → ℕ → Option Text → Option Message
covering_summary messages person from through writer =
    find (covers_for writer person from through) messages

unfoldable pub summary_leases_of : List RuleLease → ℕ → Option Text → List RuleLease
summary_leases_of leases through none = []
summary_leases_of leases through (some writer) =
    filter (λ lease. summarizes_close lease.activation through writer) leases

-- A close, as the completion reads it: a writer comes with the person that it writes for.
pub record SummaryClose : Type 0 where
  pub from : ℕ
  pub through : ℕ
  pub owes : Option (Text × Text)

pub data Completion : Type 0 where
  published : Message → Completion
  -- with the writer while the summary is still owed
  pending_summary : Option Text → Completion
  silent_summary failed_summary : Completion

abbrev writer_of_close : Option (Text × Text) → Option Text
writer_of_close none = none
writer_of_close (some (person, writer)) = some writer

abbrev published_for : Option (Text × Text) → SummaryClose → List Message → Option Message
published_for none close messages = none
published_for (some (person, writer)) close messages =
    covering_summary messages person close.from close.through (some writer)

abbrev removed_writer : Option Text → List Message → ℕ → Bool
removed_writer none messages through = false
removed_writer (some writer) messages through = removed_after messages writer through

abbrev of_verdict : SummaryVerdict → Option Text → Completion
of_verdict (pending true) writer = pending_summary writer
of_verdict (pending false) writer = pending_summary none
of_verdict silent writer = silent_summary
of_verdict SummaryVerdict.failure writer = failed_summary

unfoldable pub verdict_of : SummaryClose → List Message → List RuleLease → Option ℕ → SummaryVerdict
verdict_of close messages leases cancelled_at =
    let writer = writer_of_close close.owes in
    summary_verdict (has_value writer) (removed_writer writer messages close.through)
      (summary_leases_of leases close.through writer)
      (not (survives_cancellation close.through cancelled_at))

abbrev completion_with :
    Option Message → SummaryClose → List Message → List RuleLease → Option ℕ → Completion
completion_with (some m) close messages leases cancelled_at = published m
completion_with none close messages leases cancelled_at =
    of_verdict (verdict_of close messages leases cancelled_at) (writer_of_close close.owes)

unfoldable pub summary_completion :
    SummaryClose → List Message → List RuleLease → Option ℕ → Completion
summary_completion close messages leases cancelled_at =
    completion_with (published_for close.owes close messages) close messages leases cancelled_at

-- The first person who spoke at or after the question.
abbrev pub speaks_from : List Text → ℕ → Message → Bool
speaks_from people seq m = leb seq m.seq && is_said m.content && spoken_by people m.from

abbrev pub author_of : Option Message → Option Text
author_of none = none
author_of (some m) = m.from

unfoldable pub first_speaker : List Message → List Text → ℕ → Option Text
first_speaker messages people seq = author_of (find (speaks_from people seq) messages)

abbrev exchange_from : Option Message → List Message → List Text → Option ExchangeRef
exchange_from none messages people = none
exchange_from (some question) messages people = some (record {
  person = first_speaker messages people question.seq;
  from = question.seq;
  at = question.at;
})

-- The open exchange after a boundary.
unfoldable pub exchange_after : List Message → List Text → ℕ → Option ExchangeRef
exchange_after messages people closed_through =
    exchange_from (opening_question messages people closed_through) messages people
