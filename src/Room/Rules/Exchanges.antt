-- ===== src/Room/Rules/Exchanges.antt =====
-- packages/ambion/src/room/rules.verified.ts: the exchange, from its question to its close.
use ambion.Common.{
  ℕ, Bool, true, false, not, ◌&&◌, ◌||◌, Option, none, some, List, Text, text_eq, leb, ltb, ◌==◌,
  any, find, if◌then◌else◌,
}
use ambion.Room.Types.{Source, message, closed, RuleLease, Content, said, system, Message}
use ambion.Room.Rules.Leases.{is_live}

-- The open exchange, as the close admission reads it.
pub record OpenExchange : Type 0 where
  pub from : ℕ

-- A close, as the close admission reads it.
pub record CloseRef : Type 0 where
  pub from : ℕ
  pub through : ℕ

pub data CloseAdmission : Type 0 where
  admitted obsolete replan : CloseAdmission

unfoldable pub close_admission : Option OpenExchange → CloseRef → ℕ → Bool → CloseAdmission
close_admission none close last_seq exchange_live = obsolete
close_admission (some open_exchange) close last_seq exchange_live =
    if not (open_exchange.from == close.from)
    then obsolete
    else if not (close.through == last_seq) || exchange_live
    then replan
    else admitted

unfoldable pub covers_close : ℕ → ℕ → ℕ → ℕ → Bool
covers_close summary_from summary_through close_from close_through =
    leb summary_from close_from && leb close_through summary_through

unfoldable pub covers_exchange : Text → ℕ → ℕ → Text → ℕ → ℕ → Bool
unfolding covers_close
covers_exchange summary_to summary_from summary_through person from through =
    text_eq summary_to person && covers_close summary_from summary_through from through

unfoldable pub survives_cancellation : ℕ → Option ℕ → Bool
survives_cancellation position none = true
survives_cancellation position (some cancelled_at) = not (ltb position cancelled_at)

pub data OutcomeKind : Type 0 where
  complete cancelled exhausted awaiting : OutcomeKind

unfoldable pub exchange_outcome : Bool → Bool → Bool → OutcomeKind
exchange_outcome is_cancelled is_exhausted is_awaiting =
    if is_cancelled
    then cancelled
    else if is_exhausted
    then exhausted
    else if is_awaiting
    then awaiting
    else complete

-- An activation the room owes, as the liveness rules read it.
pub record OwedActivation : Type 0 where
  pub source : Source
  pub seat : Text

unfoldable pub holds_exchange : Source → Bool
holds_exchange message = true
holds_exchange closed = false

unfoldable pub exchange_live : List RuleLease → List OwedActivation → ℕ → Bool
exchange_live leases due now =
    any (λ lease. is_live lease now && holds_exchange lease.activation.source) leases
    || any (λ owed. holds_exchange owed.source) due

-- `list.includes(name)`
unfoldable pub includes : List Text → Text → Bool
includes names name = any (λ n. text_eq n name) names

-- `people.includes(message.from)`, where an absent author is nobody
unfoldable pub spoken_by : List Text → Option Text → Bool
spoken_by people none = false
spoken_by people (some from) = includes people from

unfoldable pub is_said : Content → Bool
is_said (said to text refs delay_seconds) = true
is_said _ = false

unfoldable pub reports : Message → List Text → ℕ → ℕ → Bool
reports m people from through =
    is_said m.content && not (spoken_by people m.from) && leb from m.seq && leb m.seq through

unfoldable pub owes_summary : List Message → List Text → ℕ → ℕ → Bool
owes_summary messages people from through = any (λ m. reports m people from through) messages

abbrev pub opens_content : Content → Bool → Bool
opens_content (system to text refs returns) by_person = true
opens_content (said to text refs delay_seconds) by_person = by_person
opens_content _ by_person = false

unfoldable pub opens_exchange : Message → List Text → ℕ → Bool
opens_exchange m people closed_through =
    if leb m.seq closed_through then false else opens_content m.content (spoken_by people m.from)

unfoldable pub opening_question : List Message → List Text → ℕ → Option Message
opening_question messages people closed_through =
    find (λ m. opens_exchange m people closed_through) messages
