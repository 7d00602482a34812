-- ===== src/Room/Rules/Grants.antt =====
-- packages/ambion/src/room/rules.verified.ts: what a decoded activation id grants.
use ambion.Common.{
  ℕ, Bool, true, false, not, ◌&&◌, Option, none, some, List, Text, length, text_eq, leb, ◌==◌, find,
  if◌then◌else◌,
}
use ambion.Room.Types.{Source, message, closed, ActivationFields}
use ambion.Room.Rules.Leases.{next_attempt}
use ambion.Room.Rules.Exchanges.{survives_cancellation}

-- A close that owes a summary, as the closing grant reads it.
pub record CloseFact : Type 0 where
  pub person : Text
  pub from : ℕ
  pub through : ℕ
  pub summary_writer : Option Text

pub data GrantPurpose : Type 0 where
  respond : (message : ℕ) → GrantPurpose
  summarize : (exchange : ℕ) (person : Text) (through : ℕ) → GrantPurpose

pub record Grant : Type 0 where
  pub seat : Text
  pub attempt : ℕ
  pub purpose : GrantPurpose

unfoldable pub well_formed : ActivationFields → Bool
well_formed id = leb 1 id.position && leb 1 id.attempt && leb 1 (length id.seat)

unfoldable pub next_activation_id : Source → ℕ → Text → ℕ → ActivationFields
unfolding next_attempt
next_activation_id source position seat unsuccessful_attempts = record {
  source = source;
  position = position;
  seat = seat;
  attempt = next_attempt unsuccessful_attempts;
}

unfoldable pub names : Option Text → Text → Bool
names none writer = false
names (some summary) writer = text_eq summary writer

unfoldable pub close_matches : CloseFact → ℕ → Text → Bool
close_matches close through writer = close.through == through && names close.summary_writer writer

unfoldable pub close_for : List CloseFact → ℕ → Text → Option CloseFact
close_for closes through writer = find (λ close. close_matches close through writer) closes

abbrev pub grant_of : Source → ActivationFields → Bool → Option CloseFact → Option Grant
grant_of message id recorded close =
    if not recorded
    then none
    else some (record { seat = id.seat; attempt = id.attempt; purpose = respond id.position })
grant_of closed id recorded none = none
grant_of closed id recorded (some close) = some (record {
  seat = id.seat;
  attempt = id.attempt;
  purpose = summarize close.from close.person close.through;
})

unfoldable pub activation_grant :
    ActivationFields → Option ℕ → Bool → Bool → Bool → Option CloseFact → Option Grant
activation_grant id cancelled_at seated removed recorded close =
    if not (survives_cancellation id.position cancelled_at)
    then none
    else if not seated
    then none
    else if removed
    then none
    else grant_of id.source id recorded close

abbrev pub is_closed_source : Source → Bool
is_closed_source message = false
is_closed_source closed = true

unfoldable pub summarizes_close : ActivationFields → ℕ → Text → Bool
summarizes_close id through writer =
    is_closed_source id.source && id.position == through && text_eq id.seat writer
