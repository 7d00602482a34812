-- ===== src/Room/Types.antt =====
-- The facts of a room: packages/ambion/src/types.ts, bodies.ts, journal/entries.ts and the types at
-- the head of room/rules.verified.ts. A time in milliseconds and a place on the record are natural
-- numbers, a stamp is a text, and an absent field is `none`.
use ambion.Common.{ℕ, Bool, Option, List, Text}

pub data Source : Type 0 where
  message closed : Source

-- The fields that an activation id encodes.
pub record ActivationFields : Type 0 where
  pub source : Source
  pub position : ℕ
  pub seat : Text
  pub attempt : ℕ

pub data EndReason : Type 0 where
  released failed revoked expired abandoned : EndReason

pub data FailureCause : Type 0 where
  permanent transient : FailureCause

pub data LeasePhase : Type 0 where
  running ended : LeasePhase

-- What a lease holds by its phase. `cancelled` is the marker of a lease that a cancellation ended.
pub data LeaseState : Type 0 where
  runs : (expires_at : ℕ) → LeaseState
  ends :
      (reason : EndReason) (cancelled : Bool) (cause : Option FailureCause) (until : ℕ) → LeaseState

pub record RuleLease : Type 0 where
  pub id : Text
  pub activation : ActivationFields
  pub at : Text
  pub claimed_at : Text
  pub opened_seq : ℕ
  pub read_through : ℕ
  pub state : LeaseState

pub data ChangeState : Type 0 where
  run_until : (expires_at : ℕ) → ChangeState
  end_for : (reason : EndReason) (cause : Option FailureCause) → ChangeState

-- One lease entry, as the journal records it.
pub record Change : Type 0 where
  pub id : Text
  pub at : Text
  pub read_through : ℕ
  pub state : ChangeState

pub data Attention : Type 0 where
  none_said named broadcast presence : Attention

pub data PresenceChange : Type 0 where
  arrived left seated unseated : PresenceChange

-- What the five kinds of message hold beside the fields that each one has.
pub data Content : Type 0 where
  said : (to : Option Text) (text : Text) (refs : List Text) (delay_seconds : Option ℕ) → Content
  system : (to : Option Text) (text : Text) (refs : List Text) (returns : Option ℕ) → Content
  summary : (to : Text) (text : Text) (refs : List Text) (covers_from covers_through : ℕ) → Content
  changed :
      (change : PresenceChange) (subject : Text) (identity : Option Text)
      (attention : Option Attention) (fixed : Option Bool) (preferences : Option Text)
      → Content
  dismissed : (say : ℕ) → Content

-- A message before the journal gives it a place.
pub record Body : Type 0 where
  pub from : Option Text
  pub at : Text
  pub activation : Option Text
  pub wakes : List Text
  pub content : Content

pub record Message : Type 0 where
  pub body : Body
  pub open body use *
  pub seq : ℕ

pub record Seating : Type 0 where
  pub name : Text
  pub identity : Text
  pub attention : Attention
  pub fixed : Option Bool

pub record Composition : Type 0 where
  pub seats : List Seating
  pub reserve : List Seating
  pub summary_writer : Option Text
  -- `seating === false`
  pub seating_off : Bool

pub record ExchangeRef : Type 0 where
  pub person : Option Text
  pub from : ℕ
  pub at : Text

-- A close, with the writer of the summary that it owes.
pub record Close : Type 0 where
  pub person : Option Text
  pub from : ℕ
  pub through : ℕ
  pub at : Text
  pub summary_writer : Option Text
  pub cancelled : Bool
