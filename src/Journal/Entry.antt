-- ===== src/Journal/Entry.antt =====
-- packages/journal/src/journal.ts: one entry, the native form that storage holds, and the reading
-- of stored data.
use ambion.Common.{ℕ, ◌-◌, ◌^◌, Option, none, some, Text, leb, if◌then◌else◌}
use ambion.Journal.Json.{Value, undefined, text, whole, opaque}
use ambion.Journal.Result.{Result, ok, err, unreadable_body, malformed_body, no_valid_seq, ◌>>=◌}

-- One entry of the journal.
pub record Entry : Type 0 where
  pub kind : Text
  pub body : Value
  pub seq : ℕ
  pub key : Option Text
  pub run : Option Text

-- The fields that the storage holds; an absent field is `undefined`.
pub record Stored : Type 0 where
  pub kind : Value
  pub body : Value
  pub seq : Value
  pub key : Value
  pub run : Value

-- A value out of the storage: an object with those fields, or no object.
pub data Raw : Type 0 where
  object : Stored → Raw
  no_object : Raw

-- What the caller's `accepts` answers: it takes the body, it does not know the kind, or it throws.
pub data Verdict : Type 0 where
  takes foreign malformed : Verdict

pub record Vocabulary : Type 0 where
  pub run : Text
  pub accepts : Text → Value → Verdict

-- `typeof value === 'string' ? value : undefined`
unfoldable pub text_of : Value → Option Text
text_of (text s) = some s
text_of _ = none

abbrev pub max_safe_integer : ℕ
max_safe_integer = 2 ^ 53 - 1

abbrev pub last_seq : ℕ
last_seq = max_safe_integer - 1

unfoldable pub seq_of : Value → Option ℕ
seq_of (whole n) = if leb n last_seq then some n else none
seq_of _ = none

unfoldable pub writer_of : Raw → Option Text
unfolding text_of
writer_of (object stored) = text_of stored.run
writer_of no_object = none

-- A body in the storage is JSON, or it is absent: the copy of JSON is the value itself, and there
-- is no copy of an absent value.
unfoldable pub detached : Value → Result Value
detached undefined = err unreadable_body
detached opaque = err unreadable_body
detached v = ok v

abbrev pub optional : Option Text → Value
optional none = undefined
optional (some s) = text s

unfoldable pub beside : Text → Value → ℕ → Option Text → Option Text → Stored
beside kind body seq key run = record {
  kind = text kind;
  body = body;
  seq = whole seq;
  key = optional key;
  run = optional run;
}

-- A known kind needs a place on the record.
unfoldable pub place_of : Text → Stored → Value → Result (Option Entry)
unfolding seq_of text_of
place_of kind stored body = elim (seq_of stored.seq) [
  | none ↦ err (no_valid_seq kind)
  | some seq ↦ ok (
      some (record {
        kind = kind;
        body = body;
        seq = seq;
        key = text_of stored.key;
        run = text_of stored.run;
      }))
]

unfoldable pub judge : Verdict → Text → Stored → Value → Result (Option Entry)
unfolding place_of
judge takes kind stored body = place_of kind stored body
judge foreign kind stored body = ok none
judge malformed kind stored body = err (malformed_body kind)

unfoldable pub entry_of : Vocabulary → Raw → Result (Option Entry)
unfolding judge detached text_of
entry_of words no_object = ok none
entry_of words (object stored) = elim (text_of stored.kind) [
  | none ↦ ok none
  | some kind ↦ do
    candidate ← detached stored.body
    judge (words.accepts kind candidate) kind stored candidate
]
