-- ===== src/Journal/Writer.antt =====
-- packages/journal/src/journal.ts, the class `Journal`: its state, the read of the storage and the
-- append of one entry.
use ambion.Common.{
  ℕ, suc, Bool, true, false, not, Option, none, some, List, [], ◌∷◌, ◌++◌, filter, Text, text_eq,
  leb, ltb, if◌then◌else◌,
}
use ambion.Common.Maps.{get, set, text_key}
use ambion.Journal.Json.{Value, is_json}
use ambion.Journal.Result.{
  Failure, Result, ok, err, is_superseded, is_closed, fence_held, record_moved, key_conflict,
  no_decision, journal_full, not_json, rejected, turned_down,
}
use ambion.Journal.Rules.{
  Fence, Seen, Keyed, replay, conflict, next_seq, advance_seq, scanned, fence_step, keyed, writable,
}
use ambion.Journal.Entry.{Entry, Stored, object, Vocabulary, last_seq, writer_of, beside, entry_of}
use ambion.Journal.Storage.{StoredEntry, JournalRead, Store, read_after, append_at}

-- What the journal took from the storage, and how far it read.
pub record Replica : Type 0 where
  pub cache : List Entry
  pub sequence : ℕ
  pub by_key : List (Text × Entry)
  pub cursor : ℕ
  pub fence : Fence

-- `heard` lists the calls of `hear` in order, and `lost_calls` counts those of `lost`.
pub record Journal : Type 0 where
  pub replica : Replica
  pub open replica use *
  pub closed : Bool
  pub replayed : Bool
  pub heard : List Entry
  pub lost_calls : ℕ

abbrev pub blank : Journal
blank = record {
  replica = record {
    cache = [];
    sequence = 0;
    by_key = [];
    cursor = 0;
    fence = record { fence = none; fenced = false; superseded = false };
  };
  closed = false;
  replayed = false;
  heard = [];
  lost_calls = 0;
}

unfoldable pub index : List (Text × Entry) → Entry → List (Text × Entry)
index m entry = elim entry.key [ none ↦ m | some key ↦ set m key entry ]

unfoldable pub remember : Journal → Entry → Journal
unfolding index
remember j entry = record j {
  replica = record j.replica {
    cache = j.cache ++ entry ∷ [];
    sequence = advance_seq j.sequence entry.seq;
    by_key = index j.by_key entry;
  };
  heard = if j.replayed then j.heard ++ entry ∷ [] else j.heard;
}

unfoldable pub close : Journal → Journal
close j = record j { closed = true }

-- `entries.sort((a, b) => a.position - b.position)`, which is stable
unfoldable pub insert_entry : StoredEntry → List StoredEntry → List StoredEntry
insert_entry e [] = e ∷ []
insert_entry e (x ∷ xs) =
    let rest = insert_entry e xs in if leb e.position x.position then e ∷ x ∷ xs else x ∷ rest

unfoldable pub sort_entries : List StoredEntry → List StoredEntry
unfolding insert_entry
sort_entries [] = []
sort_entries (e ∷ es) = insert_entry e (sort_entries es)

-- What a caller proposes from the journal that has recovered.
pub data Proposal (R : Type 0) : Type 0 where
  proposed : Value → Proposal R
  answer : R → Proposal R
  neither : Proposal R

pub record Intent (R : Type 0) : Type 0 where
  pub key : Option Text
  pub decide : Journal → Proposal R

-- What an append comes to. `drafted` is the entry that the append hands to the storage.
pub data Landing (R : Type 0) : Type 0 where
  landed : Entry → Landing R
  returned : R → Landing R
  failed : Failure → Landing R
  drafted : Stored → Landing R

unfoldable pub seen_of : Option Entry → Option Seen
seen_of none = none
seen_of (some e) = some (record { kind = e.kind; run = e.run })

unfoldable pub lookup_key : List (Text × Entry) → Option Text → Option Entry
lookup_key m none = none
lookup_key m (some key) = get m key

-- The end of `read`: a read that did not fail passes every position that the storage scanned.
unfoldable pub finish_read : ℕ → Option Failure × Journal → Option Failure × Journal
finish_read position (some f, j) = (some f, j)
finish_read position (none, j) =
    (none, record j { replica = record j.replica { cursor = scanned j.cursor position } })

module _ (words : Vocabulary) (run : Option Text) where
  unfoldable pub take : Journal → Entry → Option Text → Journal
  unfolding remember
  take j entry written =
      let passed = fence_step j.fence run (text_eq entry.kind words.run) written in
      let noted : Journal = record j {
        replica = record j.replica { fence = passed.state };
        lost_calls = if passed.lost then suc j.lost_calls else j.lost_calls;
      } in
      if passed.keep then remember noted entry else noted

  -- One round of the loop of `read`: a malformed entry fails before the cursor passes it.
  unfoldable pub pass_known : Journal → ℕ → Result (Option Entry) → Option Text → Result Journal
  pass_known j position (err f) written = err f
  pass_known j position (ok none) written =
      ok (record j { replica = record j.replica { cursor = scanned j.cursor position } })
  pass_known j position (ok (some known)) written = ok (
      take (record j { replica = record j.replica { cursor = scanned j.cursor position } }) known
        written)

  unfoldable pub read_one : Journal → StoredEntry → Result Journal
  unfolding pass_known
  read_one j e = pass_known j e.position (entry_of words e.entry) (writer_of e.entry)

  unfoldable pub read_entries : Journal → List StoredEntry → Option Failure × Journal
  read_entries j [] = (none, j)
  read_entries j (e ∷ es) = elim (read_one j e) [ err f ↦ (some f, j) | ok j' ↦ read_entries j' es ]

  unfoldable pub read : Journal → JournalRead → Option Failure × Journal
  unfolding finish_read
  read j found =
      finish_read found.position
        (read_entries j (sort_entries (filter (λ e. ltb j.cursor e.position) found.entries)))

  unfoldable pub refuse : Journal → Bool → Option Failure
  refuse j is_run =
      if writable j.closed j.fence run is_run
      then none
      else if j.fence.superseded
      then some is_superseded
      else if j.closed
      then some is_closed
      else some fence_held

  module _ {R : Type 0} where
    unfoldable pub draft : Journal → Text → Option Text → Value → Landing R
    draft j kind key body =
        let stored = beside kind body (next_seq j.sequence) key run in
        if leb last_seq j.sequence
        then failed (journal_full j.sequence)
        else if not (is_json body)
        then failed (not_json kind)
        else elim (entry_of words (object stored)) [
          | err f ↦ failed f
          | ok none ↦ failed (rejected kind)
          | ok (some _) ↦ drafted stored
        ]

    unfoldable pub on_proposal : Proposal R → Journal → Text → Option Text → Landing R
    unfolding draft
    on_proposal neither j kind key = failed no_decision
    on_proposal (answer r) j kind key = returned r
    on_proposal (proposed body) j kind key = draft j kind key body

    unfoldable pub propose : Journal → Text → Intent R → Landing R
    unfolding on_proposal
    propose j kind intent = on_proposal (intent.decide j) j kind intent.key

    unfoldable pub on_key : Keyed → Option Entry → Journal → Text → Intent R → Landing R
    unfolding propose
    on_key conflict (some seen) j kind intent = failed (key_conflict seen.kind seen.seq)
    on_key replay (some seen) j kind intent = landed seen
    on_key _ _ j kind intent = propose j kind intent

    -- The part of `land` between the read and the append: it waits on nothing.
    unfoldable pub prepare : Journal → Text → Intent R → Landing R
    unfolding on_key lookup_key seen_of
    prepare j kind intent =
        let seen = lookup_key j.by_key intent.key in
        on_key (keyed (seen_of seen) kind words.run run) seen j kind intent

    -- `took`: one entry that this journal appended, into the cache.
    unfoldable pub on_took :
        Result (Option Entry) → Journal → Option Text → Text → Landing R × Journal
    on_took (err f) j written kind = (failed f, j)
    on_took (ok none) j written kind = (failed (turned_down kind), j)
    on_took (ok (some entry)) j written kind = (landed entry, take j entry written)

    unfoldable pub took : Journal → StoredEntry → Text → Landing R × Journal
    unfolding on_took
    took j stored kind = on_took (entry_of words stored.entry) j (writer_of stored.entry) kind

    unfoldable pub settle :
        Option StoredEntry × Store → Journal → Text → Landing R × Journal × Store
    settle (none, store) j kind = (failed record_moved, j, store)
    settle (some at, store) j kind =
        let (out, j') =
          took (record j { replica = record j.replica { cursor = at.position } }) at kind in
        (out, j', store)

    -- `persist`, `landed` and the rest of `land`, on the store as it is when the append arrives.
    unfoldable pub persist : Journal → Stored → Text → Store → Landing R × Journal × Store
    persist j stored kind store = settle (append_at store (object stored) j.cursor) j kind

    -- The branch that `prepare` chose. Only a draft reaches the storage; every other branch gives back
    -- the store that the read saw.
    unfoldable pub act : Landing R → Journal → Text → Store → Store → Landing R × Journal × Store
    unfolding persist
    act (drafted stored) j kind store later = persist j stored kind later
    act other j kind store later = (other, j, store)

    unfoldable pub resume :
        Option Failure × Journal → Text → Intent R → Store → Store → Landing R × Journal × Store
    unfolding act prepare refuse
    resume (some f, j) kind intent store later = (failed f, j, store)
    resume (none, j) kind intent store later = elim (refuse j (text_eq kind words.run)) [
      | some f ↦ (failed f, j, store)
      | none ↦ act (prepare j kind intent) j kind store later
    ]

    -- `land` with `open`: `closing` says whether `close` ran while the read waited, and `later` is
    -- the store when the append arrives, with what other writers appended since the read.
    unfoldable pub land :
        Journal → Text → Intent R → Bool → Store → Store → Landing R × Journal × Store
    unfolding resume refuse close read
    land j kind intent closing store later =
        let j1 = if closing then close j else j in
        elim (refuse j (text_eq kind words.run)) [
          | some f ↦ (failed f, j, store)
          | none ↦ resume (read j1 (read_after store j1.cursor)) kind intent store later
        ]
