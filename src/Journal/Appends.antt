-- ===== src/Journal/Appends.antt =====
-- What `land` comes to, over everything that other writers and `close` may do while it waits.
use ambion.Common.{
  ◌≡◌, ◌≢◌, refl, ap, sym, ◌∙◌, arith, Option, Text, [], ◌∷◌, ◌++◌, none, some, ℕ, ◌+◌,
  Option-cases, inl, inr, ◌⊎◌, Bool, true, false, text_eq, if◌then◌else◌, append-nil, subst, max,
  text_eq_iff,
}
use ambion.Journal.Entry.{Entry, Vocabulary, Stored}
use ambion.Journal.Rules.{scanned, keyed, fence_step}
use ambion.Journal.Fencing.{writable_kept}
use ambion.Journal.Writer.{
  take, index, Journal, Intent, Landing, drafted, landed, failed, returned, persist, prepare, act,
  resume, refuse, close, read, land, finish_read, lookup_key,
}
use ambion.Journal.Replay.{read_entries-nil}
use ambion.Journal.Result.{Failure, record_moved}
use ambion.Journal.Storage.{Store, read_after}
use ambion.Journal.Positions.{Rises}
use ambion.Journal.Drafts.{IsDraft, drafted_entry, prepare-IsDraft}
use ambion.Journal.Mirror.{Mirrors, read-Mirrors, read-new, read-Rises, read_replays}
use ambion.Journal.Landing.{
  Caught, Caught-Mirrors, placed_at, after_append, append-Caught, persist_fits, persist_moved,
}
use ambion.Journal.Health.{Filled}

-- A result that is not the inside of an append.
abbrev pub IsFinal : {R : Type 0} → Landing R → Type 0
IsFinal (drafted s) = ⊥
IsFinal _ = Unit

whole-Mirrors :
    (words : Vocabulary) (run : Option Text) (store : Store) (j : Journal)
    → Caught words run j store
    → Mirrors words run j store
whole-Mirrors words run store j c = record {
  old = store;
  new = [];
  head = j.cursor;
  parts = sym (append-nil store);
  behind = c.rises;
  ahead = refl;
  sound = c.sound;
  same = c.same;
}

read-Caught :
    (words : Vocabulary) (run : Option Text) (store : Store) (j : Journal)
    (m : Mirrors words run j store)
    → (read words run j (read_after store j.cursor)).0 ≡ none
    → Caught words run (read words run j (read_after store j.cursor)).1 store
read-Caught words run store j m fine = record {
  rises = (read-Rises words run j store m fine).0;
  sound = (read_replays words run j store m fine).0;
  same = (read_replays words run j store m fine).1;
}

close-Mirrors :
    (words : Vocabulary) (run : Option Text) (store : Store) (j : Journal)
    → Mirrors words run j store
    → Mirrors words run (close j) store
unfolding close
close-Mirrors words run store j m = record {
  old = m.old;
  new = m.new;
  head = m.head;
  parts = m.parts;
  behind = m.behind;
  ahead = m.ahead;
  sound = m.sound;
  same = m.same;
}

caught_again : (j : Journal) → finish_read j.cursor (none, j) ≡ (none, j)
unfolding finish_read scanned
caught_again j =
    let same : max j.cursor j.cursor ≡ j.cursor = omega arith in
    ap (λ c. (none, record j { replica = record j.replica { cursor = c } })) same

-- A journal that has read the whole storage finds nothing new there.
read_again :
    (words : Vocabulary) (run : Option Text) (store : Store) (j : Journal)
    → Caught words run j store
    → read words run j (read_after store j.cursor) ≡ (none, j)
unfolding whole-Mirrors
read_again words run store j c =
    read-new words run j store (whole-Mirrors words run store j c)
    ∙ ap (finish_read j.cursor) (read_entries-nil words run j)
    ∙ caught_again j

module _ (words : Vocabulary) (run : Option Text) {R : Type 0} (kind : Text) (key : Option Text)
    (store extra : Store) where
  -- The append wrote nothing.
  pub record Stayed (out : Landing R × Journal × Store) : Type 0 where
    pub final : IsFinal out.0
    pub stays : out.2 ≡ store
    pub mirrors : Mirrors words run out.1 store

  -- Another writer appended first, and the append wrote nothing.
  pub record Moved (out : Landing R × Journal × Store) : Type 0 where
    pub overtaken : extra ≢ []
    pub refused : out.0 ≡ failed record_moved
    pub stays : out.2 ≡ store ++ extra
    pub mirrors : Mirrors words run out.1 (store ++ extra)

  -- The append wrote one entry next to what the journal `reader` had read.
  pub record Wrote (out : Landing R × Journal × Store) : Type 0 where
    pub alone : extra ≡ []
    pub reader : Journal
    pub stored : Stored
    pub caught : Caught words run reader store
    pub free : refuse words run reader (text_eq kind words.run) ≡ none
    pub draft : IsDraft words run reader kind key stored
    pub result : out.0 ≡ landed (drafted_entry kind draft.body (reader.sequence + 1) key run)
    pub writes : out.2 ≡ store ++ placed_at reader.cursor stored ∷ []
    pub after :
        out.1
        ≡ after_append words run reader
            (drafted_entry kind draft.body (reader.sequence + 1) key run)
    pub mirrors : Caught words run out.1 out.2

  abbrev pub Outcome : Landing R × Journal × Store → Type 0
  Outcome out = Stayed out ⊎ (Moved out ⊎ Wrote out)

  module _ (top : ℕ) where
    stayed :
        (out : Landing R) (j : Journal)
        → IsFinal out
        → Caught words run j store
        → Outcome (out, j, store)
    stayed out j final c =
        inl (record { final = final; stays = refl; mirrors = whole-Mirrors words run store j c })

    write-Outcome :
        (more : Store) (j : Journal) (stored : Stored)
        → extra ≡ more
        → IsDraft words run j kind key stored
        → Caught words run j store
        → refuse words run j (text_eq kind words.run) ≡ none
        → Rises j.cursor more top
        → Outcome (persist words run j stored kind (store ++ more))
    write-Outcome [] j stored e d c free r =
        rw (append-nil, persist_fits words run {R = R} j kind key stored d store c.rises)
          (inr (
            inr (record {
              alone = e;
              reader = j;
              stored = stored;
              caught = c;
              free = free;
              draft = d;
              result = refl;
              writes = refl;
              after = refl;
              mirrors = append-Caught words run j kind key stored d store c;
            })))
    write-Outcome (x ∷ xs) j stored e d c free r =
        rw (persist_moved words run {R = R} j kind key stored d store x xs top c.rises r) (
          inr (
            inl (record {
              overtaken = λ n. cc (sym e ∙ n);
              refused = refl;
              stays = ap (λ s. store ++ s) (sym e);
              mirrors = rw e (Caught-Mirrors words run j store (x ∷ xs) top c r);
            })))

    act-Outcome :
        (out : Landing R) (intent : Intent R) (j : Journal)
        → intent.key ≡ key
        → prepare words run j kind intent ≡ out
        → Caught words run j store
        → refuse words run j (text_eq kind words.run) ≡ none
        → Rises j.cursor extra top
        → Outcome (act words run out j kind store (store ++ extra))
    unfolding act
    act-Outcome (drafted stored) intent j k p c free r =
        write-Outcome extra j stored refl
          (subst (λ o. IsDraft words run j kind o stored) k
            (prepare-IsDraft words run j kind intent stored p))
          c free r
    act-Outcome (landed e) intent j k p c free r = stayed (landed e) j tt c
    act-Outcome (returned v) intent j k p c free r = stayed (returned v) j tt c
    act-Outcome (failed f) intent j k p c free r = stayed (failed f) j tt c

    resume-Outcome :
        (r : Option Failure × Journal) (intent : Intent R)
        → intent.key ≡ key
        → Mirrors words run r.1 store
        → (r.0 ≡ none → Caught words run r.1 store × Rises r.1.cursor extra top)
        → Outcome (resume words run r kind intent store (store ++ extra))
    unfolding resume
    resume-Outcome (some f, j) intent k m c = inl (record { final = tt; stays = refl; mirrors = m })
    resume-Outcome (none, j) intent k m c =
        elim (Option-cases (refuse words run j (text_eq kind words.run))) [
          | inl free ↦
              rw (free, resume)
                (act-Outcome (prepare words run j kind intent) intent j k refl (c refl).0 free
                  (c refl).1)
          | inr (f, held) ↦
              rw (held, resume) (inl (record { final = tt; stays = refl; mirrors = m }))
        ]

    opened-Outcome :
        (j : Journal) (intent : Intent R)
        → intent.key ≡ key
        → (m : Mirrors words run j store) → Rises m.head extra top
        → Outcome (
            resume words run
              (read words run j (read_after store j.cursor))
              kind
              intent
              store
              (store ++ extra))
    opened-Outcome j intent k m r =
        resume-Outcome (read words run j (read_after store j.cursor)) intent k
          (read-Mirrors words run j store m)
          λ fine.
            (read-Caught words run store j m fine, rw ((read-Rises words run j store m fine).1) r)

    -- A journal that mirrors the storage appends one entry or none. It answers from what it holds,
    -- or refuses, and writes nothing; or another writer appended since the journal read, and it
    -- writes nothing; or it writes one entry, which is its draft under the next seq, directly behind
    -- the last entry that it read. Whatever comes of it, the journal still mirrors the storage. So
    -- it is for every decision of the caller, whether or not `close` ran meanwhile.
    pub land-Outcome :
        (j : Journal) (intent : Intent R) (closing : Bool)
        → intent.key ≡ key
        → (m : Mirrors words run j store) → Rises m.head extra top
        → Outcome (land words run j kind intent closing store (store ++ extra))
    unfolding land close-Mirrors
    land-Outcome j intent closing k m r =
        elim (Option-cases (refuse words run j (text_eq kind words.run))) [
          | inr (f, held) ↦ rw (held, land) (inl (record { final = tt; stays = refl; mirrors = m }))
          | inl free ↦ rw (free, land) (go closing)
        ]
      where
        go :
            (b : Bool)
            → Outcome (
                let j1 = if b then close j else j in
                resume words run
                  (read words run j1 (read_after store j1.cursor))
                  kind
                  intent
                  store
                  (store ++ extra))
        go true = opened-Outcome (close j) intent k (close-Mirrors words run store j m) r
        go false = opened-Outcome j intent k m r

free_kept :
    (words : Vocabulary) (run : Option Text) (j : Journal) (is_run : Bool)
    → refuse words run j is_run ≡ none
    → (fence_step j.fence run is_run run).keep ≡ true
unfolding refuse
free_kept words run j is_run h = writable_kept j.closed j.fence run is_run (ground (arith, h))

cache-take :
    (words : Vocabulary) (run : Option Text) (j : Journal) (e : Entry)
    → (fence_step j.fence run (text_eq e.kind words.run) run).keep ≡ true
    → ((take words run j e run).cache ≡ j.cache ++ e ∷ [])
      × ((take words run j e run).by_key ≡ index j.by_key e)
unfolding take
cache-take words run j e h = rw (h, take) (refl, refl)

-- What an append wrote is the last entry of the journal's cache, and its key, if it has one, names
-- it there: an append that the storage took is never void.
pub Wrote-cached :
    (words : Vocabulary) (run : Option Text) {R : Type 0} (kind : Text) (key : Option Text)
    (store extra : Store) (out : Landing R × Journal × Store)
    → (w : Wrote words run kind key store extra out)
    → (out.1.cache
        ≡ w.reader.cache ++ drafted_entry kind w.draft.body (w.reader.sequence + 1) key run ∷ [])
      × (out.1.by_key
          ≡ index w.reader.by_key (drafted_entry kind w.draft.body (w.reader.sequence + 1) key run))
Wrote-cached words run kind key store extra out w = rw w.after (
    cache-take words run
      (record w.reader { replica = record w.reader.replica { cursor = w.reader.cursor + 1 } })
      (drafted_entry kind w.draft.body (w.reader.sequence + 1) key run)
      (free_kept words run w.reader (text_eq kind words.run) w.free))

-- An append of a journal that mirrors the storage keeps it filled by journals, when the entries
-- that other writers put there meanwhile stand behind the storage and were put there by journals
-- too.
pub land-Filled :
    (words : Vocabulary) (run : Option Text) {R : Type 0} (kind : Text) (store extra : Store)
    (top : ℕ) (j : Journal) (intent : Intent R) (closing : Bool)
    → (m : Mirrors words run j store) → Rises m.head extra top
    → Filled words store
    → Filled words (store ++ extra)
    → Filled words (land words run j kind intent closing store (store ++ extra)).2
land-Filled words run kind store extra top j intent closing m r f g =
    elim (land-Outcome words run kind intent.key store extra top j intent closing refl m r) [
      | inl s ↦ rw s.stays f
      | inr (inl s) ↦ rw s.stays g
      | inr (inr w) ↦
          Filled.append run w.reader kind intent.key w.stored f w.caught w.draft w.writes
    ]

on_replay :
    (words : Vocabulary) (run : Option Text) {R : Type 0} (j : Journal) (kind : Text)
    (intent : Intent R) (e : Entry)
    → lookup_key j.by_key intent.key ≡ some e
    → e.kind ≡ kind
    → text_eq kind words.run ≡ false
    → prepare words run j kind intent ≡ landed e
unfolding prepare keyed
on_replay words run j kind intent e h k r = ground (arith, h, text_eq_iff e.kind kind)

-- A journal that caught up with the storage and may write, asked again under a key that already
-- names an entry of the same kind, which is no run entry, answers with that entry and writes
-- nothing, whatever its caller would propose now.
pub retry_lands_once :
    (words : Vocabulary) (run : Option Text) {R : Type 0} (j : Journal) (kind : Text)
    (intent : Intent R) (e : Entry) (store later : Store)
    → Caught words run j store
    → refuse words run j (text_eq kind words.run) ≡ none
    → lookup_key j.by_key intent.key ≡ some e
    → e.kind ≡ kind
    → text_eq kind words.run ≡ false
    → land words run j kind intent false store later ≡ (landed e, j, store)
unfolding land resume act
retry_lands_once words run j kind intent e store later c free h k r =
    rw (free, land)
      (rw (read_again words run store j c)
        (rw (free, resume) (rw (on_replay words run j kind intent e h k r) refl)))
