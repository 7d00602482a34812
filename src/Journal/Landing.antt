-- ===== src/Journal/Landing.antt =====
-- What an append does to the storage and to the journal that makes it.
use ambion.Common.{ℕ, ◌+◌, ◌≡◌, refl, none, some, Option, Text, arith, [], ◌∷◌, ◌++◌, ap, ◌∙◌, ◌<◌}
use ambion.Journal.Result.{ok, record_moved}
use ambion.Journal.Rules.{scanned}
use ambion.Journal.Replay.{read_entries-append, read_entries-ok, read_entries-nil, take-replica}
use ambion.Journal.Writer.{
  pass_known, settle, Journal, landed, failed, persist, took, take, blank, read_entries, read_one,
  on_took,
}
use ambion.Journal.Drafts.{writer_of-beside, IsDraft, drafted_entry}
use ambion.Journal.Entry.{Entry, Stored, Vocabulary, object, writer_of}
use ambion.Journal.Storage.{StoredEntry, Store, append_at, head_or}
use ambion.Journal.Positions.{Rises, Rises-le, Rises-append, head-rising}
use ambion.Journal.Mirror.{Mirrors}

-- The journal has read the whole storage.
pub record Caught (words : Vocabulary) (run : Option Text) (j : Journal) (store : Store)
    : Type 0 where
  pub rises : Rises 0 store j.cursor
  pub sound : (read_entries words run blank store).0 ≡ none
  pub same : (read_entries words run blank store).1.replica ≡ j.replica

-- What the storage holds after an append next to a head.
abbrev pub placed_at : ℕ → Stored → StoredEntry
placed_at head stored = record { position = head + 1; entry = object stored }

module _ (words : Vocabulary) (run : Option Text) where
  pub Caught-Mirrors :
      (j : Journal) (store extra : Store) (head : ℕ)
      → Caught words run j store
      → Rises j.cursor extra head
      → Mirrors words run j (store ++ extra)
  Caught-Mirrors j store extra head c ahead = record {
    old = store;
    new = extra;
    head = head;
    parts = refl;
    behind = c.rises;
    ahead = ahead;
    sound = c.sound;
    same = c.same;
  }

  -- The journal after its own append.
  abbrev pub after_append : Journal → Entry → Journal
  after_append j entry =
      take words run (record j { replica = record j.replica { cursor = j.cursor + 1 } }) entry run

  append_fits :
      (store : Store) (cursor : ℕ) (stored : Stored)
      → Rises 0 store cursor
      → append_at store (object stored) cursor
        ≡ (some (placed_at cursor stored), store ++ placed_at cursor stored ∷ [])
  unfolding append_at
  append_fits store cursor stored r = rw (head-rising 0 0 cursor store r refl) (ground arith)

  append_refused :
      (store : Store) (cursor head : ℕ) (stored : Stored)
      → head_or 0 store ≡ head
      → cursor < head
      → append_at store (object stored) cursor ≡ (none, store)
  unfolding append_at
  append_refused store cursor head stored h lt = ground arith

  append_moved :
      (store : Store) (x : StoredEntry) (xs : Store) (cursor head : ℕ) (stored : Stored)
      → Rises 0 store cursor
      → Rises cursor (x ∷ xs) head
      → append_at (store ++ x ∷ xs) (object stored) cursor ≡ (none, store ++ x ∷ xs)
  unfolding append_at
  append_moved store x xs cursor head stored r (lt, rs) =
      append_refused (store ++ x ∷ xs) cursor head stored
        (head-rising 0 0 head (store ++ x ∷ xs)
          (Rises-append 0 cursor head store (x ∷ xs) r (lt, rs)) refl)
        (omega (arith, Rises-le x.position head xs rs))

  module _ {R : Type 0} (j : Journal) (kind : Text) (key : Option Text) (stored : Stored)
      (d : IsDraft words run j kind key stored) where
    took_lem :
        took words run {R = R}
          (record j { replica = record j.replica { cursor = j.cursor + 1 } })
          (placed_at j.cursor stored)
          kind
        ≡ (
          landed (drafted_entry kind d.body (j.sequence + 1) key run),
          after_append j (drafted_entry kind d.body (j.sequence + 1) key run),
        )
    unfolding took on_took
    took_lem =
        rw
          (
            d.taken,
            ap (λ s. writer_of (object s)) d.form,
            writer_of-beside kind d.body (j.sequence + 1) key run,
          )
          refl

    -- An append next to the position that the journal read lands, with the next seq.
    pub persist_fits :
        (store : Store)
        → Rises 0 store j.cursor
        → persist words run {R = R} j stored kind store ≡ (
          landed (drafted_entry kind d.body (j.sequence + 1) key run),
          after_append j (drafted_entry kind d.body (j.sequence + 1) key run),
          store ++ placed_at j.cursor stored ∷ [],
        )
    unfolding persist settle
    persist_fits store r = rw (append_fits store j.cursor stored r) (rw took_lem refl)

    -- An append after another writer's writes nothing.
    pub persist_moved :
        (store : Store) (x : StoredEntry) (xs : Store) (head : ℕ)
        → Rises 0 store j.cursor
        → Rises j.cursor (x ∷ xs) head
        → persist words run {R = R} j stored kind (store ++ x ∷ xs)
          ≡ (failed record_moved, j, store ++ x ∷ xs)
    unfolding persist settle
    persist_moved store x xs head r rs = rw (append_moved store x xs j.cursor head stored r rs) refl

  cursor-take :
      (j : Journal) (e : Entry) (w : Option Text) → (take words run j e w).cursor ≡ j.cursor
  unfolding take
  cursor-take j e w = ground arith

  module _ (j : Journal) (kind : Text) (key : Option Text) (stored : Stored)
      (d : IsDraft words run j kind key stored) (store : Store) (c : Caught words run j store) where
    abbrev replayed_journal : Journal
    replayed_journal = (read_entries words run blank store).1

    reread :
        read_one words run replayed_journal (placed_at j.cursor stored)
        ≡ ok (
            take words run
              (record replayed_journal {
                replica = record replayed_journal.replica {
                  cursor = scanned replayed_journal.cursor (j.cursor + 1);
                };
              })
              (drafted_entry kind d.body (j.sequence + 1) key run)
              run)
    unfolding read_one pass_known
    reread =
        rw
          (
            d.taken,
            ap (λ s. writer_of (object s)) d.form,
            writer_of-beside kind d.body (j.sequence + 1) key run,
          )
          refl

    replayed_append : read_entries words run blank (store ++ placed_at j.cursor stored ∷ []) ≡ (
      none,
      take words run
          (record replayed_journal {
            replica = record replayed_journal.replica {
              cursor = scanned replayed_journal.cursor (j.cursor + 1);
            };
          })
          (drafted_entry kind d.body (j.sequence + 1) key run)
          run,
    )
    replayed_append =
        read_entries-append words run blank store (placed_at j.cursor stored ∷ []) c.sound
        ∙ read_entries-ok words run replayed_journal _ (placed_at j.cursor stored) [] reread
        ∙ read_entries-nil words run _

    -- After its append, the journal holds what a replay of the storage gives.
    pub append-Caught :
        Caught words run
          (after_append j (drafted_entry kind d.body (j.sequence + 1) key run))
          (store ++ placed_at j.cursor stored ∷ [])
    unfolding scanned
    append-Caught = record {
      rises = rw cursor-take (
          Rises-append 0 j.cursor (j.cursor + 1) store (placed_at j.cursor stored ∷ []) c.rises
            (omega arith, refl));
      sound = ap (λ r. r.0) replayed_append;
      same =
          ap (λ r. r.1.replica) replayed_append
          ∙ take-replica words run _ _ (drafted_entry kind d.body (j.sequence + 1) key run) run
              (ground (arith, c.same));
    }
