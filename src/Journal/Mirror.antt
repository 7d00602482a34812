-- ===== src/Journal/Mirror.antt =====
-- A journal mirrors the storage: it holds what a fresh replay of the storage up to its cursor gives.
use ambion.Journal.Result.{Failure}
use ambion.Common.{
  ℕ, ◌≡◌, refl, sym, ap, ◌∙◌, none, some, [], ◌++◌, arith, Option, append-nil, append_assoc, Text,
  subst, Option-cases, inl, inr,
}
use ambion.Journal.Entry.{Vocabulary}
use ambion.Journal.Rules.{scanned}
use ambion.Journal.Storage.{Store, read_after}
use ambion.Journal.Positions.{
  Rises, Rises-append, read_after-entries, read_after-position, sort-rising, filter-new,
}
use ambion.Journal.Replay.{
  read_entries-append, read_entries-replica, cursor-read_entries, read_entries-stops,
}
use ambion.Journal.Writer.{Journal, blank, read_entries, finish_read, read}

-- `old` is the part of the storage that the journal read, and `new` the part past its cursor.
pub record Mirrors (words : Vocabulary) (run : Option Text) (j : Journal) (store : Store)
    : Type 0 where
  pub old : Store
  pub new : Store
  pub head : ℕ
  pub parts : store ≡ old ++ new
  pub behind : Rises 0 old j.cursor
  pub ahead : Rises j.cursor new head
  pub sound : (read_entries words run blank old).0 ≡ none
  pub same : (read_entries words run blank old).1.replica ≡ j.replica

fault_finish : (n : ℕ) (r : Option Failure × Journal) → (finish_read n r).0 ≡ r.0
unfolding finish_read
fault_finish n (none, j) = refl
fault_finish n (some f, j) = refl

replica_finish :
    (n : ℕ) (r : Option Failure × Journal)
    → r.0 ≡ none
    → r.1.cursor ≡ n
    → (finish_read n r).1.replica ≡ r.1.replica
unfolding finish_read scanned
replica_finish n (none, j) h c = ground (arith, c)
replica_finish n (some f, j) h c = absurd (cc h)

replica_finish_err :
    (n : ℕ) (r : Option Failure × Journal) (f : Failure)
    → r.0 ≡ some f
    → (finish_read n r).1.replica ≡ r.1.replica
unfolding finish_read
replica_finish_err n (none, j) f h = absurd (cc h)
replica_finish_err n (some g, j) f h = refl

module _ (words : Vocabulary) (run : Option Text) where
  pub blank-Mirrors :
      (store : Store) (head : ℕ) → Rises 0 store head → Mirrors words run blank store
  unfolding read_entries
  blank-Mirrors store head r = record {
    old = [];
    new = store;
    head = head;
    parts = refl;
    behind = refl;
    ahead = r;
    sound = refl;
    same = refl;
  }

  module _ (j : Journal) (store : Store) (m : Mirrors words run j store) where
    -- A read of the storage passes exactly the part that the journal has not read.
    pub read-new :
        read words run j (read_after store j.cursor)
        ≡ finish_read m.head (read_entries words run j m.new)
    unfolding read
    read-new =
        rw
          (
            m.parts,
            read_after-entries j.cursor m.head m.old m.new m.behind m.ahead,
            read_after-position j.cursor m.head m.old m.new m.behind m.ahead,
            filter-new j.cursor m.head j.cursor m.new m.ahead (omega arith),
            sort-rising j.cursor m.head m.new m.ahead,
          )
          refl

    replay-split :
        (es : Store)
        → ((read_entries words run blank (m.old ++ es)).0 ≡ (read_entries words run j es).0)
          × ((read_entries words run blank (m.old ++ es)).1.replica
              ≡ (read_entries words run j es).1.replica)
    replay-split es =
        rw (read_entries-append words run blank m.old es m.sound)
          (read_entries-replica words run (read_entries words run blank m.old).1 j es m.same)

    fault_read :
        (read words run j (read_after store j.cursor)).0 ≡ (read_entries words run j m.new).0
    fault_read = ap (λ r. r.0) read-new ∙ fault_finish m.head (read_entries words run j m.new)

    module _ (fine : (read words run j (read_after store j.cursor)).0 ≡ none) where
      fine_new : (read_entries words run j m.new).0 ≡ none
      fine_new = sym fault_read ∙ fine

      cursor_new : (read_entries words run j m.new).1.cursor ≡ m.head
      cursor_new = cursor-read_entries words run j m.new m.head m.ahead fine_new

      replica_read :
          (read words run j (read_after store j.cursor)).1.replica
          ≡ (read_entries words run j m.new).1.replica
      replica_read =
          ap (λ r. r.1.replica) read-new
          ∙ replica_finish m.head (read_entries words run j m.new) fine_new cursor_new

      -- After a read that does not fail, a journal that mirrors the storage holds what a fresh
      -- replay of the whole storage gives, and that replay does not fail either.
      pub read_replays :
          ((read_entries words run blank store).0 ≡ none)
          × ((read_entries words run blank store).1.replica
              ≡ (read words run j (read_after store j.cursor)).1.replica)
      read_replays = (
        ap (λ s. (read_entries words run blank s).0) m.parts ∙ (replay-split m.new).0 ∙ fine_new,
        ap (λ s. (read_entries words run blank s).1.replica) m.parts
            ∙ (replay-split m.new).1
            ∙ sym replica_read,
      )

      cursor_read : (read words run j (read_after store j.cursor)).1.cursor ≡ m.head
      cursor_read = ap (λ r. r.cursor) replica_read ∙ cursor_new

    Rises-store : Rises 0 store m.head
    Rises-store =
        subst (λ s. Rises 0 s m.head) (sym m.parts)
          (Rises-append 0 j.cursor m.head m.old m.new m.behind m.ahead)

    -- A read that does not fail leaves the cursor at the end of the storage.
    pub read-Rises :
        (read words run j (read_after store j.cursor)).0 ≡ none
        → Rises 0 store (read words run j (read_after store j.cursor)).1.cursor
          × ((read words run j (read_after store j.cursor)).1.cursor ≡ m.head)
    read-Rises fine = (rw (cursor_read fine) Rises-store, cursor_read fine)

    -- A read that does not fail has passed the whole storage.
    pub read_whole :
        (read words run j (read_after store j.cursor)).0 ≡ none
        → Mirrors words run (read words run j (read_after store j.cursor)).1 store
    read_whole fine = record {
      old = store;
      new = [];
      head = m.head;
      parts = sym (append-nil store);
      behind = rw (cursor_read fine) Rises-store;
      ahead = cursor_read fine;
      sound = (read_replays fine).0;
      same = (read_replays fine).1;
    }

    module _ (f : Failure) (fault : (read words run j (read_after store j.cursor)).0 ≡ some f) where
      replica_fault :
          (read words run j (read_after store j.cursor)).1.replica
          ≡ (read_entries words run j m.new).1.replica
      replica_fault =
          ap (λ r. r.1.replica) read-new
          ∙ replica_finish_err m.head (read_entries words run j m.new) f (sym fault_read ∙ fault)

      read_part : Mirrors words run (read words run j (read_after store j.cursor)).1 store
      read_part =
          let (a, b, split, done, behind, ahead) =
            read_entries-stops words run j m.new m.head m.ahead in
          let here = ap (λ r. r.cursor) replica_fault in
          record {
            old = m.old ++ a;
            new = b;
            head = m.head;
            parts = m.parts ∙ ap (λ s. m.old ++ s) split ∙ sym (append_assoc m.old a b);
            behind = rw here (Rises-append 0 j.cursor _ m.old a m.behind behind);
            ahead = rw here ahead;
            sound = (replay-split a).0 ∙ ap (λ r. r.0) done;
            same = (replay-split a).1 ∙ ap (λ r. r.1.replica) done ∙ sym replica_fault;
          }

    -- A journal that mirrors the storage still mirrors it after a read, whether the read fails at
    -- a malformed entry or not.
    pub read-Mirrors : Mirrors words run (read words run j (read_after store j.cursor)).1 store
    read-Mirrors = elim (Option-cases (read words run j (read_after store j.cursor)).0) [
      | inl fine ↦ read_whole fine
      | inr (f, fault) ↦ read_part f fault
    ]
