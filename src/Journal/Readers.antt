-- ===== src/Journal/Readers.antt =====
-- Every reader of one storage takes the same entries, whatever run it writes for.
use ambion.Common.{◌≡◌, refl, ap, arith, Option, Text, List, [], ◌∷◌, none, some, text_eq}
use ambion.Journal.Entry.{Entry, Vocabulary, entry_of, writer_of}
use ambion.Journal.Result.{Result, ok, err}
use ambion.Journal.Rules.{scanned}
use ambion.Journal.Storage.{StoredEntry}
use ambion.Journal.Fencing.{step_agree}
use ambion.Journal.Writer.{Journal, take, pass_known, read_one, read_entries, blank}
use ambion.Journal.Replay.{read_entries-ok, read_entries-err, read_entries-nil}

-- What a journal shows of the record: all but whether its own run holds the name.
pub record SameView (j k : Journal) : Type 0 where
  pub cache : j.cache ≡ k.cache
  pub sequence : j.sequence ≡ k.sequence
  pub by_key : j.by_key ≡ k.by_key
  pub cursor : j.cursor ≡ k.cursor
  pub standing : j.fence.fence ≡ k.fence.fence

abbrev AlikeView : Result Journal → Result Journal → Type 0
AlikeView (ok j) (ok k) = SameView j k
AlikeView (err f) (err g) = f ≡ g
AlikeView _ _ = ⊥

module _ (words : Vocabulary) (own other : Option Text) where
  take-SameView :
      (j k : Journal) (e : Entry) (w : Option Text)
      → SameView j k
      → SameView (take words own j e w) (take words other k e w)
  unfolding take
  take-SameView j k e w v =
      ground (arith, step_agree own other j.fence k.fence (text_eq e.kind words.run) w v.standing)

  read_one-SameView :
      (j k : Journal) (e : StoredEntry)
      → SameView j k
      → AlikeView (read_one words own j e) (read_one words other k e)
  unfolding read_one pass_known
  read_one-SameView j k e v = go (entry_of words e.entry)
    where
      go :
          (r : Result (Option Entry))
          → AlikeView
              (pass_known words own j e.position r (writer_of e.entry))
              (pass_known words other k e.position r (writer_of e.entry))
      go (err f) = refl
      go (ok none) = ground (arith, v)
      go (ok (some known)) =
          take-SameView
            (record j { replica = record j.replica { cursor = scanned j.cursor e.position } })
            (record k { replica = record k.replica { cursor = scanned k.cursor e.position } }) known
            (writer_of e.entry) (ground (arith, v))

  pub read_entries-SameView :
      (j k : Journal) (es : List StoredEntry)
      → SameView j k
      → ((read_entries words own j es).0 ≡ (read_entries words other k es).0)
        × SameView (read_entries words own j es).1 (read_entries words other k es).1
  read_entries-SameView j k [] v =
      rw (read_entries-nil words own j, read_entries-nil words other k) (refl, v)
  read_entries-SameView j k (e ∷ es) v =
      go (read_one words own j e) (read_one words other k e) refl refl (read_one-SameView j k e v)
        (λ j' k'. read_entries-SameView j' k' es)
    where
      go :
          (r s : Result Journal)
          → read_one words own j e ≡ r
          → read_one words other k e ≡ s
          → AlikeView r s
          → ((j' k' : Journal)
              → SameView j' k'
              → ((read_entries words own j' es).0 ≡ (read_entries words other k' es).0)
                × SameView (read_entries words own j' es).1 (read_entries words other k' es).1)
          → ((read_entries words own j (e ∷ es)).0 ≡ (read_entries words other k (e ∷ es)).0)
            × SameView (read_entries words own j (e ∷ es)).1 (read_entries words other k (e ∷ es)).1
      go (ok j') (ok k') p q a ih =
          rw (read_entries-ok words own j j' e es p, read_entries-ok words other k k' e es q)
            (ih j' k' a)
      go (err f) (err g) p q a ih =
          rw (read_entries-err words own j f e es p, read_entries-err words other k g e es q)
            (ap some a, v)
      go (ok j') (err g) p q a ih = absurd a
      go (err f) (ok k') p q a ih = absurd a

  -- Two journals of any runs that replay one storage take the same entries under the same seqs and
  -- keys, and see the same run's fence stand; the replay of one fails exactly as that of the other.
  pub replays_agree :
      (store : List StoredEntry)
      → ((read_entries words own blank store).0 ≡ (read_entries words other blank store).0)
        × SameView (read_entries words own blank store).1 (read_entries words other blank store).1
  replays_agree store =
      read_entries-SameView blank blank store
        (record { cache = refl; sequence = refl; by_key = refl; cursor = refl; standing = refl })
