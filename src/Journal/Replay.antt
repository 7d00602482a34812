-- ===== src/Journal/Replay.antt =====
-- A journal holds what a replay of the storage gives, whatever way it came to read it.
use ambion.Common.{
  ℕ, ◌≡◌, refl, none, some, List, [], ◌∷◌, ◌++◌, arith, Option, Text, inr, inl, ◌<◌, ap, ◌∙◌, sym,
}
use ambion.Journal.Result.{Failure, Result, ok, err, Result-cases}
use ambion.Journal.Entry.{Entry, Vocabulary, entry_of, writer_of}
use ambion.Journal.Rules.{scanned}
use ambion.Journal.Storage.{StoredEntry}
use ambion.Journal.Positions.{Rises}
use ambion.Journal.Writer.{Journal, take, read_entries, read_one, pass_known}

-- Two reads that end alike.
abbrev Alike : Result Journal → Result Journal → Type 0
Alike (ok j) (ok k) = j.replica ≡ k.replica
Alike (err f) (err g) = f ≡ g
Alike _ _ = ⊥

module _ (words : Vocabulary) (run : Option Text) where
  -- What a journal takes depends on what it took, and not on its callbacks or on its closing.
  pub take-replica :
      (j k : Journal) (entry : Entry) (written : Option Text)
      → j.replica ≡ k.replica
      → (take words run j entry written).replica ≡ (take words run k entry written).replica
  unfolding take
  take-replica j k entry written h = ground (arith, h)

  pass_known-replica :
      (j k : Journal) (n : ℕ) (r : Result (Option Entry)) (w : Option Text)
      → j.replica ≡ k.replica
      → Alike (pass_known words run j n r w) (pass_known words run k n r w)
  unfolding pass_known
  pass_known-replica j k n (err f) w h = refl
  pass_known-replica j k n (ok none) w h = ground (arith, h)
  pass_known-replica j k n (ok (some known)) w h =
      take-replica (record j { replica = record j.replica { cursor = scanned j.cursor n } })
        (record k { replica = record k.replica { cursor = scanned k.cursor n } }) known w
        (ground (arith, h))

  read_one-replica :
      (j k : Journal) (e : StoredEntry)
      → j.replica ≡ k.replica
      → Alike (read_one words run j e) (read_one words run k e)
  read_one-replica j k e h =
      unfold read_one in
      pass_known-replica j k e.position (entry_of words e.entry) (writer_of e.entry) h

  cursor-read_one :
      (j j' : Journal) (e : StoredEntry)
      → j.cursor < e.position
      → read_one words run j e ≡ ok j'
      → j'.cursor ≡ e.position
  unfolding read_one take scanned
  cursor-read_one j j' e lt h = ground arith

  pub read_entries-ok :
      (j j' : Journal) (e : StoredEntry) (es : List StoredEntry)
      → read_one words run j e ≡ ok j'
      → read_entries words run j (e ∷ es) ≡ read_entries words run j' es
  unfolding read_entries
  read_entries-ok j j' e es h = rw (h, read_entries) refl

  pub read_entries-err :
      (j : Journal) (f : Failure) (e : StoredEntry) (es : List StoredEntry)
      → read_one words run j e ≡ err f
      → read_entries words run j (e ∷ es) ≡ (some f, j)
  unfolding read_entries
  read_entries-err j f e es h = rw (h, read_entries) refl

  pub read_entries-nil : (j : Journal) → read_entries words run j [] ≡ (none, j)
  unfolding read_entries
  read_entries-nil j = refl

  pub read_entries-replica :
      (j k : Journal) (es : List StoredEntry)
      → j.replica ≡ k.replica
      → ((read_entries words run j es).0 ≡ (read_entries words run k es).0)
        × ((read_entries words run j es).1.replica ≡ (read_entries words run k es).1.replica)
  read_entries-replica j k [] h = rw (read_entries-nil j, read_entries-nil k) (refl, h)
  read_entries-replica j k (e ∷ es) h =
      go (read_one words run j e) (read_one words run k e) refl refl (read_one-replica j k e h)
        (λ j' k'. read_entries-replica j' k' es)
    where
      go :
          (r s : Result Journal)
          → read_one words run j e ≡ r
          → read_one words run k e ≡ s
          → Alike r s
          → ((j' k' : Journal)
              → j'.replica ≡ k'.replica
              → ((read_entries words run j' es).0 ≡ (read_entries words run k' es).0)
                × ((read_entries words run j' es).1.replica
                    ≡ (read_entries words run k' es).1.replica))
          → ((read_entries words run j (e ∷ es)).0 ≡ (read_entries words run k (e ∷ es)).0)
            × ((read_entries words run j (e ∷ es)).1.replica
                ≡ (read_entries words run k (e ∷ es)).1.replica)
      go (ok j') (ok k') p q a ih =
          rw (read_entries-ok j j' e es p, read_entries-ok k k' e es q) (ih j' k' a)
      go (err f) (err g) p q a ih =
          rw (read_entries-err j f e es p, read_entries-err k g e es q) (ap some a, h)
      go (ok j') (err g) p q a ih = absurd a
      go (err f) (ok k') p q a ih = absurd a

  -- A read in two steps is the read in one.
  pub read_entries-append :
      (j : Journal) (es fs : List StoredEntry)
      → (read_entries words run j es).0 ≡ none
      → read_entries words run j (es ++ fs)
        ≡ read_entries words run (read_entries words run j es).1 fs
  read_entries-append j [] fs h = rw (read_entries-nil j) refl
  read_entries-append j (e ∷ es) fs h = elim (Result-cases (read_one words run j e)) [
    | inl (j', q) ↦
        rw (read_entries-ok j j' e es q, read_entries-ok j j' e (es ++ fs) q)
          (read_entries-append j' es fs (rw (← read_entries-ok j j' e es q) h))
    | inr (f, q) ↦ absurd (cc (read_entries-err j f e es q))
  ]

  -- A read that does not fail leaves the cursor at its last entry.
  pub cursor-read_entries :
      (j : Journal) (es : List StoredEntry) (d : ℕ)
      → Rises j.cursor es d
      → (read_entries words run j es).0 ≡ none
      → (read_entries words run j es).1.cursor ≡ d
  cursor-read_entries j [] d r h = rw (read_entries-nil j) r
  cursor-read_entries j (e ∷ es) d (lt, r) h = elim (Result-cases (read_one words run j e)) [
    | inl (j', q) ↦ rw (read_entries-ok j j' e es q) (
        cursor-read_entries j' es d (rw (cursor-read_one j j' e lt q) r)
          (rw (← read_entries-ok j j' e es q) h))
    | inr (f, q) ↦ absurd (cc (read_entries-err j f e es q))
  ]

  -- A read, whether it fails or not, passes a part of the entries in front of it and stops there.
  pub read_entries-stops :
      (j : Journal) (es : List StoredEntry) (d : ℕ)
      → Rises j.cursor es d
      → (a b : List StoredEntry) × (es ≡ a ++ b)
        × (read_entries words run j a ≡ (none, (read_entries words run j es).1))
        × Rises j.cursor a (read_entries words run j es).1.cursor
        × Rises (read_entries words run j es).1.cursor b d
  read_entries-stops j [] d r = (
    [],
    [],
    refl,
    rw (read_entries-nil j) refl,
    rw (read_entries-nil j) refl,
    rw (read_entries-nil j) r,
  )
  read_entries-stops j (e ∷ es) d (lt, r) = elim (Result-cases (read_one words run j e)) [
    | inr (f, q) ↦
        let stop = read_entries-err j f e es q in
        (
          [],
          e ∷ es,
          refl,
          read_entries-nil j ∙ ap (λ p. (none, p.1)) (sym stop),
          ap (λ p. p.1.cursor) (sym stop),
          rw stop (lt, r),
        )
    | inl (j', q) ↦
        let at = cursor-read_one j j' e lt q in
        let (a, b, split, done, behind, ahead) = read_entries-stops j' es d (rw at r) in
        let go = read_entries-ok j j' e es q in
        (
          e ∷ a,
          b,
          ap (λ l. e ∷ l) split,
          read_entries-ok j j' e a q ∙ done ∙ ap (λ p. (none, p.1)) (sym go),
          (lt, rw (go, ← at) behind),
          rw go ahead,
        )
  ]
