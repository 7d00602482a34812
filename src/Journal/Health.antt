-- ===== src/Journal/Health.antt =====
-- What holds of the record that a storage replays to, when every entry on it was appended by a
-- journal: the seqs rise strictly, and a key names one entry.
use ambion.Common.{
  ◌≡◌, refl, ap, sym, ◌∙◌, arith, Option, Text, List, [], ◌∷◌, ◌++◌, none, some, ℕ, ◌+◌, ◌<◌, ◌≤◌,
  Memᴰ, Bool-cases, inl, inr, text_eq, text_eq_iff, ◌⊎◌, subst, max,
}
use ambion.Common.Maps.{get, get-set, text_key}
use ambion.Journal.Entry.{Entry, Vocabulary, Stored}
use ambion.Journal.Rules.{advance_seq, fence_step}
use ambion.Journal.Storage.{Store}
use ambion.Journal.Drafts.{IsDraft, drafted_entry}
use ambion.Journal.Landing.{Caught, placed_at, append-Caught}
use ambion.Journal.Readers.{replays_agree}
use ambion.Journal.Replay.{read_entries-nil}
use ambion.Journal.Writer.{Journal, take, index, lookup_key, blank, read_entries}

-- The seqs rise strictly from above the first number up to at most the second.
abbrev pub RisesTo : ℕ → List Entry → ℕ → Type 0
RisesTo c [] d = c ≤ d
RisesTo c (e ∷ es) d = (c < e.seq) × RisesTo e.seq es d

RisesTo-append :
    (c d : ℕ) (es : List Entry) (e : Entry)
    → RisesTo c es d
    → d < e.seq
    → RisesTo c (es ++ e ∷ []) e.seq
RisesTo-append c d [] e h lt = (omega arith, omega arith)
RisesTo-append c d (x ∷ es) e (h, r) lt = (h, RisesTo-append x.seq d es e r lt)

pub record Healthy (cache : List Entry) (sequence : ℕ) (by_key : List (Text × Entry)) : Type 0 where
  pub rising : RisesTo 0 cache sequence
  pub indexed : (a : Entry) (k : Text) → Memᴰ a cache → a.key ≡ some k → get by_key k ≡ some a

mem_last : {a : Entry} (es : List Entry) (e : Entry) → Memᴰ a (es ++ e ∷ []) → Memᴰ a es ⊎ (a ≡ e)
mem_last [] e (Memᴰ.head p) = inr p
mem_last [] e (Memᴰ.tail m) = inl m
mem_last (x ∷ es) e (Memᴰ.head p) = inl (Memᴰ.head p)
mem_last (x ∷ es) e (Memᴰ.tail m) = elim (mem_last es e m) [
  | inl q ↦ inl (Memᴰ.tail q)
  | inr q ↦ inr q
]

get-index :
    (m : List (Text × Entry)) (e : Entry) (k : Text) → e.key ≡ some k → get (index m e) k ≡ some e
unfolding index
get-index m e k h = rw (h, index) (ground (arith, get-set m k k e, text_eq_iff k k))

-- An entry under an unused key leaves what the other keys name.
get-index_old :
    (m : List (Text × Entry)) (e a : Entry) (k : Text)
    → lookup_key m e.key ≡ none
    → get m k ≡ some a
    → get (index m e) k ≡ some a
unfolding index lookup_key
get-index_old m e a k unused h = go e.key refl
  where
    go : (o : Option Text) → e.key ≡ o → get (index m e) k ≡ some a
    go none q = rw (q, index) h
    go (some key) q =
        let fresh : get m key ≡ none = subst (λ o. lookup_key m o ≡ none) q unused in
        rw (q, index) (ground (arith, get-set m key k e, text_eq_iff key k, fresh, h))

remember-Healthy :
    (cache : List Entry) (sequence : ℕ) (by_key : List (Text × Entry)) (e : Entry)
    → Healthy cache sequence by_key
    → e.seq ≡ sequence + 1
    → lookup_key by_key e.key ≡ none
    → Healthy (cache ++ e ∷ []) (advance_seq sequence e.seq) (index by_key e)
unfolding advance_seq
remember-Healthy cache sequence by_key e h at unused = record {
  rising =
      let top : max sequence e.seq ≡ e.seq = omega arith in
      rw top (RisesTo-append 0 sequence cache e h.rising (omega arith));
  indexed = λ a k m q. elim (mem_last cache e m) [
    | inl old ↦ get-index_old by_key e a k unused (h.indexed a k old q)
    | inr new ↦ rw new (get-index by_key e k (ap (λ x. x.key) (sym new) ∙ q))
  ];
}

take-Healthy :
    (words : Vocabulary) (run : Option Text) (j : Journal) (e : Entry) (w : Option Text)
    → Healthy j.cache j.sequence j.by_key
    → e.seq ≡ j.sequence + 1
    → lookup_key j.by_key e.key ≡ none
    → let k = take words run j e w in Healthy k.cache k.sequence k.by_key
unfolding take
take-Healthy words run j e w h at unused =
    let passed = fence_step j.fence run (text_eq e.kind words.run) w in
    elim (Bool-cases passed.keep) [
      | inl kept ↦ rw (kept, take) (remember-Healthy j.cache j.sequence j.by_key e h at unused)
      | inr dropped ↦ rw (dropped, take) h
    ]

-- A storage that journals filled: each entry on it was drafted by a journal of some run that had
-- read the whole storage before the entry.
pub data Filled (words : Vocabulary) : Store → Type 0 where
  unused : Filled words []
  append :
      {store next : Store} (run : Option Text) (j : Journal) (kind : Text) (key : Option Text)
      (stored : Stored)
      → Filled words store
      → Caught words run j store
      → IsDraft words run j kind key stored
      → next ≡ store ++ placed_at j.cursor stored ∷ []
      → Filled words next

pub record Sound (words : Vocabulary) (run : Option Text) (store : Store) : Type 0 where
  pub readable : (read_entries words run blank store).0 ≡ none
  pub healthy :
      Healthy
        (read_entries words run blank store).1.cache
        (read_entries words run blank store).1.sequence
        (read_entries words run blank store).1.by_key

nothing : {A : Type 0} {a : A} → Memᴰ a [] → ⊥
nothing m = elim m [ ]

-- What one reader finds, every reader finds.
agree_Sound :
    (words : Vocabulary) (run own : Option Text) (store : Store)
    → Sound words run store
    → Sound words own store
agree_Sound words run own store s =
    let (fault, view) = replays_agree words own run store in
    record {
      readable = fault ∙ s.readable;
      healthy = rw (view.cache, view.sequence, view.by_key) s.healthy;
    }

-- In a storage that journals of any runs filled, a replay never fails, the seqs of the entries that
-- it takes rise strictly, and each key names exactly one of those entries.
pub Filled-healthy :
    (words : Vocabulary) (store : Store) (own : Option Text)
    → Filled words store
    → Sound words own store
Filled-healthy words store own unused = record {
  readable = ap (λ r. r.0) (read_entries-nil words own blank);
  healthy =
      subst (λ k. Healthy k.cache k.sequence k.by_key)
        (sym (ap (λ r. r.1) (read_entries-nil words own blank)))
        (record { rising = omega arith; indexed = λ a k m q. absurd (nothing m) });
}
Filled-healthy words store own (append {store = s} run j kind key stored f c d e) =
    let entry = drafted_entry kind d.body (j.sequence + 1) key run in
    let c' = append-Caught words run j kind key stored d s c in
    let before = (Filled-healthy words s run f).healthy in
    let now : Healthy j.cache j.sequence j.by_key =
      subst (λ r. Healthy r.cache r.sequence r.by_key) c.same before in
    let later =
      take-Healthy words run (record j { replica = record j.replica { cursor = j.cursor + 1 } })
        entry run now refl d.unused in
    rw e (
      agree_Sound words run own (s ++ placed_at j.cursor stored ∷ []) (record {
        readable = c'.sound;
        healthy = subst (λ r. Healthy r.cache r.sequence r.by_key) (sym c'.same) later;
      }))
