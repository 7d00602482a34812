-- ===== src/Journal/Drafts.antt =====
-- What the synchronous part of an append decides, and the entry that a draft reads back as.
use ambion.Common.{ℕ, ◌+◌, ◌≡◌, refl, none, some, true, Option, Text, arith, ◌≤◌, ap, ◌∙◌, inl, inr}
use ambion.Journal.Json.{Value, is_json, undefined, opaque}
use ambion.Journal.Rules.{next_seq, keyed}
use ambion.Journal.Result.{ok, Result-cases}
use ambion.Journal.Entry.{
  Entry, Stored, Vocabulary, object, beside, detached, entry_of, last_seq, seq_of, text_of, judge,
  writer_of, Verdict, takes, foreign, malformed, optional,
}
use ambion.Journal.Writer.{
  Journal, Intent, drafted, Proposal, proposed, answer, neither, draft, propose, prepare,
  lookup_key, on_proposal,
}

detached-json : (v : Value) → is_json v ≡ true → detached v ≡ ok v
unfolding detached is_json
detached-json undefined h = cc
detached-json opaque h = cc
detached-json _ h = refl

text_of-optional : (o : Option Text) → text_of (optional o) ≡ o
unfolding text_of
text_of-optional none = refl
text_of-optional (some s) = refl

-- The entry that an append writes.
abbrev pub drafted_entry : Text → Value → ℕ → Option Text → Option Text → Entry
drafted_entry kind body seq key run = record {
  kind = kind;
  body = body;
  seq = seq;
  key = key;
  run = run;
}

pub writer_of-beside :
    (kind : Text) (body : Value) (seq : ℕ) (key run : Option Text)
    → writer_of (object (beside kind body seq key run)) ≡ run
unfolding writer_of beside
writer_of-beside kind body seq key run = text_of-optional run

judge-taken :
    (v : Verdict) (kind : Text) (body : Value) (seq : ℕ) (key run : Option Text) (e : Entry)
    → seq ≤ last_seq
    → judge v kind (beside kind body seq key run) body ≡ ok (some e)
    → e ≡ drafted_entry kind body seq key run
unfolding judge beside seq_of
judge-taken takes kind body seq key run e le h =
    ground (arith, text_of-optional key, text_of-optional run, h)
judge-taken foreign kind body seq key run e le h = cc
judge-taken malformed kind body seq key run e le h = cc

-- A body that is JSON is read back as it was written, with every field of the journal's own.
pub entry_of-beside :
    (words : Vocabulary) (kind : Text) (body : Value) (seq : ℕ) (key run : Option Text) (e : Entry)
    → is_json body ≡ true
    → seq ≤ last_seq
    → entry_of words (object (beside kind body seq key run)) ≡ ok (some e)
    → e ≡ drafted_entry kind body seq key run
unfolding entry_of beside
entry_of-beside words kind body seq key run e json le h =
    judge-taken (words.accepts kind body) kind body seq key run e le
      (ground (arith, detached-json body json, h))

-- What a draft is: a JSON body under the next seq, which the vocabulary takes.
pub record IsDraft (words : Vocabulary) (run : Option Text) (j : Journal) (kind : Text)
    (key : Option Text) (stored : Stored) : Type 0 where
  pub body : Value
  pub json : is_json body ≡ true
  pub room : j.sequence + 1 ≤ last_seq
  pub form : stored ≡ beside kind body (j.sequence + 1) key run
  pub taken :
      entry_of words (object stored) ≡ ok (some (drafted_entry kind body (j.sequence + 1) key run))
  pub unused : lookup_key j.by_key key ≡ none

module _ (words : Vocabulary) (run : Option Text) {R : Type 0} where
  prepare_fresh :
      (j : Journal) (kind : Text) (intent : Intent R) (stored : Stored)
      → prepare words run j kind intent ≡ drafted stored
      → (lookup_key j.by_key intent.key ≡ none) × (propose words run j kind intent ≡ drafted stored)
  unfolding prepare keyed
  prepare_fresh j kind intent stored h = ground arith

  draft_form :
      (j : Journal) (kind : Text) (key : Option Text) (body : Value) (stored : Stored)
      → draft words run {R = R} j kind key body ≡ drafted stored
      → (is_json body ≡ true)
        × (j.sequence + 1 ≤ last_seq)
        × (stored ≡ beside kind body (j.sequence + 1) key run)
  unfolding draft next_seq
  draft_form j kind key body stored h = ground (arith, h)

  draft_taken :
      (j : Journal) (kind : Text) (key : Option Text) (body : Value) (stored : Stored)
      → draft words run {R = R} j kind key body ≡ drafted stored
      → (e : Entry) × (entry_of words (object (beside kind body (j.sequence + 1) key run))
          ≡ ok (some e))
  unfolding draft next_seq
  draft_taken j kind key body stored h =
      elim (Result-cases (entry_of words (object (beside kind body (j.sequence + 1) key run)))) [
        | inl (some e, q) ↦ (e, q)
        | inl (none, q) ↦ absurd (ground (arith, q, h))
        | inr (f, q) ↦ absurd (ground (arith, q, h))
      ]

  draft-IsDraft :
      (j : Journal) (kind : Text) (key : Option Text) (body : Value) (stored : Stored)
      → draft words run {R = R} j kind key body ≡ drafted stored
      → lookup_key j.by_key key ≡ none
      → IsDraft words run j kind key stored
  draft-IsDraft j kind key body stored h unused =
      let (json, room, form) = draft_form j kind key body stored h in
      let (e, taken) = draft_taken j kind key body stored h in
      let same = entry_of-beside words kind body (j.sequence + 1) key run e json room taken in
      record {
        body = body;
        json = json;
        room = room;
        form = form;
        taken = ap (λ s. entry_of words (object s)) form ∙ taken ∙ ap (λ e. ok (some e)) same;
        unused = unused;
      }

  on_proposal-IsDraft :
      (p : Proposal R) (j : Journal) (kind : Text) (key : Option Text) (stored : Stored)
      → lookup_key j.by_key key ≡ none
      → on_proposal words run p j kind key ≡ drafted stored
      → IsDraft words run j kind key stored
  on_proposal-IsDraft (proposed body) j kind key stored unused h =
      draft-IsDraft j kind key body stored (unfold on_proposal in h) unused
  on_proposal-IsDraft (answer r) j kind key stored unused h = unfold on_proposal in cc h
  on_proposal-IsDraft neither j kind key stored unused h = unfold on_proposal in cc h

  -- Only a JSON body under the next seq, for a key that names no entry, reaches the storage.
  pub prepare-IsDraft :
      (j : Journal) (kind : Text) (intent : Intent R) (stored : Stored)
      → prepare words run j kind intent ≡ drafted stored
      → IsDraft words run j kind intent.key stored
  prepare-IsDraft j kind intent stored h =
      let (unused, chosen) = prepare_fresh j kind intent stored h in
      on_proposal-IsDraft (intent.decide j) j kind intent.key stored unused
        (unfold propose in chosen)
