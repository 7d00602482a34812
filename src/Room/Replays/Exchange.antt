-- ===== src/Room/Replays/Exchange.antt =====
-- The open exchange, through the entries of a journal: packages/ambion/src/room/projection.ts reads it from
-- the messages after the last close.
use ambion.Room.Completion.{author_of, exchange_after, first_speaker, speaks_from}
use ambion.Common.{
  Bool, Bool-cases, List, Option-cases, Text, [], ap, append-nil, arith, false, filter,
  filter-append, filter-filter, find-filter, find-some, if◌then◌else◌, inl, inr, ltb, refl, some,
  text_eq, true, ℕ, ◌&&◌, ◌++◌, ◌<◌, ◌∷◌, ◌≡◌, ◌≤◌,
}
use ambion.Common.Maps.{text_key, get, set}
use ambion.Room.Fold.{advance_people, meet}
use ambion.Room.Projection.{is_arrival, opens_kind}
use ambion.Room.Replays.{people_from, person_names, tail_of}
use ambion.Room.Rules.Exchanges.{
  is_said, opens_content, spoken_by, opens_exchange, opening_question,
}
use ambion.Room.State.{PersonState, absent}
use ambion.Room.Types.{
  Content, Message, PresenceChange, arrived, changed, dismissed, left, said, summary, system,
  unseated,
}

opens-kind :
    (c : Content) (by_person : Bool) → opens_content c by_person ≡ true → opens_kind c ≡ true
opens-kind (said to text refs delay_seconds) by_person h = refl
opens-kind (system to text refs returns) by_person h = refl
opens-kind (summary to text refs covers_from covers_through) by_person h = absurd (cc)
opens-kind (changed change subject identity attention fixed preferences) by_person h = absurd (cc)
opens-kind (dismissed say) by_person h = absurd (cc)

said-kind : (c : Content) → is_said c ≡ true → opens_kind c ≡ true
unfolding is_said
said-kind (said to text refs delay_seconds) h = refl
said-kind (system to text refs returns) h = refl
said-kind (summary to text refs covers_from covers_through) h = absurd (cc)
said-kind (changed change subject identity attention fixed preferences) h = absurd (cc)
said-kind (dismissed say) h = absurd (cc)

abbrev in_tail : ℕ → Message → Bool
in_tail boundary m = opens_kind m.content && ltb boundary m.seq

question-in_tail :
    (people : List Text) (boundary : ℕ) (m : Message)
    → opens_exchange m people boundary ≡ true
    → in_tail boundary m ≡ true
unfolding opens_exchange
question-in_tail people boundary m h =
    ground (arith, opens-kind m.content (spoken_by people m.from))

opening_question-tail :
    (messages : List Message) (people : List Text) (boundary : ℕ)
    → opening_question (tail_of boundary messages) people boundary
      ≡ opening_question messages people boundary
unfolding opening_question tail_of
opening_question-tail messages people boundary =
    find-filter (λ m. opens_exchange m people boundary) (in_tail boundary)
      (question-in_tail people boundary) messages

speaker-in_tail :
    (people : List Text) (boundary seq : ℕ) (m : Message)
    → boundary < seq
    → speaks_from people seq m ≡ true
    → in_tail boundary m ≡ true
speaker-in_tail people boundary seq m after h = ground (arith, said-kind m.content)

first_speaker-tail :
    (messages : List Message) (people : List Text) (boundary seq : ℕ)
    → boundary < seq
    → first_speaker (tail_of boundary messages) people seq ≡ first_speaker messages people seq
unfolding first_speaker tail_of
first_speaker-tail messages people boundary seq after = ap author_of (
    find-filter (speaks_from people seq) (in_tail boundary)
      (λ m h. speaker-in_tail people boundary seq m after h) messages)

question_after :
    (messages : List Message) (people : List Text) (boundary : ℕ) (m : Message)
    → opening_question messages people boundary ≡ some m
    → boundary < m.seq
unfolding opening_question opens_exchange
question_after messages people boundary m h =
    let (there, opens) = find-some (λ m. opens_exchange m people boundary) messages m h in
    ground arith

-- The messages after the boundary that can open an exchange are enough to read it.
pub exchange_after-tail :
    (messages : List Message) (people : List Text) (boundary : ℕ)
    → exchange_after (tail_of boundary messages) people boundary
      ≡ exchange_after messages people boundary
unfolding exchange_after
exchange_after-tail messages people boundary =
    elim (Option-cases (opening_question messages people boundary)) [
      | inl e ↦ rw (opening_question-tail messages people boundary, e) refl
      | inr (m, e) ↦
          rw
            (
              opening_question-tail messages people boundary,
              e,
              first_speaker-tail messages people boundary m.seq
                  (question_after messages people boundary m e),
            )
            refl
    ]

-- A later boundary leaves the later messages of the tail.
pub tail_of-later :
    (a b : ℕ) (messages : List Message)
    → a ≤ b
    → filter (λ m. ltb b m.seq) (tail_of a messages) ≡ tail_of b messages
unfolding tail_of
tail_of-later a b messages later =
    filter-filter (λ m. ltb b m.seq) (in_tail a) (in_tail b) (λ m. ground arith) messages

pub tail_of-append :
    (boundary : ℕ) (messages : List Message) (m : Message)
    → tail_of boundary (messages ++ m ∷ []) ≡ (
        if in_tail boundary m
        then tail_of boundary messages ++ m ∷ []
        else tail_of boundary messages)
unfolding tail_of filter
tail_of-append boundary messages m = elim (Bool-cases (in_tail boundary m)) [
  | inl e ↦ rw (filter-append (in_tail boundary) messages (m ∷ []), e) refl
  | inr e ↦
      rw (filter-append (in_tail boundary) messages (m ∷ []), e)
        (append-nil (filter (in_tail boundary) messages))
]

pub people_of-append :
    (people : List (Text × PersonState)) (messages : List Message) (m : Message)
    → people_from people (messages ++ m ∷ []) ≡ advance_people (people_from people messages) m
unfolding people_from
people_of-append people [] m = refl
people_of-append people (n ∷ messages) m = people_of-append (advance_people people n) messages m

-- Only an arrival adds a name.
names-set :
    (people : List (Text × PersonState)) (name : Text) (known state : PersonState)
    → get people name ≡ some known
    → person_names (set people name state) ≡ person_names people
unfolding get set
names-set [] name known state h = absurd (cc)
names-set ((i, p) ∷ people) name known state h = elim (Bool-cases (text_eq i name)) [
  | inl same ↦ rw same refl
  | inr differs ↦ rw differs (ap (λ r. i ∷ r) (names-set people name known state (rw differs at h)))
]

names-meet :
    (people : List (Text × PersonState)) (seq : ℕ) (at : Text) (c : Content)
    → is_arrival c ≡ false
    → person_names (meet people seq at c) ≡ person_names people
unfolding meet
names-meet people seq at (changed arrived subject identity attention fixed preferences) h =
    absurd (cc)
names-meet people seq at (changed left subject identity attention fixed preferences) h =
    elim (Option-cases (get people subject)) [
      | inl e ↦ rw (e, meet) refl
      | inr (known, e) ↦
          rw (e, meet)
            (names-set people subject known
              (record known { presence = absent; last_departure = some seq; changed_at = some at })
              e)
    ]
names-meet people seq at
      (changed PresenceChange.seated subject identity attention fixed preferences) h =
    refl
names-meet people seq at (changed unseated subject identity attention fixed preferences) h = refl
names-meet people seq at (said to text refs delay_seconds) h = refl
names-meet people seq at (system to text refs returns) h = refl
names-meet people seq at (summary to text refs covers_from covers_through) h = refl
names-meet people seq at (dismissed say) h = refl

pub names-advance_people :
    (people : List (Text × PersonState)) (m : Message)
    → is_arrival m.content ≡ false
    → person_names (advance_people people m) ≡ person_names people
unfolding advance_people
names-advance_people people m h = names-meet people m.seq m.at m.content h
