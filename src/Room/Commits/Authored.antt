-- ===== src/Room/Commits/Authored.antt =====
-- packages/ambion/src/room/transition.ts `commit`: who writes, and what a say has read.
use ambion.Room.Rules.Leases.{is_live}
use ambion.Common.{
  ◌∙◌, Bool-cases, List, Option, Option-cases, Text, inl, inr, none, refl, some, subst, true, ℕ,
  ◌&&◌, ◌≡◌,
}
use ambion.Room.Commits.Freshness.{IsRead, commit-any_position, fresh_at}
use ambion.Room.Fold.{is_fixed}
use ambion.Common.Int.{ℤ}
use ambion.Room.Scheduled.{Dismissal, already_gone, dismiss, dismissal, never_scheduled, of_another}
use ambion.Common.Maps.{text_key, get}
use ambion.Room.Activation.{
  ActivationPurpose, ActivationSpec, Authority, holds, responds, seat_authority, summarizes, stale,
}
use ambion.Room.Authority.{Entitled, authority_is_Entitled}
use ambion.Room.Commit.{
  CommitRequest, Intent, Stamp, address_refusal, changes_seats, commit, commit_for,
  commit_permitted, commit_summary, commit_with, dismissed_as, dismisses, dismissing,
  freshness_refusal, or_person, ordinary_commit, ordinary_intent, permits, says, seat_stamp,
  seated_content, seating, seating_off_in, seconds_of, stamped, unseating, unseats, seats,
}
use ambion.Room.Commits.Written.{
  IsStamped, message_body-injective, or_refusal-body, stamped-IsStamped, write_stamped,
}
use ambion.Room.Completion.{covering_summary}
use ambion.Room.Messages.{message_body, on_list, seat_named}
use ambion.Room.Rules.Exchanges.{includes}
use ambion.Room.Rules.Summaries.{stamped_summary}
use ambion.Room.State.{RoomState}
use ambion.Room.Types.{Body, RuleLease, changed, dismissed, said, summary, unseated}

seating-IsStamped :
    (state : RoomState) (name : Text) (stamp : Stamp) (now : ℕ) (b : Body)
    → seating state name stamp now ≡ message_body b
    → IsStamped stamp b
unfolding seating
seating-IsStamped state name stamp now b h = elim (Bool-cases (on_list state.roster name)) [
  | inl e ↦ absurd (let w = rw e at h in cc)
  | inr e ↦ elim (Option-cases (seat_named state.reserve name)) [
    | inl n ↦ absurd (let w = rw (e, n) at h in cc)
    | inr (spare, s) ↦
        (write_stamped state stamp (seated_content spare) now none b (rw (e, s) at h)).0
  ]
]

unseating-IsStamped :
    (state : RoomState) (name : Text) (stamp : Stamp) (now : ℕ) (b : Body)
    → unseating state name stamp now ≡ message_body b
    → IsStamped stamp b
unfolding unseating
unseating-IsStamped state name stamp now b h = elim (Option-cases (seat_named state.roster name)) [
  | inl n ↦ elim (Bool-cases (on_list state.reserve name)) [
    | inl e ↦ absurd (let w = rw (n, e) at h in cc)
    | inr e ↦ absurd (let w = rw (n, e) at h in cc)
  ]
  | inr (seat, s) ↦ elim (Bool-cases (is_fixed seat state.composition)) [
    | inl e ↦ absurd (let w = rw (s, e) at h in cc)
    | inr e ↦
        (write_stamped state stamp (changed unseated name none none none none) now none b
          (rw (s, e) at h)).0
  ]
]

dismissed_as-IsStamped :
    (d : Dismissal) (say : ℕ) (stamp : Stamp) (seat : Text) (b : Body)
    → stamp.from ≡ some seat
    → dismissed_as d say stamp ≡ message_body b
    → IsStamped stamp b
dismissed_as-IsStamped dismiss say stamp seat b by h =
    subst (IsStamped stamp) (message_body-injective (stamped stamp (dismissed say)) b h)
      (stamped-IsStamped stamp (dismissed say))
dismissed_as-IsStamped already_gone say stamp seat b by h = absurd (let w = rw by at h in cc)
dismissed_as-IsStamped (of_another other) say stamp seat b by h = absurd (cc)
dismissed_as-IsStamped never_scheduled say stamp seat b by h = absurd (cc)

module _ (iso : ℕ → Text) (parse : Text → Option ℕ) where
  ordinary_intent-IsStamped :
      (intent : Intent) (state : RoomState) (request : CommitRequest) (spec : ActivationSpec)
      (now : ℕ) (b : Body)
      → ordinary_intent iso parse intent state request spec now ≡ message_body b
      → IsStamped (seat_stamp iso parse spec request now) b
  unfolding dismissing
  ordinary_intent-IsStamped (seats name) state request spec now b h =
      seating-IsStamped state name (seat_stamp iso parse spec request now) now b h
  ordinary_intent-IsStamped (unseats name) state request spec now b h =
      unseating-IsStamped state name (seat_stamp iso parse spec request now) now b h
  ordinary_intent-IsStamped (dismisses say) state request spec now b h =
      dismissed_as-IsStamped (dismissal state.scheduled state.messages (some spec.seat) say) say
        (seat_stamp iso parse spec request now) spec.seat b refl h
  ordinary_intent-IsStamped (says to text refs delay) state request spec now b h =
      let (allowed, done) =
        or_refusal-body (address_refusal state spec.seat to delay request.schedule) _ b h in
      (write_stamped state (seat_stamp iso parse spec request now)
        (said to text refs (seconds_of delay)) now request.bytes b done).0

  ordinary_commit-IsStamped :
      (state : RoomState) (request : CommitRequest) (spec : ActivationSpec) (now : ℕ) (b : Body)
      → ordinary_commit iso parse state request spec now ≡ message_body b
      → IsStamped (seat_stamp iso parse spec request now) b
  unfolding ordinary_commit
  ordinary_commit-IsStamped state request spec now b h =
      let (up_to_date, done) =
        or_refusal-body (freshness_refusal request.intent state request.read_through) _ b h in
      ordinary_intent-IsStamped request.intent state request spec now b done

  pub commit_summary-Written :
      (state : RoomState) (request : CommitRequest) (spec : ActivationSpec) (exchange through : ℕ)
      (recipient : Text) (people : List Text) (text : Text) (refs : List Text) (now : ℕ) (b : Body)
      → commit_summary iso parse state request spec exchange through recipient people text refs now
        ≡ message_body b
      → IsStamped (seat_stamp iso parse spec request now) b
        × (b.content ≡ summary recipient text refs exchange through)
  unfolding commit_summary stamped_summary
  commit_summary-Written state request spec exchange through recipient people text refs now b h =
      elim (Bool-cases (includes people recipient)) [
        | inr e ↦ absurd (let w = rw e at h in cc)
        | inl e ↦
            elim (Option-cases (covering_summary state.messages recipient exchange through none)) [
              | inr (m, c) ↦ absurd (let w = rw (e, c) at h in cc)
              | inl c ↦
                  write_stamped state (seat_stamp iso parse spec request now)
                    (summary recipient text refs exchange through) now request.bytes b
                    (rw (e, c) at h)
            ]
      ]

  commit_for-IsStamped :
      (intent : Intent) (purpose : ActivationPurpose) (state : RoomState) (request : CommitRequest)
      (spec : ActivationSpec) (now : ℕ) (b : Body)
      → commit_for iso parse intent purpose state request spec now ≡ message_body b
      → IsStamped (seat_stamp iso parse spec request now) b
  commit_for-IsStamped (says to text refs none) (summarizes exchange person through people) state
        request spec now b h =
      (commit_summary-Written state request spec exchange through (or_person to person) people text
        refs now b h).0
  commit_for-IsStamped (says to text refs (some delay)) (summarizes exchange person through people)
        state request spec now b h =
      absurd (cc)
  commit_for-IsStamped (says to text refs delay) (responds m) state request spec now b h =
      ordinary_commit-IsStamped state request spec now b h
  commit_for-IsStamped (seats name) purpose state request spec now b h =
      ordinary_commit-IsStamped state request spec now b h
  commit_for-IsStamped (unseats name) purpose state request spec now b h =
      ordinary_commit-IsStamped state request spec now b h
  commit_for-IsStamped (dismisses say) purpose state request spec now b h =
      ordinary_commit-IsStamped state request spec now b h

  -- What a commit that is permitted decides.
  pub commit_permitted-for :
      (state : RoomState) (request : CommitRequest) (spec : ActivationSpec) (now : ℕ) (b : Body)
      → commit_permitted iso parse state request spec now ≡ message_body b
      → (permits spec request.intent ≡ true)
        × (commit_for iso parse request.intent spec.purpose state request spec now ≡ message_body b)
  unfolding commit_permitted
  commit_permitted-for state request spec now b h =
      elim (Bool-cases (permits spec request.intent)) [
        | inr e ↦ absurd (let w = rw e at h in cc)
        | inl e ↦
            elim (Bool-cases (seating_off_in state.composition && changes_seats request.intent)) [
              | inl off ↦ absurd (let w = rw (e, off) at h in cc)
              | inr on ↦ (e, rw (e, on) at h)
            ]
      ]

  commit_with-held :
      (a : Authority) (state : RoomState) (request : CommitRequest) (now : ℕ) (b : Body)
      → commit_with iso parse a state request now ≡ message_body b
      → (spec : ActivationSpec) × (lease : RuleLease) × (a ≡ holds spec lease)
        × (commit_permitted iso parse state request spec now ≡ message_body b)
  commit_with-held (stale why) state request now b h = absurd (cc)
  commit_with-held (holds spec lease) state request now b h = (spec, lease, refl, h)

  pub commit-held :
      (state : RoomState) (request : CommitRequest) (now : ℕ) (b : Body)
      → commit iso parse state request now ≡ message_body b
      → (spec : ActivationSpec) × (lease : RuleLease) × (seat_authority state request.activation now
          ≡ holds spec lease)
        × (commit_permitted iso parse state request spec now ≡ message_body b)
  unfolding commit
  commit-held state request now b h =
      commit_with-held (seat_authority state request.activation now) state request now b h

  -- A message that a seat commits is its own: its activation has a live lease, its seat is on the roster and
  -- neither removed nor cancelled since the cause, and the message names that seat as its author, that
  -- activation as its origin, and the time of the command.
  pub commit-IsStamped :
      (state : RoomState) (request : CommitRequest) (now : ℕ) (b : Body)
      → commit iso parse state request now ≡ message_body b
      → (spec : ActivationSpec) × (lease : RuleLease) × (get state.leases request.activation
          ≡ some lease)
        × (is_live lease now ≡ true)
        × Entitled state request.activation spec
        × (b.from ≡ some spec.seat)
        × (b.activation ≡ some request.activation)
        × (b.at ≡ iso now)
  commit-IsStamped state request now b h =
      let (spec, lease, held_by, permitted) = commit-held state request now b h in
      let (at, live, entitled) =
        authority_is_Entitled state request.activation now spec lease held_by in
      let (may, done) = commit_permitted-for state request spec now b permitted in
      let own = commit_for-IsStamped request.intent spec.purpose state request spec now b done in
      (spec, lease, at, live, entitled, own.by, own.for, own.dated)

  -- A say of a seat that answers a message is an ordinary intent.
  pub commit-ordinary_say :
      (state : RoomState) (request : CommitRequest) (now : ℕ) (spec : ActivationSpec)
      (lease : RuleLease) (m : ℕ) (to : Option Text) (text : Text) (refs : List Text)
      (delay : Option ℤ) (b : Body)
      → seat_authority state request.activation now ≡ holds spec lease
      → spec.purpose ≡ responds m
      → request.intent ≡ says to text refs delay
      → commit iso parse state request now ≡ message_body b
      → (freshness_refusal (says to text refs delay) state request.read_through ≡ none)
        × (ordinary_intent iso parse (says to text refs delay) state request spec now
            ≡ message_body b)
  unfolding commit ordinary_commit
  commit-ordinary_say state request now spec lease m to text refs delay b held_by purpose intent h =
      let (may, done) = commit_permitted-for state request spec now b (rw held_by at h) in
      let ordinary =
        subst (λ i. commit_for iso parse i (responds m) state request spec now ≡ message_body b)
          intent
          (subst
            (λ p. commit_for iso parse request.intent p state request spec now ≡ message_body b)
            purpose done) in
      let (up_to_date, more) =
        or_refusal-body (freshness_refusal request.intent state request.read_through) _ b
          ordinary in
      (
        subst (λ i. freshness_refusal i state request.read_through ≡ none) intent up_to_date,
        subst (λ i. ordinary_intent iso parse i state request spec now ≡ message_body b) intent
            more,
      )

  -- A say of a seat that answers a message lands, when the seat does not schedule it, only if it read the record
  -- to its end: the position that it states is that of the last message. When the seat schedules it, it
  -- lands the same message whatever position it states, or if it states none.
  pub say_reads_all :
      (state : RoomState) (request : CommitRequest) (now : ℕ) (spec : ActivationSpec)
      (lease : RuleLease) (m : ℕ) (to : Option Text) (text : Text) (refs : List Text)
      (delay : Option ℤ) (b : Body)
      → seat_authority state request.activation now ≡ holds spec lease
      → spec.purpose ≡ responds m
      → request.intent ≡ says to text refs delay
      → commit iso parse state request now ≡ message_body b
      → IsRead iso parse delay state request now b
  say_reads_all state request now spec lease m to text refs none b held_by purpose intent h =
      fresh_at request.read_through state
        (commit-ordinary_say state request now spec lease m to text refs none b held_by purpose
          intent h).0
  say_reads_all state request now spec lease m to text refs (some seconds) b held_by purpose intent
        h =
      λ read.
        commit-any_position iso parse state request now spec lease m to text refs seconds read
          held_by purpose intent
        ∙ h
