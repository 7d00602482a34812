-- ===== src/Room/Commits/Waiting.antt =====
-- packages/ambion/src/room/scheduled.ts and transition.ts: how many says a seat has waiting.
use ambion.Common.{
  leb, ◌*◌, Option-cases, some-injective, subst, Bool-cases, List, Option, Text, [], arith, false,
  filter, inl, inr, length, none, not, refl, some, text_eq, ℕ, ◌++◌, ◌+◌, ◌<◌, ◌∷◌, ◌≡◌, ◌≤◌, ◌||◌,
}
use ambion.Room.Scheduled.{
  max_time, ScheduleFault, schedule_step, step_content, waits_until, ScheduleLimits, above,
  is_safe_integer, reaches, schedule_refusal,
}
use ambion.Common.Int.{to_nat, lt_nat, negsuc, pos, ℤ}
use ambion.Room.Activation.{ActivationSpec, holds, responds, seat_authority}
use ambion.Room.Commit.{
  CommitRequest, address_refusal, commit, fault_refusal, ordinary_intent, says, seat_stamp,
}
use ambion.Room.Commits.Authored.{commit-ordinary_say}
use ambion.Room.Commits.Written.{or_refusal-body, write_stamped}
use ambion.Room.Messages.{message_body}
use ambion.Room.State.{RoomState, ScheduledSay}
use ambion.Room.Types.{Body, Message, RuleLease, said}
use ambion.Room.Fold.{same_as}

-- The says of one seat that wait to return.
abbrev pub waiting_of : List ScheduledSay → Text → ℕ
waiting_of list seat = length (filter (λ say. text_eq say.seat seat) list)

-- A delay within the limits.
abbrev pub IsWithin : ScheduleLimits → ℤ → Type 0
IsWithin limits delay =
    (seconds : ℕ) × (delay ≡ pos seconds)
    × (limits.min_delay_seconds ≤ seconds)
    × ((most : ℕ) → limits.max_delay_seconds ≡ some most → seconds ≤ most)

-- What a delay that is not refused satisfies.
record IsAllowed (list : List ScheduledSay) (seat : Text) (delay : ℤ) (limits : ScheduleLimits)
    : Type 0 where
  within : IsWithin limits delay
  room_for : (most : ℕ) → limits.waiting ≡ some most → waiting_of list seat < most

inside-IsWithin :
    (limits : ScheduleLimits) (delay : ℤ)
    → (lt_nat delay limits.min_delay_seconds || above delay limits.max_delay_seconds) ≡ false
    → IsWithin limits delay
inside-IsWithin limits (negsuc n) h = absurd (cc)
inside-IsWithin limits (pos n) h =
    (n, refl, ground arith, λ most e. let w = rw e at h in ground arith)

below-limit :
    (count : ℕ) (limit : Option ℕ) (most : ℕ)
    → reaches count limit ≡ false
    → limit ≡ some most
    → count < most
below-limit count limit most h e = let w = rw e at h in ground arith

schedule_refusal-IsAllowed :
    (list : List ScheduledSay) (seat : Text) (to : Option Text) (delay : ℤ)
    (limits : ScheduleLimits)
    → schedule_refusal list seat to delay limits ≡ none
    → IsAllowed list seat delay limits
unfolding schedule_refusal
schedule_refusal-IsAllowed list seat to delay limits h = elim (Bool-cases (not (same_as to seat))) [
  | inl a ↦ absurd (let w = rw a at h in cc)
  | inr a ↦ elim (Bool-cases (not (is_safe_integer delay))) [
    | inl b ↦ absurd (let w = rw (a, b) at h in cc)
    | inr b ↦
        elim (Bool-cases
          (lt_nat delay limits.min_delay_seconds || above delay limits.max_delay_seconds)) [
            | inl c ↦ absurd (let w = rw (a, b, c) at h in cc)
            | inr c ↦ elim (Bool-cases (reaches (waiting_of list seat) limits.waiting)) [
              | inl d ↦ absurd (let w = rw (a, b, c, d) at h in cc)
              | inr d ↦ record {
                within = inside-IsWithin limits delay c;
                room_for = λ most e. below-limit (waiting_of list seat) limits.waiting most d e;
              }
            ]
          ]
  ]
]

waiting_of-append :
    (list : List ScheduledSay) (say : ScheduledSay) (seat : Text)
    → waiting_of (list ++ say ∷ []) seat ≤ waiting_of list seat + 1
unfolding filter
waiting_of-append [] say seat = ground arith
waiting_of-append (s ∷ list) say seat = ground (arith, waiting_of-append list say seat)

no_fault : (o : Option ScheduleFault) → fault_refusal o ≡ none → o ≡ none
no_fault none h = refl
no_fault (some fault) h = absurd (cc)

module _ (iso : ℕ → Text) (parse : Text → Option ℕ) where
  step_content-waits :
      (list after : List ScheduledSay) (m : Message) (to : Option Text) (text : Text)
      (refs : List Text) (seconds : ℕ) (seat : Text)
      → step_content iso parse list m (said to text refs (some seconds)) ≡ some after
      → waiting_of after seat ≤ waiting_of list seat + 1
  step_content-waits list after m to text refs seconds seat h = elim (Option-cases (parse m.at)) [
    | inl e ↦ absurd (let w = rw e at h in cc)
    | inr (t, e) ↦
        let waits =
          subst
            (λ o.
              waits_until iso parse o list m (said to text refs (some seconds)) seconds
              ≡ some after)
            e h in
        elim (Bool-cases (leb (t + seconds * 1000) max_time)) [
          | inl dated ↦
              subst (λ l. waiting_of l seat ≤ waiting_of list seat + 1)
                (some-injective (rw dated at waits)) (waiting_of-append list _ seat)
          | inr late ↦ absurd (let w = rw late at waits in cc)
        ]
  ]

  scheduled_say-IsAllowed :
      (state : RoomState) (request : CommitRequest) (spec : ActivationSpec) (now : ℕ)
      (to : Option Text) (text : Text) (refs : List Text) (delay : ℤ) (b : Body)
      → ordinary_intent iso parse (says to text refs (some delay)) state request spec now
        ≡ message_body b
      → IsAllowed state.scheduled spec.seat delay request.schedule
        × (b.content ≡ said to text refs (some (to_nat delay)))
  scheduled_say-IsAllowed state request spec now to text refs delay b h =
      let (allowed, done) =
        or_refusal-body (address_refusal state spec.seat to (some delay) request.schedule) _ b h in
      let (own, content) =
        write_stamped state (seat_stamp iso parse spec request now)
          (said to text refs (some (to_nat delay))) now request.bytes b done in
      (
        schedule_refusal-IsAllowed state.scheduled spec.seat to delay request.schedule
            (no_fault _ (unfold address_refusal in allowed)),
        content,
      )

  -- A seat that schedules a say asks for a delay within the limits of its request, and has at most
  -- the allowed number of says waiting, counted with this one, once the message is on the record.
  pub waiting_is_bounded :
      (state : RoomState) (request : CommitRequest) (now : ℕ) (spec : ActivationSpec)
      (lease : RuleLease) (m : ℕ) (to : Option Text) (text : Text) (refs : List Text) (delay : ℤ)
      (b : Body) (seq most : ℕ) (after : List ScheduledSay)
      → seat_authority state request.activation now ≡ holds spec lease
      → spec.purpose ≡ responds m
      → request.intent ≡ says to text refs (some delay)
      → request.schedule.waiting ≡ some most
      → commit iso parse state request now ≡ message_body b
      → schedule_step iso parse state.scheduled (record { body = b; seq = seq }) ≡ some after
      → IsWithin request.schedule delay × (waiting_of after spec.seat ≤ most)
  unfolding schedule_step
  waiting_is_bounded state request now spec lease m to text refs delay b seq most after held_by
        purpose intent limit h stepped =
      let (up_to_date, more) =
        commit-ordinary_say iso parse state request now spec lease m to text refs (some delay) b
          held_by purpose intent h in
      let (allowed, content) =
        scheduled_say-IsAllowed state request spec now to text refs delay b more in
      let said_at : Message = record { body = b; seq = seq } in
      let count =
        step_content-waits state.scheduled after said_at to text refs (to_nat delay) spec.seat (
          subst (λ c. step_content iso parse state.scheduled said_at c ≡ some after) content
            stepped) in
      (allowed.within, omega (arith, count, allowed.room_for most limit))
