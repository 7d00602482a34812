-- ===== src/Room/Attempts.antt =====
-- packages/ambion/src/room/lease.ts `dueOf` and `dueActivation`, with `answers` and `countsAgainst`
-- of rules.verified.ts: the attempts at one message.
use ambion.Common.{
  ==_iff, Memᴰ, any_complete, Bool-cases, [], ap, arith, filter, filter-append, length-append, none,
  some-injective, sym, ◌++◌, ◌∷◌, Bool, List, Option, Text, false, inl, inr, length, refl, some,
  true, ℕ, ◌+◌, ◌≡◌,
}
use ambion.Room.Passes.Endings.{ended_by}
use ambion.Room.Reconcile.{abandonment, due_of, due_with, is_due, due_activation}
use ambion.Room.Rules.Leases.{apply_change, next_attempt}
use ambion.Room.Rules.Wakes.{
  answers, counts_against, wake_answered, answers_state, came_to_nothing, counts_state,
}
use ambion.Room.Types.{
  ActivationFields, EndReason, FailureCause, LeaseState, RuleLease, Source, ends,
}
use ambion.Room.ActivationId.{encode_activation_id}
use ambion.Room.Rules.Grants.{next_activation_id}
use ambion.Room.State.{DueActivation}
use mathlib.Core.List.Memᴰ

-- An ended lease that came to nothing answers no message, and counts against each.
abbrev pub CameToNothing : RuleLease → Type 0
CameToNothing l =
    (reason : EndReason) × (c : Bool) × (f : Option FailureCause) × (until : ℕ) × (l.state
      ≡ ends reason c f until)
    × (came_to_nothing reason ≡ true)

state-failed :
    (l : RuleLease) (s : LeaseState) (reason : EndReason) (c : Bool) (f : Option FailureCause)
    (until seq : ℕ)
    → s ≡ ends reason c f until
    → came_to_nothing reason ≡ true
    → (answers_state s l seq ≡ false) × (counts_state s l seq ≡ true)
state-failed l s reason c f until seq e h = rw (e, h) (refl, refl)

lease-failed :
    (l : RuleLease) (seq : ℕ)
    → CameToNothing l
    → (answers l seq ≡ false) × (counts_against l seq ≡ true)
unfolding answers counts_against
lease-failed l seq (reason, c, f, until, e, h) = state-failed l l.state reason c f until seq e h

one_more :
    (seq : ℕ) (taken : List RuleLease) (broken : RuleLease)
    → CameToNothing broken
    → length (filter (λ l. counts_against l seq) (taken ++ broken ∷ []))
      ≡ length (filter (λ l. counts_against l seq) taken) + 1
one_more seq taken broken failed_now =
    let counted = (lease-failed broken seq failed_now).1 in
    rw
      (
        filter-append (λ l. counts_against l seq) taken (broken ∷ []),
        length-append (filter (λ l. counts_against l seq) taken)
            (filter (λ l. counts_against l seq) (broken ∷ [])),
      )
      (unfold filter in rw counted refl)

module _ (parse : Text → Option ℕ) where
  due_with-tries :
      (id : Option Text) (next : ActivationFields) (failures : List RuleLease) (backoff : ℕ → ℕ)
      (due : DueActivation)
      → due_with parse id next failures backoff ≡ some due
      → (due.unsuccessful_attempts ≡ length failures) × (due.attempt ≡ next.attempt)
  due_with-tries none next failures backoff due e = absurd (cc)
  due_with-tries (some id) next failures backoff due e = (
    sym (ap (λ d. d.unsuccessful_attempts) (some-injective e)),
    sym (ap (λ d. d.attempt) (some-injective e)),
  )

  is_due-some :
      (o : Option DueActivation) (due : DueActivation)
      → is_due parse o ≡ some (some due)
      → o ≡ some due
  is_due-some none due e = absurd (cc)
  is_due-some (some d) due e = some-injective e

  due_of-tries :
      (seq : ℕ) (seat : Text) (taken : List RuleLease) (backoff : ℕ → ℕ) (due : DueActivation)
      → due_of parse seq seat taken backoff ≡ some (some due)
      → (wake_answered taken seq ≡ false)
        × (due.unsuccessful_attempts ≡ length (filter (λ l. counts_against l seq) taken))
        × (due.attempt ≡ length (filter (λ l. counts_against l seq) taken) + 1)
  unfolding due_of due_activation next_activation_id next_attempt
  due_of-tries seq seat taken backoff due e = elim (Bool-cases (wake_answered taken seq)) [
    | inl answered ↦ absurd (let w = some-injective (rw answered at e) in cc)
    | inr open_wake ↦
        let failures = filter (λ l. counts_against l seq) taken in
        let next = next_activation_id Source.message seq seat (length failures) in
        let (tries, number) = due_with-tries (encode_activation_id next) next failures backoff due (
          is_due-some (due_activation parse Source.message seq seat failures backoff) due
            (rw open_wake at e)) in
        (open_wake, tries, number)
  ]

-- Retries make progress: when a message is due before and after one more attempt that failed or
-- expired, it is then due with one more unsuccessful attempt, and its next attempt has the next
-- number.
pub retry_advances :
    (parse : Text → Option ℕ) (seq : ℕ) (seat : Text) (taken : List RuleLease) (backoff : ℕ → ℕ)
    (broken : RuleLease) (due next : DueActivation)
    → CameToNothing broken
    → due_of parse seq seat taken backoff ≡ some (some due)
    → due_of parse seq seat (taken ++ broken ∷ []) backoff ≡ some (some next)
    → (next.unsuccessful_attempts ≡ due.unsuccessful_attempts + 1)
      × (next.attempt ≡ due.attempt + 1)
retry_advances parse seq seat taken backoff broken due next failed_now e e' =
    let (a, tries, number) = due_of-tries parse seq seat taken backoff due e in
    let (b, tries', number') = due_of-tries parse seq seat (taken ++ broken ∷ []) backoff next e' in
    let more = one_more seq taken broken failed_now in
    (omega (arith, tries, tries', more), omega (arith, number, number', more))

-- Giving up settles: when a lease at the place of a message ends as abandoned before it was
-- claimed, the message is due no more, whatever leases were taken before.
pub abandonment_settles :
    (parse : Text → Option ℕ) (iso : ℕ → Text) (owed : DueActivation) (now seq place : ℕ)
    (seat : Text) (taken : List RuleLease) (backoff : ℕ → ℕ) (id : ActivationFields)
    → id.position ≡ seq
    → due_of parse seq seat
        (taken ++ apply_change none (ended_by iso (abandonment owed) now) place id ∷ [])
        backoff
      ≡ some none
unfolding due_of abandonment apply_change
abandonment_settles parse iso owed now seq place seat taken backoff id at =
    let last_one = apply_change none (ended_by iso (abandonment owed) now) place id in
    let answered : wake_answered (taken ++ last_one ∷ []) seq ≡ true =
      unfold wake_answered apply_change abandonment in
      any_complete (λ l. answers l seq) (Memᴰ.append_right taken (Memᴰ.head refl))
        (unfold answers came_to_nothing in rw ((==_iff id.position seq).1 at) refl) in
    rw answered refl
