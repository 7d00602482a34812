-- ===== src/Room/Reached/Cancelled.antt =====
-- packages/ambion/src/room/projection.ts `onCancel`: what a cancellation leaves of the work before it.
use ambion.Room.Passes.Closing.{opening_question-closed}
use ambion.Common.{
  All, List, Option, Option-cases, Text, [], ap, inl, inr, none, refl, some, some-injective, subst,
  true, ℕ, ◌<◌, ◌∙◌, ◌∷◌, ◌≡◌, ◌≤◌, ◌⊎◌,
}
use ambion.Common.Options.{>>=-some, after_>>=}
use ambion.Room.Advance.{advance, cancelled_facts, close_if, closed_at, on_cancel, with_close}
use ambion.Room.Completion.{exchange_after}
use ambion.Room.Fold.{apply_entry, cancel_close, cancel_entry, cancelled_close, last_message_seq}
use ambion.Room.Owed.{DueSummarize, judge_owed, rejudge_owed}
use ambion.Room.Projection.{RoomProjection, add_judged, facts_of, summary_close}
use ambion.Room.Reached.{Reached, Reached-IsDerived}
use ambion.Room.Replays.{IsDerived, person_names}
use ambion.Room.Replays.Closing.{cancel-Step}
use ambion.Room.Replays.Exchange.{exchange_after-tail}
use ambion.Room.Types.{Message}

-- The facts after a cancellation, by whether an exchange was open.
abbrev Ends : RoomProjection → RoomProjection → Type 0
Ends p q =
    (p.exchange ≡ none) × (q.exchange ≡ none)
    ⊎ (q.boundary ≡ last_message_seq p.base.messages) × (q.base.messages ≡ p.base.messages)

abbrev Cleared : RoomProjection → RoomProjection → Type 0
Cleared p q = (q.wakes ≡ []) × (q.scheduled ≡ []) × Ends p q

no_question :
    (messages : List Message) (people : List Text) (through : ℕ)
    → All (λ m. m.seq ≤ through) messages
    → exchange_after messages people through ≡ none
unfolding exchange_after
no_question messages people through all =
    rw (opening_question-closed messages people through all) refl

module _ (iso : ℕ → Text) (parse : Text → Option ℕ) (backoff : ℕ → ℕ) where
  closed_if-Cleared :
      (p q : RoomProjection) (at : Text) (seq : ℕ) (owed : List DueSummarize)
      → close_if iso parse backoff
          (cancelled_close p.exchange (last_message_seq p.base.messages) at)
          (record (cancelled_facts p at seq) { owed = owed })
        ≡ some q
      → Cleared p q
  unfolding closed_at
  closed_if-Cleared p q at seq owed h = elim (Option-cases p.exchange) [
    | inl idle ↦
        let none_closed : cancelled_close p.exchange (last_message_seq p.base.messages) at ≡ [] =
          unfold cancelled_close in rw idle refl in
        subst (Cleared p) (some-injective (rw none_closed at h)) (refl, refl, inl (idle, idle))
    | inr (o, was) ↦
        let close = cancel_close o (last_message_seq p.base.messages) at in
        let one_closed : cancelled_close p.exchange (last_message_seq p.base.messages) at
            ≡ close ∷ [] =
          unfold cancelled_close in rw was refl in
        let r = record (cancelled_facts p at seq) { owed = owed } in
        after_>>= (Cleared p) (judge_owed parse backoff (summary_close close) (facts_of r))
          (λ next. with_close r close (add_judged owed next)) {b = q}
          (λ next. (refl, refl, inr (refl, unfold apply_entry in refl))) (rw one_closed at h)
  ]

  on_cancel-Cleared :
      (p q : RoomProjection) (at : Text) (seq : ℕ)
      → on_cancel iso parse backoff p at seq ≡ some q
      → Cleared p q
  unfolding on_cancel
  on_cancel-Cleared p q at seq h =
      let (owed, judged, done) =
        >>=-some
          (rejudge_owed parse backoff p.owed (λ o. true) (facts_of (cancelled_facts p at seq)))
          (λ owed.
            close_if iso parse backoff
              (cancelled_close p.exchange (last_message_seq p.base.messages) at)
              (record (cancelled_facts p at seq) { owed = owed }))
          h in
      closed_if-Cleared p q at seq owed done

  ended_exchange :
      (p q : RoomProjection) (top seq : ℕ)
      → All (λ m. m.seq ≤ last_message_seq p.base.messages) p.base.messages
      → IsDerived q seq
      → Ends p q
      → q.exchange ≡ none
  ended_exchange p q top seq all d (inl (idle, still)) = still
  ended_exchange p q top seq all d (inr (bound, kept)) =
      d.asked
      ∙ ap (λ t. exchange_after t (person_names q.people) q.boundary) d.kept
      ∙ exchange_after-tail q.base.messages (person_names q.people) q.boundary
      ∙ ap (λ b. exchange_after q.base.messages (person_names q.people) b) bound
      ∙ ap (λ m. exchange_after m (person_names q.people) (last_message_seq p.base.messages)) kept
      ∙ no_question p.base.messages (person_names q.people) (last_message_seq p.base.messages) all

  -- A cancellation clears the room: in a room that its own decisions moved, where no message is past the
  -- last one, it leaves no open exchange, no wake that is open and no say that waits to return.
  pub cancel_clears :
      (p q : RoomProjection) (at : Text) (top seq : ℕ)
      → Reached iso parse backoff p top
      → top < seq
      → All (λ m. m.seq ≤ last_message_seq p.base.messages) p.base.messages
      → advance iso parse backoff p (cancel_entry at) seq ≡ some q
      → (q.exchange ≡ none) × (q.wakes ≡ []) × (q.scheduled ≡ [])
  unfolding advance
  cancel_clears p q at top seq there later all h =
      let (i, d) = Reached-IsDerived iso parse backoff p top there in
      let step = cancel-Step iso parse backoff p q at top seq later i d h in
      let (wakes, scheduled, ends_so) = on_cancel-Cleared p q at seq h in
      (ended_exchange p q top seq all step.derived ends_so, wakes, scheduled)
