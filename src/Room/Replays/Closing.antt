-- ===== src/Room/Replays/Closing.antt =====
-- packages/ambion/src/room/projection.ts: the steps of a close and of a cancellation.
use ambion.Common.{
  true, Option-cases, append-nil, inl, inr, [], none, ◌++◌, ◌∷◌, Option, Text, some, some-injective,
  List, ap, arith, refl, subst, sym, ℕ, ◌<◌, ◌∙◌, ◌≡◌, ◌≤◌,
}
use ambion.Room.Advance.{on_cancel, close_if, cancelled_facts, closed_at, on_close, with_close}
use ambion.Room.Fold.{
  cancel_close, cancel_entry, cancel_leases, cancelled_close, close_entry, last_message_seq,
  apply_entry,
}
use ambion.Room.Replays.Record.{asked-open, boundary_of-append, with_close-IsDerived}
use ambion.Common.Maps.{number_key, text_key}
use ambion.Common.Options.{after_>>=, >>=-some}
use ambion.Room.Owed.{judge_owed, rejudge_owed, DueSummarize}
use ambion.Room.Projection.{facts_of, summary_close, add_judged, RoomProjection}
use ambion.Room.Replays.{IsPlaced, boundary_of, IsDerived, IsIndexed, facts_after}
use ambion.Room.Replays.AtWork.{cancel-Kept, Kept}
use ambion.Room.Running.{Apart-empty, running_of-at_work}
use ambion.Room.Types.{Close}
use ambion.Room.Replays.Steps.{Step, IsIndexed-later, IsIndexed-same}

module _ (iso : ℕ → Text) (parse : Text → Option ℕ) (backoff : ℕ → ℕ) where
  pub close-Step :
      (p q : RoomProjection) (close : Close) (top seq : ℕ)
      → top < seq
      → IsPlaced p.base (close_entry close) seq
      → IsIndexed p top
      → IsDerived p top
      → on_close iso parse backoff p close ≡ some q
      → Step p q (close_entry close) seq
  unfolding on_close closed_at facts_after apply_entry
  close-Step p q close top seq later (from, through) i d h =
      let r = record p { base = record p.base { closes = p.base.closes ++ close ∷ [] } } in
      after_>>= (λ x. Step p x (close_entry close) seq)
        (judge_owed parse backoff (summary_close close) (facts_of r))
        (λ next. with_close r close (add_judged p.owed next))
        (λ next. record {
          base = refl;
          indexed =
              IsIndexed-same p (with_close r close (add_judged p.owed next)) seq refl refl
                (IsIndexed-later p top seq (omega (arith, later)) i);
          derived =
              with_close-IsDerived r close seq (add_judged p.owed next) d.met d.kept d.newest
                (boundary_of-append p.base.closes close)
                (subst (λ b. b ≤ close.through) (sym d.bounded) from) through
                (omega (arith, later, d.placed));
        })
        h

  -- What a cancellation leaves of the index of leases.
  cancelled-IsIndexed :
      (p : RoomProjection) (at : Text) (top seq : ℕ)
      → top < seq
      → IsIndexed p top
      → IsIndexed (cancelled_facts p at seq) seq
  unfolding apply_entry
  cancelled-IsIndexed p at top seq later i =
      let was : Kept top p.base.leases = record { listed = i.listed; over = i.over } in
      let now = cancel-Kept top seq p.base.leases at (omega (arith, later)) was in
      record {
        at_work =
            running_of-at_work [] (cancel_leases p.base.leases seq at) now.listed
              (Apart-empty (cancel_leases p.base.leases seq at));
        listed = now.listed;
        over = now.over;
      }

  cancel_base :
      (p : RoomProjection) (at : Text) (top seq : ℕ)
      → IsDerived p top
      → apply_entry p.base (cancel_entry at) seq p.exchange
        ≡ facts_after p.base (cancel_entry at) seq
  unfolding facts_after
  cancel_base p at top seq d = ap (apply_entry p.base (cancel_entry at) seq) (asked-open p top d)

  cancel_idle-Step :
      (p : RoomProjection) (at : Text) (top seq : ℕ) (owed : List DueSummarize)
      → top < seq
      → IsIndexed p top
      → IsDerived p top
      → p.exchange ≡ none
      → Step p (record (cancelled_facts p at seq) { owed = owed }) (cancel_entry at) seq
  unfolding apply_entry cancelled_close
  cancel_idle-Step p at top seq owed later i d idle =
      let indexed = cancelled-IsIndexed p at top seq later i in
      let same_closes : p.base.closes
            ++ cancelled_close p.exchange (last_message_seq p.base.messages) at
          ≡ p.base.closes =
        rw idle (append-nil p.base.closes) in
      record {
        base = cancel_base p at top seq d;
        indexed = record {
          at_work = indexed.at_work;
          listed = indexed.listed;
          over = indexed.over;
        };
        derived = record {
          met = d.met;
          kept = d.kept;
          asked = d.asked;
          bounded = d.bounded ∙ ap boundary_of (sym same_closes);
          within = d.within;
          placed = omega (arith, later, d.placed);
          newest = d.newest;
        };
      }

  cancel_open-Step :
      (p : RoomProjection) (at : Text) (top seq : ℕ) (close : Close) (owed more : List DueSummarize)
      → top < seq
      → IsIndexed p top
      → IsDerived p top
      → close.through ≡ last_message_seq p.base.messages
      → cancelled_close p.exchange (last_message_seq p.base.messages) at ≡ close ∷ []
      → Step p
          (with_close (record (cancelled_facts p at seq) { owed = owed }) close more)
          (cancel_entry at)
          seq
  unfolding apply_entry
  cancel_open-Step p at top seq close owed more later i d through closes =
      let r = record (cancelled_facts p at seq) { owed = owed } in
      let indexed = cancelled-IsIndexed p at top seq later i in
      record {
        base = cancel_base p at top seq d;
        indexed = record {
          at_work = indexed.at_work;
          listed = indexed.listed;
          over = indexed.over;
        };
        derived =
            with_close-IsDerived r close seq more d.met d.kept d.newest
              (ap (λ c. boundary_of (p.base.closes ++ c)) closes
                ∙ boundary_of-append p.base.closes close)
              (omega (arith, through, d.within)) (omega (arith, through))
              (omega (arith, later, d.placed));
      }

  closed_if-Step :
      (p q : RoomProjection) (at : Text) (top seq : ℕ) (owed : List DueSummarize)
      → top < seq
      → IsIndexed p top
      → IsDerived p top
      → close_if iso parse backoff
          (cancelled_close p.exchange (last_message_seq p.base.messages) at)
          (record (cancelled_facts p at seq) { owed = owed })
        ≡ some q
      → Step p q (cancel_entry at) seq
  unfolding closed_at
  closed_if-Step p q at top seq owed later i d h = elim (Option-cases p.exchange) [
    | inl idle ↦
        let none_closed : cancelled_close p.exchange (last_message_seq p.base.messages) at ≡ [] =
          unfold cancelled_close in rw idle refl in
        subst (λ x. Step p x (cancel_entry at) seq) (some-injective (rw none_closed at h))
          (cancel_idle-Step p at top seq owed later i d idle)
    | inr (o, was) ↦
        let close = cancel_close o (last_message_seq p.base.messages) at in
        let one_closed : cancelled_close p.exchange (last_message_seq p.base.messages) at
            ≡ close ∷ [] =
          unfold cancelled_close in rw was refl in
        let r = record (cancelled_facts p at seq) { owed = owed } in
        after_>>= (λ x. Step p x (cancel_entry at) seq)
          (judge_owed parse backoff (summary_close close) (facts_of r))
          (λ next. with_close r close (add_judged owed next))
          (λ next.
            cancel_open-Step p at top seq close owed (add_judged owed next) later i d refl
              one_closed)
          (rw one_closed at h)
  ]

  pub cancel-Step :
      (p q : RoomProjection) (at : Text) (top seq : ℕ)
      → top < seq
      → IsIndexed p top
      → IsDerived p top
      → on_cancel iso parse backoff p at seq ≡ some q
      → Step p q (cancel_entry at) seq
  unfolding on_cancel
  cancel-Step p q at top seq later i d h =
      let (owed, judged, done) =
        >>=-some
          (rejudge_owed parse backoff p.owed (λ o. true) (facts_of (cancelled_facts p at seq)))
          (λ owed.
            close_if iso parse backoff
              (cancelled_close p.exchange (last_message_seq p.base.messages) at)
              (record (cancelled_facts p at seq) { owed = owed }))
          h in
      closed_if-Step p q at top seq owed later i d done
