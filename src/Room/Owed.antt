-- ===== src/Room/Owed.antt =====
-- packages/ambion/src/room/owed.ts: the summaries that are still owed. A wait that follows failed
-- attempts, and `Date.parse`, are parameters of a section. `none` stands for a throw.
use ambion.Common.{Bool, List, Option, Text, [], filter, if◌then◌else◌, none, some, ℕ, ◌∷◌}
use ambion.Common.Maps.{number_key, text_key, get, values}
use ambion.Room.Completion.{
  Completion, SummaryClose, pending_summary, summary_completion, summary_leases_of,
}
use ambion.Room.Reconcile.{due_activation}
use ambion.Room.Rules.Wakes.{counts_against}
use ambion.Room.State.{DueActivation}
use ambion.Room.Types.{Message, RuleLease, Source}

-- A summary that a person is owed: an activation of the writer.
pub record DueSummarize : Type 0 where
  pub person : Text
  pub from : ℕ
  pub due : DueActivation

pub record OwedFacts : Type 0 where
  pub summary_facts : List Message
  pub closed_leases : List (ℕ × List (Text × RuleLease))
  pub cancelled_at : Option ℕ

abbrev close_of_owed : DueSummarize → SummaryClose
close_of_owed owed = record {
  from = owed.from;
  through = owed.due.position;
  owes = some (owed.person, owed.due.seat);
}

abbrev pub leases_or_none {ℓ} : {A : Type ℓ} → Option (List A) → List A
leases_or_none none = []
leases_or_none (some leases) = leases

module _ (parse : Text → Option ℕ) (backoff : ℕ → ℕ) where
  abbrev with_person : Option DueActivation → Text → ℕ → Option (Option DueSummarize)
  with_person none person from = none
  with_person (some due) person from =
      some (some (record { person = person; from = from; due = due }))

  -- `withAttempts`
  unfoldable pub with_attempts : Text → ℕ → ℕ → Text → List RuleLease → Option (Option DueSummarize)
  with_attempts person from through writer leases =
      with_person
        (due_activation parse Source.closed through writer
          (filter (λ lease. counts_against lease through)
            (summary_leases_of leases through (some writer)))
          backoff)
        person from

  abbrev judged : Completion → Text → ℕ → ℕ → List RuleLease → Option (Option DueSummarize)
  judged (pending_summary (some writer)) person from through leases =
      with_attempts person from through writer leases
  judged _ person from through leases = some none

  abbrev judge_close :
      Option (Text × Text)
      → SummaryClose
      → OwedFacts
      → List RuleLease
      → Option (Option DueSummarize)
  judge_close none close facts leases = some none
  judge_close (some (person, writer)) close facts leases =
      judged (summary_completion close facts.summary_facts leases facts.cancelled_at) person
        close.from close.through leases

  -- The summary that a close owes, or nothing when it owes none for good.
  unfoldable pub judge_owed : SummaryClose → OwedFacts → Option (Option DueSummarize)
  judge_owed close facts =
      judge_close close.owes close facts
        (values (leases_or_none (get facts.closed_leases close.through)))

  abbrev joined :
      Option (Option DueSummarize) → Option (List DueSummarize) → Option (List DueSummarize)
  joined none rest = none
  joined (some none) rest = rest
  joined (some (some next)) none = none
  joined (some (some next)) (some rest) = some (next ∷ rest)

  -- The owed summaries that a test names are judged again; the others stay.
  unfoldable pub rejudge_owed :
      List DueSummarize → (DueSummarize → Bool) → OwedFacts → Option (List DueSummarize)
  rejudge_owed [] affected facts = some []
  rejudge_owed (owed ∷ rest) affected facts =
      let next =
        if affected owed then judge_owed (close_of_owed owed) facts else some (some owed) in
      joined next (rejudge_owed rest affected facts)
