-- ===== src/Room/Commits/Summaries.antt =====
-- packages/ambion/src/room/transition.ts and exchange.ts: the summary that a seat commits.
use ambion.Common.{
  List, Memᴰ, Option, Text, ap, arith, find-there, none, refl, text_eq_refl, true, ℕ, ◌&&◌, ◌∙◌,
  ◌≡◌,
}
use ambion.Room.Activation.{ActivationSpec}
use ambion.Room.Commit.{CommitRequest, commit_summary}
use ambion.Room.Commits.Authored.{commit_summary-Written}
use ambion.Room.Completion.{covering_summary, covers_content, covers_for}
use ambion.Room.Messages.{has_summary, message_body, refused_message}
use ambion.Room.Rules.Exchanges.{covers_close, covers_exchange, includes}
use ambion.Room.State.{RoomState}
use ambion.Room.Types.{Body, Message, summary}

covers_for-exact :
    (m : Message) (person text : Text) (refs : List Text) (from through : ℕ)
    → m.content ≡ summary person text refs from through
    → covers_for none person from through m ≡ true
unfolding covers_for covers_exchange covers_close
covers_for-exact m person text refs from through e =
    ap (λ c. covers_content c person from through && true) e ∙ ground (arith, text_eq_refl person)

module _ (iso : ℕ → Text) (parse : Text → Option ℕ) where
  -- A closed exchange gets one summary for a person: once the summary that a seat commits for it is on the
  -- record, every later summary of that exchange for that person, by whichever activation, is refused.
  pub one_summary :
      (state after : RoomState) (request next : CommitRequest) (spec other : ActivationSpec)
      (exchange through : ℕ) (recipient : Text) (people known : List Text) (text more : Text)
      (refs sources : List Text) (now later : ℕ) (b : Body) (m : Message)
      → commit_summary iso parse state request spec exchange through recipient people text refs now
        ≡ message_body b
      → m.body ≡ b
      → Memᴰ m after.messages
      → includes known recipient ≡ true
      → commit_summary iso parse after next other exchange through recipient known more sources
          later
        ≡ refused_message (has_summary recipient)
  unfolding commit_summary covering_summary
  one_summary state after request next spec other exchange through recipient people known text more
        refs sources now later b m h same there met =
      let (own, content) =
        commit_summary-Written iso parse state request spec exchange through recipient people text
          refs now b h in
      let covers =
        covers_for-exact m recipient text refs exchange through
          (ap (λ x. x.content) same ∙ content) in
      let (found, at) = find-there (covers_for none recipient exchange through) there covers in
      rw (met, at) refl
