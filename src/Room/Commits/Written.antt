-- ===== src/Room/Commits/Written.antt =====
-- packages/ambion/src/room/transition.ts `message`: what a decision that writes a body went through.
use ambion.Common.{Bool, Option, ap, none, refl, some, some-injective, sym, true, ℕ, ◌≡◌}
use ambion.Room.Commit.{Stamp, stamped}
use ambion.Room.Messages.{
  MessageDecision, MessageRefusal, content_refusal, message_body, or_refusal, oversize_refusal,
  routed, write_message,
}
use ambion.Room.State.{RoomState}
use ambion.Room.Types.{Body, Content}

-- The body that a decision writes.
abbrev pub written : MessageDecision → Option Body
written (message_body b) = some b
written _ = none

pub message_body-injective : (a b : Body) → message_body a ≡ message_body b → a ≡ b
message_body-injective a b e = some-injective (ap written e)

pub or_refusal-body :
    (o : Option MessageRefusal) (d : MessageDecision) (b : Body)
    → or_refusal o d ≡ message_body b
    → (o ≡ none) × (d ≡ message_body b)
or_refusal-body none d b h = (refl, h)
or_refusal-body (some r) d b h = absurd (cc)

pub write_message-body :
    (state : RoomState) (draft : Body) (now : ℕ) (route : Bool) (bytes : Option ℕ) (b : Body)
    → write_message state draft now route bytes ≡ message_body b
    → (content_refusal draft.content ≡ none)
      × (oversize_refusal draft.content bytes ≡ none)
      × (b ≡ routed state draft now route)
unfolding write_message
write_message-body state draft now route bytes b h =
    let (legal, more) = or_refusal-body (content_refusal draft.content) _ b h in
    let (fits, done) = or_refusal-body (oversize_refusal draft.content bytes) _ b more in
    (legal, fits, sym (message_body-injective (routed state draft now route) b done))

-- What the room stamps on a body.
pub record IsStamped (stamp : Stamp) (b : Body) : Type 0 where
  pub by : b.from ≡ stamp.from
  pub for : b.activation ≡ stamp.activation
  pub dated : b.at ≡ stamp.at

pub stamped-IsStamped :
    (stamp : Stamp) (content : Content) → IsStamped stamp (stamped stamp content)
stamped-IsStamped stamp content = record { by = refl; for = refl; dated = refl }

pub write_stamped :
    (state : RoomState) (stamp : Stamp) (content : Content) (now : ℕ) (bytes : Option ℕ) (b : Body)
    → write_message state (stamped stamp content) now true bytes ≡ message_body b
    → IsStamped stamp b × (b.content ≡ content)
unfolding routed
write_stamped state stamp content now bytes b h =
    let (legal, fits, e) = write_message-body state (stamped stamp content) now true bytes b h in
    (
      record { by = ap (λ x. x.from) e; for = ap (λ x. x.activation) e; dated = ap (λ x. x.at) e },
      ap (λ x. x.content) e,
    )
