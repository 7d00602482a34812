-- ===== src/Room/Commits/Refusals.antt =====
-- packages/ambion/src/room/transition.ts `deliver` and `post`: when a message from outside is refused.
use ambion.Room.Types.{Content}
use ambion.Common.{Text, false, none, some, true, ℕ, ◌<◌, ◌≡◌}
use ambion.Common.Maps.{text_key, get}
use ambion.Room.Messages.{
  Delivery, MessageRefusal, bad_refs, content_refusal, deaf, empty_message, hears_nothing, is_blank,
  is_person, is_present, message_too_large, not_present, on_list, oversize_refusal,
  presence_refusal_of, seat_named, target_refusal, unknown_participant, utf8_size,
}
use ambion.Room.Refs.{RefsFault, refs_refusal}
use ambion.Room.State.{RoomState}

-- The faults of a message from outside, each with the refusal that names it.
pub data Faulty (state : RoomState) (command : Delivery) : MessageRefusal → Type 0 where
  from_absent :
      (person : Text)
      → command.from ≡ some person
      → is_present (get state.people person) ≡ false
      → Faulty state command (not_present person)
  to_nobody :
      (name : Text)
      → command.to ≡ some name
      → is_person state name ≡ false
      → on_list state.roster name ≡ false
      → Faulty state command (unknown_participant name)
  to_deaf :
      (name : Text)
      → command.to ≡ some name
      → deaf (seat_named state.roster name) ≡ true
      → Faulty state command (hears_nothing name)
  no_text : is_blank command.text ≡ true → Faulty state command empty_message
  ill_refs :
      (fault : RefsFault)
      → refs_refusal command.refs ≡ some fault
      → Faulty state command (bad_refs fault)
  too_long :
      (bytes : ℕ)
      → command.bytes ≡ some bytes
      → bytes < utf8_size command.text
      → Faulty state command (message_too_large (utf8_size command.text) bytes)

-- A message that is free of each fault.
record IsClean (state : RoomState) (command : Delivery) (content : Content) : Type 0 where
  author : presence_refusal_of state command.from ≡ none
  target : target_refusal state command.to ≡ none
  legal : content_refusal content ≡ none
  fits : oversize_refusal content command.bytes ≡ none
