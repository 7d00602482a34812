-- ===== src/Room/Refs.antt =====
-- packages/ambion/src/refs.ts: the references of a message, and the URIs of a room and its messages.
pub mod RoundTrip
use ambion.Common.{
  Bool, List, Option, Text, [], any, codes, false, if◌then◌else◌, leb, length, ltb, none, not, some,
  true, ℕ, ◌&&◌, ◌++◌, ◌+◌, ◌==◌, ◌∷◌, ◌||◌,
}
use ambion.Room.ActivationId.{
  colon, decimal, digits, is_name, positive_integer, safe_positive_integer,
}
use ambion.Room.Rules.Exchanges.{includes}

-- A UTF-16 code unit of `\s`
abbrev pub is_space : ℕ → Bool
is_space c =
    (leb 9 c && leb c 13)
    || c == 32
    || c == 160
    || c == 5760
    || (leb 8192 c && leb c 8202)
    || c == 8232
    || c == 8233
    || c == 8239
    || c == 8287
    || c == 12288
    || c == 65279

-- `[\s\p{Cc}]`
abbrev pub is_forbidden : ℕ → Bool
is_forbidden c = is_space c || ltb c 32 || (leb 127 c && leb c 159)

abbrev pub is_letter : ℕ → Bool
is_letter c = (leb 65 c && leb c 90) || (leb 97 c && leb c 122)

-- `[A-Za-z0-9+.-]`
abbrev pub is_scheme_char : ℕ → Bool
is_scheme_char c = is_letter c || (leb 48 c && leb c 57) || c == 43 || c == 46 || c == 45

abbrev pub is_nonempty : Text → Bool
is_nonempty [] = false
is_nonempty (c ∷ s) = true

-- The rest of a scheme, its colon, and at least one character behind it. A scheme holds no colon,
-- so the first colon ends it.
unfoldable pub scheme_rest : Text → Bool
scheme_rest [] = false
scheme_rest (c ∷ s) =
    let rest = scheme_rest s in if c == colon then is_nonempty s else is_scheme_char c && rest

unfoldable pub has_scheme : Text → Bool
unfolding scheme_rest
has_scheme [] = false
has_scheme (c ∷ s) = is_letter c && scheme_rest s

-- A character without its case, in ASCII.
abbrev pub lower : ℕ → ℕ
lower c = if leb 65 c && leb c 90 then c + 32 else c

-- What stands behind a prefix, read by a map of its characters.
unfoldable pub after_prefix : (ℕ → ℕ) → Text → Text → Option Text
after_prefix f [] s = some s
after_prefix f (p ∷ ps) [] = none
after_prefix f (p ∷ ps) (c ∷ s) = let rest = after_prefix f ps s in if f c == p then rest else none

abbrev pub slash : ℕ
slash = 47

abbrev pub room_prefix : Text
room_prefix = codes "ambion://room/"

abbrev pub message_prefix : Text
message_prefix = codes "message/"

abbrev pub authority_ends : Option Text → Bool
authority_ends none = false
authority_ends (some []) = true
authority_ends (some (c ∷ s)) = c == slash

-- `/^ambion:\/\/room(?:\/|$)/i`
unfoldable pub has_room_authority : Text → Bool
has_room_authority s = authority_ends (after_prefix lower (codes "ambion://room") s)

-- `message` is the seq of the message that the URI names.
pub record RoomUri : Type 0 where
  pub room : Text
  pub message : Option ℕ

-- The text in front of the first slash, and the text behind it if there is one.
unfoldable pub to_slash : Text → Text × Option Text
to_slash [] = ([], none)
to_slash (c ∷ s) =
    let rest = to_slash s in if c == slash then ([], some s) else (c ∷ rest.0, rest.1)

abbrev pub message_uri_of : Text → Option ℕ → Option RoomUri
message_uri_of room none = none
message_uri_of room (some n) = some (record { room = room; message = some n })

abbrev pub message_part : Text → Option Text → Option RoomUri
message_part room none = none
message_part room (some digits) = message_uri_of room (positive_integer digits)

abbrev pub uri_parts : Text → Option Text → Option RoomUri
uri_parts room none = some (record { room = room; message = none })
uri_parts room (some rest) = message_part room (after_prefix (λ c. c) message_prefix rest)

abbrev pub named_part : Text × Option Text → Option RoomUri
named_part (room, rest) = if is_name room then uri_parts room rest else none

abbrev pub behind_prefix : Option Text → Option RoomUri
behind_prefix none = none
behind_prefix (some s) = named_part (to_slash s)

unfoldable pub parse_room_uri : Text → Option RoomUri
parse_room_uri s = behind_prefix (after_prefix (λ c. c) room_prefix s)

abbrev pub is_some {ℓ} : {A : Type ℓ} → Option A → Bool
is_some none = false
is_some (some a) = true

abbrev pub longest_ref : ℕ
longest_ref = 2048

abbrev pub most_refs : ℕ
most_refs = 16

unfoldable pub is_ref : Text → Bool
is_ref s =
    if ltb longest_ref (length s)
    then false
    else if any is_forbidden s
    then false
    else if not (has_scheme s)
    then false
    else if has_room_authority s
    then is_some (parse_room_uri s)
    else true

-- Why a list of references is refused, with the index of the first fault.
pub data RefsFault : Type 0 where
  too_many : (count : ℕ) → RefsFault
  not_a_ref repeats : (index : ℕ) → RefsFault

unfoldable pub refs_from : ℕ → List Text → List Text → Option RefsFault
refs_from index seen [] = none
refs_from index seen (ref ∷ refs) =
    let rest = refs_from (index + 1) (seen ++ ref ∷ []) refs in
    if not (is_ref ref)
    then some (not_a_ref index)
    else if includes seen ref
    then some (repeats index)
    else rest

unfoldable pub refs_refusal : List Text → Option RefsFault
unfolding refs_from
refs_refusal refs =
    if ltb most_refs (length refs) then some (too_many (length refs)) else refs_from 0 [] refs

-- `none` stands for the throw of `assertRoomName`.
unfoldable pub room_uri : Text → Option Text
room_uri room = if is_name room then some (room_prefix ++ room) else none

abbrev pub with_message : Option Text → ℕ → Option Text
with_message none seq = none
with_message (some uri) seq = some (uri ++ (slash ∷ (message_prefix ++ decimal seq)))

-- `none` stands for a throw.
unfoldable pub message_uri : Text → ℕ → Option Text
unfolding room_uri
message_uri room seq = if safe_positive_integer seq then with_message (room_uri room) seq else none
