-- ===== src/Room/ActivationId.antt =====
-- packages/ambion/src/activation-id.ts and names.ts: the text of an activation id,
-- `source:position:seat:attempt`, and its reading back.
pub mod Decimal
pub mod RoundTrip
use ambion.Common.{
  ℕ, zero, suc, ◌+◌, ◌-◌, ◌*◌, ◌/◌, ◌%◌, ◌^◌, Bool, true, false, ◌&&◌, ◌||◌, Option, none, some, [],
  ◌∷◌, ◌++◌, Text, codes, text_eq, leb, ltb, ◌==◌, if◌then◌else◌,
}
use ambion.Common.Options.{◌>>=◌}
use ambion.Room.Types.{Source, message, closed, ActivationFields}

abbrev pub max_safe_integer : ℕ
max_safe_integer = 2 ^ 53 - 1

abbrev pub colon : ℕ
colon = 58

abbrev pub is_digit : ℕ → Bool
is_digit c = leb 48 c && leb c 57

abbrev pub is_lower : ℕ → Bool
is_lower c = leb 97 c && leb c 122

-- `[a-z0-9-]`
abbrev pub is_name_char : ℕ → Bool
is_name_char c = is_lower c || is_digit c || c == 45

unfoldable pub all_name_chars : Text → Bool
all_name_chars [] = true
all_name_chars (c ∷ s) = is_name_char c && all_name_chars s

-- `[a-z][a-z0-9-]*`
unfoldable pub is_name : Text → Bool
unfolding all_name_chars
is_name [] = false
is_name (c ∷ s) = is_lower c && all_name_chars s

unfoldable pub safe_positive_integer : ℕ → Bool
safe_positive_integer n = leb 1 n && leb n max_safe_integer

-- The digits of a number, in front of a text. The first number bounds the rounds.
unfoldable pub digits : ℕ → ℕ → Text → Text
digits zero n out = out
digits (suc rounds) n out =
    let more = digits rounds (n / 10) ((48 + n % 10) ∷ out) in
    if ltb n 10 then (48 + n) ∷ out else more

unfoldable pub decimal : ℕ → Text
unfolding digits
decimal n = digits (suc n) n []

abbrev pub source_text : Source → Text
source_text message = codes "message"
source_text closed = codes "closed"

-- The four fields behind one another.
unfoldable pub render : ActivationFields → Text
unfolding decimal
render id =
    source_text id.source
    ++ (colon ∷ (decimal id.position ++ (colon ∷ (id.seat ++ (colon ∷ decimal id.attempt)))))

-- `none` stands for the throw of an id that is out of bounds.
unfoldable pub encode_activation_id : ActivationFields → Option Text
encode_activation_id id =
    if safe_positive_integer id.position && is_name id.seat && safe_positive_integer id.attempt
    then some (render id)
    else none

abbrev pub put_front : ℕ → Option (Text × Text) → Option (Text × Text)
put_front c none = none
put_front c (some (a, b)) = some (c ∷ a, b)

-- The part in front of the first colon, and the part behind it.
unfoldable pub cut : Text → Option (Text × Text)
cut [] = none
cut (c ∷ s) = let rest = cut s in if c == colon then some ([], s) else put_front c rest

unfoldable pub scan : ℕ → Text → Option ℕ
scan n [] = some n
scan n (c ∷ s) = let rest = scan (n * 10 + (c - 48)) s in if is_digit c then rest else none

abbrev pub if_safe : Option ℕ → Option ℕ
if_safe none = none
if_safe (some n) = if leb n max_safe_integer then some n else none

-- `[1-9]\d*` up to the largest safe integer
unfoldable pub positive_integer : Text → Option ℕ
unfolding scan
positive_integer [] = none
positive_integer (c ∷ s) = if c == 48 then none else if_safe (scan 0 (c ∷ s))

unfoldable pub source_of : Text → Option Source
source_of s =
    if text_eq s (codes "message")
    then some message
    else if text_eq s (codes "closed")
    then some closed
    else none

abbrev pub guard_name : Text → Option Text
guard_name seat = if is_name seat then some seat else none

unfoldable pub decode_activation_id : Text → Option ActivationFields
decode_activation_id raw = do
  (head, r1) ← cut raw
  (place, r2) ← cut r1
  (name, count) ← cut r2
  source ← source_of head
  position ← positive_integer place
  seat ← guard_name name
  attempt ← positive_integer count
  some (record { source = source; position = position; seat = seat; attempt = attempt })
