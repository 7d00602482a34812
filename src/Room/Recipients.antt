-- ===== src/Room/Recipients.antt =====
-- packages/ambion/src/room/exchange.ts: the range of an exchange on the record, and its people.
use ambion.Common.{
  ℕ, zero, suc, ◌+◌, ◌-◌, ◌/◌, not, ◌&&◌, Option, none, some, List, [], ◌∷◌, ◌++◌, Text, ltb,
  length, if◌then◌else◌,
}
use ambion.Room.Types.{Message}
use ambion.Room.Rules.Exchanges.{includes, is_said}

module _ {ℓ} {A : Type ℓ} where
  abbrev pub get_elem? : List A → ℕ → Option A
  get_elem? [] i = none
  get_elem? (x ∷ xs) zero = some x
  get_elem? (x ∷ xs) (suc i) = get_elem? xs i

  abbrev pub take : ℕ → List A → List A
  take zero xs = []
  take (suc n) [] = []
  take (suc n) (x ∷ xs) = x ∷ take n xs

  abbrev pub drop : ℕ → List A → List A
  drop zero xs = xs
  drop (suc n) [] = []
  drop (suc n) (x ∷ xs) = drop n xs

-- `messages[i]?.seq ?? 0`
unfoldable pub seq_at : List Message → ℕ → ℕ
seq_at messages i = elim (get_elem? messages i) [ none ↦ 0 | some m ↦ m.seq ]

-- The search between `low` and `high`. The first number bounds the rounds.
unfoldable pub search_seq : ℕ → List Message → ℕ → ℕ → ℕ → ℕ
search_seq zero messages seq low high = low
search_seq (suc rounds) messages seq low high =
    let middle = (low + high) / 2 in
    let above = search_seq rounds messages seq (middle + 1) high in
    let below = search_seq rounds messages seq low middle in
    if not (ltb low high) then low else if ltb (seq_at messages middle) seq then above else below

unfoldable pub index_at_or_after : List Message → ℕ → ℕ
index_at_or_after messages seq = search_seq (suc (length messages)) messages seq 0 (length messages)

-- `list.slice(from, to)`
abbrev pub slice {ℓ} : {A : Type ℓ} → List A → ℕ → ℕ → List A
slice xs from to = take (to - from) (drop from xs)

unfoldable pub range_of : List Message → ℕ → ℕ → List Message
range_of messages from through =
    slice messages (index_at_or_after messages from) (index_at_or_after messages (through + 1))

-- Whether a message adds its author to the recipients.
abbrev pub new_speaker : Message → List Text → List Text → Option Text
new_speaker m people recipients = elim m.from [
  | none ↦ none
  | some from ↦
      if is_said m.content && includes people from && not (includes recipients from)
      then some from
      else none
]

unfoldable pub gather : List Message → List Text → List Text → List Text
gather [] people recipients = recipients
gather (m ∷ ms) people recipients = gather ms people (elim (new_speaker m people recipients) [
  | none ↦ recipients
  | some from ↦ recipients ++ from ∷ []
])

unfoldable pub recipients_of : List Message → ℕ → ℕ → List Text → List Text
unfolding range_of gather
recipients_of messages from through people = gather (range_of messages from through) people []
