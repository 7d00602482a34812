-- ===== src/Room/Refs/RoundTrip.antt =====
-- The URI of a message, written and read back: packages/ambion/src/refs.ts.
use ambion.Common.{
  ==_iff, All, Bool-cases, Text, [], append_assoc, arith, false, inl, inr, none, refl, some,
  some-injective, subst, true, ℕ, ◌++◌, ◌==◌, ◌∷◌, ◌≡◌,
}
use ambion.Room.ActivationId.{all_name_chars, decimal, is_name, safe_positive_integer}
use ambion.Room.ActivationId.Decimal.{positive_integer-decimal}
use ambion.Room.Refs.{
  after_prefix, message_prefix, message_uri, parse_room_uri, room_prefix, slash, to_slash,
}

after_prefix-append : (p s : Text) → after_prefix (λ c. c) p (p ++ s) ≡ some s
unfolding after_prefix
after_prefix-append [] s = refl
after_prefix-append (c ∷ p) s = rw ((==_iff c c).1 refl) (after_prefix-append p s)

abbrev NoSlash : Text → Type 0
NoSlash = All (λ c. (c == slash) ≡ false)

to_slash-append : (a b : Text) → NoSlash a → to_slash (a ++ (slash ∷ b)) ≡ (a, some b)
unfolding to_slash
to_slash-append [] b h = refl
to_slash-append (c ∷ a) b (first, rest) = rw (first, to_slash-append a b rest) refl

to_slash-whole : (a : Text) → NoSlash a → to_slash a ≡ (a, none)
unfolding to_slash
to_slash-whole [] h = refl
to_slash-whole (c ∷ a) (first, rest) = rw (first, to_slash-whole a rest) refl

all_name_chars-NoSlash : (s : Text) → all_name_chars s ≡ true → NoSlash s
unfolding all_name_chars
all_name_chars-NoSlash [] h = tt
all_name_chars-NoSlash (c ∷ s) h = (ground arith, all_name_chars-NoSlash s (ground arith))

is_name-NoSlash : (s : Text) → is_name s ≡ true → NoSlash s
unfolding is_name
is_name-NoSlash [] h = absurd (cc)
is_name-NoSlash (c ∷ s) h = (ground arith, all_name_chars-NoSlash s (ground arith))

abbrev plain : ℕ → ℕ
plain c = c

parse_room_uri-message :
    (room : Text) (seq : ℕ)
    → is_name room ≡ true
    → safe_positive_integer seq ≡ true
    → parse_room_uri ((room_prefix ++ room) ++ (slash ∷ (message_prefix ++ decimal seq)))
      ≡ some (record { room = room; message = some seq })
unfolding parse_room_uri
parse_room_uri-message room seq name safe =
    rw
      (
        append_assoc room_prefix room (slash ∷ (message_prefix ++ decimal seq)),
        after_prefix-append room_prefix (room ++ (slash ∷ (message_prefix ++ decimal seq))),
        to_slash-append room (message_prefix ++ decimal seq) (is_name-NoSlash room name),
        name,
        after_prefix-append message_prefix (decimal seq),
        positive_integer-decimal seq safe,
      )
      refl

-- The URI of a message is read back as the room and the place that it was made of.
pub parse-message_uri :
    (room : Text) (seq : ℕ) (uri : Text)
    → message_uri room seq ≡ some uri
    → parse_room_uri uri ≡ some (record { room = room; message = some seq })
unfolding message_uri
parse-message_uri room seq uri h = elim (Bool-cases (safe_positive_integer seq)) [
  | inl safe ↦ elim (Bool-cases (is_name room)) [
    | inl name ↦
        subst (λ u. parse_room_uri u ≡ some (record { room = room; message = some seq }))
          (some-injective (rw (safe, name) at h)) (parse_room_uri-message room seq name safe)
    | inr bad ↦ absurd (let w = rw (safe, bad) at h in cc)
  ]
  | inr bad ↦ absurd (let w = rw bad at h in cc)
]
