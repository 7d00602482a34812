-- ===== src/Room/ActivationId/RoundTrip.antt =====
-- The text of an activation id, written and read back: packages/ambion/src/activation-id.ts.
use ambion.Common.{
  Bool-cases, Text, [], arith, inl, inr, none, refl, some, some-injective, subst, text_eq, true,
  ◌&&◌, ◌++◌, ◌∷◌, ◌≡◌,
}
use ambion.Room.ActivationId.{
  all_name_chars, colon, cut, decimal, decode_activation_id, encode_activation_id, is_name, render,
  safe_positive_integer, source_of, source_text,
}
use ambion.Room.ActivationId.Decimal.{NoColon, decimal-NoColon, positive_integer-decimal}
use ambion.Room.Types.{ActivationFields, Source}

cut-append : (a b : Text) → NoColon a → cut (a ++ (colon ∷ b)) ≡ some (a, b)
unfolding cut
cut-append [] b h = refl
cut-append (c ∷ a) b (first, rest) = rw (first, cut-append a b rest) refl

cut-none : (a : Text) → NoColon a → cut a ≡ none
unfolding cut
cut-none [] h = refl
cut-none (c ∷ a) (first, rest) = rw (first, cut-none a rest) refl

all_name_chars-NoColon : (s : Text) → all_name_chars s ≡ true → NoColon s
unfolding all_name_chars
all_name_chars-NoColon [] h = tt
all_name_chars-NoColon (c ∷ s) h = (ground arith, all_name_chars-NoColon s (ground arith))

pub is_name-NoColon : (s : Text) → is_name s ≡ true → NoColon s
unfolding is_name
is_name-NoColon [] h = absurd (cc)
is_name-NoColon (c ∷ s) h = (ground arith, all_name_chars-NoColon s (ground arith))

source_text-NoColon : (source : Source) → NoColon (source_text source)
source_text-NoColon Source.message = (refl, (refl, (refl, (refl, (refl, (refl, (refl, tt)))))))
source_text-NoColon Source.closed = (refl, (refl, (refl, (refl, (refl, (refl, tt))))))

source_of-text : (source : Source) → source_of (source_text source) ≡ some source
unfolding source_of text_eq
source_of-text Source.message = refl
source_of-text Source.closed = refl

-- The fields that an id can hold: a position and an attempt from 1 on, and a seat that is a name.
abbrev pub IsEncodable : ActivationFields → Type 0
IsEncodable id =
    (safe_positive_integer id.position ≡ true)
    × (is_name id.seat ≡ true)
    × (safe_positive_integer id.attempt ≡ true)

encode-IsEncodable :
    (id : ActivationFields) (raw : Text)
    → encode_activation_id id ≡ some raw
    → IsEncodable id × (render id ≡ raw)
unfolding encode_activation_id
encode-IsEncodable id raw h =
    elim (Bool-cases
      (safe_positive_integer id.position && is_name id.seat && safe_positive_integer id.attempt)) [
        | inl fits ↦ ((ground arith, ground arith, ground arith), some-injective (rw fits at h))
        | inr bad ↦ absurd (cc)
      ]

decode-render :
    (id : ActivationFields) → IsEncodable id → decode_activation_id (render id) ≡ some id
unfolding decode_activation_id render
decode-render id (place, name, count) =
    rw
      (
        cut-append (source_text id.source)
            (decimal id.position ++ (colon ∷ (id.seat ++ (colon ∷ decimal id.attempt))))
            (source_text-NoColon id.source),
        cut-append (decimal id.position) (id.seat ++ (colon ∷ decimal id.attempt))
            (decimal-NoColon id.position),
        cut-append id.seat (decimal id.attempt) (is_name-NoColon id.seat name),
        source_of-text id.source,
        positive_integer-decimal id.position place,
        name,
        positive_integer-decimal id.attempt count,
      )
      refl

-- An id that the room encodes is decoded to the fields that it was made of.
pub decode-encode :
    (id : ActivationFields) (raw : Text)
    → encode_activation_id id ≡ some raw
    → decode_activation_id raw ≡ some id
decode-encode id raw h =
    let (fits, same) = encode-IsEncodable id raw h in
    subst (λ r. decode_activation_id r ≡ some id) same (decode-render id fits)
