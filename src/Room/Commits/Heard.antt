-- ===== src/Room/Commits/Heard.antt =====
-- packages/ambion/src/room/routing.ts: what a seat wakes for, told case by case beside the code.
use ambion.Common.{
  Bool-cases, text_eq, text_eq_iff, text_eq_refl, Bool, List, Option, Text, inl, inr, none, refl,
  some, subst, true, ℕ, ◌≡◌,
}
use ambion.Room.Fold.{same_as}
use ambion.Common.Maps.{text_key}
use ambion.Room.Routing.{Candidate, hears, target_of, wakes_for}
use ambion.Room.Types.{
  Attention, Content, PresenceChange, arrived, broadcast, named, none_said, changed, dismissed,
  left, said, summary, system, unseated,
}

-- An attention that hears what is said to the room.
pub data IsWide : Attention → Type 0 where
  to_broadcast : IsWide broadcast
  to_presence : IsWide Attention.presence

-- What a seat wakes for: a text or a seating that names it, a text to the room where its attention is
-- wide, and a change of a person or a seat where its attention is the widest.
pub data Hears (seat : Candidate) : Content → Type 0 where
  said_to_it :
      (text : Text) (refs : List Text) (delay : Option ℕ)
      → Hears seat (said (some seat.name) text refs delay)
  said_to_room :
      (text : Text) (refs : List Text) (delay : Option ℕ)
      → IsWide seat.attention
      → Hears seat (said none text refs delay)
  posted_to_it :
      (text : Text) (refs : List Text) (returns : Option ℕ)
      → Hears seat (system (some seat.name) text refs returns)
  posted_to_room :
      (text : Text) (refs : List Text) (returns : Option ℕ)
      → IsWide seat.attention
      → Hears seat (system none text refs returns)
  seated_itself :
      (identity : Option Text) (attention : Option Attention) (fixed : Option Bool)
      (preferences : Option Text)
      → Hears seat (changed PresenceChange.seated seat.name identity attention fixed preferences)
  watches :
      (change : PresenceChange) (subject : Text) (identity : Option Text)
      (attention : Option Attention) (fixed : Option Bool) (preferences : Option Text)
      → seat.attention ≡ Attention.presence
      → Hears seat (changed change subject identity attention fixed preferences)

hears-IsWide : (attention : Attention) → hears attention broadcast ≡ true → IsWide attention
hears-IsWide none_said h = absurd (cc)
hears-IsWide named h = absurd (cc)
hears-IsWide broadcast h = to_broadcast
hears-IsWide Attention.presence h = to_presence

IsWide-hears : (attention : Attention) → IsWide attention → hears attention broadcast ≡ true
IsWide-hears none_said wide = elim wide [ ]
IsWide-hears named wide = elim wide [ ]
IsWide-hears broadcast to_broadcast = refl
IsWide-hears Attention.presence to_presence = refl

hears-widest :
    (attention : Attention)
    → hears attention Attention.presence ≡ true
    → attention ≡ Attention.presence
hears-widest none_said h = absurd (cc)
hears-widest named h = absurd (cc)
hears-widest broadcast h = absurd (cc)
hears-widest Attention.presence h = refl

watches-Hears :
    (seat : Candidate) (change : PresenceChange) (subject : Text) (identity : Option Text)
    (attention : Option Attention) (fixed : Option Bool) (preferences : Option Text)
    → hears seat.attention Attention.presence ≡ true
    → Hears seat (changed change subject identity attention fixed preferences)
watches-Hears seat change subject identity attention fixed preferences h =
    watches change subject identity attention fixed preferences (hears-widest seat.attention h)

pub wakes_for-Hears :
    (seat : Candidate) (content : Content) → wakes_for seat content ≡ true → Hears seat content
unfolding wakes_for
wakes_for-Hears seat (summary to text refs covers_from covers_through) h = absurd (cc)
wakes_for-Hears seat (dismissed say) h = absurd (cc)
wakes_for-Hears seat (said none text refs delay) h =
    said_to_room text refs delay (hears-IsWide seat.attention h)
wakes_for-Hears seat (said (some to) text refs delay) h = elim (Bool-cases (text_eq seat.name to)) [
  | inl e ↦
      subst (λ n. Hears seat (said (some n) text refs delay)) ((text_eq_iff seat.name to).0 e)
        (said_to_it text refs delay)
  | inr e ↦ absurd (let w = rw e at h in cc)
]
wakes_for-Hears seat (system none text refs returns) h =
    posted_to_room text refs returns (hears-IsWide seat.attention h)
wakes_for-Hears seat (system (some to) text refs returns) h =
    elim (Bool-cases (text_eq seat.name to)) [
      | inl e ↦
          subst (λ n. Hears seat (system (some n) text refs returns))
            ((text_eq_iff seat.name to).0 e) (posted_to_it text refs returns)
      | inr e ↦ absurd (let w = rw e at h in cc)
    ]
wakes_for-Hears seat (changed PresenceChange.seated subject identity attention fixed preferences)
      h =
    elim (Bool-cases (text_eq seat.name subject)) [
      | inl e ↦
          subst
            (λ n. Hears seat (changed PresenceChange.seated n identity attention fixed preferences))
            ((text_eq_iff seat.name subject).0 e)
            (seated_itself identity attention fixed preferences)
      | inr e ↦
          watches-Hears seat PresenceChange.seated subject identity attention fixed preferences
            (rw e at h)
    ]
wakes_for-Hears seat (changed arrived subject identity attention fixed preferences) h =
    watches-Hears seat arrived subject identity attention fixed preferences h
wakes_for-Hears seat (changed left subject identity attention fixed preferences) h =
    watches-Hears seat left subject identity attention fixed preferences h
wakes_for-Hears seat (changed unseated subject identity attention fixed preferences) h =
    watches-Hears seat unseated subject identity attention fixed preferences h

watches-wakes :
    (seat : Candidate) (change : PresenceChange) (subject : Text) (identity : Option Text)
    (attention : Option Attention) (fixed : Option Bool) (preferences : Option Text)
    → seat.attention ≡ Attention.presence
    → wakes_for seat (changed change subject identity attention fixed preferences) ≡ true
unfolding wakes_for
watches-wakes seat change subject identity attention fixed preferences widest =
    elim (Bool-cases (
      same_as (target_of (changed change subject identity attention fixed preferences))
        seat.name)) [ inl e ↦ rw e refl | inr e ↦ rw (e, widest) refl ]

pub Hears-wakes_for :
    (seat : Candidate) (content : Content) → Hears seat content → wakes_for seat content ≡ true
unfolding wakes_for
Hears-wakes_for seat _ (said_to_it text refs delay) = rw (text_eq_refl seat.name) refl
Hears-wakes_for seat _ (said_to_room text refs delay wide) = IsWide-hears seat.attention wide
Hears-wakes_for seat _ (posted_to_it text refs returns) = rw (text_eq_refl seat.name) refl
Hears-wakes_for seat _ (posted_to_room text refs returns wide) = IsWide-hears seat.attention wide
Hears-wakes_for seat _ (seated_itself identity attention fixed preferences) =
    rw (text_eq_refl seat.name) refl
Hears-wakes_for seat _ (watches change subject identity attention fixed preferences widest) =
    watches-wakes seat change subject identity attention fixed preferences widest
