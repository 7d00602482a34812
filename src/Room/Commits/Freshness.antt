-- ===== src/Room/Commits/Freshness.antt =====
-- packages/ambion/src/room/transition.ts `speechFreshness`: what a say has read of the record.
use ambion.Common.{
  sym, [], ap, arith, leb, ltb, Bool-cases, List, Option, Text, inl, inr, none, refl, some, subst,
  ℕ, ◌≡◌,
}
use ambion.Common.Int.{negsuc, pos, ℤ}
use ambion.Room.Rules.Leases.{on_record, speech_freshness}
use ambion.Room.Scheduled.{is_safe_integer}
use ambion.Common.Maps.{text_key}
use ambion.Room.Activation.{ActivationPurpose, ActivationSpec, holds, responds, seat_authority}
use ambion.Room.Commit.{
  CommitRequest, Intent, commit, commit_for, commit_permitted, fresh_refusal, freshness_refusal,
  ordinary_commit, says,
}
use ambion.Room.Messages.{message_body}
use ambion.Room.State.{RoomState}
use ambion.Room.Types.{Body, RuleLease}

-- The freshness of a plain say, at the position that its request states.
fresh-last :
    (z : ℤ) (state : RoomState)
    → fresh_refusal (speech_freshness (some z) state.last_seq) state (some z) ≡ none
    → z ≡ pos state.last_seq
unfolding speech_freshness on_record
fresh-last (negsuc n) state h = absurd (cc)
fresh-last (pos n) state h = elim (Bool-cases (leb n state.last_seq)) [
  | inr e ↦ absurd (let w = rw e at h in cc)
  | inl e ↦ elim (Bool-cases (ltb n state.last_seq)) [
    | inl l ↦ absurd (let w = rw (e, l) at h in cc)
    | inr l ↦ ap pos (ground arith)
  ]
]

pub fresh_at :
    (o : Option ℤ) (state : RoomState)
    → freshness_refusal (says none [] [] none) state o ≡ none
    → o ≡ some (pos state.last_seq)
unfolding speech_freshness
fresh_at none state h = absurd (cc)
fresh_at (some z) state h = elim (Bool-cases (is_safe_integer z)) [
  | inl e ↦ ap some (fresh-last z state (rw e at h))
  | inr e ↦ absurd (let w = rw e at h in cc)
]

module _ (iso : ℕ → Text) (parse : Text → Option ℕ) where
  -- What the position that a say states has to be: a plain say states the last message, and a scheduled say
  -- lands the same message whatever position it states, or none.
  abbrev pub IsRead : Option ℤ → RoomState → CommitRequest → ℕ → Body → Type 0
  IsRead none state request now b = request.read_through ≡ some (pos state.last_seq)
  IsRead (some seconds) state request now b =
      (read : Option ℤ)
      → commit iso parse state (record request { read_through = read }) now ≡ message_body b

  ordinary_commit-any_position :
      (state : RoomState) (request : CommitRequest) (spec : ActivationSpec) (now : ℕ)
      (to : Option Text) (text : Text) (refs : List Text) (seconds : ℤ) (read : Option ℤ)
      → request.intent ≡ says to text refs (some seconds)
      → ordinary_commit iso parse state (record request { read_through = read }) spec now
        ≡ ordinary_commit iso parse state request spec now
  unfolding ordinary_commit
  ordinary_commit-any_position state request spec now to text refs seconds read intent =
      rw intent refl

  commit_for-any_position :
      (state : RoomState) (request : CommitRequest) (spec : ActivationSpec) (now m : ℕ)
      (to : Option Text) (text : Text) (refs : List Text) (seconds : ℤ) (read : Option ℤ)
      → spec.purpose ≡ responds m
      → request.intent ≡ says to text refs (some seconds)
      → commit_for iso parse request.intent spec.purpose state
          (record request { read_through = read })
          spec
          now
        ≡ commit_for iso parse request.intent spec.purpose state request spec now
  commit_for-any_position state request spec now m to text refs seconds read purpose intent =
      let stated = record request { read_through = read } in
      let decided = λ (i : Intent) (p : ActivationPurpose) (r : CommitRequest).
        commit_for iso parse i p state r spec now in
      let same : decided (says to text refs (some seconds)) (responds m) stated
          ≡ decided (says to text refs (some seconds)) (responds m) request =
        ordinary_commit-any_position state request spec now to text refs seconds read intent in
      subst (λ i. decided i spec.purpose stated ≡ decided i spec.purpose request) (sym intent)
        (subst
          (λ p.
            decided (says to text refs (some seconds)) p stated
            ≡ decided (says to text refs (some seconds)) p request)
          (sym purpose) same)

  -- The position that a scheduled say of an answering seat states changes nothing.
  pub commit-any_position :
      (state : RoomState) (request : CommitRequest) (now : ℕ) (spec : ActivationSpec)
      (lease : RuleLease) (m : ℕ) (to : Option Text) (text : Text) (refs : List Text) (seconds : ℤ)
      (read : Option ℤ)
      → seat_authority state request.activation now ≡ holds spec lease
      → spec.purpose ≡ responds m
      → request.intent ≡ says to text refs (some seconds)
      → commit iso parse state (record request { read_through = read }) now
        ≡ commit iso parse state request now
  unfolding commit commit_permitted
  commit-any_position state request now spec lease m to text refs seconds read held_by purpose
        intent =
      let same =
        commit_for-any_position state request spec now m to text refs seconds read purpose intent in
      rw (held_by, same) refl
