-- ===== src/Journal/Result.antt =====
-- How the journal's operations fail: each constructor is one `throw` of packages/journal/src.
use ambion.Common.{ℕ, Text, ◌≡◌, refl, ◌⊎◌, inl, inr}

pub data Failure : Type 0 where
  -- `detached` of a value that JSON cannot hold
  unreadable_body : Failure
  -- the vocabulary throws on a known kind with an invalid body
  malformed_body : Text → Failure
  no_valid_seq : Text → Failure
  is_superseded is_closed fence_held : Failure
  record_moved : Failure
  key_conflict : Text → ℕ → Failure
  no_decision : Failure
  journal_full : ℕ → Failure
  not_json : Text → Failure
  rejected : Text → Failure
  turned_down : Text → Failure

pub data Result {ℓ} (A : Type ℓ) : Type ℓ where
  ok : A → Result A
  err : Failure → Result A

infixl 5 ◌>>=◌
abbrev pub ◌>>=◌ {ℓ κ} : {A : Type ℓ} {B : Type κ} → Result A → (A → Result B) → Result B
ok a >>= f = f a
err e >>= f = err e

pub Result-cases {ℓ} :
    {A : Type ℓ} (r : Result A) → ((a : A) × (r ≡ ok a)) ⊎ ((f : Failure) × (r ≡ err f))
Result-cases (ok a) = inl (a, refl)
Result-cases (err f) = inr (f, refl)
