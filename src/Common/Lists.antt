-- ===== src/Common/Lists.antt =====
-- Searches through a list by a Boolean test, as `some`, `find` and `filter` of an array, with
-- their laws.
use Prim.Native.Nat.{ℕ, suc, ◌+◌, ◌≤◌}
use mathlib.Core.Path.{◌≡◌, refl, sym, ap, ◌∙◌}
use mathlib.Core.Logic.{inl, inr}
use mathlib.Core.Bool.{Bool, true, false, ◌||◌, ◌&&◌}
use mathlib.Core.Option.{Option, none, some}
use mathlib.Core.List.{List, [], ◌∷◌, ◌++◌, Memᴰ}
use native.Mathlib.Omega.{arith}
use ambion.Common.Tests.{if◌then◌else◌, Bool-cases}
use mathlib.Core.List.Memᴰ

module _ {ℓ} {A : Type ℓ} where
  abbrev pub length : List A → ℕ
  length [] = 0
  length (x ∷ xs) = suc (length xs)

  -- `list.some(test)`
  unfoldable pub any : (A → Bool) → List A → Bool
  any p [] = false
  any p (x ∷ xs) = p x || any p xs

  -- `list.filter(test)`
  unfoldable pub filter : (A → Bool) → List A → List A
  filter p [] = []
  filter p (x ∷ xs) = let rest = filter p xs in if p x then x ∷ rest else rest

  -- `list.find(test)`
  unfoldable pub find : (A → Bool) → List A → Option A
  find p [] = none
  find p (x ∷ xs) = let rest = find p xs in if p x then some x else rest

  -- `list.at(-1)`
  unfoldable pub last : List A → Option A
  last [] = none
  last (x ∷ []) = some x
  last (x ∷ y ∷ xs) = last (y ∷ xs)

  pub length-append : (xs ys : List A) → length (xs ++ ys) ≡ length xs + length ys
  length-append [] ys = omega arith
  length-append (x ∷ xs) ys = omega (arith, length-append xs ys)

  -- A predicate of every element.
  abbrev pub All {κ} : (A → Type κ) → List A → Type κ
  All P [] = Unit
  All P (x ∷ xs) = P x × All P xs

module _ {ℓ} {A : Type ℓ} (p : A → Bool) where
  pub any_sound : (xs : List A) → any p xs ≡ true → (x : A) × Memᴰ x xs × (p x ≡ true)
  unfolding any
  any_sound [] h = absurd (cc)
  any_sound (x ∷ xs) h = elim (Bool-cases (p x)) [
    | inl e ↦ (x, Memᴰ.head refl, e)
    | inr e ↦ let (y, m, q) = any_sound xs (ground arith) in (y, Memᴰ.tail m, q)
  ]

  pub any_complete : {x : A} {xs : List A} → Memᴰ x xs → p x ≡ true → any p xs ≡ true
  unfolding any
  any_complete (Memᴰ.head e) h = rw ((ap p (sym e)) ∙ h) refl
  any_complete {xs = y ∷ xs} (Memᴰ.tail m) h = ground (arith, any_complete m h)

  pub any-append : (xs ys : List A) → any p (xs ++ ys) ≡ (any p xs || any p ys)
  unfolding any
  any-append [] ys = refl
  any-append (x ∷ xs) ys = ground (arith, any-append xs ys)

  pub filter-append : (xs ys : List A) → filter p (xs ++ ys) ≡ filter p xs ++ filter p ys
  unfolding filter
  filter-append [] ys = refl
  filter-append (x ∷ xs) ys = ground (arith, filter-append xs ys)

  pub filter-sub : (xs : List A) {x : A} → Memᴰ x (filter p xs) → Memᴰ x xs
  unfolding filter
  filter-sub [] m = m
  filter-sub (x ∷ xs) m = elim (Bool-cases (p x)) [
    | inl e ↦ elim (Memᴰ.cases_cons (rw e at m)) [
      | inl same ↦ Memᴰ.head same
      | inr rest ↦ Memᴰ.tail (filter-sub xs rest)
    ]
    | inr e ↦ Memᴰ.tail (filter-sub xs (rw e at m))
  ]

  pub filter_sound : (xs : List A) {x : A} → Memᴰ x (filter p xs) → p x ≡ true
  unfolding filter
  filter_sound [] m = absurd (Memᴰ.not-nil m)
  filter_sound (x ∷ xs) m = elim (Bool-cases (p x)) [
    | inl e ↦ elim (Memᴰ.cases_cons (rw e at m)) [
      | inl same ↦ ap p same ∙ e
      | inr rest ↦ filter_sound xs rest
    ]
    | inr e ↦ filter_sound xs (rw e at m)
  ]

  pub filter-keeps : {x : A} {xs : List A} → Memᴰ x xs → p x ≡ true → Memᴰ x (filter p xs)
  unfolding filter
  filter-keeps (Memᴰ.head e) h = rw (ap p (sym e) ∙ h) (Memᴰ.head e)
  filter-keeps {xs = y ∷ xs} (Memᴰ.tail m) h = elim (Bool-cases (p y)) [
    | inl e ↦ rw e (Memᴰ.tail (filter-keeps m h))
    | inr e ↦ rw e (filter-keeps m h)
  ]

  pub length-filter-le : (xs : List A) → length (filter p xs) ≤ length xs
  unfolding filter
  length-filter-le [] = omega arith
  length-filter-le (x ∷ xs) = ground (arith, length-filter-le xs)

  pub find-none : (xs : List A) → find p xs ≡ none → any p xs ≡ false
  unfolding find any
  find-none [] h = refl
  find-none (x ∷ xs) h = ground (arith, find-none xs)

  pub find-some : (xs : List A) (y : A) → find p xs ≡ some y → Memᴰ y xs × (p y ≡ true)
  unfolding find
  find-some [] y h = absurd (cc)
  find-some (x ∷ xs) y h = elim (Bool-cases (p x)) [
    | inl e ↦ let same : x ≡ y = ground arith in (Memᴰ.head (sym same), rw (← same) e)
    | inr e ↦ let (m, q) = find-some xs y (ground arith) in (Memᴰ.tail m, q)
  ]

  pub find-append_some : (xs ys : List A) (y : A) → find p xs ≡ some y → find p (xs ++ ys) ≡ some y
  unfolding find
  find-append_some [] ys y h = absurd (cc)
  find-append_some (x ∷ xs) ys y h = ground (arith, find-append_some xs ys y)

  pub find-append_none : (xs ys : List A) → find p xs ≡ none → find p (xs ++ ys) ≡ find p ys
  unfolding find
  find-append_none [] ys h = refl
  find-append_none (x ∷ xs) ys h = ground (arith, find-append_none xs ys)

module _ {ℓ} {A : Type ℓ} where
  pub last-append : (xs : List A) (x : A) → last (xs ++ x ∷ []) ≡ some x
  unfolding last
  last-append [] x = refl
  last-append (y ∷ []) x = refl
  last-append (y ∷ z ∷ ys) x = last-append (z ∷ ys) x

  pub find-filter :
      (p q : A → Bool)
      → ((x : A) → p x ≡ true → q x ≡ true)
      → (xs : List A) → find p (filter q xs) ≡ find p xs
  unfolding find filter
  find-filter p q sub [] = refl
  find-filter p q sub (x ∷ xs) = ground (arith, find-filter p q sub xs, sub x)

  pub filter-filter :
      (p q r : A → Bool)
      → ((x : A) → (p x && q x) ≡ r x)
      → (xs : List A) → filter p (filter q xs) ≡ filter r xs
  unfolding filter
  filter-filter p q r both [] = refl
  filter-filter p q r both (x ∷ xs) = ground (arith, filter-filter p q r both xs, both x)

  pub find-there :
      (p : A → Bool) {x : A} {xs : List A} → Memᴰ x xs → p x ≡ true → (y : A) × (find p xs ≡ some y)
  unfolding find
  find-there p {xs = y ∷ xs} there h = elim (Bool-cases (p y)) [
    | inl e ↦ (y, rw e refl)
    | inr e ↦ elim (Memᴰ.cases_cons there) [
      | inl same ↦ absurd (let w = ap p same in cc)
      | inr rest ↦ let (z, at) = find-there p {xs = xs} rest h in (z, rw e at)
    ]
  ]
  find-there p {xs = []} there h = absurd (Memᴰ.not-nil there)
