-- ===== src/Common/Options.antt =====
-- A chain of results that may be absent, for do blocks.
use mathlib.Core.Path.{◌≡◌, refl, subst}
use ambion.Common.Tests.{some-injective}
use mathlib.Core.Option.{Option, none, some}

infixl 5 ◌>>=◌
abbrev pub ◌>>=◌ {ℓ κ} : {A : Type ℓ} {B : Type κ} → Option A → (A → Option B) → Option B
none >>= f = none
some a >>= f = f a

-- The parts of a chain that gives a result.
pub >>=-some {ℓ κ} :
    {A : Type ℓ} {B : Type κ} (o : Option A) (f : A → Option B) {b : B}
    → (o >>= f) ≡ some b
    → (a : A) × (o ≡ some a) × (f a ≡ some b)
>>=-some none f h = absurd (cc)
>>=-some (some a) f h = (a, refl, h)

-- What holds of every result of a step holds of the result of the chain that ends with it.
pub after_>>= {ℓ κ μ} :
    {A : Type ℓ} {B : Type κ} (P : B → Type μ) (o : Option A) (f : A → B) {b : B}
    → ((a : A) → P (f a))
    → (o >>= λ a. some (f a)) ≡ some b
    → P b
after_>>= P none f each h = absurd (cc)
after_>>= P (some a) f each h = subst P (some-injective h) (each a)
