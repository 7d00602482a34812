-- ===== src/Common/Maps.antt =====
-- A JavaScript `Map`: the entries in the order in which their keys were first set.
use mathlib.Core.Path.{◌≡◌, refl}
use mathlib.Core.Logic.{◌↔◌, inl, inr}
use mathlib.Core.Bool.{Bool, true}
use mathlib.Core.Option.{Option, none, some}
use mathlib.Core.List.{List, [], ◌∷◌, map, Memᴰ}
use Prim.Native.Nat.{ℕ}
use native.Mathlib.Omega.{arith}
use ambion.Common.Tests.{
  Text, text_eq, text_eq_iff, ==_iff, Bool-cases, if◌then◌else◌, ◌==◌ as nat_eq_test,
}

-- Keys are compared by `===`.
pub record Key {ℓ} (K : Type ℓ) : Type ℓ where
  pub same : K → K → Bool
  pub same_iff : (a b : K) → (same a b ≡ true) ↔ (a ≡ b)

instance abbrev pub text_key : Key Text
text_key = record { same = text_eq; same_iff = text_eq_iff }

instance abbrev pub number_key : Key ℕ
number_key = record { same = nat_eq_test; same_iff = ==_iff }

module _ {ℓ} {K V : Type ℓ} ⦃key : Key K⦄ where
  -- `map.get(k)`
  unfoldable pub get : List (K × V) → K → Option V
  get [] k = none
  get ((j, v) ∷ m) k = let rest = get m k in if key.same j k then some v else rest

  -- `map.set(k, v)`: a key that the map holds keeps its place.
  unfoldable pub set : List (K × V) → K → V → List (K × V)
  set [] k v = (k, v) ∷ []
  set ((j, w) ∷ m) k v = let rest = set m k v in if key.same j k then (j, v) ∷ m else (j, w) ∷ rest

  pub get-set :
      (m : List (K × V)) (k j : K) (v : V)
      → get (set m k v) j ≡ (if key.same k j then some v else get m j)
  unfolding get set
  get-set [] k j v = refl
  get-set ((i, w) ∷ m) k j v =
      ground (arith, key.same_iff k j, key.same_iff i k, key.same_iff i j, get-set m k j v)

  pub get-set_self : (m : List (K × V)) (k : K) (v : V) → get (set m k v) k ≡ some v
  get-set_self m k v = ground (arith, get-set m k k v, key.same_iff k k)

abbrev pub map_option {ℓ κ} : {A : Type ℓ} {B : Type κ} → (A → B) → Option A → Option B
map_option f none = none
map_option f (some x) = some (f x)

module _ {ℓ} {K V : Type ℓ} ⦃key : Key K⦄ where
  pub get-map :
      {W : Type ℓ} (f : V → W) (m : List (K × V)) (k : K)
      → get (map (λ e. (e.0, f e.1)) m) k ≡ map_option f (get m k)
  unfolding get
  get-map f [] k = refl
  get-map f ((j, v) ∷ m) k = ground (arith, get-map f m k)

  pub get-Memᴰ : (m : List (K × V)) (k : K) (v : V) → get m k ≡ some v → Memᴰ v (map (λ e. e.1) m)
  unfolding get
  get-Memᴰ [] k v h = absurd (cc)
  get-Memᴰ ((j, w) ∷ m) k v h = elim (Bool-cases (key.same j k)) [
    | inl e ↦ Memᴰ.head (ground arith)
    | inr e ↦ Memᴰ.tail (get-Memᴰ m k v (ground arith))
  ]

module _ {ℓ} {K V : Type ℓ} where
  -- `[...map.values()]`
  abbrev pub values : List (K × V) → List V
  values = map (λ e. e.1)
