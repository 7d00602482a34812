-- ===== src/Room/Commits/Distinct.antt =====
-- packages/ambion/src/room/routing.ts: `[...new Set(woken)]`, the names of a list in their order, each once.
use ambion.Room.Rules.Grants.{names}
use ambion.Common.{
  Bool-cases, List, Memᴰ, Text, [], any_complete, any_sound, inl, inr, subst, sym, text_eq,
  text_eq_iff, text_eq_refl, true, ◌++◌, ◌∷◌, ◌≡◌, ◌⊎◌,
}
use ambion.Room.Fold.{distinct_onto}
use ambion.Room.Rules.Exchanges.{includes}
use mathlib.Core.List.Memᴰ

Memᴰ-includes : (names : List Text) (n : Text) → Memᴰ n names → includes names n ≡ true
unfolding includes
Memᴰ-includes names n there = any_complete (λ m. text_eq m n) there (text_eq_refl n)

includes-Memᴰ : (names : List Text) (n : Text) → includes names n ≡ true → Memᴰ n names
unfolding includes
includes-Memᴰ names n h =
    let (m, there, same) = any_sound (λ x. text_eq x n) names h in
    subst (λ x. Memᴰ x names) ((text_eq_iff m n).0 same) there

distinct_onto-keeps :
    (seen names : List Text) {n : Text} → Memᴰ n seen → Memᴰ n (distinct_onto seen names)
unfolding distinct_onto
distinct_onto-keeps seen [] m = m
distinct_onto-keeps seen (x ∷ names) m = elim (Bool-cases (includes seen x)) [
  | inl e ↦ rw e (distinct_onto-keeps seen names m)
  | inr e ↦ rw e (distinct_onto-keeps (seen ++ x ∷ []) names (Memᴰ.append_left (x ∷ []) m))
]

pub distinct_onto-adds :
    (seen names : List Text) {n : Text} → Memᴰ n names → Memᴰ n (distinct_onto seen names)
unfolding distinct_onto
distinct_onto-adds seen [] m = absurd (Memᴰ.not-nil m)
distinct_onto-adds seen (x ∷ names) {n} m = elim (Bool-cases (includes seen x)) [
  | inl e ↦ rw e (elim (Memᴰ.cases_cons m) [
    | inl same ↦
        distinct_onto-keeps seen names
          (subst (λ y. Memᴰ y seen) (sym same) (includes-Memᴰ seen x e))
    | inr rest ↦ distinct_onto-adds seen names rest
  ])
  | inr e ↦ rw e (elim (Memᴰ.cases_cons m) [
    | inl same ↦
        distinct_onto-keeps (seen ++ x ∷ []) names (Memᴰ.append_right seen (Memᴰ.head same))
    | inr rest ↦ distinct_onto-adds (seen ++ x ∷ []) names rest
  ])
]

pub distinct_onto-from :
    (seen names : List Text) {n : Text}
    → Memᴰ n (distinct_onto seen names)
    → Memᴰ n seen ⊎ Memᴰ n names
unfolding distinct_onto
distinct_onto-from seen [] m = inl m
distinct_onto-from seen (x ∷ names) {n} m = elim (Bool-cases (includes seen x)) [
  | inl e ↦ elim (distinct_onto-from seen names (rw e at m)) [
    | inl s ↦ inl s
    | inr r ↦ inr (Memᴰ.tail r)
  ]
  | inr e ↦ elim (distinct_onto-from (seen ++ x ∷ []) names (rw e at m)) [
    | inl s ↦ elim (Memᴰ.append_cases seen s) [
      | inl old ↦ inl old
      | inr new ↦ elim (Memᴰ.cases_cons new) [
        | inl same ↦ inr (Memᴰ.head same)
        | inr none_left ↦ absurd (Memᴰ.not-nil none_left)
      ]
    ]
    | inr r ↦ inr (Memᴰ.tail r)
  ]
]

-- Each name of a list stands once.
abbrev pub Once : List Text → Type 0
Once [] = Unit
Once (n ∷ names) = (Memᴰ n names → ⊥) × Once names

Once-append :
    (names : List Text) (n : Text) → Once names → (Memᴰ n names → ⊥) → Once (names ++ n ∷ [])
Once-append [] n once h = (λ m. Memᴰ.not-nil m, tt)
Once-append (x ∷ names) n (first, rest) h = (
  λ m. elim (Memᴰ.append_cases names m) [
    | inl old ↦ first old
    | inr new ↦ elim (Memᴰ.cases_cons new) [
      | inl same ↦ h (Memᴰ.head (sym same))
      | inr nothing ↦ Memᴰ.not-nil nothing
    ]
  ],
  Once-append names n rest (λ m. h (Memᴰ.tail m)),
)

pub distinct_onto-Once : (seen names : List Text) → Once seen → Once (distinct_onto seen names)
unfolding distinct_onto
distinct_onto-Once seen [] once = once
distinct_onto-Once seen (x ∷ names) once = elim (Bool-cases (includes seen x)) [
  | inl e ↦ rw e (distinct_onto-Once seen names once)
  | inr e ↦ rw e (
      distinct_onto-Once (seen ++ x ∷ []) names
        (Once-append seen x once (λ m. let there = Memᴰ-includes seen x m in absurd (cc))))
]
