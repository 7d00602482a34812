-- ===== src/Room/Running.antt =====
-- The index of the leases at work, which packages/ambion/src/room/projection.ts keeps beside the leases.
use ambion.Common.{
  text_eq_sym, append-nil, append_assoc, some, some-injective, true, ◌++◌, ◌∙◌, All, Bool-cases,
  List, Text, [], ap, false, filter, inl, inr, none, refl, subst, sym, text_eq, text_eq_iff, ◌∷◌,
  ◌≡◌,
}
use ambion.Room.History.{Keyed}
use ambion.Room.Projection.{running_of, runs_now, without}
use ambion.Common.Maps.{text_key, get, set}
use ambion.Room.Types.{RuleLease}

-- Each key stands once, and each lease under its own id.
abbrev pub Unlisted : Text → List (Text × RuleLease) → Type 0
Unlisted id leases = All (λ e. text_eq e.0 id ≡ false) leases

pub data Listed : List (Text × RuleLease) → Type 0 where
  empty : Listed []
  front :
      {leases : List (Text × RuleLease)} (id : Text) (l : RuleLease)
      → l.id ≡ id
      → Unlisted id leases
      → Listed leases
      → Listed ((id, l) ∷ leases)

-- The leases at work.
abbrev pub at_work_now : List (Text × RuleLease) → List (Text × RuleLease)
at_work_now = filter (λ e. runs_now e.1)

Unlisted-set :
    (j id : Text) (l : RuleLease) (leases : List (Text × RuleLease))
    → text_eq id j ≡ false
    → Unlisted j leases
    → Unlisted j (set leases id l)
unfolding set
Unlisted-set j id l [] other h = (other, tt)
Unlisted-set j id l ((i, k) ∷ leases) other (first, rest) = elim (Bool-cases (text_eq i id)) [
  | inl same ↦ rw same (first, rest)
  | inr differs ↦ rw differs (first, Unlisted-set j id l leases other rest)
]

pub set-Listed :
    (leases : List (Text × RuleLease)) (l : RuleLease) → Listed leases → Listed (set leases l.id l)
unfolding set
set-Listed [] l empty = front l.id l refl tt empty
set-Listed ((i, k) ∷ leases) l (front _ _ own unlisted rest) = elim (Bool-cases (text_eq i l.id)) [
  | inl same ↦ rw same (front i l (sym ((text_eq_iff i l.id).0 same)) unlisted rest)
  | inr differs ↦ rw differs (
      front i k own (Unlisted-set i l.id l leases (text_eq_sym i l.id differs) unlisted)
        (set-Listed leases l rest))
]

-- A key that is not listed is not found, and its removal changes nothing.
get-Unlisted :
    (leases : List (Text × RuleLease)) (id : Text) → Unlisted id leases → get leases id ≡ none
unfolding get
get-Unlisted [] id h = refl
get-Unlisted ((i, k) ∷ leases) id (first, rest) = rw (first, get-Unlisted leases id rest) refl

without-Unlisted :
    (leases : List (Text × RuleLease)) (id : Text) → Unlisted id leases → without leases id ≡ leases
unfolding without filter
without-Unlisted [] id h = refl
without-Unlisted ((i, k) ∷ leases) id (first, rest) =
    rw first (ap (λ r. (i, k) ∷ r) (without-Unlisted leases id rest))

Unlisted-filter :
    (id : Text) (leases : List (Text × RuleLease))
    → Unlisted id leases
    → Unlisted id (at_work_now leases)
unfolding filter
Unlisted-filter id [] h = tt
Unlisted-filter id ((i, k) ∷ leases) (first, rest) = elim (Bool-cases (runs_now k)) [
  | inl e ↦ rw e (first, Unlisted-filter id leases rest)
  | inr e ↦ rw e (Unlisted-filter id leases rest)
]

set-absent :
    (leases : List (Text × RuleLease)) (id : Text) (l : RuleLease)
    → Unlisted id leases
    → set leases id l ≡ leases ++ (id, l) ∷ []
unfolding set
set-absent [] id l h = refl
set-absent ((i, k) ∷ leases) id l (first, rest) =
    rw first (ap (λ r. (i, k) ∷ r) (set-absent leases id l rest))

-- Setting what a key holds changes nothing.
pub set-held :
    (leases : List (Text × RuleLease)) (id : Text) (l : RuleLease)
    → get leases id ≡ some l
    → set leases id l ≡ leases
unfolding set get
set-held [] id l h = absurd (cc)
set-held ((i, k) ∷ leases) id l h = elim (Bool-cases (text_eq i id)) [
  | inl same ↦ rw same (ap (λ x. (i, x) ∷ leases) (sym (some-injective (rw same at h))))
  | inr differs ↦ rw differs (ap (λ r. (i, k) ∷ r) (set-held leases id l (rw differs at h)))
]

pub Listed-Keyed : (leases : List (Text × RuleLease)) → Listed leases → Keyed leases
unfolding get
Listed-Keyed [] empty id l h = absurd (cc)
Listed-Keyed ((i, k) ∷ leases) (front _ _ own unlisted rest) id l h =
    elim (Bool-cases (text_eq i id)) [
      | inl same ↦
          ap (λ x. x.id) (sym (some-injective (rw same at h))) ∙ own ∙ (text_eq_iff i id).0 same
      | inr differs ↦ Listed-Keyed leases rest id l (rw differs at h)
    ]

-- A lease that on takes its place in the index as it does among the leases.
pub at_work-set :
    (leases : List (Text × RuleLease)) (l : RuleLease)
    → ((k : RuleLease) → get leases l.id ≡ some k → runs_now k ≡ true)
    → runs_now l ≡ true
    → at_work_now (set leases l.id l) ≡ set (at_work_now leases) l.id l
unfolding set filter get
at_work-set [] l before on = rw on refl
at_work-set ((i, k) ∷ leases) l before on = elim (Bool-cases (text_eq i l.id)) [
  | inl same ↦ let k_runs = before k (rw same refl) in rw (same, on, k_runs, same) refl
  | inr differs ↦
      let rest = at_work-set leases l (λ j h. before j (rw differs h)) on in
      elim (Bool-cases (runs_now k)) [
        | inl e ↦ rw (differs, e, differs, rest) refl
        | inr e ↦ rw (differs, e, rest) refl
      ]
]

-- A lease that ended leaves the index.
pub at_work-drop :
    (leases : List (Text × RuleLease)) (l : RuleLease)
    → Listed leases
    → runs_now l ≡ false
    → at_work_now (set leases l.id l) ≡ without (at_work_now leases) l.id
unfolding set filter without
at_work-drop [] l empty over = rw over refl
at_work-drop ((i, k) ∷ leases) l (front _ _ own unlisted rest) over =
    elim (Bool-cases (text_eq i l.id)) [
      | inl same ↦
          let gone = without-Unlisted (at_work_now leases) l.id (
            Unlisted-filter l.id leases
              (subst (λ x. Unlisted x leases) ((text_eq_iff i l.id).0 same) unlisted)) in
          elim (Bool-cases (runs_now k)) [
            | inl e ↦ rw (same, over, e, same) (sym gone)
            | inr e ↦ rw (same, over, e) (sym gone)
          ]
      | inr differs ↦
          let below = at_work-drop leases l rest over in
          elim (Bool-cases (runs_now k)) [
            | inl e ↦ rw (differs, e, differs) (ap (λ r. (i, k) ∷ r) below)
            | inr e ↦ rw (differs, e) below
          ]
    ]

-- The index that a cancellation reads again from the leases.
abbrev pub Apart : List (Text × RuleLease) → List (Text × RuleLease) → Type 0
Apart index leases = All (λ e. Unlisted e.0 index) leases

Unlisted-append :
    (i : Text) (index : List (Text × RuleLease)) (id : Text) (l : RuleLease)
    → Unlisted i index
    → text_eq id i ≡ false
    → Unlisted i (index ++ (id, l) ∷ [])
Unlisted-append i [] id l h differs = (differs, tt)
Unlisted-append i ((j, k) ∷ index) id l (first, rest) differs =
    (first, Unlisted-append i index id l rest differs)

Apart-append :
    (index leases : List (Text × RuleLease)) (id : Text) (l : RuleLease)
    → Apart index leases
    → Unlisted id leases
    → Apart (index ++ (id, l) ∷ []) leases
Apart-append index [] id l h u = tt
Apart-append index ((i, k) ∷ leases) id l (first, rest) (differs, u) = (
  Unlisted-append i index id l first (text_eq_sym i id differs),
  Apart-append index leases id l rest u,
)

pub running_of-at_work :
    (index leases : List (Text × RuleLease))
    → Listed leases
    → Apart index leases
    → running_of index leases ≡ index ++ at_work_now leases
unfolding running_of filter
running_of-at_work index [] empty apart = sym (append-nil index)
running_of-at_work index ((i, l) ∷ leases) (front _ _ own unlisted rest) (first, apart) =
    elim (Bool-cases (runs_now l)) [
      | inl e ↦
          let placed = ap (λ x. set index x l) own ∙ set-absent index i l first in
          let below =
            running_of-at_work (index ++ (i, l) ∷ []) leases rest
              (Apart-append index leases i l apart unlisted) in
          rw e (
            ap (λ s. running_of s leases) placed
            ∙ below
            ∙ append_assoc index ((i, l) ∷ []) (at_work_now leases))
      | inr e ↦ rw e (running_of-at_work index leases rest apart)
    ]

pub Apart-empty : (leases : List (Text × RuleLease)) → Apart [] leases
Apart-empty [] = tt
Apart-empty (e ∷ leases) = (tt, Apart-empty leases)
