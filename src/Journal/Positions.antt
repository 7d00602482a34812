-- ===== src/Journal/Positions.antt =====
-- Storage positions rise strictly, so a read after a position finds exactly what was appended
-- since, already in order.
use ambion.Common.{
  ℕ, ◌≤◌, ◌<◌, ◌≡◌, refl, sym, subst, List, [], ◌∷◌, ◌++◌, arith, ltb, filter, ◌∙◌, filter-append,
  append-nil,
}
use ambion.Journal.Rules.{scanned}
use ambion.Journal.Storage.{StoredEntry, head_or, read_after}
use ambion.Journal.Writer.{sort_entries}

-- The positions of the entries rise strictly from above the first number up to the second.
abbrev pub Rises : ℕ → List StoredEntry → ℕ → Type 0
Rises c [] d = c ≡ d
Rises c (e ∷ es) d = (c < e.position) × Rises e.position es d

pub Rises-le : (c d : ℕ) (es : List StoredEntry) → Rises c es d → c ≤ d
Rises-le c d [] h = omega arith
Rises-le c d (e ∷ es) (h, r) = omega (arith, Rises-le e.position d es r)

pub Rises-append :
    (c d b : ℕ) (es fs : List StoredEntry) → Rises c es d → Rises d fs b → Rises c (es ++ fs) b
Rises-append c d b [] fs h r = subst (λ k. Rises k fs b) (sym h) r
Rises-append c d b (e ∷ es) fs (h, t) r = (h, Rises-append e.position d b es fs t r)

pub filter-old :
    (c d b : ℕ) (es : List StoredEntry)
    → Rises c es d
    → d ≤ b
    → filter (λ e. ltb b e.position) es ≡ []
unfolding filter
filter-old c d b [] h le = refl
filter-old c d b (e ∷ es) (h, r) le =
    ground (arith, filter-old e.position d b es r le, Rises-le e.position d es r)

pub filter-new :
    (c d b : ℕ) (es : List StoredEntry)
    → Rises c es d
    → b ≤ c
    → filter (λ e. ltb b e.position) es ≡ es
unfolding filter
filter-new c d b [] h le = refl
filter-new c d b (e ∷ es) (h, r) le = ground (arith, filter-new e.position d b es r (omega arith))

sort-insert :
    (e f : StoredEntry) (es : List StoredEntry)
    → sort_entries (f ∷ es) ≡ f ∷ es
    → e.position < f.position
    → sort_entries (e ∷ f ∷ es) ≡ e ∷ f ∷ es
unfolding sort_entries
sort-insert e f es h lt = rw h (ground arith)

pub sort-rising : (c d : ℕ) (es : List StoredEntry) → Rises c es d → sort_entries es ≡ es
unfolding sort_entries
sort-rising c d [] h = refl
sort-rising c d (e ∷ []) h = refl
sort-rising c d (e ∷ f ∷ es) (h, r) = sort-insert e f es (sort-rising e.position d (f ∷ es) r) r.0

head-base :
    (c b : ℕ) (e : StoredEntry) (es : List StoredEntry) → head_or c (e ∷ es) ≡ head_or b (e ∷ es)
unfolding head_or
head-base c b e [] = refl
head-base c b e (f ∷ es) = head-base c b f es

head-cons :
    (c : ℕ) (e f : StoredEntry) (es : List StoredEntry)
    → head_or c (e ∷ f ∷ es) ≡ head_or c (f ∷ es)
unfolding head_or
head-cons c e f es = refl

pub head-rising : (b c d : ℕ) (es : List StoredEntry) → Rises c es d → b ≡ c → head_or b es ≡ d
unfolding head_or
head-rising b c d [] h e = e ∙ h
head-rising b c d (e ∷ []) (h, r) _ = r
head-rising b c d (e ∷ f ∷ es) (h, r) _ =
    head-cons b e f es
    ∙ head-base b e.position f es
    ∙ head-rising e.position e.position d (f ∷ es) r refl

head-append-cons :
    (b : ℕ) (es : List StoredEntry) (f : StoredEntry) (fs : List StoredEntry)
    → head_or b (es ++ f ∷ fs) ≡ head_or b (f ∷ fs)
head-append-cons b [] f fs = refl
head-append-cons b (e ∷ []) f fs = head-cons b e f fs
head-append-cons b (e ∷ g ∷ es) f fs =
    head-cons b e g (es ++ f ∷ fs) ∙ head-append-cons b (g ∷ es) f fs

head-caught : (c : ℕ) (old : List StoredEntry) → Rises 0 old c → head_or c old ≡ c
unfolding head_or
head-caught c [] h = refl
head-caught c (e ∷ es) h = head-base c 0 e es ∙ head-rising 0 0 c (e ∷ es) h refl

-- The position that a read reports, for a reader that stands at `c` in a store of two parts.
pub read_after-position :
    (c d : ℕ) (old new : List StoredEntry)
    → Rises 0 old c
    → Rises c new d
    → (read_after (old ++ new) c).position ≡ d
unfolding read_after scanned
read_after-position c d old [] ro rn = rw (append-nil, head-caught c old ro) (omega (arith, rn))
read_after-position c d old (f ∷ fs) ro rn =
    rw (head-append-cons c old f fs, head-rising c c d (f ∷ fs) rn refl)
      (omega (arith, Rises-le c d (f ∷ fs) rn))

-- A reader that stands at `c` finds exactly the entries past it, in order.
pub read_after-entries :
    (c d : ℕ) (old new : List StoredEntry)
    → Rises 0 old c
    → Rises c new d
    → (read_after (old ++ new) c).entries ≡ new
unfolding read_after
read_after-entries c d old new ro rn =
    filter-append (λ e. ltb c e.position) old new
    ∙ rw (filter-old 0 c c old ro (omega arith)) (filter-new c d c new rn (omega arith))
