-- ===== src/Journal/Fencing.antt =====
-- What the fence promises over a whole read.
use ambion.Common.{
  ℕ, suc, ◌+◌, ◌≤◌, ◌≡◌, refl, ◌↔◌, Bool, true, false, Option, none, some, List, [], ◌∷◌, Text,
  text_eq_refl, arith,
}
use ambion.Journal.Rules.{Fence, same_writer, fence_step, writable}

-- What the fence reads of one stored entry: is it a run entry, and who wrote it.
abbrev pub Stamp : Type 0
Stamp = Bool × Option Text

abbrev pub count_lost : Bool → ℕ → ℕ
count_lost true n = suc n
count_lost false n = n

-- The fence after a read of several entries.
pub fence_after : Option Text → Fence → List Stamp → Fence
fence_after own state [] = state
fence_after own state ((is_run, writer) ∷ rest) =
    fence_after own (fence_step state own is_run writer).state rest

-- How often the journal hears that it lost the name.
pub losses : Option Text → Fence → List Stamp → ℕ
losses own state [] = 0
losses own state ((is_run, writer) ∷ rest) =
    let later = losses own (fence_step state own is_run writer).state rest in
    count_lost (fence_step state own is_run writer).lost later

-- The entries that a read takes, one answer for each.
pub kept : Option Text → Fence → List Stamp → List Bool
kept own state [] = []
kept own state ((is_run, writer) ∷ rest) =
    (fence_step state own is_run writer).keep
    ∷ kept own (fence_step state own is_run writer).state rest

step_balance :
    (own : Option Text) (state : Fence) (is_run : Bool) (writer : Option Text)
    → count_lost (fence_step state own is_run writer).lost (count_lost state.superseded 0)
      ≡ count_lost (fence_step state own is_run writer).state.superseded 0
unfolding fence_step
step_balance own state is_run writer = ground arith

losses_balance :
    (own : Option Text) (state : Fence) (read : List Stamp)
    → losses own state read + count_lost state.superseded 0
      ≡ count_lost (fence_after own state read).superseded 0
unfolding fence_after losses
losses_balance own state [] = omega arith
losses_balance own state ((is_run, writer) ∷ rest) = ground (
  arith,
  step_balance own state is_run writer,
  losses_balance own (fence_step state own is_run writer).state rest,
)

balance_cases :
    (n : ℕ) (before after : Bool)
    → n + count_lost before 0 ≡ count_lost after 0
    → (n ≤ 1) × ((n ≡ 1) ↔ ((before ≡ false) × (after ≡ true))) × (before ≡ true → after ≡ true)
balance_cases n true true h =
    (omega arith, ((λ e. absurd (omega arith)), λ p. absurd (cc (p.0))), λ _. refl)
balance_cases n true false h = absurd (omega arith)
balance_cases n false true h = (omega arith, ((λ _. (refl, refl)), λ _. omega arith), λ _. refl)
balance_cases n false false h =
    (omega arith, ((λ e. absurd (omega arith)), λ p. absurd (cc (p.1))), λ e. absurd (cc e))

-- Over any read, the journal hears at most once that a later run took the name, it hears of it
-- exactly when the read supersedes it, and a superseded journal stays superseded over any read.
pub lost_once :
    (own : Option Text) (state : Fence) (read : List Stamp)
    → (losses own state read ≤ 1)
      × ((losses own state read ≡ 1)
          ↔ ((state.superseded ≡ false) × ((fence_after own state read).superseded ≡ true)))
      × (state.superseded ≡ true → (fence_after own state read).superseded ≡ true)
lost_once own state read =
    balance_cases (losses own state read) state.superseded (fence_after own state read).superseded
      (losses_balance own state read)

step_unnamed :
    (state : Fence) (is_run : Bool) (writer : Option Text)
    → state.fenced ≡ false
    → state.superseded ≡ false
    → ((fence_step state none is_run writer).state.fenced ≡ false)
      × ((fence_step state none is_run writer).state.superseded ≡ false)
unfolding fence_step same_writer
step_unnamed state is_run writer h k = ground arith

-- A journal with no run of its own is never fenced and never superseded.
pub unnamed_never_fenced :
    (state : Fence) (read : List Stamp)
    → state.fenced ≡ false
    → state.superseded ≡ false
    → ((fence_after none state read).fenced ≡ false)
      × ((fence_after none state read).superseded ≡ false)
unfolding fence_after
unnamed_never_fenced state [] h k = (h, k)
unnamed_never_fenced state ((is_run, writer) ∷ rest) h k =
    let (f, s) = step_unnamed state is_run writer h k in
    unnamed_never_fenced (fence_step state none is_run writer).state rest f s

pub step_agree :
    (own other : Option Text) (a b : Fence) (is_run : Bool) (writer : Option Text)
    → a.fence ≡ b.fence
    → ((fence_step a own is_run writer).keep ≡ (fence_step b other is_run writer).keep)
      × ((fence_step a own is_run writer).state.fence
          ≡ (fence_step b other is_run writer).state.fence)
unfolding fence_step
step_agree own other a b is_run writer h = ground arith

-- Two journals whose fences stand at the same run take the same entries of a read, whatever their
-- own runs are, and their fences stand at the same run afterwards.
pub readers_agree :
    (own other : Option Text) (a b : Fence) (read : List Stamp)
    → a.fence ≡ b.fence
    → (kept own a read ≡ kept other b read)
      × ((fence_after own a read).fence ≡ (fence_after other b read).fence)
unfolding kept fence_after
readers_agree own other a b [] h = (refl, h)
readers_agree own other a b ((is_run, writer) ∷ rest) h =
    let (same, next) = step_agree own other a b is_run writer h in
    let (tail, final) =
      readers_agree own other (fence_step a own is_run writer).state
        (fence_step b other is_run writer).state rest next in
    (ground (arith, same, tail), final)

-- What a journal may write, its own fence keeps when the journal reads it back.
pub writable_kept :
    (closed : Bool) (state : Fence) (own : Option Text) (is_run : Bool)
    → writable closed state own is_run ≡ true
    → (fence_step state own is_run own).keep ≡ true
unfolding writable
writable_kept closed state own is_run h = ground arith

-- What the journal of a run may write, its own fence keeps when the journal reads it back, and
-- the entry leaves the journal able to write any entry of the same sort.
pub writable_again :
    (closed : Bool) (state : Fence) (own : Text) (is_run : Bool)
    → writable closed state (some own) is_run ≡ true
    → ((fence_step state (some own) is_run (some own)).keep ≡ true)
      × (writable closed (fence_step state (some own) is_run (some own)).state (some own) is_run
          ≡ true)
unfolding writable same_writer
writable_again closed state own is_run h = ground (arith, text_eq_refl own)
