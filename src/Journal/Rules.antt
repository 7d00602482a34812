-- ===== src/Journal/Rules.antt =====
-- packages/journal/src/rules.verified.ts: the fence, the key decision and the counters.
use ambion.Common.{
  ℕ, ◌+◌, max, Bool, true, false, not, ◌&&◌, ◌||◌, Option, none, some, Text, text_eq, if◌then◌else◌,
}

-- The fence as one read leaves it.
pub record Fence : Type 0 where
  pub fence : Option Text
  pub fenced : Bool
  pub superseded : Bool

-- One stored entry through the fence.
pub record Passed : Type 0 where
  pub state : Fence
  pub keep : Bool
  pub lost : Bool

-- The entry that a key already names.
pub record Seen : Type 0 where
  pub kind : Text
  pub run : Option Text

pub data Keyed : Type 0 where
  fresh replay conflict : Keyed

unfoldable pub same_writer : Option Text → Option Text → Bool
same_writer none writer = false
same_writer (some own) none = false
same_writer (some own) (some writer) = text_eq own writer

unfoldable pub next_seq : ℕ → ℕ
next_seq last_seq = last_seq + 1

unfoldable pub advance_seq : ℕ → ℕ → ℕ
advance_seq last_seq seq = max last_seq seq

unfoldable pub scanned : ℕ → ℕ → ℕ
scanned cursor position = max cursor position

unfoldable pub pass_fence : Fence → Option Text → Option Text → Passed
pass_fence state own writer =
    let superseded = state.superseded || state.fenced in
    if same_writer own writer
    then record {
      state = record { fence = writer; fenced = true; superseded = state.superseded };
      keep = true;
      lost = false;
    }
    else record {
      state = record { fence = writer; fenced = state.fenced; superseded = superseded };
      keep = true;
      lost = superseded && not state.superseded;
    }

-- Whether an entry that is no run entry stands behind the fence.
unfoldable pub stands : Option Text → Option Text → Bool
stands none writer = true
stands (some fence) none = true
stands (some fence) (some writer) = text_eq writer fence

unfoldable pub pass_entry : Fence → Option Text → Passed
unfolding stands
pass_entry state writer = record { state = state; keep = stands state.fence writer; lost = false }

unfoldable pub fence_step : Fence → Option Text → Bool → Option Text → Passed
unfolding pass_fence pass_entry
fence_step state own is_run writer =
    if is_run then pass_fence state own writer else pass_entry state writer

unfoldable pub keyed : Option Seen → Text → Text → Option Text → Keyed
keyed none kind fence_kind own = fresh
keyed (some seen) kind fence_kind own =
    if not (text_eq seen.kind kind)
    then conflict
    else if text_eq kind fence_kind && not (same_writer own seen.run)
    then conflict
    else replay

unfoldable pub writable : Bool → Fence → Option Text → Bool → Bool
unfolding fence_step
writable closed state own is_run =
    not closed && not state.superseded && (fence_step state own is_run own).keep
