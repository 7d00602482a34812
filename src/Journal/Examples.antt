-- ===== src/Journal/Examples.antt =====
-- Runs of the journal at concrete inputs.
use ambion.Common.Maps.{text_key, get, set}
use ambion.Journal.Health.{Filled, Sound, Filled-healthy}
use ambion.Journal.Mirror.{read-Mirrors, read_replays, Mirrors}
use ambion.Journal.Readers.{SameView, replays_agree}
use ambion.Journal.Writer.{
  finish_read, read, index, remember, sort_entries, settle, took, read_one, take, Journal, Intent,
  Landing, landed, proposed, blank, read_entries, land, refuse, lookup_key,
}
use ambion.Journal.Rules.{
  same_writer, keyed, scanned, next_seq, advance_seq, Fence, fence_step, writable,
}
use ambion.Journal.Entry.{entry_of, beside, Entry, Vocabulary, takes, foreign}
use ambion.Common.{
  ap, ◌≡◌, ◌≤◌, ◌↔◌, refl, true, false, none, some, Text, codes, Option, List, [], ◌∷◌, text_eq,
  if◌then◌else◌, arith, filter,
}
use ambion.Journal.Json.{text, is_json}
use ambion.Journal.Fencing.{
  lost_once, unnamed_never_fenced, writable_again, fence_after, losses, Stamp,
}
use ambion.Journal.Storage.{Store, read_after, append_at}
use ambion.Journal.Landing.{Caught}
use ambion.Journal.Appends.{Outcome, land-Outcome, land-Filled, retry_lands_once}
use ambion.Journal.Replay.{read_entries-nil}

abbrev words : Vocabulary
words = record {
  run = codes "run";
  accepts = λ kind body. if text_eq kind (codes "other") then foreign else takes;
}

abbrev run_a : Option Text
run_a = some (codes "a")

abbrev run_b : Option Text
run_b = some (codes "b")

abbrev open_fence : Fence
open_fence = record { fence = none; fenced = false; superseded = false }

abbrev two_runs : List Stamp
two_runs = (true, run_a) ∷ (false, run_a) ∷ (true, run_b) ∷ (false, run_a) ∷ (true, run_b) ∷ []

lost_once_example :
    (losses run_a open_fence two_runs ≤ 1)
    × ((losses run_a open_fence two_runs ≡ 1)
        ↔ ((false ≡ false) × ((fence_after run_a open_fence two_runs).superseded ≡ true)))
    × (false ≡ true → (fence_after run_a open_fence two_runs).superseded ≡ true)
lost_once_example = lost_once run_a open_fence two_runs

unnamed_never_fenced_example :
    ((fence_after none open_fence two_runs).fenced ≡ false)
    × ((fence_after none open_fence two_runs).superseded ≡ false)
unnamed_never_fenced_example = unnamed_never_fenced open_fence two_runs refl refl

writable_again_example :
    ((fence_step open_fence run_a true run_a).keep ≡ true)
    × (writable false (fence_step open_fence run_a true run_a).state run_a true ≡ true)
writable_again_example =
    writable_again false open_fence (codes "a") true (unfold writable same_writer text_eq in refl)

abbrev say : Text → Intent Text
say key = record { key = some key; decide = λ j. proposed (text (codes "hello")) }

abbrev message : Text
message = codes "message"

first : Landing Text × Journal × Store
unfolding land refuse writable same_writer text_eq read_entries read_one take sort_entries filter
    read_after settle append_at took is_json get set fence_step entry_of beside keyed lookup_key
    scanned next_seq advance_seq index remember
first = land words run_a blank message (say (codes "k")) false [] []

abbrev start : Mirrors words run_a blank []
start = record {
  old = [];
  new = [];
  head = 0;
  parts = refl;
  behind = refl;
  ahead = refl;
  sound = ap (λ r. r.0) (read_entries-nil words run_a blank);
  same = ap (λ r. r.1.replica) (read_entries-nil words run_a blank);
}

land-Outcome_example : Outcome words run_a message (some (codes "k")) [] [] first
unfolding first
land-Outcome_example =
    land-Outcome words run_a message (some (codes "k")) [] [] 0 blank (say (codes "k")) false refl
      start refl

first-Filled : Filled words first.2
unfolding first
first-Filled =
    land-Filled words run_a message [] [] 0 blank (say (codes "k")) false start refl Filled.unused
      Filled.unused

Filled-healthy_example : Sound words run_b first.2
Filled-healthy_example = Filled-healthy words first.2 run_b first-Filled

abbrev note : Entry
note = record {
  kind = message;
  body = text (codes "hello");
  seq = 1;
  key = some (codes "k");
  run = run_a;
}

first_landed : first.0 ≡ landed note
unfolding first
first_landed = refl

first-Caught : Caught words run_a first.1 first.2
unfolding first
first-Caught = record { rises = (omega arith, refl); sound = refl; same = refl }

retry_lands_once_example :
    land words run_a first.1 message (say (codes "k")) false first.2 first.2
    ≡ (landed note, first.1, first.2)
retry_lands_once_example =
    retry_lands_once words run_a first.1 message (say (codes "k")) note first.2 first.2 first-Caught
      (unfold first in refl) (unfold first in refl) refl (unfold text_eq in refl)

land-Filled_example : Filled words first.2
unfolding first
land-Filled_example =
    land-Filled words run_a message [] [] 0 blank (say (codes "k")) false start refl Filled.unused
      Filled.unused

replays_agree_example :
    ((read_entries words run_a blank first.2).0 ≡ (read_entries words run_b blank first.2).0)
    × SameView (read_entries words run_a blank first.2).1 (read_entries words run_b blank first.2).1
replays_agree_example = replays_agree words run_a run_b first.2

behind_first : Mirrors words run_a blank first.2
unfolding first
behind_first = record {
  old = [];
  new = first.2;
  head = 1;
  parts = refl;
  behind = refl;
  ahead = (omega arith, refl);
  sound = ap (λ r. r.0) (read_entries-nil words run_a blank);
  same = ap (λ r. r.1.replica) (read_entries-nil words run_a blank);
}

read_fine : (read words run_a blank (read_after first.2 0)).0 ≡ none
unfolding first read finish_read
read_fine = refl

read_replays_example :
    ((read_entries words run_a blank first.2).0 ≡ none)
    × ((read_entries words run_a blank first.2).1.replica
        ≡ (read words run_a blank (read_after first.2 blank.cursor)).1.replica)
read_replays_example = read_replays words run_a blank first.2 behind_first read_fine

read-Mirrors_example :
    Mirrors words run_a (read words run_a blank (read_after first.2 blank.cursor)).1 first.2
read-Mirrors_example = read-Mirrors words run_a blank first.2 behind_first
