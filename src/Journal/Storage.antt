-- ===== src/Journal/Storage.antt =====
-- packages/journal/src/storage.ts and memory.ts: the storage of one journal in memory.
use ambion.Common.{
  ℕ, ◌+◌, Option, none, some, List, [], ◌∷◌, ◌++◌, filter, last, ltb, ◌==◌, if◌then◌else◌,
}
use ambion.Journal.Entry.{Raw}
use ambion.Journal.Rules.{scanned}

pub record StoredEntry : Type 0 where
  pub position : ℕ
  pub entry : Raw

-- The entries after one position, and the final position that the storage scanned.
pub record JournalRead : Type 0 where
  pub entries : List StoredEntry
  pub position : ℕ

abbrev pub Store : Type 0
Store = List StoredEntry

-- `this.entries.at(-1)?.position ?? otherwise`
unfoldable pub head_or : ℕ → Store → ℕ
unfolding last
head_or otherwise store = elim (last store) [ none ↦ otherwise | some e ↦ e.position ]

unfoldable pub read_after : Store → ℕ → JournalRead
unfolding head_or
read_after store after = record {
  entries = filter (λ e. ltb after e.position) store;
  position = scanned after (head_or after store);
}

-- A head that moved writes nothing.
unfoldable pub append_at : Store → Raw → ℕ → Option StoredEntry × Store
unfolding head_or
append_at store entry expected =
    let head = head_or 0 store in
    let stored : StoredEntry = record { position = head + 1; entry = entry } in
    if head == expected then (some stored, store ++ stored ∷ []) else (none, store)
