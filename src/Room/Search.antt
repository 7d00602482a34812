-- ===== src/Room/Search.antt =====
-- packages/ambion/src/room/exchange.ts `indexAtOrAfter`: the binary search on an ordered record.
use ambion.Common.{false, ltb→lt, refl, subst, sym, true, ◌/◌, ◌≡◌}
use ambion.Common.{Bool-cases, List, arith, inl, inr, length, ltb, suc, zero, ℕ, ◌+◌, ◌<◌, ◌≤◌}
use ambion.Room.Recipients.{index_at_or_after, search_seq, seq_at}
use ambion.Room.Types.{Message}

-- The places of a record do not fall.
abbrev pub IsOrdered : List Message → Type 0
IsOrdered messages = (i j : ℕ) → i ≤ j → j < length messages → seq_at messages i ≤ seq_at messages j

-- An index splits the record at a place: what is in front of it is before the place, and what is
-- behind it is at or after the place.
abbrev pub SplitsAt : List Message → ℕ → ℕ → ℕ → Type 0
SplitsAt messages seq low high =
    ((i : ℕ) → i < low → seq_at messages i < seq)
    × ((i : ℕ) → high ≤ i → i < length messages → seq ≤ seq_at messages i)

-- The index that a search gives.
abbrev pub IsFound : List Message → ℕ → ℕ → Type 0
IsFound messages seq index = SplitsAt messages seq index index × (index ≤ length messages)

module _ (rounds : ℕ) (messages : List Message) (seq low high : ℕ) where
  search_seq-stops : ltb low high ≡ false → search_seq (suc rounds) messages seq low high ≡ low
  unfolding search_seq
  search_seq-stops h = rw h refl

  search_seq-above :
      ltb low high ≡ true
      → ltb (seq_at messages ((low + high) / 2)) seq ≡ true
      → search_seq (suc rounds) messages seq low high
        ≡ search_seq rounds messages seq ((low + high) / 2 + 1) high
  unfolding search_seq
  search_seq-above h k = rw (h, k) refl

  search_seq-below :
      ltb low high ≡ true
      → ltb (seq_at messages ((low + high) / 2)) seq ≡ false
      → search_seq (suc rounds) messages seq low high
        ≡ search_seq rounds messages seq low ((low + high) / 2)
  unfolding search_seq
  search_seq-below h k = rw (h, k) refl

search_seq-IsFound :
    (rounds : ℕ) (messages : List Message) (seq low high : ℕ)
    → IsOrdered messages
    → low ≤ high
    → high ≤ length messages
    → high < low + rounds
    → SplitsAt messages seq low high
    → IsFound messages seq (search_seq rounds messages seq low high)
search_seq-IsFound zero messages seq low high sorted order bound fuel split = absurd (omega arith)
search_seq-IsFound (suc rounds) messages seq low high sorted order bound fuel (front, back) =
    let middle = (low + high) / 2 in
    elim (Bool-cases (ltb low high)) [
      | inr done ↦
          let met : high ≤ low = ground arith in
          subst (IsFound messages seq) (sym (search_seq-stops rounds messages seq low high done))
            ((front, λ i h k. back i (omega (arith, met, h)) k), omega arith)
      | inl open_range ↦
          let wide = ltb→lt low high open_range in
          elim (Bool-cases (ltb (seq_at messages middle) seq)) [
            | inl early ↦
                subst (IsFound messages seq)
                  (sym (search_seq-above rounds messages seq low high open_range early))
                  (search_seq-IsFound rounds messages seq (middle + 1) high sorted (omega arith)
                    bound (omega arith)
                    (
                      λ i h.
                          let at_most = sorted i middle (omega arith) (omega arith) in
                          let before = ltb→lt (seq_at messages middle) seq early in omega arith,
                      back,
                    ))
            | inr late ↦
                subst (IsFound messages seq)
                  (sym (search_seq-below rounds messages seq low high open_range late))
                  (search_seq-IsFound rounds messages seq low middle sorted (omega arith)
                    (omega arith) (omega arith)
                    (
                      front,
                      λ i h k.
                          let at_least = sorted middle i h k in
                          let after_it : seq ≤ seq_at messages middle = ground arith in omega arith,
                    ))
          ]
    ]

-- The search of an ordered record finds the first message at or after a place: each message in
-- front of the index is before the place, each one from the index on is at or after it, and the
-- index is at most the number of messages.
pub index_at_or_after-IsFound :
    (messages : List Message) (seq : ℕ)
    → IsOrdered messages
    → IsFound messages seq (index_at_or_after messages seq)
unfolding index_at_or_after
index_at_or_after-IsFound messages seq sorted =
    search_seq-IsFound (suc (length messages)) messages seq 0 (length messages) sorted (omega arith)
      (omega arith) (omega arith) (λ i h. absurd (omega arith), λ i h k. absurd (omega arith))
