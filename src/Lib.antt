-- ===== src/Lib.antt =====
-- The journal and the room of ambion.
--
-- A room is a shared record that people and agents write to. Its only durable state is a journal.
-- packages/journal keeps that journal over a storage that appends at an expected position; several
-- processes may write to one storage, and a run entry fences an earlier process out.
-- packages/ambion/src/room decides: facts are folded from the entries of the journal, a decision
-- reads the facts and proposes one entry, and a pass of the reconciliation ends leases, closes the
-- exchange, sends wakes and sets the next alarm.
--
-- Common: the shared names, with Common/Tests (Boolean tests, texts as lists of codes), Common/Lists
-- (some, find, filter), Common/Maps (a Map with its order) and Common/Int (integers off the wire).
--
-- Journal, packages/journal/src:
--   Journal/Rules      rules.verified.ts: fenceStep, keyed, writable, nextSeq, advanceSeq, scanned
--   Journal/Json       json.ts: assertJson as a Boolean test on trees of values
--   Journal/Entry      journal.ts: entryOf, beside, seqOf, writerOf; json.ts: detached
--   Journal/Result     the throws of journal.ts, one constructor for each
--   Journal/Storage    storage.ts and memory.ts: read and append of the memory journal
--   Journal/Writer     journal.ts: the state of a Journal, and read, take, remember, refuse, persist,
--                      land and took as functions on it
--   Journal/Fencing, Positions, Replay, Mirror, Readers, Drafts, Landing, Health and Appends prove.
-- An append is split where the source awaits: `land` takes the storage that the read saw and the one
-- that the append finds, so another writer may have appended in between. The caller's `accepts` is a
-- function of the vocabulary, and its `decide` a function of the journal's state.
--
-- Room, packages/ambion/src:
--   Room/Types, State  types.ts, bodies.ts, journal/entries.ts and the records of room/fold.ts
--   Room/Rules         room/rules.verified.ts: leases, wakes, exchanges, grants and summaries
--   Room/ActivationId  activation-id.ts and names.ts
--   Room/Fold          room/fold.ts, lease.ts, delivery.ts and presence.ts: one entry applied
--   Room/Recipients    room/exchange.ts: indexAtOrAfter, rangeOf, recipientsOf
--   Room/Activation    room/activation.ts: activationSpec and seatAuthority
--   Room/Reconcile     room/reconcile.ts: planReconciliation; lease.ts: dueOf and dueActivation
--   Room/Decide        room/transition.ts: claim, renew, release, end, stopWork, compose, closing and
--                      reconcile
--   Room/Refs          refs.ts, with each regular expression as a function on character codes
--   Room/Scheduled     room/scheduled.ts: the says that wait to return
--   Room/Routing       room/routing.ts: who wakes for a message
--   Room/Messages      room/transition.ts: message, contentRefusal, oversizeRefusal, presenceRefusal
--   Room/Commit        room/transition.ts: deliver, presence, commit, returnSay and dismissing
--   Room/Command       room/transition.ts: decide, from a command to the entry that it writes
--   Room/Completion    room/exchange.ts: coveringSummary, summaryCompletion and exchangeAfter
--   Room/Owed          room/owed.ts: the summaries that are owed
--   Room/Responds      room/responds.ts: the wakes that are open
--   Room/Projection    room/projection.ts: the derived facts, with the parts of a step
--   Room/Advance       room/projection.ts: advance and replay
--   Room/History, Seats, Passes, Authority, Attempts, Search, Steering, Commits, Running, Replays and
--   Reached prove, with Room/ActivationId/RoundTrip and Room/Refs/RoundTrip.
-- A command is decided on the facts that the projection of the record holds, its entry is applied to
-- them, and the next command is decided on the result: Room/Reached composes the two. Room/Replays
-- reads the same facts from the whole record at once, and compares.
-- Date.parse, toISOString and the backoff of the host are arguments. A stamp that Date.parse cannot
-- read is `none`, and an entry whose application throws gives `none`: an unreadable stamp, or a say
-- that is due past the last time of a Date, for which toISOString throws. An expiry that would be NaN
-- is a decision of its own, because its body is not JSON and the append throws.
--
-- Fuel: Room/Recipients halves a range, with one round more than the record has messages. The digits
-- of a number n are written in n + 1 rounds.
--
-- Not modelled: the views of a room, the views of closed exchanges and their outcomes, the vocabulary
-- that checks the entries of a room's journal, SQLite, the promise queue of the journal, the runner
-- and the host, and the packages around the room, which call it.
pub mod Common
pub mod Journal
pub mod Room
