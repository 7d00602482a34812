-- ===== src/Room/Commits/Returns.antt =====
-- packages/ambion/src/room/transition.ts `returnSay` and scheduled.ts: the return of a scheduled say.
use ambion.Room.Messages.{
  no_message, content_refusal, message_body, oversize_refusal, routed, write_message,
}
use ambion.Room.Reconcile.{ReconcileOptions, due_says, plan_reconciliation, say_due}
use ambion.Common.{
  Bool-cases, ap, some-injective, subst, ◌∙◌, Bool, false, if◌then◌else◌, find-some, find-there,
  sym, List, Memᴰ, Option, Option-cases, Text, [], any, arith, filter, filter-sub, filter_sound,
  find, inl, inr, none, not, refl, some, text_eq, true, ℕ, ◌==◌, ◌∷◌, ◌≡◌,
}
use ambion.Room.Commit.{dismiss_say, dismissing, write_returned, return_say}
use ambion.Room.Commits.Written.{message_body-injective}
use ambion.Room.Scheduled.{
  dismissal, schedule_step, step_content, returning_say, is_returnable, returning,
}
use ambion.Room.Activation.{seated}
use ambion.Room.State.{RoomState, ScheduledSay}
use ambion.Room.Types.{Body, Content, system}
use mathlib.Core.List.Memᴰ

-- The message that gives a say back.
abbrev pub give_back : ScheduledSay → Content
give_back say = system (some say.seat) say.text say.refs (some say.seq)

-- No two scheduled says have one position.
abbrev pub Unrepeated : List ScheduledSay → Type 0
Unrepeated list = (s t : ScheduledSay) → Memᴰ s list → Memᴰ t list → (s.seq ≡ t.seq) → s ≡ t

write_returned-lands :
    (state : RoomState) (draft : Body) (say : ScheduledSay) (now : ℕ)
    → draft.content ≡ give_back say
    → (b : Body) × (write_message state draft now true none ≡ message_body b)
      × (b.content ≡ give_back say)
      × (b.from ≡ draft.from)
unfolding write_message content_refusal oversize_refusal routed
write_returned-lands state draft say now e = (routed state draft now true, rw e refl, e, refl)

filtered-absent :
    (seq : ℕ) (list : List ScheduledSay)
    → find (λ say. say.seq == seq) (filter (λ s. not (s.seq == seq)) list) ≡ none
unfolding find filter
filtered-absent seq [] = refl
filtered-absent seq (s ∷ list) = ground (arith, filtered-absent seq list)

if-Memᴰ : (b : Bool) (seqs : List ℕ) {seq : ℕ} → Memᴰ seq (if b then seqs else []) → Memᴰ seq seqs
if-Memᴰ true seqs m = m
if-Memᴰ false seqs m = absurd (Memᴰ.not-nil m)

module _ (iso : ℕ → Text) (parse : Text → Option ℕ) where
  say_due-returnable :
      (state : RoomState) (say : ScheduledSay) (now : ℕ)
      → say_due parse state now say ≡ true
      → is_returnable (parse say.due) now (any (λ seat. text_eq seat.name say.seat) state.roster)
        ≡ true
  unfolding say_due seated
  say_due-returnable state say now h = elim (Option-cases (parse say.due)) [
    | inl e ↦ absurd (let w = rw (e, say_due) at h in cc)
    | inr (due, e) ↦ rw e (rw (e, say_due) at h)
  ]

  planned_due :
      (state : RoomState) (options : ReconcileOptions) (seq : ℕ)
      → Memᴰ seq (plan_reconciliation parse state options).returns
      → Memᴰ seq (due_says parse state options.now)
  unfolding plan_reconciliation
  planned_due state options seq planned = if-Memᴰ _ (due_says parse state options.now) planned

  write_found :
      (state : RoomState) (say : ScheduledSay) (now : ℕ)
      → is_returnable (parse say.due) now (any (λ seat. text_eq seat.name say.seat) state.roster)
        ≡ true
      → (b : Body) × (write_returned iso parse
            (returning_say iso parse (some say) state.roster now)
            state
            now
          ≡ message_body b)
        × (b.content ≡ give_back say)
        × (b.from ≡ none)
  write_found state say now due = rw due (write_returned-lands state _ say now refl)

  -- Each say that a pass plans to give back comes back: where no two scheduled says have one
  -- position, `returnSay` writes its text, for its own seat and by nobody, at the time of the pass.
  pub planned_return_lands :
      (state : RoomState) (options : ReconcileOptions) (seq : ℕ)
      → Unrepeated state.scheduled
      → Memᴰ seq (plan_reconciliation parse state options).returns
      → (say : ScheduledSay) × Memᴰ say state.scheduled
        × (say.seq ≡ seq)
        × (b : Body) × (return_say iso parse state seq options.now ≡ message_body b)
        × (b.content ≡ give_back say)
        × (b.from ≡ none)
  unfolding plan_reconciliation due_says return_say returning
  planned_return_lands state options seq unrepeated planned =
      let due = planned_due state options seq planned in
      let (say, there, same) =
        Memᴰ.of_map (λ s. s.seq) (filter (say_due parse state options.now) state.scheduled) due in
      let on_list = filter-sub (say_due parse state options.now) state.scheduled there in
      let is_due = filter_sound (say_due parse state options.now) state.scheduled there in
      let (found, at) = find-there (λ s. s.seq == seq) on_list (ground (arith, same)) in
      let (there_too, has_seq) = find-some (λ s. s.seq == seq) state.scheduled found at in
      let one = unrepeated found say there_too on_list (ground arith) in
      let (b, lands, content, by) =
        write_found state say options.now (say_due-returnable state say options.now is_due) in
      (say, on_list, same, b, rw (at, one) lands, content, by)

  return_found :
      (state : RoomState) (s : ScheduledSay) (now : ℕ) (b : Body)
      → write_returned iso parse (returning_say iso parse (some s) state.roster now) state now
        ≡ message_body b
      → b.content ≡ give_back s
  return_found state s now b h =
      elim (Bool-cases
        (is_returnable (parse s.due) now (any (λ seat. text_eq seat.name s.seat) state.roster))) [
          | inl due ↦
              let (c, lands, content, by) = write_found state s now due in
              ap (λ x. x.content) (message_body-injective b c (sym h ∙ lands)) ∙ content
          | inr early ↦ absurd (let w = rw early at h in cc)
        ]

  return_say-gives_back :
      (state : RoomState) (say now : ℕ) (b : Body)
      → return_say iso parse state say now ≡ message_body b
      → (s : ScheduledSay) × (s.seq ≡ say) × (b.content ≡ give_back s)
  unfolding return_say returning
  return_say-gives_back state say now b h =
      elim (Option-cases (find (λ s. s.seq == say) state.scheduled)) [
        | inl e ↦ absurd (let w = rw e at h in cc)
        | inr (s, e) ↦
            let (there, same) = find-some (λ s. s.seq == say) state.scheduled s e in
            (s, ground arith, return_found state s now b (rw e at h))
      ]

  -- A say comes back once: after the message that gives it back, the host neither gives it back
  -- again nor records a dismissal of it.
  pub returned_once :
      (state after : RoomState) (say now later seq : ℕ) (b : Body)
      → return_say iso parse state say now ≡ message_body b
      → schedule_step iso parse state.scheduled (record { body = b; seq = seq })
        ≡ some after.scheduled
      → (return_say iso parse after say later ≡ no_message)
        × (dismiss_say iso parse after say later ≡ no_message)
  unfolding return_say returning schedule_step dismiss_say dismissing dismissal
  returned_once state after say now later seq b h stepped =
      let (s, same, content) = return_say-gives_back state say now b h in
      let gone_now =
        subst
          (λ c.
            step_content iso parse state.scheduled (record { body = b; seq = seq }) c
            ≡ some after.scheduled)
          (content ∙ ap (λ n. system (some s.seat) s.text s.refs (some n)) same) stepped in
      let absent_now : find (λ s. s.seq == say) after.scheduled ≡ none =
        subst (λ l. find (λ s. s.seq == say) l ≡ none) (some-injective gone_now)
          (filtered-absent say state.scheduled) in
      (rw absent_now refl, rw absent_now refl)
