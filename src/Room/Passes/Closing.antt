-- ===== src/Room/Passes/Closing.antt =====
-- packages/ambion/src/room/reconcile.ts `closing` against transition.ts `closing`.
use ambion.Room.Types.{Close, Message, ExchangeRef}
use ambion.Common.{
  All, Bool-cases, List, Text, [], ap, find, if◌then◌else◌, inl, inr, le→leb, map, not, refl,
  some-injective, subst, sym, true, ◌&&◌, ◌∙◌, ◌∷◌, ◌≤◌, Bool, Option, arith, false, none, some, ℕ,
  ◌≡◌,
}
use ambion.Common.Maps.{values}
use ambion.Room.Decide.{
  CloseDecision, close_admission_now, close_entry_of, close_exchange, close_not, close_with,
  if_close, ref_of,
}
use ambion.Room.Reconcile.{
  ReconcileOptions, abandonments, endings, exchange_at_work, if_admitted, is_empty, live_work,
  open_of, plan_close, plan_reconciliation, close_now,
}
use ambion.Room.Rules.Exchanges.{
  CloseAdmission, obsolete, replan, CloseRef, OpenExchange, admitted, close_admission,
  opening_question, opens_exchange,
}
use ambion.Room.State.{RoomState}

is_empty-nil {ℓ} : {A : Type ℓ} (xs : List A) → is_empty xs ≡ true → xs ≡ []
is_empty-nil [] e = refl
is_empty-nil (x ∷ xs) e = absurd (cc)

close_admission-admitted :
    (exchange : OpenExchange) (command : CloseRef) (last_seq : ℕ) (live : Bool)
    → close_admission (some exchange) command last_seq live ≡ admitted
    → (exchange.from ≡ command.from) × (command.through ≡ last_seq) × (live ≡ false)
unfolding close_admission
close_admission-admitted exchange command last_seq live e = ground arith

if_admitted-some :
    (a : CloseAdmission) (command close : CloseRef)
    → if_admitted a command ≡ some close
    → (a ≡ admitted) × (command ≡ close)
if_admitted-some admitted command close e = (refl, some-injective e)
if_admitted-some obsolete command close e = absurd (cc)
if_admitted-some replan command close e = absurd (cc)

close_now-admitted :
    (state : RoomState) (live : Bool) (exchange : Option ExchangeRef) (command : CloseRef)
    → close_now state live exchange ≡ some command
    → close_admission (ref_of exchange) command state.last_seq live ≡ admitted
unfolding close_now
close_now-admitted state live none command e = absurd (cc)
close_now-admitted state live (some exchange) command e =
    let close : CloseRef = record { from = exchange.from; through = state.last_seq } in
    let (ok_now, same) =
      if_admitted-some (close_admission (some (open_of exchange)) close state.last_seq live) close
        command e in
    subst (λ c. close_admission (some (open_of exchange)) c state.last_seq live ≡ admitted) same
      ok_now

-- A close that a pass plans is admitted when it is decided on the facts of the pass, and the pass
-- that plans it ends no lease.
pub planned_close_lands :
    (iso : ℕ → Text) (parse : Text → Option ℕ) (state : RoomState) (options : ReconcileOptions)
    (command : CloseRef)
    → (plan_reconciliation parse state options).close ≡ some command
    → (close_exchange iso parse state command options.now
        ≡ close_with (close_entry_of iso parse state command options.now))
      × ((plan_reconciliation parse state options).revoked_leases ≡ [])
      × ((plan_reconciliation parse state options).expired_leases ≡ [])
      × ((plan_reconciliation parse state options).abandoned_leases ≡ [])
unfolding plan_reconciliation plan_close close_exchange close_admission_now
planned_close_lands iso parse state options command e =
    let ends = endings state options.now (values state.leases) in
    let given_up = if options.stopped then [] else abandonments state options in
    elim (Bool-cases
      (is_empty ends.0 && is_empty ends.1 && is_empty given_up && not options.stopped)) [
        | inl quiet ↦ (
          rw
              (close_now-admitted state (live_work state options.now).exchange state.exchange
                command (rw quiet at e))
              refl,
          is_empty-nil ends.0 (ground arith),
          is_empty-nil ends.1 (ground arith),
          is_empty-nil given_up (ground arith),
        )
        | inr busy ↦ absurd (cc)
      ]

-- No message at or before the end of a close opens a question after it.
pub opening_question-closed :
    (messages : List Message) (people : List Text) (through : ℕ)
    → All (λ m. m.seq ≤ through) messages
    → opening_question messages people through ≡ none
unfolding opening_question find opens_exchange
opening_question-closed [] people through all = refl
opening_question-closed (m ∷ ms) people through (first, all) =
    rw (le→leb m.seq through first, opening_question-closed ms people through all) refl

abbrev written_close : CloseDecision → Close → Close
written_close (close_with close) other = close
written_close (close_not a) other = other

if_close-written :
    (a : CloseAdmission) (entry close : Close)
    → if_close a entry ≡ close_with close
    → (a ≡ admitted) × (entry ≡ close)
if_close-written admitted entry close e = (refl, ap (λ d. written_close d entry) e)
if_close-written obsolete entry close e = absurd (cc)
if_close-written replan entry close e = absurd (cc)

ref_of-open :
    (exchange : Option ExchangeRef) (command : CloseRef) (last_seq : ℕ) (live : Bool)
    → close_admission (ref_of exchange) command last_seq live ≡ admitted
    → (opened : ExchangeRef) × (exchange ≡ some opened)
      × (opened.from ≡ command.from)
      × (command.through ≡ last_seq)
      × (live ≡ false)
unfolding close_admission
ref_of-open none command last_seq live e = absurd (cc)
ref_of-open (some opened) command last_seq live e =
    let (a, b, c) =
      close_admission-admitted (record { from = opened.from }) command last_seq live e in
    (opened, refl, a, b, c)

-- A close that is written takes the open exchange, through the last message.
pub close_exchange-written :
    (iso : ℕ → Text) (parse : Text → Option ℕ) (state : RoomState) (command : CloseRef) (now : ℕ)
    (close : Close)
    → close_exchange iso parse state command now ≡ close_with close
    → (opened : ExchangeRef) × (state.exchange ≡ some opened)
      × (close.from ≡ opened.from)
      × (close.through ≡ state.last_seq)
      × (exchange_at_work state now ≡ false)
unfolding close_exchange close_admission_now live_work close_entry_of
close_exchange-written iso parse state command now close e =
    let (ok_now, same) =
      if_close-written (close_admission_now state command now)
        (close_entry_of iso parse state command now) close e in
    let (opened, at, from, through, rest) =
      ref_of-open state.exchange command state.last_seq (exchange_at_work state now) ok_now in
    (
      opened,
      at,
      sym (ap (λ c. c.from) same) ∙ sym from,
      sym (ap (λ c. c.through) same) ∙ through,
      rest,
    )

-- A close that is written takes the open exchange from its question through the last message,
-- while no work of the exchange is live, and after it no message on the record opens a question.
-- No message is past the last seq.
pub close_ends_exchange :
    (iso : ℕ → Text) (parse : Text → Option ℕ) (state : RoomState) (command : CloseRef) (now : ℕ)
    (close : Close)
    → All (λ m. m.seq ≤ state.last_seq) state.messages
    → close_exchange iso parse state command now ≡ close_with close
    → (opened : ExchangeRef) × (state.exchange ≡ some opened)
      × (close.from ≡ opened.from)
      × (close.through ≡ state.last_seq)
      × (exchange_at_work state now ≡ false)
      × (opening_question state.messages (map (λ p. p.0) state.people) close.through ≡ none)
close_ends_exchange iso parse state command now close all e =
    let (opened, at, from, through, rest) =
      close_exchange-written iso parse state command now close e in
    (
      opened,
      at,
      from,
      through,
      rest,
      rw through
          (opening_question-closed state.messages (map (λ p. p.0) state.people) state.last_seq all),
    )
