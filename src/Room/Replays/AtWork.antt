-- ===== src/Room/Replays/AtWork.antt =====
-- The index of the leases at work, through the entries of a journal: packages/ambion/src/room/projection.ts.
use ambion.Room.Running.{
  set-held, Listed, Listed-Keyed, Unlisted, at_work-drop, at_work-set, front, set-Listed,
  at_work_now,
}
use ambion.Common.{
  Option, Option-cases, none, Bool-cases, List, Text, [], ap, arith, false, filter, inl, inr, refl,
  some, some-injective, subst, sym, text_eq, true, ℕ, ◌<◌, ◌∙◌, ◌∷◌, ◌≡◌, ◌≤◌,
}
use ambion.Common.Maps.{get-set_self, text_key, get, set, values}
use ambion.Room.ActivationId.{decode_activation_id}
use ambion.Room.Fold.{
  apply_lease, cancel_leases, put_lease, at_work, distinct, message_delivery, steered_by, steers,
}
use ambion.Room.History.Leases.{cancel_hold-kept}
use ambion.Room.Projection.{running_after, runs_now}
use ambion.Room.Rules.Leases.{
  apply_change, cancel_hold, cancel_state, change_running, changed_state,
}
use ambion.Room.Types.{
  ActivationFields, Change, ChangeState, LeaseState, Message, RuleLease, end_for, ends, run_until,
  runs,
}
use ambion.Room.Replays.{EndedBy, OverBy}
use ambion.Room.State.{MessageSteer}

OverBy-later : (a b : ℕ) (s : LeaseState) → a ≤ b → OverBy a s → OverBy b s
OverBy-later a b (runs expires_at) h over = tt
OverBy-later a b (ends reason cancelled cause until) h over = omega (arith, h, over)

pub EndedBy-later :
    (a b : ℕ) (leases : List (Text × RuleLease)) → a ≤ b → EndedBy a leases → EndedBy b leases
EndedBy-later a b [] h over = tt
EndedBy-later a b ((i, l) ∷ leases) h (first, rest) =
    (OverBy-later a b l.state h first, EndedBy-later a b leases h rest)

-- A lease that ended before a message is not steered by it, so the index gives the same delivery.
steers-over :
    (m : Message) (wakes : List Text) (l : RuleLease) (top : ℕ) (s : LeaseState)
    → l.state ≡ s
    → runs_now l ≡ false
    → OverBy top s
    → top < m.seq
    → steers m wakes l ≡ false
unfolding steers at_work
steers-over m wakes l top (runs expires_at) e h over later = absurd (let w = rw e at h in cc)
steers-over m wakes l top (ends reason cancelled cause until) e h over later = rw e (ground arith)

steered_by-skip :
    (m : Message) (wakes : List Text) (steered : List MessageSteer) (l : RuleLease)
    (leases : List RuleLease)
    → steers m wakes l ≡ false
    → steered_by m wakes steered (l ∷ leases) ≡ steered_by m wakes steered leases
unfolding steered_by
steered_by-skip m wakes steered l leases off = rw off refl

steered_by-at_work :
    (m : Message) (wakes : List Text) (leases : List (Text × RuleLease)) (top : ℕ)
    (steered : List MessageSteer)
    → EndedBy top leases
    → top < m.seq
    → steered_by m wakes steered (values (at_work_now leases))
      ≡ steered_by m wakes steered (values leases)
unfolding steered_by filter
steered_by-at_work m wakes [] top steered over later = refl
steered_by-at_work m wakes ((i, l) ∷ leases) top steered (first, rest) later =
    elim (Bool-cases (runs_now l)) [
      | inl e ↦ rw e (steered_by-at_work m wakes leases top _ rest later)
      | inr e ↦
          let off = steers-over m wakes l top l.state refl e first later in
          rw e (
            steered_by-at_work m wakes leases top steered rest later
            ∙ sym (steered_by-skip m wakes steered l (values leases) off))
    ]

pub message_delivery-at_work :
    (m : Message) (leases : List (Text × RuleLease)) (top : ℕ)
    → EndedBy top leases
    → top < m.seq
    → message_delivery m (at_work_now leases) ≡ message_delivery m leases
unfolding message_delivery
message_delivery-at_work m leases top over later =
    ap (λ s. record { wakes = distinct m.wakes; steers = s })
      (steered_by-at_work m (distinct m.wakes) leases top [] over later)

EndedBy-set :
    (top : ℕ) (leases : List (Text × RuleLease)) (id : Text) (l : RuleLease)
    → EndedBy top leases
    → OverBy top l.state
    → EndedBy top (set leases id l)
unfolding set
EndedBy-set top [] id l over h = (h, tt)
EndedBy-set top ((i, k) ∷ leases) id l (first, rest) h = elim (Bool-cases (text_eq i id)) [
  | inl same ↦ rw same (h, rest)
  | inr differs ↦ rw differs (first, EndedBy-set top leases id l rest h)
]

EndedBy-get :
    (top : ℕ) (leases : List (Text × RuleLease)) (id : Text) (l : RuleLease)
    → EndedBy top leases
    → get leases id ≡ some l
    → OverBy top l.state
unfolding get
EndedBy-get top [] id l over h = absurd (cc)
EndedBy-get top ((i, k) ∷ leases) id l (first, rest) h = elim (Bool-cases (text_eq i id)) [
  | inl same ↦ subst (λ x. OverBy top x.state) (some-injective (rw same at h)) first
  | inr differs ↦ EndedBy-get top leases id l rest (rw differs at h)
]

-- What a change leaves of the lease under its id.
pub record Changes (leases : List (Text × RuleLease)) (hold : RuleLease) (id : Text) (seq : ℕ)
    : Type 0 where
  pub same_id : hold.id ≡ id
  pub ran : (k : RuleLease) → get leases id ≡ some k → runs_now hold ≡ true → runs_now k ≡ true
  pub ended_at : OverBy seq hold.state

OverBy-changed : (c : ChangeState) (seq : ℕ) → OverBy seq (changed_state c seq)
OverBy-changed (run_until expires_at) seq = tt
OverBy-changed (end_for reason cause) seq = omega arith

change_running-Changes :
    (leases : List (Text × RuleLease)) (known : RuleLease) (c : Change) (top seq : ℕ)
    (s : LeaseState)
    → get leases c.id ≡ some known
    → known.id ≡ c.id
    → known.state ≡ s
    → OverBy top s
    → top ≤ seq
    → Changes leases (change_running known c seq s) c.id seq
change_running-Changes leases known c top seq (runs expires_at) h own e over later = record {
  same_id = refl;
  ran = λ k there on.
      let same = some-injective (sym h ∙ there) in subst (λ x. runs_now x ≡ true) same (rw e refl);
  ended_at = OverBy-changed c.state seq;
}
change_running-Changes leases known c top seq (ends reason cancelled cause until) h own e over
      later =
    record {
      same_id = own;
      ran = λ k there on. subst (λ x. runs_now x ≡ true) (some-injective (sym h ∙ there)) on;
      ended_at = subst (OverBy seq) (sym e) (omega (arith, over, later));
    }

-- What an entry leaves: the leases stand once each under their ids, and those that ended did by then.
pub record Kept (top : ℕ) (leases : List (Text × RuleLease)) : Type 0 where
  pub listed : Listed leases
  pub over : EndedBy top leases

new_lease-Changes :
    (leases : List (Text × RuleLease)) (c : Change) (seq : ℕ) (a : ActivationFields)
    → get leases c.id ≡ none
    → Changes leases (apply_change none c seq a) c.id seq
unfolding apply_change
new_lease-Changes leases c seq a h = record {
  same_id = refl;
  ran = λ k there on. absurd (cc);
  ended_at = OverBy-changed c.state seq;
}

apply_change-Changes :
    (leases : List (Text × RuleLease)) (c : Change) (top seq : ℕ) (a : ActivationFields)
    → Kept top leases
    → top ≤ seq
    → Changes leases (apply_change (get leases c.id) c seq a) c.id seq
apply_change-Changes leases c top seq a was later = elim (Option-cases (get leases c.id)) [
  | inl e ↦ rw e (new_lease-Changes leases c seq a e)
  | inr (known, e) ↦
      unfold apply_change in
      rw e (
        change_running-Changes leases known c top seq known.state e
          (Listed-Keyed leases was.listed c.id known e) refl
          (EndedBy-get top leases c.id known was.over e) later)
]

held-Changes :
    (leases : List (Text × RuleLease)) (hold : RuleLease) (id : Text) (top seq : ℕ)
    → Kept top leases
    → top ≤ seq
    → get leases id ≡ some hold
    → Changes leases hold id seq
held-Changes leases hold id top seq was later h = record {
  same_id = Listed-Keyed leases was.listed id hold h;
  ran = λ k there on. subst (λ x. runs_now x ≡ true) (some-injective (sym h ∙ there)) on;
  ended_at = OverBy-later top seq hold.state later (EndedBy-get top leases id hold was.over h);
}

-- A change either sets one lease under its id, or finds none.
pub data Applied (leases after : List (Text × RuleLease)) (id : Text) (seq : ℕ) : Type 0 where
  same_leases : after ≡ leases → get after id ≡ none → Applied leases after id seq
  sets :
      (hold : RuleLease)
      → after ≡ set leases id hold
      → get after id ≡ some hold
      → Changes leases hold id seq
      → Applied leases after id seq

put_lease-Applied :
    (a : Option ActivationFields) (leases : List (Text × RuleLease)) (c : Change) (top seq : ℕ)
    → Kept top leases
    → top ≤ seq
    → Applied leases (put_lease a leases c seq) c.id seq
put_lease-Applied none leases c top seq was later = elim (Option-cases (get leases c.id)) [
  | inl e ↦ same_leases refl e
  | inr (hold, e) ↦
      sets hold (sym (set-held leases c.id hold e)) e
        (held-Changes leases hold c.id top seq was later e)
]
put_lease-Applied (some a) leases c top seq was later =
    let hold = apply_change (get leases c.id) c seq a in
    sets hold refl (get-set_self leases c.id hold)
      (apply_change-Changes leases c top seq a was later)

pub apply_lease-Applied :
    (leases : List (Text × RuleLease)) (c : Change) (top seq : ℕ)
    → Kept top leases
    → top ≤ seq
    → Applied leases (apply_lease leases c seq) c.id seq
unfolding apply_lease
apply_lease-Applied leases c top seq was later =
    put_lease-Applied (decode_activation_id c.id) leases c top seq was later

-- One lease set under its id: the index follows.
pub running_after-at_work :
    (leases : List (Text × RuleLease)) (hold : RuleLease) (seq : ℕ)
    → Listed leases
    → Changes leases hold hold.id seq
    → running_after (at_work_now leases) hold ≡ at_work_now (set leases hold.id hold)
unfolding running_after
running_after-at_work leases hold seq listed changes = elim (Bool-cases (runs_now hold)) [
  | inl e ↦ rw e (sym (at_work-set leases hold (λ k h. changes.ran k h e) e))
  | inr e ↦ rw e (sym (at_work-drop leases hold listed e))
]

pub set-Kept :
    (leases : List (Text × RuleLease)) (hold : RuleLease) (top seq : ℕ)
    → Kept top leases
    → top ≤ seq
    → Changes leases hold hold.id seq
    → Kept seq (set leases hold.id hold)
set-Kept leases hold top seq was later changes = record {
  listed = set-Listed leases hold was.listed;
  over =
      EndedBy-set seq leases hold.id hold (EndedBy-later top seq leases later was.over)
        changes.ended_at;
}

-- A cancellation keeps each lease in its place.
cancel_hold-id : (l : RuleLease) (seq : ℕ) (at : Text) → (cancel_hold l seq at).id ≡ l.id
cancel_hold-id l seq at = elim (cancel_hold-kept l seq at) [
  | inl e ↦ ap (λ x. x.id) e
  | inr (live, e) ↦ ap (λ x. x.id) e
]

cancel_state-OverBy :
    (s : LeaseState) (top seq : ℕ) → top ≤ seq → OverBy top s → OverBy seq (cancel_state s seq)
cancel_state-OverBy (runs expires_at) top seq later over = omega arith
cancel_state-OverBy (ends reason cancelled cause until) top seq later over =
    omega (arith, later, over)

cancel_hold-OverBy :
    (l : RuleLease) (top seq : ℕ) (at : Text)
    → top ≤ seq
    → OverBy top l.state
    → OverBy seq (cancel_hold l seq at).state
cancel_hold-OverBy l top seq at later over = elim (cancel_hold-kept l seq at) [
  | inl e ↦ subst (λ x. OverBy seq x.state) (sym e) (OverBy-later top seq l.state later over)
  | inr (live, e) ↦
      subst (λ x. OverBy seq x.state) (sym e) (cancel_state-OverBy l.state top seq later over)
]

Unlisted-cancel :
    (id : Text) (leases : List (Text × RuleLease)) (seq : ℕ) (at : Text)
    → Unlisted id leases
    → Unlisted id (cancel_leases leases seq at)
unfolding cancel_leases
Unlisted-cancel id [] seq at h = tt
Unlisted-cancel id ((i, l) ∷ leases) seq at (first, rest) =
    (first, Unlisted-cancel id leases seq at rest)

Listed-cancel :
    (leases : List (Text × RuleLease)) (seq : ℕ) (at : Text)
    → Listed leases
    → Listed (cancel_leases leases seq at)
unfolding cancel_leases
Listed-cancel [] seq at Listed.empty = Listed.empty
Listed-cancel ((i, l) ∷ leases) seq at (front _ _ own unlisted rest) =
    front i (cancel_hold l seq at) (cancel_hold-id l seq at ∙ own)
      (Unlisted-cancel i leases seq at unlisted) (Listed-cancel leases seq at rest)

EndedBy-cancel :
    (top seq : ℕ) (leases : List (Text × RuleLease)) (at : Text)
    → top ≤ seq
    → EndedBy top leases
    → EndedBy seq (cancel_leases leases seq at)
unfolding cancel_leases
EndedBy-cancel top seq [] at later over = tt
EndedBy-cancel top seq ((i, l) ∷ leases) at later (first, rest) =
    (cancel_hold-OverBy l top seq at later first, EndedBy-cancel top seq leases at later rest)

pub cancel-Kept :
    (top seq : ℕ) (leases : List (Text × RuleLease)) (at : Text)
    → top ≤ seq
    → Kept top leases
    → Kept seq (cancel_leases leases seq at)
cancel-Kept top seq leases at later was = record {
  listed = Listed-cancel leases seq at was.listed;
  over = EndedBy-cancel top seq leases at later was.over;
}
