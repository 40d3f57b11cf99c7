-- ===== src/Runtime/Ticker/Advances.antt =====
-- The epoch while the runtime is held.
use tds_wasm_ai.Common.{
  ℕ, ◌+◌, ◌*◌, ◌≤◌, ◌≡◌, refl, ◌∙◌, sym, ◌≢◌, false, List, [], ◌∷◌, arith, inl, inr, Bool-cases,
  ◌↔◌,
}
use tds_wasm_ai.Runtime.Ticker.{
  Thread, testing, sleeping, incrementing, ended, Owner, holding, joining, dropped, Actor, ticker,
  owner, memory, Ticker, spawned, advance_ticker, advance_drop, move, schedule,
}
use tds_wasm_ai.Runtime.Ticker.Laws.{
  ticks, IsOrderly, joined-differs, spawned-IsOrderly, move-IsOrderly,
}

-- The statements of the round that the thread is in.
unfoldable phase : Thread → ℕ
phase testing = 0
phase sleeping = 1
phase incrementing = 2
phase ended = 0

phase-le : (th : Thread) → phase th ≤ 2
unfolding phase
phase-le testing = omega arith
phase-le sleeping = omega arith
phase-le incrementing = omega arith
phase-le ended = omega arith

advance_ticker-owner : (th : Thread) (t : Ticker) → (advance_ticker th t).owner ≡ t.owner
unfolding advance_ticker
advance_ticker-owner testing t = elim (Bool-cases t.seen) [
  | inl told ↦ rw (advance_ticker, told) refl
  | inr untold ↦ rw (advance_ticker, untold) refl
]
advance_ticker-owner sleeping t = refl
advance_ticker-owner incrementing t = refl
advance_ticker-owner ended t = refl

-- A move of the owner's ends the time in which the runtime is held.
advance_drop-differs : (o : Owner) (t : Ticker) → t.owner ≡ o → (advance_drop o t).owner ≢ holding
unfolding advance_drop
advance_drop-differs holding t at h = cc (h)
advance_drop-differs joining t at h = joined-differs t.thread h
advance_drop-differs dropped t at h = cc (at, h)

-- A runtime is held after a move only if it was before.
move-held : (a : Actor) (t : Ticker) → (move a t).owner ≡ holding → t.owner ≡ holding
unfolding move
move-held ticker t h = sym (advance_ticker-owner t.thread t) ∙ h
move-held owner t h = absurd (advance_drop-differs t.owner t refl h)
move-held memory t h = h

schedule-held :
    (acts : List Actor) (t : Ticker) → (schedule acts t).owner ≡ holding → t.owner ≡ holding
unfolding schedule
schedule-held [] t h = h
schedule-held (a ∷ acts) t h = move-held a t (schedule-held acts (move a t) h)

unseen : (t : Ticker) → IsOrderly t → t.owner ≡ holding → t.seen ≡ false
unseen t h held = elim (Bool-cases t.seen) [
  | inl told ↦ cc (h.stored told, h.held held)
  | inr untold ↦ untold
]

advance_ticker-steps :
    (th : Thread) (t : Ticker)
    → t.thread ≡ th
    → th ≢ ended
    → t.seen ≡ false
    → 3 * (advance_ticker th t).epoch + phase (advance_ticker th t).thread
      ≡ 3 * t.epoch + phase th + 1
unfolding advance_ticker phase
advance_ticker-steps testing t at runs untold = rw (advance_ticker, untold) (omega arith)
advance_ticker-steps sleeping t at runs untold = omega arith
advance_ticker-steps incrementing t at runs untold = omega arith
advance_ticker-steps ended t at runs untold = absurd (runs refl)

schedule-steps :
    (acts : List Actor) (t : Ticker)
    → IsOrderly t
    → (schedule acts t).owner ≡ holding
    → 3 * (schedule acts t).epoch + phase (schedule acts t).thread
      ≡ 3 * t.epoch + phase t.thread + ticks acts
unfolding schedule ticks move phase
schedule-steps [] t h held = omega arith
schedule-steps (ticker ∷ acts) t h held =
    let before : t.owner ≡ holding = move-held ticker t (schedule-held acts (move ticker t) held) in
    let untold = unseen t h before in
    let one = advance_ticker-steps t.thread t refl (λ e. cc (h.finished e, untold)) untold in
    let rest = schedule-steps acts (move ticker t) (move-IsOrderly ticker t h) held in
    omega (arith, one, rest)
schedule-steps (owner ∷ acts) t h held =
    absurd (advance_drop-differs t.owner t refl (schedule-held acts (move owner t) held))
schedule-steps (memory ∷ acts) t h held =
    schedule-steps acts (move memory t) (move-IsOrderly memory t h) held

-- In any schedule in which the runtime is still held: the epoch has advanced by n or more exactly
-- if the thread has executed 3 n statements or more.
pub epoch-advances :
    (acts : List Actor) (epoch n : ℕ)
    → (schedule acts (spawned epoch)).owner ≡ holding
    → (epoch + n ≤ (schedule acts (spawned epoch)).epoch) ↔ (3 * n ≤ ticks acts)
unfolding phase
epoch-advances acts epoch n held =
    let u = schedule acts (spawned epoch) in
    let e = schedule-steps acts (spawned epoch) (spawned-IsOrderly epoch) held in
    ((λ h. omega (arith, e, phase-le u.thread, h)), λ h. omega (arith, e, phase-le u.thread, h))
