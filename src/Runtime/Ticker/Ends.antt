-- ===== src/Runtime/Ticker/Ends.antt =====
-- The end of the ticker's thread.
use tds_wasm_ai.Common.{ℕ, ◌+◌, ◌-◌, ◌∙◌, ap, ◌≤◌, ◌≡◌, refl, true, List, [], ◌∷◌, arith}
use tds_wasm_ai.Runtime.Ticker.{
  Thread, testing, sleeping, incrementing, ended, Owner, holding, joining, dropped, Actor, ticker,
  owner, memory, Ticker, spawned, advance_ticker, joined, advance_drop, move, schedule,
}
use tds_wasm_ai.Runtime.Ticker.Laws.{ticks, IsOrderly, spawned-IsOrderly, schedule-IsOrderly}

-- The thread's statements until it has ended, once it sees the flag, and the increments among them.
unfoldable distance : Thread → ℕ
distance testing = 1
distance sleeping = 3
distance incrementing = 2
distance ended = 0

unfoldable ahead : Thread → ℕ
ahead testing = 0
ahead sleeping = 1
ahead incrementing = 1
ahead ended = 0

-- The thread sees the flag that the owner stored.
pub record IsTold (t : Ticker) : Type 0 where
  pub seen : t.seen ≡ true
  pub stop : t.stop ≡ true

-- After `k` of its statements the thread is nearer to its end, with no increment beyond the one that
-- was ahead.
record IsNearer (k : ℕ) (t u : Ticker) : Type 0 where
  told : IsTold u
  nearer : distance u.thread ≤ distance t.thread - k
  epoch : u.epoch + ahead u.thread ≡ t.epoch + ahead t.thread

advance_ticker-IsNearer :
    (th : Thread) (t : Ticker) → t.thread ≡ th → IsTold t → IsNearer 1 t (advance_ticker th t)
unfolding advance_ticker distance ahead
advance_ticker-IsNearer testing t at h =
    rw (advance_ticker, h.seen)
      (record {
        told = record { seen = h.seen; stop = h.stop };
        nearer = rw at (omega arith);
        epoch = rw at refl;
      })
advance_ticker-IsNearer sleeping t at h = record {
  told = record { seen = h.seen; stop = h.stop };
  nearer = rw at (omega arith);
  epoch = rw at refl;
}
advance_ticker-IsNearer incrementing t at h = record {
  told = record { seen = h.seen; stop = h.stop };
  nearer = rw at (omega arith);
  epoch = rw at (omega arith);
}
advance_ticker-IsNearer ended t at h = record {
  told = h;
  nearer = rw at (omega arith);
  epoch = refl;
}

advance_drop-IsNearer : (o : Owner) (t : Ticker) → IsTold t → IsNearer 0 t (advance_drop o t)
unfolding advance_drop
advance_drop-IsNearer holding t h = record {
  told = record { seen = h.seen; stop = refl };
  nearer = omega arith;
  epoch = refl;
}
advance_drop-IsNearer joining t h = record {
  told = record { seen = h.seen; stop = h.stop };
  nearer = omega arith;
  epoch = refl;
}
advance_drop-IsNearer dropped t h = record { told = h; nearer = omega arith; epoch = refl }

schedule-IsNearer :
    (acts : List Actor) (t : Ticker) → IsTold t → IsNearer (ticks acts) t (schedule acts t)
unfolding schedule move ticks
schedule-IsNearer [] t h = record { told = h; nearer = omega arith; epoch = refl }
schedule-IsNearer (ticker ∷ acts) t h =
    let one = advance_ticker-IsNearer t.thread t refl h in
    let rest = schedule-IsNearer acts (move ticker t) one.told in
    record {
      told = rest.told;
      nearer = omega (arith, one.nearer, rest.nearer);
      epoch = rest.epoch ∙ one.epoch;
    }
schedule-IsNearer (owner ∷ acts) t h =
    let one = advance_drop-IsNearer t.owner t h in
    let rest = schedule-IsNearer acts (move owner t) one.told in
    record {
      told = rest.told;
      nearer = omega (arith, one.nearer, rest.nearer);
      epoch = rest.epoch ∙ one.epoch;
    }
schedule-IsNearer (memory ∷ acts) t h =
    let rest = schedule-IsNearer acts (move memory t) (record { seen = h.stop; stop = h.stop }) in
    record { told = rest.told; nearer = rest.nearer; epoch = rest.epoch }

distance-le : (th : Thread) → distance th ≤ 3
unfolding distance
distance-le testing = omega arith
distance-le sleeping = omega arith
distance-le incrementing = omega arith
distance-le ended = omega arith

ahead-le : (th : Thread) → ahead th ≤ 1
unfolding ahead
ahead-le testing = omega arith
ahead-le sleeping = omega arith
ahead-le incrementing = omega arith
ahead-le ended = omega arith

arrived : (th : Thread) → distance th ≤ 0 → th ≡ ended
unfolding distance
arrived testing h = absurd (omega arith)
arrived sleeping h = absurd (omega arith)
arrived incrementing h = absurd (omega arith)
arrived ended h = refl

join-returns :
    (o : Owner) (t : Ticker)
    → t.owner ≡ o
    → IsOrderly t
    → t.stop ≡ true
    → t.thread ≡ ended
    → (advance_drop o t).owner ≡ dropped
unfolding advance_drop joined
join-returns holding t at h stop over = cc (h.held at, stop)
join-returns joining t at h stop over = ap joined over
join-returns dropped t at h stop over = at

-- Once the thread sees the flag of a drop: after any schedule in which it runs three statements it
-- has ended, having advanced the epoch at most once, and the owner's join returns at its next move.
pub drop-returns :
    (t : Ticker) (acts : List Actor)
    → IsOrderly t
    → t.seen ≡ true
    → 3 ≤ ticks acts
    → let u = schedule acts t in
      (u.thread ≡ ended) × (u.epoch ≤ t.epoch + 1) × ((move owner u).owner ≡ dropped)
unfolding move
drop-returns t acts h seen enough =
    let u = schedule acts t in
    let n = schedule-IsNearer acts t (record { seen = seen; stop = h.stored seen }) in
    let over : u.thread ≡ ended =
      arrived u.thread (omega (arith, n.nearer, distance-le t.thread, enough)) in
    (
      over,
      omega (arith, n.epoch, ahead-le t.thread),
      join-returns u.owner u refl (schedule-IsOrderly acts t h) n.told.stop over,
    )

-- In any schedule: once a drop of the runtime has returned, the thread has ended, and the epoch
-- does not advance any more.
pub dropped-quiet :
    (before after : List Actor) (epoch : ℕ)
    → (schedule before (spawned epoch)).owner ≡ dropped
    → let t = schedule before (spawned epoch) in
      (t.thread ≡ ended) × ((schedule after t).epoch ≡ t.epoch)
unfolding distance ahead
dropped-quiet before after epoch gone =
    let t = schedule before (spawned epoch) in
    let h = schedule-IsOrderly before (spawned epoch) (spawned-IsOrderly epoch) in
    let over : t.thread ≡ ended = h.done gone in
    let seen = h.finished over in
    let n = schedule-IsNearer after t (record { seen = seen; stop = h.stored seen }) in
    let still : (schedule after t).thread ≡ ended =
      arrived _ (omega (arith, n.nearer, ap distance over)) in
    (over, omega (arith, n.epoch, ap ahead over, ap ahead still))
