-- ===== src/Runtime/Ticker/Laws.antt =====
-- The invariant of the ticker's thread and its owner.
use tds_wasm_ai.Common.{Bool-cases, ℕ, suc, ◌≡◌, refl, ◌≢◌, true, false, inl, inr, List, [], ◌∷◌}
use tds_wasm_ai.Runtime.Ticker.{
  Thread, testing, sleeping, incrementing, ended, Owner, holding, joining, dropped, Actor, ticker,
  owner, memory, Ticker, spawned, advance_ticker, joined, advance_drop, move, schedule,
}

-- How many moves of a schedule are the thread's, and how many the owner's.
unfoldable pub ticks : List Actor → ℕ
ticks [] = 0
ticks (ticker ∷ more) = suc (ticks more)
ticks (owner ∷ more) = ticks more
ticks (memory ∷ more) = ticks more

-- The thread has ended only after the flag was stored and seen, and the owner is done only after the
-- thread has ended.
pub record IsOrderly (t : Ticker) : Type 0 where
  pub stored : t.seen ≡ true → t.stop ≡ true
  pub held : t.owner ≡ holding → t.stop ≡ false
  pub finished : t.thread ≡ ended → t.seen ≡ true
  pub done : t.owner ≡ dropped → t.thread ≡ ended

pub spawned-IsOrderly : (epoch : ℕ) → IsOrderly (spawned epoch)
spawned-IsOrderly epoch = record {
  stored = λ h. cc (h);
  held = λ h. refl;
  finished = λ h. cc (h);
  done = λ h. cc (h);
}

advance_ticker-IsOrderly :
    (th : Thread) (t : Ticker) → t.thread ≡ th → IsOrderly t → IsOrderly (advance_ticker th t)
unfolding advance_ticker
advance_ticker-IsOrderly testing t at h = elim (Bool-cases t.seen) [
  | inl told ↦
      rw (advance_ticker, told)
        (record { stored = h.stored; held = h.held; finished = λ e. told; done = λ e. refl })
  | inr untold ↦
      rw (advance_ticker, untold)
        (record {
          stored = h.stored;
          held = h.held;
          finished = λ e. cc (e);
          done = λ e. cc (at, h.done e);
        })
]
advance_ticker-IsOrderly sleeping t at h = record {
  stored = h.stored;
  held = h.held;
  finished = λ e. cc (e);
  done = λ e. cc (at, h.done e);
}
advance_ticker-IsOrderly incrementing t at h = record {
  stored = h.stored;
  held = h.held;
  finished = λ e. cc (e);
  done = λ e. cc (at, h.done e);
}
advance_ticker-IsOrderly ended t at h = h

joined-ended : (th : Thread) → joined th ≡ dropped → th ≡ ended
unfolding joined
joined-ended testing h = cc (h)
joined-ended sleeping h = cc (h)
joined-ended incrementing h = cc (h)
joined-ended ended h = refl

pub joined-differs : (th : Thread) → joined th ≢ holding
unfolding joined
joined-differs testing h = cc (h)
joined-differs sleeping h = cc (h)
joined-differs incrementing h = cc (h)
joined-differs ended h = cc (h)

advance_drop-IsOrderly :
    (o : Owner) (t : Ticker) → t.owner ≡ o → IsOrderly t → IsOrderly (advance_drop o t)
unfolding advance_drop
advance_drop-IsOrderly holding t at h = record {
  stored = λ e. refl;
  held = λ e. cc (e);
  finished = h.finished;
  done = λ e. cc (e);
}
advance_drop-IsOrderly joining t at h = record {
  stored = h.stored;
  held = λ e. absurd (joined-differs t.thread e);
  finished = h.finished;
  done = λ e. joined-ended t.thread e;
}
advance_drop-IsOrderly dropped t at h = h

pub move-IsOrderly : (a : Actor) (t : Ticker) → IsOrderly t → IsOrderly (move a t)
unfolding move
move-IsOrderly ticker t h = advance_ticker-IsOrderly t.thread t refl h
move-IsOrderly owner t h = advance_drop-IsOrderly t.owner t refl h
move-IsOrderly memory t h = record {
  stored = λ e. e;
  held = h.held;
  finished = λ e. h.stored (h.finished e);
  done = h.done;
}

pub schedule-IsOrderly :
    (acts : List Actor) (t : Ticker) → IsOrderly t → IsOrderly (schedule acts t)
unfolding schedule
schedule-IsOrderly [] t h = h
schedule-IsOrderly (a ∷ acts) t h = schedule-IsOrderly acts (move a t) (move-IsOrderly a t h)
