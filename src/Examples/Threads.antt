-- ===== src/Examples/Threads.antt =====
-- The ticker's thread in a few schedules.
use tds_wasm_ai.Common.{◌+◌, ◌*◌, ◌≤◌, ◌≡◌, ◌↔◌, refl, true, List, [], ◌∷◌, arith}
use tds_wasm_ai.Runtime.Ticker.{
  ended, holding, dropped, Actor, ticker, owner, memory, Ticker, spawned, advance_ticker,
  advance_drop, joined, move, schedule,
}
use tds_wasm_ai.Runtime.Ticker.Laws.{ticks, spawned-IsOrderly, schedule-IsOrderly}
use tds_wasm_ai.Runtime.Ticker.Ends.{drop-returns, dropped-quiet}
use tds_wasm_ai.Runtime.Ticker.Advances.{epoch-advances}

-- A round and a half, then a drop that the thread has seen.
abbrev opening : List Actor
opening = ticker ∷ ticker ∷ ticker ∷ ticker ∷ owner ∷ memory ∷ []

abbrev rounds : List Actor
rounds = ticker ∷ owner ∷ ticker ∷ memory ∷ ticker ∷ []

abbrev told : Ticker
told = schedule opening (spawned 7)

told_sees : told.seen ≡ true
unfolding schedule move advance_ticker advance_drop
told_sees = refl

enough : 3 ≤ ticks rounds
unfolding ticks
enough = omega arith

drop-returns_example :
    ((schedule rounds told).thread ≡ ended)
    × ((schedule rounds told).epoch ≤ told.epoch + 1)
    × ((move owner (schedule rounds told)).owner ≡ dropped)
drop-returns_example =
    drop-returns told rounds (schedule-IsOrderly opening (spawned 7) (spawned-IsOrderly 7))
      told_sees enough

abbrev closing : List Actor
closing = owner ∷ memory ∷ ticker ∷ owner ∷ []

closed : (schedule closing (spawned 7)).owner ≡ dropped
unfolding schedule move advance_ticker advance_drop joined
closed = refl

dropped-quiet_example :
    ((schedule closing (spawned 7)).thread ≡ ended)
    × ((schedule rounds (schedule closing (spawned 7))).epoch
        ≡ (schedule closing (spawned 7)).epoch)
dropped-quiet_example = dropped-quiet closing rounds 7 closed

abbrev held : List Actor
held = ticker ∷ ticker ∷ memory ∷ ticker ∷ ticker ∷ []

held_still : (schedule held (spawned 7)).owner ≡ holding
unfolding schedule move advance_ticker
held_still = refl

epoch-advances_example : (7 + 1 ≤ (schedule held (spawned 7)).epoch) ↔ (3 * 1 ≤ ticks held)
epoch-advances_example = epoch-advances held 7 1 held_still
