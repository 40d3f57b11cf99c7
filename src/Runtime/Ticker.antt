-- ===== src/Runtime/Ticker.antt =====
-- crates/tds-host/src/runtime.rs, the thread that advances the epoch: the loop that `Runtime::new` spawns
-- and the end of it in `drop`. A schedule says who moves next: the ticker's thread, the owner of the
-- runtime, who drops it, or the memory, which makes the owner's relaxed store visible to the thread.
pub mod Laws
pub mod Ends
pub mod Advances
use tds_wasm_ai.Common.{ℕ, ◌+◌, Bool, true, false, List, [], ◌∷◌}

-- Where the thread stands in `while !stop.load(…) { sleep(…); engine.increment_epoch(); }`.
pub data Thread : Type 0 where
  testing sleeping incrementing ended : Thread

-- The owner holds the runtime, waits in `handle.join()`, or has dropped the runtime.
pub data Owner : Type 0 where
  holding joining dropped : Owner

pub data Actor : Type 0 where
  ticker owner memory : Actor

-- `stop` is what the owner stored and `seen` what the thread's loads yield.
pub record Ticker : Type 0 where
  pub stop : Bool
  pub seen : Bool
  pub epoch : ℕ
  pub thread : Thread
  pub owner : Owner

-- The ticker that `new` spawns in an engine at some epoch.
abbrev pub spawned : ℕ → Ticker
spawned epoch = record {
  stop = false;
  seen = false;
  epoch = epoch;
  thread = testing;
  owner = holding;
}

-- One statement of the loop.
unfoldable pub advance_ticker : Thread → Ticker → Ticker
advance_ticker testing t = elim t.seen [
  | true ↦ record t { thread = ended }
  | false ↦ record t { thread = sleeping }
]
advance_ticker sleeping t = record t { thread = incrementing }
advance_ticker incrementing t = record t { epoch = t.epoch + 1; thread = testing }
advance_ticker ended t = t

-- `join` returns once the thread has ended.
unfoldable pub joined : Thread → Owner
joined ended = dropped
joined testing = joining
joined sleeping = joining
joined incrementing = joining

-- One statement of `drop`: the store of the flag, then the join.
unfoldable pub advance_drop : Owner → Ticker → Ticker
advance_drop holding t = record t { stop = true; owner = joining }
advance_drop joining t = record t { owner = joined t.thread }
advance_drop dropped t = t

unfoldable pub move : Actor → Ticker → Ticker
move ticker t = advance_ticker t.thread t
move owner t = advance_drop t.owner t
move memory t = record t { seen = t.stop }

unfoldable pub schedule : List Actor → Ticker → Ticker
schedule [] t = t
schedule (a ∷ more) t = schedule more (move a t)
