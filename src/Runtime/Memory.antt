-- ===== src/Runtime/Memory.antt =====
-- crates/tds-host/src/runtime.rs, `read_guest` and `write_guest`. The guest's linear memory is the list
-- of its bytes; it is missing if the module's export named `memory` is none.
pub mod Laws
use tds_wasm_ai.Common.{
  ℕ, ◌+◌, ◌-◌, ◌^◌, Bool, true, false, ◌&&◌, Option, none, some, List, ◌++◌, length, take, drop,
  ltb, leb, if◌then◌else◌,
}

-- `start.checked_add(len)` on a 64-bit `usize`
unfoldable pub checked_add : ℕ → ℕ → Option ℕ
checked_add a b = if ltb (a + b) (2 ^ 64) then some (a + b) else none

-- `data.get(start..end)`
unfoldable pub get_range : List ℕ → ℕ → ℕ → Option (List ℕ)
get_range bytes start end =
    if leb start end && leb end (length bytes)
    then some (take (end - start) (drop start bytes))
    else none

unfoldable pub read_guest : Option (List ℕ) → ℕ → ℕ → Option (List ℕ)
unfolding checked_add get_range
read_guest none ptr len = none
read_guest (some bytes) ptr len = elim (checked_add ptr len) [
  | none ↦ none
  | some end ↦ get_range bytes ptr end
]

-- `slice.copy_from_slice(bytes)` on the range that begins at `start`
unfoldable pub overwrite : List ℕ → ℕ → List ℕ → List ℕ
overwrite bytes start new = take start bytes ++ (new ++ drop (start + length new) bytes)

-- The memory after the write, or nothing where `write_guest` answers `false`.
unfoldable pub write_guest : Option (List ℕ) → ℕ → List ℕ → Option (List ℕ)
unfolding checked_add overwrite
write_guest none ptr new = none
write_guest (some bytes) ptr new = elim (checked_add ptr (length new)) [
  | none ↦ none
  | some end ↦
      if leb ptr end && leb end (length bytes) then some (overwrite bytes ptr new) else none
]
