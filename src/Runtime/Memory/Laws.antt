-- ===== src/Runtime/Memory/Laws.antt =====
-- The host reads and writes guest memory exactly within its bounds.
use tds_wasm_ai.Common.{
  ℕ, zero, suc, ◌+◌, ◌-◌, ◌^◌, ◌≤◌, ◌<◌, ◌≡◌, ◌↔◌, refl, ap, sym, ◌∙◌, Option, none, some, List, [],
  ◌∷◌, ◌++◌, length, take, drop, length-take, length-drop, length-append, arith,
}
use tds_wasm_ai.Runtime.Memory.{read_guest, overwrite, write_guest, checked_add, get_range}

-- In a memory of fewer than 2^64 bytes, a read succeeds exactly if its range lies in the memory,
-- and then yields the bytes of that range.
pub read_guest_iff :
    (bytes : List ℕ) (ptr len : ℕ) (out : List ℕ)
    → length bytes < 2 ^ 64
    → (read_guest (some bytes) ptr len ≡ some out)
      ↔ ((ptr + len ≤ length bytes) × (out ≡ take len (drop ptr bytes)))
unfolding read_guest
read_guest_iff bytes ptr len out h =
    ((λ e. (ground arith, ground (arith, exact))), λ e. ground (arith, exact))
  where
    exact : take (ptr + len - ptr) (drop ptr bytes) ≡ take len (drop ptr bytes)
    exact = ap (λ n. take n (drop ptr bytes)) (omega arith)

pub in_bounds :
    (bytes new after : List ℕ) (ptr : ℕ)
    → write_guest (some bytes) ptr new ≡ some after
    → (ptr + length new ≤ length bytes) × (after ≡ overwrite bytes ptr new)
unfolding write_guest
in_bounds bytes new after ptr e = (ground arith, ground arith)

drop-take-append :
    (n : ℕ) (bytes rest : List ℕ) → n ≤ length bytes → drop n (take n bytes ++ rest) ≡ rest
drop-take-append zero bytes rest h = refl
drop-take-append (suc n) [] rest h = absurd (omega arith)
drop-take-append (suc n) (b ∷ bytes) rest h = drop-take-append n bytes rest (omega arith)

pub take-append : (new rest : List ℕ) → take (length new) (new ++ rest) ≡ new
take-append [] rest = refl
take-append (b ∷ new) rest = ap (λ r. b ∷ r) (take-append new rest)

length-overwrite :
    (bytes new : List ℕ) (ptr : ℕ)
    → ptr + length new ≤ length bytes
    → length (overwrite bytes ptr new) ≡ length bytes
unfolding overwrite
length-overwrite bytes new ptr h = omega (
  arith,
  length-append (take ptr bytes) (new ++ drop (ptr + length new) bytes),
  length-append new (drop (ptr + length new) bytes),
  length-take ptr bytes,
  length-drop (ptr + length new) bytes,
)

written :
    (bytes new : List ℕ) (ptr : ℕ)
    → ptr + length new ≤ length bytes
    → take (length new) (drop ptr (overwrite bytes ptr new)) ≡ new
unfolding overwrite
written bytes new ptr h =
    ap (take (length new))
      (drop-take-append ptr bytes (new ++ drop (ptr + length new) bytes) (omega arith))
    ∙ take-append new (drop (ptr + length new) bytes)

-- A write that succeeds, in a memory of fewer than 2^64 bytes, keeps the size of the memory, and
-- reading the range back yields the bytes written.
pub read_guest-write_guest :
    (bytes new after : List ℕ) (ptr : ℕ)
    → length bytes < 2 ^ 64
    → write_guest (some bytes) ptr new ≡ some after
    → (length after ≡ length bytes) × (read_guest (some after) ptr (length new) ≡ some new)
read_guest-write_guest bytes new after ptr h e =
    let (fits, same) = in_bounds bytes new after ptr e in
    let size : length after ≡ length bytes = ap length same ∙ length-overwrite bytes new ptr fits in
    (
      size,
      (read_guest_iff after ptr (length new) new (omega (arith, size))).1 (
        omega (arith, size),
        sym (ap (λ m. take (length new) (drop ptr m)) same ∙ written bytes new ptr fits),
      ),
    )

-- A read never yields more bytes than were asked for.
pub length-read_guest-le :
    (memory : Option (List ℕ)) (ptr len : ℕ) (out : List ℕ)
    → read_guest memory ptr len ≡ some out
    → length out ≤ len
unfolding read_guest
length-read_guest-le none ptr len out h = cc
length-read_guest-le (some bytes) ptr len out h =
    ground (arith, length-take (ptr + len - ptr) (drop ptr bytes))

take-take-append :
    (n : ℕ) (bytes rest : List ℕ) → n ≤ length bytes → take n (take n bytes ++ rest) ≡ take n bytes
take-take-append zero bytes rest h = refl
take-take-append (suc n) [] rest h = absurd (omega arith)
take-take-append (suc n) (b ∷ bytes) rest h =
    ap (λ r. b ∷ r) (take-take-append n bytes rest (omega arith))

pub drop-append : (new rest : List ℕ) → drop (length new) (new ++ rest) ≡ rest
drop-append [] rest = refl
drop-append (b ∷ new) rest = drop-append new rest

drop-nil : (k : ℕ) → drop {A = ℕ} k [] ≡ []
drop-nil zero = refl
drop-nil (suc k) = refl

drop-drop : (m n : ℕ) (bytes : List ℕ) → drop (m + n) bytes ≡ drop n (drop m bytes)
drop-drop zero n bytes = let same : 0 + n ≡ n = omega arith in ap (λ k. drop k bytes) same
drop-drop (suc m) n [] =
    let same : suc m + n ≡ suc (m + n) = omega arith in ap (λ k. drop k []) same ∙ sym (drop-nil n)
drop-drop (suc m) n (b ∷ bytes) =
    let same : suc m + n ≡ suc (m + n) = omega arith in
    ap (λ k. drop k (b ∷ bytes)) same ∙ drop-drop m n bytes

-- A write that succeeds leaves every byte before its range and every byte after it as it was.
write_guest_frame :
    (bytes new after : List ℕ) (ptr : ℕ)
    → write_guest (some bytes) ptr new ≡ some after
    → (take ptr after ≡ take ptr bytes)
      × (drop (ptr + length new) after ≡ drop (ptr + length new) bytes)
unfolding overwrite
write_guest_frame bytes new after ptr e =
    let (fits, same) = in_bounds bytes new after ptr e in
    let rest = drop (ptr + length new) bytes in
    (
      ap (take ptr) same ∙ take-take-append ptr bytes (new ++ rest) (omega (arith, fits)),
      ap (drop (ptr + length new)) same
          ∙ drop-drop ptr (length new) (take ptr bytes ++ (new ++ rest))
          ∙ ap (drop (length new)) (drop-take-append ptr bytes (new ++ rest) (omega (arith, fits)))
          ∙ drop-append new rest,
    )

-- What can be read lies in the memory and in the address space.
read_bounds :
    (bytes old : List ℕ) (ptr len : ℕ)
    → read_guest (some bytes) ptr len ≡ some old
    → (ptr + len ≤ length bytes) × (ptr + len < 2 ^ 64)
unfolding read_guest checked_add get_range
read_bounds bytes old ptr len h = (ground arith, ground arith)

read_in_bounds :
    (bytes : List ℕ) (ptr len : ℕ)
    → ptr + len ≤ length bytes
    → ptr + len < 2 ^ 64
    → read_guest (some bytes) ptr len ≡ some (take len (drop ptr bytes))
unfolding read_guest checked_add get_range
read_in_bounds bytes ptr len fits small = ground (arith, exact)
  where
    exact : take (ptr + len - ptr) (drop ptr bytes) ≡ take len (drop ptr bytes)
    exact = ap (λ n. take n (drop ptr bytes)) (omega arith)

pub write_in_bounds :
    (bytes new : List ℕ) (ptr : ℕ)
    → ptr + length new ≤ length bytes
    → ptr + length new < 2 ^ 64
    → write_guest (some bytes) ptr new ≡ some (overwrite bytes ptr new)
unfolding write_guest checked_add
write_in_bounds bytes new ptr fits small = ground arith

-- Where some bytes can be read, others of the same number can be written and are read back.
pub replaced :
    (m : Option (List ℕ)) (old new : List ℕ) (ptr : ℕ)
    → length old ≡ length new
    → read_guest m ptr (length old) ≡ some old
    → (after : List ℕ) × (write_guest m ptr new ≡ some after)
      × (read_guest (some after) ptr (length new) ≡ some new)
unfolding read_guest
replaced none old new ptr same h = cc (h)
replaced (some bytes) old new ptr same h =
    let (fits, small) = read_bounds bytes old ptr (length old) h in
    let fits' : ptr + length new ≤ length bytes = omega (arith, fits, same) in
    let small' : ptr + length new < 2 ^ 64 = omega (arith, small, same) in
    (
      overwrite bytes ptr new,
      write_in_bounds bytes new ptr fits' small',
      read_in_bounds (overwrite bytes ptr new) ptr (length new)
            (omega (arith, fits', length-overwrite bytes new ptr fits')) small'
          ∙ ap (λ bs. some bs) (written bytes new ptr fits'),
    )
