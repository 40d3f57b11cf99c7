-- ===== src/Examples/Allocators.antt =====
-- An allocator whose blocks stand in the first 16 bytes of memory, after a byte that says where the next
-- one begins.
use mathlib.Core.Bool.{◌&&◌}
use native.Mathlib.Nat.{le_refl}
use tds_wasm_ai.Common.{
  ℕ, zero, suc, ◌+◌, ◌^◌, ◌<◌, ◌≤◌, ◌≡◌, ◌≢◌, refl, ap, ◌∙◌, Option, none, some, List, [], ◌∷◌,
  length, length-take, length-drop, take, drop, ltb, leb, if◌then◌else◌, Option-cases, Bool-cases,
  inl, inr, arith,
}
use tds_wasm_ai.Runtime.Memory.{read_guest, write_guest, overwrite}
use tds_wasm_ai.Runtime.Memory.Laws.{
  read_guest_iff, read_guest-write_guest, write_in_bounds, in_bounds,
}
use tds_wasm_ai.Runtime.State.{Store}
use tds_wasm_ai.Agent.Exports.{Heap}
use tds_wasm_ai.System.Guest.{Computes}
use tds_wasm_ai.System.Module.{IsComputing}
use tds_wasm_ai.System.Handshake.{IsAllocator}
use tds_wasm_ai.Examples.Parts.{World}

abbrev pub bytes_of : Option (List ℕ) → List ℕ
bytes_of none = []
bytes_of (some m) = m

abbrev pub size : Option (List ℕ) → ℕ
size m = length (bytes_of m)

abbrev pub first : List ℕ → ℕ
first [] = 0
first (t ∷ m) = t

-- Where the next block begins.
abbrev pub top : Option (List ℕ) → ℕ
top m = first (bytes_of m)

abbrev raised : List ℕ → ℕ → Store World → ℕ × Store World
raised [] n s = (0, s)
raised (t ∷ m) n s =
    if leb (t + suc n) 16 && (ltb 15 (suc (length m)) && ltb (suc (length m)) (2 ^ 33))
    then (t, record s { memory = some ((t + suc n) ∷ m) })
    else (0, s)

abbrev filled : Option (List ℕ) → Store World → Store World
filled none s = s
filled (some after) s = record s { memory = some after }

abbrev copy : List ℕ → ℕ → Store World → Store World
copy bytes p s = filled (write_guest s.memory p bytes) s

abbrev pub heap : Heap (Store World)
heap = record { alloc = λ n s. raised (bytes_of s.memory) n s; dealloc = λ p n s. s; copy = copy }

-- Not the first byte, and not up to where the next block begins.
pub record IsLive (m : Option (List ℕ)) (p n : ℕ) : Type 0 where
  below : 0 < p
  within : p + n < top m
  pub arena : top m ≤ 16
  pub large : 16 ≤ size m
  pub small : size m < 2 ^ 33

-- A memory with the same blocks, or more.
pub record IsGrown (m t : Option (List ℕ)) : Type 0 where
  pub higher : top m ≤ top t
  pub arena : top t ≤ 16
  pub large : 16 ≤ size t
  pub small : size t < 2 ^ 33

pub IsLive-IsGrown : {m t : Option (List ℕ)} {p n : ℕ} → IsGrown m t → IsLive m p n → IsLive t p n
IsLive-IsGrown g live = record {
  below = live.below;
  within = omega (arith, g.higher, live.within);
  arena = g.arena;
  large = g.large;
  small = g.small;
}

-- What an allocation gives: a new block, or nothing.
record IsAlloc (s : Store World) (n : ℕ) (o : ℕ × Store World) : Type 0 where
  computes : Computes s o.1
  word : o.0 < 2 ^ 32
  live : o.0 ≢ 0 → IsLive o.1.memory o.0 n
  kept : (p m : ℕ) → IsLive s.memory p m → IsLive o.1.memory p m × (o.0 ≢ p)

raised-IsAlloc :
    (bytes : List ℕ) (n : ℕ) (s : Store World)
    → bytes_of s.memory ≡ bytes
    → IsAlloc s n (raised bytes n s)
raised-IsAlloc [] n s at = record {
  computes = record { host = refl; fuel = le_refl s.fuel };
  word = omega arith;
  live = λ given. absurd (given refl);
  kept = λ p m live. (live, omega (arith, live.below));
}
raised-IsAlloc (t ∷ m) n s at =
    let head : top s.memory ≡ t = ap first at in
    let long : size s.memory ≡ suc (length m) = ap length at in
    elim (Bool-cases
      (leb (t + suc n) 16 && (ltb 15 (suc (length m)) && ltb (suc (length m)) (2 ^ 33)))) [
        | inl fits ↦
            let room : t + suc n ≤ 16 = ground arith in
            let large : 16 ≤ suc (length m) = ground arith in
            let small : suc (length m) < 2 ^ 33 = ground arith in
            rw fits (record {
              computes = record { host = refl; fuel = le_refl s.fuel };
              word = omega (arith, room);
              live = λ given. record {
                below = omega (arith, given);
                within = omega arith;
                arena = room;
                large = large;
                small = small;
              };
              kept = λ p k live. (
                record {
                  below = live.below;
                  within = omega (arith, live.within, head);
                  arena = room;
                  large = large;
                  small = small;
                },
                omega (arith, live.within, head),
              );
            })
        | inr full ↦ rw full (record {
          computes = record { host = refl; fuel = le_refl s.fuel };
          word = omega arith;
          live = λ given. absurd (given refl);
          kept = λ p m live. (live, omega (arith, live.below));
        })
      ]

alloc-IsAlloc : (n : ℕ) (s : Store World) → IsAlloc s n (heap.alloc n s)
alloc-IsAlloc n s = raised-IsAlloc (bytes_of s.memory) n s refl

first-overwrite :
    (bytes new : List ℕ) (p : ℕ)
    → 0 < p
    → 0 < length bytes
    → first (overwrite bytes p new) ≡ first bytes
unfolding overwrite
first-overwrite bytes new zero some_ h = omega (arith, some_)
first-overwrite [] new (suc p) some_ h = omega (arith, h)
first-overwrite (t ∷ bytes) new (suc p) some_ h = refl

-- A write after the first byte.
pub write-IsGrown :
    (m : Option (List ℕ)) (p : ℕ) (new after : List ℕ)
    → 0 < p
    → top m ≤ 16
    → 16 ≤ size m
    → size m < 2 ^ 33
    → write_guest m p new ≡ some after
    → IsGrown m (some after)
unfolding write_guest
write-IsGrown none p new after some_ arena large small h = cc (h)
write-IsGrown (some bytes) p new after some_ arena large small h =
    let (fits, is) = in_bounds bytes new after p h in
    let same = (read_guest-write_guest bytes new after p (omega (arith, small)) h).0 in
    let head : first after ≡ first bytes =
      ap first is ∙ first-overwrite bytes new p some_ (omega (arith, large)) in
    record {
      higher = omega (arith, head);
      arena = omega (arith, head, arena);
      large = omega (arith, same, large);
      small = omega (arith, same, small);
    }

copy-kept :
    (bytes : List ℕ) (p : ℕ) (s : Store World)
    → 0 < p
    → {q n : ℕ} → IsLive s.memory q n
    → IsLive (copy bytes p s).memory q n
copy-kept bytes p s some_ live = elim (Option-cases (write_guest s.memory p bytes)) [
  | inl outside ↦ rw outside live
  | inr (after, inside) ↦ rw inside (
      IsLive-IsGrown
        (write-IsGrown s.memory p bytes after some_ live.arena live.large live.small inside) live)
]

copy-Computes : (bytes : List ℕ) (p : ℕ) (s : Store World) → Computes s (copy bytes p s)
copy-Computes bytes p s = elim (Option-cases (write_guest s.memory p bytes)) [
  | inl outside ↦ rw outside (record { host = refl; fuel = le_refl s.fuel })
  | inr (after, inside) ↦ rw inside (record { host = refl; fuel = le_refl s.fuel })
]

IsLive-holds :
    (m : Option (List ℕ)) (p n : ℕ)
    → IsLive m p n
    → (old : List ℕ) × (length old ≡ n) × (read_guest m p n ≡ some old)
IsLive-holds none p n live = absurd (omega (arith, live.within))
IsLive-holds (some m) p n live =
    let old = take n (drop p m) in
    let fits : p + n ≤ length m = omega (arith, live.within, live.arena, live.large) in
    (
      old,
      omega (arith, length-take n (drop p m), length-drop p m, fits),
      (read_guest_iff m p n old (omega (arith, live.small))).1 (fits, refl),
    )

copied-reads :
    (m : Option (List ℕ)) (s : Store World) (p : ℕ) (new : List ℕ)
    → IsLive m p (length new)
    → read_guest (filled (write_guest m p new) s).memory p (length new) ≡ some new
copied-reads none s p new live = absurd (omega (arith, live.within))
copied-reads (some m) s p new live =
    let fits : p + length new ≤ length m = omega (arith, live.within, live.arena, live.large) in
    let wrote = write_in_bounds m new p fits (omega (arith, fits, live.small)) in
    rw wrote (read_guest-write_guest m new _ p (omega (arith, live.small)) wrote).1

pub heap-IsAllocator : IsAllocator heap IsLive
heap-IsAllocator = record {
  alloc_word = λ n s. (alloc-IsAlloc n s).word;
  alloc_live = λ n s given. (alloc-IsAlloc n s).live given;
  alloc_apart = λ n s p m live. (alloc-IsAlloc n s).kept p m live;
  holds = IsLive-holds;
  written = λ m p new after q n here wrote live.
      IsLive-IsGrown (write-IsGrown m p new after here.below live.arena live.large live.small wrote)
        live;
  copied = λ s p new live. copied-reads s.memory s p new live;
  copy_live = λ s p new q n here live. copy-kept new p s here.below live;
  dealloc_apart = λ s p n q m bytes here there apart reads. reads;
}

pub heap-IsComputing : IsComputing heap
heap-IsComputing = record {
  alloc = λ n s. (alloc-IsAlloc n s).computes;
  dealloc = λ ptr n s. record { host = refl; fuel = le_refl s.fuel };
  copy = λ bytes ptr s. copy-Computes bytes ptr s;
}
