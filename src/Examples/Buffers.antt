-- ===== src/Examples/Buffers.antt =====
-- Buffers that stand after the first 16 bytes of memory, which are those of the allocator.
use mathlib.Core.Path.{subst}
use mathlib.Core.List.{append_assoc, append-nil}
use native.Mathlib.Nat.{le_refl}
use tds_wasm_ai.Common.{
  ℕ, ◌+◌, ◌^◌, ◌<◌, ◌≡◌, refl, ap, sym, ◌∙◌, Option, some, List, [], ◌∷◌, ◌++◌, length,
  length-append, replicate, length-replicate, length-take, take, true, ltb, if◌then◌else◌,
  Bool-cases, inl, inr, arith,
}
use tds_wasm_ai.Runtime.Memory.{read_guest}
use tds_wasm_ai.Runtime.Memory.Laws.{read_guest_iff, take-append, drop-append}
use tds_wasm_ai.Runtime.State.{Store}
use tds_wasm_ai.System.Guest.{Layout, IsLayout, Computes}
use tds_wasm_ai.System.Handshake.{IsTidy}
use tds_wasm_ai.Examples.Parts.{World}
use tds_wasm_ai.Examples.Allocators.{
  bytes_of, first, top, IsLive, IsGrown, IsLive-IsGrown, write-IsGrown,
}

-- The first 16 bytes.
abbrev base : Option (List ℕ) → List ℕ
base m = take 16 (bytes_of m ++ replicate 16 0)

-- A memory whose bytes after the first 16 are those of `buf` and one more.
abbrev followed : List ℕ → Store World → Store World
followed buf s =
    if ltb (length buf) (2 ^ 32)
    then record s { memory = some (base s.memory ++ (buf ++ 0 ∷ [])) }
    else s

abbrev pub layout : Layout World
layout = record {
  one = λ buf s. (16, followed buf s);
  two = λ a b s. ((16, 16 + length a), followed (a ++ b) s);
}

length-base : (m : Option (List ℕ)) → length (base m) ≡ 16
length-base m = omega (
  arith,
  length-take 16 (bytes_of m ++ replicate 16 0),
  length-append (bytes_of m) (replicate 16 0),
  length-replicate {A = ℕ} 16 0,
)

first-base : (m : List ℕ) → 0 < length m → first (take 16 (m ++ replicate 16 0)) ≡ first m
first-base [] h = omega (arith, h)
first-base (t ∷ m) h = refl

length-followed :
    (m : Option (List ℕ)) (buf : List ℕ) → length (base m ++ (buf ++ 0 ∷ [])) ≡ 17 + length buf
length-followed m buf =
    omega (arith, length-base m, length-append (base m) (buf ++ 0 ∷ []), length-append buf (0 ∷ []))

first-append : (m rest : List ℕ) → 0 < length m → first (m ++ rest) ≡ first m
first-append [] rest h = omega (arith, h)
first-append (t ∷ m) rest h = refl

followed-IsGrown :
    (buf : List ℕ) (s : Store World) {p n : ℕ}
    → IsLive s.memory p n
    → IsGrown s.memory (followed buf s).memory
followed-IsGrown buf s live = elim (Bool-cases (ltb (length buf) (2 ^ 32))) [
  | inl fits ↦
      let small : length buf < 2 ^ 32 = ground arith in
      let long = length-followed s.memory buf in
      let head : first (base s.memory ++ (buf ++ 0 ∷ [])) ≡ top s.memory =
        first-append (base s.memory) (buf ++ 0 ∷ []) (omega (arith, length-base s.memory))
        ∙ first-base (bytes_of s.memory) (omega (arith, live.large)) in
      rw fits (record {
        higher = omega (arith, head);
        arena = omega (arith, head, live.arena);
        large = omega (arith, long);
        small = omega (arith, long, small);
      })
  | inr long ↦
      rw long (record {
        higher = omega arith;
        arena = live.arena;
        large = live.large;
        small = live.small;
      })
]

pub layout-IsTidy : IsTidy layout IsLive
layout-IsTidy = record {
  one = λ buf s q n live. IsLive-IsGrown (followed-IsGrown buf s live) live;
  two = λ a b s q n live. IsLive-IsGrown (followed-IsGrown (a ++ b) s live) live;
  one_written = λ buf new after s q n same wrote live.
      let g = followed-IsGrown buf s live in
      IsLive-IsGrown
        (write-IsGrown (followed buf s).memory 16 new after (omega arith) g.arena g.large g.small
          wrote)
        (IsLive-IsGrown g live);
}

reads_at :
    (before a after : List ℕ)
    → length before + length a + length after < 2 ^ 64
    → read_guest (some (before ++ (a ++ after))) (length before) (length a) ≡ some a
reads_at before a after small =
    let long = length-append before (a ++ after) in
    let rest = length-append a after in
    (read_guest_iff (before ++ (a ++ after)) (length before) (length a) a
        (omega (arith, long, rest, small))).1
      (omega (arith, long, rest), rw (drop-append before (a ++ after)) (sym (take-append a after)))

followed-Computes : (buf : List ℕ) (s : Store World) → Computes s (followed buf s)
followed-Computes buf s = elim (Bool-cases (ltb (length buf) (2 ^ 32))) [
  | inl fits ↦ rw fits (record { host = refl; fuel = le_refl s.fuel })
  | inr long ↦ rw long (record { host = refl; fuel = le_refl s.fuel })
]

-- What stands anywhere in a buffer.
followed-reads :
    (x a y : List ℕ) (s : Store World)
    → length (x ++ (a ++ y)) < 2 ^ 32
    → read_guest (followed (x ++ (a ++ y)) s).memory (16 + length x) (length a) ≡ some a
followed-reads x a y s small =
    let fits : ltb (length (x ++ (a ++ y))) (2 ^ 32) ≡ true = ground arith in
    let m = base s.memory in
    let before : length (m ++ x) ≡ 16 + length x =
      omega (arith, length-append m x, length-base s.memory) in
    let shape : m ++ ((x ++ (a ++ y)) ++ 0 ∷ []) ≡ (m ++ x) ++ (a ++ (y ++ 0 ∷ [])) =
      ap (λ l. m ++ l)
        (append_assoc x (a ++ y) (0 ∷ []) ∙ ap (λ l. x ++ l) (append_assoc a y (0 ∷ [])))
      ∙ sym (append_assoc m x (a ++ (y ++ 0 ∷ []))) in
    rw (fits, shape, sym before)
      (reads_at (m ++ x) a (y ++ 0 ∷ []) (
        omega (
          arith,
          before,
          small,
          length-append x (a ++ y),
          length-append a y,
          length-append y (0 ∷ []),
        )))

pub layout-IsLayout : IsLayout layout
layout-IsLayout = record {
  one_computes = followed-Computes;
  one_holds = λ buf s small.
      let whole : buf ++ [] ≡ buf = append-nil buf in
      subst (λ l. read_guest (followed l s).memory 16 (length buf) ≡ some buf) whole
        (followed-reads [] buf [] s (omega (arith, small, ap (λ l. length l) whole)));
  two_computes = λ a b s. followed-Computes (a ++ b) s;
  two_hold_first = λ a b s small. followed-reads [] a b s (omega (arith, small, length-append a b));
  two_hold_second = λ a b s small.
      let whole : a ++ (b ++ []) ≡ a ++ b = ap (λ l. a ++ l) (append-nil b) in
      subst (λ l. read_guest (followed l s).memory (16 + length a) (length b) ≡ some b) whole
        (followed-reads a b [] s
          (omega (arith, small, length-append a b, ap (λ l. length l) whole)));
}
