-- ===== src/Runtime/Run/Sandboxed.antt =====
-- A run of any guest in an engine that keeps the sandbox: what its final store and its report satisfy.
use mathlib.Core.Path.{subst}
use native.Mathlib.Nat.{le_refl}
use tds_wasm_ai.Common.{
  min, max, ℕ, ◌≤◌, ◌<◌, ◌≡◌, refl, String, Bool, true, false, some, List, Result, ok, err,
  Option-cases, Result-cases, inl, inr, arith,
}
use tds_wasm_ai.Common.Int.{ℤ}
use tds_wasm_ai.External.{External}
use tds_wasm_ai.Wire.{Wire}
use tds_wasm_ai.Abi.Types.{AgentInput}
use tds_wasm_ai.Policy.Types.{Policy}
use tds_wasm_ai.Runtime.Memory.{write_guest}
use tds_wasm_ai.Runtime.State.{LlmProvider, Store}
use tds_wasm_ai.Runtime.Exec.{Failure, Exec, pure, lift, context, resume, ◌>>=◌, bail_if}
use tds_wasm_ai.Runtime.Exec.Laws.{>>=-eq-ok, context-eq-ok}
use tds_wasm_ai.Runtime.Reach.{computed, Reach, here, next}
use tds_wasm_ai.Runtime.Run.{
  Instance, Engine, check_abi_version, write_memory, read_memory, has_memory, collect, invoke_agent,
  clamp_steps, deadline_ticks, prepare,
}

-- The steps of a run are the requested number, raised to one and lowered to the policy's limit:
-- from one up to that limit, if it is not zero.
clamp_steps_bounds :
    (limit requested : ℕ)
    → 0 < limit
    → (clamp_steps limit requested ≡ max 1 (min requested limit))
      × (1 ≤ clamp_steps limit requested)
      × (clamp_steps limit requested ≤ limit)
unfolding clamp_steps
clamp_steps_bounds limit requested h = (ground arith, ground arith, ground arith)

module _ {V U W : Type 0} (x : External V U W) (wire : Wire V) (llm : LlmProvider V W) where
  pub Reach-trans :
      {r s t : Store W} → Reach x wire llm r s → Reach x wire llm s t → Reach x wire llm r t
  Reach-trans p here = p
  Reach-trans p (next q st) = next (Reach-trans p q) st

  -- An action of which the guest's steps are all that changes the store.
  pub record Confined {A : Type 0} (m : Exec W A) : Type 0 where
    pub at : (s : Store W) → Reach x wire llm s (m s).1

  module _ {A : Type 0} where
    pub Confined-pure : (a : A) → Confined (pure a)
    Confined-pure a = record { at = λ s. here }

    Confined-lift : (r : Result Failure A) → Confined (lift r)
    Confined-lift r = record { at = λ s. here }

    Confined-context : (message : String) (m : Exec W A) → Confined m → Confined (context message m)
    Confined-context message m c = record { at = c.at }

  module _ {A B : Type 0} where
    Confined-resume :
        (r : Result Failure A) (f : A → Exec W B)
        → ((a : A) → r ≡ ok a → Confined (f a))
        → Confined (resume r f)
    Confined-resume (ok a) f c = c a refl
    Confined-resume (err e) f c = record { at = λ s. here }

    Confined-bind :
        (m : Exec W A) (f : A → Exec W B)
        → Confined m
        → ((a : A) → Confined (f a))
        → Confined (m >>= f)
    unfolding ◌>>=◌
    Confined-bind m f c cf = record {
      at = λ s. let (r, t) = m s in Reach-trans (c.at s) ((Confined-resume r f (λ a _. cf a)).at t);
    }

    -- What follows may use that the first part did not fail.
    Confined-bind_ran :
        (m : Exec W A) (f : A → Exec W B)
        → Confined m
        → ((s : Store W) (a : A) → (m s).0 ≡ ok a → Confined (f a))
        → Confined (m >>= f)
    unfolding ◌>>=◌
    Confined-bind_ran m f c cf = record {
      at = λ s. Reach-trans (c.at s) ((Confined-resume (m s).0 f (cf s)).at (m s).1);
    }

    Confined-bind-lift :
        (r : Result Failure A) (f : A → Exec W B)
        → ((a : A) → r ≡ ok a → Confined (f a))
        → Confined (lift r >>= f)
    unfolding ◌>>=◌
    Confined-bind-lift r f cf = record { at = λ s. (Confined-resume r f cf).at s }

  Confined-bail_if : (b : Bool) (message : String) → Confined (bail_if {W = W} b message)
  Confined-bail_if true message = record { at = λ s. here }
  Confined-bail_if false message = record { at = λ s. here }

  -- The functions of an instance, those that are found.
  pub record IsConfined (i : Instance W) : Type 0 where
    pub version : (call : Exec W ℤ) → i.tds_abi_version ≡ ok call → Confined call
    pub alloc : (call : ℕ → Exec W ℕ) → i.tds_alloc ≡ ok call → (n : ℕ) → Confined (call n)
    pub dealloc :
        (call : ℕ → ℕ → Exec W (Unit {0}))
        → i.tds_dealloc ≡ ok call
        → (a b : ℕ) → Confined (call a b)
    pub run : (call : ℕ → ℕ → Exec W ℕ) → i.tds_run ≡ ok call → (a b : ℕ) → Confined (call a b)

  -- The engine's promise: instantiating a module and calling its functions changes the store only by
  -- the guest's own computation, which burns fuel, and by its calls of the three host functions.
  pub record IsSandboxed (engine : Engine W) : Type 0 where
    pub instantiate : (a b c : ℕ) → Confined (engine.instantiate a b c)
    pub instance_of :
        (a b c : ℕ) (s : Store W) (i : Instance W)
        → (engine.instantiate a b c s).0 ≡ ok i
        → IsConfined i

  write_memory-Confined : (ptr : ℕ) (bytes : List ℕ) → Confined (write_memory ptr bytes)
  unfolding write_memory
  write_memory-Confined ptr bytes = record {
    at = λ s. elim (Option-cases (write_guest s.memory ptr bytes)) [
      | inl outside ↦ rw (write_memory, outside) here
      | inr (memory, written) ↦
          rw (write_memory, written) (next here (computed (some memory) s.fuel (le_refl _) refl))
    ];
  }

  read_memory-Confined : (ptr n : ℕ) → Confined (read_memory ptr n)
  unfolding read_memory
  read_memory-Confined ptr n = record { at = λ s. here }

  has_memory-Confined : Confined has_memory
  unfolding has_memory
  has_memory-Confined = record { at = λ s. here }

  -- The second half of `invoke_agent`: the agent's result is found, read, freed and decoded.
  collect-Confined :
      (i : Instance W) (dealloc : ℕ → ℕ → Exec W (Unit {0})) (packed : ℕ)
      → ((a b : ℕ) → Confined (dealloc a b))
      → Confined (collect wire dealloc packed)
  unfolding collect
  collect-Confined i dealloc packed free = Confined-bind _ _ (Confined-bail_if _ _) λ _.
      Confined-bind _ _ (Confined-context _ _ (read_memory-Confined _ _))
        λ buffer. Confined-bind _ _ (free _ _) λ _. Confined-context _ _ (Confined-lift _)

  pub invoke_agent-Confined :
      (i : Instance W) (input : AgentInput) → IsConfined i → Confined (invoke_agent wire i input)
  unfolding invoke_agent
  invoke_agent-Confined i input c = Confined-bind _ _ has_memory-Confined λ _.
      Confined-bind-lift _ _ λ alloc is_alloc. Confined-bind-lift _ _ λ dealloc is_dealloc.
        Confined-bind-lift _ _ λ run is_run. Confined-bind _ _ (Confined-lift _) λ encoded.
          Confined-bind _ _ (c.alloc alloc is_alloc _) λ ptr.
            Confined-bind _ _ (Confined-bail_if _ _) λ _.
              Confined-bind _ _ (Confined-context _ _ (write_memory-Confined _ _)) λ _.
                Confined-bind _ _ (c.run run is_run _ _) λ packed.
                  Confined-bind _ _ (c.dealloc dealloc is_dealloc _ _)
                    λ _. collect-Confined i dealloc packed (c.dealloc dealloc is_dealloc)

  check_abi_version-Confined : (i : Instance W) → IsConfined i → Confined (check_abi_version i)
  unfolding check_abi_version ◌>>=◌
  check_abi_version-Confined i c = elim (Result-cases i.tds_abi_version) [
    | inr (f, missing) ↦ record { at = λ s. rw (check_abi_version, missing) here }
    | inl (call, found) ↦
        rw (check_abi_version, found)
          (Confined-bind _ _ (Confined-context _ _ (c.version call found))
            λ v. Confined-bail_if _ _)
  ]

  module _ (engine : Engine W) (p : Policy) (safe : IsSandboxed engine) where
    made-IsConfined :
        (message : String) (s : Store W) (i : Instance W)
        → (context message
            (engine.instantiate (deadline_ticks p) p.limits.memory_bytes p.limits.table_elements)
            s).0
          ≡ ok i
        → IsConfined i
    made-IsConfined message s i made =
        let plan =
          engine.instantiate (deadline_ticks p) p.limits.memory_bytes p.limits.table_elements in
        safe.instance_of (deadline_ticks p) p.limits.memory_bytes p.limits.table_elements s i
          (context-eq-ok message plan s i made)

    pub prepare-Confined : Confined (prepare engine p)
    unfolding prepare
    prepare-Confined = Confined-bind _ _ (Confined-lift _) λ _.
        Confined-bind_ran _ _ (Confined-context _ _ (safe.instantiate _ _ _)) λ s i made.
          Confined-bind _ _
            (check_abi_version-Confined i
              (made-IsConfined "instantiating the agent module" s i made))
            λ _. Confined-pure i

    -- What `prepare` yields is an instance that the engine made.
    pub prepared : (s : Store W) (i : Instance W) → (prepare engine p s).0 ≡ ok i → IsConfined i
    unfolding prepare
    prepared s i h =
        let (u, first, h1) = >>=-eq-ok _ _ s i h in
        let (j, made, h2) = >>=-eq-ok _ _ _ i h1 in
        let (v, checked, h3) = >>=-eq-ok _ _ _ i h2 in
        let same : j ≡ i = cc (h3) in
        subst IsConfined same (made-IsConfined "instantiating the agent module" s j made)
