-- ===== src/System/Direct/Answers.antt =====
-- The three host functions, called by the agent through its memory, and the host without a memory.
use mathlib.Core.Path.{subst}
use tds_wasm_ai.Common.{
  ℕ, ◌^◌, ◌≤◌, ◌<◌, ◌≡◌, refl, sym, ap, ◌∙◌, false, ◌||◌, some, List, [], length, eqb, ltb, inl,
  inr, Bool-cases, Option-cases, arith,
}
use tds_wasm_ai.Common.Int.{ℤ, pos, as_i32}
use tds_wasm_ai.Common.Utf8.{from_utf8}
use tds_wasm_ai.External.{External}
use tds_wasm_ai.Wire.{Wire}
use tds_wasm_ai.Policy.Types.{Policy}
use tds_wasm_ai.Runtime.Memory.{read_guest}
use tds_wasm_ai.Runtime.State.{LlmProvider, Store, HostState}
use tds_wasm_ai.Runtime.Calls.{log, call, serve, response_read}
use tds_wasm_ai.Agent.Loop.Simulation.{Simulates}
use tds_wasm_ai.System.Guest.{Layout, IsLayout, guest_log, guest_call, guest_read, imports}
use tds_wasm_ai.System.Refinement.{delivered}
use tds_wasm_ai.System.Direct.Quiet.{log-quiet, dispatch-quiet, dispatch-policy}
use tds_wasm_ai.System.Direct.{quiet, announce, direct_read, direct_call, direct}

-- The store of a run and the state of a host without a memory, whose requests fit in the guest.
pub record Mirrors {W : Type 0} (s : Store W) (h : HostState W) : Type 0 where
  pub host : quiet s.host ≡ h
  pub limit : h.policy.limits.max_request_bytes < 2 ^ 31

direct_read-policy :
    {W : Type 0} (buf : List ℕ) (h : HostState W) → (direct_read buf h).1.policy ≡ h.policy
unfolding direct_read
direct_read-policy buf h = ground arith

small_announcement : (n k : ℕ) → as_i32 n ≡ pos k → k < 2 ^ 31
unfolding as_i32
small_announcement n k h = ground arith

module _ {V U W : Type 0} (x : External V U W) (wire : Wire V) (llm : LlmProvider V W) where
  direct_call-policy :
      (name body : List ℕ) (h : HostState W)
      → (direct_call x wire llm name body h).1.policy ≡ h.policy
  unfolding direct_call announce
  direct_call-policy name body h =
      elim (Bool-cases
        (ltb h.policy.limits.max_request_bytes (length body) || ltb 256 (length name))) [
          | inl large ↦ rw (direct_call, large) refl
          | inr fits ↦ elim (Option-cases (from_utf8 name)) [
            | inl bad ↦ rw (direct_call, fits, bad) refl
            | inr (text, good) ↦
                rw (direct_call, fits, good) (dispatch-policy x wire llm h text body)
          ]
        ]

  direct_call-small :
      (name body : List ℕ) (h : HostState W) (k : ℕ)
      → (direct_call x wire llm name body h).0 ≡ pos k
      → k < 2 ^ 31
  unfolding direct_call announce
  direct_call-small name body h k =
      elim (Bool-cases
        (ltb h.policy.limits.max_request_bytes (length body) || ltb 256 (length name))) [
          | inl large ↦ rw (direct_call, large) (small_announcement _ k)
          | inr fits ↦ elim (Option-cases (from_utf8 name)) [
            | inl bad ↦ rw (direct_call, fits, bad) (λ e. cc (e))
            | inr (text, good) ↦ rw (direct_call, fits, good) (small_announcement _ k)
          ]
        ]

  -- A call whose name and request stand in the guest's memory, where they fit in a request.
  call-direct :
      (s : Store W) (name body : List ℕ) (name_ptr req_ptr : ℕ)
      → (length body ≤ s.host.policy.limits.max_request_bytes
          → length name ≤ 256
          → (read_guest s.memory name_ptr (length name) ≡ some name)
            × (read_guest s.memory req_ptr (length body) ≡ some body))
      → let o = call x wire llm s name_ptr (length name) req_ptr (length body) in
        let d = direct_call x wire llm name body (quiet s.host) in
        (o.0 ≡ d.0) × (quiet o.1.host ≡ d.1)
  unfolding call serve direct_call announce
  call-direct s name body name_ptr req_ptr stand =
      elim (Bool-cases
        (ltb s.host.policy.limits.max_request_bytes (length body) || ltb 256 (length name))) [
          | inl large ↦ rw (call, direct_call, large) (refl, refl)
          | inr fits ↦
              let (named, read) = stand (ground arith) (ground arith) in
              elim (Option-cases (from_utf8 name)) [
                | inl bad ↦ rw (call, direct_call, fits, named, read, serve, bad) (refl, refl)
                | inr (text, good) ↦
                    let same = dispatch-quiet x wire llm s.host text body in
                    rw (call, direct_call, fits, named, read, serve, good, same) (refl, refl)
              ]
        ]

  module _ (layout : Layout W) (faithful : IsLayout layout) where
    guest_call-direct :
        (s : Store W) (name body : List ℕ)
        → s.host.policy.limits.max_request_bytes < 2 ^ 31
        → let o = guest_call x wire llm layout name body s in
          let d = direct_call x wire llm name body (quiet s.host) in
          (o.0 ≡ d.0) × (quiet o.1.host ≡ d.1)
    unfolding guest_call
    guest_call-direct s name body low =
        let ((name_ptr, req_ptr), t) = layout.two name body s in
        let same : t.host ≡ s.host = (faithful.two_computes name body s).host in
        let limit : t.host.policy.limits.max_request_bytes
            ≡ s.host.policy.limits.max_request_bytes =
          ap (λ (h : HostState W). h.policy.limits.max_request_bytes) same in
        let (value, state) = call-direct t name body name_ptr req_ptr (λ fits short. (
          faithful.two_hold_first name body s (omega (arith, fits, short, low, limit)),
          faithful.two_hold_second name body s (omega (arith, fits, short, low, limit)),
        )) in
        let d = λ (h : HostState W). direct_call x wire llm name body (quiet h) in
        (value ∙ ap (λ h. (d h).0) same, state ∙ ap (λ h. (d h).1) same)

    guest_read-direct :
        (buf : List ℕ) (s : Store W)
        → length buf < 2 ^ 31
        → let o = guest_read x wire llm layout buf s in
          let d = direct_read buf (quiet s.host) in (o.0 ≡ d.0) × (quiet o.1.host ≡ d.1)
    unfolding guest_read direct_read response_read
    guest_read-direct buf s small =
        let (ptr, t) = layout.one buf s in
        let same : t.host ≡ s.host = (faithful.one_computes buf s).host in
        let pends : t.host.pending ≡ s.host.pending = ap (λ (h : HostState W). h.pending) same in
        let holds = faithful.one_holds buf s small in
        elim (Bool-cases (eqb (length s.host.pending) (length buf))) [
          | inl all ↦
              let size : length buf ≡ length s.host.pending = ground arith in
              let (after, done, reads) = delivered t s.host.pending buf ptr pends size holds in
              rw (direct_read, all, done, reads)
                (
                  ap (λ n. (as_i32 n, s.host.pending)) (sym size),
                  ap (λ (h : HostState W). quiet (record h { pending = [] })) same,
                )
          | inr other ↦
              let other' : eqb (length t.host.pending) (length buf) ≡ false =
                ap (λ (p : List ℕ). eqb (length p) (length buf)) pends ∙ other in
              rw (direct_read, other, other', holds) (refl, ap quiet same)
        ]

    pub guest_log-quiet :
        (level : ℤ) (message : List ℕ) (s : Store W)
        → quiet (guest_log x wire llm layout level message s).host ≡ quiet s.host
    unfolding guest_log log
    guest_log-quiet level message s =
        let (ptr, t) = layout.one message s in
        let same : quiet t.host ≡ quiet s.host = ap quiet (faithful.one_computes message s).host in
        log-quiet t level ptr (length message) ∙ same

    -- The host behind a guest's memory answers as the host without a memory.
    pub imports-Simulates : Simulates Mirrors (imports x wire llm layout) (direct x wire llm)
    unfolding direct_read
    imports-Simulates = record {
      log = λ level message s h m. record {
        host = guest_log-quiet level message s ∙ m.host;
        limit = m.limit;
      };
      call = λ name body s h m.
          let (value, state) = guest_call-direct s name body (
            omega (
              arith,
              m.limit,
              ap (λ (h : HostState W). h.policy.limits.max_request_bytes) m.host,
            )) in
          let d : HostState W → ℤ × HostState W = direct_call x wire llm name body in
          record {
            value = value ∙ ap (λ h. (d h).0) m.host;
            state = record {
              host = state ∙ ap (λ h. (d h).1) m.host;
              limit =
                  subst (λ (p : Policy). p.limits.max_request_bytes < 2 ^ 31)
                    (sym (direct_call-policy name body h)) m.limit;
            };
          };
      short = λ name body h k e. direct_call-small name body h k e;
      fetch = λ buf s h small m.
          let (value, state) = guest_read-direct buf s small in
          record {
            value = value ∙ ap (λ h. (direct_read buf h).0) m.host;
            state = record {
              host = state ∙ ap (λ h. (direct_read buf h).1) m.host;
              limit =
                  subst (λ (p : Policy). p.limits.max_request_bytes < 2 ^ 31)
                    (sym (direct_read-policy buf h)) m.limit;
            };
          };
    }
