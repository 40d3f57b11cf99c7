-- ===== src/Service.antt =====
-- crates/tds-host/src/main.rs, the HTTP handlers `run_handler` and `policy_handler`. The blocking task in which `Runtime::run`
-- runs is a parameter: it gives the run's outcome, or the text of a panic.
use tds_wasm_ai.Common.{
  ℕ, ◌≡◌, ◌↔◌, refl, Bool-cases, inl, inr, false, String, Option, List, [], ◌∷◌, map, if◌then◌else◌,
  Result, ok, err,
}
use tds_wasm_ai.Common.Text.{format, join, trim, is_empty_text}
use tds_wasm_ai.Abi.Types.{AgentInput}
use tds_wasm_ai.External.{Json}
use tds_wasm_ai.Policy.Types.{Policy, Limits, Provider, Effort, Thinking}
use tds_wasm_ai.Runtime.Exec.{Failure}
use tds_wasm_ai.Runtime.Run.{RunReport}

pub record RunRequest : Type 0 where
  pub task : String
  pub context : Option String
  pub max_steps : ℕ

-- The steps of a request that names none.
abbrev default_steps : ℕ
default_steps = 4

pub data StatusCode : Type 0 where
  bad_request internal_server_error : StatusCode

pub record Refusal : Type 0 where
  pub status : StatusCode
  pub error : String

abbrev internal : String → Refusal
internal message = record { status = internal_server_error; error = message }

abbrev pub input_of : RunRequest → AgentInput
input_of request = record {
  task = request.task;
  context = request.context;
  max_steps = request.max_steps;
}

module _ {V : Type 0} where
  -- `{e:#}` is the chain of messages.
  unfoldable pub settled :
      Result String (Result Failure (RunReport V)) → Result Refusal (RunReport V)
  settled (err e) = err (internal (format ("run task panicked: " ∷ e ∷ [])))
  settled (ok (err f)) = err (internal (join ": " f.chain))
  settled (ok (ok report)) = ok report

  settled-eq-ok :
      (o : Result String (Result Failure (RunReport V))) (r : RunReport V)
      → settled o ≡ ok r
      → o ≡ ok (ok r)
  unfolding settled
  settled-eq-ok (err e) r h = cc (h)
  settled-eq-ok (ok (err f)) r h = cc (h)
  settled-eq-ok (ok (ok report)) r h = cc (h)

module _ {V : Type 0}
    (spawn_blocking : AgentInput → Result String (Result Failure (RunReport V))) where
  unfoldable pub run_handler : RunRequest → Result Refusal (RunReport V)
  run_handler request =
      if is_empty_text (trim request.task)
      then err (record { status = bad_request; error = "task must not be empty" })
      else settled (spawn_blocking (input_of request))

  -- A request is answered with a report exactly if its task is not blank and its run, which neither
  -- panics nor fails, gives that report.
  run_handler_iff :
      (request : RunRequest) (r : RunReport V)
      → (run_handler request ≡ ok r) ↔ (
          (is_empty_text (trim request.task) ≡ false)
          × (spawn_blocking (input_of request) ≡ ok (ok r)))
  unfolding run_handler settled
  run_handler_iff request r = elim (Bool-cases (is_empty_text (trim request.task))) [
    | inl blank ↦ rw (run_handler, blank) ((λ h. cc (h)), λ h. cc (h.0))
    | inr written ↦
        rw (run_handler, written)
          ((λ h. (refl, settled-eq-ok (spawn_blocking (input_of request)) r h)), λ h. rw h.1 refl)
  ]

-- The requests that a route of the service matches. The router answers any other by itself.
pub data Request : Type 0 where
  get_healthz get_policy : Request
  post_runs : RunRequest → Request

pub data Answer (V : Type 0) : Type 0 where
  text : String → Answer V
  value : V → Answer V
  ran : Result Refusal (RunReport V) → Answer V

-- What serde derives for the records and enums of the policy.
pub record Derived (V : Type 0) : Type 0 where
  pub limits : Limits → V
  pub provider : Provider → V
  pub effort : Effort → V
  pub thinking : Thinking → V

module _ {V : Type 0} (json : Json V) (derived : Derived V) where
  abbrev pub strings : List String → V
  strings texts = json.array (map json.string texts)

  unfoldable pub policy_handler : Policy → V
  policy_handler policy = json.object (
      ("limits", derived.limits policy.limits)
      ∷ (
        "llm",
        json.object (
            ("provider", derived.provider policy.llm.provider)
            ∷ ("model", json.string policy.llm.model)
            ∷ ("effort", derived.effort policy.llm.effort)
            ∷ ("thinking", derived.thinking policy.llm.thinking)
            ∷ ("max_tokens", json.number policy.llm.max_tokens)
            ∷ ("api_key_env", json.string policy.llm.api_key_env)
            ∷ []),
      )
      ∷ (
        "tools",
        json.object (
            ("enabled", strings policy.tools.enabled)
            ∷ ("http_allowed_hosts", strings policy.tools.http.allowed_hosts)
            ∷ []),
      )
      ∷ [])
