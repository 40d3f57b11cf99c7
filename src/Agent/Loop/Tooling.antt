-- ===== src/Agent/Loop/Tooling.antt =====
-- A turn that goes on: every tool call of the model is recorded and answered, in order.
use tds_wasm_ai.Common.{
  ℕ, ◌≡◌, refl, ◌+◌, ◌-◌, ◌≤◌, arith, Bool, true, false, String, List, [], ◌∷◌, ◌++◌, filter_map,
  Bool-cases, Result-cases, inl, inr, is_empty, Result, ok, err, some, ◌⊎◌, ◌==◌,
}
use mathlib.Core.Path.{subst}
use tds_wasm_ai.Common.Text.{format, show}
use tds_wasm_ai.Wire.{Wire}
use tds_wasm_ai.Abi.Types.{
  AgentOutput, CapError, display, StopReason, llm_complete, tool_invoke, ToolInvokeResponse, info,
  refusal, completed, add, joined_text, ToolSpec, ToolCallRecord, Content, LlmResponse,
  result_block, as_tool_use, user_message, assistant_message,
}
use tds_wasm_ai.Agent.Imports.{Imports, emit, host_call}
use tds_wasm_ai.Agent.Truncate.{truncate}
use tds_wasm_ai.Agent.Loop.{
  Progress, system_prompt, finish, Turn, finished, again, run_tool, run_tools, follow, take_turn,
}

module _ {V : Type 0} where
  -- An output that ends the run in a turn: what was recorded before it stays as it is.
  pub record Ends (step : ℕ) (p : Progress V) (o : AgentOutput V) : Type 0 where
    pub recorded : o.tool_calls ≡ p.record_
    pub from : step ≤ o.steps + 1
    pub to : o.steps ≤ step

  -- What a turn comes to: the end of the run, or more of it.
  abbrev pub Decided : ℕ → Progress V → (Progress V → Type 0) → Turn V → Type 0
  Decided step p GoesOn turn =
      ((o : AgentOutput V) × (turn ≡ finished o) × Ends step p o)
      ⊎ ((q : Progress V) × (turn ≡ again q) × GoesOn q)

  abbrev entry : ℕ → String → V → Bool → String → ToolCallRecord V
  entry step name args fine text = record {
    step = step;
    name = name;
    input = args;
    ok = fine;
    result = truncate text 512;
  }

module _ {V S : Type 0} (wire : Wire V) (host : Imports S) where
  -- The host's answer to a tool call of the agent, which logs it first.
  abbrev pub calling : ℕ → String → V → S → Result CapError ToolInvokeResponse × S
  calling step name args s =
      host_call host wire.tool_invoke_request wire.tool_invoke_response tool_invoke
        (record { name = name; input = args })
        (emit host info (format ("step " ∷ show step ∷ ": calling tool " ∷ name ∷ [])) s)

  -- The model's answer in a turn.
  abbrev pub asking : List (ToolSpec V) → Progress V → S → Result CapError (LlmResponse V) × S
  asking tools p s =
      host_call host wire.llm_request wire.llm_response llm_complete
        (record { system = some system_prompt; messages = p.messages; tools = tools }) s

  -- The entries and blocks for the tool calls of a turn, from one state of the host to another: one of each for
  -- a call, in order, with the call's id, name and arguments, and with what the host answered to it.
  pub data Answered (step : ℕ)
      : List (String × String × V)
        → S
        → List (ToolCallRecord V)
        → List (Content V)
        → S
        → Type 0 where
    none_asked : {s : S} → Answered step [] s [] [] s
    succeeded :
        (id name : String) (args : V) (found : ToolInvokeResponse)
        {requested : List (String × String × V)} {entries : List (ToolCallRecord V)}
        {blocks : List (Content V)} {s t : S}
        → (calling step name args s).0 ≡ ok found
        → Answered step requested (calling step name args s).1 entries blocks t
        → Answered step
            ((id, name, args) ∷ requested)
            s
            (entry step name args true found.content ∷ entries)
            (result_block id found.content false ∷ blocks)
            t
    failed :
        (id name : String) (args : V) (e : CapError) {requested : List (String × String × V)}
        {entries : List (ToolCallRecord V)} {blocks : List (Content V)} {s t : S}
        → (calling step name args s).0 ≡ err e
        → Answered step requested (calling step name args s).1 entries blocks t
        → Answered step
            ((id, name, args) ∷ requested)
            s
            (entry step name args false (display e) ∷ entries)
            (result_block id (display e) true ∷ blocks)
            t

  -- What a response of the model is followed by in a turn that goes on, from one state of the host to another.
  pub record Follows (step : ℕ) (p : Progress V) (response : LlmResponse V) (s t : S)
      (q : Progress V) : Type 0 where
    pub entries : List (ToolCallRecord V)
    pub blocks : List (Content V)
    pub willing : (response.stop_reason == "refusal") ≡ false
    pub asked : is_empty (filter_map as_tool_use response.content) ≡ false
    pub answered : Answered step (filter_map as_tool_use response.content) s entries blocks t
    pub messages :
        q.messages ≡ p.messages ++ assistant_message response.content ∷ user_message blocks ∷ []
    pub recorded : q.record_ ≡ p.record_ ++ entries
    pub counted : q.usage ≡ add p.usage response.usage

  -- A turn that goes on, with the response that the host gave in it.
  pub record Continues (tools : List (ToolSpec V)) (step : ℕ) (p : Progress V) (s t : S)
      (q : Progress V) : Type 0 where
    pub response : LlmResponse V
    pub given : (asking tools p s).0 ≡ ok response
    pub follows : Follows step p response (asking tools p s).1 t q

  run_tools-Answered :
      (step : ℕ) (requested : List (String × String × V)) (s : S)
      → let o = run_tools wire host step requested s in Answered step requested s o.0.0 o.0.1 o.1
  unfolding run_tools run_tool
  run_tools-Answered step [] s = none_asked
  run_tools-Answered step ((id, name, args) ∷ requested) s =
      elim (Result-cases (calling step name args s).0) [
        | inl (found, e) ↦
            rw (run_tools, run_tool, e)
              (succeeded id name args found e
                (run_tools-Answered step requested (calling step name args s).1))
        | inr (why, e) ↦
            rw (run_tools, run_tool, e)
              (failed id name args why e
                (run_tools-Answered step requested (calling step name args s).1))
      ]

  module _ (step : ℕ) (p : Progress V) (response : LlmResponse V) (s : S) where
    abbrev counted : Progress V
    counted = record p { usage = add p.usage response.usage }

    abbrev FollowDecided : Turn V × S → Type 0
    FollowDecided o = Decided step p (Follows step p response s o.1) o.0

    stopped :
        (stop : StopReason)
        → (follow wire host step p response s).0
          ≡ finished (finish step stop (joined_text response) counted)
        → FollowDecided (follow wire host step p response s)
    unfolding finish
    stopped stop e = inl (
      finish step stop (joined_text response) counted,
      e,
      record { recorded = refl; from = omega arith; to = omega arith },
    )

    abbrev ran_tools : (List (ToolCallRecord V) × List (Content V)) × S
    ran_tools = run_tools wire host step (filter_map as_tool_use response.content) s

    -- What the loop goes on with.
    abbrev continued : Progress V
    continued = record {
      messages = p.messages ++ assistant_message response.content ∷ user_message ran_tools.0.1 ∷ [];
      record_ = p.record_ ++ ran_tools.0.0;
      usage = add p.usage response.usage;
    }

    continued-Follows :
        is_empty (filter_map as_tool_use response.content) ≡ false
        → (response.stop_reason == "refusal") ≡ false
        → Follows step p response s ran_tools.1 continued
    continued-Follows asked willing = record {
      entries = ran_tools.0.0;
      blocks = ran_tools.0.1;
      willing = willing;
      asked = asked;
      answered = run_tools-Answered step (filter_map as_tool_use response.content) s;
      messages = refl;
      recorded = refl;
      counted = refl;
    }

    follow-Decided : FollowDecided (follow wire host step p response s)
    unfolding follow
    follow-Decided = elim (Bool-cases (response.stop_reason == "refusal")) [
      | inl refused ↦ stopped refusal (rw (follow, refused) refl)
      | inr willing ↦ elim (Bool-cases (is_empty (filter_map as_tool_use response.content))) [
        | inl idle ↦ stopped completed (rw (follow, willing, idle) refl)
        | inr asked ↦ inr (
          continued,
          rw (follow, willing, asked) refl,
          rw (follow, willing, asked) (continued-Follows asked willing),
        )
      ]
    ]

  module _ (tools : List (ToolSpec V)) (step : ℕ) (p : Progress V) (s : S) where
    abbrev turn : Turn V × S
    turn = take_turn wire host tools step p s

    pub take_turn-Decided : Decided step p (Continues tools step p s turn.1) turn.0
    unfolding take_turn finish
    take_turn-Decided = elim (Result-cases (asking tools p s).0) [
      | inr (e, lost) ↦ inl (
        finish (step - 1) StopReason.error
            (format ("The model call failed at step " ∷ show step ∷ ": " ∷ display e ∷ [])) p,
        rw (take_turn, lost) refl,
        record { recorded = refl; from = omega arith; to = omega arith },
      )
      | inl (response, answered) ↦
          rw (take_turn, answered)
            (elim (follow-Decided step p response (asking tools p s).1) [
              | inl ends ↦ inl ends
              | inr (q, e, follows) ↦
                  inr (q, e, record { response = response; given = answered; follows = follows })
            ])
    ]

    -- A turn of the loop that does not end the run was given a response by the host's
    -- `llm.complete` that is no refusal and asks for tools. Its content stands unchanged in the
    -- conversation as the assistant's message, and its usage is added. Each tool that it asks for
    -- is called, in order, each call on the state of the host that the one before left; what the
    -- host answers, a content or an error, is the text and the success of the block in the one
    -- message after it, and, truncated, of the record.
    pub take_turn-Continues :
        (q : Progress V)
        → (take_turn wire host tools step p s).0 ≡ again q
        → Continues tools step p s (take_turn wire host tools step p s).1 q
    take_turn-Continues q h = elim take_turn-Decided [
      | inl (o, e, ends) ↦ cc (h, e)
      | inr (r, e, goes_on) ↦
          let same : r ≡ q = cc (h, e) in subst (Continues tools step p s turn.1) same goes_on
    ]
