-- ===== src/Lib.antt =====
-- tds-wasm-ai: an agent that runs inside a WebAssembly sandbox and a host that grants it three
-- functions.
--
-- The host (crates/tds-host) loads a policy, checks the shape of a module, runs it under limits on
-- fuel, time and memory, and answers its calls: a log line, a capability call, the fetch of a
-- pending response. The guest (crates/tds-agent) asks the model what to do, calls tools, and
-- reports. Both speak the messages of crates/tds-abi.
--
-- What is modelled where:
--
-- * Abi is crates/tds-abi/src/lib.rs: Abi/Packing `pack_ptr_len` and `unpack_ptr_len`; Abi/Types
--   the error codes, log levels, envelopes and messages.
-- * Policy is crates/tds-host/src/policy.rs: Policy/Types the records and defaults,
--   Policy/Validation `Policy::validate`, Policy/Load `Policy::load`, Policy/Hosts
--   `HttpToolConfig::allows`.
-- * Tools is crates/tds-host/src/tools.rs: Tools/Known, Tools/Specs `spec_for` and
--   `ToolBox::specs`, Tools/Http `http_get`, Tools/Scratchpad `kv_get` and `kv_put`, Tools/Invoke
--   `ToolBox` and `ToolBox::invoke`. A call takes the tool box and the world and returns both.
-- * Runtime is crates/tds-host/src/runtime.rs: Runtime/State `HostState` and the store of a run,
--   Runtime/Memory `read_guest` and `write_guest`, Runtime/Dispatch `dispatch` and `respond`,
--   Runtime/Calls the functions `log`, `call` and `response_read`, Runtime/Module
--   `verify_module_shape`, Runtime/Run `check_abi_version`, `invoke_agent`, `describe_trap` and
--   `Runtime::run`, on the actions of Runtime/Exec. Runtime/Reach is the step relation of a guest:
--   it computes, or calls a host function with any arguments. Runtime/Run/Sandboxed states what the
--   engine promises, that a module changes the store only by such steps. Runtime/New is
--   `Runtime::new` and `Runtime::from_files`; Runtime/Ticker is the thread that they spawn and `drop`,
--   as statements that a schedule interleaves: the store of the stop flag is relaxed, so the thread
--   sees it only after a move of the memory. Runtime/Overlap is the step relation of several runs that
--   share the world outside.
-- * Agent is crates/tds-agent/src/lib.rs: Agent/Imports `emit` and `host_call`, Agent/Loop
--   `run_agent`, Agent/Truncate `truncate`, Agent/Exports `tds_alloc`, `tds_dealloc`,
--   `leak_to_host` and `tds_run`. `run_agent` is cut at its loop: `turns` is the `for`, `take_turn`
--   one round, `follow` what the round does with the response, `run_tools` its inner `for`.
-- * System puts the two together: System/Guest the three imports as the three functions of the host,
--   on buffers that the guest's compiler lays out in memory; System/Reaching the agent as one of the
--   guests of the step relation; System/Promises what `tool.invoke` and `llm.complete` promise,
--   without memory, encodings and pending responses, and System/Capabilities the agent's calls of
--   them, over the lemmas of System/Refinement; System/Bounds the limits of a run on the agent;
--   System/Module the agent's exports as the functions of an instance. System/Direct is the
--   same host without a memory, and follows a whole run of the agent on it; what it refuses without
--   dispatching is in System/Direct/Refusals, and what the policy denies in System/Denials.
--   System/Handshake states what the guest's allocator promises; System/Actions, System/Completion
--   and System/Reported follow `invoke_agent` and `Runtime::run` through it.
-- * Llm is crates/tds-host/src/llm.rs: Llm/Mock `MockProvider`, Llm/Anthropic `AnthropicProvider`,
--   Llm/Build `build` and `AnthropicProvider::new`.
-- * Service is `run_handler` and `policy_handler` of crates/tds-host/src/main.rs, Main its `main`,
--   `print_report` and the routes of `serve`, with what is printed as lines. Main/Served takes the
--   requests of a service as runs of one runtime.
-- * Common has what the parts share; Common/Text, Common/Utf8, Common/Bits and Common/Int are the
--   operations of the standard library of Rust that the sources call. Examples has the parameters
--   at concrete values. Tests has the unit tests of the sources, under their names, as tests of the
--   definitions here.
--
-- Parameters: External has what the sources call and do not implement (JSON values, URLs, the
-- clock, the HTTP client), Wire the JSON encodings, which may fail; Engine of Runtime/Run the
-- engine, Wasmtime of Runtime/New its construction, Platform of Main the surroundings of the command
-- line, Layout of System/Guest the guest's buffers, Remote of Llm/Anthropic the client of the API,
-- Imports and Heap of Agent the imports and the allocator of the guest. A type `W` stands for the world outside.
--
-- Numbers are natural numbers; a wrap-around is written out where the source can meet it (the
-- packed word, token counts, casts to 32 bits). Fuel occurs only in `show`, where the number itself
-- is enough, and in the loop of the provider (Llm/Anthropic `attempts`), which begins with
-- `max_retries` + 1, one for each attempt that its guard lets through. The steps of the agent are
-- counted down from `max_steps`, as the source's `for` does.
--
-- Not modelled: the parsing of arguments, axum's matching of requests to routes and the set-up of tracing
-- in crates/tds-host/src/main.rs, the linking of the host functions to a module, tracing output, serde's
-- derives and the unit tests of them. Main takes the runs of a service one after the other; Runtime/Overlap lets
-- the steps of several runs alternate, where a tool call or a completion is one step.
mod Common
pub mod Abi
pub mod External
pub mod Tools
pub mod Policy
pub mod Wire
pub mod Runtime
pub mod Agent
pub mod Llm
pub mod System
pub mod Tests
pub mod Service
pub mod Main
pub mod Examples
