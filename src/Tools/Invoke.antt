-- ===== src/Tools/Invoke.antt =====
-- crates/tds-host/src/tools.rs, `ToolBox` and `ToolBox::invoke`.
pub mod Laws
use tds_wasm_ai.Common.{String, Bool, [], ◌∷◌, ◌==◌, if◌then◌else◌, any, Result, ok, err, unwrap_or}
use tds_wasm_ai.Common.Text.{format}
use tds_wasm_ai.External.{External}
use tds_wasm_ai.Abi.Types.{CapError, denied, not_found}
use tds_wasm_ai.Policy.Types.{Policy}
use tds_wasm_ai.Tools.Http.{http_get}
use tds_wasm_ai.Tools.Scratchpad.{Scratchpad, kv_get, kv_put}

-- The HTTP client of the box is `send` of the external parts.
pub record ToolBox : Type 0 where
  pub policy : Policy
  pub kv : Scratchpad

-- `ToolBox::new`: the scratchpad of a run starts empty.
abbrev pub new : Policy → ToolBox
new policy = record { policy = policy; kv = [] }

unfoldable pub is_enabled : Policy → String → Bool
is_enabled policy name = any (λ t. t == name) policy.tools.enabled

-- What a tool call leaves: its outcome, the box and the world.
pub record Outcome (W : Type 0) : Type 0 where
  pub result : Result CapError String
  pub box : ToolBox
  pub world : W

module _ {V U W : Type 0} (x : External V U W) where
  -- `now_rfc3339`
  unfoldable pub now_rfc3339 : W → String × W
  now_rfc3339 w = let (t, w') = x.clock w in (unwrap_or t "unavailable", w')

  unfoldable pub run_now : ToolBox → W → Outcome W
  run_now box w = let (t, w') = now_rfc3339 w in record { result = ok t; box = box; world = w' }

  unfoldable pub run_http_get : ToolBox → V → W → Outcome W
  run_http_get box input w =
      let (r, w') = http_get x box.policy.tools.http input w in
      record { result = r; box = box; world = w' }

  unfoldable pub run_kv_put : ToolBox → V → W → Outcome W
  run_kv_put box input w =
      let (r, kv) = kv_put x box.policy.tools.kv box.kv input in
      record { result = r; box = record box { kv = kv }; world = w }

  unfoldable pub invoke : ToolBox → String → V → W → Outcome W
  invoke box name input w =
      if is_enabled box.policy name
      then if name == "now"
        then run_now box w
        else if name == "http_get"
        then run_http_get box input w
        else if name == "kv_get"
        then record { result = kv_get x box.kv input; box = box; world = w }
        else if name == "kv_put"
        then run_kv_put box input w
        else record {
          result = err (not_found (format ("no tool named " ∷ x.debug name ∷ [])));
          box = box;
          world = w;
        }
      else record {
        result = err (
            denied
              (format ("tool " ∷ x.debug name ∷ " is not enabled by this host's policy" ∷ [])));
        box = box;
        world = w;
      }
