-- ===== src/External.antt =====
-- What the sources call and do not implement: JSON values (serde_json), URLs (url), the clock (time),
-- the HTTP client (reqwest) and the standard library's `{:?}` of a text, whose escapes follow Unicode
-- tables. `V` is the type of JSON values, `U` of parsed URLs and `W` of the world outside the process,
-- which every request and every reading of the clock may change.
use tds_wasm_ai.Common.{ℕ, String, Bool, Option, List, Result}

-- The operations on JSON values that the sources use: `json!` builds, `get` and `as_str` read, and
-- `set` is the assignment to an indexed field.
pub record Json (V : Type 0) : Type 0 where
  pub object : List (String × V) → V
  pub array : List V → V
  pub string : String → V
  pub number : ℕ → V
  pub boolean : Bool → V
  pub get : V → String → Option V
  pub as_str : V → Option String
  pub set : V → String → V → V

-- What arrives on a response's body: some bytes, or a failure of the connection.
pub data Chunk : Type 0 where
  bytes : List ℕ → Chunk
  broken : String → Chunk

-- A response as its reader sees it.
pub record Response : Type 0 where
  pub status : ℕ
  pub is_redirection : Bool
  pub location : Option String
  pub body : List Chunk

pub record External (V U W : Type 0) : Type 0 where
  pub json : Json V
  -- `{:?}` of a text
  pub debug : String → String
  -- `Url::parse`, the error as its `Display`
  pub parse_url : String → Result String U
  pub scheme : U → String
  pub host_str : U → Option String
  -- `OffsetDateTime::now_utc().format(&Rfc3339)`
  pub clock : W → Option String × W
  -- `client.get(url).send()`, which follows no redirect, the error as its `Display`
  pub send : U → W → Result String Response × W
