-- ===== src/Mcp.antt =====
-- apps/agent-runtime/src/mcp.ts: the tools of MCP servers under the names that the provider sees. Texts
-- are lists of UTF-16 units.
pub mod Names
pub mod Offers
pub mod Complete
pub mod Offered
pub mod Resolved
pub mod Resolution
pub mod Client
pub mod Calls
pub mod Forbidden
pub mod Protocol
pub mod Addresses
pub mod Ranges
pub mod Tests
use comamessenger.Prelude.Units.{Text, same_text, slice}
use Prim.Native.Nat.{bit_xor}
use comamessenger.Prelude.{
  ℕ, zero, suc, ◌+◌, ◌*◌, ◌/◌, ◌%◌, ◌^◌, List, [], ◌∷◌, ◌++◌, Bool, true, false, ◌&&◌, ◌||◌, not,
  Option, none, some, ltb, leb, ◌==◌, if◌then◌else◌, length, String,
}
use comamessenger.AgentRuntime.Run.{Cause, mcp_error, Result, ok, threw}

-- `AgentRuntimeMcpServer`, with what the code reads of it
pub record Server : Type 0 where
  pub id : Text
  pub name : Text
  pub allowed_tools : List Text
  pub require_write_confirmation : Bool
  pub max_output_bytes : ℕ

-- A tool that a server lists: its name if it is a text, and whether its hint says that it only reads.
pub record McpTool : Type 0 where
  pub name : Option Text
  pub read_only : Bool

-- An entry of the map of resolved tools, with the name that it stands under and whether the mode is
-- "read".
pub record ResolvedMcpTool : Type 0 where
  pub exposed_name : Text
  pub server_id : Text
  pub tool_name : Text
  pub only_reads : Bool

abbrev pub is_alphanumeric : ℕ → Bool
is_alphanumeric c = (leb 65 c && leb c 90) || (leb 97 c && leb c 122) || (leb 48 c && leb c 57)

unfoldable pub are_name_units : Text → Bool
are_name_units [] = true
are_name_units (c ∷ cs) =
    let rest = are_name_units cs in (is_alphanumeric c || c == 95 || c == 45) && rest

-- `/^[A-Za-z0-9][A-Za-z0-9_-]{0,63}$/`
unfoldable pub is_tool_name : Text → Bool
unfolding are_name_units
is_tool_name [] = false
is_tool_name (c ∷ cs) = is_alphanumeric c && are_name_units cs && leb (length cs) 63

-- `isCompatibleTool`, with the name that it makes sure of
unfoldable pub compatible_name : McpTool → Option Text
unfolding is_tool_name
compatible_name tool = elim (tool.name) [
  | none ↦ none
  | some name ↦ if is_tool_name name then some name else none
]

-- The loop of `fnv1a`. A word is the number below `2 ^ 32` that `>>> 0` makes of it, which `^` with a unit
-- and `Math.imul` respect.
unfoldable pub hash_from : ℕ → Text → ℕ
hash_from hash [] = hash
hash_from hash (c ∷ cs) = hash_from ((bit_xor hash c * 16777619) % 2 ^ 32) cs

abbrev pub hex_unit : ℕ → ℕ
hex_unit n = if ltb n 10 then 48 + n else 87 + n

-- The last digits of a number in base 16: `toString(16).padStart(8, "0")` is 8 of a word.
unfoldable pub hex_digits : ℕ → ℕ → Text
hex_digits zero n = []
hex_digits (suc k) n = hex_digits k (n / 16) ++ hex_unit (n % 16) ∷ []

unfoldable pub fnv1a : Text → Text
unfolding hash_from hex_digits
fnv1a value = hex_digits 8 (hash_from 2166136261 value)

-- `mcp__` and `__`
abbrev pub mcp_prefix : Text
mcp_prefix = 109 ∷ 99 ∷ 112 ∷ 95 ∷ 95 ∷ []

abbrev pub underscores : Text
underscores = 95 ∷ 95 ∷ []

unfoldable pub namespaced_tool_name : Text → Text → Text
unfolding slice fnv1a
namespaced_tool_name server tool =
    let plain = mcp_prefix ++ (server ++ (underscores ++ tool)) in
    if leb (length plain) 64
    then plain
    else mcp_prefix
      ++ (slice 0 18 server ++ (underscores ++ (slice 0 25 tool ++ (underscores ++ fnv1a plain))))

-- `includes` of a list and `has` of a set of texts
unfoldable pub includes : Text → List Text → Bool
unfolding same_text
includes name [] = false
includes name (other ∷ names) = let rest = includes name names in same_text other name || rest

-- `has` of the map of resolved tools
unfoldable pub has_tool : Text → List ResolvedMcpTool → Bool
unfolding same_text
has_tool name [] = false
has_tool name (t ∷ ts) = let rest = has_tool name ts in same_text t.exposed_name name || rest

-- The body of the inner loop for a tool that is compatible and allowed.
unfoldable pub add_tool :
    Server → Text → Bool → List ResolvedMcpTool → Result (List ResolvedMcpTool)
unfolding namespaced_tool_name has_tool
add_tool server name read_only resolved =
    let exposed_name = namespaced_tool_name server.name name in
    let entry : ResolvedMcpTool = record {
      exposed_name = exposed_name;
      server_id = server.id;
      tool_name = name;
      only_reads = read_only;
    } in
    if server.require_write_confirmation && not read_only
    then ok resolved
    else if has_tool exposed_name resolved
    then threw (mcp_error "mcp_tool_name_collision")
    else ok (resolved ++ entry ∷ [])

unfoldable pub resolve_tool :
    Server → McpTool → List ResolvedMcpTool → Result (List ResolvedMcpTool)
unfolding compatible_name includes add_tool
resolve_tool server tool resolved = elim (compatible_name tool) [
  | none ↦ ok resolved
  | some name ↦
      if includes name server.allowed_tools
      then add_tool server name tool.read_only resolved
      else ok resolved
]

unfoldable pub resolve_all :
    Server → List McpTool → List ResolvedMcpTool → Result (List ResolvedMcpTool)
unfolding resolve_tool
resolve_all server [] resolved = ok resolved
resolve_all server (tool ∷ tools) resolved = elim (resolve_tool server tool resolved) [
  | threw cause ↦ threw cause
  | ok more ↦ resolve_all server tools more
]

-- The loop of `resolveMCPTools`, for each server with what its `listTools` gives.
unfoldable pub resolve_mcp_tools :
    List (Server × Result (List McpTool)) → List ResolvedMcpTool → Result (List ResolvedMcpTool)
unfolding resolve_all
resolve_mcp_tools [] resolved = ok resolved
resolve_mcp_tools ((server, threw cause) ∷ servers) resolved = threw cause
resolve_mcp_tools ((server, ok tools) ∷ servers) resolved =
    elim (resolve_all server tools resolved) [
      | threw cause ↦ threw cause
      | ok more ↦ resolve_mcp_tools servers more
    ]
