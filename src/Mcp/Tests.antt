-- ===== src/Mcp/Tests.antt =====
-- A server with one tool, and its client.
use comamessenger.Prelude.Units.{Text}
use comamessenger.Prelude.{ℕ, ◌≡◌, refl, List, [], ◌∷◌, true, false, Option, none, some}
use comamessenger.AgentRuntime.Run.{Result, ok}
use comamessenger.Mcp.{Server, McpTool, namespaced_tool_name, fnv1a, resolve_mcp_tools}
use comamessenger.Mcp.Resolution.{IsResolution, resolve_mcp_tools-IsResolution}
use comamessenger.Mcp.Addresses.{is_private_literal_address}
use comamessenger.Mcp.Ranges.{unique_local_passes}
use comamessenger.Mcp.Client.{Rpc, Answer, new_client}
use comamessenger.Mcp.Calls.{Use, lists, calls, use_all, payloads, IsOrderly}
use comamessenger.Mcp.Protocol.{use_all-IsOrderly}

abbrev search : Text
search = 115 ∷ 101 ∷ []

-- The hash of the empty text, and of "a".
fnv1a_empty : fnv1a [] ≡ 56 ∷ 49 ∷ 49 ∷ 99 ∷ 57 ∷ 100 ∷ 99 ∷ 53 ∷ []
unfolding fnv1a
fnv1a_empty = refl

fnv1a_a : fnv1a (97 ∷ []) ≡ 101 ∷ 52 ∷ 48 ∷ 99 ∷ 50 ∷ 57 ∷ 50 ∷ 99 ∷ []
unfolding fnv1a
fnv1a_a = refl

abbrev server : Server
server = record {
  id = 49 ∷ [];
  name = 119 ∷ [];
  allowed_tools = search ∷ [];
  require_write_confirmation = true;
  max_output_bytes = 100;
}

abbrev listed : List (Server × Result (List McpTool))
listed =
    (
      server,
      ok (
          record { name = some search; read_only = true }
          ∷ record { name = some (97 ∷ []); read_only = true }
          ∷ record { name = none; read_only = false }
          ∷ []),
    )
    ∷ []

resolves_one :
    resolve_mcp_tools listed []
    ≡ ok (
        record {
          exposed_name = namespaced_tool_name (119 ∷ []) search;
          server_id = 49 ∷ [];
          tool_name = search;
          only_reads = true;
        }
        ∷ [])
unfolding resolve_mcp_tools
resolves_one = refl

resolve_mcp_tools-IsResolution_example : IsResolution listed (resolve_mcp_tools listed [])
resolve_mcp_tools-IsResolution_example = resolve_mcp_tools-IsResolution listed

abbrev no_number : Text → Option ℕ
no_number t = none

-- fd12::1
unique_local_passes_example :
    is_private_literal_address no_number (102 ∷ 100 ∷ 49 ∷ 50 ∷ 58 ∷ 58 ∷ 49 ∷ []) ≡ false
unique_local_passes_example =
    unique_local_passes no_number 100 49 50 (58 ∷ 49 ∷ []) refl refl refl (refl, (refl, tt))

abbrev rpc : ℕ → Rpc
rpc n = record { id = some n; has_error = false; result = search; tools = [] }

abbrev answer : ℕ → Answer
answer n = record {
  response = some (record {
    session = some (115 ∷ []);
    http_status = 200;
    declared_length = 10;
    body = some (10, some (rpc n));
  });
  timed_out = false;
  aborted = false;
}

abbrev uses : List Use
uses =
    calls search (answer 1, answer 1, answer 2)
    ∷ lists (answer 1, answer 1, answer 3)
    ∷ calls [] (answer 1, answer 1, answer 4)
    ∷ []

use_all-IsOrderly_example :
    IsOrderly server true (use_all server true uses new_client)
    × (payloads (use_all server true uses new_client)
        ≡ payloads (use_all server true uses new_client))
use_all-IsOrderly_example = use_all-IsOrderly server true uses
