-- ===== src/Mcp/Complete.antt =====
-- Every tool that is to be offered is resolved by apps/agent-runtime/src/mcp.ts.
use comamessenger.Prelude.{
  ◌≡◌, refl, inl, inr, List, [], ◌∷◌, Bool, true, false, ◌&&◌, ◌||◌, not, Option, none, some,
  Bool-cases, All, All-mono,
}
use comamessenger.Prelude.Units.{Text}
use comamessenger.AgentRuntime.Run.{Result, ok, threw}
use comamessenger.Mcp.{
  Server, McpTool, ResolvedMcpTool, compatible_name, includes, has_tool, namespaced_tool_name,
  resolve_tool, resolve_all, resolve_mcp_tools,
}
use comamessenger.Mcp.Offers.{
  IfResolved, by_next, IsThere, IsOffered, resolve_all-IsThere, resolve_mcp_tools-IsThere,
  resolve_tool-IsThere',
}

both :
    (P Q : List ResolvedMcpTool → Type 0) (r : Result (List ResolvedMcpTool))
    → IfResolved P r
    → IfResolved Q r
    → IfResolved (λ ts. P ts × Q ts) r
both P Q (ok ts) p q = (p, q)
both P Q (threw cause) p q = tt

module _ (server : Server) where
  resolve_tool-IsOffered :
      (tool : McpTool) (ts : List ResolvedMcpTool)
      → IfResolved (λ us. IsOffered us server tool) (resolve_tool server tool ts)
  resolve_tool-IsOffered tool ts =
      spread (resolve_tool server tool ts)
        (λ name e a f. resolve_tool-IsThere' server tool ts name e a f)
    where
      spread :
          (r : Result (List ResolvedMcpTool))
          → ((name : Text)
              → compatible_name tool ≡ some name
              → includes name server.allowed_tools ≡ true
              → (server.require_write_confirmation && not tool.read_only) ≡ false
              → IfResolved (IsThere (namespaced_tool_name server.name name)) r)
          → IfResolved (λ us. IsOffered us server tool) r
      spread (ok us) h = h
      spread (threw cause) h = tt

  -- What was offered is still offered when all that was there still is.
  still-IsOffered :
      (ts : List ResolvedMcpTool) (tools : List McpTool) (r : Result (List ResolvedMcpTool))
      → ((exposed : Text) → IsThere exposed ts → IfResolved (IsThere exposed) r)
      → All (IsOffered ts server) tools
      → IfResolved (λ us. All (IsOffered us server) tools) r
  still-IsOffered ts tools (ok us) keep h =
      All-mono (IsOffered ts server) (IsOffered us server)
        (λ tool o name e a f. keep _ (o name e a f)) tools h
  still-IsOffered ts tools (threw cause) keep h = tt

  resolve_all-IsOffered :
      (tools : List McpTool) (ts : List ResolvedMcpTool)
      → IfResolved (λ us. All (IsOffered us server) tools) (resolve_all server tools ts)
  unfolding resolve_all
  resolve_all-IsOffered [] ts = tt
  resolve_all-IsOffered (tool ∷ tools) ts =
      by_next (λ us. All (IsOffered us server) (tool ∷ tools)) (λ us. IsOffered us server tool)
        (resolve_tool server tool ts) (resolve_all server tools) (resolve_tool-IsOffered tool ts)
        (λ more o.
          first_and_rest (resolve_all server tools more)
            (still-IsOffered more (tool ∷ []) (resolve_all server tools more)
              (λ exposed k. resolve_all-IsThere exposed server tools more k) (o, tt))
            (resolve_all-IsOffered tools more))
    where
      first_and_rest :
          (r : Result (List ResolvedMcpTool))
          → IfResolved (λ us. All (IsOffered us server) (tool ∷ [])) r
          → IfResolved (λ us. All (IsOffered us server) tools) r
          → IfResolved (λ us. All (IsOffered us server) (tool ∷ tools)) r
      first_and_rest (ok us) p q = (p.0, q)
      first_and_rest (threw cause) p q = tt

-- The same as a test.
abbrev pub is_offered : List ResolvedMcpTool → Server → McpTool → Bool
is_offered ts server tool = elim (compatible_name tool) [
  | none ↦ true
  | some name ↦
      not (includes name server.allowed_tools)
      || (server.require_write_confirmation && not tool.read_only)
      || has_tool (namespaced_tool_name server.name name) ts
]

is_offered_of :
    (ts : List ResolvedMcpTool) (server : Server) (tool : McpTool)
    → IsOffered ts server tool
    → is_offered ts server tool ≡ true
is_offered_of ts server tool h = test (compatible_name tool) (λ name e a f. h name e a f)
  where
    test :
        (o : Option Text)
        → ((name : Text)
            → o ≡ some name
            → includes name server.allowed_tools ≡ true
            → (server.require_write_confirmation && not tool.read_only) ≡ false
            → has_tool (namespaced_tool_name server.name name) ts ≡ true)
        → (elim o [
          | none ↦ true
          | some name ↦
              not (includes name server.allowed_tools)
              || (server.require_write_confirmation && not tool.read_only)
              || has_tool (namespaced_tool_name server.name name) ts
        ])
          ≡ true
    test none k = refl
    test (some name) k = elim (Bool-cases (includes name server.allowed_tools)) [
      | inl a ↦ elim (Bool-cases (server.require_write_confirmation && not tool.read_only)) [
        | inl f ↦ rw (a, f) refl
        | inr f ↦ rw (a, f, k name refl a f) refl
      ]
      | inr a ↦ rw a refl
    ]

-- Every tool that a server lists and is to offer stands among those that are resolved.
abbrev pub IsComplete : List (Server × Result (List McpTool)) → List ResolvedMcpTool → Type 0
IsComplete [] ts = Unit
IsComplete ((server, ok tools) ∷ servers) ts =
    All (λ tool. is_offered ts server tool ≡ true) tools × IsComplete servers ts
IsComplete ((server, threw cause) ∷ servers) ts = ⊥

tested :
    (server : Server) (tools : List McpTool) (r : Result (List ResolvedMcpTool))
    → IfResolved (λ us. All (IsOffered us server) tools) r
    → IfResolved (λ us. All (λ tool. is_offered us server tool ≡ true) tools) r
tested server tools (ok us) h =
    All-mono (IsOffered us server) (λ tool. is_offered us server tool ≡ true)
      (λ tool o. is_offered_of us server tool o) tools h
tested server tools (threw cause) h = tt

pub resolve_mcp_tools-IsComplete :
    (servers : List (Server × Result (List McpTool))) (ts : List ResolvedMcpTool)
    → IfResolved (IsComplete servers) (resolve_mcp_tools servers ts)
unfolding resolve_mcp_tools
resolve_mcp_tools-IsComplete [] ts = tt
resolve_mcp_tools-IsComplete ((server, threw cause) ∷ servers) ts = tt
resolve_mcp_tools-IsComplete ((server, ok tools) ∷ servers) ts =
    by_next (IsComplete ((server, ok tools) ∷ servers)) (λ us. All (IsOffered us server) tools)
      (resolve_all server tools ts) (λ more. resolve_mcp_tools servers more)
      (resolve_all-IsOffered server tools ts)
      (λ more o.
        both (λ us. All (λ tool. is_offered us server tool ≡ true) tools) (IsComplete servers)
          (resolve_mcp_tools servers more)
          (tested server tools (resolve_mcp_tools servers more) (
            still-IsOffered server more tools (resolve_mcp_tools servers more)
              (λ exposed k. resolve_mcp_tools-IsThere exposed servers more k) o))
          (resolve_mcp_tools-IsComplete servers more))
