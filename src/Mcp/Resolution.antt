-- ===== src/Mcp/Resolution.antt =====
-- What `resolveMCPTools` of apps/agent-runtime/src/mcp.ts gives for the servers of a run.
use comamessenger.Prelude.{◌≡◌, refl, ◌⊎◌, inl, inr, List, [], ◌∷◌, All}
use comamessenger.AgentRuntime.Run.{Cause, mcp_error, Result, ok, threw}
use comamessenger.Mcp.{Server, McpTool, ResolvedMcpTool, resolve_mcp_tools}
use comamessenger.Mcp.Offers.{IfResolved}
use comamessenger.Mcp.Offered.{offered, IsClash, IsThrownBy, IsMade, resolve_mcp_tools-IsMade}
use comamessenger.Mcp.Complete.{IsComplete, resolve_mcp_tools-IsComplete}
use comamessenger.Mcp.Resolved.{IsFor, IsDistinct, IsOutcome, IsServed, resolve_mcp_tools-IsOutcome}

-- The tool is of one of the servers.
abbrev pub IsOfOne : List (Server × Result (List McpTool)) → ResolvedMcpTool → Type 0
IsOfOne [] t = ⊥
IsOfOne ((server, listed) ∷ servers) t = IsFor server t ⊎ IsOfOne servers t

abbrev pub IsResolution :
    List (Server × Result (List McpTool)) → Result (List ResolvedMcpTool) → Type 0
IsResolution servers (ok ts) =
    (ts ≡ offered servers) × All (IsOfOne servers) ts × IsDistinct ts × IsComplete servers ts
IsResolution servers (threw cause) =
    ((cause ≡ mcp_error "mcp_tool_name_collision") × IsClash (offered servers))
    ⊎ IsThrownBy servers cause

-- The tools that are resolved are, in order, an entry for each tool that a server lists under a proper
-- name, allows, and marks as only reading if writes are to be confirmed; each entry has its tool's
-- name and mode and stands under a name of its own of at most 64 units. The resolution stops only where
-- one of those entries stands behind another with its name, or where a server does not list its tools.
pub resolve_mcp_tools-IsResolution :
    (servers : List (Server × Result (List McpTool)))
    → IsResolution servers (resolve_mcp_tools servers [])
resolve_mcp_tools-IsResolution servers =
    fits (resolve_mcp_tools servers [])
      (resolve_mcp_tools-IsOutcome P Q (inl refl) servers []
        (served servers (λ t h. h) (λ cause h. h)) (tt, tt))
      (resolve_mcp_tools-IsComplete servers []) (resolve_mcp_tools-IsMade servers [])
  where
    P : ResolvedMcpTool → Type 0
    P = IsOfOne servers

    Q : Cause → Type 0
    Q cause = (cause ≡ mcp_error "mcp_tool_name_collision") ⊎ IsThrownBy servers cause

    served :
        (rest : List (Server × Result (List McpTool)))
        → ((t : ResolvedMcpTool) → IsOfOne rest t → P t)
        → ((cause : Cause) → IsThrownBy rest cause → IsThrownBy servers cause)
        → All (IsServed P Q (inl refl)) rest
    served [] p q = tt
    served ((server, listed) ∷ rest) p q = (
      (λ t h. p t (inl h), λ cause e. inr (q cause (inl e))),
      served rest (λ t h. p t (inr h)) (λ cause h. q cause (inr h)),
    )

    fits :
        (r : Result (List ResolvedMcpTool))
        → IsOutcome P Q (inl refl) r
        → IfResolved (IsComplete servers) r
        → IsMade servers (offered servers) r
        → IsResolution servers r
    fits (ok ts) h k m = (m, h.0, h.1, k)
    fits (threw cause) h k m = m
