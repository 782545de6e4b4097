-- ===== src/Mcp/Resolved.antt =====
-- What `resolveMCPTools` of apps/agent-runtime/src/mcp.ts resolves.
use comamessenger.Prelude.{
  ◌≤◌, ◌≡◌, refl, inl, inr, List, [], ◌∷◌, ◌++◌, Bool, true, false, ◌&&◌, not, Option, none, some,
  arith, Bool-cases, if◌then◌else◌, length, All, All-append,
}
use comamessenger.Prelude.Units.{Text, same_text_sym}
use comamessenger.AgentRuntime.Run.{Cause, mcp_error, Result, ok, threw}
use comamessenger.Mcp.{
  Server, McpTool, ResolvedMcpTool, is_tool_name, compatible_name, includes, has_tool,
  namespaced_tool_name, add_tool, resolve_tool, resolve_all, resolve_mcp_tools,
}
use comamessenger.Mcp.Offers.{has_tool-snoc}
use comamessenger.Mcp.Names.{length-namespaced_tool_name}

-- An entry for a tool that a server lists: the server allows it, and it only reads if writes are to be
-- confirmed.
abbrev pub IsFor : Server → ResolvedMcpTool → Type 0
IsFor server t =
    (t.server_id ≡ server.id)
    × (t.exposed_name ≡ namespaced_tool_name server.name t.tool_name)
    × (length t.exposed_name ≤ 64)
    × (is_tool_name t.tool_name ≡ true)
    × (includes t.tool_name server.allowed_tools ≡ true)
    × ((server.require_write_confirmation && not t.only_reads) ≡ false)

abbrev pub IsDistinct : List ResolvedMcpTool → Type 0
IsDistinct [] = Unit
IsDistinct (t ∷ ts) = (has_tool t.exposed_name ts ≡ false) × IsDistinct ts

IsDistinct-snoc :
    (ts : List ResolvedMcpTool) (x : ResolvedMcpTool)
    → has_tool x.exposed_name ts ≡ false
    → IsDistinct ts
    → IsDistinct (ts ++ x ∷ [])
unfolding has_tool
IsDistinct-snoc [] x e h = (refl, tt)
IsDistinct-snoc (t ∷ ts) x e (h1, h2) = (
  ground (
    arith,
    e,
    h1,
    has_tool-snoc t.exposed_name ts x,
    same_text_sym t.exposed_name x.exposed_name,
  ),
  IsDistinct-snoc ts x (ground (arith, e)) h2,
)

compatible_name_lem :
    (tool : McpTool) (name : Text) → compatible_name tool ≡ some name → is_tool_name name ≡ true
unfolding compatible_name
compatible_name_lem tool name e = found tool.name e
  where
    found :
        (o : Option Text)
        → (elim o as (λ k. Option Text) [
          | none ↦ none
          | some n ↦ if is_tool_name n then some n else none
        ])
          ≡ some name
        → is_tool_name name ≡ true
    found none q = absurd (ground (arith, q))
    found (some n) q = ground (arith, q)

module _ (P : ResolvedMcpTool → Type 0) (Q : Cause → Type 0)
    (collides : Q (mcp_error "mcp_tool_name_collision")) where
  -- Entries that are all as they should be, under names of their own, or a cause to stop.
  abbrev pub IsOutcome : Result (List ResolvedMcpTool) → Type 0
  IsOutcome (ok ts) = All P ts × IsDistinct ts
  IsOutcome (threw cause) = Q cause

  by_next :
      (r : Result (List ResolvedMcpTool)) (f : List ResolvedMcpTool → Result (List ResolvedMcpTool))
      → IsOutcome r
      → ((ts : List ResolvedMcpTool) → IsOutcome (ok ts) → IsOutcome (f ts))
      → IsOutcome (elim r [ threw cause ↦ threw cause | ok ts ↦ f ts ])
  by_next (threw cause) f h g = h
  by_next (ok ts) f h g = g ts h

  module _ (server : Server) (serves : (t : ResolvedMcpTool) → IsFor server t → P t) where
    add_tool-IsOutcome :
        (name : Text) (read_only : Bool) (ts : List ResolvedMcpTool)
        → is_tool_name name ≡ true
        → includes name server.allowed_tools ≡ true
        → IsOutcome (ok ts)
        → IsOutcome (add_tool server name read_only ts)
    unfolding add_tool
    add_tool-IsOutcome name read_only ts named allowed h =
        elim (Bool-cases (server.require_write_confirmation && not read_only)) [
          | inl e ↦ rw e h
          | inr e ↦ elim (Bool-cases (has_tool (namespaced_tool_name server.name name) ts)) [
            | inl f ↦ rw (e, f) collides
            | inr f ↦
                rw (e, f)
                  (
                    All-append P ts _ h.0 (
                      serves _ (
                        refl,
                        refl,
                        length-namespaced_tool_name server.name name,
                        named,
                        allowed,
                        e,
                      ),
                      tt,
                    ),
                    IsDistinct-snoc ts _ f h.1,
                  )
          ]
        ]

    resolve_tool-IsOutcome :
        (tool : McpTool) (ts : List ResolvedMcpTool)
        → IsOutcome (ok ts)
        → IsOutcome (resolve_tool server tool ts)
    unfolding resolve_tool
    resolve_tool-IsOutcome tool ts h = named (compatible_name tool) (compatible_name_lem tool)
      where
        named :
            (o : Option Text)
            → ((name : Text) → o ≡ some name → is_tool_name name ≡ true)
            → IsOutcome (elim o [
              | none ↦ ok ts
              | some name ↦
                  if includes name server.allowed_tools
                  then add_tool server name tool.read_only ts
                  else ok ts
            ])
        named none valid = h
        named (some name) valid = elim (Bool-cases (includes name server.allowed_tools)) [
          | inl e ↦ rw e (add_tool-IsOutcome name tool.read_only ts (valid name refl) e h)
          | inr e ↦ rw e h
        ]

    resolve_all-IsOutcome :
        (tools : List McpTool) (ts : List ResolvedMcpTool)
        → IsOutcome (ok ts)
        → IsOutcome (resolve_all server tools ts)
    unfolding resolve_all
    resolve_all-IsOutcome [] ts h = h
    resolve_all-IsOutcome (tool ∷ tools) ts h =
        by_next (resolve_tool server tool ts) (resolve_all server tools)
          (resolve_tool-IsOutcome tool ts h) (λ more q. resolve_all-IsOutcome tools more q)

  -- What a server and its list give.
  abbrev pub IsServed : Server × Result (List McpTool) → Type 0
  IsServed (server, listed) =
      ((t : ResolvedMcpTool) → IsFor server t → P t)
      × ((cause : Cause) → listed ≡ threw cause → Q cause)

  pub resolve_mcp_tools-IsOutcome :
      (servers : List (Server × Result (List McpTool))) (ts : List ResolvedMcpTool)
      → All IsServed servers
      → IsOutcome (ok ts)
      → IsOutcome (resolve_mcp_tools servers ts)
  unfolding resolve_mcp_tools
  resolve_mcp_tools-IsOutcome [] ts served h = h
  resolve_mcp_tools-IsOutcome ((server, threw cause) ∷ servers) ts served h = served.0.1 cause refl
  resolve_mcp_tools-IsOutcome ((server, ok tools) ∷ servers) ts served h =
      by_next (resolve_all server tools ts) (λ more. resolve_mcp_tools servers more)
        (resolve_all-IsOutcome server served.0.0 tools ts h)
        (λ more q. resolve_mcp_tools-IsOutcome servers more served.1 q)
