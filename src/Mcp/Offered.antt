-- ===== src/Mcp/Offered.antt =====
-- The entries that apps/agent-runtime/src/mcp.ts is to make, one for each tool that is to be offered,
-- and what `resolveMCPTools` does with them.
use mathlib.Core.List.{append_assoc, append-nil}
use comamessenger.Prelude.{
  ◌≡◌, refl, sym, ap, ◌∙◌, ◌⊎◌, inl, inr, List, [], ◌∷◌, ◌++◌, Bool, true, ◌&&◌, not, Option, none,
  some, Bool-cases, if◌then◌else◌,
}
use comamessenger.Prelude.Units.{Text}
use comamessenger.AgentRuntime.Run.{Cause, mcp_error, Result, ok, threw}
use comamessenger.Mcp.{
  Server, McpTool, ResolvedMcpTool, is_tool_name, compatible_name, includes, has_tool,
  namespaced_tool_name, add_tool, resolve_tool, resolve_all, resolve_mcp_tools,
}

-- A tool with a proper name that its server allows, and that only reads if writes are to be confirmed.
abbrev pub is_wanted : Server → Text → Bool → Bool
is_wanted server name read_only =
    is_tool_name name
    && includes name server.allowed_tools
    && not (server.require_write_confirmation && not read_only)

abbrev pub entry : Server → Text → Bool → ResolvedMcpTool
entry server name read_only = record {
  exposed_name = namespaced_tool_name server.name name;
  server_id = server.id;
  tool_name = name;
  only_reads = read_only;
}

abbrev pub entry_of : Server → McpTool → List ResolvedMcpTool
entry_of server tool = elim tool.name [
  | none ↦ []
  | some name ↦
      if is_wanted server name tool.read_only then entry server name tool.read_only ∷ [] else []
]

abbrev pub entries : Server → List McpTool → List ResolvedMcpTool
entries server [] = []
entries server (tool ∷ tools) = entry_of server tool ++ entries server tools

-- The entries of all the servers that list their tools, in order.
abbrev pub offered : List (Server × Result (List McpTool)) → List ResolvedMcpTool
offered [] = []
offered ((server, ok tools) ∷ servers) = entries server tools ++ offered servers
offered ((server, threw cause) ∷ servers) = offered servers

-- An entry stands behind another one with its name.
abbrev pub IsClash : List ResolvedMcpTool → Type 0
IsClash ts =
    (before : List ResolvedMcpTool) × (t : ResolvedMcpTool) × (after : List ResolvedMcpTool) × (ts
      ≡ before ++ t ∷ after)
    × (has_tool t.exposed_name before ≡ true)

IsClash-append : (ts us : List ResolvedMcpTool) → IsClash ts → IsClash (ts ++ us)
IsClash-append ts us (before, t, after, e, h) =
    (before, t, after ++ us, ap (λ l. l ++ us) e ∙ append_assoc before (t ∷ after) us, h)

-- A result that is a list, or the cause of a clash in it.
abbrev IsMadeOf : List ResolvedMcpTool → Result (List ResolvedMcpTool) → Type 0
IsMadeOf ts (ok us) = us ≡ ts
IsMadeOf ts (threw cause) = (cause ≡ mcp_error "mcp_tool_name_collision") × IsClash ts

add_tool-IsMadeOf :
    (server : Server) (name : Text) (read_only : Bool) (ts : List ResolvedMcpTool)
    → IsMadeOf
        (ts
          ++ (if not (server.require_write_confirmation && not read_only)
              then entry server name read_only ∷ []
              else []))
        (add_tool server name read_only ts)
unfolding add_tool
add_tool-IsMadeOf server name read_only ts =
    elim (Bool-cases (server.require_write_confirmation && not read_only)) [
      | inl e ↦ rw e (sym (append-nil ts))
      | inr e ↦ elim (Bool-cases (has_tool (namespaced_tool_name server.name name) ts)) [
        | inl f ↦ rw (e, f) (refl, (ts, entry server name read_only, [], refl, f))
        | inr f ↦ rw (e, f) refl
      ]
    ]

resolve_tool-IsMadeOf :
    (server : Server) (tool : McpTool) (ts : List ResolvedMcpTool)
    → IsMadeOf (ts ++ entry_of server tool) (resolve_tool server tool ts)
unfolding resolve_tool compatible_name
resolve_tool-IsMadeOf server tool ts = named tool.name
  where
    named :
        (o : Option Text)
        → IsMadeOf
            (ts ++ (elim o as (λ k. List ResolvedMcpTool) [
              | none ↦ []
              | some name ↦
                  if is_wanted server name tool.read_only
                  then entry server name tool.read_only ∷ []
                  else []
            ]))
            (elim (elim o as (λ k. Option Text) [
              | none ↦ none
              | some name ↦ if is_tool_name name then some name else none
            ]) [
              | none ↦ ok ts
              | some name ↦
                  if includes name server.allowed_tools
                  then add_tool server name tool.read_only ts
                  else ok ts
            ])
    named none = sym (append-nil ts)
    named (some name) = elim (Bool-cases (is_tool_name name)) [
      | inr e ↦ rw e (sym (append-nil ts))
      | inl e ↦ elim (Bool-cases (includes name server.allowed_tools)) [
        | inr f ↦ rw (e, f) (sym (append-nil ts))
        | inl f ↦ rw (e, f) (add_tool-IsMadeOf server name tool.read_only ts)
      ]
    ]

by_next :
    (ts us : List ResolvedMcpTool) (r : Result (List ResolvedMcpTool))
    (f : List ResolvedMcpTool → Result (List ResolvedMcpTool))
    → IsMadeOf ts r
    → IsMadeOf (ts ++ us) (f ts)
    → IsMadeOf (ts ++ us) (elim r [ threw cause ↦ threw cause | ok more ↦ f more ])
by_next ts us (threw cause) f (e, c) h = (e, IsClash-append ts us c)
by_next ts us (ok more) f e h = rw e h

resolve_all-IsMadeOf :
    (server : Server) (tools : List McpTool) (ts : List ResolvedMcpTool)
    → IsMadeOf (ts ++ entries server tools) (resolve_all server tools ts)
unfolding resolve_all
resolve_all-IsMadeOf server [] ts = sym (append-nil ts)
resolve_all-IsMadeOf server (tool ∷ tools) ts =
    rw (sym (append_assoc ts (entry_of server tool) (entries server tools))) (
      by_next (ts ++ entry_of server tool) (entries server tools) (resolve_tool server tool ts)
        (resolve_all server tools) (resolve_tool-IsMadeOf server tool ts)
        (resolve_all-IsMadeOf server tools (ts ++ entry_of server tool)))

-- The cause is that of a server's list.
abbrev pub IsThrownBy : List (Server × Result (List McpTool)) → Cause → Type 0
IsThrownBy [] cause = ⊥
IsThrownBy ((server, listed) ∷ servers) cause = (listed ≡ threw cause) ⊎ IsThrownBy servers cause

-- The entries of all the servers in order, or the cause of a clash among them or of a server.
abbrev pub IsMade :
    List (Server × Result (List McpTool))
    → List ResolvedMcpTool
    → Result (List ResolvedMcpTool)
    → Type 0
IsMade servers ts (ok us) = us ≡ ts
IsMade servers ts (threw cause) =
    ((cause ≡ mcp_error "mcp_tool_name_collision") × IsClash ts) ⊎ IsThrownBy servers cause

later-IsMade :
    (server : Server) (listed : Result (List McpTool))
    (servers : List (Server × Result (List McpTool))) (ts : List ResolvedMcpTool)
    (r : Result (List ResolvedMcpTool))
    → IsMade servers ts r
    → IsMade ((server, listed) ∷ servers) ts r
later-IsMade server listed servers ts (ok us) h = h
later-IsMade server listed servers ts (threw cause) (inl h) = inl h
later-IsMade server listed servers ts (threw cause) (inr h) = inr (inr h)

pub resolve_mcp_tools-IsMade :
    (servers : List (Server × Result (List McpTool))) (ts : List ResolvedMcpTool)
    → IsMade servers (ts ++ offered servers) (resolve_mcp_tools servers ts)
unfolding resolve_mcp_tools
resolve_mcp_tools-IsMade [] ts = sym (append-nil ts)
resolve_mcp_tools-IsMade ((server, threw cause) ∷ servers) ts = inr (inl refl)
resolve_mcp_tools-IsMade ((server, ok tools) ∷ servers) ts =
    rw (sym (append_assoc ts (entries server tools) (offered servers))) (
      next (resolve_all server tools ts) (resolve_all-IsMadeOf server tools ts)
        (resolve_mcp_tools-IsMade servers (ts ++ entries server tools)))
  where
    us : List ResolvedMcpTool
    us = ts ++ entries server tools

    next :
        (r : Result (List ResolvedMcpTool))
        → IsMadeOf us r
        → IsMade servers (us ++ offered servers) (resolve_mcp_tools servers us)
        → IsMade
            ((server, ok tools) ∷ servers)
            (us ++ offered servers)
            (elim r [ threw cause ↦ threw cause | ok more ↦ resolve_mcp_tools servers more ])
    next (threw cause) (e, c) h = inl (e, IsClash-append us (offered servers) c)
    next (ok more) e h =
        later-IsMade server (ok tools) servers (us ++ offered servers)
          (resolve_mcp_tools servers more) (rw e h)
