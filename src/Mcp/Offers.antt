-- ===== src/Mcp/Offers.antt =====
-- What `resolveMCPTools` of apps/agent-runtime/src/mcp.ts has resolved stays resolved.
use comamessenger.Prelude.{
  ◌≡◌, refl, ◌∙◌, inl, inr, List, [], ◌∷◌, ◌++◌, Bool, true, false, ◌&&◌, ◌||◌, not, Option, none,
  some, arith, Bool-cases, if◌then◌else◌,
}
use comamessenger.Prelude.Units.{Text, same_text, same_text_refl}
use comamessenger.AgentRuntime.Run.{Result, ok, threw}
use comamessenger.Mcp.{
  Server, McpTool, ResolvedMcpTool, compatible_name, includes, has_tool, namespaced_tool_name,
  add_tool, resolve_tool, resolve_all, resolve_mcp_tools,
}

pub has_tool-snoc :
    (name : Text) (ts : List ResolvedMcpTool) (x : ResolvedMcpTool)
    → has_tool name (ts ++ x ∷ []) ≡ (has_tool name ts || same_text x.exposed_name name)
unfolding has_tool
has_tool-snoc name [] x = ground arith
has_tool-snoc name (t ∷ ts) x = ground (arith, has_tool-snoc name ts x)

-- What holds of the tools if the resolution does not stop.
abbrev pub IfResolved : (List ResolvedMcpTool → Type 0) → Result (List ResolvedMcpTool) → Type 0
IfResolved P (ok ts) = P ts
IfResolved P (threw cause) = Unit

pub by_next :
    (P Q : List ResolvedMcpTool → Type 0) (r : Result (List ResolvedMcpTool))
    (f : List ResolvedMcpTool → Result (List ResolvedMcpTool))
    → IfResolved Q r
    → ((ts : List ResolvedMcpTool) → Q ts → IfResolved P (f ts))
    → IfResolved P (elim r [ threw cause ↦ threw cause | ok ts ↦ f ts ])
by_next P Q (threw cause) f h g = tt
by_next P Q (ok ts) f h g = g ts h

or_true : (b : Bool) → (b || true) ≡ true
or_true true = refl
or_true false = refl

module _ (exposed : Text) where
  abbrev pub IsThere : List ResolvedMcpTool → Type 0
  IsThere ts = has_tool exposed ts ≡ true

  -- A tool that is there stays there.
  add_tool-IsThere :
      (server : Server) (name : Text) (read_only : Bool) (ts : List ResolvedMcpTool)
      → IsThere ts
      → IfResolved IsThere (add_tool server name read_only ts)
  unfolding add_tool
  add_tool-IsThere server name read_only ts h =
      elim (Bool-cases (server.require_write_confirmation && not read_only)) [
        | inl e ↦ rw e h
        | inr e ↦ elim (Bool-cases (has_tool (namespaced_tool_name server.name name) ts)) [
          | inl f ↦ rw (e, f) tt
          | inr f ↦ rw (e, f) (has_tool-snoc exposed ts _ ∙ rw h refl)
        ]
      ]

  resolve_tool-IsThere :
      (server : Server) (tool : McpTool) (ts : List ResolvedMcpTool)
      → IsThere ts
      → IfResolved IsThere (resolve_tool server tool ts)
  unfolding resolve_tool
  resolve_tool-IsThere server tool ts h = found (compatible_name tool)
    where
      found :
          (o : Option Text)
          → IfResolved IsThere (elim o [
            | none ↦ ok ts
            | some name ↦
                if includes name server.allowed_tools
                then add_tool server name tool.read_only ts
                else ok ts
          ])
      found none = h
      found (some name) = elim (Bool-cases (includes name server.allowed_tools)) [
        | inl e ↦ rw e (add_tool-IsThere server name tool.read_only ts h)
        | inr e ↦ rw e h
      ]

  pub resolve_all-IsThere :
      (server : Server) (tools : List McpTool) (ts : List ResolvedMcpTool)
      → IsThere ts
      → IfResolved IsThere (resolve_all server tools ts)
  unfolding resolve_all
  resolve_all-IsThere server [] ts h = h
  resolve_all-IsThere server (tool ∷ tools) ts h =
      by_next IsThere IsThere (resolve_tool server tool ts) (resolve_all server tools)
        (resolve_tool-IsThere server tool ts h) (λ more k. resolve_all-IsThere server tools more k)

  pub resolve_mcp_tools-IsThere :
      (servers : List (Server × Result (List McpTool))) (ts : List ResolvedMcpTool)
      → IsThere ts
      → IfResolved IsThere (resolve_mcp_tools servers ts)
  unfolding resolve_mcp_tools
  resolve_mcp_tools-IsThere [] ts h = h
  resolve_mcp_tools-IsThere ((server, threw cause) ∷ servers) ts h = tt
  resolve_mcp_tools-IsThere ((server, ok tools) ∷ servers) ts h =
      by_next IsThere IsThere (resolve_all server tools ts) (λ more. resolve_mcp_tools servers more)
        (resolve_all-IsThere server tools ts h) (λ more k. resolve_mcp_tools-IsThere servers more k)

  -- A tool that may be used is there once it has been gone through.
  add_tool-IsThere' :
      (server : Server) (name : Text) (read_only : Bool) (ts : List ResolvedMcpTool)
      → namespaced_tool_name server.name name ≡ exposed
      → (server.require_write_confirmation && not read_only) ≡ false
      → IfResolved IsThere (add_tool server name read_only ts)
  unfolding add_tool
  add_tool-IsThere' server name read_only ts e free =
      elim (Bool-cases (has_tool (namespaced_tool_name server.name name) ts)) [
        | inl f ↦ rw (free, f) tt
        | inr f ↦
            rw (free, f)
              (has_tool-snoc exposed ts _
                ∙ rw (e, same_text_refl exposed) (or_true (has_tool exposed ts)))
      ]

-- The server lists a tool with a proper name, allows it, and may use it: it stands under its name.
abbrev pub IsOffered : List ResolvedMcpTool → Server → McpTool → Type 0
IsOffered ts server tool =
    (name : Text)
    → compatible_name tool ≡ some name
    → includes name server.allowed_tools ≡ true
    → (server.require_write_confirmation && not tool.read_only) ≡ false
    → has_tool (namespaced_tool_name server.name name) ts ≡ true

pub resolve_tool-IsThere' :
    (server : Server) (tool : McpTool) (ts : List ResolvedMcpTool) (name : Text)
    → compatible_name tool ≡ some name
    → includes name server.allowed_tools ≡ true
    → (server.require_write_confirmation && not tool.read_only) ≡ false
    → IfResolved (IsThere (namespaced_tool_name server.name name)) (resolve_tool server tool ts)
unfolding resolve_tool
resolve_tool-IsThere' server tool ts name e allowed free = found (compatible_name tool) e
  where
    found :
        (o : Option Text)
        → o ≡ some name
        → IfResolved (IsThere (namespaced_tool_name server.name name)) (elim o [
          | none ↦ ok ts
          | some n ↦
              if includes n server.allowed_tools then add_tool server n tool.read_only ts else ok ts
        ])
    found none q = absurd (ground (arith, q))
    found (some n) q =
        let same : n ≡ name = ground (arith, q) in
        rw (same, allowed)
          (add_tool-IsThere' (namespaced_tool_name server.name name) server name tool.read_only ts
            refl free)
