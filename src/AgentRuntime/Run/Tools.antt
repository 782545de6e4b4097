-- ===== src/AgentRuntime/Run/Tools.antt =====
-- The tool calls of a round in apps/agent-runtime/src/runtime.ts: `invokeMCPTool` and the loop over the
-- calls. A tool's output is the text of its JSON, and `error_json` that of a tool error; both are
-- lists of UTF-16 units.
use comamessenger.Prelude.{
  ℕ, ◌+◌, String, none, some, Bool, List, [], ◌∷◌, ◌++◌, if◌then◌else◌, ltb, leb, ◌&&◌,
}
use comamessenger.Prelude.Dict.{Dict, lookup}
use comamessenger.AgentRuntime.Text.{Text, safe_json}
use comamessenger.AgentRuntime.Run.{
  Cause, mcp_error, Result, ok, threw, ToolError, tool_error_result, Call, ChatMessage, tool_result,
  invoked, mcp_started, mcp_called, mcp_finished, mcp_failed, Work, do_effect,
}

-- What one MCP call meets: the registration, which tells whether it is a preview, the preview's
-- output, the tool's, and the report of its end.
pub record McpAnswers : Type 0 where
  pub registered : Result Bool
  pub preview : Text
  pub called : Result Text
  pub finished : Result (Unit {0})

-- The UTF-8 bytes of a UTF-16 unit: two for each half of a pair. The text of `JSON.stringify` has no
-- lone halves.
unfoldable pub unit_size : ℕ → ℕ
unit_size c =
    if ltb c 128 then 1 else if ltb c 2048 then 2 else if leb 55296 c && ltb c 57344 then 2 else 3

-- `encodedSize` of a value, given the text of `JSON.stringify`
unfoldable pub encoded_size : Text → ℕ
unfolding unit_size
encoded_size [] = 0
encoded_size (c ∷ cs) = unit_size c + encoded_size cs

-- `cause instanceof MCPError ? cause.code : "mcp_call_failed"`
abbrev pub mcp_code : Cause → String
mcp_code (mcp_error code) = code
mcp_code _ = "mcp_call_failed"

-- the `catch` of `invokeMCPTool`
unfoldable pub mcp_throws : Call → Cause → Work → Work × Result Text
unfolding do_effect
mcp_throws call cause w = (do_effect (mcp_failed call (mcp_code cause)) w, threw cause)

-- the end of the `try` of `invokeMCPTool`, with the output
unfoldable pub mcp_returns : McpAnswers → Call → Text → Work → Work × Result Text
unfolding mcp_throws do_effect encoded_size
mcp_returns a call output w =
    let told = do_effect (mcp_finished call (encoded_size output)) w in
    elim a.finished [ ok _ ↦ (told, ok output) | threw cause ↦ mcp_throws call cause told ]

unfoldable pub invoke_mcp_tool : McpAnswers → Call → Work → Work × Result Text
unfolding mcp_returns mcp_throws do_effect
invoke_mcp_tool a call w =
    let started = do_effect (mcp_started call) w in
    elim a.registered [
      | threw cause ↦ (started, threw cause)
      | ok preview ↦
          if preview
          then mcp_returns a call a.preview started
          else (let called = do_effect (mcp_called call) started in
              elim a.called [
                | ok output ↦ mcp_returns a call output called
                | threw cause ↦ mcp_throws call cause called
              ])
    ]

module _ (error_json : ToolError → Text) (mcp_tools : Dict (Unit {0})) (tool : Call → Result Text)
    (mcp : Call → McpAnswers) where
  abbrev pub output_of : Result Text → Text
  output_of (ok output) = output
  output_of (threw cause) = error_json (tool_error_result cause)

  -- the output of one call, with the tools that MCP servers offer by their names
  unfoldable pub invoke_tool : Call → Work → Work × Result Text
  unfolding lookup invoke_mcp_tool do_effect
  invoke_tool call w = elim (lookup call.name mcp_tools) [
    | some _ ↦ invoke_mcp_tool (mcp call) call w
    | none ↦ (do_effect (invoked call) w, tool call)
  ]

  -- the loop over the calls of a round, which adds a message for each
  unfoldable pub call_tools : List Call → List ChatMessage → Work → Work × List ChatMessage
  unfolding invoke_tool safe_json tool_error_result
  call_tools [] messages w = (w, messages)
  call_tools (call ∷ calls) messages w =
      let (w', output) = invoke_tool call w in
      call_tools calls (messages ++ tool_result call.id (safe_json (output_of output)) ∷ []) w'
