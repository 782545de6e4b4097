-- ===== src/AgentRuntime/Run/Loop.antt =====
-- `runProviderLoop` and `execute` of apps/agent-runtime/src/runtime.ts.
use comamessenger.Prelude.{
  ℕ, zero, suc, ◌+◌, String, Option, none, some, Bool, true, false, ◌&&◌, ◌||◌, not, List, [], ◌∷◌,
  ◌++◌, ◌==◌, str_eq, if◌then◌else◌, length,
}
use comamessenger.Prelude.Dict.{Dict}
use comamessenger.Wire.{thinking, tool, streaming, completed, failed, canceled}
use comamessenger.AgentRuntime.Text.{Text, is_empty}
use comamessenger.AgentRuntime.Coalescer
use comamessenger.AgentRuntime.Coalescer.{Coalescer, Happening, happen, close}
use comamessenger.AgentRuntime.Run.{
  Cause, runtime_error, api_error, Result, ok, threw, Abort, stable_error_code, ToolError, Agent,
  AgentRun, Call, ChatMessage, assistant, Usage, Finish, asked, published, completed_run,
  failed_run, Work, do_effect, emit_status, emit_streaming, emit_deltas,
}
use comamessenger.AgentRuntime.Run.Tools.{McpAnswers, call_tools}

-- What the provider streams: its deltas, with the timeouts of the coalescer between them, and how the
-- stream ends, with the last `finish` event if there was one.
pub record Streaming : Type 0 where
  pub happenings : List Happening
  pub outcome : Result (Option Finish)

pub record Answers : Type 0 where
  pub agent : Result Agent
  pub agent_tools : Result (Unit {0})
  -- `resolveMCPTools` of the servers that the API lists
  pub mcp_tools : Result (Dict (Unit {0}))
  pub context : Result (List ChatMessage)
  pub provider : List ChatMessage → Streaming
  pub tool : Call → Result Text
  pub mcp : Call → McpAnswers
  pub publish : Result String
  pub complete : Result (Unit {0})
  pub fail : Result (Unit {0})
  -- why the signal is aborted when an error is caught, if it is
  pub abort : Option Abort

-- What the provider loop returns.
pub record Output : Type 0 where
  pub content : Text
  pub usage : Usage
  pub tool_calls : ℕ

abbrev pub no_usage : Usage
no_usage = record {
  input_tokens = 0;
  output_tokens = 0;
  cost = "0";
  currency = "USD";
  price_source = "unknown";
}

module _ (add_decimal : String → String → String) (trim : Text → Text)
    (error_json : ToolError → Text) (run : AgentRun) (answers : Answers) where
  unfoldable pub add_usage : Usage → Usage → Usage
  add_usage total u = record {
    input_tokens = total.input_tokens + u.input_tokens;
    output_tokens = total.output_tokens + u.output_tokens;
    cost = add_decimal total.cost u.cost;
    currency = u.currency;
    price_source = u.price_source;
  }

  -- The deltas through the coalescer, which is closed at the end of the stream and on an error alike.
  unfoldable pub stream_all : List Happening → Coalescer → Work → Work
  unfolding close emit_deltas
  stream_all [] c w = emit_deltas run (close c).1 w
  stream_all (h ∷ hs) c w =
      let (c', deltas) = happen h c in stream_all hs c' (emit_deltas run deltas w)

  abbrev pub is_truncated : Finish → Bool
  is_truncated f = str_eq f.stop_reason "length" || str_eq f.stop_reason "max_tokens"

  abbrev pub checked : Result (Option Finish) → Result Finish
  checked (threw cause) = threw cause
  checked (ok none) = threw (runtime_error "provider_incomplete_stream")
  checked (ok (some f)) =
      if is_truncated f then threw (runtime_error "provider_output_truncated") else ok f

  -- One round up to the check of the stop reason.
  unfoldable pub ask_provider : List ChatMessage → Work → Work × Result Finish
  unfolding stream_all emit_status emit_streaming do_effect
  ask_provider messages w =
      let begun = emit_status run streaming (emit_streaming run [] true false w) in
      let stream = answers.provider messages in
      (
        stream_all stream.happenings Coalescer.create (do_effect (asked messages) begun),
        checked stream.outcome,
      )

  -- What precedes the tool calls of a round, and the calls.
  unfoldable pub use_tools :
      Dict (Unit {0}) → Finish → List ChatMessage → Work → Work × List ChatMessage
  unfolding call_tools emit_status emit_streaming
  use_tools mcp_tools f messages w =
      call_tools error_json mcp_tools answers.tool answers.mcp f.tool_calls
        (messages ++ assistant f.content f.tool_calls ∷ [])
        (emit_status run tool (emit_streaming run [] true false w))

  unfoldable pub returned : Usage → Finish → ℕ → Output
  unfolding add_usage
  returned usage f calls = record {
    content = f.content;
    usage = add_usage usage f.usage;
    tool_calls = calls;
  }

  -- The loop, with `max_tool_iterations - iteration` rounds left behind this one.
  unfoldable pub provider_loop :
      Dict (Unit {0}) → ℕ → Usage → ℕ → List ChatMessage → Work → Work × Result Output
  unfolding ask_provider use_tools add_usage returned
  provider_loop mcp_tools zero usage calls messages w =
      let (w', r) = ask_provider messages w in
      elim r [
        | threw cause ↦ (w', threw cause)
        | ok f ↦ elim f.tool_calls [
          | [] ↦ (w', ok (returned usage f calls))
          | c ∷ cs ↦ (w', threw (runtime_error "tool_iteration_limit"))
        ]
      ]
  provider_loop mcp_tools (suc n) usage calls messages w =
      let (w', r) = ask_provider messages w in
      elim r [
        | threw cause ↦ (w', threw cause)
        | ok f ↦ elim f.tool_calls [
          | [] ↦ (w', ok (returned usage f calls))
          | c ∷ cs ↦
              let (w'', more) = use_tools mcp_tools f messages w' in
              provider_loop mcp_tools n (add_usage usage f.usage) (calls + length f.tool_calls) more
                w''
        ]
      ]

  -- The rest of the `try` of `execute`, behind the provider loop. `trim` is that of a text.
  unfoldable pub publish_output : Output → Work → Work × Result (Option String)
  unfolding do_effect
  publish_output out w =
      if is_empty (trim out.content)
      then (w, threw (runtime_error "empty_provider_output"))
      else if run.sandboxed && run.unpublished
      then (w, ok none)
      else (let told = do_effect (published out.content) w in
          elim answers.publish [ ok id ↦ (told, ok (some id)) | threw cause ↦ (told, threw cause) ])

  unfoldable pub complete_run : Output → Option String → Work → Work × Result (Unit {0})
  unfolding do_effect emit_status emit_streaming
  complete_run out posted w = (
    do_effect (completed_run out.usage posted (run.sandboxed && run.unpublished) out.tool_calls)
        (emit_status run completed (emit_streaming run [] false true w)),
    answers.complete,
  )

  unfoldable pub publish_run : Output → Work → Work × Result (Unit {0})
  unfolding publish_output complete_run
  publish_run out w =
      let (w', r) = publish_output out w in
      elim r [ threw cause ↦ (w', threw cause) | ok posted ↦ complete_run out posted w' ]

  abbrev pub agent_of : Result Agent
  agent_of = if run.dry_run then ok run.agent_config else answers.agent

  -- From the approval to the completion.
  unfoldable pub work_on : Agent → Work → Work × Result (Unit {0})
  unfolding provider_loop publish_run
  work_on agent w =
      if not agent.external_data_sharing_approved
      then (w, threw (runtime_error "external_data_sharing_not_approved"))
      else elim answers.agent_tools [
        | threw cause ↦ (w, threw cause)
        | ok _ ↦ elim answers.mcp_tools [
          | threw cause ↦ (w, threw cause)
          | ok mcp_tools ↦ elim answers.context [
            | threw cause ↦ (w, threw cause)
            | ok messages ↦
                let (w', r) =
                  provider_loop mcp_tools agent.max_tool_iterations no_usage 0 messages w in
                elim r [ threw cause ↦ (w', threw cause) | ok out ↦ publish_run out w' ]
          ]
        ]
      ]

  -- the `try` of `execute`
  unfoldable pub attempt : Work → Work × Result (Unit {0})
  unfolding work_on emit_status
  attempt w =
      let begun = emit_status run thinking w in
      elim agent_of [ threw cause ↦ (begun, threw cause) | ok agent ↦ work_on agent begun ]

  abbrev pub forgiven : Result (Unit {0}) → Result (Unit {0})
  forgiven (threw (api_error http_status code)) =
      if http_status == 409 then ok tt else threw (api_error http_status code)
  forgiven r = r

  -- the `catch` of `execute`
  unfoldable pub fail_run : Cause → Work → Work × Result (Unit {0})
  unfolding do_effect emit_status emit_streaming stable_error_code
  fail_run cause w =
      let code = stable_error_code answers.abort cause in
      (
        do_effect (failed_run code) (
            emit_status run (if str_eq code "run_canceled" then canceled else failed)
              (emit_streaming run [] false true w)),
        forgiven answers.fail,
      )

  unfoldable pub execute : Work × Result (Unit {0})
  unfolding attempt fail_run
  execute =
      let (w, r) = attempt (record { index = 0; effects = [] }) in
      elim r [ ok _ ↦ (w, ok tt) | threw cause ↦ fail_run cause w ]
