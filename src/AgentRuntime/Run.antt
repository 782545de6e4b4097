-- ===== src/AgentRuntime/Run.antt =====
-- The life of an agent run: `execute` and `runProviderLoop` of apps/agent-runtime/src/runtime.ts. What
-- the API, the provider and the tools answer is in `Answers`; `add_decimal` stands for the sum of two
-- decimal texts in floating point, and `trim` for that of a text.
pub mod Tools
pub mod Loop
pub mod Cases
pub mod Counts
pub mod Reports
pub mod Ends
pub mod Outcome
pub mod Numbers
pub mod Frames
pub mod Shown
pub mod Seen
use comamessenger.Prelude.{
  ℕ, zero, suc, ◌+◌, String, Option, none, some, Bool, true, false, ◌&&◌, ◌||◌, not, List, [], ◌∷◌,
  ◌++◌, leb, ◌==◌, str_eq, if◌then◌else◌,
}
use comamessenger.Wire.{AgentPhase}
use comamessenger.AgentRuntime.Text.{Text, split_streaming_delta}

-- What a `catch` can find.
pub data Cause : Type 0 where
  runtime_error : String → Cause
  provider_error : Bool → String → Cause
  mcp_error : String → Cause
  api_error : ℕ → String → Cause
  other_cause : Cause

pub data Result {ℓ} (A : Type ℓ) : Type ℓ where
  ok : A → Result A
  threw : Cause → Result A

-- the reason of the aborted signal
pub data Abort : Type 0 where
  run_canceled runtime_shutdown lease_lost : Abort

unfoldable pub stable_error_code : Option Abort → Cause → String
stable_error_code (some run_canceled) cause = "run_canceled"
stable_error_code (some _) cause = "runtime_aborted"
stable_error_code none (runtime_error code) = code
stable_error_code none (provider_error retryable code) =
    if retryable then "provider_retryable" else code
stable_error_code none (mcp_error code) = code
stable_error_code none (api_error status code) =
    if str_eq code "agent_budget_exceeded"
    then "budget_exceeded"
    else if leb 500 status || status == 429
    then "core_api_retryable"
    else "core_api_rejected"
stable_error_code none other_cause = "runtime_error"

pub record ToolError : Type 0 where
  pub error : String
  pub retryable : Bool

unfoldable pub tool_error_result : Cause → ToolError
tool_error_result (api_error status code) = record {
  error = code;
  retryable = status == 429 || leb 500 status;
}
tool_error_result (mcp_error code) = record { error = code; retryable = false }
tool_error_result _ = record { error = "tool_failed"; retryable = false }

pub record Agent : Type 0 where
  pub external_data_sharing_approved : Bool
  pub max_tool_iterations : ℕ

-- `ClaimedAgentRun`; the last two fields are `input.sandbox === true` and `input.publish === false`.
pub record AgentRun : Type 0 where
  pub chat_id : Option String
  pub dry_run : Bool
  pub agent_config : Agent
  pub sandboxed : Bool
  pub unpublished : Bool

pub record Call : Type 0 where
  pub id : String
  pub name : String
  pub arguments : Text

-- A message to the provider, by what stands in its template: one of the context, the provider's own
-- text with its calls, or a tool's output.
pub data ChatMessage : Type 0 where
  -- the prompt, with the agent's handle and its escaped description
  system : String → Text → ChatMessage
  -- a message of the chat: whether the agent wrote it, its id and author, and its escaped body
  history : Bool → String → String → Text → ChatMessage
  -- the escaped input of the run
  run_input : Text → ChatMessage
  assistant : Text → List Call → ChatMessage
  tool_result : String → Text → ChatMessage

pub record Usage : Type 0 where
  pub input_tokens : ℕ
  pub output_tokens : ℕ
  pub cost : String
  pub currency : String
  pub price_source : String

pub record Finish : Type 0 where
  pub content : Text
  pub stop_reason : String
  pub usage : Usage
  pub tool_calls : List Call

-- How the call of an MCP tool is reported to the API: started, and ended with a status, a size and an
-- error code.
pub data Effect : Type 0 where
  status : AgentPhase → Effect
  frame : ℕ → Text → Bool → Bool → Effect
  asked : List ChatMessage → Effect
  invoked : Call → Effect
  mcp_started : Call → Effect
  mcp_called : Call → Effect
  mcp_finished : Call → ℕ → Effect
  mcp_failed : Call → String → Effect
  published : Text → Effect
  completed_run : Usage → Option String → Bool → ℕ → Effect
  failed_run : String → Effect

-- `streamIndex`, and what has been called so far
pub record Work : Type 0 where
  pub index : ℕ
  pub effects : List Effect

unfoldable pub do_effect : Effect → Work → Work
do_effect e w = record w { effects = w.effects ++ e ∷ [] }

-- `!run.chat_id` is true for null and for the empty text.
abbrev pub has_chat : Option String → Bool
has_chat none = false
has_chat (some id) = not (str_eq id "")

unfoldable pub emit_status : AgentRun → AgentPhase → Work → Work
unfolding do_effect
emit_status run phase w = if has_chat run.chat_id then do_effect (status phase) w else w

-- `emitStreaming` with the next index
unfoldable pub emit_streaming : AgentRun → Text → Bool → Bool → Work → Work
unfolding do_effect
emit_streaming run delta reset done w =
    let next = record w { index = w.index + 1 } in
    if has_chat run.chat_id then do_effect (frame next.index delta reset done) next else next

unfoldable pub emit_parts : AgentRun → List Text → Work → Work
unfolding emit_streaming
emit_parts run [] w = w
emit_parts run (part ∷ parts) w = emit_parts run parts (emit_streaming run part false false w)

-- the callback of the coalescer, for each text that it emits
unfoldable pub emit_deltas : AgentRun → List Text → Work → Work
unfolding emit_parts split_streaming_delta
emit_deltas run [] w = w
emit_deltas run (delta ∷ deltas) w =
    emit_deltas run deltas (emit_parts run (split_streaming_delta delta) w)
