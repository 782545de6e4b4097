-- ===== src/AgentRuntime/Run/Counts.antt =====
-- How often an effect happens in a run of apps/agent-runtime/src/runtime.ts.
use comamessenger.Prelude.{
  ℕ, ◌+◌, String, ◌≡◌, refl, ap, ◌∙◌, inl, inr, Bool, true, false, List, [], ◌∷◌, ◌++◌, arith,
  Bool-cases,
}
use comamessenger.Prelude.Dict.{Dict, lookup}
use comamessenger.Wire.{AgentPhase, tool, streaming}
use comamessenger.AgentRuntime.Text.{Text, split_streaming_delta}
use comamessenger.AgentRuntime.Coalescer
use comamessenger.AgentRuntime.Coalescer.{Coalescer, Happening, happen, close}
use comamessenger.AgentRuntime.Run.{
  Cause, Result, ToolError, AgentRun, Call, ChatMessage, Finish, Effect, status, frame, asked,
  invoked, mcp_started, mcp_called, mcp_finished, mcp_failed, Work, do_effect, has_chat,
  emit_status, emit_streaming, emit_parts, emit_deltas,
}
use comamessenger.AgentRuntime.Run.Tools.{
  McpAnswers, mcp_code, mcp_throws, mcp_returns, invoke_mcp_tool, invoke_tool, call_tools,
  encoded_size,
}
use comamessenger.AgentRuntime.Run.Loop.{Answers, stream_all, ask_provider, use_tools}
use comamessenger.AgentRuntime.Run.Cases.{by_result, by_option, by_test}

-- What a weight of effects sums up to.
unfoldable pub count : (Effect → ℕ) → List Effect → ℕ
count weight [] = 0
count weight (e ∷ es) = weight e + count weight es

pub count-snoc :
    (weight : Effect → ℕ) (es : List Effect) (e : Effect)
    → count weight (es ++ e ∷ []) ≡ count weight es + weight e
unfolding count
count-snoc weight [] e = omega arith
count-snoc weight (f ∷ es) e = omega (arith, count-snoc weight es e)

-- A weight that frames, statuses and tool calls do not have.
pub record IsSilent (weight : Effect → ℕ) : Type 0 where
  pub of_status : (phase : AgentPhase) → weight (status phase) ≡ 0
  pub of_frame : (n : ℕ) (delta : Text) (reset done : Bool) → weight (frame n delta reset done) ≡ 0
  pub of_invoked : (c : Call) → weight (invoked c) ≡ 0
  pub of_started : (c : Call) → weight (mcp_started c) ≡ 0
  pub of_called : (c : Call) → weight (mcp_called c) ≡ 0
  pub of_finished : (c : Call) (n : ℕ) → weight (mcp_finished c n) ≡ 0
  pub of_failed : (c : Call) (code : String) → weight (mcp_failed c code) ≡ 0

module _ (weight : Effect → ℕ) where
  abbrev pub total : Work → ℕ
  total w = count weight w.effects

  pub total-do_effect : (e : Effect) (w : Work) → total (do_effect e w) ≡ total w + weight e
  unfolding do_effect
  total-do_effect e w = count-snoc weight w.effects e

  -- What a silent effect leaves.
  abbrev pub HasTotal : {B : Type 0} → ℕ → Work × B → Type 0
  HasTotal n (w, b) = total w ≡ n

  pub silent_effect : (e : Effect) → weight e ≡ 0 → (w : Work) → total (do_effect e w) ≡ total w
  silent_effect e h w = omega (arith, total-do_effect e w)

  module _ (s : IsSilent weight) where
    total-mcp_throws :
        (call : Call) (cause : Cause) (w : Work) → total (mcp_throws call cause w).0 ≡ total w
    unfolding mcp_throws
    total-mcp_throws call cause w = silent_effect _ (s.of_failed call (mcp_code cause)) w

    total-mcp_returns :
        (a : McpAnswers) (call : Call) (output : Text) (w : Work)
        → total (mcp_returns a call output w).0 ≡ total w
    unfolding mcp_returns
    total-mcp_returns a call output w =
        let w₁ = do_effect (mcp_finished call (encoded_size output)) w in
        let told = silent_effect _ (s.of_finished call (encoded_size output)) w in
        by_result (HasTotal {B = Result Text} (total w)) a.finished _ _
          (λ cause. total-mcp_throws call cause w₁ ∙ told) (λ _. told)

    total-invoke_mcp_tool :
        (a : McpAnswers) (call : Call) (w : Work) → total (invoke_mcp_tool a call w).0 ≡ total w
    unfolding invoke_mcp_tool
    total-invoke_mcp_tool a call w =
        let w₁ = do_effect (mcp_started call) w in
        let w₂ = do_effect (mcp_called call) w₁ in
        let started = silent_effect _ (s.of_started call) w in
        let called = silent_effect _ (s.of_called call) w₁ ∙ started in
        by_result (HasTotal {B = Result Text} (total w)) a.registered _ _ (λ cause. started)
          (λ preview.
            by_test (HasTotal {B = Result Text} (total w)) preview _ _
              (λ _. total-mcp_returns a call a.preview w₁ ∙ started)
              (λ _.
                by_result (HasTotal {B = Result Text} (total w)) a.called _ _
                  (λ cause. total-mcp_throws call cause w₂ ∙ called)
                  (λ output. total-mcp_returns a call output w₂ ∙ called)))

    module _ (run : AgentRun) where
      pub total-emit_status :
          (phase : AgentPhase) (w : Work) → total (emit_status run phase w) ≡ total w
      unfolding emit_status
      total-emit_status phase w = elim (Bool-cases (has_chat run.chat_id)) [
        | inl e ↦ rw e (silent_effect _ (s.of_status phase) w)
        | inr e ↦ rw e refl
      ]

      pub total-emit_streaming :
          (delta : Text) (reset done : Bool) (w : Work)
          → total (emit_streaming run delta reset done w) ≡ total w
      unfolding emit_streaming
      total-emit_streaming delta reset done w = elim (Bool-cases (has_chat run.chat_id)) [
        | inl e ↦ rw e (
            silent_effect _ (s.of_frame (w.index + 1) delta reset done)
              (record w { index = w.index + 1 }))
        | inr e ↦ rw e refl
      ]

      -- A frame and a status behind it.
      pub total-announce :
          (reset done : Bool) (phase : AgentPhase) (w : Work)
          → total (emit_status run phase (emit_streaming run [] reset done w)) ≡ total w
      total-announce reset done phase w =
          total-emit_status phase _ ∙ total-emit_streaming [] reset done w

      total-emit_parts : (parts : List Text) (w : Work) → total (emit_parts run parts w) ≡ total w
      unfolding emit_parts
      total-emit_parts [] w = refl
      total-emit_parts (p ∷ ps) w = total-emit_parts ps _ ∙ total-emit_streaming p false false w

      total-emit_deltas : (ds : List Text) (w : Work) → total (emit_deltas run ds w) ≡ total w
      unfolding emit_deltas
      total-emit_deltas [] w = refl
      total-emit_deltas (d ∷ ds) w =
          total-emit_deltas ds _ ∙ total-emit_parts (split_streaming_delta d) w

      module _ (add_decimal : String → String → String) (trim : Text → Text)
          (error_json : ToolError → Text) (answers : Answers) where
        total-stream_all :
            (hs : List Happening) (c : Coalescer) (w : Work)
            → total (stream_all add_decimal trim error_json run answers hs c w) ≡ total w
        unfolding stream_all
        total-stream_all [] c w = total-emit_deltas (close c).1 w
        total-stream_all (h ∷ hs) c w = total-stream_all hs _ _ ∙ total-emit_deltas (happen h c).1 w

        pub total-ask_provider :
            (messages : List ChatMessage) (w : Work)
            → total (ask_provider add_decimal trim error_json run answers messages w).0
              ≡ total w + weight (asked messages)
        unfolding ask_provider
        total-ask_provider messages w =
            let begun = emit_status run streaming (emit_streaming run [] true false w) in
            total-stream_all (answers.provider messages).happenings Coalescer.create
              (do_effect (asked messages) begun)
            ∙ total-do_effect (asked messages) begun
            ∙ ap (λ n. n + weight (asked messages)) (total-announce true false streaming w)

        module _ (mcp_tools : Dict (Unit {0})) where
          total-invoke_tool :
              (call : Call) (w : Work)
              → total (invoke_tool error_json mcp_tools answers.tool answers.mcp call w).0 ≡ total w
          unfolding invoke_tool
          total-invoke_tool call w =
              by_option (HasTotal {B = Result Text} (total w)) (lookup call.name mcp_tools) _ _
                (silent_effect _ (s.of_invoked call) w)
                (λ _. total-invoke_mcp_tool (answers.mcp call) call w)

          total-call_tools :
              (calls : List Call) (messages : List ChatMessage) (w : Work)
              → total (call_tools error_json mcp_tools answers.tool answers.mcp calls messages w).0
                ≡ total w
          unfolding call_tools
          total-call_tools [] messages w = refl
          total-call_tools (call ∷ calls) messages w =
              total-call_tools calls _
                (invoke_tool error_json mcp_tools answers.tool answers.mcp call w).0
              ∙ total-invoke_tool call w

          pub total-use_tools :
              (f : Finish) (messages : List ChatMessage) (w : Work)
              → total (use_tools add_decimal trim error_json run answers mcp_tools f messages w).0
                ≡ total w
          unfolding use_tools
          total-use_tools f messages w =
              total-call_tools f.tool_calls _
                (emit_status run tool (emit_streaming run [] true false w))
              ∙ total-announce true false tool w
