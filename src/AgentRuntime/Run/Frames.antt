-- ===== src/AgentRuntime/Run/Frames.antt =====
-- The stream frames that a run sends in apps/agent-runtime/src/runtime.ts.
use comamessenger.Prelude.{
  ℕ, zero, suc, ◌+◌, String, ◌≡◌, refl, sym, ap, ◌∙◌, Option, none, some, Bool, true, false, ◌&&◌,
  not, List, [], ◌∷◌, ◌++◌, if◌then◌else◌, str_eq,
}
use comamessenger.Prelude.Dict.{Dict, lookup}
use comamessenger.Wire.{AgentPhase, thinking, tool, streaming, completed, canceled}
use comamessenger.AgentRuntime.Text.{Text, split_streaming_delta, is_empty}
use comamessenger.AgentRuntime.Coalescer
use comamessenger.AgentRuntime.Coalescer.{Coalescer, Happening, happen, close, deltas}
use comamessenger.AgentRuntime.Run.{
  Cause, runtime_error, Result, ok, threw, ToolError, Agent, AgentRun, Call, ChatMessage, Usage,
  Finish, frame, asked, invoked, published, failed_run, Work, do_effect, has_chat, emit_status,
  emit_streaming, emit_parts, emit_deltas, stable_error_code,
}
use comamessenger.AgentRuntime.Run.Tools.{invoke_tool, call_tools}
use comamessenger.AgentRuntime.Run.Loop.{
  Answers, stream_all, ask_provider, use_tools, provider_loop, publish_output, publish_run,
  complete_run, work_on, attempt, fail_run, execute, Output, no_usage, agent_of,
}
use comamessenger.AgentRuntime.Run.Cases.{by_result, by_option, by_list, by_test}
use comamessenger.AgentRuntime.Run.Numbers.{
  numbers, numbers-snoc, up_to, IsNumbered, KeepsNumbers, do_effect-IsNumbered,
  emit_status-IsNumbered, up_to_next, IsNumberedIn, invoke_mcp_tool-IsNumbered,
}

module _ (run : AgentRun) (chat : has_chat run.chat_id ≡ true) where
  emit_streaming-IsNumbered :
      (delta : Text) (reset done : Bool) → KeepsNumbers (emit_streaming run delta reset done)
  unfolding emit_streaming do_effect
  emit_streaming-IsNumbered delta reset done w h = rw chat (
      numbers-snoc w.effects (frame (w.index + 1) delta reset done)
      ∙ ap (λ l. l ++ (w.index + 1) ∷ []) h
      ∙ sym (up_to_next w.index))

  emit_parts-IsNumbered : (parts : List Text) → KeepsNumbers (emit_parts run parts)
  unfolding emit_parts
  emit_parts-IsNumbered [] w h = h
  emit_parts-IsNumbered (part ∷ parts) w h =
      emit_parts-IsNumbered parts _ (emit_streaming-IsNumbered part false false w h)

  emit_deltas-IsNumbered : (ds : List Text) → KeepsNumbers (emit_deltas run ds)
  unfolding emit_deltas
  emit_deltas-IsNumbered [] w h = h
  emit_deltas-IsNumbered (d ∷ ds) w h =
      emit_deltas-IsNumbered ds _ (emit_parts-IsNumbered (split_streaming_delta d) w h)

  -- What opens and closes the parts of a run: a frame and a status.
  announce-IsNumbered :
      (reset done : Bool) (phase : AgentPhase)
      → KeepsNumbers (λ w. emit_status run phase (emit_streaming run [] reset done w))
  announce-IsNumbered reset done phase w h =
      emit_status-IsNumbered run phase _ (emit_streaming-IsNumbered [] reset done w h)

  module _ (mcp_tools : Dict (Unit {0})) (add_decimal : String → String → String)
      (trim : Text → Text) (error_json : ToolError → Text) (answers : Answers) where
    invoke_tool-IsNumbered :
        (call : Call)
        → KeepsNumbers (λ w. (invoke_tool error_json mcp_tools answers.tool answers.mcp call w).0)
    unfolding invoke_tool
    invoke_tool-IsNumbered call w h =
        by_option (IsNumberedIn {B = Result Text}) (lookup call.name mcp_tools) _ _
          (do_effect-IsNumbered (invoked call) refl w h)
          (λ _. invoke_mcp_tool-IsNumbered (answers.mcp call) call w h)

    call_tools-IsNumbered :
        (calls : List Call) (messages : List ChatMessage)
        → KeepsNumbers
            (λ w. (call_tools error_json mcp_tools answers.tool answers.mcp calls messages w).0)
    unfolding call_tools
    call_tools-IsNumbered [] messages w h = h
    call_tools-IsNumbered (call ∷ calls) messages w h =
        call_tools-IsNumbered calls _ _ (invoke_tool-IsNumbered call w h)

    stream_all-IsNumbered :
        (hs : List Happening) (c : Coalescer)
        → KeepsNumbers (stream_all add_decimal trim error_json run answers hs c)
    unfolding stream_all
    stream_all-IsNumbered [] c w h = emit_deltas-IsNumbered (close c).1 w h
    stream_all-IsNumbered (x ∷ hs) c w h =
        stream_all-IsNumbered hs _ _ (emit_deltas-IsNumbered (happen x c).1 w h)

    ask_provider-IsNumbered :
        (messages : List ChatMessage)
        → KeepsNumbers (λ w. (ask_provider add_decimal trim error_json run answers messages w).0)
    unfolding ask_provider
    ask_provider-IsNumbered messages w h =
        stream_all-IsNumbered (answers.provider messages).happenings Coalescer.create _ (
          do_effect-IsNumbered (asked messages) refl _
            (announce-IsNumbered true false streaming w h))

    use_tools-IsNumbered :
        (f : Finish) (messages : List ChatMessage)
        → KeepsNumbers
            (λ w. (use_tools add_decimal trim error_json run answers mcp_tools f messages w).0)
    unfolding use_tools
    use_tools-IsNumbered f messages w h =
        call_tools-IsNumbered f.tool_calls _ _ (announce-IsNumbered true false tool w h)

    provider_loop-IsNumbered :
        (left : ℕ) (usage : Usage) (calls : ℕ) (messages : List ChatMessage)
        → KeepsNumbers (λ w.
          (provider_loop add_decimal trim error_json run answers mcp_tools left usage calls messages
            w).0)
    unfolding provider_loop
    provider_loop-IsNumbered zero usage calls messages w h =
        let (w', r) = ask_provider add_decimal trim error_json run answers messages w in
        let asked_one : IsNumbered w' = ask_provider-IsNumbered messages w h in
        by_result (IsNumberedIn {B = Result Output}) r _ _ (λ cause. asked_one)
          (λ f.
            by_list (IsNumberedIn {B = Result Output}) f.tool_calls _ _ asked_one
              (λ c cs. asked_one))
    provider_loop-IsNumbered (suc n) usage calls messages w h =
        let (w', r) = ask_provider add_decimal trim error_json run answers messages w in
        let asked_one : IsNumbered w' = ask_provider-IsNumbered messages w h in
        by_result (IsNumberedIn {B = Result Output}) r _ _ (λ cause. asked_one)
          (λ f. by_list (IsNumberedIn {B = Result Output}) f.tool_calls _ _ asked_one (λ c cs.
            provider_loop-IsNumbered n _ _ _ _ (use_tools-IsNumbered f messages w' asked_one)))

    publish_output-IsNumbered :
        (out : Output)
        → KeepsNumbers (λ w. (publish_output add_decimal trim error_json run answers out w).0)
    unfolding publish_output
    publish_output-IsNumbered out w h =
        let told : IsNumbered (do_effect (published out.content) w) =
          do_effect-IsNumbered (published out.content) refl w h in
        by_test (IsNumberedIn {B = Result (Option String)}) (is_empty (trim out.content))
          (w, threw (runtime_error "empty_provider_output")) _ (λ _. h)
          (λ _.
            by_test (IsNumberedIn {B = Result (Option String)}) (run.sandboxed && run.unpublished)
              (w, ok none) _ (λ _. h)
              (λ _.
                by_result (IsNumberedIn {B = Result (Option String)}) answers.publish
                  (λ cause. (do_effect (published out.content) w, threw cause))
                  (λ id. (do_effect (published out.content) w, ok (some id))) (λ cause. told)
                  (λ id. told)))

    publish_run-IsNumbered :
        (out : Output)
        → KeepsNumbers (λ w. (publish_run add_decimal trim error_json run answers out w).0)
    unfolding publish_run complete_run
    publish_run-IsNumbered out w h =
        let (w', r) = publish_output add_decimal trim error_json run answers out w in
        let told : IsNumbered w' = publish_output-IsNumbered out w h in
        by_result (IsNumberedIn {B = Result (Unit {0})}) r _ _ (λ cause. told)
          (λ posted.
            do_effect-IsNumbered _ refl _ (announce-IsNumbered false true completed w' told))

  module _ (add_decimal : String → String → String) (trim : Text → Text)
      (error_json : ToolError → Text) (answers : Answers) where
    work_on-IsNumbered :
        (agent : Agent)
        → KeepsNumbers (λ w. (work_on add_decimal trim error_json run answers agent w).0)
    unfolding work_on
    work_on-IsNumbered agent w h =
        by_test (IsNumberedIn {B = Result (Unit {0})}) (not agent.external_data_sharing_approved)
          (w, threw (runtime_error "external_data_sharing_not_approved")) _ (λ _. h)
          (λ _.
            by_result (IsNumberedIn {B = Result (Unit {0})}) answers.agent_tools _ _ (λ cause. h)
              (λ _.
                by_result (IsNumberedIn {B = Result (Unit {0})}) answers.mcp_tools _ _ (λ cause. h)
                  (λ mcp_tools.
                    by_result (IsNumberedIn {B = Result (Unit {0})}) answers.context _ _
                      (λ cause. h)
                      (λ messages.
                        let looped =
                          provider_loop-IsNumbered mcp_tools add_decimal trim error_json answers
                            agent.max_tool_iterations no_usage 0 messages w h in
                        by_result (IsNumberedIn {B = Result (Unit {0})})
                          (provider_loop add_decimal trim error_json run answers mcp_tools
                            agent.max_tool_iterations no_usage 0 messages w).1
                          _ _ (λ cause. looped)
                          (λ out.
                            publish_run-IsNumbered mcp_tools add_decimal trim error_json answers out
                              _ looped)))))

    attempt-IsNumbered : KeepsNumbers (λ w. (attempt add_decimal trim error_json run answers w).0)
    unfolding attempt
    attempt-IsNumbered w h =
        let begun = emit_status-IsNumbered run thinking w h in
        by_result (IsNumberedIn {B = Result (Unit {0})})
          (agent_of add_decimal trim error_json run answers) _ _ (λ cause. begun)
          (λ agent. work_on-IsNumbered agent (emit_status run thinking w) begun)

    fail_run-IsNumbered :
        (cause : Cause)
        → KeepsNumbers (λ w. (fail_run add_decimal trim error_json run answers cause w).0)
    unfolding fail_run
    fail_run-IsNumbered cause w h =
        let code = stable_error_code answers.abort cause in
        let phase = if str_eq code "run_canceled" then canceled else AgentPhase.failed in
        do_effect-IsNumbered (failed_run code) refl
          (emit_status run phase (emit_streaming run [] false true w))
          (announce-IsNumbered false true phase w h)

    -- In a chat, the frames that an execution sends are numbered one after another from 1, with no gap
    -- and no repetition, whatever the provider, the tools and the API answer.
    pub execute-IsNumbered : IsNumbered (execute add_decimal trim error_json run answers).0
    unfolding execute numbers up_to
    execute-IsNumbered =
        let w : Work = record { index = 0; effects = [] } in
        let tried = attempt-IsNumbered w refl in
        by_result (IsNumberedIn {B = Result (Unit {0})})
          (attempt add_decimal trim error_json run answers w).1 _ _
          (λ cause.
            fail_run-IsNumbered cause (attempt add_decimal trim error_json run answers w).0 tried)
          (λ _. tried)
