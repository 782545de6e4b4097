-- ===== src/AgentRuntime/Run/Reports.antt =====
-- What a run of apps/agent-runtime/src/runtime.ts asks of the provider, publishes and reports.
use comamessenger.Prelude.{ℕ, zero, suc, ◌+◌, ◌≤◌, String, ◌≡◌, refl, not, List, [], arith}
use comamessenger.Prelude.Dict.{Dict}
use comamessenger.Wire.{thinking}
use comamessenger.AgentRuntime.Text.{Text}
use comamessenger.AgentRuntime.Run.{
  Cause, Result, ok, threw, ToolError, Agent, AgentRun, ChatMessage, Usage, Effect, asked,
  published, completed_run, failed_run, Work,
}
use comamessenger.AgentRuntime.Run.Loop.{
  Answers, Output, ask_provider, provider_loop, publish_run, work_on, attempt, no_usage, agent_of,
}
use comamessenger.AgentRuntime.Run.Cases.{by_result, by_answer, by_list, by_test}
use comamessenger.AgentRuntime.Run.Counts.{
  count, IsSilent, total, total-emit_status, total-ask_provider, total-use_tools,
}

-- What a request to the provider, a message, a completion and a failure weigh.
abbrev pub score : ℕ → ℕ → ℕ → ℕ → Effect → ℕ
score a p c f (asked messages) = a
score a p c f (published body) = p
score a p c f (completed_run usage posted sandbox calls) = c
score a p c f (failed_run code) = f
score a p c f _ = 0

abbrev pub asks : Effect → ℕ
asks = score 1 0 0 0

abbrev pub publications : Effect → ℕ
publications = score 0 1 0 0

abbrev pub completions : Effect → ℕ
completions = score 0 0 1 0

abbrev pub failures : Effect → ℕ
failures = score 0 0 0 1

pub score-IsSilent : (a p c f : ℕ) → IsSilent (score a p c f)
score-IsSilent a p c f = record {
  of_status = λ phase. refl;
  of_frame = λ n delta reset done. refl;
  of_invoked = λ c. refl;
  of_started = λ c. refl;
  of_called = λ c. refl;
  of_finished = λ c n. refl;
  of_failed = λ c code. refl;
}

abbrev pub IsWithin : {B : Type 0} → (Effect → ℕ) → ℕ → Work × B → Type 0
IsWithin weight n (w, b) = total weight w ≤ n

module _ (add_decimal : String → String → String) (trim : Text → Text)
    (error_json : ToolError → Text) (run : AgentRun) (answers : Answers) where
  module _ (weight : Effect → ℕ) (s : IsSilent weight) (budget : ℕ → ℕ)
      (last : (messages : List ChatMessage) → weight (asked messages) ≤ budget 0)
      (step : (k : ℕ) (messages : List ChatMessage)
        → weight (asked messages) + budget k ≤ budget (suc k)) where
    -- The rounds of a loop stay within a budget for the rounds that are left.
    loop_bound :
        (mcp_tools : Dict (Unit {0})) (left : ℕ) (usage : Usage) (calls : ℕ)
        (messages : List ChatMessage) (w : Work) (n : ℕ)
        → total weight w + budget left ≤ n
        → IsWithin weight n (
            provider_loop add_decimal trim error_json run answers mcp_tools left usage calls
              messages w)
    unfolding provider_loop
    loop_bound mcp_tools zero usage calls messages w n h =
        let asked_one =
          total-ask_provider weight s run add_decimal trim error_json answers messages w in
        let (w', r) = ask_provider add_decimal trim error_json run answers messages w in
        let within : total weight w' ≤ n = omega (arith, asked_one, last messages) in
        by_result (IsWithin {B = Result Output} weight n) r _ _ (λ cause. within)
          (λ f.
            by_list (IsWithin {B = Result Output} weight n) f.tool_calls _ _ within
              (λ c cs. within))
    loop_bound mcp_tools (suc k) usage calls messages w n h =
        let asked_one =
          total-ask_provider weight s run add_decimal trim error_json answers messages w in
        let (w', r) = ask_provider add_decimal trim error_json run answers messages w in
        let left_over : total weight w' + budget k ≤ n =
          omega (arith, asked_one, step k messages) in
        let within : total weight w' ≤ n = omega arith in
        by_result (IsWithin {B = Result Output} weight n) r _ _ (λ cause. within)
          (λ f. by_list (IsWithin {B = Result Output} weight n) f.tool_calls _ _ within (λ c cs.
            let used =
              total-use_tools weight s run add_decimal trim error_json answers mcp_tools f messages
                w' in
            loop_bound mcp_tools k _ _ _ _ n (omega (arith, used))))

    module _ (n : ℕ) (P : Work × Result (Unit {0}) → Type 0)
        (early : (w : Work) (cause : Cause) → total weight w ≤ n → P (w, threw cause))
        (late : (w : Work) (out : Output)
          → total weight w ≤ n
          → P (publish_run add_decimal trim error_json run answers out w)) where
      -- What holds of an attempt, when it holds of every end that comes within the budget.
      work_on_by :
          (agent : Agent) (w : Work)
          → total weight w + budget agent.max_tool_iterations ≤ n
          → P (work_on add_decimal trim error_json run answers agent w)
      unfolding work_on
      work_on_by agent w h =
          let within : total weight w ≤ n = omega arith in
          by_test P (not agent.external_data_sharing_approved) _ _ (λ _. early w _ within)
            (λ _.
              by_result P answers.agent_tools _ _ (λ cause. early w cause within)
                (λ _.
                  by_result P answers.mcp_tools _ _ (λ cause. early w cause within)
                    (λ mcp_tools.
                      by_result P answers.context _ _ (λ cause. early w cause within)
                        (λ messages.
                          let looped =
                            loop_bound mcp_tools agent.max_tool_iterations no_usage 0 messages w n
                              h in
                          by_result P
                            (provider_loop add_decimal trim error_json run answers mcp_tools
                              agent.max_tool_iterations no_usage 0 messages w).1
                            _ _ (λ cause. early _ cause looped) (λ out. late _ out looped)))))

      pub attempt_by :
          ((agent : Agent)
            → agent_of add_decimal trim error_json run answers ≡ ok agent
            → budget agent.max_tool_iterations ≤ n)
          → P (attempt add_decimal trim error_json run answers (record { index = 0; effects = [] }))
      unfolding attempt count
      attempt_by afford =
          let told = total-emit_status weight s run thinking (record { index = 0; effects = [] }) in
          by_answer P (agent_of add_decimal trim error_json run answers) _ _
            (λ cause _. early _ cause (omega (arith, told)))
            (λ agent e. work_on_by agent _ (omega (arith, told, afford agent e)))
