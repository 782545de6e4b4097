-- ===== src/AgentRuntime/Run/Ends.antt =====
-- How a run of apps/agent-runtime/src/runtime.ts ends: what it publishes, and that it is completed or
-- reported as failed.
use comamessenger.Prelude.{
  ℕ, suc, ◌+◌, ◌≤◌, String, ◌≡◌, sym, ap, ◌∙◌, Option, Bool, true, false, ◌&&◌, [], arith,
  if◌then◌else◌, str_eq, inl, inr, Bool-cases,
}
use comamessenger.Wire.{completed, canceled, failed}
use comamessenger.AgentRuntime.Text.{Text, is_empty}
use comamessenger.AgentRuntime.Run.{
  Cause, Result, ok, threw, ToolError, Agent, AgentRun, published, failed_run, Work, emit_status,
  emit_streaming, stable_error_code,
}
use comamessenger.AgentRuntime.Run.Loop.{
  Answers, Output, publish_output, complete_run, publish_run, attempt, fail_run, execute, agent_of,
}
use comamessenger.AgentRuntime.Run.Cases.{by_result, by_test}
use comamessenger.AgentRuntime.Run.Counts.{total, total-do_effect, total-announce}
use comamessenger.AgentRuntime.Run.Reports.{
  score, asks, publications, score-IsSilent, IsWithin, attempt_by,
}

module _ (add_decimal : String → String → String) (trim : Text → Text)
    (error_json : ToolError → Text) (run : AgentRun) (answers : Answers) where
  abbrev pub kept_back : Bool
  kept_back = run.sandboxed && run.unpublished

  -- What the message of a run weighs.
  abbrev pub posting : ℕ → ℕ
  posting p = if kept_back then 0 else p

  module _ (a p c f : ℕ) where
    pub publish_output_bound :
        (out : Output) (w : Work)
        → IsWithin
            (score a p c f)
            (total (score a p c f) w + posting p)
            (publish_output add_decimal trim error_json run answers out w)
    unfolding publish_output
    publish_output_bound out w =
        let P =
          IsWithin {B = Result (Option String)} (score a p c f)
            (total (score a p c f) w + posting p) in
        by_test P (is_empty (trim out.content)) _ _ (λ _. omega arith)
          (λ _. elim (Bool-cases kept_back) [
            | inl e ↦ rw e (omega arith)
            | inr e ↦ rw e (
                let told = total-do_effect (score a p c f) (published out.content) w in
                by_result
                  (IsWithin {B = Result (Option String)} (score a p c f)
                    (total (score a p c f) w + p))
                  answers.publish _ _ (λ cause. omega (arith, told)) (λ id. omega (arith, told)))
          ])

    pub total-complete_run :
        (out : Output) (posted : Option String) (w : Work)
        → total
            (score a p c f)
            (complete_run add_decimal trim error_json run answers out posted w).0
          ≡ total (score a p c f) w + c
    unfolding complete_run
    total-complete_run out posted w =
        let s = score-IsSilent a p c f in
        let told = total-announce (score a p c f) s run false true completed w in
        total-do_effect (score a p c f) _
          (emit_status run completed (emit_streaming run [] false true w))
        ∙ ap (λ n. n + c) told

    pub publish_run_bound :
        (out : Output) (w : Work)
        → IsWithin
            (score a p c f)
            (total (score a p c f) w + posting p + c)
            (publish_run add_decimal trim error_json run answers out w)
    unfolding publish_run
    publish_run_bound out w =
        let (w', r) = publish_output add_decimal trim error_json run answers out w in
        let published_one : total (score a p c f) w' ≤ total (score a p c f) w + posting p =
          publish_output_bound out w in
        by_result
          (IsWithin {B = Result (Unit {0})} (score a p c f)
            (total (score a p c f) w + posting p + c))
          r _ _ (λ cause. omega arith)
          (λ posted. let done = total-complete_run out posted w' in omega (arith, done))

    pub total-fail_run :
        (cause : Cause) (w : Work)
        → total (score a p c f) (fail_run add_decimal trim error_json run answers cause w).0
          ≡ total (score a p c f) w + f
    unfolding fail_run
    total-fail_run cause w =
        let code = stable_error_code answers.abort cause in
        let phase = if str_eq code "run_canceled" then canceled else failed in
        let told = total-announce (score a p c f) (score-IsSilent a p c f) run false true phase w in
        total-do_effect (score a p c f) (failed_run code)
          (emit_status run phase (emit_streaming run [] false true w))
        ∙ ap (λ n. n + f) told

    pub execute_bound :
        (budget : ℕ → ℕ)
        → a ≤ budget 0
        → ((k : ℕ) → a + budget k ≤ budget (suc k))
        → (n : ℕ)
        → ((agent : Agent)
            → agent_of add_decimal trim error_json run answers ≡ ok agent
            → budget agent.max_tool_iterations ≤ n)
        → IsWithin
            (score a p c f)
            (n + posting p + c + f)
            (execute add_decimal trim error_json run answers)
    unfolding execute
    execute_bound budget last step n afford =
        let P = IsWithin {B = Result (Unit {0})} (score a p c f) (n + posting p + c) in
        let (w, r) =
          attempt add_decimal trim error_json run answers (record { index = 0; effects = [] }) in
        let tried : total (score a p c f) w ≤ n + posting p + c =
          attempt_by add_decimal trim error_json run answers (score a p c f)
            (score-IsSilent a p c f) budget (λ m. last) (λ k m. step k) n P
            (λ w cause h. omega arith)
            (λ w out h. let done = publish_run_bound out w in omega (arith, h, done)) afford in
        by_result (IsWithin {B = Result (Unit {0})} (score a p c f) (n + posting p + c + f)) r _ _
          (λ cause. let told = total-fail_run cause w in omega (arith, told))
          (λ _. omega (arith, tried))

  -- A run asks the provider at most once more than the tool rounds that its agent has.
  pub execute-asks :
      (agent : Agent)
      → agent_of add_decimal trim error_json run answers ≡ ok agent
      → total asks (execute add_decimal trim error_json run answers).0
        ≤ suc agent.max_tool_iterations
  execute-asks agent e =
      let bound =
        execute_bound 1 0 0 0 suc (omega arith) (λ k. omega arith) (suc agent.max_tool_iterations)
          (λ other q. omega (arith, ap rounds (sym q ∙ e))) in
      ground (arith, bound)
    where
      rounds : Result Agent → ℕ
      rounds (ok agent) = agent.max_tool_iterations
      rounds (threw cause) = 0

  -- A run publishes at most one message, and none in a sandbox that is not to publish.
  pub execute-publications :
      total publications (execute add_decimal trim error_json run answers).0
      ≤ (if run.sandboxed && run.unpublished then 0 else 1)
  execute-publications =
      let bound =
        execute_bound 0 1 0 0 (λ k. 0) (omega arith) (λ k. omega arith) 0
          (λ agent e. omega arith) in
      omega (arith, bound)
