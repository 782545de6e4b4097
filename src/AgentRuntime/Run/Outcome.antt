-- ===== src/AgentRuntime/Run/Outcome.antt =====
-- What a run of apps/agent-runtime/src/runtime.ts reports to the API in the end.
use comamessenger.Prelude.{
  ℕ, Bool, true, false, if◌then◌else◌, ◌+◌, ◌≤◌, String, ◌≡◌, refl, sym, ◌∙◌, Option, [], arith,
}
use comamessenger.AgentRuntime.Text.{Text}
use comamessenger.AgentRuntime.Run.{Result, ok, threw, ToolError, AgentRun, Work}
use comamessenger.AgentRuntime.Run.Loop.{
  Answers, Output, publish_output, complete_run, publish_run, attempt, fail_run, execute,
}
use comamessenger.AgentRuntime.Run.Cases.{by_result}
use comamessenger.AgentRuntime.Run.Counts.{total}
use comamessenger.AgentRuntime.Run.Reports.{
  completions, failures, score-IsSilent, IsWithin, attempt_by,
}
use comamessenger.AgentRuntime.Run.Ends.{
  publish_output_bound, total-complete_run, publish_run_bound, total-fail_run,
}

abbrev is_accepted : Result (Unit {0}) → Bool
is_accepted (ok done) = true
is_accepted (threw cause) = false

within_two :
    (c : Result (Unit {0})) (n : ℕ)
    → (c ≡ ok tt → n ≤ 1)
    → n ≤ 2
    → n ≤ (if is_accepted c then 1 else 2)
within_two (ok done) n h k = h refl
within_two (threw cause) n h k = k

-- A completion or a failure is reported, one of each at most, and one in all unless the API refuses
-- the completion.
abbrev pub IsReported : Answers → Work → Type 0
IsReported answers w =
    (total completions w ≤ 1)
    × (total failures w ≤ 1)
    × (1 ≤ total completions w + total failures w)
    × (total completions w + total failures w ≤ (if is_accepted answers.complete then 1 else 2))

module _ (add_decimal : String → String → String) (trim : Text → Text)
    (error_json : ToolError → Text) (run : AgentRun) (answers : Answers) where
  -- What is reported when the `try` ends: a completion, or none if the API has not refused it.
  abbrev IsTried : Work × Result (Unit {0}) → Type 0
  IsTried (w, ok _) = total completions w ≡ 1
  IsTried (w, threw cause) = answers.complete ≡ ok tt → total completions w ≡ 0

  completed-IsTried :
      (r : Result (Unit {0})) (w : Work)
      → answers.complete ≡ r
      → total completions w ≡ 1
      → IsTried (w, r)
  completed-IsTried (ok u) w e h = h
  completed-IsTried (threw cause) w e h = λ accepted. absurd (ground (arith, sym accepted ∙ e))

  complete_run-IsTried :
      (out : Output) (posted : Option String) (w : Work)
      → total completions w ≡ 0
      → IsTried (complete_run add_decimal trim error_json run answers out posted w)
  unfolding complete_run
  complete_run-IsTried out posted w h =
      let told = total-complete_run add_decimal trim error_json run answers 0 0 1 0 out posted w in
      completed-IsTried answers.complete
        (complete_run add_decimal trim error_json run answers out posted w).0 refl
        (omega (arith, told))

  publish_run-IsTried :
      (w : Work) (out : Output)
      → total completions w ≤ 0
      → IsTried (publish_run add_decimal trim error_json run answers out w)
  unfolding publish_run
  publish_run-IsTried w out h =
      let (w', r) = publish_output add_decimal trim error_json run answers out w in
      let bound = publish_output_bound add_decimal trim error_json run answers 0 0 1 0 out w in
      let none_yet : total completions w' ≡ 0 = ground (arith, bound) in
      by_result IsTried r _ _ (λ cause _. none_yet)
        (λ posted. complete_run-IsTried out posted w' none_yet)

  attempt-IsTried :
      IsTried (attempt add_decimal trim error_json run answers (record { index = 0; effects = [] }))
  attempt-IsTried =
      attempt_by add_decimal trim error_json run answers completions (score-IsSilent 0 0 1 0)
        (λ k. 0) (λ m. omega arith) (λ k m. omega arith) 0 IsTried (λ w cause h _. omega arith)
        publish_run-IsTried (λ agent e. omega arith)

  attempt_bounds :
      let w =
        (attempt add_decimal trim error_json run answers (record { index = 0; effects = [] })).0 in
      (total failures w ≡ 0) × (total completions w ≤ 1)
  attempt_bounds = (omega (arith, failing), completing)
    where
      failing :
          IsWithin failures 0
            (attempt add_decimal trim error_json run answers (record { index = 0; effects = [] }))
      failing =
          attempt_by add_decimal trim error_json run answers failures (score-IsSilent 0 0 0 1)
            (λ k. 0) (λ m. omega arith) (λ k m. omega arith) 0
            (IsWithin {B = Result (Unit {0})} failures 0) (λ w cause h. h)
            (λ w out h.
              let done = publish_run_bound add_decimal trim error_json run answers 0 0 0 1 out w in
              ground (arith, done))
            (λ agent e. omega arith)

      completing :
          IsWithin completions 1
            (attempt add_decimal trim error_json run answers (record { index = 0; effects = [] }))
      completing =
          attempt_by add_decimal trim error_json run answers completions (score-IsSilent 0 0 1 0)
            (λ k. 0) (λ m. omega arith) (λ k m. omega arith) 0
            (IsWithin {B = Result (Unit {0})} completions 1) (λ w cause h. omega arith)
            (λ w out h.
              let done = publish_run_bound add_decimal trim error_json run answers 0 0 1 0 out w in
              ground (arith, done))
            (λ agent e. omega arith)

  abbrev IsReportedIn : Work × Result (Unit {0}) → Type 0
  IsReportedIn (w, r) = IsReported answers w

  catch-IsReported :
      (w : Work) (r : Result (Unit {0}))
      → IsTried (w, r)
      → (total failures w ≡ 0) × (total completions w ≤ 1)
      → IsReportedIn (elim r [
        | ok u ↦ (w, ok tt)
        | threw cause ↦ fail_run add_decimal trim error_json run answers cause w
      ])
  catch-IsReported w (ok u) once (none_failed, bound) = (
    bound,
    omega arith,
    omega arith,
    within_two answers.complete _ (λ accepted. omega arith) (omega arith),
  )
  catch-IsReported w (threw cause) once (none_failed, bound) =
      let w' = (fail_run add_decimal trim error_json run answers cause w).0 in
      let failing : total failures w' ≡ 1 =
        omega (arith, total-fail_run add_decimal trim error_json run answers 0 0 0 1 cause w) in
      let completing : total completions w' ≡ total completions w =
        omega (arith, total-fail_run add_decimal trim error_json run answers 0 0 1 0 cause w) in
      (
        omega arith,
        omega arith,
        omega arith,
        within_two answers.complete _ (λ accepted. omega (arith, once accepted)) (omega arith),
      )

  -- A run reports at least one of a completion and a failure, each at most once, and exactly one of
  -- them if the API accepts the completion.
  pub execute-IsReported : IsReported answers (execute add_decimal trim error_json run answers).0
  unfolding execute
  execute-IsReported =
      let (w, r) =
        attempt add_decimal trim error_json run answers (record { index = 0; effects = [] }) in
      catch-IsReported w r attempt-IsTried attempt_bounds
