-- ===== src/AgentRuntime/Run/Numbers.antt =====
-- The numbers of the stream frames in apps/agent-runtime/src/runtime.ts, and what leaves them alone:
-- the effects that are no frames, and the MCP calls.
use native.Mathlib.Numerals.{add-one}
use mathlib.Core.List.{append_assoc, append-nil}
use comamessenger.Prelude.{
  ℕ, zero, suc, ◌+◌, ◌≡◌, refl, sym, ap, ◌∙◌, inl, inr, List, [], ◌∷◌, ◌++◌, Bool-cases,
}
use comamessenger.Wire.{AgentPhase}
use comamessenger.AgentRuntime.Text.{Text}
use comamessenger.AgentRuntime.Run.{
  Cause, Result, AgentRun, Call, Effect, status, frame, mcp_started, mcp_called, mcp_finished,
  mcp_failed, Work, do_effect, has_chat, emit_status,
}
use comamessenger.AgentRuntime.Run.Cases.{by_result, by_test}
use comamessenger.AgentRuntime.Run.Tools.{McpAnswers, mcp_throws, mcp_returns, invoke_mcp_tool}

-- The numbers of the frames among the effects.
abbrev pub number_of : Effect → List ℕ
number_of (frame index delta reset done) = index ∷ []
number_of _ = []

unfoldable pub numbers : List Effect → List ℕ
numbers [] = []
numbers (e ∷ es) = number_of e ++ numbers es

pub numbers-snoc :
    (es : List Effect) (e : Effect) → numbers (es ++ e ∷ []) ≡ numbers es ++ number_of e
unfolding numbers
numbers-snoc [] e = append-nil (number_of e)
numbers-snoc (f ∷ es) e =
    ap (λ l. number_of f ++ l) (numbers-snoc es e)
    ∙ sym (append_assoc (number_of f) (numbers es) (number_of e))

-- From 1 to `n`.
unfoldable pub up_to : ℕ → List ℕ
up_to zero = []
up_to (suc n) = up_to n ++ suc n ∷ []

-- The frames are numbered from 1 up to the index, with no number left out.
abbrev pub IsNumbered : Work → Type 0
IsNumbered w = numbers w.effects ≡ up_to w.index

-- What keeps the numbering, whatever the work is.
abbrev pub KeepsNumbers : (Work → Work) → Type 0
KeepsNumbers f = (w : Work) → IsNumbered w → IsNumbered (f w)

pub do_effect-IsNumbered : (e : Effect) → number_of e ≡ [] → KeepsNumbers (do_effect e)
unfolding do_effect
do_effect-IsNumbered e q w h =
    numbers-snoc w.effects e
    ∙ ap (λ l. numbers w.effects ++ l) q
    ∙ append-nil (numbers w.effects)
    ∙ h

pub emit_status-IsNumbered :
    (run : AgentRun) (phase : AgentPhase) → KeepsNumbers (emit_status run phase)
unfolding emit_status
emit_status-IsNumbered run phase w h = elim (Bool-cases (has_chat run.chat_id)) [
  | inl e ↦ rw e (do_effect-IsNumbered (status phase) refl w h)
  | inr e ↦ rw e h
]

pub up_to_next : (n : ℕ) → up_to (n + 1) ≡ up_to n ++ (n + 1) ∷ []
unfolding up_to
up_to_next n = ap up_to (add-one n) ∙ ap (λ k. up_to n ++ k ∷ []) (sym (add-one n))

abbrev pub IsNumberedIn : {B : Type 0} → Work × B → Type 0
IsNumberedIn (w, b) = IsNumbered w

pub mcp_throws-IsNumbered :
    (call : Call) (cause : Cause) → KeepsNumbers (λ w. (mcp_throws call cause w).0)
unfolding mcp_throws
mcp_throws-IsNumbered call cause = do_effect-IsNumbered (mcp_failed call _) refl

pub mcp_returns-IsNumbered :
    (a : McpAnswers) (call : Call) (output : Text)
    → KeepsNumbers (λ w. (mcp_returns a call output w).0)
unfolding mcp_returns
mcp_returns-IsNumbered a call output w h =
    let told = do_effect-IsNumbered (mcp_finished call _) refl w h in
    by_result (IsNumberedIn {B = Result Text}) a.finished _ _
      (λ cause. mcp_throws-IsNumbered call cause _ told) (λ _. told)

pub invoke_mcp_tool-IsNumbered :
    (a : McpAnswers) (call : Call) → KeepsNumbers (λ w. (invoke_mcp_tool a call w).0)
unfolding invoke_mcp_tool
invoke_mcp_tool-IsNumbered a call w h =
    by_result (IsNumberedIn {B = Result Text}) a.registered _ _ (λ cause. started)
      (λ preview.
        by_test (IsNumberedIn {B = Result Text}) preview _ _
          (λ _. mcp_returns-IsNumbered a call a.preview _ started)
          (λ _.
            by_result (IsNumberedIn {B = Result Text}) a.called _ _
              (λ cause. mcp_throws-IsNumbered call cause _ called)
              (λ output. mcp_returns-IsNumbered a call output _ called)))
  where
    started : IsNumbered (do_effect (mcp_started call) w)
    started = do_effect-IsNumbered (mcp_started call) refl w h

    called : IsNumbered (do_effect (mcp_called call) (do_effect (mcp_started call) w))
    called = do_effect-IsNumbered (mcp_called call) refl (do_effect (mcp_started call) w) started
