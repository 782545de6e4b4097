-- ===== src/AgentRuntime/Run/Shown.antt =====
-- The text that the frames of a round carry in apps/agent-runtime/src/runtime.ts.
use mathlib.Core.List.{append_assoc, append-nil}
use comamessenger.Prelude.{◌+◌, String, ◌≡◌, sym, ap, ◌∙◌, Bool, true, false, List, [], ◌∷◌, ◌++◌}
use comamessenger.AgentRuntime.Text.{Text, split_streaming_delta}
use comamessenger.AgentRuntime.Text.Split.{joined, joined-append, split_streaming_delta_lem}
use comamessenger.AgentRuntime.Coalescer
use comamessenger.AgentRuntime.Coalescer.{Coalescer, Happening, happen, close, deltas, run-close}
use comamessenger.AgentRuntime.Run.{
  ToolError, AgentRun, Effect, frame, Work, do_effect, has_chat, emit_streaming, emit_parts,
  emit_deltas,
}
use comamessenger.AgentRuntime.Run.Loop.{Answers, stream_all}

-- The text of a frame.
abbrev pub text_of : Effect → Text
text_of (frame index delta reset done) = delta
text_of _ = []

-- The texts of the frames, one behind the other.
unfoldable pub shown : List Effect → Text
shown [] = []
shown (e ∷ es) = text_of e ++ shown es

pub shown-snoc : (es : List Effect) (e : Effect) → shown (es ++ e ∷ []) ≡ shown es ++ text_of e
unfolding shown
shown-snoc [] e = append-nil (text_of e)
shown-snoc (f ∷ es) e =
    ap (λ l. text_of f ++ l) (shown-snoc es e)
    ∙ sym (append_assoc (text_of f) (shown es) (text_of e))

module _ (run : AgentRun) (chat : has_chat run.chat_id ≡ true) where
  pub shown-emit_streaming :
      (delta : Text) (reset done : Bool) (w : Work)
      → shown (emit_streaming run delta reset done w).effects ≡ shown w.effects ++ delta
  unfolding emit_streaming do_effect
  shown-emit_streaming delta reset done w =
      rw chat (shown-snoc w.effects (frame (w.index + 1) delta reset done))

  shown-emit_parts :
      (parts : List Text) (w : Work)
      → shown (emit_parts run parts w).effects ≡ shown w.effects ++ joined parts
  unfolding emit_parts joined
  shown-emit_parts [] w = sym (append-nil (shown w.effects))
  shown-emit_parts (p ∷ ps) w =
      shown-emit_parts ps (emit_streaming run p false false w)
      ∙ ap (λ l. l ++ joined ps) (shown-emit_streaming p false false w)
      ∙ append_assoc (shown w.effects) p (joined ps)

  shown-emit_deltas :
      (ds : List Text) (w : Work)
      → shown (emit_deltas run ds w).effects ≡ shown w.effects ++ joined ds
  unfolding emit_deltas joined
  shown-emit_deltas [] w = sym (append-nil (shown w.effects))
  shown-emit_deltas (d ∷ ds) w =
      shown-emit_deltas ds (emit_parts run (split_streaming_delta d) w)
      ∙ ap (λ l. l ++ joined ds)
          (shown-emit_parts (split_streaming_delta d) w
            ∙ ap (λ l. shown w.effects ++ l) (split_streaming_delta_lem d).0)
      ∙ append_assoc (shown w.effects) d (joined ds)

  module _ (add_decimal : String → String → String) (trim : Text → Text)
      (error_json : ToolError → Text) (answers : Answers) where
    shown-stream_all_from :
        (hs : List Happening) (c : Coalescer) (w : Work)
        → shown (stream_all add_decimal trim error_json run answers hs c w).effects
          ≡ shown w.effects ++ joined ((Coalescer.run hs c).1 ++ (close (Coalescer.run hs c).0).1)
    unfolding stream_all Coalescer.run
    shown-stream_all_from [] c w = shown-emit_deltas (close c).1 w
    shown-stream_all_from (h ∷ hs) c w =
        let (c', first) = happen h c in
        let rest = (Coalescer.run hs c').1 ++ (close (Coalescer.run hs c').0).1 in
        shown-stream_all_from hs c' (emit_deltas run first w)
        ∙ ap (λ l. l ++ joined rest) (shown-emit_deltas first w)
        ∙ append_assoc (shown w.effects) (joined first) (joined rest)
        ∙ ap (λ l. shown w.effects ++ l)
            (sym (joined-append first rest)
              ∙ ap joined (
                  sym
                    (append_assoc first (Coalescer.run hs c').1 (close (Coalescer.run hs c').0).1)))

    -- In a chat, the frames of one round carry exactly the text that the provider streams, in its order,
    -- however the deltas are cut and whenever the timeouts of the coalescer fall.
    pub shown-stream_all :
        (hs : List Happening) (w : Work)
        → shown (stream_all add_decimal trim error_json run answers hs Coalescer.create w).effects
          ≡ shown w.effects ++ deltas hs
    shown-stream_all hs w =
        shown-stream_all_from hs Coalescer.create w
        ∙ ap (λ l. shown w.effects ++ l) (run-close hs).0
