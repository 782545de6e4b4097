-- ===== src/AgentRuntime/Run/Seen.antt =====
-- What a client's store (packages/core/src/store.ts) shows of the frames that a round of a run
-- (apps/agent-runtime/src/runtime.ts) sends, when they come one after another.
use mathlib.Core.List.{append_assoc, append-nil, append_cancel_left}
use comamessenger.Prelude.{
  ℕ, ◌+◌, ◌≤◌, String, ◌≡◌, refl, sym, ap, ◌∙◌, ◌⊎◌, inl, inr, Option, none, some, Bool, true,
  false, List, [], ◌∷◌, ◌++◌, arith, eq_refl, if◌then◌else◌,
}
use comamessenger.Prelude.Dict.{lookup}
use comamessenger.Wire.{streaming, AgentPhase}
use comamessenger.Store.State.{State, MessageStream, StreamFrame}
use comamessenger.Store.Ephemeral.{is_expired, is_next, stream_of, apply_message_stream}
use comamessenger.Store.Streams.{apply_frames, lookup-apply_message_stream}
use comamessenger.AgentRuntime.Text.{Text, split_streaming_delta}
use comamessenger.AgentRuntime.Coalescer
use comamessenger.AgentRuntime.Coalescer.{Coalescer, Happening, happen, close, deltas}
use comamessenger.AgentRuntime.Run.{
  ToolError, AgentRun, ChatMessage, Effect, frame, status, asked, Work, do_effect, has_chat,
  emit_status, emit_streaming, emit_parts, emit_deltas,
}
use comamessenger.AgentRuntime.Run.Loop.{Answers, stream_all, ask_provider}
use comamessenger.AgentRuntime.Run.Shown.{
  shown, shown-snoc, text_of, shown-emit_streaming, shown-stream_all,
}

-- The frame that the server passes on, with the stream, the run and the expiry that stand in `t`.
abbrev frame_of : StreamFrame → Effect → List StreamFrame
frame_of t (frame index delta reset done) =
    record t { index = index; delta = delta; reset = reset; done = done } ∷ []
frame_of t _ = []

unfoldable frames_of : StreamFrame → List Effect → List StreamFrame
frames_of t [] = []
frames_of t (e ∷ es) = frame_of t e ++ frames_of t es

frames_of-snoc :
    (t : StreamFrame) (es : List Effect) (e : Effect)
    → frames_of t (es ++ e ∷ []) ≡ frames_of t es ++ frame_of t e
unfolding frames_of
frames_of-snoc t [] e = append-nil (frame_of t e)
frames_of-snoc t (f ∷ es) e =
    ap (λ l. frame_of t f ++ l) (frames_of-snoc t es e)
    ∙ sym (append_assoc (frame_of t f) (frames_of t es) (frame_of t e))

module _ (parse : String → Option ℕ) (now : ℕ) (t : StreamFrame) (s : State) where
  -- The store of a client that has got the frames of a work.
  unfoldable pub seen : Work → State
  unfolding apply_frames frames_of
  seen w = apply_frames parse now (frames_of t w.effects) s

  apply_frames-append :
      (fs gs : List StreamFrame) (s : State)
      → apply_frames parse now (fs ++ gs) s
        ≡ apply_frames parse now gs (apply_frames parse now fs s)
  unfolding apply_frames
  apply_frames-append [] gs s = refl
  apply_frames-append (f ∷ fs) gs s = apply_frames-append fs gs (apply_message_stream parse now f s)

  seen-do_effect :
      (e : Effect) (w : Work)
      → seen (do_effect e w) ≡ apply_frames parse now (frame_of t e) (seen w)
  unfolding seen do_effect
  seen-do_effect e w =
      ap (λ fs. apply_frames parse now fs s) (frames_of-snoc t w.effects e)
      ∙ apply_frames-append (frames_of t w.effects) (frame_of t e) s

  abbrev stream : Work → Option MessageStream
  stream w = lookup t.stream_id (seen w).message_streams

  -- The next frame is not one that the store has got already.
  abbrev pub IsAhead : Work → Type 0
  IsAhead w = (stream w ≡ none) ⊎ ((m : MessageStream) × (stream w ≡ some m) × (m.index ≤ w.index))

  -- The stream is at the frame that has been sent last, and has the text that was shown behind `before`.
  abbrev Tracks : Text → Work → Type 0
  Tracks before w =
      (m : MessageStream) × (stream w ≡ some m)
      × (m.index ≡ w.index)
      × (before ++ m.body ≡ shown w.effects)

  module _ (live : is_expired (parse t.expires_at) now ≡ false) (run : AgentRun)
      (chat : has_chat run.chat_id ≡ true) where
    -- What a frame that is no end leaves of the stream.
    stream-emit_streaming :
        (delta : Text) (reset : Bool) (w : Work)
        → let f : StreamFrame = record t {
          index = w.index + 1;
          delta = delta;
          reset = reset;
          done = false;
        } in
          stream (emit_streaming run delta reset false w) ≡ (
            if is_next parse now f (stream w)
            then some (stream_of parse now f (stream w))
            else stream w)
    unfolding emit_streaming apply_frames seen
    stream-emit_streaming delta reset w =
        let f : StreamFrame = record t {
          index = w.index + 1;
          delta = delta;
          reset = reset;
          done = false;
        } in
        rw chat (
          ap (λ (u : State). lookup t.stream_id u.message_streams)
            (seen-do_effect (frame (w.index + 1) delta reset false)
              (record w { index = w.index + 1 }))
          ∙ lookup-apply_message_stream parse now t.stream_id f (seen w)
          ∙ rw (eq_refl t.stream_id, live) refl)

    index-emit_streaming :
        (delta : Text) (reset done : Bool) (w : Work)
        → (emit_streaming run delta reset done w).index ≡ w.index + 1
    unfolding emit_streaming do_effect
    index-emit_streaming delta reset done w = rw chat refl

    -- A round starts its stream again.
    emit_reset-Tracks :
        (w : Work) → IsAhead w → Tracks (shown w.effects) (emit_streaming run [] true false w)
    unfolding stream_of
    emit_reset-Tracks w ahead =
        let f : StreamFrame = record t {
          index = w.index + 1;
          delta = [];
          reset = true;
          done = false;
        } in
        let told = shown-emit_streaming run chat [] true false w in
        let counted = index-emit_streaming [] true false w in
        elim ahead [
          | inl e ↦ (
            stream_of parse now f none,
            stream-emit_streaming [] true w ∙ rw e refl,
            sym counted,
            sym told,
          )
          | inr (m, e, i) ↦ (
            stream_of parse now f (some m),
            stream-emit_streaming [] true w ∙ rw e (ground (arith, i)),
            sym counted,
            sym told,
          )
        ]

    emit_streaming-Tracks :
        (before delta : Text) (w : Work)
        → Tracks before w
        → Tracks before (emit_streaming run delta false false w)
    unfolding stream_of
    emit_streaming-Tracks before delta w (m, e, i, b) =
        let f : StreamFrame = record t {
          index = w.index + 1;
          delta = delta;
          reset = false;
          done = false;
        } in
        (
          stream_of parse now f (some m),
          stream-emit_streaming delta false w ∙ rw e (ground (arith, i)),
          sym (index-emit_streaming delta false false w),
          sym (append_assoc before m.body delta)
              ∙ ap (λ l. l ++ delta) b
              ∙ sym (shown-emit_streaming run chat delta false false w),
        )

    -- What is no frame changes nothing that a client sees.
    other-Tracks :
        (before : Text) (e : Effect) (w : Work)
        → frame_of t e ≡ []
        → text_of e ≡ []
        → Tracks before w
        → Tracks before (do_effect e w)
    unfolding apply_frames do_effect
    other-Tracks before e w q r (m, f, i, b) = (
      m,
      ap (λ (u : State). lookup t.stream_id u.message_streams)
            (seen-do_effect e w ∙ ap (λ fs. apply_frames parse now fs (seen w)) q)
          ∙ f,
      i,
      b
          ∙ sym (
              shown-snoc w.effects e
              ∙ ap (λ l. shown w.effects ++ l) r
              ∙ append-nil (shown w.effects)),
    )

    emit_status-Tracks :
        (before : Text) (phase : AgentPhase) (w : Work)
        → Tracks before w
        → Tracks before (emit_status run phase w)
    unfolding emit_status
    emit_status-Tracks before phase w h = rw chat (other-Tracks before (status phase) w refl refl h)

    emit_parts-Tracks :
        (before : Text) (parts : List Text) (w : Work)
        → Tracks before w
        → Tracks before (emit_parts run parts w)
    unfolding emit_parts
    emit_parts-Tracks before [] w h = h
    emit_parts-Tracks before (part ∷ parts) w h =
        emit_parts-Tracks before parts _ (emit_streaming-Tracks before part w h)

    emit_deltas-Tracks :
        (before : Text) (ds : List Text) (w : Work)
        → Tracks before w
        → Tracks before (emit_deltas run ds w)
    unfolding emit_deltas
    emit_deltas-Tracks before [] w h = h
    emit_deltas-Tracks before (d ∷ ds) w h =
        emit_deltas-Tracks before ds _ (emit_parts-Tracks before (split_streaming_delta d) w h)

    -- What opens a round shows nothing.
    shown-begun :
        (messages : List ChatMessage) (w : Work)
        → shown
            (do_effect
              (asked messages)
              (emit_status run streaming (emit_streaming run [] true false w))).effects
          ≡ shown w.effects
    unfolding emit_status do_effect
    shown-begun messages w =
        let reset = emit_streaming run [] true false w in
        rw chat (
          shown-snoc (reset.effects ++ status streaming ∷ []) (asked messages)
          ∙ append-nil (shown (reset.effects ++ status streaming ∷ []))
          ∙ shown-snoc reset.effects (status streaming)
          ∙ append-nil (shown reset.effects)
          ∙ shown-emit_streaming run chat [] true false w
          ∙ append-nil (shown w.effects))

    module _ (add_decimal : String → String → String) (trim : Text → Text)
        (error_json : ToolError → Text) (answers : Answers) where
      stream_all-Tracks :
          (before : Text) (hs : List Happening) (c : Coalescer) (w : Work)
          → Tracks before w
          → Tracks before (stream_all add_decimal trim error_json run answers hs c w)
      unfolding stream_all
      stream_all-Tracks before [] c w h = emit_deltas-Tracks before (close c).1 w h
      stream_all-Tracks before (x ∷ hs) c w h =
          stream_all-Tracks before hs _ _ (emit_deltas-Tracks before (happen x c).1 w h)

      -- In a chat, a client that gets the frames of a run one after another, before they expire, shows at
      -- the end of a round exactly the text that the provider has streamed in that round, at the index of
      -- the last frame, if what it showed before was not ahead of the run.
      pub ask_provider-seen :
          (messages : List ChatMessage) (w : Work)
          → IsAhead w
          → let w' = (ask_provider add_decimal trim error_json run answers messages w).0 in
            (m : MessageStream) × (lookup t.stream_id (seen w').message_streams ≡ some m)
            × (m.body ≡ deltas (answers.provider messages).happenings)
            × (m.index ≡ w'.index)
      unfolding ask_provider
      ask_provider-seen messages w ahead =
          let before = shown w.effects in
          let reset = emit_streaming run [] true false w in
          let begun = do_effect (asked messages) (emit_status run streaming reset) in
          let hs = (answers.provider messages).happenings in
          let opened =
            other-Tracks before (asked messages) _ refl refl
              (emit_status-Tracks before streaming reset (emit_reset-Tracks w ahead)) in
          let (m, e, i, b) = stream_all-Tracks before hs Coalescer.create begun opened in
          let bodies = append_cancel_left before m.body (deltas hs) (
            b
            ∙ shown-stream_all run chat add_decimal trim error_json answers hs begun
            ∙ ap (λ l. l ++ deltas hs) (shown-begun messages w)) in
          (m, e, bodies, i)
