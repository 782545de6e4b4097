-- ===== src/Store/Streams.antt =====
-- The text of an agent's message stream in packages/core/src/store.ts, frame by frame.
use mathlib.Core.List.{append_assoc, append-nil}
use comamessenger.Prelude.{
  ℕ, ◌<◌, String, ◌≡◌, ◌≢◌, refl, sym, ap, ◌∙◌, inl, inr, Option, none, some, false, ◌||◌, List, [],
  ◌∷◌, ◌++◌, arith, str_eq, eq_iff, if◌then◌else◌, Bool-cases,
}
use comamessenger.Prelude.Dict.{lookup, lookup-insert, lookup-delete}
use comamessenger.Store.State.{State, MessageStream, StreamFrame}
use comamessenger.Store.Ephemeral.{is_expired, is_next, stream_of, apply_message_stream}

module _ (parse : String → Option ℕ) (now : ℕ) where
  -- A frame that neither ends its stream nor is expired.
  abbrev pub IsLive : StreamFrame → Type 0
  IsLive f = (f.done ≡ false) × (is_expired (parse f.expires_at) now ≡ false)

  unfoldable pub apply_frames : List StreamFrame → State → State
  apply_frames [] s = s
  apply_frames (f ∷ fs) s = apply_frames fs (apply_message_stream parse now f s)

  -- Frames that continue the stream `id` after `last`, in order and with no reset.
  abbrev pub Continues : String → ℕ → List StreamFrame → Type 0
  Continues id last [] = Unit
  Continues id last (f ∷ fs) =
      (f.stream_id ≡ id) × IsLive f × (f.reset ≡ false) × (last < f.index) × Continues id f.index fs

  abbrev pub deltas : List StreamFrame → List ℕ
  deltas [] = []
  deltas (f ∷ fs) = f.delta ++ deltas fs

  abbrev pub last_index : ℕ → List StreamFrame → ℕ
  last_index n [] = n
  last_index n (f ∷ fs) = last_index f.index fs

  abbrev pub body_of : Option MessageStream → List ℕ
  body_of none = []
  body_of (some m) = m.body

  abbrev pub index_of : Option MessageStream → ℕ
  index_of none = 0
  index_of (some m) = m.index

  -- What the frame leaves of a stream.
  pub lookup-apply_message_stream :
      (id : String) (f : StreamFrame) (s : State)
      → lookup id (apply_message_stream parse now f s).message_streams ≡ (
          if str_eq f.stream_id id
          then (if f.done || is_expired (parse f.expires_at) now
              then none
              else if is_next parse now f (lookup id s.message_streams)
              then some (stream_of parse now f (lookup id s.message_streams))
              else lookup id s.message_streams)
          else lookup id s.message_streams)
  unfolding apply_message_stream
  lookup-apply_message_stream id f s =
      elim (Bool-cases (f.done || is_expired (parse f.expires_at) now)) [
        | inl e ↦ rw (e, lookup-delete)
        | inr e ↦ elim (Bool-cases (is_next parse now f (lookup f.stream_id s.message_streams))) [
          | inl fresh ↦ rw (e, fresh, lookup-insert) (ground (arith, eq_iff f.stream_id id))
          | inr stale ↦ rw (e, stale) (ground (arith, eq_iff f.stream_id id))
        ]
      ]

  -- A live frame that is next in its stream.
  step-body :
      (id : String) (f : StreamFrame) (s : State) (m : MessageStream)
      → lookup id s.message_streams ≡ some m
      → f.stream_id ≡ id
      → IsLive f
      → f.reset ≡ false
      → m.index < f.index
      → (m' : MessageStream) × (lookup id (apply_message_stream parse now f s).message_streams
          ≡ some m')
        × (m'.body ≡ m.body ++ f.delta)
        × (m'.index ≡ f.index)
  unfolding stream_of
  step-body id f s m e same (live, fresh) keep later = (
    stream_of parse now f (some m),
    lookup-apply_message_stream id f s
        ∙ rw (e, live, fresh) (ground (arith, eq_iff f.stream_id id)),
    ground arith,
    refl,
  )

  other-stream :
      (id other : String) (f : StreamFrame) (s : State)
      → f.stream_id ≡ id
      → other ≢ id
      → lookup other (apply_message_stream parse now f s).message_streams
        ≡ lookup other s.message_streams
  other-stream id other f s same ne =
      lookup-apply_message_stream other f s ∙ ground (arith, eq_iff f.stream_id other)

  -- Frames that continue a stream in order, without a reset, an end or an expiry, append their deltas
  -- to the stream's text in that order, leave it at the index of the last frame, and change no other
  -- stream.
  pub apply_frames-body :
      (id : String) (frames : List StreamFrame) (s : State) (m : MessageStream)
      → lookup id s.message_streams ≡ some m
      → Continues id m.index frames
      → ((m' : MessageStream) × (lookup id (apply_frames frames s).message_streams ≡ some m')
          × (m'.body ≡ m.body ++ deltas frames)
          × (m'.index ≡ last_index m.index frames))
        × ((other : String)
            → lookup other (apply_frames frames s).message_streams ≡ (
                if str_eq id other
                then lookup id (apply_frames frames s).message_streams
                else lookup other s.message_streams))
  unfolding apply_frames
  apply_frames-body id [] s m e h =
      ((m, e, sym (append-nil m.body), refl), λ other. ground (arith, eq_iff id other))
  apply_frames-body id (f ∷ fs) s m e (same, live, keep, later, rest) =
      let (m₁, e₁, b₁, i₁) = step-body id f s m e same live keep later in
      let ((m₂, e₂, b₂, i₂), others) =
        apply_frames-body id fs (apply_message_stream parse now f s) m₁ e₁ (rw i₁ rest) in
      (
        (
          m₂,
          e₂,
          b₂ ∙ ap (λ b. b ++ deltas fs) b₁ ∙ append_assoc m.body f.delta (deltas fs),
          i₂ ∙ ap (λ n. last_index n fs) i₁,
        ),
        λ other. others other ∙ ground (arith, eq_iff id other, other-stream id other f s same),
      )
