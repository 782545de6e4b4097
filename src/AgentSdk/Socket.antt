-- ===== src/AgentSdk/Socket.antt =====
-- `RuntimeSocket` of packages/agent-sdk/src/index.ts. What goes over the socket, the callback and the
-- closing are effects.
use mathlib.Core.List.{append_assoc, append-nil}
use comamessenger.Prelude.{
  ℕ, max, String, ◌≡◌, refl, sym, ap, ◌∙◌, Option, none, some, Bool, true, false, List, [], ◌∷◌,
  ◌++◌, if◌then◌else◌,
}

-- The keys of a run that its frames carry.
pub record Run : Type 0 where
  pub id : String
  pub lease_token : String
  pub chat_id : Option String
  pub thread_root_id : Option String

pub data OutFrame : Type 0 where
  auth : String → ℕ → OutFrame
  agent_status : Run → String → OutFrame
  message_streaming : Run → String → ℕ → String → Bool → Bool → OutFrame
  ack : ℕ → OutFrame

pub data InFrame : Type 0 where
  event : ℕ → InFrame
  -- with `fatal`
  error : Bool → InFrame
  other : InFrame

pub data Effect : Type 0 where
  sent : OutFrame → Effect
  handed : InFrame → Effect
  closed : Effect

-- `is_open` is `readyState === WebSocket.OPEN`.
pub record RuntimeSocket : Type 0 where
  pub has_socket : Bool
  pub is_open : Bool
  pub last_ack : ℕ
  pub effects : List Effect

abbrev pub emit : Effect → RuntimeSocket → RuntimeSocket
emit e s = record s { effects = s.effects ++ e ∷ [] }

-- `connect` up to the events of its socket
unfoldable pub connect : RuntimeSocket → RuntimeSocket
connect s = record s { has_socket = true; is_open = false }

-- the listener of `open`
unfoldable pub opened : String → ℕ → RuntimeSocket → RuntimeSocket
opened token last_seq s = emit (sent (auth token last_seq)) (record s { is_open = true })

-- the listener of `message`
unfoldable pub receive : InFrame → RuntimeSocket → RuntimeSocket
receive (event seq) s =
    let s' = emit (handed (event seq)) s in
    emit (sent (ack (max s.last_ack seq))) (record s' { last_ack = max s.last_ack seq })
receive (error fatal) s =
    let s' = emit (handed (error fatal)) s in if fatal then emit closed s' else s'
receive other s = emit (handed other) s

unfoldable pub send : OutFrame → RuntimeSocket → RuntimeSocket
send frame s = if s.has_socket then (if s.is_open then emit (sent frame) s else s) else s

-- `status`
unfoldable pub send_status : Run → String → RuntimeSocket → RuntimeSocket
unfolding send
send_status run state = send (agent_status run state)

-- `x ?? false`
abbrev pub flag : Option Bool → Bool
flag none = false
flag (some b) = b

-- `stream`
unfoldable pub stream :
    Run → String → ℕ → String → Option Bool → Option Bool → RuntimeSocket → RuntimeSocket
unfolding send
stream run stream_id index delta reset done =
    send (message_streaming run stream_id index delta (flag reset) (flag done))

unfoldable pub close : RuntimeSocket → RuntimeSocket
close s = if s.has_socket then record (emit closed s) { has_socket = false } else s

unfoldable pub receive_all : List InFrame → RuntimeSocket → RuntimeSocket
receive_all [] s = s
receive_all (f ∷ fs) s = receive_all fs (receive f s)

-- The acknowledgements among the effects.
abbrev ack_of : Effect → List ℕ
ack_of (sent (ack seq)) = seq ∷ []
ack_of _ = []

unfoldable pub acks : List Effect → List ℕ
acks [] = []
acks (e ∷ es) = ack_of e ++ acks es

-- The highest number so far, at each event.
unfoldable pub maxima : ℕ → List InFrame → List ℕ
maxima n [] = []
maxima n (event seq ∷ fs) = max n seq ∷ maxima (max n seq) fs
maxima n (error fatal ∷ fs) = maxima n fs
maxima n (other ∷ fs) = maxima n fs

acks-snoc : (es : List Effect) (e : Effect) → acks (es ++ e ∷ []) ≡ acks es ++ ack_of e
unfolding acks
acks-snoc [] e = append-nil (ack_of e)
acks-snoc (f ∷ es) e =
    ap (λ l. ack_of f ++ l) (acks-snoc es e) ∙ sym (append_assoc (ack_of f) (acks es) (ack_of e))

quiet-snoc : (es : List Effect) (e : Effect) → ack_of e ≡ [] → acks (es ++ e ∷ []) ≡ acks es
quiet-snoc es e q = acks-snoc es e ∙ ap (λ l. acks es ++ l) q ∙ append-nil (acks es)

error-acks :
    (fatal : Bool) (s : RuntimeSocket) → acks (receive (error fatal) s).effects ≡ acks s.effects
unfolding receive
error-acks true s =
    quiet-snoc (s.effects ++ handed (error true) ∷ []) closed refl
    ∙ quiet-snoc s.effects (handed (error true)) refl
error-acks false s = quiet-snoc s.effects (handed (error false)) refl

error-last_ack :
    (fatal : Bool) (s : RuntimeSocket) → (receive (error fatal) s).last_ack ≡ s.last_ack
unfolding receive
error-last_ack true s = refl
error-last_ack false s = refl

-- Each event is acknowledged once, in the order in which the events come, by the highest number that
-- has come up to it; no other frame is acknowledged.
pub acks-receive_all :
    (frames : List InFrame) (s : RuntimeSocket)
    → acks (receive_all frames s).effects ≡ acks s.effects ++ maxima s.last_ack frames
unfolding receive_all maxima
acks-receive_all [] s = sym (append-nil (acks s.effects))
acks-receive_all (event seq ∷ fs) s =
    acks-receive_all fs (receive (event seq) s)
    ∙ unfold receive in
      (ap (λ l. l ++ maxima (max s.last_ack seq) fs)
          (acks-snoc (s.effects ++ handed (event seq) ∷ []) (sent (ack (max s.last_ack seq)))
            ∙ ap (λ l. l ++ max s.last_ack seq ∷ [])
                (quiet-snoc s.effects (handed (event seq)) refl))
        ∙ append_assoc (acks s.effects) (max s.last_ack seq ∷ []) (maxima (max s.last_ack seq) fs))
acks-receive_all (error fatal ∷ fs) s =
    acks-receive_all fs (receive (error fatal) s)
    ∙ rw (error-acks fatal s, error-last_ack fatal s) refl
acks-receive_all (other ∷ fs) s =
    acks-receive_all fs (receive other s)
    ∙ unfold receive in
      ap (λ l. l ++ maxima s.last_ack fs) (quiet-snoc s.effects (handed other) refl)
