-- ===== src/AgentConnection.antt =====
-- `AgentConnectionManager` of apps/agent-runtime/src/connection.ts. An `await` splits a method, and
-- what comes behind it is a function of its own, so that the frames of a socket can be interleaved as
-- the runtime interleaves them. Calls of the API, the socket and the callbacks are effects.
pub mod Inputs
pub mod Acks
mod Tests
use comamessenger.Prelude.{
  ℕ, ◌+◌, ◌*◌, ◌^◌, min, max, String, Option, none, some, Bool, true, false, List, [], ◌∷◌, ◌++◌,
  if◌then◌else◌,
}
use comamessenger.Wire.{AgentPhase}

-- the keys that `agentStatus` and `messageStreaming` share
pub record Lease : Type 0 where
  pub run_id : String
  pub lease_token : String
  pub chat_id : String
  pub thread_root_id : Option String

pub data OutFrame : Type 0 where
  auth : Option String → ℕ → OutFrame
  agent_status : Lease → AgentPhase → OutFrame
  message_streaming : Lease → String → ℕ → String → Bool → Bool → OutFrame
  ack : ℕ → OutFrame

pub record ProtocolError : Type 0 where
  pub code : String
  pub message : String
  pub fatal : Bool

-- What comes over the socket. `unreadable` is text that JSON refuses; a code or message of an error
-- that is no text is `none`.
pub data InFrame : Type 0 where
  unreadable hello other : InFrame
  event : ℕ → InFrame
  resync_required : ℕ → InFrame
  error : Option String → Option String → Bool → InFrame

pub data Effect : Type 0 where
  -- `agentRuntimeCheckpoint`
  asked : Effect
  sent : OutFrame → Effect
  closed : ℕ → Effect
  -- `onEvent`
  handed : ℕ → Effect
  -- `updateAgentRuntimeCheckpoint`
  saving : ℕ → Effect
  protocol_error : ProtocolError → Effect
  -- a `setTimeout` of `connect`, with the whole milliseconds of its delay
  retry_in : ℕ → Effect

-- A socket by its number, with `readyState === 1`, and the checkpoint that `onopen` holds.
pub record Socket : Type 0 where
  pub number : ℕ
  pub is_open : Bool
  pub checkpoint : ℕ

pub record Manager : Type 0 where
  pub socket : Option Socket
  pub stopped : Bool
  pub reconnect_attempt : ℕ
  pub last_ack : ℕ
  pub effects : List Effect

unfoldable pub create : Manager
create = record { socket = none; stopped = true; reconnect_attempt = 0; last_ack = 0; effects = [] }

abbrev pub emit : Effect → Manager → Manager
emit e c = record c { effects = c.effects ++ e ∷ [] }

-- `connect` up to its `await`
unfoldable pub connect : Manager → Manager
connect c = if c.stopped then c else emit asked c

unfoldable pub start : Manager → Manager
unfolding connect
start c = if c.stopped then connect (record c { stopped = false }) else c

-- `this.socket?.close()`
unfoldable pub close_socket : Manager → Manager
close_socket c = elim c.socket [
  | none ↦ c
  | some s ↦ emit (closed s.number) (record c { socket = some (record s { is_open = false }) })
]

unfoldable pub stop : Manager → Manager
unfolding close_socket
stop c = record (close_socket (record c { stopped = true })) { socket = none }

abbrev is_ready : Option Socket → Bool
is_ready none = false
is_ready (some s) = s.is_open

unfoldable pub send : OutFrame → Manager → Manager
send frame c = if is_ready c.socket then emit (sent frame) c else c

unfoldable pub send_status : Lease → AgentPhase → Manager → Manager
unfolding send
send_status lease phase = send (agent_status lease phase)

unfoldable pub send_streaming : Lease → String → ℕ → String → Bool → Bool → Manager → Manager
unfolding send
send_streaming lease stream_id index delta reset done =
    send (message_streaming lease stream_id index delta reset done)

-- `Math.min(30_000, 500 * 2 ** attempt)`
unfoldable pub backoff : ℕ → ℕ
backoff attempt = min 30000 (500 * 2 ^ attempt)

-- `jitter` is what `Math.random() * 250` adds to the delay, in whole milliseconds.
unfoldable pub reconnect : ℕ → Manager → Manager
unfolding backoff
reconnect jitter c =
    if c.stopped
    then c
    else emit (retry_in (backoff c.reconnect_attempt + jitter))
        (record c { socket = none; reconnect_attempt = c.reconnect_attempt + 1 })

-- `connect` after its `await`: the new socket with its checkpoint, or the `catch`
unfoldable pub connected : ℕ → ℕ → Manager → Manager
connected number checkpoint c = record c {
  socket = some (record { number = number; is_open = false; checkpoint = checkpoint });
}

unfoldable pub connect_failed : ℕ → Manager → Manager
unfolding reconnect
connect_failed = reconnect

-- `onopen` of the current socket, with the API's token at that time
unfoldable pub on_open : Option String → Manager → Manager
on_open token c = elim c.socket [
  | none ↦ c
  | some s ↦
      emit (sent (auth token s.checkpoint))
        (record c { socket = some (record s { is_open = true }) })
]

-- `onclose`
unfoldable pub on_close : ℕ → Manager → Manager
unfolding reconnect
on_close = reconnect

abbrev pub or_else : Option String → String → String
or_else none d = d
or_else (some s) d = s

-- `receive` up to its first `await`
unfoldable pub receive : InFrame → Manager → Manager
unfolding close_socket
receive unreadable c = close_socket (
    emit
      (protocol_error (record {
        code = "invalid_server_frame";
        message = "Core sent an invalid WebSocket frame";
        fatal = true;
      }))
      c)
receive hello c = record c { reconnect_attempt = 0 }
receive (event seq) c = emit (handed seq) c
receive (resync_required seq) c = emit (saving seq) c
receive (error code message fatal) c =
    let told =
      emit
        (protocol_error (record {
          code = or_else code "websocket_protocol_error";
          message = or_else message "Core rejected a WebSocket operation";
          fatal = fatal;
        }))
        c in
    if fatal then close_socket told else told
receive other c = c

-- `receive` of an event, after `onEvent` has succeeded
unfoldable pub handled : ℕ → Manager → Manager
handled seq = emit (saving seq)

-- `receive` of an event, after `updateAgentRuntimeCheckpoint` has succeeded
unfoldable pub saved : ℕ → Manager → Manager
saved seq c =
    let c' = record c { last_ack = max c.last_ack seq } in
    elim c.socket [ none ↦ c' | some s ↦ emit (sent (ack c'.last_ack)) c' ]

-- `receive` of `resync_required`, after `updateAgentRuntimeCheckpoint` has succeeded
unfoldable pub resynced : Manager → Manager
unfolding close_socket
resynced = close_socket
