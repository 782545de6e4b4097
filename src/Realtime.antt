-- ===== src/Realtime.antt =====
-- `RealtimeCoordinator` of packages/core/src/realtime.ts. A method takes the coordinator to the next
-- one; an `await` splits it, and what comes behind it is a function of its own, which does not run
-- where what is awaited fails. A reading of the storage is one step with what follows it; a writing
-- takes effect in a step of its own. Calls of the callbacks, of `setTimeout`, of the storage's `set`
-- and of the sockets are effects, in the order in which they are made.
pub mod Inputs
pub mod Acks
pub mod Backoff
pub mod Sessions
pub mod Storage
mod Tests
use comamessenger.Prelude.{
  ℕ, zero, suc, ◌+◌, ◌*◌, ◌^◌, min, String, Option, none, some, Bool, true, false, ◌&&◌, ◌||◌, not,
  List, [], ◌∷◌, ◌++◌, ltb, leb, ◌==◌, str_eq, if◌then◌else◌,
}
use comamessenger.Wire.{
  DurableEvent, RealtimeState, idle, connecting, authenticating, backlog, live, reconnecting,
  resync_required, password_change_required, session_expired,
}

pub data OutFrame : Type 0 where
  auth : Option String → ℕ → OutFrame
  subscribe_active : Option String → Option String → OutFrame
  typing : String → Option String → Bool → OutFrame
  presence : Bool → OutFrame
  ack : ℕ → OutFrame

pub data EphemeralOp : Type 0 where
  typing_op presence_op agent_status_op message_streaming_op : EphemeralOp

-- What the server sends. The settings of `hello` are `none` where `Number` gives NaN.
pub data InFrame : Type 0 where
  hello : ℕ → Option ℕ → Option ℕ → InFrame
  event : DurableEvent → InFrame
  resync : ℕ → InFrame
  error : String → InFrame
  ephemeral : EphemeralOp → InFrame
  unknown : InFrame

pub data Effect : Type 0 where
  state : RealtimeState → Effect
  sent : OutFrame → Effect
  closed : ℕ → Effect
  ephemeral_reset : Effect
  notified : EphemeralOp → Effect
  resynced : ℕ → Effect
  password_change : Effect
  expired : Effect
  -- `storage.set`
  saving : ℕ → Effect
  -- a `setTimeout` of `connect(true)`, with the whole milliseconds of its delay
  retry_in : ℕ → Effect

-- A socket by its number, with `readyState === 1`, and the token and the checkpoint that its
-- callbacks hold.
pub record Socket : Type 0 where
  pub number : ℕ
  pub is_open : Bool
  pub token : Option String
  pub checkpoint : ℕ

-- The handle in `ackTimer`: the sequence number that its callback holds, and whether the timeout is
-- still pending.
pub record AckTimer : Type 0 where
  pub seq : ℕ
  pub pending : Bool

pub record Coordinator : Type 0 where
  pub socket : Option Socket
  pub stopped : Bool
  pub reconnect_attempt : ℕ
  pub password_change_required : Bool
  pub ack_timer : Option AckTimer
  pub last_ack : ℕ
  pub ack_interval : ℕ
  pub ack_batch : ℕ
  pub active_chat_id : Option String
  pub active_thread_root_id : Option String
  -- the checkpoint in the storage
  pub stored : ℕ
  pub effects : List Effect

unfoldable pub create : ℕ → Coordinator
create stored = record {
  socket = none;
  stopped = true;
  reconnect_attempt = 0;
  password_change_required = false;
  ack_timer = none;
  last_ack = 0;
  ack_interval = 1000;
  ack_batch = 50;
  active_chat_id = none;
  active_thread_root_id = none;
  stored = stored;
  effects = [];
}

abbrev pub emit : Effect → Coordinator → Coordinator
emit e c = record c { effects = c.effects ++ e ∷ [] }

abbrev pub is_ready : Option Socket → Bool
is_ready none = false
is_ready (some s) = s.is_open

unfoldable pub send : OutFrame → Coordinator → Coordinator
send frame c = if is_ready c.socket then emit (sent frame) c else c

-- `this.socket?.close()`
unfoldable pub close_socket : Coordinator → Coordinator
close_socket c = elim c.socket [
  | none ↦ c
  | some s ↦ emit (closed s.number) (record c { socket = some (record s { is_open = false }) })
]

-- `connect` up to its first `await`; true if it goes on
unfoldable pub connect : Bool → Coordinator → Coordinator × Bool
connect reconnect c =
    if c.stopped
    then (c, false)
    else (emit (state (if reconnect then reconnecting else connecting)) c, true)

-- `connect` after its awaits: the new socket, which is not open yet
unfoldable pub connected : ℕ → Option String → Coordinator → Coordinator
connected number token c = record c {
  password_change_required = false;
  socket = some (record { number = number; is_open = false; token = token; checkpoint = c.stored });
}

-- the `catch` of `connect`
unfoldable pub connect_failed : Coordinator → Coordinator
connect_failed c = if c.stopped then c else emit (retry_in 1000) c

unfoldable pub start : Coordinator → Coordinator × Bool
unfolding connect
start c = connect false (record c { stopped = false })

abbrev pub cancel : Option AckTimer → Option AckTimer
cancel none = none
cancel (some t) = some (record t { pending = false })

-- `clearTimeout` leaves the handle in `ackTimer`.
unfoldable pub stop : Coordinator → Coordinator
unfolding close_socket
stop c =
    let closing = close_socket (record c { stopped = true }) in
    emit (state idle)
      (emit ephemeral_reset (record closing { ack_timer = cancel closing.ack_timer }))

unfoldable pub subscribe : Option String → Option String → Coordinator → Coordinator
unfolding send
subscribe chat_id thread_root_id c =
    send (subscribe_active chat_id thread_root_id)
      (record c { active_chat_id = chat_id; active_thread_root_id = thread_root_id })

unfoldable pub send_typing : String → Bool → Option String → Coordinator → Coordinator
unfolding send
send_typing chat_id active thread_root_id = send (typing chat_id thread_root_id active)

unfoldable pub send_presence : Bool → Coordinator → Coordinator
unfolding send
send_presence active = send (presence active)

-- `socket.onopen` of the current socket; the API's token at that time is an argument
unfoldable pub on_open : Option String → Coordinator → Coordinator
on_open token c = elim c.socket [
  | none ↦ c
  | some s ↦
      emit (sent (auth token s.checkpoint))
        (emit (state authenticating) (record c { socket = some (record s { is_open = true }) }))
]

unfoldable pub send_ack : ℕ → Coordinator → Coordinator
unfolding send
send_ack seq c = send (ack seq) (record c { ack_timer = none; last_ack = seq })

-- `seq - this.lastAck >= this.ackBatch` over the integers
unfoldable pub schedule_ack : ℕ → Coordinator → Coordinator
unfolding send_ack
schedule_ack seq c =
    if leb (c.last_ack + c.ack_batch) seq then send_ack seq c else elim c.ack_timer [
      | none ↦ record c { ack_timer = some (record { seq = seq; pending = true }) }
      | some t ↦ c
    ]

-- the callback of the timeout in `scheduleAck`
unfoldable pub ack_timeout : Coordinator → Coordinator
unfolding send_ack
ack_timeout c = elim c.ack_timer [ none ↦ c | some t ↦ if t.pending then send_ack t.seq c else c ]

-- `Number(x) || d`
abbrev pub number_or : Option ℕ → ℕ → ℕ
number_or none d = d
number_or (some n) d = if n == 0 then d else n

-- `receive` of `hello` after its `await`
unfoldable pub greeted : ℕ → Coordinator → Coordinator
unfolding subscribe
greeted current_seq c =
    subscribe c.active_chat_id c.active_thread_root_id
      (emit (state (if ltb c.stored current_seq then backlog else live)) c)

-- `receive` of an event, after the checkpoint is written where the event was accepted
unfoldable pub handled : ℕ → Coordinator → Coordinator
unfolding schedule_ack
handled seq c = emit (state live) (schedule_ack seq c)

-- The storage takes a value that was to be written.
unfoldable pub written : ℕ → Coordinator → Coordinator
written value c = record c { stored = value }

-- `receive` of `resync_required` after the resync callback, and after the writing
unfoldable pub resynchronized : ℕ → Coordinator → Coordinator
resynchronized high = emit (saving high)

unfoldable pub replaced : Coordinator → Coordinator
unfolding close_socket
replaced = close_socket

-- `receive` up to its first `await`. `accepted` is what the event callback returns; an ephemeral frame
-- is handed to its callback.
unfoldable pub receive : Bool → InFrame → Coordinator → Coordinator
unfolding handled
receive accepted (hello current_seq interval batch) c = record c {
  reconnect_attempt = 0;
  ack_interval = number_or interval 1000;
  ack_batch = number_or batch 50;
}
receive accepted (event e) c = if accepted then emit (saving e.seq) c else handled e.seq c
receive accepted (resync high) c = emit (resynced high) (emit (state resync_required) c)
receive accepted (error code) c =
    if str_eq code "password_change_required"
    then emit password_change
        (emit (state password_change_required) (record c { password_change_required = true }))
    else c
receive accepted (ephemeral op) c = emit (notified op) c
receive accepted unknown c = c

-- `Math.min(30000, 500 * 2 ** attempt)`
unfoldable pub backoff : ℕ → ℕ
backoff attempt = min 30000 (500 * 2 ^ attempt)

-- `reauthenticate` up to its `await`
unfoldable pub reauthenticate : Coordinator → Coordinator × Bool
reauthenticate c = if c.stopped then (c, false) else (emit (state reconnecting) c, true)

-- `readyState` of the socket that has closed
abbrev pub mark_closed : ℕ → Option Socket → Option Socket
mark_closed number none = none
mark_closed number (some s) =
    if s.number == number then some (record s { is_open = false }) else some s

-- `socket.onclose` of the socket with a number. `jitter` is what `Math.random() * 350` adds to the
-- delay in whole milliseconds, of which `setTimeout` keeps no more. True if `reauthenticate` goes on
-- to renew the token.
unfoldable pub on_close : ℕ → ℕ → ℕ → Coordinator → Coordinator × Bool
unfolding reauthenticate backoff
on_close number code jitter c =
    let c' = emit ephemeral_reset (record c { socket = mark_closed number c.socket }) in
    if c'.stopped
    then (c', false)
    else if code == 4001
    then (if c'.password_change_required then (c', false) else reauthenticate c')
    else (
      emit (retry_in (backoff c'.reconnect_attempt + jitter))
          (record c' { reconnect_attempt = c'.reconnect_attempt + 1 }),
      false,
    )

-- How the renewal of the token ends: with a token, with a 401, or with another error.
pub data Renewal : Type 0 where
  renewed unauthorized failed : Renewal

-- `reauthenticate` after its `await`; true if it connects anew
unfoldable pub reauthenticated : Renewal → Coordinator → Coordinator × Bool
unfolding connect
reauthenticated renewed c = if c.stopped then (c, false) else connect true c
reauthenticated unauthorized c =
    if c.stopped then (c, false) else (emit expired (emit (state session_expired) c), false)
reauthenticated failed c = if c.stopped then (c, false) else (emit (retry_in 1000) c, false)
