-- ===== src/Store/Ephemeral.antt =====
-- The agent statuses and the message streams of packages/core/src/store.ts, which expire.
use comamessenger.Prelude.{
  ℕ, ◌+◌, ◌-◌, min, String, Option, none, some, Bool, true, false, ◌&&◌, ◌||◌, not, List, ◌++◌, ltb,
  leb, str_eq, if◌then◌else◌,
}
use comamessenger.Prelude.Dict.{lookup, insert, delete}
use comamessenger.Wire.{AgentPhase, completed}
use comamessenger.Store.State.{AgentStatus, MessageStream, StreamFrame, State}

-- A `setTimeout` that removes the entry under `key` if its expiry is still `expires_at`.
pub record Timer : Type 0 where
  pub key : String
  pub expires_at : String
  pub delay : ℕ

-- `Date.parse(expiresAt) <= Date.now()`; no comparison with NaN holds
abbrev pub is_expired : Option ℕ → ℕ → Bool
is_expired none now = false
is_expired (some t) now = leb t now

-- `Math.max(0, Math.min(60_000, t - now + 25))`; NaN sets no timer, as 0 does
abbrev pub expiry_delay : Option ℕ → ℕ → ℕ
expiry_delay none now = 0
expiry_delay (some t) now = min 60000 (t + 25 - now)

abbrev pub is_completed : AgentPhase → Bool
is_completed completed = true
is_completed _ = false

module _ (parse : String → Option ℕ) (now : ℕ) where
  unfoldable pub set_agent_status : AgentStatus → State → State
  unfolding insert delete
  set_agent_status v s = record s {
    agent_statuses =
        if is_completed v.phase || is_expired (parse v.expires_at) now
        then delete v.run_id s.agent_statuses
        else insert v.run_id v s.agent_statuses;
  }

  unfoldable pub agent_status_timer : AgentStatus → Option Timer
  agent_status_timer v =
      let delay = expiry_delay (parse v.expires_at) now in
      if ltb 0 delay
      then some (record { key = v.run_id; expires_at = v.expires_at; delay = delay })
      else none

  -- `value.reset ? value.delta : (current?.body ?? "") + value.delta`
  abbrev pub extended : StreamFrame → Option MessageStream → List ℕ
  extended v none = v.delta
  extended v (some current) = if v.reset then v.delta else current.body ++ v.delta

  -- `!current || value.index > current.index`
  abbrev pub is_next : StreamFrame → Option MessageStream → Bool
  is_next v none = true
  is_next v (some current) = ltb current.index v.index

  unfoldable pub stream_of : StreamFrame → Option MessageStream → MessageStream
  stream_of v current = record {
    stream_id = v.stream_id;
    run_id = v.run_id;
    actor_id = v.actor_id;
    chat_id = v.chat_id;
    thread_root_id = v.thread_root_id;
    body = extended v current;
    index = v.index;
    expires_at = v.expires_at;
  }

  unfoldable pub apply_message_stream : StreamFrame → State → State
  unfolding insert delete lookup stream_of
  apply_message_stream v s =
      let current = lookup v.stream_id s.message_streams in
      record s {
        message_streams =
            if v.done || is_expired (parse v.expires_at) now
            then delete v.stream_id s.message_streams
            else if is_next v current
            then insert v.stream_id (stream_of v current) s.message_streams
            else s.message_streams;
      }

  unfoldable pub message_stream_timer : StreamFrame → Option Timer
  message_stream_timer v =
      let delay = expiry_delay (parse v.expires_at) now in
      if not v.done && ltb 0 delay
      then some (record { key = v.stream_id; expires_at = v.expires_at; delay = delay })
      else none

-- `state.agentStatuses[runID]?.expiresAt !== value.expiresAt`
abbrev pub status_expires_at : Option AgentStatus → String → Bool
status_expires_at none t = false
status_expires_at (some v) t = str_eq v.expires_at t

abbrev pub stream_expires_at : Option MessageStream → String → Bool
stream_expires_at none t = false
stream_expires_at (some v) t = str_eq v.expires_at t

-- The callbacks of the two timers.
unfoldable pub expire_agent_status : Timer → State → State
unfolding lookup delete
expire_agent_status timer s =
    if status_expires_at (lookup timer.key s.agent_statuses) timer.expires_at
    then record s { agent_statuses = delete timer.key s.agent_statuses }
    else s

unfoldable pub expire_message_stream : Timer → State → State
unfolding lookup delete
expire_message_stream timer s =
    if stream_expires_at (lookup timer.key s.message_streams) timer.expires_at
    then record s { message_streams = delete timer.key s.message_streams }
    else s
