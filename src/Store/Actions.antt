-- ===== src/Store/Actions.antt =====
-- The actions of `MessengerState` and the two timer callbacks as one step function, and a run of the
-- store over what happens to it.
use comamessenger.Prelude.{ℕ, String, Option, Bool, List, [], ◌∷◌}
use comamessenger.Wire.{Message, Chat, UnreadSnapshot, DurableEvent, RealtimeState, Presence}
use comamessenger.Store.State.{
  State, AgentStatus, StreamFrame, replace_chats, replace_messages, prepend_messages, optimistic,
  reconcile, set_retrying, set_failed, apply, set_unread, set_realtime, set_active, set_typing,
  set_presence, clear_agent_ephemeral, reset_durable,
}
use comamessenger.Store.Ephemeral.{
  Timer, set_agent_status, apply_message_stream, expire_agent_status, expire_message_stream,
}

pub data Action : Type 0 where
  replaces_chats : List Chat → Action
  replaces_messages prepends_messages : String → List Message → Action
  shows reconciles : Message → Action
  retries : String → Action
  fails : String → String → Action
  applies : DurableEvent → Action
  sets_unread : UnreadSnapshot → Action
  sets_realtime : RealtimeState → Action
  sets_active : Option String → Action
  sets_typing : String → String → Bool → Action
  sets_presence : String → Presence → Action
  sets_agent_status : AgentStatus → Action
  streams : StreamFrame → Action
  clears_agent_ephemeral : Action
  resets_durable : ℕ → Action
  expires_status expires_stream : Timer → Action

module _ (parse : String → Option ℕ) where
  unfoldable pub step : ℕ → Action → State → State
  step now (replaces_chats items) = replace_chats items
  step now (replaces_messages chat_id items) = replace_messages chat_id items
  step now (prepends_messages chat_id items) = prepend_messages chat_id items
  step now (shows m) = optimistic m
  step now (reconciles m) = reconcile m
  step now (retries client_msg_id) = set_retrying client_msg_id
  step now (fails client_msg_id code) = set_failed client_msg_id code
  step now (applies event) = λ s. (apply event s).0
  step now (sets_unread unread) = set_unread unread
  step now (sets_realtime realtime) = set_realtime realtime
  step now (sets_active chat_id) = set_active chat_id
  step now (sets_typing chat_id actor_id active) = set_typing chat_id actor_id active
  step now (sets_presence actor_id value) = set_presence actor_id value
  step now (sets_agent_status v) = set_agent_status parse now v
  step now (streams frame) = apply_message_stream parse now frame
  step now clears_agent_ephemeral = clear_agent_ephemeral
  step now (resets_durable value) = reset_durable value
  step now (expires_status timer) = expire_agent_status timer
  step now (expires_stream timer) = expire_message_stream timer

  -- Each action with the time at which it happens.
  unfoldable pub run : List (ℕ × Action) → State → State
  unfolding step
  run [] s = s
  run ((now, a) ∷ actions) s = run actions (step now a s)
