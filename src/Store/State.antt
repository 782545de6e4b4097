-- ===== src/Store/State.antt =====
-- The state of `createMessengerStore` and each of its actions. The time is an argument, and
-- `parse` stands for `Date.parse`, with `none` for NaN. A `setTimeout` is a value that the action
-- returns, and its callback is a function of its own.
use comamessenger.Prelude.{
  ℕ, ◌+◌, ◌-◌, String, Option, none, some, Bool, true, false, List, [], ◌∷◌, ◌++◌, map, leb, str_eq,
  if◌then◌else◌,
}
use comamessenger.Prelude.Dict.{Dict, lookup, insert, map_values}
use comamessenger.Wire.{
  Message, retrying, failed, Chat, UnreadSnapshot, EventBody, message_created, message_updated,
  message_deleted, DurableEvent, RealtimeState, idle, Presence, AgentPhase,
}
use comamessenger.Store.Merge.{unique_sorted, upsert, deliver, feed, reconcile_message}

pub record AgentStatus : Type 0 where
  pub run_id : String
  pub actor_id : String
  pub chat_id : String
  pub thread_root_id : Option String
  pub phase : AgentPhase
  pub expires_at : String

pub record MessageStream : Type 0 where
  pub stream_id : String
  pub run_id : String
  pub actor_id : String
  pub chat_id : String
  pub thread_root_id : Option String
  pub body : List ℕ
  pub index : ℕ
  pub expires_at : String

pub record StreamFrame : Type 0 where
  pub stream_id : String
  pub run_id : String
  pub actor_id : String
  pub chat_id : String
  pub thread_root_id : Option String
  pub index : ℕ
  pub expires_at : String
  pub delta : List ℕ
  pub reset : Bool
  pub done : Bool

pub record State : Type 0 where
  pub chats : Dict Chat
  pub messages : Dict (List Message)
  pub unread : UnreadSnapshot
  pub typing : Dict (List String)
  pub presence : Dict Presence
  pub agent_statuses : Dict AgentStatus
  pub message_streams : Dict MessageStream
  pub checkpoint : ℕ
  pub realtime : RealtimeState
  pub active_chat_id : Option String

abbrev pub empty_unread : UnreadSnapshot
empty_unread = record { chats = []; threads = [] }

unfoldable pub create_messenger_store : ℕ → State
create_messenger_store checkpoint = record {
  chats = [];
  messages = [];
  unread = empty_unread;
  typing = [];
  presence = [];
  agent_statuses = [];
  message_streams = [];
  checkpoint = checkpoint;
  realtime = idle;
  active_chat_id = none;
}

-- `Object.fromEntries(items.map((item) => [item.id, item]))`: a later item replaces an earlier one
unfoldable pub chats_by_id : Dict Chat → List Chat → Dict Chat
unfolding insert
chats_by_id chats [] = chats
chats_by_id chats (c ∷ cs) = chats_by_id (insert c.id c chats) cs

unfoldable pub replace_chats : List Chat → State → State
unfolding chats_by_id
replace_chats items s = record s { chats = chats_by_id [] items }

unfoldable pub replace_messages : String → List Message → State → State
unfolding unique_sorted insert
replace_messages chat_id items s = record s {
  messages = insert chat_id (unique_sorted items) s.messages;
}

unfoldable pub prepend_messages : String → List Message → State → State
unfolding unique_sorted insert feed
prepend_messages chat_id items s = record s {
  messages = insert chat_id (unique_sorted (items ++ feed chat_id s.messages)) s.messages;
}

unfoldable pub optimistic : Message → State → State
unfolding unique_sorted insert feed
optimistic m s = record s {
  messages = insert m.chat_id (unique_sorted (feed m.chat_id s.messages ++ m ∷ [])) s.messages;
}

unfoldable pub reconcile : Message → State → State
unfolding reconcile_message
reconcile m s = record s { messages = reconcile_message s.messages m }

abbrev pub map_messages : (Message → Message) → Dict (List Message) → Dict (List Message)
map_messages f = map_values (map f)

unfoldable pub mark_retrying : String → Message → Message
mark_retrying client_msg_id item =
    if str_eq item.client_msg_id client_msg_id
    then record item { delivery = some retrying }
    else item

unfoldable pub mark_failed : String → String → Message → Message
mark_failed client_msg_id code item =
    if str_eq item.client_msg_id client_msg_id
    then record item { delivery = some failed; error_code = some code }
    else item

unfoldable pub set_retrying : String → State → State
unfolding mark_retrying
set_retrying client_msg_id s = record s {
  messages = map_messages (mark_retrying client_msg_id) s.messages;
}

unfoldable pub set_failed : String → String → State → State
unfolding mark_failed
set_failed client_msg_id code s = record s {
  messages = map_messages (mark_failed client_msg_id code) s.messages;
}

-- `Math.max(0, count + delta)` for the delta of a creation and of a deletion
abbrev pub counted : Bool → ℕ → ℕ
counted true n = n + 1
counted false n = n - 1

unfoldable pub count_reply : Bool → String → Message → Message
count_reply created root item =
    if str_eq item.id root
    then record item { thread_reply_count = counted created item.thread_reply_count }
    else item

-- `incoming.thread_root_id && ...`: null and the empty text are both falsy
unfoldable pub count_thread : Bool → Option String → List Message → List Message
unfolding count_reply
count_thread created none items = items
count_thread created (some root) items =
    if str_eq root "" then items else map (count_reply created root) items

-- A message event of a chat, where `chatID` is not empty.
unfoldable pub store_message :
    Message → (List Message → List Message) → Dict (List Message) → Dict (List Message)
unfolding unique_sorted upsert feed insert
store_message incoming count messages =
    if str_eq incoming.chat_id ""
    then messages
    else insert incoming.chat_id
        (unique_sorted (count (upsert (deliver incoming) (feed incoming.chat_id messages))))
        messages

unfoldable pub event_messages : EventBody → Dict (List Message) → Dict (List Message)
unfolding store_message count_thread
event_messages (message_created m) messages =
    store_message m (count_thread true m.thread_root_id) messages
event_messages (message_updated m) messages = store_message m (λ items. items) messages
event_messages (message_deleted m) messages =
    store_message m (count_thread false m.thread_root_id) messages
event_messages _ messages = messages

-- `apply`: the new state, and whether the event was new
unfoldable pub apply : DurableEvent → State → State × Bool
unfolding event_messages
apply event s = if leb event.seq s.checkpoint then (s, false) else (
  record s { messages = event_messages event.body s.messages; checkpoint = event.seq },
  true,
)

unfoldable pub set_unread : UnreadSnapshot → State → State
set_unread unread s = record s { unread = unread }

unfoldable pub set_realtime : RealtimeState → State → State
set_realtime realtime s = record s { realtime = realtime }

unfoldable pub set_active : Option String → State → State
set_active chat_id s = record s { active_chat_id = chat_id }

-- `Set.prototype.add` and `delete` on a set of ids in insertion order
unfoldable pub set_add : String → List String → List String
set_add a [] = a ∷ []
set_add a (x ∷ xs) = let rest = set_add a xs in if str_eq x a then x ∷ xs else x ∷ rest

unfoldable pub set_delete : String → List String → List String
set_delete a [] = []
set_delete a (x ∷ xs) = let rest = set_delete a xs in if str_eq x a then rest else x ∷ rest

unfoldable pub typists : String → Dict (List String) → List String
unfolding lookup
typists chat_id typing = elim (lookup chat_id typing) [ none ↦ [] | some ids ↦ ids ]

unfoldable pub set_typing : String → String → Bool → State → State
unfolding set_add set_delete typists insert
set_typing chat_id actor_id active s =
    let ids = typists chat_id s.typing in
    record s {
      typing =
          insert chat_id (if active then set_add actor_id ids else set_delete actor_id ids)
            s.typing;
    }

unfoldable pub set_presence : String → Presence → State → State
unfolding insert
set_presence actor_id value s = record s { presence = insert actor_id value s.presence }

unfoldable pub clear_agent_ephemeral : State → State
clear_agent_ephemeral s = record s { agent_statuses = []; message_streams = [] }

unfoldable pub reset_durable : ℕ → State → State
reset_durable value s = record s {
  chats = [];
  messages = [];
  unread = empty_unread;
  agent_statuses = [];
  message_streams = [];
  checkpoint = value;
}
