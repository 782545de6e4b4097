-- ===== src/Store/Invariant.antt =====
-- What holds of the store between two actions, whatever the actions are.
use comamessenger.Prelude.{
  ℕ, String, ◌≡◌, refl, inl, inr, Option, Bool, true, false, ◌||◌, List, [], ◌∷◌, ◌++◌, leb, str_eq,
  Bool-cases,
}
use comamessenger.Prelude.Dict.{
  Dict, lookup, insert, AllEntries, AllEntries-insert, AllEntries-delete, AllEntries-map_values,
}
use comamessenger.Wire.{
  Message, DurableEvent, EventBody, message_created, message_updated, message_deleted,
}
use comamessenger.Store.Merge.{unique_sorted, feed, upsert, deliver, reconcile_message}
use comamessenger.Store.Feed.{IsFeed}
use comamessenger.Store.Unique.{unique_sorted-IsFeed}
use comamessenger.Store.State.{
  State, AgentStatus, MessageStream, StreamFrame, count_thread, create_messenger_store,
  mark_retrying, mark_failed, event_messages, store_message, replace_chats, replace_messages,
  prepend_messages, optimistic, reconcile, set_retrying, set_failed, apply, set_unread,
  set_realtime, set_active, set_typing, set_presence, clear_agent_ephemeral, reset_durable,
}
use comamessenger.Store.Ephemeral.{
  stream_of, is_completed, is_expired, is_next, status_expires_at, stream_expires_at, Timer,
  set_agent_status, apply_message_stream, expire_agent_status, expire_message_stream,
}
use comamessenger.Store.Actions.{Action, step, run}
use comamessenger.Store.Kept.{
  HasNoRepeat, key-mark_retrying, seq-mark_retrying, key-mark_failed, seq-mark_failed,
  set_add-HasNoRepeat, set_delete-HasNoRepeat, typists-HasNoRepeat, map-IsFeed,
}

-- Each chat's messages are a feed, nobody is listed twice as typing in a chat, and the agent
-- statuses and message streams stand under their own ids.
pub record IsValid (s : State) : Type 0 where
  pub feeds : AllEntries (λ _ ms. IsFeed ms) s.messages
  pub typing : AllEntries (λ _ ids. HasNoRepeat ids) s.typing
  pub statuses : AllEntries (λ run_id v. v.run_id ≡ run_id) s.agent_statuses
  pub streams : AllEntries (λ stream_id v. v.stream_id ≡ stream_id) s.message_streams

abbrev Feeds : Dict (List Message) → Type 0
Feeds = AllEntries (λ _ ms. IsFeed ms)

-- A write of a list that went through `uniqueSorted`.
insert-Feeds :
    (chat_id : String) (items : List Message) (messages : Dict (List Message))
    → Feeds messages
    → Feeds (insert chat_id (unique_sorted items) messages)
insert-Feeds chat_id items messages =
    AllEntries-insert _ chat_id (unique_sorted items) messages (unique_sorted-IsFeed items)

store_message-Feeds :
    (m : Message) (count : List Message → List Message) (messages : Dict (List Message))
    → Feeds messages
    → Feeds (store_message m count messages)
unfolding store_message
store_message-Feeds m count messages h = elim (Bool-cases (str_eq m.chat_id "")) [
  | inl e ↦ rw e h
  | inr e ↦
      rw e
        (insert-Feeds m.chat_id (count (upsert (deliver m) (feed m.chat_id messages))) messages h)
]

event_messages-Feeds :
    (body : EventBody) (messages : Dict (List Message))
    → Feeds messages
    → Feeds (event_messages body messages)
unfolding event_messages
event_messages-Feeds (message_created m) messages =
    store_message-Feeds m (count_thread true m.thread_root_id) messages
event_messages-Feeds (message_updated m) messages = store_message-Feeds m (λ items. items) messages
event_messages-Feeds (message_deleted m) messages =
    store_message-Feeds m (count_thread false m.thread_root_id) messages
event_messages-Feeds _ messages = λ h. h

apply-IsValid : (event : DurableEvent) (s : State) → IsValid s → IsValid (apply event s).0
unfolding apply
apply-IsValid event s v = elim (Bool-cases (leb event.seq s.checkpoint)) [
  | inl e ↦ rw e v
  | inr e ↦ rw e (record {
    feeds = event_messages-Feeds event.body s.messages v.feeds;
    typing = v.typing;
    statuses = v.statuses;
    streams = v.streams;
  })
]

create_messenger_store-IsValid : (checkpoint : ℕ) → IsValid (create_messenger_store checkpoint)
unfolding create_messenger_store
create_messenger_store-IsValid checkpoint = record {
  feeds = tt;
  typing = tt;
  statuses = tt;
  streams = tt;
}

set_typing-IsValid :
    (chat_id actor_id : String) (active : Bool) (s : State)
    → IsValid s
    → IsValid (set_typing chat_id actor_id active s)
unfolding set_typing
set_typing-IsValid chat_id actor_id true s v = record {
  feeds = v.feeds;
  statuses = v.statuses;
  streams = v.streams;
  typing =
      AllEntries-insert _ chat_id _ s.typing
        (set_add-HasNoRepeat actor_id _ (typists-HasNoRepeat chat_id s.typing v.typing)) v.typing;
}
set_typing-IsValid chat_id actor_id false s v = record {
  feeds = v.feeds;
  statuses = v.statuses;
  streams = v.streams;
  typing =
      AllEntries-insert _ chat_id _ s.typing
        (set_delete-HasNoRepeat actor_id _ (typists-HasNoRepeat chat_id s.typing v.typing))
        v.typing;
}

module _ (parse : String → Option ℕ) (now : ℕ) where
  set_agent_status-IsValid :
      (a : AgentStatus) (s : State) → IsValid s → IsValid (set_agent_status parse now a s)
  unfolding set_agent_status
  set_agent_status-IsValid a s v =
      elim (Bool-cases (is_completed a.phase || is_expired (parse a.expires_at) now)) [
        | inl e ↦ record {
          feeds = v.feeds;
          typing = v.typing;
          statuses = rw e (AllEntries-delete _ a.run_id s.agent_statuses v.statuses);
          streams = v.streams;
        }
        | inr e ↦ record {
          feeds = v.feeds;
          typing = v.typing;
          statuses = rw e (AllEntries-insert _ a.run_id a s.agent_statuses refl v.statuses);
          streams = v.streams;
        }
      ]

  apply_message_stream-IsValid :
      (a : StreamFrame) (s : State) → IsValid s → IsValid (apply_message_stream parse now a s)
  unfolding apply_message_stream
  apply_message_stream-IsValid a s v = record {
    feeds = v.feeds;
    typing = v.typing;
    statuses = v.statuses;
    streams = kept;
  }
    where
      current : Option MessageStream
      current = lookup a.stream_id s.message_streams

      kept :
          AllEntries
            (λ stream_id m. m.stream_id ≡ stream_id)
            (apply_message_stream parse now a s).message_streams
      kept = elim (Bool-cases (a.done || is_expired (parse a.expires_at) now)) [
        | inl e ↦ rw e (AllEntries-delete _ a.stream_id s.message_streams v.streams)
        | inr e ↦ elim (Bool-cases (is_next parse now a current)) [
          | inl fresh ↦
              rw (e, fresh)
                (AllEntries-insert _ a.stream_id (stream_of parse now a current) s.message_streams
                  refl v.streams)
          | inr stale ↦ rw (e, stale) v.streams
        ]
      ]

expire_agent_status-IsValid :
    (t : Timer) (s : State) → IsValid s → IsValid (expire_agent_status t s)
unfolding expire_agent_status
expire_agent_status-IsValid t s v =
    elim (Bool-cases (status_expires_at (lookup t.key s.agent_statuses) t.expires_at)) [
      | inl e ↦ rw e (record {
        feeds = v.feeds;
        typing = v.typing;
        statuses = AllEntries-delete _ t.key s.agent_statuses v.statuses;
        streams = v.streams;
      })
      | inr e ↦ rw e v
    ]

expire_message_stream-IsValid :
    (t : Timer) (s : State) → IsValid s → IsValid (expire_message_stream t s)
unfolding expire_message_stream
expire_message_stream-IsValid t s v =
    elim (Bool-cases (stream_expires_at (lookup t.key s.message_streams) t.expires_at)) [
      | inl e ↦ rw e (record {
        feeds = v.feeds;
        typing = v.typing;
        statuses = v.statuses;
        streams = AllEntries-delete _ t.key s.message_streams v.streams;
      })
      | inr e ↦ rw e v
    ]

with-Feeds :
    {s : State} (messages : Dict (List Message))
    → IsValid s
    → Feeds messages
    → IsValid (record s { messages = messages })
with-Feeds messages v h = record {
  feeds = h;
  typing = v.typing;
  statuses = v.statuses;
  streams = v.streams;
}

step-IsValid :
    (parse : String → Option ℕ) (now : ℕ) (a : Action) (s : State)
    → IsValid s
    → IsValid (step parse now a s)
unfolding step replace_chats replace_messages prepend_messages optimistic reconcile
    reconcile_message set_retrying set_failed set_unread set_realtime set_active set_presence
    clear_agent_ephemeral reset_durable
step-IsValid parse now (Action.replaces_messages chat_id items) s v =
    with-Feeds _ v (insert-Feeds chat_id items s.messages v.feeds)
step-IsValid parse now (Action.prepends_messages chat_id items) s v =
    with-Feeds _ v (insert-Feeds chat_id (items ++ feed chat_id s.messages) s.messages v.feeds)
step-IsValid parse now (Action.shows m) s v =
    with-Feeds _ v (insert-Feeds m.chat_id (feed m.chat_id s.messages ++ m ∷ []) s.messages v.feeds)
step-IsValid parse now (Action.reconciles m) s v =
    with-Feeds _ v
      (insert-Feeds m.chat_id (upsert (deliver m) (feed m.chat_id s.messages)) s.messages v.feeds)
step-IsValid parse now (Action.retries id) s v = with-Feeds _ v (
    AllEntries-map_values _ _ _
      (λ _ ms. map-IsFeed (mark_retrying id) (key-mark_retrying id) (seq-mark_retrying id) ms)
      s.messages v.feeds)
step-IsValid parse now (Action.fails id code) s v = with-Feeds _ v (
    AllEntries-map_values _ _ _
      (λ _ ms.
        map-IsFeed (mark_failed id code) (key-mark_failed id code) (seq-mark_failed id code) ms)
      s.messages v.feeds)
step-IsValid parse now (Action.applies event) s v = apply-IsValid event s v
step-IsValid parse now (Action.sets_typing chat_id actor_id active) s v =
    set_typing-IsValid chat_id actor_id active s v
step-IsValid parse now (Action.sets_agent_status a) s v = set_agent_status-IsValid parse now a s v
step-IsValid parse now (Action.streams frame) s v = apply_message_stream-IsValid parse now frame s v
step-IsValid parse now (Action.clears_agent_ephemeral) s v = record {
  feeds = v.feeds;
  typing = v.typing;
  statuses = tt;
  streams = tt;
}
step-IsValid parse now (Action.resets_durable value) s v = record {
  feeds = tt;
  typing = v.typing;
  statuses = tt;
  streams = tt;
}
step-IsValid parse now (Action.expires_status t) s v = expire_agent_status-IsValid t s v
step-IsValid parse now (Action.expires_stream t) s v = expire_message_stream-IsValid t s v
step-IsValid parse now _ s v = record {
  feeds = v.feeds;
  typing = v.typing;
  statuses = v.statuses;
  streams = v.streams;
}

run-IsValid_from :
    (parse : String → Option ℕ) (actions : List (ℕ × Action)) (s : State)
    → IsValid s
    → IsValid (run parse actions s)
unfolding run
run-IsValid_from parse [] s v = v
run-IsValid_from parse ((now, a) ∷ actions) s v =
    run-IsValid_from parse actions (step parse now a s) (step-IsValid parse now a s v)

-- Whatever actions and timers run, in any order and at any times, on a store that was created at any
-- checkpoint: each chat's messages are ordered by sequence number with no key twice, no actor is
-- listed twice as typing in a chat, and the agent statuses and streams stand under their own ids.
pub run-IsValid :
    (parse : String → Option ℕ) (checkpoint : ℕ) (actions : List (ℕ × Action))
    → IsValid (run parse actions (create_messenger_store checkpoint))
run-IsValid parse checkpoint actions =
    run-IsValid_from parse actions (create_messenger_store checkpoint)
      (create_messenger_store-IsValid checkpoint)
