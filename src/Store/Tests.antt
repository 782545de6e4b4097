-- ===== src/Store/Tests.antt =====
-- Two messages of a chat, one of them twice, and the theorems on the store at them.
use comamessenger.Prelude.{
  ℕ, String, ◌≡◌, refl, Option, none, some, true, false, List, [], ◌∷◌, ◌++◌, arith, str_eq, eq_iff,
  if◌then◌else◌, ◌≤◌,
}
use comamessenger.Prelude.Dict.{lookup}
use comamessenger.Wire.{
  Message, absent, plain, DurableEvent, message_created, other_event, thinking,
}
use comamessenger.Store.Merge.{key, is_same, unique_sorted, feed, deliver, spread_on}
use comamessenger.Store.Feed.{IsFeed, find, merged}
use comamessenger.Store.Unique.{unique_sorted_lem, unique_sorted_of_IsFeed}
use comamessenger.Store.State.{State, MessageStream, StreamFrame, create_messenger_store, reconcile}
use comamessenger.Store.Actions.{
  Action, replaces_messages, shows, reconciles, applies, sets_typing, run,
}
use comamessenger.Store.Invariant.{IsValid, run-IsValid}
use comamessenger.Store.Replay.{apply_all, apply_all_again}
use comamessenger.Store.Streams.{apply_frames, apply_frames-body, deltas, last_index}
use comamessenger.Store.Confirm.{reconcile_lem, find_same, is_key_of, count_same}

abbrev message : String → String → ℕ → Message
message id client_msg_id seq = record {
  id = id;
  chat_id = "c";
  actor_id = "a";
  client_msg_id = client_msg_id;
  body = "hello";
  body_format = plain;
  reply_to_id = none;
  thread_root_id = none;
  mentioned_actor_ids = [];
  thread_reply_count = 0;
  version = 1;
  created_seq = seq;
  created_at = "t";
  edited_at = none;
  deleted_at = none;
  forwarded_from = absent;
  files = [];
  delivery = none;
  error_code = none;
}

abbrev first : Message
first = message "m1" "x1" 4

abbrev second : Message
second = message "m2" "x2" 7

abbrev shown : Message
shown = message "x2" "x2" 99

abbrev event : ℕ → Message → DurableEvent
event seq m = record {
  seq = seq;
  body = message_created m;
  occurred_at = "t";
  actor_id = "a";
  chat_id = some "c";
  subject_id = m.id;
}

unique_sorted_lem_example :
    IsFeed (unique_sorted (second ∷ first ∷ second ∷ []))
    × ((k : String)
        → find k (unique_sorted (second ∷ first ∷ second ∷ []))
          ≡ merged k none (second ∷ first ∷ second ∷ []))
unique_sorted_lem_example = unique_sorted_lem (second ∷ first ∷ second ∷ [])

two-IsFeed : IsFeed (first ∷ second ∷ [])
unfolding key
two-IsFeed = record {
  sorted = ((omega arith, tt), (tt, tt));
  distinct = ((λ p. ground (arith, eq_iff "m2" "m1"), tt), (tt, tt));
}

unique_sorted_of_IsFeed_example : unique_sorted (first ∷ second ∷ []) ≡ first ∷ second ∷ []
unique_sorted_of_IsFeed_example = unique_sorted_of_IsFeed (first ∷ second ∷ []) two-IsFeed

abbrev no_date : String → Option ℕ
no_date text = none

abbrev actions : List (ℕ × Action)
actions =
    (0, replaces_messages "c" (second ∷ first ∷ second ∷ []))
    ∷ (1, shows shown)
    ∷ (2, reconciles second)
    ∷ (3, applies (event 9 second))
    ∷ (4, sets_typing "c" "a" true)
    ∷ (5, sets_typing "c" "a" true)
    ∷ []

run-IsValid_example : IsValid (run no_date actions (create_messenger_store 2))
run-IsValid_example = run-IsValid no_date 2 actions

apply_all_again_example :
    (apply_all
        ((event 3 first ∷ []) ++ ((event 5 second ∷ []) ++ ((event 5 second ∷ []) ++ [])))
        (create_messenger_store 2)
      ≡ apply_all
          ((event 3 first ∷ []) ++ ((event 5 second ∷ []) ++ []))
          (create_messenger_store 2))
    × ((create_messenger_store 2).checkpoint
        ≤ (apply_all
            ((event 3 first ∷ []) ++ ((event 5 second ∷ []) ++ []))
            (create_messenger_store 2)).checkpoint)
apply_all_again_example =
    apply_all_again (event 3 first ∷ []) (event 5 second ∷ []) [] (create_messenger_store 2)

abbrev stream : MessageStream
stream = record {
  stream_id = "s";
  run_id = "r";
  actor_id = "a";
  chat_id = "c";
  thread_root_id = none;
  body = 72 ∷ [];
  index = 1;
  expires_at = "e";
}

abbrev frame : ℕ → StreamFrame
frame index = record {
  stream_id = "s";
  run_id = "r";
  actor_id = "a";
  chat_id = "c";
  thread_root_id = none;
  index = index;
  expires_at = "e";
  delta = index ∷ [];
  reset = false;
  done = false;
}

abbrev streaming : State
streaming = record {
  chats = [];
  messages = [];
  unread = record { chats = []; threads = [] };
  typing = [];
  presence = [];
  agent_statuses = [];
  message_streams = ("s", stream) ∷ [];
  checkpoint = 0;
  realtime = comamessenger.Wire.live;
  active_chat_id = none;
}

abbrev far : String → Option ℕ
far text = some 1000

apply_frames-body_example :
    ((m' : MessageStream) × (lookup "s"
          (apply_frames far 10 (frame 2 ∷ frame 5 ∷ []) streaming).message_streams
        ≡ some m')
      × (m'.body ≡ (72 ∷ []) ++ deltas far 10 (frame 2 ∷ frame 5 ∷ []))
      × (m'.index ≡ last_index far 10 1 (frame 2 ∷ frame 5 ∷ [])))
    × ((other : String)
        → lookup other (apply_frames far 10 (frame 2 ∷ frame 5 ∷ []) streaming).message_streams ≡ (
            if str_eq "s" other
            then lookup "s" (apply_frames far 10 (frame 2 ∷ frame 5 ∷ []) streaming).message_streams
            else lookup other streaming.message_streams))
unfolding lookup
apply_frames-body_example =
    apply_frames-body far 10 "s" (frame 2 ∷ frame 5 ∷ []) streaming stream refl
      (refl, (refl, refl), refl, omega arith, (refl, (refl, refl), refl, omega arith, tt))

abbrev waiting : State
waiting = record streaming { messages = ("c", first ∷ shown ∷ []) ∷ [] }

abbrev old : List Message
old = first ∷ shown ∷ []

old-IsFeed : IsFeed old
unfolding key
old-IsFeed = record {
  sorted = ((omega arith, tt), (tt, tt));
  distinct = ((λ p. ground (arith, eq_iff "x2" "m1"), tt), (tt, tt));
}

abbrev expected : String → Option Message
expected k =
    if str_eq "m2" k
    then some (spread_on (find_same (deliver second) old) (deliver second))
    else if is_key_of (find_same (deliver second) old) k
    then none
    else find k old

reconcile_lem_example :
    ((k : String) → find k (feed "c" (reconcile second waiting).messages) ≡ expected k)
    × ((chat_id : String)
        → lookup chat_id (reconcile second waiting).messages ≡ (
            if str_eq "c" chat_id
            then some (feed "c" (reconcile second waiting).messages)
            else lookup chat_id waiting.messages))
unfolding lookup feed
reconcile_lem_example =
    reconcile_lem second waiting (λ p. ground (arith, eq_iff "m2" "")) old-IsFeed
      ((λ p. ground (arith, eq_iff "m1" "")), ((λ p. ground (arith, eq_iff "x2" "")), tt))
      (unfold count_same is_same in omega arith)
