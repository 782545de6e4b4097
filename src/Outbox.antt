-- ===== src/Outbox.antt =====
-- The queue of unsent messages, packages/core/src/outbox.ts. The server and the storage answer
-- through `Round`, one for each item of a `flush`, which also has what is enqueued while that item's
-- calls are awaited; what the callbacks are called with is a trace.
pub mod Delivery
pub mod Requests
mod Tests
use comamessenger.Prelude.{
  ℕ, zero, ◌+◌, ◌-◌, ◌^◌, String, Option, none, some, Bool, true, false, ◌||◌, not, List, [], ◌∷◌,
  ◌++◌, ltb, str_eq, if◌then◌else◌,
}
use comamessenger.Wire.{Field, null, Message, BodyFormat, plain, sending}

-- `CreateMessageRequest`
pub record Input : Type 0 where
  pub client_msg_id : String
  pub body : String
  pub body_format : Option BodyFormat
  pub reply_to_id : Option String
  pub thread_root_id : Option String
  pub mentioned_actor_ids : Option (List String)
  pub file_ids : Option (List String)
  pub run_id : Option String

-- `OutboxItem`
pub record Item : Type 0 where
  pub chat_id : String
  pub input : Input
  pub created_at : String
  pub attempts : ℕ

abbrev pub id_of : Item → String
id_of item = item.input.client_msg_id

-- `OutboxStorage` over the key path `input.client_msg_id` (apps/web/src/persistence.ts)
unfoldable pub store_put : Item → List Item → List Item
store_put v [] = v ∷ []
store_put v (x ∷ xs) =
    let rest = store_put v xs in if str_eq (id_of x) (id_of v) then v ∷ xs else x ∷ rest

unfoldable pub store_delete : String → List Item → List Item
store_delete id [] = []
store_delete id (x ∷ xs) =
    let rest = store_delete id xs in if str_eq (id_of x) id then rest else x ∷ rest

-- The calls of the callbacks and of `createMessage`.
pub data Call : Type 0 where
  optimistic : Message → Call
  delivered : Message → Call
  retrying : String → Call
  failed : String → String → Call
  posted : String → Input → Call

-- What `createMessage` comes back with: a message, an `APIError` with its code, or another error.
pub data Posting : Type 0 where
  created : Message → Posting
  api_error : String → Posting
  other_error : Posting

-- A call of `enqueue`, with the time of the call.
pub record Arrival : Type 0 where
  pub chat_id : String
  pub input : Input
  pub created_at : String

-- How one item fares: its posting, whether the deletion and the write that follow succeed, and what
-- is enqueued while the posting and while the storage call behind it are awaited. A storage call that
-- fails leaves the queue as it is, so what comes between two calls counts as `meanwhile`.
pub record Round : Type 0 where
  pub posting : Posting
  pub deletes : Bool
  pub writes : Bool
  pub meanwhile : List Arrival
  pub afterwards : List Arrival

-- What `storage.list` gives, and what is enqueued before it is there: none where it throws.
pub record Listing : Type 0 where
  pub listed : Option (List Item)
  pub arrivals : List Arrival

pub record Outbox : Type 0 where
  pub running : Bool
  pub items : List Item
  pub trace : List Call

abbrev log : Call → Outbox → Outbox
log c o = record o { trace = o.trace ++ c ∷ [] }

abbrev pub max_safe_integer : ℕ
max_safe_integer = 2 ^ 53 - 1

abbrev pub or_else {ℓ} : {A : Type ℓ} → Option A → A → A
or_else none d = d
or_else (some a) d = a

-- the message that `enqueue` shows at once
unfoldable pub placeholder : String → String → Input → Message
placeholder chat_id created_at input = record {
  id = input.client_msg_id;
  chat_id = chat_id;
  actor_id = "";
  client_msg_id = input.client_msg_id;
  body = input.body;
  body_format = or_else input.body_format plain;
  reply_to_id = input.reply_to_id;
  thread_root_id = input.thread_root_id;
  mentioned_actor_ids = or_else input.mentioned_actor_ids [];
  thread_reply_count = 0;
  version = 1;
  created_seq = max_safe_integer;
  created_at = created_at;
  edited_at = none;
  deleted_at = none;
  forwarded_from = null;
  files = [];
  delivery = some sending;
  error_code = none;
}

abbrev pub item_of : Arrival → Item
item_of a = record { chat_id = a.chat_id; input = a.input; created_at = a.created_at; attempts = 0 }

-- `enqueue` up to its `flush`, where the write succeeds
unfoldable pub arrive : Arrival → Outbox → Outbox
unfolding store_put placeholder
arrive a o =
    log (optimistic (placeholder a.chat_id a.created_at a.input))
      (record o { items = store_put (item_of a) o.items })

-- All that is enqueued while a flush runs, which `running` makes end there.
unfoldable pub arrive_all : List Arrival → Outbox → Outbox
unfolding arrive
arrive_all [] o = o
arrive_all (a ∷ arrivals) o = arrive_all arrivals (arrive a o)

-- The rest of the `catch` block after its storage call: it throws if that failed.
abbrev closed : Bool → Call → Outbox → Outbox → Outbox × Bool
closed true c before after = (log c after, true)
closed false c before after = (before, false)

-- `catch (cause)`, where `code` is that of an `APIError`; false is a throw out of the loop
unfoldable pub handle_error : Round → Item → Option String → Outbox → Outbox × Bool
unfolding store_put store_delete
handle_error r item (some code) o =
    if str_eq code "idempotency_conflict"
    then closed r.deletes (failed (id_of item) code) o
        (record o { items = store_delete (id_of item) o.items })
    else closed r.writes (failed (id_of item) code) o
        (record o { items = store_put (record item { attempts = item.attempts + 1 }) o.items })
handle_error r item none o =
    closed r.writes (failed (id_of item) "offline") o
      (record o { items = store_put (record item { attempts = item.attempts + 1 }) o.items })

-- what follows the answer of `createMessage`
unfoldable pub settle : Round → Item → Posting → Outbox → Outbox × Bool
unfolding handle_error
settle r item (created m) o =
    if r.deletes
    then (log (delivered m) (record o { items = store_delete (id_of item) o.items }), true)
    else handle_error r item none o
settle r item (api_error code) o = handle_error r item (some code) o
settle r item other_error o = handle_error r item none o

-- one round of the loop of `flush`
unfoldable pub send : Round → Item → Outbox → Outbox × Bool
unfolding settle arrive_all
send r item o =
    let (o', alive) = settle r item r.posting (
      arrive_all r.meanwhile (
        log (posted item.chat_id item.input)
          (if ltb 0 item.attempts then log (retrying (id_of item)) o else o))) in
    (arrive_all r.afterwards o', alive)

-- The loop of `flush` over the items that were listed, each of which fares as `answers` says. A throw
-- ends it.
unfoldable pub send_all : (Item → Round) → List Item → Outbox → Outbox × Bool
unfolding send
send_all answers [] o = (o, true)
send_all answers (item ∷ items) o =
    let (o', alive) = send (answers item) item o in
    let rest = send_all answers items o' in if alive then rest else (o', false)

-- `flush`, where `list` is what becomes of `storage.list` for a queue. `finally` clears `running` on
-- every way out, and the Boolean tells a return from a throw.
unfoldable pub flush : (List Item → Listing) → Bool → (Item → Round) → Outbox → Outbox × Bool
unfolding send_all arrive_all
flush list has_token answers o =
    let started = arrive_all (list o.items).arrivals (record o { running = true }) in
    if o.running || not has_token then (o, true) else elim (list o.items).listed [
      | none ↦ (record started { running = false }, false)
      | some items ↦
          (let (o', returns) = send_all answers items started in
            (record o' { running = false }, returns))
    ]

-- `enqueue`; the write may fail, and then nothing is shown
unfoldable pub enqueue :
    (List Item → Listing) → Bool → Bool → (Item → Round) → Arrival → Outbox → Outbox × Bool
unfolding arrive flush
enqueue list has_token writes answers a o =
    if writes then flush list has_token answers (arrive a o) else (o, false)
