-- ===== src/Outbox/Tests.antt =====
-- A queue of two messages, the second of which the server does not take yet.
use comamessenger.Prelude.{
  String, ◌≡◌, refl, none, some, List, true, false, [], ◌∷◌, str_eq, if◌then◌else◌,
}
use comamessenger.Wire.{Message}
use comamessenger.Outbox.{
  Item, id_of, Arrival, Listing, arrive, arrive_all, created, api_error, Round, Outbox, placeholder,
  flush, send_all, send, settle, handle_error, store_put, store_delete,
}
use comamessenger.Outbox.Delivery.{find, flush_keeps, IsConfirmed}
use comamessenger.Outbox.Requests.{IsFlushed, flush_requests}

abbrev item : String → Item
item id = record {
  chat_id = "c";
  input = record {
    client_msg_id = id;
    body = "hello";
    body_format = none;
    reply_to_id = none;
    thread_root_id = none;
    mentioned_actor_ids = none;
    file_ids = none;
    run_id = none;
  };
  created_at = "t";
  attempts = 0;
}

abbrev confirmed : Message
confirmed = placeholder "c" "t" (item "x").input

-- A message that is enqueued while the flush waits for the deletion of `x`.
abbrev late : Arrival
late = record { chat_id = "c"; input = (item "z").input; created_at = "u" }

-- All that is there is listed.
abbrev list : List Item → Listing
list items = record { listed = some items; arrivals = [] }

-- The server takes only the message `x`.
abbrev answers : Item → Round
answers i = record {
  posting = if str_eq (id_of i) "x" then created confirmed else api_error "rate_limited";
  deletes = true;
  writes = true;
  meanwhile = [];
  afterwards = if str_eq (id_of i) "x" then late ∷ [] else [];
}

abbrev queue : Outbox
queue = record { running = false; items = item "x" ∷ item "y" ∷ []; trace = [] }

flush_keeps_example : (y : Item) × (id_of y ≡ "x") × IsConfirmed (answers y).posting
unfolding find flush send_all send settle handle_error store_put store_delete arrive arrive_all
flush_keeps_example = flush_keeps list true answers queue "x" (item "x") refl refl

flush_requests_example : IsFlushed false list answers queue (flush list true answers queue)
unfolding flush send_all send settle handle_error store_put store_delete arrive arrive_all
flush_requests_example = flush_requests list true answers queue refl
