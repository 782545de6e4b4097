-- ===== src/Store/Merge.antt =====
-- How the store of packages/core/src/store.ts merges and orders the messages of a chat.
use comamessenger.Prelude.{
  String, Option, none, some, Bool, ◌||◌, List, [], ◌∷◌, map, leb, str_eq, if◌then◌else◌,
}
use comamessenger.Prelude.Dict.{Dict, lookup, insert}
use comamessenger.Wire.{Field, absent, null, value, Message, sent}

abbrev pub keep_field {ℓ} : {A : Type ℓ} → Field A → Field A → Field A
keep_field old absent = old
keep_field old null = null
keep_field old (value a) = value a

abbrev pub keep_option {ℓ} : {A : Type ℓ} → Option A → Option A → Option A
keep_option old none = old
keep_option old (some a) = some a

-- `{ ...old, ...new }`
unfoldable pub spread : Message → Message → Message
spread old new = record new {
  forwarded_from = keep_field old.forwarded_from new.forwarded_from;
  delivery = keep_option old.delivery new.delivery;
  error_code = keep_option old.error_code new.error_code;
}

-- `item.id || item.client_msg_id`
unfoldable pub key : Message → String
key m = if str_eq m.id "" then m.client_msg_id else m.id

-- `{ ...unique.get(key), ...item }`
unfoldable pub spread_on : Option Message → Message → Message
unfolding spread
spread_on none item = item
spread_on (some old) item = spread old item

-- one round of the loop of `uniqueSorted`
unfoldable pub put : Dict Message → Message → Dict Message
unfolding spread_on key
put unique item = insert (key item) (spread_on (lookup (key item) unique) item) unique

unfoldable pub put_all : Dict Message → List Message → Dict Message
put_all unique [] = unique
put_all unique (item ∷ items) = put_all (put unique item) items

abbrev pub values {ℓ} : {V : Type ℓ} → Dict V → List V
values = map (λ e. e.1)

-- `Array.prototype.sort` by `created_seq`, which is stable
unfoldable pub insert_by_seq : Message → List Message → List Message
insert_by_seq m [] = m ∷ []
insert_by_seq m (x ∷ xs) =
    let rest = insert_by_seq m xs in
    if leb m.created_seq x.created_seq then m ∷ x ∷ xs else x ∷ rest

unfoldable pub sort_by_seq : List Message → List Message
unfolding insert_by_seq
sort_by_seq [] = []
sort_by_seq (m ∷ ms) = insert_by_seq m (sort_by_seq ms)

unfoldable pub unique_sorted : List Message → List Message
unfolding put_all sort_by_seq put
unique_sorted items = sort_by_seq (values (put_all [] items))

-- the test of the two `findIndex` calls
unfoldable pub is_same : Message → Message → Bool
is_same incoming item =
    str_eq item.id incoming.id || str_eq item.client_msg_id incoming.client_msg_id

-- the merge into the first item that is the same, or the append where `findIndex` gives -1
unfoldable pub upsert : Message → List Message → List Message
unfolding is_same spread
upsert delivered [] = delivered ∷ []
upsert delivered (item ∷ items) =
    let rest = upsert delivered items in
    if is_same delivered item then spread item delivered ∷ items else item ∷ rest

-- `{ ...incoming, delivery: "sent" }`
abbrev pub deliver : Message → Message
deliver incoming = record incoming { delivery = some sent }

-- `state.messages[chatID] ?? []`
unfoldable pub feed : String → Dict (List Message) → List Message
unfolding lookup
feed chat_id messages = elim (lookup chat_id messages) [ none ↦ [] | some items ↦ items ]

unfoldable pub reconcile_message : Dict (List Message) → Message → Dict (List Message)
unfolding feed upsert unique_sorted insert
reconcile_message input incoming =
    insert incoming.chat_id
      (unique_sorted (upsert (deliver incoming) (feed incoming.chat_id input))) input
