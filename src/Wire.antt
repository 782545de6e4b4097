-- ===== src/Wire.antt =====
-- The values that the server and the clients exchange: packages/core/src/types.ts, with the schema
-- types that it names. A key that JSON may leave out is told apart from one that is null, since a
-- spread keeps the old value in the one case and not in the other.
use comamessenger.Prelude.{ℕ, String, Option, List}

-- The value under an optional, nullable key of an object.
pub data Field {ℓ} (A : Type ℓ) : Type ℓ where
  absent null : Field A
  value : A → Field A

pub data Delivery : Type 0 where
  sending sent failed retrying : Delivery

pub data BodyFormat : Type 0 where
  plain markdown : BodyFormat

pub record ForwardAttribution : Type 0 where
  pub author_name : String
  pub author_handle : String
  pub created_at : String

-- `ClientMessage`. Core writes every key of a message but `forwarded_from`; `delivery` and
-- `error_code` are the client's own. Files are held by their ids.
pub record Message : Type 0 where
  pub id : String
  pub chat_id : String
  pub actor_id : String
  pub client_msg_id : String
  pub body : String
  pub body_format : BodyFormat
  pub reply_to_id : Option String
  pub thread_root_id : Option String
  pub mentioned_actor_ids : List String
  pub thread_reply_count : ℕ
  pub version : ℕ
  pub created_seq : ℕ
  pub created_at : String
  pub edited_at : Option String
  pub deleted_at : Option String
  pub forwarded_from : Field ForwardAttribution
  pub files : List String
  pub delivery : Option Delivery
  pub error_code : Option String

pub data ChatKind : Type 0 where
  direct group channel : ChatKind

pub data Role : Type 0 where
  owner admin member : Role

pub data NotifyLevel : Type 0 where
  default all mentions none : NotifyLevel

-- The keys of a chat that the client code reads.
pub record Chat : Type 0 where
  pub id : String
  pub kind : ChatKind
  pub role : Role
  pub name : Option String
  pub display_name : String
  pub notify_level : NotifyLevel
  pub muted_until : Option String

pub record UnreadChat : Type 0 where
  pub chat_id : String
  pub last_read_seq : ℕ
  pub unread_count : ℕ
  pub mention_count : ℕ

pub record UnreadThread : Type 0 where
  pub thread_root_id : String
  pub unread_count : ℕ

pub record UnreadSnapshot : Type 0 where
  pub chats : List UnreadChat
  pub threads : List UnreadThread

-- The `type` of a durable event with its `data`, which for the message events is the message itself
-- (docs/protocols/realtime-v1.md, section 4).
pub data EventBody : Type 0 where
  message_created message_updated message_deleted : Message → EventBody
  reaction_added member_joined member_updated member_removed : EventBody
  other_event : String → EventBody

pub record DurableEvent : Type 0 where
  pub seq : ℕ
  pub body : EventBody
  pub occurred_at : String
  pub actor_id : String
  pub chat_id : Option String
  pub subject_id : String

pub data RealtimeState : Type 0 where
  idle connecting authenticating backlog live reconnecting : RealtimeState
  resync_required password_change_required session_expired : RealtimeState

pub data Presence : Type 0 where
  online away offline : Presence

pub data AgentPhase : Type 0 where
  thinking tool streaming completed failed canceled : AgentPhase
