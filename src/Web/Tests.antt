-- ===== src/Web/Tests.antt =====
-- An event that rings, and a refresh behind that of another tab.
use comamessenger.Prelude.{
  arith, ltb, ℕ, String, ◌≡◌, ◌≢◌, refl, none, some, Bool, true, false, not, ◌&&◌, ◌||◌, List, [],
  ◌∷◌, str_eq,
}
use comamessenger.Wire.{
  Message, absent, plain, DurableEvent, message_created, Chat, group, admin, NotifyLevel,
}
use comamessenger.Web.Chats.{includes}
use comamessenger.Web.Notifications.{
  Preferences, User, LocalTime, every_day, everything, zone_of, inside_window, inside_schedule,
  is_before, should_play_notification_sound, should_show_in_app_notification, shows_body,
  shows_message, allows_level, allows_day,
}
use comamessenger.Web.Notifications.Rules.{
  IsOpen, inside_window_lem, minutes_until, should_play_notification_sound_lem,
}
use comamessenger.Web.TabSession.{tokens, logout, SessionMessage, create, shared, receive_all}
use comamessenger.Web.TabSession.Refresh.{last_tokens, shared-receive_all}

abbrev time : String → ℕ
time text = 1000

-- The order of the texts "09:00", "12:00" and "18:00".
abbrev less : String → String → Bool
less a b = str_eq a "09:00" && not (str_eq b "09:00") || str_eq a "12:00" && str_eq b "18:00"

abbrev local : String → String → LocalTime
local moment zone = record { weekday = 3; clock = "12:00" }

inside_window_lem_example :
    inside_window time less local "18:00" "09:00" "12:00"
    ≡ ltb (minutes_until 1080 720) (minutes_until 1080 540)
inside_window_lem_example =
    inside_window_lem time less local "18:00" "09:00" "12:00" 1080 540 720 (omega arith)
      (omega arith) (omega arith) (λ e. omega (arith, e)) refl refl refl

abbrev message : Message
message = record {
  id = "m";
  chat_id = "c";
  actor_id = "b";
  client_msg_id = "m";
  body = "hello";
  body_format = plain;
  reply_to_id = none;
  thread_root_id = none;
  mentioned_actor_ids = [];
  thread_reply_count = 0;
  version = 1;
  created_seq = 7;
  created_at = "t";
  edited_at = none;
  deleted_at = none;
  forwarded_from = absent;
  files = [];
  delivery = none;
  error_code = none;
}

abbrev event : DurableEvent
event = record {
  seq = 7;
  body = message_created message;
  occurred_at = "t";
  actor_id = "b";
  chat_id = some "c";
  subject_id = "m";
}

abbrev chat : Chat
chat = record {
  id = "c";
  kind = group;
  role = admin;
  name = none;
  display_name = "Chat";
  notify_level = NotifyLevel.all;
  muted_until = none;
}

abbrev user : User
user = record { id = "a"; timezone = none }

abbrev preferences : Preferences
preferences = record {
  in_app_enabled = true;
  sound_enabled = true;
  snoozed_until = none;
  schedule = some (record { from = "09:00"; to = "18:00"; days = every_day });
  notify_reactions = false;
  notify_invites = false;
  notify_system = false;
  notify_messages = everything;
  notify_threads = everything;
}

should_play_notification_sound_lem_example :
    (preferences.sound_enabled ≡ true)
    × (preferences.in_app_enabled ≡ true)
    × (event.actor_id ≢ user.id)
    × (is_before time less local "t" preferences.snoozed_until ≡ false)
    × (inside_schedule time less local "t" (zone_of user.timezone) preferences.schedule ≡ true)
    × ((c : Chat) × (some chat ≡ some c) × IsOpen time less local c "t")
unfolding should_play_notification_sound should_show_in_app_notification inside_schedule
    inside_window allows_day shows_body shows_message allows_level includes
should_play_notification_sound_lem_example =
    should_play_notification_sound_lem time less local event user preferences (some chat) message
      refl refl

abbrev messages : List SessionMessage
messages = logout ∷ tokens "new" ∷ []

shared-receive_all_example :
    shared create.revision (receive_all messages create) ≡ last_tokens none messages
shared-receive_all_example = shared-receive_all messages create
