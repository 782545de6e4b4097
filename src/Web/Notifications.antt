-- ===== src/Web/Notifications.antt =====
-- Which events the web client notifies of: `shouldShowInAppNotification`, `shouldPlayNotificationSound`
-- and `insideSchedule` of apps/web/src/notificationSound.ts. `time` stands for `new Date`, `less` for `<`
-- on texts, and `local` for the day of the week and the time of day of a moment in a time zone.
pub mod Rules
use comamessenger.Prelude.{
  ℕ, String, Option, none, some, Bool, true, false, ◌&&◌, ◌||◌, not, List, [], ◌∷◌, ltb, str_eq,
  ◌==◌, if◌then◌else◌,
}
use comamessenger.Wire.{
  DurableEvent, EventBody, message_created, message_updated, message_deleted, reaction_added,
  member_joined, member_updated, member_removed, other_event, Message, Chat, ChatKind, direct,
  NotifyLevel,
}
use comamessenger.Web.Chats.{includes, is_set, is_direct}

-- The days of a schedule: an unknown word is no restriction.
pub data Days : Type 0 where
  every_day weekdays : Days
  listed : List ℕ → Days

pub record Schedule : Type 0 where
  pub from : String
  pub to : String
  pub days : Days

pub data Audience : Type 0 where
  everything direct_and_mentions only_mentions nothing : Audience

-- The preferences that are read. `notify_messages` knows no `only_mentions`, and `notify_threads` no
-- `direct_and_mentions`.
pub record Preferences : Type 0 where
  pub in_app_enabled : Bool
  pub sound_enabled : Bool
  pub snoozed_until : Option String
  pub schedule : Option Schedule
  pub notify_reactions : Bool
  pub notify_invites : Bool
  pub notify_system : Bool
  pub notify_messages : Audience
  pub notify_threads : Audience

pub record User : Type 0 where
  pub id : String
  pub timezone : Option String

pub record LocalTime : Type 0 where
  pub weekday : ℕ
  pub clock : String

-- `Array.prototype.includes` on numbers
unfoldable pub includes_day : ℕ → List ℕ → Bool
includes_day d [] = false
includes_day d (x ∷ xs) = x == d || includes_day d xs

unfoldable pub allows_day : Days → ℕ → Bool
unfolding includes_day
allows_day every_day d = true
allows_day weekdays d = not (d == 0 || d == 6)
allows_day (listed ds) d = includes_day d ds

abbrev pub zone_of : Option String → String
zone_of none = "UTC"
zone_of (some zone) = if str_eq zone "" then "UTC" else zone

module _ (time : String → ℕ) (less : String → String → Bool)
    (local : String → String → LocalTime) where
  -- `current` against the two ends of the schedule
  unfoldable pub inside_window : String → String → String → Bool
  inside_window from to current =
      if less from to
      then not (less current from) && less current to
      else not (less current from) || less current to

  unfoldable pub inside_schedule : String → String → Option Schedule → Bool
  unfolding inside_window allows_day
  inside_schedule moment zone none = true
  inside_schedule moment zone (some s) =
      if str_eq s.from s.to
      then true
      else (let now = local moment zone in
          if allows_day s.days now.weekday then inside_window s.from s.to now.clock else false)

  -- `until && occurredAt < new Date(until)`
  abbrev pub is_before : String → Option String → Bool
  is_before moment none = false
  is_before moment (some until) = not (str_eq until "") && ltb (time moment) (time until)

  abbrev pub allows_messages : Audience → Bool → Bool
  allows_messages everything near = true
  allows_messages direct_and_mentions near = near
  allows_messages _ near = false

  abbrev pub allows_threads : Audience → Bool → Bool
  allows_threads everything mentioned = true
  allows_threads only_mentions mentioned = mentioned
  allows_threads _ mentioned = false

  -- the rules from the chat's own level on
  unfoldable pub allows_level : NotifyLevel → Preferences → Chat → Message → Bool → Bool
  allows_level NotifyLevel.none p chat m mentioned = false
  allows_level NotifyLevel.mentions p chat m mentioned = mentioned
  allows_level NotifyLevel.all p chat m mentioned = true
  allows_level NotifyLevel.default p chat m mentioned =
      if allows_messages p.notify_messages (is_direct chat.kind || mentioned)
      then (if is_set m.thread_root_id then allows_threads p.notify_threads mentioned else true)
      else false

  unfoldable pub shows_message : Preferences → User → Option Chat → String → Message → Bool
  unfolding allows_level includes
  shows_message p user none moment m = false
  shows_message p user (some chat) moment m =
      if is_before moment chat.muted_until
      then false
      else allows_level chat.notify_level p chat m (includes user.id m.mentioned_actor_ids)

  unfoldable pub shows_body : Preferences → User → Option Chat → String → EventBody → Bool
  unfolding shows_message
  shows_body p user chat moment reaction_added = p.notify_reactions
  shows_body p user chat moment member_joined = p.notify_invites
  shows_body p user chat moment member_updated = p.notify_system
  shows_body p user chat moment member_removed = p.notify_system
  shows_body p user chat moment (message_created m) = shows_message p user chat moment m
  shows_body p user chat moment _ = false

  unfoldable pub should_show_in_app_notification :
      DurableEvent → User → Option Preferences → Option Chat → Bool
  unfolding inside_schedule shows_body
  should_show_in_app_notification event user none chat = false
  should_show_in_app_notification event user (some p) chat =
      if not p.in_app_enabled || str_eq event.actor_id user.id
      then false
      else if is_before event.occurred_at p.snoozed_until
      then false
      else if not (inside_schedule event.occurred_at (zone_of user.timezone) p.schedule)
      then false
      else shows_body p user chat event.occurred_at event.body

  abbrev pub is_loud : Option Preferences → Bool
  is_loud none = false
  is_loud (some p) = p.sound_enabled

  unfoldable pub should_play_notification_sound :
      DurableEvent → User → Option Preferences → Option Chat → Bool
  unfolding should_show_in_app_notification
  should_play_notification_sound event user preferences chat =
      is_loud preferences && should_show_in_app_notification event user preferences chat
