-- ===== src/Web/Notifications/Rules.antt =====
-- What silences a notification in apps/web/src/notificationSound.ts.
use comamessenger.Prelude.{
  ℕ, ◌<◌, ◌-◌, ◌+◌, ltb, leb, if◌then◌else◌, ◌&&◌, ◌||◌, String, ◌≡◌, ◌≢◌, refl, sym, ap, ◌∙◌, inl,
  inr, Option, none, some, Bool, true, false, not, arith, eq_iff, Bool-cases,
}
use comamessenger.Wire.{DurableEvent, message_created, Message, Chat, NotifyLevel}
use comamessenger.Web.Chats.{includes}
use comamessenger.Web.Notifications.{
  Preferences, User, LocalTime, zone_of, inside_window, inside_schedule, is_before, allows_level,
  shows_message, shows_body, should_show_in_app_notification, should_play_notification_sound,
}

-- The minutes from one time of day until another comes next.
abbrev pub minutes_until : ℕ → ℕ → ℕ
minutes_until from to = if leb from to then to - from else 1440 + to - from

window :
    (f t n : ℕ)
    → f < 1440
    → t < 1440
    → n < 1440
    → f ≢ t
    → (if ltb f t then not (ltb n f) && ltb n t else not (ltb n f) || ltb n t)
      ≡ ltb (minutes_until f n) (minutes_until f t)
window f t n hf ht hn other = ground arith

module _ (time : String → ℕ) (less : String → String → Bool)
    (local : String → String → LocalTime) where
  -- A window holds at a time of day just if that time comes, counted from the window's beginning and
  -- past midnight if need be, before the window's end does. `f`, `t` and `n` are the minutes of the
  -- day that the three texts stand for, and the texts are in the order of their minutes.
  pub inside_window_lem :
      (from to current : String) (f t n : ℕ)
      → f < 1440
      → t < 1440
      → n < 1440
      → f ≢ t
      → less from to ≡ ltb f t
      → less current from ≡ ltb n f
      → less current to ≡ ltb n t
      → inside_window time less local from to current ≡ ltb (minutes_until f n) (minutes_until f t)
  unfolding inside_window
  inside_window_lem from to current f t n hf ht hn other h1 h2 h3 =
      rw (h1, h2, h3) (window f t n hf ht hn other)

  -- What lets a message of a chat through.
  abbrev pub IsOpen : Chat → String → Type 0
  IsOpen chat moment =
      (is_before time less local moment chat.muted_until ≡ false)
      × (chat.notify_level ≢ NotifyLevel.none)

  level_lem :
      (level : NotifyLevel) (p : Preferences) (chat : Chat) (m : Message) (mentioned : Bool)
      → allows_level time less local level p chat m mentioned ≡ true
      → level ≢ NotifyLevel.none
  unfolding allows_level
  level_lem NotifyLevel.none p chat m mentioned h e = cc
  level_lem NotifyLevel.default p chat m mentioned h e = cc
  level_lem NotifyLevel.mentions p chat m mentioned h e = cc
  level_lem NotifyLevel.all p chat m mentioned h e = cc

  shows_message_lem :
      (p : Preferences) (user : User) (chat : Option Chat) (moment : String) (m : Message)
      → shows_message time less local p user chat moment m ≡ true
      → (c : Chat) × (chat ≡ some c) × IsOpen c moment
  unfolding shows_message
  shows_message_lem p user none moment m h = absurd (ground arith)
  shows_message_lem p user (some c) moment m h =
      elim (Bool-cases (is_before time less local moment c.muted_until)) [
        | inl e ↦ absurd (ground arith)
        | inr e ↦ (
          c,
          refl,
          (e, level_lem c.notify_level p c m (includes user.id m.mentioned_actor_ids) (rw e at h)),
        )
      ]

  -- The sound of a new message is played only if both kinds of notification are on, the message is
  -- another's, the client is not snoozed and inside its schedule, and the message's chat is known,
  -- not muted and not silenced by its level.
  pub should_play_notification_sound_lem :
      (event : DurableEvent) (user : User) (p : Preferences) (chat : Option Chat) (m : Message)
      → event.body ≡ message_created m
      → should_play_notification_sound time less local event user (some p) chat ≡ true
      → (p.sound_enabled ≡ true)
        × (p.in_app_enabled ≡ true)
        × (event.actor_id ≢ user.id)
        × (is_before time less local event.occurred_at p.snoozed_until ≡ false)
        × (inside_schedule time less local event.occurred_at (zone_of user.timezone) p.schedule
            ≡ true)
        × ((c : Chat) × (chat ≡ some c) × IsOpen c event.occurred_at)
  unfolding should_play_notification_sound should_show_in_app_notification shows_body
  should_play_notification_sound_lem event user p chat m created h =
      let shown : shows_body time less local p user chat event.occurred_at event.body ≡ true =
        ground arith in
      (
        ground arith,
        ground arith,
        λ same. ground (arith, eq_iff event.actor_id user.id),
        ground arith,
        ground arith,
        shows_message_lem p user chat event.occurred_at m
            (ap (shows_body time less local p user chat event.occurred_at) (sym created) ∙ shown),
      )
