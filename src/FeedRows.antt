-- ===== src/FeedRows.antt =====
-- The layout of a chat's messages, packages/core/src/feed.ts. `time` and `day` stand for `getTime`
-- and `toDateString` of `new Date(created_at)`, in the time zone of the client.
pub mod Unread
pub mod Groups
mod Tests
use comamessenger.Prelude.{
  ℕ, ◌+◌, ◌*◌, String, Option, none, some, Bool, true, false, ◌&&◌, ◌||◌, not, List, [], ◌∷◌, ltb,
  leb, str_eq, if◌then◌else◌,
}
use comamessenger.Wire.{Message}

pub record FeedRow : Type 0 where
  pub message : Message
  pub new_day : Bool
  pub first_unread : Bool
  pub grouped : Bool

abbrev pub group_window_ms : ℕ
group_window_ms = 5 * 60000

module _ (time : String → ℕ) (day : String → String) where
  -- `!previous || ...toDateString() !== ...toDateString()`
  abbrev pub is_new_day : Option Message → Message → Bool
  is_new_day none m = true
  is_new_day (some p) m = not (str_eq (day p.created_at) (day m.created_at))

  abbrev pub is_first_unread : ℕ → Option Message → Message → Bool
  is_first_unread anchor none m = ltb 0 anchor && ltb anchor m.created_seq
  is_first_unread anchor (some p) m =
      ltb 0 anchor && (ltb anchor m.created_seq && leb p.created_seq anchor)

  -- The same author, and less than the window between the two times.
  abbrev pub follows : Option Message → Message → Bool
  follows none m = false
  follows (some p) m =
      str_eq p.actor_id m.actor_id && ltb (time m.created_at) (time p.created_at + group_window_ms)

  unfoldable pub feed_row : ℕ → Option Message → Message → FeedRow
  feed_row anchor previous m = record {
    message = m;
    new_day = is_new_day previous m;
    first_unread = is_first_unread anchor previous m;
    grouped =
        not (is_new_day previous m)
        && (not (is_first_unread anchor previous m) && follows previous m);
  }

  unfoldable pub rows_after : ℕ → Option Message → List Message → List FeedRow
  unfolding feed_row
  rows_after anchor previous [] = []
  rows_after anchor previous (m ∷ ms) = feed_row anchor previous m ∷ rows_after anchor (some m) ms

  unfoldable pub feed_rows : List Message → ℕ → List FeedRow
  unfolding rows_after
  feed_rows messages unread_anchor = rows_after unread_anchor none messages
