-- ===== src/FeedRows/Tests.antt =====
-- Three messages of two days, the last two of which are unread.
use comamessenger.Prelude.{ℕ, String, ◌≡◌, none, List, [], ◌∷◌, map, arith, str_eq, if◌then◌else◌}
use comamessenger.Wire.{Message, absent, plain}
use comamessenger.FeedRows.{feed_rows}
use comamessenger.FeedRows.Unread.{marks, has_unread, marks-feed_rows}
use comamessenger.FeedRows.Groups.{IsGrouped, feed_rows-IsGrouped}

abbrev message : String → String → ℕ → Message
message id created_at seq = record {
  id = id;
  chat_id = "c";
  actor_id = "a";
  client_msg_id = id;
  body = "hello";
  body_format = plain;
  reply_to_id = none;
  thread_root_id = none;
  mentioned_actor_ids = [];
  thread_reply_count = 0;
  version = 1;
  created_seq = seq;
  created_at = created_at;
  edited_at = none;
  deleted_at = none;
  forwarded_from = absent;
  files = [];
  delivery = none;
  error_code = none;
}

abbrev three : List Message
three = message "1" "late" 4 ∷ message "2" "early" 6 ∷ message "3" "early" 9 ∷ []

abbrev time : String → ℕ
time text = if str_eq text "late" then 1000 else 2000

abbrev day : String → String
day text = if str_eq text "late" then "Monday" else "Tuesday"

marks-feed_rows_example : marks (feed_rows time day three 4) ≡ (if has_unread 4 three then 1 else 0)
marks-feed_rows_example =
    marks-feed_rows time day three 4 (omega arith)
      ((omega arith, (omega arith, tt)), ((omega arith, tt), (tt, tt)))

feed_rows-IsGrouped_example :
    (map (λ r. r.message) (feed_rows time day three 4) ≡ three)
    × IsGrouped time day none (feed_rows time day three 4)
feed_rows-IsGrouped_example = feed_rows-IsGrouped time day three 4
