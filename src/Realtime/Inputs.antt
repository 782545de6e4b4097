-- ===== src/Realtime/Inputs.antt =====
-- All that can happen to the coordinator of packages/core/src/realtime.ts, as one step function.
use comamessenger.Prelude.{ℕ, ◌<◌, String, Option, none, some, Bool, true, false, List, [], ◌∷◌}
use comamessenger.Realtime.{
  InFrame, event, Coordinator, Renewal, start, stop, connect, connected, connect_failed, subscribe,
  send_typing, send_presence, on_open, ack_timeout, receive, on_close, reauthenticated, greeted,
  handled, written, resynchronized, replaced,
}

pub data Input : Type 0 where
  starts stops retries times_out fails_to_connect replaces : Input
  connects : ℕ → Option String → Input
  subscribes : Option String → Option String → Input
  types : String → Bool → Option String → Input
  turns : Bool → Input
  opens : Option String → Input
  receives : Bool → InFrame → Input
  greets handles writes resyncs : ℕ → Input
  closes : ℕ → ℕ → ℕ → Input
  reauthenticates : Renewal → Input

unfoldable pub step : Input → Coordinator → Coordinator
step starts c = (start c).0
step stops c = stop c
step retries c = (connect true c).0
step times_out c = ack_timeout c
step fails_to_connect c = connect_failed c
step (connects number token) c = connected number token c
step (subscribes chat_id thread_root_id) c = subscribe chat_id thread_root_id c
step (types chat_id active thread_root_id) c = send_typing chat_id active thread_root_id c
step (turns active) c = send_presence active c
step (opens token) c = on_open token c
step (receives accepted frame) c = receive accepted frame c
step (greets current_seq) c = greeted current_seq c
step (handles seq) c = handled seq c
step (writes value) c = written value c
step (resyncs high) c = resynchronized high c
step replaces c = replaced c
step (closes number code jitter) c = (on_close number code jitter c).0
step (reauthenticates renewal) c = (reauthenticated renewal c).0

unfoldable pub run : List Input → Coordinator → Coordinator
unfolding step
run [] c = c
run (i ∷ inputs) c = run inputs (step i c)

-- The number of the event whose handling the input ends: an event that was not accepted, or one
-- behind whose writing the handling goes on.
unfoldable pub settled_by : Input → Option ℕ
settled_by (receives false (event e)) = some e.seq
settled_by (handles seq) = some seq
settled_by _ = none

abbrev pub later_of : ℕ → Option ℕ → ℕ
later_of latest none = latest
later_of latest (some seq) = seq

abbrev pub IsLater : ℕ → Option ℕ → Type 0
IsLater latest none = Unit
IsLater latest (some seq) = latest < seq

-- The handlings of the events end with rising sequence numbers, after `latest`.
abbrev pub IsRising : ℕ → List Input → Type 0
IsRising latest [] = Unit
IsRising latest (i ∷ inputs) =
    IsLater latest (settled_by i) × IsRising (later_of latest (settled_by i)) inputs
