-- ===== src/Realtime/Acks/Steps.antt =====
-- What a step of packages/core/src/realtime.ts has to do with the acknowledgements.
use comamessenger.Prelude.{ℕ, ◌≡◌, refl, arith, none, some, Bool, true, false, str_eq}
use comamessenger.Wire.{resync_required, password_change_required}
use comamessenger.Realtime.{
  typing, presence, state, notified, resynced, password_change, saving, Coordinator, InFrame, hello,
  event, resync, error, ephemeral, unknown, connected, stop, send_typing, send_presence,
  ack_timeout, receive, handled, written, resynchronized, replaced,
}
use comamessenger.Realtime.Inputs.{
  Input, starts, stops, retries, times_out, fails_to_connect, replaces, connects, subscribes, types,
  turns, opens, receives, greets, handles, writes, resyncs, closes, reauthenticates, step,
  settled_by,
}
use comamessenger.Realtime.Acks.Quiet.{
  SameAcks, SameAcks-refl, SameAcks-if, effect-SameAcks, effects-SameAcks, send-SameAcks,
  subscribe-SameAcks, close_socket-SameAcks, connect-SameAcks, connect_failed-SameAcks,
  start-SameAcks, on_open-SameAcks, on_close-SameAcks, reauthenticated-SameAcks, greeted-SameAcks,
}

-- A step leaves the acknowledgements as they are, ends the handling of an event, stops the
-- coordinator, or is the timeout of the acknowledgement.
pub data Kind (i : Input) (c : Coordinator) : Type 0 where
  same : settled_by i ≡ none → SameAcks c (step i c) → Kind i c
  settles : (seq : ℕ) → settled_by i ≡ some seq → step i c ≡ handled seq c → Kind i c
  stopping : settled_by i ≡ none → step i c ≡ stop c → Kind i c
  timing_out : settled_by i ≡ none → step i c ≡ ack_timeout c → Kind i c

unchanged :
    (c d : Coordinator)
    → d.effects ≡ c.effects
    → d.last_ack ≡ c.last_ack
    → d.ack_timer ≡ c.ack_timer
    → SameAcks c d
unchanged c d e l t = record { same_acks = rw e refl; same_last = l; same_timer = t }

receive-SameAcks :
    (accepted : Bool) (f : InFrame) (c : Coordinator)
    → settled_by (receives accepted f) ≡ none
    → SameAcks c (receive accepted f c)
unfolding receive settled_by
receive-SameAcks accepted (hello current_seq interval batch) c h = unchanged c _ refl refl refl
receive-SameAcks true (event e) c h = effect-SameAcks (saving e.seq) c refl
receive-SameAcks false (event e) c h = absurd (ground (arith, h))
receive-SameAcks accepted (resync high) c h = record {
  same_acks = effects-SameAcks (state resync_required) (resynced high) c refl refl;
  same_last = refl;
  same_timer = refl;
}
receive-SameAcks accepted (error code) c h =
    SameAcks-if (str_eq code "password_change_required") _ _
      (record {
        same_acks = effects-SameAcks (state password_change_required) password_change c refl refl;
        same_last = refl;
        same_timer = refl;
      })
      (SameAcks-refl c)
receive-SameAcks accepted (ephemeral op) c h = effect-SameAcks (notified op) c refl
receive-SameAcks accepted unknown c h = SameAcks-refl c

receives_kind : (accepted : Bool) (f : InFrame) (c : Coordinator) → Kind (receives accepted f) c
unfolding step receive settled_by
receives_kind false (event e) c = settles e.seq refl refl
receives_kind true (event e) c = same refl (receive-SameAcks true (event e) c refl)
receives_kind accepted f c = same refl (receive-SameAcks accepted f c refl)

pub step_kind : (i : Input) (c : Coordinator) → Kind i c
unfolding step send_typing send_presence connected written resynchronized replaced settled_by
step_kind starts c = same refl (start-SameAcks c)
step_kind stops c = stopping refl refl
step_kind retries c = same refl (connect-SameAcks true c)
step_kind times_out c = timing_out refl refl
step_kind fails_to_connect c = same refl (connect_failed-SameAcks c)
step_kind replaces c = same refl (close_socket-SameAcks c)
step_kind (connects number token) c = same refl (unchanged c _ refl refl refl)
step_kind (subscribes chat_id thread_root_id) c =
    same refl (subscribe-SameAcks chat_id thread_root_id c)
step_kind (types chat_id active thread_root_id) c =
    same refl (send-SameAcks (typing chat_id thread_root_id active) c refl)
step_kind (turns active) c = same refl (send-SameAcks (presence active) c refl)
step_kind (opens token) c = same refl (on_open-SameAcks token c)
step_kind (receives accepted frame) c = receives_kind accepted frame c
step_kind (greets current_seq) c = same refl (greeted-SameAcks current_seq c)
step_kind (handles seq) c = settles seq refl refl
step_kind (writes value) c = same refl (unchanged c _ refl refl refl)
step_kind (resyncs high) c = same refl (effect-SameAcks (saving high) c refl)
step_kind (closes number code jitter) c = same refl (on_close-SameAcks number code jitter c)
step_kind (reauthenticates renewal) c = same refl (reauthenticated-SameAcks renewal c)
