-- ===== src/AgentConnection/Inputs.antt =====
-- All that can happen to the manager of apps/agent-runtime/src/connection.ts, as one step function.
use comamessenger.Prelude.{ℕ, String, Option, Bool, List, [], ◌∷◌}
use comamessenger.Wire.{AgentPhase}
use comamessenger.AgentConnection.{
  Lease, InFrame, Manager, start, stop, connect, connected, connect_failed, send_status,
  send_streaming, on_open, on_close, receive, handled, saved, resynced,
}

pub data Input : Type 0 where
  starts stops retries resyncs : Input
  fails_to_connect closes : ℕ → Input
  connects : ℕ → ℕ → Input
  opens : Option String → Input
  receives : InFrame → Input
  handles saves : ℕ → Input
  tells_status : Lease → AgentPhase → Input
  streams : Lease → String → ℕ → String → Bool → Bool → Input

unfoldable pub step : Input → Manager → Manager
step starts = start
step stops = stop
step retries = connect
step (fails_to_connect jitter) = connect_failed jitter
step (closes jitter) = on_close jitter
step resyncs = resynced
step (connects number checkpoint) = connected number checkpoint
step (opens token) = on_open token
step (receives frame) = receive frame
step (handles seq) = handled seq
step (saves seq) = saved seq
step (tells_status lease phase) = send_status lease phase
step (streams lease id index delta reset done) = send_streaming lease id index delta reset done

unfoldable pub run : List Input → Manager → Manager
run [] c = c
run (i ∷ inputs) c = run inputs (step i c)
