-- ===== src/AgentSdk/Tests.antt =====
-- A bound of four bytes, and a text of six.
use comamessenger.Prelude.{List, ◌≡◌, true, [], ◌∷◌, ◌++◌, arith, All}
use comamessenger.AgentRuntime.Text.{Text, byte_length}
use comamessenger.AgentRuntime.Text.Split.{joined}
use comamessenger.AgentSdk.{DeltaCoalescer, push, close}
use comamessenger.AgentSdk.Socket.{
  RuntimeSocket, InFrame, event, other, error, receive_all, acks, maxima, acks-receive_all,
}
use comamessenger.AgentSdk.Pieces.{Fits, push-close}

abbrev begun : DeltaCoalescer
begun = record { pending = 104 ∷ 105 ∷ []; timer = true }

abbrev value : Text
value = 8364 ∷ 33 ∷ []

push-close_example :
    (joined ((push 4 value begun).1 ++ (close (push 4 value begun).0).1) ≡ begun.pending ++ value)
    × All (Fits 4 (omega arith)) ((push 4 value begun).1 ++ (close (push 4 value begun).0).1)
unfolding byte_length
push-close_example = push-close 4 (omega arith) value begun (omega arith)

abbrev opened_socket : RuntimeSocket
opened_socket = record { has_socket = true; is_open = true; last_ack = 3; effects = [] }

abbrev frames : List InFrame
frames = event 5 ∷ other ∷ event 4 ∷ error true ∷ []

acks-receive_all_example :
    acks (receive_all frames opened_socket).effects ≡ acks opened_socket.effects ++ maxima 3 frames
acks-receive_all_example = acks-receive_all frames opened_socket
