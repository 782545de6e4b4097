-- ===== src/AgentConnection/Tests.antt =====
-- Two events whose handlings end in the opposite order.
use comamessenger.Prelude.{◌≡◌, none, List, [], ◌∷◌, ◌≤◌, All}
use comamessenger.AgentConnection.{create, event, hello, resync_required}
use comamessenger.AgentConnection.Inputs.{
  Input, starts, connects, opens, receives, handles, saves, closes, resyncs, run,
}
use comamessenger.AgentConnection.Acks.{acks, highest_event, IsNondecreasing, highest_event-run}

abbrev inputs : List Input
inputs =
    starts
    ∷ connects 1 3
    ∷ opens none
    ∷ receives hello
    ∷ receives (event 4)
    ∷ receives (event 5)
    ∷ handles 5
    ∷ handles 4
    ∷ saves 5
    ∷ saves 4
    ∷ receives (resync_required 9)
    ∷ resyncs
    ∷ closes 120
    ∷ []

highest_event-run_example :
    ((run inputs create).last_ack ≡ highest_event 0 inputs)
    × All (λ n. n ≤ highest_event 0 inputs) (acks (run inputs create).effects)
    × IsNondecreasing (acks (run inputs create).effects)
highest_event-run_example = highest_event-run inputs
