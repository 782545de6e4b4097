-- ===== src/Realtime/Tests.antt =====
-- A coordinator that connects, receives events, and loses its connection.
use comamessenger.Prelude.{ℕ, ◌≡◌, refl, none, some, true, false, List, [], ◌∷◌, ◌++◌, arith, All}
use comamessenger.Wire.{DurableEvent, reaction_added}
use comamessenger.Store.State.{create_messenger_store}
use comamessenger.Realtime.{Coordinator, create, hello, event, receive, greeted}
use comamessenger.Realtime.Inputs.{
  Input, starts, stops, connects, opens, receives, times_out, run, greets, writes, handles,
  settled_by,
}
use comamessenger.Realtime.Acks.{acks, IsIncreasing}
use comamessenger.Realtime.Acks.Rising.{acks-run}
use comamessenger.Realtime.Acks.Settled.{settled, is_among, acks-settled}
use comamessenger.Realtime.Storage.{Happening, delivers, lands, passes}
use comamessenger.Realtime.Backoff.{reconnect_delays, close_times, doubled, retries}
use comamessenger.Realtime.Sessions.{Client}

abbrev reaction : ℕ → DurableEvent
reaction seq = record {
  seq = seq;
  body = reaction_added;
  occurred_at = "t";
  actor_id = "a";
  chat_id = none;
  subject_id = "m";
}

-- The events 4 and 5 interleave with the writings of their numbers.
abbrev inputs : List Input
inputs =
    starts
    ∷ connects 1 (some "token")
    ∷ opens (some "token")
    ∷ receives true (hello 9 none (some 2))
    ∷ greets 9
    ∷ receives true (event (reaction 4))
    ∷ receives true (event (reaction 5))
    ∷ writes 4
    ∷ handles 4
    ∷ times_out
    ∷ writes 5
    ∷ handles 5
    ∷ stops
    ∷ receives false (event (reaction 6))
    ∷ []

acks-run_example : IsIncreasing (acks (run inputs (create 3)).effects)
unfolding settled_by
acks-run_example = acks-run 3 inputs (
  tt,
  (
    tt,
    (
      tt,
      (
        tt,
        (tt, (tt, (tt, (tt, (omega arith, (tt, (tt, (omega arith, (tt, (omega arith, tt)))))))))),
      ),
    ),
  ),
)

acks-settled_example :
    All (λ n. is_among n (4 ∷ 5 ∷ 6 ∷ []) ≡ true) (acks (run inputs (create 3)).effects)
unfolding settled settled_by
acks-settled_example = acks-settled 3 inputs

abbrev running : Coordinator
running = record (create 3) { stopped = false; reconnect_attempt = 4 }

reconnect_delays_example :
    retries
      (close_times 1006
        ((1, 20) ∷ (2, 300) ∷ [])
        (greeted 9 (receive true (hello 9 none none) running))).effects
    ≡ retries running.effects ++ 520 ∷ 1300 ∷ []
unfolding create doubled
reconnect_delays_example =
    reconnect_delays 1006 ((1, 20) ∷ (2, 300) ∷ []) 9 none none true running refl refl

abbrev client : Client
client = record { coordinator = running; store = create_messenger_store 3; begun = [] }

abbrev events : List DurableEvent
events = reaction 4 ∷ reaction 8 ∷ []

-- The writing of 8 takes effect before that of 4, whose event's writing then fails.
abbrev happenings : List Happening
happenings =
    delivers (reaction 4) ∷ delivers (reaction 8) ∷ lands 8 ∷ passes (handles 8) ∷ passes stops ∷ []
