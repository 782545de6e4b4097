-- ===== src/AgentSdk.antt =====
-- The client library for agents: `DeltaCoalescer` of packages/agent-sdk/src/index.ts, with its bound as an argument. An operation
-- returns the coalescer and the texts that it emits.
pub mod Pieces
pub mod Socket
mod Tests
use comamessenger.Prelude.{ℕ, Bool, true, false, List, [], ◌∷◌, ◌++◌, ltb, if◌then◌else◌}
use comamessenger.AgentRuntime.Text.{Text, byte_length, is_empty}

pub record DeltaCoalescer : Type 0 where
  pub pending : Text
  pub timer : Bool

abbrev pub create : DeltaCoalescer
create = record { pending = []; timer = false }

unfoldable pub flush : DeltaCoalescer → DeltaCoalescer × List Text
flush c =
    (record { pending = []; timer = false }, if is_empty c.pending then [] else c.pending ∷ [])

-- one round of the loop of `push`
unfoldable pub push_character : ℕ → ℕ → DeltaCoalescer → DeltaCoalescer × List Text
unfolding flush
push_character max_bytes character c =
    let (c', emitted) =
      if ltb max_bytes (byte_length (c.pending ++ character ∷ [])) then flush c else (c, []) in
    (record c' { pending = c'.pending ++ character ∷ [] }, emitted)

unfoldable pub push_all : ℕ → Text → DeltaCoalescer → DeltaCoalescer × List Text
push_all max_bytes [] c = (c, [])
push_all max_bytes (character ∷ value) c =
    let (c', emitted) = push_character max_bytes character c in
    let (last, others) = push_all max_bytes value c' in (last, emitted ++ others)

unfoldable pub push : ℕ → Text → DeltaCoalescer → DeltaCoalescer × List Text
unfolding push_all
push max_bytes value c =
    if is_empty value
    then (c, [])
    else (let (c', emitted) = push_all max_bytes value c in (record c' { timer = true }, emitted))

unfoldable pub close : DeltaCoalescer → DeltaCoalescer × List Text
unfolding flush
close = flush
