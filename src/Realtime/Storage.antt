-- ===== src/Realtime/Storage.antt =====
-- The checkpoint of packages/core/src/realtime.ts beside that of the store, however the writings to
-- the storage interleave with the rest.
use comamessenger.Prelude.{ℕ, ◌≤◌, Bool, true, false, List, [], ◌∷◌, if◌then◌else◌, All}
use comamessenger.Wire.{DurableEvent}
use comamessenger.Store.State.{State}
use comamessenger.Realtime.{event}
use comamessenger.Realtime.Inputs.{Input, step}
use comamessenger.Realtime.Sessions.{Client, deliver, land}

-- An event that comes, a writing that takes effect, or anything else.
pub data Happening : Type 0 where
  delivers : DurableEvent → Happening
  lands : ℕ → Happening
  passes : Input → Happening

-- The inputs that bring no event and write nothing.
abbrev pub is_other : Input → Bool
is_other (Input.receives accepted (event e)) = false
is_other (Input.writes value) = false
is_other (Input.resyncs high) = false
is_other _ = true

unfoldable pub happen : Happening → Client → Client
unfolding deliver land step
happen (delivers e) c = deliver e c
happen (lands seq) c = land seq c
happen (passes i) c = if is_other i then record c { coordinator = step i c.coordinator } else c

unfoldable pub happen_all : List Happening → Client → Client
unfolding happen
happen_all [] c = c
happen_all (h ∷ hs) c = happen_all hs (happen h c)

-- Neither what is stored nor what is being written is past the store.
abbrev pub IsBehind : Client → Type 0
IsBehind c = (c.coordinator.stored ≤ c.store.checkpoint) × All (λ n. n ≤ c.store.checkpoint) c.begun
