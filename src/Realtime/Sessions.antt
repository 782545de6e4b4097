-- ===== src/Realtime/Sessions.antt =====
-- Stops and resumptions in packages/core/src/realtime.ts, and its event callback in
-- apps/web/src/shell/useMessengerSession.ts.
use comamessenger.Prelude.{
  ℕ, ◌<◌, Bool, false, ◌||◌, List, [], ◌∷◌, ◌++◌, ◌==◌, if◌then◌else◌, str_eq,
}
use comamessenger.Wire.{DurableEvent, EventBody, other_event}
use comamessenger.Store.State.{State, apply}
use comamessenger.Realtime.{Coordinator, event, receive, handled, written}

-- The callback's result: `applied || profileEvent`.
abbrev pub is_profile : EventBody → Bool
is_profile (other_event kind) =
    str_eq kind "actor.status.updated" || str_eq kind "actor.avatar.updated"
is_profile _ = false

abbrev pub is_begun : ℕ → List ℕ → Bool
is_begun seq [] = false
is_begun seq (n ∷ ns) = let rest = is_begun seq ns in n == seq || rest

-- A coordinator over the store that its event callback fills, with the numbers whose writing to the
-- storage has begun.
pub record Client : Type 0 where
  pub coordinator : Coordinator
  pub store : State
  pub begun : List ℕ

-- An event comes, and the writing of its number begins if it is accepted.
unfoldable pub deliver : DurableEvent → Client → Client
deliver e c =
    let (store, applied) = apply e c.store in
    let accepted = applied || is_profile e.body in
    record {
      coordinator = receive accepted (event e) c.coordinator;
      store = store;
      begun = if accepted then c.begun ++ e.seq ∷ [] else c.begun;
    }

-- A writing that has begun takes effect, if it does not fail.
unfoldable pub land : ℕ → Client → Client
land seq c =
    if is_begun seq c.begun then record c { coordinator = written seq c.coordinator } else c

-- An event comes, and if it is accepted its number is written and its handling goes on, before
-- anything else happens.
unfoldable pub take_in : DurableEvent → Client → Client
unfolding deliver land
take_in e c =
    let landed = land e.seq (deliver e c) in
    if (apply e c.store).1 || is_profile e.body
    then record landed { coordinator = handled e.seq landed.coordinator }
    else deliver e c

unfoldable pub deliver_all : List DurableEvent → Client → Client
unfolding take_in
deliver_all [] c = c
deliver_all (e ∷ es) c = deliver_all es (take_in e c)

abbrev pub IsRisingFrom : ℕ → List DurableEvent → Type 0
IsRisingFrom n [] = Unit
IsRisingFrom n (e ∷ es) = (n < e.seq) × IsRisingFrom e.seq es

abbrev pub last_seq : ℕ → List DurableEvent → ℕ
last_seq n [] = n
last_seq n (e ∷ es) = last_seq e.seq es
