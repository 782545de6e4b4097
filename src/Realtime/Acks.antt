-- ===== src/Realtime/Acks.antt =====
-- The acknowledgements of packages/core/src/realtime.ts: the list of them, and the invariant of the
-- coordinator about them.
pub mod Quiet
pub mod Steps
pub mod Settled
pub mod Rising
use mathlib.Core.List.{append-nil}
use comamessenger.Prelude.{
  ℕ, ◌+◌, ◌≤◌, ◌<◌, String, ◌≡◌, refl, sym, ap, ◌∙◌, ◌⊎◌, inl, inr, Option, none, some, Bool, true,
  false, List, [], ◌∷◌, ◌++◌, arith, leb, leb→le, leb_false→lt, str_eq, ◌==◌, if◌then◌else◌,
  Bool-cases, Option-cases, All, All-mono, All-append,
}
use comamessenger.Wire.{
  DurableEvent, authenticating, idle, live, resync_required, password_change_required,
}
use comamessenger.Realtime.{
  OutFrame, auth, subscribe_active, typing, presence, ack, Effect, state, sent, closed,
  ephemeral_reset, notified, resynced, password_change, expired, saving, retry_in, AckTimer,
  Coordinator, InFrame, hello, event, resync, error, ephemeral, unknown, is_ready, send,
  close_socket, connect, connected, connect_failed, start, stop, backoff, cancel, greeted,
  subscribe, send_typing, send_presence, on_open, send_ack, schedule_ack, ack_timeout, receive,
  on_close, reauthenticate, reauthenticated, Renewal, create, Socket, renewed, unauthorized, failed,
}
use comamessenger.Realtime.Inputs.{Input, step, run, later_of, IsRising}

-- The acknowledgements among the effects.
unfoldable pub acks : List Effect → List ℕ
acks [] = []
acks (sent (ack seq) ∷ es) = seq ∷ acks es
acks (_ ∷ es) = acks es

abbrev pub is_ack : Effect → Bool
is_ack (sent (ack seq)) = true
is_ack _ = false

pub acks-snoc : (es : List Effect) (e : Effect) → is_ack e ≡ false → acks (es ++ e ∷ []) ≡ acks es
unfolding acks
acks-snoc [] (sent (ack seq)) h = cc
acks-snoc [] (sent (auth token seq)) h = refl
acks-snoc [] (sent (subscribe_active c t)) h = refl
acks-snoc [] (sent (typing c t a)) h = refl
acks-snoc [] (sent (presence a)) h = refl
acks-snoc [] _ h = refl
acks-snoc (sent (ack seq) ∷ es) e h = ap (◌∷◌ seq) (acks-snoc es e h)
acks-snoc (sent (auth token seq) ∷ es) e h = acks-snoc es e h
acks-snoc (sent (subscribe_active c t) ∷ es) e h = acks-snoc es e h
acks-snoc (sent (typing c t a) ∷ es) e h = acks-snoc es e h
acks-snoc (sent (presence a) ∷ es) e h = acks-snoc es e h
acks-snoc (_ ∷ es) e h = acks-snoc es e h

pub acks-snoc_ack :
    (es : List Effect) (seq : ℕ) → acks (es ++ sent (ack seq) ∷ []) ≡ acks es ++ seq ∷ []
unfolding acks
acks-snoc_ack [] seq = refl
acks-snoc_ack (sent (ack n) ∷ es) seq = ap (◌∷◌ n) (acks-snoc_ack es seq)
acks-snoc_ack (sent (auth token n) ∷ es) seq = acks-snoc_ack es seq
acks-snoc_ack (sent (subscribe_active c t) ∷ es) seq = acks-snoc_ack es seq
acks-snoc_ack (sent (typing c t a) ∷ es) seq = acks-snoc_ack es seq
acks-snoc_ack (sent (presence a) ∷ es) seq = acks-snoc_ack es seq
acks-snoc_ack (_ ∷ es) seq = acks-snoc_ack es seq

abbrev pub IsIncreasing : List ℕ → Type 0
IsIncreasing [] = Unit
IsIncreasing (n ∷ ns) = All (λ m. n < m) ns × IsIncreasing ns

pub IsIncreasing-snoc :
    (ns : List ℕ) (m n : ℕ)
    → All (λ k. k ≤ m) ns
    → m < n
    → IsIncreasing ns
    → IsIncreasing (ns ++ n ∷ [])
IsIncreasing-snoc [] m n b h i = (tt, tt)
IsIncreasing-snoc (k ∷ ns) m n (b, bs) h (a, i) =
    (All-append (λ x. k < x) ns (n ∷ []) a (omega arith, tt), IsIncreasing-snoc ns m n bs h i)

-- The handle of a timer, if its timeout is pending, holds a number that is not acknowledged yet.
abbrev pub IsAhead : ℕ → ℕ → Option AckTimer → Type 0
IsAhead last latest none = Unit
IsAhead last latest (some t) = (t.pending ≡ false) ⊎ ((last < t.seq) × (t.seq ≤ latest))

pub record AckInv (latest : ℕ) (c : Coordinator) : Type 0 where
  pub bounded : All (λ n. n ≤ c.last_ack) (acks c.effects)
  pub increasing : IsIncreasing (acks c.effects)
  pub received : c.last_ack ≤ latest
  pub ahead : IsAhead c.last_ack latest c.ack_timer
