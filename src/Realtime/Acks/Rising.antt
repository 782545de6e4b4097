-- ===== src/Realtime/Acks/Rising.antt =====
-- The order of the acknowledgements of packages/core/src/realtime.ts.
use comamessenger.Prelude.{
  ℕ, ◌+◌, ◌≤◌, ◌<◌, ◌≡◌, refl, inl, inr, Option, none, some, true, List, [], ◌∷◌, arith, leb,
  if◌then◌else◌, Bool-cases, All, All-mono, All-append,
}
use comamessenger.Wire.{idle, live}
use comamessenger.Realtime.{
  state, ephemeral_reset, Coordinator, is_ready, close_socket, stop, cancel, send_ack, schedule_ack,
  ack_timeout, handled, create, AckTimer,
}
use comamessenger.Realtime.Inputs.{Input, step, run, settled_by, later_of, IsLater, IsRising}
use comamessenger.Realtime.Acks.{
  acks, acks-snoc_ack, IsIncreasing, IsIncreasing-snoc, IsAhead, AckInv,
}
use comamessenger.Realtime.Acks.Steps.{Kind, same, settles, stopping, timing_out, step_kind}
use comamessenger.Realtime.Acks.Quiet.{
  close_socket-SameAcks, effect-SameAcks, effects-SameAcks, keep,
}

send_ack-AckInv :
    {latest : ℕ} (seq : ℕ) (c : Coordinator)
    → c.last_ack < seq
    → seq ≤ latest
    → AckInv latest c
    → AckInv latest (send_ack seq c)
unfolding send_ack
send_ack-AckInv seq c new old v = elim (Bool-cases (is_ready c.socket)) [
  | inl e ↦ record {
    bounded =
        rw (e, acks-snoc_ack c.effects seq)
          (All-append (λ n. n ≤ seq) (acks c.effects) (seq ∷ []) below (omega arith, tt));
    increasing =
        rw (e, acks-snoc_ack c.effects seq)
          (IsIncreasing-snoc (acks c.effects) c.last_ack seq v.bounded new v.increasing);
    received = rw e old;
    ahead = rw e tt;
  }
  | inr e ↦ record {
    bounded = rw e below;
    increasing = rw e v.increasing;
    received = rw e old;
    ahead = rw e tt;
  }
]
  where
    below : All (λ n. n ≤ seq) (acks c.effects)
    below =
        All-mono (λ n. n ≤ c.last_ack) (λ n. n ≤ seq) (λ n h. omega arith) (acks c.effects)
          v.bounded

later-AckInv :
    {latest : ℕ} (seq : ℕ) (c : Coordinator) → latest < seq → AckInv latest c → AckInv seq c
later-AckInv {latest} seq c h v = record {
  bounded = v.bounded;
  increasing = v.increasing;
  received = omega (arith, v.received);
  ahead = later c.ack_timer v.ahead;
}
  where
    later : (t : Option AckTimer) → IsAhead c.last_ack latest t → IsAhead c.last_ack seq t
    later none a = tt
    later (some t) (inl dead) = inl dead
    later (some t) (inr (a, b)) = inr (a, omega arith)

schedule_ack-AckInv :
    {latest : ℕ} (seq : ℕ) (c : Coordinator)
    → latest < seq
    → AckInv latest c
    → AckInv seq (schedule_ack seq c)
unfolding schedule_ack
schedule_ack-AckInv {latest} seq c h v = elim (Bool-cases (leb (c.last_ack + c.ack_batch) seq)) [
  | inl e ↦ rw e (send_ack-AckInv seq c (omega (arith, v.received)) (omega arith) w)
  | inr e ↦ rw e (by_timer c.ack_timer refl)
]
  where
    w : AckInv seq c
    w = later-AckInv seq c h v

    by_timer :
        (o : Option AckTimer)
        → c.ack_timer ≡ o
        → AckInv seq (elim o [
          | none ↦ record c { ack_timer = some (record { seq = seq; pending = true }) }
          | some t ↦ c
        ])
    by_timer none e = record {
      bounded = v.bounded;
      increasing = v.increasing;
      received = w.received;
      ahead = inr (omega (arith, v.received), omega arith);
    }
    by_timer (some t) e = w

ack_timeout-AckInv :
    {latest : ℕ} (c : Coordinator) → AckInv latest c → AckInv latest (ack_timeout c)
unfolding ack_timeout
ack_timeout-AckInv {latest} c v = by_timer c.ack_timer v.ahead
  where
    by_timer :
        (o : Option AckTimer)
        → IsAhead c.last_ack latest o
        → AckInv latest (elim o [ none ↦ c | some t ↦ if t.pending then send_ack t.seq c else c ])
    by_timer none a = v
    by_timer (some t) (inl dead) = rw dead v
    by_timer (some t) (inr (a, b)) = elim (Bool-cases t.pending) [
      | inl e ↦ rw e (send_ack-AckInv t.seq c a b v)
      | inr e ↦ rw e v
    ]

cancelled-AckInv :
    {latest : ℕ} (c : Coordinator)
    → AckInv latest c
    → AckInv latest (record c { ack_timer = cancel c.ack_timer })
cancelled-AckInv {latest} c v = record {
  bounded = v.bounded;
  increasing = v.increasing;
  received = v.received;
  ahead = dead c.ack_timer;
}
  where
    dead : (t : Option AckTimer) → IsAhead c.last_ack latest (cancel t)
    dead none = tt
    dead (some t) = inl refl

stop-AckInv : {latest : ℕ} (c : Coordinator) → AckInv latest c → AckInv latest (stop c)
unfolding stop
stop-AckInv {latest} c v =
    keep
      (record {
        same_acks = effects-SameAcks ephemeral_reset (state idle) closing refl refl;
        same_last = refl;
        same_timer = refl;
      })
      (cancelled-AckInv closing
        (keep (close_socket-SameAcks (record c { stopped = true })) started))
  where
    started : AckInv latest (record c { stopped = true })
    started = record {
      bounded = v.bounded;
      increasing = v.increasing;
      received = v.received;
      ahead = v.ahead;
    }

    closing : Coordinator
    closing = close_socket (record c { stopped = true })

handled-AckInv :
    {latest : ℕ} (seq : ℕ) (c : Coordinator)
    → latest < seq
    → AckInv latest c
    → AckInv seq (handled seq c)
unfolding handled
handled-AckInv seq c h v =
    keep (effect-SameAcks (state live) (schedule_ack seq c) refl) (schedule_ack-AckInv seq c h v)

step-AckInv :
    {latest : ℕ} (i : Input) (c : Coordinator)
    → IsLater latest (settled_by i)
    → AckInv latest c
    → AckInv (later_of latest (settled_by i)) (step i c)
step-AckInv {latest} i c h v = by_kind (step_kind i c)
  where
    by_kind : Kind i c → AckInv (later_of latest (settled_by i)) (step i c)
    by_kind (same e s) = rw e (keep s v)
    by_kind (settles seq e s) = rw (e, s) (handled-AckInv seq c (rw e at h) v)
    by_kind (stopping e s) = rw (e, s) (stop-AckInv c v)
    by_kind (timing_out e s) = rw (e, s) (ack_timeout-AckInv c v)

run-AckInv :
    (latest : ℕ) (inputs : List Input) (c : Coordinator)
    → IsRising latest inputs
    → AckInv latest c
    → IsIncreasing (acks (run inputs c).effects)
unfolding run
run-AckInv latest [] c h v = v.increasing
run-AckInv latest (i ∷ inputs) c (h, hs) v =
    run-AckInv (later_of latest (settled_by i)) inputs (step i c) hs (step-AckInv i c h v)

-- Over the life of a coordinator, through any stops, starts, closes and reconnects and however its
-- frames and the writings of the storage interleave, if the handlings of the events end with rising
-- sequence numbers then the numbers that the coordinator acknowledges rise strictly.
pub acks-run :
    (stored : ℕ) (inputs : List Input)
    → IsRising 0 inputs
    → IsIncreasing (acks (run inputs (create stored)).effects)
unfolding create acks
acks-run stored inputs h =
    run-AckInv 0 inputs (create stored) h
      (record { bounded = tt; increasing = tt; received = omega arith; ahead = tt })
