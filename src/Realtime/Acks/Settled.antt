-- ===== src/Realtime/Acks/Settled.antt =====
-- Which numbers packages/core/src/realtime.ts acknowledges.
use mathlib.Core.Option.{some-injective}
use comamessenger.Prelude.{
  subst, ℕ, ◌+◌, ◌≡◌, refl, ◌⊎◌, inl, inr, Option, none, some, Bool, true, false, ◌||◌, ◌==◌, List,
  [], ◌∷◌, arith, leb, if◌then◌else◌, Bool-cases, All, All-append,
}
use comamessenger.Wire.{idle, live}
use comamessenger.Realtime.{
  AckTimer, Coordinator, state, ephemeral_reset, is_ready, close_socket, stop, cancel, send_ack,
  schedule_ack, ack_timeout, handled, create,
}
use comamessenger.Realtime.Inputs.{Input, step, run, settled_by}
use comamessenger.Realtime.Acks.{acks, acks-snoc_ack}
use comamessenger.Realtime.Acks.Quiet.{
  SameAcks, effect-SameAcks, effects-SameAcks, close_socket-SameAcks,
}
use comamessenger.Realtime.Acks.Steps.{Kind, same, settles, stopping, timing_out, step_kind}

-- The numbers of the events whose handling ends.
unfoldable pub settled : List Input → List ℕ
unfolding settled_by
settled [] = []
settled (i ∷ inputs) = elim (settled_by i) [
  | none ↦ settled inputs
  | some seq ↦ seq ∷ settled inputs
]

abbrev pub is_among : ℕ → List ℕ → Bool
is_among n [] = false
is_among n (m ∷ ms) = let rest = is_among n ms in m == n || rest

module _ (P : ℕ → Type 0) where
  abbrev IsTimed : Option AckTimer → Type 0
  IsTimed none = Unit
  IsTimed (some t) = (t.pending ≡ false) ⊎ P t.seq

  abbrev IsFine : Coordinator → Type 0
  IsFine c = All P (acks c.effects) × IsTimed c.ack_timer

  same-IsFine : (c d : Coordinator) → SameAcks c d → IsFine c → IsFine d
  same-IsFine c d s (a, t) = (rw s.same_acks a, rw s.same_timer t)

  send_ack-IsFine : (seq : ℕ) (c : Coordinator) → P seq → IsFine c → IsFine (send_ack seq c)
  unfolding send_ack
  send_ack-IsFine seq c p (a, t) = elim (Bool-cases (is_ready c.socket)) [
    | inl e ↦
        rw (e, acks-snoc_ack c.effects seq) (All-append P (acks c.effects) (seq ∷ []) a (p, tt), tt)
    | inr e ↦ rw e (a, tt)
  ]

  schedule_ack-IsFine : (seq : ℕ) (c : Coordinator) → P seq → IsFine c → IsFine (schedule_ack seq c)
  unfolding schedule_ack
  schedule_ack-IsFine seq c p (a, t) = elim (Bool-cases (leb (c.last_ack + c.ack_batch) seq)) [
    | inl e ↦ rw e (send_ack-IsFine seq c p (a, t))
    | inr e ↦ rw e (by_timer c.ack_timer refl)
  ]
    where
      by_timer :
          (o : Option AckTimer)
          → c.ack_timer ≡ o
          → IsFine (elim o [
            | none ↦ record c { ack_timer = some (record { seq = seq; pending = true }) }
            | some t ↦ c
          ])
      by_timer none e = (a, inr p)
      by_timer (some u) e = (a, t)

  ack_timeout-IsFine : (c : Coordinator) → IsFine c → IsFine (ack_timeout c)
  unfolding ack_timeout
  ack_timeout-IsFine c (a, t) = by_timer c.ack_timer t
    where
      by_timer :
          (o : Option AckTimer)
          → IsTimed o
          → IsFine (elim o [ none ↦ c | some t ↦ if t.pending then send_ack t.seq c else c ])
      by_timer none u = (a, t)
      by_timer (some u) (inl dead) = rw dead (a, t)
      by_timer (some u) (inr p) = elim (Bool-cases u.pending) [
        | inl e ↦ rw e (send_ack-IsFine u.seq c p (a, t))
        | inr e ↦ rw e (a, t)
      ]

  stop-IsFine : (c : Coordinator) → IsFine c → IsFine (stop c)
  unfolding stop
  stop-IsFine c (a, t) =
      let closing = close_socket (record c { stopped = true }) in
      (
        rw
            (
              effects-SameAcks ephemeral_reset (state idle) closing refl refl,
              (close_socket-SameAcks (record c { stopped = true })).same_acks,
            )
            a,
        dead closing.ack_timer,
      )
    where
      dead : (o : Option AckTimer) → IsTimed (cancel o)
      dead none = tt
      dead (some u) = inl refl

  step-IsFine :
      (i : Input) (c : Coordinator)
      → ((seq : ℕ) → settled_by i ≡ some seq → P seq)
      → IsFine c
      → IsFine (step i c)
  step-IsFine i c h f = by_kind (step_kind i c)
    where
      by_kind : Kind i c → IsFine (step i c)
      by_kind (same e s) = same-IsFine c (step i c) s f
      by_kind (settles seq e s) = rw s (
          unfold handled in
          same-IsFine (schedule_ack seq c) (handled seq c)
            (effect-SameAcks (state live) (schedule_ack seq c) refl)
            (schedule_ack-IsFine seq c (h seq e) f))
      by_kind (stopping e s) = rw s (stop-IsFine c f)
      by_kind (timing_out e s) = rw s (ack_timeout-IsFine c f)

  run-IsFine :
      (inputs : List Input) (c : Coordinator)
      → All P (settled inputs)
      → IsFine c
      → All P (acks (run inputs c).effects)
  unfolding run settled
  run-IsFine [] c h f = f.0
  run-IsFine (i ∷ inputs) c h f =
      let (first, rest) = by_number (settled_by i) h in
      run-IsFine inputs (step i c) rest (step-IsFine i c first f)
    where
      by_number :
          (o : Option ℕ)
          → All P (elim o [ none ↦ settled inputs | some seq ↦ seq ∷ settled inputs ])
          → ((seq : ℕ) → o ≡ some seq → P seq) × All P (settled inputs)
      by_number none k = (λ seq q. absurd (ground (arith, q)), k)
      by_number (some n) (p, k) = (λ seq q. subst P (some-injective n seq q) p, k)

among_lem :
    (ns ms : List ℕ)
    → ((n : ℕ) → is_among n ns ≡ true → is_among n ms ≡ true)
    → All (λ n. is_among n ms ≡ true) ns
among_lem [] ms h = tt
among_lem (n ∷ ns) ms h = (h n (ground arith), among_lem ns ms (λ k e. h k (rw e (ground arith))))

-- Whatever happens to a coordinator, in whatever order, each number that it acknowledges is that of an
-- event that its callback did not accept, or of one behind whose writing to the storage the handling
-- went on.
pub acks-settled :
    (stored : ℕ) (inputs : List Input)
    → All (λ n. is_among n (settled inputs) ≡ true) (acks (run inputs (create stored)).effects)
unfolding create acks
acks-settled stored inputs =
    run-IsFine (λ n. is_among n (settled inputs) ≡ true) inputs (create stored)
      (among_lem (settled inputs) (settled inputs) (λ n h. h)) (tt, tt)
