-- ===== src/Realtime/Acks/Quiet.antt =====
-- The operations of packages/core/src/realtime.ts that acknowledge nothing.
use comamessenger.Prelude.{
  ℕ, String, ◌≡◌, refl, ◌∙◌, inl, inr, Option, none, some, Bool, true, false, [], ◌∷◌, ◌++◌, ◌+◌,
  ◌==◌, if◌then◌else◌, Bool-cases,
}
use comamessenger.Realtime.{
  OutFrame, auth, subscribe_active, Effect, sent, closed, ephemeral_reset, expired, retry_in,
  Coordinator, is_ready, send, close_socket, connect, connect_failed, start, backoff, greeted,
  subscribe, on_open, on_close, mark_closed, reauthenticate, state, reauthenticated, Renewal,
  Socket, renewed, unauthorized, failed,
}
use comamessenger.Realtime.Acks.{acks, is_ack, acks-snoc, AckInv}

-- What does not touch the acknowledgements.
pub record SameAcks (c d : Coordinator) : Type 0 where
  pub same_acks : acks d.effects ≡ acks c.effects
  pub same_last : d.last_ack ≡ c.last_ack
  pub same_timer : d.ack_timer ≡ c.ack_timer

pub SameAcks-AckInv :
    {latest : ℕ} (c d : Coordinator) → SameAcks c d → AckInv latest c → AckInv latest d
SameAcks-AckInv {latest} c d s v = record {
  bounded = rw (s.same_acks, s.same_last) v.bounded;
  increasing = rw s.same_acks v.increasing;
  received = rw s.same_last v.received;
  ahead = rw (s.same_last, s.same_timer) v.ahead;
}

pub SameAcks-refl : (c : Coordinator) → SameAcks c c
SameAcks-refl c = record { same_acks = refl; same_last = refl; same_timer = refl }

pub SameAcks-trans : {c d e : Coordinator} → SameAcks c d → SameAcks d e → SameAcks c e
SameAcks-trans s t = record {
  same_acks = t.same_acks ∙ s.same_acks;
  same_last = t.same_last ∙ s.same_last;
  same_timer = t.same_timer ∙ s.same_timer;
}

-- An effect that is no acknowledgement.
pub effect-SameAcks :
    (e : Effect) (c : Coordinator)
    → is_ack e ≡ false
    → SameAcks c (record c { effects = c.effects ++ e ∷ [] })
effect-SameAcks e c h = record {
  same_acks = acks-snoc c.effects e h;
  same_last = refl;
  same_timer = refl;
}

pub send-SameAcks :
    (f : OutFrame) (c : Coordinator) → is_ack (sent f) ≡ false → SameAcks c (send f c)
unfolding send
send-SameAcks f c h = elim (Bool-cases (is_ready c.socket)) [
  | inl e ↦ rw e (effect-SameAcks (sent f) c h)
  | inr e ↦ rw e (SameAcks-refl c)
]

pub subscribe-SameAcks :
    (chat_id thread_root_id : Option String) (c : Coordinator)
    → SameAcks c (subscribe chat_id thread_root_id c)
unfolding subscribe
subscribe-SameAcks chat_id thread_root_id c =
    let sent_one =
      send-SameAcks (subscribe_active chat_id thread_root_id)
        (record c { active_chat_id = chat_id; active_thread_root_id = thread_root_id }) refl in
    record {
      same_acks = sent_one.same_acks;
      same_last = sent_one.same_last;
      same_timer = sent_one.same_timer;
    }

-- With or without a socket.
pub SameAcks-socket :
    {c : Coordinator} (o : Option Socket) (f : Socket → Coordinator)
    → ((s : Socket) → SameAcks c (f s))
    → SameAcks c (elim o [ none ↦ c | some s ↦ f s ])
SameAcks-socket {c} none f h = SameAcks-refl c
SameAcks-socket (some s) f h = h s

pub close_socket-SameAcks : (c : Coordinator) → SameAcks c (close_socket c)
unfolding close_socket
close_socket-SameAcks c = SameAcks-socket c.socket _ λ s. record {
  same_acks = acks-snoc c.effects (closed s.number) refl;
  same_last = refl;
  same_timer = refl;
}

-- On either branch of a test.
pub SameAcks-if :
    {c : Coordinator} (b : Bool) (d e : Coordinator)
    → SameAcks c d
    → SameAcks c e
    → SameAcks c (if b then d else e)
SameAcks-if true d e p q = p
SameAcks-if false d e p q = q

pub pair-SameAcks-if :
    {c : Coordinator} (b : Bool) (d e : Coordinator × Bool)
    → SameAcks c d.0
    → SameAcks c e.0
    → SameAcks c (if b then d else e).0
pair-SameAcks-if true d e p q = p
pair-SameAcks-if false d e p q = q

pub connect-SameAcks : (again : Bool) (c : Coordinator) → SameAcks c (connect again c).0
unfolding connect
connect-SameAcks again c =
    pair-SameAcks-if c.stopped _ _ (SameAcks-refl c) (effect-SameAcks _ c refl)

pub connect_failed-SameAcks : (c : Coordinator) → SameAcks c (connect_failed c)
unfolding connect_failed
connect_failed-SameAcks c =
    SameAcks-if c.stopped _ _ (SameAcks-refl c) (effect-SameAcks (retry_in 1000) c refl)

pub start-SameAcks : (c : Coordinator) → SameAcks c (start c).0
unfolding start
start-SameAcks c =
    let s = connect-SameAcks false (record c { stopped = false }) in
    record { same_acks = s.same_acks; same_last = s.same_last; same_timer = s.same_timer }

-- Two effects that are no acknowledgements.
pub effects-SameAcks :
    (e f : Effect) (c : Coordinator)
    → is_ack e ≡ false
    → is_ack f ≡ false
    → acks ((c.effects ++ e ∷ []) ++ f ∷ []) ≡ acks c.effects
effects-SameAcks e f c h k = acks-snoc _ f k ∙ acks-snoc c.effects e h

pub on_open-SameAcks : (token : Option String) (c : Coordinator) → SameAcks c (on_open token c)
unfolding on_open
on_open-SameAcks token c = SameAcks-socket c.socket _ λ s. record {
  same_acks = effects-SameAcks _ (sent (auth token s.checkpoint)) c refl refl;
  same_last = refl;
  same_timer = refl;
}

pub reauthenticate-SameAcks : (c : Coordinator) → SameAcks c (reauthenticate c).0
unfolding reauthenticate
reauthenticate-SameAcks c =
    pair-SameAcks-if c.stopped _ _ (SameAcks-refl c) (effect-SameAcks _ c refl)

pub on_close-SameAcks :
    (number code jitter : ℕ) (c : Coordinator) → SameAcks c (on_close number code jitter c).0
unfolding on_close
on_close-SameAcks number code jitter c = pair-SameAcks-if c.stopped _ _ reset (
    pair-SameAcks-if (code == 4001) _ _
      (pair-SameAcks-if c.password_change_required _ _ reset
        (SameAcks-trans reset (reauthenticate-SameAcks _)))
      (record {
        same_acks =
            effects-SameAcks ephemeral_reset (retry_in (backoff c.reconnect_attempt + jitter)) c
              refl refl;
        same_last = refl;
        same_timer = refl;
      }))
  where
    reset : SameAcks c (record c {
      socket = mark_closed number c.socket;
      effects = c.effects ++ ephemeral_reset ∷ [];
    })
    reset = record {
      same_acks = acks-snoc c.effects ephemeral_reset refl;
      same_last = refl;
      same_timer = refl;
    }

pub reauthenticated-SameAcks : (r : Renewal) (c : Coordinator) → SameAcks c (reauthenticated r c).0
unfolding reauthenticated
reauthenticated-SameAcks renewed c =
    pair-SameAcks-if c.stopped _ _ (SameAcks-refl c) (connect-SameAcks true c)
reauthenticated-SameAcks unauthorized c = pair-SameAcks-if c.stopped _ _ (SameAcks-refl c) (record {
  same_acks = effects-SameAcks _ expired c refl refl;
  same_last = refl;
  same_timer = refl;
})
reauthenticated-SameAcks failed c =
    pair-SameAcks-if c.stopped _ _ (SameAcks-refl c) (effect-SameAcks (retry_in 1000) c refl)

pub greeted-SameAcks : (current_seq : ℕ) (c : Coordinator) → SameAcks c (greeted current_seq c)
unfolding greeted
greeted-SameAcks current_seq c =
    SameAcks-trans (effect-SameAcks (state _) c refl)
      (subscribe-SameAcks c.active_chat_id c.active_thread_root_id _)

-- What leaves the acknowledgements as they are keeps the invariant.
pub keep : {latest : ℕ} {c d : Coordinator} → SameAcks c d → AckInv latest c → AckInv latest d
keep {c} {d} s v = SameAcks-AckInv c d s v
