-- ===== src/AgentConnection/Acks.antt =====
-- The acknowledgements of apps/agent-runtime/src/connection.ts.
use mathlib.Core.List.{append_assoc, append-nil}
use comamessenger.Prelude.{
  ℕ, ◌+◌, ◌≤◌, max, String, ◌≡◌, refl, sym, ap, ◌∙◌, Option, none, some, Bool, true, false, List,
  [], ◌∷◌, ◌++◌, arith, if◌then◌else◌, All, All-append, All-mono,
}
use comamessenger.AgentConnection.{
  OutFrame, auth, agent_status, message_streaming, ack, ProtocolError, InFrame, unreadable, hello,
  other, event, resync_required, error, Effect, asked, sent, closed, handed, saving, protocol_error,
  retry_in, Socket, Manager, create, connect, start, close_socket, stop, send, send_status,
  send_streaming, reconnect, connected, connect_failed, on_open, on_close, receive, handled, saved,
  resynced, backoff,
}
use comamessenger.AgentConnection.Inputs.{
  Input, starts, stops, retries, fails_to_connect, closes, resyncs, connects, opens, receives,
  handles, saves, tells_status, streams, step, run,
}

-- The acknowledgements among the effects.
abbrev acks_of : Effect → List ℕ
acks_of (sent (ack seq)) = seq ∷ []
acks_of _ = []

unfoldable pub acks : List Effect → List ℕ
acks [] = []
acks (e ∷ es) = acks_of e ++ acks es

acks-snoc : (es : List Effect) (e : Effect) → acks (es ++ e ∷ []) ≡ acks es ++ acks_of e
unfolding acks
acks-snoc [] e = append-nil (acks_of e)
acks-snoc (f ∷ es) e =
    ap (λ l. acks_of f ++ l) (acks-snoc es e) ∙ sym (append_assoc (acks_of f) (acks es) (acks_of e))

quiet-snoc : (es : List Effect) (e : Effect) → acks_of e ≡ [] → acks (es ++ e ∷ []) ≡ acks es
quiet-snoc es e q = acks-snoc es e ∙ ap (λ l. acks es ++ l) q ∙ append-nil (acks es)

abbrev IsQuiet : Manager → Manager → Type 0
IsQuiet c d = (acks d.effects ≡ acks c.effects) × (d.last_ack ≡ c.last_ack)

close_socket-IsQuiet : (c : Manager) → IsQuiet c (close_socket c)
unfolding close_socket
close_socket-IsQuiet c = by_socket c.socket
  where
    by_socket :
        (o : Option Socket)
        → IsQuiet c (elim o [
          | none ↦ c
          | some s ↦ record c {
            socket = some (record s { is_open = false });
            effects = c.effects ++ closed s.number ∷ [];
          }
        ])
    by_socket none = (refl, refl)
    by_socket (some s) = (quiet-snoc c.effects (closed s.number) refl, refl)

send-IsQuiet : (f : OutFrame) (c : Manager) → acks_of (sent f) ≡ [] → IsQuiet c (send f c)
unfolding send
send-IsQuiet f c q = ground (arith, quiet-snoc c.effects (sent f) q)

connect-IsQuiet : (c : Manager) → IsQuiet c (connect c)
unfolding connect
connect-IsQuiet c = ground (arith, quiet-snoc c.effects asked refl)

reconnect-IsQuiet : (jitter : ℕ) (c : Manager) → IsQuiet c (reconnect jitter c)
unfolding reconnect
reconnect-IsQuiet jitter c =
    ground (arith, quiet-snoc c.effects (retry_in (backoff c.reconnect_attempt + jitter)) refl)

on_open-IsQuiet : (token : Option String) (c : Manager) → IsQuiet c (on_open token c)
unfolding on_open
on_open-IsQuiet token c = by_socket c.socket
  where
    by_socket :
        (o : Option Socket)
        → IsQuiet c (elim o [
          | none ↦ c
          | some s ↦ record c {
            socket = some (record s { is_open = true });
            effects = c.effects ++ sent (auth token s.checkpoint) ∷ [];
          }
        ])
    by_socket none = (refl, refl)
    by_socket (some s) = (quiet-snoc c.effects (sent (auth token s.checkpoint)) refl, refl)

-- A protocol error that is told closes the socket or not.
told-IsQuiet :
    (e : ProtocolError) (fatal : Bool) (c : Manager)
    → IsQuiet c (
        if fatal
        then close_socket (record c { effects = c.effects ++ protocol_error e ∷ [] })
        else record c { effects = c.effects ++ protocol_error e ∷ [] })
told-IsQuiet e false c = (quiet-snoc c.effects (protocol_error e) refl, refl)
told-IsQuiet e true c =
    let (a, l) = close_socket-IsQuiet (record c { effects = c.effects ++ protocol_error e ∷ [] }) in
    (a ∙ quiet-snoc c.effects (protocol_error e) refl, l)

receive-IsQuiet : (f : InFrame) (c : Manager) → IsQuiet c (receive f c)
unfolding receive
receive-IsQuiet unreadable c = told-IsQuiet _ true c
receive-IsQuiet hello c = (refl, refl)
receive-IsQuiet other c = (refl, refl)
receive-IsQuiet (event seq) c = (quiet-snoc c.effects (handed seq) refl, refl)
receive-IsQuiet (resync_required seq) c = (quiet-snoc c.effects (saving seq) refl, refl)
receive-IsQuiet (error code message fatal) c = told-IsQuiet _ fatal c

-- The number of the event that was handled and with which the checkpoint was then saved; a resync
-- saves the checkpoint too, and goes on with no acknowledgement.
abbrev event_saved_by : Input → Option ℕ
event_saved_by (saves seq) = some seq
event_saved_by _ = none

step-IsQuiet : (i : Input) (c : Manager) → event_saved_by i ≡ none → IsQuiet c (step i c)
unfolding step start stop connect_failed on_close resynced connected handled send_status
    send_streaming
step-IsQuiet starts c q = started c.stopped
  where
    started : (b : Bool) → IsQuiet c (if b then connect (record c { stopped = false }) else c)
    started true = connect-IsQuiet (record c { stopped = false })
    started false = (refl, refl)
step-IsQuiet stops c q = close_socket-IsQuiet (record c { stopped = true })
step-IsQuiet retries c q = connect-IsQuiet c
step-IsQuiet (fails_to_connect jitter) c q = reconnect-IsQuiet jitter c
step-IsQuiet (closes jitter) c q = reconnect-IsQuiet jitter c
step-IsQuiet resyncs c q = close_socket-IsQuiet c
step-IsQuiet (connects number checkpoint) c q = (refl, refl)
step-IsQuiet (opens token) c q = on_open-IsQuiet token c
step-IsQuiet (receives f) c q = receive-IsQuiet f c
step-IsQuiet (handles seq) c q = (quiet-snoc c.effects (saving seq) refl, refl)
step-IsQuiet (saves seq) c q = cc
step-IsQuiet (tells_status lease phase) c q = send-IsQuiet (agent_status lease phase) c refl
step-IsQuiet (streams lease id index delta reset done) c q =
    send-IsQuiet (message_streaming lease id index delta reset done) c refl

-- The highest number of the events whose saving has succeeded.
abbrev pub raised : ℕ → Input → ℕ
raised n (saves seq) = max n seq
raised n _ = n

unfoldable pub highest_event : ℕ → List Input → ℕ
highest_event n [] = n
highest_event n (i ∷ inputs) = highest_event (raised n i) inputs

abbrev pub IsNondecreasing : List ℕ → Type 0
IsNondecreasing [] = Unit
IsNondecreasing (n ∷ ns) = All (λ m. n ≤ m) ns × IsNondecreasing ns

IsNondecreasing-snoc :
    (ns : List ℕ) (n : ℕ)
    → All (λ k. k ≤ n) ns
    → IsNondecreasing ns
    → IsNondecreasing (ns ++ n ∷ [])
IsNondecreasing-snoc [] n b i = (tt, tt)
IsNondecreasing-snoc (k ∷ ns) n (b, bs) (a, i) =
    (All-append (λ x. k ≤ x) ns (n ∷ []) a (b, tt), IsNondecreasing-snoc ns n bs i)

record AckInv (n : ℕ) (c : Manager) : Type 0 where
  last : c.last_ack ≡ n
  bounded : All (λ k. k ≤ n) (acks c.effects)
  ordered : IsNondecreasing (acks c.effects)

IsQuiet-AckInv : {n : ℕ} (c d : Manager) → IsQuiet c d → AckInv n c → AckInv n d
IsQuiet-AckInv c d (a, l) v = record {
  last = l ∙ v.last;
  bounded = rw a v.bounded;
  ordered = rw a v.ordered;
}

saved-AckInv : {n : ℕ} (seq : ℕ) (c : Manager) → AckInv n c → AckInv (max n seq) (saved seq c)
unfolding saved
saved-AckInv {n} seq c v = by_socket c.socket
  where
    below : All (λ k. k ≤ max n seq) (acks c.effects)
    below =
        All-mono (λ k. k ≤ n) (λ k. k ≤ max n seq) (λ k h. omega arith) (acks c.effects) v.bounded

    by_socket :
        (o : Option Socket)
        → AckInv (max n seq) (elim o [
          | none ↦ record c { last_ack = max c.last_ack seq }
          | some s ↦ record c {
            last_ack = max c.last_ack seq;
            effects = c.effects ++ sent (ack (max c.last_ack seq)) ∷ [];
          }
        ])
    by_socket none = record {
      last = ap (λ l. max l seq) v.last;
      bounded = below;
      ordered = v.ordered;
    }
    by_socket (some s) = record {
      last = ap (λ l. max l seq) v.last;
      bounded =
          rw (v.last, acks-snoc c.effects (sent (ack (max n seq))))
            (All-append (λ k. k ≤ max n seq) (acks c.effects) (max n seq ∷ []) below
              (omega arith, tt));
      ordered =
          rw (v.last, acks-snoc c.effects (sent (ack (max n seq))))
            (IsNondecreasing-snoc (acks c.effects) (max n seq) below v.ordered);
    }

step-AckInv : {n : ℕ} (i : Input) (c : Manager) → AckInv n c → AckInv (raised n i) (step i c)
step-AckInv (saves seq) c v = unfold step in saved-AckInv seq c v
step-AckInv i c v = IsQuiet-AckInv c (step i c) (step-IsQuiet i c refl) v

run-AckInv :
    (n : ℕ) (inputs : List Input) (c : Manager)
    → AckInv n c
    → AckInv (highest_event n inputs) (run inputs c)
unfolding run highest_event
run-AckInv n [] c v = v
run-AckInv n (i ∷ inputs) c v = run-AckInv (raised n i) inputs (step i c) (step-AckInv i c v)

-- However the frames, the answers of the API and the sockets interleave, the numbers that the manager
-- acknowledges never fall and never pass the highest number of the events that were handled and saved
-- as the checkpoint, and its `lastAck` is that highest number. What a resync saves does not count.
pub highest_event-run :
    (inputs : List Input)
    → ((run inputs create).last_ack ≡ highest_event 0 inputs)
      × All (λ n. n ≤ highest_event 0 inputs) (acks (run inputs create).effects)
      × IsNondecreasing (acks (run inputs create).effects)
unfolding create acks
highest_event-run inputs =
    let v = run-AckInv 0 inputs create (record { last = refl; bounded = tt; ordered = tt }) in
    (v.last, v.bounded, v.ordered)
