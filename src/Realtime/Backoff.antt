-- ===== src/Realtime/Backoff.antt =====
-- The delays between reconnections in packages/core/src/realtime.ts.
use native.Mathlib.Nat.{pow-suc, one-le-pow}
use native.Mathlib.Numerals.{add-one}
use mathlib.Core.List.{append_assoc, append-nil}
use comamessenger.Prelude.{
  ℕ, ◌+◌, ◌*◌, ◌^◌, ◌≤◌, min, String, ◌≡◌, refl, sym, ap, ◌∙◌, inl, inr, Option, Bool, false, List,
  [], ◌∷◌, ◌++◌, arith, ltb, ◌==◌, if◌then◌else◌, Bool-cases,
}
use comamessenger.Wire.{live, backlog}
use comamessenger.Realtime.{
  Coordinator, Effect, state, sent, ephemeral_reset, retry_in, backoff, on_close, hello, receive,
  greeted, subscribe, send, is_ready, subscribe_active,
}

double : (n : ℕ) → 2 ^ (n + 1) ≡ 2 ^ n * 2
double n = rw add-one (pow-suc 2 n)

one-le-two_pow : (n : ℕ) → 1 ≤ 2 ^ n
one-le-two_pow n = one-le-pow n 2 (omega arith)

backoff_lem : (n : ℕ) → backoff (n + 1) ≡ min 30000 (2 * backoff n)
unfolding backoff
backoff_lem n = omega (arith, double n)

-- The delays that are asked for.
unfoldable pub retries : List Effect → List ℕ
retries [] = []
retries (retry_in n ∷ es) = n ∷ retries es
retries (_ ∷ es) = retries es

retries-append : (es fs : List Effect) → retries (es ++ fs) ≡ retries es ++ retries fs
unfolding retries
retries-append [] fs = refl
retries-append (retry_in n ∷ es) fs = ap (◌∷◌ n) (retries-append es fs)
retries-append (state s ∷ es) fs = retries-append es fs
retries-append (_ ∷ es) fs = retries-append es fs

-- A run of sockets that close with the same code, each with its number and the random part of the
-- delay, with no `hello` between them.
unfoldable pub close_times : ℕ → List (ℕ × ℕ) → Coordinator → Coordinator
close_times code [] c = c
close_times code ((number, jitter) ∷ closings) c =
    close_times code closings (on_close number code jitter c).0

-- Delays that start at `base` and double up to half a minute, each with its random part on top.
unfoldable pub doubled : ℕ → List (ℕ × ℕ) → List ℕ
doubled base [] = []
doubled base ((number, jitter) ∷ closings) =
    (base + jitter) ∷ doubled (min 30000 (2 * base)) closings

retries-close :
    (es : List Effect) (n : ℕ)
    → retries ((es ++ ephemeral_reset ∷ []) ++ retry_in n ∷ []) ≡ retries es ++ n ∷ []
unfolding retries
retries-close es n =
    retries-append (es ++ ephemeral_reset ∷ []) (retry_in n ∷ [])
    ∙ ap (λ l. l ++ n ∷ []) (retries-append es (ephemeral_reset ∷ []) ∙ append-nil (retries es))

on_close_lem :
    (number code jitter : ℕ) (c : Coordinator)
    → c.stopped ≡ false
    → (code == 4001) ≡ false
    → (retries (on_close number code jitter c).0.effects
        ≡ retries c.effects ++ (backoff c.reconnect_attempt + jitter) ∷ [])
      × ((on_close number code jitter c).0.stopped ≡ false)
      × ((on_close number code jitter c).0.reconnect_attempt ≡ c.reconnect_attempt + 1)
unfolding on_close
on_close_lem number code jitter c running other =
    rw (running, other) (retries-close c.effects (backoff c.reconnect_attempt + jitter), refl, refl)

retries-close_times :
    (code : ℕ) (closings : List (ℕ × ℕ)) (c : Coordinator)
    → c.stopped ≡ false
    → (code == 4001) ≡ false
    → retries (close_times code closings c).effects
      ≡ retries c.effects ++ doubled (backoff c.reconnect_attempt) closings
unfolding close_times doubled
retries-close_times code [] c running other = sym (append-nil (retries c.effects))
retries-close_times code ((number, jitter) ∷ closings) c running other =
    let (r, s, a) = on_close_lem number code jitter c running other in
    retries-close_times code closings (on_close number code jitter c).0 s other
    ∙ rw (r, a, backoff_lem c.reconnect_attempt)
        (append_assoc (retries c.effects) ((backoff c.reconnect_attempt + jitter) ∷ [])
          (doubled (min 30000 (2 * backoff c.reconnect_attempt)) closings))

subscribe_lem :
    (chat_id root_id : Option String) (c : Coordinator)
    → ((subscribe chat_id root_id c).stopped ≡ c.stopped)
      × ((subscribe chat_id root_id c).reconnect_attempt ≡ c.reconnect_attempt)
      × (retries (subscribe chat_id root_id c).effects ≡ retries c.effects)
unfolding subscribe send retries
subscribe_lem chat_id root_id c = elim (Bool-cases (is_ready c.socket)) [
  | inl ready ↦ rw ready (
    refl,
    refl,
    retries-append c.effects (sent (subscribe_active chat_id root_id) ∷ [])
        ∙ append-nil (retries c.effects),
  )
  | inr waits ↦ rw waits (refl, refl, refl)
]

-- The delays that are asked for after a connection that was greeted: half a second first, and then
-- each the double of the one before, up to half a minute, however many failures came before; and each
-- with its random part on top, which may take it past half a minute.
pub reconnect_delays :
    (code : ℕ) (closings : List (ℕ × ℕ)) (current_seq : ℕ) (interval batch : Option ℕ)
    (accepted : Bool) (c : Coordinator)
    → c.stopped ≡ false
    → (code == 4001) ≡ false
    → retries
        (close_times code closings
          (greeted current_seq (receive accepted (hello current_seq interval batch) c))).effects
      ≡ retries c.effects ++ doubled 500 closings
unfolding receive greeted retries backoff
reconnect_delays code closings current_seq interval batch accepted c running other =
    let welcomed = receive accepted (hello current_seq interval batch) c in
    let backlogged = state (if ltb c.stored current_seq then backlog else live) in
    let (s, a, r) =
      subscribe_lem c.active_chat_id c.active_thread_root_id
        (record welcomed { effects = c.effects ++ backlogged ∷ [] }) in
    retries-close_times code closings (greeted current_seq welcomed) (s ∙ running) other
    ∙ rw (a, r, retries-append c.effects (backlogged ∷ []))
        (ap (λ l. l ++ doubled 500 closings) (append-nil (retries c.effects)))
