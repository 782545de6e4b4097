-- ===== src/AgentRuntime/Coalescer.antt =====
-- `StreamingCoalescer` of apps/agent-runtime/src/runtime.ts. An operation returns the coalescer and
-- the texts that it emits.
use mathlib.Core.List.{append_assoc, append-nil}
use comamessenger.Prelude.{
  ◌<◌, ◌≡◌, refl, sym, ap, ◌∙◌, inl, inr, Bool, true, false, not, List, [], ◌∷◌, ◌++◌, arith, leb,
  if◌then◌else◌, Bool-cases,
}
use comamessenger.AgentRuntime.Text.{Text, byte_length, is_empty, max_bytes}
use comamessenger.AgentRuntime.Text.Split.{joined, joined-append}

pub record Coalescer : Type 0 where
  pub pending : Text
  -- whether `timer` is set
  pub timer : Bool

abbrev pub create : Coalescer
create = record { pending = []; timer = false }

unfoldable pub flush : Coalescer → Coalescer × List Text
flush c =
    (record { pending = []; timer = false }, if is_empty c.pending then [] else c.pending ∷ [])

unfoldable pub push : Text → Coalescer → Coalescer × List Text
unfolding flush
push delta c =
    if is_empty delta
    then (c, [])
    else if leb max_bytes (byte_length (c.pending ++ delta))
    then flush (record c { pending = c.pending ++ delta })
    else (record { pending = c.pending ++ delta; timer = true }, [])

unfoldable pub close : Coalescer → Coalescer × List Text
unfolding flush
close = flush

-- the callback of the timeout
unfoldable pub timed_out : Coalescer → Coalescer × List Text
unfolding flush
timed_out c = if c.timer then flush c else (c, [])

-- What happens to a coalescer until it is closed.
pub data Happening : Type 0 where
  pushed : Text → Happening
  times_out : Happening

unfoldable pub happen : Happening → Coalescer → Coalescer × List Text
unfolding push timed_out
happen (pushed delta) = push delta
happen times_out = timed_out

unfoldable pub run : List Happening → Coalescer → Coalescer × List Text
run [] c = (c, [])
run (h ∷ hs) c =
    let (c', first) = happen h c in let (last, others) = run hs c' in (last, first ++ others)

unfoldable pub deltas : List Happening → Text
deltas [] = []
deltas (pushed delta ∷ hs) = delta ++ deltas hs
deltas (times_out ∷ hs) = deltas hs

abbrev delta_of : Happening → Text
delta_of (pushed delta) = delta
delta_of times_out = []

-- Less than 8192 bytes are pending, and a timeout is set if anything is.
pub record IsValid (c : Coalescer) : Type 0 where
  pub small : byte_length c.pending < max_bytes
  pub timed : c.timer ≡ not (is_empty c.pending)

is_empty-append : (a b : Text) → is_empty b ≡ false → is_empty (a ++ b) ≡ false
is_empty-append [] b h = h
is_empty-append (c ∷ cs) b h = refl

flush-joined : (c : Coalescer) → joined (flush c).1 ≡ c.pending
unfolding flush joined
flush-joined c = by_pending c.pending
  where
    by_pending : (p : Text) → joined (if is_empty p then [] else p ∷ []) ≡ p
    by_pending [] = unfold joined in refl
    by_pending (x ∷ xs) = unfold joined in append-nil (x ∷ xs)

create-IsValid : IsValid create
unfolding byte_length
create-IsValid = record { small = omega arith; timed = refl }

-- A happening keeps the coalescer valid, and loses and reorders nothing.
happen_lem :
    (h : Happening) (c : Coalescer)
    → IsValid c
    → IsValid (happen h c).0
      × (joined (happen h c).1 ++ (happen h c).0.pending ≡ c.pending ++ delta_of h)
unfolding happen push timed_out joined
happen_lem (pushed []) c v = (v, sym (append-nil c.pending))
happen_lem (pushed (x ∷ xs)) c v =
    let delta : Text = x ∷ xs in
    elim (Bool-cases (leb max_bytes (byte_length (c.pending ++ delta)))) [
      | inl big ↦ rw big (
        create-IsValid,
        append-nil (joined (flush (record c { pending = c.pending ++ delta })).1)
            ∙ flush-joined (record c { pending = c.pending ++ delta }),
      )
      | inr fits ↦ rw fits (
        record {
          small = ground arith;
          timed = sym (ap not (is_empty-append c.pending delta refl));
        },
        refl,
      )
    ]
happen_lem times_out c v = by_timer c.timer
  where
    by_timer :
        (b : Bool)
        → IsValid (if b then flush c else (c, [])).0
          × (joined (if b then flush c else (c, [])).1 ++ (if b then flush c else (c, [])).0.pending
              ≡ c.pending ++ [])
    by_timer true = (
      create-IsValid,
      append-nil (joined (flush c).1) ∙ flush-joined c ∙ sym (append-nil c.pending),
    )
    by_timer false = unfold joined in (v, sym (append-nil c.pending))

deltas-cons : (h : Happening) (hs : List Happening) → deltas (h ∷ hs) ≡ delta_of h ++ deltas hs
unfolding deltas
deltas-cons (pushed delta) hs = refl
deltas-cons times_out hs = refl

run_lem :
    (hs : List Happening) (c : Coalescer)
    → IsValid c
    → IsValid (run hs c).0 × (joined (run hs c).1 ++ (run hs c).0.pending ≡ c.pending ++ deltas hs)
unfolding run deltas joined
run_lem [] c v = (v, sym (append-nil c.pending))
run_lem (h ∷ hs) c v =
    let (v₁, e₁) = happen_lem h c v in
    let (v₂, e₂) = run_lem hs (happen h c).0 v₁ in
    let first = joined (happen h c).1 in
    let (c', others) = run hs (happen h c).0 in
    (
      v₂,
      ap (λ l. l ++ c'.pending) (joined-append (happen h c).1 others)
          ∙ append_assoc first (joined others) c'.pending
          ∙ ap (λ l. first ++ l) e₂
          ∙ sym (append_assoc first (happen h c).0.pending (deltas hs))
          ∙ ap (λ l. l ++ deltas hs) e₁
          ∙ append_assoc c.pending (delta_of h) (deltas hs)
          ∙ ap (λ l. c.pending ++ l) (sym (deltas-cons h hs)),
    )

-- Whatever is pushed and however the timeouts fall, the texts that are emitted until the coalescer is
-- closed make up what was pushed, in order; and while it is open, less than 8192 bytes wait in it, for
-- a timeout that is set.
pub run-close :
    (happenings : List Happening)
    → (joined ((run happenings create).1 ++ (close (run happenings create).0).1)
        ≡ deltas happenings)
      × IsValid (run happenings create).0
      × ((close (run happenings create).0).0 ≡ create)
unfolding close flush
run-close happenings =
    let (v, e) = run_lem happenings create create-IsValid in
    (
      joined-append (run happenings create).1 (flush (run happenings create).0).1
          ∙ ap (λ l. joined (run happenings create).1 ++ l) (flush-joined (run happenings create).0)
          ∙ e,
      v,
      refl,
    )
