-- ===== src/Store/Replay.antt =====
-- Durable events of packages/core/src/store.ts that are delivered more than once.
use comamessenger.Prelude.{
  ◌≤◌, max, ◌≡◌, refl, sym, ap, ◌∙◌, inl, inr, false, List, [], ◌∷◌, ◌++◌, arith, leb, leb→le,
  leb_false→lt, le→leb, Bool-cases, All,
}
use comamessenger.Wire.{DurableEvent}
use comamessenger.Store.State.{State, apply}

-- The store after a stream of durable events.
unfoldable pub apply_all : List DurableEvent → State → State
apply_all [] s = s
apply_all (e ∷ es) s = apply_all es (apply e s).0

checkpoint-apply :
    (e : DurableEvent) (s : State) → (apply e s).0.checkpoint ≡ max s.checkpoint e.seq
unfolding apply
checkpoint-apply e s = elim (Bool-cases (leb e.seq s.checkpoint)) [
  | inl old ↦ rw old (omega (arith, leb→le _ _ old))
  | inr new ↦ rw new (omega (arith, leb_false→lt _ _ new))
]

apply_old : (e : DurableEvent) (s : State) → e.seq ≤ s.checkpoint → apply e s ≡ (s, false)
unfolding apply
apply_old e s h = rw (le→leb e.seq s.checkpoint h)

abbrev IsSeen : State → List DurableEvent → Type 0
IsSeen s = All (λ e. e.seq ≤ s.checkpoint)

apply_all_seen : (es : List DurableEvent) (s : State) → IsSeen s es → apply_all es s ≡ s
unfolding apply_all
apply_all_seen [] s h = refl
apply_all_seen (e ∷ es) s (h, hs) = rw (apply_old e s h) (apply_all_seen es s hs)

checkpoint-le-apply_all :
    (es : List DurableEvent) (s : State) → s.checkpoint ≤ (apply_all es s).checkpoint
unfolding apply_all
checkpoint-le-apply_all [] s = omega arith
checkpoint-le-apply_all (e ∷ es) s =
    omega (arith, checkpoint-apply e s, checkpoint-le-apply_all es (apply e s).0)

apply_all-IsSeen : (es : List DurableEvent) (s : State) → IsSeen (apply_all es s) es
unfolding apply_all
apply_all-IsSeen [] s = tt
apply_all-IsSeen (e ∷ es) s = (
  omega (arith, checkpoint-apply e s, checkpoint-le-apply_all es (apply e s).0),
  apply_all-IsSeen es (apply e s).0,
)

apply_all-append :
    (es fs : List DurableEvent) (s : State) → apply_all (es ++ fs) s ≡ apply_all fs (apply_all es s)
unfolding apply_all
apply_all-append [] fs s = refl
apply_all-append (e ∷ es) fs s = apply_all-append es fs (apply e s).0

-- A stream of durable events that is delivered again from any earlier point, with more events behind
-- it, leaves the store as the stream and the later events do alone, whatever the order of the
-- sequence numbers; and no event moves the checkpoint back.
pub apply_all_again :
    (before again later : List DurableEvent) (s : State)
    → (apply_all (before ++ (again ++ (again ++ later))) s
        ≡ apply_all (before ++ (again ++ later)) s)
      × (s.checkpoint ≤ (apply_all (before ++ (again ++ later)) s).checkpoint)
apply_all_again before again later s = (
  apply_all-append before (again ++ (again ++ later)) s
      ∙ twice (apply_all before s)
      ∙ sym (apply_all-append before (again ++ later) s),
  checkpoint-le-apply_all (before ++ (again ++ later)) s,
)
  where
    twice : (t : State) → apply_all (again ++ (again ++ later)) t ≡ apply_all (again ++ later) t
    twice t =
        apply_all-append again (again ++ later) t
        ∙ apply_all-append again later (apply_all again t)
        ∙ ap (apply_all later) (apply_all_seen again (apply_all again t) (apply_all-IsSeen again t))
        ∙ sym (apply_all-append again later t)
